-- ===== src/Congestion/Ledger.antt =====
-- congestion: what both controllers promise alike: the numbers of datagrams, and the time of the
-- oldest ACK that was not sent.
use go_raknet.Prelude.{
  ℕ, zero, suc, ◌+◌, ◌++◌, sym, ◌%◌, ◌^◌, ◌≡◌, refl, ap, ◌∙◌, List, [], ◌∷◌, Bool, ◌==◌,
  if◌then◌else◌, arith,
}
use go_raknet.Congestion.Float64.{Float64}
use go_raknet.Congestion.Controller.{
  Controller, Call, transmission, retransmission, queue_ack, send_ack, send_bytes, datagram_sent,
  ack, nak, resend, call, run, number_of, numbers,
}
use go_raknet.Congestion.Controllers.{udt_controller, sliding_window_controller}
use go_raknet.Congestion.Udt as Udt
use go_raknet.Congestion.Udt.{Udt}
use go_raknet.Congestion.Udt.Rate as Rate
use go_raknet.Congestion.SlidingWindow as SlidingWindow
use go_raknet.Congestion.SlidingWindow.{SlidingWindow}

pub record Ledger : Type 0 where
  pub next : ℕ
  pub oldest : ℕ

-- The calls on a ledger, one by one: three of them change it.
unfoldable record_call : Call → Ledger → Ledger
record_call (queue_ack now) l = record l { oldest = if l.oldest == 0 then now else l.oldest }
record_call send_ack l = record l { oldest = 0 }
record_call datagram_sent l = record l { next = (l.next + 1) % 2 ^ 32 }
record_call _ l = l

unfoldable record_calls : List Call → Ledger → Ledger
record_calls [] l = l
record_calls (x ∷ xs) l = record_calls xs (record_call x l)

unfoldable count_from : List Call → ℕ → List ℕ
count_from [] n = []
count_from (datagram_sent ∷ xs) n = n ∷ count_from xs ((n + 1) % 2 ^ 32)
count_from (x ∷ xs) n = count_from xs n

-- What has happened: how many datagrams were sent, and the times of the ACKs queued since the last were
-- sent.
pub record History : Type 0 where
  pub sent : ℕ
  pub unsent : List ℕ

unfoldable pub happen : History → List Call → History
happen h [] = h
happen h (datagram_sent ∷ xs) = happen (record h { sent = h.sent + 1 }) xs
happen h (queue_ack now ∷ xs) = happen (record h { unsent = h.unsent ++ (now ∷ []) }) xs
happen h (send_ack ∷ xs) = happen (record h { unsent = [] }) xs
happen h (x ∷ xs) = happen h xs

-- The first time that is not 0, and 0 if there is none.
unfoldable pub first_set : List ℕ → ℕ
first_set [] = 0
first_set (t ∷ times) = if t == 0 then first_set times else t

abbrev pub ledger_of : History → Ledger
ledger_of h = record { next = h.sent % 2 ^ 32; oldest = first_set h.unsent }

-- `k` numbers in a row, modulo 2 ^ 32.
abbrev pub in_a_row : ℕ → ℕ → List ℕ
in_a_row n zero = []
in_a_row n (suc k) = n % 2 ^ 32 ∷ in_a_row (n + 1) k

unfoldable pub sends : List Call → ℕ
sends [] = 0
sends (datagram_sent ∷ xs) = suc (sends xs)
sends (x ∷ xs) = sends xs

first_set-append :
    (times : List ℕ) (now : ℕ)
    → first_set (times ++ (now ∷ [])) ≡ (if first_set times == 0 then now else first_set times)
unfolding first_set
first_set-append [] now = ground arith
first_set-append (t ∷ times) now = ground (arith, first_set-append times now)

record_calls-happen :
    (xs : List Call) (h : History) → record_calls xs (ledger_of h) ≡ ledger_of (happen h xs)
unfolding record_calls record_call happen
record_calls-happen [] h = refl
record_calls-happen (datagram_sent ∷ xs) h =
    let e : (h.sent % 2 ^ 32 + 1) % 2 ^ 32 ≡ (h.sent + 1) % 2 ^ 32 = omega arith in
    ap (λ n. record_calls xs (record { next = n; oldest = first_set h.unsent })) e
    ∙ record_calls-happen xs (record h { sent = h.sent + 1 })
record_calls-happen (queue_ack now ∷ xs) h =
    ap (λ t. record_calls xs (record { next = h.sent % 2 ^ 32; oldest = t }))
      (sym (first_set-append h.unsent now))
    ∙ record_calls-happen xs (record h { unsent = h.unsent ++ (now ∷ []) })
record_calls-happen (send_ack ∷ xs) h =
    ap (λ t. record_calls xs (record { next = h.sent % 2 ^ 32; oldest = t })) (sym first_set-none)
    ∙ record_calls-happen xs (record h { unsent = [] })
  where
    first_set-none : first_set [] ≡ 0
    first_set-none = unfold first_set in refl
record_calls-happen (transmission since unacked continuous ∷ xs) h = record_calls-happen xs h
record_calls-happen (retransmission since unacked continuous ∷ xs) h = record_calls-happen xs h
record_calls-happen (send_bytes n ∷ xs) h = record_calls-happen xs h
record_calls-happen (ack rtt continuous total seq ∷ xs) h = record_calls-happen xs h
record_calls-happen (nak ∷ xs) h = record_calls-happen xs h
record_calls-happen (resend ∷ xs) h = record_calls-happen xs h

count_from-sends : (xs : List Call) (n : ℕ) → count_from xs (n % 2 ^ 32) ≡ in_a_row n (sends xs)
unfolding count_from sends
count_from-sends [] n = refl
count_from-sends (datagram_sent ∷ xs) n =
    let e : (n % 2 ^ 32 + 1) % 2 ^ 32 ≡ (n + 1) % 2 ^ 32 = omega arith in
    ap (λ k. n % 2 ^ 32 ∷ count_from xs k) e
    ∙ ap (λ l. n % 2 ^ 32 ∷ l) (count_from-sends xs (n + 1))
count_from-sends (queue_ack now ∷ xs) n = count_from-sends xs n
count_from-sends (send_ack ∷ xs) n = count_from-sends xs n
count_from-sends (transmission since unacked continuous ∷ xs) n = count_from-sends xs n
count_from-sends (retransmission since unacked continuous ∷ xs) n = count_from-sends xs n
count_from-sends (send_bytes k ∷ xs) n = count_from-sends xs n
count_from-sends (ack rtt continuous total seq ∷ xs) n = count_from-sends xs n
count_from-sends (nak ∷ xs) n = count_from-sends xs n
count_from-sends (resend ∷ xs) n = count_from-sends xs n

-- A controller keeps a ledger, seen through `view`.
record IsLedger {C : Type 0} (control : Controller C) (view : C → Ledger) : Type 0 where
  keeps : (x : Call) (c : C) → view (call control x c) ≡ record_call x (view c)
  numbered : (c : C) → (control.on_datagram_sent c).1 ≡ (view c).next

module _ {F : Type 0} ⦃d : Float64 F⦄ where
  unfoldable pub udt_ledger : Udt F → Ledger
  udt_ledger c = record { next = c.next_datagram_sequence_number; oldest = c.oldest_unsent_ack }

  cap_min_snd-ledger : (c : Udt F) → udt_ledger (Rate.cap_min_snd c) ≡ udt_ledger c
  unfolding udt_ledger Rate.cap_min_snd
  cap_min_snd-ledger c = ground arith

  slower-ledger : (c : Udt F) → udt_ledger (Rate.increase_time_between_sends c) ≡ udt_ledger c
  unfolding udt_ledger Rate.increase_time_between_sends Rate.cap_min_snd
  slower-ledger c = ground arith

  end_slow_start-ledger :
      (c : Udt F) → udt_ledger (Rate.end_slow_start_with_estimated_as c) ≡ udt_ledger c
  unfolding udt_ledger Rate.end_slow_start_with_estimated_as Rate.cap_min_snd
  end_slow_start-ledger c = ground arith

  on_nak-ledger : (c : Udt F) → udt_ledger (Rate.on_nak c) ≡ udt_ledger c
  unfolding udt_ledger Rate.on_nak Rate.end_slow_start_with_estimated_as
      Rate.increase_time_between_sends Rate.cap_min_snd
  on_nak-ledger c = ground arith

  on_resend-ledger : (c : Udt F) → udt_ledger (Rate.on_resend c) ≡ udt_ledger c
  unfolding udt_ledger Rate.on_resend Rate.end_slow_start_with_estimated_as
      Rate.increase_time_between_sends Rate.cap_min_snd
  on_resend-ledger c = ground arith

  decide-ledger :
      (rtt : ℕ) (slope average : F) (c : Udt F)
      → udt_ledger (Rate.decide rtt slope average c) ≡ udt_ledger c
  unfolding udt_ledger Rate.decide Rate.increase_time_between_sends Rate.decrease_time_between_sends
      Rate.cap_min_snd
  decide-ledger rtt slope average c = ground arith

  end_block-ledger :
      (rtt : ℕ) (pings : List F) (c : Udt F)
      → udt_ledger (Rate.end_block rtt pings c) ≡ udt_ledger c
  unfolding udt_ledger Rate.end_block Rate.decide Rate.increase_time_between_sends
      Rate.decrease_time_between_sends Rate.cap_min_snd
  end_block-ledger rtt [] c = refl
  end_block-ledger rtt (x ∷ xs) c = ground arith

  per_syn-ledger :
      (rtt : ℕ) (continuous : Bool) (seq : ℕ) (c : Udt F)
      → udt_ledger (Rate.update_window_size_and_ack_on_ack_per_syn rtt continuous seq c)
        ≡ udt_ledger c
  unfolding udt_ledger Rate.update_window_size_and_ack_on_ack_per_syn
  per_syn-ledger rtt continuous seq c =
      let pings = Rate.add_ping rtt c in
      ground (arith, end_block-ledger rtt pings (record c { pings_last_interval = pings }))

  grow_window-ledger :
      (total : ℕ) (c : Udt F) → udt_ledger (Rate.grow_window total c) ≡ udt_ledger c
  unfolding udt_ledger Rate.grow_window Rate.end_slow_start_with_estimated_as Rate.cap_min_snd
  grow_window-ledger total c = ground arith

  update_rtt-ledger : (rtt : ℕ) (c : Udt F) → udt_ledger (Rate.update_rtt rtt c) ≡ udt_ledger c
  unfolding udt_ledger Rate.update_rtt
  update_rtt-ledger rtt c = ground arith

  on_ack-ledger :
      (rtt : ℕ) (continuous : Bool) (total seq : ℕ) (c : Udt F)
      → udt_ledger (Rate.on_ack rtt continuous total seq c) ≡ udt_ledger c
  unfolding udt_ledger Rate.on_ack
  on_ack-ledger rtt continuous total seq c =
      let c' = Rate.update_rtt rtt c in
      ground (
        arith,
        update_rtt-ledger rtt c,
        per_syn-ledger rtt continuous seq c',
        grow_window-ledger total (record c' {
          next_congestion_control_block = c.next_datagram_sequence_number;
          last_rtt_on_increase_send_rate =
              if rtt == 0 then c.last_rtt_on_increase_send_rate else rtt;
        }),
      )

  udt-keeps :
      (x : Call) (c : Udt F) → udt_ledger (call udt_controller x c) ≡ record_call x (udt_ledger c)
  unfolding udt_ledger call udt_controller record_call Udt.get_transmission_bandwidth
      Udt.get_retransmission_bandwidth Udt.on_queue_ack Udt.on_send_ack Udt.on_send_bytes
      Udt.on_datagram_sent
  udt-keeps (transmission since unacked continuous) c = ground arith
  udt-keeps (retransmission since unacked continuous) c = ground arith
  udt-keeps (queue_ack now) c = ground arith
  udt-keeps send_ack c = ground arith
  udt-keeps (send_bytes n) c = ground arith
  udt-keeps datagram_sent c = ground arith
  udt-keeps (ack rtt continuous total seq) c = on_ack-ledger rtt continuous total seq c
  udt-keeps nak c = on_nak-ledger c
  udt-keeps resend c = on_resend-ledger c

  unfoldable pub sw_ledger : SlidingWindow F → Ledger
  sw_ledger c = record { next = c.next_datagram_sequence_number; oldest = c.oldest_unsent_ack }

  sw_on_ack-ledger :
      (rtt : ℕ) (continuous : Bool) (total seq : ℕ) (c : SlidingWindow F)
      → sw_ledger (SlidingWindow.on_ack rtt continuous total seq c) ≡ sw_ledger c
  unfolding sw_ledger SlidingWindow.on_ack SlidingWindow.grow_window SlidingWindow.start_period
      SlidingWindow.estimate
  sw_on_ack-ledger rtt continuous total seq c = ground arith

  sw-keeps :
      (x : Call) (c : SlidingWindow F)
      → sw_ledger (call sliding_window_controller x c) ≡ record_call x (sw_ledger c)
  unfolding sw_ledger call sliding_window_controller record_call
      SlidingWindow.get_transmission_bandwidth SlidingWindow.get_retransmission_bandwidth
      SlidingWindow.on_queue_ack SlidingWindow.on_send_ack SlidingWindow.on_send_bytes
      SlidingWindow.on_datagram_sent SlidingWindow.on_nak SlidingWindow.on_resend
  sw-keeps (ack rtt continuous total seq) c = sw_on_ack-ledger rtt continuous total seq c
  sw-keeps (transmission since unacked continuous) c = ground arith
  sw-keeps (retransmission since unacked continuous) c = ground arith
  sw-keeps (queue_ack now) c = ground arith
  sw-keeps send_ack c = ground arith
  sw-keeps (send_bytes n) c = ground arith
  sw-keeps datagram_sent c = ground arith
  sw-keeps nak c = ground arith
  sw-keeps resend c = ground arith

module _ {C : Type 0} {control : Controller C} {view : C → Ledger}
    (keeper : IsLedger control view) where
  run-ledger : (xs : List Call) (c : C) → view (run control xs c) ≡ record_calls xs (view c)
  unfolding run record_calls
  run-ledger [] c = refl
  run-ledger (x ∷ xs) c = run-ledger xs (call control x c) ∙ ap (record_calls xs) (keeper.keeps x c)

  numbers-ledger : (xs : List Call) (c : C) → numbers control xs c ≡ count_from xs (view c).next
  unfolding numbers number_of count_from record_call
  numbers-ledger [] c = refl
  numbers-ledger (x ∷ xs) c =
      go x
        (numbers-ledger xs (call control x c) ∙ ap (λ l. count_from xs l.next) (keeper.keeps x c))
    where
      go :
          (x : Call)
          → numbers control xs (call control x c) ≡ count_from xs (record_call x (view c)).next
          → numbers control (x ∷ xs) c ≡ count_from (x ∷ xs) (view c).next
      go (transmission since unacked continuous) h = h
      go (retransmission since unacked continuous) h = h
      go (queue_ack now) h = h
      go send_ack h = h
      go (send_bytes n) h = h
      go datagram_sent h = rw (keeper.numbered c) (ap (λ l. (view c).next ∷ l) h)
      go (ack rtt continuous total seq) h = h
      go nak h = h
      go resend h = h

module _ {F : Type 0} ⦃d : Float64 F⦄ where
  udt-IsLedger : IsLedger udt_controller (udt_ledger {F = F})
  unfolding udt_controller Udt.on_datagram_sent udt_ledger
  udt-IsLedger = record { keeps = udt-keeps; numbered = λ c. refl }

  sw-IsLedger : IsLedger sliding_window_controller (sw_ledger {F = F})
  unfolding sliding_window_controller SlidingWindow.on_datagram_sent sw_ledger
  sw-IsLedger = record { keeps = sw-keeps; numbered = λ c. refl }

  -- Whatever calls a connection makes, and whatever their times and sizes are, both controllers keep the
  -- same account. The datagrams get the numbers of a row, modulo 2 ^ 32, that goes on from the datagrams
  -- sent before, and the next number is the count of all of them. The time kept for the ACKs is the first
  -- time other than 0 at which one was queued since they were last sent, and 0 if there is none.
  pub run-IsLedger :
      (xs : List Call) (h : History) (u : Udt F) (s : SlidingWindow F)
      → udt_ledger u ≡ ledger_of h
      → sw_ledger s ≡ ledger_of h
      → (udt_ledger (run udt_controller xs u) ≡ ledger_of (happen h xs))
        × (numbers udt_controller xs u ≡ in_a_row h.sent (sends xs))
        × (sw_ledger (run sliding_window_controller xs s) ≡ ledger_of (happen h xs))
        × (numbers sliding_window_controller xs s ≡ in_a_row h.sent (sends xs))
  run-IsLedger xs h u s at_u at_s = (
    run-ledger udt-IsLedger xs u ∙ ap (record_calls xs) at_u ∙ record_calls-happen xs h,
    numbers-ledger udt-IsLedger xs u
        ∙ ap (λ l. count_from xs l.next) at_u
        ∙ count_from-sends xs h.sent,
    run-ledger sw-IsLedger xs s ∙ ap (record_calls xs) at_s ∙ record_calls-happen xs h,
    numbers-ledger sw-IsLedger xs s
        ∙ ap (λ l. count_from xs l.next) at_s
        ∙ count_from-sends xs h.sent,
  )
