-- ===== src/Transfer/Sending.antt =====
-- conn.go: the datagrams that `write` hands to the socket while the budget lasts.
use go_raknet.Prelude.{
  ℕ, ◌+◌, ◌*◌, ◌^◌, ◌<◌, ◌≤◌, ◌≡◌, refl, ◌∙◌, ap, sym, subst, List, [], ◌∷◌, ◌++◌, Bool, true,
  false, ltb, arith, length, concat, Result, ok, append_assoc, append-nil, length-append,
}
use go_raknet.Binary.{next24, inc, uint24_bytes, write_uint24}
use go_raknet.Packet.{Packet, write, reliable, sequenced, sequenced_or_ordered}
use go_raknet.Packet.Codec.{write-encoding, length-write}
use go_raknet.Congestion.Controller.{Controller}
use go_raknet.Conn.{Conn}
use go_raknet.Conn.Flush.{send_open}
use go_raknet.Conn.Sending.{
  datagram_flags, write_all, send_datagram, write_to, spend, queue_or_send, write_loop,
  fragment_packet,
}
use go_raknet.Conn.Sending as Sending
use go_raknet.Transfer.Datagrams.{wire, IsFlags}
use go_raknet.Transfer.Contents.{part, parts, Carries}

datagram_flags-IsFlags : (slow continuous : Bool) → IsFlags (datagram_flags slow continuous)
unfolding datagram_flags
datagram_flags-IsFlags true true = record { no_ack = refl; no_nack = refl; is_datagram = λ e. cc }
datagram_flags-IsFlags true false = record { no_ack = refl; no_nack = refl; is_datagram = λ e. cc }
datagram_flags-IsFlags false true = record { no_ack = refl; no_nack = refl; is_datagram = λ e. cc }
datagram_flags-IsFlags false false = record { no_ack = refl; no_nack = refl; is_datagram = λ e. cc }

write_all-wire :
    (flags seq : ℕ) (pk : Packet)
    → write_all (pk ∷ []) (write_uint24 (flags ∷ []) seq) ≡ wire flags seq pk
unfolding write_all write_uint24
write_all-wire flags seq pk =
    write-encoding pk (flags ∷ uint24_bytes seq)
    ∙ ap (λ x. flags ∷ (uint24_bytes seq ++ x)) (sym (write-encoding pk []))

-- A packet of a content takes at most 28 bytes of a datagram besides the content.
length-wire :
    (several : Bool) (flags seq count order id i message : ℕ) (f : List ℕ)
    → length (wire flags seq (part several count order id i message f)) ≤ length f + 28
unfolding reliable sequenced sequenced_or_ordered
length-wire several flags seq count order id i message f =
    let pk = part several count order id i message f in
    ground (arith, length-write pk [], length-append (uint24_bytes seq) (write pk []))

module _ {C : Type 0} (control : Controller C) (now : ℕ) where
  -- What sending the datagrams `ds` leaves, `k` of them, at a cost of at most `cost`.
  pub record IsSent (c : Conn C) (ds : List (List ℕ)) (k cost : ℕ) (q : Conn C) : Type 0 where
    pub out_after : q.out ≡ c.out ++ ds
    pub seq_after : q.seq ≡ c.seq + k
    pub message_after : q.message_index ≡ c.message_index + k
    pub budget_after : c.send_budget ≤ q.send_budget + cost
    pub same_order : q.order_index ≡ c.order_index
    pub same_mtu : q.mtu ≡ c.mtu
    pub nothing_waits : q.pending ≡ []
    pub open_after : q.socket_closed ≡ false

  queue_or_send-within :
      (c : Conn C) (pk : Packet)
      → ltb 0 c.send_budget ≡ true
      → c.socket_closed ≡ false
      → queue_or_send control now c pk ≡ (
        spend control
            (length (Sending.datagram control c (pk ∷ [])))
            (send_datagram control now c (pk ∷ [])).0,
        ok tt,
      )
  unfolding queue_or_send
  queue_or_send-within c pk e o = rw (e, send_open control now c (pk ∷ []) o) refl

  -- One fragment.
  fragment-IsSent :
      (c : Conn C) (several : Bool) (order count id i : ℕ) (f : List ℕ)
      → 0 < c.send_budget
      → c.socket_closed ≡ false
      → c.pending ≡ []
      → c.seq + 1 < 2 ^ 24
      → c.message_index + 1 < 2 ^ 24
      → let pk = part several count order id i c.message_index f in
        let q =
          queue_or_send control now (record c { message_index = next24 c.message_index }) pk in
        (q.1 ≡ ok tt)
        × ((d : List ℕ) × ((flags : ℕ) × IsFlags flags × (d ≡ wire flags c.seq pk))
            × IsSent c (d ∷ []) 1 (length f + 28) q.0)
  unfolding send_datagram write_to spend inc Sending.datagram
  fragment-IsSent c several order count id i f budget o none_wait small few =
      let pk = part several count order id i c.message_index f in
      let c1 = record c { message_index = next24 c.message_index } in
      let flags = datagram_flags (control.is_in_slow_start c.cc) (Sending.is_some c.pending) in
      let b = Sending.datagram control c1 (pk ∷ []) in
      let e = queue_or_send-within c1 pk (ground arith) o in
      let w : b ≡ wire flags c.seq pk = write_all-wire flags c.seq pk in
      rw (e) (
        refl,
        (
          b,
          (
            flags,
            datagram_flags-IsFlags (control.is_in_slow_start c.cc) (Sending.is_some c.pending),
            w,
          ),
          record {
            out_after = rw (o) refl;
            seq_after = rw (o) (omega arith);
            message_after = rw (o) (omega arith);
            budget_after = rw (o) (
                omega (
                  arith,
                  length-wire several flags c.seq count order id i c.message_index f,
                  ap length w,
                ));
            same_order = rw (o) refl;
            same_mtu = rw (o) refl;
            nothing_waits = rw (o) none_wait;
            open_after = rw (o) refl;
          },
        ),
      )

  -- What is sent of the fragments `fs` from the index `i` on.
  pub record IsWritten (c : Conn C) (order count id i : ℕ) (fs : List (List ℕ)) (n : ℕ)
      (q : Conn C × Result ℕ) : Type 0 where
    pub datagrams : List (List ℕ)
    pub carries : Carries c.seq datagrams (parts (ltb 1 count) count order id i c.message_index fs)
    pub sent : IsSent c datagrams (length fs) (length (concat fs) + 28 * length fs) q.0
    pub returned : q.1 ≡ ok (n + length (concat fs))

  pub write_loop-IsWritten :
      (order count id i : ℕ) (fs : List (List ℕ)) (c : Conn C) (n : ℕ)
      → length (concat fs) + 28 * length fs < c.send_budget
      → c.socket_closed ≡ false
      → c.pending ≡ []
      → c.seq + length fs < 2 ^ 24
      → c.message_index + length fs < 2 ^ 24
      → IsWritten c order count id i fs n (write_loop control now order count id i fs c n)
  unfolding write_loop fragment_packet
  write_loop-IsWritten order count id i [] c n budget o none_wait small few = record {
    datagrams = [];
    carries = tt;
    sent = record {
      out_after = sym (append-nil c.out);
      seq_after = omega arith;
      message_after = omega arith;
      budget_after = omega arith;
      same_order = refl;
      same_mtu = refl;
      nothing_waits = none_wait;
      open_after = o;
    };
    returned = ap ok (omega arith);
  }
  write_loop-IsWritten order count id i (f ∷ fs) c n budget o none_wait small few =
      let len = length-append f (concat fs) in
      let (e, parcel) =
        fragment-IsSent c (ltb 1 count) order count id i f (omega (arith, budget)) o none_wait
          (omega (arith, small)) (omega (arith, few)) in
      let (d, (flags, fl, ed), one) = parcel in
      let c1 = record c { message_index = next24 c.message_index } in
      let pk = part (ltb 1 count) count order id i c.message_index f in
      let c' = (queue_or_send control now c1 pk).0 in
      let r =
        write_loop-IsWritten order count id (i + 1) fs c' (n + length f)
          (omega (arith, budget, len, one.budget_after)) one.open_after one.nothing_waits
          (omega (arith, small, one.seq_after)) (omega (arith, few, one.message_after)) in
      let next : c'.message_index ≡ next24 c.message_index =
        omega (arith, one.message_after, few) in
      let carried : Carries (c.seq + 1) r.datagrams
          (parts (ltb 1 count) count order id (i + 1) (next24 c.message_index) fs) =
        subst
          (λ k. Carries (c.seq + 1) r.datagrams (parts (ltb 1 count) count order id (i + 1) k fs))
          next
          (subst
            (λ k.
              Carries k r.datagrams
                (parts (ltb 1 count) count order id (i + 1) c'.message_index fs))
            one.seq_after r.carries) in
      rw (write_loop, e)
        (record {
          datagrams = d ∷ r.datagrams;
          carries = ((flags, fl, ed), carried);
          sent = record {
            out_after =
                r.sent.out_after
                ∙ ap (λ x. x ++ r.datagrams) one.out_after
                ∙ append_assoc c.out (d ∷ []) r.datagrams;
            seq_after = omega (arith, r.sent.seq_after, one.seq_after);
            message_after = omega (arith, r.sent.message_after, one.message_after);
            budget_after = omega (arith, r.sent.budget_after, one.budget_after, len);
            same_order = r.sent.same_order ∙ one.same_order;
            same_mtu = r.sent.same_mtu ∙ one.same_mtu;
            nothing_waits = r.sent.nothing_waits;
            open_after = r.sent.open_after;
          };
          returned = r.returned ∙ ap ok (omega (arith, len));
        })
