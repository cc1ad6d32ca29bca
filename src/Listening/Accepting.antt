-- ===== src/Listening/Accepting.antt =====
-- listener.go: which connections `Accept` returns.
use go_raknet.Prelude.{
  Option, none, some, ℕ, ◌+◌, ◌≤◌, ◌≡◌, refl, subst, List, [], ◌∷◌, ◌++◌, if◌then◌else◌, arith, inl,
  inr, Bool-cases, split_if,
}
use go_raknet.Message.Addr.{AddrPort}
use go_raknet.Handler.{UdpAddr, same_addr}
use go_raknet.Handler.Keys.{same_addr-≡}
use go_raknet.Listening.{
  State, set_connected, delete_pending, Event, dispatches, takes, loads, finishes, updates,
  connects, fails, closes, accepts, closes_down, Work, take_on, load_connections, pick, finish_work,
  finish_at, dispatch_datagram, close_listener, update_loop, update_connections, accept,
  accept_from, note_accepted, close_connection, handle_datagram_error, step, run,
}
use go_raknet.Listening.Rounds.{
  count, entries, handed_out, handed_out-entries, count-append, entries-update_loop,
  count-update_loop, entries-set_connected, handed_out-set_connected, entries-delete_pending,
  entries-delete_pending_apart, handed_out-delete_pending_apart, has_connection-keep_left,
  has_connection-delete_connection_apart,
}
use go_raknet.Listening.Steps.{late, IsHandedOnce, unmoved-IsHandedOnce, datagram-IsHandedOnce}

dispatch-IsHandedOnce :
    (a : AddrPort) (n : ℕ) (s : State) (out : List AddrPort) (b : List ℕ) (addr : UdpAddr)
    → IsHandedOnce a n (s, out)
    → IsHandedOnce a n (dispatch_datagram b addr s, out)
unfolding dispatch_datagram
dispatch-IsHandedOnce a n s out [] addr i = i
dispatch-IsHandedOnce a n s out (flags ∷ b) addr i =
    unmoved-IsHandedOnce a n (s, out) (dispatch_datagram (flags ∷ b) addr s, out) i (ground arith)
      (ground arith) (ground arith)

update-IsHandedOnce :
    (a : AddrPort) (n now : ℕ) (s : State) (out : List AddrPort)
    → IsHandedOnce a n (s, out)
    → IsHandedOnce a n (update_connections now s, out)
unfolding update_connections
update-IsHandedOnce a n now s out i =
    split_if (λ t. IsHandedOnce a n (t, out)) s.closed_down (λ down. i)
      (λ open_still. record {
        one_entry = omega (arith, i.one_entry, entries-update_loop a now s.pending);
        handed =
            let c = count-append a s.incoming (update_loop now s.pending).1 in
            let d = count-update_loop a now s.pending in omega (arith, c, d, i.handed);
        known = λ h.
            has_connection-keep_left a (update_loop now s.pending).0 s.listener.connections h
              (i.known (omega (arith, h, entries-update_loop a now s.pending)));
      })

connects-IsHandedOnce :
    (a b : AddrPort) (n : ℕ) (s : State) (out : List AddrPort)
    → IsHandedOnce a n (s, out)
    → IsHandedOnce a n (record s { pending = set_connected b s.pending }, out)
connects-IsHandedOnce a b n s out i = record {
  one_entry = omega (arith, i.one_entry, entries-set_connected a b s.pending);
  handed = omega (arith, i.handed, handed_out-set_connected a b s.pending);
  known = λ h. i.known (omega (arith, h, entries-set_connected a b s.pending));
}

none_more :
    (a : AddrPort) (n : ℕ) (s : State × List AddrPort)
    → IsHandedOnce a n s
    → IsHandedOnce a (0 + n) s
none_more a n s i = subst (λ m. IsHandedOnce a m s) (omega arith) i

close-IsHandedOnce :
    (a b : AddrPort) (n : ℕ) (s : State) (out : List AddrPort)
    → IsHandedOnce a n (s, out)
    → IsHandedOnce a ((if same_addr b a then 1 else 0) + n) (close_connection b s, out)
unfolding close_connection
close-IsHandedOnce a b n s out i = elim (Bool-cases (same_addr b a)) [
  | inl same ↦
      let none_left : entries a (delete_pending b s.pending) ≡ 0 =
        rw (same_addr-≡ b a same) (entries-delete_pending a s.pending) in
      rw (same) (record {
        one_entry = omega (arith, none_left);
        handed = omega (arith, i.handed, i.one_entry, handed_out-entries a s.pending);
        known = λ h. absurd (omega (arith, none_left, h));
      })
  | inr apart ↦
      let e = entries-delete_pending_apart a b s.pending apart in
      let h = handed_out-delete_pending_apart a b s.pending apart in
      let c = has_connection-delete_connection_apart a b s.listener.connections apart in
      rw (apart) (record {
        one_entry = omega (arith, i.one_entry, e);
        handed = omega (arith, i.handed, h);
        known = λ k. rw (c) (i.known (omega (arith, k, e)));
      })
]

take_on-IsHandedOnce :
    (a : AddrPort) (n : ℕ) (queued : List (UdpAddr × List ℕ)) (s : State) (out : List AddrPort)
    → IsHandedOnce a n (s, out)
    → IsHandedOnce a n (take_on queued s, out)
unfolding take_on
take_on-IsHandedOnce a n [] s out i = i
take_on-IsHandedOnce a n ((addr, b) ∷ queued) s out i =
    unmoved-IsHandedOnce a n (s, out) (take_on ((addr, b) ∷ queued) s, out) i (ground arith)
      (ground arith) (ground arith)

-- Whether the worker that is picked is late for `a`.
unfoldable pub late_of :
    AddrPort → Option (Work × List (AddrPort × ℕ) × List Work) → List (AddrPort × ℕ) → ℕ
late_of a none connections = 0
late_of a (some (w, loaded, rest)) connections = late a loaded w.peer connections

finish_at-IsHandedOnce :
    (a : AddrPort) (n now : ℕ) (found : Option (Work × List (AddrPort × ℕ) × List Work)) (s : State)
    (out : List AddrPort)
    → IsHandedOnce a n (s, out)
    → IsHandedOnce a (late_of a found s.listener.connections + n) ((finish_at now found s).0, out)
unfolding finish_at late_of
finish_at-IsHandedOnce a n now none s out i = subst (λ m. IsHandedOnce a m (s, out)) (omega arith) i
finish_at-IsHandedOnce a n now (some (w, loaded, rest)) s out i =
    let left = record s { working = rest } in
    datagram-IsHandedOnce a n now loaded w.content w.peer left out
      (unmoved-IsHandedOnce a n (s, out) (left, out) i refl refl refl)

accept_from-IsHandedOnce :
    (a : AddrPort) (n : ℕ) (incoming : List AddrPort) (s : State) (out : List AddrPort)
    → s.incoming ≡ incoming
    → IsHandedOnce a n (s, out)
    → IsHandedOnce a n (note_accepted s out (accept_from incoming s))
unfolding note_accepted accept_from count
accept_from-IsHandedOnce a n [] s out e i =
    split_if (λ t. IsHandedOnce a n (note_accepted s out t)) s.closed_down (λ down. i)
      (λ open_still. i)
accept_from-IsHandedOnce a n (b ∷ incoming) s out e i =
    let moved : count a s.incoming ≡ count a (b ∷ incoming) = rw (e) refl in
    let t = record s { incoming = incoming } in
    unmoved-IsHandedOnce a n (s, out) (t, out ++ (b ∷ [])) i refl refl
      (omega (arith, moved, count-append a out (b ∷ [])))

-- How often a second connection of `a` may be opened, at a state: its connection is closed, or a worker that
-- looked `a` up before there was one ends after there is one.
unfoldable pub reopened : AddrPort → State → Event → ℕ
reopened a s (closes b) = if same_addr b a then 1 else 0
reopened a s (finishes now n) = late_of a (pick n s.working) s.listener.connections
reopened a s other = 0

unfoldable pub reopenings : AddrPort → State × List AddrPort → List Event → ℕ
reopenings a s [] = 0
reopenings a s (event ∷ events) = reopened a s.0 event + reopenings a (step s event) events

step-IsHandedOnce :
    (a : AddrPort) (n : ℕ) (s : State × List AddrPort) (event : Event)
    → IsHandedOnce a n s
    → IsHandedOnce a (reopened a s.0 event + n) (step s event)
unfolding step reopened finish_work load_connections accept handle_datagram_error close_listener
step-IsHandedOnce a n s (dispatches b addr) i =
    none_more a n (step s (dispatches b addr)) (dispatch-IsHandedOnce a n s.0 s.1 b addr i)
step-IsHandedOnce a n s takes i =
    none_more a n (step s takes) (take_on-IsHandedOnce a n s.0.queued s.0 s.1 i)
step-IsHandedOnce a n s (loads k) i =
    none_more a n (step s (loads k))
      (unmoved-IsHandedOnce a n s (step s (loads k)) i refl refl refl)
step-IsHandedOnce a n s (finishes now k) i =
    finish_at-IsHandedOnce a n now (pick k s.0.working) s.0 s.1 i
step-IsHandedOnce a n s (updates now) i =
    none_more a n (step s (updates now)) (update-IsHandedOnce a n now s.0 s.1 i)
step-IsHandedOnce a n s (connects b) i =
    none_more a n (step s (connects b)) (connects-IsHandedOnce a b n s.0 s.1 i)
step-IsHandedOnce a n s (fails now addr) i =
    none_more a n (step s (fails now addr))
      (unmoved-IsHandedOnce a n s (step s (fails now addr)) i refl refl refl)
step-IsHandedOnce a n s (closes b) i = close-IsHandedOnce a b n s.0 s.1 i
step-IsHandedOnce a n s accepts i =
    none_more a n (step s accepts) (accept_from-IsHandedOnce a n s.0.incoming s.0 s.1 refl i)
step-IsHandedOnce a n s closes_down i =
    none_more a n (step s closes_down)
      (unmoved-IsHandedOnce a n s (step s closes_down) i refl refl refl)

run-IsHandedOnce :
    (a : AddrPort) (n : ℕ) (s : State × List AddrPort) (events : List Event)
    → IsHandedOnce a n s
    → IsHandedOnce a (n + reopenings a s events) (run s events)
unfolding run reopenings
run-IsHandedOnce a n s [] i = subst (λ m. IsHandedOnce a m s) (omega arith) i
run-IsHandedOnce a n s (event ∷ events) i =
    subst (λ m. IsHandedOnce a m (run (step s event) events)) (omega arith)
      (run-IsHandedOnce a (reopened a s.0 event + n) (step s event) events
        (step-IsHandedOnce a n s event i))

-- Of a listener that starts without connections, whatever its goroutines do and in whatever order their
-- steps come: `Accept` returns the connection of an address at most once, and once more for each time
-- that a connection of that address was closed, and for each time that a worker whose look-up of that
-- address found no connection ended when there was one.
pub run_accepts_once :
    (s : State) (events : List Event) (a : AddrPort)
    → s.pending ≡ []
    → s.incoming ≡ []
    → count a (run (s, []) events).1 ≤ 1 + reopenings a (s, []) events
unfolding count entries handed_out
run_accepts_once s events a no_pending no_incoming =
    let no_entries : entries a s.pending ≡ 0 = rw (no_pending) refl in
    let none_handed : handed_out a s.pending ≡ 0 = rw (no_pending) refl in
    let none_waits : count a s.incoming ≡ 0 = rw (no_incoming) refl in
    let i =
      run-IsHandedOnce a 0 (s, []) events
        (record {
          one_entry = omega (arith, no_entries);
          handed = omega (arith, none_waits);
          known = λ h. absurd (omega (arith, h, no_entries));
        }) in
    let last = (run (s, []) events).0.pending in
    omega (arith, i.handed, i.one_entry, handed_out-entries a last)
