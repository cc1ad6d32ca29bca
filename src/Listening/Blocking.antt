-- ===== src/Listening/Blocking.antt =====
-- listener.go: a peer that is blocked is not listened to.
use go_raknet.Prelude.{
  ℕ, suc, ◌+◌, ◌^◌, ◌<◌, ◌≤◌, ◌≡◌, refl, sym, subst, List, [], ◌∷◌, true, false, arith, length,
  Option, none, some, Result, ok, err, panic, Error, split_if,
}
use go_raknet.Prelude.Dict.{has, lookup-insert}
use go_raknet.Message.Addr.{AddrPort}
use go_raknet.Security.{Security, block, blocked}
use go_raknet.Handler.{UdpAddr, handle_unconnected}
use go_raknet.Listening.{
  Work, State, Event, dispatches, takes, loads, finishes, take_on, load_connections, pick,
  finish_at, finish_work, updates, connects, fails, closes, accepts, closes_down, ip_key,
  dispatch_datagram, is_closed, block_on_error, handle_unconnected_datagram, update_connections,
  accept, accept_from, note_accepted, close_connection, handle_datagram_error, close_listener, step,
  run,
}

-- An address is blocked, with at most `n` blocks counted.
record IsShut (ip n : ℕ) (s : Security) : Type 0 where
  duration : ℕ
  is_on : s.block_duration ≡ some duration
  has_block : has ip s.blocks ≡ true
  counted : 1 ≤ s.block_count
  at_most : s.block_count ≤ n

block-IsShut :
    (ip n now other : ℕ) (s : Security)
    → suc n < 2 ^ 32
    → IsShut ip n s
    → IsShut ip (suc n) (block now s other)
unfolding block
block-IsShut ip n now other s small i = rw (i.is_on) (record {
  duration = i.duration;
  is_on = refl;
  has_block = ground (arith, lookup-insert other ip now s.blocks, i.has_block);
  counted = omega (arith, i.at_most);
  at_most = omega (arith, i.at_most);
})

-- Which security a step leaves: the same, or one with one more block.
data Guarded (s t : Security) : Type 0 where
  same_guard : t ≡ s → Guarded s t
  one_block : (now ip : ℕ) → t ≡ block now s ip → Guarded s t

block_on_error-Guarded :
    (now : ℕ) (addr : UdpAddr) (s : State) (r : Result (Unit {0}))
    → Guarded s.security (block_on_error now addr s r).0.security
unfolding block_on_error
block_on_error-Guarded now addr s (ok x) = same_guard refl
block_on_error-Guarded now addr s panic = same_guard refl
block_on_error-Guarded now addr s (err e) =
    split_if {A = State × Result (Unit {0})} (λ t. Guarded s.security t.0.security) (is_closed e)
      (λ k. same_guard refl) (λ k. one_block now (ip_key addr) refl)

finish_at-Guarded :
    (now : ℕ) (found : Option (Work × List (AddrPort × ℕ) × List Work)) (s : State)
    → Guarded s.security (finish_at now found s).0.security
unfolding finish_at handle_unconnected_datagram
finish_at-Guarded now none s = same_guard refl
finish_at-Guarded now (some (w, loaded, rest)) s = block_on_error-Guarded now w.peer _ _

security-take_on :
    (queued : List (UdpAddr × List ℕ)) (s : State) → (take_on queued s).security ≡ s.security
unfolding take_on
security-take_on [] s = refl
security-take_on ((addr, b) ∷ queued) s = ground arith

security-dispatch_datagram :
    (b : List ℕ) (addr : UdpAddr) (s : State) → (dispatch_datagram b addr s).security ≡ s.security
unfolding dispatch_datagram
security-dispatch_datagram [] addr s = refl
security-dispatch_datagram (flags ∷ b) addr s = ground arith

security-update_connections :
    (now : ℕ) (s : State) → (update_connections now s).security ≡ s.security
unfolding update_connections
security-update_connections now s = ground arith

security-accept_from :
    (incoming : List AddrPort) (s : State) (out : List AddrPort)
    → (note_accepted s out (accept_from incoming s)).0.security ≡ s.security
unfolding note_accepted accept_from
security-accept_from [] s out =
    split_if (λ t. (note_accepted s out t).0.security ≡ s.security) s.closed_down (λ k. refl)
      (λ k. refl)
security-accept_from (a ∷ incoming) s out = refl

step-Guarded :
    (s : State × List AddrPort) (event : Event) → Guarded s.0.security (step s event).0.security
unfolding step finish_work load_connections accept close_connection handle_datagram_error
    close_listener
step-Guarded s (dispatches b addr) = same_guard (security-dispatch_datagram b addr s.0)
step-Guarded s takes = same_guard (security-take_on s.0.queued s.0)
step-Guarded s (loads n) = same_guard refl
step-Guarded s (finishes now n) = finish_at-Guarded now (pick n s.0.working) s.0
step-Guarded s (updates now) = same_guard (security-update_connections now s.0)
step-Guarded s (connects b) = same_guard refl
step-Guarded s (fails now addr) = one_block now (ip_key addr) refl
step-Guarded s (closes b) = same_guard refl
step-Guarded s accepts = same_guard (security-accept_from s.0.incoming s.0 s.1)
step-Guarded s closes_down = same_guard refl

Guarded-IsShut :
    (ip n : ℕ) (s t : Security) → suc n < 2 ^ 32 → Guarded s t → IsShut ip n s → IsShut ip (suc n) t
Guarded-IsShut ip n s t small (same_guard e) i = subst (IsShut ip (suc n)) (sym e) (record {
  duration = i.duration;
  is_on = i.is_on;
  has_block = i.has_block;
  counted = i.counted;
  at_most = omega (arith, i.at_most);
})
Guarded-IsShut ip n s t small (one_block now other e) i =
    subst (IsShut ip (suc n)) (sym e) (block-IsShut ip n now other s small i)

run-IsShut :
    (ip n : ℕ) (s : State × List AddrPort) (events : List Event)
    → n + length events < 2 ^ 32
    → IsShut ip n s.0.security
    → IsShut ip (n + length events) (run s events).0.security
unfolding run
run-IsShut ip n s [] small i = subst (λ m. IsShut ip m s.0.security) (omega arith) i
run-IsShut ip n s (event ∷ events) small i =
    let next =
      Guarded-IsShut ip n s.0.security (step s event).0.security (omega arith)
        (step-Guarded s event) i in
    let ih = run-IsShut ip (suc n) (step s event) events (omega arith) next in
    subst (λ m. IsShut ip m (run (step s event) events).0.security) (omega arith) ih

-- A datagram whose handling failed, other than because something is closed.
error-IsShut :
    (now d : ℕ) (loaded : List (AddrPort × ℕ)) (b : List ℕ) (addr : UdpAddr) (s : State) (e : Error)
    → s.security.block_duration ≡ some d
    → s.security.block_count + 1 < 2 ^ 32
    → (handle_unconnected (record s.listener { connections = loaded }) b addr).1 ≡ err e
    → is_closed e ≡ false
    → IsShut
        (ip_key addr)
        (s.security.block_count + 1)
        (handle_unconnected_datagram now loaded b addr s).0.security
unfolding handle_unconnected_datagram block_on_error block
error-IsShut now d loaded b addr s e on small failed other =
    rw (failed, other, on)
      (record {
        duration = d;
        is_on = refl;
        has_block = ground (arith, lookup-insert (ip_key addr) (ip_key addr) now s.security.blocks);
        counted = omega arith;
        at_most = omega arith;
      })

dispatch-IsShut :
    (n : ℕ) (b : List ℕ) (addr : UdpAddr) (s : State)
    → IsShut (ip_key addr) n s.security
    → dispatch_datagram b addr s ≡ s
unfolding dispatch_datagram blocked
dispatch-IsShut n [] addr s i = refl
dispatch-IsShut n (flags ∷ b) addr s i = ground (arith, i.is_on, i.has_block, i.counted)

-- Where blocking is on, an unconnected datagram whose handling is an error, other than that something
-- is closed, shuts its peer out: whatever the listener's goroutines do afterwards, up to the next
-- collection of old blocks and while the count of blocks stays below 2^32, the dispatch of a datagram
-- from an address with the same IP leaves the listener as it was. Datagrams that were dispatched before
-- and wait for a worker are handled all the same.
pub error_shuts_out :
    (now d : ℕ) (loaded : List (AddrPort × ℕ)) (b : List ℕ) (addr : UdpAddr) (s : State) (e : Error)
    (events : List Event) (later : List ℕ) (from : UdpAddr) (out : List AddrPort)
    → s.security.block_duration ≡ some d
    → s.security.block_count + 1 + length events < 2 ^ 32
    → (handle_unconnected (record s.listener { connections = loaded }) b addr).1 ≡ err e
    → is_closed e ≡ false
    → ip_key from ≡ ip_key addr
    → let after = (run ((handle_unconnected_datagram now loaded b addr s).0, out) events).0 in
      dispatch_datagram later from after ≡ after
error_shuts_out now d loaded b addr s e events later from out on small failed other same_ip =
    let n = s.security.block_count + 1 in
    let first = error-IsShut now d loaded b addr s e on (omega arith) failed other in
    let shut =
      run-IsShut (ip_key addr) n ((handle_unconnected_datagram now loaded b addr s).0, out) events
        small first in
    let after = (run ((handle_unconnected_datagram now loaded b addr s).0, out) events).0 in
    dispatch-IsShut (n + length events) later from after
      (subst (λ ip. IsShut ip (n + length events) after.security) (sym same_ip) shut)
