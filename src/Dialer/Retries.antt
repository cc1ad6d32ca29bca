-- ===== src/Dialer/Retries.antt =====
-- dial.go: the retry loop ends.
use go_raknet.Prelude.{
  ℕ, zero, suc, ◌<◌, ◌≤◌, ◌≡◌, refl, List, [], ◌∷◌, ◌++◌, not, ◌==◌, arith, length, take, Option,
  some, Result, ok, err, panic, mismatched_protocol, split_if,
}
use go_raknet.Message.{
  id_open_connection_reply_1, id_open_connection_reply_2, id_incompatible_protocol_version,
}
use go_raknet.Message.IncompatibleProtocolVersion
use go_raknet.Message.IncompatibleProtocolVersion.{IncompatibleProtocolVersion}
use go_raknet.Message.OpenConnectionReply1
use go_raknet.Message.OpenConnectionReply1.{OpenConnectionReply1}
use go_raknet.Message.OpenConnectionReply2
use go_raknet.Message.OpenConnectionReply2.{OpenConnectionReply2}
use go_raknet.Dialer.{
  Read, received, timed_out, failed, ConnState, Progress, returned, waits, is_invalid_sequence,
  on_reply_1, on_incompatible_protocol, on_reply_2, read_reply_1, discover_mtu, read_reply_2,
  open_loop, open_connection, is_reply_2_timeout, close, on_opened, on_discovered, dial,
  open_connection_request_2,
}

-- If the phase returns, fewer than `n` reads are left.
unfoldable Within : ℕ → Progress → Type 0
Within n (returned st reads r) = length reads < n
Within n (waits st) = Unit {0}

Within-le : (n m : ℕ) (p : Progress) → n ≤ m → Within n p → Within m p
unfolding Within
Within-le n m (returned st reads r) le h = omega (arith, le, h)
Within-le n m (waits st) le h = tt

returned-Within :
    (n : ℕ) (st : ConnState) (reads : List Read) (r : Result (Unit {0}))
    → length reads < n
    → Within n (returned st reads r)
unfolding Within
returned-Within n st reads r h = h

on_reply_1-Within :
    (n : ℕ) (response : Result OpenConnectionReply1) (reads : List Read) (st : ConnState)
    (rest : Progress)
    → length reads < n
    → Within n rest
    → Within n (on_reply_1 response reads st rest)
unfolding on_reply_1
on_reply_1-Within n (ok x) reads st rest h i = returned-Within n _ reads (ok tt) h
on_reply_1-Within n panic reads st rest h i = returned-Within n st reads panic h
on_reply_1-Within n (err e) reads st rest h i =
    split_if (Within n) (is_invalid_sequence e) (λ k. i) (λ k. returned-Within n st reads (err e) h)

on_incompatible_protocol-Within :
    (n : ℕ) (response : Result IncompatibleProtocolVersion) (reads : List Read) (st : ConnState)
    (rest : Progress)
    → length reads < n
    → Within n rest
    → Within n (on_incompatible_protocol response reads st rest)
unfolding on_incompatible_protocol
on_incompatible_protocol-Within n (ok x) reads st rest h i =
    returned-Within n st reads (err mismatched_protocol) h
on_incompatible_protocol-Within n panic reads st rest h i = returned-Within n st reads panic h
on_incompatible_protocol-Within n (err e) reads st rest h i = i

on_reply_2-Within :
    (n : ℕ) (response : Result OpenConnectionReply2) (reads : List Read) (st : ConnState)
    (rest : Progress)
    → length reads < n
    → Within n rest
    → Within n (on_reply_2 response reads st rest)
unfolding on_reply_2
on_reply_2-Within n (ok x) reads st rest h i = returned-Within n _ reads (ok tt) h
on_reply_2-Within n panic reads st rest h i = returned-Within n st reads panic h
on_reply_2-Within n (err e) reads st rest h i =
    split_if (Within n) (is_invalid_sequence e) (λ k. i) (λ k. returned-Within n st reads (err e) h)

read_reply_1-Within :
    (n : ℕ) (b : List ℕ) (reads : List Read) (st : ConnState) (rest : Progress)
    → length reads < n
    → Within n rest
    → Within n (read_reply_1 b reads st rest)
unfolding read_reply_1
read_reply_1-Within n [] reads st rest h i = returned-Within n st reads (ok tt) h
read_reply_1-Within n (id ∷ b) reads st rest h i =
    split_if (Within n) (id == id_open_connection_reply_1)
      (λ e. on_reply_1-Within n (OpenConnectionReply1.unmarshal b) reads st rest h i)
      (λ e.
        split_if (Within n) (id == id_incompatible_protocol_version)
          (λ f.
            on_incompatible_protocol-Within n (IncompatibleProtocolVersion.unmarshal b) reads st
              rest h i)
          (λ f. i))

read_reply_2-Within :
    (n : ℕ) (b : List ℕ) (reads : List Read) (st : ConnState) (rest : Progress)
    → length reads < n
    → Within n rest
    → Within n (read_reply_2 b reads st rest)
unfolding read_reply_2
read_reply_2-Within n [] reads st rest h i = i
read_reply_2-Within n (id ∷ b) reads st rest h i =
    split_if (Within n) (not (id == id_open_connection_reply_2)) (λ e. i)
      (λ e. on_reply_2-Within n (OpenConnectionReply2.unmarshal b) reads st rest h i)

discover_mtu-Within :
    (reads : List Read) (st : ConnState) → Within (length reads) (discover_mtu reads st)
unfolding discover_mtu
discover_mtu-Within [] st = unfold Within in tt
discover_mtu-Within (timed_out ∷ reads) st = returned-Within _ st reads _ (omega arith)
discover_mtu-Within (failed e ∷ reads) st = returned-Within _ st reads _ (omega arith)
discover_mtu-Within (received b ∷ reads) st =
    let rest = discover_mtu reads st in
    read_reply_1-Within (suc (length reads)) (take 1492 b) reads st rest (omega arith) (
      Within-le (length reads) (suc (length reads)) rest (omega arith)
        (discover_mtu-Within reads st))

open_loop-Within : (reads : List Read) (st : ConnState) → Within (length reads) (open_loop reads st)
unfolding open_loop
open_loop-Within [] st = unfold Within in tt
open_loop-Within (timed_out ∷ reads) st = returned-Within _ st reads _ (omega arith)
open_loop-Within (failed e ∷ reads) st = returned-Within _ st reads _ (omega arith)
open_loop-Within (received b ∷ reads) st =
    let rest = open_loop reads st in
    read_reply_2-Within (suc (length reads)) b reads st rest (omega arith)
      (Within-le (length reads) (suc (length reads)) rest (omega arith) (open_loop-Within reads st))

-- A next round that does not run out of fuel.
abbrev Ends : ℕ → (List Read → ConnState → Option Progress) → Type 0
Ends n again =
    (reads : List Read) (st : ConnState)
    → length reads < n
    → (p : Progress) × (again reads st ≡ some p)

on_opened-Ends :
    (n : ℕ) (again : List Read → ConnState → Option Progress) (p : Progress)
    → Ends n again
    → Within n p
    → (q : Progress) × (on_opened again p ≡ some q)
unfolding on_opened Within
on_opened-Ends n again (returned st reads (ok x)) ends w = (returned st reads (ok x), refl)
on_opened-Ends n again (returned st reads panic) ends w = (returned st reads panic, refl)
on_opened-Ends n again (waits st) ends w = (waits st, refl)
on_opened-Ends n again (returned st reads (err e)) ends w =
    let final = returned (close st) reads (err e) in
    split_if {A = Option Progress} (λ t. (q : Progress) × (t ≡ some q)) (is_reply_2_timeout e)
      (λ k. ends reads st w) (λ k. (final, refl))

on_discovered-Ends :
    (n : ℕ) (again : List Read → ConnState → Option Progress) (p : Progress)
    → Ends n again
    → Within (suc n) p
    → (q : Progress) × (on_discovered again p ≡ some q)
unfolding on_discovered open_connection Within
on_discovered-Ends n again (returned st reads (ok x)) ends w =
    let asked = record st { sent = st.sent ++ (open_connection_request_2 st ∷ []) } in
    on_opened-Ends n again (open_loop reads asked) ends (
      Within-le (length reads) n (open_loop reads asked) (omega (arith, w))
        (open_loop-Within reads asked))
on_discovered-Ends n again (returned st reads (err e)) ends w =
    (returned (close st) reads (err e), refl)
on_discovered-Ends n again (returned st reads panic) ends w = (returned st reads panic, refl)
on_discovered-Ends n again (waits st) ends w = (waits st, refl)

-- Whatever the socket reads, the retry loop of a dialer ends or waits for the socket: as many rounds
-- as there are reads, and one more, are enough.
pub dial_ends :
    (n : ℕ) (reads : List Read) (st : ConnState)
    → length reads < n
    → (p : Progress) × (dial n reads st ≡ some p)
unfolding dial
dial_ends zero reads st h = absurd (omega (arith, h))
dial_ends (suc n) reads st h = on_discovered-Ends n (dial n) (discover_mtu reads st) (dial_ends n) (
    Within-le (length reads) (suc n) (discover_mtu reads st) (omega (arith, h))
      (discover_mtu-Within reads st))
