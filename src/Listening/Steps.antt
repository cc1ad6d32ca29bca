-- ===== src/Listening/Steps.antt =====
-- listener.go: how often the connection of a peer is handed out, over the steps of a worker.
use go_raknet.Prelude.{
  not, ◌&&◌, ◌∙◌, ap, ℕ, ◌+◌, ◌≤◌, ◌≡◌, refl, sym, subst, List, [], ◌∷◌, ◌++◌, true, false, ◌||◌,
  if◌then◌else◌, arith, Result, ok, err, panic, inl, inr, Bool-cases, map,
}
use go_raknet.Message.Addr.{AddrPort}
use go_raknet.Handler.{Listener, UdpAddr, same_addr, has_connection, handle_unconnected, resolve}
use go_raknet.Handler.Keys.{same_addr-≡, same_addr_refl}
use go_raknet.Listening.{
  Pending, State, note_new, store_new, delete_pending, delete_connection, block_on_error,
  handle_unconnected_datagram,
}
use go_raknet.Listening.Rounds.{
  count, entries, handed_out, handed_out-entries, entries-delete_pending,
  entries-delete_pending_apart, handed_out-delete_pending_apart,
  has_connection-delete_connection_apart,
}
use go_raknet.Listening.Opening.{Opens, handle_unconnected-Opens}

-- What holds of a peer after its connection was closed `n` times: it has at most one connection, which
-- the listener knows, and each connection that was handed out is that one or one that was closed.
pub record IsHandedOnce (a : AddrPort) (n : ℕ) (s : State × List AddrPort) : Type 0 where
  pub one_entry : entries a s.0.pending ≤ 1
  pub handed : count a s.1 + count a s.0.incoming ≤ n + handed_out a s.0.pending
  pub known : 1 ≤ entries a s.0.pending → has_connection a s.0.listener.connections ≡ true

-- A step that leaves the connections alone.
pub unmoved-IsHandedOnce :
    (a : AddrPort) (n : ℕ) (s t : State × List AddrPort)
    → IsHandedOnce a n s
    → t.0.pending ≡ s.0.pending
    → t.0.listener.connections ≡ s.0.listener.connections
    → count a t.1 + count a t.0.incoming ≡ count a s.1 + count a s.0.incoming
    → IsHandedOnce a n t
unmoved-IsHandedOnce a n s t i same_pending same_listener same_count =
    let same_handed : handed_out a t.0.pending ≡ handed_out a s.0.pending =
      rw (same_pending) refl in
    let same_entries : entries a t.0.pending ≡ entries a s.0.pending = rw (same_pending) refl in
    record {
      one_entry = omega (arith, i.one_entry, same_entries);
      handed = omega (arith, i.handed, same_count, same_handed);
      known = λ h. rw (same_listener) (i.known (omega (arith, h, same_entries)));
    }

-- A handler that opened nothing stores nothing.
note_new_same :
    (now : ℕ) (before after : List (AddrPort × ℕ)) (ps : List Pending)
    → after ≡ before
    → note_new now before after ps ≡ ps
note_new_same now before after ps same =
    subst (λ x. note_new now before x ps ≡ ps) (sym same) (go before)
  where
    go : (before : List (AddrPort × ℕ)) → note_new now before before ps ≡ ps
    go [] = unfold note_new in refl
    go (x ∷ xs) = unfold note_new in ground arith

store_new_same :
    (before after connections : List (AddrPort × ℕ))
    → after ≡ before
    → store_new before after connections ≡ connections
store_new_same before after connections same =
    subst (λ x. store_new before x connections ≡ connections) (sym same) (go before)
  where
    go : (before : List (AddrPort × ℕ)) → store_new before before connections ≡ connections
    go [] = unfold store_new in refl
    go (x ∷ xs) = unfold store_new in ground arith

pending-block_on_error :
    (now : ℕ) (addr : UdpAddr) (s : State) (r : Result (Unit {0}))
    → (block_on_error now addr s r).0.pending ≡ s.pending
unfolding block_on_error
pending-block_on_error now addr s (ok x) = refl
pending-block_on_error now addr s panic = refl
pending-block_on_error now addr s (err e) = ground arith

listener-block_on_error :
    (now : ℕ) (addr : UdpAddr) (s : State) (r : Result (Unit {0}))
    → (block_on_error now addr s r).0.listener ≡ s.listener
unfolding block_on_error
listener-block_on_error now addr s (ok x) = refl
listener-block_on_error now addr s panic = refl
listener-block_on_error now addr s (err e) = ground arith

incoming-block_on_error :
    (now : ℕ) (addr : UdpAddr) (s : State) (r : Result (Unit {0}))
    → (block_on_error now addr s r).0.incoming ≡ s.incoming
unfolding block_on_error
incoming-block_on_error now addr s (ok x) = refl
incoming-block_on_error now addr s panic = refl
incoming-block_on_error now addr s (err e) = ground arith

abbrev pub new_pending : ℕ → AddrPort → Pending
new_pending now a = record { raddr = a; created_at = now; connected = false; accepted = false }

note_new_opened :
    (now mtu : ℕ) (a : AddrPort) (before : List (AddrPort × ℕ)) (ps : List Pending)
    → note_new now before ((a, mtu) ∷ before) ps ≡ new_pending now a ∷ delete_pending a ps
unfolding note_new
note_new_opened now mtu a before ps = ground arith

store_new_opened :
    (mtu : ℕ) (a : AddrPort) (before connections : List (AddrPort × ℕ))
    → store_new before ((a, mtu) ∷ before) connections ≡ (a, mtu) ∷ delete_connection a connections
unfolding store_new
store_new_opened mtu a before connections = ground arith

-- Whether a worker whose look-up found no connection of `a` ends at a time when there is one.
unfoldable pub late : AddrPort → List (AddrPort × ℕ) → UdpAddr → List (AddrPort × ℕ) → ℕ
late a loaded addr connections =
    if same_addr (resolve addr) a && not (has_connection a loaded) && has_connection a connections
    then 1
    else 0

-- More may have been handed out than was counted.
pub later-IsHandedOnce :
    (a : AddrPort) (n m : ℕ) (s : State × List AddrPort)
    → n ≤ m
    → IsHandedOnce a n s
    → IsHandedOnce a m s
later-IsHandedOnce a n m s more i = record {
  one_entry = i.one_entry;
  handed = omega (arith, i.handed, more);
  known = i.known;
}

-- A new connection of a peer that had none when the worker looked it up.
opened-IsHandedOnce :
    (a : AddrPort) (n now mtu : ℕ) (loaded : List (AddrPort × ℕ)) (addr : UdpAddr) (s t : State)
    (out : List AddrPort)
    → has_connection (resolve addr) loaded ≡ false
    → t.listener.connections
      ≡ (resolve addr, mtu) ∷ delete_connection (resolve addr) s.listener.connections
    → t.pending ≡ new_pending now (resolve addr) ∷ delete_pending (resolve addr) s.pending
    → t.incoming ≡ s.incoming
    → IsHandedOnce a n (s, out)
    → IsHandedOnce a (late a loaded addr s.listener.connections + n) (t, out)
unfolding entries handed_out has_connection late
opened-IsHandedOnce a n now mtu loaded addr s t out is_new stored noted same_incoming i =
    let b = resolve addr in
    let same_count : count a t.incoming ≡ count a s.incoming = rw (same_incoming) refl in
    let more : entries a t.pending
        ≡ (if same_addr a b then 1 else 0) + entries a (delete_pending b s.pending) =
      rw (noted) refl in
    let same_handed : handed_out a t.pending ≡ handed_out a (delete_pending b s.pending) =
      rw (noted) (ground arith) in
    let known_now : has_connection a t.listener.connections
        ≡ same_addr a b || has_connection a (delete_connection b s.listener.connections) =
      rw (stored) refl in
    elim (Bool-cases (same_addr b a)) [
      | inl same ↦
          let e = same_addr-≡ b a same in
          let itself : same_addr a b ≡ true = rw (e) (same_addr_refl a) in
          let unknown : has_connection a loaded ≡ false =
            subst (λ x. has_connection x loaded ≡ false) e is_new in
          let none_left : entries a (delete_pending b s.pending) ≡ 0 =
            rw (e) (entries-delete_pending a s.pending) in
          let handed_before = handed_out-entries a s.pending in
          let handed_after = handed_out-entries a (delete_pending b s.pending) in
          elim (Bool-cases (has_connection a s.listener.connections)) [
            | inl there ↦
                rw (same, unknown, there)
                  (record {
                    one_entry = ground (arith, more, itself, none_left);
                    handed = omega (arith, i.handed, i.one_entry, handed_before, same_count);
                    known = λ h. ground (arith, known_now, itself);
                  })
            | inr gone ↦
                let none_yet : entries a s.pending ≡ 0 = ground (arith, gone, i.known) in
                rw (same, unknown, gone)
                  (record {
                    one_entry = ground (arith, more, itself, none_left);
                    handed = omega (arith, i.handed, none_yet, handed_before, same_count);
                    known = λ h. ground (arith, known_now, itself);
                  })
          ]
      | inr other ↦
          let apart : same_addr a b ≡ false = elim (Bool-cases (same_addr a b)) [
            | inl e ↦ absurd (
                ground (
                  arith,
                  other,
                  subst (λ x. same_addr x a ≡ true) (same_addr-≡ a b e) (same_addr_refl a),
                ))
            | inr e ↦ e
          ] in
          let kept = entries-delete_pending_apart a b s.pending other in
          let kept_handed = handed_out-delete_pending_apart a b s.pending other in
          let kept_known =
            has_connection-delete_connection_apart a b s.listener.connections other in
          rw (other) (record {
            one_entry = ground (arith, more, apart, kept, i.one_entry);
            handed = omega (arith, i.handed, same_count, same_handed, kept_handed);
            known = λ h. ground (arith, known_now, apart, kept_known, more, kept, h, i.known);
          })
    ]

pub datagram-IsHandedOnce :
    (a : AddrPort) (n now : ℕ) (loaded : List (AddrPort × ℕ)) (b : List ℕ) (addr : UdpAddr)
    (s : State) (out : List AddrPort)
    → IsHandedOnce a n (s, out)
    → IsHandedOnce a
        (late a loaded addr s.listener.connections + n)
        ((handle_unconnected_datagram now loaded b addr s).0, out)
unfolding handle_unconnected_datagram Opens
datagram-IsHandedOnce a n now loaded b addr s out i =
    let seen = record s.listener { connections = loaded } in
    let after = (handle_unconnected seen b addr).0.0.connections in
    let replies = (handle_unconnected seen b addr).0.1 in
    let r = (handle_unconnected seen b addr).1 in
    let handled = record s {
      listener = record s.listener { connections = store_new loaded after s.listener.connections };
      pending = note_new now loaded after s.pending;
      sent = s.sent ++ map (λ d. (addr, d)) replies;
    } in
    let t = (block_on_error now addr handled r).0 in
    let of_pending = pending-block_on_error now addr handled r in
    let of_listener = listener-block_on_error now addr handled r in
    let of_incoming = incoming-block_on_error now addr handled r in
    elim (handle_unconnected-Opens seen b addr) [
      | inl same ↦
          later-IsHandedOnce a n (late a loaded addr s.listener.connections + n) (t, out)
            (omega arith)
            (unmoved-IsHandedOnce a n (s, out) (t, out) i
              (of_pending ∙ note_new_same now loaded after s.pending same)
              (ap (λ (l : Listener). l.connections) of_listener
                ∙ store_new_same loaded after s.listener.connections same)
              (rw (of_incoming) refl))
      | inr o ↦
          opened-IsHandedOnce a n now o.mtu loaded addr s t out o.is_new
            (ap (λ (l : Listener). l.connections) of_listener
              ∙ ap (λ c. store_new loaded c s.listener.connections) o.stored
              ∙ store_new_opened o.mtu (resolve addr) loaded s.listener.connections)
            (of_pending
              ∙ ap (λ c. note_new now loaded c s.pending) o.stored
              ∙ note_new_opened now o.mtu (resolve addr) loaded s.pending)
            of_incoming i
    ]
