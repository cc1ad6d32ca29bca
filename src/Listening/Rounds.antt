-- ===== src/Listening/Rounds.antt =====
-- listener.go: the connections of a listener through its update rounds.
use go_raknet.Prelude.{
  ℕ, ◌+◌, ◌≤◌, ◌≡◌, refl, subst, List, [], ◌∷◌, ◌++◌, true, false, ◌&&◌, if◌then◌else◌, arith, inl,
  inr, Bool-cases,
}
use go_raknet.Message.Addr.{AddrPort}
use go_raknet.Handler.{same_addr, has_connection}
use go_raknet.Handler.Keys.{same_addr-≡, same_addr-apart}
use go_raknet.Listening.{
  Pending, update_loop, set_connected, delete_pending, delete_connection, is_left, keep_left,
}

-- How often an address is in a list.
unfoldable pub count : AddrPort → List AddrPort → ℕ
count a [] = 0
count a (b ∷ bs) = (if same_addr a b then 1 else 0) + count a bs

-- The connections of a peer that the listener has.
unfoldable pub entries : AddrPort → List Pending → ℕ
entries a [] = 0
entries a (p ∷ ps) = (if same_addr a p.raddr then 1 else 0) + entries a ps

-- Those of them that are connected and were handed out.
unfoldable pub handed_out : AddrPort → List Pending → ℕ
handed_out a [] = 0
handed_out a (p ∷ ps) =
    (if same_addr a p.raddr && p.connected && p.accepted then 1 else 0) + handed_out a ps

pub handed_out-entries : (a : AddrPort) (ps : List Pending) → handed_out a ps ≤ entries a ps
unfolding handed_out entries
handed_out-entries a [] = omega arith
handed_out-entries a (p ∷ ps) = ground (arith, handed_out-entries a ps)

pub count-append :
    (a : AddrPort) (xs ys : List AddrPort) → count a (xs ++ ys) ≡ count a xs + count a ys
unfolding count
count-append a [] ys = omega arith
count-append a (x ∷ xs) ys = ground (arith, count-append a xs ys)

pub entries-update_loop :
    (a : AddrPort) (now : ℕ) (ps : List Pending) → entries a (update_loop now ps).0 ≤ entries a ps
unfolding entries update_loop
entries-update_loop a now [] = omega arith
entries-update_loop a now (p ∷ ps) = ground (arith, entries-update_loop a now ps)

pub count-update_loop :
    (a : AddrPort) (now : ℕ) (ps : List Pending)
    → count a (update_loop now ps).1 + handed_out a ps ≡ handed_out a (update_loop now ps).0
unfolding count handed_out update_loop
count-update_loop a now [] = refl
count-update_loop a now (p ∷ ps) = ground (arith, count-update_loop a now ps)

pub entries-set_connected :
    (a b : AddrPort) (ps : List Pending) → entries a (set_connected b ps) ≡ entries a ps
unfolding entries set_connected
entries-set_connected a b [] = refl
entries-set_connected a b (p ∷ ps) = ground (arith, entries-set_connected a b ps)

pub handed_out-set_connected :
    (a b : AddrPort) (ps : List Pending) → handed_out a ps ≤ handed_out a (set_connected b ps)
unfolding handed_out set_connected
handed_out-set_connected a b [] = omega arith
handed_out-set_connected a b (p ∷ ps) = ground (arith, handed_out-set_connected a b ps)

-- A connection of another peer that is deleted.
pub entries-delete_pending_apart :
    (a b : AddrPort) (ps : List Pending)
    → same_addr b a ≡ false
    → entries a (delete_pending b ps) ≡ entries a ps
unfolding entries delete_pending
entries-delete_pending_apart a b [] apart = refl
entries-delete_pending_apart a b (p ∷ ps) apart =
    let ih = entries-delete_pending_apart a b ps apart in
    elim (Bool-cases (same_addr b p.raddr)) [
      | inl e ↦ ground (arith, e, ih, same_addr-apart b a p.raddr apart e)
      | inr e ↦ ground (arith, e, ih)
    ]

pub handed_out-delete_pending_apart :
    (a b : AddrPort) (ps : List Pending)
    → same_addr b a ≡ false
    → handed_out a (delete_pending b ps) ≡ handed_out a ps
unfolding handed_out delete_pending
handed_out-delete_pending_apart a b [] apart = refl
handed_out-delete_pending_apart a b (p ∷ ps) apart =
    let ih = handed_out-delete_pending_apart a b ps apart in
    elim (Bool-cases (same_addr b p.raddr)) [
      | inl e ↦ ground (arith, e, ih, same_addr-apart b a p.raddr apart e)
      | inr e ↦ ground (arith, e, ih)
    ]

pub has_connection-delete_connection_apart :
    (a b : AddrPort) (connections : List (AddrPort × ℕ))
    → same_addr b a ≡ false
    → has_connection a (delete_connection b connections) ≡ has_connection a connections
unfolding has_connection delete_connection
has_connection-delete_connection_apart a b [] apart = refl
has_connection-delete_connection_apart a b ((c, mtu) ∷ connections) apart =
    let ih = has_connection-delete_connection_apart a b connections apart in
    elim (Bool-cases (same_addr b c)) [
      | inl e ↦ ground (arith, e, ih, same_addr-apart b a c apart e)
      | inr e ↦ ground (arith, e, ih)
    ]

pub entries-delete_pending :
    (a : AddrPort) (ps : List Pending) → entries a (delete_pending a ps) ≡ 0
unfolding entries delete_pending
entries-delete_pending a [] = refl
entries-delete_pending a (p ∷ ps) = ground (arith, entries-delete_pending a ps)

is_left-entries : (a : AddrPort) (left : List Pending) → 1 ≤ entries a left → is_left a left ≡ true
unfolding entries is_left
is_left-entries a [] some_left = absurd (omega arith)
is_left-entries a (p ∷ ps) some_left = elim (Bool-cases (same_addr a p.raddr)) [
  | inl e ↦ ground (arith, e)
  | inr e ↦ ground (arith, e, is_left-entries a ps (ground (arith, e, some_left)))
]

is_left-same_addr :
    (a c : AddrPort) (left : List Pending)
    → 1 ≤ entries a left
    → same_addr a c ≡ true
    → is_left c left ≡ true
is_left-same_addr a c left some_left e =
    subst (λ x. is_left x left ≡ true) (same_addr-≡ a c e) (is_left-entries a left some_left)

-- A peer with a connection that stays is one that the listener still has.
pub has_connection-keep_left :
    (a : AddrPort) (left : List Pending) (connections : List (AddrPort × ℕ))
    → 1 ≤ entries a left
    → has_connection a connections ≡ true
    → has_connection a (keep_left left connections) ≡ true
unfolding has_connection keep_left
has_connection-keep_left a left [] some_left known = known
has_connection-keep_left a left ((c, mtu) ∷ connections) some_left known =
    elim (Bool-cases (same_addr a c)) [
      | inl e ↦ ground (arith, e, is_left-same_addr a c left some_left e)
      | inr e ↦ ground (
        arith,
        e,
        known,
        has_connection-keep_left a left connections some_left (ground (arith, e, known)),
      )
    ]
