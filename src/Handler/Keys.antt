-- ===== src/Handler/Keys.antt =====
-- handler.go: when two addresses are the same key.
use go_raknet.Prelude.{ℕ, ◌≡◌, refl, List, [], ◌∷◌, true, false, arith, Bool-cases, inl, inr}
use go_raknet.Message.{equal_bytes}
use go_raknet.Message.Addr.{AddrPort, invalid, v4, v6}
use go_raknet.Handler.{same_addr}

equal_bytes-≡ : (xs ys : List ℕ) → equal_bytes xs ys ≡ true → xs ≡ ys
unfolding equal_bytes
equal_bytes-≡ [] [] h = refl
equal_bytes-≡ [] (y ∷ ys) h = absurd (ground (arith, h))
equal_bytes-≡ (x ∷ xs) [] h = absurd (ground (arith, h))
equal_bytes-≡ (x ∷ xs) (y ∷ ys) h =
    let e : x ≡ y = ground (arith, h) in
    let es = equal_bytes-≡ xs ys (ground (arith, h)) in rw (e, es) refl

equal_bytes_refl : (xs : List ℕ) → equal_bytes xs xs ≡ true
unfolding equal_bytes
equal_bytes_refl [] = refl
equal_bytes_refl (x ∷ xs) = ground (arith, equal_bytes_refl xs)

pub same_addr_refl : (a : AddrPort) → same_addr a a ≡ true
unfolding same_addr
same_addr_refl invalid = refl
same_addr_refl (v4 a b c d p) = ground arith
same_addr_refl (v6 ip p) = ground (arith, equal_bytes_refl ip)

pub same_addr-≡ : (x y : AddrPort) → same_addr x y ≡ true → x ≡ y
unfolding same_addr
same_addr-≡ invalid invalid h = refl
same_addr-≡ (v4 a b c d p) (v4 e f g i q) h =
    let e1 : a ≡ e = ground (arith, h) in
    let e2 : b ≡ f = ground (arith, h) in
    let e3 : c ≡ g = ground (arith, h) in
    let e4 : d ≡ i = ground (arith, h) in
    let e5 : p ≡ q = ground (arith, h) in rw (e1, e2, e3, e4, e5) refl
same_addr-≡ (v6 ip p) (v6 jp q) h =
    let e1 = equal_bytes-≡ ip jp (ground (arith, h)) in
    let e2 : p ≡ q = ground (arith, h) in rw (e1, e2) refl
same_addr-≡ invalid (v4 e f g i q) h = absurd (ground (arith, h))
same_addr-≡ invalid (v6 jp q) h = absurd (ground (arith, h))
same_addr-≡ (v4 a b c d p) invalid h = absurd (ground (arith, h))
same_addr-≡ (v4 a b c d p) (v6 jp q) h = absurd (ground (arith, h))
same_addr-≡ (v6 ip p) invalid h = absurd (ground (arith, h))
same_addr-≡ (v6 ip p) (v4 e f g i q) h = absurd (ground (arith, h))

-- A key that differs from `x` differs from all that are the same as `x`.
pub same_addr-apart :
    (x y z : AddrPort) → same_addr x y ≡ false → same_addr x z ≡ true → same_addr y z ≡ false
same_addr-apart x y z apart same = elim (Bool-cases (same_addr y z)) [
  | inr e ↦ e
  | inl e ↦
      let xz = same_addr-≡ x z same in
      let yz = same_addr-≡ y z e in
      absurd (ground (arith, apart, same_addr_refl z, rw (xz, yz) at apart))
]
