-- ===== src/Congestion/Udt/Pace.antt =====
-- congestion/udt.go: the changes of the rate keep it above 0 and at most 500 microseconds per byte.
use go_raknet.Prelude.{
  ℕ, ◌*◌, ◌≤◌, ◌<◌, ◌≡◌, Bool, true, false, ◌&&◌, if◌then◌else◌, Bool-cases, inl, inr, arith,
}
use go_raknet.Congestion.Float64.{Float64, max_float}
use go_raknet.Congestion.Rounding.{◌≼◌, IsRounded}
use go_raknet.Congestion.Udt.{Udt}
use go_raknet.Congestion.Udt.Rate.{increment, estimated_as}

module _ {F : Type 0} ⦃d : Float64 F⦄ (laws : IsRounded F) where
  open d use {of_nat, lit, add, sub, mul, div, lt, le}
  open laws use {
    le_trans, le_ends, le_of_not_lt, lt_of_not_le, le_of_lt, lt_of_lt_of_le, lit_le, lit_pos,
    of_nat_le, of_nat_nonneg, add_le, add_nonneg, sub_le, sub_anti, mul_nonneg, mul_le_mul,
    scale_le, mul_grows, mul_shrinks, div_nonneg, div_le_div, least_factor,
  }

  -- Above 0 and at most 500.
  abbrev pub IsPace : F → Type 0
  IsPace s = (lt (lit 0 1) s ≡ true) × (s ≼ lit 500 1)

  pub positive : (n a : ℕ) → 0 < n → 0 < a → a ≤ 1_000_000 → lit 0 1 ≼ lit n a
  positive n a p q h = le_of_lt _ _ (lit_pos n a p q h)

  -- What `(SND+1)^2` comes to.
  square_bounds :
      (s : F)
      → IsPace s
      → let q = mul (add s (lit 1 1)) (add s (lit 1 1)) in (lit 0 1 ≼ q) × (q ≼ lit 251_001 1)
  square_bounds s h =
      let low =
        add_nonneg s (lit 1 1) (le_of_lt _ _ h.0)
          (positive 1 1 (omega arith) (omega arith) (omega arith)) in
      let high = add_le s 500 1 h.1 (omega arith) in
      (
        mul_nonneg _ _ 501 501 (omega arith) (omega arith) low high low high,
        mul_le_mul _ _ 501 501 (omega arith) (omega arith) low high low high (omega arith),
      )

  increment_nonneg : (s : F) → IsPace s → lit 0 1 ≼ increment (lit 1 100) s
  unfolding increment
  increment_nonneg s h =
      let (low, high) = square_bounds s h in
      let least = positive 1 100 (omega arith) (omega arith) (omega arith) in
      let most = lit_le 1 100 1 1 (omega arith) (omega arith) (omega arith) in
      div_nonneg _ _ (1 * 251_001) (omega arith)
        (mul_nonneg _ _ 1 251_001 (omega arith) (omega arith) least most low high)
        (mul_le_mul _ _ 1 251_001 (omega arith) (omega arith) least most low high (omega arith))
        (lit_pos 251_001 1 (omega arith) (omega arith) (omega arith))

  -- The factor of a slowdown is at least 1.
  slow_factor : (s : F) → IsPace s → lit 1 1 ≼ sub (lit 102 100) (increment (lit 2 100) s)
  unfolding increment
  slow_factor s h =
      let (low, high) = square_bounds s h in
      le_trans _ _ _ least_factor (
        sub_anti 102 100 _ _ (omega arith) (omega arith) (
          div_le_div _ _ 251_001 (omega arith) (omega arith) (
            scale_le 2 100 251_001 _ _ (omega arith) (omega arith) (omega arith) low high
              (le_ends _ _ high).1)))

  pub slower_positive :
      (s : F) → IsPace s → lt (lit 0 1) (mul s (sub (lit 102 100) (increment (lit 2 100) s))) ≡ true
  slower_positive s h = lt_of_lt_of_le _ _ _ h.0 (mul_grows _ _ h.0 (slow_factor s h))

  -- The cap on one side, and what it lets pass on the other.
  pub too_slow : {s : F} → lt (lit 500 1) s ≡ true → IsPace (lit 500 1)
  too_slow e =
      (lit_pos 500 1 (omega arith) (omega arith) (omega arith), (le_ends _ _ (le_of_lt _ _ e)).0)

  pub not_too_slow : (s : F) → lt (lit 0 1) s ≡ true → lt (lit 500 1) s ≡ false → IsPace s
  not_too_slow s p e = (
    p,
    le_of_not_lt _ _ (lit_le 500 1 500 1 (omega arith) (omega arith) (omega arith))
        (le_ends _ _ (le_of_lt _ _ p)).1 e,
  )

  -- A speed-up lowers the spacing, and its floor is above 0.
  pub faster-IsPace :
      (s : F)
      → IsPace s
      → let snd = mul s (sub (lit 99 100) (increment (lit 1 100) s)) in
        IsPace (if lt snd (lit 1 1_000_000) then lit 1 1_000_000 else snd)
  faster-IsPace s h =
      let lit_99 = lit_le 99 100 1 1 (omega arith) (omega arith) (omega arith) in
      let factor =
        le_trans _ _ _ (sub_le _ _ 1 (omega arith) lit_99 (increment_nonneg s h)) lit_99 in
      let lower = le_trans _ _ _ (mul_shrinks _ _ 500 (omega arith) h.0 h.1 factor) h.1 in
      let floor = lit_le 1 1_000_000 500 1 (omega arith) (omega arith) (omega arith) in
      let above = lit_pos 1 1_000_000 (omega arith) (omega arith) (omega arith) in
      elim (Bool-cases
        (lt (mul s (sub (lit 99 100) (increment (lit 1 100) s))) (lit 1 1_000_000))) [
          | inl e ↦ rw (e) (above, floor)
          | inr e ↦ rw (e) (
            lt_of_lt_of_le _ _ _ above
                (le_of_not_lt _ _ (le_ends _ _ lower).0 (le_ends _ _ floor).0 e),
            lower,
          )
        ]

  -- What a positive default makes of a number that is not negative.
  or_else :
      (x y : F)
      → lit 0 1 ≼ x
      → lt (lit 0 1) y ≡ true
      → lt (lit 0 1) (if le x (lit 0 1) then y else x) ≡ true
  or_else x y h k = elim (Bool-cases (le x (lit 0 1))) [
    | inl e ↦ rw (e) k
    | inr e ↦ rw (e) (lt_of_not_le _ _ (le_ends _ _ h).1 (le_ends _ _ h).0 e)
  ]

  -- The window above 16, as the estimate takes it.
  over_bounds :
      (x : F)
      → x ≼ lit 512 1
      → let y = max_float (sub x (lit 16 1)) (lit 0 1) in (lit 0 1 ≼ y) × (y ≼ lit 512 1)
  unfolding max_float
  over_bounds x h =
      let zero_le = lit_le 0 1 0 1 (omega arith) (omega arith) (omega arith) in
      let most =
        le_trans _ _ _
          (sub_le _ _ 512 (omega arith) h (positive 16 1 (omega arith) (omega arith) (omega arith)))
          h in
      elim (Bool-cases (lt (lit 0 1) (sub x (lit 16 1)))) [
        | inl e ↦ rw (e) (le_of_lt _ _ e, most)
        | inr e ↦ rw (e) (zero_le, positive 512 1 (omega arith) (omega arith) (omega arith))
      ]

  guarded_nonneg :
      (x total : F) (n : ℕ) (b : Bool)
      → n ≤ 2_000_000
      → lit 0 1 ≼ x
      → x ≼ lit n 1
      → lit 0 1 ≼ (if lt (lit 0 1) total && b then div x total else lit 0 1)
  guarded_nonneg x total n false r h k = elim (Bool-cases (lt (lit 0 1) total)) [
    | inl e ↦ rw (e) (lit_le 0 1 0 1 (omega arith) (omega arith) (omega arith))
    | inr e ↦ rw (e) (lit_le 0 1 0 1 (omega arith) (omega arith) (omega arith))
  ]
  guarded_nonneg x total n true r h k = elim (Bool-cases (lt (lit 0 1) total)) [
    | inl e ↦ rw (e) (div_nonneg x total n r h k e)
    | inr e ↦ rw (e) (lit_le 0 1 0 1 (omega arith) (omega arith) (omega arith))
  ]

  pub estimated_as_positive :
      (c : Udt F)
      → c.cwnd_datagrams ≼ lit 512 1
      → c.mtu_bytes ≤ 1500
      → lt (lit 0 1) (estimated_as c) ≡ true
  unfolding estimated_as
  estimated_as_positive c h k =
      let (least, most) = over_bounds c.cwnd_datagrams h in
      let mtu_least = of_nat_nonneg c.mtu_bytes in
      let mtu_most = of_nat_le c.mtu_bytes 1500 k (omega arith) in
      or_else _ _
        (guarded_nonneg _ _ (512 * 1500) _ (omega arith)
          (mul_nonneg _ _ 512 1500 (omega arith) (omega arith) least most mtu_least mtu_most)
          (mul_le_mul _ _ 512 1500 (omega arith) (omega arith) least most mtu_least mtu_most
            (omega arith)))
        (lit_pos 36 10_000 (omega arith) (omega arith) (omega arith))

  -- The spacing that slow start ends with, before the cap.
  pub first_spacing :
      (rate : F)
      → lt (lit 0 1) rate ≡ true
      → let snd = div (lit 1 1) rate in
        lt (lit 0 1) (if le snd (lit 0 1) then lit 10_000 36 else snd) ≡ true
  first_spacing rate h =
      let one_le = lit_le 1 1 1 1 (omega arith) (omega arith) (omega arith) in
      or_else _ _
        (div_nonneg _ _ 1 (omega arith) (positive 1 1 (omega arith) (omega arith) (omega arith))
          one_le h)
        (lit_pos 10_000 36 (omega arith) (omega arith) (omega arith))
