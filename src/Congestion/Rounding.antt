-- ===== src/Congestion/Rounding.antt =====
-- What the pacing relies on of `float64`: facts of IEEE 754 that hold because rounding keeps the order.
-- NaN is the value that is not `<=` itself; the bounds on the operands leave out the sums, products and
-- quotients of infinities that are NaN.
use go_raknet.Prelude.{ℕ, ◌+◌, ◌*◌, ◌^◌, ◌≤◌, ◌<◌, ◌≡◌, true, false}
use go_raknet.Congestion.Float64.{Float64}

infix 4 ◌≼◌
abbrev pub ◌≼◌ : {F : Type 0} ⦃d : Float64 F⦄ → F → F → Type 0
◌≼◌ ⦃d⦄ x y = d.le x y ≡ true

pub record IsRounded (F : Type 0) ⦃d : Float64 F⦄ : Type 0 where
  pub le_trans : (x y z : F) → x ≼ y → y ≼ z → x ≼ z
  pub le_ends : (x y : F) → x ≼ y → (x ≼ x) × (y ≼ y)
  pub le_of_not_lt : (x y : F) → x ≼ x → y ≼ y → d.lt x y ≡ false → y ≼ x
  pub lt_of_not_le : (x y : F) → x ≼ x → y ≼ y → d.le x y ≡ false → d.lt y x ≡ true
  pub le_of_lt : (x y : F) → d.lt x y ≡ true → x ≼ y
  pub lt_of_lt_of_le : (x y z : F) → d.lt x y ≡ true → y ≼ z → d.lt x z ≡ true
  -- Constants, and integers in range.
  pub lit_le : (n a m b : ℕ) → 0 < a → 0 < b → n * b ≤ m * a → d.lit n a ≼ d.lit m b
  pub lit_pos : (n a : ℕ) → 0 < n → 0 < a → a ≤ 1_000_000 → d.lt (d.lit 0 1) (d.lit n a) ≡ true
  pub of_nat_le : (n m : ℕ) → n ≤ m → m ≤ 2_000_000 → d.of_nat n ≼ d.lit m 1
  pub of_nat_nonneg : (n : ℕ) → d.lit 0 1 ≼ d.of_nat n
  -- The operations on numbers of moderate size.
  pub add_le :
      (x : F) (n m : ℕ) → x ≼ d.lit n 1 → n + m ≤ 2_000_000 → d.add x (d.lit m 1) ≼ d.lit (n + m) 1
  pub add_nonneg : (x y : F) → d.lit 0 1 ≼ x → d.lit 0 1 ≼ y → d.lit 0 1 ≼ d.add x y
  pub sub_le : (x y : F) (n : ℕ) → n ≤ 2_000_000 → x ≼ d.lit n 1 → d.lit 0 1 ≼ y → d.sub x y ≼ x
  pub sub_anti :
      (n a : ℕ) (x y : F)
      → n ≤ 2_000_000
      → 0 < a
      → x ≼ y
      → d.sub (d.lit n a) y ≼ d.sub (d.lit n a) x
  pub mul_nonneg :
      (x y : F) (n m : ℕ)
      → n ≤ 2_000_000
      → m ≤ 2_000_000
      → d.lit 0 1 ≼ x
      → x ≼ d.lit n 1
      → d.lit 0 1 ≼ y
      → y ≼ d.lit m 1
      → d.lit 0 1 ≼ d.mul x y
  pub mul_le_mul :
      (x y : F) (n m : ℕ)
      → n ≤ 2_000_000
      → m ≤ 2_000_000
      → d.lit 0 1 ≼ x
      → x ≼ d.lit n 1
      → d.lit 0 1 ≼ y
      → y ≼ d.lit m 1
      → n * m ≤ 2_000_000
      → d.mul x y ≼ d.lit (n * m) 1
  pub scale_le :
      (n a m : ℕ) (x y : F)
      → n ≤ 2_000_000
      → m ≤ 2_000_000
      → 0 < a
      → d.lit 0 1 ≼ x
      → x ≼ y
      → y ≼ d.lit m 1
      → d.mul (d.lit n a) x ≼ d.mul (d.lit n a) y
  -- A factor of at least 1 does not lower a number, and one of at most 1 does not raise it.
  pub mul_grows : (x y : F) → d.lt (d.lit 0 1) x ≡ true → d.lit 1 1 ≼ y → x ≼ d.mul x y
  pub mul_shrinks :
      (x y : F) (n : ℕ)
      → n ≤ 2_000_000
      → d.lt (d.lit 0 1) x ≡ true
      → x ≼ d.lit n 1
      → y ≼ d.lit 1 1
      → d.mul x y ≼ x
  pub div_nonneg :
      (x y : F) (n : ℕ)
      → n ≤ 2_000_000
      → d.lit 0 1 ≼ x
      → x ≼ d.lit n 1
      → d.lt (d.lit 0 1) y ≡ true
      → d.lit 0 1 ≼ d.div x y
  pub div_le_div :
      (x y : F) (m : ℕ) → m ≤ 2_000_000 → 0 < m → x ≼ y → d.div x (d.lit m 1) ≼ d.div y (d.lit m 1)
  pub ratio_nonneg : (n m : ℕ) → 0 < m → m < 2 ^ 64 → d.lit 0 1 ≼ d.div (d.of_nat n) (d.of_nat m)
  pub ratio_le_one :
      (n m : ℕ) → 0 < m → n ≤ m → m < 2 ^ 64 → d.div (d.of_nat n) (d.of_nat m) ≼ d.lit 1 1
  -- 1.02 - 0.02, as the code comes to it.
  pub least_factor :
      d.lit 1 1
      ≼ d.sub (d.lit 102 100) (d.div (d.mul (d.lit 2 100) (d.lit 251_001 1)) (d.lit 251_001 1))
