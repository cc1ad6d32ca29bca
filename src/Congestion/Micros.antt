-- ===== src/Congestion/Micros.antt =====
-- Numbers in millionths for which the facts on `float64` hold: a difference below 0 is 0.
use go_raknet.Prelude.{
  ℕ, ◌+◌, ◌-◌, ◌*◌, ◌/◌, ◌≤◌, ◌<◌, ◌≡◌, refl, true, ltb, leb, ◌==◌, arith, leb→le, lt→ltb,
}
use native.Mathlib.Nat.{
  le-div_iff_mul-le, div-le_of_le-mul, mul-le-mul, mul-le-mul_left, mul-le-mul_right,
  le_of_mul-le-mul_right, div-mul-le_self, le_trans,
}
use go_raknet.Congestion.Float64.{Float64}
use go_raknet.Congestion.Rounding.{IsRounded}

abbrev one : ℕ
one = 1_000_000

instance abbrev pub micros : Float64 ℕ
micros = record {
  of_nat = λ n. n * one;
  lit = λ n a. n * one / a;
  neg = λ x. 0;
  abs = λ x. x;
  add = ◌+◌;
  sub = ◌-◌;
  mul = λ x y. x * y / one;
  div = λ x y. x * one / y;
  lt = ltb;
  le = leb;
  eq = ◌==◌;
  truncate = λ x. x / one;
}

le→leb : (a b : ℕ) → a ≤ b → leb a b ≡ true
le→leb a b h = ground arith

div_mono : (k x y : ℕ) → 0 < k → x ≤ y → x / k ≤ y / k
div_mono k x y p h = (le-div_iff_mul-le p).1 (le_trans (div-mul-le_self x k) h)

lit_mono : (n a m b : ℕ) → 0 < a → 0 < b → n * b ≤ m * a → n * one / a ≤ m * one / b
lit_mono n a m b p q h =
    let low = mul-le-mul_right b (div-mul-le_self (n * one) a) in
    let high = mul-le-mul_right one h in
    (le-div_iff_mul-le q).1 (le_of_mul-le-mul_right (omega (arith, low, high)) p)

scaled : (x y n m : ℕ) → x ≤ n * one → y ≤ m * one → x * y / one ≤ n * m * one
scaled x y n m h k = div-le_of_le-mul one (omega (arith, mul-le-mul h k))

pub micros-IsRounded : IsRounded ℕ
micros-IsRounded = record {
  le_trans = λ x y z h k. ground arith;
  le_ends = λ x y h. ground arith;
  le_of_not_lt = λ x y h k e. ground arith;
  lt_of_not_le = λ x y h k e. ground arith;
  le_of_lt = λ x y h. ground arith;
  lt_of_lt_of_le = λ x y z h k. ground arith;
  lit_le = λ n a m b p q h. le→leb _ _ (lit_mono n a m b p q h);
  lit_pos = λ n a p q h. lt→ltb _ _ ((le-div_iff_mul-le q).1 (omega arith));
  of_nat_le = λ n m h k. le→leb _ _ (omega arith);
  of_nat_nonneg = λ n. ground arith;
  add_le = λ x n m h k. le→leb _ _ (omega (arith, leb→le _ _ h));
  add_nonneg = λ x y h k. ground arith;
  sub_le = λ x y n b h k. ground arith;
  sub_anti = λ n a x y b p h. ground arith;
  mul_nonneg = λ x y n m b c h k i j. ground arith;
  mul_le_mul = λ x y n m e f h k i j b.
      le→leb _ _
        (omega (arith, scaled x y n m (omega (arith, leb→le _ _ k)) (omega (arith, leb→le _ _ j))));
  scale_le = λ n a m x y b c p h k i.
      le→leb _ _ (div_mono one _ _ (omega arith) (mul-le-mul (omega arith) (leb→le x y k)));
  mul_grows = λ x y h k.
      le→leb _ _ ((le-div_iff_mul-le (omega arith)).1 (mul-le-mul (omega arith) (leb→le one y k)));
  mul_shrinks = λ x y n b h k i.
      le→leb _ _ (div-le_of_le-mul one (omega (arith, mul-le-mul_left x (leb→le y one i))));
  div_nonneg = λ x y n b h k i. ground arith;
  div_le_div =
      λ x y m b p h. le→leb _ _ (div_mono _ _ _ (omega arith) (omega (arith, leb→le x y h)));
  ratio_nonneg = λ n m p b. ground arith;
  ratio_le_one =
      λ n m p h b. le→leb _ _ (div-le_of_le-mul (m * one) (omega (arith, mul-le-mul_right one h)));
  least_factor = refl;
}
