-- ===== src/Congestion/Float64.antt =====
-- congestion: what the code does with a `float64`. The arithmetic of the machine is not part of the
-- repository; the operations are an interface over the type `F` of the numbers.
use go_raknet.Prelude.{ℕ, Bool, if◌then◌else◌}

-- `lit n d` is the constant n / d, and `truncate` the conversion `int(x)` of a number that is not
-- negative.
pub record Float64 (F : Type 0) : Type 0 where
  pub of_nat : ℕ → F
  pub lit : ℕ → ℕ → F
  pub neg : F → F
  pub abs : F → F
  pub add : F → F → F
  pub sub : F → F → F
  pub mul : F → F → F
  pub div : F → F → F
  pub lt : F → F → Bool
  pub le : F → F → Bool
  pub eq : F → F → Bool
  pub truncate : F → ℕ

module _ {F : Type 0} ⦃d : Float64 F⦄ where
  -- `maxFloat`.
  unfoldable pub max_float : F → F → F
  max_float a b = if d.lt b a then a else b
