-- ===== src/Prelude/Bits.antt =====
-- Facts about `bit_and` and `bit_or` at variables, in plain arithmetic.
use Prim.Native.Nat.{
  ℕ, zero, suc, ◌+◌, ◌-◌, ◌*◌, ◌/◌, ◌%◌, ◌^◌, ◌≤◌, ◌<◌, max, bit_and, bit_or, digits,
  bit_or-bitwise,
}
use mathlib.Core.Path.{◌≡◌, refl, sym, subst, ◌∙◌}
use mathlib.Core.Bool.{Bool, true, false}
use native.Mathlib.Omega.{arith}
use mathlib.Core.Logic.{inl, inr}
use go_raknet.Prelude.Tests.{◌==◌, ==_iff, if◌then◌else◌, Bool-cases}

-- The test of the `n` numbers from `x` on.
passes : (ℕ → Bool) → ℕ → ℕ → Bool
passes test x zero = true
passes test x (suc n) = if test x then passes test (suc x) n else false

passes-each :
    (test : ℕ → Bool) (x n y : ℕ) → passes test x n ≡ true → x ≤ y → y < x + n → test y ≡ true
unfolding passes
passes-each test x zero y t lo hi = absurd (omega arith)
passes-each test x (suc n) y t lo hi = elim (Bool-cases (x == y)) [
  | inl e ↦ subst (λ z. test z ≡ true) ((==_iff x y).0 e) (ground arith)
  | inr e ↦ passes-each test (suc x) n y (ground arith) (ground arith) (omega arith)
]

-- Two functions agree on every byte.
agree_on_bytes :
    (f g : ℕ → ℕ) → passes (λ x. f x == g x) 0 256 ≡ true → (b : ℕ) → b < 256 → f b ≡ g b
agree_on_bytes f g t b h = (==_iff (f b) (g b)).0 (passes-each _ 0 256 b t (omega arith) h)

pub bit_and_128 : (b : ℕ) → b < 256 → bit_and b 0x80 ≡ b / 128 * 128
unfolding passes
bit_and_128 = agree_on_bytes _ _ refl

pub bit_and_64 : (b : ℕ) → b < 256 → bit_and b 0x40 ≡ b / 64 % 2 * 64
unfolding passes
bit_and_64 = agree_on_bytes _ _ refl

pub bit_and_32 : (b : ℕ) → b < 256 → bit_and b 0x20 ≡ b / 32 % 2 * 32
unfolding passes
bit_and_32 = agree_on_bytes _ _ refl

pub bit_and_16 : (b : ℕ) → b < 256 → bit_and b 0x10 ≡ b / 16 % 2 * 16
unfolding passes
bit_and_16 = agree_on_bytes _ _ refl

pub bit_and_224 : (b : ℕ) → b < 256 → bit_and b 224 ≡ b / 32 * 32
unfolding passes
bit_and_224 = agree_on_bytes _ _ refl

pub bit_or_16 : (b : ℕ) → b < 256 → bit_or b 0x10 ≡ b - b / 16 % 2 * 16 + 16
unfolding passes
bit_or_16 = agree_on_bytes _ _ refl

-- What `bit_or` stands for: `n` digits of `a` and `b`, combined by `max`.
abbrev or_digits : ℕ → ℕ → ℕ → ℕ
or_digits n a b = digits (λ b. b) max n a b

no_digits : (n b : ℕ) → or_digits n zero b ≡ b
no_digits zero b = refl
no_digits (suc n) b = refl

-- Digits past the length of `a` add nothing.
more_digits : (a b n m : ℕ) → a ≤ n → n ≤ m → or_digits m a b ≡ or_digits n a b
more_digits zero b n m h k = no_digits m b ∙ sym (no_digits n b)
more_digits (suc a) b zero m h k = absurd (omega arith)
more_digits (suc a) b (suc n) zero h k = absurd (omega arith)
more_digits (suc a) b (suc n) (suc m) h k =
    omega (arith, more_digits (suc a / 2) (b / 2) n m (omega arith) (omega arith))

zero-bit_or : (b : ℕ) → bit_or 0 b ≡ b
zero-bit_or b = bit_or-bitwise 0 b

half_digits : (a b : ℕ) → or_digits a (suc a / 2) b ≡ bit_or (suc a / 2) b
half_digits a b =
    more_digits (suc a / 2) b (suc a / 2) a (omega arith) (omega arith)
    ∙ sym (bit_or-bitwise (suc a / 2) b)

bit_or_step : (a b : ℕ) → bit_or a b ≡ bit_or (a / 2) (b / 2) * 2 + max (a % 2) (b % 2)
bit_or_step zero b = omega (arith, zero-bit_or b, zero-bit_or (b / 2))
bit_or_step (suc a) b = omega (arith, bit_or-bitwise (suc a) b, half_digits a (b / 2))

double_pow : (k b : ℕ) → b * 2 ^ suc k ≡ b * 2 ^ k * 2
double_pow k b = grind arith

-- A low part and a shifted high part do not overlap: `|` is `+`.
pub bit_or-add : (k a b : ℕ) → a < 2 ^ k → bit_or a (b * 2 ^ k) ≡ a + b * 2 ^ k
bit_or-add zero a b h = let e : a ≡ 0 = omega arith in rw e (zero-bit_or (b * 2 ^ 0) ∙ omega arith)
bit_or-add (suc k) a b h =
    let half : b * 2 ^ suc k / 2 ≡ b * 2 ^ k = omega (arith, double_pow k b) in
    ground (
      arith,
      bit_or_step a (b * 2 ^ suc k),
      double_pow k b,
      half,
      bit_or-add k (a / 2) b (omega (arith, double_pow k 1)),
    )
