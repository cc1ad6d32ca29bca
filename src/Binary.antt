-- ===== src/Binary.antt =====
-- binary.go, and the byte orders of encoding/binary that the package uses. A byte slice is a list
-- of numbers below 256, a buffer is the list of the bytes written to it so far.
use go_raknet.Prelude.{
  ℕ, zero, suc, ◌+◌, ◌*◌, ◌/◌, ◌%◌, ◌^◌, ◌<◌, ◌≡◌, ap, ◌∙◌, List, [], ◌∷◌, ◌++◌, arith, ltb,
  if◌then◌else◌, length, Result, ok, panic, ◌>>=◌, index, bit_or,
}
use go_raknet.Prelude.Bits.{bit_or-add}

abbrev pub IsByte : ℕ → Type 0
IsByte b = b < 256

-- What three bytes hold; the type `uint24` itself is a uint32.
abbrev pub Is24 : ℕ → Type 0
Is24 v = v < 2 ^ 24

abbrev pub Is32 : ℕ → Type 0
Is32 v = v < 2 ^ 32

-- `u + 1` on a uint24, which wraps where a uint32 does.
abbrev pub next24 : ℕ → ℕ
next24 u = (u + 1) % 2 ^ 32

-- The old value and the counter after it.
unfoldable pub inc : ℕ → ℕ × ℕ
inc u = (u, next24 u)

unfoldable pub load_uint24 : List ℕ → Result ℕ
load_uint24 b = do
  b0 ← index b 0
  b1 ← index b 1
  b2 ← index b 2
  ok (bit_or (bit_or b0 (b1 * 2 ^ 8)) (b2 * 2 ^ 16))

abbrev pub uint24_bytes : ℕ → List ℕ
uint24_bytes v = v % 256 ∷ (v / 2 ^ 8 % 256) ∷ (v / 2 ^ 16 % 256) ∷ []

unfoldable pub write_uint24 : List ℕ → ℕ → List ℕ
write_uint24 b v = b ++ uint24_bytes v

unfoldable pub write_uint16 : List ℕ → ℕ → List ℕ
write_uint16 b v = b ++ (v / 2 ^ 8 % 256 ∷ v % 256 ∷ [])

unfoldable pub write_uint32 : List ℕ → ℕ → List ℕ
write_uint32 b v = b ++ (v / 2 ^ 24 % 256 ∷ v / 2 ^ 16 % 256 ∷ v / 2 ^ 8 % 256 ∷ v % 256 ∷ [])

-- `binary.BigEndian`: the value of the first `n` bytes, after those that `acc` holds.
unfoldable pub be_value : ℕ → List ℕ → ℕ → ℕ
be_value zero b acc = acc
be_value (suc n) [] acc = acc
be_value (suc n) (x ∷ xs) acc = be_value n xs (acc * 256 + x)

-- `binary.BigEndian.Uint16`, `Uint32` and `Uint64` at 2, 4 and 8 bytes.
unfoldable pub be_uint : ℕ → List ℕ → Result ℕ
be_uint n b = if ltb (length b) n then panic else ok (be_value n b 0)

-- `binary.BigEndian.PutUint16` and its like.
abbrev pub be_bytes : ℕ → ℕ → List ℕ
be_bytes zero v = []
be_bytes (suc n) v = v / 256 ^ n % 256 ∷ be_bytes n v

pub be_value_2 : (v : ℕ) (rest : List ℕ) → v < 2 ^ 16 → be_value 2 (be_bytes 2 v ++ rest) 0 ≡ v
unfolding be_value
be_value_2 v rest h = omega arith

pub be_value_4 : (v : ℕ) (rest : List ℕ) → v < 2 ^ 32 → be_value 4 (be_bytes 4 v ++ rest) 0 ≡ v
unfolding be_value
be_value_4 v rest h = omega arith

pub be_value_8 : (v : ℕ) (rest : List ℕ) → v < 2 ^ 64 → be_value 8 (be_bytes 8 v ++ rest) 0 ≡ v
unfolding be_value
be_value_8 v rest h = omega arith

pub uint24_of_bytes :
    (b0 b1 b2 : ℕ)
    → b0 < 256
    → b1 < 256
    → bit_or (bit_or b0 (b1 * 2 ^ 8)) (b2 * 2 ^ 16) ≡ b0 + b1 * 2 ^ 8 + b2 * 2 ^ 16
uint24_of_bytes b0 b1 b2 h k =
    ap (λ x. bit_or x (b2 * 2 ^ 16)) (bit_or-add 8 b0 b1 (omega arith))
    ∙ bit_or-add 16 (b0 + b1 * 2 ^ 8) b2 (omega arith)

-- Three bytes keep the low 24 bits of the counter, and no more.
pub load_uint24-write :
    (v : ℕ) (rest : List ℕ) → load_uint24 (uint24_bytes v ++ rest) ≡ ok (v % 2 ^ 24)
unfolding load_uint24
load_uint24-write v rest = ap ok (
    uint24_of_bytes (v % 256) (v / 2 ^ 8 % 256) (v / 2 ^ 16 % 256) (omega arith) (omega arith)
    ∙ omega arith)
