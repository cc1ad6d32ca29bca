-- ===== src/Message/Addr.antt =====
-- message/addr.go: addresses with a port.
use go_raknet.Prelude.{
  ℕ, ◌+◌, ◌-◌, ◌*◌, ◌%◌, ◌^◌, ◌<◌, ◌≤◌, ◌≡◌, refl, List, [], ◌∷◌, ◌++◌, Bool, true, false, arith,
  ◌==◌, ◌||◌, ltb, leb, if◌then◌else◌, length, take, drop, Result, ok, ◌>>=◌, index, slice_from,
  in_bounds, ◌>>◌, length-append, append_assoc, length-drop, take-append, drop-drop, drop-append,
  sym, ap, ◌∙◌, Bool-cases, inl, inr, ◌⊎◌,
}
use go_raknet.Message.{uint_at, Returns}
use go_raknet.Binary.{IsByte, be_bytes, be_uint, be_value, be_value_2}

-- An `AddrPort` without a valid address, with an IPv4 address and with an IPv6 address.
pub data AddrPort : Type 0 where
  invalid : AddrPort
  v4 : ℕ → ℕ → ℕ → ℕ → ℕ → AddrPort
  v6 : List ℕ → ℕ → AddrPort

unfoldable pub is_valid : AddrPort → Bool
is_valid invalid = false
is_valid (v4 a b c d port) = true
is_valid (v6 ip port) = true

abbrev pub sizeof_addr_4 : ℕ
sizeof_addr_4 = 1 + 4 + 2

abbrev pub sizeof_addr_6 : ℕ
sizeof_addr_6 = 1 + 2 + 2 + 4 + 16 + 4

unfoldable pub sizeof_addr : AddrPort → ℕ
sizeof_addr invalid = sizeof_addr_4
sizeof_addr (v4 a b c d port) = sizeof_addr_4
sizeof_addr (v6 ip port) = sizeof_addr_6

-- What the call puts into a fresh buffer; the bytes that it passes over are 0.
unfoldable pub put_addr : AddrPort → List ℕ
put_addr invalid = 4 ∷ 255 ∷ 255 ∷ 255 ∷ 255 ∷ 0 ∷ 0 ∷ []
put_addr (v4 a b c d port) = 4 ∷ (255 - a) ∷ (255 - b) ∷ (255 - c) ∷ (255 - d) ∷ be_bytes 2 port
put_addr (v6 ip port) =
    (6 ∷ 23 ∷ 0 ∷ be_bytes 2 port) ++ ((0 ∷ 0 ∷ 0 ∷ 0 ∷ []) ++ (ip ++ (0 ∷ 0 ∷ 0 ∷ 0 ∷ [])))

-- `(-x - 1) & 0xff`
abbrev pub flip_byte : ℕ → ℕ
flip_byte x = (2 * 2 ^ 8 - x - 1) % 2 ^ 8

unfoldable pub addr_4 : List ℕ → Result (AddrPort × ℕ)
addr_4 b = do
  b1 ← index b 1
  b2 ← index b 2
  b3 ← index b 3
  b4 ← index b 4
  port_bytes ← slice_from b 5
  port ← be_uint 2 port_bytes
  ok (v4 (flip_byte b1) (flip_byte b2) (flip_byte b3) (flip_byte b4) port, sizeof_addr_4)

-- `[16]byte(b[9:])` panics on fewer bytes than 16.
unfoldable pub addr_6 : List ℕ → Result (AddrPort × ℕ)
addr_6 b = do
  port_bytes ← slice_from b 3
  port ← be_uint 2 port_bytes
  ip ← slice_from b 9
  in_bounds (leb 16 (length ip))
  ok (v6 (take 16 ip) port, sizeof_addr_6)

-- The address at the front of the bytes, and its size.
unfoldable pub addr : List ℕ → Result (AddrPort × ℕ)
addr b = do kind ← index b 0; if kind == 4 || kind == 0 then addr_4 b else addr_6 b

unfoldable pub addr_size : List ℕ → ℕ
addr_size [] = sizeof_addr_4
addr_size (kind ∷ b) = if kind == 4 || kind == 0 then sizeof_addr_4 else sizeof_addr_6

-- What the fields of an address can hold.
abbrev pub IsAddr : AddrPort → Type 0
IsAddr invalid = Unit {0}
IsAddr (v4 a b c d port) = IsByte a × IsByte b × IsByte c × IsByte d × (port < 2 ^ 16)
IsAddr (v6 ip port) = (length ip ≡ 16) × (port < 2 ^ 16)

-- What arrives: an invalid address as 0.0.0.0:0.
unfoldable pub arrived : AddrPort → AddrPort
arrived invalid = v4 0 0 0 0 0
arrived (v4 a b c d port) = v4 a b c d port
arrived (v6 ip port) = v6 ip port

pub length-put_addr : (a : AddrPort) → IsAddr a → length (put_addr a) ≡ sizeof_addr a
unfolding put_addr sizeof_addr
length-put_addr invalid h = refl
length-put_addr (v4 a b c d port) h = refl
length-put_addr (v6 ip port) h = omega (arith, length-append ip (0 ∷ 0 ∷ 0 ∷ 0 ∷ []), h.0)

pub addr_size-put_addr :
    (a : AddrPort) (rest : List ℕ) → addr_size (put_addr a ++ rest) ≡ sizeof_addr a
unfolding put_addr sizeof_addr addr_size
addr_size-put_addr invalid rest = refl
addr_size-put_addr (v4 a b c d port) rest = refl
addr_size-put_addr (v6 ip port) rest = refl

pub addr-put_addr :
    (a : AddrPort) (rest : List ℕ)
    → IsAddr a
    → addr (put_addr a ++ rest) ≡ ok (arrived a, sizeof_addr a)
unfolding addr addr_4 addr_6 put_addr arrived sizeof_addr be_uint
addr-put_addr invalid rest h = ground (arith, be_value_2 0 rest (omega arith))
addr-put_addr (v4 a b c d port) rest h = ground (arith, be_value_2 port rest h.4)
addr-put_addr (v6 ip port) rest h =
    let tail = (0 ∷ 0 ∷ 0 ∷ 0 ∷ []) ++ rest in
    ground (
      arith,
      be_value_2 port ((0 ∷ 0 ∷ 0 ∷ 0 ∷ []) ++ (ip ++ tail)) h.1,
      append_assoc ip (0 ∷ 0 ∷ 0 ∷ 0 ∷ []) rest,
      length-append ip tail,
      take-append ip tail,
    )

addr_4_returns : (b : List ℕ) → 7 ≤ length b → (a : AddrPort) × (addr_4 b ≡ ok (a, sizeof_addr_4))
unfolding addr_4 be_uint
addr_4_returns (b0 ∷ b1 ∷ b2 ∷ b3 ∷ b4 ∷ b5 ∷ b6 ∷ b) h = (
  v4 (flip_byte b1) (flip_byte b2) (flip_byte b3) (flip_byte b4) (be_value 2 (b5 ∷ b6 ∷ b) 0),
  ground arith,
)
addr_4_returns [] h = absurd (omega arith)
addr_4_returns (b0 ∷ []) h = absurd (omega arith)
addr_4_returns (b0 ∷ b1 ∷ []) h = absurd (omega arith)
addr_4_returns (b0 ∷ b1 ∷ b2 ∷ []) h = absurd (omega arith)
addr_4_returns (b0 ∷ b1 ∷ b2 ∷ b3 ∷ []) h = absurd (omega arith)
addr_4_returns (b0 ∷ b1 ∷ b2 ∷ b3 ∷ b4 ∷ []) h = absurd (omega arith)
addr_4_returns (b0 ∷ b1 ∷ b2 ∷ b3 ∷ b4 ∷ b5 ∷ []) h = absurd (omega arith)

addr_6_returns : (b : List ℕ) → 29 ≤ length b → (a : AddrPort) × (addr_6 b ≡ ok (a, sizeof_addr_6))
unfolding addr_6 be_uint
addr_6_returns b h = (
  v6 (take 16 (drop 9 b)) (be_value 2 (drop 3 b) 0),
  ground (arith, length-drop 3 b, length-drop 9 b),
)

-- Where the bytes are as many as `addr_size` asks for, reading an address does not panic.
pub addr-addr_size :
    (b : List ℕ) → addr_size b ≤ length b → (a : AddrPort) × (addr b ≡ ok (a, addr_size b))
unfolding addr addr_size
addr-addr_size [] h = absurd (omega arith)
addr-addr_size (kind ∷ b) h = elim (Bool-cases (kind == 4 || kind == 0)) [
  | inl e ↦ let (a, r) = addr_4_returns (kind ∷ b) (ground arith) in (a, ground arith)
  | inr e ↦ let (a, r) = addr_6_returns (kind ∷ b) (ground arith) in (a, ground arith)
]

-- Too few bytes, or an address.
pub addr_or :
    (b : List ℕ) → (length b < addr_size b) ⊎ ((a : AddrPort) × (addr b ≡ ok (a, addr_size b)))
addr_or b = elim (Bool-cases (ltb (length b) (addr_size b))) [
  | inl e ↦ inl (ground arith)
  | inr e ↦ inr (addr-addr_size b (ground arith))
]

pub drop-put_addr :
    (k : ℕ) (a : AddrPort) (rest : List ℕ)
    → IsAddr a
    → drop (sizeof_addr a + k) (put_addr a ++ rest) ≡ drop k rest
drop-put_addr k a rest h = rw (drop-drop (sizeof_addr a) k (put_addr a ++ rest)) (
    ap (drop k) (
      ap (λ n. drop n (put_addr a ++ rest)) (sym (length-put_addr a h))
      ∙ drop-append (put_addr a) rest))

-- A number behind an address, at any offset behind it.
pub uint_at-put_addr :
    (n k o : ℕ) (front : List ℕ) (a : AddrPort) (tail : List ℕ)
    → IsAddr a
    → o ≡ length front + sizeof_addr a + k
    → uint_at n (front ++ (put_addr a ++ tail)) o ≡ uint_at n tail k
unfolding uint_at
uint_at-put_addr n k o front a tail h e = ground (
  arith,
  dropped,
  length-append front (put_addr a ++ tail),
  length-append (put_addr a) tail,
  length-put_addr a h,
)
  where
    add_assoc : (x y z : ℕ) → x + y + z ≡ x + (y + z)
    add_assoc x y z = omega arith

    dropped : drop o (front ++ (put_addr a ++ tail)) ≡ drop k tail
    dropped =
        rw
          (
            e,
            add_assoc (length front) (sizeof_addr a) k,
            drop-drop (length front) (sizeof_addr a + k) (front ++ (put_addr a ++ tail)),
            drop-append front (put_addr a ++ tail),
          )
          (drop-put_addr k a tail h)

pub sizeof_addr-pos : (a : AddrPort) → 7 ≤ sizeof_addr a
unfolding sizeof_addr
sizeof_addr-pos invalid = omega arith
sizeof_addr-pos (v4 a b c d port) = omega arith
sizeof_addr-pos (v6 ip port) = omega arith

pub rest-put_addr :
    (a : AddrPort) (rest : List ℕ) → IsAddr a → drop (sizeof_addr a) (put_addr a ++ rest) ≡ rest
rest-put_addr a rest h =
    ap (λ n. drop n (put_addr a ++ rest)) (sym (length-put_addr a h))
    ∙ drop-append (put_addr a) rest

-- Reading an address does not panic where there are enough bytes, and moves on by its size.
pub addr-Returns : (b : List ℕ) → addr_size b ≤ length b → Returns (addr b)
addr-Returns b h = let (a, r) = addr-addr_size b h in rw r tt

pub addr_offset :
    (b : List ℕ) (r : AddrPort × ℕ) → addr_size b ≤ length b → addr b ≡ ok r → r.1 ≡ addr_size b
addr_offset b r h e = let (a, f) = addr-addr_size b h in ground (arith, f, e)
