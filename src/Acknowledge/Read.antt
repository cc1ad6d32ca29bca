-- ===== src/Acknowledge/Read.antt =====
-- acknowledge.go: `read` on any input.
use go_raknet.Prelude.{
  ℕ, zero, suc, ◌+◌, ◌-◌, ◌*◌, ◌%◌, ◌^◌, ◌≤◌, ◌<◌, ◌≡◌, refl, ◌∙◌, List, [], ◌∷◌, ◌++◌, false,
  arith, ltb, ◌==◌, length, drop, All, Result, ok, err, panic, length-append, Bool-cases, inl, inr,
  bit_or, slice_from, length-drop,
}
use go_raknet.Binary.{
  IsByte, Is24, load_uint24, be_uint, be_bytes, be_value, uint24_bytes, load_uint24-write,
  uint24_of_bytes,
}
use go_raknet.Acknowledge.{max_acknowledgement_packets, read_records, read}
use go_raknet.Acknowledge.Sorting.{drop-All}
use go_raknet.Acknowledge.Records.{range, record_bytes, length-numbers_from}

-- Three bytes hold a number of 24 bits.
load_three :
    (b : List ℕ) → 3 ≤ length b → (v : ℕ) × (load_uint24 b ≡ ok v) × (All IsByte b → Is24 v)
unfolding load_uint24
load_three [] h = absurd (omega arith)
load_three (x ∷ []) h = absurd (omega arith)
load_three (x ∷ (y ∷ [])) h = absurd (omega arith)
load_three (x ∷ (y ∷ (z ∷ b))) h = (
  bit_or (bit_or x (y * 2 ^ 8)) (z * 2 ^ 16),
  refl,
  λ s. omega (arith, uint24_of_bytes x y z s.0 s.1.0, s.0, s.1.0, s.1.1.0),
)

-- What holds of every outcome of `read_records`: it is no panic, and on bytes the number of packets
-- stays within the bound.
abbrev Outcome : List ℕ → List ℕ → Result (List ℕ) → Type 0
Outcome b acc (ok xs) = All IsByte b → length acc ≤ 8193 → length xs ≤ 8193
Outcome b acc (err e) = Unit {0}
Outcome b acc panic = ⊥

Outcome-mono :
    (b b' acc acc' : List ℕ) (r : Result (List ℕ))
    → (All IsByte b → All IsByte b' × (length acc ≤ 8193 → length acc' ≤ 8193))
    → Outcome b' acc' r
    → Outcome b acc r
Outcome-mono b b' acc acc' (ok xs) f o = λ s h. o (f s).0 ((f s).1 h)
Outcome-mono b b' acc acc' (err e) f o = tt
Outcome-mono b b' acc acc' panic f o = o

slice_three : (b : List ℕ) → 3 ≤ length b → slice_from b 3 ≡ ok (drop 3 b)
slice_three b h = ground arith

-- The numbers of a range that passed the check on their count.
length-range-le :
    (acc : List ℕ) (first last : ℕ)
    → Is24 first
    → Is24 last
    → ltb max_acknowledgement_packets ((length acc + last + 2 ^ 32 - first) % 2 ^ 32) ≡ false
    → length acc ≤ 8193
    → length (acc ++ range first last) ≤ 8193
length-range-le acc first last hf hl passed h =
    ground
      (arith, length-append acc (range first last), length-numbers_from first (suc last - first))

read_records-Outcome : (count : ℕ) (b acc : List ℕ) → Outcome b acc (read_records count b acc)
unfolding read_records
read_records-Outcome zero b acc = λ s h. h
read_records-Outcome (suc count) [] acc = tt
read_records-Outcome (suc count) (kind ∷ b) acc = elim (Bool-cases (ltb (suc (length b)) 4)) [
  | inl short ↦ rw (short, read_records) tt
  | inr four ↦ elim (Bool-cases (kind == 0)) [
    | inl ranged ↦ elim (Bool-cases (ltb (suc (length b)) 7)) [
      | inl short ↦ rw (four, ranged, short, read_records) tt
      | inr seven ↦
          let (first, e, f) = load_three b (ground arith) in
          let (last, g, l) = load_three (drop 3 b) (ground (arith, length-drop 3 b)) in
          elim (Bool-cases
            (ltb max_acknowledgement_packets ((length acc + last + 2 ^ 32 - first) % 2 ^ 32))) [
              | inl over ↦
                  rw (four, ranged, seven, e, slice_three b (ground arith), g, over, read_records)
                    tt
              | inr passed ↦
                  rw (four, ranged, seven, e, slice_three b (ground arith), g, passed, read_records)
                    (Outcome-mono (kind ∷ b) (drop 6 b) acc (acc ++ range first last) _
                      (λ s. (
                        drop-All IsByte 6 b s.1,
                        length-range-le acc first last (f s.1) (l (drop-All IsByte 3 b s.1)) passed,
                      ))
                      (read_records-Outcome count (drop 6 b) (acc ++ range first last)))
            ]
    ]
    | inr not_ranged ↦ elim (Bool-cases (kind == 1)) [
      | inl single ↦ elim (Bool-cases (ltb max_acknowledgement_packets (length acc + 1))) [
        | inl over ↦ rw (four, not_ranged, single, over, read_records) tt
        | inr passed ↦
            let (first, e, f) = load_three b (ground arith) in
            rw (four, not_ranged, single, passed, e, read_records)
              (Outcome-mono (kind ∷ b) (drop 3 b) acc (acc ++ (first ∷ [])) _
                (λ s. (
                  drop-All IsByte 3 b s.1,
                  λ h. ground (arith, length-append acc (first ∷ []), passed),
                ))
                (read_records-Outcome count (drop 3 b) (acc ++ (first ∷ []))))
      ]
      | inr other ↦
          rw (four, not_ranged, other, read_records) (read_records-Outcome count (kind ∷ b) acc)
    ]
  ]
]

-- What can be said of an outcome of `read` without knowing the input.
abbrev pub ReadsSafely : List ℕ → Result (List ℕ) → Type 0
ReadsSafely b (ok xs) = length xs ≤ 8193
ReadsSafely b (err e) = Unit {0}
ReadsSafely b panic = ⊥

-- Whatever bytes arrive, reading an acknowledgement does not panic and yields at most 8193 sequence
-- numbers.
pub read_safe : (b : List ℕ) → All IsByte b → ReadsSafely b (read b)
unfolding read be_uint
read_safe b s = elim (Bool-cases (ltb (length b) 2)) [
  | inl short ↦ rw (short, read) tt
  | inr long ↦
      rw (long, read)
        (finish (drop 2 b) _ (drop-All IsByte 2 b s)
          (read_records-Outcome (be_value 2 b 0) (drop 2 b) []))
]
  where
    finish :
        (rest : List ℕ) (r : Result (List ℕ))
        → All IsByte rest
        → Outcome rest [] r
        → ReadsSafely b r
    finish rest (ok xs) h o = o h (omega arith)
    finish rest (err e) h o = tt
    finish rest panic h o = o

-- The limit is exceeded by one: a single range of 8193 numbers is read in full.
pub read_over_maximum :
    (first : ℕ)
    → first + 8192 < 2 ^ 24
    → (read (be_bytes 2 1 ++ record_bytes first (first + 8192)) ≡ ok (range first (first + 8192)))
      × (length (range first (first + 8192)) ≡ max_acknowledgement_packets + 1)
unfolding read be_uint be_value read_records
read_over_maximum first h = (
  ground (
    arith,
    h,
    load_uint24-write first (uint24_bytes (first + 8192) ++ []),
    load_uint24-write (first + 8192) [],
  ),
  length-numbers_from first (suc (first + 8192) - first) ∙ omega arith,
)
