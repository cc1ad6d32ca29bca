-- ===== src/Packet/Split.antt =====
-- packet.go: `split` cuts a content into fragments that fit the MTU.
use go_raknet.Prelude.{
  ℕ, zero, suc, ◌+◌, ◌-◌, ◌*◌, ◌/◌, ◌%◌, ◌^◌, ◌≤◌, ◌<◌, ◌≡◌, sym, ap, List, [], arith, ltb,
  if◌then◌else◌, length, drop, min, All, concat, ok, panic, length-take, length-drop,
  take-append-drop, append-nil, Bool-cases, inl, inr,
}
use native.Mathlib.Nat.{div-add-mod, mod-lt, zero-div, zero-mod}
use go_raknet.Packet.{fragments, split_by, split_content}

concat-fragments : (count size : ℕ) (b : List ℕ) → concat (fragments count size b) ≡ b
unfolding fragments
concat-fragments zero size b = append-nil b
concat-fragments (suc count) size b =
    rw (concat-fragments count size (drop size b)) (take-append-drop size b)

length-fragments : (count size : ℕ) (b : List ℕ) → length (fragments count size b) ≡ count + 1
unfolding fragments
length-fragments zero size b = omega arith
length-fragments (suc count) size b = omega (arith, length-fragments count size (drop size b))

-- A fragment that is not empty and not over the size.
abbrev pub Fits : ℕ → List ℕ → Type 0
Fits size f = (0 < length f) × (length f ≤ size)

fragments-Fits :
    (count size : ℕ) (b : List ℕ)
    → count * size < length b
    → length b ≤ count * size + size
    → All (Fits size) (fragments count size b)
unfolding fragments
fragments-Fits zero size b lo hi = ((omega arith, omega arith), tt)
fragments-Fits (suc count) size b lo hi = (
  (omega (arith, length-take size b), omega (arith, length-take size b)),
  fragments-Fits count size (drop size b) (omega (arith, length-drop size b))
      (omega (arith, length-drop size b)),
)

-- The ceiling of a quotient, as `split` computes it, is one more than the number of the full
-- fragments that stand before the last one.
rounds_of :
    (q m size n : ℕ)
    → n ≡ size * q + m
    → m < size
    → 0 < n
    → (r : ℕ) × (q + min m 1 ≡ suc r) × (r * size < n) × (n ≤ r * size + size)
rounds_of zero zero size n e lt pos = absurd (omega arith)
rounds_of (suc q) zero size n e lt pos = (q, omega arith, omega arith, omega arith)
rounds_of q (suc m) size n e lt pos = (q, omega arith, omega arith, omega arith)

rounds :
    (n size : ℕ)
    → 0 < size
    → 0 < n
    → (r : ℕ) × (n / size + min (n % size) 1 ≡ suc r) × (r * size < n) × (n ≤ r * size + size)
rounds n size hs hn =
    rounds_of (n / size) (n % size) size n (sym (div-add-mod n size)) (mod-lt n hs) hn

-- What `split` promises for fragments of at most `size` bytes.
pub record IsSplit (b : List ℕ) (size : ℕ) (fs : List (List ℕ)) : Type 0 where
  pub whole : concat fs ≡ b
  pub fit : All (Fits size) fs
  pub least : length fs * size < length b + size

split_by-IsSplit :
    (size : ℕ) (b : List ℕ)
    → 0 < size
    → 0 < length b
    → (fs : List (List ℕ)) × (split_by size b ≡ ok fs) × IsSplit b size fs
unfolding split_by
split_by-IsSplit size b hs hb =
    let (r, e, lo, hi) = rounds (length b) size hs hb in
    (
      fragments r size b,
      ground (arith, e),
      record {
        whole = concat-fragments r size b;
        fit = fragments-Fits r size b lo hi;
        least = omega (arith, ap (λ t. t * size) (length-fragments r size b));
      },
    )

-- The size of a fragment: the reserve for the split fields is taken off only if there are several.
abbrev pub fragment_size : List ℕ → ℕ → ℕ
fragment_size b mtu = if ltb (mtu - 14) (length b) then mtu - 24 else mtu - 14

-- A content that is not empty is cut without a panic into fragments that are not empty, that
-- together are the content, and of which there are no more than their size requires.
pub split_content-IsSplit :
    (b : List ℕ) (mtu : ℕ)
    → 24 < mtu
    → mtu < 2 ^ 16
    → 0 < length b
    → (fs : List (List ℕ)) × (split_content b mtu ≡ ok fs) × IsSplit b (fragment_size b mtu) fs
unfolding split_content
split_content-IsSplit b mtu lo hi hb = elim (Bool-cases (ltb (mtu - 14) (length b))) [
  | inl several ↦
      let (fs, e, s) = split_by-IsSplit (mtu - 24) b (omega arith) hb in
      (fs, ground (arith, e), rw several s)
  | inr one ↦
      let (fs, e, s) = split_by-IsSplit (mtu - 14) b (omega arith) hb in
      (fs, ground (arith, e), rw one s)
]

-- The empty content is not split: the code panics, at every MTU.
pub split_empty : (mtu : ℕ) → split_content [] mtu ≡ panic
unfolding split_content split_by
split_empty mtu =
    rw (zero-div, zero-mod)
      (ground
        (arith, zero-div ((mtu + 2 ^ 16 - 14) % 2 ^ 16), zero-mod ((mtu + 2 ^ 16 - 14) % 2 ^ 16)))
