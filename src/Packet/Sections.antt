-- ===== src/Packet/Sections.antt =====
-- packet.go: the optional parts of a packet, written and read back.
use go_raknet.Prelude.{
  ℕ, ◌+◌, ◌-◌, ◌%◌, ◌^◌, ◌≤◌, ◌<◌, ◌≡◌, sym, ap, ◌∙◌, List, [], ◌∷◌, ◌++◌, Bool, true, false, arith,
  if◌then◌else◌, length, take, drop, Result, ok, slice_from, length-append, length-drop, drop-drop,
  take-append, drop-append,
}
use go_raknet.Binary.{
  uint24_bytes, load_uint24-write, be_uint, be_bytes, be_value, be_value_2, be_value_4,
}
use go_raknet.Packet.{read_index, read_split, read_content}

-- A part that is there or not.
abbrev pub section : Bool → List ℕ → List ℕ
section true xs = xs
section false xs = []

-- The bytes at an offset, as a slice expression yields them.
pub slice_from_rest :
    (b : List ℕ) (offset : ℕ) {x : ℕ} {rest : List ℕ}
    → drop offset b ≡ x ∷ rest
    → slice_from b offset ≡ ok (x ∷ rest)
slice_from_rest b offset {x} {rest} e = ground (arith, ap length e, length-drop offset b)

length_at :
    (b : List ℕ) (offset : ℕ) {xs : List ℕ} → drop offset b ≡ xs → length b - offset ≡ length xs
length_at b offset e = sym (length-drop offset b) ∙ ap length e

be_uint_ok : (n : ℕ) (b : List ℕ) → n ≤ length b → be_uint n b ≡ ok (be_value n b 0)
unfolding be_uint
be_uint_ok n b h = ground arith

-- What a part reads as, and where it leaves the reader.
abbrev pub Reads {ℓ} : {A : Type ℓ} → Result (A × ℕ) → A → List ℕ → ℕ → List ℕ → Type ℓ
Reads r a b offset rest = (r ≡ ok (a, offset)) × (drop offset b ≡ rest)

after_part :
    (b part rest : List ℕ) (offset : ℕ)
    → drop offset b ≡ part ++ rest
    → drop (offset + length part) b ≡ rest
after_part b part rest offset e =
    drop-drop offset (length part) b ∙ ap (drop (length part)) e ∙ drop-append part rest

pub read_index-section :
    (p : Bool) (old v : ℕ) (extra b rest : List ℕ) (offset : ℕ)
    → drop offset b ≡ section p (uint24_bytes v ++ extra) ++ rest
    → Reads
        (read_index p (3 + length extra) old b offset)
        (if p then v % 2 ^ 24 else old)
        b
        (offset + length (section p (uint24_bytes v ++ extra)))
        rest
unfolding read_index
read_index-section false old v extra b rest offset e = (ground arith, after_part b [] rest offset e)
read_index-section true old v extra b rest offset e = (
  ground (
    arith,
    slice_from_rest b offset e,
    load_uint24-write v (extra ++ rest),
    length_at b offset e,
    length-append extra rest,
  ),
  after_part b (uint24_bytes v ++ extra) rest offset e,
)

-- The bytes of the split fields.
abbrev pub split_bytes : ℕ → ℕ → ℕ → List ℕ
split_bytes count id index = be_bytes 4 count ++ (be_bytes 2 id ++ be_bytes 4 index)

pub read_split-section :
    (p : Bool) (old : ℕ × ℕ × ℕ) (count id index : ℕ) (b rest : List ℕ) (offset : ℕ)
    → count < 2 ^ 32
    → id < 2 ^ 16
    → index < 2 ^ 32
    → drop offset b ≡ section p (split_bytes count id index) ++ rest
    → Reads
        (read_split p old b offset)
        (if p then (count, id, index) else old)
        b
        (offset + length (section p (split_bytes count id index)))
        rest
unfolding read_split
read_split-section false old count id index b rest offset hc hi hx e =
    (ground arith, after_part b [] rest offset e)
read_split-section true old count id index b rest offset hc hi hx e = (
  ground (
    arith,
    length_at b offset e,
    slice_from_rest b offset e,
    slice_from_rest b (offset + 4) (drop-drop offset 4 b ∙ ap (drop 4) e),
    slice_from_rest b (offset + 6) (drop-drop offset 6 b ∙ ap (drop 6) e),
    be_uint_ok 4 (split_bytes count id index ++ rest) (omega arith),
    be_uint_ok 2 (be_bytes 2 id ++ (be_bytes 4 index ++ rest)) (omega arith),
    be_uint_ok 4 (be_bytes 4 index ++ rest) (omega arith),
    be_value_4 count (be_bytes 2 id ++ (be_bytes 4 index ++ rest)) hc,
    be_value_2 id (be_bytes 4 index ++ rest) hi,
    be_value_4 index rest hx,
  ),
  after_part b (split_bytes count id index) rest offset e,
)

pub read_content-section :
    (content b rest : List ℕ) (offset : ℕ)
    → drop offset b ≡ content ++ rest
    → offset ≤ length b
    → read_content (length content) b offset ≡ ok (content, offset + length content)
unfolding read_content
read_content-section content b rest offset e le = ground (
  arith,
  le,
  ap (take (length content)) e,
  take-append content rest,
  length_at b offset e,
  ap length e,
  length-append content rest,
)
