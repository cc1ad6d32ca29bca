-- ===== src/Packet/Codec.antt =====
-- packet.go: `read` is the inverse of `write`.
use go_raknet.Prelude.{
  ℕ, ◌+◌, ◌*◌, ◌/◌, ◌%◌, ◌^◌, ◌<◌, ◌≡◌, refl, sym, ap, List, [], ◌∷◌, ◌++◌, Bool, true, false,
  arith, ◌==◌, not, if◌then◌else◌, length, drop, bit_and, ok, length-append, append_assoc,
  append-nil, length-drop,
}
use native.Mathlib.Nat.{div-one}
use go_raknet.Prelude.Bits.{bit_and_16, bit_and_224, bit_or_16}
use go_raknet.Binary.{
  Is24, Is32, write_uint16, write_uint24, write_uint32, uint24_bytes, be_uint, be_value,
}
use go_raknet.Packet.{
  Packet, header_byte, write, read, reliable, sequenced, sequenced_or_ordered, read_index,
  read_split, read_content,
}
use go_raknet.Packet.Sections.{
  section, split_bytes, read_index-section, read_split-section, read_content-section, Reads,
}

-- What a packet that this package sends satisfies: its fields fit the bytes that carry them.
pub record IsEncodable (pk : Packet) : Type 0 where
  pub reliability_fits : pk.reliability < 8
  pub message_fits : Is24 pk.message_index
  pub sequence_fits : Is24 pk.sequence_index
  pub order_fits : Is24 pk.order_index
  pub content_some : 0 < length pk.content
  pub content_fits : length pk.content < 2 ^ 13
  pub count_fits : Is32 pk.split_count
  pub index_fits : Is32 pk.split_index
  pub id_fits : pk.split_id < 2 ^ 16

-- The parts of a packet behind its first three bytes.
abbrev part_message : Packet → List ℕ
part_message pk = section (reliable pk.reliability) (uint24_bytes pk.message_index ++ [])

abbrev part_sequence : Packet → List ℕ
part_sequence pk = section (sequenced pk.reliability) (uint24_bytes pk.sequence_index ++ [])

abbrev part_order : Packet → List ℕ
part_order pk =
    section (sequenced_or_ordered pk.reliability) (uint24_bytes pk.order_index ++ (0 ∷ []))

abbrev part_split : Packet → List ℕ
part_split pk = section pk.split (split_bytes pk.split_count pk.split_id pk.split_index)

abbrev length_bits : Packet → ℕ
length_bits pk = length pk.content % 2 ^ 16 * 2 ^ 3 % 2 ^ 16

pub encoding : Packet → List ℕ
encoding pk =
    header_byte pk.reliability pk.split
    ∷ (length_bits pk / 2 ^ 8 % 256)
    ∷ (length_bits pk % 256)
    ∷ (part_message pk ++ (part_sequence pk ++ (part_order pk ++ (part_split pk ++ pk.content))))

if-section : (p : Bool) (b xs : List ℕ) → (if p then b ++ xs else b) ≡ b ++ section p xs
if-section true b xs = refl
if-section false b xs = sym (append-nil b)

if-section_two :
    (p : Bool) (b xs ys : List ℕ) → (if p then (b ++ xs) ++ ys else b) ≡ b ++ section p (xs ++ ys)
if-section_two p b xs ys = rw (append_assoc b xs ys) (if-section p b (xs ++ ys))

if-section_three :
    (p : Bool) (b xs ys zs : List ℕ)
    → (if p then ((b ++ xs) ++ ys) ++ zs else b) ≡ b ++ section p (xs ++ (ys ++ zs))
if-section_three p b xs ys zs =
    rw (append_assoc (b ++ xs) ys zs, append_assoc b xs (ys ++ zs))
      (if-section p b (xs ++ (ys ++ zs)))

pub write-encoding : (pk : Packet) (buf : List ℕ) → write pk buf ≡ buf ++ encoding pk
unfolding write encoding write_uint16 write_uint24 write_uint32
write-encoding pk buf =
    simp (if-section, if-section_two, if-section_three) (simp (append_assoc, div-one))

-- What the packet read has: the fields that were sent, and for the others those of the packet that
-- was read into.
unfoldable pub received : Packet → Packet → Packet
received old pk =
    let r = pk.reliability in
    record {
      reliability = r;
      message_index = if reliable r then pk.message_index else old.message_index;
      sequence_index = if sequenced r then pk.sequence_index else old.sequence_index;
      order_index = if sequenced_or_ordered r then pk.order_index else old.order_index;
      content = pk.content;
      split = pk.split;
      split_count = if pk.split then pk.split_count else old.split_count;
      split_index = if pk.split then pk.split_index else old.split_index;
      split_id = if pk.split then pk.split_id else old.split_id;
    }

header_byte_fields :
    (r : ℕ) (split : Bool)
    → r < 8
    → (bit_and (header_byte r split) 224 / 2 ^ 5 ≡ r)
      × (not (bit_and (header_byte r split) 0x10 == 0) ≡ split)
unfolding header_byte
header_byte_fields r true h = ground (
  arith,
  bit_or_16 (r * 2 ^ 5 % 2 ^ 8),
  bit_and_224 (r * 2 ^ 5 % 2 ^ 8 + 16),
  bit_and_16 (r * 2 ^ 5 % 2 ^ 8 + 16),
)
header_byte_fields r false h =
    ground (arith, bit_and_224 (r * 2 ^ 5 % 2 ^ 8), bit_and_16 (r * 2 ^ 5 % 2 ^ 8))

mod24 : (v : ℕ) → Is24 v → v % 2 ^ 24 ≡ v
mod24 v h = omega arith

module _ (old pk : Packet) (rest : List ℕ) (h : IsEncodable pk) where
  r : ℕ
  r = pk.reliability

  b : List ℕ
  b = encoding pk ++ rest

  o1 : ℕ
  o1 = 3 + length (part_message pk)

  o2 : ℕ
  o2 = o1 + length (part_sequence pk)

  o3 : ℕ
  o3 = o2 + length (part_order pk)

  o4 : ℕ
  o4 = o3 + length (part_split pk)

  behind_length :
      drop 3 b
      ≡ part_message pk
        ++ (part_sequence pk ++ (part_order pk ++ (part_split pk ++ (pk.content ++ rest))))
  unfolding b encoding
  behind_length = simp append_assoc

  message_read :
      Reads
        (read_index (reliable r) 3 old.message_index b 3)
        (if reliable r then pk.message_index else old.message_index)
        b
        o1
        (part_sequence pk ++ (part_order pk ++ (part_split pk ++ (pk.content ++ rest))))
  unfolding r o1
  message_read =
      rw (mod24 pk.message_index h.message_fits) at
        (read_index-section (reliable r) old.message_index pk.message_index [] b _ 3 behind_length)

  sequence_read :
      Reads
        (read_index (sequenced r) 3 old.sequence_index b o1)
        (if sequenced r then pk.sequence_index else old.sequence_index)
        b
        o2
        (part_order pk ++ (part_split pk ++ (pk.content ++ rest)))
  unfolding r o2
  sequence_read = rw (mod24 pk.sequence_index h.sequence_fits) at (
      read_index-section (sequenced r) old.sequence_index pk.sequence_index [] b _ o1
        message_read.1)

  order_read :
      Reads
        (read_index (sequenced_or_ordered r) 4 old.order_index b o2)
        (if sequenced_or_ordered r then pk.order_index else old.order_index)
        b
        o3
        (part_split pk ++ (pk.content ++ rest))
  unfolding r o3
  order_read = rw (mod24 pk.order_index h.order_fits) at (
      read_index-section (sequenced_or_ordered r) old.order_index pk.order_index (0 ∷ []) b _ o2
        sequence_read.1)

  split_read :
      Reads
        (read_split pk.split (old.split_count, old.split_id, old.split_index) b o3)
        (if pk.split
          then (pk.split_count, pk.split_id, pk.split_index)
          else (old.split_count, old.split_id, old.split_index))
        b
        o4
        (pk.content ++ rest)
  unfolding o4
  split_read =
      read_split-section pk.split _ pk.split_count pk.split_id pk.split_index b _ o3 h.count_fits
        h.id_fits h.index_fits order_read.1

  content_read : read_content (length pk.content) b o4 ≡ ok (pk.content, o4 + length pk.content)
  content_read = read_content-section pk.content b rest o4 split_read.1 (
      omega (
        arith,
        ap length split_read.1,
        length-append pk.content rest,
        length-drop o4 b,
        h.content_some,
      ))

  length_read : be_uint 2 (drop 1 b) ≡ ok (length pk.content * 2 ^ 3)
  unfolding be_uint be_value b encoding
  length_read = ground (arith, h.content_fits)

  total : length (encoding pk) ≡ o4 + length pk.content
  unfolding encoding o1 o2 o3 o4
  total = omega (
    arith,
    length-append (part_message pk)
        (part_sequence pk ++ (part_order pk ++ (part_split pk ++ pk.content))),
    length-append (part_sequence pk) (part_order pk ++ (part_split pk ++ pk.content)),
    length-append (part_order pk) (part_split pk ++ pk.content),
    length-append (part_split pk) pk.content,
  )

  read-encoding : read old b ≡ ok (received old pk, length (encoding pk))
  unfolding read received encoding b r
  read-encoding = ground (
    arith,
    header_byte_fields pk.reliability pk.split h.reliability_fits,
    length_read,
    message_read,
    sequence_read,
    order_read,
    split_read,
    content_read,
    h.content_some,
    h.content_fits,
    total,
  )

-- For a packet with a content of 1 to 8191 bytes, indices below 2^24, split fields that fit their widths
-- and a reliability below 8: `read` gives back every field that `write` encoded, whatever follows the
-- packet, and takes exactly its bytes. Fields that the packet does not carry keep their old value.
pub read-write :
    (old pk : Packet) (rest : List ℕ)
    → IsEncodable pk
    → read old (write pk [] ++ rest) ≡ ok (received old pk, length (write pk []))
unfolding b
read-write old pk rest h = rw (write-encoding pk []) (read-encoding old pk rest h)

-- A packet takes three bytes for its header and length, three for each index it carries, one for the
-- order channel, ten for the split fields, and its content.
pub length-write :
    (pk : Packet) (buf : List ℕ)
    → length (write pk buf)
      ≡ length buf
        + 3
        + (if reliable pk.reliability then 3 else 0)
        + (if sequenced pk.reliability then 3 else 0)
        + (if sequenced_or_ordered pk.reliability then 4 else 0)
        + (if pk.split then 10 else 0)
        + length pk.content
unfolding encoding
length-write pk buf = ground (
  arith,
  write-encoding pk buf,
  length-append buf (encoding pk),
  length-append (part_message pk)
      (part_sequence pk ++ (part_order pk ++ (part_split pk ++ pk.content))),
  length-append (part_sequence pk) (part_order pk ++ (part_split pk ++ pk.content)),
  length-append (part_order pk) (part_split pk ++ pk.content),
  length-append (part_split pk) pk.content,
)
