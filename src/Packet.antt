-- ===== src/Packet.antt =====
-- packet.go: the encapsulated packet, its encoding, and the splitting of a content into fragments.
pub mod Sections
pub mod Codec
pub mod Split
mod Tests
use go_raknet.Prelude.{
  ℕ, zero, suc, ◌+◌, ◌-◌, ◌*◌, ◌/◌, ◌%◌, ◌^◌, List, [], ◌∷◌, ◌++◌, Bool, true, false, ltb, ◌==◌,
  ◌||◌, not, if◌then◌else◌, length, take, drop, min, bit_and, bit_or, Result, ok, err, panic,
  unexpected_eof, zero_length, fail_if, index, slice_from, ◌>>=◌, ◌>>◌,
}
use go_raknet.Binary.{load_uint24, write_uint24, write_uint16, write_uint32, be_uint}

abbrev pub bit_flag_datagram : ℕ
bit_flag_datagram = 0b10000000

abbrev pub bit_flag_ack : ℕ
bit_flag_ack = 0b01000000

abbrev pub bit_flag_nack : ℕ
bit_flag_nack = 0b00100000

abbrev pub bit_flag_packet_pair : ℕ
bit_flag_packet_pair = 0b00010000

abbrev pub bit_flag_continuous_send : ℕ
bit_flag_continuous_send = 0b00001000

abbrev pub bit_flag_needs_b_and_as : ℕ
bit_flag_needs_b_and_as = 0b00000100

abbrev pub reliability_unreliable : ℕ
reliability_unreliable = 0

abbrev pub reliability_unreliable_sequenced : ℕ
reliability_unreliable_sequenced = 1

abbrev pub reliability_reliable : ℕ
reliability_reliable = 2

abbrev pub reliability_reliable_ordered : ℕ
reliability_reliable_ordered = 3

abbrev pub reliability_reliable_sequenced : ℕ
reliability_reliable_sequenced = 4

pub record Packet : Type 0 where
  pub reliability : ℕ
  pub message_index : ℕ
  pub sequence_index : ℕ
  pub order_index : ℕ
  pub content : List ℕ
  pub split : Bool
  pub split_count : ℕ
  pub split_index : ℕ
  pub split_id : ℕ

-- The three methods look at nothing but the reliability.
unfoldable pub reliable : ℕ → Bool
reliable r =
    r == reliability_reliable
    || r == reliability_reliable_ordered
    || r == reliability_reliable_sequenced

unfoldable pub sequenced_or_ordered : ℕ → Bool
sequenced_or_ordered r =
    r == reliability_unreliable_sequenced
    || r == reliability_reliable_ordered
    || r == reliability_reliable_sequenced

unfoldable pub sequenced : ℕ → Bool
sequenced r = r == reliability_unreliable_sequenced || r == reliability_reliable_sequenced

-- The byte that a packet starts with: `reliability << 5`, and the split flag.
unfoldable pub header_byte : ℕ → Bool → ℕ
header_byte r split =
    let header = r * 2 ^ 5 % 2 ^ 8 in if split then bit_or header bit_flag_packet_pair else header

unfoldable pub write : Packet → List ℕ → List ℕ
unfolding header_byte
write pk buf =
    let r = pk.reliability in
    let b0 = buf ++ (header_byte r pk.split ∷ []) in
    let b1 = write_uint16 b0 (length pk.content % 2 ^ 16 * 2 ^ 3 % 2 ^ 16) in
    let b2 = if reliable r then write_uint24 b1 pk.message_index else b1 in
    let b3 = if sequenced r then write_uint24 b2 pk.sequence_index else b2 in
    let b4 = if sequenced_or_ordered r then write_uint24 b3 pk.order_index ++ (0 ∷ []) else b3 in
    let b5 =
      if pk.split
      then write_uint32 (write_uint16 (write_uint32 b4 pk.split_count) pk.split_id) pk.split_index
      else b4 in
    b5 ++ pk.content

-- One optional index of `size` bytes, three of which count: its value, or the old one of the
-- packet, and the offset behind it.
unfoldable pub read_index : Bool → ℕ → ℕ → List ℕ → ℕ → Result (ℕ × ℕ)
read_index false size old b offset = ok (old, offset)
read_index true size old b offset = do
  fail_if (ltb (length b - offset) size) unexpected_eof
  rest ← slice_from b offset
  v ← load_uint24 rest
  ok (v, offset + size)

-- The split count, ID and index, in the order of their bytes.
unfoldable pub read_split : Bool → ℕ × ℕ × ℕ → List ℕ → ℕ → Result ((ℕ × ℕ × ℕ) × ℕ)
read_split false old b offset = ok (old, offset)
read_split true old b offset = do
  fail_if (ltb (length b - offset) 10) unexpected_eof
  count_bytes ← slice_from b offset
  count ← be_uint 4 count_bytes
  id_bytes ← slice_from b (offset + 4)
  id ← be_uint 2 id_bytes
  index_bytes ← slice_from b (offset + 6)
  index ← be_uint 4 index_bytes
  ok ((count, id, index), offset + 10)

-- `copy` takes as much of `b[offset:]` as there is.
unfoldable pub read_content : ℕ → List ℕ → ℕ → Result (List ℕ × ℕ)
read_content n b offset = do
  rest ← slice_from b offset
  fail_if (not (min n (length rest) == n)) unexpected_eof
  ok (take n rest, offset + n)

-- The packet read and the number of bytes it took. `pk` is read into: fields that the packet does
-- not carry keep what they held. After an error the caller reads no field, so none is returned.
unfoldable pub read : Packet → List ℕ → Result (Packet × ℕ)
read pk b = do
  fail_if (ltb (length b) 3) unexpected_eof
  header ← index b 0
  let split = not (bit_and header bit_flag_packet_pair == 0)
  let r = bit_and header 224 / 2 ^ 5
  length_bytes ← slice_from b 1
  bits ← be_uint 2 length_bytes
  let n = bits / 2 ^ 3
  fail_if (n == 0) zero_length
  (message, o1) ← read_index (reliable r) 3 pk.message_index b 3
  (sequence, o2) ← read_index (sequenced r) 3 pk.sequence_index b o1
  (order, o3) ← read_index (sequenced_or_ordered r) 4 pk.order_index b o2
  (splits, o4) ← read_split split (pk.split_count, pk.split_id, pk.split_index) b o3
  (content, o5) ← read_content n b o4
  ok (
    record {
      reliability = r;
      message_index = message;
      sequence_index = sequence;
      order_index = order;
      content = content;
      split = split;
      split_count = splits.0;
      split_index = splits.2;
      split_id = splits.1;
    },
    o5,
  )

abbrev pub packet_additional_size : ℕ
packet_additional_size = 1 + 3 + 1 + 2 + 3 + 3 + 1

abbrev pub split_additional_size : ℕ
split_additional_size = 4 + 2 + 4

-- `count` pieces of `size` bytes, and what is left as one more.
unfoldable pub fragments : ℕ → ℕ → List ℕ → List (List ℕ)
fragments zero size b = b ∷ []
fragments (suc count) size b = take size b ∷ fragments count size (drop size b)

-- Fragments of a size that is not negative. The division by 0 panics, and so does the write to the
-- last of no fragments.
unfoldable pub split_by : ℕ → List ℕ → Result (List (List ℕ))
split_by size b =
    let count = length b / size + min (length b % size) 1 in
    if size == 0 then panic else if count == 0 then panic else ok (fragments (count - 1) size b)

-- `mtu - packetAdditionalSize` is on uint16, the rest on int. Where the reserve for the split
-- fields makes the size negative, -k, the quotient by it is -(n / k): one fragment is left if that
-- is 0, and the count is not positive otherwise.
unfoldable pub split_content : List ℕ → ℕ → Result (List (List ℕ))
split_content b mtu =
    let n = length b in
    let max_size = (mtu + 2 ^ 16 - packet_additional_size) % 2 ^ 16 in
    if ltb max_size n
    then (if ltb max_size split_additional_size
        then (if n / (split_additional_size - max_size) == 0 then ok (b ∷ []) else panic)
        else split_by (max_size - split_additional_size) b)
    else split_by max_size b
