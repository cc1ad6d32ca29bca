-- ===== src/Acknowledge.antt =====
-- acknowledge.go: ACK and NACK packets, as records of single sequence numbers and of ranges.
pub mod Sorting
pub mod Records
pub mod Send
pub mod Read
mod Tests
use go_raknet.Prelude.{
  ℕ, zero, suc, ◌+◌, ◌-◌, ◌%◌, ◌^◌, List, [], ◌∷◌, ◌++◌, Bool, true, false, ltb, leb, ◌==◌,
  if◌then◌else◌, length, drop, take, Result, ok, err, unexpected_eof, max_acknowledgement, ◌>>=◌,
  ◌>>◌, fail_if, slice_from,
}
use go_raknet.Binary.{next24, load_uint24, write_uint24, be_bytes, be_uint}

abbrev pub packet_range : ℕ
packet_range = 0

abbrev pub packet_single : ℕ
packet_single = 1

abbrev pub max_acknowledgement_packets : ℕ
max_acknowledgement_packets = 8192

-- `slices.Sort`.
unfoldable pub insert_sorted : ℕ → List ℕ → List ℕ
insert_sorted x [] = x ∷ []
insert_sorted x (y ∷ ys) = if leb x y then x ∷ (y ∷ ys) else y ∷ insert_sorted x ys

unfoldable pub sort : List ℕ → List ℕ
sort [] = []
sort (x ∷ xs) = insert_sorted x (sort xs)

unfoldable pub write_record : List ℕ → ℕ → ℕ → List ℕ
write_record buf first last =
    if first == last
    then write_uint24 (buf ++ (packet_single ∷ [])) first
    else write_uint24 (write_uint24 (buf ++ (packet_range ∷ [])) first) last

-- The variables of the loop of `write`; `body` is what the buffer holds behind the record count.
pub record Writing : Type 0 where
  pub body : List ℕ
  pub first : ℕ
  pub last : ℕ
  pub records : ℕ
  pub n : ℕ

-- The loop from the second packet on. `used` is the length of the buffer up to the records, and
-- `limit` is `mtu - 7`.
unfoldable pub write_loop : ℕ → ℕ → List ℕ → Writing → Writing
write_loop used limit [] w = w
write_loop used limit (pk ∷ pks) w =
    let done = leb limit (used + length w.body) in
    let longer : Writing = record w { last = pk; n = w.n + 1 } in
    let another : Writing = record {
      body = write_record w.body w.first w.last;
      first = pk;
      last = pk;
      records = (w.records + 1) % 2 ^ 16;
      n = w.n + 1;
    } in
    let rest = write_loop used limit pks (if pk == next24 w.last then longer else another) in
    if done then w else rest

-- The loop as a whole. Where the first packet meets the limit already, the two range variables are
-- still 0.
unfoldable pub write_packets : ℕ → ℕ → List ℕ → Writing
write_packets used limit [] = record { body = []; first = 0; last = 0; records = 0; n = 0 }
write_packets used limit (pk ∷ pks) =
    if leb limit used
    then record { body = []; first = 0; last = 0; records = 0; n = 0 }
    else write_loop used limit pks (record { body = []; first = pk; last = pk; records = 0; n = 1 })

-- The buffer after the call and the number of packets written. The record count goes into the two
-- bytes that were reserved for it.
unfoldable pub write : List ℕ → List ℕ → ℕ → List ℕ × ℕ
write [] buf mtu = (buf ++ (0 ∷ 0 ∷ []), 0)
write (p ∷ ps) buf mtu =
    let w = write_packets (length buf + 2) ((mtu + 2 ^ 16 - 7) % 2 ^ 16) (sort (p ∷ ps)) in
    (buf ++ (be_bytes 2 ((w.records + 1) % 2 ^ 16) ++ write_record w.body w.first w.last), w.n)

-- `start` and the numbers after it, `count` in all: `for pk := start; pk <= end; pk++`.
unfoldable pub numbers_from : ℕ → ℕ → List ℕ
numbers_from start zero = []
numbers_from start (suc count) = start ∷ numbers_from (suc start) count

-- The loop of `read`, on what is left behind the offset. A record of neither kind is passed over
-- without moving the offset.
unfoldable pub read_records : ℕ → List ℕ → List ℕ → Result (List ℕ)
read_records zero b packets = ok packets
read_records (suc count) [] packets = err unexpected_eof
read_records (suc count) (kind ∷ b) packets =
    let size = suc (length b) in
    let range : Result (List ℕ) = (do
      fail_if (ltb size 7) unexpected_eof
      start ← load_uint24 b
      end_bytes ← slice_from b 3
      end ← load_uint24 end_bytes
      fail_if (ltb max_acknowledgement_packets ((length packets + end + 2 ^ 32 - start) % 2 ^ 32))
          max_acknowledgement
      read_records count (drop 6 b) (packets ++ numbers_from start (suc end - start))) in
    let single : Result (List ℕ) = (do
      fail_if (ltb max_acknowledgement_packets (length packets + 1)) max_acknowledgement
      start ← load_uint24 b
      read_records count (drop 3 b) (packets ++ (start ∷ []))) in
    let other = read_records count (kind ∷ b) packets in
    if ltb size 4
    then err unexpected_eof
    else if kind == packet_range
    then range
    else if kind == packet_single
    then single
    else other

unfoldable pub read : List ℕ → Result (List ℕ)
read b = do
  fail_if (ltb (length b) 2) unexpected_eof
  count ← be_uint 2 b
  read_records count (drop 2 b) []
