-- ===== src/Packet/Tests.antt =====
-- packet.go: concrete runs, and the theorems at them.
use go_raknet.Prelude.{
  ℕ, ◌+◌, ◌≡◌, refl, List, [], ◌∷◌, ◌++◌, true, false, arith, length, ok, panic, if◌then◌else◌,
}
use go_raknet.Binary.{be_uint, be_value, load_uint24, write_uint16, write_uint24, write_uint32}
use go_raknet.Packet.{
  Packet, write, read, reliable, sequenced, sequenced_or_ordered, read_index, read_split,
  read_content, split_content, split_by, fragments,
}
use go_raknet.Packet.Codec.{received, read-write, length-write}
use go_raknet.Packet.Split.{IsSplit, fragment_size, split_content-IsSplit, split_empty}

abbrev blank : Packet
blank = record {
  reliability = 0;
  message_index = 0;
  sequence_index = 0;
  order_index = 0;
  content = [];
  split = false;
  split_count = 0;
  split_index = 0;
  split_id = 0;
}

abbrev fragment : Packet
fragment = record {
  reliability = 3;
  message_index = 300;
  sequence_index = 0;
  order_index = 7;
  content = 1 ∷ 2 ∷ 3 ∷ [];
  split = true;
  split_count = 2;
  split_index = 1;
  split_id = 9;
}

written :
    write fragment []
    ≡ 0x70 ∷ 0 ∷ 24 ∷ 44 ∷ 1 ∷ 0 ∷ 7 ∷ 0 ∷ 0 ∷ 0 ∷ 0 ∷ 0 ∷ 0 ∷ 2 ∷ 0 ∷ 9 ∷ 0 ∷ 0 ∷ 0 ∷ 1 ∷ 1 ∷ 2 ∷ 3
      ∷ []
unfolding write reliable sequenced sequenced_or_ordered write_uint16 write_uint24 write_uint32
written = refl

read_written : read blank (write fragment []) ≡ ok (fragment, 23)
unfolding write read reliable sequenced sequenced_or_ordered read_index read_split read_content
    be_uint be_value load_uint24 write_uint16 write_uint24 write_uint32
read_written = refl

read-write_example :
    read blank (write fragment [] ++ (5 ∷ []))
    ≡ ok (received blank fragment, length (write fragment []))
read-write_example = read-write blank fragment (5 ∷ []) (omega arith)

fragment_length :
    length (write fragment (5 ∷ []))
    ≡ 1
      + 3
      + (if reliable 3 then 3 else 0)
      + (if sequenced 3 then 3 else 0)
      + (if sequenced_or_ordered 3 then 4 else 0)
      + 10
      + 3
fragment_length = length-write fragment (5 ∷ [])

abbrev seven : List ℕ
seven = 1 ∷ 2 ∷ 3 ∷ 4 ∷ 5 ∷ 6 ∷ 7 ∷ 8 ∷ 9 ∷ 10 ∷ 11 ∷ 12 ∷ 13 ∷ 14 ∷ []

split_run : split_content (1 ∷ 2 ∷ 3 ∷ 4 ∷ 5 ∷ []) 18 ≡ ok ((1 ∷ 2 ∷ 3 ∷ 4 ∷ 5 ∷ []) ∷ [])
unfolding split_content split_by fragments
split_run = refl

split_content-IsSplit_example :
    (fs : List (List ℕ)) × (split_content seven 27 ≡ ok fs)
    × IsSplit seven (fragment_size seven 27) fs
split_content-IsSplit_example =
    split_content-IsSplit seven 27 (omega arith) (omega arith) (omega arith)

split_nothing : split_content [] 1172 ≡ panic
split_nothing = split_empty 1172
