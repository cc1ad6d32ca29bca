-- ===== src/Acknowledge/Tests.antt =====
-- acknowledge.go: concrete runs, and the theorems at them.
use go_raknet.Prelude.{ℕ, ◌+◌, ◌≡◌, refl, List, [], ◌∷◌, ◌++◌, false, arith, length, All, some, ok}
use go_raknet.Binary.{be_bytes, write_uint24}
use go_raknet.Acknowledge.{
  insert_sorted, sort, write_record, write_loop, write_packets, write, read,
}
use go_raknet.Acknowledge.Records.{range, record_bytes}
use go_raknet.Acknowledge.Send.{send_acknowledgement, read_all, NearMtu, send_acknowledgement_total}
use go_raknet.Acknowledge.Read.{ReadsSafely, read_safe, read_over_maximum}

abbrev numbers : List ℕ
numbers = 9 ∷ 3 ∷ 4 ∷ 5 ∷ []

written :
    write numbers (0xc0 ∷ []) 1172
    ≡ (0xc0 ∷ 0 ∷ 2 ∷ 0 ∷ 3 ∷ 0 ∷ 0 ∷ 5 ∷ 0 ∷ 0 ∷ 1 ∷ 9 ∷ 0 ∷ 0 ∷ [], 4)
unfolding write write_packets write_loop write_record sort insert_sorted write_uint24
written = refl

-- The datagram is 2 bytes longer than its MTU of 20 bytes.
beyond_mtu : length (write (1 ∷ 3 ∷ 5 ∷ 6 ∷ 8 ∷ 9 ∷ []) (0xc0 ∷ []) 20).0 ≡ 22
unfolding write write_packets write_loop write_record sort insert_sorted write_uint24
beyond_mtu = refl

send_acknowledgement_total_example :
    let r = send_acknowledgement 5 (λ _. false) 0 numbers 0x40 1172 in
    (r.1 ≡ some (ok tt)) × (read_all r.0 ≡ ok (sort numbers)) × All (NearMtu 1172) r.0
send_acknowledgement_total_example =
    send_acknowledgement_total numbers 0 0x40 1172 5 (omega arith) (omega arith) (omega arith)
      (omega arith) (omega arith)

read_safe_example : ReadsSafely (0 ∷ 1 ∷ 1 ∷ 7 ∷ 0 ∷ 0 ∷ []) (read (0 ∷ 1 ∷ 1 ∷ 7 ∷ 0 ∷ 0 ∷ []))
read_safe_example = read_safe (0 ∷ 1 ∷ 1 ∷ 7 ∷ 0 ∷ 0 ∷ []) (omega arith)

read_one_too_many :
    (read (be_bytes 2 1 ++ record_bytes 5 (5 + 8192)) ≡ ok (range 5 (5 + 8192)))
    × (length (range 5 (5 + 8192)) ≡ 8193)
read_one_too_many = read_over_maximum 5 (omega arith)
