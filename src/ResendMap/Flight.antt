-- ===== src/ResendMap/Flight.antt =====
-- resend_map.go: the in-flight counter.
use mathlib.Core.Option
use go_raknet.Prelude.{ℕ, ◌+◌, ◌≡◌, refl, sym, List, none, Option-cases, inl, inr, arith}
use go_raknet.Prelude.Dict.{
  lookup, delete, Distinct, delete-Distinct, delete_absent, insert-Distinct, total, total-delete,
  total-insert,
}
use go_raknet.Packet.{Packet}
use go_raknet.ResendMap.{ResendMap, ResendRecord, new_recovery_queue, add, update_rtt, remove}

abbrev pub size_of : ResendRecord → ℕ
size_of r = r.length

-- The counter is the number of bytes of the datagrams in the map.
pub record IsBalanced (m : ResendMap) : Type 0 where
  pub distinct : Distinct m.unacknowledged
  pub balance : m.in_flight_bytes ≡ total size_of m.unacknowledged

pub new-IsBalanced : IsBalanced new_recovery_queue
unfolding new_recovery_queue total
new-IsBalanced = record { distinct = tt; balance = refl }

-- A datagram under a new sequence number adds its length.
pub add-IsBalanced :
    (now : ℕ) (m : ResendMap) (index : ℕ) (packets : List Packet) (length : ℕ)
    → IsBalanced m
    → lookup index m.unacknowledged ≡ none
    → IsBalanced (add now m index packets length)
unfolding add
add-IsBalanced now m index packets length b fresh = record {
  distinct =
      insert-Distinct index (record { packets = packets; timestamp = now; length = length })
        m.unacknowledged b.distinct;
  balance = omega (
    arith,
    b.balance,
    total-insert size_of index (record { packets = packets; timestamp = now; length = length })
        m.unacknowledged fresh,
  );
}

-- Taking a datagram out, for an acknowledgement or to send it again, keeps the balance; the counter
-- loses the length of that datagram, which it held; and the packets returned are those of the map.
pub remove-IsBalanced :
    (now : ℕ) (m : ResendMap) (index mul : ℕ)
    → IsBalanced m
    → let r = remove now m index mul in
      IsBalanced r.0
      × (r.1 ≡ Option.map (λ d. d.packets) (lookup index m.unacknowledged))
      × (r.0.unacknowledged ≡ delete index m.unacknowledged)
      × (r.0.in_flight_bytes + Option.get_or (Option.map size_of (lookup index m.unacknowledged)) 0
          ≡ m.in_flight_bytes)
unfolding remove
remove-IsBalanced now m index mul b = elim (Option-cases (lookup index m.unacknowledged)) [
  | inl absent ↦
      rw (absent, remove) (b, refl, sym (delete_absent index m.unacknowledged absent), omega arith)
  | inr (r, found) ↦
      let t = total-delete size_of index m.unacknowledged b.distinct found in
      let d = delete-Distinct index m.unacknowledged b.distinct in
      unfold update_rtt in
      rw (found, remove)
        (
          record { distinct = ground (arith, d); balance = ground (arith, t, b.balance) },
          refl,
          ground arith,
          ground (arith, t, b.balance),
        )
]
