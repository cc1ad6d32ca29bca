-- ===== src/PacketQueue.antt =====
-- packet_queue.go: the queue of reliable ordered packets.
pub mod Fetch
pub mod Order
mod Tests
use go_raknet.Prelude.{
  ℕ, zero, suc, ◌+◌, ◌-◌, ◌%◌, ◌^◌, ◌<◌, ◌≡◌, List, [], ◌∷◌, ◌++◌, Bool, true, false, none, some,
  arith, ltb, leb, if◌then◌else◌,
}
use go_raknet.Prelude.Dict.{lookup, insert, delete}
use go_raknet.Binary.{next24}

pub record PacketQueue : Type 0 where
  pub lowest : ℕ
  pub highest : ℕ
  pub queue : List (ℕ × List ℕ)

unfoldable pub new_packet_queue : PacketQueue
new_packet_queue = record { lowest = 0; highest = 0; queue = [] }

unfoldable pub put : PacketQueue → ℕ → List ℕ → PacketQueue × Bool
put q index packet = if ltb index q.lowest then (q, false) else elim (lookup index q.queue) [
  | some _ ↦ (q, false)
  | none ↦ (
    record q {
      highest = if leb q.highest index then next24 index else q.highest;
      queue = insert index packet q.queue;
    },
    true,
  )
]

-- The index that the loop stopped at, the queue that is left and the packets taken out. Each round
-- moves `index` towards `highest`, so their distance bounds the rounds.
unfoldable pub fetch_loop :
    ℕ → ℕ → ℕ → List (ℕ × List ℕ) → List (List ℕ) → ℕ × List (ℕ × List ℕ) × List (List ℕ)
fetch_loop zero highest index queue packets = (index, queue, packets)
fetch_loop (suc rounds) highest index queue packets = elim (ltb index highest) [
  | true ↦ elim (lookup index queue) [
    | none ↦ (index, queue, packets)
    | some packet ↦
        fetch_loop rounds highest (next24 index) (delete index queue) (packets ++ (packet ∷ []))
  ]
  | false ↦ (index, queue, packets)
]

unfoldable pub fetch : PacketQueue → PacketQueue × List (List ℕ)
fetch q =
    let (index, rest, packets) = fetch_loop (q.highest - q.lowest) q.highest q.lowest q.queue [] in
    (record q { lowest = index; queue = rest }, packets)

unfoldable pub window_size : PacketQueue → ℕ
window_size q = (q.highest + 2 ^ 32 - q.lowest) % 2 ^ 32

-- One arrival, as the reliable ordered case of `Conn.receivePacket` handles it.
unfoldable pub arrive : PacketQueue → ℕ × List ℕ → PacketQueue × List (List ℕ)
arrive q (index, packet) =
    let (q', fresh) = put q index packet in if fresh then fetch q' else (q', [])

unfoldable pub arrive_all : PacketQueue → List (ℕ × List ℕ) → PacketQueue × List (List ℕ)
arrive_all q [] = (q, [])
arrive_all q (a ∷ arrivals) =
    let (q', packets) = arrive q a in
    let (last, more) = arrive_all q' arrivals in (last, packets ++ more)
