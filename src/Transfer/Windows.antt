-- ===== src/Transfer/Windows.antt =====
-- datagram_window.go and packet_queue.go: the windows of an end that has received everything so far.
use go_raknet.Prelude.{ℕ, ◌+◌, ◌-◌, ◌^◌, ◌<◌, ◌≡◌, refl, List, [], ◌∷◌, true, arith}
use go_raknet.Prelude.Dict.{lookup, insert, delete}
use go_raknet.DatagramWindow as DatagramWindow
use go_raknet.DatagramWindow.{DatagramWindow, shift_loop}
use go_raknet.PacketQueue as PacketQueue
use go_raknet.PacketQueue.{PacketQueue, fetch_loop}

-- Everything below `k` has arrived, and nothing else.
abbrev pub win_at : ℕ → DatagramWindow
win_at k = record { lowest = k; highest = k; queue = [] }

abbrev pub queue_at : ℕ → PacketQueue
queue_at k = record { lowest = k; highest = k; queue = [] }

pub add-win_at :
    (now k : ℕ)
    → k + 1 < 2 ^ 32
    → DatagramWindow.add now (win_at k) k
      ≡ (record { lowest = k; highest = k + 1; queue = (k, now) ∷ [] }, true)
unfolding DatagramWindow.add DatagramWindow.seen lookup insert delete
add-win_at now k small = ground arith

shift_one : (now k : ℕ) → k + 1 < 2 ^ 32 → shift_loop 1 (k + 1) k ((k, now) ∷ []) 0 ≡ (k + 1, [], 1)
unfolding shift_loop lookup delete
shift_one now k small = ground arith

pub shift-win_at :
    (now k : ℕ)
    → k + 1 < 2 ^ 32
    → DatagramWindow.shift (record { lowest = k; highest = k + 1; queue = (k, now) ∷ [] })
      ≡ (win_at (k + 1), 1)
unfolding DatagramWindow.shift
shift-win_at now k small =
    let one : k + 1 - k ≡ 1 = omega arith in rw (one, shift_one now k small) refl

pub put-queue_at :
    (k : ℕ) (b : List ℕ)
    → k + 1 < 2 ^ 32
    → PacketQueue.put (queue_at k) k b
      ≡ (record { lowest = k; highest = k + 1; queue = (k, b) ∷ [] }, true)
unfolding PacketQueue.put lookup insert delete
put-queue_at k b small = ground arith

fetch_one :
    (k : ℕ) (b : List ℕ)
    → k + 1 < 2 ^ 32
    → fetch_loop 1 (k + 1) k ((k, b) ∷ []) [] ≡ (k + 1, [], b ∷ [])
unfolding fetch_loop lookup delete
fetch_one k b small = ground arith

pub fetch-queue_at :
    (k : ℕ) (b : List ℕ)
    → k + 1 < 2 ^ 32
    → PacketQueue.fetch (record { lowest = k; highest = k + 1; queue = (k, b) ∷ [] })
      ≡ (queue_at (k + 1), b ∷ [])
unfolding PacketQueue.fetch
fetch-queue_at k b small =
    let one : k + 1 - k ≡ 1 = omega arith in rw (one, fetch_one k b small) refl
