-- ===== src/DatagramWindow.antt =====
-- datagram_window.go: which datagrams, or reliable messages, have been received. A time is the
-- number of nanoseconds since the zero time, so `time.Time{}` is 0 and `time.Since(t)` is `now - t`.
pub mod Seen
pub mod Gaps
mod Tests
use go_raknet.Prelude.{
  ℕ, zero, suc, ◌+◌, ◌-◌, ◌%◌, ◌^◌, List, [], ◌∷◌, ◌++◌, Bool, true, false, none, some, ltb, leb,
  ◌||◌, max, if◌then◌else◌,
}
use go_raknet.Prelude.Dict.{lookup, insert, delete, has}
use go_raknet.Binary.{next24}

pub record DatagramWindow : Type 0 where
  pub lowest : ℕ
  pub highest : ℕ
  pub queue : List (ℕ × ℕ)

unfoldable pub new_datagram_window : DatagramWindow
new_datagram_window = record { lowest = 0; highest = 0; queue = [] }

unfoldable pub seen : DatagramWindow → ℕ → Bool
seen win index = if ltb index win.lowest then true else has index win.queue

unfoldable pub add : ℕ → DatagramWindow → ℕ → DatagramWindow × Bool
add now win index = if seen win index then (win, false) else (
  record win { highest = max win.highest (next24 index); queue = insert index now win.queue },
  true,
)

-- The index that the loop stopped at, the queue that is left and the number of rounds.
unfoldable pub shift_loop : ℕ → ℕ → ℕ → List (ℕ × ℕ) → ℕ → ℕ × List (ℕ × ℕ) × ℕ
shift_loop zero highest index queue n = (index, queue, n)
shift_loop (suc rounds) highest index queue n = elim (ltb index highest) [
  | true ↦ elim (lookup index queue) [
    | none ↦ (index, queue, n)
    | some _ ↦ shift_loop rounds highest (next24 index) (delete index queue) (n + 1)
  ]
  | false ↦ (index, queue, n)
]

unfoldable pub shift : DatagramWindow → DatagramWindow × ℕ
shift win =
    let (index, rest, n) =
      shift_loop (win.highest - win.lowest) win.highest win.lowest win.queue 0 in
    (record win { lowest = index; queue = rest }, n)

-- The loop of `missing` over the indices `lowest + k - 1` down to `lowest`: the queue and the
-- indices found.
pub missing_loop : ℕ → ℕ → ℕ → ℕ → Bool → List (ℕ × ℕ) → List ℕ → List (ℕ × ℕ) × List ℕ
missing_loop zero lowest now since late queue indices = (queue, indices)
missing_loop (suc k) lowest now since late queue indices =
    let i = lowest + k in
    elim (lookup i queue) [
      | some t ↦ missing_loop k lowest now since (late || leb since (now - t)) queue indices
      | none ↦ elim late [
        | true ↦ missing_loop k lowest now since true (insert i 0 queue) (indices ++ (i ∷ []))
        | false ↦ missing_loop k lowest now since false queue indices
      ]
    ]

unfoldable pub missing : ℕ → DatagramWindow → ℕ → DatagramWindow × List ℕ
missing now win since =
    let (marked, indices) =
      missing_loop (win.highest - win.lowest) win.lowest now since false win.queue [] in
    ((shift (record win { queue = marked })).0, indices)

unfoldable pub size : DatagramWindow → ℕ
size win = (win.highest + 2 ^ 32 - win.lowest) % 2 ^ 32

-- A reliable message index, as `Conn.receivePacket` tracks it: `add`, then `shift`.
unfoldable pub track : ℕ → DatagramWindow → ℕ → DatagramWindow × Bool
track now win index =
    let (win', fresh) = add now win index in if fresh then ((shift win').0, true) else (win', false)

unfoldable pub track_all : ℕ → DatagramWindow → List ℕ → DatagramWindow
track_all now win [] = win
track_all now win (index ∷ indices) = track_all now (track now win index).0 indices
