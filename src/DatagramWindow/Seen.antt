-- ===== src/DatagramWindow/Seen.antt =====
-- datagram_window.go: `seen` against the set of the indices that were added.
use go_raknet.Prelude.{
  ℕ, zero, suc, ◌+◌, ◌-◌, ◌^◌, ◌<◌, ◌≡◌, refl, ◌∙◌, List, [], ◌∷◌, Bool, true, false, arith, ltb,
  ◌==◌, ◌||◌, not, if◌then◌else◌, Option-cases, Bool-cases, inl, inr,
}
use go_raknet.Prelude.Dict.{lookup, delete, has, lookup-insert, lookup-delete}
use go_raknet.Binary.{next24}
use go_raknet.DatagramWindow.{
  DatagramWindow, new_datagram_window, seen, add, shift_loop, shift, track, track_all,
}

-- `seen` over the loop's variables.
abbrev seen_from : ℕ → List (ℕ × ℕ) → ℕ → Bool
seen_from index queue j = if ltb j index then true else has j queue

shift_loop-seen :
    (n high i : ℕ) (q : List (ℕ × ℕ)) (c j : ℕ)
    → high < 2 ^ 32
    → seen_from (shift_loop n high i q c).0 (shift_loop n high i q c).1 j ≡ seen_from i q j
unfolding shift_loop
shift_loop-seen zero high i q c j w = refl
shift_loop-seen (suc n) high i q c j w = elim (Bool-cases (ltb i high)) [
  | inl below ↦ elim (Option-cases (lookup i q)) [
    | inl e ↦ rw (below, e, shift_loop)
    | inr (t, e) ↦
        rw (below, e, shift_loop)
          (shift_loop-seen n high (next24 i) (delete i q) (c + 1) j w
            ∙ ground (arith, e, lookup-delete i j q))
  ]
  | inr done ↦ rw (done, shift_loop)
]

-- Shifting the window forgets no index.
pub seen-shift :
    (win : DatagramWindow) (j : ℕ) → win.highest < 2 ^ 32 → seen (shift win).0 j ≡ seen win j
unfolding seen shift
seen-shift win j w =
    shift_loop-seen (win.highest - win.lowest) win.highest win.lowest win.queue 0 j w

pub seen-add :
    (now : ℕ) (win : DatagramWindow) (i j : ℕ) → seen (add now win i).0 j ≡ seen win j || i == j
unfolding seen add
seen-add now win i j = ground (arith, lookup-insert i j now win.queue)

highest-add :
    (now : ℕ) (win : DatagramWindow) (i : ℕ)
    → win.highest < 2 ^ 32
    → (add now win i).0.highest < 2 ^ 32
unfolding add
highest-add now win i w = ground (arith)

seen-track :
    (now : ℕ) (win : DatagramWindow) (i j : ℕ)
    → win.highest < 2 ^ 32
    → seen (track now win i).0 j ≡ seen win j || i == j
unfolding track
seen-track now win i j w =
    ground (arith, seen-shift (add now win i).0 j (highest-add now win i w), seen-add now win i j)

highest-track :
    (now : ℕ) (win : DatagramWindow) (i : ℕ)
    → win.highest < 2 ^ 32
    → (track now win i).0.highest < 2 ^ 32
unfolding track shift
highest-track now win i w = ground (arith, highest-add now win i w)

unfoldable pub member : ℕ → List ℕ → Bool
member j [] = false
member j (i ∷ is) = i == j || member j is

seen-track_all :
    (now : ℕ) (win : DatagramWindow) (indices : List ℕ) (j : ℕ)
    → win.highest < 2 ^ 32
    → seen (track_all now win indices) j ≡ seen win j || member j indices
unfolding track_all member
seen-track_all now win [] j w = ground (arith, seen win j)
seen-track_all now win (i ∷ is) j w = ground (
  arith,
  seen-track_all now (track now win i).0 is j (highest-track now win i w),
  seen-track now win i j w,
)

nothing_seen : (j : ℕ) → seen new_datagram_window j ≡ false
unfolding seen new_datagram_window lookup
nothing_seen j = ground arith

-- After any message indices, in any order and with any repetitions, the window accepts an index
-- exactly if it is none of them.
pub track_all_exact :
    (now : ℕ) (indices : List ℕ) (j : ℕ)
    → (track now (track_all now new_datagram_window indices) j).1 ≡ not (member j indices)
unfolding track add new_datagram_window
track_all_exact now indices j =
    ground (arith, seen-track_all now new_datagram_window indices j (omega arith), nothing_seen j)
