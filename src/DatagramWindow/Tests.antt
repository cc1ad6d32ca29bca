-- ===== src/DatagramWindow/Tests.antt =====
-- datagram_window.go: concrete runs, and the theorems at them.
use go_raknet.Prelude.{◌≡◌, refl, [], ◌∷◌, false, not, ◌||◌, arith}
use go_raknet.Prelude.Dict.{lookup, insert, delete}
use go_raknet.DatagramWindow.{
  DatagramWindow, new_datagram_window, seen, add, shift_loop, shift, missing_loop, missing, track,
  track_all,
}
use go_raknet.DatagramWindow.Seen.{member, track_all_exact}
use go_raknet.DatagramWindow.Gaps.{is_gap, missing_exact, seen-missing}

-- 3 came at time 5, 1 at time 90; 0 and 2 have not come.
abbrev holed : DatagramWindow
holed = record { lowest = 0; highest = 4; queue = (3, 5) ∷ (1, 90) ∷ [] }

missing_run : (missing 100 holed 50).1 ≡ 2 ∷ 0 ∷ []
unfolding missing missing_loop lookup insert
missing_run = refl

track_run : (track 7 (track_all 7 new_datagram_window (1 ∷ 0 ∷ 3 ∷ [])) 3).1 ≡ false
unfolding track track_all new_datagram_window add seen shift shift_loop lookup insert delete
track_run = refl

track_all_exact_example :
    (track 7 (track_all 7 new_datagram_window (1 ∷ 0 ∷ 3 ∷ [])) 2).1
    ≡ not (member 2 (1 ∷ 0 ∷ 3 ∷ []))
track_all_exact_example = track_all_exact 7 (1 ∷ 0 ∷ 3 ∷ []) 2

missing_exact_example : member 2 (missing 100 holed 50).1 ≡ is_gap 100 50 holed.queue 0 4 2
missing_exact_example = missing_exact 100 50 holed 2 (omega arith)

neither_seen_nor_missing :
    seen (missing 100 holed 50).0 2 ≡ seen holed 2 || member 2 (missing 100 holed 50).1
neither_seen_nor_missing = seen-missing 100 50 holed 2 (omega arith)
