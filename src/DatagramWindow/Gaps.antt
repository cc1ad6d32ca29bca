-- ===== src/DatagramWindow/Gaps.antt =====
-- datagram_window.go: the indices that `missing` reports.
use go_raknet.Prelude.{
  ℕ, zero, suc, ◌+◌, ◌-◌, ◌^◌, ◌≤◌, ◌<◌, ◌≡◌, refl, ap, ◌∙◌, List, [], ◌∷◌, ◌++◌, Bool, true, false,
  none, some, arith, ltb, leb, ◌==◌, ◌||◌, ◌&&◌, not, Option-cases, inl, inr,
}
use go_raknet.Prelude.Dict.{lookup, insert, has, lookup-insert}
use go_raknet.DatagramWindow.{DatagramWindow, seen, missing_loop, missing}
use go_raknet.DatagramWindow.Seen.{member, seen-shift}

-- Whether index `j` was received at least `since` ago.
abbrev is_late : ℕ → ℕ → List (ℕ × ℕ) → ℕ → Bool
is_late now since q j = elim (lookup j q) [ none ↦ false | some t ↦ leb since (now - t) ]

-- Whether an index above `i` and below `high` was received at least `since` ago.
unfoldable pub late_between : ℕ → ℕ → List (ℕ × ℕ) → ℕ → ℕ → Bool
late_between now since q i zero = false
late_between now since q i (suc high) =
    late_between now since q i high || (ltb i high && is_late now since q high)

late_between_above :
    (now since : ℕ) (q : List (ℕ × ℕ)) (i high : ℕ)
    → high ≤ i
    → late_between now since q i high ≡ false
unfolding late_between
late_between_above now since q i zero h = refl
late_between_above now since q i (suc high) h =
    ground (arith, late_between_above now since q i high (omega arith))

-- What `missing` is to report of the index `i`, in a window from `low` and below `high`.
unfoldable pub is_gap : ℕ → ℕ → List (ℕ × ℕ) → ℕ → ℕ → ℕ → Bool
is_gap now since q low high i =
    leb low i && (ltb i high && (not (has i q) && late_between now since q i high))

member-append : (i j : ℕ) (xs : List ℕ) → member i (xs ++ (j ∷ [])) ≡ member i xs || j == i
unfolding member
member-append i j [] = ground arith
member-append i j (x ∷ xs) = ground (arith, member-append i j xs)

module _ (now since low : ℕ) (q : List (ℕ × ℕ)) where
  -- The rounds that are left look at indices below `high` only, which no round so far has marked.
  missing_loop-member :
      (k high : ℕ) (late : Bool) (marked : List (ℕ × ℕ)) (out : List ℕ) (i : ℕ)
      → high ≡ low + k
      → ((j : ℕ) → j < high → lookup j marked ≡ lookup j q)
      → member i (missing_loop k low now since late marked out).1
        ≡ member i out
          || (leb low i
              && (ltb i high && (not (has i q) && (late || late_between now since q i high))))
  unfolding missing_loop late_between member
  missing_loop-member zero high late marked out i e same = ground arith
  missing_loop-member (suc k) zero late marked out i e same = absurd (omega arith)
  missing_loop-member (suc k) (suc high) late marked out i e same =
      let top : low + k ≡ high = omega arith in
      let below : (j : ℕ) → j < high → lookup j marked ≡ lookup j q = λ j l. same j (omega arith) in
      let here : lookup (low + k) marked ≡ lookup high q =
        same (low + k) (omega arith) ∙ ap (λ j. lookup j q) top in
      elim (Option-cases (lookup high q)) [
        | inl gap ↦ ground (
          arith,
          gap,
          here,
          top,
          same_key i,
          late_between_above now since q i high,
          member-append i (low + k) out,
          missing_loop-member k high true (insert (low + k) 0 marked) (out ++ ((low + k) ∷ [])) i
              (omega arith) (λ j l. ground (arith, below j l, lookup-insert (low + k) j 0 marked)),
          missing_loop-member k high false marked out i (omega arith) below,
        )
        | inr (t, came) ↦ ground (
          arith,
          came,
          here,
          top,
          same_key i,
          late_between_above now since q i high,
          missing_loop-member k high (late || leb since (now - t)) marked out i (omega arith) below,
        )
      ]
    where
      same_key : (i : ℕ) → i ≡ high → lookup i q ≡ lookup high q
      same_key i e = ap (λ j. lookup j q) e

missing_loop-marks :
    (now since low k : ℕ) (late : Bool) (marked : List (ℕ × ℕ)) (out : List ℕ) (i : ℕ) (had : Bool)
    → has i marked ≡ had || member i out
    → has i (missing_loop k low now since late marked out).0
      ≡ had || member i (missing_loop k low now since late marked out).1
unfolding missing_loop
missing_loop-marks now since low zero late marked out i had e = e
missing_loop-marks now since low (suc k) late marked out i had e =
    elim (Option-cases (lookup (low + k) marked)) [
      | inl gap ↦ ground (
        arith,
        gap,
        missing_loop-marks now since low k true (insert (low + k) 0 marked)
            (out ++ ((low + k) ∷ [])) i had
            (ground (arith, e, lookup-insert (low + k) i 0 marked, member-append i (low + k) out)),
        missing_loop-marks now since low k false marked out i had e,
      )
      | inr (t, came) ↦ ground (
        arith,
        came,
        missing_loop-marks now since low k (late || leb since (now - t)) marked out i had e,
      )
    ]

module _ (now since : ℕ) (win : DatagramWindow) (i : ℕ) where
  -- `missing` reports exactly the indices inside the window that were not received and lie below
  -- one that was received at least `since` ago.
  pub missing_exact :
      win.lowest ≤ win.highest
      → member i (missing now win since).1 ≡ is_gap now since win.queue win.lowest win.highest i
  unfolding missing is_gap member
  missing_exact h =
      missing_loop-member now since win.lowest win.queue (win.highest - win.lowest) win.highest
        false win.queue [] i (omega arith) (λ j l. refl)

  -- Each index that `missing` reports counts as received from then on, and no other index does, so
  -- that it is reported once.
  pub seen-missing :
      win.highest < 2 ^ 32
      → seen (missing now win since).0 i ≡ seen win i || member i (missing now win since).1
  unfolding missing seen member
  seen-missing h =
      seen-shift (record win { queue = marked }) i h
      ∙ ground (
        arith,
        missing_loop-marks now since win.lowest (win.highest - win.lowest) false win.queue [] i
            (has i win.queue) (ground arith),
      )
    where
      marked : List (ℕ × ℕ)
      marked = (missing_loop (win.highest - win.lowest) win.lowest now since false win.queue []).0
