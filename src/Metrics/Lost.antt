-- ===== src/Metrics/Lost.antt =====
-- conn.go: a loss is counted once within a second.
use go_raknet.Prelude.{
  ℕ, ◌≡◌, refl, ap, List, [], ◌∷◌, true, arith, ◌==◌, ◌||◌, if◌then◌else◌, Bool-cases, inl, inr,
}
use go_raknet.Prelude.Dict.{insert, lookup-insert}
use go_raknet.DatagramWindow.Seen.{member}
use go_raknet.Metrics.{is_recent, mark_loop}

is_recent-insert :
    (now s j : ℕ) (recent : List (ℕ × ℕ))
    → is_recent now (insert s now recent) j ≡ (if s == j then true else is_recent now recent j)
unfolding is_recent
is_recent-insert now s j recent = ground (arith, lookup-insert s j now recent)

-- Marking makes the numbers passed recent, and no other.
pub mark_loop-recent :
    (now : ℕ) (seqs : List ℕ) (recent : List (ℕ × ℕ)) (j : ℕ)
    → is_recent now (mark_loop now seqs recent).0 j ≡ is_recent now recent j || member j seqs
unfolding mark_loop member
mark_loop-recent now [] recent j = ground arith
mark_loop-recent now (s ∷ seqs) recent j = elim (Bool-cases (is_recent now recent s)) [
  | inl e ↦
      let same : s ≡ j → is_recent now recent s ≡ is_recent now recent j =
        ap (is_recent now recent) in
      ground (arith, mark_loop-recent now seqs recent j, same)
  | inr e ↦
      ground
        (arith, mark_loop-recent now seqs (insert s now recent) j, is_recent-insert now s j recent)
]

-- Numbers that are recent are not counted, and change nothing.
mark_loop-nothing :
    (now : ℕ) (seqs : List ℕ) (recent : List (ℕ × ℕ))
    → ((j : ℕ) → member j seqs ≡ true → is_recent now recent j ≡ true)
    → mark_loop now seqs recent ≡ (recent, 0)
unfolding mark_loop member
mark_loop-nothing now [] recent h = refl
mark_loop-nothing now (s ∷ seqs) recent h =
    rw (h s (ground arith), mark_loop-nothing now seqs recent (λ j m. h j (ground arith))) refl

-- Numbers that are marked twice at one time are counted once: the second call counts nothing and
-- changes nothing.
pub mark_loop_twice :
    (now : ℕ) (seqs : List ℕ) (recent : List (ℕ × ℕ))
    → let r = (mark_loop now seqs recent).0 in mark_loop now seqs r ≡ (r, 0)
mark_loop_twice now seqs recent =
    mark_loop-nothing now seqs (mark_loop now seqs recent).0
      (λ j m. ground (arith, mark_loop-recent now seqs recent j, m))
