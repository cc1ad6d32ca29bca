-- ===== src/Acknowledge/Sorting.antt =====
-- acknowledge.go: the order in which `write` takes the packets.
use mathlib.Core.List.{Perm}
use mathlib.Core.List.Perm
use go_raknet.Prelude.{
  ℕ, zero, suc, ◌≤◌, ◌≡◌, refl, ap, ◌∙◌, List, [], ◌∷◌, arith, leb, length, drop, All, Bool-cases,
  inl, inr,
}
use go_raknet.Acknowledge.{insert_sorted, sort}

-- Each number is at most the next.
abbrev pub IsSorted : List ℕ → Type 0
IsSorted [] = Unit {0}
IsSorted (x ∷ []) = Unit {0}
IsSorted (x ∷ (y ∷ ys)) = (x ≤ y) × IsSorted (y ∷ ys)

insert_sorted-IsSorted : (x : ℕ) (xs : List ℕ) → IsSorted xs → IsSorted (insert_sorted x xs)
unfolding insert_sorted
insert_sorted-IsSorted x [] s = tt
insert_sorted-IsSorted x (y ∷ []) s = ground arith
insert_sorted-IsSorted x (y ∷ (z ∷ zs)) s = ground (arith, insert_sorted-IsSorted x (z ∷ zs) s.1)

pub sort-IsSorted : (xs : List ℕ) → IsSorted (sort xs)
unfolding sort
sort-IsSorted [] = tt
sort-IsSorted (x ∷ xs) = insert_sorted-IsSorted x (sort xs) (sort-IsSorted xs)

insert_sorted-perm : (x : ℕ) (xs : List ℕ) → Perm (insert_sorted x xs) (x ∷ xs)
unfolding insert_sorted
insert_sorted-perm x [] = Perm.refl (x ∷ [])
insert_sorted-perm x (y ∷ ys) = elim (Bool-cases (leb x y)) [
  | inl le ↦ rw (le, insert_sorted) (Perm.refl (x ∷ (y ∷ ys)))
  | inr gt ↦
      rw (gt, insert_sorted) (Perm.trans (Perm.cons y (insert_sorted-perm x ys)) (Perm.swap x y ys))
]

pub sort-perm : (xs : List ℕ) → Perm (sort xs) xs
unfolding sort
sort-perm [] = Perm.refl []
sort-perm (x ∷ xs) = Perm.trans (insert_sorted-perm x (sort xs)) (Perm.cons x (sort-perm xs))

insert_sorted_least : (x : ℕ) (xs : List ℕ) → IsSorted (x ∷ xs) → insert_sorted x xs ≡ x ∷ xs
unfolding insert_sorted
insert_sorted_least x [] s = refl
insert_sorted_least x (y ∷ ys) s = ground arith

-- A sorted list is left as it is.
pub sort_sorted : (xs : List ℕ) → IsSorted xs → sort xs ≡ xs
unfolding sort
sort_sorted [] s = refl
sort_sorted (x ∷ []) s = unfold insert_sorted in refl
sort_sorted (x ∷ (y ∷ ys)) s = rw (sort_sorted (y ∷ ys) s.1) (insert_sorted_least x (y ∷ ys) s)

tail-IsSorted : (x : ℕ) (xs : List ℕ) → IsSorted (x ∷ xs) → IsSorted xs
tail-IsSorted x [] s = tt
tail-IsSorted x (y ∷ ys) s = s.1

pub drop-IsSorted : (n : ℕ) (xs : List ℕ) → IsSorted xs → IsSorted (drop n xs)
drop-IsSorted zero xs s = s
drop-IsSorted (suc n) [] s = tt
drop-IsSorted (suc n) (x ∷ xs) s = drop-IsSorted n xs (tail-IsSorted x xs s)

module _ (P : ℕ → Type 0) where
  insert_sorted-All : (x : ℕ) (xs : List ℕ) → P x → All P xs → All P (insert_sorted x xs)
  unfolding insert_sorted
  insert_sorted-All x [] p h = (p, h)
  insert_sorted-All x (y ∷ ys) p h = elim (Bool-cases (leb x y)) [
    | inl le ↦ rw (le, insert_sorted) (p, h)
    | inr gt ↦ rw (gt, insert_sorted) (h.0, insert_sorted-All x ys p h.1)
  ]

  pub sort-All : (xs : List ℕ) → All P xs → All P (sort xs)
  unfolding sort
  sort-All [] h = h
  sort-All (x ∷ xs) h = insert_sorted-All x (sort xs) h.0 (sort-All xs h.1)

  pub drop-All : (n : ℕ) (xs : List ℕ) → All P xs → All P (drop n xs)
  drop-All zero xs h = h
  drop-All (suc n) [] h = h
  drop-All (suc n) (x ∷ xs) h = drop-All n xs h.1

length-insert_sorted : (x : ℕ) (xs : List ℕ) → length (insert_sorted x xs) ≡ suc (length xs)
unfolding insert_sorted
length-insert_sorted x [] = refl
length-insert_sorted x (y ∷ ys) = ground (arith, length-insert_sorted x ys)

pub length-sort : (xs : List ℕ) → length (sort xs) ≡ length xs
unfolding sort
length-sort [] = refl
length-sort (x ∷ xs) = length-insert_sorted x (sort xs) ∙ ap suc (length-sort xs)
