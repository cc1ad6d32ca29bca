-- ===== src/PacketQueue/Fetch.antt =====
-- packet_queue.go: what one run of the loop of `fetch` takes out.
use go_raknet.Prelude.{
  ℕ, zero, suc, ◌+◌, ◌^◌, ◌≤◌, ◌<◌, ◌≡◌, refl, List, [], ◌∷◌, ◌++◌, none, some, arith, ltb,
  append_assoc, Option-cases, Bool-cases, inl, inr, ◌≢◌,
}
use go_raknet.Prelude.Dict.{lookup, delete, lookup-delete}
use go_raknet.Binary.{next24}
use go_raknet.PacketQueue.{fetch_loop}

module _ (sent : ℕ → List ℕ) where
  -- The first `n` packets of the stream.
  unfoldable pub stream : ℕ → List (List ℕ)
  stream zero = []
  stream (suc n) = stream n ++ (sent n ∷ [])

  -- The queue holds packets of the stream, of indices from `low` and below `high`.
  abbrev pub Holds : ℕ → ℕ → List (ℕ × List ℕ) → Type 0
  Holds low high q =
      (j : ℕ) (v : List ℕ) → lookup j q ≡ some v → (low ≤ j) × (j < high) × (v ≡ sent j)

  Holds-delete :
      (low high : ℕ) (q : List (ℕ × List ℕ))
      → Holds low high q
      → Holds (suc low) high (delete low q)
  Holds-delete low high q h j v e = ground (arith, lookup-delete low j q, h j v)

  -- A loop from `i` that stopped at `r.0` has taken out the stream up to there.
  pub record IsFetched (i high : ℕ) (q : List (ℕ × List ℕ))
      (r : ℕ × List (ℕ × List ℕ) × List (List ℕ)) : Type 0 where
    pub from : i ≤ r.0
    pub upto : r.0 ≤ high
    pub taken : r.2 ≡ stream r.0
    pub holds : Holds r.0 high r.1
    pub gap : lookup r.0 r.1 ≡ none
    pub rest : (j : ℕ) → r.0 ≤ j → lookup j r.1 ≡ lookup j q
    pub present : (j : ℕ) → i ≤ j → j < r.0 → lookup j q ≢ none

  -- A loop that stops at once, at a gap.
  stopped :
      (high i : ℕ) (q : List (ℕ × List ℕ))
      → i ≤ high
      → Holds i high q
      → lookup i q ≡ none
      → IsFetched i high q (i, q, stream i)
  stopped high i q le h e = record {
    from = omega arith;
    upto = le;
    taken = refl;
    holds = h;
    gap = e;
    rest = λ j k. refl;
    present = λ j k l. absurd (omega arith);
  }

  -- What the rest of the loop fetches after a round at `i`.
  one_more :
      (high i : ℕ) (q : List (ℕ × List ℕ)) (r : ℕ × List (ℕ × List ℕ) × List (List ℕ)) {v : List ℕ}
      → lookup i q ≡ some v
      → IsFetched (suc i) high (delete i q) r
      → IsFetched i high q r
  one_more high i q r e f = record {
    from = omega (arith, f.from);
    upto = f.upto;
    taken = f.taken;
    holds = f.holds;
    gap = f.gap;
    rest = λ j k. ground (arith, f.rest j k, f.from, lookup-delete i j q);
    present = λ j k l. ground (arith, e, f.present j, lookup-delete i j q);
  }

  above-Holds : (high i : ℕ) (q : List (ℕ × List ℕ)) → Holds i high q → high ≤ i → lookup i q ≡ none
  above-Holds high i q h le = elim (Option-cases (lookup i q)) [
    | inl e ↦ e
    | inr (v, e) ↦ absurd (omega (arith, h i v e))
  ]

  pub fetch_loop-IsFetched :
      (n high i : ℕ) (q : List (ℕ × List ℕ))
      → i ≤ high
      → high ≤ i + n
      → high < 2 ^ 32
      → Holds i high q
      → IsFetched i high q (fetch_loop n high i q (stream i))
  unfolding fetch_loop stream
  fetch_loop-IsFetched zero high i q lo hi w h =
      stopped high i q lo h (above-Holds high i q h (omega arith))
  fetch_loop-IsFetched (suc n) high i q lo hi w h = elim (Bool-cases (ltb i high)) [
    | inl below ↦ elim (Option-cases (lookup i q)) [
      | inl e ↦ rw (below, e, fetch_loop) (stopped high i q lo h e)
      | inr (v, e) ↦
          let same : v ≡ sent i = (h i v e).2 in
          let next : next24 i ≡ suc i = ground arith in
          rw (below, e, same, next, fetch_loop)
            (one_more high i q _ e (
              fetch_loop-IsFetched n high (suc i) (delete i q) (ground arith) (omega arith) w
                (Holds-delete i high q h)))
    ]
    | inr done ↦
        rw (done, fetch_loop) (stopped high i q lo h (above-Holds high i q h (ground arith)))
  ]

pub fetch_loop-append :
    (n high i : ℕ) (q : List (ℕ × List ℕ)) (xs ys : List (List ℕ))
    → fetch_loop n high i q (xs ++ ys) ≡ (
      (fetch_loop n high i q ys).0,
      (fetch_loop n high i q ys).1,
      xs ++ (fetch_loop n high i q ys).2,
    )
unfolding fetch_loop
fetch_loop-append zero high i q xs ys = refl
fetch_loop-append (suc n) high i q xs ys = elim (Bool-cases (ltb i high)) [
  | inl below ↦ elim (Option-cases (lookup i q)) [
    | inl e ↦ rw (below, e, fetch_loop)
    | inr (v, e) ↦
        rw (below, e, append_assoc xs ys (v ∷ []), fetch_loop)
          (fetch_loop-append n high (next24 i) (delete i q) xs (ys ++ (v ∷ [])))
  ]
  | inr done ↦ rw (done, fetch_loop)
]
