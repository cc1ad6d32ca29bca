-- ===== src/Receiver/Reassembly.antt =====
-- conn.go: `receiveSplitPacket` puts the fragments of a content together.
use go_raknet.Prelude.{
  ℕ, zero, suc, ◌+◌, ◌-◌, ◌%◌, ◌^◌, ◌<◌, ◌≤◌, ◌≡◌, refl, sym, ap, subst, List, [], ◌∷◌, Bool, true,
  false, none, ltb, if◌then◌else◌, length, get_or, set, replicate, concat, arith, ◌⊎◌, inl, inr,
  Result, ok, panic, Bool-cases,
}
use go_raknet.Prelude.Dict.{lookup, insert, delete}
use go_raknet.Packet.{Packet}
use go_raknet.Receiver.{
  Receiver, has_empty, slots_of, receive_packet, receive_split_packet, max_split_count,
  max_concurrent_splits,
}

-- Of the fragments `fs` some have arrived, each in its place; the other places are empty.
abbrev pub IsPartial : List (List ℕ) → List (List ℕ) → Type 0
IsPartial [] [] = Unit {0}
IsPartial [] (m ∷ ms) = ⊥
IsPartial (f ∷ fs) [] = ⊥
IsPartial (f ∷ fs) (m ∷ ms) = ((m ≡ []) ⊎ (m ≡ f)) × IsPartial fs ms

length-IsPartial : (fs ms : List (List ℕ)) → IsPartial fs ms → length ms ≡ length fs
length-IsPartial [] [] h = refl
length-IsPartial [] (m ∷ ms) h = absurd h
length-IsPartial (f ∷ fs) [] h = absurd h
length-IsPartial (f ∷ fs) (m ∷ ms) h = ap suc (length-IsPartial fs ms h.1)

replicate-IsPartial : (fs : List (List ℕ)) → IsPartial fs (replicate (length fs) [])
replicate-IsPartial [] = tt
replicate-IsPartial (f ∷ fs) = (inl refl, replicate-IsPartial fs)

set-IsPartial :
    (fs ms : List (List ℕ)) (i : ℕ) → IsPartial fs ms → IsPartial fs (set ms i (get_or fs i []))
set-IsPartial [] [] i h = tt
set-IsPartial [] (m ∷ ms) i h = absurd h
set-IsPartial (f ∷ fs) [] i h = absurd h
set-IsPartial (f ∷ fs) (m ∷ ms) zero h = (inr refl, h.1)
set-IsPartial (f ∷ fs) (m ∷ ms) (suc i) h = (h.0, set-IsPartial fs ms i h.1)

-- With no place empty, all have arrived.
has_empty-IsPartial : (fs ms : List (List ℕ)) → IsPartial fs ms → has_empty ms ≡ false → ms ≡ fs
unfolding has_empty
has_empty-IsPartial [] [] h e = refl
has_empty-IsPartial [] (m ∷ ms) h e = absurd h
has_empty-IsPartial (f ∷ fs) [] h e = absurd h
has_empty-IsPartial (f ∷ fs) ([] ∷ ms) h e = cc
has_empty-IsPartial (f ∷ fs) ((x ∷ xs) ∷ ms) h e = elim h.0 [
  | inl empty ↦ cc
  | inr same ↦ ground (arith, same, has_empty-IsPartial fs ms h.1 e)
]

module _ {H : Type 0} (handle : H → List ℕ → ℕ → H × Result Bool) (now : ℕ) where
  -- A fragment of a content in at most 512 fragments, of which others may have arrived before, in any
  -- order, at a receiver with at most 16 splits. While one is missing the fragment is kept with the
  -- others. The last one to arrive hands on the whole content, the fragments in the order of their
  -- indices, and its place is free again.
  pub receive_split_packet-IsPartial :
      (r : Receiver H) (p : Packet) (fs : List (List ℕ))
      → p.split_index < length fs
      → p.content ≡ get_or fs p.split_index []
      → length fs ≤ max_split_count
      → p.split_count ≡ length fs
      → length r.splits ≤ max_concurrent_splits
      → IsPartial fs (slots_of handle r p)
      → let ms = set (slots_of handle r p) p.split_index p.content in
        IsPartial fs ms
        × (receive_split_packet handle now r p ≡ (
            if has_empty ms
            then (record r { splits = insert p.split_id ms r.splits }, ok tt)
            else receive_packet handle now
                (record r { splits = delete p.split_id r.splits })
                (record p { content = concat fs })))
  unfolding receive_split_packet
  receive_split_packet-IsPartial r p fs i c few count room partial =
      let m = slots_of handle r p in
      let ms = set m p.split_index p.content in
      let partial' : IsPartial fs ms =
        subst (λ x. IsPartial fs (set m p.split_index x)) (sym c)
          (set-IsPartial fs m p.split_index partial) in
      let size = length-IsPartial fs m partial in
      let t1 : ltb max_split_count p.split_count ≡ false = ground arith in
      let t2 : ltb max_concurrent_splits (length r.splits) ≡ false = ground arith in
      let t3 : ltb ((length m + 2 ^ 32 - 1) % 2 ^ 32) p.split_index ≡ false =
        ground (arith, size) in
      let t4 : ltb p.split_index (length m) ≡ true = ground (arith, size) in
      (
        partial',
        elim (Bool-cases (has_empty ms)) [
          | inl missing ↦ rw (t1, t2, t3, t4, missing) refl
          | inr full ↦ rw (t1, t2, t3, t4, full, has_empty-IsPartial fs ms partial' full) refl
        ],
      )

  slots_of_no_fragments :
      (r : Receiver H) (p : Packet)
      → p.split_count ≡ 0
      → lookup p.split_id r.splits ≡ none
      → slots_of handle r p ≡ []
  unfolding slots_of
  slots_of_no_fragments r p count fresh = rw (slots_of, fresh, count) refl

  -- A packet that claims to be a fragment of a split into no fragments panics, whatever its index,
  -- where its split ID is not in use and there are at most 16 splits.
  pub receive_split_packet_no_fragments :
      (r : Receiver H) (p : Packet)
      → p.split_count ≡ 0
      → p.split_index < 2 ^ 32
      → lookup p.split_id r.splits ≡ none
      → length r.splits ≤ max_concurrent_splits
      → (receive_split_packet handle now r p).1 ≡ panic
  unfolding receive_split_packet
  receive_split_packet_no_fragments r p count i fresh room =
      let t1 : ltb max_split_count p.split_count ≡ false = ground arith in
      let t2 : ltb max_concurrent_splits (length r.splits) ≡ false = ground arith in
      let t3 : ltb (2 ^ 32 - 1) p.split_index ≡ false = ground arith in
      rw (t1, t2, slots_of_no_fragments r p count fresh, t3) (ground arith)
