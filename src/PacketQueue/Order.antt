-- ===== src/PacketQueue/Order.antt =====
-- packet_queue.go: what leaves the queue, against the stream that the other end sent.
use go_raknet.Prelude.{
  ℕ, ◌-◌, ◌^◌, ◌≤◌, ◌<◌, ◌≡◌, refl, sym, ap, subst, ◌∙◌, List, [], ◌∷◌, ◌++◌, Bool, true, false,
  none, arith, ltb, leb, ◌==◌, ◌||◌, if◌then◌else◌, All, append_assoc, append-nil, Option-cases,
  Bool-cases, inl, inr, ◌↔◌, ◌≢◌,
}
use native.Mathlib.Decide.{dec_le}
use go_raknet.Prelude.Dict.{lookup, insert, lookup-insert}
use go_raknet.Binary.{next24}
use go_raknet.PacketQueue.Fetch.{stream, Holds, IsFetched, fetch_loop-IsFetched, fetch_loop-append}
use go_raknet.PacketQueue.{
  PacketQueue, new_packet_queue, put, fetch_loop, fetch, arrive, arrive_all,
}

-- Nothing at `j` has come so far.
abbrev pub Missing : PacketQueue → ℕ → Type 0
Missing q j = (q.lowest ≤ j) × (lookup j q.queue ≡ none)

module _ (sent : ℕ → List ℕ) where
  record IsOrdered (q : PacketQueue) : Type 0 where
    window : q.lowest ≤ q.highest
    fits : q.highest < 2 ^ 32
    holds : Holds sent q.lowest q.highest q.queue
    gap : lookup q.lowest q.queue ≡ none

  -- What a call that returned `r` at `q` delivered and kept.
  record IsDelivery (q : PacketQueue) (i : ℕ) (r : PacketQueue × List (List ℕ)) : Type 0 where
    ordered : IsOrdered r.0
    delivered : stream sent q.lowest ++ r.1 ≡ stream sent r.0.lowest
    missing : (j : ℕ) → Missing r.0 j ↔ (Missing q j × (j ≢ i))

  -- A queue as `put` leaves it: only the gap may be filled.
  fetch-IsDelivery :
      (q q' : PacketQueue) (i : ℕ)
      → q'.lowest ≡ q.lowest
      → q'.lowest ≤ q'.highest
      → q'.highest < 2 ^ 32
      → Holds sent q'.lowest q'.highest q'.queue
      → ((j : ℕ) → Missing q' j ↔ (Missing q j × (j ≢ i)))
      → IsDelivery q i (fetch q')
  unfolding fetch
  fetch-IsDelivery q q' i same le w h m = record {
    ordered = record { window = f.upto; fits = w; holds = f.holds; gap = f.gap };
    delivered = rw (← same) f.taken;
    missing = λ j. (
      λ g. (m j).0 (omega (arith, f.from, g.0), sym (f.rest j g.0) ∙ g.1),
      λ g. still_missing j ((m j).1 g),
    );
  }
    where
      n : ℕ
      n = q'.highest - q'.lowest

      r : ℕ × List (ℕ × List ℕ) × List (List ℕ)
      r = fetch_loop n q'.highest q'.lowest q'.queue []

      f : IsFetched sent q'.lowest q'.highest q'.queue (r.0, r.1, stream sent q'.lowest ++ r.2)
      f =
          subst (IsFetched sent q'.lowest q'.highest q'.queue)
            (rw append-nil at
              (fetch_loop-append n q'.highest q'.lowest q'.queue (stream sent q'.lowest) []))
            (fetch_loop-IsFetched sent n q'.highest q'.lowest q'.queue le (omega arith) w h)

      still_missing : (j : ℕ) → Missing q' j → Missing (record q' { lowest = r.0; queue = r.1 }) j
      still_missing j g = elim (dec_le r.0 j) [
        | yes above ↦ (above, f.rest j above ∙ g.1)
        | no below ↦ absurd (f.present j g.0 (omega arith) g.1)
      ]

  -- The queue with the packet of index `i` in it.
  abbrev added : PacketQueue → ℕ → PacketQueue
  added q i = record q {
    highest = if leb q.highest i then next24 i else q.highest;
    queue = insert i (sent i) q.queue;
  }

  arrive-IsDelivery :
      (q : PacketQueue) (i : ℕ)
      → IsOrdered q
      → i < 2 ^ 32 - 1
      → IsDelivery q i (arrive q (i, sent i))
  unfolding arrive put
  arrive-IsDelivery q i o b = elim (Bool-cases (ltb i q.lowest)) [
    | inl old ↦ rw (old, arrive, put) (unchanged (λ j g e. absurd (ground arith)))
    | inr new ↦ elim (Option-cases (lookup i q.queue)) [
      | inl e ↦
          rw (new, e, arrive, put)
            (fetch-IsDelivery q (added q i) i refl (ground arith) (ground arith)
              (λ j v k. ground (arith, k, lookup-insert i j (sent i) q.queue, o.holds j v))
              (λ j. (
                λ g. (
                  ground (arith, g, lookup-insert i j (sent i) q.queue),
                  λ t. ground (arith, g, t, lookup-insert i j (sent i) q.queue),
                ),
                λ g. ground (arith, g, lookup-insert i j (sent i) q.queue),
              )))
      | inr (v, e) ↦ rw (new, e, arrive, put) (unchanged (λ j g k. ground (arith, e, k)))
    ]
  ]
    where
      unchanged : ((j : ℕ) → Missing q j → j ≢ i) → IsDelivery q i (q, [])
      unchanged m = record {
        ordered = o;
        delivered = append-nil _;
        missing = λ j. (λ g. (g, m j g), λ g. g.0);
      }

-- Whether some arrival has the index `j`.
unfoldable pub arrived : ℕ → List (ℕ × List ℕ) → Bool
arrived j [] = false
arrived j (a ∷ arrivals) = a.0 == j || arrived j arrivals

module _ (sent : ℕ → List ℕ) where
  -- An arrival of the stream, below the last index that a uint32 can follow.
  abbrev pub IsSent : ℕ × List ℕ → Type 0
  IsSent a = (a.0 < 2 ^ 32 - 1) × (a.1 ≡ sent a.0)

  arrive_all-IsOrdered :
      (q : PacketQueue) (arrivals : List (ℕ × List ℕ))
      → IsOrdered sent q
      → All IsSent arrivals
      → IsOrdered sent (arrive_all q arrivals).0
        × (stream sent q.lowest ++ (arrive_all q arrivals).1
            ≡ stream sent (arrive_all q arrivals).0.lowest)
        × ((j : ℕ)
            → Missing (arrive_all q arrivals).0 j ↔ (Missing q j × (arrived j arrivals ≡ false)))
  unfolding arrive_all arrived
  arrive_all-IsOrdered q [] o s = (o, append-nil _, λ j. (λ g. (g, refl), λ g. g.0))
  arrive_all-IsOrdered q ((i, p) ∷ arrivals) o s =
      let d : IsDelivery sent q i (arrive q (i, p)) =
        subst (λ c. IsDelivery sent q i (arrive q (i, c))) (sym s.0.1)
          (arrive-IsDelivery sent q i o s.0.0) in
      let (last, out, gone) = arrive_all-IsOrdered (arrive q (i, p)).0 arrivals d.ordered s.1 in
      (
        last,
        sym (
              append_assoc (stream sent q.lowest) (arrive q (i, p)).1
                (arrive_all (arrive q (i, p)).0 arrivals).1)
            ∙ ap (λ t. t ++ (arrive_all (arrive q (i, p)).0 arrivals).1) d.delivered
            ∙ out,
        λ j. (
          λ g. (
            ((d.missing j).0 ((gone j).0 g).0).0,
            ground (arith, ((d.missing j).0 ((gone j).0 g).0).1, ((gone j).0 g).1),
          ),
          λ g. (gone j).1 ((d.missing j).1 (g.0, λ e. ground (arith, g.1, e)), ground (arith, g.1)),
        ),
      )

  new-IsOrdered : IsOrdered sent new_packet_queue
  unfolding new_packet_queue lookup
  new-IsOrdered = record {
    window = omega arith;
    fits = omega arith;
    holds = λ j v e. cc;
    gap = refl;
  }

  -- For whatever order, loss and repetition of the packets of a stream, the queue hands out a
  -- beginning of the stream: each packet once, in order, and up to the first index that has not
  -- arrived.
  pub arrive_all_in_order :
      (arrivals : List (ℕ × List ℕ))
      → All IsSent arrivals
      → let r = arrive_all new_packet_queue arrivals in
        (r.1 ≡ stream sent r.0.lowest)
        × (arrived r.0.lowest arrivals ≡ false)
        × ((j : ℕ) → j < r.0.lowest → arrived j arrivals ≡ true)
  unfolding new_packet_queue stream lookup
  arrive_all_in_order arrivals s =
      let (o, out, gone) = arrive_all-IsOrdered new_packet_queue arrivals new-IsOrdered s in
      let r = arrive_all new_packet_queue arrivals in
      (
        out,
        ((gone r.0.lowest).0 (omega arith, o.gap)).1,
        λ j below. elim (Bool-cases (arrived j arrivals)) [
          | inl came ↦ came
          | inr not_yet ↦ absurd (omega (arith, ((gone j).1 ((omega arith, refl), not_yet)).0))
        ],
      )
