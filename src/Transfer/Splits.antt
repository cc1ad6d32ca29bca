-- ===== src/Transfer/Splits.antt =====
-- conn.go: how an end takes the packets of a content, split or not, one after the other.
use go_raknet.Prelude.{
  ℕ, suc, ◌+◌, ◌-◌, ◌%◌, ◌^◌, ◌<◌, ◌≤◌, ◌≡◌, refl, ◌∙◌, ap, subst, List, [], ◌∷◌, ◌++◌, Bool, true,
  false, ltb, arith, length, set, replicate, concat, if◌then◌else◌, Result, ok, All, length-append,
  length-replicate, append_assoc,
}
use go_raknet.Prelude.Dict.{lookup, insert, delete}
use go_raknet.Packet.{Packet, reliability_reliable_ordered}
use go_raknet.PacketQueue as PacketQueue
use go_raknet.PacketQueue.{PacketQueue}
use go_raknet.Receiver.{
  Receiver, has_empty, slots_of, handle_packet, handle_all, receive_ordered, receive_packet,
  receive_split_packet, max_window_size, max_split_count, max_concurrent_splits,
}
use go_raknet.Transfer.Windows.{queue_at, put-queue_at, fetch-queue_at}
use go_raknet.Transfer.Datagrams.{take_packet}

-- The fragments of the split `id` that have arrived, in front of `k` places.
abbrev pub slots_at : ℕ → List (List ℕ) → ℕ → List (ℕ × List (List ℕ))
slots_at id [] k = []
slots_at id (f ∷ fs) k = (id, (f ∷ fs) ++ replicate k []) ∷ []

set-append :
    (done rest : List (List ℕ)) (old f : List ℕ)
    → set (done ++ (old ∷ rest)) (length done) f ≡ done ++ (f ∷ rest)
set-append [] rest old f = refl
set-append (x ∷ done) rest old f = rw (set-append done rest old f) refl

has_empty-append : (done rest : List (List ℕ)) → has_empty (done ++ ([] ∷ rest)) ≡ true
unfolding has_empty
has_empty-append [] rest = refl
has_empty-append ([] ∷ done) rest = refl
has_empty-append ((x ∷ xs) ∷ done) rest = has_empty-append done rest

-- Fragments that are not empty.
abbrev pub AllSome : List (List ℕ) → Type 0
AllSome fs = All (λ f. 0 < length f) fs

has_empty-AllSome : (fs : List (List ℕ)) → AllSome fs → has_empty fs ≡ false
unfolding has_empty
has_empty-AllSome [] h = refl
has_empty-AllSome ([] ∷ fs) h = absurd (omega (arith, h.0))
has_empty-AllSome ((x ∷ xs) ∷ fs) h = has_empty-AllSome fs h.1

concat_some :
    (done : List (List ℕ)) (f : List ℕ) → 0 < length f → 0 < length (concat (done ++ (f ∷ [])))
concat_some [] f h = omega (arith, length-append f [], h)
concat_some (x ∷ done) f h =
    omega (arith, length-append x (concat (done ++ (f ∷ []))), concat_some done f h)

module _ {H : Type 0} (handle : H → List ℕ → ℕ → H × Result Bool) (now : ℕ) where
  -- A content that the handler leaves to the reader.
  abbrev pub IsIgnored : H → List ℕ → Type 0
  IsIgnored h b = handle h b reliability_reliable_ordered ≡ (h, ok false)

  handle_ignored :
      (r : Receiver H) (b : List ℕ)
      → 0 < length b
      → r.closing ≡ false
      → IsIgnored r.handler b
      → handle_packet handle r b reliability_reliable_ordered
        ≡ (record r { packets = r.packets ++ (b ∷ []) }, ok tt)
  unfolding handle_packet
  handle_ignored r [] some_bytes open_still ignored = absurd (omega (arith, some_bytes))
  handle_ignored r (x ∷ b) some_bytes open_still ignored = ground (arith, open_still, ignored)

  handle_all_one :
      (r : Receiver H) (b : List ℕ)
      → 0 < length b
      → r.closing ≡ false
      → IsIgnored r.handler b
      → handle_all handle r (b ∷ []) ≡ (record r { packets = r.packets ++ (b ∷ []) }, ok tt)
  unfolding handle_all
  handle_all_one r b some_bytes open_still ignored =
      ground (arith, handle_ignored r b some_bytes open_still ignored)

  -- The receiver behind the content with the order index `o`.
  abbrev pub delivered : Receiver H → ℕ → List ℕ → Receiver H
  delivered r o b = record r { queue = queue_at (o + 1); packets = r.packets ++ (b ∷ []) }

  pub receive_ordered-next :
      (r : Receiver H) (p : Packet) (o : ℕ)
      → r.queue ≡ queue_at o
      → o + 1 < 2 ^ 32
      → p.order_index ≡ o
      → 0 < length p.content
      → r.closing ≡ false
      → IsIgnored r.handler p.content
      → receive_ordered handle r p ≡ (delivered r o p.content, ok tt)
  unfolding receive_ordered
  receive_ordered-next r p o at_o small index some_bytes open_still ignored =
      let q : PacketQueue = record { lowest = o; highest = o + 1; queue = (o, p.content) ∷ [] } in
      let put : PacketQueue.put r.queue p.order_index p.content ≡ (q, true) =
        rw (at_o, index) (put-queue_at o p.content small) in
      let fetched = fetch-queue_at o p.content small in
      let one : ltb max_window_size (PacketQueue.window_size q) ≡ false =
        unfold PacketQueue.window_size in ground (arith, small) in
      let handled =
        handle_all_one (record r { queue = queue_at (o + 1) }) p.content some_bytes open_still
          ignored in
      rw (receive_ordered, put, one, fetched) handled

  receive_packet-ordered :
      (r : Receiver H) (p : Packet)
      → p.reliability ≡ reliability_reliable_ordered
      → receive_packet handle now r p ≡ receive_ordered handle r p
  unfolding receive_packet
  receive_packet-ordered r p kind = rw (kind) refl

  -- A content that was not split.
  pub take_whole :
      (r : Receiver H) (p : Packet) (o : ℕ)
      → p.split ≡ false
      → p.reliability ≡ reliability_reliable_ordered
      → r.queue ≡ queue_at o
      → o + 1 < 2 ^ 32
      → p.order_index ≡ o
      → 0 < length p.content
      → r.closing ≡ false
      → IsIgnored r.handler p.content
      → take_packet handle now r p ≡ (delivered r o p.content, ok tt)
  unfolding take_packet
  take_whole r p o whole kind at_o small index some_bytes open_still ignored =
      let e =
        receive_packet-ordered r p kind
        ∙ receive_ordered-next r p o at_o small index some_bytes open_still ignored in
      ground (arith, whole, e)

  slots_at-slots_of :
      (r : Receiver H) (p : Packet) (done : List (List ℕ)) (k : ℕ)
      → r.splits ≡ slots_at p.split_id done (suc k)
      → p.split_count ≡ length done + suc k
      → slots_of handle r p ≡ done ++ ([] ∷ replicate k [])
  unfolding slots_of lookup
  slots_at-slots_of r p [] k at_done count =
      let n : p.split_count ≡ suc k = omega (arith, count) in rw (slots_of, at_done, lookup, n) refl
  slots_at-slots_of r p (f ∷ done) k at_done count = ground (arith, at_done)

  pub store :
      (r : Receiver H) (id : ℕ) (done : List (List ℕ)) (f : List ℕ) (k : ℕ)
      → r.splits ≡ slots_at id done (suc k)
      → insert id (done ++ (f ∷ replicate k [])) r.splits ≡ slots_at id (done ++ (f ∷ [])) k
  unfolding insert delete
  store r id [] f k at_done = ground (arith, at_done)
  store r id (x ∷ done) f k at_done =
      ground (arith, at_done, append_assoc done (f ∷ []) (replicate k []))

  pub forget :
      (r : Receiver H) (id : ℕ) (done : List (List ℕ)) (k : ℕ)
      → r.splits ≡ slots_at id done k
      → delete id r.splits ≡ []
  unfolding delete
  forget r id [] k at_done = ground (arith, at_done)
  forget r id (x ∷ done) k at_done = ground (arith, at_done)

  length-slots_at :
      (r : Receiver H) (id : ℕ) (done : List (List ℕ)) (k : ℕ)
      → r.splits ≡ slots_at id done k
      → length r.splits ≤ 1
  length-slots_at r id [] k at_done = ground (arith, at_done)
  length-slots_at r id (x ∷ done) k at_done = ground (arith, at_done)

  -- A packet with the fragment behind `done`, of a split in which `k` more follow it.
  pub record IsFragment (p : Packet) (done : List (List ℕ)) (k : ℕ) : Type 0 where
    pub is_split : p.split ≡ true
    pub index : p.split_index ≡ length done
    pub count : p.split_count ≡ length done + suc k
    pub few : length done + suc k ≤ max_split_count

  -- What `receiveSplitPacket` comes to for it.
  fragment_step :
      (r : Receiver H) (p : Packet) (done : List (List ℕ)) (k : ℕ)
      → IsFragment p done k
      → r.splits ≡ slots_at p.split_id done (suc k)
      → let m = done ++ (p.content ∷ replicate k []) in
        take_packet handle now r p ≡ (
          if has_empty m
          then (record r { splits = insert p.split_id m r.splits }, ok tt)
          else receive_packet handle now
              (record r { splits = delete p.split_id r.splits })
              (record p { content = concat m }))
  unfolding take_packet receive_split_packet
  fragment_step r p done k g at_done =
      let slots = slots_at-slots_of r p done k at_done g.count in
      let n : length (slots_of handle r p) ≡ length done + suc k = rw (slots) (
        length-append done ([] ∷ replicate k [])
        ∙ ap (λ j. length done + suc j) (length-replicate k [])) in
      let filled : set (slots_of handle r p) p.split_index p.content
          ≡ done ++ (p.content ∷ replicate k []) =
        rw (slots, g.index) (set-append done (replicate k []) [] p.content) in
      let room = length-slots_at r p.split_id done (suc k) at_done in
      let t1 : ltb max_split_count p.split_count ≡ false = ground (arith, g.count, g.few) in
      let t2 : ltb max_concurrent_splits (length r.splits) ≡ false = ground (arith, room) in
      let t3 : ltb ((length (slots_of handle r p) + 2 ^ 32 - 1) % 2 ^ 32) p.split_index ≡ false =
        ground (arith, n, g.index, g.few) in
      let t4 : ltb p.split_index (length (slots_of handle r p)) ≡ true =
        ground (arith, n, g.index) in
      ground (arith, g.is_split, t1, t2, t3, t4, filled)

  pub take_fragment :
      (r : Receiver H) (p : Packet) (done : List (List ℕ)) (k : ℕ)
      → IsFragment p done (suc k)
      → r.splits ≡ slots_at p.split_id done (suc (suc k))
      → take_packet handle now r p
        ≡ (record r { splits = slots_at p.split_id (done ++ (p.content ∷ [])) (suc k) }, ok tt)
  take_fragment r p done k g at_done =
      let e = fragment_step r p done (suc k) g at_done in
      let missing : has_empty (done ++ (p.content ∷ [] ∷ replicate k [])) ≡ true =
        subst (λ m. has_empty m ≡ true) (append_assoc done (p.content ∷ []) ([] ∷ replicate k []))
          (has_empty-append (done ++ (p.content ∷ [])) (replicate k [])) in
      let stored = store r p.split_id done p.content (suc k) at_done in
      ground (arith, e, missing, stored)

  pub take_last :
      (r : Receiver H) (p : Packet) (done : List (List ℕ)) (o : ℕ)
      → IsFragment p done 0
      → r.splits ≡ slots_at p.split_id done 1
      → AllSome (done ++ (p.content ∷ []))
      → p.reliability ≡ reliability_reliable_ordered
      → r.queue ≡ queue_at o
      → o + 1 < 2 ^ 32
      → p.order_index ≡ o
      → 0 < length p.content
      → r.closing ≡ false
      → IsIgnored r.handler (concat (done ++ (p.content ∷ [])))
      → take_packet handle now r p
        ≡ (delivered (record r { splits = [] }) o (concat (done ++ (p.content ∷ []))), ok tt)
  take_last r p done o g at_done some_each kind at_o small index some_bytes open_still ignored =
      let whole = concat (done ++ (p.content ∷ [])) in
      let e = fragment_step r p done 0 g at_done in
      let full = has_empty-AllSome (done ++ (p.content ∷ [])) some_each in
      let emptied = record r { splits = delete p.split_id r.splits } in
      let p' = record p { content = whole } in
      let some_whole : 0 < length whole = concat_some done p.content some_bytes in
      let next =
        receive_packet-ordered emptied p' kind
        ∙ receive_ordered-next emptied p' o at_o small index some_whole open_still ignored in
      let gone = forget r p.split_id done 1 at_done in ground (arith, e, full, next, gone)
