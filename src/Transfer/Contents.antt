-- ===== src/Transfer/Contents.antt =====
-- conn.go: how an end takes the datagrams of a content, one after the other.
use go_raknet.Prelude.{
  ℕ, suc, ◌+◌, ◌%◌, ◌^◌, ◌<◌, ◌≤◌, ◌≡◌, refl, ◌∙◌, ap, sym, subst, List, [], ◌∷◌, ◌++◌, Bool, true,
  false, if◌then◌else◌, arith, length, concat, Result, ok, err, panic, All, append_assoc,
  length-append,
}
use go_raknet.Binary.{next24}
use go_raknet.Packet.{
  Packet, reliability_reliable_ordered, reliable, sequenced, sequenced_or_ordered,
}
use go_raknet.Packet.Codec.{IsEncodable, received}
use go_raknet.Congestion.Controller.{Controller}
use go_raknet.Receiver.{Receiver, max_split_count}
use go_raknet.Session.{Session}
use go_raknet.Session.Receiving.{receive}
use go_raknet.Transfer.Windows.{win_at, queue_at}
use go_raknet.Transfer.Datagrams.{Keeps, wire, IsFlags, counted, receive-IsTaken}
use go_raknet.Transfer.Splits.{
  slots_at, AllSome, IsIgnored, IsFragment, take_whole, take_fragment, take_last,
}

-- The packet of the fragment with the index `i`, of `count`.
abbrev pub part : Bool → ℕ → ℕ → ℕ → ℕ → ℕ → List ℕ → Packet
part several count order id i message content = record {
  reliability = reliability_reliable_ordered;
  message_index = message;
  sequence_index = 0;
  order_index = order;
  content = content;
  split = several;
  split_count = if several then count % 2 ^ 32 else 0;
  split_index = if several then i % 2 ^ 32 else 0;
  split_id = if several then id else 0;
}

abbrev pub parts : Bool → ℕ → ℕ → ℕ → ℕ → ℕ → List (List ℕ) → List Packet
parts several count order id i message [] = []
parts several count order id i message (f ∷ fs) =
    part several count order id i message f
    ∷ parts several count order id (i + 1) (next24 message) fs

-- Datagrams of one packet each, with the numbers from `seq` on.
abbrev pub Carries : ℕ → List (List ℕ) → List Packet → Type 0
Carries seq [] [] = Unit {0}
Carries seq [] (pk ∷ pks) = ⊥
Carries seq (d ∷ ds) [] = ⊥
Carries seq (d ∷ ds) (pk ∷ pks) =
    ((flags : ℕ) × IsFlags flags × (d ≡ wire flags seq pk)) × Carries (seq + 1) ds pks

part-IsEncodable :
    (several : Bool) (count order id i message : ℕ) (f : List ℕ)
    → order < 2 ^ 24
    → id < 2 ^ 16
    → message < 2 ^ 24
    → 0 < length f
    → length f < 2 ^ 13
    → IsEncodable (part several count order id i message f)
part-IsEncodable several count order id i message f o d m some_bytes short = record {
  reliability_fits = omega arith;
  message_fits = m;
  sequence_fits = omega arith;
  order_fits = o;
  content_some = some_bytes;
  content_fits = short;
  count_fits = ground arith;
  index_fits = ground arith;
  id_fits = ground (arith, d);
}

module _ {C H : Type 0} (control : Controller C) (handle : H → List ℕ → ℕ → H × Result Bool)
    (settle : ℕ → Session C H → Session C H) (now : ℕ) where
  -- Datagrams one after the other, up to the first that is an error.
  unfoldable pub receive_all : Session C H → List (List ℕ) → Session C H × Result (Unit {0})
  receive_all s [] = (s, ok tt)
  receive_all s (d ∷ ds) =
      let (s', r) = receive control handle settle now s d in
      elim r [ ok _ ↦ receive_all s' ds | err e ↦ (s', err e) | panic ↦ (s', panic) ]

  -- An end that has received all datagrams up to `seq` and all contents up to `order`, with the fragments
  -- `splits` of the next one.
  pub record InSync (r : Receiver H) (seq order : ℕ) (splits : List (ℕ × List (List ℕ)))
      : Type 0 where
    pub at_seq : r.win ≡ win_at seq
    pub at_order : r.queue ≡ queue_at order
    pub has_splits : r.splits ≡ splits
    pub open_still : r.closing ≡ false

  -- What the datagrams of the content `b` come to.
  pub record IsReceived (r : Receiver H) (b : List ℕ) (seq order : ℕ)
      (q : Session C H × Result (Unit {0})) : Type 0 where
    pub returned : q.1 ≡ ok tt
    pub in_sync : InSync q.0.receiver seq order []
    pub handed_on : q.0.receiver.packets ≡ r.packets ++ (b ∷ [])
    pub same_handler : q.0.receiver.handler ≡ r.handler

  pub receive_all_one :
      (s : Session C H) (d : List ℕ) (ds : List (List ℕ))
      → (receive control handle settle now s d).1 ≡ ok tt
      → receive_all s (d ∷ ds) ≡ receive_all (receive control handle settle now s d).0 ds
  unfolding receive_all
  receive_all_one s d ds e = rw (receive_all, e) refl

  -- A content in one packet.
  pub receive_whole :
      (s : Session C H) (b : List ℕ) (flags seq order id message : ℕ)
      → InSync s.receiver seq order []
      → Keeps control handle settle now s.receiver.handler
      → IsFlags flags
      → seq + 1 < 2 ^ 24
      → order + 1 < 2 ^ 24
      → message < 2 ^ 24
      → id < 2 ^ 16
      → 0 < length b
      → length b < 2 ^ 13
      → IsIgnored handle now s.receiver.handler b
      → IsReceived s.receiver b
          (seq + 1)
          (order + 1)
          (receive control handle settle now s (wire flags seq (part false 1 order id 0 message b)))
  unfolding received reliable sequenced sequenced_or_ordered
  receive_whole s b flags seq order id message sync keeps f q o m d some_bytes short ignored =
      let pk = part false 1 order id 0 message b in
      let taken =
        take_whole handle now (counted control handle settle now s.receiver seq) (received s.pk pk)
          order refl refl sync.at_order (omega (arith, o)) refl some_bytes sync.open_still
          ignored in
      let t =
        receive-IsTaken control handle settle now s flags seq pk _ f sync.at_seq q keeps
          (part-IsEncodable false 1 order id 0 message b (omega (arith, o)) d m some_bytes short)
          taken in
      record {
        returned = t.returned;
        in_sync = record {
          at_seq = ap (λ (r : Receiver H). r.win) t.receiver_after;
          at_order = ap (λ (r : Receiver H). r.queue) t.receiver_after;
          has_splits = ap (λ (r : Receiver H). r.splits) t.receiver_after ∙ sync.has_splits;
          open_still = ap (λ (r : Receiver H). r.closing) t.receiver_after ∙ sync.open_still;
        };
        handed_on = ap (λ (r : Receiver H). r.packets) t.receiver_after;
        same_handler = ap (λ (r : Receiver H). r.handler) t.receiver_after;
      }

  -- What is known of a split of which the fragments `done` have arrived, and `f` and `more` have not.
  pub record IsComing (s : Session C H) (seq order id message : ℕ) (b : List ℕ)
      (done : List (List ℕ)) (f : List ℕ) (more : List (List ℕ)) : Type 0 where
    pub sync : InSync s.receiver seq order (slots_at id done (suc (length more)))
    pub few : length done + suc (length more) ≤ max_split_count
    pub some_each : AllSome (done ++ (f ∷ more))
    pub short : All (λ g. length g < 2 ^ 13) (f ∷ more)
    pub whole : concat (done ++ (f ∷ more)) ≡ b
    pub ignored : IsIgnored handle now s.receiver.handler b
    pub seq_fits : seq + suc (length more) < 2 ^ 24
    pub order_fits : order + 1 < 2 ^ 24
    pub message_fits : message + suc (length more) < 2 ^ 24
    pub id_fits : id < 2 ^ 16

  AllSome-last :
      (done : List (List ℕ)) (f : List ℕ) (more : List (List ℕ))
      → AllSome (done ++ (f ∷ more))
      → 0 < length f
  AllSome-last [] f more h = h.0
  AllSome-last (x ∷ done) f more h = AllSome-last done f more h.1

  part-IsFragment :
      (old : Packet) (order id message : ℕ) (done : List (List ℕ)) (f : List ℕ) (k : ℕ)
      → length done + suc k ≤ max_split_count
      → IsFragment handle now
          (received old (part true (length done + suc k) order id (length done) message f))
          done
          k
  unfolding received
  part-IsFragment old order id message done f k few = record {
    is_split = refl;
    index = omega (arith, few);
    count = omega (arith, few);
    few = few;
  }

  pub receive_last :
      (s : Session C H) (seq order id message flags : ℕ) (b : List ℕ) (done : List (List ℕ))
      (f : List ℕ)
      → IsComing s seq order id message b done f []
      → Keeps control handle settle now s.receiver.handler
      → IsFlags flags
      → IsReceived s.receiver b (seq + 1) (order + 1) (
          receive control handle settle now s
            (wire flags seq (part true (length done + 1) order id (length done) message f)))
  unfolding received reliable sequenced sequenced_or_ordered
  receive_last s seq order id message flags b done f c keeps g =
      let pk = part true (length done + 1) order id (length done) message f in
      let some_bytes = AllSome-last done f [] c.some_each in
      let ignored : IsIgnored handle now s.receiver.handler (concat (done ++ (f ∷ []))) =
        subst (IsIgnored handle now s.receiver.handler) (sym c.whole) c.ignored in
      let taken =
        take_last handle now (counted control handle settle now s.receiver seq) (received s.pk pk)
          done order (part-IsFragment s.pk order id message done f 0 c.few) c.sync.has_splits
          c.some_each refl c.sync.at_order (omega (arith, c.order_fits)) refl some_bytes
          c.sync.open_still ignored in
      let t =
        receive-IsTaken control handle settle now s flags seq pk _ g c.sync.at_seq
          (omega (arith, c.seq_fits)) keeps
          (part-IsEncodable true (length done + 1) order id (length done) message f
            (omega (arith, c.order_fits)) c.id_fits (omega (arith, c.message_fits)) some_bytes
            c.short.0)
          taken in
      record {
        returned = t.returned;
        in_sync = record {
          at_seq = ap (λ (r : Receiver H). r.win) t.receiver_after;
          at_order = ap (λ (r : Receiver H). r.queue) t.receiver_after;
          has_splits = ap (λ (r : Receiver H). r.splits) t.receiver_after;
          open_still = ap (λ (r : Receiver H). r.closing) t.receiver_after ∙ c.sync.open_still;
        };
        handed_on =
            ap (λ (r : Receiver H). r.packets) t.receiver_after
            ∙ ap (λ x. s.receiver.packets ++ (x ∷ [])) c.whole;
        same_handler = ap (λ (r : Receiver H). r.handler) t.receiver_after;
      }

  -- A fragment that others follow.
  pub record IsStored (s : Session C H) (seq order id message : ℕ) (b : List ℕ)
      (done : List (List ℕ)) (f g : List ℕ) (more : List (List ℕ))
      (q : Session C H × Result (Unit {0})) : Type 0 where
    pub returned : q.1 ≡ ok tt
    pub coming : IsComing q.0 (seq + 1) order id (next24 message) b (done ++ (f ∷ [])) g more
    pub same_packets : q.0.receiver.packets ≡ s.receiver.packets
    pub same_handler : q.0.receiver.handler ≡ s.receiver.handler

  pub receive_fragment :
      (s : Session C H) (seq order id message flags : ℕ) (b : List ℕ) (done : List (List ℕ))
      (f g : List ℕ) (more : List (List ℕ))
      → IsComing s seq order id message b done f (g ∷ more)
      → Keeps control handle settle now s.receiver.handler
      → IsFlags flags
      → IsStored s seq order id message b done f g more (
          receive control handle settle now s (
            wire flags seq
              (part true (length done + suc (suc (length more))) order id (length done) message f)))
  unfolding received reliable sequenced sequenced_or_ordered
  receive_fragment s seq order id message flags b done f g more c keeps fl =
      let pk = part true (length done + suc (suc (length more))) order id (length done) message f in
      let some_bytes = AllSome-last done f (g ∷ more) c.some_each in
      let taken =
        take_fragment handle now (counted control handle settle now s.receiver seq)
          (received s.pk pk) done (length more)
          (part-IsFragment s.pk order id message done f (suc (length more)) c.few)
          c.sync.has_splits in
      let t =
        receive-IsTaken control handle settle now s flags seq pk _ fl c.sync.at_seq
          (omega (arith, c.seq_fits)) keeps
          (part-IsEncodable true (length done + suc (suc (length more))) order id (length done)
            message f (omega (arith, c.order_fits)) c.id_fits (omega (arith, c.message_fits))
            some_bytes c.short.0)
          taken in
      let shift = append_assoc done (f ∷ []) (g ∷ more) in
      let same_handler = ap (λ (r : Receiver H). r.handler) t.receiver_after in
      let n = length-append done (f ∷ []) in
      record {
        returned = t.returned;
        coming = record {
          sync = record {
            at_seq = ap (λ (r : Receiver H). r.win) t.receiver_after;
            at_order = ap (λ (r : Receiver H). r.queue) t.receiver_after ∙ c.sync.at_order;
            has_splits = ap (λ (r : Receiver H). r.splits) t.receiver_after;
            open_still = ap (λ (r : Receiver H). r.closing) t.receiver_after ∙ c.sync.open_still;
          };
          few = omega (arith, n, c.few);
          some_each = subst AllSome (sym shift) c.some_each;
          short = c.short.1;
          whole = ap concat shift ∙ c.whole;
          ignored = subst (λ h. IsIgnored handle now h b) (sym same_handler) c.ignored;
          seq_fits = omega (arith, c.seq_fits);
          order_fits = c.order_fits;
          message_fits = omega (arith, c.message_fits);
          id_fits = c.id_fits;
        };
        same_packets = ap (λ (r : Receiver H). r.packets) t.receiver_after;
        same_handler = same_handler;
      }
