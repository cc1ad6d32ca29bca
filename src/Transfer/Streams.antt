-- ===== src/Transfer/Streams.antt =====
-- conn.go: contents that one end writes, one after the other, and that the other end hands to its reader.
use go_raknet.Prelude.{
  ℕ, suc, ◌+◌, ◌%◌, ◌^◌, ◌<◌, ◌≤◌, ◌≡◌, refl, ◌∙◌, ap, sym, subst, List, [], ◌∷◌, ◌++◌, Bool, true,
  false, ltb, arith, length, concat, Result, ok, err, panic, All, All-append, append_assoc,
  append-nil, length-append,
}
use go_raknet.Packet.{Packet}
use go_raknet.Congestion.Controller.{Controller}
use go_raknet.Conn.{Conn}
use go_raknet.Conn.Sending.{write_bytes}
use go_raknet.Receiver.{max_split_count}
use go_raknet.Session.{Session}
use go_raknet.Session.Receiving.{receive}
use go_raknet.Transfer.Datagrams.{Keeps, wire}
use go_raknet.Transfer.Splits.{AllSome, IsIgnored}
use go_raknet.Transfer.Contents.{
  part, parts, Carries, receive_all, receive_all_one, InSync, IsReceived, receive_whole,
}
use go_raknet.Transfer.Fragments.{IsReceived-last, receive_fragments}
use go_raknet.Transfer.Sent.{IsSendable, IsReady, IsCut, write_bytes-IsCut, write_bytes-IsReady}

module _ {C H : Type 0} (control : Controller C) (handle : H → List ℕ → ℕ → H × Result Bool)
    (settle : ℕ → Session C H → Session C H) (now : ℕ) where
  -- The datagrams of the fragments of a content come to the content, whether it was split or not.
  receive_content :
      (s : Session C H) (b : List ℕ) (fs ds : List (List ℕ)) (seq order id message : ℕ)
      → Keeps control handle settle now s.receiver.handler
      → concat fs ≡ b
      → AllSome fs
      → All (λ f. length f < 2 ^ 13) fs
      → length fs ≤ max_split_count
      → 0 < length b
      → InSync control handle settle now s.receiver seq order []
      → IsIgnored handle now s.receiver.handler b
      → seq + length fs < 2 ^ 24
      → order + 1 < 2 ^ 24
      → message + length fs < 2 ^ 24
      → id < 2 ^ 16
      → Carries seq ds (parts (ltb 1 (length fs)) (length fs) order id 0 message fs)
      → IsReceived control handle settle now s.receiver b
          (seq + length fs)
          (order + 1)
          (receive_all control handle settle now s ds)
  receive_content s b [] ds seq order id message keeps whole some_each short few some_bytes sync
        ignored q o m d x =
      absurd (omega (arith, some_bytes, ap length whole))
  receive_content s b (f ∷ []) [] seq order id message keeps whole some_each short few some_bytes
        sync ignored q o m d x =
      elim x [ ]
  receive_content s b (f ∷ []) (e ∷ (e' ∷ ds)) seq order id message keeps whole some_each short few
        some_bytes sync ignored q o m d x =
      elim x.1 [ ]
  receive_content s b (f ∷ []) (e ∷ []) seq order id message keeps whole some_each short few
        some_bytes sync ignored q o m d ((flags, fl, at), x) =
      let is_b : f ≡ b = sym (append-nil f) ∙ whole in
      IsReceived-last control handle settle now s b e (seq + 1) (order + 1) (
        subst
          (λ y.
            IsReceived control handle settle now s.receiver b (seq + 1) (order + 1)
              (receive control handle settle now s y))
          (sym (at ∙ ap (λ y. wire flags seq (part false 1 order id 0 message y)) is_b))
          (receive_whole control handle settle now s b flags seq order id message sync keeps fl q o
            (omega (arith, m)) d some_bytes (omega (arith, short.0, ap length is_b)) ignored))
  receive_content s b (f ∷ (g ∷ more)) ds seq order id message keeps whole some_each short few
        some_bytes sync ignored q o m d x =
      let n = suc (suc (length more)) in
      let several : ltb 1 n ≡ true = ground arith in
      receive_fragments control handle settle now s seq order id message (suc (suc (length more))) 0
        b [] f (g ∷ more) ds keeps
        (record {
          sync = sync;
          few = omega (arith, few);
          some_each = some_each;
          short = short;
          whole = whole;
          ignored = ignored;
          seq_fits = q;
          order_fits = o;
          message_fits = m;
          id_fits = d;
        })
        (omega arith) refl
        (subst (λ k. Carries seq ds (parts k n order id 0 message (f ∷ (g ∷ more)))) several x)

  -- One content: written in one go, and received datagram by datagram.
  write_and_receive :
      (c : Conn C) (s : Session C H) (b : List ℕ) (n bytes : ℕ)
      → Keeps control handle settle now s.receiver.handler
      → IsReady c (suc n) (length b + bytes)
      → IsSendable c.mtu b
      → InSync control handle settle now s.receiver c.seq c.order_index []
      → IsIgnored handle now s.receiver.handler b
      → (cut : IsCut control now c b (write_bytes control now c b))
      → let q = write_bytes control now c b in
        IsReceived control handle settle now s.receiver b q.0.seq q.0.order_index
          (receive_all control handle settle now s cut.written.datagrams)
  write_and_receive c s b n bytes keeps ready sendable sync ignored cut =
      let q = write_bytes control now c b in
      let ds = cut.written.datagrams in
      let sent = cut.written.sent in
      let r =
        receive_content s b cut.pieces ds c.seq c.order_index (c.split_id % 2 ^ 16) c.message_index
          keeps cut.whole cut.some_each cut.short cut.few sendable.some_bytes sync ignored
          (omega (arith, cut.few, ready.seq_fits)) (omega (arith, ready.order_fits))
          (omega (arith, cut.few, ready.message_fits)) (omega arith) cut.written.carries in
      let order : c.order_index + 1 ≡ q.0.order_index =
        omega (arith, sent.same_order, ready.order_fits) in
      subst
        (λ k.
          IsReceived control handle settle now s.receiver b q.0.seq k
            (receive_all control handle settle now s ds))
        order
        (subst
          (λ k.
            IsReceived control handle settle now s.receiver b k (c.order_index + 1)
              (receive_all control handle settle now s ds))
          (sym sent.seq_after) r)

  receive_all-append :
      (s : Session C H) (ds es : List (List ℕ))
      → (receive_all control handle settle now s ds).1 ≡ ok tt
      → receive_all control handle settle now s (ds ++ es)
        ≡ receive_all control handle settle now (receive_all control handle settle now s ds).0 es
  unfolding receive_all
  receive_all-append s [] es h = refl
  receive_all-append s (d ∷ ds) es h =
      let first : (receive control handle settle now s d).1 ≡ ok tt = ground (arith, h) in
      let one = receive_all_one control handle settle now s d ds first in
      receive_all_one control handle settle now s d (ds ++ es) first
      ∙ receive_all-append (receive control handle settle now s d).0 ds es
          (sym (ap (λ q. q.1) one) ∙ h)
      ∙ ap (λ q. receive_all control handle settle now q.0 es) (sym one)

-- Writes of several contents, up to the first that is an error, and the number of bytes written.
unfoldable pub write_each :
    {C : Type 0} → Controller C → ℕ → Conn C → List (List ℕ) → ℕ → Conn C × Result ℕ
write_each control now c [] n = (c, ok n)
write_each control now c (b ∷ bs) n =
    let (c', r) = write_bytes control now c b in
    elim r [
      | ok k ↦ write_each control now c' bs (n + k)
      | err e ↦ (c', err e)
      | panic ↦ (c', panic)
    ]

Carries-AllSome :
    (seq : ℕ) (ds : List (List ℕ)) (pks : List Packet) → Carries seq ds pks → AllSome ds
Carries-AllSome seq [] pks h = tt
Carries-AllSome seq (d ∷ ds) [] h = elim h [ ]
Carries-AllSome seq (d ∷ ds) (pk ∷ pks) ((flags, fl, e), h) =
    (omega (arith, ap length e), Carries-AllSome (seq + 1) ds pks h)

-- Contents that the other end takes, each in 512 fragments at most, and leaves to the reader.
abbrev pub AllSendable : ℕ → List (List ℕ) → Type 0
AllSendable mtu bs = All (IsSendable mtu) bs

module _ {C H : Type 0} (control : Controller C) (handle : H → List ℕ → ℕ → H × Result Bool)
    (settle : ℕ → Session C H → Session C H) (now : ℕ) where
  -- What a stream of writes comes to at the other end.
  pub record Arrives (c : Conn C) (s : Session C H) (bs : List (List ℕ)) (n : ℕ)
      (q : Conn C × Result ℕ) : Type 0 where
    pub returned : q.1 ≡ ok (n + length (concat bs))
    pub datagrams : List (List ℕ)
    pub out_after : q.0.out ≡ c.out ++ datagrams
    pub some_each : AllSome datagrams
    pub taken : (receive_all control handle settle now s datagrams).1 ≡ ok tt
    pub handed_on :
        (receive_all control handle settle now s datagrams).0.receiver.packets
        ≡ s.receiver.packets ++ bs
    pub in_sync :
        InSync control handle settle now
          (receive_all control handle settle now s datagrams).0.receiver
          q.0.seq
          q.0.order_index
          []

  pub write_each-Arrives :
      (c : Conn C) (s : Session C H) (bs : List (List ℕ)) (n : ℕ)
      → Keeps control handle settle now s.receiver.handler
      → IsReady c (length bs) (length (concat bs))
      → AllSendable c.mtu bs
      → InSync control handle settle now s.receiver c.seq c.order_index []
      → All (IsIgnored handle now s.receiver.handler) bs
      → Arrives c s bs n (write_each control now c bs n)
  unfolding write_each receive_all
  write_each-Arrives c s [] n keeps ready sendable sync ignored = record {
    returned = ap ok (omega arith);
    datagrams = [];
    out_after = sym (append-nil c.out);
    some_each = tt;
    taken = refl;
    handed_on = sym (append-nil s.receiver.packets);
    in_sync = sync;
  }
  write_each-Arrives c s (b ∷ bs) n keeps ready sendable sync ignored =
      let len = length-append b (concat bs) in
      let room = subst (IsReady c (suc (length bs))) len ready in
      let cut =
        write_bytes-IsCut control now c b (length bs) (length (concat bs)) room sendable.0 in
      let q = write_bytes control now c b in
      let sent = cut.written.sent in
      let ds = cut.written.datagrams in
      let one =
        write_and_receive control handle settle now c s b (length bs) (length (concat bs)) keeps
          room sendable.0 sync ignored.0 cut in
      let s' = (receive_all control handle settle now s ds).0 in
      let r =
        write_each-Arrives q.0 s' bs (n + length b)
          (subst (Keeps control handle settle now) (sym one.same_handler) keeps)
          (write_bytes-IsReady control now c b (length bs) (length (concat bs)) q room cut)
          (subst (λ m. AllSendable m bs) (sym sent.same_mtu) sendable.1) one.in_sync
          (subst (λ h. All (IsIgnored handle now h) bs) (sym one.same_handler) ignored.1) in
      let e : (write_bytes control now c b).1 ≡ ok (length b) =
        cut.written.returned ∙ ap (λ x. ok (0 + length x)) cut.whole ∙ ap ok (omega arith) in
      let both = receive_all-append control handle settle now s ds r.datagrams one.returned in
      rw (write_each, e)
        (record {
          returned = r.returned ∙ ap ok (omega (arith, len));
          datagrams = ds ++ r.datagrams;
          out_after =
              r.out_after
              ∙ ap (λ x. x ++ r.datagrams) sent.out_after
              ∙ append_assoc c.out ds r.datagrams;
          some_each =
              All-append (λ f. 0 < length f) ds r.datagrams
                (Carries-AllSome c.seq ds _ cut.written.carries) r.some_each;
          taken = ap (λ x. x.1) both ∙ r.taken;
          handed_on =
              ap (λ x. x.0.receiver.packets) both
              ∙ r.handed_on
              ∙ ap (λ x. x ++ bs) one.handed_on
              ∙ append_assoc s.receiver.packets (b ∷ []) bs;
          in_sync =
              subst
                (λ x.
                  InSync control handle settle now x.0.receiver
                    (write_each control now q.0 bs (n + length b)).0.seq
                    (write_each control now q.0 bs (n + length b)).0.order_index [])
                (sym both) r.in_sync;
        })
