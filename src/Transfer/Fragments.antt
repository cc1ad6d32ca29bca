-- ===== src/Transfer/Fragments.antt =====
-- conn.go: how an end takes the datagrams of a split content, and of a content at all.
use go_raknet.Prelude.{
  ℕ, suc, ◌+◌, ◌≡◌, refl, ◌∙◌, ap, sym, subst, List, [], ◌∷◌, ◌++◌, Bool, true, arith, length,
  Result, length-append,
}
use go_raknet.Binary.{next24}
use go_raknet.Congestion.Controller.{Controller}
use go_raknet.Session.{Session}
use go_raknet.Session.Receiving.{receive}
use go_raknet.Transfer.Datagrams.{Keeps, wire}
use go_raknet.Transfer.Contents.{
  part, parts, Carries, receive_all, receive_all_one, IsReceived, IsComing, receive_last, IsStored,
  receive_fragment,
}

module _ {C H : Type 0} (control : Controller C) (handle : H → List ℕ → ℕ → H × Result Bool)
    (settle : ℕ → Session C H → Session C H) (now : ℕ) where
  pub IsReceived-last :
      (s : Session C H) (b d : List ℕ) (seq order : ℕ)
      → IsReceived control handle settle now s.receiver b seq order
          (receive control handle settle now s d)
      → IsReceived control handle settle now s.receiver b seq order
          (receive_all control handle settle now s (d ∷ []))
  unfolding receive_all
  IsReceived-last s b d seq order r =
      subst (IsReceived control handle settle now s.receiver b seq order)
        (sym (receive_all_one control handle settle now s d [] r.returned))
        (record {
          returned = refl;
          in_sync = r.in_sync;
          handed_on = r.handed_on;
          same_handler = r.same_handler;
        })

  -- The rest of a split of which `i` fragments of `count` have arrived.
  pub receive_fragments :
      (s : Session C H) (seq order id message count i : ℕ) (b : List ℕ) (done : List (List ℕ))
      (f : List ℕ) (more ds : List (List ℕ))
      → Keeps control handle settle now s.receiver.handler
      → IsComing control handle settle now s seq order id message b done f more
      → count ≡ length done + suc (length more)
      → i ≡ length done
      → Carries seq ds (parts true count order id i message (f ∷ more))
      → IsReceived control handle settle now s.receiver b
          (seq + suc (length more))
          (order + 1)
          (receive_all control handle settle now s ds)
  receive_fragments s seq order id message count i b done f [] [] keeps c ec ei x = elim x [ ]
  receive_fragments s seq order id message count i b done f [] (d ∷ (d' ∷ ds)) keeps c ec ei x =
      elim x.1 [ ]
  receive_fragments s seq order id message count i b done f (g ∷ more) [] keeps c ec ei x =
      elim x [ ]
  receive_fragments s seq order id message count i b done f [] (d ∷ []) keeps c ec ei
        ((flags, fl, e), x) =
      let e' : d ≡ wire flags seq (part true (length done + 1) order id (length done) message f) =
        e
        ∙ ap (λ k. wire flags seq (part true k order id i message f)) ec
        ∙ ap (λ k. wire flags seq (part true (length done + 1) order id k message f)) ei in
      IsReceived-last s b d (seq + 1) (order + 1) (
        subst
          (λ x.
            IsReceived control handle settle now s.receiver b (seq + 1) (order + 1)
              (receive control handle settle now s x))
          (sym e')
          (receive_last control handle settle now s seq order id message flags b done f c keeps fl))
  receive_fragments s seq order id message count i b done f (g ∷ more) (d ∷ ds) keeps c ec ei
        ((flags, fl, e), rest) =
      let n = suc (suc (length more)) in
      let e' : d ≡ wire flags seq (part true (length done + n) order id (length done) message f) =
        e
        ∙ ap (λ k. wire flags seq (part true k order id i message f)) ec
        ∙ ap (λ k. wire flags seq (part true (length done + n) order id k message f)) ei in
      let q = receive control handle settle now s d in
      let st : IsStored control handle settle now s seq order id message b done f g more q =
        subst
          (λ x.
            IsStored control handle settle now s seq order id message b done f g more
              (receive control handle settle now s x))
          (sym e')
          (receive_fragment control handle settle now s seq order id message flags b done f g more c
            keeps fl) in
      let len = length-append done (f ∷ []) in
      let r =
        receive_fragments q.0 (seq + 1) order id (next24 message) count (i + 1) b (done ++ (f ∷ []))
          g more ds (subst (Keeps control handle settle now) (sym st.same_handler) keeps) st.coming
          (omega (arith, len, ec)) (omega (arith, len, ei)) rest in
      subst
        (λ k.
          IsReceived control handle settle now s.receiver b k (order + 1)
            (receive_all control handle settle now s (d ∷ ds)))
        (omega arith)
        (subst
          (IsReceived control handle settle now s.receiver b (seq + 1 + suc (length more))
            (order + 1))
          (sym (receive_all_one control handle settle now s d ds st.returned))
          (record {
            returned = r.returned;
            in_sync = r.in_sync;
            handed_on = r.handed_on ∙ ap (λ ps. ps ++ (b ∷ [])) st.same_packets;
            same_handler = r.same_handler ∙ st.same_handler;
          }))
