-- ===== src/Conn/Acked.antt =====
-- conn.go: what becomes of a write whose acknowledgement is awaited.
use go_raknet.Prelude.{
  ℕ, ◌+◌, ◌-◌, ◌%◌, ◌^◌, ◌<◌, ◌≤◌, ◌≡◌, ◌≢◌, refl, ap, ◌∙◌, List, [], ◌∷◌, true, false, ltb, ◌==◌,
  if◌then◌else◌, arith, length, Option-cases, some, inl, inr, Result, ok, err, panic, split_if,
}
use go_raknet.Prelude.Dict.{lookup, insert, delete, lookup-insert, lookup-delete}
use go_raknet.Binary.{next24}
use go_raknet.Packet.{Packet, reliability_reliable_ordered}
use go_raknet.Packet.Split.{split_content-IsSplit}
use go_raknet.Acknowledge as Acknowledge
use go_raknet.ResendMap as ResendMap
use go_raknet.Conn.{Conn, PacketAck, effective_mtu, min_mtu_size, max_mtu_size}
use go_raknet.Congestion.Controller.{Controller}
use go_raknet.Conn.Sending.{
  send_datagram, write_to, spend, queue_or_send, flush_loop, flush_send_queue, write_loop,
  fragment_packet, write_with_ack,
}
use go_raknet.Conn.Resending.{
  return_packet, count_down, settle, settle_all, ack_loop, after_acks, handle_ack,
}

module _ {C : Type 0} (control : Controller C) where
  -- The ACKs of other moments, one after the other, whatever their bytes are.
  unfoldable pub handle_acks : List (ℕ × List ℕ) → Conn C → Conn C
  handle_acks [] c = c
  handle_acks ((now, b) ∷ acks) c = handle_acks acks (handle_ack control now c b).0

  send-acknowledgements :
      (now : ℕ) (c : Conn C) (pks : List Packet)
      → (send_datagram control now c pks).0.acknowledgements ≡ c.acknowledgements
  unfolding send_datagram write_to
  send-acknowledgements now c pks = ground arith

  flush_loop-acknowledgements :
      (now : ℕ) (pks : List Packet) (c : Conn C)
      → (flush_loop control now pks c).acknowledgements ≡ c.acknowledgements
  unfolding flush_loop spend
  flush_loop-acknowledgements now [] c = refl
  flush_loop-acknowledgements now (pk ∷ pks) c =
      let waiting = record c { pending = pks } in
      let q = send_datagram control now waiting (pk ∷ []) in
      split_if {A = Conn C} (λ d. d.acknowledgements ≡ c.acknowledgements) (ltb 0 c.send_budget)
        (λ e.
          go q.0 q.1 (send-acknowledgements now waiting (pk ∷ []))
            (λ n c'. flush_loop-acknowledgements now pks (spend control n c')))
        (λ e. refl)
    where
      go :
          (c' : Conn C) (r : Result ℕ)
          → c'.acknowledgements ≡ c.acknowledgements
          → ((n : ℕ) (c1 : Conn C)
              → (flush_loop control now pks (spend control n c1)).acknowledgements
                ≡ c1.acknowledgements)
          → (elim r as (λ _. Conn C) [
            | ok n ↦ flush_loop control now pks (spend control n c')
            | err e ↦ record c' { pending = pk ∷ pks }
            | panic ↦ c'
          ]).acknowledgements
            ≡ c.acknowledgements
      go c' (ok n) h ih = ih n c' ∙ h
      go c' (err e) h ih = h
      go c' panic h ih = h

  -- At the key `k`, from one connection to another.
  Same : ℕ → Conn C → Conn C → Type 0
  Same k c d = lookup k d.acknowledgements ≡ lookup k c.acknowledgements

  count_down-lookup : (k : ℕ) (a : PacketAck) (c : Conn C) → k ≢ 0 → Same k c (count_down 0 a c)
  unfolding count_down Same
  count_down-lookup k a c h =
      let less : PacketAck = record a { remaining = (a.remaining + 2 ^ 32 - 1) % 2 ^ 32 } in
      let deleted = lookup-delete 0 k c.acknowledgements in
      let inserted = lookup-insert 0 k less c.acknowledgements in
      split_if (Same k c) ((a.remaining + 2 ^ 32 - 1) % 2 ^ 32 == 0)
        (λ e. ground (arith, h, deleted)) (λ e. ground (arith, h, inserted))

  settle-lookup : (k : ℕ) (p : Packet) (c : Conn C) → k ≢ 0 → Same k c (settle p c)
  unfolding settle return_packet Same
  settle-lookup k p c h = elim (Option-cases (lookup 0 c.acknowledgements)) [
    | inl e ↦ ground (arith, e)
    | inr (a, e) ↦ ground (arith, e, count_down-lookup k a c h)
  ]

  settle_all-lookup : (k : ℕ) (ps : List Packet) (c : Conn C) → k ≢ 0 → Same k c (settle_all ps c)
  unfolding settle_all Same
  settle_all-lookup k [] c h = refl
  settle_all-lookup k (p ∷ ps) c h = settle_all-lookup k ps (settle p c) h ∙ settle-lookup k p c h

  ack_loop-lookup :
      (k now : ℕ) (seqs : List ℕ) (c : Conn C) (n : ℕ) → k ≢ 0 → Same k c (ack_loop now seqs c n).0
  unfolding ack_loop Same
  ack_loop-lookup k now [] c n h = refl
  ack_loop-lookup k now (seq ∷ seqs) c n h =
      let (m, r) = ResendMap.acknowledge now c.retransmission seq in
      let c' = record c { nack_set = delete seq c.nack_set; retransmission = m } in
      elim (Option-cases r) [
        | inl e ↦ rw (ack_loop, e) (ack_loop-lookup k now seqs c' n h)
        | inr (ps, e) ↦
            rw (ack_loop, e)
              (ack_loop-lookup k now seqs (settle_all ps c') (n + effective_mtu c) h
                ∙ settle_all-lookup k ps c' h)
      ]

  after_acks-acknowledgements :
      (now : ℕ) (packets : List ℕ) (c : Conn C) (bytes : ℕ)
      → (after_acks control now packets c bytes).acknowledgements ≡ c.acknowledgements
  unfolding after_acks flush_send_queue
  after_acks-acknowledgements now packets c bytes =
      split_if {A = Conn C} (λ d. d.acknowledgements ≡ c.acknowledgements) (ltb 0 bytes)
        (λ e. flush_loop-acknowledgements now _ _) (λ e. refl)

  handle_ack-lookup :
      (k now : ℕ) (c : Conn C) (b : List ℕ) → k ≢ 0 → Same k c (handle_ack control now c b).0
  unfolding handle_ack Same
  handle_ack-lookup k now c b h = go (Acknowledge.read b) refl
    where
      go : (r : Result (List ℕ)) → Acknowledge.read b ≡ r → Same k c (handle_ack control now c b).0
      go (err x) e = rw (handle_ack, e) refl
      go panic e = rw (handle_ack, e) refl
      go (ok packets) e =
          rw (handle_ack, e)
            (ap (lookup k) (after_acks-acknowledgements now packets _ _)
              ∙ ack_loop-lookup k now packets c 0 h)

  handle_acks-lookup :
      (k : ℕ) (acks : List (ℕ × List ℕ)) (c : Conn C) → k ≢ 0 → Same k c (handle_acks acks c)
  unfolding handle_acks Same
  handle_acks-lookup k [] c h = refl
  handle_acks-lookup k ((now, b) ∷ acks) c h =
      handle_acks-lookup k acks (handle_ack control now c b).0 h ∙ handle_ack-lookup k now c b h

  queue_or_send-acknowledgements :
      (now : ℕ) (c : Conn C) (pk : Packet)
      → (queue_or_send control now c pk).0.acknowledgements ≡ c.acknowledgements
  unfolding queue_or_send spend
  queue_or_send-acknowledgements now c pk =
      let q = send_datagram control now c (pk ∷ []) in
      split_if {A = Conn C × Result (Unit {0})} (λ d. d.0.acknowledgements ≡ c.acknowledgements)
        (ltb 0 c.send_budget) (λ e. ground (arith, send-acknowledgements now c (pk ∷ [])))
        (λ e. refl)

  write_loop-acknowledgements :
      (now order count id i : ℕ) (contents : List (List ℕ)) (c : Conn C) (n : ℕ)
      → (write_loop control now order count id i contents c n).0.acknowledgements
        ≡ c.acknowledgements
  unfolding write_loop
  write_loop-acknowledgements now order count id i [] c n = refl
  write_loop-acknowledgements now order count id i (content ∷ contents) c n =
      let pk =
        fragment_packet control reliability_reliable_ordered true false order 0 (ltb 1 count) count
          id i c.message_index content in
      let c1 = record c { message_index = next24 c.message_index } in
      let q = queue_or_send control now c1 pk in
      go q.0 q.1 (queue_or_send-acknowledgements now c1 pk) (λ c'.
        write_loop-acknowledgements now order count id (i + 1) contents c' (n + length content))
    where
      go :
          (c' : Conn C) (r : Result (Unit {0}))
          → c'.acknowledgements ≡ c.acknowledgements
          → ((c1 : Conn C)
              → (write_loop control now order count id
                  (i + 1)
                  contents
                  c1
                  (n + length content)).0.acknowledgements
                ≡ c1.acknowledgements)
          → (elim r as (λ _. Conn C × Result ℕ) [
            | ok _ ↦ write_loop control now order count id (i + 1) contents c' (n + length content)
            | err e ↦ (c', err e)
            | panic ↦ (c', panic)
          ]).0.acknowledgements
            ≡ c.acknowledgements
      go c' (ok _) h ih = ih c' ∙ h
      go c' (err e) h ih = h
      go c' panic h ih = h

  -- A write with a callback whose order index is not 0 waits for its acknowledgement for ever: whatever
  -- ACKs arrive afterwards, those of all its datagrams included, it stays registered, since
  -- the packets are cleared before their order index is looked up.
  pub write_with_ack_unanswered :
      (now : ℕ) (c : Conn C) (b : List ℕ) (id : ℕ) (acks : List (ℕ × List ℕ))
      → c.on_ack ≡ true
      → c.order_index ≢ 0
      → min_mtu_size ≤ c.mtu
      → c.mtu ≤ max_mtu_size
      → 0 < length b
      → (a : PacketAck) × (a.internal_id ≡ id)
        × (lookup c.order_index
              (handle_acks acks (write_with_ack control now c b id).0).acknowledgements
            ≡ some a)
  unfolding write_with_ack effective_mtu Same
  write_with_ack_unanswered now c b id acks on other lo hi some_bytes =
      let (fs, split, s) =
        split_content-IsSplit b ((c.mtu + 2 ^ 16 - 28) % 2 ^ 16) (omega arith) (omega arith)
          some_bytes in
      let a : PacketAck = record { remaining = length fs % 2 ^ 32; internal_id = id } in
      let k = c.order_index in
      let c1 = registered (length fs) a in
      let sent = write_loop-acknowledgements now k (length fs) (c.split_id % 2 ^ 16) 0 fs c1 0 in
      (
        a,
        refl,
        rw (write_with_ack, split)
            (handle_acks-lookup k acks _ other
              ∙ (ap (lookup k) sent ∙ ground (arith, on, lookup-insert k k a c.acknowledgements))),
      )
    where
      registered : ℕ → PacketAck → Conn C
      registered count a = record c {
        order_index = next24 c.order_index;
        split_id = if ltb 1 count then (c.split_id + 1) % 2 ^ 32 else c.split_id;
        acknowledgements =
            if c.on_ack then insert c.order_index a c.acknowledgements else c.acknowledgements;
      }
