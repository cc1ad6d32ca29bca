-- ===== src/Conn/Unreliable.antt =====
-- conn.go: unreliable packets leave no trace but their datagrams.
use go_raknet.Prelude.{
  ℕ, ◌+◌, ◌≡◌, refl, ◌∙◌, List, [], ◌∷◌, Bool, true, false, ltb, arith, length, Bool-cases, inl,
  inr, Result, ok, err, panic, ◌&&◌,
}
use go_raknet.Packet.{Packet, split_content}
use go_raknet.Conn.{Conn, effective_mtu}
use go_raknet.Congestion.Controller.{Controller}
use go_raknet.Conn.Sending.{
  send_unreliable_datagram, write_to, fragment_packet, is_unreliable, send_as, count_message,
  write_loop_as, write_with_reliability,
}

-- Nothing is kept of what was sent.
pub record IsForgotten {C : Type 0} (c c' : Conn C) : Type 0 where
  pub in_flight : c'.retransmission ≡ c.retransmission
  pub waiting : c'.pending ≡ c.pending
  pub queued : c'.nack_queue ≡ c.nack_queue
  pub budget : c'.send_budget ≡ c.send_budget

module _ {C : Type 0} (control : Controller C) (now : ℕ) where
  trans-IsForgotten : (c c1 c2 : Conn C) → IsForgotten c c1 → IsForgotten c1 c2 → IsForgotten c c2
  trans-IsForgotten c c1 c2 f g = record {
    in_flight = g.in_flight ∙ f.in_flight;
    waiting = g.waiting ∙ f.waiting;
    queued = g.queued ∙ f.queued;
    budget = g.budget ∙ f.budget;
  }

  send_unreliable-IsForgotten :
      (c : Conn C) (pks : List Packet) → IsForgotten c (send_unreliable_datagram control c pks).0
  unfolding send_unreliable_datagram write_to
  send_unreliable-IsForgotten c pks = record {
    in_flight = ground arith;
    waiting = ground arith;
    queued = ground arith;
    budget = ground arith;
  }

  send_as-IsForgotten :
      (reliability : ℕ) (c : Conn C) (pk : Packet)
      → is_unreliable control reliability ≡ true
      → IsForgotten c (send_as control now reliability c pk).0
  unfolding send_as
  send_as-IsForgotten reliability c pk u = rw (send_as, u) (send_unreliable-IsForgotten c (pk ∷ []))

  count_message-IsForgotten :
      (reliability : ℕ) (c : Conn C) → IsForgotten c (count_message control reliability c).0
  unfolding count_message
  count_message-IsForgotten reliability c = record {
    in_flight = ground arith;
    waiting = ground arith;
    queued = ground arith;
    budget = ground arith;
  }

  write_loop_as-IsForgotten :
      (reliability : ℕ) (o s : Bool) (order sequence count id i : ℕ) (contents : List (List ℕ))
      (c : Conn C) (n : ℕ)
      → is_unreliable control reliability ≡ true
      → IsForgotten c
          (write_loop_as control now reliability o s order sequence count id i contents c n).0
  unfolding write_loop_as
  write_loop_as-IsForgotten reliability o s order sequence count id i [] c n u = record {
    in_flight = refl;
    waiting = refl;
    queued = refl;
    budget = refl;
  }
  write_loop_as-IsForgotten reliability o s order sequence count id i (content ∷ contents) c n u =
      let (c1, message) = count_message control reliability c in
      let pk =
        fragment_packet control reliability o s order sequence (ltb 1 count) count id i message
          content in
      let q = send_as control now reliability c1 pk in
      let f =
        trans-IsForgotten c c1 q.0 (count_message-IsForgotten reliability c)
          (send_as-IsForgotten reliability c1 pk u) in
      let rest =
        write_loop_as control now reliability o s order sequence count id (i + 1) contents q.0
          (n + length content) in
      after q.1 q.0 rest f (
        trans-IsForgotten c q.0 rest.0 f (
          write_loop_as-IsForgotten reliability o s order sequence count id (i + 1) contents q.0
            (n + length content) u))
    where
      after :
          (r : Result (Unit {0})) (c1 : Conn C) (c2 : Conn C × Result ℕ)
          → IsForgotten c c1
          → IsForgotten c c2.0
          → IsForgotten c
              (elim r as (λ x. Conn C × Result ℕ) [
                | ok x ↦ c2
                | err e ↦ (c1, err e)
                | panic ↦ (c1, panic)
              ]).0
      after (ok x) c1 c2 f g = g
      after (err e) c1 c2 f g = f
      after panic c1 c2 f g = f

  -- An unreliable write, sequenced or not, changes neither the datagrams that await an acknowledgement
  -- nor the packets that wait to be sent, the queue of those to send again or the budget, whether it
  -- succeeds or not.
  pub write_unreliable-IsForgotten :
      (c : Conn C) (b : List ℕ) (reliability : ℕ)
      → is_unreliable control reliability ≡ true
      → IsForgotten c (write_with_reliability control now c b reliability).0
  unfolding write_with_reliability
  write_unreliable-IsForgotten c b reliability u =
      elim (Bool-cases (is_unreliable control reliability && ltb (effective_mtu c) (length b))) [
        | inl long ↦ rw (write_with_reliability, long) same
        | inr short ↦ go (split_content b (effective_mtu c)) refl short
      ]
    where
      same : IsForgotten c c
      same = record { in_flight = refl; waiting = refl; queued = refl; budget = refl }

      go :
          (r : Result (List (List ℕ)))
          → split_content b (effective_mtu c) ≡ r
          → (is_unreliable control reliability && ltb (effective_mtu c) (length b)) ≡ false
          → IsForgotten c (write_with_reliability control now c b reliability).0
      go (err e) f short = rw (write_with_reliability, short, f) same
      go panic f short = rw (write_with_reliability, short, f) same
      go (ok fragments) f short =
          let w = write_loop_as-IsForgotten reliability _ _ _ _ _ _ 0 fragments _ 0 u in
          rw (write_with_reliability, short, f)
            (record {
              in_flight = w.in_flight;
              waiting = w.waiting;
              queued = w.queued;
              budget = w.budget;
            })
