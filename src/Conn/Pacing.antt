-- ===== src/Conn/Pacing.antt =====
-- conn.go: what a negative acknowledgement can bring about.
use go_raknet.Prelude.{
  ℕ, ◌-◌, ◌<◌, ◌≤◌, ◌≡◌, refl, sym, ap, subst, append-nil, append_assoc, ◌∙◌, List, [], ◌∷◌, ◌++◌,
  true, leb, ◌==◌, arith, inl, inr, ok, err, panic, length, All, length-append, Bool-cases, Result,
}
use go_raknet.Prelude.Dict.{has, insert}
use go_raknet.Acknowledge as Acknowledge
use go_raknet.Conn.{Conn, max_nack_queue_size}
use go_raknet.Congestion.Controller.{Controller}
use go_raknet.Conn.Sending.{is_some}
use go_raknet.Conn.Resending.{enqueue_resends, valid_packets, refill, nack_packets, handle_nack}
use go_raknet.Metrics.{mark_out_lost}
use go_raknet.ResendMap.{ResendRecord}

-- The queue of datagrams to send again, from before a call to after it.
pub record IsQueued {C : Type 0} (P : ℕ → Type 0) (c c' : Conn C) : Type 0 where
  pub added : List ℕ
  pub appended : c'.nack_queue ≡ c.nack_queue ++ added
  pub allowed : All P added
  pub bounded :
      length c.nack_queue ≤ max_nack_queue_size → length c'.nack_queue ≤ max_nack_queue_size
  pub silent : c'.out ≡ c.out

module _ {C : Type 0} where
  unchanged :
      (P : ℕ → Type 0) (c c' : Conn C)
      → c'.nack_queue ≡ c.nack_queue
      → c'.out ≡ c.out
      → IsQueued P c c'
  unchanged P c c' q o = record {
    added = [];
    appended = q ∙ sym (append-nil c.nack_queue);
    allowed = tt;
    bounded = λ h. omega (arith, ap length q);
    silent = o;
  }

  enqueue_resends-IsQueued :
      (P : ℕ → Type 0) (numbers : List ℕ) (c : Conn C)
      → All P numbers
      → IsQueued P c (enqueue_resends numbers c).0
  unfolding enqueue_resends
  enqueue_resends-IsQueued P [] c h = unchanged P c c refl refl
  enqueue_resends-IsQueued P (seq ∷ numbers) c h = elim (Bool-cases (has seq c.nack_set)) [
    | inl e ↦ rw (e, enqueue_resends) (enqueue_resends-IsQueued P numbers c h.1)
    | inr e ↦ elim (Bool-cases (leb max_nack_queue_size (length c.nack_queue))) [
      | inl full ↦ rw (e, full, enqueue_resends) (unchanged P c c refl refl)
      | inr room ↦
          let c1 = record c {
            nack_set = insert seq tt c.nack_set;
            nack_queue = c.nack_queue ++ (seq ∷ []);
          } in
          rw (e, room, enqueue_resends)
            (longer seq c c1 _ h.0 refl refl (ground arith)
              (enqueue_resends-IsQueued P numbers c1 h.1))
    ]
  ]
    where
      longer :
          (seq : ℕ) (c c1 c' : Conn C)
          → P seq
          → c1.nack_queue ≡ c.nack_queue ++ (seq ∷ [])
          → c1.out ≡ c.out
          → length c.nack_queue < max_nack_queue_size
          → IsQueued P c1 c'
          → IsQueued P c c'
      longer seq c c1 c' p q o room i = record {
        added = seq ∷ i.added;
        appended =
            i.appended ∙ (ap (λ x. x ++ i.added) q ∙ append_assoc c.nack_queue (seq ∷ []) i.added);
        allowed = (p, i.allowed);
        bounded = λ b.
            i.bounded (omega (arith, ap length q, length-append c.nack_queue (seq ∷ []), room));
        silent = i.silent ∙ o;
      }

-- A datagram that is in flight.
abbrev pub InFlight : List (ℕ × ResendRecord) → ℕ → Type 0
InFlight unacknowledged seq = has seq unacknowledged ≡ true

valid_packets-InFlight :
    (u : List (ℕ × ResendRecord)) (seqs : List ℕ) → All (InFlight u) (valid_packets u seqs)
unfolding valid_packets
valid_packets-InFlight u [] = tt
valid_packets-InFlight u (seq ∷ seqs) = elim (Bool-cases (has seq u)) [
  | inl e ↦ rw (e) (e, valid_packets-InFlight u seqs)
  | inr e ↦ rw (e) (valid_packets-InFlight u seqs)
]

module _ {C : Type 0} (control : Controller C) (now : ℕ) where
  nack_packets-IsQueued :
      (c : Conn C) (r : Result (List ℕ))
      → IsQueued (InFlight c.retransmission.unacknowledged) c (nack_packets control now c r).0
  unfolding nack_packets
  nack_packets-IsQueued c (err e) = unchanged _ c c refl refl
  nack_packets-IsQueued c panic = unchanged _ c c refl refl
  nack_packets-IsQueued c (ok packets) =
      let valid = valid_packets c.retransmission.unacknowledged packets in
      let c' = record c {
        nack_budget = c.nack_budget - length valid;
        metrics = mark_out_lost now c.metrics valid;
        cc = control.on_nak c.cc;
      } in
      let i =
        enqueue_resends-IsQueued (InFlight c.retransmission.unacknowledged) valid c'
          (valid_packets-InFlight c.retransmission.unacknowledged packets) in
      elim (Bool-cases (is_some valid)) [
        | inl e ↦ rw (e) (record {
          added = i.added;
          appended = i.appended;
          allowed = i.allowed;
          bounded = i.bounded;
          silent = i.silent;
        })
        | inr e ↦ rw (e) (unchanged _ c c refl refl)
      ]

  -- Whatever bytes a NACK holds, nothing is sent while it is handled: numbers of datagrams in flight
  -- are queued behind those that are, and a queue of at most 256 numbers stays one.
  pub handle_nack-IsQueued :
      (c : Conn C) (b : List ℕ)
      → IsQueued (InFlight c.retransmission.unacknowledged) c (handle_nack control now c b).0
  unfolding handle_nack refill
  handle_nack-IsQueued c b = elim (Bool-cases ((refill now c).nack_budget == 0)) [
    | inl spent ↦ rw (spent) (unchanged _ c (refill now c) (refill-queue c) (refill-out c))
    | inr some_left ↦
        let i = nack_packets-IsQueued (refill now c) (Acknowledge.read b) in
        rw (some_left) (record {
          added = i.added;
          appended = i.appended ∙ ap (λ q. q ++ i.added) (refill-queue c);
          allowed = subst (λ m. All (InFlight m) i.added) (refill-map c) i.allowed;
          bounded = λ h. i.bounded (omega (arith, ap length (refill-queue c)));
          silent = i.silent ∙ refill-out c;
        })
  ]
    where
      refill-queue : (c : Conn C) → (refill now c).nack_queue ≡ c.nack_queue
      refill-queue c = ground arith

      refill-out : (c : Conn C) → (refill now c).out ≡ c.out
      refill-out c = ground arith

      refill-map :
          (c : Conn C)
          → (refill now c).retransmission.unacknowledged ≡ c.retransmission.unacknowledged
      refill-map c = ground arith
