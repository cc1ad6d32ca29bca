-- ===== src/Conn/Resending.antt =====
-- conn.go: acknowledgements from the other end, and the paced queue of datagrams to send again. The
-- budget for NACKs is an int that can fall below 0; it is 0 here then, since the code only asks if it
-- is above 0.
use go_raknet.Prelude.{
  ℕ, ◌+◌, ◌-◌, ◌%◌, ◌^◌, List, [], ◌∷◌, ◌++◌, true, false, max, ltb, leb, ◌==◌, if◌then◌else◌,
  length, none, some, Result, ok, err, panic,
}
use go_raknet.Prelude.Dict.{lookup, insert, delete, has}
use go_raknet.Packet.{Packet}
use go_raknet.Acknowledge as Acknowledge
use go_raknet.ResendMap as ResendMap
use go_raknet.ResendMap.{ResendRecord, second}
use go_raknet.Metrics.{mark_out_lost}
use go_raknet.Conn.{Conn, PacketAck, effective_mtu, max_nack_queue_size, nack_budget_per_second}
use go_raknet.Congestion.Controller.{Controller}
use go_raknet.Conn.Sending.{send_datagram, flush_send_queue, is_some}

unfoldable pub highest_of : List ℕ → ℕ
highest_of [] = 0
highest_of (seq ∷ seqs) = max seq (highest_of seqs)

-- The numbers of datagrams that are in flight.
unfoldable pub valid_packets : List (ℕ × ResendRecord) → List ℕ → List ℕ
valid_packets unacknowledged [] = []
valid_packets unacknowledged (seq ∷ seqs) =
    let rest = valid_packets unacknowledged seqs in
    if has seq unacknowledged then seq ∷ rest else rest

-- The datagrams that wait longer than the timeout, in the order of the map.
unfoldable pub overdue : ℕ → ℕ → List (ℕ × ResendRecord) → List ℕ
overdue now rto [] = []
overdue now rto ((seq, r) ∷ records) =
    let rest = overdue now rto records in if ltb rto (now - r.timestamp) then seq ∷ rest else rest

unfoldable pub return_packet : Packet → Packet
return_packet pk = record pk {
  message_index = 0;
  sequence_index = 0;
  order_index = 0;
  split = false;
  split_count = 0;
  split_id = 0;
  split_index = 0;
  content = [];
}

module _ {C : Type 0} where
  -- The connection after the loop, and how many numbers it took.
  unfoldable pub enqueue_resends : List ℕ → Conn C → Conn C × ℕ
  enqueue_resends [] c = (c, 0)
  enqueue_resends (seq ∷ numbers) c = elim (has seq c.nack_set) [
    | true ↦ enqueue_resends numbers c
    | false ↦ elim (leb max_nack_queue_size (length c.nack_queue)) [
      | true ↦ (c, 0)
      | false ↦
          let (c', n) = enqueue_resends numbers (record c {
            nack_set = insert seq tt c.nack_set;
            nack_queue = c.nack_queue ++ (seq ∷ []);
          }) in
          (c', n + 1)
    ]
  ]

  -- One packet less to wait for; the callback is called with the last.
  unfoldable pub count_down : ℕ → PacketAck → Conn C → Conn C
  count_down key a c =
      let remaining = (a.remaining + 2 ^ 32 - 1) % 2 ^ 32 in
      if remaining == 0
      then record c {
        acked = c.acked ++ (a.internal_id ∷ []);
        acknowledgements = delete key c.acknowledgements;
      }
      else record c {
        acknowledgements = insert key (record a { remaining = remaining }) c.acknowledgements;
      }

  -- A packet that was acknowledged: `returnPacket` clears it, then its order index is looked up.
  unfoldable pub settle : Packet → Conn C → Conn C
  settle p c =
      let key = (return_packet p).order_index in
      if c.on_ack
      then elim (lookup key c.acknowledgements) [ none ↦ c | some a ↦ count_down key a c ]
      else c

  unfoldable pub settle_all : List Packet → Conn C → Conn C
  settle_all [] c = c
  settle_all (p ∷ ps) c = settle_all ps (settle p c)

  -- The loop of `handleACK`: the connection and the bytes newly acknowledged.
  unfoldable pub ack_loop : ℕ → List ℕ → Conn C → ℕ → Conn C × ℕ
  ack_loop now [] c bytes = (c, bytes)
  ack_loop now (seq ∷ seqs) c bytes =
      let (m, r) = ResendMap.acknowledge now c.retransmission seq in
      let c' = record c { nack_set = delete seq c.nack_set; retransmission = m } in
      elim r [
        | none ↦ ack_loop now seqs c' bytes
        | some packets ↦ ack_loop now seqs (settle_all packets c') (bytes + effective_mtu c)
      ]

  -- The budget for this second.
  unfoldable pub refill : ℕ → Conn C → Conn C
  refill now c =
      if leb second (now - c.nack_window_start)
      then record c { nack_window_start = now; nack_budget = nack_budget_per_second }
      else c

module _ {C : Type 0} (control : Controller C) where
  -- The loop over the numbers that are queued.
  unfoldable pub flush_resend_loop : ℕ → List ℕ → Conn C → Conn C
  flush_resend_loop now [] c = record c { nack_queue = [] }
  flush_resend_loop now (seq ∷ seqs) c = elim (ltb 0 c.resend_budget) [
    | false ↦ record c { nack_queue = seq ∷ seqs }
    | true ↦ elim (has seq c.nack_set) [
      | false ↦ flush_resend_loop now seqs c
      | true ↦
          let (m, r) = ResendMap.retransmit now c.retransmission seq in
          let c' = record c {
            nack_queue = seqs;
            nack_set = delete seq c.nack_set;
            retransmission = m;
          } in
          elim r [
            | none ↦ flush_resend_loop now seqs c'
            | some packets ↦
                let (c'', s) = send_datagram control now c' packets in
                elim s [
                  | ok n ↦ flush_resend_loop now seqs (record c'' {
                    cc = control.on_send_bytes n c''.cc;
                    resend_budget = c''.resend_budget - n;
                  })
                  | err e ↦ record c'' {
                    nack_queue = seq ∷ seqs;
                    nack_set = insert seq tt c''.nack_set;
                  }
                  | panic ↦ c''
                ]
          ]
    ]
  ]

  unfoldable pub flush_resend_queue : ℕ → Conn C → Conn C
  flush_resend_queue now c = flush_resend_loop now c.nack_queue c

  -- Behind the loop: the controller is told of the new bytes, and packets that wait are sent.
  unfoldable pub after_acks : ℕ → List ℕ → Conn C → ℕ → Conn C
  after_acks now packets c bytes =
      let total = (c.total_acked_bytes + bytes) % 2 ^ 64 in
      let told = record c {
        total_acked_bytes = total;
        cc =
            control.on_ack (ResendMap.rtt c.retransmission) (is_some c.pending) total
              (highest_of packets) c.cc;
      } in
      if ltb 0 bytes then flush_send_queue control now told else c

  unfoldable pub handle_ack : ℕ → Conn C → List ℕ → Conn C × Result (Unit {0})
  handle_ack now c b = elim (Acknowledge.read b) [
    | err e ↦ (c, err e)
    | panic ↦ (c, panic)
    | ok packets ↦
        let (c', bytes) = ack_loop now packets c 0 in (after_acks now packets c' bytes, ok tt)
  ]

  -- What is done with the numbers read.
  unfoldable pub nack_packets : ℕ → Conn C → Result (List ℕ) → Conn C × Result (Unit {0})
  nack_packets now c (err e) = (c, err e)
  nack_packets now c panic = (c, panic)
  nack_packets now c (ok packets) =
      let valid = valid_packets c.retransmission.unacknowledged packets in
      let c' = record c {
        nack_budget = c.nack_budget - length valid;
        metrics = mark_out_lost now c.metrics valid;
        cc = control.on_nak c.cc;
      } in
      (if is_some valid then (enqueue_resends valid c').0 else c, ok tt)

  unfoldable pub handle_nack : ℕ → Conn C → List ℕ → Conn C × Result (Unit {0})
  handle_nack now c0 b =
      let c = refill now c0 in
      if c.nack_budget == 0 then (c, ok tt) else nack_packets now c (Acknowledge.read b)

  unfoldable pub check_resend : ℕ → Conn C → Conn C
  check_resend now c0 =
      let c = record c0 { rtt = ResendMap.rtt c0.retransmission } in
      let resend =
        overdue now (ResendMap.timeout c.retransmission) c.retransmission.unacknowledged in
      let c' =
        if is_some resend
        then record c { cc = control.on_resend c.cc; metrics = mark_out_lost now c.metrics resend }
        else c in
      (enqueue_resends resend c').0
