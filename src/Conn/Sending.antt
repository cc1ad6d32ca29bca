-- ===== src/Conn/Sending.antt =====
-- conn.go: datagrams, the queue of packets that wait for the budget, and the writes.
use go_raknet.Prelude.{
  ℕ, ◌+◌, ◌-◌, ◌%◌, ◌^◌, List, [], ◌∷◌, ◌++◌, Bool, true, false, ltb, ◌==◌, ◌||◌, ◌&&◌,
  if◌then◌else◌, length, bit_or, Result, ok, err, panic, closed, unreliable_split_not_supported,
  ◌>>=◌,
}
use go_raknet.Binary.{next24, inc, write_uint24}
use go_raknet.Packet.{
  Packet, write, split_content, reliable, bit_flag_datagram, bit_flag_needs_b_and_as,
  bit_flag_continuous_send, reliability_unreliable, reliability_unreliable_sequenced,
  reliability_reliable_ordered, reliability_reliable_sequenced,
}
use go_raknet.ResendMap as ResendMap
use go_raknet.Metrics.{inc_out_total}
use go_raknet.Prelude.Dict.{insert}
use go_raknet.Conn.{Conn, PacketAck, effective_mtu}
use go_raknet.Congestion.Controller.{Controller}

-- A slice that is not empty.
abbrev pub is_some : {A : Type 0} → List A → Bool
is_some [] = false
is_some (x ∷ xs) = true

unfoldable pub datagram_flags : Bool → Bool → ℕ
datagram_flags slow_start continuous =
    let f = bit_flag_datagram in
    let f = if slow_start then bit_or f bit_flag_needs_b_and_as else f in
    if continuous then bit_or f bit_flag_continuous_send else f

unfoldable pub write_all : List Packet → List ℕ → List ℕ
write_all [] buf = buf
write_all (pk ∷ pks) buf = write_all pks (write pk buf)

module _ {C : Type 0} (control : Controller C) where
  -- The bytes of the next datagram with these packets.
  unfoldable pub datagram : Conn C → List Packet → List ℕ
  datagram c packets =
      let flags = datagram_flags (control.is_in_slow_start c.cc) (is_some c.pending) in
      write_all packets (write_uint24 (flags ∷ []) (inc c.seq).0)

  -- `writeTo`: only a closed socket is an error.
  unfoldable pub write_to : Conn C → List ℕ → Conn C × Result (Unit {0})
  write_to c b =
      if c.socket_closed then (c, err closed) else (record c { out = c.out ++ (b ∷ []) }, ok tt)

  unfoldable pub send_datagram : ℕ → Conn C → List Packet → Conn C × Result ℕ
  unfolding datagram write_to
  send_datagram now c packets =
      let b = datagram c packets in
      let c' = record c {
        cc = (control.on_datagram_sent c.cc).0;
        seq = (inc c.seq).1;
        metrics = inc_out_total c.metrics 1;
        retransmission = ResendMap.add now c.retransmission (inc c.seq).0 packets (length b);
      } in
      let (c'', r) = write_to c' b in (c'', r >>= λ _. ok (length b))

  -- Not added to the datagrams that are resent.
  unfoldable pub send_unreliable_datagram : Conn C → List Packet → Conn C × Result (Unit {0})
  send_unreliable_datagram c packets =
      write_to
        (record c {
          cc = (control.on_datagram_sent c.cc).0;
          seq = (inc c.seq).1;
          metrics = inc_out_total c.metrics 1;
        })
        (datagram c packets)

  -- The controller and the budget after a datagram.
  unfoldable pub spend : ℕ → Conn C → Conn C
  spend n c = record c { cc = control.on_send_bytes n c.cc; send_budget = c.send_budget - n }

  unfoldable pub queue_or_send : ℕ → Conn C → Packet → Conn C × Result (Unit {0})
  queue_or_send now c pk =
      if ltb 0 c.send_budget
      then (let (c', r) = send_datagram now c (pk ∷ []) in
          elim r [ ok n ↦ (spend n c', ok tt) | err e ↦ (c', err e) | panic ↦ (c', panic) ])
      else (record c { pending = c.pending ++ (pk ∷ []) }, ok tt)

  -- The loop over the packets that wait.
  unfoldable pub flush_loop : ℕ → List Packet → Conn C → Conn C
  flush_loop now [] c = record c { pending = [] }
  flush_loop now (pk ∷ pks) c =
      if ltb 0 c.send_budget
      then (let (c', r) = send_datagram now (record c { pending = pks }) (pk ∷ []) in
          elim r [
            | ok n ↦ flush_loop now pks (spend n c')
            | err e ↦ record c' { pending = pk ∷ pks }
            | panic ↦ c'
          ])
      else record c { pending = pk ∷ pks }

  unfoldable pub flush_send_queue : ℕ → Conn C → Conn C
  flush_send_queue now c = flush_loop now c.pending c

  -- The packet of one fragment. `several` tells whether the content was split.
  unfoldable pub fragment_packet : ℕ → Bool → Bool → ℕ → ℕ → Bool → ℕ → ℕ → ℕ → ℕ → List ℕ → Packet
  fragment_packet reliability needs_order needs_sequence order sequence several count id i message
        content =
      record {
        reliability = reliability;
        message_index = message;
        sequence_index = if needs_sequence then sequence else 0;
        order_index = if needs_order then order else 0;
        content = content;
        split = several;
        split_count = if several then count % 2 ^ 32 else 0;
        split_index = if several then i % 2 ^ 32 else 0;
        split_id = if several then id else 0;
      }

  -- The loop of `write` over the fragments from the index `i` on; the number of bytes written.
  unfoldable pub write_loop : ℕ → ℕ → ℕ → ℕ → ℕ → List (List ℕ) → Conn C → ℕ → Conn C × Result ℕ
  unfolding fragment_packet
  write_loop now order count id i [] c n = (c, ok n)
  write_loop now order count id i (content ∷ contents) c n =
      let pk =
        fragment_packet reliability_reliable_ordered true false order 0 (ltb 1 count) count id i
          c.message_index content in
      let (c', r) = queue_or_send now (record c { message_index = next24 c.message_index }) pk in
      elim r [
        | ok _ ↦ write_loop now order count id (i + 1) contents c' (n + length content)
        | err e ↦ (c', err e)
        | panic ↦ (c', panic)
      ]

  unfoldable pub write_bytes : ℕ → Conn C → List ℕ → Conn C × Result ℕ
  write_bytes now c b = elim (split_content b (effective_mtu c)) [
    | ok fragments ↦
        let count = length fragments in
        let c' = record c {
          order_index = next24 c.order_index;
          split_id = if ltb 1 count then (c.split_id + 1) % 2 ^ 32 else c.split_id;
        } in
        write_loop now c.order_index count (c.split_id % 2 ^ 16) 0 fragments c' 0
    | err e ↦ (c, err e)
    | panic ↦ (c, panic)
  ]

  -- `writeWithACK`: the write is registered under its order index when there is a callback.
  unfoldable pub write_with_ack : ℕ → Conn C → List ℕ → ℕ → Conn C × Result ℕ
  write_with_ack now c b id = elim (split_content b (effective_mtu c)) [
    | ok fragments ↦
        let count = length fragments in
        let awaited : PacketAck = record { remaining = count % 2 ^ 32; internal_id = id } in
        let c' = record c {
          order_index = next24 c.order_index;
          split_id = if ltb 1 count then (c.split_id + 1) % 2 ^ 32 else c.split_id;
          acknowledgements =
              if c.on_ack
              then insert c.order_index awaited c.acknowledgements
              else c.acknowledgements;
        } in
        write_loop now c.order_index count (c.split_id % 2 ^ 16) 0 fragments c' 0
    | err e ↦ (c, err e)
    | panic ↦ (c, panic)
  ]

  unfoldable pub is_unreliable : ℕ → Bool
  is_unreliable r = r == reliability_unreliable || r == reliability_unreliable_sequenced

  unfoldable pub send_as : ℕ → ℕ → Conn C → Packet → Conn C × Result (Unit {0})
  send_as now reliability c pk =
      if is_unreliable reliability
      then send_unreliable_datagram c (pk ∷ [])
      else queue_or_send now c pk

  -- The message index of a packet, and the connection after it was taken.
  unfoldable pub count_message : ℕ → Conn C → Conn C × ℕ
  count_message reliability c =
      if reliable reliability
      then (record c { message_index = next24 c.message_index }, c.message_index)
      else (c, 0)

  unfoldable pub write_loop_as :
      ℕ → ℕ → Bool → Bool → ℕ → ℕ → ℕ → ℕ → ℕ → List (List ℕ) → Conn C → ℕ → Conn C × Result ℕ
  write_loop_as now reliability needs_order needs_sequence order sequence count id i [] c n =
      (c, ok n)
  write_loop_as now reliability needs_order needs_sequence order sequence count id i
        (content ∷ contents) c n =
      let (counted, message) = count_message reliability c in
      let pk =
        fragment_packet reliability needs_order needs_sequence order sequence (ltb 1 count) count id
          i message content in
      let (c', r) = send_as now reliability counted pk in
      elim r [
        | ok _ ↦
            write_loop_as now reliability needs_order needs_sequence order sequence count id (i + 1)
              contents c' (n + length content)
        | err e ↦ (c', err e)
        | panic ↦ (c', panic)
      ]

  unfoldable pub write_with_reliability : ℕ → Conn C → List ℕ → ℕ → Conn C × Result ℕ
  write_with_reliability now c b reliability =
      let needs_order =
        reliability == reliability_unreliable_sequenced
        || reliability == reliability_reliable_ordered
        || reliability == reliability_reliable_sequenced in
      let needs_sequence =
        reliability == reliability_unreliable_sequenced
        || reliability == reliability_reliable_sequenced in
      if is_unreliable reliability && ltb (effective_mtu c) (length b)
      then (c, err unreliable_split_not_supported)
      else elim (split_content b (effective_mtu c)) [
        | ok fragments ↦
            let count = length fragments in
            let c' = record c {
              split_id = if ltb 1 count then (c.split_id + 1) % 2 ^ 32 else c.split_id;
              order_index = if needs_order then next24 c.order_index else c.order_index;
              sequence_index = if needs_sequence then next24 c.sequence_index else c.sequence_index;
            } in
            write_loop_as now reliability needs_order needs_sequence
              (if needs_order then c.order_index else 0)
              (if needs_sequence then c.sequence_index else 0) count (c.split_id % 2 ^ 16) 0
              fragments c' 0
        | err e ↦ (c, err e)
        | panic ↦ (c, panic)
      ]
