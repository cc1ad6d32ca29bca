-- ===== src/Conn/Writing.antt =====
-- conn.go: `write` takes the whole content.
use go_raknet.Prelude.{
  ℕ, ◌+◌, ◌-◌, ◌%◌, ◌^◌, ◌<◌, ◌≤◌, ◌≡◌, refl, ap, ◌∙◌, List, [], ◌∷◌, true, false, ltb,
  if◌then◌else◌, arith, length, concat, length-append, Bool-cases, inl, inr, Result, ok,
}
use go_raknet.Binary.{next24}
use go_raknet.Conn.Flush.{send_open}
use go_raknet.Packet.{Packet, reliability_reliable_ordered}
use go_raknet.Packet.Split.{split_content-IsSplit}
use go_raknet.Conn.{Conn, effective_mtu, min_mtu_size, max_mtu_size}
use go_raknet.Congestion.Controller.{Controller}
use go_raknet.Conn.Sending.{
  send_datagram, write_to, spend, queue_or_send, write_loop, write_bytes, fragment_packet,
}

-- A step on an open connection that gives `a` and keeps it open, and keeps its counters but for the
-- sequence number of datagrams.
record IsDone {C A : Type 0} (c : Conn C) (a : A) (q : Conn C × Result A) : Type 0 where
  returned : q.1 ≡ ok a
  open_after : q.0.socket_closed ≡ false
  same_order : q.0.order_index ≡ c.order_index

module _ {C : Type 0} (control : Controller C) (now : ℕ) where
  send-socket_closed :
      (c : Conn C) (pks : List Packet)
      → (send_datagram control now c pks).0.socket_closed ≡ c.socket_closed
  unfolding send_datagram write_to
  send-socket_closed c pks = ground arith

  send-order_index :
      (c : Conn C) (pks : List Packet)
      → (send_datagram control now c pks).0.order_index ≡ c.order_index
  unfolding send_datagram write_to
  send-order_index c pks = ground arith

  queue_or_send-IsDone :
      (c : Conn C) (pk : Packet)
      → c.socket_closed ≡ false
      → IsDone c tt (queue_or_send control now c pk)
  unfolding queue_or_send spend
  queue_or_send-IsDone c pk o = elim (Bool-cases (ltb 0 c.send_budget)) [
    | inl e ↦
        rw (e, send_open control now c (pk ∷ []) o)
          (record {
            returned = refl;
            open_after = send-socket_closed c (pk ∷ []) ∙ o;
            same_order = send-order_index c (pk ∷ []);
          })
    | inr e ↦ rw (e) (record { returned = refl; open_after = o; same_order = refl })
  ]

  write_loop-IsDone :
      (order count id i : ℕ) (contents : List (List ℕ)) (c : Conn C) (n : ℕ)
      → c.socket_closed ≡ false
      → IsDone c
          (n + length (concat contents))
          (write_loop control now order count id i contents c n)
  unfolding write_loop
  write_loop-IsDone order count id i [] c n o = record {
    returned = ap ok (omega arith);
    open_after = o;
    same_order = refl;
  }
  write_loop-IsDone order count id i (content ∷ contents) c n o =
      let pk =
        fragment_packet control reliability_reliable_ordered true false order 0 (ltb 1 count) count
          id i c.message_index content in
      let c1 = record c { message_index = next24 c.message_index } in
      let q = queue_or_send-IsDone c1 pk o in
      let rest =
        write_loop-IsDone order count id (i + 1) contents (queue_or_send control now c1 pk).0
          (n + length content) q.open_after in
      rw (write_loop, q.returned)
        (record {
          returned = rest.returned ∙ ap ok (omega (arith, length-append content (concat contents)));
          open_after = rest.open_after;
          same_order = rest.same_order ∙ q.same_order;
        })

  -- On an open socket and with an MTU between 576 and 1200, a write of a content that is not empty
  -- succeeds, whatever the budget: it returns the length of the content, takes one order index, and
  -- leaves the socket open.
  pub write_bytes_total :
      (c : Conn C) (b : List ℕ)
      → c.socket_closed ≡ false
      → min_mtu_size ≤ c.mtu
      → c.mtu ≤ max_mtu_size
      → 0 < length b
      → let q = write_bytes control now c b in
        (q.1 ≡ ok (length b))
        × (q.0.order_index ≡ next24 c.order_index)
        × (q.0.socket_closed ≡ false)
  unfolding write_bytes effective_mtu
  write_bytes_total c b o lo hi some_bytes =
      let (fs, split, s) =
        split_content-IsSplit b ((c.mtu + 2 ^ 16 - 28) % 2 ^ 16) (omega arith) (omega arith)
          some_bytes in
      let d =
        write_loop-IsDone c.order_index (length fs) (c.split_id % 2 ^ 16) 0 fs
          (started c (length fs)) 0 o in
      rw (write_bytes, split)
        (d.returned ∙ ap ok (omega (arith, ap length s.whole)), d.same_order, d.open_after)
    where
      started : Conn C → ℕ → Conn C
      started c count = record c {
        order_index = next24 c.order_index;
        split_id = if ltb 1 count then (c.split_id + 1) % 2 ^ 32 else c.split_id;
      }
