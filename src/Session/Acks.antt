-- ===== src/Session/Acks.antt =====
-- conn.go: what the other end learns from the ACKs of a connection.
use go_raknet.Prelude.{
  ℕ, ◌+◌, ◌≤◌, ◌≡◌, refl, ap, Bool, Option, Result, List, [], ◌∷◌, ◌++◌, true, false, arith, length,
  append-nil, All, ok, some,
}
use go_raknet.Packet.{bit_flag_ack}
use go_raknet.Acknowledge.{sort, max_acknowledgement_packets}
use go_raknet.Binary.{Is24}
use go_raknet.Acknowledge.Send.{send_acknowledgement, send_acknowledgement_total, read_all}
use go_raknet.Conn.{effective_mtu, min_mtu_size, max_mtu_size}
use go_raknet.Congestion.Controller.{Controller}
use go_raknet.Conn.Sending.{is_some}
use go_raknet.Session.{Session, send_numbers, flush_acks}

module _ {C H : Type 0} (control : Controller C) where
  -- On an open socket, with an MTU between 576 and 1200 and at most 8192 datagrams to acknowledge: no
  -- acknowledgement waits after a flush, and what the other end reads from the datagrams that it wrote
  -- is exactly the numbers that waited, in ascending order.
  pub flush_acks_total :
      (s : Session C H)
      → s.conn.socket_closed ≡ false
      → min_mtu_size ≤ s.conn.mtu
      → s.conn.mtu ≤ max_mtu_size
      → All Is24 s.receiver.acks
      → length s.receiver.acks ≤ max_acknowledgement_packets
      → let s' = flush_acks control s in
        (s'.receiver.acks ≡ [])
        × ((ds : List (List ℕ)) × (s'.conn.out ≡ s.conn.out ++ ds)
            × (read_all ds ≡ ok (sort s.receiver.acks)))
  unfolding flush_acks send_numbers effective_mtu read_all sort
  flush_acks_total s o lo hi small few = go s.receiver.acks refl
    where
      acks_on : Bool → List (List ℕ) × Option (Result (Unit {0}))
      acks_on shut =
          send_acknowledgement (length s.receiver.acks + 1) (λ _. shut) 0 s.receiver.acks
            bit_flag_ack (effective_mtu s.conn)

      told :
          ((acks_on s.conn.socket_closed).1 ≡ some (ok tt))
          × (read_all (acks_on s.conn.socket_closed).0 ≡ ok (sort s.receiver.acks))
      told = rw (o) (
          let (sent, reads, sizes) =
            send_acknowledgement_total s.receiver.acks 0 bit_flag_ack (effective_mtu s.conn)
              (length s.receiver.acks + 1) small few (omega arith) (omega arith) (omega arith) in
          (sent, reads))

      go :
          (acks : List ℕ)
          → s.receiver.acks ≡ acks
          → ((flush_acks control s).receiver.acks ≡ [])
            × ((ds : List (List ℕ)) × ((flush_acks control s).conn.out ≡ s.conn.out ++ ds)
                × (read_all ds ≡ ok (sort s.receiver.acks)))
      go [] e = (ground (arith, e), ([], ground (arith, e, append-nil s.conn.out), rw (e) refl))
      go (a ∷ rest) e =
          let some_acks : is_some s.receiver.acks ≡ true = ap is_some e in
          let (sent, reads) = told in
          (
            rw (flush_acks, send_numbers, some_acks, sent) refl,
            (
              (acks_on s.conn.socket_closed).0,
              rw (flush_acks, send_numbers, some_acks, sent) refl,
              reads,
            ),
          )
