-- ===== src/Transfer/Datagrams.antt =====
-- conn.go: how an end takes a datagram that holds one packet.
use go_raknet.Prelude.{
  ℕ, ◌+◌, ◌/◌, ◌^◌, ◌<◌, ◌≡◌, ◌≢◌, refl, ◌∙◌, ap, List, [], ◌∷◌, ◌++◌, Bool, true, false, ltb, ◌==◌,
  arith, length, drop, if◌then◌else◌, some, Result, ok, bit_and, append-nil,
}
use go_raknet.Binary.{uint24_bytes, load_uint24, load_uint24-write}
use go_raknet.Packet.{Packet, read, write, bit_flag_ack, bit_flag_nack, bit_flag_datagram}
use go_raknet.Packet.Codec.{IsEncodable, received, read-write, length-write}
use go_raknet.Metrics.{inc_in_total, mark_in_lost}
use go_raknet.DatagramWindow as DatagramWindow
use go_raknet.Congestion.Controller.{Controller}
use go_raknet.Acknowledge.Send.{send_acknowledgement}
use go_raknet.Receiver.{max_window_size, Receiver, receive_packet, receive_split_packet}
use go_raknet.Receiver.Datagrams.{packets_loop, handle_datagram, track_datagram}
use go_raknet.ResendMap.{millisecond}
use go_raknet.Session.{Session, send_numbers}
use go_raknet.Session.Receiving.{take_packets, ask_and_take, receive_datagram, receive}
use go_raknet.Transfer.Windows.{win_at, add-win_at, shift-win_at}

module _ {H : Type 0} (handle : H → List ℕ → ℕ → H × Result Bool) (now : ℕ) where
  -- What is done with a packet of a datagram.
  unfoldable pub take_packet : Receiver H → Packet → Receiver H × Result (Unit {0})
  take_packet r pk =
      if pk.split then receive_split_packet handle now r pk else receive_packet handle now r pk

  drop_all : (b : List ℕ) → drop (length b) b ≡ []
  drop_all [] = refl
  drop_all (x ∷ b) = drop_all b

  one_packet :
      (r r' : Receiver H) (old pk : Packet) (b : List ℕ)
      → 0 < length b
      → read old b ≡ ok (pk, length b)
      → take_packet r pk ≡ (r', ok tt)
      → packets_loop handle now (length b) r old b ≡ (r', ok pk)
  unfolding packets_loop take_packet
  one_packet r r' old pk [] some_bytes e taken = absurd (omega (arith, some_bytes))
  one_packet r r' old pk (x ∷ b) some_bytes e taken = ground (arith, e, taken, drop_all (x ∷ b))

  handle_one :
      (r r' : Receiver H) (old pk : Packet) (seq : ℕ)
      → IsEncodable pk
      → take_packet r (received old pk) ≡ (r', ok tt)
      → handle_datagram handle now r old (write pk []) seq ≡ (
        record r' { acks = r'.acks ++ (seq ∷ []); metrics = inc_in_total r'.metrics 1 },
        ok (received old pk),
      )
  unfolding handle_datagram
  handle_one r r' old pk seq h taken =
      let reads : read old (write pk []) ≡ ok (received old pk, length (write pk [])) =
        rw (append-nil (write pk [])) at (read-write old pk [] h) in
      let some_bytes : 0 < length (write pk []) = omega (arith, length-write pk []) in
      ground (arith, one_packet r r' old (received old pk) (write pk []) some_bytes reads taken)

-- The bytes of a datagram with one packet, and what its flags are.
abbrev pub wire : ℕ → ℕ → Packet → List ℕ
wire flags seq pk = flags ∷ (uint24_bytes seq ++ write pk [])

pub record IsFlags (flags : ℕ) : Type 0 where
  pub no_ack : bit_and flags bit_flag_ack ≡ 0
  pub no_nack : bit_and flags bit_flag_nack ≡ 0
  pub is_datagram : bit_and flags bit_flag_datagram ≢ 0

module _ {C H : Type 0} (control : Controller C) (handle : H → List ℕ → ℕ → H × Result Bool)
    (settle : ℕ → Session C H → Session C H) (now : ℕ) where
  -- The receiving half once the number of a datagram was counted.
  abbrev pub counted : Receiver H → ℕ → Receiver H
  counted r seq = record r { win = win_at (seq + 1); metrics = mark_in_lost now r.metrics [] }

  track_next :
      (rtt : ℕ) (r : Receiver H) (seq : ℕ)
      → r.win ≡ win_at seq
      → seq + 1 < 2 ^ 32
      → track_datagram handle now rtt r seq ≡ ((counted r seq, []), true)
  unfolding track_datagram
  track_next rtt r seq e small = rw (e, add-win_at now seq small, shift-win_at now seq small) refl

  -- What the calls of a handler in the state `h` do elsewhere leaves the receiving half as it was.
  abbrev pub Keeps : H → Type 0
  Keeps h = (t : Session C H) → t.receiver.handler ≡ h → (settle now t).receiver ≡ t.receiver

  -- What taking a datagram leaves.
  pub record IsTaken (receiver : Receiver H) (pk : Packet) (q : Session C H × Result (Unit {0}))
      : Type 0 where
    pub returned : q.1 ≡ ok tt
    pub receiver_after : q.0.receiver ≡ receiver

  take_packets-IsTaken :
      (s : Session C H) (b : List ℕ) (seq : ℕ) (r : Receiver H) (pk : Packet)
      → Keeps r.handler
      → handle_datagram handle now s.receiver s.pk b seq ≡ (r, ok pk)
      → IsTaken r pk (take_packets control handle settle now s b seq)
  unfolding take_packets
  take_packets-IsTaken s b seq r pk keeps e =
      rw (take_packets, e)
        (record {
          returned = refl;
          receiver_after =
              keeps (record s { receiver = (handle_datagram handle now s.receiver s.pk b seq).0 })
                (ap (λ q. q.0.handler) e)
              ∙ ap (λ q. q.0) e;
        })

  send_nothing : (s : Session C H) → (send_numbers bit_flag_nack s.conn []).1 ≡ some (ok tt)
  unfolding send_numbers send_acknowledgement
  send_nothing s = refl

  size-win_at : (k : ℕ) → ltb max_window_size (DatagramWindow.size (win_at k)) ≡ false
  unfolding DatagramWindow.size
  size-win_at k = ground arith

  ask_and_take-IsTaken :
      (s : Session C H) (b : List ℕ) (seq k : ℕ) (r : Receiver H) (pk : Packet)
      → s.receiver.win ≡ win_at k
      → Keeps r.handler
      → handle_datagram handle now s.receiver s.pk b seq ≡ (r, ok pk)
      → IsTaken r pk (ask_and_take control handle settle now s [] b seq)
  unfolding ask_and_take
  ask_and_take-IsTaken s b seq k r pk at_k keeps e =
      let small : ltb max_window_size (DatagramWindow.size s.receiver.win) ≡ false =
        rw (at_k) (size-win_at k) in
      let asked = record s { conn = (send_numbers bit_flag_nack s.conn []).0 } in
      rw (ask_and_take, send_nothing s, small) (take_packets-IsTaken asked b seq r pk keeps e)

  receive_datagram-IsTaken :
      (s : Session C H) (seq : ℕ) (pk : Packet) (r' : Receiver H)
      → s.receiver.win ≡ win_at seq
      → seq + 1 < 2 ^ 24
      → Keeps r'.handler
      → IsEncodable pk
      → take_packet handle now (counted s.receiver seq) (received s.pk pk) ≡ (r', ok tt)
      → IsTaken
          (record r' { acks = r'.acks ++ (seq ∷ []); metrics = inc_in_total r'.metrics 1 })
          (received s.pk pk)
          (receive_datagram control handle settle now s (uint24_bytes seq ++ write pk []))
  unfolding receive_datagram
  receive_datagram-IsTaken s seq pk r' at_seq small keeps h taken =
      let loads : load_uint24 (uint24_bytes seq ++ write pk []) ≡ ok seq =
        load_uint24-write seq (write pk []) ∙ ap ok (omega arith) in
      let next = track_next s.conn.rtt s.receiver seq at_seq (omega arith) in
      rw (receive_datagram, loads, next)
        (ask_and_take-IsTaken (record s { receiver = counted s.receiver seq }) (write pk []) seq
          (seq + 1) _ _ refl keeps
          (handle_one handle now (counted s.receiver seq) r' s.pk pk seq h taken))

  -- An end that has received all datagrams up to `seq` takes the datagram `seq` with one packet as
  -- `take_packet` takes the packet.
  pub receive-IsTaken :
      (s : Session C H) (flags seq : ℕ) (pk : Packet) (r' : Receiver H)
      → IsFlags flags
      → s.receiver.win ≡ win_at seq
      → seq + 1 < 2 ^ 24
      → Keeps r'.handler
      → IsEncodable pk
      → take_packet handle now (counted s.receiver seq) (received s.pk pk) ≡ (r', ok tt)
      → IsTaken
          (record r' { acks = r'.acks ++ (seq ∷ []); metrics = inc_in_total r'.metrics 1 })
          (received s.pk pk)
          (receive control handle settle now s (wire flags seq pk))
  unfolding receive
  receive-IsTaken s flags seq pk r' f at_seq small keeps h taken =
      let t1 : (bit_and flags bit_flag_ack == 0) ≡ true = ground (arith, f.no_ack) in
      let t2 : (bit_and flags bit_flag_nack == 0) ≡ true = ground (arith, f.no_nack) in
      let t3 : (bit_and flags bit_flag_datagram == 0) ≡ false = ground (arith, f.is_datagram) in
      rw (receive, t1, t2, t3)
        (receive_datagram-IsTaken (record s { last_activity = now / millisecond }) seq pk r' at_seq
          small keeps h taken)
