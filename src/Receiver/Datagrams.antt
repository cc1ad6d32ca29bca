-- ===== src/Receiver/Datagrams.antt =====
-- conn.go: datagrams and the packets in them. `Session` puts the two halves of
-- `receiveDatagram` together.
use go_raknet.Prelude.{
  ℕ, zero, suc, ◌+◌, ◌/◌, List, [], ◌∷◌, ◌++◌, Bool, true, false, ◌==◌, if◌then◌else◌, length, drop,
  Result, ok, err, panic,
}
use go_raknet.Packet.{Packet, read}
use go_raknet.DatagramWindow as DatagramWindow
use go_raknet.Metrics.{mark_in_lost, inc_in_total}
use go_raknet.Receiver.{Receiver, receive_packet, receive_split_packet}

module _ {H : Type 0} (handle : H → List ℕ → ℕ → H × Result Bool) (now : ℕ) where
  -- The loop over the packets of a datagram. Each takes at least one byte, so as many rounds as there
  -- are bytes are enough. `pk` is the packet that is read into.
  unfoldable pub packets_loop : ℕ → Receiver H → Packet → List ℕ → Receiver H × Result Packet
  packets_loop rounds r pk [] = (r, ok pk)
  packets_loop zero r pk (x ∷ b) = (r, panic)
  packets_loop (suc rounds) r pk (x ∷ b) = elim (read pk (x ∷ b)) [
    | err e ↦ (r, err e)
    | panic ↦ (r, panic)
    | ok (pk', n) ↦
        let (r', s) =
          if pk'.split
          then receive_split_packet handle now r pk'
          else receive_packet handle now r pk' in
        elim s [
          | ok _ ↦ packets_loop rounds r' pk' (drop n (x ∷ b))
          | err e ↦ (r', err e)
          | panic ↦ (r', panic)
        ]
  ]

  unfoldable pub handle_datagram : Receiver H → Packet → List ℕ → ℕ → Receiver H × Result Packet
  handle_datagram r pk b seq =
      let (r', s) = packets_loop (length b) r pk b in
      elim s [
        | ok pk' ↦ (
          record r' { acks = r'.acks ++ (seq ∷ []); metrics = inc_in_total r'.metrics 1 },
          ok pk',
        )
        | err e ↦ (r', err e)
        | panic ↦ (r', panic)
      ]

  -- The part of `receiveDatagram` on the window: whether the datagram is new, and the numbers that a
  -- NACK asks for. `rtt` is the one that the connection holds.
  unfoldable pub track_datagram : ℕ → Receiver H → ℕ → (Receiver H × List ℕ) × Bool
  track_datagram rtt r seq =
      let (win, fresh) = DatagramWindow.add now r.win seq in
      let (shifted, n) = DatagramWindow.shift win in
      let (asked, missing) =
        if n == 0 then DatagramWindow.missing now shifted (rtt + rtt / 2) else (shifted, []) in
      if fresh
      then ((record r { win = asked; metrics = mark_in_lost now r.metrics missing }, missing), true)
      else ((record r { win = win }, []), false)
