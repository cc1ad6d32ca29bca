-- ===== src/Session/Receiving.antt =====
-- conn.go and dial.go: what a connection does with the bytes that arrive, and what a reader gets.
use go_raknet.Prelude.{
  ℕ, ◌/◌, List, [], ◌∷◌, ◌++◌, Bool, not, ltb, ◌==◌, ◌&&◌, true, false, if◌then◌else◌, length, drop,
  Option, none, some, Result, ok, err, panic, closed, unexpected_eof, window_too_big,
  buffer_too_small, bit_and,
}
use go_raknet.Binary.{load_uint24}
use go_raknet.Packet.{bit_flag_ack, bit_flag_nack, bit_flag_datagram}
use go_raknet.DatagramWindow as DatagramWindow
use go_raknet.ResendMap.{millisecond}
use go_raknet.Congestion.Controller.{Controller}
use go_raknet.Conn.Resending.{handle_ack, handle_nack}
use go_raknet.Receiver.{max_window_size}
use go_raknet.Receiver.Datagrams.{track_datagram, handle_datagram}
use go_raknet.Session.{Session, send_numbers, close_immediately}

abbrev pub conn_incoming_datagram_buffer : ℕ
conn_incoming_datagram_buffer = 256

-- `settle` is what the calls of the handler do to the rest of the connection: `carry_out` of Endpoint for
-- the handlers of handler.go.
module _ {C H : Type 0} (control : Controller C) (handle : H → List ℕ → ℕ → H × Result Bool)
    (settle : ℕ → Session C H → Session C H) where
  -- The packets of a new datagram; it is acknowledged only when all of them were handled.
  unfoldable pub take_packets : ℕ → Session C H → List ℕ → ℕ → Session C H × Result (Unit {0})
  take_packets now s b seq =
      let (r, result) = handle_datagram handle now s.receiver s.pk b seq in
      let s' = settle now (record s { receiver = r }) in
      elim result [
        | ok pk ↦ (
          record s' {
            pk = pk;
            conn = record s'.conn { cc = control.on_queue_ack (now / millisecond) s'.conn.cc };
          },
          ok tt,
        )
        | err e ↦ (s', err e)
        | panic ↦ (s', panic)
      ]

  -- A datagram that is new, once the window has taken it and `missing` is known.
  unfoldable pub ask_and_take :
      ℕ → Session C H → List ℕ → List ℕ → ℕ → Session C H × Result (Unit {0})
  ask_and_take now s missing b seq =
      let (c, sent) = send_numbers bit_flag_nack s.conn missing in
      let asked = record s { conn = c } in
      elim sent [
        | none ↦ (asked, panic)
        | some (err e) ↦ (asked, err e)
        | some panic ↦ (asked, panic)
        | some (ok _) ↦
            if ltb max_window_size (DatagramWindow.size s.receiver.win) && s.receiver.limits
            then (asked, err window_too_big)
            else take_packets now asked b seq
      ]

  unfoldable pub receive_datagram : ℕ → Session C H → List ℕ → Session C H × Result (Unit {0})
  receive_datagram now s b = elim (load_uint24 b) [
    | err e ↦ (s, err e)
    | panic ↦ if ltb (length b) 3 then (s, err unexpected_eof) else (s, panic)
    | ok seq ↦
        let ((r, missing), fresh) = track_datagram handle now s.conn.rtt s.receiver seq in
        let s' = record s { receiver = r } in
        if fresh then ask_and_take now s' missing (drop 3 b) seq else (s', ok tt)
  ]

  -- `b[0]` panics where there is nothing; the callers only pass datagrams that are not empty.
  unfoldable pub receive : ℕ → Session C H → List ℕ → Session C H × Result (Unit {0})
  receive now s [] = (record s { last_activity = now / millisecond }, panic)
  receive now s (flags ∷ b) =
      let s' = record s { last_activity = now / millisecond } in
      let (c, acked) = handle_ack control now s.conn b in
      let (c', nacked) = handle_nack control now s.conn b in
      if not (bit_and flags bit_flag_ack == 0)
      then (record s' { conn = c }, acked)
      else if not (bit_and flags bit_flag_nack == 0)
      then (record s' { conn = c' }, nacked)
      else if not (bit_and flags bit_flag_datagram == 0)
      then receive_datagram now s' b
      else (s', ok tt)

  -- A datagram that the listener queues: one that finds the buffer full is dropped.
  unfoldable pub queue_incoming_datagram : Session C H → List (List ℕ) → List ℕ → List (List ℕ)
  queue_incoming_datagram s incoming payload =
      if s.done
      then incoming
      else if ltb (length incoming) conn_incoming_datagram_buffer
      then incoming ++ (payload ∷ [])
      else incoming

  -- One round of `runIncomingDatagramLoop`: an error closes the connection, and is passed on unless it
  -- says that something is closed.
  unfoldable pub take_incoming : ℕ → Session C H → List ℕ → Session C H × Result (Unit {0})
  take_incoming now s payload =
      let (s', r) = receive now s payload in
      elim r [
        | ok _ ↦ (s', ok tt)
        | err e ↦ (close_immediately control now s', elim e [ closed ↦ ok tt | other ↦ err other ])
        | panic ↦ (s', panic)
      ]

  -- One read of `clientListen`, at the time `now`, and whether the loop goes on; what goes wrong is only
  -- logged, unless it says that something is closed.
  unfoldable pub client_read : ℕ → Session C H → Result (List ℕ) → Session C H × Result Bool
  client_read now s (ok []) = (s, ok true)
  client_read now s (ok (x ∷ b)) =
      let (s', r) = receive now s (x ∷ b) in
      elim r [
        | ok _ ↦ (s', ok true)
        | err e ↦ (s', (elim e [ closed ↦ ok false | other ↦ ok true ]))
        | panic ↦ (s', panic)
      ]
  client_read now s (err e) = (s, (elim e [ closed ↦ ok false | other ↦ ok true ]))
  client_read now s panic = (s, panic)

  -- `clientListen` over what the socket reads, each with its time: false if the loop has ended.
  unfoldable pub client_listen :
      Session C H → List (ℕ × Result (List ℕ)) → Session C H × Result Bool
  client_listen s [] = (s, ok true)
  client_listen s ((now, read) ∷ reads) =
      let (s', r) = client_read now s read in
      let rest = client_listen s' reads in
      elim r [
        | ok more ↦ if more then rest else (s', ok false)
        | err e ↦ (s', err e)
        | panic ↦ (s', panic)
      ]

-- `ReadPacket` and `Read` when a packet is there or the connection is done; `none` is a call that waits.
-- With both there the run time of Go chooses, and the packet is taken here.
module _ {C H : Type 0} where
  unfoldable pub read_packet : Session C H → Option (Session C H × Result (List ℕ))
  read_packet s = elim s.receiver.packets [
    | [] ↦ if s.done then some (s, err closed) else none
    | b ∷ bs ↦ some (record s { receiver = record s.receiver { packets = bs } }, ok b)
  ]

  -- The packet is gone even where the buffer is too small for it.
  unfoldable pub read_into : ℕ → Session C H → Option (Session C H × Result (List ℕ))
  read_into size s = elim (read_packet s) [
    | none ↦ none
    | some (s', ok b) ↦ some (s', (if ltb size (length b) then err buffer_too_small else ok b))
    | some (s', err e) ↦ some (s', err e)
    | some (s', panic) ↦ some (s', panic)
  ]
