-- ===== src/Handler/Handshake.antt =====
-- handler.go: the packets of RakNet itself inside a connection, on both ends. `Receiver` takes one of
-- the two functions `handle` as its parameter. What is sent is kept with its reliability. Closing
-- sends the notification once and marks the connection; that the listener closes from a goroutine of
-- its own makes no difference here.
use go_raknet.Prelude.{
  ℕ, ◌+◌, ◌-◌, ◌%◌, ◌^◌, List, [], ◌∷◌, ◌++◌, Bool, true, false, ◌==◌, if◌then◌else◌, replicate,
  Result, ok, err, panic, repeated_request, no_connection_request, additional_nic,
}
use go_raknet.Packet.{reliability_unreliable, reliability_reliable_ordered}
use go_raknet.Message.{
  id_connected_ping, id_connected_pong, id_connection_request, id_connection_request_accepted,
  id_new_incoming_connection, id_disconnect_notification, id_detect_lost_connections,
}
use go_raknet.Message.Addr.{AddrPort, v4}
use go_raknet.Message.SystemAddresses.{system_address_count}
use go_raknet.Message.ConnectedPing
use go_raknet.Message.ConnectedPong
use go_raknet.Message.ConnectionRequest
use go_raknet.Message.ConnectionRequestAccepted
use go_raknet.Message.NewIncomingConnection

pub record Handshake : Type 0 where
  pub peer : AddrPort
  pub local_port : ℕ
  pub received_connection_request : Bool
  pub connected : Bool
  pub closed : Bool
  pub raw_latency : ℕ
  pub sent : List (List ℕ × ℕ)

unfoldable pub new_handshake : AddrPort → ℕ → Handshake
new_handshake peer local_port = record {
  peer = peer;
  local_port = local_port;
  received_connection_request = false;
  connected = false;
  closed = false;
  raw_latency = 0;
  sent = [];
}

unfoldable pub send : Handshake → List ℕ → ℕ → Handshake
send h b reliability = record h { sent = h.sent ++ ((b, reliability) ∷ []) }

unfoldable pub close_immediately : Handshake → Handshake
close_immediately h =
    if h.closed
    then h
    else record (send h (id_disconnect_notification ∷ []) reliability_reliable_ordered) {
      closed = true;
    }

abbrev pub no_address : AddrPort
no_address = v4 0 0 0 0 0

unfoldable pub handle_connection_request : Handshake → List ℕ → Handshake × Result Bool
handle_connection_request h b =
    if h.received_connection_request
    then (h, err repeated_request)
    else elim (ConnectionRequest.unmarshal b) [
      | ok pk ↦
          let accepted : ConnectionRequestAccepted.ConnectionRequestAccepted = record {
            client_address = h.peer;
            system_index = 0;
            system_addresses = replicate system_address_count no_address;
            ping_time = pk.request_time;
            pong_time = pk.request_time;
          } in
          (
            send (record h { received_connection_request = true })
                (ConnectionRequestAccepted.marshal accepted) reliability_reliable_ordered,
            ok true,
          )
      | err e ↦ (h, err e)
      | panic ↦ (h, panic)
    ]

unfoldable pub handle_new_incoming_connection : Handshake → Handshake × Result Bool
handle_new_incoming_connection h =
    if h.connected
    then (h, err additional_nic)
    else if h.received_connection_request
    then (record h { connected = true }, ok true)
    else (close_immediately h, err no_connection_request)

-- `now` is `timestamp()`, in milliseconds.
unfoldable pub handle_connected_ping : ℕ → Handshake → List ℕ → Handshake × Result Bool
handle_connected_ping now h b = elim (ConnectedPing.unmarshal b) [
  | ok pk ↦
      let pong : ConnectedPong.ConnectedPong = record {
        ping_time = pk.ping_time;
        pong_time = now;
      } in
      (send h (ConnectedPong.marshal pong) reliability_unreliable, ok true)
  | err e ↦ (h, err e)
  | panic ↦ (h, panic)
]

unfoldable pub handle_connected_pong : ℕ → Handshake → List ℕ → Handshake × Result Bool
handle_connected_pong now h b = elim (ConnectedPong.unmarshal b) [
  | ok pk ↦ (record h { raw_latency = (now + 2 ^ 64 - pk.ping_time) % 2 ^ 64 }, ok true)
  | err e ↦ (h, err e)
  | panic ↦ (h, panic)
]

-- `listenerConnectionHandler.handle`: true if the packet is none of the reader's.
unfoldable pub listener_handle : ℕ → Handshake → List ℕ → ℕ → Handshake × Result Bool
listener_handle now h [] reliability = (h, panic)
listener_handle now h (id ∷ b) reliability =
    if id == id_connection_request
    then handle_connection_request h b
    else if id == id_connection_request_accepted
    then (h, ok true)
    else if id == id_new_incoming_connection
    then handle_new_incoming_connection h
    else if id == id_connected_ping
    then handle_connected_ping now h b
    else if id == id_connected_pong
    then handle_connected_pong now h b
    else if id == id_disconnect_notification
    then (close_immediately h, ok true)
    else if id == id_detect_lost_connections
    then (h, ok true)
    else (h, ok false)

unfoldable pub handle_connection_request_accepted : ℕ → Handshake → List ℕ → Handshake × Result Bool
handle_connection_request_accepted now h b = elim (ConnectionRequestAccepted.unmarshal b) [
  | ok pk ↦
      let incoming : NewIncomingConnection.NewIncomingConnection = record {
        server_address = h.peer;
        system_addresses = v4 127 0 0 1 h.local_port ∷ replicate 19 no_address;
        ping_time = pk.pong_time;
        pong_time = now;
      } in
      if h.connected then (h, ok true) else (
        record (send h (NewIncomingConnection.marshal incoming) reliability_reliable_ordered) {
          connected = true;
        },
        ok true,
      )
  | err e ↦ (h, err e)
  | panic ↦ (h, panic)
]

-- `dialerConnectionHandler.handle`.
unfoldable pub dialer_handle : ℕ → Handshake → List ℕ → ℕ → Handshake × Result Bool
dialer_handle now h [] reliability = (h, panic)
dialer_handle now h (id ∷ b) reliability =
    if id == id_connection_request
    then (h, ok true)
    else if id == id_connection_request_accepted
    then handle_connection_request_accepted now h b
    else if id == id_new_incoming_connection
    then (h, ok true)
    else if id == id_connected_ping
    then handle_connected_ping now h b
    else if id == id_connected_pong
    then (h, ok true)
    else if id == id_disconnect_notification
    then (close_immediately h, ok true)
    else if id == id_detect_lost_connections
    then (h, ok true)
    else (h, ok false)
