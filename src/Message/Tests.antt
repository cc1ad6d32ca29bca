-- ===== src/Message/Tests.antt =====
-- message: the theorems at concrete packets.
use go_raknet.Prelude.{ℕ, ◌+◌, ◌^◌, ◌≡◌, List, [], ◌∷◌, true, false, All, drop, ok, arith, refl}
use go_raknet.Prelude.Dict.{lookup}
use go_raknet.Message.{Returns}
use go_raknet.Message.Addr.{AddrPort, invalid, v4, v6, IsAddr, arrived}
use go_raknet.Message.ConnectedPing
use go_raknet.Message.ConnectedPing.{ConnectedPing}
use go_raknet.Message.ConnectedPong
use go_raknet.Message.ConnectedPong.{ConnectedPong}
use go_raknet.Message.ConnectionRequest
use go_raknet.Message.ConnectionRequest.{ConnectionRequest}
use go_raknet.Message.UnconnectedPing
use go_raknet.Message.UnconnectedPing.{UnconnectedPing}
use go_raknet.Message.UnconnectedPong
use go_raknet.Message.UnconnectedPong.{UnconnectedPong}
use go_raknet.Message.IncompatibleProtocolVersion
use go_raknet.Message.IncompatibleProtocolVersion.{IncompatibleProtocolVersion}
use go_raknet.Message.OpenConnectionRequest1
use go_raknet.Message.OpenConnectionRequest1.{OpenConnectionRequest1}
use go_raknet.Message.OpenConnectionRequest2
use go_raknet.Message.OpenConnectionRequest2.{OpenConnectionRequest2}
use go_raknet.Message.OpenConnectionReply1
use go_raknet.Message.OpenConnectionReply1.{OpenConnectionReply1}
use go_raknet.Message.OpenConnectionReply2
use go_raknet.Message.OpenConnectionReply2.{OpenConnectionReply2}
use go_raknet.Message.ConnectionRequestAccepted
use go_raknet.Message.ConnectionRequestAccepted.{ConnectionRequestAccepted}
use go_raknet.Message.NewIncomingConnection
use go_raknet.Message.NewIncomingConnection.{NewIncomingConnection}
use go_raknet.Message.OpenConnectionRequest1.{IsCache, Cached, marshal-IsCache}
use go_raknet.Message.RoundTrip.{
  ping_round_trips, open_connection_round_trips, handshake_round_trips,
}
use go_raknet.Message.Safety.{unmarshal_safe}

abbrev ping : ConnectedPing
ping = record { ping_time = 1_000 }

abbrev pong : ConnectedPong
pong = record { ping_time = 1_000; pong_time = 70_000 }

abbrev status_request : UnconnectedPing
status_request = record { ping_time = 5; client_guid = 2 ^ 63 + 9 }

abbrev status : UnconnectedPong
status = record { ping_time = 5; server_guid = 77; content = 77 ∷ 67 ∷ [] }

pings_read_back :
    (ConnectedPing.unmarshal (drop 1 (ConnectedPing.marshal ping)) ≡ ok ping)
    × (ConnectedPong.unmarshal (drop 1 (ConnectedPong.marshal pong)) ≡ ok pong)
    × (UnconnectedPing.unmarshal (drop 1 (UnconnectedPing.marshal status_request))
        ≡ ok status_request)
    × (UnconnectedPong.unmarshal (drop 1 (UnconnectedPong.marshal status)) ≡ ok status)
pings_read_back =
    ping_round_trips ping pong status_request status (omega arith) (omega arith) (omega arith)
      (omega arith) (omega arith) (omega arith) (omega arith) (omega arith)

abbrev localhost : AddrPort
localhost = v4 127 0 0 1 19_132

abbrev six : AddrPort
six = v6 (0xfe ∷ 0x80 ∷ 0 ∷ 0 ∷ 0 ∷ 0 ∷ 0 ∷ 0 ∷ 0 ∷ 0 ∷ 0 ∷ 0 ∷ 0 ∷ 0 ∷ 0 ∷ 1 ∷ []) 19_133

abbrev request : OpenConnectionRequest2
request = record {
  server_address = six;
  mtu = 1_200;
  client_guid = 4;
  server_has_security = true;
  cookie = 0xdeadbeef;
}

abbrev first : OpenConnectionReply1
first = record { server_guid = 77; server_has_security = true; cookie = 0xdeadbeef; mtu = 1_200 }

abbrev second : OpenConnectionReply2
second = record { server_guid = 77; client_address = localhost; mtu = 1_200; do_security = false }

abbrev refusal : IncompatibleProtocolVersion
refusal = record { server_protocol = 11; server_guid = 77 }

open_connection_round_trips_example :
    (OpenConnectionRequest2.unmarshal true (drop 1 (OpenConnectionRequest2.marshal request))
      ≡ ok (OpenConnectionRequest2.received request))
    × (OpenConnectionReply1.unmarshal (drop 1 (OpenConnectionReply1.marshal first))
        ≡ ok (OpenConnectionReply1.arrived first))
    × (OpenConnectionReply2.unmarshal (drop 1 (OpenConnectionReply2.marshal second))
        ≡ ok (record second { client_address = arrived second.client_address }))
    × (IncompatibleProtocolVersion.unmarshal (drop 1 (IncompatibleProtocolVersion.marshal refusal))
        ≡ ok refusal)
open_connection_round_trips_example =
    open_connection_round_trips request first second refusal (refl, omega arith) (omega arith)
      (omega arith) (omega arith) (omega arith) (omega arith) (omega arith) (omega arith)
      (omega arith, omega arith, omega arith, omega arith, omega arith) (omega arith) (omega arith)

abbrev connection_request : ConnectionRequest
connection_request = record { client_guid = 4; request_time = 9; secure = false }

abbrev accepted : ConnectionRequestAccepted
accepted = record {
  client_address = localhost;
  system_index = 0;
  system_addresses = localhost ∷ invalid ∷ six ∷ [];
  ping_time = 9;
  pong_time = 10;
}

abbrev incoming : NewIncomingConnection
incoming = record {
  server_address = six;
  system_addresses = localhost ∷ invalid ∷ six ∷ [];
  ping_time = 9;
  pong_time = 10;
}

addresses-IsAddr : All IsAddr (localhost ∷ invalid ∷ six ∷ [])
addresses-IsAddr = (
  (omega arith, omega arith, omega arith, omega arith, omega arith),
  (tt, ((refl, omega arith), tt)),
)

handshake_round_trips_example :
    (ConnectionRequest.unmarshal (drop 1 (ConnectionRequest.marshal connection_request))
      ≡ ok connection_request)
    × (ConnectionRequestAccepted.unmarshal (drop 1 (ConnectionRequestAccepted.marshal accepted))
        ≡ ok (ConnectionRequestAccepted.received accepted))
    × (NewIncomingConnection.unmarshal (drop 1 (NewIncomingConnection.marshal incoming))
        ≡ ok (NewIncomingConnection.received incoming))
handshake_round_trips_example =
    handshake_round_trips connection_request accepted incoming (omega arith) (omega arith)
      (omega arith, omega arith, omega arith, omega arith, omega arith) (omega arith)
      addresses-IsAddr (omega arith) (omega arith) (omega arith) (refl, omega arith)
      addresses-IsAddr (omega arith) (omega arith) (omega arith)

abbrev asked : OpenConnectionRequest1
asked = record { client_protocol = 11; mtu = 576 }

first_request_kept :
    (r : List (ℕ × List ℕ) × List ℕ) × (OpenConnectionRequest1.marshal [] asked ≡ ok r)
    × Cached 11 576 r.1
    × IsCache 11 r.0
unfolding lookup
first_request_kept = marshal-IsCache [] asked nothing_cached (omega arith) (omega arith)
  where
    nothing_cached : IsCache 11 []
    nothing_cached mtu b e = cc

abbrev short : List ℕ
short = 4 ∷ 1 ∷ 2 ∷ 3 ∷ 4 ∷ 5 ∷ 6 ∷ 7 ∷ []

unmarshal_safe_example :
    Returns (ConnectedPing.unmarshal short)
    × Returns (ConnectedPong.unmarshal short)
    × Returns (ConnectionRequest.unmarshal short)
    × Returns (ConnectionRequestAccepted.unmarshal short)
    × Returns (NewIncomingConnection.unmarshal short)
    × Returns (UnconnectedPing.unmarshal short)
    × Returns (UnconnectedPong.unmarshal short)
    × Returns (IncompatibleProtocolVersion.unmarshal short)
    × Returns (OpenConnectionRequest1.unmarshal short)
    × Returns (OpenConnectionRequest2.unmarshal true short)
    × Returns (OpenConnectionReply1.unmarshal short)
    × Returns (OpenConnectionReply2.unmarshal short)
unmarshal_safe_example = unmarshal_safe true short (omega arith)
