-- ===== src/Message/RoundTrip.antt =====
-- message: what one end marshals is what the other end reads.
use go_raknet.Prelude.{◌-◌, ◌^◌, ◌<◌, ◌≤◌, ◌≡◌, All, length, drop, ok}
use go_raknet.Message.Addr.{IsAddr, arrived}
use go_raknet.Message.SystemAddresses.{system_address_count}
use go_raknet.Message.ConnectedPing
use go_raknet.Message.ConnectedPing.{ConnectedPing}
use go_raknet.Message.ConnectedPong
use go_raknet.Message.ConnectedPong.{ConnectedPong}
use go_raknet.Message.ConnectionRequest
use go_raknet.Message.ConnectionRequest.{ConnectionRequest}
use go_raknet.Message.UnconnectedPing
use go_raknet.Message.UnconnectedPing.{UnconnectedPing}
use go_raknet.Message.UnconnectedPong
use go_raknet.Message.UnconnectedPong.{UnconnectedPong}
use go_raknet.Message.IncompatibleProtocolVersion
use go_raknet.Message.IncompatibleProtocolVersion.{IncompatibleProtocolVersion}
use go_raknet.Message.OpenConnectionRequest2
use go_raknet.Message.OpenConnectionRequest2.{OpenConnectionRequest2}
use go_raknet.Message.OpenConnectionReply1
use go_raknet.Message.OpenConnectionReply1.{OpenConnectionReply1}
use go_raknet.Message.OpenConnectionReply2
use go_raknet.Message.OpenConnectionReply2.{OpenConnectionReply2}
use go_raknet.Message.ConnectionRequestAccepted
use go_raknet.Message.ConnectionRequestAccepted.{ConnectionRequestAccepted}
use go_raknet.Message.NewIncomingConnection
use go_raknet.Message.NewIncomingConnection.{NewIncomingConnection}

-- Each of the four pings and pongs is read back as it was marshalled, where its numbers fit into 64
-- bits and the data of an unconnected pong is shorter than 65502 bytes.
pub ping_round_trips :
    (ping : ConnectedPing) (pong : ConnectedPong) (request : UnconnectedPing)
    (reply : UnconnectedPong)
    → ping.ping_time < 2 ^ 64
    → pong.ping_time < 2 ^ 64
    → pong.pong_time < 2 ^ 64
    → request.ping_time < 2 ^ 64
    → request.client_guid < 2 ^ 64
    → reply.ping_time < 2 ^ 64
    → reply.server_guid < 2 ^ 64
    → length reply.content < 2 ^ 16 - 34
    → (ConnectedPing.unmarshal (drop 1 (ConnectedPing.marshal ping)) ≡ ok ping)
      × (ConnectedPong.unmarshal (drop 1 (ConnectedPong.marshal pong)) ≡ ok pong)
      × (UnconnectedPing.unmarshal (drop 1 (UnconnectedPing.marshal request)) ≡ ok request)
      × (UnconnectedPong.unmarshal (drop 1 (UnconnectedPong.marshal reply)) ≡ ok reply)
ping_round_trips ping pong request reply a b c d e f g h = (
  ConnectedPing.unmarshal-marshal ping a,
  ConnectedPong.unmarshal-marshal pong b c,
  UnconnectedPing.unmarshal-marshal request d e,
  UnconnectedPong.unmarshal-marshal reply f g h,
)

-- The messages that open a connection are read back as they were marshalled, where their numbers
-- and addresses fit their fields: the cookie only if the security flag is set, and an address that
-- is not valid as 0.0.0.0:0.
pub open_connection_round_trips :
    (request : OpenConnectionRequest2) (first : OpenConnectionReply1)
    (second : OpenConnectionReply2) (refusal : IncompatibleProtocolVersion)
    → IsAddr request.server_address
    → request.mtu < 2 ^ 16
    → request.client_guid < 2 ^ 64
    → request.cookie < 2 ^ 32
    → first.server_guid < 2 ^ 64
    → first.cookie < 2 ^ 32
    → first.mtu < 2 ^ 16
    → second.server_guid < 2 ^ 64
    → IsAddr second.client_address
    → second.mtu < 2 ^ 16
    → refusal.server_guid < 2 ^ 64
    → (OpenConnectionRequest2.unmarshal request.server_has_security
          (drop 1 (OpenConnectionRequest2.marshal request))
        ≡ ok (OpenConnectionRequest2.received request))
      × (OpenConnectionReply1.unmarshal (drop 1 (OpenConnectionReply1.marshal first))
          ≡ ok (OpenConnectionReply1.arrived first))
      × (OpenConnectionReply2.unmarshal (drop 1 (OpenConnectionReply2.marshal second))
          ≡ ok (record second { client_address = arrived second.client_address }))
      × (IncompatibleProtocolVersion.unmarshal
            (drop 1 (IncompatibleProtocolVersion.marshal refusal))
          ≡ ok refusal)
open_connection_round_trips request first second refusal a b c d e f g h i j k = (
  OpenConnectionRequest2.unmarshal-marshal request a b c d,
  OpenConnectionReply1.unmarshal-marshal first e f g,
  OpenConnectionReply2.unmarshal-marshal second h i j,
  IncompatibleProtocolVersion.unmarshal-marshal refusal k,
)

-- The messages of the handshake inside the connection are read back as they were marshalled, where
-- their numbers and addresses fit their fields and there are at most 20 system addresses: of these
-- CONNECTION_REQUEST_ACCEPTED carries the valid ones, and NEW_INCOMING_CONNECTION all.
pub handshake_round_trips :
    (request : ConnectionRequest) (accepted : ConnectionRequestAccepted)
    (incoming : NewIncomingConnection)
    → request.client_guid < 2 ^ 64
    → request.request_time < 2 ^ 64
    → IsAddr accepted.client_address
    → accepted.system_index < 2 ^ 16
    → All IsAddr accepted.system_addresses
    → length accepted.system_addresses ≤ system_address_count
    → accepted.ping_time < 2 ^ 64
    → accepted.pong_time < 2 ^ 64
    → IsAddr incoming.server_address
    → All IsAddr incoming.system_addresses
    → length incoming.system_addresses ≤ system_address_count
    → incoming.ping_time < 2 ^ 64
    → incoming.pong_time < 2 ^ 64
    → (ConnectionRequest.unmarshal (drop 1 (ConnectionRequest.marshal request)) ≡ ok request)
      × (ConnectionRequestAccepted.unmarshal (drop 1 (ConnectionRequestAccepted.marshal accepted))
          ≡ ok (ConnectionRequestAccepted.received accepted))
      × (NewIncomingConnection.unmarshal (drop 1 (NewIncomingConnection.marshal incoming))
          ≡ ok (NewIncomingConnection.received incoming))
handshake_round_trips request accepted incoming a b c d e f g h i j k l m = (
  ConnectionRequest.unmarshal-marshal request a b,
  ConnectionRequestAccepted.unmarshal-marshal accepted c d e f g h,
  NewIncomingConnection.unmarshal-marshal incoming i j k l m,
)
