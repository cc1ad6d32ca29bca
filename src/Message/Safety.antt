-- ===== src/Message/Safety.antt =====
-- message: reading does not panic.
use go_raknet.Prelude.{ℕ, ◌^◌, ◌<◌, List, Bool, length}
use go_raknet.Message.{Returns}
use go_raknet.Message.ConnectedPing
use go_raknet.Message.ConnectedPong
use go_raknet.Message.ConnectionRequest
use go_raknet.Message.UnconnectedPing
use go_raknet.Message.UnconnectedPong
use go_raknet.Message.IncompatibleProtocolVersion
use go_raknet.Message.OpenConnectionRequest1
use go_raknet.Message.OpenConnectionRequest2
use go_raknet.Message.OpenConnectionReply1
use go_raknet.Message.OpenConnectionReply2
use go_raknet.Message.ConnectionRequestAccepted
use go_raknet.Message.NewIncomingConnection

-- Whatever bytes arrive, fewer than 65536, no message panics while it is read; each gives a packet or
-- an error.
pub unmarshal_safe :
    (has_security : Bool) (b : List ℕ)
    → length b < 2 ^ 16
    → Returns (ConnectedPing.unmarshal b)
      × Returns (ConnectedPong.unmarshal b)
      × Returns (ConnectionRequest.unmarshal b)
      × Returns (ConnectionRequestAccepted.unmarshal b)
      × Returns (NewIncomingConnection.unmarshal b)
      × Returns (UnconnectedPing.unmarshal b)
      × Returns (UnconnectedPong.unmarshal b)
      × Returns (IncompatibleProtocolVersion.unmarshal b)
      × Returns (OpenConnectionRequest1.unmarshal b)
      × Returns (OpenConnectionRequest2.unmarshal has_security b)
      × Returns (OpenConnectionReply1.unmarshal b)
      × Returns (OpenConnectionReply2.unmarshal b)
unmarshal_safe has_security b h = (
  ConnectedPing.unmarshal-Returns b,
  ConnectedPong.unmarshal-Returns b,
  ConnectionRequest.unmarshal-Returns b,
  ConnectionRequestAccepted.unmarshal-Returns b,
  NewIncomingConnection.unmarshal-Returns b,
  UnconnectedPing.unmarshal-Returns b,
  UnconnectedPong.unmarshal-Returns b h,
  IncompatibleProtocolVersion.unmarshal-Returns b,
  OpenConnectionRequest1.unmarshal-Returns b,
  OpenConnectionRequest2.unmarshal-Returns has_security b,
  OpenConnectionReply1.unmarshal-Returns b,
  OpenConnectionReply2.unmarshal-Returns b,
)
