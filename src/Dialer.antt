-- ===== src/Dialer.antt =====
-- dial.go: how a dialer finds a listener, opens a connection to it and pings it. What the socket's reads
-- return, one after the other, is a list; the deadlines of the code are reads that time out. `sent` is
-- what was written to the socket; no write fails.
pub mod Agreement
pub mod Connecting
mod Replies
pub mod Retries
mod Tests
use go_raknet.Prelude.{
  take, ℕ, zero, suc, List, [], ◌∷◌, ◌++◌, Bool, true, false, not, ◌==◌, if◌then◌else◌, take,
  Option, none, some, Result, ok, err, panic, Error, closed, invalid_sequence, mismatched_protocol,
  read_timeout, reply_2_timeout, not_a_pong, canceled, ◌>>=◌,
}
use go_raknet.Packet.{reliability_reliable_ordered}
use go_raknet.Message.{
  id_open_connection_reply_1, id_open_connection_reply_2, id_incompatible_protocol_version,
  id_unconnected_pong,
}
use go_raknet.Message.Addr.{AddrPort}
use go_raknet.Message.ConnectionRequest
use go_raknet.Message.IncompatibleProtocolVersion
use go_raknet.Message.OpenConnectionRequest1
use go_raknet.Message.OpenConnectionRequest2
use go_raknet.Message.OpenConnectionReply1
use go_raknet.Message.OpenConnectionReply2
use go_raknet.Message.UnconnectedPing
use go_raknet.Message.UnconnectedPong
use go_raknet.Handler.{protocol_version}
use go_raknet.Handler.Handshake.{Handshake, send, close_immediately}

-- `net.Conn.Read`: a datagram, an error that is a timeout, or another error.
pub data Read : Type 0 where
  received : List ℕ → Read
  timed_out : Read
  failed : Error → Read

pub record ConnState : Type 0 where
  pub raddr : AddrPort
  pub id : ℕ
  pub mtu : ℕ
  pub server_security : Bool
  pub cookie : ℕ
  pub sent : List (List ℕ)
  pub closed_down : Bool

unfoldable pub new_conn_state : AddrPort → ℕ → ConnState
new_conn_state raddr id = record {
  raddr = raddr;
  id = id;
  mtu = 0;
  server_security = false;
  cookie = 0;
  sent = [];
  closed_down = false;
}

-- What a phase of the dialing does with the reads: it returns, with the reads that are left, or its
-- next read does not return.
pub data Progress : Type 0 where
  returned : ConnState → List Read → Result (Unit {0}) → Progress
  waits : ConnState → Progress

abbrev pub mtu_sizes : List ℕ
mtu_sizes = 1200 ∷ 576 ∷ []

-- The tries of one size in `request1`, with the number of ticks until the context is done: what is sent
-- and, unless the context ended it, the ticks left.
abbrev pub Requests : Type 0
Requests = Result ((List (ℕ × List ℕ) × List (List ℕ)) × Option ℕ)

unfoldable pub request_tries : ℕ → ℕ → List (ℕ × List ℕ) → ℕ → Requests
request_tries zero size cached ticks = ok ((cached, []), some ticks)
request_tries (suc n) size cached ticks = do
  let request : OpenConnectionRequest1.OpenConnectionRequest1 = record {
    client_protocol = protocol_version;
    mtu = size;
  }
  (cached', b) ← OpenConnectionRequest1.marshal cached request
  elim ticks [
    | zero ↦ ok ((cached', b ∷ []), none)
    | suc t ↦ do
      ((cached'', sent), left) ← request_tries n size cached' t
      ok ((cached'', b ∷ sent), left)
  ]

-- `request1`
unfoldable pub request_1 : List ℕ → List (ℕ × List ℕ) → ℕ → Requests
request_1 [] cached ticks = ok ((cached, []), some ticks)
request_1 (size ∷ sizes) cached ticks = do
  ((cached', sent), left) ← request_tries 3 size cached ticks
  elim left [
    | none ↦ ok ((cached', sent), none)
    | some t ↦ do
      ((cached'', more), left') ← request_1 sizes cached' t
      ok ((cached'', sent ++ more), left')
  ]

-- `errors.Is(err, message.ErrorInvalidUnconnectedMessageSequence)`
unfoldable pub is_invalid_sequence : Error → Bool
is_invalid_sequence invalid_sequence = true
is_invalid_sequence other = false

-- The two packets that the loop of `discoverMTU` knows; `rest` is what the loop does with the next
-- reads.
unfoldable pub on_reply_1 :
    Result OpenConnectionReply1.OpenConnectionReply1 → List Read → ConnState → Progress → Progress
on_reply_1 panic reads st rest = returned st reads panic
on_reply_1 (err e) reads st rest = if is_invalid_sequence e then rest else returned st reads (err e)
on_reply_1 (ok response) reads st rest =
    returned
      (record st {
        server_security = response.server_has_security;
        cookie = response.cookie;
        mtu = response.mtu;
      })
      reads (ok tt)

unfoldable pub on_incompatible_protocol :
    Result IncompatibleProtocolVersion.IncompatibleProtocolVersion
    → List Read
    → ConnState
    → Progress
    → Progress
on_incompatible_protocol panic reads st rest = returned st reads panic
on_incompatible_protocol (err e) reads st rest = rest
on_incompatible_protocol (ok response) reads st rest = returned st reads (err mismatched_protocol)

-- A datagram in the loop. An empty one returns the error of its read, which is none.
unfoldable pub read_reply_1 : List ℕ → List Read → ConnState → Progress → Progress
read_reply_1 [] reads st rest = returned st reads (ok tt)
read_reply_1 (id ∷ b) reads st rest =
    if id == id_open_connection_reply_1
    then on_reply_1 (OpenConnectionReply1.unmarshal b) reads st rest
    else if id == id_incompatible_protocol_version
    then on_incompatible_protocol (IncompatibleProtocolVersion.unmarshal b) reads st rest
    else rest

-- `discoverMTU`, whose buffer has 1492 bytes.
unfoldable pub discover_mtu : List Read → ConnState → Progress
discover_mtu [] st = waits st
discover_mtu (timed_out ∷ reads) st = returned st reads (err read_timeout)
discover_mtu (failed e ∷ reads) st = returned st reads (err e)
discover_mtu (received b ∷ reads) st = read_reply_1 (take 1492 b) reads st (discover_mtu reads st)

unfoldable pub open_connection_request_2 : ConnState → List ℕ
open_connection_request_2 st = OpenConnectionRequest2.marshal (record {
  server_address = st.raddr;
  mtu = st.mtu;
  client_guid = st.id;
  server_has_security = st.server_security;
  cookie = st.cookie;
})

-- The packet that the loop of `openConnection` knows.
unfoldable pub on_reply_2 :
    Result OpenConnectionReply2.OpenConnectionReply2 → List Read → ConnState → Progress → Progress
on_reply_2 panic reads st rest = returned st reads panic
on_reply_2 (err e) reads st rest = if is_invalid_sequence e then rest else returned st reads (err e)
on_reply_2 (ok pk) reads st rest = returned (record st { mtu = pk.mtu }) reads (ok tt)

unfoldable pub read_reply_2 : List ℕ → List Read → ConnState → Progress → Progress
read_reply_2 [] reads st rest = rest
read_reply_2 (id ∷ b) reads st rest =
    if not (id == id_open_connection_reply_2)
    then rest
    else on_reply_2 (OpenConnectionReply2.unmarshal b) reads st rest

unfoldable pub open_loop : List Read → ConnState → Progress
open_loop [] st = waits st
open_loop (timed_out ∷ reads) st = returned st reads (err reply_2_timeout)
open_loop (failed e ∷ reads) st = returned st reads (err e)
open_loop (received b ∷ reads) st = read_reply_2 b reads st (open_loop reads st)

unfoldable pub open_connection : List Read → ConnState → Progress
open_connection reads st =
    open_loop reads (record st { sent = st.sent ++ (open_connection_request_2 st ∷ []) })

unfoldable pub is_reply_2_timeout : Error → Bool
is_reply_2_timeout reply_2_timeout = true
is_reply_2_timeout other = false

unfoldable pub close : ConnState → ConnState
close st = record st { closed_down = true }

-- What the retry loop does with the results of its two phases; `again` is its next round.
unfoldable pub on_opened : (List Read → ConnState → Option Progress) → Progress → Option Progress
on_opened again (returned st reads (err e)) =
    if is_reply_2_timeout e then again reads st else some (returned (close st) reads (err e))
on_opened again other = some other

unfoldable pub on_discovered :
    (List Read → ConnState → Option Progress) → Progress → Option Progress
on_discovered again (returned st reads (ok x)) = on_opened again (open_connection reads st)
on_discovered again (returned st reads (err e)) = some (returned (close st) reads (err e))
on_discovered again other = some other

-- The loop of `DialContext` on fuel, up to `connect`.
unfoldable pub dial : ℕ → List Read → ConnState → Option Progress
dial zero reads st = none
dial (suc n) reads st = on_discovered (dial n) (discover_mtu reads st)

-- `connect` sends a request and waits until the connection is connected or, where it is not, the context
-- is done; then it also calls `Close` of the connection, which is in Session.
unfoldable pub connect : ℕ → ConnState → Handshake → Handshake
connect now st h =
    send h
      (ConnectionRequest.marshal
        (record { client_guid = st.id; request_time = now; secure = false }))
      reliability_reliable_ordered

unfoldable pub connected_or_done : Bool → Handshake → Option (Handshake × Result (Unit {0}))
connected_or_done is_done h =
    if h.connected then some (h, ok tt) else if is_done then some (h, err canceled) else none

-- `PingContext`: the datagram it sends, and what it makes of the one read.
unfoldable pub ping : ℕ → ℕ → List ℕ
ping now id = UnconnectedPing.marshal (record { ping_time = now; client_guid = id })

-- The buffer of 65535 bytes takes no more of a datagram.
unfoldable pub read_pong : Read → Result (List ℕ)
read_pong timed_out = err read_timeout
read_pong (failed e) = err e
read_pong (received []) = err not_a_pong
read_pong (received (id ∷ b)) =
    if not (id == id_unconnected_pong)
    then err not_a_pong
    else do pong ← UnconnectedPong.unmarshal (take 65_534 b); ok pong.content
