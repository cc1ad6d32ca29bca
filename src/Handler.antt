-- ===== src/Handler.antt =====
-- handler.go and internal/cookie.go: how a listener opens connections. The peer is a UDP address; the
-- socket is open, so that every write succeeds; no packet filter is installed (xdp.go); `Conn` is
-- kept as the MTU it was made with.
pub mod Cookies
pub mod Handshake
pub mod Keys
pub mod Progress
mod Tests
use go_raknet.Prelude.{
  ℕ, zero, suc, ◌+◌, ◌-◌, ◌*◌, ◌/◌, ◌%◌, ◌^◌, List, [], ◌∷◌, ◌++◌, Bool, true, false, not, ltb,
  ◌==◌, ◌&&◌, ◌||◌, min, max, if◌then◌else◌, length, take, drop, bit_xor, bit_and, Result, ok, err,
  panic, connection_exists, mtu_too_small, incompatible_protocol, unknown_packet,
}
use go_raknet.Packet.{bit_flag_datagram}
use go_raknet.Conn.{min_mtu_size, max_mtu_size}
use go_raknet.Message.{
  equal_bytes, id_unconnected_ping, id_unconnected_ping_open_connections,
  id_open_connection_request_1, id_open_connection_request_2,
}
use go_raknet.Message.Addr.{AddrPort, invalid, v4, v6}
use go_raknet.Message.UnconnectedPing
use go_raknet.Message.UnconnectedPong
use go_raknet.Message.IncompatibleProtocolVersion
use go_raknet.Message.OpenConnectionRequest1
use go_raknet.Message.OpenConnectionRequest2
use go_raknet.Message.OpenConnectionReply1
use go_raknet.Message.OpenConnectionReply2

abbrev pub protocol_version : ℕ
protocol_version = 11

-- `net.UDPAddr`: the IP has 4 or 16 bytes.
pub record UdpAddr : Type 0 where
  pub ip : List ℕ
  pub port : ℕ

-- `crc32.ChecksumIEEE`, bit by bit.
unfoldable pub crc_bits : ℕ → ℕ → ℕ
crc_bits zero crc = crc
crc_bits (suc n) crc = crc_bits n (if crc % 2 == 1 then bit_xor (crc / 2) 0xedb88320 else crc / 2)

unfoldable pub crc_bytes : List ℕ → ℕ → ℕ
crc_bytes [] crc = crc
crc_bytes (b ∷ bs) crc = crc_bytes bs (crc_bits 8 (bit_xor crc b))

unfoldable pub checksum : List ℕ → ℕ
checksum b = bit_xor (crc_bytes b 0xffffffff) 0xffffffff

-- `binary.LittleEndian.PutUint64` and its like.
unfoldable pub le_bytes : ℕ → ℕ → List ℕ
le_bytes zero v = []
le_bytes (suc n) v = v % 256 ∷ le_bytes n (v / 256)

unfoldable pub cookie : UdpAddr → ℕ → ℕ
cookie addr salt = checksum (le_bytes 8 salt ++ (le_bytes 2 addr.port ++ addr.ip))

-- The address as a key: an IPv4 address inside an IPv6 one is taken out.
unfoldable pub resolve : UdpAddr → AddrPort
resolve addr = resolve_ip addr.ip addr.port
  where
    resolve_16 : List ℕ → ℕ → AddrPort
    resolve_16 (a ∷ b ∷ c ∷ d ∷ []) port = v4 a b c d port
    resolve_16 ip port = invalid

    resolve_ip : List ℕ → ℕ → AddrPort
    resolve_ip ip port =
        if length ip == 4
        then resolve_16 ip port
        else if not (length ip == 16)
        then invalid
        else if equal_bytes (take 12 ip) (0 ∷ 0 ∷ 0 ∷ 0 ∷ 0 ∷ 0 ∷ 0 ∷ 0 ∷ 0 ∷ 0 ∷ 255 ∷ 255 ∷ [])
        then resolve_16 (drop 12 ip) port
        else v6 ip port

-- Equality of keys.
unfoldable pub same_addr : AddrPort → AddrPort → Bool
same_addr invalid invalid = true
same_addr (v4 a b c d p) (v4 e f g h q) = a == e && b == f && c == g && d == h && p == q
same_addr (v6 ip p) (v6 jp q) = equal_bytes ip jp && p == q
same_addr x y = false

-- The connections with the MTU of each, the salts, and the parts of the configuration that the
-- handler reads.
pub record Listener : Type 0 where
  pub id : ℕ
  pub pong_data : List ℕ
  pub disable_cookies : Bool
  pub current_cookie_salt : ℕ
  pub prev_cookie_salt : ℕ
  pub connections : List (AddrPort × ℕ)

unfoldable pub has_connection : AddrPort → List (AddrPort × ℕ) → Bool
has_connection a [] = false
has_connection a ((b, mtu) ∷ connections) = same_addr a b || has_connection a connections

-- One round of `cleanup`, with the random salt it drew.
unfoldable pub rotate_salt : ℕ → Listener → Listener
rotate_salt salt l = record l {
  prev_cookie_salt = l.current_cookie_salt;
  current_cookie_salt = salt;
}

-- The listener, the datagrams sent to the peer, and the error.
abbrev pub Handled : Type 0
Handled = (Listener × List (List ℕ)) × Result (Unit {0})

unfoldable pub handle_unconnected_ping : Listener → List ℕ → Handled
handle_unconnected_ping l b = elim (UnconnectedPing.unmarshal b) [
  | ok pk ↦
      let pong : UnconnectedPong.UnconnectedPong = record {
        ping_time = pk.ping_time;
        server_guid = l.id;
        content = l.pong_data;
      } in
      ((l, UnconnectedPong.marshal pong ∷ []), ok tt)
  | err e ↦ ((l, []), err e)
  | panic ↦ ((l, []), panic)
]

unfoldable pub handle_open_connection_request_1 : Listener → List ℕ → UdpAddr → Handled
handle_open_connection_request_1 l b addr =
    if has_connection (resolve addr) l.connections
    then ((l, []), err connection_exists)
    else elim (OpenConnectionRequest1.unmarshal b) [
      | ok pk ↦
          let refusal : IncompatibleProtocolVersion.IncompatibleProtocolVersion = record {
            server_protocol = protocol_version;
            server_guid = l.id;
          } in
          let reply : OpenConnectionReply1.OpenConnectionReply1 = record {
            server_guid = l.id;
            server_has_security = not l.disable_cookies;
            cookie = cookie addr l.current_cookie_salt;
            mtu = min pk.mtu max_mtu_size;
          } in
          if ltb pk.mtu min_mtu_size
          then ((l, []), err mtu_too_small)
          else if not (pk.client_protocol == protocol_version)
          then ((l, IncompatibleProtocolVersion.marshal refusal ∷ []), err incompatible_protocol)
          else ((l, OpenConnectionReply1.marshal reply ∷ []), ok tt)
      | err e ↦ ((l, []), err e)
      | panic ↦ ((l, []), panic)
    ]

-- Whether the cookie is missing, invalid or ambiguous.
unfoldable pub is_rejected : Listener → UdpAddr → ℕ → Bool
is_rejected l addr c =
    let first = c == cookie addr l.current_cookie_salt in
    let second = c == cookie addr l.prev_cookie_salt in
    not l.disable_cookies && (if first then second else not second)

unfoldable pub handle_open_connection_request_2 : Listener → List ℕ → UdpAddr → Handled
handle_open_connection_request_2 l b addr =
    if has_connection (resolve addr) l.connections
    then ((l, []), err connection_exists)
    else elim (OpenConnectionRequest2.unmarshal (not l.disable_cookies) b) [
      | ok pk ↦
          let mtu = min pk.mtu max_mtu_size in
          let reply : OpenConnectionReply2.OpenConnectionReply2 = record {
            server_guid = l.id;
            client_address = resolve addr;
            mtu = mtu;
            do_security = false;
          } in
          if ltb pk.mtu min_mtu_size
          then ((l, []), err mtu_too_small)
          else if is_rejected l addr pk.cookie
          then ((l, []), ok tt)
          else (
            (
              record l { connections = (resolve addr, mtu) ∷ l.connections },
              OpenConnectionReply2.marshal reply ∷ [],
            ),
            ok tt,
          )
      | err e ↦ ((l, []), err e)
      | panic ↦ ((l, []), panic)
    ]

unfoldable pub handle_unconnected : Listener → List ℕ → UdpAddr → Handled
handle_unconnected l [] addr = ((l, []), panic)
handle_unconnected l (id ∷ b) addr =
    if id == id_unconnected_ping || id == id_unconnected_ping_open_connections
    then handle_unconnected_ping l b
    else if id == id_open_connection_request_1
    then handle_open_connection_request_1 l b addr
    else if id == id_open_connection_request_2
    then handle_open_connection_request_2 l b addr
    else if not (bit_and id bit_flag_datagram == 0)
    then ((l, []), ok tt)
    else ((l, []), err unknown_packet)
