-- ===== src/Dialer/Tests.antt =====
-- dial.go: a dialer at concrete reads.
use go_raknet.Prelude.{
  ℕ, ◌++◌, ◌≡◌, refl, List, [], ◌∷◌, false, arith, replicate, some, ok, inr, length, map,
}
use go_raknet.Prelude.Dict.{lookup, insert, delete}
use go_raknet.Message.Addr.{v4}
use go_raknet.Message.OpenConnectionRequest1
use go_raknet.Handler.{
  UdpAddr, Listener, cookie, checksum, crc_bytes, crc_bits, le_bytes, resolve, has_connection,
  handle_unconnected,
}
use go_raknet.Dialer.{
  Read, received, timed_out, ConnState, Progress, returned, discover_mtu, read_reply_1, dial, ping,
  read_pong, Requests, request_1, request_tries,
}
use go_raknet.Handler.Handshake.{new_handshake}
use go_raknet.Dialer.Connecting.{IsConnecting, connect-IsConnecting}
use go_raknet.Dialer.Retries.{dial_ends}
use go_raknet.Dialer.Agreement.{IsAgreed, dialer_and_listener_agree, ping_returns_pong_data}

abbrev peer : UdpAddr
peer = record { ip = 127 ∷ 0 ∷ 0 ∷ 1 ∷ []; port = 19_132 }

abbrev listener : Listener
listener = record {
  id = 7;
  pong_data = 77 ∷ 67 ∷ [];
  disable_cookies = false;
  current_cookie_salt = 1;
  prev_cookie_salt = 2;
  connections = [];
}

abbrev state : ConnState
state = record {
  raddr = v4 127 0 0 1 19_133;
  id = 5;
  mtu = 0;
  server_security = false;
  cookie = 0;
  sent = [];
  closed_down = false;
}

cookie_1 : cookie peer 1 ≡ 0x77a48b0b
unfolding cookie checksum crc_bytes crc_bits le_bytes
cookie_1 = refl

cookie_2 : cookie peer 2 ≡ 0xbc5aed0
unfolding cookie checksum crc_bytes crc_bits le_bytes
cookie_2 = refl

-- A first request of 576 bytes with the headers of IP and UDP.
abbrev body : List ℕ
body = replicate 16 0 ++ (11 ∷ replicate 530 0)

body_reads : OpenConnectionRequest1.unmarshal body ≡ ok (record { client_protocol = 11; mtu = 576 })
unfolding OpenConnectionRequest1.unmarshal
body_reads = refl

dialer_and_listener_agree_example : IsAgreed listener peer state 576 body (timed_out ∷ [])
unfolding has_connection resolve
dialer_and_listener_agree_example =
    dialer_and_listener_agree listener peer state 576 body (timed_out ∷ []) body_reads (omega arith)
      refl (inr (ground (arith, cookie_1, cookie_2))) (omega (arith, cookie_1)) (omega arith)
      (omega arith) (omega arith, omega arith, omega arith, omega arith, omega arith)
      (omega arith, omega arith, omega arith, omega arith, omega arith)

ping_returns_pong_data_example :
    (reply : List ℕ) × (handle_unconnected listener (ping 9 4) peer
      ≡ ((listener, reply ∷ []), ok tt))
    × (read_pong (received reply) ≡ ok (77 ∷ 67 ∷ []))
ping_returns_pong_data_example =
    ping_returns_pong_data listener peer 9 4 (omega arith) (omega arith) (omega arith) (omega arith)

-- An empty datagram and one of another packet, then a timeout.
abbrev reads : List Read
reads = received (3 ∷ []) ∷ received [] ∷ timed_out ∷ timed_out ∷ []

dial_ends_example : (p : Progress) × (dial 5 reads state ≡ some p)
dial_ends_example = dial_ends 5 reads state (omega arith)

-- The empty datagram ends the discovery without an MTU.
empty_datagram : discover_mtu reads state ≡ returned state (timed_out ∷ timed_out ∷ []) (ok tt)
unfolding discover_mtu read_reply_1
empty_datagram = refl

connect-IsConnecting_example :
    IsConnecting 9 state
      (new_handshake (v4 127 0 0 1 19_133) 19_132)
      (new_handshake (v4 127 0 0 1 19_132) 19_133)
unfolding new_handshake
connect-IsConnecting_example =
    connect-IsConnecting 9 state (new_handshake (v4 127 0 0 1 19_133) 19_132)
      (new_handshake (v4 127 0 0 1 19_132) 19_133) refl refl refl
      (omega arith, omega arith, omega arith, omega arith, omega arith) (omega arith) (omega arith)

-- Two ticks before the discovery ends: three packets of the first size, all of them 1172 bytes long.
lengths_of : Requests → List ℕ
lengths_of (ok ((cached, sent), left)) = map length sent
lengths_of other = []

three_requests : lengths_of (request_1 (1_200 ∷ 576 ∷ []) [] 2) ≡ 1_172 ∷ 1_172 ∷ 1_172 ∷ []
unfolding lengths_of request_1 request_tries OpenConnectionRequest1.marshal lookup insert delete
three_requests = refl

-- The fourth packet has the second size.
four_requests : lengths_of (request_1 (1_200 ∷ 576 ∷ []) [] 3) ≡ 1_172 ∷ 1_172 ∷ 1_172 ∷ 548 ∷ []
unfolding lengths_of request_1 request_tries OpenConnectionRequest1.marshal lookup insert delete
four_requests = refl
