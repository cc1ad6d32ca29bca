-- ===== src/Listening/Tests.antt =====
-- listener.go: a listener at concrete datagrams.
use go_raknet.Prelude.{
  ◌+◌, ◌≤◌, ◌≡◌, refl, List, [], ◌∷◌, false, true, arith, some, err, unexpected_eof, ℕ, ◌≢◌, ltb,
  if◌then◌else◌, ok, panic, Result, additional_nic, replicate,
}
use go_raknet.Message.Addr.{AddrPort, v4, put_addr, addr_size, addr, addr_4}
use go_raknet.Message.OpenConnectionRequest1
use go_raknet.Message.OpenConnectionRequest2
use go_raknet.Security.{new_security}
use go_raknet.Handler.{
  UdpAddr, Listener, has_connection, handle_unconnected, handle_open_connection_request_1,
}
use go_raknet.Listening.{
  Pending, State, Event, dispatches, takes, loads, finishes, updates, connects, accepts,
  dispatch_datagram, update_loop, is_closed, handle_unconnected_datagram, run, ip_key,
}
use go_raknet.Security.{blocked}
use go_raknet.Binary.{be_uint, be_value}
use go_raknet.Message.{equal_bytes, uint_at}
use go_raknet.Handler.{handle_open_connection_request_2, resolve, same_addr, is_rejected}
use go_raknet.Listening.{
  step, take_on, load_connections, load_at, finish_work, finish_at, pick, block_on_error, store_new,
  note_new, set_connected, update_connections, accept, accept_from, note_accepted, is_left,
  keep_left, delete_connection, delete_pending, to_16, bytes_value,
}
use go_raknet.Listening.Sockets.{
  Socket, next_address, open_packet_loop, listen_packet_conns, IsAllOrNone,
  listen_packet_conns-IsAllOrNone,
}
use go_raknet.Listening.Batches.{
  listen_read_from, memory_word, network_to_host_short, ipv4, inet4_addr, raw_sockaddr_to_udp_addr,
  listen_optimized,
}
use go_raknet.Listening.Batches.Equal.{
  inet4, inet6, sockaddr_of, Turn, batch, interrupt, nothing, broken, recvs_of, reads_of, widened,
  listen_optimized-listen_read_from,
}
use go_raknet.Listening.Rounds.{count}
use go_raknet.Listening.Accepting.{reopenings, run_accepts_once}
use go_raknet.Listening.Blocking.{error_shuts_out}

abbrev peer : UdpAddr
peer = record { ip = 127 ∷ 0 ∷ 0 ∷ 1 ∷ []; port = 19_132 }

abbrev neighbour : UdpAddr
neighbour = record { ip = 127 ∷ 0 ∷ 0 ∷ 1 ∷ []; port = 4_000 }

abbrev key : AddrPort
key = v4 127 0 0 1 19_132

abbrev listener : Listener
listener = record {
  id = 7;
  pong_data = [];
  disable_cookies = true;
  current_cookie_salt = 1;
  prev_cookie_salt = 2;
  connections = [];
}

abbrev start : State
start = record {
  security = new_security (some 10);
  listener = listener;
  pending = [];
  queued = [];
  working = [];
  delivered = [];
  incoming = [];
  sent = [];
  closed_down = false;
}

-- A connected peer is handed out in the first round only; one that is late is removed.
abbrev ready : Pending
ready = record { raddr = key; created_at = 0; connected = true; accepted = false }

abbrev late : Pending
late = record { raddr = v4 127 0 0 1 9; created_at = 0; connected = false; accepted = false }

first_round :
    update_loop 10_000_000_001 (ready ∷ late ∷ [])
    ≡ (record ready { accepted = true } ∷ [], key ∷ [])
unfolding update_loop
first_round = refl

second_round : (update_loop 10 (record ready { accepted = true } ∷ [])).1 ≡ []
unfolding update_loop
second_round = refl

-- A second request, which the peer sends twice. Two workers look the peer up before either of them ends.
abbrev second_request : List ℕ
second_request = OpenConnectionRequest2.marshal (record {
  server_address = key;
  mtu = 1_200;
  client_guid = 4;
  server_has_security = false;
  cookie = 0;
})

abbrev events : List Event
events =
    dispatches second_request peer
    ∷ dispatches second_request peer
    ∷ takes
    ∷ takes
    ∷ loads 0
    ∷ loads 1
    ∷ finishes 3 0
    ∷ connects key
    ∷ updates 4
    ∷ finishes 5 0
    ∷ connects key
    ∷ updates 6
    ∷ accepts
    ∷ accepts
    ∷ []

run_accepts_once_example :
    count key (run (start, []) events).1 ≤ 1 + reopenings key (start, []) events
run_accepts_once_example = run_accepts_once start events key refl refl

-- Both of them store a connection, and both connections are handed out.
accepted_twice : (run (start, []) events).1 ≡ key ∷ key ∷ []
unfolding run step dispatch_datagram take_on load_connections load_at finish_work finish_at pick
    handle_unconnected_datagram handle_unconnected handle_open_connection_request_2 block_on_error
    store_new note_new set_connected update_connections update_loop accept accept_from note_accepted
    is_left keep_left delete_connection delete_pending has_connection resolve same_addr is_rejected
    ip_key to_16 bytes_value blocked new_security OpenConnectionRequest2.unmarshal
    OpenConnectionRequest2.marshal equal_bytes put_addr addr_size addr addr_4 be_uint uint_at
    be_value
accepted_twice = refl

-- A first request without its contents.
is_short : (handle_unconnected listener (5 ∷ []) peer).1 ≡ err unexpected_eof
unfolding handle_unconnected handle_open_connection_request_1 has_connection
    OpenConnectionRequest1.unmarshal
is_short = refl

error_shuts_out_example :
    let after = (run ((handle_unconnected_datagram 3 [] (5 ∷ []) peer start).0, []) events).0 in
    dispatch_datagram (1 ∷ 2 ∷ []) neighbour after ≡ after
unfolding new_security is_closed ip_key
error_shuts_out_example =
    error_shuts_out 3 10 [] (5 ∷ []) peer start unexpected_eof events (1 ∷ 2 ∷ []) neighbour [] refl
      (omega arith) is_short refl refl

-- A network that has two ports, the second of which is the first one's.
listen : ℕ → ℕ → Result (Socket ℕ)
listen i address =
    if ltb i 2
    then ok (record { id = i; local_addr = some (address + 4_000) })
    else err additional_nic

listen_safe : (i address : ℕ) → listen i address ≢ panic
unfolding listen
listen_safe i address = λ h. ground (arith, h)

listen_packet_conns-IsAllOrNone_example :
    IsAllOrNone listen 3 0 7 [] (listen_packet_conns listen 7 3)
listen_packet_conns-IsAllOrNone_example =
    listen_packet_conns-IsAllOrNone listen 7 3 (λ i address. listen_safe i address)

-- The third socket cannot be opened, and the two before it are closed.
both_closed : listen_packet_conns listen 7 3 ≡ (
  record { id = 0; local_addr = some 4_007 } ∷ record { id = 1; local_addr = some 8_007 } ∷ [],
  err additional_nic,
)
unfolding listen_packet_conns open_packet_loop next_address listen
both_closed = refl

-- A datagram of IPv4 and one of IPv6, with an interrupt between them, then an error of the socket.
abbrev turns : List Turn
turns =
    batch (record { content = 9 ∷ []; peer = inet4 127 0 0 1 19_132; old = 4 ∷ [] } ∷ [])
    ∷ interrupt
    ∷ batch (record { content = 5 ∷ 6 ∷ []; peer = inet6 (replicate 16 1) 500; old = [] } ∷ [])
    ∷ nothing
    ∷ broken
    ∷ []

listen_optimized-listen_read_from_example :
    (listen_optimized false 6 (recvs_of turns) (widened start)
      ≡ (widened (listen_read_from (reads_of turns) start).0, true))
    × ((listen_read_from (reads_of turns) start).1 ≡ true)
listen_optimized-listen_read_from_example =
    listen_optimized-listen_read_from turns 6 start
      ((omega arith, tt), (tt, (((refl, omega arith), tt), (tt, (tt, tt))))) (omega arith)

-- On a big-endian machine the port 500 arrives as 62465.
swapped_port :
    raw_sockaddr_to_udp_addr true (sockaddr_of (inet4 127 0 0 1 500)) 16
    ≡ some (record { ip = ipv4 127 0 0 1; port = 62_465 })
unfolding raw_sockaddr_to_udp_addr inet4_addr network_to_host_short memory_word
swapped_port = refl
