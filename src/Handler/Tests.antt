-- ===== src/Handler/Tests.antt =====
-- handler.go: the theorems at a concrete listener.
use go_raknet.Prelude.{ℕ, ◌≡◌, ◌≤◌, refl, List, [], ◌∷◌, true, false, arith, drop, ◌⊎◌}
use go_raknet.Message.Addr.{AddrPort, v4}
use go_raknet.Message.OpenConnectionRequest2
use go_raknet.Message.OpenConnectionRequest2.{OpenConnectionRequest2}
use go_raknet.Handler.{
  UdpAddr, Listener, cookie, checksum, crc_bytes, crc_bits, le_bytes, resolve, has_connection,
  rotate_salt, handle_open_connection_request_2,
}
use go_raknet.Binary.{be_uint}
use go_raknet.Message.{uint_at, id_new_incoming_connection}
use go_raknet.Message.ConnectionRequest
use go_raknet.Handler.Handshake.{
  Handshake, new_handshake, listener_handle, handle_connection_request,
  handle_new_incoming_connection, send,
}
use go_raknet.Handler.Progress.{one_more, none_yet, accepted_in, listener_handle-IsOrderly}
use go_raknet.Handler.Cookies.{
  IsAdmitted, open_connection-IsAdmitted, open_connection_ambiguous, open_connection_with_cookie,
}

abbrev peer : UdpAddr
peer = record { ip = 127 ∷ 0 ∷ 0 ∷ 1 ∷ []; port = 19_132 }

cookie_1 : cookie peer 1 ≡ 0x77a48b0b
unfolding cookie checksum crc_bytes crc_bits le_bytes
cookie_1 = refl

cookie_2 : cookie peer 2 ≡ 0xbc5aed0
unfolding cookie checksum crc_bytes crc_bits le_bytes
cookie_2 = refl

cookie_3 : cookie peer 3 ≡ 0x96ca4fa6
unfolding cookie checksum crc_bytes crc_bits le_bytes
cookie_3 = refl

abbrev listener : Listener
listener = record {
  id = 77;
  pong_data = [];
  disable_cookies = false;
  current_cookie_salt = 2;
  prev_cookie_salt = 1;
  connections = [];
}

abbrev request : OpenConnectionRequest2
request = record {
  server_address = v4 127 0 0 1 19_133;
  mtu = 1_400;
  client_guid = 5;
  server_has_security = true;
  cookie = 0xbc5aed0;
}

open_connection-IsAdmitted_example :
    let after =
      (handle_open_connection_request_2 listener
        (drop 1 (OpenConnectionRequest2.marshal request))
        peer).0.0 in
    (after.connections ≡ [])
    ⊎ IsAdmitted listener (drop 1 (OpenConnectionRequest2.marshal request)) peer after
open_connection-IsAdmitted_example =
    open_connection-IsAdmitted listener (drop 1 (OpenConnectionRequest2.marshal request)) peer

cookie_lets_in :
    let b = drop 1 (OpenConnectionRequest2.marshal request) in
    let opened : List (AddrPort × ℕ) = (resolve peer, 1_200) ∷ [] in
    ((handle_open_connection_request_2 listener b peer).0.0.connections ≡ opened)
    × ((handle_open_connection_request_2 (rotate_salt 3 listener) b peer).0.0.connections ≡ opened)
unfolding has_connection
cookie_lets_in =
    open_connection_with_cookie listener 3 peer request refl refl refl
      (omega arith, omega arith, omega arith, omega arith, omega arith) (omega (arith, cookie_2))
      (omega arith) (omega arith) (omega arith) (omega arith) (ground (arith, cookie_1, cookie_2))
      (ground (arith, cookie_2, cookie_3))

-- Before the first rotation.
abbrev fresh : Listener
fresh = record listener { current_cookie_salt = 0; prev_cookie_salt = 0 }

fresh_answers_nothing :
    (handle_open_connection_request_2 fresh
      (drop 1 (OpenConnectionRequest2.marshal request))
      peer).0
    ≡ (fresh, [])
fresh_answers_nothing =
    open_connection_ambiguous fresh (drop 1 (OpenConnectionRequest2.marshal request)) peer refl refl

-- A connection request, and the packet that ends the handshake.
abbrev connection_request : List ℕ
connection_request =
    ConnectionRequest.marshal (record { client_guid = 5; request_time = 9; secure = false })

abbrev first_step : Handshake
first_step =
    (listener_handle 10 (new_handshake (v4 127 0 0 1 19_132) 19_133) connection_request 3).0

abbrev second_step : Handshake
second_step = (listener_handle 20 first_step (id_new_incoming_connection ∷ []) 3).0

established : second_step.connected ≡ true
unfolding listener_handle new_handshake handle_connection_request handle_new_incoming_connection
    send ConnectionRequest.marshal ConnectionRequest.unmarshal uint_at be_uint
established = refl

listener_handle-IsOrderly_example :
    (second_step.connected ≡ true → second_step.received_connection_request ≡ true)
    × (accepted_in second_step.sent ≤ 1)
listener_handle-IsOrderly_example =
    listener_handle-IsOrderly (v4 127 0 0 1 19_132) 19_133 second_step (
      one_more 20 (id_new_incoming_connection ∷ []) 3 first_step
        (one_more 10 connection_request 3 _ none_yet))
