-- ===== src/Dialer/Connecting.antt =====
-- dial.go and handler.go: the packets by which both ends come to be connected.
use go_raknet.Prelude.{
  ℕ, zero, suc, ◌^◌, ◌<◌, ◌≡◌, refl, List, [], ◌∷◌, ◌++◌, true, false, arith, drop, All, replicate,
  ok,
}
use go_raknet.Packet.{reliability_reliable_ordered}
use go_raknet.Message.{
  id_connection_request, id_connection_request_accepted, id_new_incoming_connection,
}
use go_raknet.Message.Addr.{AddrPort, v4, IsAddr}
use go_raknet.Message.SystemAddresses.{system_address_count}
use go_raknet.Message.ConnectionRequest
use go_raknet.Message.ConnectionRequest.{ConnectionRequest}
use go_raknet.Message.ConnectionRequestAccepted
use go_raknet.Message.ConnectionRequestAccepted.{ConnectionRequestAccepted}
use go_raknet.Message.NewIncomingConnection
use go_raknet.Message.NewIncomingConnection.{NewIncomingConnection}
use go_raknet.Handler.Handshake.{
  Handshake, no_address, send, listener_handle, dialer_handle, handle_connection_request,
  handle_connection_request_accepted, handle_new_incoming_connection,
}
use go_raknet.Dialer.{ConnState, connect}

-- What `connect` sends.
abbrev pub request : ℕ → ConnState → ConnectionRequest
request now st = record { client_guid = st.id; request_time = now; secure = false }

-- What the listener answers.
abbrev pub acceptance : AddrPort → ConnectionRequest → ConnectionRequestAccepted
acceptance peer pk = record {
  client_address = peer;
  system_index = 0;
  system_addresses = replicate system_address_count no_address;
  ping_time = pk.request_time;
  pong_time = pk.request_time;
}

accepts :
    (now : ℕ) (h : Handshake) (body : List ℕ) (pk : ConnectionRequest) (reliability : ℕ)
    → ConnectionRequest.unmarshal body ≡ ok pk
    → h.received_connection_request ≡ false
    → listener_handle now h (id_connection_request ∷ body) reliability ≡ (
      send
          (record h { received_connection_request = true })
          (ConnectionRequestAccepted.marshal (acceptance h.peer pk))
          reliability_reliable_ordered,
      ok true,
    )
unfolding listener_handle handle_connection_request
accepts now h body pk reliability e first = rw (first, e) refl

-- What the dialer answers to that.
abbrev pub incoming : ℕ → Handshake → ConnectionRequestAccepted → NewIncomingConnection
incoming now h pk = record {
  server_address = h.peer;
  system_addresses = v4 127 0 0 1 h.local_port ∷ replicate 19 no_address;
  ping_time = pk.pong_time;
  pong_time = now;
}

joined :
    (now : ℕ) (h : Handshake) (body : List ℕ) (pk : ConnectionRequestAccepted)
    → ConnectionRequestAccepted.unmarshal body ≡ ok pk
    → h.connected ≡ false
    → handle_connection_request_accepted now h body ≡ (
      record (send h
          (NewIncomingConnection.marshal (incoming now h pk))
          reliability_reliable_ordered) { connected = true },
      ok true,
    )
unfolding handle_connection_request_accepted
joined now h body pk e new = ground (arith, e, new)

joins :
    (now : ℕ) (h : Handshake) (body : List ℕ) (pk : ConnectionRequestAccepted) (reliability : ℕ)
    → ConnectionRequestAccepted.unmarshal body ≡ ok pk
    → h.connected ≡ false
    → dialer_handle now h (id_connection_request_accepted ∷ body) reliability ≡ (
      record (send h
          (NewIncomingConnection.marshal (incoming now h pk))
          reliability_reliable_ordered) { connected = true },
      ok true,
    )
unfolding dialer_handle
joins now h body pk reliability e new = joined now h body pk e new

finishes :
    (now : ℕ) (h : Handshake) (body : List ℕ) (reliability : ℕ)
    → h.received_connection_request ≡ true
    → h.connected ≡ false
    → listener_handle now h (id_new_incoming_connection ∷ body) reliability
      ≡ (record h { connected = true }, ok true)
unfolding listener_handle handle_new_incoming_connection
finishes now h body reliability requested new = ground (arith, requested, new)

no_addresses : (n : ℕ) → All IsAddr (replicate n no_address)
no_addresses zero = tt
no_addresses (suc n) =
    ((omega arith, omega arith, omega arith, omega arith, omega arith), no_addresses n)

-- The three packets after which both ends are connected, each handled without an error, and each sent
-- by the end that the other one hears.
pub record IsConnecting (now : ℕ) (st : ConnState) (dialer listener : Handshake) : Type 0 where
  pub reply : List ℕ
  pub last : List ℕ
  pub accepting : Handshake
  pub joining : Handshake
  pub finished : Handshake
  pub handles_request :
      (at reliability : ℕ)
      → listener_handle at listener (ConnectionRequest.marshal (request now st)) reliability
        ≡ (accepting, ok true)
  pub sends_reply : accepting.sent ≡ listener.sent ++ ((reply, reliability_reliable_ordered) ∷ [])
  pub handles_reply :
      (reliability : ℕ)
      → dialer_handle now (connect now st dialer) reply reliability ≡ (joining, ok true)
  pub sends_last :
      joining.sent ≡ (connect now st dialer).sent ++ ((last, reliability_reliable_ordered) ∷ [])
  pub handles_last :
      (at reliability : ℕ) → listener_handle at accepting last reliability ≡ (finished, ok true)
  pub dialer_connected : joining.connected ≡ true
  pub listener_connected : finished.connected ≡ true

-- From fresh ends, the request that `connect` sends, the listener's answer to it and the dialer's
-- answer to that leave both ends connected.
pub connect-IsConnecting :
    (now : ℕ) (st : ConnState) (dialer listener : Handshake)
    → listener.received_connection_request ≡ false
    → listener.connected ≡ false
    → dialer.connected ≡ false
    → IsAddr listener.peer
    → st.id < 2 ^ 64
    → now < 2 ^ 64
    → IsConnecting now st dialer listener
unfolding connect send ConnectionRequest.marshal ConnectionRequestAccepted.marshal
    NewIncomingConnection.marshal
connect-IsConnecting now st dialer listener first new_l new_d peer id time =
    let pk = request now st in
    let answer = acceptance listener.peer pk in
    let e_1 = ConnectionRequest.unmarshal-marshal pk id time in
    let e_2 =
      ConnectionRequestAccepted.unmarshal-marshal answer peer (omega arith)
        (no_addresses system_address_count) (omega arith) time time in
    let heard = ConnectionRequestAccepted.received answer in
    let sent = connect now st dialer in
    let last = incoming now sent heard in
    let accepting =
      send (record listener { received_connection_request = true })
        (ConnectionRequestAccepted.marshal answer) reliability_reliable_ordered in
    record {
      reply = ConnectionRequestAccepted.marshal answer;
      last = NewIncomingConnection.marshal last;
      accepting = accepting;
      joining =
          record (send sent (NewIncomingConnection.marshal last) reliability_reliable_ordered) {
            connected = true;
          };
      finished = record accepting { connected = true };
      handles_request = λ at reliability.
          accepts at listener (drop 1 (ConnectionRequest.marshal pk)) pk reliability e_1 first;
      sends_reply = refl;
      handles_reply = λ reliability.
          joins now sent (drop 1 (ConnectionRequestAccepted.marshal answer)) heard reliability e_2
            new_d;
      sends_last = refl;
      handles_last = λ at reliability.
          finishes at accepting (drop 1 (NewIncomingConnection.marshal last)) reliability refl
            new_l;
      dialer_connected = refl;
      listener_connected = refl;
    }
