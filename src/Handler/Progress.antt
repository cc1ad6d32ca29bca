-- ===== src/Handler/Progress.antt =====
-- handler.go: how the handshake of a listener's connection can go.
use go_raknet.Prelude.{
  ℕ, ◌+◌, ◌≤◌, ◌≡◌, refl, sym, subst, List, [], ◌∷◌, ◌++◌, Bool, true, false, ◌==◌, if◌then◌else◌,
  replicate, arith, inl, inr, Bool-cases, Result, ok, err, panic,
}
use go_raknet.Packet.{reliability_unreliable, reliability_reliable_ordered}
use go_raknet.Message.{
  id_connection_request_accepted, id_disconnect_notification, id_connected_pong, id_connected_ping,
  id_connection_request, id_new_incoming_connection, id_detect_lost_connections,
}
use go_raknet.Message.Addr.{AddrPort}
use go_raknet.Message.SystemAddresses.{system_address_count}
use go_raknet.Message.ConnectedPing
use go_raknet.Message.ConnectedPong
use go_raknet.Message.ConnectionRequest
use go_raknet.Message.ConnectionRequestAccepted
use go_raknet.Handler.Handshake.{
  Handshake, no_address, new_handshake, send, close_immediately, handle_connection_request,
  handle_new_incoming_connection, handle_connected_ping, handle_connected_pong, listener_handle,
}

-- Any number of packets, of any bytes and at any times, whatever each of them gives.
pub data Steps (h : Handshake) : Handshake → Type 0 where
  none_yet : Steps h h
  one_more :
      (now : ℕ) (b : List ℕ) (reliability : ℕ) (h' : Handshake)
      → Steps h h'
      → Steps h (listener_handle now h' b reliability).0

-- How many of the packets sent are CONNECTION_REQUEST_ACCEPTED.
pub accepted_in : List (List ℕ × ℕ) → ℕ
accepted_in [] = 0
accepted_in (([], reliability) ∷ sent) = accepted_in sent
accepted_in (((id ∷ b), reliability) ∷ sent) =
    (if id == id_connection_request_accepted then 1 else 0) + accepted_in sent

accepted_in-append :
    (sent : List (List ℕ × ℕ)) (m : List ℕ) (reliability : ℕ)
    → accepted_in (sent ++ ((m, reliability) ∷ []))
      ≡ accepted_in sent + accepted_in ((m, reliability) ∷ [])
unfolding accepted_in
accepted_in-append [] m reliability = omega arith
accepted_in-append (([], r) ∷ sent) m reliability = accepted_in-append sent m reliability
accepted_in-append (((i ∷ c), r) ∷ sent) m reliability =
    omega (arith, accepted_in-append sent m reliability)

-- A request is answered once, and a connection is established only after one.
pub record IsOrderly (h : Handshake) : Type 0 where
  pub requested : h.connected ≡ true → h.received_connection_request ≡ true
  pub answered : accepted_in h.sent ≡ (if h.received_connection_request then 1 else 0)

-- A packet that is sent and is no acceptance.
send-IsOrderly :
    (h : Handshake) (m : List ℕ) (reliability : ℕ)
    → accepted_in ((m, reliability) ∷ []) ≡ 0
    → IsOrderly h
    → IsOrderly (send h m reliability)
unfolding send
send-IsOrderly h m reliability other o = record {
  requested = o.requested;
  answered = omega (arith, o.answered, accepted_in-append h.sent m reliability, other);
}

close-IsOrderly : (h : Handshake) → IsOrderly h → IsOrderly (close_immediately h)
unfolding close_immediately send accepted_in
close-IsOrderly h o = elim (Bool-cases h.closed) [
  | inl e ↦ rw (close_immediately, e) (record { requested = o.requested; answered = o.answered })
  | inr e ↦
      let s =
        send-IsOrderly h (id_disconnect_notification ∷ []) reliability_reliable_ordered refl o in
      rw (close_immediately, e) (record { requested = s.requested; answered = s.answered })
]

request-IsOrderly :
    (h : Handshake) (b : List ℕ) → IsOrderly h → IsOrderly (handle_connection_request h b).0
unfolding handle_connection_request send ConnectionRequestAccepted.marshal accepted_in
request-IsOrderly h b o = elim (Bool-cases h.received_connection_request) [
  | inl e ↦
      rw (handle_connection_request, e)
        (record { requested = λ c. refl; answered = ground (arith, e, o.answered) })
  | inr e ↦ go (ConnectionRequest.unmarshal b) refl e
]
  where
    answer :
        ConnectionRequest.ConnectionRequest → ConnectionRequestAccepted.ConnectionRequestAccepted
    answer pk = record {
      client_address = h.peer;
      system_index = 0;
      system_addresses = replicate system_address_count no_address;
      ping_time = pk.request_time;
      pong_time = pk.request_time;
    }

    unanswered : h.received_connection_request ≡ false → accepted_in h.sent ≡ 0
    unanswered e = ground (arith, e, o.answered)

    go :
        (r : Result ConnectionRequest.ConnectionRequest)
        → ConnectionRequest.unmarshal b ≡ r
        → h.received_connection_request ≡ false
        → IsOrderly (handle_connection_request h b).0
    go (ok pk) f e =
        rw (handle_connection_request, e, f)
          (record {
            requested = λ c. refl;
            answered = omega (
              arith,
              unanswered e,
              accepted_in-append h.sent (ConnectionRequestAccepted.marshal (answer pk))
                  reliability_reliable_ordered,
            );
          })
    go (err x) f e =
        rw (handle_connection_request, e, f)
          (record {
            requested = λ c. absurd (ground (arith, o.requested c, e));
            answered = ground (arith, e, o.answered);
          })
    go panic f e =
        rw (handle_connection_request, e, f)
          (record {
            requested = λ c. absurd (ground (arith, o.requested c, e));
            answered = ground (arith, e, o.answered);
          })

pong-IsOrderly :
    (now : ℕ) (h : Handshake) (b : List ℕ)
    → IsOrderly h
    → IsOrderly (handle_connected_pong now h b).0
unfolding handle_connected_pong
pong-IsOrderly now h b o = go (ConnectedPong.unmarshal b) refl
  where
    go :
        (r : Result ConnectedPong.ConnectedPong)
        → ConnectedPong.unmarshal b ≡ r
        → IsOrderly (handle_connected_pong now h b).0
    go (ok pk) e =
        rw (handle_connected_pong, e) (record { requested = o.requested; answered = o.answered })
    go (err x) e = rw (handle_connected_pong, e) o
    go panic e = rw (handle_connected_pong, e) o

ping-IsOrderly :
    (now : ℕ) (h : Handshake) (b : List ℕ)
    → IsOrderly h
    → IsOrderly (handle_connected_ping now h b).0
unfolding handle_connected_ping ConnectedPong.marshal accepted_in
ping-IsOrderly now h b o = go (ConnectedPing.unmarshal b) refl
  where
    go :
        (r : Result ConnectedPing.ConnectedPing)
        → ConnectedPing.unmarshal b ≡ r
        → IsOrderly (handle_connected_ping now h b).0
    go (ok pk) e =
        rw (handle_connected_ping, e)
          (send-IsOrderly h
            (ConnectedPong.marshal (record { ping_time = pk.ping_time; pong_time = now }))
            reliability_unreliable refl o)
    go (err x) e = rw (handle_connected_ping, e) o
    go panic e = rw (handle_connected_ping, e) o

incoming-IsOrderly : (h : Handshake) → IsOrderly h → IsOrderly (handle_new_incoming_connection h).0
unfolding handle_new_incoming_connection
incoming-IsOrderly h o = elim (Bool-cases h.connected) [
  | inl e ↦
      rw (handle_new_incoming_connection, e)
        (record { requested = λ c. o.requested e; answered = o.answered })
  | inr e ↦ elim (Bool-cases h.received_connection_request) [
    | inl f ↦
        rw (handle_new_incoming_connection, e, f)
          (record { requested = λ c. refl; answered = ground (arith, f, o.answered) })
    | inr f ↦ let k = close-IsOrderly h o in subst IsOrderly (sym (refused e f)) k
  ]
]
  where
    refused :
        h.connected ≡ false
        → h.received_connection_request ≡ false
        → (handle_new_incoming_connection h).0 ≡ close_immediately h
    refused e f = ground (arith, e, f)

-- What holds of both branches.
both : {A : Type 0} (P : A → Type 0) (t : Bool) (x y : A) → P x → P y → P (if t then x else y)
both P true x y h k = h
both P false x y h k = k

handle-IsOrderly :
    (now : ℕ) (b : List ℕ) (reliability : ℕ) (h : Handshake)
    → IsOrderly h
    → IsOrderly (listener_handle now h b reliability).0
unfolding listener_handle
handle-IsOrderly now [] reliability h o = o
handle-IsOrderly now (id ∷ b) reliability h o =
    let P = λ (q : Handshake × Result Bool). IsOrderly q.0 in
    both P (id == id_connection_request) _ _ (request-IsOrderly h b o) (
      both P (id == id_connection_request_accepted) _ _ o (
        both P (id == id_new_incoming_connection) _ _ (incoming-IsOrderly h o) (
          both P (id == id_connected_ping) _ _ (ping-IsOrderly now h b o) (
            both P (id == id_connected_pong) _ _ (pong-IsOrderly now h b o) (
              both P (id == id_disconnect_notification) _ _ (close-IsOrderly h o)
                (both P (id == id_detect_lost_connections) _ _ o o))))))

-- Whatever packets a new connection of a listener handles, in any order and any number: it is
-- established only if a connection request was received, and of such requests one at most is
-- answered.
pub listener_handle-IsOrderly :
    (peer : AddrPort) (local_port : ℕ) (h : Handshake)
    → Steps (new_handshake peer local_port) h
    → (h.connected ≡ true → h.received_connection_request ≡ true) × (accepted_in h.sent ≤ 1)
listener_handle-IsOrderly peer local_port h steps =
    let o = reached (new_handshake peer local_port) h start-IsOrderly steps in
    (o.requested, ground (arith, o.answered))
  where
    start-IsOrderly : IsOrderly (new_handshake peer local_port)
    start-IsOrderly =
        unfold new_handshake accepted_in in (record { requested = λ c. cc; answered = refl })

    reached : (h h' : Handshake) → IsOrderly h → Steps h h' → IsOrderly h'
    reached h _ o none_yet = o
    reached h _ o (one_more now b reliability h' steps) =
        handle-IsOrderly now b reliability h' (reached h h' o steps)
