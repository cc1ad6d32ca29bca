-- ===== src/Dialer/Agreement.antt =====
-- dial.go and handler.go: a dialer and a listener that talk to each other.
use go_raknet.Prelude.{
  ℕ, zero, suc, take, err, connection_exists, ◌^◌, ◌<◌, ◌≤◌, ◌≡◌, ◌≢◌, refl, ap, ◌∙◌, List, [], ◌∷◌,
  true, false, not, ltb, if◌then◌else◌, min, arith, length, drop, ok, ◌⊎◌, inl, inr, Bool-cases,
}
use go_raknet.Conn.{min_mtu_size, max_mtu_size}
use go_raknet.Message.{
  id_open_connection_request_1, id_open_connection_request_2, id_unconnected_ping,
  id_unconnected_pong,
}
use go_raknet.Message.Addr.{AddrPort, IsAddr}
use go_raknet.Message.Addr as Addr
use go_raknet.Message.OpenConnectionRequest1
use go_raknet.Message.OpenConnectionRequest1.{OpenConnectionRequest1}
use go_raknet.Message.OpenConnectionRequest2
use go_raknet.Message.OpenConnectionRequest2.{OpenConnectionRequest2}
use go_raknet.Message.OpenConnectionReply1
use go_raknet.Message.OpenConnectionReply1.{OpenConnectionReply1}
use go_raknet.Message.OpenConnectionReply2
use go_raknet.Message.OpenConnectionReply2.{OpenConnectionReply2}
use go_raknet.Message.UnconnectedPing
use go_raknet.Message.UnconnectedPing.{UnconnectedPing}
use go_raknet.Message.UnconnectedPong
use go_raknet.Message.UnconnectedPong.{UnconnectedPong}
use go_raknet.Handler.Keys.{same_addr_refl}
use go_raknet.Handler.{
  UdpAddr, Listener, protocol_version, cookie, resolve, has_connection, is_rejected,
  handle_open_connection_request_1, handle_open_connection_request_2, handle_unconnected,
  handle_unconnected_ping,
}
use go_raknet.Dialer.{
  Read, received, ConnState, returned, open_connection_request_2, discover_mtu, dial, ping,
  read_pong,
}
use go_raknet.Dialer.Replies.{IsOpen, found, discover_mtu_reply, lost_rounds, dial_makes_up}

-- The replies of a listener to the two requests of a peer, of which the first asks for `size`.
abbrev pub reply_1 : Listener → UdpAddr → ℕ → OpenConnectionReply1
reply_1 l addr size = record {
  server_guid = l.id;
  server_has_security = not l.disable_cookies;
  cookie = cookie addr l.current_cookie_salt;
  mtu = min size max_mtu_size;
}

abbrev pub reply_2 : Listener → UdpAddr → ℕ → OpenConnectionReply2
reply_2 l addr size = record {
  server_guid = l.id;
  client_address = resolve addr;
  mtu = min size max_mtu_size;
  do_security = false;
}

abbrev pub first_request : ℕ → OpenConnectionRequest1
first_request size = record { client_protocol = protocol_version; mtu = size }

listener_replies :
    (l : Listener) (addr : UdpAddr) (size : ℕ) (body : List ℕ)
    → OpenConnectionRequest1.unmarshal body ≡ ok (first_request size)
    → min_mtu_size ≤ size
    → has_connection (resolve addr) l.connections ≡ false
    → handle_unconnected l (id_open_connection_request_1 ∷ body) addr
      ≡ ((l, OpenConnectionReply1.marshal (reply_1 l addr size) ∷ []), ok tt)
unfolding handle_unconnected handle_open_connection_request_1
listener_replies l addr size body e fits new =
    let large : ltb size min_mtu_size ≡ false = ground (arith, fits) in rw (new, e, large) refl

-- The listener once it opened a connection.
abbrev pub opened : Listener → UdpAddr → ℕ → Listener
opened l addr mtu = record l { connections = (resolve addr, mtu) ∷ l.connections }

listener_opens :
    (l : Listener) (addr : UdpAddr) (size : ℕ) (body : List ℕ) (request : OpenConnectionRequest2)
    → OpenConnectionRequest2.unmarshal (not l.disable_cookies) body ≡ ok request
    → request.mtu ≡ min size max_mtu_size
    → min_mtu_size ≤ size
    → is_rejected l addr request.cookie ≡ false
    → has_connection (resolve addr) l.connections ≡ false
    → handle_unconnected l (id_open_connection_request_2 ∷ body) addr ≡ (
      (
        opened l addr (min size max_mtu_size),
        OpenConnectionReply2.marshal (reply_2 l addr size) ∷ [],
      ),
      ok tt,
    )
unfolding handle_unconnected handle_open_connection_request_2
listener_opens l addr size body request e same_mtu fits let_in new =
    let large : ltb (min size max_mtu_size) min_mtu_size ≡ false = ground (arith, fits) in
    let capped : min (min size max_mtu_size) max_mtu_size ≡ min size max_mtu_size = omega arith in
    rw (new, e, same_mtu, large, let_in, capped) refl

length-reply_1 :
    (pk : OpenConnectionReply1) → length (drop 1 (OpenConnectionReply1.marshal pk)) < 1492
unfolding OpenConnectionReply1.marshal
length-reply_1 pk = elim (Bool-cases pk.server_has_security) [
  | inl e ↦ ground (arith, e)
  | inr e ↦ ground (arith, e)
]

-- What the dialer and the listener reach together.
pub record IsAgreed (l : Listener) (addr : UdpAddr) (st : ConnState) (size : ℕ) (body : List ℕ)
    (reads : List Read) : Type 0 where
  pub found_state : ConnState
  pub first_reply : List ℕ
  pub second_reply : List ℕ
  pub answers_first :
      handle_unconnected l (id_open_connection_request_1 ∷ body) addr
      ≡ ((l, first_reply ∷ []), ok tt)
  pub finds :
      (later : List Read)
      → discover_mtu (received first_reply ∷ later) st ≡ returned found_state later (ok tt)
  pub answers_second :
      handle_unconnected l (open_connection_request_2 found_state) addr
      ≡ ((opened l addr (min size max_mtu_size), second_reply ∷ []), ok tt)
  pub refuses_again :
      handle_unconnected
        (opened l addr (min size max_mtu_size))
        (id_open_connection_request_1 ∷ body)
        addr
      ≡ ((opened l addr (min size max_mtu_size), []), err connection_exists)
  pub dials :
      (lost : ℕ)
      → IsOpen st (min size max_mtu_size) reads (
          dial
            (suc lost)
            (lost_rounds lost
              (drop 1 first_reply)
              (received first_reply ∷ received second_reply ∷ reads))
            st)

-- The cookie that the dialer sends back is one that the listener takes.
is_rejected-arrived :
    (l : Listener) (addr : UdpAddr) (size : ℕ)
    → (l.disable_cookies ≡ true)
      ⊎ (cookie addr l.current_cookie_salt ≢ cookie addr l.prev_cookie_salt)
    → is_rejected l addr (OpenConnectionReply1.arrived (reply_1 l addr size)).cookie ≡ false
unfolding is_rejected OpenConnectionReply1.arrived
is_rejected-arrived l addr size (inl off) = ground (arith, off)
is_rejected-arrived l addr size (inr apart) = elim (Bool-cases l.disable_cookies) [
  | inl off ↦ ground (arith, off)
  | inr on ↦ ground (arith, on, apart)
]

-- The second request of the dialer, as the listener reads it.
request_2-arrived :
    (l : Listener) (addr : UdpAddr) (st : ConnState) (size : ℕ)
    → IsAddr st.raddr
    → st.id < 2 ^ 64
    → cookie addr l.current_cookie_salt < 2 ^ 32
    → (request : OpenConnectionRequest2) × (OpenConnectionRequest2.unmarshal
          (not l.disable_cookies)
          (drop 1 (
            open_connection_request_2
              (found (OpenConnectionReply1.arrived (reply_1 l addr size)) st)))
        ≡ ok request)
      × (request.mtu ≡ min size max_mtu_size)
      × (is_rejected l addr request.cookie
          ≡ is_rejected l addr (OpenConnectionReply1.arrived (reply_1 l addr size)).cookie)
unfolding open_connection_request_2 OpenConnectionReply1.arrived
request_2-arrived l addr st size peer id small =
    let c = if not l.disable_cookies then cookie addr l.current_cookie_salt else 0 in
    let request : OpenConnectionRequest2 = record {
      server_address = st.raddr;
      mtu = min size max_mtu_size;
      client_guid = st.id;
      server_has_security = not l.disable_cookies;
      cookie = c;
    } in
    let e =
      OpenConnectionRequest2.unmarshal-marshal request peer (omega arith) id
        (ground (arith, small)) in
    let same_cookie : (OpenConnectionRequest2.received request).cookie ≡ c =
      unfold OpenConnectionRequest2.received in ground arith in
    (
      OpenConnectionRequest2.received request,
      e,
      unfold OpenConnectionRequest2.received in refl,
      ap (is_rejected l addr) same_cookie,
    )

-- A dialer and a listener that do not know each other agree on one connection. For a first request of
-- `size` bytes, at least 576, and with cookies either disabled or different under the two salts, the
-- listener answers both requests of the dialer and adds one connection, with the MTU `size`, capped at
-- 1200; the dialer takes both answers and ends with the same MTU, also when its second request does not
-- reach the listener in any number of rounds before. If it is the answer to the second request that is
-- lost, they do not agree: the listener has the connection, and answers the first request of the next
-- round with nothing but an error.
pub dialer_and_listener_agree :
    (l : Listener) (addr : UdpAddr) (st : ConnState) (size : ℕ) (body : List ℕ) (reads : List Read)
    → OpenConnectionRequest1.unmarshal body ≡ ok (first_request size)
    → min_mtu_size ≤ size
    → has_connection (resolve addr) l.connections ≡ false
    → (l.disable_cookies ≡ true)
      ⊎ (cookie addr l.current_cookie_salt ≢ cookie addr l.prev_cookie_salt)
    → cookie addr l.current_cookie_salt < 2 ^ 32
    → l.id < 2 ^ 64
    → st.id < 2 ^ 64
    → IsAddr st.raddr
    → IsAddr (resolve addr)
    → IsAgreed l addr st size body reads
unfolding OpenConnectionReply1.marshal OpenConnectionReply2.marshal open_connection_request_2
    OpenConnectionRequest2.marshal
dialer_and_listener_agree l addr st size body reads request fits new let_in small guid id peer
      client =
    let first = reply_1 l addr size in
    let second = reply_2 l addr size in
    let st' = found (OpenConnectionReply1.arrived first) st in
    let e_1 = OpenConnectionReply1.unmarshal-marshal first guid small (omega arith) in
    let e_2 = OpenConnectionReply2.unmarshal-marshal second guid client (omega arith) in
    let known : has_connection (resolve addr) (opened l addr (min size max_mtu_size)).connections
        ≡ true =
      unfold has_connection in rw (same_addr_refl (resolve addr)) refl in
    let (got, read_2, same_mtu, same_test) = request_2-arrived l addr st size peer id small in
    record {
      found_state = st';
      first_reply = OpenConnectionReply1.marshal first;
      second_reply = OpenConnectionReply2.marshal second;
      answers_first = listener_replies l addr size body request fits new;
      finds = λ later.
          discover_mtu_reply (drop 1 (OpenConnectionReply1.marshal first))
            (OpenConnectionReply1.arrived first) later st (length-reply_1 first) e_1;
      answers_second =
          listener_opens l addr size (drop 1 (open_connection_request_2 st')) got read_2 same_mtu
            fits (same_test ∙ is_rejected-arrived l addr size let_in) new;
      refuses_again = unfold handle_unconnected handle_open_connection_request_1 in rw (known) refl;
      dials = λ lost.
          dial_makes_up lost (drop 1 (OpenConnectionReply1.marshal first))
            (drop 1 (OpenConnectionReply2.marshal second)) (OpenConnectionReply1.arrived first)
            (record second { client_address = Addr.arrived (resolve addr) }) reads st
            (length-reply_1 first) e_1 e_2;
    }

take-all : (n : ℕ) (xs : List ℕ) → length xs ≤ n → take n xs ≡ xs
take-all zero [] h = refl
take-all zero (x ∷ xs) h = absurd (omega (arith, h))
take-all (suc n) [] h = refl
take-all (suc n) (x ∷ xs) h = ap (λ l. x ∷ l) (take-all n xs (omega (arith, h)))

-- The listener's answer to a ping.
abbrev pong_of : Listener → UnconnectedPing → UnconnectedPong
pong_of l pk = record { ping_time = pk.ping_time; server_guid = l.id; content = l.pong_data }

ping_pongs :
    (l : Listener) (body : List ℕ) (pk : UnconnectedPing)
    → UnconnectedPing.unmarshal body ≡ ok pk
    → handle_unconnected_ping l body ≡ ((l, UnconnectedPong.marshal (pong_of l pk) ∷ []), ok tt)
unfolding handle_unconnected_ping
ping_pongs l body pk e = ground (arith, e)

listener_pongs :
    (l : Listener) (addr : UdpAddr) (body : List ℕ) (pk : UnconnectedPing)
    → UnconnectedPing.unmarshal body ≡ ok pk
    → handle_unconnected l (id_unconnected_ping ∷ body) addr
      ≡ ((l, UnconnectedPong.marshal (pong_of l pk) ∷ []), ok tt)
unfolding handle_unconnected
listener_pongs l addr body pk e = ping_pongs l body pk e

read_pong_reply :
    (body : List ℕ) (pk : UnconnectedPong)
    → UnconnectedPong.unmarshal body ≡ ok pk
    → length body ≤ 65_534
    → read_pong (received (id_unconnected_pong ∷ body)) ≡ ok pk.content
unfolding read_pong
read_pong_reply body pk e short = rw (take-all 65_534 body short, e) refl

length-pong :
    (pk : UnconnectedPong)
    → length pk.content ≤ 32_767
    → length (drop 1 (UnconnectedPong.marshal pk)) ≤ 65_534
unfolding UnconnectedPong.marshal
length-pong pk h = omega (arith, h)

-- A ping of a listener whose pong data has at most 32767 bytes, the most that `PongData` takes, returns
-- this data, and leaves the listener as it was.
pub ping_returns_pong_data :
    (l : Listener) (addr : UdpAddr) (now id : ℕ)
    → now < 2 ^ 64
    → id < 2 ^ 64
    → l.id < 2 ^ 64
    → length l.pong_data ≤ 32_767
    → (reply : List ℕ) × (handle_unconnected l (ping now id) addr ≡ ((l, reply ∷ []), ok tt))
      × (read_pong (received reply) ≡ ok l.pong_data)
unfolding ping UnconnectedPing.marshal UnconnectedPong.marshal
ping_returns_pong_data l addr now id h_now h_id h_guid h_data =
    let asked : UnconnectedPing = record { ping_time = now; client_guid = id } in
    let pong = pong_of l asked in
    let e_1 = UnconnectedPing.unmarshal-marshal asked h_now h_id in
    let e_2 = UnconnectedPong.unmarshal-marshal pong h_now h_guid (omega (arith, h_data)) in
    (
      UnconnectedPong.marshal pong,
      listener_pongs l addr (drop 1 (UnconnectedPing.marshal asked)) asked e_1,
      read_pong_reply (drop 1 (UnconnectedPong.marshal pong)) pong e_2 (length-pong pong h_data),
    )
