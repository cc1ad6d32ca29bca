-- ===== src/Listening/Batches/Equal.antt =====
-- listener.go and listener_optimized_linux.go: reading many datagrams at once does what reading one at a
-- time does. A socket of IPv4 gives the address of a peer in 4 bytes to a single read, and the batch reader
-- makes the 16 bytes of the mapped address of it.
use go_raknet.Prelude.{
  ◌==◌, ℕ, zero, suc, ◌/◌, ◌%◌, ◌^◌, ◌<◌, ◌≤◌, ◌≡◌, refl, ◌∙◌, ap, sym, subst, if◌then◌else◌, ltb,
  List, [], ◌∷◌, ◌++◌, true, false, arith, length, take, All, map, some, closed, syscall_failed,
  length-take,
}
use go_raknet.Message.{equal_bytes}
use go_raknet.Handler.{UdpAddr, resolve}
use go_raknet.Listening.{State, is_closed, to_16, ip_key, dispatch_datagram}
use go_raknet.Listening.Batches.{
  listener_datagram_max_length, ReadFrom, datagram, failed, listen_read_from, RawSockaddr, Message,
  memory_word, network_to_host_short, ipv4, inet4_addr, inet6_addr, raw_sockaddr_to_udp_addr,
  packet, Recv, received, interrupted, again, bad_descriptor, other_errno, read_batch,
  dispatch_message, dispatch_batch, listen_optimized,
}

-- A peer of a UDP socket.
pub data Peer : Type 0 where
  inet4 : ℕ → ℕ → ℕ → ℕ → ℕ → Peer
  inet6 : List ℕ → ℕ → Peer

abbrev pub IsPeer : Peer → Type 0
IsPeer (inet4 a b c d port) = port < 2 ^ 16
IsPeer (inet6 ip port) = (length ip ≡ 16) × (port < 2 ^ 16)

abbrev pub addr_of : Peer → UdpAddr
addr_of (inet4 a b c d port) = record { ip = ipv4 a b c d; port = port }
addr_of (inet6 ip port) = record { ip = ip; port = port }

-- As a single read gives it.
abbrev pub short_addr_of : Peer → UdpAddr
short_addr_of (inet4 a b c d port) = record { ip = a ∷ b ∷ c ∷ d ∷ []; port = port }
short_addr_of (inet6 ip port) = record { ip = ip; port = port }

-- A listener with the addresses of waiting datagrams in 16 bytes.
abbrev pub wide : UdpAddr → UdpAddr
wide addr = record addr { ip = to_16 addr.ip }

abbrev pub widened : State → State
widened s = record s { queued = map (λ q. (wide q.0, q.1)) s.queued }

-- What the kernel writes for a peer: the port is in the order of the network.
abbrev pub sockaddr_of : Peer → RawSockaddr
sockaddr_of (inet4 a b c d port) = record {
  family = 2;
  rest = port / 256 ∷ port % 256 ∷ a ∷ b ∷ c ∷ d ∷ 0 ∷ 0 ∷ 0 ∷ 0 ∷ 0 ∷ 0 ∷ 0 ∷ 0 ∷ [];
}
sockaddr_of (inet6 ip port) = record {
  family = 10;
  rest = port / 256 ∷ port % 256 ∷ 0 ∷ 0 ∷ 0 ∷ 0 ∷ (ip ++ (0 ∷ 0 ∷ 0 ∷ 0 ∷ []));
}

abbrev pub sockaddr_size : Peer → ℕ
sockaddr_size (inet4 a b c d port) = 16
sockaddr_size (inet6 ip port) = 28

-- A datagram of a peer, and what its buffer has behind it.
pub record Arrival : Type 0 where
  pub content : List ℕ
  pub peer : Peer
  pub old : List ℕ

abbrev pub IsArrival : Arrival → Type 0
IsArrival a = IsPeer a.peer

abbrev pub message_of : Arrival → Message
message_of a = record {
  buffer = take 1500 a.content ++ a.old;
  len = length (take 1500 a.content);
  name = sockaddr_of a.peer;
  name_len = sockaddr_size a.peer;
}

abbrev pub read_of : Arrival → ReadFrom
read_of a = datagram a.content (short_addr_of a.peer)

-- What the socket does while the loop runs.
pub data Turn : Type 0 where
  batch : List Arrival → Turn
  interrupt nothing broken : Turn

abbrev pub IsTurn : Turn → Type 0
IsTurn (batch arrivals) = All IsArrival arrivals
IsTurn other = Unit {0}

-- The socket as each of the loops sees it, up to its end.
pub recvs_of : List Turn → List Recv
recvs_of [] = bad_descriptor ∷ []
recvs_of (batch arrivals ∷ turns) = received (map message_of arrivals) ∷ recvs_of turns
recvs_of (interrupt ∷ turns) = interrupted ∷ recvs_of turns
recvs_of (nothing ∷ turns) = again ∷ recvs_of turns
recvs_of (broken ∷ turns) = other_errno ∷ recvs_of turns

pub reads_of : List Turn → List ReadFrom
reads_of [] = failed closed ∷ []
reads_of (batch arrivals ∷ turns) = map read_of arrivals ++ reads_of turns
reads_of (interrupt ∷ turns) = reads_of turns
reads_of (nothing ∷ turns) = reads_of turns
reads_of (broken ∷ turns) = failed syscall_failed ∷ reads_of turns

take-append : (xs ys : List ℕ) → take (length xs) (xs ++ ys) ≡ xs
take-append [] ys = refl
take-append (x ∷ xs) ys = rw (take-append xs ys) refl

length-map :
    (f : UdpAddr × List ℕ → UdpAddr × List ℕ) (xs : List (UdpAddr × List ℕ))
    → length (map f xs) ≡ length xs
length-map f [] = refl
length-map f (x ∷ xs) = ap suc (length-map f xs)

map-append :
    (f : UdpAddr × List ℕ → UdpAddr × List ℕ) (xs ys : List (UdpAddr × List ℕ))
    → map f (xs ++ ys) ≡ map f xs ++ map f ys
map-append f [] ys = refl
map-append f (x ∷ xs) ys = ap (λ l. f x ∷ l) (map-append f xs ys)

port_arrives :
    (port : ℕ)
    → port < 2 ^ 16
    → network_to_host_short (memory_word false (port / 256) (port % 256)) ≡ port
unfolding network_to_host_short memory_word
port_arrives port h = omega arith

peer_arrives :
    (p : Peer)
    → IsPeer p
    → raw_sockaddr_to_udp_addr false (sockaddr_of p) (sockaddr_size p) ≡ some (addr_of p)
unfolding raw_sockaddr_to_udp_addr inet4_addr inet6_addr
peer_arrives (inet4 a b c d port) h = rw (port_arrives port h) refl
peer_arrives (inet6 ip port) h =
    let t : take 16 (ip ++ (0 ∷ 0 ∷ 0 ∷ 0 ∷ [])) ≡ ip =
      subst (λ n. take n (ip ++ (0 ∷ 0 ∷ 0 ∷ 0 ∷ [])) ≡ ip) h.0
        (take-append ip (0 ∷ 0 ∷ 0 ∷ 0 ∷ [])) in
    rw (port_arrives port h.1, t) refl

packet-message_of :
    (a : Arrival)
    → IsArrival a
    → packet false (message_of a) ≡ some (take 1500 a.content, addr_of a.peer)
unfolding packet
packet-message_of a h =
    let b = take 1500 a.content in
    let short : length b ≤ 1500 = omega (arith, length-take 1500 a.content) in
    let n : (if ltb listener_datagram_max_length (length b)
          then listener_datagram_max_length
          else length b)
        ≡ length b =
      ground (arith, short) in
    ground (arith, peer_arrives a.peer h, n, take-append b a.old)

wide-short_addr_of : (p : Peer) → IsPeer p → wide (short_addr_of p) ≡ addr_of p
unfolding to_16
wide-short_addr_of (inet4 a b c d port) h = refl
wide-short_addr_of (inet6 ip port) h =
    let apart : (length ip == 4) ≡ false = ground (arith, h.0) in rw (apart) refl

resolve-addr_of : (p : Peer) → resolve (addr_of p) ≡ resolve (short_addr_of p)
unfolding resolve equal_bytes
resolve-addr_of (inet4 a b c d port) = refl
resolve-addr_of (inet6 ip port) = refl

ip_key-addr_of : (p : Peer) → ip_key (addr_of p) ≡ ip_key (short_addr_of p)
unfolding ip_key to_16
ip_key-addr_of (inet4 a b c d port) = refl
ip_key-addr_of (inet6 ip port) = refl

-- What a single read does with a datagram.
abbrev single : Arrival → State → State
single a s = dispatch_datagram (take 1500 a.content) (short_addr_of a.peer) s

dispatch-widened :
    (b : List ℕ) (p : Peer) (s : State)
    → IsPeer p
    → dispatch_datagram b (addr_of p) (widened s)
      ≡ widened (dispatch_datagram b (short_addr_of p) s)
unfolding dispatch_datagram
dispatch-widened [] p s h = refl
dispatch-widened (flags ∷ b) p s h =
    let q =
      map-append (λ (q : UdpAddr × List ℕ). (wide q.0, q.1)) s.queued
        ((short_addr_of p, flags ∷ b) ∷ []) in
    let n = length-map (λ (q : UdpAddr × List ℕ). (wide q.0, q.1)) s.queued in
    rw (resolve-addr_of p, ip_key-addr_of p, n, sym (wide-short_addr_of p h)) (ground (arith, q))

one_message :
    (a : Arrival) (s : State)
    → IsArrival a
    → dispatch_message false (message_of a) (widened s) ≡ widened (single a s)
unfolding dispatch_message
one_message a s h =
    rw (packet-message_of a h, dispatch_message) (dispatch-widened (take 1500 a.content) a.peer s h)

one_read :
    (a : Arrival) (reads : List ReadFrom) (s : State)
    → listen_read_from (read_of a ∷ reads) s ≡ listen_read_from reads (single a s)
unfolding listen_read_from
one_read a reads s = go a.content
  where
    go :
        (b : List ℕ)
        → listen_read_from (datagram b (short_addr_of a.peer) ∷ reads) s
          ≡ listen_read_from reads (dispatch_datagram (take 1500 b) (short_addr_of a.peer) s)
    go [] = unfold dispatch_datagram in refl
    go (x ∷ b) = refl

single_all : List Arrival → State → State
single_all [] s = s
single_all (a ∷ arrivals) s = single_all arrivals (single a s)

-- A batch does what as many reads do.
batch-widened :
    (arrivals : List Arrival) (s : State)
    → All IsArrival arrivals
    → dispatch_batch false (map message_of arrivals) (widened s) ≡ widened (single_all arrivals s)
unfolding dispatch_batch single_all
batch-widened [] s h = refl
batch-widened (a ∷ arrivals) s h =
    ap (dispatch_batch false (map message_of arrivals)) (one_message a s h.0)
    ∙ batch-widened arrivals (single a s) h.1

reads-single_all :
    (arrivals : List Arrival) (reads : List ReadFrom) (s : State)
    → listen_read_from (map read_of arrivals ++ reads) s
      ≡ listen_read_from reads (single_all arrivals s)
unfolding single_all
reads-single_all [] reads s = refl
reads-single_all (a ∷ arrivals) reads s =
    one_read a (map read_of arrivals ++ reads) s ∙ reads-single_all arrivals reads (single a s)

-- Whatever arrives at a listener's socket, in whatever batches, between interrupts, waits and errors, up
-- to the end of the socket: on a little-endian machine the loop over batches leaves the listener in the
-- state in which the loop over single reads leaves it, but that the addresses of the unconnected
-- datagrams that wait are spelled in 16 bytes where a socket of IPv4 gives 4; and both loops return. A
-- round for each turn of the socket, and one more, are enough.
pub listen_optimized-listen_read_from :
    (turns : List Turn) (n : ℕ) (s : State)
    → All IsTurn turns
    → length turns < n
    → (listen_optimized false n (recvs_of turns) (widened s)
        ≡ (widened (listen_read_from (reads_of turns) s).0, true))
      × ((listen_read_from (reads_of turns) s).1 ≡ true)
unfolding listen_optimized listen_read_from read_batch is_closed reads_of recvs_of
listen_optimized-listen_read_from turns zero s h k = absurd (omega (arith, k))
listen_optimized-listen_read_from [] (suc n) s h k = (refl, refl)
listen_optimized-listen_read_from (batch arrivals ∷ turns) (suc n) s h k =
    let e = reads-single_all arrivals (reads_of turns) s in
    let f = batch-widened arrivals s h.0 in
    let i =
      listen_optimized-listen_read_from turns n (single_all arrivals s) h.1 (omega (arith, k)) in
    (
      ap (listen_optimized false n (recvs_of turns)) f
          ∙ i.0
          ∙ ap (λ r. (widened r.0, true)) (sym e),
      ap (λ r. r.1) e ∙ i.1,
    )
listen_optimized-listen_read_from (interrupt ∷ turns) (suc n) s h k =
    listen_optimized-listen_read_from turns (suc n) s h.1 (omega (arith, k))
listen_optimized-listen_read_from (nothing ∷ turns) (suc n) s h k =
    listen_optimized-listen_read_from turns (suc n) s h.1 (omega (arith, k))
listen_optimized-listen_read_from (broken ∷ turns) (suc n) s h k =
    listen_optimized-listen_read_from turns n s h.1 (omega (arith, k))
