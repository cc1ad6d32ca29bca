-- ===== src/Listening/Batches.antt =====
-- listener.go and listener_optimized_linux.go: the two loops that read a listener's socket, one datagram at
-- a time or many at once. What the reads of the standard library and of `recvmmsg` return, one after the
-- other, is a list; `big_endian` is the byte order of the machine. Zones of addresses are left out, as they
-- are in UdpAddr.
pub mod Equal
use go_raknet.Prelude.{
  ℕ, zero, suc, ◌+◌, ◌*◌, ◌/◌, ◌%◌, List, [], ◌∷◌, ◌++◌, Bool, true, false, ltb, ◌==◌,
  if◌then◌else◌, length, take, Option, none, some, Result, ok, err, panic, Error, closed,
  syscall_failed,
}
use go_raknet.Handler.{UdpAddr}
use go_raknet.Listening.{State, is_closed, dispatch_datagram}

abbrev pub listener_datagram_max_length : ℕ
listener_datagram_max_length = 1500

-- `net.PacketConn.ReadFrom`: a datagram, cut to the buffer, or an error.
pub data ReadFrom : Type 0 where
  datagram : List ℕ → UdpAddr → ReadFrom
  failed : Error → ReadFrom

-- `listenReadFrom`: the state, and whether the loop returned. An empty datagram is passed over.
unfoldable pub listen_read_from : List ReadFrom → State → State × Bool
listen_read_from [] s = (s, false)
listen_read_from (datagram [] addr ∷ reads) s = listen_read_from reads s
listen_read_from (datagram (x ∷ b) addr ∷ reads) s =
    listen_read_from reads (dispatch_datagram (x ∷ take 1499 b) addr s)
listen_read_from (failed e ∷ reads) s =
    let rest = listen_read_from reads s in if is_closed e then (s, true) else rest

-- `syscall.RawSockaddrAny`: the family, and the bytes behind it.
pub record RawSockaddr : Type 0 where
  pub family : ℕ
  pub rest : List ℕ

-- A message of `recvmmsg`: the buffer, with the bytes that were received in front, and their number; the
-- address, and its length.
pub record Message : Type 0 where
  pub buffer : List ℕ
  pub len : ℕ
  pub name : RawSockaddr
  pub name_len : ℕ

-- A number of 16 bits in memory, in the order of the machine.
unfoldable pub memory_word : Bool → ℕ → ℕ → ℕ
memory_word big_endian b0 b1 = if big_endian then b0 * 256 + b1 else b1 * 256 + b0

-- `networkToHostShort`
unfoldable pub network_to_host_short : ℕ → ℕ
network_to_host_short v = v / 256 + v % 256 * 256

-- `net.IPv4`
abbrev pub ipv4 : ℕ → ℕ → ℕ → ℕ → List ℕ
ipv4 a b c d = 0 ∷ 0 ∷ 0 ∷ 0 ∷ 0 ∷ 0 ∷ 0 ∷ 0 ∷ 0 ∷ 0 ∷ 255 ∷ 255 ∷ a ∷ b ∷ c ∷ d ∷ []

unfoldable pub inet4_addr : Bool → List ℕ → Option UdpAddr
inet4_addr big_endian (p0 ∷ p1 ∷ a ∷ b ∷ c ∷ d ∷ zeros) =
    some (record { ip = ipv4 a b c d; port = network_to_host_short (memory_word big_endian p0 p1) })
inet4_addr big_endian bytes = none

-- Behind the port stand four bytes of flow information.
unfoldable pub inet6_addr : Bool → List ℕ → Option UdpAddr
inet6_addr big_endian (p0 ∷ p1 ∷ f0 ∷ f1 ∷ f2 ∷ f3 ∷ bytes) =
    some
      (record { ip = take 16 bytes; port = network_to_host_short (memory_word big_endian p0 p1) })
inet6_addr big_endian bytes = none

-- `rawSockaddrToUDPAddr`; the families of IPv4 and IPv6 are 2 and 10, and their addresses have 16 and 28
-- bytes.
unfoldable pub raw_sockaddr_to_udp_addr : Bool → RawSockaddr → ℕ → Option UdpAddr
raw_sockaddr_to_udp_addr big_endian raw name_len =
    if name_len == 0
    then none
    else if raw.family == 2
    then (if ltb name_len 16 then none else inet4_addr big_endian raw.rest)
    else if raw.family == 10
    then (if ltb name_len 28 then none else inet6_addr big_endian raw.rest)
    else none

-- `packet`
unfoldable pub packet : Bool → Message → Option (List ℕ × UdpAddr)
packet big_endian m =
    let n =
      if ltb listener_datagram_max_length m.len then listener_datagram_max_length else m.len in
    elim (raw_sockaddr_to_udp_addr big_endian m.name m.name_len) [
      | none ↦ none
      | some addr ↦ some (take n m.buffer, addr)
    ]

-- What a call of `recvmmsg` can give, and an error of the connection around it.
pub data Recv : Type 0 where
  received : List Message → Recv
  interrupted again bad_descriptor other_errno : Recv
  raw_failed : Error → Recv

-- `readBatch`: the messages, with the calls that are left; `none` where it waits. It is called again after
-- an interrupt, and once there is something to read.
unfoldable pub read_batch : List Recv → Option (Result (List Message) × List Recv)
read_batch [] = none
read_batch (received ms ∷ recvs) = some (ok ms, recvs)
read_batch (interrupted ∷ recvs) = read_batch recvs
read_batch (again ∷ recvs) = read_batch recvs
read_batch (bad_descriptor ∷ recvs) = some (err closed, recvs)
read_batch (other_errno ∷ recvs) = some (err syscall_failed, recvs)
read_batch (raw_failed e ∷ recvs) = some (err e, recvs)

-- A datagram of a batch, unless its address is none of a UDP socket.
unfoldable pub dispatch_message : Bool → Message → State → State
dispatch_message big_endian m s = elim (packet big_endian m) [
  | none ↦ s
  | some (b, addr) ↦ dispatch_datagram b addr s
]

unfoldable pub dispatch_batch : Bool → List Message → State → State
dispatch_batch big_endian [] s = s
dispatch_batch big_endian (m ∷ ms) s =
    dispatch_batch big_endian ms (dispatch_message big_endian m s)

-- `listenOptimized` behind a reader that was made, on as many rounds as it takes.
unfoldable pub listen_optimized : Bool → ℕ → List Recv → State → State × Bool
listen_optimized big_endian zero recvs s = (s, false)
listen_optimized big_endian (suc n) recvs s = elim (read_batch recvs) [
  | none ↦ (s, false)
  | some (ok ms, rest) ↦ listen_optimized big_endian n rest (dispatch_batch big_endian ms s)
  | some (err e, rest) ↦ if is_closed e then (s, true) else listen_optimized big_endian n rest s
  | some (panic, rest) ↦ (s, false)
]

-- `listenConn`: the reads of one datagram where no batch reader can be made.
unfoldable pub listen_conn : Bool → Bool → ℕ → List Recv → List ReadFrom → State → State × Bool
listen_conn can_batch big_endian n recvs reads s =
    if can_batch then listen_optimized big_endian n recvs s else listen_read_from reads s
