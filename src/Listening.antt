-- ===== src/Listening.antt =====
-- listener.go: a listener as a whole: where its datagrams go, which peers it blocks, which connections it
-- hands out. Each function is a step of one goroutine. An unconnected datagram waits in `queued` for one of
-- the four workers; a worker takes it, looks its peer up and finishes in three steps, and the steps of
-- other goroutines may come between them.
-- A round of updates is one step. What a connection is given is in `delivered`; what closing does to a connection itself is in Session.
-- Of two channels that are both ready the one of the closing is taken; that `incoming` holds only eight
-- connections, so that an update may wait for `Accept`, is left out.
pub mod Blocking
mod Opening
mod Rounds
mod Steps
pub mod Accepting
pub mod Batches
pub mod Sockets
mod Tests
use go_raknet.Prelude.{
  ℕ, zero, suc, ◌+◌, ◌-◌, ◌*◌, List, [], ◌∷◌, ◌++◌, Bool, true, false, not, ltb, ◌==◌, ◌&&◌, ◌||◌,
  if◌then◌else◌, length, Option, none, some, Result, ok, err, panic, Error, closed, bit_and, map,
}
use go_raknet.Packet.{bit_flag_datagram}
use go_raknet.ResendMap.{second}
use go_raknet.Message.{id_disconnect_notification}
use go_raknet.Message.Addr.{AddrPort}
use go_raknet.Security.{Security, block, blocked}
use go_raknet.Handler.{UdpAddr, Listener, same_addr, has_connection, handle_unconnected, resolve}

abbrev pub connection_sequence_timeout : ℕ
connection_sequence_timeout = 10 * second

abbrev pub listener_unconnected_datagram_buffer : ℕ
listener_unconnected_datagram_buffer = 4096

abbrev pub listener_unconnected_datagram_workers : ℕ
listener_unconnected_datagram_workers = 4

-- What `updateConnections` sees of a connection.
pub record Pending : Type 0 where
  pub raddr : AddrPort
  pub created_at : ℕ
  pub connected : Bool
  pub accepted : Bool

-- What a worker of an unconnected datagram has in hand: the datagram, and the connections once it has
-- looked its peer up in them.
pub record Work : Type 0 where
  pub peer : UdpAddr
  pub content : List ℕ
  pub loaded : Option (List (AddrPort × ℕ))

pub record State : Type 0 where
  pub security : Security
  pub listener : Listener
  pub pending : List Pending
  pub queued : List (UdpAddr × List ℕ)
  pub working : List Work
  pub delivered : List (AddrPort × List ℕ)
  pub incoming : List AddrPort
  pub sent : List (UdpAddr × List ℕ)
  pub closed_down : Bool

-- The number that the 16 bytes of an IP spell, as `Security` has it.
unfoldable pub bytes_value : List ℕ → ℕ → ℕ
bytes_value [] v = v
bytes_value (b ∷ bs) v = bytes_value bs (v * 256 + b)

-- `IP.To16`.
unfoldable pub to_16 : List ℕ → List ℕ
to_16 ip = if length ip == 4 then 0 ∷ 0 ∷ 0 ∷ 0 ∷ 0 ∷ 0 ∷ 0 ∷ 0 ∷ 0 ∷ 0 ∷ 255 ∷ 255 ∷ ip else ip

unfoldable pub ip_key : UdpAddr → ℕ
ip_key addr = bytes_value (to_16 addr.ip) 0

-- `dispatchDatagram`: one of a connection goes to it, any other to the workers if there is room.
unfoldable pub dispatch_datagram : List ℕ → UdpAddr → State → State
dispatch_datagram [] addr s = s
dispatch_datagram (flags ∷ b) addr s =
    if blocked s.security (ip_key addr)
    then s
    else if not (bit_and flags bit_flag_datagram == 0) || flags == id_disconnect_notification
    then (if has_connection (resolve addr) s.listener.connections
        then record s { delivered = s.delivered ++ ((resolve addr, flags ∷ b) ∷ []) }
        else s)
    else if s.closed_down || not (ltb (length s.queued) listener_unconnected_datagram_buffer)
    then s
    else record s { queued = s.queued ++ ((addr, flags ∷ b) ∷ []) }

-- `connections.Delete`
unfoldable pub delete_connection : AddrPort → List (AddrPort × ℕ) → List (AddrPort × ℕ)
delete_connection a [] = []
delete_connection a ((b, mtu) ∷ connections) =
    let rest = delete_connection a connections in if same_addr a b then rest else ((b, mtu) ∷ rest)

unfoldable pub delete_pending : AddrPort → List Pending → List Pending
delete_pending a [] = []
delete_pending a (p ∷ ps) =
    let rest = delete_pending a ps in if same_addr a p.raddr then rest else (p ∷ rest)

-- `connections.Store` of the connection that the handler opened, if it did: it takes the place of one of the
-- same address. `before` and `after` are the connections as the handler has them.
unfoldable pub store_new :
    List (AddrPort × ℕ) → List (AddrPort × ℕ) → List (AddrPort × ℕ) → List (AddrPort × ℕ)
store_new before [] connections = connections
store_new before ((a, mtu) ∷ after) connections =
    let stored = (a, mtu) ∷ delete_connection a connections in
    if length before == length after then stored else connections

-- The same for what `updateConnections` sees.
unfoldable pub note_new :
    ℕ → List (AddrPort × ℕ) → List (AddrPort × ℕ) → List Pending → List Pending
note_new now before [] pending = pending
note_new now before ((a, mtu) ∷ after) pending =
    let noted =
      record { raddr = a; created_at = now; connected = false; accepted = false }
      ∷ delete_pending a pending in
    if length before == length after then noted else pending

-- `errors.Is(err, net.ErrClosed)`
unfoldable pub is_closed : Error → Bool
is_closed closed = true
is_closed other = false

-- The error of an unconnected datagram blocks the peer, unless it says that something is closed.
unfoldable pub block_on_error : ℕ → UdpAddr → State → Result (Unit {0}) → State × Result (Unit {0})
block_on_error now addr s (ok x) = (s, ok tt)
block_on_error now addr s panic = (s, panic)
block_on_error now addr s (err e) =
    if is_closed e
    then (s, ok tt)
    else (record s { security = block now s.security (ip_key addr) }, ok tt)

-- `handleUnconnectedDatagram` of a worker whose look-up of the peer found the connections `loaded`. By the
-- time it stores a connection, there may be others.
unfoldable pub handle_unconnected_datagram :
    ℕ → List (AddrPort × ℕ) → List ℕ → UdpAddr → State → State × Result (Unit {0})
handle_unconnected_datagram now loaded b addr s =
    let ((l, replies), r) =
      handle_unconnected (record s.listener { connections = loaded }) b addr in
    let handled = record s {
      listener = record s.listener {
        connections = store_new loaded l.connections s.listener.connections;
      };
      pending = note_new now loaded l.connections s.pending;
      sent = s.sent ++ map (λ d. (addr, d)) replies;
    } in
    block_on_error now addr handled r

-- A worker that is free takes the datagram that waits longest.
unfoldable pub take_on : List (UdpAddr × List ℕ) → State → State
take_on [] s = s
take_on ((addr, b) ∷ queued) s =
    if s.closed_down || not (ltb (length s.working) listener_unconnected_datagram_workers)
    then s
    else record s {
      queued = queued;
      working = s.working ++ (record { peer = addr; content = b; loaded = none } ∷ []);
    }

-- `connections.Load` of the worker of the number `n`.
unfoldable pub load_at : ℕ → List (AddrPort × ℕ) → List Work → List Work
load_at n connections [] = []
load_at zero connections (w ∷ ws) =
    (elim w.loaded [ none ↦ record w { loaded = some connections } | some c ↦ w ]) ∷ ws
load_at (suc n) connections (w ∷ ws) = w ∷ load_at n connections ws

unfoldable pub load_connections : ℕ → State → State
load_connections n s = record s { working = load_at n s.listener.connections s.working }

-- The worker of the number `n`, if it has loaded the connections, and the others.
unfoldable pub pick : ℕ → List Work → Option (Work × List (AddrPort × ℕ) × List Work)
pick n [] = none
pick zero (w ∷ ws) = elim w.loaded [ none ↦ none | some loaded ↦ some (w, loaded, ws) ]
pick (suc n) (w ∷ ws) = elim (pick n ws) [
  | none ↦ none
  | some (found, loaded, rest) ↦ some (found, loaded, w ∷ rest)
]

-- The rest of the work on its datagram.
unfoldable pub finish_at :
    ℕ → Option (Work × List (AddrPort × ℕ) × List Work) → State → State × Result (Unit {0})
finish_at now none s = (s, ok tt)
finish_at now (some (w, loaded, rest)) s =
    handle_unconnected_datagram now loaded w.content w.peer (record s { working = rest })

unfoldable pub finish_work : ℕ → ℕ → State → State × Result (Unit {0})
finish_work now n s = finish_at now (pick n s.working) s

-- The loop of `updateConnections` over the connections: those that stay, and the addresses of those
-- that are handed to `Accept`.
unfoldable pub update_loop : ℕ → List Pending → List Pending × List AddrPort
update_loop now [] = ([], [])
update_loop now (p ∷ ps) =
    let (left, handed) = update_loop now ps in
    if p.connected
    then (record p { accepted = true } ∷ left, (if p.accepted then handed else p.raddr ∷ handed))
    else if ltb connection_sequence_timeout (now - p.created_at)
    then (left, handed)
    else (p ∷ left, handed)

unfoldable pub is_left : AddrPort → List Pending → Bool
is_left a [] = false
is_left a (p ∷ ps) = same_addr a p.raddr || is_left a ps

-- The connections of the listener that were not removed.
unfoldable pub keep_left : List Pending → List (AddrPort × ℕ) → List (AddrPort × ℕ)
keep_left left [] = []
keep_left left ((a, mtu) ∷ connections) =
    let rest = keep_left left connections in if is_left a left then ((a, mtu) ∷ rest) else rest

unfoldable pub update_connections : ℕ → State → State
update_connections now s =
    let (left, handed) = update_loop now s.pending in
    if s.closed_down then s else record s {
      pending = left;
      listener = record s.listener { connections = keep_left left s.listener.connections };
      incoming = s.incoming ++ handed;
    }

-- `Accept`: `none` is a call that waits. The channel is closed once the sockets are.
unfoldable pub accept_from : List AddrPort → State → Option (State × Result AddrPort)
accept_from [] s = if s.closed_down then some (s, err closed) else none
accept_from (a ∷ incoming) s = some (record s { incoming = incoming }, ok a)

unfoldable pub accept : State → Option (State × Result AddrPort)
accept s = accept_from s.incoming s

-- `close` of the listener's handler, once a connection is closed.
unfoldable pub close_connection : AddrPort → State → State
close_connection a s = record s {
  pending = delete_pending a s.pending;
  listener = record s.listener { connections = delete_connection a s.listener.connections };
}

-- A connection closes its channel `connected`.
unfoldable pub set_connected : AddrPort → List Pending → List Pending
set_connected a [] = []
set_connected a (p ∷ ps) =
    (if same_addr a p.raddr then record p { connected = true } else p) ∷ set_connected a ps

-- The error handler of a connection: a datagram that it cannot handle blocks its peer.
unfoldable pub handle_datagram_error : ℕ → UdpAddr → State → State
handle_datagram_error now addr s = record s { security = block now s.security (ip_key addr) }

-- `Close` of the listener: only the first call does anything.
unfoldable pub close_listener : State → State
close_listener s = record s { closed_down = true }

-- `PongData`
unfoldable pub set_pong_data : List ℕ → State → Result State
set_pong_data content s =
    if ltb 32767 (length content)
    then panic
    else ok (record s { listener = record s.listener { pong_data = content } })

-- What the goroutines of a listener do, one after the other.
pub data Event : Type 0 where
  dispatches : List ℕ → UdpAddr → Event
  takes : Event
  loads : ℕ → Event
  finishes : ℕ → ℕ → Event
  updates : ℕ → Event
  connects : AddrPort → Event
  fails : ℕ → UdpAddr → Event
  closes : AddrPort → Event
  accepts closes_down : Event

unfoldable pub note_accepted :
    State → List AddrPort → Option (State × Result AddrPort) → State × List AddrPort
note_accepted s out none = (s, out)
note_accepted s out (some (s', ok a)) = (s', out ++ (a ∷ []))
note_accepted s out (some (s', other)) = (s', out)

-- A step, with the addresses of the connections that `Accept` returned so far.
unfoldable pub step : State × List AddrPort → Event → State × List AddrPort
step (s, out) (dispatches b addr) = (dispatch_datagram b addr s, out)
step (s, out) takes = (take_on s.queued s, out)
step (s, out) (loads n) = (load_connections n s, out)
step (s, out) (finishes now n) = ((finish_work now n s).0, out)
step (s, out) (updates now) = (update_connections now s, out)
step (s, out) (connects a) = (record s { pending = set_connected a s.pending }, out)
step (s, out) (fails now addr) = (handle_datagram_error now addr s, out)
step (s, out) (closes a) = (close_connection a s, out)
step (s, out) closes_down = (close_listener s, out)
step (s, out) accepts = note_accepted s out (accept s)

unfoldable pub run : State × List AddrPort → List Event → State × List AddrPort
run s [] = s
run s (event ∷ events) = run (step s event) events
