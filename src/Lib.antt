-- ===== src/Lib.antt =====
-- go-raknet: a model of the Go library of the reliable datagram protocol RakNet, and what holds of it.
--
-- A connection (conn.go) sends contents as packets inside numbered datagrams over UDP and hands
-- received contents on. The parts and the files that model them, with the paths of the repository:
--   Binary: binary.go, the 24-bit counters and the byte order of the wire.
--   Packet: packet.go, the packets that a datagram holds, and the splitting of a long content.
--   PacketQueue: packet_queue.go, which puts reliable ordered packets back into their order.
--   DatagramWindow: datagram_window.go, which finds duplicates and missing datagrams.
--   Acknowledge: acknowledge.go, the lists of datagrams received or missing, and
--     Conn.sendAcknowledgement of conn.go.
--   ResendMap: resend_map.go, the datagrams in flight and the estimate of the round trip.
--   Message: message/*.go, one file for each packet of the handshake and of the pings; marshal and
--     unmarshal stand for MarshalBinary and UnmarshalBinary.
--   Metrics: the loss metrics of conn.go. Ratio has the two ratios, over the interface of float64.
--   Conn: the sending half of Conn in conn.go. Sending has sendDatagram, queueOrSend,
--     flushSendQueueLocked, write and writeWithReliability; Resending has handleACK, handleNACK,
--     checkResend, enqueueResendsLocked and flushResendQueueLocked.
--   Congestion: congestion/*.go. Controller is the interface that a connection uses; Udt and
--     SlidingWindow are the two controllers, Controllers makes values of the interface of them.
--     Float64 is what they use of float64, and Rounding what the proofs use of it; Micros is a
--     number type for which that holds.
--   Receiver: the receiving half of Conn in conn.go, from receiveDatagram to handlePacket.
--   Session: a connection with both its halves in conn.go: its ticks, its reads, the acknowledgements it
--     sends, and how it closes. Receiving has receiveDatagram, receive, Read and the loop clientListen of
--     dial.go; Endpoint writes to the connection what the handlers of handler.go send.
--   Ticker: conn_ticker.go, the ticker that all connections share, as steps in any order.
--   Security: the blocked addresses of listener.go.
--   Handler: handler.go, what a listener does with packets of peers that have no connection, and the
--     cookies of internal/cookie.go, with the checksum of hash/crc32. Handshake has the packets of
--     RakNet inside a connection, for the listener and for the dialer.
--   Listening: listener.go, a listener over time: dispatchDatagram, handleUnconnectedDatagram,
--     updateConnections, Accept, PongData and Close, as steps in any order; the steps of the four workers
--     of unconnected datagrams may overlap. It uses Security and Handler.
--     Sockets has listenPacketConns and the loop of reads, Batches the loop over batches of
--     listener_optimized_linux.go, both over lists of what the system calls return.
--   Dialer: dial.go, the phases of the dialing over what the socket reads: discoverMTU, request1,
--     openConnection, the retry loop of DialContext, connect; and PingContext. Agreement and Connecting
--     are about a dialer and a listener that talk to each other.
--   Transfer: both halves of conn.go at once: what one end writes and the other end reads when no
--     datagram is lost, repeated or overtaken.
--   Prelude: tests, lists, maps, errors and bit operations that the others share.
--
-- A function that changes the state of an object takes the state and returns the new one. A result is
-- ok, err or panic, the last for a run-time panic of Go. Numbers are natural numbers with the wrap of
-- their width written out; bytes are numbers below 256; times are numbers of nanoseconds. A Go map is
-- an association list behind its laws. A method that takes the lock of the connection is one step.
--
-- Loops over slices recurse on them. The loops of fetch, shift and missing take as many rounds as
-- there are numbers in the window, the loop over a datagram as many as it has bytes, and the loop
-- that sends acknowledgements takes a number of rounds that only has to exceed the number of packets.
-- The retry loop of the dialer takes fuel, of which one more than there are reads is enough.
--
-- Not modelled: the arithmetic of float64, which is a parameter of the controllers; negative durations;
-- the system calls, of which only what they return is modelled, with the deadlines and options of sockets,
-- the making of the batch reader and the zones of IPv6 addresses; the error of a write by a handler, which
-- only a connection that has ended gives; the packet filter of xdp.go; the pool of packets, since a packet
-- from it is reset before it is used; internal/conn.go and internal/log.go, which wrap the standard library.
pub mod Prelude
pub mod Binary
pub mod PacketQueue
pub mod DatagramWindow
pub mod Packet
pub mod Acknowledge
pub mod ResendMap
pub mod Message
pub mod Metrics
pub mod Congestion
pub mod Conn
pub mod Receiver
pub mod Session
pub mod Ticker
pub mod Security
pub mod Handler
pub mod Listening
pub mod Dialer
pub mod Transfer
