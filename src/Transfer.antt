-- ===== src/Transfer.antt =====
-- conn.go, both halves: what one end of a connection writes and the other end reads, datagram by datagram,
-- when none is lost, repeated or overtaken.
pub mod Windows
pub mod Datagrams
pub mod Splits
pub mod Contents
pub mod Fragments
pub mod Sending
pub mod Sent
pub mod Streams
pub mod Reading
mod Tests
