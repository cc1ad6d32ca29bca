-- ===== src/Message.antt =====
-- message: the packets of the handshake and of the pings. An int64 is the number below 2^64 with
-- the same bits. `MarshalBinary` fills a fresh buffer from left to right, so it is the list of what
-- it puts there, 0 where it puts nothing; `UnmarshalBinary` is called on what follows the ID.
pub mod Addr
pub mod ConnectedPing
pub mod ConnectedPong
pub mod ConnectionRequest
pub mod UnconnectedPing
pub mod UnconnectedPong
pub mod IncompatibleProtocolVersion
pub mod OpenConnectionReply1
pub mod OpenConnectionRequest1
pub mod OpenConnectionReply2
pub mod OpenConnectionRequest2
pub mod SystemAddresses
pub mod ConnectionRequestAccepted
pub mod NewIncomingConnection
pub mod RoundTrip
pub mod Safety
mod Tests
use go_raknet.Prelude.{
  ℕ, ◌+◌, ◌<◌, ◌≡◌, List, [], ◌∷◌, ◌++◌, Bool, true, false, ◌==◌, ◌&&◌, ltb, if◌then◌else◌, Result,
  ok, err, panic, take, slice_from, refl, Error, fail_if, ◌>>=◌, arith, ◌≤◌, length, length-drop,
  drop,
}
use go_raknet.Binary.{be_uint, be_value}

abbrev pub id_connected_ping : ℕ
id_connected_ping = 0x00

abbrev pub id_unconnected_ping : ℕ
id_unconnected_ping = 0x01

abbrev pub id_unconnected_ping_open_connections : ℕ
id_unconnected_ping_open_connections = 0x02

abbrev pub id_connected_pong : ℕ
id_connected_pong = 0x03

abbrev pub id_detect_lost_connections : ℕ
id_detect_lost_connections = 0x04

abbrev pub id_open_connection_request_1 : ℕ
id_open_connection_request_1 = 0x05

abbrev pub id_open_connection_reply_1 : ℕ
id_open_connection_reply_1 = 0x06

abbrev pub id_open_connection_request_2 : ℕ
id_open_connection_request_2 = 0x07

abbrev pub id_open_connection_reply_2 : ℕ
id_open_connection_reply_2 = 0x08

abbrev pub id_connection_request : ℕ
id_connection_request = 0x09

abbrev pub id_connection_request_accepted : ℕ
id_connection_request_accepted = 0x10

abbrev pub id_new_incoming_connection : ℕ
id_new_incoming_connection = 0x13

abbrev pub id_disconnect_notification : ℕ
id_disconnect_notification = 0x15

abbrev pub id_incompatible_protocol_version : ℕ
id_incompatible_protocol_version = 0x19

abbrev pub id_unconnected_pong : ℕ
id_unconnected_pong = 0x1c

abbrev pub unconnected_message_sequence : List ℕ
unconnected_message_sequence =
    0x00 ∷ 0xff ∷ 0xff ∷ 0x00 ∷ 0xfe ∷ 0xfe ∷ 0xfe ∷ 0xfe ∷ 0xfd ∷ 0xfd ∷ 0xfd ∷ 0xfd ∷ 0x12 ∷ 0x34
    ∷ 0x56 ∷ 0x78 ∷ []

-- `bytes.Equal`
unfoldable pub equal_bytes : List ℕ → List ℕ → Bool
equal_bytes [] [] = true
equal_bytes [] (y ∷ ys) = false
equal_bytes (x ∷ xs) [] = false
equal_bytes (x ∷ xs) (y ∷ ys) = x == y && equal_bytes xs ys

-- Whether the bytes are the ones that an unconnected message carries.
unfoldable pub is_sequence : List ℕ → Bool
unfolding equal_bytes
is_sequence b = equal_bytes (take 16 b) unconnected_message_sequence

-- The code does not panic.
abbrev pub Returns {ℓ} : {A : Type ℓ} → Result A → Type 0
Returns (ok a) = Unit {0}
Returns (err e) = Unit {0}
Returns panic = ⊥

-- `binary.BigEndian.Uint64(b[offset:])` and its like; `b[offset]` for one byte.
unfoldable pub uint_at : ℕ → List ℕ → ℕ → Result ℕ
unfolding be_uint
uint_at n b offset = slice_from b offset >>= be_uint n

pub uint_at_ok :
    (n : ℕ) (b : List ℕ) (offset : ℕ)
    → offset + n ≤ length b
    → uint_at n b offset ≡ ok (be_value n (drop offset b) 0)
unfolding uint_at be_uint
uint_at_ok n b offset h = ground (arith, length-drop offset b)

-- A chain of steps returns if each step does, on what the steps before it gave.
pub Returns-bind {ℓ κ} :
    {A : Type ℓ} {B : Type κ} (r : Result A) (f : A → Result B)
    → Returns r
    → ((a : A) → r ≡ ok a → Returns (f a))
    → Returns (r >>= f)
Returns-bind (ok a) f h k = k a refl
Returns-bind (err e) f h k = tt
Returns-bind panic f h k = h

pub Returns-fail_if : (t : Bool) (e : Error) → Returns (fail_if t e)
Returns-fail_if true e = tt
Returns-fail_if false e = tt
