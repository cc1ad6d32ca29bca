-- ===== src/Message/UnconnectedPing.antt =====
-- message/unconnected_ping.go.
use go_raknet.Prelude.{
  ℕ, ◌^◌, ◌<◌, ◌≡◌, List, [], ◌∷◌, ◌++◌, arith, not, ltb, length, drop, Result, ok, unexpected_eof,
  invalid_sequence, ◌>>=◌, ◌>>◌, fail_if,
}
use go_raknet.Binary.{be_bytes, be_uint, be_value_8}
use go_raknet.Message.{
  id_unconnected_ping, Returns, uint_at, uint_at_ok, unconnected_message_sequence, is_sequence,
  equal_bytes,
}

pub record UnconnectedPing : Type 0 where
  pub ping_time : ℕ
  pub client_guid : ℕ

unfoldable pub marshal : UnconnectedPing → List ℕ
marshal pk =
    id_unconnected_ping
    ∷ (be_bytes 8 pk.ping_time ++ (unconnected_message_sequence ++ be_bytes 8 pk.client_guid))

unfoldable pub unmarshal : List ℕ → Result UnconnectedPing
unmarshal b = do
  fail_if (ltb (length b) 32) unexpected_eof
  ping_time ← be_uint 8 b
  fail_if (not (is_sequence (drop 8 b))) invalid_sequence
  client_guid ← uint_at 8 b 24
  ok (record { ping_time = ping_time; client_guid = client_guid })

pub unmarshal-marshal :
    (pk : UnconnectedPing)
    → pk.ping_time < 2 ^ 64
    → pk.client_guid < 2 ^ 64
    → unmarshal (drop 1 (marshal pk)) ≡ ok pk
unfolding unmarshal marshal uint_at be_uint is_sequence equal_bytes
unmarshal-marshal pk h k = ground (
  arith,
  be_value_8 pk.ping_time (unconnected_message_sequence ++ be_bytes 8 pk.client_guid) h,
  be_value_8 pk.client_guid [] k,
)

pub unmarshal-Returns : (b : List ℕ) → Returns (unmarshal b)
unfolding unmarshal be_uint
unmarshal-Returns b = ground (arith, uint_at_ok 8 b 24)
