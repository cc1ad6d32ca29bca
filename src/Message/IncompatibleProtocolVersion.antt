-- ===== src/Message/IncompatibleProtocolVersion.antt =====
-- message/incompatible_protocol_version.go.
use go_raknet.Prelude.{
  ℕ, ◌^◌, ◌<◌, ◌≡◌, List, [], ◌∷◌, ◌++◌, arith, ◌==◌, not, length, drop, Result, ok, unexpected_eof,
  invalid_sequence, ◌>>=◌, ◌>>◌, fail_if, index, get_elem?-get_or,
}
use go_raknet.Binary.{be_bytes, be_uint, be_value_8}
use go_raknet.Message.{
  id_incompatible_protocol_version, Returns, uint_at, uint_at_ok, unconnected_message_sequence,
  is_sequence, equal_bytes,
}

pub record IncompatibleProtocolVersion : Type 0 where
  pub server_protocol : ℕ
  pub server_guid : ℕ

unfoldable pub unmarshal : List ℕ → Result IncompatibleProtocolVersion
unmarshal b = do
  fail_if (not (length b == 25)) unexpected_eof
  server_protocol ← index b 0
  fail_if (not (is_sequence (drop 1 b))) invalid_sequence
  server_guid ← uint_at 8 b 17
  ok (record { server_protocol = server_protocol; server_guid = server_guid })

unfoldable pub marshal : IncompatibleProtocolVersion → List ℕ
marshal pk =
    id_incompatible_protocol_version
    ∷ pk.server_protocol
    ∷ (unconnected_message_sequence ++ be_bytes 8 pk.server_guid)

pub unmarshal-marshal :
    (pk : IncompatibleProtocolVersion)
    → pk.server_guid < 2 ^ 64
    → unmarshal (drop 1 (marshal pk)) ≡ ok pk
unfolding unmarshal marshal uint_at be_uint is_sequence equal_bytes
unmarshal-marshal pk h = ground (arith, be_value_8 pk.server_guid [] h)

pub unmarshal-Returns : (b : List ℕ) → Returns (unmarshal b)
unfolding unmarshal be_uint
unmarshal-Returns b = ground (arith, uint_at_ok 8 b 17, get_elem?-get_or b 0 0)
