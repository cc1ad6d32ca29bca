-- ===== src/Message/UnconnectedPong.antt =====
-- message/unconnected_pong.go. The end of the slice of the data is computed on uint16.
use go_raknet.Prelude.{
  ℕ, ◌+◌, ◌-◌, ◌%◌, ◌^◌, ◌<◌, ◌≡◌, List, [], ◌∷◌, ◌++◌, arith, ltb, leb, length, take, drop, Result,
  ok, unexpected_eof, ◌>>=◌, ◌>>◌, fail_if, in_bounds, append-nil, take-append,
}
use go_raknet.Binary.{be_bytes, be_uint, be_value_2, be_value_8}
use go_raknet.Message.{
  id_unconnected_pong, Returns, uint_at, uint_at_ok, unconnected_message_sequence,
}

pub record UnconnectedPong : Type 0 where
  pub ping_time : ℕ
  pub server_guid : ℕ
  pub content : List ℕ

unfoldable pub unmarshal : List ℕ → Result UnconnectedPong
unmarshal b = do
  fail_if (ltb (length b) 34) unexpected_eof
  n ← uint_at 2 b 32
  fail_if (ltb (length b) (34 + n)) unexpected_eof
  ping_time ← be_uint 8 b
  server_guid ← uint_at 8 b 8
  let end = (34 + n) % 2 ^ 16
  in_bounds (leb 34 end)
  ok (record {
    ping_time = ping_time;
    server_guid = server_guid;
    content = take (end - 34) (drop 34 b);
  })

unfoldable pub marshal : UnconnectedPong → List ℕ
marshal pk =
    id_unconnected_pong
    ∷ (be_bytes 8 pk.ping_time
        ++ (be_bytes 8 pk.server_guid
            ++ (unconnected_message_sequence
                ++ (be_bytes 2 (length pk.content % 2 ^ 16) ++ pk.content))))

pub unmarshal-marshal :
    (pk : UnconnectedPong)
    → pk.ping_time < 2 ^ 64
    → pk.server_guid < 2 ^ 64
    → length pk.content < 2 ^ 16 - 34
    → unmarshal (drop 1 (marshal pk)) ≡ ok pk
unfolding unmarshal marshal uint_at be_uint
unmarshal-marshal pk h k l =
    let size = be_bytes 2 (length pk.content % 2 ^ 16) ++ pk.content in
    ground (
      arith,
      be_value_8 pk.ping_time (be_bytes 8 pk.server_guid ++ (unconnected_message_sequence ++ size))
          h,
      be_value_8 pk.server_guid (unconnected_message_sequence ++ size) k,
      be_value_2 (length pk.content % 2 ^ 16) pk.content (omega arith),
      take-append pk.content [],
      append-nil pk.content,
    )

-- A payload of UDP is shorter than this.
pub unmarshal-Returns : (b : List ℕ) → length b < 2 ^ 16 → Returns (unmarshal b)
unfolding unmarshal be_uint
unmarshal-Returns b h = ground (arith, uint_at_ok 8 b 8, uint_at_ok 2 b 32)
