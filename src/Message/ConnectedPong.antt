-- ===== src/Message/ConnectedPong.antt =====
-- message/connected_pong.go.
use go_raknet.Prelude.{
  ℕ, ◌^◌, ◌<◌, ◌≡◌, List, [], ◌∷◌, ◌++◌, arith, ◌==◌, not, length, drop, Result, ok, unexpected_eof,
  ◌>>=◌, ◌>>◌, fail_if,
}
use go_raknet.Binary.{be_bytes, be_uint, be_value_8}
use go_raknet.Message.{id_connected_pong, Returns, uint_at, uint_at_ok}

pub record ConnectedPong : Type 0 where
  pub ping_time : ℕ
  pub pong_time : ℕ

unfoldable pub unmarshal : List ℕ → Result ConnectedPong
unmarshal b = do
  fail_if (not (length b == 16)) unexpected_eof
  ping_time ← be_uint 8 b
  pong_time ← uint_at 8 b 8
  ok (record { ping_time = ping_time; pong_time = pong_time })

unfoldable pub marshal : ConnectedPong → List ℕ
marshal pk = id_connected_pong ∷ (be_bytes 8 pk.ping_time ++ be_bytes 8 pk.pong_time)

pub unmarshal-marshal :
    (pk : ConnectedPong)
    → pk.ping_time < 2 ^ 64
    → pk.pong_time < 2 ^ 64
    → unmarshal (drop 1 (marshal pk)) ≡ ok pk
unfolding unmarshal marshal uint_at be_uint
unmarshal-marshal pk h k =
    ground
      (arith, be_value_8 pk.ping_time (be_bytes 8 pk.pong_time) h, be_value_8 pk.pong_time [] k)

pub unmarshal-Returns : (b : List ℕ) → Returns (unmarshal b)
unfolding unmarshal be_uint
unmarshal-Returns b = ground (arith, uint_at_ok 8 b 8)
