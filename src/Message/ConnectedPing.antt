-- ===== src/Message/ConnectedPing.antt =====
-- message/connected_ping.go.
use go_raknet.Prelude.{
  ℕ, ◌^◌, ◌<◌, ◌≡◌, List, [], ◌∷◌, arith, ◌==◌, not, length, drop, Result, ok, unexpected_eof,
  ◌>>=◌, ◌>>◌, fail_if,
}
use go_raknet.Binary.{be_bytes, be_uint, be_value_8}
use go_raknet.Message.{id_connected_ping, Returns}

pub record ConnectedPing : Type 0 where
  pub ping_time : ℕ

unfoldable pub unmarshal : List ℕ → Result ConnectedPing
unmarshal b = do
  fail_if (not (length b == 8)) unexpected_eof
  ping_time ← be_uint 8 b
  ok (record { ping_time = ping_time })

unfoldable pub marshal : ConnectedPing → List ℕ
marshal pk = id_connected_ping ∷ be_bytes 8 pk.ping_time

pub unmarshal-marshal :
    (pk : ConnectedPing) → pk.ping_time < 2 ^ 64 → unmarshal (drop 1 (marshal pk)) ≡ ok pk
unfolding unmarshal marshal be_uint
unmarshal-marshal pk h = ground (arith, be_value_8 pk.ping_time [] h)

pub unmarshal-Returns : (b : List ℕ) → Returns (unmarshal b)
unfolding unmarshal be_uint
unmarshal-Returns b = ground arith
