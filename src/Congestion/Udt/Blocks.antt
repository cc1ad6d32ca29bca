-- ===== src/Congestion/Udt/Blocks.antt =====
-- congestion/udt.go: when a block of datagrams ends. The numbers that ACKs carry have 24 bits; the
-- counter they are compared with has 32.
use go_raknet.Prelude.{ℕ, ◌+◌, ◌^◌, ◌<◌, ◌≡◌, ◌&&◌, ◌||◌, leb, ◌==◌, arith, length, not, ltb}
use go_raknet.Congestion.{greater_than, sub_uint32}
use go_raknet.Congestion.Float64.{Float64}
use go_raknet.Congestion.Udt.{Udt}
use go_raknet.Congestion.Udt.Rate.{is_block_over}

gate :
    (a b : ℕ)
    → a < 2 ^ 24
    → b + 33 < 2 ^ 32
    → (greater_than a b && not (ltb (sub_uint32 a b) 33)) ≡ (leb (b + 33) a || leb (a + 2 ^ 23) b)
unfolding greater_than
gate a b h k = ground arith

module _ {F : Type 0} ⦃d : Float64 F⦄ where
  -- For a 24-bit number and a counter below 2 ^ 32 - 33, a block is over when 33 samples are there and
  -- the number is at least 33 above the start of the block, or at least 2 ^ 23 below it. So once the
  -- counter of 32 bits has passed 2 ^ 24 + 2 ^ 23 the number holds nothing back any more.
  pub is_block_over_gate :
      (seq : ℕ) (c : Udt F)
      → c.pings_last_interval_target_count ≡ 33
      → seq < 2 ^ 24
      → c.next_congestion_control_block + 33 < 2 ^ 32
      → is_block_over seq c ≡ (
          (leb (c.next_congestion_control_block + 33) seq
            || leb (seq + 2 ^ 23) c.next_congestion_control_block)
          && length c.pings_last_interval == 33)
  unfolding is_block_over
  is_block_over_gate seq c t h k =
      rw (t, ← gate seq c.next_congestion_control_block h k) (ground arith)
