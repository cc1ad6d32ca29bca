-- ===== src/Congestion.antt =====
-- congestion/controller.go: the parameters of the two controllers, and what both share. A time is in
-- nanoseconds and never negative; the times of the ACKs are in milliseconds.
pub mod Float64
pub mod Controller
pub mod Udt
pub mod SlidingWindow
pub mod Controllers
pub mod Ledger
pub mod Rounding
pub mod Micros
mod Tests
use go_raknet.Prelude.{ℕ, ◌+◌, ◌-◌, ◌/◌, ◌%◌, ◌^◌, Bool, not, ltb, ◌==◌, ◌&&◌}

abbrev pub second : ℕ
second = 1_000_000_000

abbrev pub millisecond : ℕ
millisecond = 1_000_000

abbrev pub microsecond : ℕ
microsecond = 1_000

-- `time.Duration.Microseconds` and `Milliseconds`.
abbrev pub microseconds : ℕ → ℕ
microseconds t = t / microsecond

abbrev pub milliseconds : ℕ → ℕ
milliseconds t = t / millisecond

abbrev pub half_span : ℕ
half_span = 0xffffff / 2

-- `b - a` on uint32.
abbrev pub sub_uint32 : ℕ → ℕ → ℕ
sub_uint32 b a = (b + 2 ^ 32 - a) % 2 ^ 32

unfoldable pub greater_than : ℕ → ℕ → Bool
greater_than a b = not (b == a) && ltb half_span (sub_uint32 b a)
