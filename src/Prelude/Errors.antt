-- ===== src/Prelude/Errors.antt =====
-- Go's (value, error) pairs, with a run-time panic as a third outcome, and reads of byte slices.
use Prim.Native.Nat.{ℕ}
use mathlib.Core.Bool.{Bool, true, false}
use mathlib.Core.List.{List}
use mathlib.Core.Option.{none, some}
use go_raknet.Prelude.Tests.{ltb, if◌then◌else◌}
use go_raknet.Prelude.Lists.{length, get_elem?, drop}

-- The errors of the package, by what distinguishes them.
pub data Error : Type 0 where
  unexpected_eof zero_length max_acknowledgement invalid_sequence : Error
  window_too_big split_count_too_big too_many_splits split_index_out_of_range : Error
  unreliable_split_not_supported closed handler_failed buffer_too_small : Error
  connection_exists mtu_too_small incompatible_protocol unknown_packet : Error
  repeated_request no_connection_request additional_nic mismatched_protocol : Error
  read_timeout reply_2_timeout not_a_pong canceled syscall_failed : Error

pub data Result {ℓ} (A : Type ℓ) : Type ℓ where
  ok : A → Result A
  err : Error → Result A
  panic : Result A

infixl 5 ◌>>=◌ ◌>>◌
abbrev pub ◌>>=◌ {ℓ κ} : {A : Type ℓ} {B : Type κ} → Result A → (A → Result B) → Result B
ok a >>= f = f a
err e >>= f = err e
panic >>= f = panic

abbrev pub ◌>>◌ {ℓ} : {B : Type ℓ} → Result (Unit {0}) → Result B → Result B
m >> k = m >>= λ _. k

-- `if test { return err }`
abbrev pub fail_if : Bool → Error → Result (Unit {0})
fail_if true e = err e
fail_if false e = ok tt

-- What the bounds check of an index or a slice expression does: it panics unless the test holds.
abbrev pub in_bounds : Bool → Result (Unit {0})
in_bounds true = ok tt
in_bounds false = panic

-- `b[i]`
abbrev pub index : List ℕ → ℕ → Result ℕ
index b i = elim (get_elem? b i) [ none ↦ panic | some x ↦ ok x ]

-- `b[n:]`
abbrev pub slice_from : List ℕ → ℕ → Result (List ℕ)
slice_from b n = if ltb (length b) n then panic else ok (drop n b)
