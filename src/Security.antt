-- ===== src/Security.antt =====
-- listener.go: the addresses that the listener does not answer. An IP address is the number that its
-- 16 bytes spell. The block duration is absent where the code has a negative one.
pub mod Blocks
mod Tests
use go_raknet.Prelude.{
  ℕ, ◌+◌, ◌-◌, ◌%◌, ◌^◌, List, [], ◌∷◌, Bool, true, false, ltb, ◌==◌, if◌then◌else◌, length, Option,
  none, some,
}
use go_raknet.Prelude.Dict.{has, insert}

pub record Security : Type 0 where
  pub block_duration : Option ℕ
  pub block_count : ℕ
  pub blocks : List (ℕ × ℕ)

unfoldable pub new_security : Option ℕ → Security
new_security block_duration = record {
  block_duration = block_duration;
  block_count = 0;
  blocks = [];
}

unfoldable pub block : ℕ → Security → ℕ → Security
block now s ip = elim s.block_duration [
  | none ↦ s
  | some d ↦ record s {
    block_count = (s.block_count + 1) % 2 ^ 32;
    blocks = insert ip now s.blocks;
  }
]

unfoldable pub blocked : Security → ℕ → Bool
blocked s ip = elim s.block_duration [
  | none ↦ false
  | some d ↦ if s.block_count == 0 then false else has ip s.blocks
]

-- `maps.DeleteFunc`
unfoldable pub delete_old : ℕ → ℕ → List (ℕ × ℕ) → List (ℕ × ℕ)
delete_old now d [] = []
delete_old now d ((ip, t) ∷ blocks) =
    let rest = delete_old now d blocks in if ltb d (now - t) then rest else ((ip, t) ∷ rest)

-- With a negative duration every block counts as old.
unfoldable pub gc_blocks : ℕ → Security → Security
gc_blocks now s =
    let left : List (ℕ × ℕ) = elim s.block_duration [
      | none ↦ []
      | some d ↦ delete_old now d s.blocks
    ] in
    if s.block_count == 0 then s else record s { blocks = left; block_count = length left % 2 ^ 32 }

-- What the listener does with its security over time.
pub data Event : Type 0 where
  blocks_ip : ℕ → ℕ → Event
  collects : ℕ → Event

unfoldable pub run : Security → List Event → Security
run s [] = s
run s (blocks_ip now ip ∷ events) = run (block now s ip) events
run s (collects now ∷ events) = run (gc_blocks now s) events
