-- ===== src/Security/Blocks.antt =====
-- listener.go: the count of blocks answers for the map of blocks.
use go_raknet.Prelude.{
  ℕ, suc, ◌+◌, ◌^◌, ◌<◌, ◌≤◌, ◌≡◌, refl, List, [], ◌∷◌, Bool, false, ◌==◌, arith, length, Option,
  none, some, Bool-cases, Option-cases, inl, inr,
}
use go_raknet.Prelude.Dict.{has, lookup, length-insert-le}
use go_raknet.Security.{
  Security, Event, blocks_ip, collects, new_security, block, blocked, delete_old, gc_blocks, run,
}

-- The count is at least the number of blocks and at most `n`.
record IsCounted (n : ℕ) (s : Security) : Type 0 where
  at_least : length s.blocks ≤ s.block_count
  at_most : s.block_count ≤ n

length-delete_old :
    (now d : ℕ) (blocks : List (ℕ × ℕ)) → length (delete_old now d blocks) ≤ length blocks
unfolding delete_old
length-delete_old now d [] = omega arith
length-delete_old now d ((ip, t) ∷ blocks) = ground (arith, length-delete_old now d blocks)

block-IsCounted :
    (n now ip : ℕ) (s : Security)
    → suc n < 2 ^ 32
    → IsCounted n s
    → IsCounted (suc n) (block now s ip)
unfolding block
block-IsCounted n now ip s small c = record {
  at_least = ground (arith, c.at_least, c.at_most, length-insert-le ip now s.blocks);
  at_most = ground (arith, c.at_most);
}

gc-IsCounted :
    (n now : ℕ) (s : Security) → n < 2 ^ 32 → IsCounted n s → IsCounted n (gc_blocks now s)
unfolding gc_blocks
gc-IsCounted n now s small c = elim (Option-cases s.block_duration) [
  | inl off ↦ record {
    at_least = ground (arith, off, c.at_least);
    at_most = ground (arith, off, c.at_most);
  }
  | inr (d, on) ↦ record {
    at_least = ground (arith, on, c.at_least, c.at_most, length-delete_old now d s.blocks);
    at_most = ground (arith, on, c.at_least, c.at_most, length-delete_old now d s.blocks);
  }
]

run-IsCounted :
    (n : ℕ) (s : Security) (events : List Event)
    → n + length events < 2 ^ 32
    → IsCounted n s
    → IsCounted (n + length events) (run s events)
unfolding run
run-IsCounted n s [] small c = record { at_least = c.at_least; at_most = omega (arith, c.at_most) }
run-IsCounted n s (blocks_ip now ip ∷ events) small c =
    let i =
      run-IsCounted (suc n) (block now s ip) events (omega arith)
        (block-IsCounted n now ip s (omega arith) c) in
    record { at_least = i.at_least; at_most = omega (arith, i.at_most) }
run-IsCounted n s (collects now ∷ events) small c =
    let i =
      run-IsCounted n (gc_blocks now s) events (omega arith)
        (gc-IsCounted n now s (omega arith) c) in
    record { at_least = i.at_least; at_most = omega (arith, i.at_most) }

-- An address that is blocked, by the map alone.
unfoldable pub is_listed : Security → ℕ → Bool
is_listed s ip = elim s.block_duration [ none ↦ false | some d ↦ has ip s.blocks ]

-- Fewer than 2^32 events after the start, the count of blocks never hides a block: an address is
-- blocked exactly if blocking is on and the map has it.
pub run-blocked :
    (block_duration : Option ℕ) (events : List Event) (ip : ℕ)
    → length events < 2 ^ 32
    → let s = run (new_security block_duration) events in blocked s ip ≡ is_listed s ip
unfolding blocked is_listed
run-blocked block_duration events ip small =
    let s = run (new_security block_duration) events in
    let c = run-IsCounted 0 (new_security block_duration) events (omega arith) new-IsCounted in
    elim (Bool-cases (s.block_count == 0)) [
      | inl none_counted ↦ ground (arith, empty_has s.blocks ip (ground (arith, c.at_least)))
      | inr some_counted ↦ ground arith
    ]
  where
    new-IsCounted : IsCounted 0 (new_security block_duration)
    new-IsCounted = record {
      at_least = unfold new_security in omega arith;
      at_most = unfold new_security in omega arith;
    }

    empty_has : (blocks : List (ℕ × ℕ)) (ip : ℕ) → length blocks ≡ 0 → has ip blocks ≡ false
    empty_has [] ip e = unfold lookup in refl
    empty_has (b ∷ blocks) ip e = absurd (omega arith)
