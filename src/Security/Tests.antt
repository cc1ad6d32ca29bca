-- ===== src/Security/Tests.antt =====
-- listener.go: the blocks at a concrete run.
use go_raknet.Prelude.{◌≡◌, refl, List, [], ◌∷◌, true, false, arith, some}
use go_raknet.Prelude.Dict.{lookup, insert, delete}
use go_raknet.Security.{
  Event, blocks_ip, collects, new_security, block, blocked, delete_old, gc_blocks, run,
}
use go_raknet.Security.Blocks.{is_listed, run-blocked}

-- Two addresses are blocked for 10; the first one is free again at 15, the second is not.
abbrev events : List Event
events = blocks_ip 3 77 ∷ blocks_ip 9 88 ∷ collects 15 ∷ []

first_free : blocked (run (new_security (some 10)) events) 77 ≡ false
unfolding run new_security block blocked delete_old gc_blocks lookup insert delete
first_free = refl

second_blocked : blocked (run (new_security (some 10)) events) 88 ≡ true
unfolding run new_security block blocked delete_old gc_blocks lookup insert delete
second_blocked = refl

run-blocked_example : let s = run (new_security (some 10)) events in blocked s 88 ≡ is_listed s 88
run-blocked_example = run-blocked (some 10) events 88 (omega arith)
