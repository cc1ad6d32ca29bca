-- ===== src/Ticker/Tests.antt =====
-- conn_ticker.go: the theorem on the interleavings at a concrete one.
use go_raknet.Prelude.{◌≡◌, refl, List, [], ◌∷◌, ok, true, false, some}
use go_raknet.Prelude.Dict.{insert, delete, lookup}
use go_raknet.Ticker.{
  new_ticker, register_connection, update, unregister_ticked_connection, offer, offer_all,
  offer_round,
}
use go_raknet.Ticker.Interleaving.{
  System, Action, connect, offer_ticks, take_out, read_tick, cancel, unregister, change, act, run,
  run_safe,
}

-- The connection 0 is cancelled, seen by the loop, and takes itself out before the loop does.
abbrev race : List Action
race =
    connect
    ∷ connect
    ∷ offer_ticks 10
    ∷ read_tick 1
    ∷ cancel 0
    ∷ offer_ticks 20
    ∷ unregister 0
    ∷ take_out
    ∷ offer_ticks 30
    ∷ []

run_safe_example :
    (s : System) × (run race (record { ticker = new_ticker; unregister_queue = [] }) ≡ ok s)
run_safe_example = run_safe race

-- The connection 1 has not read the second tick, and gets no third.
raced :
    run race (record { ticker = new_ticker; unregister_queue = [] })
    ≡ ok (record {
      ticker = record {
        conns =
            record { done = true; tick = some 10; channel_closed = true }
            ∷ record { done = false; tick = some 20; channel_closed = false }
            ∷ [];
        active = (1, tt) ∷ [];
      };
      unregister_queue = [];
    })
unfolding run act change new_ticker register_connection update unregister_ticked_connection offer
    offer_all offer_round insert delete lookup
raced = refl
