-- ===== src/Ticker.antt =====
-- conn_ticker.go: the ticker that all connections share. Connections are numbered in the order in which
-- they were made; a connection is what the ticker sees of it. Each function that takes the lock is one
-- step, and so are the sending to a channel and the reading from it. An operation that Go answers with a
-- run-time panic, a send on a closed channel or the closing of a closed one, gives `panic`.
pub mod Interleaving
mod Tests
use go_raknet.Prelude.{
  ℕ, ◌+◌, List, [], ◌∷◌, ◌++◌, Bool, true, false, Option, none, some, if◌then◌else◌, length, set,
  get_elem?, map, Result, ok, err, panic, ◌>>=◌,
}
use go_raknet.Prelude.Dict.{insert, delete, has}

-- `ticker` is a channel with room for one tick.
pub record Ticked : Type 0 where
  pub done : Bool
  pub tick : Option ℕ
  pub channel_closed : Bool

pub record Ticker : Type 0 where
  pub conns : List Ticked
  -- `activeConnections`.
  pub active : List (ℕ × Unit {0})

unfoldable pub new_ticker : Ticker
new_ticker = record { conns = []; active = [] }

-- A new connection, registered: `registerConnection` from `newConn`.
unfoldable pub register_connection : Ticker → Ticker
register_connection m = record {
  conns = m.conns ++ (record { done = false; tick = none; channel_closed = false } ∷ []);
  active = insert (length m.conns) tt m.active;
}

unfoldable pub update : Ticker → ℕ → Ticked → Ticker
update m i c = record m { conns = set m.conns i c }

unfoldable pub unregister_ticked_connection : ℕ → Ticker → Result Ticker
unregister_ticked_connection i m =
    if has i m.active
    then elim (get_elem? m.conns i) [
      | none ↦ panic
      | some c ↦
          if c.channel_closed
          then panic
          else ok (
              update (record m { active = delete i m.active }) i
                (record c { channel_closed = true }))
    ]
    else ok m

-- The selection for one connection of a round: the round, and the connections to take out.
unfoldable pub offer : ℕ → ℕ → Ticker × List ℕ → Result (Ticker × List ℕ)
offer t i (m, queue) = elim (get_elem? m.conns i) [
  | none ↦ panic
  | some c ↦
      if c.done
      then ok (m, queue ++ (i ∷ []))
      else if c.channel_closed
      then panic
      else ok (elim c.tick [
        | none ↦ (update m i (record c { tick = some t }), queue)
        | some _ ↦ (m, queue)
      ])
]

unfoldable pub offer_all : ℕ → List (ℕ × Unit {0}) → Ticker × List ℕ → Result (Ticker × List ℕ)
offer_all t [] q = ok q
offer_all t ((i, _) ∷ is) q = offer t i q >>= offer_all t is

unfoldable pub unregister_all : List ℕ → Ticker → Result Ticker
unregister_all [] m = ok m
unregister_all (i ∷ is) m = unregister_ticked_connection i m >>= unregister_all is

-- The first part of a round, under the lock, and the whole when nothing comes between.
unfoldable pub offer_round : ℕ → Ticker → Result (Ticker × List ℕ)
offer_round t m = offer_all t m.active (m, [])

unfoldable pub tick_connections : ℕ → Ticker → Result Ticker
tick_connections t m = offer_round t m >>= λ q. unregister_all q.1 q.0
