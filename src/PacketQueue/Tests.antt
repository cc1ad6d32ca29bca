-- ===== src/PacketQueue/Tests.antt =====
-- packet_queue.go: a concrete run, and the theorem at it.
use go_raknet.Prelude.{ℕ, ◌+◌, ◌<◌, ◌≡◌, refl, List, [], ◌∷◌, true, false, arith}
use go_raknet.Prelude.Dict.{lookup, insert, delete}
use go_raknet.PacketQueue.{new_packet_queue, put, fetch_loop, fetch, arrive, arrive_all}
use go_raknet.PacketQueue.Fetch.{stream}
use go_raknet.PacketQueue.Order.{arrived, arrive_all_in_order}

-- The packet of index `i` is the byte `i + 65`.
abbrev letters : ℕ → List ℕ
letters i = (i + 65) ∷ []

-- Packets 1 and 0 come in the wrong order, 0 comes twice, 2 is late and 4 waits for 3.
abbrev arrivals : List (ℕ × List ℕ)
arrivals = (1, 66 ∷ []) ∷ (0, 65 ∷ []) ∷ (0, 65 ∷ []) ∷ (4, 69 ∷ []) ∷ (2, 67 ∷ []) ∷ []

run : (arrive_all new_packet_queue arrivals).1 ≡ (65 ∷ []) ∷ (66 ∷ []) ∷ (67 ∷ []) ∷ []
unfolding arrive_all arrive new_packet_queue put fetch fetch_loop lookup insert delete
run = refl

arrive_all_in_order_example :
    let r = arrive_all new_packet_queue arrivals in
    (r.1 ≡ stream letters r.0.lowest)
    × (arrived r.0.lowest arrivals ≡ false)
    × ((j : ℕ) → j < r.0.lowest → arrived j arrivals ≡ true)
arrive_all_in_order_example = arrive_all_in_order letters arrivals (
  (omega arith, refl),
  ((omega arith, refl), ((omega arith, refl), ((omega arith, refl), ((omega arith, refl), tt)))),
)
