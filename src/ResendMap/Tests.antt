-- ===== src/ResendMap/Tests.antt =====
-- resend_map.go: concrete runs, and the theorems at them.
use mathlib.Core.Option
use go_raknet.Prelude.{◌<◌, ◌^◌, ◌+◌, ◌*◌, ◌≤◌, ◌≡◌, refl, [], ◌∷◌, inr, arith}
use go_raknet.Prelude.Dict.{lookup, delete, total}
use go_raknet.ResendMap.{
  ResendMap, ResendRecord, remove, acknowledge, retransmit, update_rtt, clamp_rto, abs_diff,
  timeout, min_rto, max_rto, millisecond,
}
use go_raknet.ResendMap.Rtt.{IsEstimate, acknowledge-IsEstimate, retransmit_estimates}
use go_raknet.ResendMap.Flight.{IsBalanced, size_of, remove-IsBalanced}

abbrev sent : ResendRecord
sent = record { packets = []; timestamp = 40 * millisecond; length = 30 }

abbrev waiting : ResendMap
waiting = record {
  unacknowledged = (6, sent) ∷ [];
  srtt = 20 * millisecond;
  rtt_var = 2 * millisecond;
  rto = 50 * millisecond;
  in_flight_bytes = 30;
  last_sample = 0;
}

acknowledge_run : (acknowledge (100 * millisecond) waiting 6).0.srtt ≡ 25 * millisecond
unfolding acknowledge remove update_rtt clamp_rto abs_diff lookup delete
acknowledge_run = refl

acknowledge-IsEstimate_example :
    let m = (acknowledge (100 * millisecond) waiting 6).0 in
    IsEstimate (100 * millisecond) m
    × (min_rto ≤ timeout m)
    × (timeout m ≤ max_rto)
    × (7 * m.srtt + 100 * millisecond < 2 ^ 63)
    × (3 * m.rtt_var + 100 * millisecond < 2 ^ 63)
    × (m.srtt + 4 * m.rtt_var < 2 ^ 63)
acknowledge-IsEstimate_example =
    acknowledge-IsEstimate (100 * millisecond) (100 * millisecond) waiting 6 (omega arith)
      (record { srtt_le = omega arith; var_le = omega arith; rto_set = inr (omega arith) })
      (λ r e. omega arith)

estimates_stay :
    let m = (retransmit 5 waiting 6).0 in
    (m.srtt ≡ waiting.srtt) × (m.rtt_var ≡ waiting.rtt_var) × (m.rto ≡ waiting.rto)
estimates_stay = retransmit_estimates 5 waiting 6

waiting-IsBalanced : IsBalanced waiting
unfolding total lookup
waiting-IsBalanced = record { distinct = (refl, tt); balance = refl }

remove-IsBalanced_example :
    let r = remove 5 waiting 6 2 in
    IsBalanced r.0
    × (r.1 ≡ Option.map (λ d. d.packets) (lookup 6 waiting.unacknowledged))
    × (r.0.unacknowledged ≡ delete 6 waiting.unacknowledged)
    × (r.0.in_flight_bytes + Option.get_or (Option.map size_of (lookup 6 waiting.unacknowledged)) 0
        ≡ 30)
remove-IsBalanced_example = remove-IsBalanced 5 waiting 6 2 waiting-IsBalanced
