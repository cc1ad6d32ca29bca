-- ===== src/ResendMap/Rtt.antt =====
-- resend_map.go: bounds of the estimates.
use go_raknet.Prelude.{
  ℕ, ◌+◌, ◌*◌, ◌^◌, ◌<◌, ◌-◌, ◌≤◌, ◌≡◌, some, Option-cases, inl, inr, arith, ◌⊎◌,
}
use go_raknet.Prelude.Dict.{lookup, delete}
use go_raknet.ResendMap.{
  ResendMap, ResendRecord, update_rtt, remove, acknowledge, retransmit, timeout, min_rto, max_rto,
}

-- The estimates as they follow from samples of at most `worst`.
pub record IsEstimate (worst : ℕ) (m : ResendMap) : Type 0 where
  pub srtt_le : m.srtt ≤ worst
  pub var_le : m.rtt_var ≤ worst
  pub rto_set : (m.rto ≡ 0) ⊎ ((min_rto ≤ m.rto) × (m.rto ≤ max_rto))

update_rtt-IsEstimate :
    (worst : ℕ) (m : ResendMap) (sample : ℕ)
    → IsEstimate worst m
    → sample ≤ worst
    → IsEstimate worst (update_rtt m sample)
unfolding update_rtt
update_rtt-IsEstimate worst m sample e le = record {
  srtt_le = ground arith;
  var_le = ground arith;
  rto_set = ground arith;
}

-- With samples of at most `worst`, an acknowledgement keeps both estimates at most `worst` and the timeout
-- between 50 ms and 10 s. Where `worst` is below 2^60 nanoseconds, some 36 years, the sums in the update
-- of the estimates by the next sample, and in that of the timeout, fit into the 63 bits of a duration.
pub acknowledge-IsEstimate :
    (worst now : ℕ) (m : ResendMap) (index : ℕ)
    → worst < 2 ^ 60
    → IsEstimate worst m
    → ((r : ResendRecord) → lookup index m.unacknowledged ≡ some r → now - r.timestamp ≤ worst)
    → let m' = (acknowledge now m index).0 in
      IsEstimate worst m'
      × (min_rto ≤ timeout m')
      × (timeout m' ≤ max_rto)
      × (7 * m'.srtt + worst < 2 ^ 63)
      × (3 * m'.rtt_var + worst < 2 ^ 63)
      × (m'.srtt + 4 * m'.rtt_var < 2 ^ 63)
unfolding acknowledge timeout
acknowledge-IsEstimate worst now m index small e le =
    elim (Option-cases (lookup index m.unacknowledged)) [
      | inl absent ↦
          rw (absent, acknowledge, remove)
            (
              e,
              ground arith,
              ground arith,
              omega (arith, small, e.srtt_le),
              omega (arith, small, e.var_le),
              omega (arith, small, e.srtt_le, e.var_le),
            )
      | inr (r, found) ↦
          let u =
            update_rtt-IsEstimate worst (sampled r) (now - r.timestamp) (was_sampled r)
              (le r found) in
          rw (found, acknowledge, remove)
            (
              u,
              ground (arith, u.rto_set),
              ground (arith, u.rto_set),
              omega (arith, small, u.srtt_le),
              omega (arith, small, u.var_le),
              omega (arith, small, u.srtt_le, u.var_le),
            )
    ]
  where
    sampled : ResendRecord → ResendMap
    sampled r = record m {
      unacknowledged = delete index m.unacknowledged;
      in_flight_bytes = m.in_flight_bytes - r.length;
      last_sample = now - r.timestamp;
    }

    was_sampled : (r : ResendRecord) → IsEstimate worst (sampled r)
    was_sampled r = record { srtt_le = e.srtt_le; var_le = e.var_le; rto_set = e.rto_set }

-- Karn's rule: taking a datagram out to send it again changes no estimate.
pub retransmit_estimates :
    (now : ℕ) (m : ResendMap) (index : ℕ)
    → let m' = (retransmit now m index).0 in
      (m'.srtt ≡ m.srtt) × (m'.rtt_var ≡ m.rtt_var) × (m'.rto ≡ m.rto)
unfolding retransmit
retransmit_estimates now m index = ground arith
