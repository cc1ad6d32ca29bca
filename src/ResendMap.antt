-- ===== src/ResendMap.antt =====
-- resend_map.go: the datagrams in flight and the estimate of the round trip. Times and durations
-- are numbers of nanoseconds; a map value is the record with its time of sending. The in-flight
-- counter is an int in the code and a natural number here: `IsBalanced` shows that no subtraction
-- from it goes below 0. The products of `updateRTT` are those of the code as long as the samples are
-- below 2^60 ns, since no estimate exceeds the largest sample.
pub mod Rtt
pub mod Flight
mod Tests
use go_raknet.Prelude.{
  ℕ, ◌+◌, ◌-◌, ◌*◌, ◌/◌, ◌^◌, List, [], Bool, true, false, Option, none, some, ltb, ◌==◌,
  if◌then◌else◌,
}
use go_raknet.Prelude.Dict.{lookup, insert, delete}
use go_raknet.Packet.{Packet}

abbrev pub millisecond : ℕ
millisecond = 1_000_000

abbrev pub second : ℕ
second = 1_000_000_000

pub record ResendRecord : Type 0 where
  pub packets : List Packet
  pub timestamp : ℕ
  pub length : ℕ

pub record ResendMap : Type 0 where
  pub unacknowledged : List (ℕ × ResendRecord)
  pub srtt : ℕ
  pub rtt_var : ℕ
  pub rto : ℕ
  pub in_flight_bytes : ℕ
  pub last_sample : ℕ

unfoldable pub new_recovery_queue : ResendMap
new_recovery_queue = record {
  unacknowledged = [];
  srtt = 0;
  rtt_var = 0;
  rto = 0;
  in_flight_bytes = 0;
  last_sample = 0;
}

unfoldable pub add : ℕ → ResendMap → ℕ → List Packet → ℕ → ResendMap
add now m index packets length = record m {
  unacknowledged =
      insert index (record { packets = packets; timestamp = now; length = length })
        m.unacknowledged;
  in_flight_bytes = m.in_flight_bytes + length;
}

abbrev pub min_rto : ℕ
min_rto = 50 * millisecond

abbrev pub max_rto : ℕ
max_rto = 10 * second

unfoldable pub clamp_rto : ℕ → ℕ
clamp_rto rto = if ltb rto min_rto then min_rto else if ltb max_rto rto then max_rto else rto

unfoldable pub abs_diff : ℕ → ℕ → ℕ
abs_diff a b = if ltb a b then b - a else a - b

unfoldable pub update_rtt : ResendMap → ℕ → ResendMap
unfolding clamp_rto abs_diff
update_rtt m sample =
    let first = m.srtt == 0 in
    let srtt = if first then sample else (7 * m.srtt + 1 * sample) / 8 in
    let rtt_var = if first then sample / 2 else (3 * m.rtt_var + 1 * abs_diff m.srtt sample) / 4 in
    if sample == 0
    then m
    else record m { srtt = srtt; rtt_var = rtt_var; rto = clamp_rto (srtt + 4 * rtt_var) }

-- `mul` is 1 for an acknowledgement and 2 for a retransmission, which takes no sample.
unfoldable pub remove : ℕ → ResendMap → ℕ → ℕ → ResendMap × Option (List Packet)
remove now m index mul = elim (lookup index m.unacknowledged) [
  | none ↦ (m, none)
  | some r ↦
      let m' : ResendMap = record m {
        unacknowledged = delete index m.unacknowledged;
        in_flight_bytes = m.in_flight_bytes - r.length;
      } in
      let sample = now - r.timestamp in
      (
        if mul == 1 then update_rtt (record m' { last_sample = sample }) sample else m',
        some r.packets,
      )
]

unfoldable pub acknowledge : ℕ → ResendMap → ℕ → ResendMap × Option (List Packet)
unfolding remove
acknowledge now m index = remove now m index 1

unfoldable pub retransmit : ℕ → ResendMap → ℕ → ResendMap × Option (List Packet)
unfolding remove
retransmit now m index = remove now m index 2

unfoldable pub rtt_value : ResendMap → Bool → ℕ
rtt_value m smoothed =
    let default_rtt = 50 * millisecond in
    if smoothed
    then (if m.srtt == 0 then default_rtt else m.srtt)
    else (if m.last_sample == 0 then default_rtt else m.last_sample)

unfoldable pub rtt : ResendMap → ℕ
unfolding rtt_value
rtt m = rtt_value m true

unfoldable pub rtt_variance : ResendMap → ℕ
rtt_variance m = m.rtt_var

unfoldable pub timeout : ResendMap → ℕ
timeout m = if m.rto == 0 then 200 * millisecond else m.rto

unfoldable pub in_flight_bytes_estimate : ResendMap → ℕ
in_flight_bytes_estimate m = m.in_flight_bytes
