-- ===== src/Congestion/Udt/Rate.antt =====
-- congestion/udt.go: what the events on a connection do to the window and the rate.
use go_raknet.Prelude.{
  ℕ, ◌*◌, ◌%◌, ◌^◌, List, [], ◌∷◌, ◌++◌, Bool, true, false, not, ltb, ◌==◌, ◌&&◌, ◌||◌,
  if◌then◌else◌, length, drop,
}
use go_raknet.Congestion.{millisecond, microseconds, sub_uint32, greater_than}
use go_raknet.Congestion.Float64.{Float64, max_float}
use go_raknet.Congestion.Udt.{Udt}

module _ {F : Type 0} ⦃d : Float64 F⦄ where
  open d use {of_nat, lit, neg, add, sub, mul, div, lt, le}

  unfoldable pub update_rtt : ℕ → Udt F → Udt F
  update_rtt rtt c = if rtt == 0 then c else record c {
    last_rtt = rtt;
    min_rtt = if c.min_rtt == 0 || ltb rtt c.min_rtt then rtt else c.min_rtt;
    max_rtt = if ltb c.max_rtt rtt then rtt else c.max_rtt;
  }

  unfoldable pub cap_min_snd : Udt F → Udt F
  cap_min_snd c =
      if lt (lit 500 1) c.snd_micros_per_byte
      then record c { snd_micros_per_byte = lit 500 1 }
      else c

  -- `weight * ((SND+1)^2) / (501^2)`.
  unfoldable pub increment : F → F → F
  increment weight snd =
      div (mul weight (mul (add snd (lit 1 1)) (add snd (lit 1 1)))) (lit (501 * 501) 1)

  unfoldable pub increase_time_between_sends : Udt F → Udt F
  unfolding increment
  increase_time_between_sends c =
      let inc = increment (lit 2 100) c.snd_micros_per_byte in
      cap_min_snd
        (record c { snd_micros_per_byte = mul c.snd_micros_per_byte (sub (lit 102 100) inc) })

  unfoldable pub decrease_time_between_sends : Udt F → Udt F
  unfolding increment
  decrease_time_between_sends c =
      let inc = increment (lit 1 100) c.snd_micros_per_byte in
      let snd = mul c.snd_micros_per_byte (sub (lit 99 100) inc) in
      record c { snd_micros_per_byte = if lt snd (lit 1 1_000_000) then lit 1 1_000_000 else snd }

  -- The estimate of the arrival rate, with its fallback.
  unfoldable pub estimated_as : Udt F → F
  estimated_as c =
      let rtt = if c.last_rtt == 0 then 50 * millisecond else c.last_rtt in
      let total = add (of_nat (microseconds rtt)) c.syn_micros in
      let mtu = of_nat c.mtu_bytes in
      let rate =
        if lt (lit 0 1) total && lt (lit 0 1) mtu
        then div (mul (max_float (sub c.cwnd_datagrams (lit 16 1)) (lit 0 1)) mtu) total
        else lit 0 1 in
      if le rate (lit 0 1) then lit 36 10_000 else rate

  unfoldable pub end_slow_start_with_estimated_as : Udt F → Udt F
  end_slow_start_with_estimated_as c =
      let snd = div (lit 1 1) (estimated_as c) in
      let snd = if le snd (lit 0 1) then lit 10_000 36 else snd in
      if c.is_in_slow_start
      then record (cap_min_snd (record c { snd_micros_per_byte = snd })) {
        is_in_slow_start = false;
        bytes_can_send_this_tick = 0;
      }
      else c

  -- The sum of the differences of neighbours, and the sum of all, behind the sample `last`.
  unfoldable pub slope_loop : F → List F → F → F → F × F
  slope_loop last [] slope_sum average = (slope_sum, average)
  slope_loop last (x ∷ xs) slope_sum average =
      slope_loop x xs (add slope_sum (sub x last)) (add average x)

  -- The decision on the rate at the end of a block.
  unfoldable pub decide : ℕ → F → F → Udt F → Udt F
  decide rtt slope_sum average c =
      if c.had_packetloss_this_block
      then c
      else if lt slope_sum (mul (neg (lit 10 100)) average)
      then c
      else if lt (mul (lit 10 100) average) slope_sum
      then increase_time_between_sends c
      else decrease_time_between_sends (record c { last_rtt_on_increase_send_rate = rtt })

  -- With all the samples: `samples[0]` panics where there is none, which a count of 33 rules out.
  unfoldable pub end_block : ℕ → List F → Udt F → Udt F
  end_block rtt [] c = c
  end_block rtt (x ∷ xs) c =
      let (slope_sum, total) = slope_loop x xs (lit 0 1) x in
      record (decide rtt slope_sum (div total (of_nat (length (x ∷ xs)))) c) {
        pings_last_interval = [];
        had_packetloss_this_block = false;
        next_congestion_control_block = c.next_datagram_sequence_number;
      }

  -- The new sample among those kept.
  unfoldable pub add_ping : ℕ → Udt F → List F
  add_ping rtt c =
      let pings =
        if rtt == 0
        then c.pings_last_interval
        else c.pings_last_interval ++ (of_nat (microseconds rtt) ∷ []) in
      if ltb c.pings_last_interval_target_count (length pings) then drop 1 pings else pings

  -- Whether the number and the samples let a block end.
  unfoldable pub is_block_over : ℕ → Udt F → Bool
  is_block_over seq c =
      greater_than seq c.next_congestion_control_block
      && not (
          ltb (sub_uint32 seq c.next_congestion_control_block)
            (c.pings_last_interval_target_count % 2 ^ 32))
      && length c.pings_last_interval == c.pings_last_interval_target_count

  unfoldable pub update_window_size_and_ack_on_ack_per_syn : ℕ → Bool → ℕ → Udt F → Udt F
  update_window_size_and_ack_on_ack_per_syn rtt continuous seq c =
      if continuous
      then (let c' = record c { pings_last_interval = add_ping rtt c } in
          if is_block_over seq c' then end_block rtt c'.pings_last_interval c' else c')
      else record c {
        next_congestion_control_block = c.next_datagram_sequence_number;
        pings_last_interval = [];
      }

  -- The window of slow start, from the bytes acknowledged so far.
  unfoldable pub acked_window : ℕ → ℕ → F
  acked_window total mtu =
      let cwnd = div (of_nat total) (of_nat mtu) in if lt cwnd (lit 2 1) then lit 2 1 else cwnd

  unfoldable pub grow_window : ℕ → Udt F → Udt F
  grow_window total c =
      let cwnd = acked_window total c.mtu_bytes in
      if ltb 0 c.mtu_bytes
      then if le c.cwnd_max_threshold cwnd
        then record (end_slow_start_with_estimated_as c) { cwnd_datagrams = c.cwnd_max_threshold }
        else record c { cwnd_datagrams = cwnd }
      else c

  unfoldable pub on_ack : ℕ → Bool → ℕ → ℕ → Udt F → Udt F
  on_ack rtt continuous total seq c =
      let c' = update_rtt rtt c in
      if c.is_in_slow_start
      then grow_window total (record c' {
        next_congestion_control_block = c.next_datagram_sequence_number;
        last_rtt_on_increase_send_rate = if rtt == 0 then c.last_rtt_on_increase_send_rate else rtt;
      })
      else update_window_size_and_ack_on_ack_per_syn rtt continuous seq c'

  unfoldable pub on_nak : Udt F → Udt F
  on_nak c =
      if c.is_in_slow_start
      then end_slow_start_with_estimated_as c
      else if c.had_packetloss_this_block
      then c
      else record (increase_time_between_sends c) { had_packetloss_this_block = true }

  unfoldable pub on_resend : Udt F → Udt F
  on_resend c =
      if c.is_in_slow_start
      then end_slow_start_with_estimated_as c
      else if c.had_packetloss_this_block
      then c
      else record (increase_time_between_sends c) { had_packetloss_this_block = true }
