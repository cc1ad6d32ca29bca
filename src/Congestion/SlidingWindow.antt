-- ===== src/Congestion/SlidingWindow.antt =====
-- congestion/sliding_window.go: the controller of RakNet with a window alone.
use go_raknet.Prelude.{
  ℕ, ◌+◌, ◌-◌, ◌*◌, ◌%◌, ◌^◌, Bool, true, false, not, leb, ◌==◌, ◌&&◌, ◌||◌, if◌then◌else◌, Option,
  none, some,
}
use go_raknet.Congestion.{microsecond, microseconds, greater_than}
use go_raknet.Congestion.Float64.{Float64}

pub record SlidingWindow (F : Type 0) : Type 0 where
  pub mtu : ℕ
  pub cwnd : F
  pub ss_thresh : F
  pub last_rtt : F
  pub estimated_rtt : F
  pub deviation_rtt : F
  pub oldest_unsent_ack : ℕ
  pub next_datagram_sequence_number : ℕ
  pub next_congestion_control_block : ℕ
  pub backoff_this_block : Bool
  pub speed_up_this_block : Bool
  pub expected_next_sequence_number : ℕ
  pub is_continuous_send : Bool
  pub syn_micros : F

module _ {F : Type 0} ⦃d : Float64 F⦄ where
  open d use {of_nat, lit, neg, abs, add, sub, mul, div, lt, le, eq, truncate}

  unfoldable pub unset_time : F
  unset_time = neg (lit 1 1)

  unfoldable pub new_sliding_window : ℕ → SlidingWindow F
  new_sliding_window mtu_bytes = record {
    mtu = mtu_bytes % 2 ^ 32;
    cwnd = of_nat mtu_bytes;
    ss_thresh = lit 0 1;
    last_rtt = unset_time;
    estimated_rtt = unset_time;
    deviation_rtt = unset_time;
    oldest_unsent_ack = 0;
    next_datagram_sequence_number = 0;
    next_congestion_control_block = 0;
    backoff_this_block = false;
    speed_up_this_block = false;
    expected_next_sequence_number = 0;
    is_continuous_send = false;
    syn_micros = lit 10_000 1;
  }

  unfoldable pub get_transmission_bandwidth : ℕ → ℕ → Bool → SlidingWindow F → SlidingWindow F × ℕ
  get_transmission_bandwidth since unacked continuous c = (
    record c { is_continuous_send = continuous },
    (if leb unacked (truncate c.cwnd) then truncate c.cwnd - unacked else 0),
  )

  unfoldable pub get_retransmission_bandwidth : ℕ → ℕ → Bool → SlidingWindow F → SlidingWindow F × ℕ
  get_retransmission_bandwidth since unacked continuous c = (c, unacked)

  -- The duration of -1 ns that stands for an unknown time is `none` here; no other one is negative.
  unfoldable pub get_sender_rto_for_ack : SlidingWindow F → Option ℕ
  get_sender_rto_for_ack c =
      if eq c.last_rtt unset_time
      then none
      else some (truncate (add c.last_rtt c.syn_micros) * microsecond)

  unfoldable pub should_send_acks : ℕ → ℕ → SlidingWindow F → Bool
  should_send_acks now to_next_tick c = elim (get_sender_rto_for_ack c) [
    | none ↦ true
    | some rto ↦ leb (c.oldest_unsent_ack + truncate (div c.syn_micros (lit 1_000 1))) now
  ]

  unfoldable pub on_queue_ack : ℕ → SlidingWindow F → SlidingWindow F
  on_queue_ack now c = if c.oldest_unsent_ack == 0 then record c { oldest_unsent_ack = now } else c

  unfoldable pub on_send_ack : SlidingWindow F → SlidingWindow F
  on_send_ack c = record c { oldest_unsent_ack = 0 }

  unfoldable pub get_rto_for_retransmission : SlidingWindow F → ℕ
  get_rto_for_retransmission c =
      let threshold =
        add (add (mul (lit 2 1) c.estimated_rtt) (mul (lit 4 1) c.deviation_rtt)) (lit 30_000 1) in
      if eq c.estimated_rtt unset_time
      then 2_000_000 * microsecond
      else if lt (lit 2_000_000 1) threshold
      then 2_000_000 * microsecond
      else truncate threshold * microsecond

  unfoldable pub on_send_bytes : ℕ → SlidingWindow F → SlidingWindow F
  on_send_bytes n c = c

  unfoldable pub on_datagram_sent : SlidingWindow F → SlidingWindow F × ℕ
  on_datagram_sent c = (
    record c { next_datagram_sequence_number = (c.next_datagram_sequence_number + 1) % 2 ^ 32 },
    c.next_datagram_sequence_number,
  )

  unfoldable pub is_in_slow_start : SlidingWindow F → Bool
  is_in_slow_start c = le c.cwnd c.ss_thresh || eq c.ss_thresh (lit 0 1)

  -- The moving averages with a new sample.
  unfoldable pub estimate : F → SlidingWindow F → SlidingWindow F
  estimate rtt c =
      let difference = sub rtt c.estimated_rtt in
      if eq c.estimated_rtt unset_time
      then record c { last_rtt = rtt; estimated_rtt = rtt; deviation_rtt = rtt }
      else record c {
        last_rtt = rtt;
        estimated_rtt = add c.estimated_rtt (mul (lit 5 100) difference);
        deviation_rtt =
            add c.deviation_rtt (mul (lit 5 100) (sub (abs difference) c.deviation_rtt));
      }

  -- `mtu * mtu / cwnd`.
  unfoldable pub linear_step : ℕ → F → F
  linear_step mtu cwnd = div (mul (of_nat mtu) (of_nat mtu)) cwnd

  unfoldable pub grow_window : Bool → SlidingWindow F → SlidingWindow F
  unfolding linear_step
  grow_window new_period c =
      if is_in_slow_start c
      then (let cwnd = add c.cwnd (of_nat c.mtu) in
          record c {
            cwnd =
                if lt c.ss_thresh cwnd && not (eq c.ss_thresh (lit 0 1))
                then add c.ss_thresh (linear_step c.mtu cwnd)
                else cwnd;
          })
      else if new_period
      then record c { cwnd = add c.cwnd (linear_step c.mtu c.cwnd) }
      else c

  unfoldable pub start_period : Bool → SlidingWindow F → SlidingWindow F
  start_period new_period c =
      if new_period
      then record c {
        backoff_this_block = false;
        speed_up_this_block = false;
        next_congestion_control_block = c.next_datagram_sequence_number;
      }
      else c

  unfoldable pub on_ack : ℕ → Bool → ℕ → ℕ → SlidingWindow F → SlidingWindow F
  on_ack rtt continuous total seq c =
      let c' = record (estimate (of_nat (microseconds rtt)) c) {
        is_continuous_send = continuous;
      } in
      let new_period = greater_than seq c.next_congestion_control_block in
      if continuous then grow_window new_period (start_period new_period c') else c'

  unfoldable pub on_nak : SlidingWindow F → SlidingWindow F
  on_nak c =
      if c.is_continuous_send && not c.backoff_this_block
      then record c { ss_thresh = div c.cwnd (lit 2 1) }
      else c

  unfoldable pub on_resend : SlidingWindow F → SlidingWindow F
  on_resend c =
      let half = div c.cwnd (lit 2 1) in
      if c.is_continuous_send
        && not c.backoff_this_block
        && lt (mul (of_nat c.mtu) (lit 2 1)) c.cwnd
      then record c {
        ss_thresh = if lt half (of_nat c.mtu) then of_nat c.mtu else half;
        cwnd = of_nat c.mtu;
        next_congestion_control_block = c.next_datagram_sequence_number;
        backoff_this_block = true;
      }
      else c
