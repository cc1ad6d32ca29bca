-- ===== src/Congestion/Udt.antt =====
-- congestion/udt.go: the controller of RakNet that paces by a rate once slow start is over.
pub mod Rate
pub mod Pace
pub mod Kept
pub mod Bounds
pub mod Loss
pub mod Blocks
use go_raknet.Prelude.{
  ℕ, ◌+◌, ◌-◌, ◌*◌, ◌%◌, ◌^◌, List, [], ◌∷◌, ◌++◌, Bool, true, false, not, ltb, leb, ◌==◌, ◌&&◌,
  ◌||◌, if◌then◌else◌, length, drop,
}
use go_raknet.Congestion.{
  second, millisecond, microsecond, microseconds, milliseconds, sub_uint32, greater_than,
}
use go_raknet.Congestion.Float64.{Float64, max_float}

pub record Udt (F : Type 0) : Type 0 where
  pub mtu_bytes : ℕ
  pub cwnd_max_threshold : F
  pub syn_micros : F
  pub cwnd_datagrams : F
  pub is_in_slow_start : Bool
  pub snd_micros_per_byte : F
  pub bytes_can_send_this_tick : ℕ
  pub last_rtt : ℕ
  pub min_rtt : ℕ
  pub max_rtt : ℕ
  pub last_rtt_on_increase_send_rate : ℕ
  pub next_congestion_control_block : ℕ
  pub next_datagram_sequence_number : ℕ
  pub had_packetloss_this_block : Bool
  pub pings_last_interval : List F
  pub pings_last_interval_target_count : ℕ
  pub oldest_unsent_ack : ℕ

-- The time that counts for the budget.
unfoldable pub elapsed_of : ℕ → Bool → ℕ
elapsed_of since continuous =
    if not continuous && ltb (100 * millisecond) since then 100 * millisecond else since

module _ {F : Type 0} ⦃d : Float64 F⦄ where
  open d use {of_nat, lit, neg, add, sub, mul, div, lt, le, truncate}

  unfoldable pub new_udt : ℕ → Udt F
  new_udt mtu_bytes = record {
    mtu_bytes = mtu_bytes;
    cwnd_max_threshold = lit 512 1;
    syn_micros = lit 10_000 1;
    cwnd_datagrams = lit 2 1;
    is_in_slow_start = true;
    snd_micros_per_byte = lit 10_000 36;
    bytes_can_send_this_tick = 0;
    last_rtt = 0;
    min_rtt = 0;
    max_rtt = 0;
    last_rtt_on_increase_send_rate = second;
    next_congestion_control_block = 0;
    next_datagram_sequence_number = 0;
    had_packetloss_this_block = false;
    pings_last_interval = [];
    pings_last_interval_target_count = 33;
    oldest_unsent_ack = 0;
  }

  -- The window in bytes.
  unfoldable pub window_bytes : Udt F → ℕ
  window_bytes c = truncate (mul c.cwnd_datagrams (of_nat c.mtu_bytes))

  -- The budget of a tick after slow start: set to 0, and filled when time has passed.
  unfoldable pub rate_budget : Udt F → ℕ → Bool → ℕ
  unfolding elapsed_of
  rate_budget c since continuous =
      let elapsed = elapsed_of since continuous in
      if ltb 0 elapsed && lt (lit 0 1) c.snd_micros_per_byte
      then truncate (div (of_nat (microseconds elapsed)) c.snd_micros_per_byte)
      else 0

  unfoldable pub get_transmission_bandwidth : ℕ → ℕ → Bool → Udt F → Udt F × ℕ
  get_transmission_bandwidth since unacked continuous c =
      if c.is_in_slow_start
      then (c, (if ltb (window_bytes c) unacked then 0 else window_bytes c - unacked))
      else (let n = rate_budget c since continuous in
          (record c { bytes_can_send_this_tick = n }, n))

  unfoldable pub get_retransmission_bandwidth : ℕ → ℕ → Bool → Udt F → Udt F × ℕ
  get_retransmission_bandwidth since unacked continuous c =
      if c.is_in_slow_start
      then (c, window_bytes c)
      else get_transmission_bandwidth since unacked continuous c

  unfoldable pub get_sender_rto_for_ack : Udt F → ℕ
  get_sender_rto_for_ack c =
      let rtt_var = if ltb c.max_rtt c.min_rtt then 0 else c.max_rtt - c.min_rtt in
      if c.last_rtt == 0
      then 0
      else c.last_rtt
        + truncate (mul (lit 4 1) (of_nat rtt_var))
        + truncate c.syn_micros * microsecond

  -- The differences of the code stand on the other side here.
  unfoldable pub should_send_acks : ℕ → ℕ → Udt F → Bool
  should_send_acks now to_next_tick c =
      let rto = get_sender_rto_for_ack c in
      if rto == 0
      then true
      else if c.oldest_unsent_ack == 0
      then false
      else if leb (c.oldest_unsent_ack + truncate (div c.syn_micros (lit 1_000 1))) now
      then true
      else ltb (to_next_tick + now + milliseconds c.last_rtt)
          (c.oldest_unsent_ack + milliseconds rto)

  unfoldable pub on_queue_ack : ℕ → Udt F → Udt F
  on_queue_ack now c = if c.oldest_unsent_ack == 0 then record c { oldest_unsent_ack = now } else c

  unfoldable pub on_send_ack : Udt F → Udt F
  on_send_ack c = record c { oldest_unsent_ack = 0 }

  unfoldable pub get_rto_for_retransmission : Udt F → ℕ
  get_rto_for_retransmission c =
      let ret = c.last_rtt_on_increase_send_rate * 2 in
      if c.last_rtt == 0
      then 1_000 * millisecond
      else if ltb ret (100 * millisecond)
      then 100 * millisecond
      else if ltb (1_000 * millisecond) ret
      then 1_000 * millisecond
      else ret

  unfoldable pub on_send_bytes : ℕ → Udt F → Udt F
  on_send_bytes n c = if c.is_in_slow_start then c else record c {
    bytes_can_send_this_tick =
        if ltb c.bytes_can_send_this_tick n then 0 else c.bytes_can_send_this_tick - n;
  }

  unfoldable pub on_datagram_sent : Udt F → Udt F × ℕ
  on_datagram_sent c = (
    record c { next_datagram_sequence_number = (c.next_datagram_sequence_number + 1) % 2 ^ 32 },
    c.next_datagram_sequence_number,
  )
