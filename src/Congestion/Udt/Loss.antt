-- ===== src/Congestion/Udt/Loss.antt =====
-- congestion/udt.go: losses end slow start for good, and slow the rate down once in a block.
use go_raknet.Prelude.{
  ℕ, ◌≡◌, refl, ◌⊎◌, inl, inr, Bool, true, false, if◌then◌else◌, arith, List, [], ◌∷◌, ◌++◌, All,
}
use go_raknet.Congestion.Float64.{Float64}
use go_raknet.Congestion.Controller.{
  Call, transmission, retransmission, queue_ack, send_ack, send_bytes, datagram_sent, ack, nak,
  resend, call, run,
}
use go_raknet.Congestion.Controllers.{udt_controller}
use go_raknet.Congestion.Udt as Udt
use go_raknet.Congestion.Udt.{Udt}
use go_raknet.Congestion.Udt.Rate as Rate

abbrev pub IsLoss : Call → Type 0
IsLoss x = (x ≡ nak) ⊎ (x ≡ resend)

abbrev pub is_ack : Call → Bool
is_ack (ack rtt continuous total seq) = true
is_ack _ = false

module _ {F : Type 0} ⦃d : Float64 F⦄ where
  end_slow_start_ends :
      (c : Udt F) → (Rate.end_slow_start_with_estimated_as c).is_in_slow_start ≡ false
  unfolding Rate.end_slow_start_with_estimated_as
  end_slow_start_ends c = ground arith

  slower_phase :
      (c : Udt F) → (Rate.increase_time_between_sends c).is_in_slow_start ≡ c.is_in_slow_start
  unfolding Rate.increase_time_between_sends Rate.cap_min_snd
  slower_phase c = ground arith

  loss_ends : (x : Call) (c : Udt F) → IsLoss x → (call udt_controller x c).is_in_slow_start ≡ false
  unfolding call udt_controller Rate.on_nak Rate.on_resend
  loss_ends x c h = ground (arith, end_slow_start_ends c, slower_phase c)

  block_phase :
      (rtt : ℕ) (pings : List F) (c : Udt F)
      → (Rate.end_block rtt pings c).is_in_slow_start ≡ c.is_in_slow_start
  unfolding Rate.end_block Rate.decide Rate.increase_time_between_sends
      Rate.decrease_time_between_sends Rate.cap_min_snd
  block_phase rtt [] c = refl
  block_phase rtt (x ∷ xs) c = ground arith

  rtt_phase : (rtt : ℕ) (c : Udt F) → (Rate.update_rtt rtt c).is_in_slow_start ≡ c.is_in_slow_start
  unfolding Rate.update_rtt
  rtt_phase rtt c = ground arith

  per_syn_phase :
      (rtt : ℕ) (continuous : Bool) (seq : ℕ) (c : Udt F)
      → (Rate.update_window_size_and_ack_on_ack_per_syn rtt continuous seq c).is_in_slow_start
        ≡ c.is_in_slow_start
  unfolding Rate.update_window_size_and_ack_on_ack_per_syn
  per_syn_phase rtt continuous seq c =
      let pings = Rate.add_ping rtt c in
      ground (arith, block_phase rtt pings (record c { pings_last_interval = pings }))

  ack_phase :
      (rtt : ℕ) (continuous : Bool) (total seq : ℕ) (c : Udt F)
      → c.is_in_slow_start ≡ false
      → (Rate.on_ack rtt continuous total seq c).is_in_slow_start ≡ false
  unfolding Rate.on_ack
  ack_phase rtt continuous total seq c h =
      let c' = Rate.update_rtt rtt c in
      ground (arith, h, rtt_phase rtt c, per_syn_phase rtt continuous seq c')

  call_phase :
      (x : Call) (c : Udt F)
      → c.is_in_slow_start ≡ false
      → (call udt_controller x c).is_in_slow_start ≡ false
  unfolding call udt_controller Udt.get_transmission_bandwidth Udt.get_retransmission_bandwidth
      Udt.on_queue_ack Udt.on_send_ack Udt.on_send_bytes Udt.on_datagram_sent
  call_phase (transmission since unacked continuous) c h = ground (arith, h)
  call_phase (retransmission since unacked continuous) c h = ground (arith, h)
  call_phase (queue_ack now) c h = ground (arith, h)
  call_phase send_ack c h = h
  call_phase (send_bytes n) c h = ground (arith, h)
  call_phase datagram_sent c h = h
  call_phase (ack rtt continuous total seq) c h = ack_phase rtt continuous total seq c h
  call_phase nak c h = loss_ends nak c (inl refl)
  call_phase resend c h = loss_ends resend c (inr refl)

  run_phase :
      (xs : List Call) (c : Udt F)
      → c.is_in_slow_start ≡ false
      → (run udt_controller xs c).is_in_slow_start ≡ false
  unfolding run
  run_phase [] c h = h
  run_phase (x ∷ xs) c h = run_phase xs (call udt_controller x c) (call_phase x c h)

  -- The first loss ends slow start for good: after any calls, a loss, and any further calls the
  -- controller is out of slow start.
  pub loss_ends_slow_start :
      (before : List Call) (x : Call) (after : List Call) (c : Udt F)
      → IsLoss x
      → (run udt_controller (before ++ (x ∷ after)) c).is_in_slow_start ≡ false
  unfolding run
  loss_ends_slow_start [] x after c h = run_phase after (call udt_controller x c) (loss_ends x c h)
  loss_ends_slow_start (y ∷ before) x after c h =
      loss_ends_slow_start before x after (call udt_controller y c) h

  -- After a loss of this block: the spacing is settled until the next ACK.
  pub record IsSettled (s : F) (c : Udt F) : Type 0 where
    pub lossy : c.had_packetloss_this_block ≡ true
    pub normal : c.is_in_slow_start ≡ false
    pub spacing : c.snd_micros_per_byte ≡ s

  call-IsSettled :
      (x : Call) (s : F) (c : Udt F)
      → is_ack x ≡ false
      → IsSettled s c
      → IsSettled s (call udt_controller x c)
  unfolding call udt_controller Udt.get_transmission_bandwidth Udt.get_retransmission_bandwidth
      Udt.on_queue_ack Udt.on_send_ack Udt.on_send_bytes Udt.on_datagram_sent Rate.on_nak
      Rate.on_resend
  call-IsSettled x s c a h = ground (arith, h)

  run-IsSettled :
      (xs : List Call) (s : F) (c : Udt F)
      → All (λ x. is_ack x ≡ false) xs
      → IsSettled s c
      → IsSettled s (run udt_controller xs c)
  unfolding run
  run-IsSettled [] s c a h = h
  run-IsSettled (x ∷ xs) s c a h =
      run-IsSettled xs s (call udt_controller x c) a.1 (call-IsSettled x s c a.0 h)

  loss-IsSettled :
      (x : Call) (c : Udt F)
      → IsLoss x
      → c.is_in_slow_start ≡ false
      → IsSettled
          (if c.had_packetloss_this_block
            then c.snd_micros_per_byte
            else (Rate.increase_time_between_sends c).snd_micros_per_byte)
          (call udt_controller x c)
  unfolding call udt_controller Rate.on_nak Rate.on_resend
  loss-IsSettled x c h n = ground (arith, n, slower_phase c)

  -- Out of slow start, a loss slows the rate down by one step unless one of this block already did, and
  -- until the next ACK no other call, and no further loss, changes the rate.
  pub loss_slows_once :
      (c : Udt F) (x : Call) (xs : List Call)
      → IsLoss x
      → c.is_in_slow_start ≡ false
      → All (λ y. is_ack y ≡ false) xs
      → (run udt_controller (x ∷ xs) c).snd_micros_per_byte ≡ (
          if c.had_packetloss_this_block
          then c.snd_micros_per_byte
          else (Rate.increase_time_between_sends c).snd_micros_per_byte)
  unfolding run
  loss_slows_once c x xs h n a =
      (run-IsSettled xs _ (call udt_controller x c) a (loss-IsSettled x c h n)).spacing
