-- ===== src/Congestion/Udt/Bounds.antt =====
-- congestion/udt.go: what holds of the controller whatever a connection calls.
use go_raknet.Prelude.{ℕ, ◌*◌, ◌≤◌, Bool, arith, split_if, ◌==◌, List, [], ◌∷◌}
use go_raknet.Congestion.{millisecond}
use go_raknet.Congestion.Float64.{Float64}
use go_raknet.Congestion.Rounding.{IsRounded}
use go_raknet.Congestion.Controller.{
  Call, transmission, retransmission, queue_ack, send_ack, send_bytes, datagram_sent, ack, nak,
  resend, call, run,
}
use go_raknet.Congestion.Controllers.{udt_controller}
use go_raknet.Congestion.Udt as Udt
use go_raknet.Congestion.Udt.{Udt, new_udt, rate_budget, get_rto_for_retransmission}
use go_raknet.Congestion.Udt.Rate as Rate
use go_raknet.Congestion.Udt.Kept.{
  IsSane, new_udt-IsSane, on_nak-IsSane, on_resend-IsSane, per_syn-IsSane, update_rtt-IsSane,
  grow_window-IsSane,
}

module _ {F : Type 0} ⦃d : Float64 F⦄ (laws : IsRounded F) where
  on_ack-IsSane :
      (rtt : ℕ) (continuous : Bool) (total seq : ℕ) (c : Udt F)
      → IsSane c
      → IsSane (Rate.on_ack rtt continuous total seq c)
  unfolding Rate.on_ack
  on_ack-IsSane rtt continuous total seq c h =
      let told = update_rtt-IsSane laws rtt c h in
      split_if IsSane c.is_in_slow_start
        (λ e. grow_window-IsSane laws total _ (record { bounded = told.bounded }))
        (λ e. per_syn-IsSane laws rtt continuous seq _ told)

  call-IsSane : (x : Call) (c : Udt F) → IsSane c → IsSane (call udt_controller x c)
  unfolding call udt_controller Udt.get_transmission_bandwidth Udt.get_retransmission_bandwidth
      Udt.on_queue_ack Udt.on_send_ack Udt.on_send_bytes Udt.on_datagram_sent
  call-IsSane (transmission since unacked continuous) c h =
      split_if {A = Udt F × ℕ} (λ p. IsSane p.0) c.is_in_slow_start (λ e. h)
        (λ e. record { bounded = h.bounded })
  call-IsSane (retransmission since unacked continuous) c h =
      split_if {A = Udt F × ℕ} (λ p. IsSane p.0) c.is_in_slow_start (λ e. h)
        (λ e.
          split_if {A = Udt F × ℕ} (λ p. IsSane p.0) c.is_in_slow_start (λ e. h)
            (λ e. record { bounded = h.bounded }))
  call-IsSane (queue_ack now) c h =
      split_if IsSane (c.oldest_unsent_ack == 0) (λ e. record { bounded = h.bounded }) (λ e. h)
  call-IsSane send_ack c h = record { bounded = h.bounded }
  call-IsSane (send_bytes n) c h =
      split_if IsSane c.is_in_slow_start (λ e. h) (λ e. record { bounded = h.bounded })
  call-IsSane datagram_sent c h = record { bounded = h.bounded }
  call-IsSane (ack rtt continuous total seq) c h = on_ack-IsSane rtt continuous total seq c h
  call-IsSane nak c h = on_nak-IsSane laws c h
  call-IsSane resend c h = on_resend-IsSane laws c h

  run-IsSane : (xs : List Call) (c : Udt F) → IsSane c → IsSane (run udt_controller xs c)
  unfolding run
  run-IsSane [] c h = h
  run-IsSane (x ∷ xs) c h = run-IsSane xs (call udt_controller x c) (call-IsSane x c h)

  rto_bounds :
      (c : Udt F)
      → (100 * millisecond ≤ get_rto_for_retransmission c)
        × (get_rto_for_retransmission c ≤ 1_000 * millisecond)
  unfolding get_rto_for_retransmission
  rto_bounds c = ground arith

  -- For an MTU of at most 1500 bytes, whatever calls a connection makes of a new controller: the window
  -- stays between 2 and 512 datagrams; the spacing stays above 0 and at most 500 microseconds per byte;
  -- at most 33 samples are kept; and the timeout of a retransmission is between 100 and 1000 ms.
  pub new_run-IsSane :
      (mtu : ℕ) (xs : List Call)
      → mtu ≤ 1500
      → let c : Udt F = run udt_controller xs (new_udt mtu) in
        IsSane c
        × (100 * millisecond ≤ get_rto_for_retransmission c)
        × (get_rto_for_retransmission c ≤ 1_000 * millisecond)
  new_run-IsSane mtu xs h =
      let (least, most) = rto_bounds (run udt_controller xs (new_udt mtu)) in
      (run-IsSane xs (new_udt mtu) (new_udt-IsSane laws mtu h), least, most)
