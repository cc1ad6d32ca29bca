-- ===== src/Congestion/Tests.antt =====
-- congestion: the theorems on the two controllers at concrete calls, in millionths.
use go_raknet.Prelude.{
  ℕ, ◌+◌, ◌*◌, ◌^◌, ◌≤◌, ◌≡◌, refl, inl, inr, true, false, ◌&&◌, ◌||◌, ◌==◌, leb, List, [], ◌∷◌,
  ◌++◌, length, arith, if◌then◌else◌,
}
use go_raknet.Congestion.{millisecond}
use go_raknet.Congestion.Float64.{max_float}
use go_raknet.Congestion.Micros.{micros, micros-IsRounded}
use go_raknet.Congestion.Controller.{
  Call, queue_ack, send_ack, send_bytes, datagram_sent, ack, nak, resend, call, run, numbers,
}
use go_raknet.Congestion.Controllers.{udt_controller, sliding_window_controller}
use go_raknet.Congestion.Ledger.{
  History, happen, first_set, ledger_of, in_a_row, sends, udt_ledger, sw_ledger, run-IsLedger,
}
use go_raknet.Congestion.Udt as Udt
use go_raknet.Congestion.Udt.{Udt, new_udt, get_rto_for_retransmission}
use go_raknet.Congestion.Udt.Rate as Rate
use go_raknet.Congestion.Udt.Kept.{IsSane}
use go_raknet.Congestion.Udt.Bounds.{new_run-IsSane}
use go_raknet.Congestion.Udt.Loss.{loss_ends_slow_start, loss_slows_once}
use go_raknet.Congestion.Udt.Blocks.{is_block_over_gate}
use go_raknet.Congestion.SlidingWindow.{SlidingWindow, new_sliding_window}

abbrev calls : List Call
calls =
    datagram_sent
    ∷ send_bytes 1_200
    ∷ datagram_sent
    ∷ queue_ack 7
    ∷ ack 40_000_000 true 24_000 1
    ∷ nak
    ∷ datagram_sent
    ∷ resend
    ∷ send_ack
    ∷ queue_ack 9
    ∷ queue_ack 11
    ∷ []

abbrev start : Udt ℕ
start = new_udt 1_172

-- The window is 24000 / 1172 datagrams when the NACK ends slow start.
run_window : (run udt_controller calls start).cwnd_datagrams ≡ 20_477_815
unfolding run call udt_controller new_udt Udt.on_datagram_sent Udt.on_send_bytes Udt.on_queue_ack
    Udt.on_send_ack Rate.on_ack Rate.update_rtt Rate.grow_window Rate.acked_window Rate.on_nak
    Rate.on_resend Rate.end_slow_start_with_estimated_as Rate.increase_time_between_sends
    Rate.increment Rate.cap_min_snd Rate.estimated_as max_float
run_window = refl

new_run-IsSane_example :
    let c : Udt ℕ = run udt_controller calls (new_udt 1_172) in
    IsSane c
    × (100 * millisecond ≤ get_rto_for_retransmission c)
    × (get_rto_for_retransmission c ≤ 1_000 * millisecond)
new_run-IsSane_example = new_run-IsSane micros-IsRounded 1_172 calls (omega arith)

loss_ends_slow_start_example :
    (run udt_controller (calls ++ (nak ∷ calls)) start).is_in_slow_start ≡ false
loss_ends_slow_start_example = loss_ends_slow_start calls nak calls start (inl refl)

abbrev later : Udt ℕ
later = run udt_controller calls start

later_phase : later.is_in_slow_start ≡ false
later_phase =
    loss_ends_slow_start
      (datagram_sent
        ∷ send_bytes 1_200
        ∷ datagram_sent
        ∷ queue_ack 7
        ∷ ack 40_000_000 true 24_000 1
        ∷ [])
      nak (datagram_sent ∷ resend ∷ send_ack ∷ queue_ack 9 ∷ queue_ack 11 ∷ []) start (inl refl)

loss_slows_once_example :
    (run udt_controller (resend ∷ send_bytes 500 ∷ nak ∷ nak ∷ []) later).snd_micros_per_byte ≡ (
      if later.had_packetloss_this_block
      then later.snd_micros_per_byte
      else (Rate.increase_time_between_sends later).snd_micros_per_byte)
loss_slows_once_example =
    loss_slows_once later resend (send_bytes 500 ∷ nak ∷ nak ∷ []) (inr refl) later_phase
      (refl, (refl, (refl, tt)))

-- Nothing sent yet, and no ACK queued.
abbrev fresh : History
fresh = record { sent = 0; unsent = [] }

run-IsLedger_example :
    let u : Udt ℕ = start in
    let s : SlidingWindow ℕ = new_sliding_window 1_172 in
    (udt_ledger (run udt_controller calls u) ≡ ledger_of (happen fresh calls))
    × (numbers udt_controller calls u ≡ in_a_row 0 (sends calls))
    × (sw_ledger (run sliding_window_controller calls s) ≡ ledger_of (happen fresh calls))
    × (numbers sliding_window_controller calls s ≡ in_a_row 0 (sends calls))
unfolding udt_ledger sw_ledger first_set new_udt new_sliding_window
run-IsLedger_example = run-IsLedger calls fresh start (new_sliding_window 1_172) refl refl

abbrev wrapped : Udt ℕ
wrapped = record start { next_congestion_control_block = 2 ^ 25 }

is_block_over_gate_example : Rate.is_block_over 0 wrapped ≡ (
    (leb (2 ^ 25 + 33) 0 || leb (0 + 2 ^ 23) (2 ^ 25)) && length wrapped.pings_last_interval == 33)
unfolding new_udt
is_block_over_gate_example = is_block_over_gate 0 wrapped refl (omega arith) (omega arith)
