-- ===== src/Congestion/Controller.antt =====
-- congestion/controller.go: what a connection asks of its congestion controller, over the states `C`
-- of the controller. Times are numbers that are not negative; so are the budgets here, which the code
-- only asks if they are above 0.
use go_raknet.Prelude.{ℕ, Bool, List, [], ◌∷◌, ◌++◌}

pub record Controller (C : Type 0) : Type 0 where
  pub get_transmission_bandwidth : ℕ → ℕ → Bool → C → C × ℕ
  pub get_retransmission_bandwidth : ℕ → ℕ → Bool → C → C × ℕ
  pub should_send_acks : ℕ → ℕ → C → Bool
  pub on_queue_ack : ℕ → C → C
  pub on_send_ack : C → C
  pub get_rto_for_retransmission : C → ℕ
  pub on_send_bytes : ℕ → C → C
  pub on_datagram_sent : C → C × ℕ
  pub on_ack : ℕ → Bool → ℕ → ℕ → C → C
  pub on_nak : C → C
  pub on_resend : C → C
  pub is_in_slow_start : C → Bool

-- A call of an operation that can change the state.
pub data Call : Type 0 where
  transmission : ℕ → ℕ → Bool → Call
  retransmission : ℕ → ℕ → Bool → Call
  queue_ack : ℕ → Call
  send_ack : Call
  send_bytes : ℕ → Call
  datagram_sent : Call
  ack : ℕ → Bool → ℕ → ℕ → Call
  nak : Call
  resend : Call

module _ {C : Type 0} (control : Controller C) where
  unfoldable pub call : Call → C → C
  call (transmission since unacked continuous) c =
      (control.get_transmission_bandwidth since unacked continuous c).0
  call (retransmission since unacked continuous) c =
      (control.get_retransmission_bandwidth since unacked continuous c).0
  call (queue_ack now) c = control.on_queue_ack now c
  call send_ack c = control.on_send_ack c
  call (send_bytes n) c = control.on_send_bytes n c
  call datagram_sent c = (control.on_datagram_sent c).0
  call (ack rtt continuous total seq) c = control.on_ack rtt continuous total seq c
  call nak c = control.on_nak c
  call resend c = control.on_resend c

  -- The calls in their order.
  unfoldable pub run : List Call → C → C
  run [] c = c
  run (x ∷ xs) c = run xs (call x c)

  -- The number that a call gives a datagram.
  unfoldable pub number_of : Call → C → List ℕ
  number_of datagram_sent c = (control.on_datagram_sent c).1 ∷ []
  number_of _ c = []

  unfoldable pub numbers : List Call → C → List ℕ
  numbers [] c = []
  numbers (x ∷ xs) c = number_of x c ++ numbers xs (call x c)
