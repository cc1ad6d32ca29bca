-- ===== src/Conn.antt =====
-- conn.go: the sending half of a connection: writes, the pacing by the budgets of the congestion
-- controller, and resending. A connection holds its controller as a value of the parameter `C`; the
-- operations on it come from the interface of congestion/controller.go. Budgets that the controller
-- gives as 0 or less are 0 here: the code only asks if they are above 0.
pub mod Sending
pub mod Resending
pub mod Flush
pub mod Pacing
pub mod Writing
pub mod Unreliable
pub mod Acked
mod Tests
use go_raknet.Prelude.{
  ℕ, ◌+◌, ◌-◌, ◌*◌, ◌%◌, ◌^◌, ◌<◌, ◌≤◌, ◌≡◌, List, [], ◌∷◌, ◌++◌, Bool, true, false, min, max, ltb,
  ◌==◌, ◌||◌, not, if◌then◌else◌, Option, none, some,
}
use go_raknet.Packet.{Packet}
use go_raknet.ResendMap.{ResendMap, new_recovery_queue}
use go_raknet.Metrics.{Metrics, new_metrics}

abbrev pub min_mtu_size : ℕ
min_mtu_size = 576

abbrev pub max_mtu_size : ℕ
max_mtu_size = 1200

abbrev pub max_nack_queue_size : ℕ
max_nack_queue_size = 256

abbrev pub nack_budget_per_second : ℕ
nack_budget_per_second = 512

-- `fullPacketAcknowledgement`.
pub record PacketAck : Type 0 where
  pub remaining : ℕ
  pub internal_id : ℕ

pub record Conn (C : Type 0) : Type 0 where
  pub seq : ℕ
  pub order_index : ℕ
  pub message_index : ℕ
  pub sequence_index : ℕ
  pub split_id : ℕ
  pub mtu : ℕ
  pub retransmission : ResendMap
  pub pending : List Packet
  pub nack_queue : List ℕ
  pub nack_set : List (ℕ × Unit {0})
  pub cc : C
  pub send_budget : ℕ
  pub resend_budget : ℕ
  pub total_acked_bytes : ℕ
  pub nack_budget : ℕ
  pub nack_window_start : ℕ
  pub rtt : ℕ
  pub metrics : Metrics
  -- What the socket was given, and whether it has been closed.
  pub out : List (List ℕ)
  pub socket_closed : Bool
  -- The writes whose acknowledgement is awaited, by their order index; whether there is a callback, and
  -- what it was called with. `oldACKSequences`, which nothing fills, is left out.
  pub acknowledgements : List (ℕ × PacketAck)
  pub on_ack : Bool
  pub acked : List ℕ

-- The fields of this half. The two budgets are those of the controller at its start.
unfoldable pub new_conn : {C : Type 0} → ℕ → C → ℕ → ℕ → ℕ → Conn C
new_conn now cc send_budget resend_budget mtu = record {
  seq = 0;
  order_index = 0;
  message_index = 0;
  sequence_index = 0;
  split_id = 0;
  mtu = min (max mtu min_mtu_size) max_mtu_size;
  retransmission = new_recovery_queue;
  pending = [];
  nack_queue = [];
  nack_set = [];
  cc = cc;
  send_budget = send_budget;
  resend_budget = resend_budget;
  total_acked_bytes = 0;
  nack_budget = nack_budget_per_second;
  nack_window_start = now;
  rtt = 0;
  metrics = new_metrics;
  out = [];
  socket_closed = false;
  acknowledgements = [];
  on_ack = false;
  acked = [];
}

unfoldable pub effective_mtu : {C : Type 0} → Conn C → ℕ
effective_mtu c = (c.mtu + 2 ^ 16 - 28) % 2 ^ 16

-- The subtraction is on uint32.
unfoldable pub is_newer_sequence_index : ℕ → ℕ → Bool
is_newer_sequence_index incoming current =
    if incoming == current then false else ltb ((incoming + 2 ^ 32 - current) % 2 ^ 32) 0x800000
