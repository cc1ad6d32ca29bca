-- ===== src/Session.antt =====
-- conn.go: a whole connection, with its two halves, its ticks and its end. `control` is the congestion
-- controller and `handle` the handler; what a handler sends is in its own state. Times are in
-- nanoseconds; `now` is the clock, and `t` the time that a tick carries.
pub mod Receiving
pub mod Ending
pub mod Acks
pub mod Endpoint
mod Tests
use go_raknet.Prelude.{
  ℕ, ◌+◌, ◌-◌, ◌*◌, ◌/◌, ◌%◌, List, [], ◌∷◌, ◌++◌, Bool, true, false, not, ltb, ◌==◌, ◌&&◌, ◌||◌,
  if◌then◌else◌, length, Option, none, some, Result, ok, err, panic, closed,
}
use go_raknet.Packet.{Packet, bit_flag_ack, bit_flag_nack, reliability_unreliable}
use go_raknet.Acknowledge.{sort}
use go_raknet.Acknowledge.Send.{send_acknowledgement}
use go_raknet.ResendMap.{in_flight_bytes_estimate, millisecond, second}
use go_raknet.Metrics.{rotate}
use go_raknet.Message.{id_disconnect_notification}
use go_raknet.Message.ConnectedPing as ConnectedPing
use go_raknet.Conn.{Conn, effective_mtu}
use go_raknet.Congestion.Controller.{Controller}
use go_raknet.Conn.Sending.{
  is_some, write_bytes, write_with_ack, write_with_reliability, flush_send_queue,
}
use go_raknet.Conn.Resending.{flush_resend_queue, check_resend}
use go_raknet.Receiver.{Receiver}

pub record Session (C H : Type 0) : Type 0 where
  pub conn : Conn C
  pub receiver : Receiver H
  -- The packet that the receiving half reads into.
  pub pk : Packet
  -- The Unix time of `Close`, or 0, and the Unix time in milliseconds of the last datagram.
  pub closing : ℕ
  pub last_activity : ℕ
  pub last_tick_time : ℕ
  pub acks_left : ℕ
  -- Whether the connection was closed for good: `once` and `ctx`.
  pub done : Bool
  -- The handler of a dialer closes the socket with the connection.
  pub dialed : Bool

module _ {C : Type 0} where
  -- `sendACK` and `sendNACK`: a round for each number and one more are enough.
  unfoldable pub send_numbers : ℕ → Conn C → List ℕ → Conn C × Option (Result (Unit {0}))
  send_numbers flag c numbers =
      let (datagrams, r) =
        send_acknowledgement (length numbers + 1) (λ _. c.socket_closed) 0 numbers flag
          (effective_mtu c) in
      (record c { out = c.out ++ datagrams }, r)

module _ {C H : Type 0} (control : Controller C) where
  -- `Write`, `WriteWithACK` and `WriteWithReliability`.
  unfoldable pub unless_done : Session C H → Conn C × Result ℕ → Session C H × Result ℕ
  unless_done s (c, r) = if s.done then (s, err closed) else (record s { conn = c }, r)

  unfoldable pub write : ℕ → Session C H → List ℕ → Session C H × Result ℕ
  write now s b = unless_done s (write_bytes control now s.conn b)

  unfoldable pub write_acked : ℕ → Session C H → List ℕ → ℕ → Session C H × Result ℕ
  write_acked now s b id = unless_done s (write_with_ack control now s.conn b id)

  unfoldable pub write_as : ℕ → Session C H → List ℕ → ℕ → Session C H × Result ℕ
  write_as now s b reliability =
      unless_done s (write_with_reliability control now s.conn b reliability)

  unfoldable pub flush_acks : Session C H → Session C H
  flush_acks s =
      let (c, r) = send_numbers bit_flag_ack s.conn s.receiver.acks in
      let failed = record s {
        conn = c;
        receiver = record s.receiver { acks = sort s.receiver.acks };
      } in
      if is_some s.receiver.acks
      then elim r [
        | some (ok _) ↦ record s {
          conn = record c { cc = control.on_send_ack c.cc };
          receiver = record s.receiver { acks = [] };
        }
        | some (err e) ↦ failed
        | some panic ↦ failed
        | none ↦ failed
      ]
      else s

  unfoldable pub close : ℕ → Session C H → Session C H
  close now s =
      if s.closing == 0
      then record s {
        closing = now / second;
        receiver = record s.receiver { closing = not (now / second == 0) };
      }
      else s

  -- What both ways of closing do to the connection: the handler, the context, the datagrams in flight.
  unfoldable pub shut_down : Session C H → Session C H
  shut_down s = record s {
    done = true;
    conn = record s.conn {
      socket_closed = s.conn.socket_closed || s.dialed;
      retransmission = record s.conn.retransmission { unacknowledged = [] };
    };
  }

  unfoldable pub close_immediately : ℕ → Session C H → Session C H
  close_immediately now s =
      if s.done then s else shut_down (write now s (id_disconnect_notification ∷ [])).0

  unfoldable pub close_immediate_silent : Session C H → Session C H
  close_immediate_silent s = if s.done then s else shut_down s

  -- The budgets of this tick, and what they let go out.
  unfoldable pub tick_budgets : ℕ → ℕ → Session C H → Session C H
  tick_budgets now t s =
      let c = s.conn in
      let dt = t - s.last_tick_time in
      let unacked = in_flight_bytes_estimate c.retransmission in
      let (cc, budget) = control.get_transmission_bandwidth dt unacked (is_some c.pending) c.cc in
      let (cc', resend) = control.get_retransmission_bandwidth dt unacked (is_some c.pending) cc in
      let c' = record c { cc = cc'; send_budget = budget; resend_budget = resend } in
      record s {
        last_tick_time = t;
        conn = flush_resend_queue control now (flush_send_queue control now c');
      }

  unfoldable pub tick_metrics : ℕ → Session C H → Session C H
  tick_metrics now s = record s {
    conn = record s.conn { metrics = rotate now s.conn.metrics };
    receiver = record s.receiver { metrics = rotate now s.receiver.metrics };
  }

  -- The datagrams that are left in flight; when the last one leaves, the connection ends.
  unfoldable pub tick_left : ℕ → Session C H → Session C H
  tick_left now s =
      let left = length s.conn.retransmission.unacknowledged in
      let s' = record s { acks_left = left } in
      if not (s.acks_left == 0) && left == 0 then close_immediately now s' else s'

  -- A closing connection ends a second after `Close` if nothing is in flight, or after five seconds.
  unfoldable pub tick_closing : ℕ → ℕ → Session C H → Session C H
  tick_closing now t s =
      let s' = tick_left now s in
      let since = t - s.closing * second in
      if s.closing == 0
      then s
      else if (s'.acks_left == 0 && ltb second since) || ltb (5 * second) since
      then close_immediately now s'
      else s'

  unfoldable pub tick_idle : ℕ → ℕ → Session C H → Session C H
  tick_idle now t s =
      let ping : ConnectedPing.ConnectedPing = record { ping_time = now / millisecond } in
      if ltb 15_000 (t / millisecond - s.last_activity)
      then close_immediately now s
      else (write_as now s (ConnectedPing.marshal ping) reliability_unreliable).0

  -- The work of the tick of number `n`.
  unfoldable pub tick_work : ℕ → ℕ → ℕ → Session C H → Session C H
  tick_work now n t s =
      let s1 = if n % 10 == 0 then flush_acks s else s in
      let s2 = tick_budgets now t s1 in
      let s3 = if n % 10 == 0 then tick_metrics now s2 else s2 in
      if n % 30 == 0 then record s3 { conn = check_resend control t s3.conn } else s3

  unfoldable pub tick : ℕ → ℕ → ℕ → Session C H → Session C H
  tick now n t s =
      let s' = tick_closing now t (tick_work now n t s) in
      if n % 50 == 0 then tick_idle now t s' else s'
