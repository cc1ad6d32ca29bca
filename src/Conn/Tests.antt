-- ===== src/Conn/Tests.antt =====
-- conn.go: the theorems on the sending half at a concrete connection.
use go_raknet.Prelude.{
  ℕ, ◌+◌, ◌-◌, ◌≡◌, refl, List, [], ◌∷◌, true, false, length, replicate, length-replicate, ok,
  arith, some,
}
use go_raknet.Packet.{
  Packet, write, sequenced_or_ordered, sequenced, reliable, reliability_reliable_ordered,
  reliability_unreliable_sequenced,
}
use go_raknet.Binary.{next24, write_uint24, write_uint16}
use go_raknet.Prelude.Dict.{lookup}
use go_raknet.Conn.Acked.{handle_acks, write_with_ack_unanswered}
use go_raknet.Conn.{Conn, PacketAck, new_conn}
use go_raknet.Congestion.Controller.{Controller}
use go_raknet.Conn.Sending.{
  is_unreliable, write_with_reliability, write_with_ack, write_bytes, flush_send_queue, flush_loop,
  send_datagram, spend, write_all,
}
use go_raknet.Conn.Resending.{handle_nack}
use go_raknet.Conn.Flush.{IsFlushed, flush_send_queue-IsFlushed}
use go_raknet.Conn.Unreliable.{IsForgotten, write_unreliable-IsForgotten}
use go_raknet.Conn.Writing.{write_bytes_total}
use go_raknet.Conn.Pacing.{IsQueued, InFlight, handle_nack-IsQueued}

-- A controller that counts the bytes sent and starts slowly below 10000.
abbrev counting : Controller ℕ
counting = record {
  get_transmission_bandwidth = λ since unacked continuous n. (n, 10_000 - n);
  get_retransmission_bandwidth = λ since unacked continuous n. (n, 10_000 - n);
  should_send_acks = λ now to_next_tick n. true;
  on_queue_ack = λ now n. n;
  on_send_ack = λ n. n;
  get_rto_for_retransmission = λ n. 10;
  is_in_slow_start = λ n. true;
  on_datagram_sent = λ n. (n, 0);
  on_send_bytes = λ bytes n. n + bytes;
  on_ack = λ rtt continuous total seq n. n;
  on_nak = λ n. n;
  on_resend = λ n. n;
}

abbrev waiting : Packet
waiting = record {
  reliability = reliability_reliable_ordered;
  message_index = 3;
  sequence_index = 0;
  order_index = 3;
  content = 0xfe ∷ 1 ∷ [];
  split = false;
  split_count = 0;
  split_index = 0;
  split_id = 0;
}

abbrev open_conn : Conn ℕ
open_conn = record (new_conn 0 0 20 20 1_200) { pending = waiting ∷ waiting ∷ waiting ∷ [] }

-- The budget of 20 bytes is enough for two datagrams of 16 bytes, the second of which overdraws it.
flush_run : length (flush_send_queue counting 5 open_conn).pending ≡ 1
unfolding flush_send_queue flush_loop new_conn send_datagram spend write_all write
    sequenced_or_ordered write_uint24 sequenced reliable write_uint16
flush_run = refl

flush_send_queue-IsFlushed_example :
    IsFlushed open_conn.pending open_conn (flush_send_queue counting 5 open_conn)
unfolding new_conn
flush_send_queue-IsFlushed_example = flush_send_queue-IsFlushed counting 5 open_conn refl

abbrev lossy : Conn ℕ
lossy = flush_send_queue counting 5 open_conn

-- A NACK for number 1, which is in flight, and for 9, which is not.
abbrev nack : List ℕ
nack = 0 ∷ 2 ∷ 1 ∷ 1 ∷ 0 ∷ 0 ∷ 1 ∷ 9 ∷ 0 ∷ 0 ∷ []

handle_nack-IsQueued_example :
    IsQueued
      (InFlight lossy.retransmission.unacknowledged)
      lossy
      (handle_nack counting 7 lossy nack).0
handle_nack-IsQueued_example = handle_nack-IsQueued counting 7 lossy nack

abbrev idle : Conn ℕ
idle = new_conn 0 0 20 20 1_200

-- The budget is spent after the first of two fragments; the second one waits.
write_bytes_total_example :
    let q = write_bytes counting 5 idle (replicate 1_300 7) in
    (q.1 ≡ ok 1_300) × (q.0.order_index ≡ next24 idle.order_index) × (q.0.socket_closed ≡ false)
unfolding new_conn
write_bytes_total_example =
    write_bytes_total counting 5 idle (replicate 1_300 7) refl (omega arith) (omega arith)
      (omega (arith, length-replicate {A = ℕ} 1_300 7))

write_unreliable-IsForgotten_example :
    IsForgotten open_conn
      (write_with_reliability counting 5 open_conn (1 ∷ 2 ∷ []) reliability_unreliable_sequenced).0
unfolding is_unreliable
write_unreliable-IsForgotten_example =
    write_unreliable-IsForgotten counting 5 open_conn (1 ∷ 2 ∷ []) reliability_unreliable_sequenced
      refl

-- With a callback, and the order index 1.
abbrev awaiting : Conn ℕ
awaiting = record (new_conn 0 0 2_000 20 1_200) { on_ack = true; order_index = 1 }

-- An ACK for the datagram 0, which carries the write.
abbrev all_acked : List (ℕ × List ℕ)
all_acked = (9, 0 ∷ 1 ∷ 1 ∷ 0 ∷ 0 ∷ 0 ∷ []) ∷ []

write_with_ack_unanswered_example :
    (a : PacketAck) × (a.internal_id ≡ 77)
    × (lookup 1
          (handle_acks counting all_acked
            (write_with_ack counting 5 awaiting (1 ∷ 2 ∷ []) 77).0).acknowledgements
        ≡ some a)
unfolding new_conn
write_with_ack_unanswered_example =
    write_with_ack_unanswered counting 5 awaiting (1 ∷ 2 ∷ []) 77 all_acked refl (λ e. cc)
      (omega arith) (omega arith) (omega arith)
