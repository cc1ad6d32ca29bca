-- ===== src/Session/Tests.antt =====
-- conn.go: the theorems on a whole connection at a concrete one.
use go_raknet.Prelude.{ℕ, ◌+◌, ◌≡◌, refl, List, [], ◌∷◌, ◌++◌, true, false, arith, inl, ok}
use go_raknet.Packet.{reliability_unreliable}
use go_raknet.PacketQueue.{new_packet_queue}
use go_raknet.DatagramWindow.{new_datagram_window}
use go_raknet.Metrics.{new_metrics}
use go_raknet.Acknowledge.{sort}
use go_raknet.Acknowledge.Send.{read_all}
use go_raknet.Congestion.Controller.{Controller}
use go_raknet.Conn.{new_conn}
use go_raknet.Session.{Session, flush_acks, tick}
use go_raknet.Session.Ending.{tick_ends}
use go_raknet.Session.Acks.{flush_acks_total}

abbrev plain : Controller ℕ
plain = record {
  get_transmission_bandwidth = λ since unacked continuous n. (n, 10_000);
  get_retransmission_bandwidth = λ since unacked continuous n. (n, 10_000);
  should_send_acks = λ now to_next_tick n. true;
  on_queue_ack = λ now n. n;
  on_send_ack = λ n. n;
  get_rto_for_retransmission = λ n. 10;
  on_send_bytes = λ bytes n. n + bytes;
  on_datagram_sent = λ n. (n, 0);
  on_ack = λ rtt continuous total seq n. n;
  on_nak = λ n. n;
  on_resend = λ n. n;
  is_in_slow_start = λ n. true;
}

-- Closed at the second 100, with three datagrams to acknowledge.
abbrev session : Session ℕ ℕ
session = record {
  conn = new_conn 0 0 10_000 10_000 1_200;
  receiver = record {
    win = new_datagram_window;
    message_indices = new_datagram_window;
    queue = new_packet_queue;
    highest_unreliable = 0;
    highest_reliable = 0;
    splits = [];
    acks = 4 ∷ 2 ∷ 3 ∷ [];
    closing = true;
    limits = true;
    packets = [];
    metrics = new_metrics;
    handler = 0;
  };
  pk = record {
    reliability = reliability_unreliable;
    message_index = 0;
    sequence_index = 0;
    order_index = 0;
    content = [];
    split = false;
    split_count = 0;
    split_index = 0;
    split_id = 0;
  };
  closing = 100;
  last_activity = 99_000;
  last_tick_time = 99_000_000_000;
  acks_left = 0;
  done = false;
  dialed = false;
}

tick_ends_example : (tick plain 106_000_000_000 10 106_000_000_000 session).done ≡ true
tick_ends_example =
    tick_ends plain 106_000_000_000 10 106_000_000_000 session (inl (λ e. cc, omega arith))

three_numbers_acknowledged :
    let s' = flush_acks plain session in
    (s'.receiver.acks ≡ [])
    × ((ds : List (List ℕ)) × (s'.conn.out ≡ session.conn.out ++ ds)
        × (read_all ds ≡ ok (sort session.receiver.acks)))
unfolding new_conn
three_numbers_acknowledged =
    flush_acks_total plain session refl (omega arith) (omega arith)
      (omega arith, (omega arith, (omega arith, tt))) (omega arith)
