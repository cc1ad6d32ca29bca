-- ===== src/Transfer/Tests.antt =====
-- conn.go: two contents from one end to an end that dialed, the second one in two fragments.
use go_raknet.Prelude.{
  ℕ, ◌+◌, ◌≡◌, refl, ap, List, [], ◌∷◌, ◌++◌, true, false, arith, length, concat, map, replicate,
  ok,
}
use go_raknet.Packet.{reliability_unreliable}
use go_raknet.PacketQueue.{new_packet_queue}
use go_raknet.DatagramWindow.{new_datagram_window}
use go_raknet.Metrics.{new_metrics}
use go_raknet.Congestion.Controller.{Controller}
use go_raknet.Conn.{Conn, new_conn}
use go_raknet.Message.Addr.{v4}
use go_raknet.Handler.Handshake.{Handshake, new_handshake, dialer_handle}
use go_raknet.Session.{Session}
use go_raknet.Session.Receiving.{client_listen}
use go_raknet.Session.Endpoint.{carry_out, carry_out_nothing}
use go_raknet.Transfer.Contents.{InSync}
use go_raknet.Transfer.Sent.{IsReady}
use go_raknet.Transfer.Streams.{write_each}
use go_raknet.Transfer.Reading.{stream_arrives}

abbrev plain : Controller ℕ
plain = record {
  get_transmission_bandwidth = λ since unacked continuous n. (n, 100_000);
  get_retransmission_bandwidth = λ since unacked continuous n. (n, 100_000);
  should_send_acks = λ now to_next_tick n. true;
  on_queue_ack = λ now n. n;
  on_send_ack = λ n. n;
  get_rto_for_retransmission = λ n. 10;
  on_send_bytes = λ bytes n. n + bytes;
  on_datagram_sent = λ n. (n, 0);
  on_ack = λ rtt continuous total seq n. n;
  on_nak = λ n. n;
  on_resend = λ n. n;
  is_in_slow_start = λ n. true;
}

abbrev writer : Conn ℕ
writer = new_conn 0 0 100_000 100_000 576

abbrev reader : Session ℕ Handshake
reader = record {
  conn = new_conn 0 0 100_000 100_000 576;
  receiver = record {
    win = new_datagram_window;
    message_indices = new_datagram_window;
    queue = new_packet_queue;
    highest_unreliable = 0;
    highest_reliable = 0;
    splits = [];
    acks = [];
    closing = false;
    limits = false;
    packets = [];
    metrics = new_metrics;
    handler = new_handshake (v4 127 0 0 1 19132) 5_000;
  };
  pk = record {
    reliability = reliability_unreliable;
    message_index = 0;
    sequence_index = 0;
    order_index = 0;
    content = [];
    split = false;
    split_count = 0;
    split_index = 0;
    split_id = 0;
  };
  closing = 0;
  last_activity = 0;
  last_tick_time = 0;
  acks_left = 0;
  done = false;
  dialed = true;
}

abbrev contents : List (List ℕ)
contents = (254 ∷ 2 ∷ 3 ∷ []) ∷ replicate 600 254 ∷ []

writer-IsReady : IsReady writer 2 (length (concat contents))
unfolding new_conn
writer-IsReady = record {
  open_still = refl;
  nothing_waits = refl;
  mtu_from = omega arith;
  mtu_to = omega arith;
  seq_fits = omega arith;
  message_fits = omega arith;
  order_fits = omega arith;
  budget = omega arith;
}

reader-InSync : InSync plain (dialer_handle 5) (carry_out plain) 5 reader.receiver 0 0 []
unfolding new_datagram_window new_packet_queue
reader-InSync = record { at_seq = refl; at_order = refl; has_splits = refl; open_still = refl }

stream_arrives_example :
    let q = write_each plain 5 writer contents 0 in
    (q.1 ≡ ok (length (concat contents)))
    × ((ds : List (List ℕ)) × (q.0.out ≡ writer.out ++ ds)
        × let t =
            client_listen plain
              (dialer_handle 5)
              (carry_out plain)
              reader
              (map (λ d. (5, ok d)) ds) in
          (t.1 ≡ ok true)
          × (t.0.receiver.packets ≡ reader.receiver.packets ++ contents)
          × InSync plain
              (dialer_handle 5)
              (carry_out plain)
              5
              t.0.receiver
              q.0.seq
              q.0.order_index
              [])
unfolding new_conn new_handshake dialer_handle
stream_arrives_example =
    stream_arrives plain (dialer_handle 5) (carry_out plain) 5 writer reader contents
      (λ t e. carry_out_nothing plain 5 t (ap (λ (h : Handshake). h.sent) e)) writer-IsReady
      (
        record { some_bytes = omega arith; few_fragments = omega arith },
        (record { some_bytes = omega arith; few_fragments = omega arith }, tt),
      )
      reader-InSync (refl, (refl, tt))
