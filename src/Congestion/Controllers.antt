-- ===== src/Congestion/Controllers.antt =====
-- congestion: the two controllers as values of the interface.
use go_raknet.Congestion.Float64.{Float64}
use go_raknet.Congestion.Controller.{Controller}
use go_raknet.Congestion.Udt as Udt
use go_raknet.Congestion.Udt.{Udt}
use go_raknet.Congestion.Udt.Rate as Rate
use go_raknet.Congestion.SlidingWindow as SlidingWindow
use go_raknet.Congestion.SlidingWindow.{SlidingWindow}

module _ {F : Type 0} ⦃d : Float64 F⦄ where
  unfoldable pub udt_controller : Controller (Udt F)
  udt_controller = record {
    get_transmission_bandwidth = Udt.get_transmission_bandwidth;
    get_retransmission_bandwidth = Udt.get_retransmission_bandwidth;
    should_send_acks = Udt.should_send_acks;
    on_queue_ack = Udt.on_queue_ack;
    on_send_ack = Udt.on_send_ack;
    get_rto_for_retransmission = Udt.get_rto_for_retransmission;
    on_send_bytes = Udt.on_send_bytes;
    on_datagram_sent = Udt.on_datagram_sent;
    on_ack = Rate.on_ack;
    on_nak = Rate.on_nak;
    on_resend = Rate.on_resend;
    is_in_slow_start = λ c. c.is_in_slow_start;
  }

  unfoldable pub sliding_window_controller : Controller (SlidingWindow F)
  sliding_window_controller = record {
    get_transmission_bandwidth = SlidingWindow.get_transmission_bandwidth;
    get_retransmission_bandwidth = SlidingWindow.get_retransmission_bandwidth;
    should_send_acks = SlidingWindow.should_send_acks;
    on_queue_ack = SlidingWindow.on_queue_ack;
    on_send_ack = SlidingWindow.on_send_ack;
    get_rto_for_retransmission = SlidingWindow.get_rto_for_retransmission;
    on_send_bytes = SlidingWindow.on_send_bytes;
    on_datagram_sent = SlidingWindow.on_datagram_sent;
    on_ack = SlidingWindow.on_ack;
    on_nak = SlidingWindow.on_nak;
    on_resend = SlidingWindow.on_resend;
    is_in_slow_start = SlidingWindow.is_in_slow_start;
  }
