-- ===== src/Receiver/Tests.antt =====
-- conn.go: the theorems on the receiving half at a concrete connection.
use go_raknet.Prelude.{
  ℕ, ◌+◌, ◌≡◌, ◌==◌, refl, List, [], ◌∷◌, Bool, true, false, arith, Result, ok, panic, concat, set,
  inl, inr, if◌then◌else◌,
}
use go_raknet.Prelude.Dict.{lookup, insert, delete}
use go_raknet.Packet.{Packet, reliability_reliable_ordered, reliability_unreliable_sequenced}
use go_raknet.PacketQueue.{new_packet_queue}
use go_raknet.DatagramWindow.{new_datagram_window}
use go_raknet.Metrics.{new_metrics}
use go_raknet.Receiver.{Receiver, has_empty, slots_of, receive_packet, receive_split_packet}
use go_raknet.Receiver.Reassembly.{
  IsPartial, receive_split_packet-IsPartial, receive_split_packet_no_fragments,
}
use go_raknet.Receiver.Newer.{receive_packet_older}
use go_raknet.Receiver.Datagrams.{packets_loop}
use go_raknet.Receiver.Rounds.{packets_loop_rounds}

-- A handler that takes the packets that start with 9.
abbrev takes_nines : ℕ → List ℕ → ℕ → ℕ × Result Bool
takes_nines n [] reliability = (n, ok false)
takes_nines n (x ∷ b) reliability = if x == 9 then (n + 1, ok true) else (n, ok false)

abbrev fragments : List (List ℕ)
fragments = (1 ∷ 2 ∷ []) ∷ (3 ∷ 4 ∷ []) ∷ (5 ∷ []) ∷ []

-- The fragments 0 and 2 of the split 7 have arrived.
abbrev receiver : Receiver ℕ
receiver = record {
  win = new_datagram_window;
  message_indices = new_datagram_window;
  queue = new_packet_queue;
  highest_unreliable = 40;
  highest_reliable = 0;
  splits = (7, (1 ∷ 2 ∷ []) ∷ [] ∷ (5 ∷ []) ∷ []) ∷ [];
  acks = [];
  closing = false;
  limits = true;
  packets = [];
  metrics = new_metrics;
  handler = 0;
}

abbrev last_fragment : Packet
last_fragment = record {
  reliability = reliability_reliable_ordered;
  message_index = 1;
  sequence_index = 0;
  order_index = 0;
  content = 3 ∷ 4 ∷ [];
  split = true;
  split_count = 3;
  split_index = 1;
  split_id = 7;
}

receive_split_packet-IsPartial_example :
    let ms = set (slots_of takes_nines receiver last_fragment) 1 (3 ∷ 4 ∷ []) in
    IsPartial fragments ms
    × (receive_split_packet takes_nines 100 receiver last_fragment ≡ (
        if has_empty ms
        then (record receiver { splits = insert 7 ms receiver.splits }, ok tt)
        else receive_packet takes_nines 100
            (record receiver { splits = delete 7 receiver.splits })
            (record last_fragment { content = concat fragments })))
unfolding slots_of lookup
receive_split_packet-IsPartial_example =
    receive_split_packet-IsPartial takes_nines 100 receiver last_fragment fragments (omega arith)
      refl (omega arith) refl (omega arith) (inr refl, (inl refl, (inr refl, tt)))

abbrev no_fragments : Packet
no_fragments = record last_fragment { split_count = 0; split_id = 8 }

receive_split_packet_no_fragments_example :
    (receive_split_packet takes_nines 100 receiver no_fragments).1 ≡ panic
unfolding lookup
receive_split_packet_no_fragments_example =
    receive_split_packet_no_fragments takes_nines 100 receiver no_fragments refl (omega arith) refl
      (omega arith)

abbrev old_packet : Packet
old_packet = record last_fragment {
  reliability = reliability_unreliable_sequenced;
  sequence_index = 39;
  split = false;
}

older_is_dropped : receive_packet takes_nines 100 receiver old_packet ≡ (receiver, ok tt)
older_is_dropped =
    receive_packet_older takes_nines 100 receiver old_packet refl (omega arith) (omega arith)

-- Two unreliable packets of one byte each.
abbrev two_packets : List ℕ
two_packets = 0 ∷ 0 ∷ 8 ∷ 9 ∷ 0 ∷ 0 ∷ 8 ∷ 7 ∷ []

packets_loop_rounds_example :
    packets_loop takes_nines 100 8 receiver last_fragment two_packets
    ≡ packets_loop takes_nines 100 1_000 receiver last_fragment two_packets
packets_loop_rounds_example =
    packets_loop_rounds takes_nines 100 8 1_000 receiver last_fragment two_packets (omega arith)
      (omega arith)
