-- ===== src/Receiver.antt =====
-- conn.go: the receiving half of a connection: datagrams, the packets in them, split packets put
-- together, and what is handed to the handler or to the reader. The handler of handler.go is the
-- parameter `handle`, over its own states `H`; the channel of packets is the list `packets`, which
-- does not block. This half counts its own losses.
pub mod Datagrams
pub mod Reassembly
pub mod Newer
pub mod Rounds
mod Tests
use go_raknet.Prelude.{
  ℕ, zero, suc, ◌+◌, ◌-◌, ◌%◌, ◌^◌, List, [], ◌∷◌, ◌++◌, Bool, true, false, Option, none, some, not,
  ltb, ◌==◌, ◌&&◌, ◌||◌, if◌then◌else◌, length, get_or, set, replicate, concat, Result, ok, err,
  panic, zero_length, window_too_big, split_count_too_big, too_many_splits,
  split_index_out_of_range,
}
use go_raknet.Prelude.Dict.{lookup, insert, delete}
use go_raknet.Binary.{next24}
use go_raknet.Packet.{
  Packet, reliability_unreliable, reliability_unreliable_sequenced, reliability_reliable,
  reliability_reliable_ordered, reliability_reliable_sequenced,
}
use go_raknet.PacketQueue as PacketQueue
use go_raknet.PacketQueue.{PacketQueue}
use go_raknet.DatagramWindow as DatagramWindow
use go_raknet.DatagramWindow.{DatagramWindow}
use go_raknet.Metrics.{Metrics}
use go_raknet.Conn.{is_newer_sequence_index}

abbrev pub max_window_size : ℕ
max_window_size = 2048

abbrev pub max_split_count : ℕ
max_split_count = 512

abbrev pub max_concurrent_splits : ℕ
max_concurrent_splits = 16

pub record Receiver (H : Type 0) : Type 0 where
  pub win : DatagramWindow
  pub message_indices : DatagramWindow
  pub queue : PacketQueue
  pub highest_unreliable : ℕ
  pub highest_reliable : ℕ
  pub splits : List (ℕ × List (List ℕ))
  pub acks : List ℕ
  pub closing : Bool
  pub limits : Bool
  pub packets : List (List ℕ)
  pub metrics : Metrics
  pub handler : H

-- `slices.ContainsFunc(m, ...)`: a fragment is missing, or has no content.
unfoldable pub has_empty : List (List ℕ) → Bool
has_empty [] = false
has_empty ([] ∷ m) = true
has_empty ((x ∷ xs) ∷ m) = has_empty m

module _ {H : Type 0} (handle : H → List ℕ → ℕ → H × Result Bool) where
  unfoldable pub handle_packet : Receiver H → List ℕ → ℕ → Receiver H × Result (Unit {0})
  handle_packet r [] reliability = (r, err zero_length)
  handle_packet r (x ∷ xs) reliability =
      if r.closing
      then (r, ok tt)
      else (let (h, handled) = handle r.handler (x ∷ xs) reliability in
          let r' = record r { handler = h } in
          elim handled [
            | ok true ↦ (r', ok tt)
            | ok false ↦ (record r' { packets = r.packets ++ ((x ∷ xs) ∷ []) }, ok tt)
            | err e ↦ (r', err e)
            | panic ↦ (r', panic)
          ])

  -- The packets that the ordered queue gives, up to the first error.
  unfoldable pub handle_all : Receiver H → List (List ℕ) → Receiver H × Result (Unit {0})
  handle_all r [] = (r, ok tt)
  handle_all r (content ∷ contents) =
      let (r', s) = handle_packet r content reliability_reliable_ordered in
      elim s [ ok _ ↦ handle_all r' contents | err e ↦ (r', err e) | panic ↦ (r', panic) ]

  -- A packet that the message index does not show to be a duplicate.
  unfoldable pub receive_reliable : ℕ → Receiver H → Packet → Receiver H × Bool
  receive_reliable now r p =
      let (win, fresh) = DatagramWindow.track now r.message_indices p.message_index in
      (record r { message_indices = win }, fresh)

  unfoldable pub is_current : ℕ → ℕ → Bool
  is_current sequence highest = sequence == highest || is_newer_sequence_index sequence highest

  unfoldable pub receive_ordered : Receiver H → Packet → Receiver H × Result (Unit {0})
  receive_ordered r p =
      let (q, fresh) = PacketQueue.put r.queue p.order_index p.content in
      let r' = record r { queue = q } in
      if not fresh
      then (r', ok tt)
      else if ltb max_window_size (PacketQueue.window_size q) && r.limits
      then (r', err window_too_big)
      else (let (q', contents) = PacketQueue.fetch q in
          handle_all (record r { queue = q' }) contents)

  unfoldable pub receive_packet : ℕ → Receiver H → Packet → Receiver H × Result (Unit {0})
  receive_packet now r p =
      let kind = p.reliability in
      let (r', fresh) = receive_reliable now r p in
      if kind == reliability_reliable
      then (if fresh then handle_packet r' p.content kind else (r', ok tt))
      else if kind == reliability_unreliable_sequenced
      then (if is_current p.sequence_index r.highest_unreliable
          then handle_packet (record r { highest_unreliable = next24 p.sequence_index }) p.content
              kind
          else (r, ok tt))
      else if kind == reliability_reliable_sequenced
      then (if fresh && is_current p.sequence_index r.highest_reliable
          then handle_packet (record r' { highest_reliable = next24 p.sequence_index }) p.content
              kind
          else (r', ok tt))
      else if kind == reliability_reliable_ordered
      then receive_ordered r p
      else handle_packet r p.content kind

  -- The fragments of the split ID, with room for as many as the packet says where there are none.
  unfoldable pub slots_of : Receiver H → Packet → List (List ℕ)
  slots_of r p = elim (lookup p.split_id r.splits) [
    | none ↦ replicate p.split_count []
    | some m ↦ m
  ]

  unfoldable pub receive_split_packet : ℕ → Receiver H → Packet → Receiver H × Result (Unit {0})
  receive_split_packet now r p =
      let m = slots_of r p in
      let m' = set m p.split_index p.content in
      let stored = record r { splits = insert p.split_id m r.splits } in
      let filled = record r { splits = insert p.split_id m' r.splits } in
      let done = record r { splits = delete p.split_id r.splits } in
      if ltb max_split_count p.split_count && r.limits
      then (r, err split_count_too_big)
      else if ltb max_concurrent_splits (length r.splits) && r.limits
      then (r, err too_many_splits)
      else if ltb ((length m + 2 ^ 32 - 1) % 2 ^ 32) p.split_index
      then (stored, err split_index_out_of_range)
      else if not (ltb p.split_index (length m))
      then (stored, panic)
      else if has_empty m'
      then (filled, ok tt)
      else receive_packet now done (record p { content = concat m' })
