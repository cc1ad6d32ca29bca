-- ===== src/Receiver/Newer.antt =====
-- conn.go: sequenced packets are dropped where they are older than the newest.
use go_raknet.Prelude.{ℕ, ◌-◌, ◌^◌, ◌<◌, ◌≡◌, refl, List, Bool, false, ltb, ◌&&◌, arith, Result, ok}
use go_raknet.Packet.{Packet, reliability_unreliable_sequenced}
use go_raknet.Conn.{is_newer_sequence_index}
use go_raknet.Receiver.{Receiver, is_current, receive_packet}

-- Of two indices below 2^24, one is newer than the other if it is greater by less than 2^23: the
-- wrap at 2^24 is not recognized.
pub is_newer_sequence_index_lem :
    (incoming current : ℕ)
    → incoming < 2 ^ 24
    → current < 2 ^ 24
    → is_newer_sequence_index incoming current
      ≡ (ltb current incoming && ltb (incoming - current) 0x800000)
unfolding is_newer_sequence_index
is_newer_sequence_index_lem incoming current h k = ground arith

module _ {H : Type 0} (handle : H → List ℕ → ℕ → H × Result Bool) (now : ℕ) where
  -- An unreliable sequenced packet whose index is below the highest one, itself below 2^24, is
  -- dropped, however far below it is: nothing changes and there is no error.
  pub receive_packet_older :
      (r : Receiver H) (p : Packet)
      → p.reliability ≡ reliability_unreliable_sequenced
      → p.sequence_index < r.highest_unreliable
      → r.highest_unreliable < 2 ^ 24
      → receive_packet handle now r p ≡ (r, ok tt)
  unfolding receive_packet is_current is_newer_sequence_index
  receive_packet_older r p kind older small =
      let t : is_current handle p.sequence_index r.highest_unreliable ≡ false = ground arith in
      rw (kind, t) refl
