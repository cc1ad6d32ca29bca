-- ===== src/Message/OpenConnectionReply2.antt =====
-- message/open_connection_reply_2.go.
use go_raknet.Prelude.{
  ℕ, ◌+◌, ◌^◌, ◌<◌, ◌≡◌, refl, ap, List, [], ◌∷◌, ◌++◌, Bool, true, arith, ◌==◌, not, ltb,
  if◌then◌else◌, length, drop, Result, ok, unexpected_eof, invalid_sequence, ◌>>=◌, ◌>>◌, fail_if,
  slice_from, length-append, length-drop, inl, inr,
}
use go_raknet.Binary.{be_bytes, be_uint, be_value, be_value_2, be_value_8}
use go_raknet.Message.{
  id_open_connection_reply_2, Returns, uint_at, uint_at_ok, unconnected_message_sequence,
  is_sequence, equal_bytes,
}
use go_raknet.Message.Addr.{
  AddrPort, IsAddr, addr, addr_size, put_addr, sizeof_addr, arrived, addr-put_addr,
  addr_size-put_addr, addr_or, length-put_addr, uint_at-put_addr,
}

pub record OpenConnectionReply2 : Type 0 where
  pub server_guid : ℕ
  pub client_address : AddrPort
  pub mtu : ℕ
  pub do_security : Bool

unfoldable pub unmarshal : List ℕ → Result OpenConnectionReply2
unmarshal b = do
  fail_if (ltb (length b) 24) unexpected_eof
  let offset = addr_size (drop 24 b)
  fail_if (ltb (length b) (27 + offset)) unexpected_eof
  fail_if (not (is_sequence b)) invalid_sequence
  server_guid ← uint_at 8 b 16
  address_bytes ← slice_from b 24
  (client_address, n) ← addr address_bytes
  mtu ← uint_at 2 b (24 + offset)
  security ← uint_at 1 b (26 + offset)
  ok (record {
    server_guid = server_guid;
    client_address = client_address;
    mtu = mtu;
    do_security = not (security == 0);
  })

unfoldable pub marshal : OpenConnectionReply2 → List ℕ
marshal pk =
    let security = (if pk.do_security then 1 else 0) ∷ [] in
    id_open_connection_reply_2
    ∷ (unconnected_message_sequence
        ++ (be_bytes 8 pk.server_guid
            ++ (put_addr pk.client_address ++ (be_bytes 2 pk.mtu ++ security))))

-- `unmarshal` on bytes of the length and with the fields of an encoding.
read_parts :
    (pk : OpenConnectionReply2) (front tail : List ℕ) (security : ℕ)
    → let b = front ++ (put_addr pk.client_address ++ tail) in
      length front ≡ 24
      → length tail ≡ 3
      → is_sequence b ≡ true
      → drop 24 b ≡ put_addr pk.client_address ++ tail
      → uint_at 8 b 16 ≡ ok pk.server_guid
      → uint_at 2 tail 0 ≡ ok pk.mtu
      → uint_at 1 tail 2 ≡ ok security
      → not (security == 0) ≡ pk.do_security
      → IsAddr pk.client_address
      → unmarshal b ≡ ok (record pk { client_address = arrived pk.client_address })
unfolding unmarshal
read_parts pk front tail security f t s d g m c e a =
    let p = put_addr pk.client_address in
    ground (
      arith,
      addr_size-put_addr pk.client_address tail,
      addr-put_addr pk.client_address tail a,
      length-append front (p ++ tail),
      length-append p tail,
      length-put_addr pk.client_address a,
      uint_at-put_addr 2 0 (24 + sizeof_addr pk.client_address) front pk.client_address tail a
          (omega arith),
      uint_at-put_addr 1 2 (26 + sizeof_addr pk.client_address) front pk.client_address tail a
          (omega arith),
    )

pub unmarshal-marshal :
    (pk : OpenConnectionReply2)
    → pk.server_guid < 2 ^ 64
    → IsAddr pk.client_address
    → pk.mtu < 2 ^ 16
    → unmarshal (drop 1 (marshal pk))
      ≡ ok (record pk { client_address = arrived pk.client_address })
unfolding marshal uint_at be_uint is_sequence equal_bytes be_value
unmarshal-marshal pk h a l =
    let security : ℕ = if pk.do_security then 1 else 0 in
    let tail : List ℕ = be_bytes 2 pk.mtu ++ (security ∷ []) in
    read_parts pk (unconnected_message_sequence ++ be_bytes 8 pk.server_guid) tail security refl
      refl refl refl
      (ground (arith, be_value_8 pk.server_guid (put_addr pk.client_address ++ tail) h))
      (ap ok (be_value_2 pk.mtu (security ∷ []) l)) (ground arith) (ground arith) a

pub unmarshal-Returns : (b : List ℕ) → Returns (unmarshal b)
unfolding unmarshal be_uint
unmarshal-Returns b = elim (addr_or (drop 24 b)) [
  | inl short ↦ ground (arith, length-drop 24 b)
  | inr (a, r) ↦ ground (
    arith,
    r,
    length-drop 24 b,
    uint_at_ok 8 b 16,
    uint_at_ok 2 b (24 + addr_size (drop 24 b)),
    uint_at_ok 1 b (26 + addr_size (drop 24 b)),
  )
]
