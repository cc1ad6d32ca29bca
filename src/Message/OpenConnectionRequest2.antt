-- ===== src/Message/OpenConnectionRequest2.antt =====
-- message/open_connection_request_2.go. Whether there is a cookie is known to the reader before it
-- reads.
use go_raknet.Prelude.{
  ℕ, ◌+◌, ◌^◌, ◌<◌, ◌≡◌, refl, List, [], ◌∷◌, ◌++◌, Bool, true, false, arith, ltb, if◌then◌else◌,
  length, drop, Result, ok, unexpected_eof, ◌>>=◌, ◌>>◌, fail_if, slice_from, length-append,
  length-drop, Bool-cases, inl, inr,
}
use go_raknet.Binary.{be_bytes, be_uint, be_value_2, be_value_4, be_value_8}
use go_raknet.Message.{
  id_open_connection_request_2, Returns, uint_at, uint_at_ok, unconnected_message_sequence,
}
use go_raknet.Message.Addr.{
  AddrPort, IsAddr, addr, addr_size, put_addr, sizeof_addr, arrived, addr-put_addr,
  addr_size-put_addr, addr-addr_size, length-put_addr, uint_at-put_addr,
}

pub record OpenConnectionRequest2 : Type 0 where
  pub server_address : AddrPort
  pub mtu : ℕ
  pub client_guid : ℕ
  pub server_has_security : Bool
  pub cookie : ℕ

-- The cookie takes five bytes, the last of which is 0.
unfoldable pub marshal : OpenConnectionRequest2 → List ℕ
marshal pk =
    let cookie = if pk.server_has_security then be_bytes 4 pk.cookie ++ (0 ∷ []) else [] in
    id_open_connection_request_2
    ∷ (unconnected_message_sequence
        ++ (cookie
            ++ (put_addr pk.server_address ++ (be_bytes 2 pk.mtu ++ be_bytes 8 pk.client_guid))))

unfoldable pub unmarshal : Bool → List ℕ → Result OpenConnectionRequest2
unmarshal has_security b = do
  let start = 16 + (if has_security then 5 else 0)
  fail_if (ltb (length b) start) unexpected_eof
  fail_if (ltb (length b) (10 + start + addr_size (drop start b))) unexpected_eof
  cookie ← if has_security then uint_at 4 b 16 else ok 0
  address_bytes ← slice_from b start
  (server_address, n) ← addr address_bytes
  mtu ← uint_at 2 b (start + n)
  client_guid ← uint_at 8 b (start + n + 2)
  ok (record {
    server_address = server_address;
    mtu = mtu;
    client_guid = client_guid;
    server_has_security = has_security;
    cookie = cookie;
  })

-- What arrives: the cookie only with the security flag.
unfoldable pub received : OpenConnectionRequest2 → OpenConnectionRequest2
received pk = record pk {
  server_address = arrived pk.server_address;
  cookie = if pk.server_has_security then pk.cookie else 0;
}

-- `unmarshal` on bytes of the length and with the fields of an encoding.
read_parts :
    (pk : OpenConnectionRequest2) (front tail : List ℕ)
    → let start = 16 + (if pk.server_has_security then 5 else 0) in
      let b = front ++ (put_addr pk.server_address ++ tail) in
      length front ≡ start
      → length tail ≡ 10
      → drop start b ≡ put_addr pk.server_address ++ tail
      → (if pk.server_has_security then uint_at 4 b 16 else ok 0)
        ≡ ok (if pk.server_has_security then pk.cookie else 0)
      → uint_at 2 tail 0 ≡ ok pk.mtu
      → uint_at 8 tail 2 ≡ ok pk.client_guid
      → IsAddr pk.server_address
      → unmarshal pk.server_has_security b ≡ ok (received pk)
unfolding unmarshal received
read_parts pk front tail f t d c m g a =
    let p = put_addr pk.server_address in
    let start = 16 + (if pk.server_has_security then 5 else 0) in
    ground (
      arith,
      addr_size-put_addr pk.server_address tail,
      addr-put_addr pk.server_address tail a,
      length-append front (p ++ tail),
      length-append p tail,
      length-put_addr pk.server_address a,
      uint_at-put_addr 2 0 (start + sizeof_addr pk.server_address) front pk.server_address tail a
          (omega (arith, f)),
      uint_at-put_addr 8 2 (start + sizeof_addr pk.server_address + 2) front pk.server_address tail
          a (omega (arith, f)),
    )

pub unmarshal-marshal :
    (pk : OpenConnectionRequest2)
    → IsAddr pk.server_address
    → pk.mtu < 2 ^ 16
    → pk.client_guid < 2 ^ 64
    → pk.cookie < 2 ^ 32
    → unmarshal pk.server_has_security (drop 1 (marshal pk)) ≡ ok (received pk)
unfolding marshal uint_at be_uint
unmarshal-marshal pk a l g c =
    read_parts pk (unconnected_message_sequence ++ cookie pk.server_has_security)
      (be_bytes 2 pk.mtu ++ be_bytes 8 pk.client_guid) (ground arith) refl
      (at_start pk.server_has_security
        (put_addr pk.server_address ++ (be_bytes 2 pk.mtu ++ be_bytes 8 pk.client_guid)))
      (cookie_at pk.server_has_security
        (put_addr pk.server_address ++ (be_bytes 2 pk.mtu ++ be_bytes 8 pk.client_guid)))
      (ground (arith, be_value_2 pk.mtu (be_bytes 8 pk.client_guid) l))
      (ground (arith, be_value_8 pk.client_guid [] g)) a
  where
    cookie : Bool → List ℕ
    cookie has = if has then be_bytes 4 pk.cookie ++ (0 ∷ []) else []

    at_start :
        (has : Bool) (rest : List ℕ)
        → drop (16 + (if has then 5 else 0)) ((unconnected_message_sequence ++ cookie has) ++ rest)
          ≡ rest
    at_start true rest = refl
    at_start false rest = refl

    cookie_at :
        (has : Bool) (rest : List ℕ)
        → (if has
            then uint_at 4 ((unconnected_message_sequence ++ cookie has) ++ rest) 16
            else ok 0)
          ≡ ok (if has then pk.cookie else 0)
    cookie_at true rest = ground (arith, be_value_4 pk.cookie ((0 ∷ []) ++ rest) c)
    cookie_at false rest = refl

pub unmarshal-Returns : (has_security : Bool) (b : List ℕ) → Returns (unmarshal has_security b)
unfolding unmarshal be_uint
unmarshal-Returns has_security b =
    let start = 16 + (if has_security then 5 else 0) in
    let offset = addr_size (drop start b) in
    elim (Bool-cases (ltb (length b) (10 + start + offset))) [
      | inl e ↦ ground arith
      | inr e ↦
          let (a, r) = addr-addr_size (drop start b) (ground (arith, length-drop start b)) in
          ground (
            arith,
            r,
            length-drop start b,
            uint_at_ok 4 b 16,
            uint_at_ok 2 b (start + offset),
            uint_at_ok 8 b (start + offset + 2),
          )
    ]
