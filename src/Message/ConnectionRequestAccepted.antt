-- ===== src/Message/ConnectionRequestAccepted.antt =====
-- message/connection_request_accepted.go.
use go_raknet.Prelude.{
  ℕ, ◌+◌, ◌-◌, ◌^◌, ◌<◌, ◌≤◌, ◌≡◌, refl, ◌∙◌, List, [], ◌∷◌, ◌++◌, arith, ltb, length, drop, All,
  replicate, Result, ok, unexpected_eof, ◌>>=◌, ◌>>◌, fail_if, index, slice_from, length-append,
  inl, inr,
}
use go_raknet.Binary.{be_bytes, be_uint, be_value, be_value_2, be_value_8}
use go_raknet.Message.{id_connection_request_accepted, Returns, Returns-bind, uint_at, uint_at_ok}
use go_raknet.Message.Addr.{
  AddrPort, invalid, IsAddr, addr, addr_size, put_addr, sizeof_addr, arrived, addr-put_addr,
  addr_size-put_addr, addr_or, length-put_addr, drop-put_addr, uint_at-put_addr,
}
use go_raknet.Message.SystemAddresses.{
  system_address_count, put_valid, read_addresses, read_addresses-put_all, valid_of, put_valid_lem,
  valid_of-All, length-valid_of, arrived-valid_of, read_addresses-Returns,
}

pub record ConnectionRequestAccepted : Type 0 where
  pub client_address : AddrPort
  pub system_index : ℕ
  pub system_addresses : List AddrPort
  pub ping_time : ℕ
  pub pong_time : ℕ

-- The system addresses are read; the times follow.
unfoldable pub read_times : AddrPort → ℕ → List AddrPort × List ℕ → Result ConnectionRequestAccepted
read_times client_address system_index (system_addresses, rest) = do
  fail_if (ltb (length rest) 16) unexpected_eof
  ping_time ← uint_at 8 rest 0
  pong_time ← uint_at 8 rest 8
  ok (record {
    client_address = client_address;
    system_index = system_index;
    system_addresses = system_addresses;
    ping_time = ping_time;
    pong_time = pong_time;
  })

unfoldable pub unmarshal : List ℕ → Result ConnectionRequestAccepted
unmarshal b = do
  fail_if (ltb (length b) (addr_size b)) unexpected_eof
  (client_address, offset) ← addr b
  fail_if (ltb (length b - offset) 2) unexpected_eof
  system_index ← uint_at 2 b offset
  fail_if (ltb (length b - offset - 2) 16) unexpected_eof
  addresses_bytes ← slice_from b (offset + 2)
  behind ← read_addresses system_address_count addresses_bytes
  read_times client_address system_index behind

unfoldable pub marshal : ConnectionRequestAccepted → List ℕ
marshal pk =
    id_connection_request_accepted
    ∷ (put_addr pk.client_address
        ++ (be_bytes 2 pk.system_index
            ++ (put_valid pk.system_addresses
                ++ (be_bytes 8 pk.ping_time ++ be_bytes 8 pk.pong_time))))

-- What arrives: the valid system addresses, in front of the zero values.
unfoldable pub received : ConnectionRequestAccepted → ConnectionRequestAccepted
received pk = record pk {
  client_address = arrived pk.client_address;
  system_addresses =
      valid_of pk.system_addresses
      ++ replicate (system_address_count - length (valid_of pk.system_addresses)) invalid;
}

-- `unmarshal` on bytes with the fields of an encoding.
read_parts :
    (pk : ConnectionRequestAccepted) (index times : List ℕ)
    → length index ≡ 2
    → length times ≡ 16
    → ((rest : List ℕ) → uint_at 2 (index ++ rest) 0 ≡ ok pk.system_index)
    → ((rest : List ℕ) → drop 2 (index ++ rest) ≡ rest)
    → uint_at 8 times 0 ≡ ok pk.ping_time
    → uint_at 8 times 8 ≡ ok pk.pong_time
    → IsAddr pk.client_address
    → All IsAddr pk.system_addresses
    → length pk.system_addresses ≤ system_address_count
    → unmarshal (put_addr pk.client_address ++ (index ++ (put_valid pk.system_addresses ++ times)))
      ≡ ok (received pk)
unfolding unmarshal received read_times
read_parts pk index times l t i d p q a v few =
    let addrs = put_valid pk.system_addresses ++ times in
    ground (
      arith,
      i addrs,
      d addrs,
      addr_size-put_addr pk.client_address (index ++ addrs),
      addr-put_addr pk.client_address (index ++ addrs) a,
      length-append (put_addr pk.client_address) (index ++ addrs),
      length-append index addrs,
      length-append (put_valid pk.system_addresses) times,
      length-put_addr pk.client_address a,
      uint_at-put_addr 2 0 (sizeof_addr pk.client_address) [] pk.client_address (index ++ addrs) a
          (omega arith),
      drop-put_addr 2 pk.client_address (index ++ addrs) a,
      addresses,
    )
  where
    addresses :
        read_addresses system_address_count (put_valid pk.system_addresses ++ times)
        ≡ ok (
          valid_of pk.system_addresses
              ++ replicate (system_address_count - length (valid_of pk.system_addresses)) invalid,
          times,
        )
    addresses = rw (put_valid_lem pk.system_addresses) (
        read_addresses-put_all system_address_count (valid_of pk.system_addresses) times
          (omega (arith, length-valid_of pk.system_addresses)) (valid_of-All pk.system_addresses v)
          t
        ∙ rw (arrived-valid_of pk.system_addresses) refl)

pub unmarshal-marshal :
    (pk : ConnectionRequestAccepted)
    → IsAddr pk.client_address
    → pk.system_index < 2 ^ 16
    → All IsAddr pk.system_addresses
    → length pk.system_addresses ≤ system_address_count
    → pk.ping_time < 2 ^ 64
    → pk.pong_time < 2 ^ 64
    → unmarshal (drop 1 (marshal pk)) ≡ ok (received pk)
unfolding marshal uint_at be_uint
unmarshal-marshal pk a i v few h k =
    read_parts pk (be_bytes 2 pk.system_index) (be_bytes 8 pk.ping_time ++ be_bytes 8 pk.pong_time)
      refl refl (λ rest. ground (arith, be_value_2 pk.system_index rest i)) (λ rest. refl)
      (ground (arith, be_value_8 pk.ping_time (be_bytes 8 pk.pong_time) h))
      (ground (arith, be_value_8 pk.pong_time [] k)) a v few

read_times-Returns :
    (a : AddrPort) (i : ℕ) (r : List AddrPort × List ℕ) → Returns (read_times a i r)
unfolding read_times
read_times-Returns a i (addrs, rest) = ground (arith, uint_at_ok 8 rest 0, uint_at_ok 8 rest 8)

pub unmarshal-Returns : (b : List ℕ) → Returns (unmarshal b)
unfolding unmarshal
unmarshal-Returns b = elim (addr_or b) [
  | inl short ↦ ground arith
  | inr (a, r) ↦
      let rest = drop (addr_size b + 2) b in
      let i = be_value 2 (drop (addr_size b) b) 0 in
      ground (
        arith,
        r,
        uint_at_ok 2 b (addr_size b),
        Returns-bind (read_addresses system_address_count rest) (read_times a i)
            (read_addresses-Returns system_address_count rest) (λ q e. read_times-Returns a i q),
      )
]
