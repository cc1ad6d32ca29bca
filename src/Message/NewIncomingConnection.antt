-- ===== src/Message/NewIncomingConnection.antt =====
-- message/new_incoming_connection.go.
use go_raknet.Prelude.{
  ℕ, ◌-◌, ◌^◌, ◌<◌, ◌≤◌, ◌≡◌, refl, List, [], ◌∷◌, ◌++◌, arith, ltb, length, drop, All, map,
  replicate, Result, ok, unexpected_eof, ◌>>=◌, ◌>>◌, fail_if, slice_from, length-append, inl, inr,
}
use go_raknet.Binary.{be_bytes, be_uint, be_value_8}
use go_raknet.Message.{id_new_incoming_connection, Returns, Returns-bind, uint_at, uint_at_ok}
use go_raknet.Message.Addr.{
  AddrPort, invalid, IsAddr, addr, addr_size, put_addr, arrived, addr-put_addr, addr_size-put_addr,
  addr_or, rest-put_addr, length-put_addr,
}
use go_raknet.Message.SystemAddresses.{
  system_address_count, put_all, read_addresses, read_addresses-put_all, read_addresses-Returns,
}

pub record NewIncomingConnection : Type 0 where
  pub server_address : AddrPort
  pub system_addresses : List AddrPort
  pub ping_time : ℕ
  pub pong_time : ℕ

-- The system addresses are read; the times follow.
unfoldable pub read_times : AddrPort → List AddrPort × List ℕ → Result NewIncomingConnection
read_times server_address (system_addresses, rest) = do
  fail_if (ltb (length rest) 16) unexpected_eof
  ping_time ← uint_at 8 rest 0
  pong_time ← uint_at 8 rest 8
  ok (record {
    server_address = server_address;
    system_addresses = system_addresses;
    ping_time = ping_time;
    pong_time = pong_time;
  })

unfoldable pub unmarshal : List ℕ → Result NewIncomingConnection
unmarshal b = do
  fail_if (ltb (length b) (addr_size b)) unexpected_eof
  (server_address, offset) ← addr b
  addresses_bytes ← slice_from b offset
  behind ← read_addresses system_address_count addresses_bytes
  read_times server_address behind

unfoldable pub marshal : NewIncomingConnection → List ℕ
marshal pk =
    id_new_incoming_connection
    ∷ (put_addr pk.server_address
        ++ (put_all pk.system_addresses ++ (be_bytes 8 pk.ping_time ++ be_bytes 8 pk.pong_time)))

-- What arrives: an address that is not valid as 0.0.0.0:0.
unfoldable pub received : NewIncomingConnection → NewIncomingConnection
received pk = record pk {
  server_address = arrived pk.server_address;
  system_addresses =
      map arrived pk.system_addresses
      ++ replicate (system_address_count - length pk.system_addresses) invalid;
}

-- `unmarshal` on bytes with the fields of an encoding.
read_parts :
    (pk : NewIncomingConnection) (times : List ℕ)
    → length times ≡ 16
    → uint_at 8 times 0 ≡ ok pk.ping_time
    → uint_at 8 times 8 ≡ ok pk.pong_time
    → IsAddr pk.server_address
    → All IsAddr pk.system_addresses
    → length pk.system_addresses ≤ system_address_count
    → unmarshal (put_addr pk.server_address ++ (put_all pk.system_addresses ++ times))
      ≡ ok (received pk)
unfolding unmarshal received read_times
read_parts pk times t p q a v few =
    let addrs = put_all pk.system_addresses ++ times in
    ground (
      arith,
      addr_size-put_addr pk.server_address addrs,
      addr-put_addr pk.server_address addrs a,
      length-append (put_addr pk.server_address) addrs,
      length-append (put_all pk.system_addresses) times,
      length-put_addr pk.server_address a,
      rest-put_addr pk.server_address addrs a,
      read_addresses-put_all system_address_count pk.system_addresses times few v t,
    )

pub unmarshal-marshal :
    (pk : NewIncomingConnection)
    → IsAddr pk.server_address
    → All IsAddr pk.system_addresses
    → length pk.system_addresses ≤ system_address_count
    → pk.ping_time < 2 ^ 64
    → pk.pong_time < 2 ^ 64
    → unmarshal (drop 1 (marshal pk)) ≡ ok (received pk)
unfolding marshal uint_at be_uint
unmarshal-marshal pk a v few h k =
    read_parts pk (be_bytes 8 pk.ping_time ++ be_bytes 8 pk.pong_time) refl
      (ground (arith, be_value_8 pk.ping_time (be_bytes 8 pk.pong_time) h))
      (ground (arith, be_value_8 pk.pong_time [] k)) a v few

read_times-Returns : (a : AddrPort) (r : List AddrPort × List ℕ) → Returns (read_times a r)
unfolding read_times
read_times-Returns a (addrs, rest) = ground (arith, uint_at_ok 8 rest 0, uint_at_ok 8 rest 8)

pub unmarshal-Returns : (b : List ℕ) → Returns (unmarshal b)
unfolding unmarshal
unmarshal-Returns b = elim (addr_or b) [
  | inl short ↦ ground arith
  | inr (a, r) ↦
      let rest = drop (addr_size b) b in
      ground (
        arith,
        r,
        Returns-bind (read_addresses system_address_count rest) (read_times a)
            (read_addresses-Returns system_address_count rest) (λ q e. read_times-Returns a q),
      )
]
