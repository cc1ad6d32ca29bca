-- ===== src/Message/OpenConnectionReply1.antt =====
-- message/open_connection_reply_1.go.
use go_raknet.Prelude.{
  ℕ, ◌+◌, ◌*◌, ◌^◌, ◌<◌, ◌≡◌, List, [], ◌∷◌, ◌++◌, Bool, arith, ◌==◌, not, ltb, if◌then◌else◌,
  length, drop, Result, ok, unexpected_eof, invalid_sequence, ◌>>=◌, ◌>>◌, fail_if, index,
  get_elem?-get_or, Bool-cases, inl, inr,
}
use go_raknet.Binary.{be_bytes, be_uint, be_value_2, be_value_4, be_value_8}
use go_raknet.Message.{
  id_open_connection_reply_1, Returns, uint_at, uint_at_ok, unconnected_message_sequence,
  is_sequence, equal_bytes,
}

pub record OpenConnectionReply1 : Type 0 where
  pub server_guid : ℕ
  pub server_has_security : Bool
  pub cookie : ℕ
  pub mtu : ℕ

unfoldable pub unmarshal : List ℕ → Result OpenConnectionReply1
unmarshal b = do
  fail_if (ltb (length b) 27) unexpected_eof
  security ← index b 24
  fail_if (ltb (length b) (27 + security * 4)) unexpected_eof
  fail_if (not (is_sequence b)) invalid_sequence
  server_guid ← uint_at 8 b 16
  let secure = not (security == 0)
  cookie ← if secure then uint_at 4 b 25 else ok 0
  mtu ← uint_at 2 b (if secure then 29 else 25)
  ok (record {
    server_guid = server_guid;
    server_has_security = secure;
    cookie = cookie;
    mtu = mtu;
  })

unfoldable pub marshal : OpenConnectionReply1 → List ℕ
marshal pk =
    let security = if pk.server_has_security then 1 ∷ be_bytes 4 pk.cookie else 0 ∷ [] in
    id_open_connection_reply_1
    ∷ (unconnected_message_sequence
        ++ (be_bytes 8 pk.server_guid ++ (security ++ be_bytes 2 pk.mtu)))

-- What arrives: the cookie only with the security flag.
unfoldable pub arrived : OpenConnectionReply1 → OpenConnectionReply1
arrived pk = record pk { cookie = if pk.server_has_security then pk.cookie else 0 }

pub unmarshal-marshal :
    (pk : OpenConnectionReply1)
    → pk.server_guid < 2 ^ 64
    → pk.cookie < 2 ^ 32
    → pk.mtu < 2 ^ 16
    → unmarshal (drop 1 (marshal pk)) ≡ ok (arrived pk)
unfolding unmarshal marshal uint_at be_uint is_sequence equal_bytes arrived
unmarshal-marshal pk h k l = elim (Bool-cases pk.server_has_security) [
  | inl e ↦ ground (
    arith,
    be_value_8 pk.server_guid (1 ∷ be_bytes 4 pk.cookie ++ be_bytes 2 pk.mtu) h,
    be_value_4 pk.cookie (be_bytes 2 pk.mtu) k,
    be_value_2 pk.mtu [] l,
  )
  | inr e ↦
      ground (arith, be_value_8 pk.server_guid (0 ∷ be_bytes 2 pk.mtu) h, be_value_2 pk.mtu [] l)
]

pub unmarshal-Returns : (b : List ℕ) → Returns (unmarshal b)
unfolding unmarshal be_uint
unmarshal-Returns b = ground (
  arith,
  uint_at_ok 8 b 16,
  uint_at_ok 4 b 25,
  uint_at_ok 2 b 29,
  uint_at_ok 2 b 25,
  get_elem?-get_or b 24 0,
)
