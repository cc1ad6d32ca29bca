-- ===== src/Message/OpenConnectionRequest1.antt =====
-- message/open_connection_request_1.go. `cachedOCR1` is the state of `MarshalBinary`: the bytes per
-- MTU.
use go_raknet.Prelude.{
  ℕ, ◌+◌, ◌-◌, ◌%◌, ◌^◌, ◌<◌, ◌≤◌, ◌≡◌, subst, List, ◌∷◌, ◌++◌, arith, ◌==◌, ltb, length, drop,
  replicate, none, some, Result, ok, unexpected_eof, ◌>>=◌, ◌>>◌, fail_if, index, in_bounds,
  length-replicate, get_elem?-get_or, Bool-cases, Option-cases, ==_iff, inl, inr,
}
use go_raknet.Prelude.Dict.{lookup, insert, lookup-insert}
use go_raknet.Message.{id_open_connection_request_1, Returns, unconnected_message_sequence}

pub record OpenConnectionRequest1 : Type 0 where
  pub client_protocol : ℕ
  pub mtu : ℕ

-- The buffer has `MTU - 28` bytes, computed on uint16, of which the protocol is the byte 17.
unfoldable pub marshal :
    List (ℕ × List ℕ) → OpenConnectionRequest1 → Result (List (ℕ × List ℕ) × List ℕ)
unfolding lookup insert
marshal cached pk =
    let n = (pk.mtu + 2 ^ 16 - 20 - 8) % 2 ^ 16 in
    let b =
      id_open_connection_request_1
      ∷ (unconnected_message_sequence ++ (pk.client_protocol ∷ replicate (n - 18) 0)) in
    elim (lookup pk.mtu cached) [
      | some old ↦ ok (cached, old)
      | none ↦ in_bounds (ltb 17 n) >> ok (insert pk.mtu b cached, b)
    ]

unfoldable pub unmarshal : List ℕ → Result OpenConnectionRequest1
unmarshal b = do
  fail_if (ltb (length b) 17) unexpected_eof
  client_protocol ← index b 16
  ok (record { client_protocol = client_protocol; mtu = (length b + 20 + 8 + 1) % 2 ^ 16 })

pub unmarshal-Returns : (b : List ℕ) → Returns (unmarshal b)
unfolding unmarshal
unmarshal-Returns b = ground (arith, get_elem?-get_or b 16 0)

-- The bytes cached for an MTU are a request of that MTU.
abbrev pub Cached : ℕ → ℕ → List ℕ → Type 0
Cached protocol mtu b = unmarshal (drop 1 b) ≡ ok (record { client_protocol = protocol; mtu = mtu })

-- Every entry of the cache is a request with the protocol `protocol`.
abbrev pub IsCache : ℕ → List (ℕ × List ℕ) → Type 0
IsCache protocol cached =
    (mtu : ℕ) (b : List ℕ) → lookup mtu cached ≡ some b → Cached protocol mtu b

-- Marshalling with one protocol does not panic, whatever is cached, and gives a request of the MTU
-- asked for; the cache stays one of that protocol.
pub marshal-IsCache :
    (cached : List (ℕ × List ℕ)) (pk : OpenConnectionRequest1)
    → IsCache pk.client_protocol cached
    → 46 ≤ pk.mtu
    → pk.mtu < 2 ^ 16
    → (r : List (ℕ × List ℕ) × List ℕ) × (marshal cached pk ≡ ok r)
      × Cached pk.client_protocol pk.mtu r.1
      × IsCache pk.client_protocol r.0
unfolding marshal unmarshal
marshal-IsCache cached pk c lo hi = elim (Option-cases (lookup pk.mtu cached)) [
  | inl fresh ↦ ((insert pk.mtu b cached, b), ground arith, request, kept)
  | inr (old, found) ↦ ((cached, old), ground arith, c pk.mtu old found, c)
]
  where
    b : List ℕ
    b =
        id_open_connection_request_1
        ∷ (unconnected_message_sequence
            ++ (pk.client_protocol ∷ replicate ((pk.mtu + 2 ^ 16 - 20 - 8) % 2 ^ 16 - 18) 0))

    request : Cached pk.client_protocol pk.mtu b
    request = ground (arith, length-replicate {A = ℕ} ((pk.mtu + 2 ^ 16 - 20 - 8) % 2 ^ 16 - 18) 0)

    kept : IsCache pk.client_protocol (insert pk.mtu b cached)
    kept mtu b' e = elim (Bool-cases (pk.mtu == mtu)) [
      | inl same ↦
          subst (λ m. Cached pk.client_protocol m b') ((==_iff pk.mtu mtu).0 same)
            (let e' : b ≡ b' = ground (arith, lookup-insert pk.mtu mtu b cached) in
              subst (Cached pk.client_protocol pk.mtu) e' request)
      | inr other ↦ c mtu b' (ground (arith, lookup-insert pk.mtu mtu b cached))
    ]
