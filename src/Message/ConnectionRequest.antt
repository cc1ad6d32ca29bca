-- ===== src/Message/ConnectionRequest.antt =====
-- message/connection_request.go.
use go_raknet.Prelude.{
  ℕ, ◌^◌, ◌<◌, ◌≡◌, List, [], ◌∷◌, ◌++◌, Bool, arith, ◌==◌, not, ltb, if◌then◌else◌, length, drop,
  Result, ok, unexpected_eof, ◌>>=◌, ◌>>◌, fail_if, index, get_elem?-get_or,
}
use go_raknet.Binary.{be_bytes, be_uint, be_value_8}
use go_raknet.Message.{id_connection_request, Returns, uint_at, uint_at_ok}

pub record ConnectionRequest : Type 0 where
  pub client_guid : ℕ
  pub request_time : ℕ
  pub secure : Bool

unfoldable pub unmarshal : List ℕ → Result ConnectionRequest
unmarshal b = do
  fail_if (ltb (length b) 17) unexpected_eof
  client_guid ← be_uint 8 b
  request_time ← uint_at 8 b 8
  secure ← index b 16
  ok (record { client_guid = client_guid; request_time = request_time; secure = not (secure == 0) })

unfoldable pub marshal : ConnectionRequest → List ℕ
marshal pk =
    id_connection_request
    ∷ (be_bytes 8 pk.client_guid
        ++ (be_bytes 8 pk.request_time ++ ((if pk.secure then 1 else 0) ∷ [])))

pub unmarshal-marshal :
    (pk : ConnectionRequest)
    → pk.client_guid < 2 ^ 64
    → pk.request_time < 2 ^ 64
    → unmarshal (drop 1 (marshal pk)) ≡ ok pk
unfolding unmarshal marshal uint_at be_uint
unmarshal-marshal pk h k =
    let secure : List ℕ = (if pk.secure then 1 else 0) ∷ [] in
    ground (
      arith,
      be_value_8 pk.client_guid (be_bytes 8 pk.request_time ++ secure) h,
      be_value_8 pk.request_time secure k,
    )

pub unmarshal-Returns : (b : List ℕ) → Returns (unmarshal b)
unfolding unmarshal be_uint
unmarshal-Returns b = ground (arith, uint_at_ok 8 b 8, get_elem?-get_or b 16 0)
