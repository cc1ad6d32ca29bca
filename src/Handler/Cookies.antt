-- ===== src/Handler/Cookies.antt =====
-- handler.go: what the cookies of a listener let through.
use go_raknet.Prelude.{
  ℕ, ◌^◌, ◌<◌, ◌≤◌, ◌≡◌, ◌≢◌, refl, subst, List, [], ◌∷◌, true, false, not, ltb, ◌||◌, min, arith,
  drop, Result, ok, err, panic, ◌⊎◌, inl, inr, Bool-cases,
}
use go_raknet.Conn.{min_mtu_size, max_mtu_size}
use go_raknet.Message.Addr.{IsAddr}
use go_raknet.Message.OpenConnectionRequest2
use go_raknet.Message.OpenConnectionRequest2.{OpenConnectionRequest2, received}
use go_raknet.Handler.{
  UdpAddr, Listener, cookie, resolve, has_connection, is_rejected, rotate_salt,
  handle_open_connection_request_2,
}

-- What a request must be to open a connection.
pub record IsAdmitted (l : Listener) (b : List ℕ) (addr : UdpAddr) (after : Listener) : Type 0 where
  pub request : OpenConnectionRequest2
  pub reads : OpenConnectionRequest2.unmarshal (not l.disable_cookies) b ≡ ok request
  pub is_new : has_connection (resolve addr) l.connections ≡ false
  pub mtu_fits : min_mtu_size ≤ request.mtu
  pub has_cookie :
      (l.disable_cookies ≡ true)
      ⊎ (((request.cookie ≡ cookie addr l.current_cookie_salt)
            ⊎ (request.cookie ≡ cookie addr l.prev_cookie_salt))
          × (cookie addr l.current_cookie_salt ≢ cookie addr l.prev_cookie_salt))
  pub stored : after.connections ≡ (resolve addr, min request.mtu max_mtu_size) ∷ l.connections

is_rejected-cases :
    (l : Listener) (addr : UdpAddr) (c : ℕ)
    → is_rejected l addr c ≡ false
    → (l.disable_cookies ≡ true)
      ⊎ (((c ≡ cookie addr l.current_cookie_salt) ⊎ (c ≡ cookie addr l.prev_cookie_salt))
          × (cookie addr l.current_cookie_salt ≢ cookie addr l.prev_cookie_salt))
unfolding is_rejected
is_rejected-cases l addr c h = ground arith

-- Whatever bytes arrive as a second request, either the connections stay as they are, or the request
-- was readable, of a peer without a connection, asked for an MTU of at least 576 and, unless cookies
-- are disabled, carried the cookie of one of the two salts, which must tell them apart; then one
-- connection is added, with an MTU of at most 1200.
pub open_connection-IsAdmitted :
    (l : Listener) (b : List ℕ) (addr : UdpAddr)
    → let after = (handle_open_connection_request_2 l b addr).0.0 in
      (after.connections ≡ l.connections) ⊎ IsAdmitted l b addr after
unfolding handle_open_connection_request_2
open_connection-IsAdmitted l b addr =
    elim (Bool-cases (has_connection (resolve addr) l.connections)) [
      | inl known ↦ rw (known) (inl refl)
      | inr new ↦ go (OpenConnectionRequest2.unmarshal (not l.disable_cookies) b) refl new
    ]
  where
    go :
        (r : Result OpenConnectionRequest2)
        → OpenConnectionRequest2.unmarshal (not l.disable_cookies) b ≡ r
        → has_connection (resolve addr) l.connections ≡ false
        → let after = (handle_open_connection_request_2 l b addr).0.0 in
          (after.connections ≡ l.connections) ⊎ IsAdmitted l b addr after
    go (err e) h new = inl (ground (arith, h))
    go panic h new = inl (ground (arith, h))
    go (ok pk) h new = elim (Bool-cases (ltb pk.mtu min_mtu_size || is_rejected l addr pk.cookie)) [
      | inl refused ↦ inl (ground (arith, h))
      | inr admitted ↦ inr (record {
        request = pk;
        reads = h;
        is_new = new;
        mtu_fits = ground arith;
        has_cookie = is_rejected-cases l addr pk.cookie (ground arith);
        stored = ground (arith, h);
      })
    ]

-- While both salts give a peer the same cookie, and cookies are not disabled, no second request of
-- that peer is answered or opens a connection.
pub open_connection_ambiguous :
    (l : Listener) (b : List ℕ) (addr : UdpAddr)
    → l.disable_cookies ≡ false
    → cookie addr l.current_cookie_salt ≡ cookie addr l.prev_cookie_salt
    → (handle_open_connection_request_2 l b addr).0 ≡ (l, [])
unfolding handle_open_connection_request_2 is_rejected
open_connection_ambiguous l b addr on same = ground arith

-- The cookie that a peer was given lets its second request through, before the salts rotate and after
-- they rotate once, as long as the two salts tell its cookies apart: the request is answered, and a
-- connection with the MTU asked for, up to 1200, is added.
pub open_connection_with_cookie :
    (l : Listener) (salt : ℕ) (addr : UdpAddr) (request : OpenConnectionRequest2)
    → l.disable_cookies ≡ false
    → has_connection (resolve addr) l.connections ≡ false
    → request.server_has_security ≡ true
    → IsAddr request.server_address
    → request.cookie ≡ cookie addr l.current_cookie_salt
    → request.cookie < 2 ^ 32
    → min_mtu_size ≤ request.mtu
    → request.mtu < 2 ^ 16
    → request.client_guid < 2 ^ 64
    → cookie addr l.current_cookie_salt ≢ cookie addr l.prev_cookie_salt
    → cookie addr salt ≢ cookie addr l.current_cookie_salt
    → let b = drop 1 (OpenConnectionRequest2.marshal request) in
      let opened = (resolve addr, min request.mtu max_mtu_size) ∷ l.connections in
      ((handle_open_connection_request_2 l b addr).0.0.connections ≡ opened)
      × ((handle_open_connection_request_2 (rotate_salt salt l) b addr).0.0.connections ≡ opened)
unfolding handle_open_connection_request_2 is_rejected rotate_salt
open_connection_with_cookie l salt addr request on new secure address c small lo hi guid apart
      renewed =
    let r = OpenConnectionRequest2.unmarshal-marshal request address hi guid small in
    let s : OpenConnectionRequest2.unmarshal true (drop 1 (OpenConnectionRequest2.marshal request))
        ≡ ok (received request) =
      subst
        (λ t.
          OpenConnectionRequest2.unmarshal t (drop 1 (OpenConnectionRequest2.marshal request))
          ≡ ok (received request))
        secure r in
    (
      ground (arith, s, same_cookie request secure, same_mtu request),
      ground (arith, s, same_cookie request secure, same_mtu request),
    )
  where
    same_cookie :
        (request : OpenConnectionRequest2)
        → request.server_has_security ≡ true
        → (received request).cookie ≡ request.cookie
    same_cookie request e = unfold received in ground arith

    same_mtu : (request : OpenConnectionRequest2) → (received request).mtu ≡ request.mtu
    same_mtu request = unfold received in refl
