-- ===== src/Listening/Opening.antt =====
-- listener.go and handler.go: what an unconnected datagram does to the connections.
use go_raknet.Prelude.{
  ℕ, ◌≡◌, refl, List, [], ◌∷◌, false, ◌==◌, ◌||◌, min, arith, ◌⊎◌, inl, inr, split_if,
}
use go_raknet.Conn.{max_mtu_size}
use go_raknet.Message.{
  id_unconnected_ping, id_unconnected_ping_open_connections, id_open_connection_request_1,
  id_open_connection_request_2,
}
use go_raknet.Message.Addr.{AddrPort}
use go_raknet.Handler.{
  UdpAddr, Listener, Handled, has_connection, handle_unconnected, handle_unconnected_ping,
  handle_open_connection_request_1, handle_open_connection_request_2, resolve,
}
use go_raknet.Handler.Cookies.{open_connection-IsAdmitted}

-- The connections after a datagram of a peer: the same ones, or one more, of that peer.
pub record IsOpened (addr : UdpAddr) (before after : List (AddrPort × ℕ)) : Type 0 where
  pub mtu : ℕ
  pub is_new : has_connection (resolve addr) before ≡ false
  pub stored : after ≡ (resolve addr, mtu) ∷ before

pub connections-ping :
    (l : Listener) (b : List ℕ) → (handle_unconnected_ping l b).0.0.connections ≡ l.connections
unfolding handle_unconnected_ping
connections-ping l b = ground arith

pub connections-request_1 :
    (l : Listener) (b : List ℕ) (addr : UdpAddr)
    → (handle_open_connection_request_1 l b addr).0.0.connections ≡ l.connections
unfolding handle_open_connection_request_1
connections-request_1 l b addr = ground arith

-- At most one connection is opened, and only for a peer without one.
unfoldable pub Opens : Listener → UdpAddr → Handled → Type 0
Opens l addr h = (h.0.0.connections ≡ l.connections) ⊎ IsOpened addr l.connections h.0.0.connections

pub same-Opens :
    (l : Listener) (addr : UdpAddr) (h : Handled)
    → h.0.0.connections ≡ l.connections
    → Opens l addr h
unfolding Opens
same-Opens l addr h same = inl same

pub request_2-Opens :
    (l : Listener) (b : List ℕ) (addr : UdpAddr)
    → Opens l addr (handle_open_connection_request_2 l b addr)
unfolding Opens
request_2-Opens l b addr = elim (open_connection-IsAdmitted l b addr) [
  | inl same ↦ inl same
  | inr a ↦
      inr (record { mtu = min a.request.mtu max_mtu_size; is_new = a.is_new; stored = a.stored })
]

pub handle_unconnected-Opens :
    (l : Listener) (b : List ℕ) (addr : UdpAddr) → Opens l addr (handle_unconnected l b addr)
unfolding handle_unconnected
handle_unconnected-Opens l [] addr = same-Opens l addr _ refl
handle_unconnected-Opens l (id ∷ b) addr =
    let pings = id == id_unconnected_ping || id == id_unconnected_ping_open_connections in
    split_if (Opens l addr) pings
      (λ e. same-Opens l addr (handle_unconnected_ping l b) (connections-ping l b))
      (λ e.
        split_if (Opens l addr) (id == id_open_connection_request_1)
          (λ e1.
            same-Opens l addr (handle_open_connection_request_1 l b addr)
              (connections-request_1 l b addr))
          (λ e1.
            split_if (Opens l addr) (id == id_open_connection_request_2)
              (λ e2. request_2-Opens l b addr) (λ e2. same-Opens l addr _ (ground arith))))
