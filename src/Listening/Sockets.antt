-- ===== src/Listening/Sockets.antt =====
-- listener.go and listener_reuseport_linux.go: how a listener opens and closes its sockets. `listen` opens
-- the socket of a number at an address, and stands for the network; `close` is what closing one gives. An
-- address is of a type `A`; a socket that has none as its own has `none`.
use go_raknet.Prelude.{
  ℕ, zero, suc, ◌+◌, ◌<◌, ◌≡◌, ◌≢◌, refl, ◌∙◌, subst, List, [], ◌∷◌, ◌++◌, ltb, max, arith, length,
  append_assoc, append-nil, if◌then◌else◌, Option, none, some, Result, ok, err, panic, Error,
}
use go_raknet.Listening.{is_closed}

pub record Socket (A : Type 0) : Type 0 where
  pub id : ℕ
  pub local_addr : Option A

module _ {A : Type 0} where
  -- `closePacketConns`: the errors that are joined.
  unfoldable pub close_packet_conns : (Socket A → Option Error) → List (Socket A) → List Error
  close_packet_conns close [] = []
  close_packet_conns close (conn ∷ conns) =
      let errs = close_packet_conns close conns in
      elim (close conn) [ none ↦ errs | some e ↦ if is_closed e then errs else (e ∷ errs) ]

  -- Where the next socket is bound.
  unfoldable pub next_address : A → Socket A → A
  next_address bind conn = elim conn.local_addr [ none ↦ bind | some a ↦ a ]

  -- The loop of `openPacketConns`: the sockets that it closes, and its result.
  unfoldable pub open_packet_loop :
      (ℕ → A → Result (Socket A))
      → ℕ
      → ℕ
      → A
      → List (Socket A)
      → List (Socket A) × Result (List (Socket A))
  open_packet_loop listen zero i bind conns = ([], ok conns)
  open_packet_loop listen (suc n) i bind conns = elim (listen i bind) [
    | ok conn ↦ open_packet_loop listen n (suc i) (next_address bind conn) (conns ++ (conn ∷ []))
    | err e ↦ (conns, err e)
    | panic ↦ ([], panic)
  ]

  -- `listenPacketConns` and `openPacketConns`: at least one socket.
  unfoldable pub listen_packet_conns :
      (ℕ → A → Result (Socket A)) → A → ℕ → List (Socket A) × Result (List (Socket A))
  listen_packet_conns listen address count =
      let socket_count = if ltb count 1 then 1 else count in
      open_packet_loop listen socket_count 0 address []

  -- The sockets opened one after the other from the number `i` on, the next at the address of the last.
  pub data Chain (listen : ℕ → A → Result (Socket A)) : ℕ → A → List (Socket A) → Type 0 where
    no_socket : {i : ℕ} {bind : A} → Chain listen i bind []
    one_more :
        {i : ℕ} {bind : A} {conn : Socket A} {conns : List (Socket A)}
        → listen i bind ≡ ok conn
        → Chain listen (suc i) (next_address bind conn) conns
        → Chain listen i bind (conn ∷ conns)

  -- The address after a number of sockets.
  pub last_address : A → List (Socket A) → A
  last_address bind [] = bind
  last_address bind (conn ∷ conns) = last_address (next_address bind conn) conns

  -- What `n` more sockets come to behind the sockets `conns`: all of them are open and none was closed, or
  -- one cannot be opened, and those before it are closed, with `conns`.
  pub data IsAllOrNone (listen : ℕ → A → Result (Socket A)) (n i : ℕ) (bind : A)
      (conns : List (Socket A)) (r : List (Socket A) × Result (List (Socket A))) : Type 0 where
    all_open :
        (more : List (Socket A))
        → length more ≡ n
        → Chain listen i bind more
        → r ≡ ([], ok (conns ++ more))
        → IsAllOrNone listen n i bind conns r
    all_closed :
        (more : List (Socket A)) (e : Error)
        → length more < n
        → Chain listen i bind more
        → listen (length more + i) (last_address bind more) ≡ err e
        → r ≡ (conns ++ more, err e)
        → IsAllOrNone listen n i bind conns r

  -- One more socket in front.
  cons-IsAllOrNone :
      (listen : ℕ → A → Result (Socket A)) (n i : ℕ) (bind : A) (conns : List (Socket A))
      (conn : Socket A) (r : List (Socket A) × Result (List (Socket A)))
      → listen i bind ≡ ok conn
      → IsAllOrNone listen n (suc i) (next_address bind conn) (conns ++ (conn ∷ [])) r
      → IsAllOrNone listen (suc n) i bind conns r
  unfolding last_address
  cons-IsAllOrNone listen n i bind conns conn r opened (all_open more count chain e) =
      all_open (conn ∷ more) (omega (arith, count)) (one_more opened chain)
        (e ∙ rw (append_assoc conns (conn ∷ []) more) refl)
  cons-IsAllOrNone listen n i bind conns conn r opened (all_closed more f few chain fails e) =
      all_closed (conn ∷ more) f (omega (arith, few)) (one_more opened chain)
        (subst (λ k. listen k (last_address (next_address bind conn) more) ≡ err f) (omega arith)
          fails)
        (e ∙ rw (append_assoc conns (conn ∷ []) more) refl)

  open_packet_loop-IsAllOrNone :
      (listen : ℕ → A → Result (Socket A)) (n i : ℕ) (bind : A) (conns : List (Socket A))
      → ((j : ℕ) (a : A) → listen j a ≢ panic)
      → IsAllOrNone listen n i bind conns (open_packet_loop listen n i bind conns)
  unfolding open_packet_loop last_address
  open_packet_loop-IsAllOrNone listen zero i bind conns safe =
      all_open [] refl no_socket (rw (append-nil conns) refl)
  open_packet_loop-IsAllOrNone listen (suc n) i bind conns safe = go (listen i bind) refl (λ conn.
      open_packet_loop-IsAllOrNone listen n (suc i) (next_address bind conn) (conns ++ (conn ∷ []))
        safe)
    where
      go :
          (opened : Result (Socket A))
          → listen i bind ≡ opened
          → ((conn : Socket A)
              → IsAllOrNone listen n (suc i) (next_address bind conn) (conns ++ (conn ∷ [])) (
                  open_packet_loop listen n
                    (suc i)
                    (next_address bind conn)
                    (conns ++ (conn ∷ []))))
          → IsAllOrNone listen (suc n) i bind conns (open_packet_loop listen (suc n) i bind conns)
      go panic e rest = absurd (safe i bind e)
      go (err f) e rest =
          all_closed [] f (omega arith) no_socket
            (subst (λ k. listen k bind ≡ err f) (omega arith) e)
            (rw (e, open_packet_loop, append-nil conns) refl)
      go (ok conn) e rest =
          rw (e, open_packet_loop) (cons-IsAllOrNone listen n i bind conns conn _ e (rest conn))

  -- Opening the sockets of a listener either gives as many as were asked for, at least one, each bound to
  -- the address that the one before it has, and closes none; or one of them cannot be opened, the error
  -- is returned, and exactly those opened before it are closed.
  pub listen_packet_conns-IsAllOrNone :
      (listen : ℕ → A → Result (Socket A)) (address : A) (count : ℕ)
      → ((j : ℕ) (a : A) → listen j a ≢ panic)
      → IsAllOrNone listen (max 1 count) 0 address [] (listen_packet_conns listen address count)
  unfolding listen_packet_conns
  listen_packet_conns-IsAllOrNone listen address count safe =
      let asked : (if ltb count 1 then 1 else count) ≡ max 1 count = ground arith in
      rw (asked) (open_packet_loop-IsAllOrNone listen (max 1 count) 0 address [] safe)
