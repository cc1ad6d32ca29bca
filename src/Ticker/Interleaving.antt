-- ===== src/Ticker/Interleaving.antt =====
-- conn_ticker.go: the ticker, the connections and their ends in any order of their steps.
use go_raknet.Prelude.{
  ℕ, zero, suc, ◌≡◌, ◌≢◌, refl, sym, ap, ◌∙◌, subst, inl, inr, List, [], ◌∷◌, ◌++◌, true, false,
  ◌==◌, arith, none, some, length, set, get_elem?, Result, ok, ◌>>=◌, All, Bool-cases, Option-cases,
}
use go_raknet.Prelude.Dict.{insert, delete, has, lookup}
use go_raknet.Ticker.{
  Ticked, Ticker, new_ticker, register_connection, update, unregister_ticked_connection, offer,
  offer_all, offer_round,
}

-- The ticker with the connections that its loop still has to take out.
pub record System : Type 0 where
  pub ticker : Ticker
  pub unregister_queue : List ℕ

-- What can happen: a new connection; the loop offers a tick to all, or takes one connection out; a
-- connection reads its tick, is cancelled, or takes itself out, as `closeImmediately` does.
pub data Action : Type 0 where
  connect : Action
  offer_ticks : ℕ → Action
  take_out : Action
  read_tick : ℕ → Action
  cancel : ℕ → Action
  unregister : ℕ → Action

unfoldable pub change : (Ticked → Ticked) → ℕ → Ticker → Ticker
change f i m = elim (get_elem? m.conns i) [ none ↦ m | some c ↦ update m i (f c) ]

unfoldable pub act : Action → System → Result System
act connect s = ok (record s { ticker = register_connection s.ticker })
act (offer_ticks t) s = offer_round t s.ticker >>= λ q.
    ok (record { ticker = q.0; unregister_queue = s.unregister_queue ++ q.1 })
act take_out s = elim s.unregister_queue [
  | [] ↦ ok s
  | i ∷ is ↦ unregister_ticked_connection i s.ticker >>= λ m.
      ok (record { ticker = m; unregister_queue = is })
]
act (read_tick i) s = ok (record s { ticker = change (λ c. record c { tick = none }) i s.ticker })
act (cancel i) s = ok (record s { ticker = change (λ c. record c { done = true }) i s.ticker })
act (unregister i) s = unregister_ticked_connection i s.ticker >>= λ m. ok (record s { ticker = m })

unfoldable pub run : List Action → System → Result System
run [] s = ok s
run (a ∷ actions) s = act a s >>= run actions

module _ {A : Type 0} where
  get_elem?-set_same :
      (xs : List A) (i : ℕ) (v : A) {x : A}
      → get_elem? xs i ≡ some x
      → get_elem? (set xs i v) i ≡ some v
  get_elem?-set_same [] i v h = cc
  get_elem?-set_same (x ∷ xs) zero v h = refl
  get_elem?-set_same (x ∷ xs) (suc i) v h = get_elem?-set_same xs i v h

  get_elem?-set_other :
      (xs : List A) (i j : ℕ) (v : A) → i ≢ j → get_elem? (set xs i v) j ≡ get_elem? xs j
  get_elem?-set_other [] i j v h = refl
  get_elem?-set_other (x ∷ xs) zero zero v h = absurd (h refl)
  get_elem?-set_other (x ∷ xs) zero (suc j) v h = refl
  get_elem?-set_other (x ∷ xs) (suc i) zero v h = refl
  get_elem?-set_other (x ∷ xs) (suc i) (suc j) v h =
      get_elem?-set_other xs i j v (λ e. h (ap suc e))

  get_elem?-append :
      (xs ys : List A) (i : ℕ) {x : A} → get_elem? xs i ≡ some x → get_elem? (xs ++ ys) i ≡ some x
  get_elem?-append [] ys i h = cc
  get_elem?-append (x ∷ xs) ys zero h = h
  get_elem?-append (x ∷ xs) ys (suc i) h = get_elem?-append xs ys i h

  get_elem?-last : (xs : List A) (y : A) → get_elem? (xs ++ (y ∷ [])) (length xs) ≡ some y
  get_elem?-last [] y = refl
  get_elem?-last (x ∷ xs) y = get_elem?-last xs y

-- A connection whose channel is open.
record IsOpen (conns : List Ticked) (i : ℕ) : Type 0 where
  conn : Ticked
  there : get_elem? conns i ≡ some conn
  open_channel : conn.channel_closed ≡ false

-- Every active connection is.
IsSound : Ticker → Type 0
IsSound m = All (λ p. IsOpen m.conns p.0) m.active

some_eq : {A : Type 0} {x y : A} → some x ≡ some y → x ≡ y
some_eq h = cc

-- A change that leaves the channels of others alone.
IsOpen-set :
    (conns : List Ticked) (i j : ℕ) (v : Ticked) {c : Ticked}
    → get_elem? conns i ≡ some c
    → (i ≡ j → v.channel_closed ≡ c.channel_closed)
    → IsOpen conns j
    → IsOpen (set conns i v) j
IsOpen-set conns i j v {c} h k o = elim (Bool-cases (i == j)) [
  | inl e ↦
      let q : i ≡ j = ground (arith, e) in
      let at_j : get_elem? conns j ≡ some c = subst (λ n. get_elem? conns n ≡ some c) q h in
      let same : o.conn ≡ c = some_eq (sym o.there ∙ at_j) in
      record {
        conn = v;
        there =
            subst (λ n. get_elem? (set conns i v) n ≡ some v) q (get_elem?-set_same conns i v h);
        open_channel = k q ∙ (sym (ap (λ c. c.channel_closed) same) ∙ o.open_channel);
      }
  | inr e ↦ record {
    conn = o.conn;
    there = get_elem?-set_other conns i j v (λ q. ground (arith, e, q)) ∙ o.there;
    open_channel = o.open_channel;
  }
]

All-IsOpen :
    (conns conns' : List Ticked) (is : List (ℕ × Unit {0}))
    → ((j : ℕ) → IsOpen conns j → IsOpen conns' j)
    → All (λ p. IsOpen conns p.0) is
    → All (λ p. IsOpen conns' p.0) is
All-IsOpen conns conns' [] f h = tt
All-IsOpen conns conns' ((i, _) ∷ is) f h = (f i h.0, All-IsOpen conns conns' is f h.1)

All-delete :
    (P : ℕ → Type 0) (i : ℕ) (is : List (ℕ × Unit {0}))
    → All (λ p. P p.0) is
    → All (λ p. P p.0) (delete i is)
unfolding delete
All-delete P i [] h = tt
All-delete P i ((j, _) ∷ is) h = elim (Bool-cases (j == i)) [
  | inl e ↦ rw (e) (All-delete P i is h.1)
  | inr e ↦ rw (e) (h.0, All-delete P i is h.1)
]

-- The connections that are left when one is taken out and its channel closed.
delete-IsOpen :
    (conns : List Ticked) (i : ℕ) (v : Ticked) (is : List (ℕ × Unit {0})) {c : Ticked}
    → get_elem? conns i ≡ some c
    → All (λ p. IsOpen conns p.0) is
    → All (λ p. IsOpen (set conns i v) p.0) (delete i is)
unfolding delete
delete-IsOpen conns i v [] h o = tt
delete-IsOpen conns i v ((j, _) ∷ is) h o = elim (Bool-cases (j == i)) [
  | inl e ↦ rw (e) (delete-IsOpen conns i v is h o.1)
  | inr e ↦ rw (e) (
    IsOpen-set conns i j v h (λ q. absurd (ground (arith, e, q))) o.0,
    delete-IsOpen conns i v is h o.1,
  )
]

lookup-IsOpen :
    (conns : List Ticked) (i : ℕ) (is : List (ℕ × Unit {0}))
    → has i is ≡ true
    → All (λ p. IsOpen conns p.0) is
    → IsOpen conns i
unfolding lookup
lookup-IsOpen conns i [] h o = cc
lookup-IsOpen conns i ((j, _) ∷ is) h o = elim (Bool-cases (j == i)) [
  | inl e ↦ subst (IsOpen conns) (ground (arith, e)) o.0
  | inr e ↦ lookup-IsOpen conns i is (ground (arith, e, h)) o.1
]

-- A step that gives a sound ticker and does not panic.
abbrev IsSafe : Result Ticker → Type 0
IsSafe r = (m : Ticker) × (r ≡ ok m) × IsSound m

unregister-IsSafe : (i : ℕ) (m : Ticker) → IsSound m → IsSafe (unregister_ticked_connection i m)
unfolding unregister_ticked_connection update IsSound
unregister-IsSafe i m h = elim (Bool-cases (has i m.active)) [
  | inr e ↦ rw (unregister_ticked_connection, e) (m, refl, h)
  | inl e ↦
      let o = lookup-IsOpen m.conns i m.active e h in
      rw (unregister_ticked_connection, e, o.there, o.open_channel)
        (_, refl, delete-IsOpen m.conns i _ m.active o.there h)
]

-- An offer to an open connection.
record IsOffered (m : Ticker) (r : Result (Ticker × List ℕ)) : Type 0 where
  after : Ticker × List ℕ
  returned : r ≡ ok after
  same_active : after.0.active ≡ m.active
  still_open : (j : ℕ) → IsOpen m.conns j → IsOpen after.0.conns j

offer-IsOffered :
    (t i : ℕ) (m : Ticker) (queue : List ℕ) → IsOpen m.conns i → IsOffered m (offer t i (m, queue))
unfolding offer update
offer-IsOffered t i m queue o = elim (Bool-cases o.conn.done) [
  | inl e ↦ record {
    after = (m, queue ++ (i ∷ []));
    returned = rw (offer, o.there, e) refl;
    same_active = refl;
    still_open = λ j p. p;
  }
  | inr e ↦ elim (Option-cases o.conn.tick) [
    | inl f ↦ record {
      after = (update m i (record (o.conn) { tick = some t }), queue);
      returned = ground (arith, o.there, e, o.open_channel, f);
      same_active = refl;
      still_open = λ j p. IsOpen-set m.conns i j _ o.there (λ q. refl) p;
    }
    | inr (u, f) ↦ record {
      after = (m, queue);
      returned = rw (offer, o.there, e, o.open_channel, f) refl;
      same_active = refl;
      still_open = λ j p. p;
    }
  ]
]

-- A round of offers to `is`: the active connections stay, and no open channel is closed.
offer_all-IsSafe :
    (t : ℕ) (is : List (ℕ × Unit {0})) (m : Ticker) (queue : List ℕ)
    → All (λ p. IsOpen m.conns p.0) is
    → IsSound m
    → (q : Ticker × List ℕ) × (offer_all t is (m, queue) ≡ ok q) × IsSound q.0
unfolding offer_all IsSound
offer_all-IsSafe t [] m queue o h = ((m, queue), refl, h)
offer_all-IsSafe t ((i, _) ∷ is) m queue o h =
    let f = offer-IsOffered t i m queue o.0 in
    let (m', queue') = f.after in
    let rest = All-IsOpen m.conns m'.conns is f.still_open o.1 in
    let sound =
      subst (λ l. All (λ p. IsOpen m'.conns p.0) l) (sym f.same_active)
        (All-IsOpen m.conns m'.conns m.active f.still_open h) in
    let (q, e, s) = offer_all-IsSafe t is m' queue' rest sound in
    (q, rw (offer_all, f.returned) e, s)

-- A new connection leaves the others alone.
register-IsSound : (m : Ticker) → IsSound m → IsSound (register_connection m)
unfolding register_connection IsSound insert
register-IsSound m h =
    let new : Ticked = record { done = false; tick = none; channel_closed = false } in
    (
      record { conn = new; there = get_elem?-last m.conns new; open_channel = refl },
      All-delete (IsOpen (m.conns ++ (new ∷ []))) (length m.conns) m.active (
          All-IsOpen m.conns (m.conns ++ (new ∷ [])) m.active
            (λ j o. record {
              conn = o.conn;
              there = get_elem?-append m.conns (new ∷ []) j o.there;
              open_channel = o.open_channel;
            })
            h),
    )

change-IsSound :
    (f : Ticked → Ticked) (i : ℕ) (m : Ticker)
    → ((c : Ticked) → (f c).channel_closed ≡ c.channel_closed)
    → IsSound m
    → IsSound (change f i m)
unfolding change update IsSound
change-IsSound f i m k h = elim (Option-cases (get_elem? m.conns i)) [
  | inl e ↦ rw (change, e) h
  | inr (c, e) ↦
      rw (change, e)
        (All-IsOpen m.conns (set m.conns i (f c)) m.active
          (λ j o. IsOpen-set m.conns i j (f c) e (λ q. k c) o) h)
]

act-IsSound :
    (a : Action) (s : System)
    → IsSound s.ticker
    → (s' : System) × (act a s ≡ ok s') × IsSound s'.ticker
unfolding act offer_round IsSound
act-IsSound connect s h = (_, refl, register-IsSound s.ticker h)
act-IsSound (offer_ticks t) s h =
    let (q, e, sound) = offer_all-IsSafe t s.ticker.active s.ticker [] h h in
    (
      record { ticker = q.0; unregister_queue = s.unregister_queue ++ q.1 },
      rw (act, offer_round, e) refl,
      sound,
    )
act-IsSound take_out s h = go s.unregister_queue refl
  where
    go :
        (queue : List ℕ)
        → s.unregister_queue ≡ queue
        → (s' : System) × (act take_out s ≡ ok s') × IsSound s'.ticker
    go [] e = (s, ground (arith, e), h)
    go (i ∷ is) e =
        let (m, f, sound) = unregister-IsSafe i s.ticker h in
        (record { ticker = m; unregister_queue = is }, rw (act, e, f) refl, sound)
act-IsSound (read_tick i) s h = (_, refl, change-IsSound _ i s.ticker (λ c. refl) h)
act-IsSound (cancel i) s h = (_, refl, change-IsSound _ i s.ticker (λ c. refl) h)
act-IsSound (unregister i) s h =
    let (m, e, sound) = unregister-IsSafe i s.ticker h in
    (record s { ticker = m }, rw (act, e) refl, sound)

run-IsSound :
    (actions : List Action) (s : System)
    → IsSound s.ticker
    → (s' : System) × (run actions s ≡ ok s')
unfolding run
run-IsSound [] s h = (s, refl)
run-IsSound (a ∷ actions) s h =
    let (s1, e, sound) = act-IsSound a s h in
    let (s', e') = run-IsSound actions s1 sound in (s', rw (run, e) e')

-- However the steps of the ticker and of the connections interleave, and however often a connection is
-- cancelled or taken out, none sends on a closed channel, and none closes a channel twice: from the
-- start every sequence of steps comes to its end without a panic.
pub run_safe :
    (actions : List Action)
    → (s : System) × (run actions (record { ticker = new_ticker; unregister_queue = [] }) ≡ ok s)
unfolding new_ticker IsSound
run_safe actions = run-IsSound actions _ tt
