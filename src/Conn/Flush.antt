-- ===== src/Conn/Flush.antt =====
-- conn.go: `flushSendQueueLocked` sends the packets that wait in their order.
use go_raknet.Prelude.{
  ℕ, ◌-◌, ◌<◌, ◌≡◌, refl, sym, ap, subst, ◌∙◌, List, [], ◌∷◌, ◌++◌, true, false, ltb, arith, ◌⊎◌,
  inl, inr, append_assoc, append-nil, Bool-cases, ok, length,
}
use go_raknet.Binary.{next24, inc, uint24_bytes, write_uint24}
use go_raknet.Packet.{Packet, write}
use go_raknet.Conn.{Conn}
use go_raknet.Congestion.Controller.{Controller}
use go_raknet.Conn.Sending.{
  send_datagram, datagram, write_to, write_all, spend, flush_loop, flush_send_queue,
}

-- Datagrams of one packet each, with the sequence numbers from `seq` on; the flags in front are any.
abbrev pub Carry : ℕ → List (List ℕ) → List Packet → Type 0
Carry seq [] [] = Unit {0}
Carry seq [] (pk ∷ pks) = ⊥
Carry seq (d ∷ ds) [] = ⊥
Carry seq (d ∷ ds) (pk ∷ pks) =
    ((flags : ℕ) × (d ≡ write pk (flags ∷ uint24_bytes seq))) × Carry (next24 seq) ds pks

-- What a budget comes to after datagrams, and that it was above 0 before each of them.
abbrev pub left_of : ℕ → List (List ℕ) → ℕ
left_of budget [] = budget
left_of budget (d ∷ ds) = left_of (budget - length d) ds

abbrev pub Paced : ℕ → List (List ℕ) → Type 0
Paced budget [] = Unit {0}
Paced budget (d ∷ ds) = (0 < budget) × Paced (budget - length d) ds

-- What the loop did from `c` to `c'` with the packets `pks`.
pub record IsFlushed {C : Type 0} (pks : List Packet) (c c' : Conn C) : Type 0 where
  pub sent : List Packet
  pub datagrams : List (List ℕ)
  pub in_order : sent ++ c'.pending ≡ pks
  pub on_wire : c'.out ≡ c.out ++ datagrams
  pub carried : Carry c.seq datagrams sent
  pub paced : Paced c.send_budget datagrams
  pub spent : c'.send_budget ≡ left_of c.send_budget datagrams
  pub until : (c'.pending ≡ []) ⊎ (c'.send_budget ≡ 0)

module _ {C : Type 0} (control : Controller C) (now : ℕ) where
  -- The connection after one packet was sent, with `pks` left.
  after : Packet → List Packet → Conn C → Conn C
  after pk pks c =
      let waiting = record c { pending = pks } in
      spend control (length (datagram control waiting (pk ∷ [])))
        (send_datagram control now waiting (pk ∷ [])).0

  pub send_open :
      (c : Conn C) (packets : List Packet)
      → c.socket_closed ≡ false
      → (send_datagram control now c packets).1 ≡ ok (length (datagram control c packets))
  unfolding send_datagram write_to
  send_open c packets o = rw (o) refl

  flush_loop_step :
      (pk : Packet) (pks : List Packet) (c : Conn C)
      → c.socket_closed ≡ false
      → ltb 0 c.send_budget ≡ true
      → flush_loop control now (pk ∷ pks) c ≡ flush_loop control now pks (after pk pks c)
  unfolding flush_loop after
  flush_loop_step pk pks c o e = rw (e, send_open (record c { pending = pks }) (pk ∷ []) o) refl

  after-open :
      (pk : Packet) (pks : List Packet) (c : Conn C)
      → c.socket_closed ≡ false
      → (after pk pks c).socket_closed ≡ false
  unfolding after send_datagram write_to spend
  after-open pk pks c o = rw (o) refl

  after-seq :
      (pk : Packet) (pks : List Packet) (c : Conn C)
      → c.socket_closed ≡ false
      → (after pk pks c).seq ≡ next24 c.seq
  unfolding after send_datagram write_to spend inc
  after-seq pk pks c o = rw (o) refl

  after-out :
      (pk : Packet) (pks : List Packet) (c : Conn C)
      → c.socket_closed ≡ false
      → (after pk pks c).out
        ≡ c.out ++ (datagram control (record c { pending = pks }) (pk ∷ []) ∷ [])
  unfolding after send_datagram write_to spend
  after-out pk pks c o = rw (o) refl

  after-budget :
      (pk : Packet) (pks : List Packet) (c : Conn C)
      → c.socket_closed ≡ false
      → (after pk pks c).send_budget
        ≡ c.send_budget - length (datagram control (record c { pending = pks }) (pk ∷ []))
  unfolding after send_datagram write_to spend
  after-budget pk pks c o = rw (o) refl

  carries :
      (pk : Packet) (pks : List Packet) (c : Conn C)
      → (flags : ℕ) × (datagram control (record c { pending = pks }) (pk ∷ [])
          ≡ write pk (flags ∷ uint24_bytes c.seq))
  unfolding datagram write_all write_uint24 inc
  carries pk pks c = (_, refl)

  flush_loop-IsFlushed :
      (pks : List Packet) (c : Conn C)
      → c.socket_closed ≡ false
      → IsFlushed pks c (flush_loop control now pks c)
  unfolding flush_loop
  flush_loop-IsFlushed [] c o = record {
    sent = [];
    datagrams = [];
    in_order = refl;
    on_wire = sym (append-nil c.out);
    carried = tt;
    paced = tt;
    spent = refl;
    until = inl refl;
  }
  flush_loop-IsFlushed (pk ∷ pks) c o = elim (Bool-cases (ltb 0 c.send_budget)) [
    | inr e ↦ rw (e) (record {
      sent = [];
      datagrams = [];
      in_order = refl;
      on_wire = sym (append-nil c.out);
      carried = tt;
      paced = tt;
      spent = refl;
      until = inr (ground arith);
    })
    | inl e ↦
        let d = datagram control (record c { pending = pks }) (pk ∷ []) in
        let f = flush_loop-IsFlushed pks (after pk pks c) (after-open pk pks c o) in
        subst (IsFlushed (pk ∷ pks) c) (sym (flush_loop_step pk pks c o e)) (record {
          sent = pk ∷ f.sent;
          datagrams = d ∷ f.datagrams;
          in_order = ap (λ l. pk ∷ l) f.in_order;
          on_wire =
              f.on_wire
              ∙ (ap (λ out. out ++ f.datagrams) (after-out pk pks c o)
                  ∙ append_assoc c.out (d ∷ []) f.datagrams);
          carried = (
            carries pk pks c,
            subst (λ s. Carry s f.datagrams f.sent) (after-seq pk pks c o) f.carried,
          );
          paced = (
            ground (arith, e),
            subst (λ n. Paced n f.datagrams) (after-budget pk pks c o) f.paced,
          );
          spent = f.spent ∙ ap (λ n. left_of n f.datagrams) (after-budget pk pks c o);
          until = f.until;
        })
  ]

  -- On an open socket the packets that wait are sent in their order, one to a datagram, with
  -- consecutive sequence numbers. The budget is above 0 before each datagram and goes down by its bytes,
  -- to 0 at the least; the loop stops where none waits or the budget is 0, and those not sent still wait,
  -- in their order.
  pub flush_send_queue-IsFlushed :
      (c : Conn C)
      → c.socket_closed ≡ false
      → IsFlushed c.pending c (flush_send_queue control now c)
  unfolding flush_send_queue
  flush_send_queue-IsFlushed c o = flush_loop-IsFlushed c.pending c o
