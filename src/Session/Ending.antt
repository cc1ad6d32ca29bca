-- ===== src/Session/Ending.antt =====
-- conn.go: how a connection ends.
use go_raknet.Prelude.{
  ℕ, ◌+◌, ◌*◌, ◌/◌, ◌%◌, ◌<◌, ◌≡◌, ◌≢◌, refl, ap, ◌∙◌, ◌⊎◌, inl, inr, List, true, ◌==◌,
  if◌then◌else◌, arith, length, split_if,
}
use go_raknet.ResendMap.{millisecond, second}
use go_raknet.Congestion.Controller.{Controller}
use go_raknet.Session.{
  Session, unless_done, write, write_as, flush_acks, shut_down, close_immediately, tick_budgets,
  tick_metrics, tick_left, tick_closing, tick_idle, tick_work, tick,
}

module _ {C H : Type 0} (control : Controller C) (now : ℕ) where
  -- The times that decide about the end.
  abbrev clocks : Session C H → ℕ × ℕ
  clocks s = (s.closing, s.last_activity)

  flush_acks-clocks : (s : Session C H) → clocks (flush_acks control s) ≡ clocks s
  unfolding flush_acks
  flush_acks-clocks s = ground arith

  budgets-clocks : (t : ℕ) (s : Session C H) → clocks (tick_budgets control now t s) ≡ clocks s
  unfolding tick_budgets
  budgets-clocks t s = refl

  metrics-clocks : (s : Session C H) → clocks (tick_metrics control now s) ≡ clocks s
  unfolding tick_metrics
  metrics-clocks s = refl

  close_ends : (s : Session C H) → (close_immediately control now s).done ≡ true
  unfolding close_immediately shut_down
  close_ends s = ground arith

  close-clocks : (s : Session C H) → clocks (close_immediately control now s) ≡ clocks s
  unfolding close_immediately shut_down write unless_done
  close-clocks s = ground arith

  write_keeps_done :
      (s : Session C H) (b : List ℕ) (reliability : ℕ)
      → s.done ≡ true
      → (write_as control now s b reliability).0.done ≡ true
  unfolding write_as unless_done
  write_keeps_done s b reliability h = ground (arith, h)

  closing_ends :
      (t : ℕ) (s : Session C H)
      → s.closing ≢ 0
      → (s.closing + 5) * second < t
      → (tick_closing control now t s).done ≡ true
  unfolding tick_closing
  closing_ends t s h late = ground (arith, h, late, close_ends (tick_left control now s))

  left-clocks : (s : Session C H) → clocks (tick_left control now s) ≡ clocks s
  unfolding tick_left
  left-clocks s =
      let s' = record s { acks_left = length s.conn.retransmission.unacknowledged } in
      ground (arith, close-clocks s')

  closing-clocks : (t : ℕ) (s : Session C H) → clocks (tick_closing control now t s) ≡ clocks s
  unfolding tick_closing
  closing-clocks t s =
      let s' = tick_left control now s in ground (arith, left-clocks s, close-clocks s')

  idle_keeps_done :
      (t : ℕ) (s : Session C H) → s.done ≡ true → (tick_idle control now t s).done ≡ true
  unfolding tick_idle close_immediately write_as unless_done
  idle_keeps_done t s h = ground (arith, h)

  idle_ends :
      (t : ℕ) (s : Session C H)
      → s.last_activity + 15_000 < t / millisecond
      → (tick_idle control now t s).done ≡ true
  unfolding tick_idle
  idle_ends t s late = ground (arith, late, close_ends s)

  work-clocks : (n t : ℕ) (s : Session C H) → clocks (tick_work control now n t s) ≡ clocks s
  unfolding tick_work
  work-clocks n t s =
      let s1 = if n % 10 == 0 then flush_acks control s else s in
      let s2 = tick_budgets control now t s1 in
      ground (arith, flush_acks-clocks s, budgets-clocks t s1, metrics-clocks s2)

  -- A tick ends the connection if its time is more than five seconds behind that of `Close`, or if it is
  -- one of every fifty and nothing has arrived for more than 15 seconds, whatever the connection has in
  -- flight or waiting.
  pub tick_ends :
      (n t : ℕ) (s : Session C H)
      → ((s.closing ≢ 0) × ((s.closing + 5) * second < t))
        ⊎ ((n % 50 ≡ 0) × (s.last_activity + 15_000 < t / millisecond))
      → (tick control now n t s).done ≡ true
  unfolding tick
  tick_ends n t s h =
      let s4 = tick_work control now n t s in
      let s5 = tick_closing control now t s4 in
      let kept = work-clocks n t s in
      let closing_kept : s4.closing ≡ s.closing = ap (λ p. p.0) kept in
      let activity_kept : s5.last_activity ≡ s.last_activity =
        ap (λ p. p.1) (closing-clocks t s4 ∙ kept) in
      elim h [
        | inl (closing, late) ↦
            let ended =
              closing_ends t s4 (λ z. closing (omega (arith, z, closing_kept)))
                (omega (arith, late, closing_kept)) in
            split_if {A = Session C H} (λ d. d.done ≡ true) (n % 50 == 0)
              (λ e. idle_keeps_done t s5 ended) (λ e. ended)
        | inr (even, late) ↦
            ground (arith, even, idle_ends t s5 (omega (arith, late, activity_kept)))
      ]
