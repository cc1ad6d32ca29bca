-- ===== src/Congestion/Udt/Kept.antt =====
-- congestion/udt.go: the bounds of the controller, kept by each change of its rate.
use go_raknet.Prelude.{
  ℕ, ◌≤◌, ◌<◌, ◌≡◌, refl, sym, subst, Bool, true, false, arith, split_if, ◌==◌, ltb, ltb→lt, List,
  [], ◌∷◌, ◌++◌, length, length-append, length-drop,
}
use go_raknet.Congestion.{microseconds}
use go_raknet.Congestion.Float64.{Float64}
use go_raknet.Congestion.Rounding.{◌≼◌, IsRounded}
use go_raknet.Congestion.Udt.{Udt, new_udt}
use go_raknet.Congestion.Udt.Rate as Rate
use go_raknet.Congestion.Udt.Pace.{
  IsPace, slower_positive, too_slow, not_too_slow, faster-IsPace, estimated_as_positive,
  first_spacing,
}

module _ {F : Type 0} ⦃d : Float64 F⦄ where
  open d use {of_nat, lit, div, lt, le}

  -- The fields that the calls keep in bounds.
  pub record IsBounded (mtu : ℕ) (threshold cwnd snd : F) (target : ℕ) (pings : List F)
      : Type 0 where
    pub small : mtu ≤ 1500
    pub limit : threshold ≡ lit 512 1
    pub window_least : lit 2 1 ≼ cwnd
    pub window_most : cwnd ≼ lit 512 1
    pub spaced : lt (lit 0 1) snd ≡ true
    pub not_stuck : snd ≼ lit 500 1
    pub wanted : target ≡ 33
    pub samples : length pings ≤ 33

  pub record IsSane (c : Udt F) : Type 0 where
    pub bounded :
        IsBounded c.mtu_bytes c.cwnd_max_threshold c.cwnd_datagrams c.snd_micros_per_byte
          c.pings_last_interval_target_count c.pings_last_interval

module _ {F : Type 0} ⦃d : Float64 F⦄ (laws : IsRounded F) where
  open d use {of_nat, lit, neg, mul, div, lt, le}
  open laws use {
    le_ends, le_trans, lt_of_not_le, le_of_not_lt, le_of_lt, lit_le, lit_pos, ratio_nonneg,
  }

  pub new_udt-IsSane : (mtu : ℕ) → mtu ≤ 1500 → IsSane {F = F} (new_udt mtu)
  unfolding new_udt
  new_udt-IsSane mtu h = record {
    bounded = record {
      small = h;
      limit = refl;
      window_least = lit_le 2 1 2 1 (omega arith) (omega arith) (omega arith);
      window_most = lit_le 2 1 512 1 (omega arith) (omega arith) (omega arith);
      spaced = lit_pos 10_000 36 (omega arith) (omega arith) (omega arith);
      not_stuck = lit_le 10_000 36 500 1 (omega arith) (omega arith) (omega arith);
      wanted = refl;
      samples = omega arith;
    };
  }

  at_pace :
      (c : Udt F) (s : F) → IsSane c → IsPace laws s → IsSane (record c { snd_micros_per_byte = s })
  at_pace c s h p = record {
    bounded = record {
      small = h.bounded.small;
      limit = h.bounded.limit;
      window_least = h.bounded.window_least;
      window_most = h.bounded.window_most;
      spaced = p.0;
      not_stuck = p.1;
      wanted = h.bounded.wanted;
      samples = h.bounded.samples;
    };
  }

  cap_min_snd-IsSane :
      (c : Udt F) (s : F)
      → IsSane c
      → lt (lit 0 1) s ≡ true
      → IsSane (Rate.cap_min_snd (record c { snd_micros_per_byte = s }))
  unfolding Rate.cap_min_snd
  cap_min_snd-IsSane c s h p =
      split_if IsSane (lt (lit 500 1) s) (λ e. at_pace c (lit 500 1) h (too_slow laws e))
        (λ e. at_pace c s h (not_too_slow laws s p e))

  slower-IsSane : (c : Udt F) → IsSane c → IsSane (Rate.increase_time_between_sends c)
  unfolding Rate.increase_time_between_sends
  slower-IsSane c h =
      cap_min_snd-IsSane c _ h (slower_positive laws _ (h.bounded.spaced, h.bounded.not_stuck))

  faster-IsSane : (c : Udt F) → IsSane c → IsSane (Rate.decrease_time_between_sends c)
  unfolding Rate.decrease_time_between_sends
  faster-IsSane c h = at_pace c _ h (faster-IsPace laws _ (h.bounded.spaced, h.bounded.not_stuck))

  end_slow_start-IsSane : (c : Udt F) → IsSane c → IsSane (Rate.end_slow_start_with_estimated_as c)
  unfolding Rate.end_slow_start_with_estimated_as
  end_slow_start-IsSane c h =
      split_if IsSane c.is_in_slow_start
        (λ e. record {
          bounded =
              (cap_min_snd-IsSane c _ h (
                first_spacing laws _
                  (estimated_as_positive laws c h.bounded.window_most h.bounded.small))).bounded;
        })
        (λ e. h)

  pub on_nak-IsSane : (c : Udt F) → IsSane c → IsSane (Rate.on_nak c)
  unfolding Rate.on_nak
  on_nak-IsSane c h =
      split_if IsSane c.is_in_slow_start (λ e. end_slow_start-IsSane c h)
        (λ e.
          split_if IsSane c.had_packetloss_this_block (λ e'. h)
            (λ e'. record { bounded = (slower-IsSane c h).bounded }))

  pub on_resend-IsSane : (c : Udt F) → IsSane c → IsSane (Rate.on_resend c)
  unfolding Rate.on_resend
  on_resend-IsSane c h =
      split_if IsSane c.is_in_slow_start (λ e. end_slow_start-IsSane c h)
        (λ e.
          split_if IsSane c.had_packetloss_this_block (λ e'. h)
            (λ e'. record { bounded = (slower-IsSane c h).bounded }))

  decide-IsSane :
      (rtt : ℕ) (slope average : F) (c : Udt F)
      → IsSane c
      → IsSane (Rate.decide rtt slope average c)
  unfolding Rate.decide
  decide-IsSane rtt slope average c h =
      split_if IsSane c.had_packetloss_this_block (λ e. h)
        (λ e.
          split_if IsSane (lt slope (mul (neg (lit 10 100)) average)) (λ e. h)
            (λ e.
              split_if IsSane (lt (mul (lit 10 100) average) slope) (λ e. slower-IsSane c h)
                (λ e.
                  faster-IsSane (record c { last_rtt_on_increase_send_rate = rtt })
                    (record { bounded = h.bounded }))))

  -- With other samples.
  with_pings :
      (c : Udt F) (pings : List F)
      → IsSane c
      → length pings ≤ 33
      → IsSane (record c { pings_last_interval = pings })
  with_pings c pings h k = record {
    bounded = record {
      small = h.bounded.small;
      limit = h.bounded.limit;
      window_least = h.bounded.window_least;
      window_most = h.bounded.window_most;
      spaced = h.bounded.spaced;
      not_stuck = h.bounded.not_stuck;
      wanted = h.bounded.wanted;
      samples = k;
    };
  }

  end_block-IsSane :
      (rtt : ℕ) (pings : List F) (c : Udt F) → IsSane c → IsSane (Rate.end_block rtt pings c)
  unfolding Rate.end_block
  end_block-IsSane rtt [] c h = h
  end_block-IsSane rtt (x ∷ xs) c h = record {
    bounded = (with_pings _ [] (decide-IsSane rtt _ _ c h) (omega arith)).bounded;
  }

  length-add_ping : (rtt : ℕ) (c : Udt F) → IsSane c → length (Rate.add_ping rtt c) ≤ 33
  unfolding Rate.add_ping
  length-add_ping rtt c h = ground (
    arith,
    h.bounded.samples,
    h.bounded.wanted,
    length-append c.pings_last_interval (of_nat (microseconds rtt) ∷ []),
    length-drop 1 (c.pings_last_interval ++ (of_nat (microseconds rtt) ∷ [])),
  )

  pub per_syn-IsSane :
      (rtt : ℕ) (continuous : Bool) (seq : ℕ) (c : Udt F)
      → IsSane c
      → IsSane (Rate.update_window_size_and_ack_on_ack_per_syn rtt continuous seq c)
  unfolding Rate.update_window_size_and_ack_on_ack_per_syn
  per_syn-IsSane rtt continuous seq c h =
      let added = with_pings c _ h (length-add_ping rtt c h) in
      split_if IsSane continuous
        (λ e.
          split_if IsSane
            (Rate.is_block_over seq (record c { pings_last_interval = Rate.add_ping rtt c }))
            (λ e. end_block-IsSane rtt _ _ added) (λ e. added))
        (λ e. record { bounded = (with_pings c [] h (omega arith)).bounded })

  -- The window that slow start grows to.
  with_window :
      (c : Udt F) (w : F)
      → IsSane c
      → lit 2 1 ≼ w
      → w ≼ lit 512 1
      → IsSane (record c { cwnd_datagrams = w })
  with_window c w h least most = record {
    bounded = record {
      small = h.bounded.small;
      limit = h.bounded.limit;
      window_least = least;
      window_most = most;
      spaced = h.bounded.spaced;
      not_stuck = h.bounded.not_stuck;
      wanted = h.bounded.wanted;
      samples = h.bounded.samples;
    };
  }

  pub update_rtt-IsSane : (rtt : ℕ) (c : Udt F) → IsSane c → IsSane (Rate.update_rtt rtt c)
  unfolding Rate.update_rtt
  update_rtt-IsSane rtt c h =
      split_if IsSane (rtt == 0) (λ e. h) (λ e. record { bounded = h.bounded })

  window-least : (total mtu : ℕ) → mtu ≤ 1500 → 0 < mtu → lit 2 1 ≼ Rate.acked_window total mtu
  unfolding Rate.acked_window
  window-least total mtu small h =
      let low = (le_ends _ _ (ratio_nonneg total mtu h (omega arith))).1 in
      let two = lit_le 2 1 2 1 (omega arith) (omega arith) (omega arith) in
      split_if (λ w. lit 2 1 ≼ w) (lt (div (of_nat total) (of_nat mtu)) (lit 2 1)) (λ e. two)
        (λ e. le_of_not_lt _ _ low two e)

  pub grow_window-IsSane : (total : ℕ) (c : Udt F) → IsSane c → IsSane (Rate.grow_window total c)
  unfolding Rate.grow_window
  grow_window-IsSane total c h =
      let w = Rate.acked_window total c.mtu_bytes in
      split_if IsSane (ltb 0 c.mtu_bytes)
        (λ p.
          let least = window-least total c.mtu_bytes h.bounded.small (ltb→lt _ _ p) in
          split_if IsSane (le c.cwnd_max_threshold w)
            (λ e. at_most (end_slow_start-IsSane c h) h.bounded.limit)
            (λ e. with_window c w h least (below least h.bounded.limit e)))
        (λ p. h)
    where
      at_most :
          {c' : Udt F} {m : F}
          → IsSane c'
          → m ≡ lit 512 1
          → IsSane (record c' { cwnd_datagrams = m })
      at_most {c'} h' e =
          subst (λ m. IsSane (record c' { cwnd_datagrams = m })) (sym e)
            (with_window c' (lit 512 1) h'
              (lit_le 2 1 512 1 (omega arith) (omega arith) (omega arith))
              (lit_le 512 1 512 1 (omega arith) (omega arith) (omega arith)))

      below : {m w : F} → lit 2 1 ≼ w → m ≡ lit 512 1 → le m w ≡ false → w ≼ lit 512 1
      below {w} least e f = le_of_lt _ _ (
          lt_of_not_le _ _ (lit_le 512 1 512 1 (omega arith) (omega arith) (omega arith))
            (le_ends _ _ least).1 (subst (λ m. le m w ≡ false) e f))
