-- ===== src/Metrics/Ratio.antt =====
-- conn.go: the share of datagrams that were lost within the last second, in percent.
use go_raknet.Prelude.{
  ℕ, ◌+◌, ◌*◌, ◌^◌, ◌≤◌, ◌<◌, length, All, List, [], ◌∷◌, ◌==◌, if◌then◌else◌, arith, split_if,
}
use go_raknet.Congestion.Float64.{Float64}
use go_raknet.Congestion.Rounding.{◌≼◌, IsRounded}
use go_raknet.Metrics.{Metrics}

-- The ten buckets have 32 bits, so that their sum fits into the 64 bits of the code's.
unfoldable pub sum_buckets : List ℕ → ℕ
sum_buckets [] = 0
sum_buckets (n ∷ buckets) = n + sum_buckets buckets

module _ {F : Type 0} ⦃d : Float64 F⦄ where
  unfoldable pub loss_ratio : List ℕ → List ℕ → F
  loss_ratio totals losses =
      let lost = sum_buckets losses in
      let den = sum_buckets totals + lost in
      if den == 0 then d.lit 0 1 else d.mul (d.div (d.of_nat lost) (d.of_nat den)) (d.lit 100 1)

  -- `OutboundLossRatio` and `InboundLossRatio`
  unfoldable pub outbound_loss_ratio : Metrics → F
  outbound_loss_ratio m = loss_ratio m.out_total m.out_lost

  unfoldable pub inbound_loss_ratio : Metrics → F
  inbound_loss_ratio m = loss_ratio m.in_total m.in_lost

-- The ten counters of a window, of 32 bits each.
pub record AreBuckets (buckets : List ℕ) : Type 0 where
  pub at_most_ten : length buckets ≤ 10
  pub fit : All (λ n. n < 2 ^ 32) buckets

sum_buckets-bound :
    (buckets : List ℕ)
    → All (λ n. n < 2 ^ 32) buckets
    → sum_buckets buckets ≤ length buckets * 2 ^ 32
unfolding sum_buckets
sum_buckets-bound [] h = omega arith
sum_buckets-bound (n ∷ buckets) h = omega (arith, h.0, sum_buckets-bound buckets h.1)

sum_buckets-lt : (buckets : List ℕ) → AreBuckets buckets → sum_buckets buckets < 2 ^ 63
sum_buckets-lt buckets h = omega (arith, h.at_most_ten, sum_buckets-bound buckets h.fit)

module _ {F : Type 0} ⦃d : Float64 F⦄ (laws : IsRounded F) where
  open laws use {ratio_nonneg, ratio_le_one, mul_nonneg, mul_le_mul, lit_le}

  loss_ratio_bounds :
      (totals losses : List ℕ)
      → AreBuckets totals
      → AreBuckets losses
      → (d.lit 0 1 ≼ loss_ratio totals losses) × (loss_ratio totals losses ≼ d.lit 100 1)
  unfolding loss_ratio
  loss_ratio_bounds totals losses t l =
      let lost = sum_buckets losses in
      let den = sum_buckets totals + lost in
      let hundred = lit_le 0 1 100 1 (omega arith) (omega arith) (omega arith) in
      let most = lit_le 100 1 100 1 (omega arith) (omega arith) (omega arith) in
      split_if (λ r. (d.lit 0 1 ≼ r) × (r ≼ d.lit 100 1)) (den == 0)
        (λ e. (lit_le 0 1 0 1 (omega arith) (omega arith) (omega arith), hundred))
        (λ e.
          let some : 0 < den = ground (arith, e) in
          let range : den < 2 ^ 64 =
            omega (arith, sum_buckets-lt totals t, sum_buckets-lt losses l) in
          let least = ratio_nonneg lost den some range in
          let one = ratio_le_one lost den some (omega arith) range in
          (
            mul_nonneg _ _ 1 100 (omega arith) (omega arith) least one hundred most,
            mul_le_mul _ _ 1 100 (omega arith) (omega arith) least one hundred most (omega arith),
          ))

  -- Both loss ratios are at least 0 and at most 100, whatever the buckets of 32 bits count, at most ten of a
  -- kind.
  pub loss_ratios_bounds :
      (m : Metrics)
      → AreBuckets m.out_total
      → AreBuckets m.out_lost
      → AreBuckets m.in_total
      → AreBuckets m.in_lost
      → ((d.lit 0 1 ≼ outbound_loss_ratio m) × (outbound_loss_ratio m ≼ d.lit 100 1))
        × ((d.lit 0 1 ≼ inbound_loss_ratio m) × (inbound_loss_ratio m ≼ d.lit 100 1))
  unfolding outbound_loss_ratio inbound_loss_ratio
  loss_ratios_bounds m a b c e =
      (loss_ratio_bounds m.out_total m.out_lost a b, loss_ratio_bounds m.in_total m.in_lost c e)
