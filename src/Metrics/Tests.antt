-- ===== src/Metrics/Tests.antt =====
-- conn.go: the loss metrics at a concrete run.
use go_raknet.Prelude.{arith, ℕ, ◌*◌, ◌≡◌, refl, List, [], ◌∷◌}
use go_raknet.ResendMap.{second}
use go_raknet.Congestion.Rounding.{◌≼◌}
use go_raknet.Congestion.Micros.{micros, micros-IsRounded}
use go_raknet.Metrics.{Metrics, new_metrics, mark_loop}
use go_raknet.Metrics.Ratio.{
  sum_buckets, loss_ratio, outbound_loss_ratio, inbound_loss_ratio, loss_ratios_bounds,
}
use go_raknet.Metrics.Lost.{mark_loop_twice}

-- Number 7 was counted two seconds ago, number 8 just now.
abbrev counted : List (ℕ × ℕ)
counted = (7, 1 * second) ∷ (8, 3 * second) ∷ []

marks_once :
    let r = (mark_loop (3 * second) (7 ∷ 8 ∷ 9 ∷ []) counted).0 in
    mark_loop (3 * second) (7 ∷ 8 ∷ 9 ∷ []) r ≡ (r, 0)
marks_once = mark_loop_twice (3 * second) (7 ∷ 8 ∷ 9 ∷ []) counted

-- Ten datagrams were sent, and all of them were lost: the ratio is 50.
abbrev all_lost : Metrics
all_lost = record new_metrics {
  out_total = 10 ∷ 0 ∷ 0 ∷ 0 ∷ 0 ∷ 0 ∷ 0 ∷ 0 ∷ 0 ∷ 0 ∷ [];
  out_lost = 4 ∷ 6 ∷ 0 ∷ 0 ∷ 0 ∷ 0 ∷ 0 ∷ 0 ∷ 0 ∷ 0 ∷ [];
}

half_of_all : outbound_loss_ratio {F = ℕ} all_lost ≡ 50_000_000
unfolding outbound_loss_ratio loss_ratio sum_buckets
half_of_all = refl

loss_ratios_bounds_example :
    ((micros.lit 0 1 ≼ outbound_loss_ratio all_lost)
      × (outbound_loss_ratio all_lost ≼ micros.lit 100 1))
    × ((micros.lit 0 1 ≼ inbound_loss_ratio all_lost)
        × (inbound_loss_ratio all_lost ≼ micros.lit 100 1))
unfolding new_metrics
loss_ratios_bounds_example =
    loss_ratios_bounds micros-IsRounded all_lost
      (record {
        at_most_ten = omega arith;
        fit = (
          omega arith,
          (
            omega arith,
            (
              omega arith,
              (
                omega arith,
                (
                  omega arith,
                  (omega arith, (omega arith, (omega arith, (omega arith, (omega arith, tt))))),
                ),
              ),
            ),
          ),
        );
      })
      (record {
        at_most_ten = omega arith;
        fit = (
          omega arith,
          (
            omega arith,
            (
              omega arith,
              (
                omega arith,
                (
                  omega arith,
                  (omega arith, (omega arith, (omega arith, (omega arith, (omega arith, tt))))),
                ),
              ),
            ),
          ),
        );
      })
      (record {
        at_most_ten = omega arith;
        fit = (
          omega arith,
          (
            omega arith,
            (
              omega arith,
              (
                omega arith,
                (
                  omega arith,
                  (omega arith, (omega arith, (omega arith, (omega arith, (omega arith, tt))))),
                ),
              ),
            ),
          ),
        );
      })
      (record {
        at_most_ten = omega arith;
        fit = (
          omega arith,
          (
            omega arith,
            (
              omega arith,
              (
                omega arith,
                (
                  omega arith,
                  (omega arith, (omega arith, (omega arith, (omega arith, (omega arith, tt))))),
                ),
              ),
            ),
          ),
        );
      })
