-- ===== src/Metrics.antt =====
-- conn.go: the loss metrics of a connection, in ten buckets of 100 ms each. Times are numbers of
-- nanoseconds.
pub mod Lost
pub mod Ratio
mod Tests
use go_raknet.Prelude.{
  ℕ, ◌+◌, ◌-◌, ◌%◌, ◌^◌, List, [], ◌∷◌, Bool, true, false, none, some, ltb, ◌==◌, ◌&&◌,
  if◌then◌else◌, set, get_or, replicate,
}
use go_raknet.Prelude.Dict.{lookup, insert}
use go_raknet.ResendMap.{second}

abbrev pub loss_window_buckets : ℕ
loss_window_buckets = 10

pub record Metrics : Type 0 where
  pub bucket : ℕ
  pub out_total : List ℕ
  pub out_lost : List ℕ
  pub in_total : List ℕ
  pub in_lost : List ℕ
  pub lost_out_recent : List (ℕ × ℕ)
  pub lost_in_recent : List (ℕ × ℕ)

abbrev pub no_losses : List ℕ
no_losses = replicate loss_window_buckets 0

unfoldable pub new_metrics : Metrics
new_metrics = record {
  bucket = 0;
  out_total = no_losses;
  out_lost = no_losses;
  in_total = no_losses;
  in_lost = no_losses;
  lost_out_recent = [];
  lost_in_recent = [];
}

-- `buckets[i] += n` on uint32.
unfoldable pub bump : List ℕ → ℕ → ℕ → List ℕ
bump buckets i n = set buckets i ((get_or buckets i 0 + n) % 2 ^ 32)

-- The two callers count one datagram.
unfoldable pub inc_out_total : Metrics → ℕ → Metrics
inc_out_total m n = if n == 0 then m else record m { out_total = bump m.out_total m.bucket n }

unfoldable pub inc_in_total : Metrics → ℕ → Metrics
inc_in_total m n = if n == 0 then m else record m { in_total = bump m.in_total m.bucket n }

-- Nothing calls these two.
unfoldable pub inc_out_lost : Metrics → ℕ → Metrics
inc_out_lost m n = if n == 0 then m else record m { out_lost = bump m.out_lost m.bucket n }

unfoldable pub inc_in_lost : Metrics → ℕ → Metrics
inc_in_lost m n = if n == 0 then m else record m { in_lost = bump m.in_lost m.bucket n }

-- Whether a sequence number has been counted within the last second.
unfoldable pub is_recent : ℕ → List (ℕ × ℕ) → ℕ → Bool
is_recent now recent s = elim (lookup s recent) [ none ↦ false | some ts ↦ ltb (now - ts) second ]

-- The loop of both marking functions: the recent losses and the number of those that are new.
unfoldable pub mark_loop : ℕ → List ℕ → List (ℕ × ℕ) → List (ℕ × ℕ) × ℕ
mark_loop now [] recent = (recent, 0)
mark_loop now (s ∷ seqs) recent =
    let counted = is_recent now recent s in
    let (r, n) = mark_loop now seqs (if counted then recent else insert s now recent) in
    (r, if counted then n else n + 1)

unfoldable pub mark_out_lost : ℕ → Metrics → List ℕ → Metrics
mark_out_lost now m seqs =
    let (recent, n) = mark_loop now seqs m.lost_out_recent in
    record m { lost_out_recent = recent; out_lost = bump m.out_lost m.bucket n }

unfoldable pub mark_in_lost : ℕ → Metrics → List ℕ → Metrics
mark_in_lost now m seqs =
    let (recent, n) = mark_loop now seqs m.lost_in_recent in
    record m { lost_in_recent = recent; in_lost = bump m.in_lost m.bucket n }

-- The entries that are not older than the cutoff.
unfoldable pub prune : ℕ → List (ℕ × ℕ) → List (ℕ × ℕ)
prune cutoff [] = []
prune cutoff ((s, ts) ∷ recent) =
    let rest = prune cutoff recent in if ltb ts cutoff then rest else ((s, ts) ∷ rest)

-- What `tick` does every tenth time.
unfoldable pub rotate : ℕ → Metrics → Metrics
rotate now m =
    let bucket = (m.bucket + 1) % loss_window_buckets in
    let cutoff = now - second in
    record m {
      bucket = bucket;
      out_total = set m.out_total bucket 0;
      out_lost = set m.out_lost bucket 0;
      in_total = set m.in_total bucket 0;
      in_lost = set m.in_lost bucket 0;
      lost_out_recent = prune cutoff m.lost_out_recent;
      lost_in_recent = prune cutoff m.lost_in_recent;
    }
