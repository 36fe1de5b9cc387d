-- ===== src/Histogram/Quantiles.antt =====
-- cmd/agent/metrics.go: the loops of Quantile.
use cloudflare_r2_bench.Base.{
  ℕ, zero, suc, ◌+◌, ◌%◌, ◌^◌, ◌≤◌, ◌<◌, ◌≡◌, refl, ap, ◌∙◌, ◌⊎◌, inl, inr, false, leb, ◌==◌,
  Bool-cases, arith,
}
use native.Mathlib.Nat.{le_refl}
use cloudflare_r2_bench.Histogram.{bucket_value}
use cloudflare_r2_bench.Histogram.Snapshots.{Snapshot, bucket_total, find_quantile, quantile}

-- The sum of the first `n` buckets.
unfoldable pub counts_below : ℕ → (ℕ → ℕ) → ℕ
counts_below zero buckets = 0
counts_below (suc n) buckets = counts_below n buckets + buckets n

counts_below_up :
    (n i : ℕ) (buckets : ℕ → ℕ) → counts_below i buckets ≤ counts_below (n + i) buckets
unfolding counts_below
counts_below_up zero i buckets =
    let same : 0 + i ≡ i = omega arith in rw same (le_refl (counts_below i buckets))
counts_below_up (suc n) i buckets =
    let next : suc n + i ≡ suc (n + i) = omega arith in
    rw next (omega (arith, counts_below_up n i buckets))

bucket_total_exact :
    (n : ℕ) (buckets : ℕ → ℕ)
    → counts_below n buckets < 2 ^ 64
    → bucket_total n buckets ≡ counts_below n buckets
unfolding bucket_total counts_below
bucket_total_exact zero buckets h = refl
bucket_total_exact (suc n) buckets h = omega (arith, bucket_total_exact n buckets (omega arith))

-- The bucket in which the counts reach the target.
abbrev pub Reaches : ℕ → (ℕ → ℕ) → ℕ → Type 0
Reaches target buckets i =
    (i < 256)
    × (target ≤ counts_below (suc i) buckets)
    × ((i ≡ 0) ⊎ (counts_below i buckets < target))

module _ (target : ℕ) (buckets : ℕ → ℕ) (room : counts_below 256 buckets < 2 ^ 64)
    (within : target ≤ counts_below 256 buckets) where
  find_quantile_lem :
      (left i cum : ℕ)
      → left + i ≡ 256
      → cum ≡ counts_below i buckets
      → ((i ≡ 0) ⊎ (counts_below i buckets < target))
      → (k : ℕ) × (find_quantile left i cum target buckets ≡ bucket_value k)
        × Reaches target buckets k
  unfolding find_quantile counts_below
  find_quantile_lem zero i cum all at (inl none) = absurd (omega arith)
  find_quantile_lem zero i cum all at (inr short) =
      let is_all : i ≡ 256 = omega arith in
      absurd (omega (arith, ap (λ n. counts_below n buckets) is_all))
  find_quantile_lem (suc left) i cum all at before =
      let top : left + suc i ≡ 256 = omega arith in
      let fits : counts_below (suc i) buckets < 2 ^ 64 =
        omega (arith, rw top at (counts_below_up left (suc i) buckets)) in
      let reached : (cum + buckets i) % 2 ^ 64 ≡ counts_below (suc i) buckets = omega arith in
      elim (Bool-cases (leb target ((cum + buckets i) % 2 ^ 64))) [
        | inl stop ↦ (i, rw stop refl, (omega arith, ground arith, before))
        | inr on ↦
            let later =
              find_quantile_lem left (suc i) ((cum + buckets i) % 2 ^ 64) top reached
                (inr (ground arith)) in
            rw on later
      ]

none_below : (buckets : ℕ → ℕ) → 0 ≡ counts_below 0 buckets
unfolding counts_below
none_below buckets = refl

run-quantile :
    (scaled : ℕ → ℕ) (s : Snapshot)
    → 0 < counts_below 256 s.buckets
    → counts_below 256 s.buckets < 2 ^ 64
    → quantile scaled s ≡ find_quantile 256 0 0 (scaled (counts_below 256 s.buckets)) s.buckets
unfolding quantile
run-quantile scaled s some_counts room =
    let total = bucket_total_exact 256 s.buckets room in
    let full : (counts_below 256 s.buckets == 0) ≡ false = ground arith in rw (total, full) refl

-- `Quantile` of buckets that hold some observations, fewer than 2 ^ 64: with a target of at most all
-- of them, it is the lower bound of the first bucket up to which the target is reached.
pub quantile_lem :
    (scaled : ℕ → ℕ) (s : Snapshot)
    → 0 < counts_below 256 s.buckets
    → counts_below 256 s.buckets < 2 ^ 64
    → scaled (counts_below 256 s.buckets) ≤ counts_below 256 s.buckets
    → (i : ℕ) × (quantile scaled s ≡ bucket_value i)
      × Reaches (scaled (counts_below 256 s.buckets)) s.buckets i
quantile_lem scaled s some_counts room within =
    let found =
      find_quantile_lem (scaled (counts_below 256 s.buckets)) s.buckets room within 256 0 0
        (omega arith) (none_below s.buckets) (inl refl) in
    let (i, at, reaches) = found in (i, run-quantile scaled s some_counts room ∙ at, reaches)
