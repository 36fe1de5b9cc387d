-- ===== src/Histogram/Bounds.antt =====
-- cmd/agent/metrics.go: the bounds of bucketIndex against bucketValue, and the order of the buckets.
use cloudflare_r2_bench.Base.{
  ℕ, zero, suc, ◌+◌, ◌-◌, ◌*◌, ◌^◌, ◌≤◌, ◌<◌, ◌≡◌, refl, ◌∙◌, Bool, true, ◌&&◌, inl, inr, ◌⊎◌,
  Bool-cases, ◌==◌, ==_iff, ltb→lt, lt→ltb, ltb, leb, leb→le, &&-eq-true, all_below, all_below-true,
  arith,
}
use native.Mathlib.Nat.{mul-le-mul_right, le_refl}
use cloudflare_r2_bench.Base.Shifts.{power_le}
use cloudflare_r2_bench.Histogram.{bucket_index, bucket_value}
use cloudflare_r2_bench.Histogram.Positions.{At, capped, position, value_at, value_after}

-- The bucket of a latency, its lower bound, and how far below the latency that is.
abbrev pub Falls : ℕ → Type 0
Falls v =
    (bucket_index v < 256)
    × (bucket_value (bucket_index v) ≤ v)
    × (v < bucket_value (suc (bucket_index v)))
    × (8 * (v - bucket_value (bucket_index v)) ≤ bucket_value (bucket_index v))

octave_small : (v k q : ℕ) → v < 2 ^ 34 → At v k q → k < 31
octave_small v k q small (lo, hi, below, above) = elim (Bool-cases (ltb k 31)) [
  | inl less ↦ ground arith
  | inr more ↦
      let far = power_le 31 k (ground arith) in
      let wide = mul-le-mul_right (2 ^ k) lo in absurd (omega arith)
]

octave_large : (v k q : ℕ) → 2 ^ 34 ≤ v → At v k q → 31 ≤ k
octave_large v k q large (lo, hi, below, above) = elim (Bool-cases (ltb k 31)) [
  | inr more ↦ ground arith
  | inl less ↦
      let near = power_le k 30 (ground arith) in
      let narrow = mul-le-mul_right (2 ^ k) (hi_le q hi) in absurd (omega arith)
]
  where
    hi_le : (q : ℕ) → q < 16 → q ≤ 15
    hi_le q hi = omega arith

capped_below : (i : ℕ) → i < 256 → capped i ≡ i
capped_below i h = ground arith

capped_above : (i : ℕ) → 256 ≤ i → capped i ≡ 255
capped_above i h = ground arith

index_linear : (v : ℕ) → v < 8 → bucket_index v ≡ v
unfolding bucket_index
index_linear v small = let linear = lt→ltb v 8 small in rw linear refl

value_linear : (i : ℕ) → i ≤ 8 → bucket_value i ≡ i
unfolding bucket_value
value_linear i small = elim (Bool-cases (ltb i 8)) [
  | inl linear ↦ rw linear refl
  | inr eighth ↦ let is_eight : i ≡ 8 = ground arith in rw is_eight refl
]

Falls-linear : (v : ℕ) → v < 8 → Falls v
Falls-linear v small =
    let value = value_linear v (omega arith) in
    let after = value_linear (suc v) small in
    rw (index_linear v small, value, after) (omega arith, omega arith, omega arith, omega arith)

Falls-At : (v k q : ℕ) → k < 31 → At v k q → bucket_index v ≡ k * 8 + q → Falls v
Falls-At v k q small (lo, hi, below, above) index =
    let value = value_at k q (omega arith) lo hi in
    let after = value_after k q (omega arith) lo hi in
    let wide = mul-le-mul_right (2 ^ k) lo in
    rw (index, value, after) (omega arith, below, above, omega arith)

-- A latency below 2 ^ 34 microseconds is counted in one of the 256 buckets: it is at least the lower
-- bound of that bucket, below that of the next one, and exceeds the bound by at most an eighth of the
-- bound. A longer latency, up to a word, is counted in the last bucket.
pub bucket_index_bounds :
    (v : ℕ) → v < 2 ^ 64 → ((v < 2 ^ 34) × Falls v) ⊎ ((2 ^ 34 ≤ v) × (bucket_index v ≡ 255))
bucket_index_bounds v word = elim (Bool-cases (ltb v 8)) [
  | inl linear ↦ inl (ground arith, Falls-linear v (ground arith))
  | inr more ↦
      let (k, q, place, index) = position v (ground arith) word in
      elim (Bool-cases (ltb v (2 ^ 34))) [
        | inl fits ↦
            let small : v < 2 ^ 34 = ltb→lt v (2 ^ 34) fits in
            let k_small = octave_small v k q small place in
            inl (
              small,
              Falls-At v k q k_small place
                  (index ∙ capped_below (k * 8 + q) (omega (arith, place.1))),
            )
        | inr beyond ↦
            let large : 2 ^ 34 ≤ v = ground arith in
            let k_large = octave_large v k q large place in
            inr (large, index ∙ capped_above (k * 8 + q) (omega (arith, place.0)))
      ]
]

-- Over the 256 buckets, by evaluation.
values_of : ℕ → Bool
values_of i = (bucket_index (bucket_value i) == i) && leb (bucket_value i) (bucket_value (suc i))

values_checked : all_below 256 values_of ≡ true
unfolding all_below values_of bucket_index bucket_value
values_checked = refl

value_facts :
    (i : ℕ)
    → i < 256
    → (bucket_index (bucket_value i) ≡ i) × (bucket_value i ≤ bucket_value (suc i))
unfolding values_of
value_facts i h =
    let (back, up) =
      &&-eq-true (bucket_index (bucket_value i) == i) (leb (bucket_value i) (bucket_value (suc i)))
        (all_below-true 256 values_of i values_checked h) in
    (
      (==_iff (bucket_index (bucket_value i)) i).0 back,
      leb→le (bucket_value i) (bucket_value (suc i)) up,
    )

-- The lower bound of each of the 256 buckets is counted in that bucket.
bucket_index-bucket_value : (i : ℕ) → i < 256 → bucket_index (bucket_value i) ≡ i
bucket_index-bucket_value i h = (value_facts i h).0

value_up : (n i : ℕ) → i + n ≤ 256 → bucket_value i ≤ bucket_value (i + n)
value_up zero i h = let same : i + 0 ≡ i = omega arith in rw same (le_refl (bucket_value i))
value_up (suc n) i h =
    let one = (value_facts (i + n) (omega arith)).1 in
    let next : suc (i + n) ≡ i + suc n = omega arith in
    omega (arith, value_up n i (omega arith), rw next at one)

value_mono : (i j : ℕ) → i ≤ j → j ≤ 256 → bucket_value i ≤ bucket_value j
value_mono i j le top =
    let reach : i + (j - i) ≡ j = omega arith in rw reach at (value_up (j - i) i (omega arith))

index_below : (v : ℕ) → v < 2 ^ 64 → bucket_index v ≤ 255
index_below v word = elim (bucket_index_bounds v word) [
  | inl (_, falls) ↦ omega (arith, falls.0)
  | inr (_, last) ↦ omega (arith, last)
]

-- Of two latencies that fit a word, the longer one is never counted in an earlier bucket.
bucket_index_mono : (v w : ℕ) → v ≤ w → w < 2 ^ 64 → bucket_index v ≤ bucket_index w
bucket_index_mono v w le word = elim (bucket_index_bounds w word) [
  | inr (_, last) ↦ omega (arith, last, index_below v (omega arith))
  | inl (small, (low, _, above, _)) ↦ elim (bucket_index_bounds v (omega arith)) [
    | inr (large, _) ↦ absurd (omega arith)
    | inl (_, (low', below, _, _)) ↦ elim (Bool-cases (leb (bucket_index v) (bucket_index w))) [
      | inl fine ↦ leb→le (bucket_index v) (bucket_index w) fine
      | inr wrong ↦
          let past : suc (bucket_index w) ≤ bucket_index v = ground arith in
          absurd
            (omega (arith, value_mono (suc (bucket_index w)) (bucket_index v) past (omega arith)))
    ]
  ]
]
