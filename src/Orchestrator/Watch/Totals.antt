-- ===== src/Orchestrator/Watch/Totals.antt =====
-- The response of `watch_job` loses and doubles no bytes, and its rows are in order.
use cloudflare_r2_bench.Base.{
  In, ℕ, suc, ◌+◌, ◌*◌, ◌/◌, ◌≡◌, ◌<◌, ◌≤◌, refl, sym, ap, ◌∙◌, Bool, true, List, [], ◌∷◌, Text,
  text_eq, text_eq_refl, ◌==◌, count_rows, where_rows, All, map, length, Bool-cases, inl, inr,
  arith, zero,
}
use cloudflare_r2_bench.Base.Totals.{total, total_partition, any_row-In}
use mathlib.Core.Bool.{xor}
use cloudflare_r2_bench.Js.Number.{Number, whole, to_count}
use cloudflare_r2_bench.Js.Arith.{add_number, sum_numbers}
use cloudflare_r2_bench.Db.{Db, Metric}
use cloudflare_r2_bench.Orchestrator.{limit}
use cloudflare_r2_bench.Orchestrator.Watch.{
  minute_of, Sample, SpawnMetric, same_group, leaders, sample_of, samples, minutes, metric_at,
  job_metrics,
}
use cloudflare_r2_bench.Orchestrator.Watch.Groups.{in_group, count-leaders}
use cloudflare_r2_bench.Orchestrator.Watch.Minutes.{IsFalling, minutes-IsFalling, minutes_once}

abbrev pub IsWhole : Number → Type 0
IsWhole x = x ≡ whole (to_count x)

pub whole-IsWhole : (n : ℕ) → IsWhole (whole n)
whole-IsWhole n = let e : n / 1 ≡ n = omega arith in rw e refl

add_number-whole : (a b : ℕ) → add_number (whole a) (whole b) ≡ whole (a + b)
unfolding add_number xor
add_number-whole a b = let e : a * 1 + b * 1 ≡ a + b = omega arith in rw e refl

-- The sum of whole numbers is that of their counts.
pub sum_numbers-whole :
    {A : Type 0} (g : A → Number) (xs : List A)
    → All (λ a. IsWhole (g a)) xs
    → sum_numbers (map g xs) ≡ whole (total (λ a. to_count (g a)) xs)
unfolding sum_numbers
sum_numbers-whole g [] h = refl
sum_numbers-whole g (x ∷ xs) h =
    let n : ℕ = to_count (g x) in
    ap (λ (t : Number). add_number t (sum_numbers (map g xs))) h.0
    ∙ ap (add_number (whole n)) (sum_numbers-whole g xs h.1)
    ∙ add_number-whole n (total (λ a. to_count (g a)) xs)

All-where_rows :
    {A : Type 0} (P : A → Type 0) (p : A → Bool) (xs : List A) → All P xs → All P (where_rows p xs)
All-where_rows P p [] h = tt
All-where_rows P p (x ∷ xs) h = elim (Bool-cases (p x)) [
  | inl hit ↦ rw hit (h.0, All-where_rows P p xs h.1)
  | inr miss ↦ rw miss (All-where_rows P p xs h.1)
]

total-ext :
    {A : Type 0} (f g : A → ℕ) (xs : List A) → ((x : A) → f x ≡ g x) → total f xs ≡ total g xs
total-ext f g [] h = refl
total-ext f g (x ∷ xs) h = omega (arith, h x, total-ext f g xs h)

total-map :
    {A B : Type 0} (f : B → ℕ) (g : A → B) (xs : List A)
    → total f (map g xs) ≡ total (λ a. f (g a)) xs
total-map f g [] = refl
total-map f g (x ∷ xs) = omega (arith, total-map f g xs)

-- The whole number that a sum of whole numbers is, as a count.
sum_count :
    {A : Type 0} (g : A → Number) (xs : List A)
    → All (λ a. IsWhole (g a)) xs
    → to_count (sum_numbers (map g xs)) ≡ total (λ a. to_count (g a)) xs
sum_count g xs h = ap to_count (sum_numbers-whole g xs h) ∙ omega arith

abbrev metric_bytes : Metric → ℕ
metric_bytes m = to_count m.bytes

abbrev sample_bytes : Sample → ℕ
sample_bytes s = to_count s.bytes

module _ (rows : List Metric) (all_whole : All (λ (m : Metric). IsWhole m.bytes) rows) where
  group-IsWhole :
      (m : Metric) → All (λ (x : Metric). IsWhole x.bytes) (where_rows (same_group m) rows)
  group-IsWhole m = All-where_rows (λ (x : Metric). IsWhole x.bytes) (same_group m) rows all_whole

  bytes-sample_of :
      (m : Metric)
      → (sample_of rows m).bytes ≡ whole (total metric_bytes (where_rows (same_group m) rows))
  unfolding sample_of
  bytes-sample_of m =
      sum_numbers-whole (λ (x : Metric). x.bytes) (where_rows (same_group m) rows) (group-IsWhole m)

  one_leader : (x : Metric) → In x rows → count_rows (λ l. same_group l x) (leaders rows) ≡ 1
  one_leader x i =
      count-leaders x.spawn_id (minute_of x.created_at) rows
      ∙ rw (any_row-In (in_group x.spawn_id (minute_of x.created_at)) x rows i (itself x)) refl
    where
      itself : (x : Metric) → in_group x.spawn_id (minute_of x.created_at) x ≡ true
      itself x = rw (text_eq_refl x.spawn_id) (ground arith)

  total-samples : total sample_bytes (map (sample_of rows) (leaders rows)) ≡ total metric_bytes rows
  total-samples =
      total-map sample_bytes (sample_of rows) (leaders rows)
      ∙ total-ext (λ m. sample_bytes (sample_of rows m))
          (λ m. total metric_bytes (where_rows (same_group m) rows)) (leaders rows)
          (λ m. ap to_count (bytes-sample_of m) ∙ omega arith)
      ∙ total_partition same_group metric_bytes (leaders rows) rows one_leader

  samples-IsWhole :
      (ls : List Metric) → All (λ (s : Sample). IsWhole s.bytes) (map (sample_of rows) ls)
  samples-IsWhole [] = tt
  samples-IsWhole (m ∷ ls) =
      let n : ℕ = total metric_bytes (where_rows (same_group m) rows) in
      (rw (bytes-sample_of m) (whole-IsWhole n), samples-IsWhole ls)

module _ (all : List Sample) (all_whole : All (λ (s : Sample). IsWhole s.bytes) all) where
  bytes-metric_at :
      (t : ℕ)
      → (metric_at all t).bytes
        ≡ whole (total sample_bytes (where_rows (λ (s : Sample). s.minute == t) all))
  unfolding metric_at
  bytes-metric_at t =
      sum_numbers-whole (λ (s : Sample). s.bytes) (where_rows (λ (s : Sample). s.minute == t) all)
        (All-where_rows (λ (s : Sample). IsWhole s.bytes) (λ (s : Sample). s.minute == t) all
          all_whole)

  metrics-IsWhole :
      (ts : List ℕ) → All (λ (r : SpawnMetric). IsWhole r.bytes) (map (metric_at all) ts)
  metrics-IsWhole [] = tt
  metrics-IsWhole (t ∷ ts) =
      let n : ℕ = total sample_bytes (where_rows (λ (s : Sample). s.minute == t) all) in
      (rw (bytes-metric_at t) (whole-IsWhole n), metrics-IsWhole ts)

  total-metrics :
      sum_numbers (map (λ (r : SpawnMetric). r.bytes) (map (metric_at all) (minutes all)))
      ≡ whole (total sample_bytes all)
  total-metrics =
      sum_numbers-whole (λ (r : SpawnMetric). r.bytes) (map (metric_at all) (minutes all))
        (metrics-IsWhole (minutes all))
      ∙ ap whole (
          total-map (λ (r : SpawnMetric). to_count r.bytes) (metric_at all) (minutes all)
          ∙ total-ext (λ t. to_count (metric_at all t).bytes)
              (λ t. total sample_bytes (where_rows (λ (s : Sample). s.minute == t) all))
              (minutes all) (λ t. ap to_count (bytes-metric_at t) ∙ omega arith)
          ∙ total_partition (λ (t : ℕ) (s : Sample). s.minute == t) sample_bytes (minutes all) all
              (minutes_once all))

limit_all : {A : Type 0} (n : ℕ) (xs : List A) → length xs ≤ n → limit n xs ≡ xs
limit_all zero [] h = refl
limit_all zero (x ∷ xs) h = absurd (omega arith)
limit_all (suc n) [] h = refl
limit_all (suc n) (x ∷ xs) h = ap (λ (r : List _). x ∷ r) (limit_all n xs (omega arith))

length-map : {A B : Type 0} (g : A → B) (xs : List A) → length (map g xs) ≡ length xs
length-map g [] = refl
length-map g (x ∷ xs) = ap suc (length-map g xs)

-- Where the reports of a job give their bytes as whole numbers and span at most 300 minutes, the bytes
-- of the rows that `watch_job` returns add up to the bytes of all reports of the job: grouping by
-- spawn and minute, and then by minute, loses and doubles none.
pub bytes_total :
    (job_id : Text) (db : Db)
    → All
        (λ (m : Metric). IsWhole m.bytes)
        (where_rows (λ (m : Metric). text_eq m.job_id job_id) db.metrics)
    → length (minutes (samples job_id db)) ≤ 300
    → sum_numbers (map (λ (r : SpawnMetric). r.bytes) (job_metrics job_id db))
      ≡ sum_numbers (
          map
            (λ (m : Metric). m.bytes)
            (where_rows (λ (m : Metric). text_eq m.job_id job_id) db.metrics))
unfolding job_metrics samples
bytes_total job_id db all_whole few =
    let rows = where_rows (λ (m : Metric). text_eq m.job_id job_id) db.metrics in
    let all = map (sample_of rows) (leaders rows) in
    let whole_rows = samples-IsWhole rows all_whole (leaders rows) in
    ap (λ (rs : List SpawnMetric). sum_numbers (map (λ (r : SpawnMetric). r.bytes) rs))
      (limit_all 300 (map (metric_at all) (minutes all))
        (omega (arith, length-map (metric_at all) (minutes all))))
    ∙ total-metrics all whole_rows
    ∙ ap whole (total-samples rows all_whole)
    ∙ sym (sum_numbers-whole (λ (m : Metric). m.bytes) rows all_whole)

limit-below :
    (all : List Sample) (b n : ℕ) (ts : List ℕ)
    → All (λ u. u < b) ts
    → All (λ u. u < b) (map (λ (r : SpawnMetric). r.created_at) (limit n (map (metric_at all) ts)))
unfolding metric_at
limit-below all b zero ts h = tt
limit-below all b (suc n) [] h = tt
limit-below all b (suc n) (t ∷ ts) h = (h.0, limit-below all b n ts h.1)

limit-IsFalling :
    (all : List Sample) (n : ℕ) (ts : List ℕ)
    → IsFalling ts
    → IsFalling (map (λ (r : SpawnMetric). r.created_at) (limit n (map (metric_at all) ts)))
      × (length (limit n (map (metric_at all) ts)) ≤ n)
unfolding metric_at
limit-IsFalling all zero ts f = (tt, omega arith)
limit-IsFalling all (suc n) [] f = (tt, omega arith)
limit-IsFalling all (suc n) (t ∷ ts) f =
    let (rest, short) = limit-IsFalling all n ts f.1 in
    ((limit-below all t n ts f.0, rest), omega arith)

-- The rows that `watch_job` returns are at most 300, one for each minute, the latest first.
job_metrics-IsFalling :
    (job_id : Text) (db : Db)
    → IsFalling (map (λ (r : SpawnMetric). r.created_at) (job_metrics job_id db))
      × (length (job_metrics job_id db) ≤ 300)
unfolding job_metrics
job_metrics-IsFalling job_id db =
    limit-IsFalling (samples job_id db) 300 (minutes (samples job_id db))
      (minutes-IsFalling (samples job_id db))
