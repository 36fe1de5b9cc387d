-- ===== src/Histogram.antt =====
-- cmd/agent/metrics.go: the histogram of latencies that an agent keeps, and its counters.
pub mod Positions
pub mod Bounds
pub mod Counters
pub mod Intervals
pub mod Tallies
pub mod Quantiles
pub mod Ranks
pub mod Snapshots
use cloudflare_r2_bench.Base.{
  ℕ, ◌+◌, ◌-◌, ◌*◌, ◌/◌, ◌%◌, ◌^◌, ltb, leb, ◌==◌, if◌then◌else◌, Bool, List, [], ◌∷◌,
}
use Prim.Native.Nat.{bit_and, bit_or}
use cloudflare_r2_bench.Base.Shifts.{bit_length}

-- The constants `subBits`, `subCount` and `numBuckets`.
abbrev pub sub_bits : ℕ
sub_bits = 3

abbrev pub sub_count : ℕ
sub_count = 2 ^ sub_bits

abbrev pub num_buckets : ℕ
num_buckets = 256

-- The part of `bucketIndex` for a word of four bits or more, so that no subtraction goes below zero.
abbrev pub octave_index : ℕ → ℕ
octave_index v =
    let e = bit_length 64 v - 1 in
    let m = bit_and (v / 2 ^ (e - sub_bits)) (sub_count - 1) in
    bit_or ((e - sub_bits + 1) * 2 ^ sub_bits % 2 ^ 64) m

unfoldable pub bucket_index : ℕ → ℕ
unfolding bit_length
bucket_index v =
    if ltb v sub_count
    then v
    else let idx = octave_index v in if leb num_buckets idx then num_buckets - 1 else idx

-- `bucketValue`, with the overflow of the last shift.
unfoldable pub bucket_value : ℕ → ℕ
bucket_value i =
    if ltb i sub_count
    then i
    else let e = i / 2 ^ sub_bits + sub_bits - 1 in
      let m = bit_and i (sub_count - 1) in bit_or sub_count m * 2 ^ (e - sub_bits) % 2 ^ 64

-- `atomic.Uint64.Add` and the subtraction of words.
abbrev pub add_word : ℕ → ℕ → ℕ
add_word a b = (a + b) % 2 ^ 64

abbrev pub sub_word : ℕ → ℕ → ℕ
sub_word a b = (a + 2 ^ 64 - b) % 2 ^ 64

-- The array of the buckets, as a function of the index.
abbrev pub add_bucket : ℕ → (ℕ → ℕ) → ℕ → ℕ
add_bucket i buckets j = if j == i then add_word (buckets j) 1 else buckets j

pub record Metrics : Type 0 where
  pub count : ℕ
  pub errors : ℕ
  pub bytes : ℕ
  pub lat_sum : ℕ
  pub status_ok : ℕ
  pub status_4x : ℕ
  pub status_5x : ℕ
  pub timeouts : ℕ
  pub new_conns : ℕ
  pub reused_conns : ℕ
  pub wire_sum : ℕ
  pub wire_count : ℕ
  pub buckets : ℕ → ℕ

abbrev pub new_metrics : Metrics
new_metrics = record {
  count = 0;
  errors = 0;
  bytes = 0;
  lat_sum = 0;
  status_ok = 0;
  status_4x = 0;
  status_5x = 0;
  timeouts = 0;
  new_conns = 0;
  reused_conns = 0;
  wire_sum = 0;
  wire_count = 0;
  buckets = λ i. 0;
}

unfoldable pub observe_wire : ℕ → Metrics → Metrics
observe_wire micros m = record m {
  wire_sum = add_word m.wire_sum micros;
  wire_count = add_word m.wire_count 1;
}

unfoldable pub observe_conn : Bool → Metrics → Metrics
observe_conn reused m =
    if reused
    then record m { reused_conns = add_word m.reused_conns 1 }
    else record m { new_conns = add_word m.new_conns 1 }

-- The `switch` on the status.
unfoldable pub observe_status : ℕ → Metrics → Metrics
observe_status status m =
    if ltb status 400
    then record m { status_ok = add_word m.status_ok 1 }
    else if ltb status 500
    then record m { status_4x = add_word m.status_4x 1 }
    else record m { status_5x = add_word m.status_5x 1 }

-- `n` is the number of bytes read, as a word.
unfoldable pub observe_success : ℕ → ℕ → ℕ → Metrics → Metrics
observe_success latency_micros n status m = observe_status status (record m {
  count = add_word m.count 1;
  lat_sum = add_word m.lat_sum latency_micros;
  bytes = add_word m.bytes n;
  buckets = add_bucket (bucket_index latency_micros) m.buckets;
})

unfoldable pub observe_error : ℕ → Bool → Metrics → Metrics
observe_error latency_micros timeout m =
    let seen : Metrics = record m {
      errors = add_word m.errors 1;
      lat_sum = add_word m.lat_sum latency_micros;
      buckets = add_bucket (bucket_index latency_micros) m.buckets;
    } in
    if timeout then record seen { timeouts = add_word seen.timeouts 1 } else seen

-- The calls that the workers make, in the order in which they take effect.
pub data Observation : Type 0 where
  success : ℕ → ℕ → ℕ → Observation
  error : ℕ → Bool → Observation
  wire : ℕ → Observation
  conn : Bool → Observation

unfoldable pub observe : Observation → Metrics → Metrics
observe (success latency n status) m = observe_success latency n status m
observe (error latency timeout) m = observe_error latency timeout m
observe (wire micros) m = observe_wire micros m
observe (conn reused) m = observe_conn reused m

unfoldable pub observe_all : List Observation → Metrics → Metrics
observe_all [] m = m
observe_all (o ∷ os) m = observe_all os (observe o m)
