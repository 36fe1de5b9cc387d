-- ===== src/Histogram/Counters.antt =====
-- cmd/agent/metrics.go: the counters over a sequence of calls.
use cloudflare_r2_bench.Base.{ℕ, ◌+◌, ◌%◌, ◌^◌, ◌<◌, ◌≡◌, refl, ap, List, [], ◌∷◌, ◌++◌, arith}
use cloudflare_r2_bench.Histogram.{
  Metrics, new_metrics, Observation, observe, observe_all, sub_word, observe_status,
  observe_success, observe_error, observe_wire, observe_conn,
}

-- A word that starts at zero, and to which every observation adds its own part, modulo 2 ^ 64.
pub record IsCounter (f : Metrics → ℕ) : Type 0 where
  pub starts : f new_metrics ≡ 0
  pub stays : (m : Metrics) (o : Observation) → f m < 2 ^ 64 → f (observe o m) < 2 ^ 64
  pub adds :
      (m : Metrics) (o : Observation)
      → f (observe o m) % 2 ^ 64 ≡ (f m + f (observe o new_metrics)) % 2 ^ 64

observe_all-append :
    (before during : List Observation) (m : Metrics)
    → observe_all (before ++ during) m ≡ observe_all during (observe_all before m)
unfolding observe_all
observe_all-append [] during m = refl
observe_all-append (o ∷ before) during m = observe_all-append before during (observe o m)

module _ (f : Metrics → ℕ) (c : IsCounter f) where
  counted-word :
      (m : Metrics) (os : List Observation) → f m < 2 ^ 64 → f (observe_all os m) < 2 ^ 64
  unfolding observe_all
  counted-word m [] word = word
  counted-word m (o ∷ os) word = counted-word (observe o m) os (c.stays m o word)

  pub word_of : (os : List Observation) → f (observe_all os new_metrics) < 2 ^ 64
  word_of os = counted-word new_metrics os (omega (arith, c.starts))

  pub counted :
      (m : Metrics) (os : List Observation)
      → f (observe_all os m) % 2 ^ 64 ≡ (f m + f (observe_all os new_metrics)) % 2 ^ 64
  unfolding observe_all
  counted m [] = omega (arith, c.starts)
  counted m (o ∷ os) =
      omega (arith, counted (observe o m) os, counted (observe o new_metrics) os, c.adds m o)

  -- The difference of the counter at two moments.
  pub difference :
      (before during : List Observation)
      → sub_word
          (f (observe_all (before ++ during) new_metrics))
          (f (observe_all before new_metrics))
        ≡ f (observe_all during new_metrics)
  difference before during = omega (
    arith,
    ap f (observe_all-append before during new_metrics),
    counted (observe_all before new_metrics) during,
    word_of before,
    word_of during,
    word_of (before ++ during),
  )

-- Two counters to which each single observation adds the same are always equal.
module _ (f g : Metrics → ℕ) (c : IsCounter f) (d : IsCounter g)
    (alike : (o : Observation) → f (observe o new_metrics) ≡ g (observe o new_metrics)) where
  residues_alike :
      (os : List Observation)
      → f (observe_all os new_metrics) % 2 ^ 64 ≡ g (observe_all os new_metrics) % 2 ^ 64
  unfolding observe_all
  residues_alike [] = omega (arith, c.starts, d.starts)
  residues_alike (o ∷ os) = omega (
    arith,
    counted f c (observe o new_metrics) os,
    counted g d (observe o new_metrics) os,
    alike o,
    residues_alike os,
  )

  pub counted_alike :
      (os : List Observation) → f (observe_all os new_metrics) ≡ g (observe_all os new_metrics)
  counted_alike os = omega (arith, residues_alike os, word_of f c os, word_of g d os)

pub sum-IsCounter :
    (f g : Metrics → ℕ) → IsCounter f → IsCounter g → IsCounter (λ m. (f m + g m) % 2 ^ 64)
sum-IsCounter f g c d = record {
  starts = omega (arith, c.starts, d.starts);
  stays = λ m o word. omega arith;
  adds = λ m o. omega (arith, c.adds m o, d.adds m o);
}

pub count-IsCounter : IsCounter (λ m. m.count)
unfolding observe observe_success observe_status observe_error observe_wire observe_conn
count-IsCounter = record {
  starts = refl;
  stays = λ m o word. ground arith;
  adds = λ m o. ground arith;
}

pub errors-IsCounter : IsCounter (λ m. m.errors)
unfolding observe observe_success observe_status observe_error observe_wire observe_conn
errors-IsCounter = record {
  starts = refl;
  stays = λ m o word. ground arith;
  adds = λ m o. ground arith;
}

pub bytes-IsCounter : IsCounter (λ m. m.bytes)
unfolding observe observe_success observe_status observe_error observe_wire observe_conn
bytes-IsCounter = record {
  starts = refl;
  stays = λ m o word. ground arith;
  adds = λ m o. ground arith;
}

pub lat_sum-IsCounter : IsCounter (λ m. m.lat_sum)
unfolding observe observe_success observe_status observe_error observe_wire observe_conn
lat_sum-IsCounter = record {
  starts = refl;
  stays = λ m o word. ground arith;
  adds = λ m o. ground arith;
}

pub status_ok-IsCounter : IsCounter (λ m. m.status_ok)
unfolding observe observe_success observe_status observe_error observe_wire observe_conn
status_ok-IsCounter = record {
  starts = refl;
  stays = λ m o word. ground arith;
  adds = λ m o. ground arith;
}

pub status_4x-IsCounter : IsCounter (λ m. m.status_4x)
unfolding observe observe_success observe_status observe_error observe_wire observe_conn
status_4x-IsCounter = record {
  starts = refl;
  stays = λ m o word. ground arith;
  adds = λ m o. ground arith;
}

pub status_5x-IsCounter : IsCounter (λ m. m.status_5x)
unfolding observe observe_success observe_status observe_error observe_wire observe_conn
status_5x-IsCounter = record {
  starts = refl;
  stays = λ m o word. ground arith;
  adds = λ m o. ground arith;
}

pub timeouts-IsCounter : IsCounter (λ m. m.timeouts)
unfolding observe observe_success observe_status observe_error observe_wire observe_conn
timeouts-IsCounter = record {
  starts = refl;
  stays = λ m o word. ground arith;
  adds = λ m o. ground arith;
}

pub new_conns-IsCounter : IsCounter (λ m. m.new_conns)
unfolding observe observe_success observe_status observe_error observe_wire observe_conn
new_conns-IsCounter = record {
  starts = refl;
  stays = λ m o word. ground arith;
  adds = λ m o. ground arith;
}

pub reused_conns-IsCounter : IsCounter (λ m. m.reused_conns)
unfolding observe observe_success observe_status observe_error observe_wire observe_conn
reused_conns-IsCounter = record {
  starts = refl;
  stays = λ m o word. ground arith;
  adds = λ m o. ground arith;
}

pub wire_sum-IsCounter : IsCounter (λ m. m.wire_sum)
unfolding observe observe_success observe_status observe_error observe_wire observe_conn
wire_sum-IsCounter = record {
  starts = refl;
  stays = λ m o word. ground arith;
  adds = λ m o. ground arith;
}

pub wire_count-IsCounter : IsCounter (λ m. m.wire_count)
unfolding observe observe_success observe_status observe_error observe_wire observe_conn
wire_count-IsCounter = record {
  starts = refl;
  stays = λ m o word. ground arith;
  adds = λ m o. ground arith;
}

pub bucket-IsCounter : (i : ℕ) → IsCounter (λ m. m.buckets i)
unfolding observe observe_success observe_status observe_error observe_wire observe_conn
bucket-IsCounter i = record {
  starts = refl;
  stays = λ m o word. ground arith;
  adds = λ m o. ground arith;
}
