-- ===== src/Seeder/Stamps.antt =====
-- cmd/seeder/main.go: `writeSentinels`, and when a bucket may be stamped.
use cloudflare_r2_bench.Base.{
  ℕ, ◌<◌, ◌≡◌, ◌⊎◌, inl, inr, false, List, [], ◌∷◌, ltb, Bool-cases, All, arith,
}
use cloudflare_r2_bench.Naming.{Naming, bucket_name, object_key, sentinel_key, sentinel_body}
use cloudflare_r2_bench.Seeder.{
  SeederOptions, Remote, put_with_retry, SeedWorld, Seeding, write_sentinels,
}
use cloudflare_r2_bench.Seeder.Writing.{Has, retry-Has}
use cloudflare_r2_bench.Seeder.Sentinels.{IsSound, Keeps, IsSound-sentinel}

module _ (options : SeederOptions) (world : SeedWorld) where
  abbrev naming : Naming
  naming = options.naming

  -- Buckets that may be stamped: those without a failure have every object.
  abbrev pub Ready : List ℕ → Seeding → Type 0
  Ready bs s =
      All
        (λ (b : ℕ).
          ((k : ℕ)
            → k < naming.keyspace
            → Has s.remote (bucket_name naming b) (object_key naming k))
          ⊎ (0 < s.failed b))
        bs

  clean_IsFull :
      (b : ℕ) (s : Seeding)
      → ltb 0 (s.failed b) ≡ false
      → ((k : ℕ) → k < naming.keyspace → Has s.remote (bucket_name naming b) (object_key naming k))
        ⊎ (0 < s.failed b)
      → (k : ℕ) → k < naming.keyspace
      → Has s.remote (bucket_name naming b) (object_key naming k)
  clean_IsFull b s clean (inl full) = full
  clean_IsFull b s clean (inr failed) = absurd (ground (arith, clean, failed))

  Ready-keeps :
      (bs : List ℕ) (s : Seeding) (remote : Remote)
      → Keeps s.remote remote
      → Ready bs s
      → Ready bs (record s { remote = remote })
  Ready-keeps [] s remote keep ready = tt
  Ready-keeps (b ∷ bs) s remote keep (inr failed, ready) =
      (inr failed, Ready-keeps bs s remote keep ready)
  Ready-keeps (b ∷ bs) s remote keep (inl full, ready) = (
    inl (λ k below. keep (bucket_name naming b) (object_key naming k) (full k below)),
    Ready-keeps bs s remote keep ready,
  )

  pub write_sentinels-IsSound :
      (bs : List ℕ) (s : Seeding)
      → Ready bs s
      → IsSound naming s.remote
      → IsSound naming (write_sentinels options world bs s).1
  unfolding write_sentinels
  write_sentinels-IsSound [] s ready sound = sound
  write_sentinels-IsSound (b ∷ bs) s ready sound =
      let attempts = world.sentinel_attempts b in
      let bucket = bucket_name naming b in
      let key = sentinel_key naming in
      let body = sentinel_body naming options.object_size in
      let go = put_with_retry 6 attempts bucket key body s.remote in
      let keep = retry-Has bucket key body 6 attempts s.remote in
      elim (Bool-cases (ltb 0 (s.failed b))) [
        | inl failed ↦ rw failed (write_sentinels-IsSound bs s ready.1 sound)
        | inr clean ↦
            let stamped =
              IsSound-sentinel naming 6 b options.object_size attempts s.remote
                (clean_IsFull b s clean ready.0) sound in
            elim (Bool-cases go.0) [
              | inl ok ↦
                  rw (clean, ok)
                    (write_sentinels-IsSound bs (record s { remote = go.1 })
                      (Ready-keeps bs s go.1 keep ready.1) stamped)
              | inr bad ↦ rw (clean, bad) stamped
            ]
      ]
