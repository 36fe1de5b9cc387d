-- ===== src/Signing/Signer/Cache/Once.antt =====
-- internal/r2/sigv4.go `signingKey`: how often goroutines that share a signer derive its key.
use cloudflare_r2_bench.Base.{
  ℕ, ◌+◌, ◌≤◌, ◌≡◌, ◌⊎◌, inl, inr, refl, ap, sym, ◌∙◌, Bool, true, false, List, [], ◌∷◌, Text,
  text_eq_refl, if◌then◌else◌, arith,
}
use cloudflare_r2_bench.Signing.Signer.{
  Crypto, Signer, Call, date_stamp, Chain, Phase, pending, missed, signed, derive_key, has_key,
  write_key, sign_step, Pool, pool_step,
}
use cloudflare_r2_bench.Signing.Signer.Cache.{
  start_pool, IsStamped, fresh, Caches, Stage, IsFine, read_step, write_step, signed_step,
  pool_step-IsFine, start_pool-IsFine,
}

-- How many HMACs the next step of a call computes for its key: those of `write_key`, which the step
-- runs under the write lock.
unfoldable pub step_hmacs : Crypto → Signer → Phase → ℕ
unfolding write_key
step_hmacs crypto s (pending c) = 0
step_hmacs crypto s (missed c) = (write_key crypto s (date_stamp c.amz_date)).1.hmacs
step_hmacs crypto s (signed c headers) = 0

bounded_if :
    (b : Bool) (s s' : Signer) (key : Text) (new : Chain)
    → new.hmacs ≡ 4
    → let w : Signer × Chain = if b then (s, record { key = key; hmacs = 0 }) else (s', new) in
      w.1.hmacs ≤ 4
bounded_if true s s' key new four = omega arith
bounded_if false s s' key new four = omega (arith, four)

write_hmacs : (crypto : Crypto) (s : Signer) (date : Text) → (write_key crypto s date).1.hmacs ≤ 4
unfolding write_key derive_key
write_hmacs crypto s date =
    bounded_if (has_key s date) s _ s.cached_key (derive_key crypto s date) refl

-- The key of the date is there already.
write_cached :
    (crypto : Crypto) (s : Signer) (date : Text)
    → has_key s date ≡ true
    → (write_key crypto s date).1.hmacs ≡ 0
unfolding write_key
write_cached crypto s date hit = rw (hit, write_key) refl

step_hmacs-le_four : (crypto : Crypto) (s : Signer) (p : Phase) → step_hmacs crypto s p ≤ 4
unfolding step_hmacs
step_hmacs-le_four crypto s (pending c) = omega arith
step_hmacs-le_four crypto s (missed c) = write_hmacs crypto s (date_stamp c.amz_date)
step_hmacs-le_four crypto s (signed c headers) = omega arith

held_key : (s : Signer) (date : Text) → s.cached_date ≡ date → has_key s date ≡ true
unfolding has_key
held_key s date same = rw same (text_eq_refl date)

-- How many HMACs the steps of a schedule compute for keys.
unfoldable pub key_hmacs : Crypto → Pool → List ℕ → ℕ
unfolding step_hmacs
key_hmacs crypto pool [] = 0
key_hmacs crypto pool (i ∷ schedule) =
    step_hmacs crypto pool.signer (pool.phase i)
    + key_hmacs crypto (pool_step crypto pool i) schedule

module _ (crypto : Crypto) (access_key secret_key region : Text) where
  -- A step that computes no HMAC leaves the signer, and any other leaves it with the call's date.
  date_step :
      (s : Signer) (c : Call) (p : Phase)
      → Caches crypto access_key secret_key region s
      → IsStamped c
      → Stage crypto access_key secret_key region c p
      → ((sign_step crypto s p).0 ≡ s) × (step_hmacs crypto s p ≡ 0)
        ⊎ ((sign_step crypto s p).0.cached_date ≡ date_stamp c.amz_date)
  unfolding step_hmacs
  date_step s c p caches stamped (inl e) =
      elim (read_step crypto access_key secret_key region s c caches stamped) [
        | inl miss ↦ inl (rw (e, miss) refl, rw e refl)
        | inr hit ↦ inl (rw (e, hit) refl, rw e refl)
      ]
  date_step s c p caches stamped (inr (inl e)) =
      inr (rw (e, write_step crypto access_key secret_key region s c caches stamped) refl)
  date_step s c p caches stamped (inr (inr e)) =
      inl (rw (e, signed_step crypto access_key secret_key region s c _) refl, rw e refl)

  -- The key of the date is there already.
  no_hmacs :
      (s : Signer) (c : Call) (p : Phase)
      → Stage crypto access_key secret_key region c p
      → s.cached_date ≡ date_stamp c.amz_date
      → step_hmacs crypto s p ≡ 0
  unfolding step_hmacs
  no_hmacs s c p (inl e) same = rw e refl
  no_hmacs s c p (inr (inl e)) same =
      rw e (write_cached crypto s (date_stamp c.amz_date) (held_key s (date_stamp c.amz_date) same))
  no_hmacs s c p (inr (inr e)) same = rw e refl

  module _ (calls : ℕ → Call) (stamped : (i : ℕ) → IsStamped (calls i)) (day : Text)
      (same_day : (i : ℕ) → date_stamp (calls i).amz_date ≡ day) where
    moved_date :
        (pool : Pool) (i : ℕ)
        → IsFine crypto access_key secret_key region calls stamped pool
        → ((pool_step crypto pool i).signer.cached_date ≡ pool.signer.cached_date)
            × (step_hmacs crypto pool.signer (pool.phase i) ≡ 0)
          ⊎ ((pool_step crypto pool i).signer.cached_date ≡ day)
    unfolding pool_step
    moved_date pool i fine =
        elim (date_step pool.signer (calls i) (pool.phase i) fine.caches (stamped i)
          (fine.stages i)) [
            | inl (same, quiet) ↦ inl (ap (λ (s : Signer). s.cached_date) same, quiet)
            | inr new ↦ inr (new ∙ same_day i)
          ]

    key_hmacs_none :
        (pool : Pool) (schedule : List ℕ)
        → IsFine crypto access_key secret_key region calls stamped pool
        → pool.signer.cached_date ≡ day
        → key_hmacs crypto pool schedule ≡ 0
    unfolding key_hmacs
    key_hmacs_none pool [] fine held = refl
    key_hmacs_none pool (i ∷ schedule) fine held =
        let (next, _) =
          pool_step-IsFine crypto access_key secret_key region calls stamped pool i fine in
        let quiet =
          no_hmacs pool.signer (calls i) (pool.phase i) (fine.stages i) (held ∙ sym (same_day i)) in
        let held' : (pool_step crypto pool i).signer.cached_date ≡ day =
          elim (moved_date pool i fine) [ inl (same, _) ↦ same ∙ held | inr new ↦ new ] in
        rw quiet (omega (arith, key_hmacs_none (pool_step crypto pool i) schedule next held'))

    key_hmacs-le_four :
        (pool : Pool) (schedule : List ℕ)
        → IsFine crypto access_key secret_key region calls stamped pool
        → key_hmacs crypto pool schedule ≤ 4
    unfolding key_hmacs
    key_hmacs-le_four pool [] fine = omega arith
    key_hmacs-le_four pool (i ∷ schedule) fine =
        let (next, _) =
          pool_step-IsFine crypto access_key secret_key region calls stamped pool i fine in
        elim (moved_date pool i fine) [
          | inl (_, quiet) ↦
              rw quiet (omega (arith, key_hmacs-le_four (pool_step crypto pool i) schedule next))
          | inr new ↦ omega (
            arith,
            step_hmacs-le_four crypto pool.signer (pool.phase i),
            key_hmacs_none (pool_step crypto pool i) schedule next new,
          )
        ]

    -- Goroutines that sign with one signer, which was fresh at the start, on one day: in any order
    -- of their steps they compute at most four HMACs for the key, those of one derivation, since
    -- the write lock looks at the cache again; if the texts of the times have 16 characters.
    pub derived_once :
        (schedule : List ℕ)
        → key_hmacs crypto (start_pool (fresh crypto access_key secret_key region) calls) schedule
          ≤ 4
    derived_once schedule =
        key_hmacs-le_four _ schedule
          (start_pool-IsFine crypto access_key secret_key region calls stamped)
