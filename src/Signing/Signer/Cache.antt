-- ===== src/Signing/Signer/Cache.antt =====
-- internal/r2/sigv4.go `signingKey`: goroutines that share a signer and its cached key.
pub mod Once
use cloudflare_r2_bench.Base.{
  ℕ, zero, suc, ◌+◌, ◌-◌, ◌≤◌, ◌<◌, ◌≡◌, ◌⊎◌, inl, inr, refl, ap, subst, Bool, true, false, not,
  Option, none, some, List, [], ◌∷◌, Text, text_eq, text_eq_refl, text_eq_sound, ◌==◌, ==_iff,
  if◌then◌else◌, Bool-cases, length, count_rows, arith,
}
use cloudflare_r2_bench.Signing.Signer.{
  Crypto, Signer, new_signer, read_key, Chain, derive_key, has_key, write_key, Call, Headers,
  date_stamp, take, string_to_sign, scope, sign_with, Phase, pending, missed, signed, after_read,
  sign_step, Pool, update, pool_step,
}

-- The headers of a call whose key is derived for it alone.
abbrev pub sign_alone : Crypto → Signer → Call → Headers
sign_alone crypto s c = sign_with crypto s (derive_key crypto s (date_stamp c.amz_date)).key c

-- Goroutines that take their next step in some order.
unfoldable pub run_pool : Crypto → Pool → List ℕ → Pool
run_pool crypto pool [] = pool
run_pool crypto pool (i ∷ schedule) = run_pool crypto (pool_step crypto pool i) schedule

abbrev pub start_pool : Signer → (ℕ → Call) → Pool
start_pool s calls = record { signer = s; phase = λ i. pending (calls i) }

-- How often a goroutine is scheduled.
abbrev pub turns : ℕ → List ℕ → ℕ
turns i schedule = count_rows (λ j. j == i) schedule

-- The steps that a phase may still need.
abbrev steps_left : Phase → ℕ
steps_left (pending c) = 2
steps_left (missed c) = 1
steps_left (signed c headers) = 0

-- The texts of times have a date.
abbrev pub IsStamped : Call → Type 0
IsStamped c = length c.amz_date ≡ 16

date_stamp-cons :
    (c : Call) → IsStamped c → (d : ℕ) × (ds : Text) × (date_stamp c.amz_date ≡ d ∷ ds)
unfolding date_stamp
date_stamp-cons c h = go c.amz_date h
  where
    go : (t : Text) → length t ≡ 16 → (d : ℕ) × (ds : Text) × (take 8 t ≡ d ∷ ds)
    go [] e = absurd (omega arith)
    go (d ∷ ds) e = (d, take 7 ds, refl)

module _ (crypto : Crypto) (access_key secret_key region : Text) where
  abbrev fresh : Signer
  fresh = new_signer access_key secret_key region

  -- A signer that was fresh once: its cache is empty, or has the key of its date.
  abbrev holding : Text → Signer
  holding date = record fresh {
    cached_date = date;
    cached_key = (derive_key crypto fresh date).key;
  }

  abbrev Caches : Signer → Type 0
  Caches s = (s ≡ fresh) ⊎ ((date : Text) × (s ≡ holding date))

  fresh_read : (d : ℕ) (ds : Text) → read_key fresh (d ∷ ds) ≡ none
  unfolding read_key text_eq
  fresh_read d ds = refl

  holding_read :
      (held date : Text)
      → (read_key (holding held) date ≡ none)
        ⊎ (read_key (holding held) date ≡ some (derive_key crypto fresh date).key)
  unfolding read_key
  holding_read held date = elim (Bool-cases (text_eq held date)) [
    | inl same ↦
        inr
          (rw same (ap (λ t. some (derive_key crypto fresh t).key) (text_eq_sound held date same)))
    | inr other ↦ inl (rw other refl)
  ]

  -- What is left under the write lock: the key of the date, in the cache and in hand.
  abbrev Writes : Text → Signer × Chain → Type 0
  Writes date (s, chain) = (s ≡ holding date) × (chain.key ≡ (derive_key crypto fresh date).key)

  holding_write : (held date : Text) → Writes date (write_key crypto (holding held) date)
  unfolding write_key derive_key has_key
  holding_write held date = elim (Bool-cases (text_eq held date)) [
    | inl same ↦
        let date_same = text_eq_sound held date same in
        rw same (ap holding date_same, ap (λ t. (derive_key crypto fresh t).key) date_same)
    | inr other ↦ rw other (refl, refl)
  ]

  fresh_write : (d : ℕ) (ds : Text) → Writes (d ∷ ds) (write_key crypto fresh (d ∷ ds))
  unfolding write_key derive_key has_key text_eq
  fresh_write d ds = (refl, refl)

  -- How far a call has come: to no phase but these three.
  abbrev Stage : Call → Phase → Type 0
  Stage c p = (p ≡ pending c) ⊎ (p ≡ missed c) ⊎ (p ≡ signed c (sign_alone crypto fresh c))

  holding_signs :
      (held key : Text) (c : Call)
      → sign_with crypto (holding held) key c ≡ sign_with crypto fresh key c
  unfolding sign_with scope string_to_sign
  holding_signs held key c = refl

  -- The step that a call makes next: under the read lock it may miss, under the write lock never.
  read_step :
      (s : Signer) (c : Call)
      → Caches s
      → IsStamped c
      → (sign_step crypto s (pending c) ≡ (s, missed c))
        ⊎ (sign_step crypto s (pending c) ≡ (s, signed c (sign_alone crypto fresh c)))
  unfolding sign_step
  read_step s c (inl e) stamped =
      let (d, ds, date) = date_stamp-cons c stamped in inl (rw (e, date, fresh_read d ds) refl)
  read_step s c (inr (held, e)) stamped = elim (holding_read held (date_stamp c.amz_date)) [
    | inl miss ↦ inl (rw (e, miss) refl)
    | inr hit ↦ inr (rw (e, hit) (ap (λ h. (holding held, signed c h)) (holding_signs held _ c)))
  ]

  write_step :
      (s : Signer) (c : Call)
      → Caches s
      → IsStamped c
      → sign_step crypto s (missed c)
        ≡ (holding (date_stamp c.amz_date), signed c (sign_alone crypto fresh c))
  unfolding sign_step
  write_step s c (inl e) stamped =
      let (d, ds, date) = date_stamp-cons c stamped in
      let (left, key) = fresh_write d ds in
      rw (e, date, left, key)
        (ap (λ h. (holding (d ∷ ds), signed c h)) (holding_signs (d ∷ ds) _ c))
  write_step s c (inr (held, e)) stamped =
      let (left, key) = holding_write held (date_stamp c.amz_date) in
      rw (e, left, key)
        (ap (λ h. (holding (date_stamp c.amz_date), signed c h))
          (holding_signs (date_stamp c.amz_date) _ c))

  -- What a step leaves of the signer and of its call.
  abbrev Moves : Call → Phase → Signer × Phase → Type 0
  Moves c p (s, p') = Caches s × Stage c p' × (steps_left p' ≤ steps_left p - 1)

  signed_step :
      (s : Signer) (c : Call) (h : Headers) → sign_step crypto s (signed c h) ≡ (s, signed c h)
  unfolding sign_step
  signed_step s c h = refl

  Stage-step :
      (s : Signer) (c : Call) (p : Phase)
      → Caches s
      → IsStamped c
      → Stage c p
      → Moves c p (sign_step crypto s p)
  Stage-step s c p caches stamped (inl e) = elim (read_step s c caches stamped) [
    | inl miss ↦ rw (e, miss) (caches, inr (inl refl), omega arith)
    | inr hit ↦ rw (e, hit) (caches, inr (inr refl), omega arith)
  ]
  Stage-step s c p caches stamped (inr (inl e)) =
      rw (e, write_step s c caches stamped)
        (inr (date_stamp c.amz_date, refl), inr (inr refl), omega arith)
  Stage-step s c p caches stamped (inr (inr e)) =
      rw (e, signed_step s c _) (caches, inr (inr refl), omega arith)

  module _ (calls : ℕ → Call) (stamped : (i : ℕ) → IsStamped (calls i)) where
    record IsFine (pool : Pool) : Type 0 where
      caches : Caches pool.signer
      stages : (i : ℕ) → Stage (calls i) (pool.phase i)

    pool_step-IsFine :
        (pool : Pool) (i : ℕ)
        → IsFine pool
        → IsFine (pool_step crypto pool i)
          × ((j : ℕ)
              → steps_left ((pool_step crypto pool i).phase j)
                ≤ steps_left (pool.phase j) - (if i == j then 1 else 0))
    unfolding pool_step
    pool_step-IsFine pool i fine =
        let p' = (sign_step crypto pool.signer (pool.phase i)).1 in
        let (caches, stage, fewer) =
          Stage-step pool.signer (calls i) (pool.phase i) fine.caches (stamped i) (fine.stages i) in
        (
          record {
            caches = caches;
            stages = λ j. elim (Bool-cases (i == j)) [
              | inl same ↦ rw same (subst (λ k. Stage (calls k) p') ((==_iff i j).0 same) stage)
              | inr other ↦ rw other (fine.stages j)
            ];
          },
          λ j. elim (Bool-cases (i == j)) [
            | inl same ↦ rw (same, ← (==_iff i j).0 same) fewer
            | inr other ↦ rw other (omega arith)
          ],
        )

    run_pool-IsFine :
        (pool : Pool) (schedule : List ℕ)
        → IsFine pool
        → IsFine (run_pool crypto pool schedule)
          × ((j : ℕ)
              → steps_left ((run_pool crypto pool schedule).phase j)
                ≤ steps_left (pool.phase j) - turns j schedule)
    unfolding run_pool
    run_pool-IsFine pool [] fine = (fine, λ j. omega arith)
    run_pool-IsFine pool (i ∷ schedule) fine =
        let (next, fewer) = pool_step-IsFine pool i fine in
        let (last, rest) = run_pool-IsFine (pool_step crypto pool i) schedule next in
        (last, λ j. ground (arith, fewer j, rest j))

    start_pool-IsFine : IsFine (start_pool fresh calls)
    start_pool-IsFine = record { caches = inl refl; stages = λ i. inl refl }

    Stage-done :
        (c : Call) (p : Phase)
        → Stage c p
        → steps_left p ≡ 0
        → p ≡ signed c (sign_alone crypto fresh c)
    Stage-done c p (inl e) h = ground (arith, ap steps_left e)
    Stage-done c p (inr (inl e)) h = ground (arith, ap steps_left e)
    Stage-done c p (inr (inr e)) h = e

    -- Goroutines that sign with one signer, which was fresh at the start, and read and write its
    -- cached key in any order: a call that has taken two steps is signed, with just the headers that
    -- it has where the key is derived for it alone, whatever the dates of the other calls; if the
    -- texts of the times have 16 characters.
    pub signatures_uncached :
        (i : ℕ) (schedule : List ℕ)
        → 2 ≤ turns i schedule
        → (run_pool crypto (start_pool fresh calls) schedule).phase i
          ≡ signed (calls i) (sign_alone crypto fresh (calls i))
    signatures_uncached i schedule enough =
        let (fine, left) = run_pool-IsFine (start_pool fresh calls) schedule start_pool-IsFine in
        Stage-done (calls i) _ (fine.stages i) (omega (arith, left i))
