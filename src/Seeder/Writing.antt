-- ===== src/Seeder/Writing.antt =====
-- cmd/seeder/main.go: what the PUTs of a run leave in a store.
use cloudflare_r2_bench.Base.{
  ℕ, zero, suc, ◌≡◌, refl, ◌∙◌, ◌⊎◌, inl, inr, true, false, ◌&&◌, &&-eq-true, some, List, [], ◌∷◌,
  Text, text_eq, text_eq_refl, text_eq_sound, Bool-cases, arith,
}
use cloudflare_r2_bench.Seeder.{Remote, put, Attempt, stored, lost, rejected, put_with_retry}

-- An object is stored under a key.
abbrev pub Has : Remote → Text → Text → Type 0
Has remote bucket key = (body : Text) × (remote bucket key ≡ some body)

put_here :
    (bucket key body : Text) (remote : Remote) → put bucket key body remote bucket key ≡ some body
unfolding put
put_here bucket key body remote = rw (text_eq_refl bucket, text_eq_refl key) refl

put_other :
    (bucket key body : Text) (remote : Remote) (b k : Text)
    → text_eq key k ≡ false
    → put bucket key body remote b k ≡ remote b k
unfolding put
put_other bucket key body remote b k other = rw other (ground arith)

put_cases :
    (bucket key body : Text) (remote : Remote) (b k : Text)
    → (put bucket key body remote b k ≡ remote b k)
      ⊎ ((bucket ≡ b) × (put bucket key body remote b k ≡ some body))
unfolding put
put_cases bucket key body remote b k = elim (Bool-cases (text_eq bucket b && text_eq key k)) [
  | inl hit ↦
      let (same, _) = &&-eq-true (text_eq bucket b) (text_eq key k) hit in
      inr (text_eq_sound bucket b same, rw hit refl)
  | inr miss ↦ inl (rw miss refl)
]

module _ (bucket key body : Text) where
  pub retry_cases :
      (n : ℕ) (attempts : List Attempt) (remote : Remote) (b k : Text)
      → let after = (put_with_retry n attempts bucket key body remote).1 in
        (after b k ≡ remote b k) ⊎ ((bucket ≡ b) × (after b k ≡ some body))
  unfolding put_with_retry
  retry_cases zero attempts remote b k = inl refl
  retry_cases (suc n) [] remote b k = inl refl
  retry_cases (suc n) (stored ∷ attempts) remote b k = put_cases bucket key body remote b k
  retry_cases (suc n) (rejected ∷ attempts) remote b k = retry_cases n attempts remote b k
  retry_cases (suc n) (lost ∷ attempts) remote b k =
      elim (retry_cases n attempts (put bucket key body remote) b k) [
        | inr here ↦ inr here
        | inl same ↦ elim (put_cases bucket key body remote b k) [
          | inl kept ↦ inl (same ∙ kept)
          | inr (place, here) ↦ inr (place, same ∙ here)
        ]
      ]

  pub retry_other :
      (n : ℕ) (attempts : List Attempt) (remote : Remote) (b k : Text)
      → text_eq key k ≡ false
      → (put_with_retry n attempts bucket key body remote).1 b k ≡ remote b k
  unfolding put_with_retry
  retry_other zero attempts remote b k other = refl
  retry_other (suc n) [] remote b k other = refl
  retry_other (suc n) (stored ∷ attempts) remote b k other =
      put_other bucket key body remote b k other
  retry_other (suc n) (rejected ∷ attempts) remote b k other =
      retry_other n attempts remote b k other
  retry_other (suc n) (lost ∷ attempts) remote b k other =
      retry_other n attempts (put bucket key body remote) b k other
      ∙ put_other bucket key body remote b k other

  pub retry_ok :
      (n : ℕ) (attempts : List Attempt) (remote : Remote)
      → (put_with_retry n attempts bucket key body remote).0 ≡ true
      → (put_with_retry n attempts bucket key body remote).1 bucket key ≡ some body
  unfolding put_with_retry
  retry_ok zero attempts remote ok = cc
  retry_ok (suc n) [] remote ok = cc
  retry_ok (suc n) (stored ∷ attempts) remote ok = put_here bucket key body remote
  retry_ok (suc n) (rejected ∷ attempts) remote ok = retry_ok n attempts remote ok
  retry_ok (suc n) (lost ∷ attempts) remote ok = retry_ok n attempts (put bucket key body remote) ok

  pub retry-Has :
      (n : ℕ) (attempts : List Attempt) (remote : Remote) (b k : Text)
      → Has remote b k
      → Has (put_with_retry n attempts bucket key body remote).1 b k
  retry-Has n attempts remote b k (old, had) = elim (retry_cases n attempts remote b k) [
    | inl same ↦ (old, same ∙ had)
    | inr (_, here) ↦ (body, here)
  ]
