-- ===== src/Base/None.antt =====
-- Tables of which no row passes a test.
use cloudflare_r2_bench.Base.Tests.{Bool-cases}
use cloudflare_r2_bench.Base.Lists.{update_rows, count_rows, where_rows, All}
use mathlib.Core.Path.{◌≡◌, refl}
use mathlib.Core.Logic.{◌⊎◌, inl, inr}
use mathlib.Core.Bool.{Bool, true, false}
use mathlib.Core.List.{List, [], ◌∷◌}
use native.Mathlib.Omega.{arith}

module _ {A : Type 0} where
  abbrev pub None : (A → Bool) → List A → Type 0
  None p xs = All (λ x. p x ≡ false) xs

  -- An UPDATE that takes its rows out of a test leaves none in it, if it takes all that are.
  pub None-update_rows :
      (p q : A → Bool) (f : A → A)
      → ((x : A) → q x ≡ true → p (f x) ≡ false)
      → (xs : List A) → All (λ x. (p x ≡ false) ⊎ (q x ≡ true)) xs
      → None p (update_rows q f xs)
  None-update_rows p q f out [] h = tt
  None-update_rows p q f out (x ∷ xs) h = (
    elim (Bool-cases (q x)) [ inl hit ↦ rw hit (out x hit) | inr miss ↦ rw miss (ground arith) ],
    None-update_rows p q f out xs h.1,
  )

  pub All-self : (p : A → Bool) (xs : List A) → All (λ x. (p x ≡ false) ⊎ (p x ≡ true)) xs
  All-self p [] = tt
  All-self p (x ∷ xs) = (ground arith, All-self p xs)

  pub All-inl :
      (p q : A → Bool) (xs : List A) → None p xs → All (λ x. (p x ≡ false) ⊎ (q x ≡ true)) xs
  All-inl p q [] h = tt
  All-inl p q (x ∷ xs) h = (inl h.0, All-inl p q xs h.1)

  pub update_rows-None :
      (p : A → Bool) (f : A → A) (xs : List A) → None p xs → update_rows p f xs ≡ xs
  update_rows-None p f [] h = refl
  update_rows-None p f (x ∷ xs) h = rw (h.0, update_rows-None p f xs h.1) refl

  pub count_rows-None : (p : A → Bool) (xs : List A) → None p xs → count_rows p xs ≡ 0
  count_rows-None p [] h = refl
  count_rows-None p (x ∷ xs) h = rw h.0 (count_rows-None p xs h.1)

  pub where_rows-None : (p : A → Bool) (xs : List A) → None p xs → where_rows p xs ≡ []
  where_rows-None p [] h = refl
  where_rows-None p (x ∷ xs) h = rw h.0 (where_rows-None p xs h.1)
