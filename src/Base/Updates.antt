-- ===== src/Base/Updates.antt =====
-- What a query finds after an UPDATE.
use cloudflare_r2_bench.Base.Tests.{if◌then◌else◌, Bool-cases}
use cloudflare_r2_bench.Base.Lists.{update_rows, count_rows, first_row}
use mathlib.Core.Path.{◌≡◌, refl, ◌∙◌}
use mathlib.Core.Logic.{inl, inr}
use mathlib.Core.Bool.{Bool, true, false}
use mathlib.Core.Option.{some}
use mathlib.Core.List.{List, [], ◌∷◌}

pub first_row-hit {ℓ} :
    {A : Type ℓ} (p : A → Bool) (xs : List A) (j : A) → first_row p xs ≡ some j → p j ≡ true
first_row-hit p [] j h = cc
first_row-hit {A = A} p (x ∷ xs) j h = elim (Bool-cases (p x)) [
  | inl hit ↦ let same : x ≡ j = some_eq (rw hit at h) in rw (← same) hit
  | inr miss ↦ first_row-hit p xs j (rw miss at h)
]
  where
    some_eq : {a b : A} → some a ≡ some b → a ≡ b
    some_eq e = cc

-- The first row of a query, after an UPDATE that does not touch what the query tests.
pub first_row-update {ℓ} :
    {A : Type ℓ} (p q : A → Bool) (f : A → A)
    → ((x : A) → p (f x) ≡ p x)
    → (xs : List A) (j : A) → first_row p xs ≡ some j
    → first_row p (update_rows q f xs) ≡ some (if q j then f j else j)
first_row-update p q f keep [] j h = cc
first_row-update {A = A} p q f keep (x ∷ xs) j h = elim (Bool-cases (p x)) [
  | inl hit ↦
      let same : x ≡ j = some_eq (rw hit at h) in
      let kept : p (if q x then f x else x) ≡ true = pick ∙ hit in rw (kept, same) refl
  | inr miss ↦
      let kept : p (if q x then f x else x) ≡ false = pick ∙ miss in
      rw kept (first_row-update p q f keep xs j (rw miss at h))
]
  where
    pick : p (if q x then f x else x) ≡ p x
    pick = elim (Bool-cases (q x)) [ inl take ↦ rw take (keep x) | inr leave ↦ rw leave refl ]

    some_eq : {a b : A} → some a ≡ some b → a ≡ b
    some_eq e = cc

pub count_rows-update {ℓ} :
    {A : Type ℓ} (p q : A → Bool) (f : A → A)
    → ((x : A) → p (f x) ≡ p x)
    → (xs : List A) → count_rows p (update_rows q f xs) ≡ count_rows p xs
count_rows-update p q f keep [] = refl
count_rows-update p q f keep (x ∷ xs) = elim (Bool-cases (q x)) [
  | inl take ↦ rw (take, keep x, count_rows-update p q f keep xs) refl
  | inr leave ↦ rw (leave, count_rows-update p q f keep xs) refl
]
