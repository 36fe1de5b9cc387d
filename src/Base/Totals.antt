-- ===== src/Base/Totals.antt =====
-- Totals over the rows of a table, and over its groups.
use cloudflare_r2_bench.Base.Tests.{Bool-cases}
use cloudflare_r2_bench.Base.Lists.{count_rows, where_rows, any_row, In}
use Prim.Native.Nat.{ℕ, ◌+◌, ◌*◌}
use mathlib.Core.Path.{◌≡◌, refl, ◌∙◌}
use mathlib.Core.Logic.{inl, inr}
use mathlib.Core.Bool.{Bool, true}
use mathlib.Core.List.{List, [], ◌∷◌}
use native.Mathlib.Omega.{arith}

abbrev pub total : {A : Type 0} → (A → ℕ) → List A → ℕ
total f [] = 0
total f (x ∷ xs) = f x + total f xs

pub any_row-In :
    {A : Type 0} (p : A → Bool) (x : A) (xs : List A) → In x xs → p x ≡ true → any_row p xs ≡ true
any_row-In p x [] i h = absurd i
any_row-In p x (y ∷ ys) (inl e) h = rw (e, h) refl
any_row-In p x (y ∷ ys) (inr i) h = ground (arith, any_row-In p x ys i h)

module _ {A B : Type 0} (R : B → A → Bool) (f : A → ℕ) where
  total_zero : (xs : List A) → total (λ x. 0 * f x) xs ≡ 0
  total_zero [] = refl
  total_zero (x ∷ xs) = omega (arith, total_zero xs)

  total_more :
      (l : B) (ls : List B) (xs : List A)
      → total f (where_rows (R l) xs) + total (λ x. count_rows (λ k. R k x) ls * f x) xs
        ≡ total (λ x. count_rows (λ k. R k x) (l ∷ ls) * f x) xs
  total_more l ls [] = refl
  total_more l ls (x ∷ xs) = elim (Bool-cases (R l x)) [
    | inl hit ↦ rw hit (grind (arith, total_more l ls xs))
    | inr miss ↦ rw miss (grind (arith, total_more l ls xs))
  ]

  -- A total over groups counts each row as often as it lies in one.
  total_groups :
      (ls : List B) (xs : List A)
      → total (λ l. total f (where_rows (R l) xs)) ls
        ≡ total (λ x. count_rows (λ k. R k x) ls * f x) xs
  total_groups [] xs = omega (arith, total_zero xs)
  total_groups (l ∷ ls) xs = omega (arith, total_groups ls xs, total_more l ls xs)

  total_once :
      (c : A → ℕ) (xs : List A)
      → ((x : A) → In x xs → c x ≡ 1)
      → total (λ x. c x * f x) xs ≡ total f xs
  total_once c [] h = refl
  total_once c (x ∷ xs) h =
      rw (h x (inl refl)) (omega (arith, total_once c xs (λ y i. h y (inr i))))

  -- Groups that each row lies in just once have the total of all rows.
  pub total_partition :
      (ls : List B) (xs : List A)
      → ((x : A) → In x xs → count_rows (λ k. R k x) ls ≡ 1)
      → total (λ l. total f (where_rows (R l) xs)) ls ≡ total f xs
  total_partition ls xs once =
      total_groups ls xs ∙ total_once (λ x. count_rows (λ k. R k x) ls) xs once
