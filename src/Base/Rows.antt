-- ===== src/Base/Rows.antt =====
-- How one state of a table relates to a later one: row by row (`Updates`), perhaps with rows added
-- at the end (`Grows`).
use cloudflare_r2_bench.Base.Tests.{Bool-cases}
use cloudflare_r2_bench.Base.Lists.{update_rows, count_rows, any_row, first_row}
use mathlib.Core.Path.{◌≡◌, refl, ap₂, subst}
use mathlib.Core.Logic.{inl, inr}
use mathlib.Core.Bool.{Bool, true}
use mathlib.Core.Option.{some}
use mathlib.Core.List.{List, [], ◌∷◌, ◌++◌, map}
use native.Mathlib.Omega.{arith}

module _ {A : Type 0} (R : A → A → Type 0) where
  abbrev pub Updates : List A → List A → Type 0
  Updates [] [] = Unit
  Updates [] (_ ∷ _) = ⊥
  Updates (_ ∷ _) [] = ⊥
  Updates (x ∷ xs) (y ∷ ys) = R x y × Updates xs ys

  abbrev pub Grows : List A → List A → Type 0
  Grows [] ys = Unit
  Grows (_ ∷ _) [] = ⊥
  Grows (x ∷ xs) (y ∷ ys) = R x y × Grows xs ys

  pub Updates-Grows : (xs ys : List A) → Updates xs ys → Grows xs ys
  Updates-Grows [] ys u = tt
  Updates-Grows (x ∷ xs) [] u = u
  Updates-Grows (x ∷ xs) (y ∷ ys) u = (u.0, Updates-Grows xs ys u.1)

  module _ (R_refl : (x : A) → R x x) where
    pub Updates-refl : (xs : List A) → Updates xs xs
    Updates-refl [] = tt
    Updates-refl (x ∷ xs) = (R_refl x, Updates-refl xs)

    pub Grows-append : (xs ys : List A) → Grows xs (xs ++ ys)
    Grows-append [] ys = tt
    Grows-append (x ∷ xs) ys = (R_refl x, Grows-append xs ys)

    -- An UPDATE whose change is allowed on the rows that it takes.
    pub Updates-update_rows :
        (p : A → Bool) (f : A → A)
        → ((x : A) → p x ≡ true → R x (f x))
        → (xs : List A) → Updates xs (update_rows p f xs)
    Updates-update_rows p f step [] = tt
    Updates-update_rows p f step (x ∷ xs) = (
      elim (Bool-cases (p x)) [ inl hit ↦ rw hit (step x hit) | inr miss ↦ rw miss (R_refl x) ],
      Updates-update_rows p f step xs,
    )

  module _ (R_trans : (x y z : A) → R x y → R y z → R x z) where
    pub Grows-trans : (xs ys zs : List A) → Grows xs ys → Grows ys zs → Grows xs zs
    Grows-trans [] ys zs g h = tt
    Grows-trans (x ∷ xs) [] zs g h = absurd g
    Grows-trans (x ∷ xs) (y ∷ ys) [] g h = h
    Grows-trans (x ∷ xs) (y ∷ ys) (z ∷ zs) g h =
        (R_trans x y z g.0 h.0, Grows-trans xs ys zs g.1 h.1)

    pub Updates-trans : (xs ys zs : List A) → Updates xs ys → Updates ys zs → Updates xs zs
    Updates-trans [] [] [] g h = tt
    Updates-trans [] [] (z ∷ zs) g h = h
    Updates-trans [] (y ∷ ys) zs g h = absurd g
    Updates-trans (x ∷ xs) [] zs g h = absurd g
    Updates-trans (x ∷ xs) (y ∷ ys) [] g h = h
    Updates-trans (x ∷ xs) (y ∷ ys) (z ∷ zs) g h =
        (R_trans x y z g.0 h.0, Updates-trans xs ys zs g.1 h.1)

  -- A column that the updates leave alone.
  map-Updates :
      {B : Type 0} (key : A → B)
      → ((x y : A) → R x y → key x ≡ key y)
      → (xs ys : List A) → Updates xs ys
      → map key xs ≡ map key ys
  map-Updates key same [] [] u = refl
  map-Updates key same [] (y ∷ ys) u = absurd u
  map-Updates key same (x ∷ xs) [] u = absurd u
  map-Updates key same (x ∷ xs) (y ∷ ys) u = ap₂ ◌∷◌ (same x y u.0) (map-Updates key same xs ys u.1)

  module _ (p : A → Bool) (same : (x y : A) → R x y → p x ≡ p y) where
    pub count_rows-Updates : (xs ys : List A) → Updates xs ys → count_rows p xs ≡ count_rows p ys
    count_rows-Updates [] [] u = refl
    count_rows-Updates [] (y ∷ ys) u = absurd u
    count_rows-Updates (x ∷ xs) [] u = absurd u
    count_rows-Updates (x ∷ xs) (y ∷ ys) u =
        ground (arith, same x y u.0, count_rows-Updates xs ys u.1)

    pub any_row-Updates : (xs ys : List A) → Updates xs ys → any_row p xs ≡ any_row p ys
    any_row-Updates [] [] u = refl
    any_row-Updates [] (y ∷ ys) u = absurd u
    any_row-Updates (x ∷ xs) [] u = absurd u
    any_row-Updates (x ∷ xs) (y ∷ ys) u = ground (arith, same x y u.0, any_row-Updates xs ys u.1)

    -- A row that is found by a column that never changes is found again, as it became.
    pub first_row-Grows :
        (xs ys : List A) (x : A)
        → Grows xs ys
        → first_row p xs ≡ some x
        → (y : A) × (first_row p ys ≡ some y) × R x y
    first_row-Grows [] ys x g h = cc
    first_row-Grows (z ∷ xs) [] x g h = absurd g
    first_row-Grows (z ∷ xs) (y ∷ ys) x g h = elim (Bool-cases (p z)) [
      | inl hit ↦
          let found : z ≡ x = ground arith in
          (y, ground (arith, same z y g.0), subst (λ v. R v y) found g.0)
      | inr miss ↦
          let (y', found, r) = first_row-Grows xs ys x g.1 (ground arith) in
          (y', ground (arith, same z y g.0), r)
    ]
