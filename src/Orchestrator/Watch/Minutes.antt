-- ===== src/Orchestrator/Watch/Minutes.antt =====
-- The minutes of the response: each once, the latest first.
use cloudflare_r2_bench.Base.{
  In, ℕ, suc, ◌≡◌, ◌<◌, refl, ap, ◌∙◌, true, ◌||◌, List, [], ◌∷◌, ltb, ◌==◌, count_rows, any_row,
  All, Bool-cases, inl, inr, arith,
}
use cloudflare_r2_bench.Orchestrator.Watch.{Sample, insert_minute, minutes}

-- Falling strictly.
abbrev pub IsFalling : List ℕ → Type 0
IsFalling [] = Unit
IsFalling (t ∷ ts) = All (λ u. u < t) ts × IsFalling ts

All-below : (a b : ℕ) (ts : List ℕ) → a < b → All (λ u. u < a) ts → All (λ u. u < b) ts
All-below a b [] h k = tt
All-below a b (t ∷ ts) h k = (omega arith, All-below a b ts h k.1)

All-insert_minute :
    (t b : ℕ) (us : List ℕ) → t < b → All (λ u. u < b) us → All (λ u. u < b) (insert_minute t us)
unfolding insert_minute
All-insert_minute t b [] h k = (h, tt)
All-insert_minute t b (u ∷ us) h k = elim (Bool-cases (t == u)) [
  | inl same ↦ rw same k
  | inr other ↦ elim (Bool-cases (ltb u t)) [
    | inl later ↦ rw (other, later) (h, k)
    | inr before ↦ rw (other, before) (k.0, All-insert_minute t b us h k.1)
  ]
]

insert_minute-IsFalling : (t : ℕ) (us : List ℕ) → IsFalling us → IsFalling (insert_minute t us)
unfolding insert_minute
insert_minute-IsFalling t [] f = (tt, tt)
insert_minute-IsFalling t (u ∷ us) f = elim (Bool-cases (t == u)) [
  | inl same ↦ rw same f
  | inr other ↦ elim (Bool-cases (ltb u t)) [
    | inl later ↦
        let lt : u < t = ground arith in rw (other, later) ((lt, All-below u t us lt f.0), f)
    | inr before ↦
        let lt : t < u = ground arith in
        rw (other, before) (All-insert_minute t u us lt f.0, insert_minute-IsFalling t us f.1)
  ]
]

pub minutes-IsFalling : (ss : List Sample) → IsFalling (minutes ss)
unfolding minutes
minutes-IsFalling [] = tt
minutes-IsFalling (s ∷ ss) = insert_minute-IsFalling s.minute (minutes ss) (minutes-IsFalling ss)

any_row-insert_minute :
    (x t : ℕ) (us : List ℕ)
    → any_row (λ u. x == u) (insert_minute t us) ≡ ((x == t) || any_row (λ u. x == u) us)
unfolding insert_minute
any_row-insert_minute x t [] = refl
any_row-insert_minute x t (u ∷ us) = ground (arith, any_row-insert_minute x t us)

any_row-minutes :
    (s : Sample) (ss : List Sample) → In s ss → any_row (λ u. s.minute == u) (minutes ss) ≡ true
unfolding minutes
any_row-minutes s [] i = absurd i
any_row-minutes s (x ∷ ss) (inl e) =
    any_row-insert_minute s.minute x.minute (minutes ss) ∙ rw e (ground arith)
any_row-minutes s (x ∷ ss) (inr i) =
    any_row-insert_minute s.minute x.minute (minutes ss) ∙ ground (arith, any_row-minutes s ss i)

none_below : (x t : ℕ) (us : List ℕ) → All (λ u. u < t) us → x ≡ t → count_rows (λ u. x == u) us ≡ 0
none_below x t [] h e = refl
none_below x t (u ∷ us) h e = ground (arith, none_below x t us h.1 e)

count-IsFalling :
    (x : ℕ) (us : List ℕ)
    → IsFalling us
    → any_row (λ u. x == u) us ≡ true
    → count_rows (λ u. x == u) us ≡ 1
count-IsFalling x [] f h = cc
count-IsFalling x (u ∷ us) f h = elim (Bool-cases (x == u)) [
  | inl hit ↦ rw hit (ap suc (none_below x u us f.0 (ground arith)))
  | inr miss ↦ rw miss (count-IsFalling x us f.1 (rw miss at h))
]

-- Each sample's minute is listed once.
pub minutes_once :
    (ss : List Sample) (s : Sample) → In s ss → count_rows (λ t. s.minute == t) (minutes ss) ≡ 1
minutes_once ss s i =
    count-IsFalling s.minute (minutes ss) (minutes-IsFalling ss) (any_row-minutes s ss i)
