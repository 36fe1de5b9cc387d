-- ===== src/Consistency/Seats.antt =====
-- What the numbering of the slots gives.
use cloudflare_r2_bench.Base.{
  In, ℕ, ◌+◌, ◌≤◌, ◌≡◌, ◌⊎◌, refl, false, ◌&&◌, List, [], ◌∷◌, ◌++◌, Text, text_eq, text_eq_sound,
  text_eq_refl, count_rows, any_row, arith, ◌==◌, All, some, first_row, Bool-cases, inl, inr,
}
use cloudflare_r2_bench.Db.{Job, Spawn}
use cloudflare_r2_bench.Consistency.{in_job, has_id, Numbered, Distinct}

pub Numbered-append :
    (before ss : List Spawn) (s : Spawn)
    → Numbered before ss
    → s.slot ≡ count_rows (in_job s.job_id) before + count_rows (in_job s.job_id) ss
    → Numbered before (ss ++ s ∷ [])
Numbered-append before [] s n h = (omega arith, tt)
Numbered-append before (x ∷ ss) s n h = (n.0, Numbered-append (x ∷ before) ss s n.1 (ground arith))

-- A slot from the occupancy on is free.
pub slot_free :
    (before ss : List Spawn) (id : Text) (slot : ℕ)
    → Numbered before ss
    → count_rows (in_job id) before + count_rows (in_job id) ss ≤ slot
    → any_row (λ s. text_eq s.job_id id && (s.slot == slot)) ss ≡ false
slot_free before [] id slot n h = refl
slot_free before (x ∷ ss) id slot n h = elim (Bool-cases (text_eq x.job_id id)) [
  | inl hit ↦
      let same : x.job_id ≡ id = text_eq_sound x.job_id id hit in
      let at_head : x.slot ≡ count_rows (in_job id) before = rw (← same) n.0 in
      ground (arith, slot_free (x ∷ before) ss id slot n.1)
  | inr miss ↦ ground (arith, slot_free (x ∷ before) ss id slot n.1)
]

none_of :
    (js : List Job) (id : Text) (j : Job)
    → any_row (has_id id) js ≡ false
    → All (λ k. (has_id id k ≡ false) ⊎ (k ≡ j)) js
none_of [] id j h = tt
none_of (x ∷ js) id j h = (inl (ground arith), none_of js id j (ground arith))

-- With distinct ids a row that is found by its id is the only one of that id.
pub only_row :
    (js : List Job) (id : Text) (j : Job)
    → Distinct js
    → first_row (has_id id) js ≡ some j
    → All (λ k. (has_id id k ≡ false) ⊎ (k ≡ j)) js
only_row [] id j d f = tt
only_row (x ∷ js) id j d f = elim (Bool-cases (text_eq x.job_id id)) [
  | inl hit ↦
      let same : x.job_id ≡ id = text_eq_sound x.job_id id hit in
      (inr (ground arith), none_of js id j (rw (← same) d.0))
  | inr miss ↦ (inl miss, only_row js id j d.1 (ground arith))
]

not_found :
    (js : List Job) (id : Text) (j : Job)
    → any_row (has_id id) js ≡ false
    → In j js
    → text_eq j.job_id id ≡ false
not_found [] id j h i = absurd i
not_found (x ∷ js) id j h (inl e) = rw (← e) (ground arith)
not_found (x ∷ js) id j h (inr i) = not_found js id j (ground arith) i

-- With distinct ids every row is the one that its id finds.
pub find-In :
    (js : List Job) (j : Job) → Distinct js → In j js → first_row (has_id j.job_id) js ≡ some j
find-In [] j d i = absurd i
find-In (x ∷ js) j d (inl e) = rw e (ground (arith, text_eq_refl j.job_id))
find-In (x ∷ js) j d (inr i) = elim (Bool-cases (text_eq x.job_id j.job_id)) [
  | inl hit ↦
      let same : x.job_id ≡ j.job_id = text_eq_sound x.job_id j.job_id hit in
      let other : text_eq j.job_id x.job_id ≡ false = not_found js x.job_id j d.0 i in
      let self : text_eq j.job_id j.job_id ≡ false = rw same at other in
      cc (text_eq_refl j.job_id, self)
  | inr miss ↦ ground (arith, find-In js j d.1 i)
]
