-- ===== src/Fleet/Rows.antt =====
-- How the rows of JOB_SPAWNS stand for a roster.
use cloudflare_r2_bench.Base.{
  ℕ, suc, ◌≡◌, refl, sym, ap, subst, ◌∙◌, inl, inr, Bool, true, false, none, some, List, [], ◌∷◌,
  ◌++◌, Text, text_eq, text_eq_sound, length, codes, if◌then◌else◌, update_rows, count_rows,
  first_row, All, Bool-cases, arith,
}
use cloudflare_r2_bench.Types.{running}
use cloudflare_r2_bench.Db.{Spawn}
use cloudflare_r2_bench.Consistency.{in_job, Numbered}
use cloudflare_r2_bench.Agents.{spawn_id_of}
use cloudflare_r2_bench.Fleet.{seat_from, roster_in, starts_with, IsTidy}

abbrev has_name : Text → Spawn → Bool
has_name id s = text_eq s.spawn_id id

roster_in_hit :
    (job_id : Text) (s : Spawn) (ss : List Spawn)
    → in_job job_id s ≡ true
    → roster_in job_id (s ∷ ss) ≡ s.spawn_id ∷ roster_in job_id ss
unfolding roster_in
roster_in_hit job_id s ss h = rw h refl

roster_in_miss :
    (job_id : Text) (s : Spawn) (ss : List Spawn)
    → in_job job_id s ≡ false
    → roster_in job_id (s ∷ ss) ≡ roster_in job_id ss
unfolding roster_in
roster_in_miss job_id s ss h = rw h refl

pub length-roster_in :
    (job_id : Text) (ss : List Spawn) → length (roster_in job_id ss) ≡ count_rows (in_job job_id) ss
unfolding roster_in
length-roster_in job_id [] = refl
length-roster_in job_id (s ∷ ss) = elim (Bool-cases (in_job job_id s)) [
  | inl hit ↦ rw hit (ap suc (length-roster_in job_id ss))
  | inr miss ↦ rw miss (length-roster_in job_id ss)
]

pub roster_in-append :
    (job_id : Text) (ss : List Spawn) (s : Spawn)
    → in_job job_id s ≡ true
    → roster_in job_id (ss ++ s ∷ []) ≡ roster_in job_id ss ++ s.spawn_id ∷ []
unfolding roster_in
roster_in-append job_id [] s h = rw h refl
roster_in-append job_id (x ∷ ss) s h = elim (Bool-cases (in_job job_id x)) [
  | inl hit ↦ rw hit (ap (λ (r : List Text). x.spawn_id ∷ r) (roster_in-append job_id ss s h))
  | inr miss ↦ rw miss (roster_in-append job_id ss s h)
]

-- Neither an UPDATE that keeps names and jobs changes the roster, nor whether the table is tidy.
module _ (job_id : Text) (q : Spawn → Bool) (f : Spawn → Spawn)
    (same_name : (s : Spawn) → (f s).spawn_id ≡ s.spawn_id)
    (same_job : (s : Spawn) → (f s).job_id ≡ s.job_id)
    (same_status : (s : Spawn) → (f s).status ≡ s.status) where
  picked : Spawn → Spawn
  picked s = if q s then f s else s

  picked_same : (s : Spawn) → ((picked s).spawn_id ≡ s.spawn_id) × ((picked s).job_id ≡ s.job_id)
  unfolding picked
  picked_same s = elim (Bool-cases (q s)) [
    | inl hit ↦ rw hit (same_name s, same_job s)
    | inr miss ↦ rw miss (refl, refl)
  ]

  pub roster_in-update_rows :
      (ss : List Spawn) → roster_in job_id (update_rows q f ss) ≡ roster_in job_id ss
  unfolding picked
  roster_in-update_rows [] = refl
  roster_in-update_rows (s ∷ ss) =
      let (name, job) = picked_same s in
      let rest = roster_in-update_rows ss in
      elim (Bool-cases (in_job job_id s)) [
        | inl hit ↦
            roster_in_hit job_id (picked s) (update_rows q f ss) (rw job hit)
            ∙ rw (name, rest) refl
            ∙ sym (roster_in_hit job_id s ss hit)
        | inr miss ↦
            roster_in_miss job_id (picked s) (update_rows q f ss) (rw job miss)
            ∙ rest
            ∙ sym (roster_in_miss job_id s ss miss)
      ]

  pub IsTidy-update_rows :
      (ss : List Spawn) → All (IsTidy job_id) ss → All (IsTidy job_id) (update_rows q f ss)
  IsTidy-update_rows [] h = tt
  IsTidy-update_rows (s ∷ ss) h = (
    elim (Bool-cases (q s)) [
      | inl hit ↦ rw (hit, same_name s, same_job s, same_status s) h.0
      | inr miss ↦ rw miss h.0
    ],
    IsTidy-update_rows ss h.1,
  )

pub starts_with-spawn_id_of :
    (job_id agent_id : Text)
    → starts_with (job_id ++ codes "-") (spawn_id_of job_id agent_id) ≡ true
unfolding starts_with spawn_id_of
starts_with-spawn_id_of [] agent_id = refl
starts_with-spawn_id_of (c ∷ job_id) agent_id =
    ground (arith, starts_with-spawn_id_of job_id agent_id)

seat_from_here :
    (n : ℕ) (id x : Text) (xs : List Text) → text_eq x id ≡ true → seat_from n id (x ∷ xs) ≡ some n
unfolding seat_from
seat_from_here n id x xs h = rw h refl

seat_from_there :
    (n : ℕ) (id x : Text) (xs : List Text)
    → text_eq x id ≡ false
    → seat_from n id (x ∷ xs) ≡ seat_from (suc n) id xs
unfolding seat_from
seat_from_there n id x xs h = rw h refl

-- A tidy spawn with a name of the job's is one of the job.
tidy_named :
    (job_id : Text) (s : Spawn)
    → starts_with (job_id ++ codes "-") s.spawn_id ≡ true
    → IsTidy job_id s
    → (text_eq s.job_id job_id ≡ true) × (s.status ≡ running)
tidy_named job_id s named (inl mine) = mine
tidy_named job_id s named (inr (_, other)) = cc

-- A spawn of the job that is found by its name has the seat that is its slot, and runs.
pub seat_from_found :
    (job_id id : Text) (before ss : List Spawn) (s : Spawn)
    → starts_with (job_id ++ codes "-") id ≡ true
    → All (IsTidy job_id) ss
    → Numbered before ss
    → first_row (has_name id) ss ≡ some s
    → (seat_from (count_rows (in_job job_id) before) id (roster_in job_id ss) ≡ some s.slot)
      × (s.status ≡ running)
seat_from_found job_id id before [] s named tidy numbered found = cc
seat_from_found job_id id before (x ∷ ss) s named tidy numbered found =
    elim (Bool-cases (text_eq x.spawn_id id)) [
      | inl hit ↦
          let same : x ≡ s = some_spawn (rw hit at found) in
          let name : x.spawn_id ≡ id = text_eq_sound x.spawn_id id hit in
          let (mine, runs) = tidy_named job_id x (rw name named) tidy.0 in
          let job : x.job_id ≡ job_id = text_eq_sound x.job_id job_id mine in
          let slot : x.slot ≡ count_rows (in_job job_id) before = rw job at numbered.0 in
          subst
            (λ (t : Spawn).
              (seat_from (count_rows (in_job job_id) before) id (roster_in job_id (x ∷ ss))
                ≡ some t.slot)
              × (t.status ≡ running))
            same
            (
              ap (seat_from (count_rows (in_job job_id) before) id) (roster_in_hit job_id x ss mine)
                  ∙ seat_from_here (count_rows (in_job job_id) before) id x.spawn_id
                      (roster_in job_id ss) hit
                  ∙ ap some (sym slot),
              runs,
            )
      | inr miss ↦
          let (seat, runs) =
            seat_from_found job_id id (x ∷ before) ss s named tidy.1 numbered.1
              (rw miss at found) in
          elim (Bool-cases (in_job job_id x)) [
            | inl mine ↦ (
              ap (seat_from (count_rows (in_job job_id) before) id) (roster_in_hit job_id x ss mine)
                  ∙ seat_from_there (count_rows (in_job job_id) before) id x.spawn_id
                      (roster_in job_id ss) miss
                  ∙ (rw mine at seat),
              runs,
            )
            | inr other ↦ (
              ap (seat_from (count_rows (in_job job_id) before) id)
                    (roster_in_miss job_id x ss other)
                  ∙ (rw other at seat),
              runs,
            )
          ]
    ]
  where
    some_spawn : {a b : Spawn} → some a ≡ some b → a ≡ b
    some_spawn e = cc

seat_from-empty : (job_id id : Text) (n : ℕ) → seat_from n id (roster_in job_id []) ≡ none
unfolding seat_from roster_in
seat_from-empty job_id id n = refl

pub seat_from-none :
    (job_id id : Text) (n : ℕ) (ss : List Spawn)
    → first_row (has_name id) ss ≡ none
    → seat_from n id (roster_in job_id ss) ≡ none
seat_from-none job_id id n [] h = seat_from-empty job_id id n
seat_from-none job_id id n (x ∷ ss) h = elim (Bool-cases (text_eq x.spawn_id id)) [
  | inl hit ↦ absurd (some_none (rw hit at h))
  | inr miss ↦ elim (Bool-cases (in_job job_id x)) [
    | inl mine ↦
        ap (seat_from n id) (roster_in_hit job_id x ss mine)
        ∙ seat_from_there n id x.spawn_id (roster_in job_id ss) miss
        ∙ seat_from-none job_id id (suc n) ss (rw miss at h)
    | inr other ↦
        ap (seat_from n id) (roster_in_miss job_id x ss other)
        ∙ seat_from-none job_id id n ss (rw miss at h)
  ]
]
  where
    some_none : {a : Spawn} → some a ≡ none → ⊥
    some_none e = cc
