-- ===== src/Consistency/Slots.antt =====
-- Consequences of the numbering: the slots of a job are distinct, and below its agents.
use cloudflare_r2_bench.Base.{
  ℕ, ◌+◌, ◌≤◌, ◌<◌, ◌≡◌, ◌≢◌, ◌⊎◌, inl, inr, false, List, [], ◌∷◌, some, Text, text_eq,
  text_eq_sound, text_eq_refl, count_rows, first_row, All, arith, Bool-cases,
}
use cloudflare_r2_bench.Db.{Db, Job, Spawn}
use cloudflare_r2_bench.Consistency.{IsConsistent, Numbered, HasRoom, has_id, in_job}

-- Two rows of one job have different slots.
abbrev pub Apart : Spawn → Spawn → Type 0
Apart s t = (text_eq s.job_id t.job_id ≡ false) ⊎ (s.slot ≢ t.slot)

abbrev pub AllApart : List Spawn → Type 0
AllApart [] = Unit
AllApart (s ∷ ss) = All (Apart s) ss × AllApart ss

later_slot :
    (id : Text) (slot : ℕ) (before : List Spawn) (t : Spawn)
    → t.slot ≡ count_rows (in_job t.job_id) before
    → slot < count_rows (in_job id) before
    → (text_eq id t.job_id ≡ false) ⊎ (slot ≢ t.slot)
later_slot id slot before t seat h = elim (Bool-cases (text_eq id t.job_id)) [
  | inr other ↦ inl other
  | inl hit ↦
      let same : id ≡ t.job_id = text_eq_sound id t.job_id hit in
      let here : t.slot ≡ count_rows (in_job id) before = rw same seat in inr (omega arith)
]

-- Rows after one of slot `slot` are apart from it.
rest-Apart :
    (s : Spawn) (before ss : List Spawn)
    → s.slot < count_rows (in_job s.job_id) before
    → Numbered before ss
    → All (Apart s) ss
rest-Apart s before [] h n = tt
rest-Apart s before (t ∷ ss) h n =
    (later_slot s.job_id s.slot before t n.0 h, rest-Apart s (t ∷ before) ss (ground arith) n.1)

Numbered-AllApart : (before ss : List Spawn) → Numbered before ss → AllApart ss
Numbered-AllApart before [] n = tt
Numbered-AllApart before (s ∷ ss) n = (
  rest-Apart s (s ∷ before) ss (ground (arith, text_eq_refl s.job_id)) n.1,
  Numbered-AllApart (s ∷ before) ss n.1,
)

pub IsConsistent-AllApart : (db : Db) → IsConsistent db → AllApart db.spawns
IsConsistent-AllApart db c = Numbered-AllApart [] db.spawns c.numbered

-- The row is of another job, or its slot is below the bound.
abbrev pub SlotBelow : Text → ℕ → Spawn → Type 0
SlotBelow id n s = (text_eq s.job_id id ≡ false) ⊎ (s.slot < n)

slots_below :
    (id : Text) (n : ℕ) (before ss : List Spawn)
    → Numbered before ss
    → count_rows (in_job id) before + count_rows (in_job id) ss ≤ n
    → All (SlotBelow id n) ss
slots_below id n before [] k h = tt
slots_below id n before (s ∷ ss) k h = elim (Bool-cases (text_eq s.job_id id)) [
  | inr miss ↦ (inl miss, slots_below id n (s ∷ before) ss k.1 (ground arith))
  | inl hit ↦
      let same : s.job_id ≡ id = text_eq_sound s.job_id id hit in
      let seat : s.slot ≡ count_rows (in_job id) before = rw (← same) k.0 in
      (inr (ground arith), slots_below id n (s ∷ before) ss k.1 (ground arith))
]

pub room_of :
    (spawns : List Spawn) (js : List Job) (id : Text) (j : Job)
    → All (HasRoom spawns) js
    → first_row (has_id id) js ≡ some j
    → count_rows (in_job id) spawns ≤ j.agents
room_of spawns [] id j r f = cc
room_of spawns (x ∷ js) id j r f = elim (Bool-cases (text_eq x.job_id id)) [
  | inr miss ↦ room_of spawns js id j r.1 (ground arith)
  | inl hit ↦
      let same : x.job_id ≡ id = text_eq_sound x.job_id id hit in
      let here : count_rows (in_job id) spawns ≤ x.agents = rw (← same) r.0 in ground arith
]

pub IsConsistent-SlotBelow :
    (db : Db) (id : Text) (j : Job)
    → IsConsistent db
    → first_row (has_id id) db.jobs ≡ some j
    → All (SlotBelow id j.agents) db.spawns
IsConsistent-SlotBelow db id j c f =
    slots_below id j.agents [] db.spawns c.numbered
      (omega (arith, room_of db.spawns db.jobs id j c.room f))
