-- ===== src/Schedule/Keeps.antt =====
-- The rely and guarantee argument: a program keeps the invariant if each of its statements does, from
-- any consistent database that what it has seen may have become in the meantime.
use cloudflare_r2_bench.Base.{
  ℕ, zero, suc, List, [], ◌∷◌, Bool, true, false, Option, none, some, ◌≡◌, refl, if◌then◌else◌,
}
use cloudflare_r2_bench.Db.{Db}
use cloudflare_r2_bench.Db.Prog.{
  Prog, done, throw, atomic, throw_on_none, ◌>>=◌, run, unauthorized, failure,
}
use cloudflare_r2_bench.History.{Evolves, Evolves-trans, Rewrites, Rewrites-Evolves}
use cloudflare_r2_bench.Consistency.{IsConsistent}
use cloudflare_r2_bench.Consistency.Rewriting.{Rewrites-IsConsistent}
use cloudflare_r2_bench.Consistency.Inserting.{Evolves-refl}
use cloudflare_r2_bench.Orchestrator.Route.{Response, catch_unauthorized, catch_all}
use cloudflare_r2_bench.Schedule.{Reply, World, advance, effect, before, step, interleave}

abbrev pub Allowed : Db → Db → Type 0
Allowed before after = IsConsistent after × Evolves before after

abbrev pub Keeps : {A : Type 0} → Prog A → Db → Type 0
Keeps (done a) seen = Unit
Keeps (throw e) seen = Unit
Keeps (atomic f k) seen =
    (db : Db) → IsConsistent db → Evolves seen db → Allowed db (f db) × Keeps (k db) (f db)

Keeps-later :
    {A : Type 0} (m : Prog A) (seen now : Db) → Evolves seen now → Keeps m seen → Keeps m now
Keeps-later (done a) seen now e k = tt
Keeps-later (throw x) seen now e k = tt
Keeps-later (atomic f m) seen now e k = λ db c r. k db c (Evolves-trans seen now db e r)

pub Keeps->>= :
    {A B : Type 0} (m : Prog A) (f : A → Prog B) (seen : Db)
    → Keeps m seen
    → ((a : A) (now : Db) → Keeps (f a) now)
    → Keeps (m >>= f) seen
Keeps->>= (done a) f seen k h = h a seen
Keeps->>= (throw e) f seen k h = tt
Keeps->>= (atomic c m) f seen k h =
    λ db p r. let (now, rest) = k db p r in (now, Keeps->>= (m db) f (c db) rest h)

pub Keeps-catch_unauthorized :
    (m : Prog Response) (seen : Db) → Keeps m seen → Keeps (catch_unauthorized m) seen
unfolding catch_unauthorized
Keeps-catch_unauthorized (done r) seen k = tt
Keeps-catch_unauthorized (throw (unauthorized t)) seen k = tt
Keeps-catch_unauthorized (throw failure) seen k = tt
Keeps-catch_unauthorized (atomic f m) seen k =
    λ db p r. let (now, rest) = k db p r in (now, Keeps-catch_unauthorized (m db) (f db) rest)

pub Keeps-catch_all : (m : Prog Response) (seen : Db) → Keeps m seen → Keeps (catch_all m) seen
unfolding catch_all
Keeps-catch_all (done r) seen k = tt
Keeps-catch_all (throw e) seen k = tt
Keeps-catch_all (atomic f m) seen k =
    λ db p r. let (now, rest) = k db p r in (now, Keeps-catch_all (m db) (f db) rest)

pub Keeps-if :
    {A : Type 0} (b : Bool) (m n : Prog A) (seen : Db)
    → Keeps m seen
    → Keeps n seen
    → Keeps (if b then m else n) seen
Keeps-if true m n seen k h = k
Keeps-if false m n seen k h = h

pub Keeps-option :
    {A B : Type 0} (o : Option B) (m : Prog A) (f : B → Prog A) (seen : Db)
    → Keeps m seen
    → ((b : B) → o ≡ some b → Keeps (f b) seen)
    → Keeps (elim o [ none ↦ m | some b ↦ f b ]) seen
Keeps-option none m f seen k h = k
Keeps-option (some b) m f seen k h = h b refl

pub Keeps-throw_on_none : (o : Option Db) (seen : Db) → Keeps (throw_on_none o) seen
Keeps-throw_on_none none seen = tt
Keeps-throw_on_none (some db) seen = tt

-- A query changes nothing.
pub Allowed-refl : (db : Db) → IsConsistent db → Allowed db db
Allowed-refl db c = (c, Evolves-refl db)

-- A run that nothing interrupts.
pub run-Allowed :
    {A : Type 0} (m : Prog A) (db : Db) → Keeps m db → IsConsistent db → Allowed db (run m db).1
run-Allowed (done a) db k c = Allowed-refl db c
run-Allowed (throw e) db k c = Allowed-refl db c
run-Allowed (atomic f m) db k c =
    let ((c', e'), rest) = k db c (Evolves-refl db) in
    let (c₂, e₂) = run-Allowed (m db) (f db) rest c' in
    (c₂, Evolves-trans db (f db) (run (m db) (f db)).1 e' e₂)

pub Allowed-Rewrites : (a b : Db) → Rewrites a b → IsConsistent a → Allowed a b
Allowed-Rewrites a b r c = (Rewrites-IsConsistent a b r c, Rewrites-Evolves a b r)

-- Every thread keeps the invariant from here.
abbrev pub AllKeep : List (Prog Reply) → Db → Type 0
AllKeep [] db = Unit
AllKeep (p ∷ ps) db = Keeps p db × AllKeep ps db

AllKeep-later :
    (ps : List (Prog Reply)) (seen now : Db) → Evolves seen now → AllKeep ps seen → AllKeep ps now
AllKeep-later [] seen now e k = tt
AllKeep-later (p ∷ ps) seen now e k =
    (Keeps-later p seen now e k.0, AllKeep-later ps seen now e k.1)

abbrev pub Sound : Db → World → Type 0
Sound start w = IsConsistent w.db × Evolves start w.db × AllKeep w.threads w.db

effect-Sound :
    (p : Prog Reply) (db : Db)
    → IsConsistent db
    → Keeps p db
    → Allowed db (effect p db) × Keeps (advance p db) (effect p db)
effect-Sound (done r) db c k = (Allowed-refl db c, tt)
effect-Sound (throw e) db c k = (Allowed-refl db c, tt)
effect-Sound (atomic f m) db c k = k db c (Evolves-refl db)

step-Sound :
    (n : ℕ) (ps : List (Prog Reply)) (db : Db)
    → IsConsistent db
    → AllKeep ps db
    → Sound db (step n ps db)
unfolding step
step-Sound n [] db c k = (c, Evolves-refl db, tt)
step-Sound zero (p ∷ ps) db c k =
    let ((now, moved), rest) = effect-Sound p db c k.0 in
    (now, moved, (rest, AllKeep-later ps db (effect p db) moved k.1))
step-Sound (suc n) (p ∷ ps) db c k =
    let (now, moved, rest) = step-Sound n ps db c k.1 in
    (now, moved, (Keeps-later p db (step n ps db).db moved k.0, rest))

pub interleave-Sound :
    (ns : List ℕ) (w : World)
    → IsConsistent w.db
    → AllKeep w.threads w.db
    → Sound w.db (interleave ns w)
unfolding interleave
interleave-Sound [] w c k = (c, Evolves-refl w.db, k)
interleave-Sound (n ∷ ns) w c k =
    let next = step n w.threads w.db in
    let (now, moved, rest) = step-Sound n w.threads w.db c k in
    let (later, on, end) = interleave-Sound ns next now rest in
    (later, Evolves-trans w.db next.db (interleave ns next).db moved on, end)
