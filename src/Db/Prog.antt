-- ===== src/Db/Prog.antt =====
-- A handler as a program over the database. Each `atomic` node is one D1 statement, or one batch:
-- it changes the database at once, and what follows may depend on what it found there. Between two
-- nodes any other handler may run, since each statement is awaited.
use cloudflare_r2_bench.Base.{Text, ◌≡◌, refl, Option, none, some}
use cloudflare_r2_bench.Db.{Db}

-- `UnauthorizedError` with its message, or any other exception.
pub data Error : Type 0 where
  unauthorized : Text → Error
  failure : Error

pub data Prog (A : Type 0) : Type 0 where
  done : A → Prog A
  throw : Error → Prog A
  atomic : (Db → Db) → (Db → Prog A) → Prog A

infixl 5 ◌>>=◌ ◌>>◌
abbrev pub ◌>>=◌ : {A B : Type 0} → Prog A → (A → Prog B) → Prog B
done a >>= f = f a
throw e >>= f = throw e
atomic c k >>= f = atomic c (λ db. k db >>= f)

abbrev pub ◌>>◌ : {A B : Type 0} → Prog A → Prog B → Prog B
m >> k = m >>= λ _. k

-- A `SELECT`.
abbrev pub select : {A : Type 0} → (Db → A) → Prog A
select f = atomic (λ db. db) (λ db. done (f db))

-- An `UPDATE`, or a batch of them.
abbrev pub execute : (Db → Db) → Prog (Unit {0})
execute f = atomic f (λ _. done tt)

-- An `UPDATE` of which the number of changed rows is read.
abbrev pub execute_counted : {A : Type 0} → (Db → Db) → (Db → A) → Prog A
execute_counted f count = atomic f (λ db. done (count db))

abbrev pub or_same : Db → Option Db → Db
or_same db none = db
or_same db (some db') = db'

abbrev pub throw_on_none : Option Db → Prog (Unit {0})
throw_on_none none = throw failure
throw_on_none (some _) = done tt

-- A statement, or a batch, that a constraint may refuse: then nothing is written, and it throws.
abbrev pub execute_checked : (Db → Option Db) → Prog (Unit {0})
execute_checked f = atomic (λ db. or_same db (f db)) (λ db. throw_on_none (f db))

pub data Outcome (A : Type 0) : Type 0 where
  returned : A → Outcome A
  thrown : Error → Outcome A

-- A handler that nothing interrupts.
abbrev pub run : {A : Type 0} → Prog A → Db → Outcome A × Db
run (done a) db = (returned a, db)
run (throw e) db = (thrown e, db)
run (atomic f k) db = run (k db) (f db)

abbrev pub continue_with : {A B : Type 0} → (A → Prog B) → Outcome A × Db → Outcome B × Db
continue_with f (returned a, db) = run (f a) db
continue_with f (thrown e, db) = (thrown e, db)

pub run->>= :
    {A B : Type 0} (m : Prog A) (f : A → Prog B) (db : Db)
    → run (m >>= f) db ≡ continue_with f (run m db)
run->>= (done a) f db = refl
run->>= (throw e) f db = refl
run->>= (atomic c k) f db = run->>= (k db) f (c db)
