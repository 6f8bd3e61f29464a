-- ===== src/Db/Runs.antt =====
-- What the success of a statement or of a transaction tells.
use proxpass.Base.{Bool, Result, ok, err, ◌>>=◌, ◌>>◌, ◌≡◌, arith}
use proxpass.Db.State.{Tables, DbError, Statement, run, transact}

-- A transaction that succeeded took the work's tables.
pub transact_ok :
    {A : Type 0} (db : Tables) (r : Result DbError (A × Tables)) (a : A) (db' : Tables)
    → transact db r ≡ (ok a, db')
    → r ≡ ok (a, db')
unfolding transact
transact_ok db (ok (b, db1)) a db' e = ground arith
transact_ok db (err f) a db' e = cc

pub run_ok :
    {B : Type 0} (down : Statement → Bool) (st : Statement) (rest : Result DbError B) (b : B)
    → (run down st tt >> rest) ≡ ok b
    → rest ≡ ok b
unfolding run
run_ok down st rest b e = ground arith

pub run_value :
    {A B : Type 0} (down : Statement → Bool) (st : Statement) (a : A) (rest : A → Result DbError B)
    (b : B)
    → (run down st a >>= rest) ≡ ok b
    → rest a ≡ ok b
unfolding run
run_value down st a rest b e = ground arith

-- The tables of a success are those that were committed.
pub same_tables :
    (a b : Tables) → ◌≡◌ {A = Result DbError (Unit {0} × Tables)} (ok (tt, a)) (ok (tt, b)) → a ≡ b
same_tables a b e = ground arith
