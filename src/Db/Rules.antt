-- ===== src/Db/Rules.antt =====
-- internal/db/sql_repository.go: granting and revoking access to guests and to nodes.
pub mod Exact
pub mod Tests
use proxpass.Base.{
  ℕ, ◌+◌, Bool, true, false, not, List, [], ◌∷◌, ◌++◌, Result, ok, err, ◌>>=◌, ◌>>◌, if◌then◌else◌,
  any, filter,
}
use proxpass.Models.{RuleType, RuleRow}
use proxpass.Db.State.{
  Tables, DbError, storage, Statement, begin, commit, prepare, insert_rule, delete_rule,
  insert_instance_rule, delete_instance_rule, run, transact,
}
use proxpass.Db.Access.{is_rule}

-- `INSERT ... ON CONFLICT (type, subject_id, target) DO NOTHING`
unfoldable pub add_rule : RuleType → ℕ → ℕ → ℕ → List RuleRow → List RuleRow
add_rule k s t id rules =
    if any (is_rule k s t) rules
    then rules
    else rules ++ record { id = id; kind = k; subject_id = s; target_id = t } ∷ []

unfoldable pub drop_rule : RuleType → ℕ → ℕ → List RuleRow → List RuleRow
drop_rule k s t rules = filter (λ r. not (is_rule k s t r)) rules

-- The loop of a grant over one table: the counter goes on whether or not a row was added, the ids of
-- the rows need only differ.
unfoldable pub add_rules :
    (Statement → Bool)
    → (RuleType → ℕ → ℕ → Statement)
    → RuleType
    → ℕ
    → List ℕ
    → ℕ × List RuleRow
    → Result DbError (ℕ × List RuleRow)
add_rules down st k s [] table = ok table
add_rules down st k s (t ∷ ts) (id, rules) = do
  run down (st k s t) tt
  add_rules down st k s ts (id + 1, add_rule k s t id rules)

module _ (down : Statement → Bool) where
  unfoldable pub grant_access : Tables → RuleType → ℕ → List ℕ → Result DbError (Unit {0}) × Tables
  grant_access db k s ts = transact db do
    run down begin tt
    run down prepare tt
    table ← add_rules down insert_rule k s ts (db.next_rule_id, db.access_rules)
    run down commit tt
    ok (tt, record db { next_rule_id = table.0; access_rules = table.1 })

  unfoldable pub grant_instance_access :
      Tables → RuleType → ℕ → List ℕ → Result DbError (Unit {0}) × Tables
  grant_instance_access db k s ts = transact db do
    run down begin tt
    run down prepare tt
    table ←
        add_rules down insert_instance_rule k s ts
          (db.next_instance_rule_id, db.instance_access_rules)
    run down commit tt
    ok (tt, record db { next_instance_rule_id = table.0; instance_access_rules = table.1 })

  -- RevokeClientAccess and RevokeGroupAccess.
  unfoldable pub revoke_access : Tables → RuleType → ℕ → ℕ → Result DbError (Unit {0}) × Tables
  revoke_access db k s t =
      if down (delete_rule k s t)
      then (err storage, db)
      else (ok tt, record db { access_rules = drop_rule k s t db.access_rules })

  unfoldable pub revoke_instance_access :
      Tables → RuleType → ℕ → ℕ → Result DbError (Unit {0}) × Tables
  revoke_instance_access db k s t =
      if down (delete_instance_rule k s t)
      then (err storage, db)
      else (ok tt, record db { instance_access_rules = drop_rule k s t db.instance_access_rules })
