-- ===== src/Db/Named.antt =====
-- internal/db/sql_repository.go: the tables of clients and of groups, whose rows are found by a folded
-- name that UNIQUE(name) keeps to one row. An INSERT or UPDATE that would give two rows one name fails.
pub mod Rows
pub mod Shapes
pub mod Lookup
pub mod Tests
use proxpass.Base.{
  ℕ, ◌+◌, Bytes, bytes_eq, Bool, true, false, not, ◌&&◌, Option, none, some, List, [], ◌∷◌, ◌++◌,
  map, Result, ok, err, ◌>>=◌, ◌==◌, if◌then◌else◌, any, find, filter,
}
use proxpass.Models.{Client, Group, fold_name}
use proxpass.Db.State.{
  Tables, DbError, storage, no_rows, unique_violation, Statement, select_clients, select_groups,
  select_client_by_name, insert_client, insert_group, update_client_row, update_group_row,
  delete_client, delete_group, run,
}

-- What the statements read of a row.
pub record Columns (R : Type 0) : Type 0 where
  pub id_of : R → ℕ
  pub name_of : R → Bytes

abbrev pub client_columns : Columns Client
client_columns = record { id_of = λ r. r.id; name_of = λ r. r.name }

abbrev pub group_columns : Columns Group
group_columns = record { id_of = λ r. r.id; name_of = λ r. r.name }

module _ {R : Type 0} (t : Columns R) where
  -- `name = ?`
  unfoldable pub is_named : Bytes → R → Bool
  is_named name r = bytes_eq (t.name_of r) name

  -- `INSERT ... RETURNING id`: the rows, and the id if it took effect.
  unfoldable pub insert_named : Bool → R → List R → Result DbError ℕ × List R
  insert_named fails row rows =
      if fails
      then (err storage, rows)
      else if any (is_named (t.name_of row)) rows
      then (err unique_violation, rows)
      else (ok (t.id_of row), rows ++ row ∷ [])

  -- An UPDATE of the row would break UNIQUE(name): it is there, and another has its new name.
  unfoldable pub name_taken : R → List R → Bool
  name_taken row rows =
      any (λ r. t.id_of r == t.id_of row) rows
      && any (λ r. is_named (t.name_of row) r && not (t.id_of r == t.id_of row)) rows

  -- `UPDATE ... WHERE id = ?`
  unfoldable pub update_named : Bool → R → List R → Result DbError (Unit {0}) × List R
  update_named fails row rows =
      if fails
      then (err storage, rows)
      else if name_taken row rows
      then (err unique_violation, rows)
      else (ok tt, map (λ r. if t.id_of r == t.id_of row then row else r) rows)

  -- `DELETE ... WHERE id = ?`
  unfoldable pub delete_named : Bool → ℕ → List R → Result DbError (Unit {0}) × List R
  delete_named fails id rows =
      if fails then (err storage, rows) else (ok tt, filter (λ r. not (t.id_of r == id)) rows)

-- The counter moves on when a row took the id.
unfoldable pub next_id : Result DbError ℕ → ℕ → ℕ
next_id (ok id) next = next + 1
next_id (err e) next = next

unfoldable pub row_or_none {ℓ} : {A : Type ℓ} → Option A → Result DbError A
row_or_none none = err no_rows
row_or_none (some r) = ok r

module _ (down : Statement → Bool) where
  unfoldable pub list_clients : Tables → Result DbError (List Client)
  list_clients db = run down select_clients db.clients

  unfoldable pub list_groups : Tables → Result DbError (List Group)
  list_groups db = run down select_groups db.groups

  unfoldable pub remove_client : Tables → ℕ → Result DbError (Unit {0}) × Tables
  remove_client db id =
      let done = delete_named client_columns (down (delete_client id)) id db.clients in
      (done.0, record db { clients = done.1 })

  unfoldable pub remove_group : Tables → ℕ → Result DbError (Unit {0}) × Tables
  remove_group db id =
      let done = delete_named group_columns (down (delete_group id)) id db.groups in
      (done.0, record db { groups = done.1 })

module _ (lower : Bytes → Bytes) (down : Statement → Bool) where
  unfoldable pub get_client_by_name : Tables → Bytes → Result DbError Client
  get_client_by_name db name = do
    let folded = fold_name lower name
    row ← run down (select_client_by_name folded) (find (is_named client_columns folded) db.clients)
    row_or_none row

  -- The id that RETURNING gives is stored in the caller's client.
  unfoldable pub add_client : Tables → Client → Result DbError ℕ × Tables
  add_client db c =
      let row = record c { id = db.next_client_id; name = fold_name lower c.name } in
      let done = insert_named client_columns (down (insert_client row.name)) row db.clients in
      (done.0, record db { clients = done.1; next_client_id = next_id done.0 db.next_client_id })

  unfoldable pub update_client : Tables → Client → Result DbError (Unit {0}) × Tables
  update_client db c =
      let row = record c { name = fold_name lower c.name } in
      let done = update_named client_columns (down (update_client_row row.name)) row db.clients in
      (done.0, record db { clients = done.1 })

  unfoldable pub add_group : Tables → Group → Result DbError ℕ × Tables
  add_group db g =
      let row = record g { id = db.next_group_id; name = fold_name lower g.name } in
      let done = insert_named group_columns (down (insert_group row.name)) row db.groups in
      (done.0, record db { groups = done.1; next_group_id = next_id done.0 db.next_group_id })

  unfoldable pub update_group : Tables → Group → Result DbError (Unit {0}) × Tables
  update_group db g =
      let row = record g { name = fold_name lower g.name } in
      let done = update_named group_columns (down (update_group_row row.name)) row db.groups in
      (done.0, record db { groups = done.1 })
