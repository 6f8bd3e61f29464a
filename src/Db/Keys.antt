-- ===== src/Db/Keys.antt =====
-- internal/db/sql_repository.go: the administrator's keys, and the default policy's only row.
use proxpass.Base.{
  Bytes, bytes_eq, Bool, not, some, List, [], ◌∷◌, ◌++◌, Result, if◌then◌else◌, any, filter,
}
use proxpass.Models.{DefaultAccessPolicy}
use proxpass.Db.State.{
  Tables, DbError, Statement, insert_admin_key, delete_admin_key, select_admin_keys, store_policy,
  run,
}
use proxpass.Db.Guests.{exec}

-- `INSERT ... ON CONFLICT (public_key) DO NOTHING`
unfoldable pub add_key_row : Bytes → List Bytes → List Bytes
add_key_row key keys = if any (λ k. bytes_eq k key) keys then keys else keys ++ key ∷ []

module _ (down : Statement → Bool) (db : Tables) where
  unfoldable pub add_admin_key : Bytes → Result DbError (Unit {0}) × Tables
  add_admin_key key =
      exec down (insert_admin_key key) db (record db { admin_keys = add_key_row key db.admin_keys })

  unfoldable pub list_admin_keys : Result DbError (List Bytes)
  list_admin_keys = run down select_admin_keys db.admin_keys

  unfoldable pub remove_admin_key : Bytes → Result DbError (Unit {0}) × Tables
  remove_admin_key key =
      exec down (delete_admin_key key) db
        (record db { admin_keys = filter (λ k. not (bytes_eq k key)) db.admin_keys })

  unfoldable pub set_default_policy : DefaultAccessPolicy → Result DbError (Unit {0}) × Tables
  set_default_policy policy = exec down store_policy db (record db { default_policy = some policy })
