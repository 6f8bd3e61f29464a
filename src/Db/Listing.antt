-- ===== src/Db/Listing.antt =====
-- internal/db/sql_repository.go: the lists of guests and instances, and the settings.
use proxpass.Base.{
  Bytes, bytes_eq, Bool, Option, none, some, List, [], ◌∷◌, ◌++◌, map, Result, ok, err, ◌>>=◌,
  if◌then◌else◌, any, find,
}
use proxpass.Models.{Guest, ProxmoxInstance}
use proxpass.Db.State.{
  Tables, Setting, DbError, storage, Statement, select_all_guests, select_instances, store_setting,
  read_setting, run,
}

-- An unset value is "".
unfoldable pub value_or_empty : Option Setting → Bytes
value_or_empty none = []
value_or_empty (some s) = s.value

-- `INSERT ... ON CONFLICT (key) DO UPDATE`
unfoldable pub store_row : Bytes → Bytes → List Setting → List Setting
store_row key value rows =
    let row : Setting = record { key = key; value = value } in
    if any (λ r. bytes_eq r.key key) rows
    then map (λ r. if bytes_eq r.key key then row else r) rows
    else rows ++ row ∷ []

module _ (down : Statement → Bool) where
  unfoldable pub list_guests : Tables → Result DbError (List Guest)
  list_guests db = run down select_all_guests db.guests

  unfoldable pub list_proxmox_instances : Tables → Result DbError (List ProxmoxInstance)
  list_proxmox_instances db = run down select_instances db.instances

  unfoldable pub set_setting : Tables → Bytes → Bytes → Result DbError (Unit {0}) × Tables
  set_setting db key value =
      if down (store_setting key)
      then (err storage, db)
      else (ok tt, record db { settings = store_row key value db.settings })

  unfoldable pub get_setting : Tables → Bytes → Result DbError Bytes
  get_setting db key = do
    row ← run down (read_setting key) (find (λ r. bytes_eq r.key key) db.settings)
    ok (value_or_empty row)
