-- ===== src/Db/Guests.antt =====
-- internal/db/sql_repository.go: the guest table (UpsertGuest, GetGuestByID, RemoveGuestsNotIn) and the
-- removal of an instance with everything that refers to it.
pub mod Rows
pub mod Prune
pub mod Removal
use proxpass.Base.{
  ℕ, suc, ◌+◌, Bool, true, false, not, ◌&&◌, Option, none, some, List, [], ◌∷◌, ◌++◌, map, Result,
  ok, err, ◌>>=◌, ◌>>◌, ◌==◌, if◌then◌else◌, any, find, filter, length,
}
use proxpass.Models.{Guest, ProxmoxInstance, RuleRow}
use proxpass.Db.State.{
  Tables, DbError, storage, no_rows, Statement, begin, commit, select_guest, insert_guest,
  update_guest, select_guests, delete_guest_rules, delete_guest, delete_instance_guests,
  delete_instance_rules, delete_instance, select_guest_by_id, run, transact,
}

-- `WHERE proxmox_id = ? AND instance_id = ?`
unfoldable pub is_guest : ℕ → ℕ → Guest → Bool
is_guest vmid inst r = r.proxmox_id == vmid && r.instance_id == inst

-- `UPDATE guests SET type=?, name=?, status=? WHERE id=?`
unfoldable pub update_row : ℕ → Guest → Guest → Guest
update_row id g r =
    if r.id == id then record r { kind = g.kind; name = g.name; status = g.status } else r

-- The two DELETEs of one stale row.
unfoldable pub drop_guest : ℕ → Tables → Tables
drop_guest id db = record db {
  access_rules = filter (λ r. not (r.target_id == id)) db.access_rules;
  guests = filter (λ r. not (r.id == id)) db.guests;
}

-- The row ids of the instance's guests that `keep` does not name.
unfoldable pub stale_ids : Tables → ℕ → List ℕ → List ℕ
stale_ids db inst keep =
    map (λ r. r.id)
      (filter (λ r. not (any (λ v. v == r.proxmox_id) keep))
        (filter (λ r. r.instance_id == inst) db.guests))

module _ (down : Statement → Bool) where
  -- A statement that changes the tables: it fails and changes nothing, or takes effect.
  unfoldable pub exec : Statement → Tables → Tables → Result DbError (Unit {0}) × Tables
  exec st db db' = if down st then (err storage, db) else (ok tt, db')

  unfoldable pub upsert_row :
      Tables → Guest → Result DbError (Option Guest) → Result DbError (Unit {0}) × Tables
  upsert_row db g (err e) = (err e, db)
  upsert_row db g (ok none) = exec (insert_guest g.proxmox_id) db (record db {
    guests = db.guests ++ record g { id = db.next_guest_id } ∷ [];
    next_guest_id = db.next_guest_id + 1;
  })
  upsert_row db g (ok (some row)) =
      exec (update_guest row.id) db (record db { guests = map (update_row row.id g) db.guests })

  unfoldable pub upsert_guest : Tables → Guest → Result DbError (Unit {0}) × Tables
  upsert_guest db g = upsert_row db g (
      run down (select_guest g.proxmox_id g.instance_id)
        (find (is_guest g.proxmox_id g.instance_id) db.guests))

  unfoldable pub get_guest_by_id : Tables → ℕ → Result DbError Guest
  get_guest_by_id db id = do
    row ← run down (select_guest_by_id id) (find (λ r. r.id == id) db.guests)
    elim row [ none ↦ err no_rows | some g ↦ ok g ]

  unfoldable pub drop_guests : Tables → List ℕ → Result DbError Tables
  drop_guests db [] = ok db
  drop_guests db (id ∷ ids) = do
    run down (delete_guest_rules id) tt
    run down (delete_guest id) tt
    drop_guests (drop_guest id db) ids

  unfoldable pub prune : Tables → List ℕ → Result DbError (ℕ × Tables)
  prune db [] = ok (0, db)
  prune db (id ∷ ids) = do
    db' ← drop_guests db (id ∷ ids)
    run down commit tt
    ok (length (id ∷ ids), db')

  unfoldable pub remove_guests_not_in : Tables → ℕ → List ℕ → Result DbError ℕ × Tables
  remove_guests_not_in db inst keep = transact db do
    run down begin tt
    stale ← run down (select_guests inst) (stale_ids db inst keep)
    prune db stale

  unfoldable pub drop_rules : Tables → List ℕ → Result DbError Tables
  drop_rules db [] = ok db
  drop_rules db (id ∷ ids) = do
    run down (delete_guest_rules id) tt
    drop_rules (record db { access_rules = filter (λ r. not (r.target_id == id)) db.access_rules })
        ids

  -- RemoveProxmoxInstance: the rules of its guests, its guests, its own rules, then the instance.
  unfoldable pub remove_proxmox_instance : Tables → ℕ → Result DbError (Unit {0}) × Tables
  remove_proxmox_instance db id = transact db do
    run down begin tt
    ids ←
        run down (select_guests id) (map (λ r. r.id) (filter (λ r. r.instance_id == id) db.guests))
    ruled ← drop_rules db ids
    run down (delete_instance_guests id) tt
    run down (delete_instance_rules id) tt
    run down (delete_instance id) tt
    run down commit tt
    ok (
      tt,
      record ruled {
        guests = filter (λ r. not (r.instance_id == id)) ruled.guests;
        instance_access_rules = filter (λ r. not (r.target_id == id)) ruled.instance_access_rules;
        instances = filter (λ r. not (r.id == id)) ruled.instances;
      },
    )
