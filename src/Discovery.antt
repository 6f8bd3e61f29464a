-- ===== src/Discovery.antt =====
-- internal/proxmox/reconcile.go: what a discovery pass over one instance leaves in the guest list.
pub mod Loop
pub mod Exact
pub mod Frames
mod Tests
use proxpass.Base.{
  ℕ, suc, ◌+◌, Bool, true, false, Option, none, some, List, [], ◌∷◌, ◌++◌, Result, ok, err,
  if◌then◌else◌, bytes_eq,
}
use proxpass.Models.{Guest, status_running}
use proxpass.Db.State.{Tables, DbError, Statement}
use proxpass.Db.Guests.{upsert_guest, remove_guests_not_in}

-- The errors that StoreGuests reports: the context's, an upsert's with its VMID, the prune's.
pub data StoreError : Type 0 where
  canceled : StoreError
  upsert_failed : ℕ → DbError → StoreError
  prune_failed : DbError → StoreError

pub record StoreResult : Type 0 where
  pub stored : ℕ
  pub removed : ℕ
  pub error : Option StoreError

-- The variables of the loop, and the tables that it writes.
pub record Progress : Type 0 where
  pub live : List ℕ
  pub stored : ℕ
  pub first_err : Option StoreError
  pub tables : Tables

unfoldable pub is_running : Guest → Bool
is_running g = bytes_eq g.status status_running

unfoldable pub keep_first : Option StoreError → StoreError → Option StoreError
keep_first none e = some e
keep_first (some first) e = some first

-- A guest counts as live whether its upsert succeeded or not.
unfoldable pub note_upsert : Progress → ℕ → Result DbError (Unit {0}) × Tables → Progress
note_upsert p v (err e, db) = record p {
  live = p.live ++ v ∷ [];
  first_err = keep_first p.first_err (upsert_failed v e);
  tables = db;
}
note_upsert p v (ok _, db) = record p {
  live = p.live ++ v ∷ [];
  stored = p.stored + 1;
  tables = db;
}

module _ (down : Statement → Bool) (inst : ℕ) where
  -- One round: a stopped guest is skipped.
  unfoldable pub store_one : Progress → Guest → Progress
  store_one p g =
      if is_running g
      then note_upsert p g.proxmox_id (upsert_guest down p.tables (record g { instance_id = inst }))
      else p

  unfoldable pub store_pruned : Progress → Result DbError ℕ × Tables → StoreResult × Tables
  store_pruned p (err e, db) =
      (record { stored = p.stored; removed = 0; error = some (prune_failed e) }, db)
  store_pruned p (ok n, db) = (record { stored = p.stored; removed = n; error = p.first_err }, db)

  unfoldable pub store_end : Bool × Progress → StoreResult × Tables
  store_end (true, p) = (record { stored = p.stored; removed = 0; error = some canceled }, p.tables)
  store_end (false, p) = store_pruned p (remove_guests_not_in down p.tables inst p.live)

module _ (down : Statement → Bool) (canceled_at : ℕ → Bool) (inst : ℕ) where
  -- The loop: the context is asked before each round, and the flag says that it was canceled.
  unfoldable pub store_loop : ℕ → Progress → List Guest → Bool × Progress
  store_loop n p [] = (false, p)
  store_loop n p (g ∷ gs) =
      let rest = store_loop (suc n) (store_one down inst p g) gs in
      if canceled_at n then (true, p) else rest

  unfoldable pub store_guests : Tables → List Guest → StoreResult × Tables
  store_guests db guests =
      store_end down inst
        (store_loop 0 (record { live = []; stored = 0; first_err = none; tables = db }) guests)
