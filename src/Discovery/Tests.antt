-- ===== src/Discovery/Tests.antt =====
-- Witnesses and a run of StoreGuests: VMID 101 has stopped, 102 is new.
use proxpass.Base.{
  ℕ, Bool, true, false, none, some, List, [], ◌∷◌, ◌≡◌, ◌≢◌, ◌↔◌, ◌⊎◌, inl, inr, refl, ap, codes,
}
use proxpass.Models.{Guest}
use proxpass.Db.State.{Statement, storage, insert_guest}
use proxpass.Db.Guests.Rows.{HasRow}
use proxpass.Db.Tests.{all_up, guest_row, deployment, deployment-IsKeyed, db_code}
use proxpass.Discovery.{
  store_guests, store_loop, store_one, store_end, store_pruned, note_upsert, keep_first, is_running,
  upsert_failed,
}
use proxpass.Discovery.Loop.{IsReported}
use proxpass.Discovery.Exact.{store_guests_keeps, store_guests_exact}

abbrev never : ℕ → Bool
never n = false

abbrev insert_down : Statement → Bool
insert_down (insert_guest v) = true
insert_down _ = false

abbrev stopped : ℕ → Guest
stopped v = record (guest_row 0 v 0) { status = codes "stopped" }

abbrev pass : List Guest
pass = guest_row 0 100 0 ∷ stopped 101 ∷ guest_row 0 102 0 ∷ []

stored :
    (store_guests all_up never 3 deployment pass).0
    ≡ record { stored = 2; removed = 1; error = none }
unfolding db_code store_guests store_loop store_one store_end store_pruned note_upsert keep_first
    is_running
stored = refl

stored_with_failure :
    (store_guests insert_down never 3 deployment pass).0
    ≡ record { stored = 1; removed = 1; error = some (upsert_failed 102 storage) }
unfolding db_code store_guests store_loop store_one store_end store_pruned note_upsert keep_first
    is_running
stored_with_failure = refl

store_guests_keeps_example :
    HasRow 3 100 (store_guests insert_down never 3 deployment pass).1.guests
store_guests_keeps_example =
    store_guests_keeps insert_down never 3 deployment deployment-IsKeyed pass 3 100
      (inr (inl (refl, refl))) (inl (refl, refl))

store_guests_exact_example : HasRow 4 100 (store_guests all_up never 3 deployment pass).1.guests ↔ (
    ((◌≡◌ {A = ℕ} 4 3) × IsReported 100 pass)
    ⊎ ((◌≢◌ {A = ℕ} 4 3) × HasRow 4 100 deployment.guests))
store_guests_exact_example =
    store_guests_exact all_up never 3 deployment deployment-IsKeyed pass 4 100
      (ap (λ r. r.error) stored)
