-- ===== src/Discovery/Frames.antt =====
-- What a discovery pass keeps: whatever does not read the guests and their rules.
use proxpass.Base.{ℕ, suc, Bool, true, false, List, [], ◌∷◌, Result, ok, err, Bool-cases, inl, inr}
use proxpass.Models.{Guest}
use proxpass.Db.State.{Tables, DbError, Statement}
use proxpass.Db.Frames.{IgnoresRules, IgnoresGuests, upsert_guest_keeps, remove_guests_not_in_keeps}
use proxpass.Discovery.{
  Progress, is_running, note_upsert, store_one, store_pruned, store_end, store_loop, store_guests,
}

module _ (P : Tables → Type 0) (down : Statement → Bool) (canceled_at : ℕ → Bool) (inst : ℕ)
    (rules : IgnoresRules P) (guests : IgnoresGuests P) where
  note_upsert_keeps :
      (p : Progress) (v : ℕ) (r : Result DbError (Unit {0}) × Tables)
      → P r.1
      → P (note_upsert p v r).tables
  unfolding note_upsert
  note_upsert_keeps p v (err e, db) q = q
  note_upsert_keeps p v (ok _, db) q = q

  store_one_keeps : (p : Progress) (g : Guest) → P p.tables → P (store_one down inst p g).tables
  unfolding store_one
  store_one_keeps p g q = elim (Bool-cases (is_running g)) [
    | inl e ↦
        rw (e, store_one)
          (note_upsert_keeps p g.proxmox_id _ (upsert_guest_keeps P down guests p.tables _ q))
    | inr e ↦ rw (e, store_one) q
  ]

  store_loop_keeps :
      (n : ℕ) (p : Progress) (gs : List Guest)
      → P p.tables
      → P (store_loop down canceled_at inst n p gs).1.tables
  unfolding store_loop
  store_loop_keeps n p [] q = q
  store_loop_keeps n p (g ∷ gs) q = elim (Bool-cases (canceled_at n)) [
    | inl e ↦ rw (e, store_loop) q
    | inr e ↦
        rw (e, store_loop)
          (store_loop_keeps (suc n) (store_one down inst p g) gs (store_one_keeps p g q))
  ]

  store_pruned_keeps :
      (p : Progress) (r : Result DbError ℕ × Tables) → P r.1 → P (store_pruned down inst p r).1
  unfolding store_pruned
  store_pruned_keeps p (err e, db) q = q
  store_pruned_keeps p (ok n, db) q = q

  store_end_keeps : (out : Bool × Progress) → P out.1.tables → P (store_end down inst out).1
  unfolding store_end
  store_end_keeps (true, p) q = q
  store_end_keeps (false, p) q =
      store_pruned_keeps p _ (remove_guests_not_in_keeps P down rules p.tables inst p.live guests q)

  pub store_guests_keeps :
      (db : Tables) (found : List Guest) → P db → P (store_guests down canceled_at inst db found).1
  unfolding store_guests
  store_guests_keeps db found q = store_end_keeps _ (store_loop_keeps 0 _ found q)
