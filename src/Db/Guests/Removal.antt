-- ===== src/Db/Guests/Removal.antt =====
-- RemoveProxmoxInstance leaves nothing of the instance, and everything else.
use mathlib.Core.Path.{subst}
use proxpass.Base.{
  ℕ, Bool, true, not, List, [], ◌∷◌, map, ok, parts_ok, ◌==◌, filter, Any, Elem, Any-filter_iff,
  Any-weaken, ◌≡◌, ◌↔◌, sym, ap, arith,
}
use proxpass.Models.{Guest, RuleRow, ProxmoxInstance}
use proxpass.Db.State.{
  Tables, Statement, begin, commit, select_guests, delete_instance_guests, delete_instance_rules,
  delete_instance, run,
}
use proxpass.Db.Runs.{transact_ok, run_ok, run_value, same_tables}
use proxpass.Db.Guests.{drop_rules, remove_proxmox_instance}
use proxpass.Db.Guests.Prune.{Kept, left_step, left_all}

drop_rules_rest :
    (down : Statement → Bool) (id : ℕ) (ids : List ℕ) (db db' : Tables)
    → drop_rules down db (id ∷ ids) ≡ ok db'
    → drop_rules down
        (record db { access_rules = filter (λ r. not (r.target_id == id)) db.access_rules })
        ids
      ≡ ok db'
unfolding drop_rules run
drop_rules_rest down id ids db db' h = ground arith

-- Tables, their rules on guests aside.
abbrev ruleless : Tables → Tables
ruleless db = record db { access_rules = [] }

-- Dropping the rules of guests leaves every other table, and the rules of other guests.
dropped_tables :
    (down : Statement → Bool) (ids : List ℕ) (db db' : Tables)
    → drop_rules down db ids ≡ ok db'
    → ruleless db' ≡ ruleless db
unfolding drop_rules
dropped_tables down [] db db' h = let e : db ≡ db' = ground arith in ap ruleless (sym e)
dropped_tables down (id ∷ ids) db db' h =
    dropped_tables down ids
      (record db { access_rules = filter (λ r. not (r.target_id == id)) db.access_rules }) db'
      (drop_rules_rest down id ids db db' h)

dropped_rules :
    (down : Statement → Bool) (P : RuleRow → Type 0) (ids : List ℕ) (db db' : Tables)
    → drop_rules down db ids ≡ ok db'
    → Any P db'.access_rules ↔ Any (Kept (λ r. r.target_id) P ids) db.access_rules
unfolding drop_rules
dropped_rules down P [] db db' h =
    let e : db ≡ db' = ground arith in
    subst
      (λ (d : Tables). Any P d.access_rules ↔ Any (Kept (λ r. r.target_id) P []) db.access_rules) e
      (left_all (λ r. r.target_id) P db.access_rules)
dropped_rules down P (id ∷ ids) db db' h =
    let rest =
      dropped_rules down P ids
        (record db { access_rules = filter (λ r. not (r.target_id == id)) db.access_rules }) db'
        (drop_rules_rest down id ids db db' h) in
    let step = left_step (λ r. r.target_id) P id ids db.access_rules in
    (λ a. step.0 (rest.0 a), λ a. rest.1 (step.1 a))

other_key : (a b : ℕ) → (not (a == b) ≡ true) ↔ (¬ (a ≡ b))
other_key a b = ground arith

-- What a DELETE by one key leaves.
without_key :
    {A : Type 0} (key : A → ℕ) (P : A → Type 0) (id : ℕ) (rows : List A)
    → Any P (filter (λ r. not (key r == id)) rows) ↔ Any (λ r. P r × (¬ (key r ≡ id))) rows
without_key key P id rows =
    let kept = Any-filter_iff (λ r. not (key r == id)) P rows in
    (
      λ h. Any-weaken _ _ rows (λ r (p, e). (p, (other_key (key r) id).0 e)) (kept.0 h),
      λ h. kept.1 (Any-weaken _ _ rows (λ r (p, n). (p, (other_key (key r) id).1 n)) h),
    )

-- The ids of the guests of an instance.
abbrev pub guest_ids : Tables → ℕ → List ℕ
guest_ids db id = map (λ r. r.id) (filter (λ r. r.instance_id == id) db.guests)

-- What a removal may touch, the log included, is left out.
abbrev pub apart : Tables → Tables
apart db = record db {
  guests = [];
  access_rules = [];
  instance_access_rules = [];
  instances = [];
  activity_log = [];
  next_event_id = 0;
}

-- What a removal of an instance leaves.
pub record IsRemoved (id : ℕ) (db db' : Tables) : Type 1 where
  pub guests_left :
      (P : Guest → Type 0) → Any P db'.guests ↔ Any (λ r. P r × (¬ (r.instance_id ≡ id))) db.guests
  pub rules_left :
      (P : RuleRow → Type 0)
      → Any P db'.access_rules
        ↔ Any (λ r. P r × (¬ Elem r.target_id (guest_ids db id))) db.access_rules
  pub node_rules_left :
      (P : RuleRow → Type 0)
      → Any P db'.instance_access_rules
        ↔ Any (λ r. P r × (¬ (r.target_id ≡ id))) db.instance_access_rules
  pub instances_left :
      (P : ProxmoxInstance → Type 0)
      → Any P db'.instances ↔ Any (λ r. P r × (¬ (r.id ≡ id))) db.instances
  pub apart_left : apart db' ≡ apart db

-- The tables that the transaction commits.
abbrev committed : ℕ → Tables → Tables
committed id ruled = record ruled {
  guests = filter (λ r. not (r.instance_id == id)) ruled.guests;
  instance_access_rules = filter (λ r. not (r.target_id == id)) ruled.instance_access_rules;
  instances = filter (λ r. not (r.id == id)) ruled.instances;
}

committed-IsRemoved :
    (down : Statement → Bool) (id : ℕ) (db ruled : Tables)
    → drop_rules down db (guest_ids db id) ≡ ok ruled
    → IsRemoved id db (committed id ruled)
committed-IsRemoved down id db ruled e =
    let same = dropped_tables down (guest_ids db id) db ruled e in
    let g : ruled.guests ≡ db.guests = ap (λ (d : Tables). d.guests) same in
    let n : ruled.instance_access_rules ≡ db.instance_access_rules =
      ap (λ (d : Tables). d.instance_access_rules) same in
    let i : ruled.instances ≡ db.instances = ap (λ (d : Tables). d.instances) same in
    record {
      guests_left = λ P. rw g (without_key (λ (r : Guest). r.instance_id) P id db.guests);
      rules_left = λ P. unfold Kept in dropped_rules down P (guest_ids db id) db ruled e;
      node_rules_left =
          λ P. rw n (without_key (λ (r : RuleRow). r.target_id) P id db.instance_access_rules);
      instances_left = λ P. rw i (without_key (λ (r : ProxmoxInstance). r.id) P id db.instances);
      apart_left = ap apart same;
    }

-- After a RemoveProxmoxInstance that succeeded, whatever is asked of a row: some guest, some rule on a
-- guest, some rule on a node or some instance satisfies it exactly when one before did that is no
-- guest of the instance, no rule on such a guest, no rule on the instance, and not the instance.
-- Every other table is as it was.
pub remove_proxmox_instance_exact :
    (down : Statement → Bool) (id : ℕ) (db db' : Tables)
    → remove_proxmox_instance down db id ≡ (ok tt, db')
    → IsRemoved id db db'
unfolding remove_proxmox_instance
remove_proxmox_instance_exact down id db db' e =
    let work = run_ok down begin _ _ (transact_ok db _ tt db' e) in
    let dropping = run_value down (select_guests id) (guest_ids db id) _ _ work in
    let (ruled, dropped, rest) = parts_ok (drop_rules down db (guest_ids db id)) _ dropping in
    let ends = run_ok down commit _ _ (
      run_ok down (delete_instance id) _ _ (
        run_ok down (delete_instance_rules id) _ _
          (run_ok down (delete_instance_guests id) _ _ rest))) in
    subst (IsRemoved id db) (same_tables (committed id ruled) db' ends)
      (committed-IsRemoved down id db ruled dropped)
