-- ===== src/Db/Frames.antt =====
-- What the changes of the repository keep, told by the tables that each of them writes.
use mathlib.Core.Path.{subst}
use proxpass.Base.{
  ℕ, Bytes, Bool, not, Option, none, some, List, [], ◌∷◌, map, Result, ok, err, ◌>>=◌, ◌>>◌, ◌==◌,
  ◌≡◌, refl, filter, arith, Bool-cases, inl, inr,
}
use proxpass.Models.{Guest, RuleType, RuleRow}
use proxpass.Db.State.{
  Tables, DbError, Statement, begin, commit, prepare, select_guests, delete_instance_guests,
  delete_instance_rules, delete_instance, insert_rule, insert_instance_rule, delete_rule,
  delete_instance_rule, store_setting, run, transact,
}
use proxpass.Db.Guests.{
  drop_guest, stale_ids, exec, upsert_row, upsert_guest, drop_guests, prune, remove_guests_not_in,
  drop_rules, remove_proxmox_instance,
}
use proxpass.Db.Listing.{store_row, set_setting}
use proxpass.Db.Rules.{
  add_rules, grant_access, grant_instance_access, revoke_access, revoke_instance_access,
}

ok_same : (a b : Tables) → ◌≡◌ {A = Result DbError Tables} (ok a) (ok b) → a ≡ b
ok_same a b e = ground arith

module _ (P : Tables → Type 0) where
  -- The tables of a success satisfy the predicate.
  unfoldable OnOk : {A : Type 0} → Result DbError (A × Tables) → Type 0
  OnOk (err e) = Unit
  OnOk (ok (a, db)) = P db

  transact_keeps :
      {A : Type 0} (db : Tables) (r : Result DbError (A × Tables))
      → P db
      → OnOk r
      → P (transact db r).1
  unfolding transact OnOk
  transact_keeps db (ok (a, d)) p q = q
  transact_keeps db (err e) p q = p

  stored_keeps : {A : Type 0} (a : A) (db : Tables) → P db → OnOk (ok (a, db))
  unfolding OnOk
  stored_keeps a db p = p

  bind_keeps :
      {A B : Type 0} (first : Result DbError A) (rest : A → Result DbError (B × Tables))
      → ((a : A) → first ≡ ok a → OnOk (rest a))
      → OnOk (first >>= rest)
  unfolding OnOk
  bind_keeps (err e) rest q = tt
  bind_keeps (ok a) rest q = q a refl

  then_keeps :
      {B : Type 0} (first : Result DbError (Unit {0})) (rest : Result DbError (B × Tables))
      → OnOk rest
      → OnOk (first >> rest)
  unfolding OnOk
  then_keeps (err e) rest q = tt
  then_keeps (ok a) rest q = q

  pub exec_keeps :
      (down : Statement → Bool) (st : Statement) (db new : Tables)
      → P db
      → P new
      → P (exec down st db new).1
  unfolding exec
  exec_keeps down st db new p q = elim (Bool-cases (down st)) [
    | inl e ↦ rw (e, exec) p
    | inr e ↦ rw (e, exec) q
  ]

  pub set_setting_keeps :
      (down : Statement → Bool) (key value : Bytes) (db : Tables)
      → P db
      → P (record db { settings = store_row key value db.settings })
      → P (set_setting down db key value).1
  unfolding set_setting
  set_setting_keeps down key value db p q = elim (Bool-cases (down (store_setting key))) [
    | inl e ↦ rw (e, set_setting) p
    | inr e ↦ rw (e, set_setting) q
  ]

  -- It is kept whatever the rules on guests become.
  abbrev pub IgnoresRules : Type 0
  IgnoresRules =
      (d : Tables) (n : ℕ) (rules : List RuleRow)
      → P d
      → P (record d { next_rule_id = n; access_rules = rules })

  -- It is kept whatever the rules on nodes become.
  abbrev pub IgnoresNodeRules : Type 0
  IgnoresNodeRules =
      (d : Tables) (n : ℕ) (rules : List RuleRow)
      → P d
      → P (record d { next_instance_rule_id = n; instance_access_rules = rules })

  -- It is kept whatever the guests become.
  abbrev pub IgnoresGuests : Type 0
  IgnoresGuests =
      (d : Tables) (n : ℕ) (guests : List Guest)
      → P d
      → P (record d { next_guest_id = n; guests = guests })

  -- It is kept when an instance is deleted.
  abbrev pub IgnoresRemoval : Type 0
  IgnoresRemoval =
      (d : Tables) (id : ℕ)
      → P d
      → P (record d { instances = filter (λ r. not (r.id == id)) d.instances })

  module _ (down : Statement → Bool) (db : Tables) (p : P db) where
    pub grant_access_keeps :
        (k : RuleType) (s : ℕ) (ts : List ℕ) → IgnoresRules → P (grant_access down db k s ts).1
    unfolding grant_access
    grant_access_keeps k s ts free = transact_keeps db _ p (
        then_keeps (run down begin tt) _ (
          then_keeps (run down prepare tt) _ (
            bind_keeps (add_rules down insert_rule k s ts (db.next_rule_id, db.access_rules)) _
              λ table e.
                then_keeps (run down commit tt) _ (stored_keeps tt _ (free db table.0 table.1 p)))))

    pub grant_instance_access_keeps :
        (k : RuleType) (s : ℕ) (ts : List ℕ)
        → IgnoresNodeRules
        → P (grant_instance_access down db k s ts).1
    unfolding grant_instance_access
    grant_instance_access_keeps k s ts free = transact_keeps db _ p (
        then_keeps (run down begin tt) _ (
          then_keeps (run down prepare tt) _ (
            bind_keeps
              (add_rules down insert_instance_rule k s ts
                (db.next_instance_rule_id, db.instance_access_rules))
              _
              λ table e.
                then_keeps (run down commit tt) _ (stored_keeps tt _ (free db table.0 table.1 p)))))

    pub revoke_access_keeps :
        (k : RuleType) (s t : ℕ) → IgnoresRules → P (revoke_access down db k s t).1
    unfolding revoke_access
    revoke_access_keeps k s t free = elim (Bool-cases (down (delete_rule k s t))) [
      | inl e ↦ rw (e, revoke_access) p
      | inr e ↦ rw (e, revoke_access) (free db db.next_rule_id _ p)
    ]

    pub revoke_instance_access_keeps :
        (k : RuleType) (s t : ℕ) → IgnoresNodeRules → P (revoke_instance_access down db k s t).1
    unfolding revoke_instance_access
    revoke_instance_access_keeps k s t free =
        elim (Bool-cases (down (delete_instance_rule k s t))) [
          | inl e ↦ rw (e, revoke_instance_access) p
          | inr e ↦ rw (e, revoke_instance_access) (free db db.next_instance_rule_id _ p)
        ]

  module _ (down : Statement → Bool) (rules : IgnoresRules) where
    drop_rules_keeps :
        (ids : List ℕ) (db out : Tables) → P db → drop_rules down db ids ≡ ok out → P out
    unfolding drop_rules run
    drop_rules_keeps [] db out p e = subst P (ok_same db out e) p
    drop_rules_keeps (id ∷ ids) db out p e =
        drop_rules_keeps ids
          (record db { access_rules = filter (λ r. not (r.target_id == id)) db.access_rules }) out
          (rules db db.next_rule_id _ p) (ground arith)

    pub remove_proxmox_instance_keeps :
        (id : ℕ) (db : Tables)
        → IgnoresGuests
        → IgnoresNodeRules
        → IgnoresRemoval
        → P db
        → P (remove_proxmox_instance down db id).1
    unfolding remove_proxmox_instance
    remove_proxmox_instance_keeps id db guests nodes removal p = transact_keeps db _ p (
        then_keeps (run down begin tt) _ (
          bind_keeps
            (run down (select_guests id)
              (map (λ r. r.id) (filter (λ r. r.instance_id == id) db.guests)))
            _
            λ ids f. bind_keeps (drop_rules down db ids) _ λ ruled e.
              then_keeps (run down (delete_instance_guests id) tt) _ (
                then_keeps (run down (delete_instance_rules id) tt) _ (
                  then_keeps (run down (delete_instance id) tt) _ (
                    then_keeps (run down commit tt) _ (
                      stored_keeps tt _ (
                        removal _ id (
                          nodes _ ruled.next_instance_rule_id _ (
                            guests ruled ruled.next_guest_id _
                              (drop_rules_keeps ids db ruled p e))))))))))

    drop_guests_keeps :
        (ids : List ℕ) (db out : Tables)
        → IgnoresGuests
        → P db
        → drop_guests down db ids ≡ ok out
        → P out
    unfolding drop_guests run drop_guest
    drop_guests_keeps [] db out guests p e = subst P (ok_same db out e) p
    drop_guests_keeps (id ∷ ids) db out guests p e =
        drop_guests_keeps ids (drop_guest id db) out guests
          (guests _ db.next_guest_id _ (rules db db.next_rule_id _ p)) (ground arith)

    prune_keeps : (ids : List ℕ) (db : Tables) → IgnoresGuests → P db → OnOk (prune down db ids)
    unfolding prune
    prune_keeps [] db guests p = stored_keeps _ db p
    prune_keeps (id ∷ ids) db guests p = bind_keeps (drop_guests down db (id ∷ ids)) _ λ d e.
        then_keeps (run down commit tt) _
          (stored_keeps _ d (drop_guests_keeps (id ∷ ids) db d guests p e))

    pub remove_guests_not_in_keeps :
        (db : Tables) (inst : ℕ) (keep : List ℕ)
        → IgnoresGuests
        → P db
        → P (remove_guests_not_in down db inst keep).1
    unfolding remove_guests_not_in
    remove_guests_not_in_keeps db inst keep guests p = transact_keeps db _ p (
        then_keeps (run down begin tt) _ (
          bind_keeps (run down (select_guests inst) (stale_ids db inst keep)) _
            λ stale e. prune_keeps stale db guests p))

  module _ (down : Statement → Bool) (guests : IgnoresGuests) where
    upsert_row_keeps :
        (db : Tables) (g : Guest) (found : Result DbError (Option Guest))
        → P db
        → P (upsert_row down db g found).1
    unfolding upsert_row
    upsert_row_keeps db g (err e) p = p
    upsert_row_keeps db g (ok none) p = exec_keeps down _ db _ p (guests db _ _ p)
    upsert_row_keeps db g (ok (some row)) p =
        exec_keeps down _ db _ p (guests db db.next_guest_id _ p)

    pub upsert_guest_keeps : (db : Tables) (g : Guest) → P db → P (upsert_guest down db g).1
    unfolding upsert_guest
    upsert_guest_keeps db g p = upsert_row_keeps db g _ p
