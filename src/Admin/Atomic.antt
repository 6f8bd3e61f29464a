-- ===== src/Admin/Atomic.antt =====
-- A call of the repository that reports an error has changed no table.
use proxpass.Base.{
  ℕ, Bytes, Bool, true, false, ◌||◌, List, Result, ok, err, ◌≡◌, refl, inl, inr, any, Bool-cases,
  arith,
}
use proxpass.Models.{ProxmoxInstance, Client, Group, RuleType, DefaultAccessPolicy}
use proxpass.Db.State.{Tables, DbError, Statement, transact}
use proxpass.Db.Named.{
  Columns, client_columns, group_columns, is_named, insert_named, name_taken, update_named,
  delete_named, next_id, add_client, update_client, remove_client, add_group, update_group,
  remove_group,
}
use proxpass.Db.Guests.{exec, remove_proxmox_instance}
use proxpass.Db.Instances.{
  instance_columns, url_columns, url_taken, insert_instance_row, update_instance_row,
  name_duplicate, add_proxmox_instance, update_proxmox_instance,
}
use proxpass.Db.Rules.{grant_access, grant_instance_access}
use proxpass.Db.Keys.{add_admin_key, remove_admin_key, set_default_policy}
use proxpass.Db.Listing.{set_setting}

-- An error comes with the old tables.
abbrev pub IsAtomic {ℓ} : {A : Type ℓ} → Tables → Result DbError A × Tables → Type ℓ
IsAtomic db out = (e : DbError) → out.0 ≡ err e → out.1 ≡ db

module _ (db : Tables) where
  exec-IsAtomic :
      (down : Statement → Bool) (st : Statement) (new : Tables) → IsAtomic db (exec down st db new)
  unfolding exec
  exec-IsAtomic down st new e = ground arith

  transact-IsAtomic : {A : Type 0} (r : Result DbError (A × Tables)) → IsAtomic db (transact db r)
  unfolding transact
  transact-IsAtomic (ok (a, d)) e q = cc
  transact-IsAtomic (err f) e q = refl

  module _ {R : Type 0} (t : Columns R) where
    insert_same :
        (fails : Bool) (row : R) (rows : List R) (e : DbError) (n : ℕ)
        → (insert_named t fails row rows).0 ≡ err e
        → ((insert_named t fails row rows).1 ≡ rows)
          × (next_id (insert_named t fails row rows).0 n ≡ n)
    unfolding insert_named next_id
    insert_same true row rows e n q = (refl, refl)
    insert_same false row rows e n q = elim (Bool-cases (any (is_named t (t.name_of row)) rows)) [
      | inl k ↦ rw (k, insert_named, next_id) (refl, refl)
      | inr k ↦ absurd (ground arith)
    ]

    update_same :
        (fails : Bool) (row : R) (rows : List R) (e : DbError)
        → (update_named t fails row rows).0 ≡ err e
        → (update_named t fails row rows).1 ≡ rows
    unfolding update_named
    update_same fails row rows e q = ground arith

    delete_same :
        (fails : Bool) (id : ℕ) (rows : List R) (e : DbError)
        → (delete_named t fails id rows).0 ≡ err e
        → (delete_named t fails id rows).1 ≡ rows
    unfolding delete_named
    delete_same fails id rows e q = ground arith

  module _ (down : Statement → Bool) where
    pub add_client-IsAtomic :
        (lower : Bytes → Bytes) (x : Client) → IsAtomic db (add_client lower down db x)
    unfolding add_client
    add_client-IsAtomic lower x e q =
        let (rows, next) = insert_same client_columns _ _ db.clients e db.next_client_id q in
        rw (rows, next) refl

    pub update_client-IsAtomic :
        (lower : Bytes → Bytes) (x : Client) → IsAtomic db (update_client lower down db x)
    unfolding update_client
    update_client-IsAtomic lower x e q = rw (update_same client_columns _ _ db.clients e q) refl

    pub remove_client-IsAtomic : (id : ℕ) → IsAtomic db (remove_client down db id)
    unfolding remove_client
    remove_client-IsAtomic id e q = rw (delete_same client_columns _ id db.clients e q) refl

    pub add_group-IsAtomic :
        (lower : Bytes → Bytes) (x : Group) → IsAtomic db (add_group lower down db x)
    unfolding add_group
    add_group-IsAtomic lower x e q =
        let (rows, next) = insert_same group_columns _ _ db.groups e db.next_group_id q in
        rw (rows, next) refl

    pub update_group-IsAtomic :
        (lower : Bytes → Bytes) (x : Group) → IsAtomic db (update_group lower down db x)
    unfolding update_group
    update_group-IsAtomic lower x e q = rw (update_same group_columns _ _ db.groups e q) refl

    pub remove_group-IsAtomic : (id : ℕ) → IsAtomic db (remove_group down db id)
    unfolding remove_group
    remove_group-IsAtomic id e q = rw (delete_same group_columns _ id db.groups e q) refl

    pub remove_proxmox_instance-IsAtomic :
        (id : ℕ) → IsAtomic db (remove_proxmox_instance down db id)
    unfolding remove_proxmox_instance
    remove_proxmox_instance-IsAtomic id = transact-IsAtomic _

    pub grant_access-IsAtomic :
        (k : RuleType) (s : ℕ) (ts : List ℕ) → IsAtomic db (grant_access down db k s ts)
    unfolding grant_access
    grant_access-IsAtomic k s ts = transact-IsAtomic _

    pub grant_instance_access-IsAtomic :
        (k : RuleType) (s : ℕ) (ts : List ℕ) → IsAtomic db (grant_instance_access down db k s ts)
    unfolding grant_instance_access
    grant_instance_access-IsAtomic k s ts = transact-IsAtomic _

    pub set_default_policy-IsAtomic :
        (x : DefaultAccessPolicy) → IsAtomic db (set_default_policy down db x)
    unfolding set_default_policy
    set_default_policy-IsAtomic x = exec-IsAtomic down _ _

    pub add_admin_key-IsAtomic : (key : Bytes) → IsAtomic db (add_admin_key down db key)
    unfolding add_admin_key
    add_admin_key-IsAtomic key = exec-IsAtomic down _ _

    pub remove_admin_key-IsAtomic : (key : Bytes) → IsAtomic db (remove_admin_key down db key)
    unfolding remove_admin_key
    remove_admin_key-IsAtomic key = exec-IsAtomic down _ _

    pub set_setting-IsAtomic : (key value : Bytes) → IsAtomic db (set_setting down db key value)
    unfolding set_setting
    set_setting-IsAtomic key value e = ground arith

insert_instance_same :
    (unique fails : Bool) (row : ProxmoxInstance) (rows : List ProxmoxInstance) (e : DbError)
    (n : ℕ)
    → name_duplicate (insert_instance_row unique fails row rows).0 ≡ err e
    → ((insert_instance_row unique fails row rows).1 ≡ rows)
      × (next_id (insert_instance_row unique fails row rows).0 n ≡ n)
unfolding insert_instance_row next_id name_duplicate
insert_instance_same unique true row rows e n q = (refl, refl)
insert_instance_same unique false row rows e n q =
    elim (Bool-cases (
      any (is_named instance_columns row.name) rows
      || url_taken unique (any (is_named url_columns row.api_url) rows))) [
        | inl k ↦ rw (k, insert_instance_row, next_id) (refl, refl)
        | inr k ↦ absurd (ground arith)
      ]

update_instance_same :
    (unique fails : Bool) (row : ProxmoxInstance) (rows : List ProxmoxInstance) (e : DbError)
    → name_duplicate (update_instance_row unique fails row rows).0 ≡ err e
    → (update_instance_row unique fails row rows).1 ≡ rows
unfolding update_instance_row name_duplicate
update_instance_same unique true row rows e q = refl
update_instance_same unique false row rows e q =
    elim (Bool-cases (
      name_taken instance_columns row rows || url_taken unique (name_taken url_columns row rows))) [
        | inl k ↦ rw (k, update_instance_row) refl
        | inr k ↦ absurd (ground arith)
      ]

module _ (lower trim : Bytes → Bytes) (down : Statement → Bool) (db : Tables)
    (x : ProxmoxInstance) where
  pub add_proxmox_instance-IsAtomic : IsAtomic db (add_proxmox_instance lower trim down db x)
  unfolding add_proxmox_instance
  add_proxmox_instance-IsAtomic e q =
      let (rows, next) = insert_instance_same _ _ _ db.instances e db.next_instance_id q in
      rw (rows, next) refl

  pub update_proxmox_instance-IsAtomic : IsAtomic db (update_proxmox_instance lower trim down db x)
  unfolding update_proxmox_instance
  update_proxmox_instance-IsAtomic e q = rw (update_instance_same _ _ _ db.instances e q) refl
