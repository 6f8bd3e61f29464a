-- ===== src/Admin/Changes.antt =====
-- What a request may do to the tables: a sequence of the repository's changes.
pub mod Handlers
use proxpass.Base.{ℕ, Bytes, Bool, false, List, [], ◌∷◌, Result, ok, err, ◌≡◌, refl, inl, inr}
use proxpass.Models.{
  ProxmoxInstance, Guest, Client, Group, RuleType, DefaultAccessPolicy, ActivityEvent,
}
use proxpass.Db.State.{Tables, DbError, Statement}
use proxpass.Db.Named.{
  add_client, update_client, remove_client, add_group, update_group, remove_group,
}
use proxpass.Db.Guests.{remove_proxmox_instance}
use proxpass.Db.Instances.{add_proxmox_instance, update_proxmox_instance}
use proxpass.Db.Rules.{grant_access, grant_instance_access, revoke_access, revoke_instance_access}
use proxpass.Db.Keys.{add_admin_key, remove_admin_key, set_default_policy}
use proxpass.Db.Listing.{set_setting}
use proxpass.Db.Activity.{add_activity_event}
use proxpass.Discovery.{store_guests}
use proxpass.Admin.{Handler}
use proxpass.Admin.Keys.{is_protected}

module _ (h : Handler) where
  -- One call of the repository, any of whose statements may fail. The protected key is never removed.
  pub data Change (db : Tables) : Tables → Type 0 where
    client_added :
        (down : Statement → Bool) (x : Client) → Change db (add_client h.lower down db x).1
    client_updated :
        (down : Statement → Bool) (x : Client) → Change db (update_client h.lower down db x).1
    client_removed : (down : Statement → Bool) (id : ℕ) → Change db (remove_client down db id).1
    group_added : (down : Statement → Bool) (x : Group) → Change db (add_group h.lower down db x).1
    group_updated :
        (down : Statement → Bool) (x : Group) → Change db (update_group h.lower down db x).1
    group_removed : (down : Statement → Bool) (id : ℕ) → Change db (remove_group down db id).1
    instance_added :
        (down : Statement → Bool) (x : ProxmoxInstance)
        → Change db (add_proxmox_instance h.lower h.trim down db x).1
    instance_updated :
        (down : Statement → Bool) (x : ProxmoxInstance)
        → Change db (update_proxmox_instance h.lower h.trim down db x).1
    instance_removed :
        (down : Statement → Bool) (id : ℕ) → Change db (remove_proxmox_instance down db id).1
    guests_stored :
        (down : Statement → Bool) (canceled_at : ℕ → Bool) (id : ℕ) (guests : List Guest)
        → Change db (store_guests down canceled_at id db guests).1
    granted :
        (down : Statement → Bool) (k : RuleType) (s : ℕ) (ts : List ℕ)
        → Change db (grant_access down db k s ts).1
    node_granted :
        (down : Statement → Bool) (k : RuleType) (s : ℕ) (ts : List ℕ)
        → Change db (grant_instance_access down db k s ts).1
    revoked :
        (down : Statement → Bool) (k : RuleType) (s t : ℕ)
        → Change db (revoke_access down db k s t).1
    node_revoked :
        (down : Statement → Bool) (k : RuleType) (s t : ℕ)
        → Change db (revoke_instance_access down db k s t).1
    policy_set :
        (down : Statement → Bool) (p : DefaultAccessPolicy)
        → Change db (set_default_policy down db p).1
    key_added : (down : Statement → Bool) (key : Bytes) → Change db (add_admin_key down db key).1
    key_removed :
        (down : Statement → Bool) (key : Bytes)
        → is_protected h key ≡ false
        → Change db (remove_admin_key down db key).1
    setting_set :
        (down : Statement → Bool) (key value : Bytes) → Change db (set_setting down db key value).1
    event_added :
        (down : Statement → Bool) (e : ActivityEvent) → Change db (add_activity_event down db e).1

  pub data Changes : Tables → Tables → Type 0 where
    unchanged : {db : Tables} → Changes db db
    followed : {db mid end : Tables} → Change db mid → Changes mid end → Changes db end

  pub Changes-append : {a b c : Tables} → Changes a b → Changes b c → Changes a c
  Changes-append unchanged t = t
  Changes-append (followed s r) t = followed s (Changes-append r t)

  -- What every call of the repository keeps, any number of them keep.
  pub Changes-keep {ℓ} :
      (P : Tables → Type ℓ)
      → ((a b : Tables) → Change a b → P a → P b)
      → (a b : Tables) → Changes a b
      → P a
      → P b
  Changes-keep P each a b unchanged p = p
  Changes-keep P each a b (followed {mid = m} s r) p = Changes-keep P each m b r (each a m s p)
