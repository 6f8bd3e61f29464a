-- ===== src/Admin/Quiet.antt =====
-- The repository calls of a request neither touch the activity log nor end sessions.
use proxpass.Base.{
  ℕ, Bytes, Option, none, some, List, [], ◌∷◌, Result, ok, err, ◌≡◌, refl, inl, inr, Option-cases,
}
use proxpass.Models.{ProxmoxInstance, Guest, Client, Group, DefaultAccessPolicy}
use proxpass.Db.State.{Tables, DbError}
use proxpass.Db.Named.{
  add_client, update_client, remove_client, add_group, update_group, remove_group,
}
use proxpass.Db.Instances.{add_proxmox_instance, update_proxmox_instance}
use proxpass.Db.Keys.{add_admin_key, remove_admin_key, set_default_policy}
use proxpass.Db.Frames.{IgnoresRules, IgnoresNodeRules, IgnoresGuests, IgnoresRemoval, exec_keeps}
use proxpass.Discovery.Frames.{store_guests_keeps}
use proxpass.Admin.{Handler, Circumstances}
use proxpass.Admin.Instances.{store_discovered, discover_instance}
use proxpass.Admin.Rules.{first_error, revoke_each}

-- The log and the sessions are as they were.
abbrev pub IsQuiet : Tables → Tables → Type 0
IsQuiet db d =
    (d.activity_log ≡ db.activity_log)
    × (d.api_sessions ≡ db.api_sessions)
    × (d.next_event_id ≡ db.next_event_id)

module _ (h : Handler) (c : Circumstances) (db : Tables) where
  pub quiet : IsQuiet db db
  quiet = (refl, refl, refl)

  pub rules : IgnoresRules (IsQuiet db)
  rules d n r p = p

  pub nodes : IgnoresNodeRules (IsQuiet db)
  nodes d n r p = p

  pub guests : IgnoresGuests (IsQuiet db)
  guests d n g p = p

  pub removal : IgnoresRemoval (IsQuiet db)
  removal d id p = p

  pub discovered_quiet :
      (d : Option (ProxmoxInstance → Option (List Guest))) (inst : ProxmoxInstance) (b : Tables)
      → IsQuiet db b
      → IsQuiet db (discover_instance c d inst b)
  unfolding discover_instance store_discovered
  discovered_quiet none inst b q = q
  discovered_quiet (some discover) inst b q = elim (Option-cases (discover inst)) [
    | inl e ↦ rw (e, store_discovered) q
    | inr (gs, e) ↦
        rw (e, store_discovered)
          (store_guests_keeps (IsQuiet db) c.down c.canceled_at inst.id rules guests b gs q)
  ]

  pub first_error_quiet :
      (done rest : Result DbError (Unit {0}) × Tables)
      → IsQuiet db done.1
      → IsQuiet db rest.1
      → IsQuiet db (first_error done rest).1
  unfolding first_error
  first_error_quiet (err e, b) rest p q = p
  first_error_quiet (ok _, b) rest p q = q

  pub revoke_each_quiet :
      (revoke : Tables → ℕ → Result DbError (Unit {0}) × Tables)
      → ((d : Tables) (t : ℕ) → IsQuiet db d → IsQuiet db (revoke d t).1)
      → (ts : List ℕ) (b : Tables) → IsQuiet db b
      → IsQuiet db (revoke_each revoke b ts).1
  unfolding revoke_each
  revoke_each_quiet revoke each [] b q = q
  revoke_each_quiet revoke each (t ∷ ts) b q =
      first_error_quiet (revoke b t) _ (each b t q)
        (revoke_each_quiet revoke each ts (revoke b t).1 (each b t q))

  pub add_client_quiet : (x : Client) → IsQuiet db (add_client h.lower c.down db x).1
  unfolding add_client
  add_client_quiet x = quiet

  pub update_client_quiet : (x : Client) → IsQuiet db (update_client h.lower c.down db x).1
  unfolding update_client
  update_client_quiet x = quiet

  pub remove_client_quiet : (id : ℕ) → IsQuiet db (remove_client c.down db id).1
  unfolding remove_client
  remove_client_quiet id = quiet

  pub add_group_quiet : (x : Group) → IsQuiet db (add_group h.lower c.down db x).1
  unfolding add_group
  add_group_quiet x = quiet

  pub update_group_quiet : (x : Group) → IsQuiet db (update_group h.lower c.down db x).1
  unfolding update_group
  update_group_quiet x = quiet

  pub remove_group_quiet : (id : ℕ) → IsQuiet db (remove_group c.down db id).1
  unfolding remove_group
  remove_group_quiet id = quiet

  pub add_proxmox_instance_quiet :
      (x : ProxmoxInstance) → IsQuiet db (add_proxmox_instance h.lower h.trim c.down db x).1
  unfolding add_proxmox_instance
  add_proxmox_instance_quiet x = quiet

  pub update_proxmox_instance_quiet :
      (x : ProxmoxInstance) → IsQuiet db (update_proxmox_instance h.lower h.trim c.down db x).1
  unfolding update_proxmox_instance
  update_proxmox_instance_quiet x = quiet

  pub set_default_policy_quiet :
      (x : DefaultAccessPolicy) → IsQuiet db (set_default_policy c.down db x).1
  unfolding set_default_policy
  set_default_policy_quiet x = exec_keeps (IsQuiet db) c.down _ db _ quiet quiet

  pub add_admin_key_quiet : (key : Bytes) → IsQuiet db (add_admin_key c.down db key).1
  unfolding add_admin_key
  add_admin_key_quiet key = exec_keeps (IsQuiet db) c.down _ db _ quiet quiet

  pub remove_admin_key_quiet : (key : Bytes) → IsQuiet db (remove_admin_key c.down db key).1
  unfolding remove_admin_key
  remove_admin_key_quiet key = exec_keeps (IsQuiet db) c.down _ db _ quiet quiet
