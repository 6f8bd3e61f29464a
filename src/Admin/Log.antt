-- ===== src/Admin/Log.antt =====
-- The activity log over any requests: it only grows.
use proxpass.Base.{List, [], ◌∷◌, ◌++◌, append_assoc, append-nil, ◌≡◌, sym, ap, ◌∙◌}
use proxpass.Models.{ActivityEvent}
use proxpass.Db.State.{Tables}
use proxpass.Db.Named.{
  add_client, update_client, remove_client, add_group, update_group, remove_group,
}
use proxpass.Db.Instances.{add_proxmox_instance, update_proxmox_instance}
use proxpass.Db.Keys.{add_admin_key, remove_admin_key, set_default_policy}
use proxpass.Db.Activity.{add_activity_event}
use proxpass.Db.Frames.{
  IgnoresRules, IgnoresNodeRules, IgnoresGuests, IgnoresRemoval, exec_keeps, set_setting_keeps,
  grant_access_keeps, grant_instance_access_keeps, revoke_access_keeps,
  revoke_instance_access_keeps, remove_proxmox_instance_keeps,
}
use proxpass.Discovery.Frames.{store_guests_keeps}
use proxpass.Admin.{Handler, Circumstances}
use proxpass.Admin.Requests.{AdminRequest, after_handled}
use proxpass.Admin.Changes.{
  Change, client_added, client_updated, client_removed, group_added, group_updated, group_removed,
  instance_added, instance_updated, instance_removed, guests_stored, granted, node_granted, revoked,
  node_revoked, policy_set, key_added, key_removed, setting_set, event_added, Changes-keep,
}
use proxpass.Admin.Changes.Handlers.{after_handled-Changes}

-- The new log is the old one with events after it.
abbrev pub Extends : List ActivityEvent → List ActivityEvent → Type 0
Extends old new = (more : List ActivityEvent) × (new ≡ old ++ more)

module _ (old : List ActivityEvent) where
  abbrev P : Tables → Type 0
  P db = Extends old db.activity_log

  rules : IgnoresRules P
  rules d n r p = p

  nodes : IgnoresNodeRules P
  nodes d n r p = p

  guests : IgnoresGuests P
  guests d n g p = p

  removal : IgnoresRemoval P
  removal d id p = p

module _ (h : Handler) (old : List ActivityEvent) where
  Change-Extends : (a b : Tables) → Change h a b → P old a → P old b
  unfolding add_client update_client remove_client add_group update_group remove_group
      add_proxmox_instance update_proxmox_instance add_admin_key remove_admin_key set_default_policy
      add_activity_event
  Change-Extends a b (client_added down x) p = p
  Change-Extends a b (client_updated down x) p = p
  Change-Extends a b (client_removed down id) p = p
  Change-Extends a b (group_added down x) p = p
  Change-Extends a b (group_updated down x) p = p
  Change-Extends a b (group_removed down id) p = p
  Change-Extends a b (instance_added down x) p = p
  Change-Extends a b (instance_updated down x) p = p
  Change-Extends a b (instance_removed down id) p =
      remove_proxmox_instance_keeps (P old) down (rules old) id a (guests old) (nodes old)
        (removal old) p
  Change-Extends a b (guests_stored down canceled_at id gs) p =
      store_guests_keeps (P old) down canceled_at id (rules old) (guests old) a gs p
  Change-Extends a b (granted down k s ts) p =
      grant_access_keeps (P old) down a p k s ts (rules old)
  Change-Extends a b (node_granted down k s ts) p =
      grant_instance_access_keeps (P old) down a p k s ts (nodes old)
  Change-Extends a b (revoked down k s t) p = revoke_access_keeps (P old) down a p k s t (rules old)
  Change-Extends a b (node_revoked down k s t) p =
      revoke_instance_access_keeps (P old) down a p k s t (nodes old)
  Change-Extends a b (policy_set down x) p = exec_keeps (P old) down _ a _ p p
  Change-Extends a b (key_added down key) p = exec_keeps (P old) down _ a _ p p
  Change-Extends a b (key_removed down key e) p = exec_keeps (P old) down _ a _ p p
  Change-Extends a b (setting_set down key value) p = set_setting_keeps (P old) down key value a p p
  Change-Extends a b (event_added down e) p = exec_keeps (P old) down _ a _ p (
    p.0 ++ record e { id = a.next_event_id } ∷ [],
    ap (λ l. l ++ record e { id = a.next_event_id } ∷ []) p.1 ∙ append_assoc old p.0 _,
  )

-- No request, whoever makes it, removes or changes an event of the activity log.
pub after_handled-Extends :
    (h : Handler) (db : Tables) (rs : List (Circumstances × AdminRequest))
    → Extends db.activity_log (after_handled h db rs).activity_log
after_handled-Extends h db rs =
    Changes-keep h (P db.activity_log) (Change-Extends h db.activity_log) db _
      (after_handled-Changes h db rs) ([], sym (append-nil db.activity_log))
