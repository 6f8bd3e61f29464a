-- ===== src/Admin/Protected.antt =====
-- The key that the deployment configures for its administrator stays.
use mathlib.Core.Path.{subst}
use proxpass.Base.{
  Bytes, bytes_eq, bytes_eq_iff, true, false, not, List, [], ◌∷◌, ◌≡◌, ◌≢◌, refl, sym, inl, inr,
  any, filter, Elem, Any-append, Any-filter_iff, Any-weaken, Bool-cases, arith,
}
use proxpass.Db.State.{Tables}
use proxpass.Admin.Keys.{is_protected}
use proxpass.Db.Named.{
  add_client, update_client, remove_client, add_group, update_group, remove_group,
}
use proxpass.Db.Instances.{add_proxmox_instance, update_proxmox_instance}
use proxpass.Db.Keys.{add_key_row, add_admin_key, remove_admin_key, set_default_policy}
use proxpass.Db.Activity.{add_activity_event}
use proxpass.Db.Frames.{
  IgnoresRules, IgnoresNodeRules, IgnoresGuests, IgnoresRemoval, exec_keeps, set_setting_keeps,
  grant_access_keeps, grant_instance_access_keeps, revoke_access_keeps,
  revoke_instance_access_keeps, remove_proxmox_instance_keeps,
}
use proxpass.Discovery.Frames.{store_guests_keeps}
use proxpass.Admin.{Handler, Circumstances}
use proxpass.Admin.Requests.{AdminRequest, after_handled}
use proxpass.Admin.Changes.{
  Change, client_added, client_updated, client_removed, group_added, group_updated, group_removed,
  instance_added, instance_updated, instance_removed, guests_stored, granted, node_granted, revoked,
  node_revoked, policy_set, key_added, key_removed, setting_set, event_added, Changes-keep,
}
use proxpass.Admin.Changes.Handlers.{after_handled-Changes}

module _ (h : Handler) (kept : h.protected_admin_key ≢ [])
    (tidy : h.trim h.protected_admin_key ≡ h.protected_admin_key) where
  -- The protected key is a key of the administrator.
  abbrev P : Tables → Type 0
  P db = Elem h.protected_admin_key db.admin_keys

  rules : IgnoresRules P
  rules d n r p = p

  nodes : IgnoresNodeRules P
  nodes d n r p = p

  guests : IgnoresGuests P
  guests d n g p = p

  removal : IgnoresRemoval P
  removal d id p = p

  add_key_row-Elem :
      (key : Bytes) (keys : List Bytes)
      → Elem h.protected_admin_key keys
      → Elem h.protected_admin_key (add_key_row key keys)
  unfolding add_key_row
  add_key_row-Elem key keys m = elim (Bool-cases (any (λ k. bytes_eq k key) keys)) [
    | inl e ↦ rw (e, add_key_row) m
    | inr e ↦ rw (e, add_key_row) ((Any-append _ keys (key ∷ [])).1 (inl m))
  ]

  other_key :
      (key : Bytes) → is_protected h key ≡ false → not (bytes_eq h.protected_admin_key key) ≡ true
  unfolding is_protected
  other_key key e = elim (Bool-cases (bytes_eq h.protected_admin_key key)) [
    | inl q ↦
        let same : h.protected_admin_key ≡ key = (bytes_eq_iff h.protected_admin_key key).0 q in
        let shown =
          (bytes_eq_iff (h.trim key) h.protected_admin_key).1
            (subst (λ k. h.trim k ≡ h.protected_admin_key) same tidy) in
        let filled : bytes_eq h.protected_admin_key [] ≡ false =
          elim (Bool-cases (bytes_eq h.protected_admin_key [])) [
            | inl z ↦ absurd (kept ((bytes_eq_iff h.protected_admin_key []).0 z))
            | inr z ↦ z
          ] in
        absurd (ground (arith, shown, filled))
    | inr q ↦ rw q refl
  ]

  removed-Elem :
      (key : Bytes) (keys : List Bytes)
      → is_protected h key ≡ false
      → Elem h.protected_admin_key keys
      → Elem h.protected_admin_key (filter (λ k. not (bytes_eq k key)) keys)
  removed-Elem key keys e m = (Any-filter_iff (λ k. not (bytes_eq k key)) _ keys).1 (
      Any-weaken _ _ keys
        (λ k q. (q, subst (λ x. not (bytes_eq x key) ≡ true) (sym q) (other_key key e))) m)

  Change-Elem : (a b : Tables) → Change h a b → P a → P b
  unfolding add_client update_client remove_client add_group update_group remove_group
      add_proxmox_instance update_proxmox_instance add_admin_key remove_admin_key set_default_policy
      add_activity_event
  Change-Elem a b (client_added down x) p = p
  Change-Elem a b (client_updated down x) p = p
  Change-Elem a b (client_removed down id) p = p
  Change-Elem a b (group_added down x) p = p
  Change-Elem a b (group_updated down x) p = p
  Change-Elem a b (group_removed down id) p = p
  Change-Elem a b (instance_added down x) p = p
  Change-Elem a b (instance_updated down x) p = p
  Change-Elem a b (instance_removed down id) p =
      remove_proxmox_instance_keeps P down rules id a guests nodes removal p
  Change-Elem a b (guests_stored down canceled_at id gs) p =
      store_guests_keeps P down canceled_at id rules guests a gs p
  Change-Elem a b (granted down k s ts) p = grant_access_keeps P down a p k s ts rules
  Change-Elem a b (node_granted down k s ts) p = grant_instance_access_keeps P down a p k s ts nodes
  Change-Elem a b (revoked down k s t) p = revoke_access_keeps P down a p k s t rules
  Change-Elem a b (node_revoked down k s t) p = revoke_instance_access_keeps P down a p k s t nodes
  Change-Elem a b (policy_set down x) p = exec_keeps P down _ a _ p p
  Change-Elem a b (key_added down key) p =
      exec_keeps P down _ a _ p (add_key_row-Elem key a.admin_keys p)
  Change-Elem a b (key_removed down key e) p =
      exec_keeps P down _ a _ p (removed-Elem key a.admin_keys e p)
  Change-Elem a b (setting_set down key value) p = set_setting_keeps P down key value a p p
  Change-Elem a b (event_added down e) p = exec_keeps P down _ a _ p p

  -- A protected key that is a key of the administrator is one after any requests, by anybody, whatever
  -- fails in them, with spaces around the key of a removal or without.
  pub after_handled-Elem :
      (db : Tables) (rs : List (Circumstances × AdminRequest))
      → Elem h.protected_admin_key db.admin_keys
      → Elem h.protected_admin_key (after_handled h db rs).admin_keys
  after_handled-Elem db rs m = Changes-keep h P Change-Elem db _ (after_handled-Changes h db rs) m
