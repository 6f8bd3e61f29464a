-- ===== src/Admin/Ends/Handlers.antt =====
-- How each request ends.
use proxpass.Base.{Bytes, Option, none, some, Result, ◌≡◌, refl, inl, inr, Bool-cases}
use proxpass.Db.State.{Tables, DbError}
use proxpass.Db.Frames.{
  set_setting_keeps, grant_access_keeps, grant_instance_access_keeps, revoke_access_keeps,
  revoke_instance_access_keeps, remove_proxmox_instance_keeps,
}
use proxpass.Admin.{Handler, Circumstances, Reply, as_admin, with_row}
use proxpass.Admin.Outcome.{as_admin_ends, with_row_ends}
use proxpass.Admin.Atomic
use proxpass.Admin.Atomic.{IsAtomic}
use proxpass.Admin.Clients.{
  handle_client_by_name, handle_get_client, handle_add_client, handle_update_client,
  handle_remove_client,
}
use proxpass.Admin.Groups.{
  handle_get_group, handle_add_group, handle_update_group, handle_remove_group,
}
use proxpass.Admin.Instances.{
  handle_get_instance, handle_add_instance, handle_update_instance, handle_remove_instance,
  handle_get_guest,
}
use proxpass.Admin.Rules.{
  handle_grant_access, handle_revoke_access, handle_grant_instance_access,
  handle_revoke_instance_access, handle_get_default_policy, handle_set_default_policy,
}
use proxpass.Admin.Keys.{
  is_protected, handle_list_admin_keys, handle_add_admin_key, handle_remove_admin_key,
  handle_get_setting, handle_set_setting, handle_get_version,
}
use proxpass.Admin.Quiet.{
  IsQuiet, quiet, rules, nodes, guests, removal, discovered_quiet, revoke_each_quiet,
  add_client_quiet, update_client_quiet, remove_client_quiet, add_group_quiet, update_group_quiet,
  remove_group_quiet, add_proxmox_instance_quiet, update_proxmox_instance_quiet,
  set_default_policy_quiet, add_admin_key_quiet, remove_admin_key_quiet,
}
use proxpass.Admin.Requests
use proxpass.Admin.Requests.{AdminRequest, handle}
use proxpass.Admin.Ends.{event_of, LeftBy, WriteEnd, refused, written}
use proxpass.Admin.Ends.Parts.{sends, finds, found, supports, subjects, does, clashes}

module _ (h : Handler) (c : Circumstances) (db : Tables) where
  abbrev Stays : Reply × Tables → Type 0
  Stays out = out.1 ≡ db

  reads : (reply : Reply) → Stays (as_admin h c db (reply, db))
  reads reply = as_admin_ends Stays db h c _ (λ d p. refl) refl

  finds_read :
      {R : Type 0} (missing : Bytes) (row : Result DbError (Option R)) (reply : R → Reply)
      → Stays (as_admin h c db (with_row missing row db λ r. (reply r, db)))
  finds_read missing row reply =
      as_admin_ends Stays db h c _ (λ d p. refl)
        (with_row_ends Stays db missing row _ refl refl λ r. refl)

  abbrev pub EndsBy : Option Bytes → AdminRequest → Type 0
  EndsBy none r = Stays (handle h c db r)
  EndsBy (some event) r = WriteEnd h c db event (LeftBy db r) (handle h c db r)

  pub ends_by : (r : AdminRequest) → EndsBy (event_of r) r
  unfolding handle handle_client_by_name handle_get_client handle_remove_client handle_get_group
      handle_remove_group handle_get_instance handle_remove_instance handle_get_guest
      handle_add_client handle_update_client handle_add_group handle_update_group
      handle_add_instance handle_update_instance handle_grant_access handle_revoke_access
      handle_grant_instance_access handle_revoke_instance_access handle_get_default_policy
      handle_list_admin_keys handle_get_version handle_set_default_policy handle_add_admin_key
      handle_remove_admin_key handle_get_setting handle_set_setting
  ends_by (Requests.client_by_name_request name) = reads _
  ends_by (Requests.get_guest_request id) = reads _
  ends_by Requests.get_policy_request = reads _
  ends_by Requests.list_keys_request = reads _
  ends_by Requests.version_request = reads _
  ends_by (Requests.get_setting_request key) = reads _
  ends_by (Requests.get_client_request id) = finds_read _ _ _
  ends_by (Requests.get_group_request id) = finds_read _ _ _
  ends_by (Requests.get_instance_request id) = finds_read _ _ _
  ends_by (Requests.add_client_request body) =
      sends h c db _ (λ d. d ≡ db) refl body _
        λ b.
          clashes h c db _ (λ d. d ≡ db) refl _ _ (Atomic.add_client-IsAtomic db c.down h.lower _)
            (λ a. written _ _ _ ((add_client_quiet h c db) _)) _
  ends_by (Requests.update_client_request id body) =
      sends h c db _ (λ d. d ≡ db) refl body _
        λ b.
          finds h c db _ (λ d. d ≡ db) refl _ _ _
            λ r.
              clashes h c db _ (λ d. d ≡ db) refl _ _
                (Atomic.update_client-IsAtomic db c.down h.lower _)
                (λ a. written _ _ _ ((update_client_quiet h c db) _)) _
  ends_by (Requests.remove_client_request id) =
      found h c db _ (λ d. d ≡ db) refl _ _ _
        λ r.
          does h c db _ (λ d. d ≡ db) refl _ _ (Atomic.remove_client-IsAtomic db c.down id)
            (λ a. written _ _ _ ((remove_client_quiet h c db) id))
  ends_by (Requests.add_group_request body) =
      sends h c db _ (λ d. d ≡ db) refl body _
        λ b.
          clashes h c db _ (λ d. d ≡ db) refl _ _ (Atomic.add_group-IsAtomic db c.down h.lower _)
            (λ a. written _ _ _ ((add_group_quiet h c db) _)) _
  ends_by (Requests.update_group_request id body) =
      sends h c db _ (λ d. d ≡ db) refl body _
        λ b.
          finds h c db _ (λ d. d ≡ db) refl _ _ _
            λ r.
              clashes h c db _ (λ d. d ≡ db) refl _ _
                (Atomic.update_group-IsAtomic db c.down h.lower _)
                (λ a. written _ _ _ ((update_group_quiet h c db) _)) _
  ends_by (Requests.remove_group_request id) =
      found h c db _ (λ d. d ≡ db) refl _ _ _
        λ r.
          does h c db _ (λ d. d ≡ db) refl _ _ (Atomic.remove_group-IsAtomic db c.down id)
            (λ a. written _ _ _ ((remove_group_quiet h c db) id))
  ends_by (Requests.remove_instance_request id) =
      found h c db _ (λ d. d ≡ db) refl _ _ _
        λ r.
          does h c db _ (λ d. d ≡ db) refl _ _
            (Atomic.remove_proxmox_instance-IsAtomic db c.down id)
            (λ a. written _ _ _ (
              remove_proxmox_instance_keeps (IsQuiet db) c.down (rules h c db) id db (guests h c db)
                (nodes h c db) (removal h c db) (quiet h c db)))
  ends_by (Requests.add_instance_request body) =
      sends h c db _ (λ d. d ≡ db) refl body _
        λ b.
          supports h c db _ (λ d. d ≡ db) refl _ _ _
            (clashes h c db _ (λ d. d ≡ db) refl _ _
              (Atomic.add_proxmox_instance-IsAtomic h.lower h.trim c.down db _)
              (λ a.
                written _ _ _
                  ((discovered_quiet h c db) _ _ _ ((add_proxmox_instance_quiet h c db) _)))
              _)
  ends_by (Requests.update_instance_request id body) =
      sends h c db _ (λ d. d ≡ db) refl body _
        λ b.
          finds h c db _ (λ d. d ≡ db) refl _ _ _
            λ r.
              supports h c db _ (λ d. d ≡ db) refl _ _ _
                (clashes h c db _ (λ d. d ≡ db) refl _ _
                  (Atomic.update_proxmox_instance-IsAtomic h.lower h.trim c.down db _)
                  (λ a. written _ _ _ ((update_proxmox_instance_quiet h c db) _)) _)
  ends_by (Requests.grant_request body) =
      sends h c db _ (λ d. d ≡ db) refl body _
        λ b.
          subjects h c db _ (λ d. d ≡ db) refl _ _
            λ k.
              does h c db _ (λ d. d ≡ db) refl _ _ (Atomic.grant_access-IsAtomic db c.down k _ _)
                (λ a.
                  written _ _ _
                    (grant_access_keeps (IsQuiet db) c.down db (quiet h c db) k _ _ (rules h c db)))
  ends_by (Requests.grant_instance_request body) =
      sends h c db _ (λ d. d ≡ db) refl body _
        λ b.
          subjects h c db _ (λ d. d ≡ db) refl _ _
            λ k.
              does h c db _ (λ d. d ≡ db) refl _ _
                (Atomic.grant_instance_access-IsAtomic db c.down k _ _)
                (λ a. written _ _ _ (
                  grant_instance_access_keeps (IsQuiet db) c.down db (quiet h c db) k _ _
                    (nodes h c db)))
  ends_by (Requests.revoke_request body) = sends h c db _ (IsQuiet db) (quiet h c db) body _ λ b.
      subjects h c db _ (IsQuiet db) (quiet h c db) _ _ λ k.
        let kept =
          (revoke_each_quiet h c db) _
            (λ d t q. revoke_access_keeps (IsQuiet db) c.down d q k b.subject.id t (rules h c db))
            b.target_ids db (quiet h c db) in
        does h c db _ (IsQuiet db) (quiet h c db) _ _ (λ e q. kept) (λ a. written _ _ _ kept)
  ends_by (Requests.revoke_instance_request body) =
      sends h c db _ (IsQuiet db) (quiet h c db) body _ λ b.
        subjects h c db _ (IsQuiet db) (quiet h c db) _ _ λ k.
          let kept =
            (revoke_each_quiet h c db) _
              (λ d t q.
                revoke_instance_access_keeps (IsQuiet db) c.down d q k b.subject.id t
                  (nodes h c db))
              b.target_ids db (quiet h c db) in
          does h c db _ (IsQuiet db) (quiet h c db) _ _ (λ e q. kept) (λ a. written _ _ _ kept)
  ends_by (Requests.set_policy_request body) =
      sends h c db _ (λ d. d ≡ db) refl body _
        λ b.
          does h c db _ (λ d. d ≡ db) refl _ _ (Atomic.set_default_policy-IsAtomic db c.down _)
            (λ a. written _ _ _ ((set_default_policy_quiet h c db) _))
  ends_by (Requests.add_key_request body) =
      sends h c db _ (λ d. d ≡ db) refl body _
        λ b.
          clashes h c db _ (λ d. d ≡ db) refl _ _ (Atomic.add_admin_key-IsAtomic db c.down _)
            (λ a. written _ _ _ ((add_admin_key_quiet h c db) _)) _
  ends_by (Requests.remove_key_request body) =
      sends h c db _ (λ d. d ≡ db) refl body _
        λ key. elim (Bool-cases (is_protected h key)) [
          | inl e ↦ rw e (refused _ db (λ a. a) refl)
          | inr e ↦ rw e (
              does h c db _ (λ d. d ≡ db) refl _ _ (Atomic.remove_admin_key-IsAtomic db c.down _)
                (λ a. written _ _ _ ((remove_admin_key_quiet h c db) _)))
        ]
  ends_by (Requests.set_setting_request key body) =
      sends h c db _ (λ d. d ≡ db) refl body _
        λ value.
          does h c db _ (λ d. d ≡ db) refl _ _ (Atomic.set_setting-IsAtomic db c.down key value)
            (λ a.
              written _ _ _
                (set_setting_keeps (IsQuiet db) c.down key value db (quiet h c db) (quiet h c db)))
