-- ===== src/Admin/Changes/Handlers.antt =====
-- Every handler as a sequence of the repository's changes.
use proxpass.Base.{
  ℕ, Bytes, Bool, Option, none, some, List, [], ◌∷◌, Result, ok, err, Bool-cases, inl, inr,
}
use proxpass.Models.{ProxmoxInstance, Guest, Param}
use proxpass.Db.State.{Tables, DbError}
use proxpass.Admin.{
  Handler, Circumstances, Reply, activity_enabled, record_event, record_admin, recorded, as_admin,
  with_body, with_row, if_done, if_no_clash,
}
use proxpass.Admin.Outcome.{
  as_admin_ends, with_body_ends, with_row_ends, if_supported_ends, with_subject_ends, if_done_ends,
  if_no_clash_ends,
}
use proxpass.Admin.Wire.{Body}
use proxpass.Admin.Clients.{
  handle_client_by_name, handle_get_client, handle_add_client, handle_update_client,
  handle_remove_client,
}
use proxpass.Admin.Groups.{
  handle_get_group, handle_add_group, handle_update_group, handle_remove_group,
}
use proxpass.Admin.Instances.{
  store_discovered, discover_instance, handle_get_instance, handle_add_instance,
  handle_update_instance, handle_remove_instance, handle_get_guest,
}
use proxpass.Admin.Rules.{
  first_error, revoke_each, handle_grant_access, handle_revoke_access, handle_grant_instance_access,
  handle_revoke_instance_access, handle_get_default_policy, handle_set_default_policy,
}
use proxpass.Admin.Keys.{
  is_protected, handle_list_admin_keys, handle_add_admin_key, handle_remove_admin_key,
  handle_get_setting, handle_set_setting, handle_get_version,
}
use proxpass.Admin.Requests
use proxpass.Admin.Requests.{AdminRequest, handle, after_handled}
use proxpass.Admin.Changes.{
  Change, client_added, client_updated, client_removed, group_added, group_updated, group_removed,
  instance_added, instance_updated, instance_removed, guests_stored, granted, node_granted, revoked,
  node_revoked, policy_set, key_added, key_removed, setting_set, event_added, Changes, unchanged,
  followed, Changes-append,
}

module _ (h : Handler) (c : Circumstances) where
  record_event-Changes :
      (event actor : Bytes) (params : List (Bytes × Param)) (db : Tables)
      → Changes h db (record_event h c event actor params db)
  unfolding record_event
  record_event-Changes event actor params db = elim (Bool-cases (activity_enabled h c)) [
    | inl e ↦ rw (e, record_event) (followed (event_added c.late_down _) unchanged)
    | inr e ↦ rw (e, record_event) unchanged
  ]

  recorded-Changes :
      (body : Body) (event : Bytes) (params : List (Bytes × Param)) (db : Tables)
      → Changes h db (recorded h c body event params db).1
  unfolding recorded record_admin
  recorded-Changes body event params db = record_event-Changes event _ params db

  store_discovered-Changes :
      (inst : ProxmoxInstance) (found : Option (List Guest)) (db : Tables)
      → Changes h db (store_discovered c inst found db)
  unfolding store_discovered
  store_discovered-Changes inst none db = unchanged
  store_discovered-Changes inst (some guests) db =
      followed (guests_stored c.down c.canceled_at inst.id guests) unchanged

  discover_instance-Changes :
      (d : Option (ProxmoxInstance → Option (List Guest))) (inst : ProxmoxInstance) (db : Tables)
      → Changes h db (discover_instance c d inst db)
  unfolding discover_instance
  discover_instance-Changes none inst db = unchanged
  discover_instance-Changes (some discover) inst db =
      store_discovered-Changes inst (discover inst) db

  first_error-Changes :
      (db : Tables) (done rest : Result DbError (Unit {0}) × Tables)
      → Change h db done.1
      → Changes h done.1 rest.1
      → Changes h db (first_error done rest).1
  unfolding first_error
  first_error-Changes db (err e, b) rest first more = followed first unchanged
  first_error-Changes db (ok _, b) rest first more = followed first more

  revoke_each-Changes :
      (revoke : Tables → ℕ → Result DbError (Unit {0}) × Tables)
      → ((d : Tables) (t : ℕ) → Change h d (revoke d t).1)
      → (ts : List ℕ) (db : Tables) → Changes h db (revoke_each revoke db ts).1
  unfolding revoke_each
  revoke_each-Changes revoke each [] db = unchanged
  revoke_each-Changes revoke each (t ∷ ts) db =
      first_error-Changes db (revoke db t) _ (each db t)
        (revoke_each-Changes revoke each ts (revoke db t).1)

  module _ (db : Tables) where
    abbrev Leads : Reply × Tables → Type 0
    Leads out = Changes h db out.1

    -- A handler that only reads.
    reads : (reply : Reply) → Leads (as_admin h c db (reply, db))
    reads reply = as_admin_ends Leads db h c _ (λ d p. unchanged) unchanged

    -- A handler that calls the repository.
    calls : (done : Reply × Tables) → Leads done → Leads (as_admin h c db done)
    calls done q = as_admin_ends Leads db h c done (λ d p. unchanged) q

    done_recorded :
        {A : Type 0} (done : Result DbError A × Tables) (next : A → Tables → Reply × Tables)
        → Changes h db done.1
        → ((a : A) (d : Tables) → Changes h d (next a d).1)
        → Leads (if_done done next)
    done_recorded done next step rest =
        if_done_ends Leads done next (λ e q. step) λ a q. Changes-append h step (rest a done.1)

    clash_recorded :
        {A : Type 0} (u : Bool) (done : Result DbError A × Tables)
        (next : A → Tables → Reply × Tables)
        → Changes h db done.1
        → ((a : A) (d : Tables) → Changes h d (next a d).1)
        → Leads (if_no_clash u done next)
    clash_recorded u done next step rest =
        if_no_clash_ends Leads u done next (λ e q. step) (λ e q. step)
          λ a q. Changes-append h step (rest a done.1)

    sends :
        {B : Type 0} (body : Option B) (work : B → Reply × Tables)
        → ((b : B) → Leads (work b))
        → Leads (with_body body db work)
    sends body work q = with_body_ends Leads db body work unchanged q

    finds :
        {R : Type 0} (missing : Bytes) (found : Result DbError (Option R))
        (work : R → Reply × Tables)
        → ((r : R) → Leads (work r))
        → Leads (with_row missing found db work)
    finds missing found work q = with_row_ends Leads db missing found work unchanged unchanged q

    abbrev one : {b : Tables} → Change h db b → Changes h db b
    one s = followed s unchanged

    -- The changes that a request makes are calls of the repository, none of which removes the
    -- protected key.
    pub handle-Changes : (r : AdminRequest) → Changes h db (handle h c db r).1
    unfolding handle handle_client_by_name handle_get_client handle_remove_client handle_get_group
        handle_remove_group handle_get_instance handle_remove_instance handle_get_guest
        handle_add_client handle_update_client handle_add_group handle_update_group
        handle_add_instance handle_update_instance handle_grant_access handle_revoke_access
        handle_grant_instance_access handle_revoke_instance_access handle_get_default_policy
        handle_list_admin_keys handle_get_version handle_set_default_policy handle_add_admin_key
        handle_remove_admin_key handle_get_setting handle_set_setting
    handle-Changes (Requests.client_by_name_request name) = reads _
    handle-Changes (Requests.get_client_request id) = calls _ (finds _ _ _ λ r. unchanged)
    handle-Changes (Requests.get_group_request id) = calls _ (finds _ _ _ λ r. unchanged)
    handle-Changes (Requests.get_instance_request id) = calls _ (finds _ _ _ λ r. unchanged)
    handle-Changes (Requests.get_guest_request id) = reads _
    handle-Changes Requests.get_policy_request = reads _
    handle-Changes Requests.list_keys_request = reads _
    handle-Changes Requests.version_request = reads _
    handle-Changes (Requests.get_setting_request key) = reads _
    handle-Changes (Requests.remove_client_request id) = calls _ (
        finds _ _ _
          λ r. done_recorded _ _ (one (client_removed c.down id)) λ a d. recorded-Changes _ _ _ d)
    handle-Changes (Requests.remove_group_request id) = calls _ (
        finds _ _ _
          λ r. done_recorded _ _ (one (group_removed c.down id)) λ a d. recorded-Changes _ _ _ d)
    handle-Changes (Requests.remove_instance_request id) = calls _ (
        finds _ _ _
          λ r. done_recorded _ _ (one (instance_removed c.down id)) λ a d. recorded-Changes _ _ _ d)
    handle-Changes (Requests.add_client_request body) = calls _ (
        sends body _
          λ b. clash_recorded _ _ _ (one (client_added c.down _)) λ a d. recorded-Changes _ _ _ d)
    handle-Changes (Requests.add_group_request body) = calls _ (
        sends body _
          λ b. clash_recorded _ _ _ (one (group_added c.down _)) λ a d. recorded-Changes _ _ _ d)
    handle-Changes (Requests.update_client_request id body) = calls _ (
        sends body _ λ b.
          finds _ _ _ λ r.
            clash_recorded _ _ _ (one (client_updated c.down _)) λ a d. recorded-Changes _ _ _ d)
    handle-Changes (Requests.update_group_request id body) = calls _ (
        sends body _ λ b.
          finds _ _ _ λ r.
            clash_recorded _ _ _ (one (group_updated c.down _)) λ a d. recorded-Changes _ _ _ d)
    handle-Changes (Requests.add_instance_request body) = calls _ (
        sends body _ λ b. if_supported_ends Leads db _ _ _ unchanged (
          clash_recorded _ _ _ (one (instance_added c.down _))
            λ a d. Changes-append h (discover_instance-Changes _ _ d) (recorded-Changes _ _ _ _)))
    handle-Changes (Requests.update_instance_request id body) = calls _ (
        sends body _ λ b. finds _ _ _ λ r.
          if_supported_ends Leads db _ _ _ unchanged (
            clash_recorded _ _ _ (one (instance_updated c.down _)) λ a d. recorded-Changes _ _ _ d))
    handle-Changes (Requests.grant_request body) = calls _ (
        sends body _ λ b.
          with_subject_ends Leads db _ _ unchanged
            λ k. done_recorded _ _ (one (granted c.down k _ _)) λ a d. recorded-Changes _ _ _ d)
    handle-Changes (Requests.grant_instance_request body) = calls _ (
        sends body _ λ b.
          with_subject_ends Leads db _ _ unchanged λ k.
            done_recorded _ _ (one (node_granted c.down k _ _)) λ a d. recorded-Changes _ _ _ d)
    handle-Changes (Requests.revoke_request body) = calls _ (
        sends body _ λ b. with_subject_ends Leads db _ _ unchanged λ k.
          done_recorded _ _
            (revoke_each-Changes _ (λ d t. revoked c.down k b.subject.id t) b.target_ids db)
            λ a d. recorded-Changes _ _ _ d)
    handle-Changes (Requests.revoke_instance_request body) = calls _ (
        sends body _ λ b. with_subject_ends Leads db _ _ unchanged λ k.
          done_recorded _ _
            (revoke_each-Changes _ (λ d t. node_revoked c.down k b.subject.id t) b.target_ids db)
            λ a d. recorded-Changes _ _ _ d)
    handle-Changes (Requests.set_policy_request body) = calls _ (
        sends body _
          λ b. done_recorded _ _ (one (policy_set c.down _)) λ a d. recorded-Changes _ _ _ d)
    handle-Changes (Requests.add_key_request body) = calls _ (
        sends body _
          λ key. clash_recorded _ _ _ (one (key_added c.down key)) λ a d. recorded-Changes _ _ _ d)
    handle-Changes (Requests.remove_key_request body) = calls _ (
        sends body _ λ key. elim (Bool-cases (is_protected h key)) [
          | inl e ↦ rw e unchanged
          | inr e ↦
              rw e
                (done_recorded _ _ (one (key_removed c.down key e)) λ a d. recorded-Changes _ _ _ d)
        ])
    handle-Changes (Requests.set_setting_request key body) = calls _ (
        sends body _ λ value.
          done_recorded _ _ (one (setting_set c.down key value)) λ a d. recorded-Changes _ _ _ d)

-- Any number of requests, by anybody, change the tables by calls of the repository only.
pub after_handled-Changes :
    (h : Handler) (db : Tables) (rs : List (Circumstances × AdminRequest))
    → Changes h db (after_handled h db rs)
unfolding after_handled
after_handled-Changes h db [] = unchanged
after_handled-Changes h db ((c, r) ∷ rs) =
    Changes-append h (handle-Changes h c db r) (after_handled-Changes h (handle h c db r).1 rs)
