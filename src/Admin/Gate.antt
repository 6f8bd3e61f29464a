-- ===== src/Admin/Gate.antt =====
-- Nobody but the administrator is served, and a refused caller leaves the tables as they are.
use proxpass.Base.{List, [], ◌∷◌, ◌≡◌, refl, ap, ◌∙◌, inl, inr, All}
use proxpass.Db.State.{Tables}
use proxpass.Admin.{Handler, Circumstances, Reply, caller, as_admin, denied_or}
use proxpass.Admin.Outcome.{IsDenial, IsAdminCaller, gate_admin-cases}
use proxpass.Admin.Requests
use proxpass.Admin.Requests.{AdminRequest, handle, after_handled}
use proxpass.Admin.Clients.{
  handle_client_by_name, handle_get_client, handle_remove_client, handle_add_client,
  handle_update_client,
}
use proxpass.Admin.Groups.{
  handle_get_group, handle_remove_group, handle_add_group, handle_update_group,
}
use proxpass.Admin.Instances.{
  handle_get_instance, handle_remove_instance, handle_get_guest, handle_add_instance,
  handle_update_instance,
}
use proxpass.Admin.Rules.{
  handle_grant_access, handle_revoke_access, handle_grant_instance_access,
  handle_revoke_instance_access, handle_get_default_policy, handle_set_default_policy,
}
use proxpass.Admin.Keys.{
  handle_list_admin_keys, handle_get_version, handle_add_admin_key, handle_remove_admin_key,
  handle_get_setting, handle_set_setting,
}

module _ (h : Handler) (c : Circumstances) (db : Tables) where
  -- Every handler asks for the administrator first.
  gated : (r : AdminRequest) → (done : Reply × Tables) × (handle h c db r ≡ as_admin h c db done)
  unfolding handle handle_client_by_name handle_get_client handle_remove_client handle_get_group
      handle_remove_group handle_get_instance handle_remove_instance handle_get_guest
      handle_add_client handle_update_client handle_add_group handle_update_group
      handle_add_instance handle_update_instance handle_grant_access handle_revoke_access
      handle_grant_instance_access handle_revoke_instance_access handle_get_default_policy
      handle_list_admin_keys handle_get_version handle_set_default_policy handle_add_admin_key
      handle_remove_admin_key handle_get_setting handle_set_setting
  gated (Requests.client_by_name_request name) = (_, refl)
  gated (Requests.get_client_request id) = (_, refl)
  gated (Requests.remove_client_request id) = (_, refl)
  gated (Requests.get_group_request id) = (_, refl)
  gated (Requests.remove_group_request id) = (_, refl)
  gated (Requests.get_instance_request id) = (_, refl)
  gated (Requests.remove_instance_request id) = (_, refl)
  gated (Requests.get_guest_request id) = (_, refl)
  gated (Requests.add_client_request body) = (_, refl)
  gated (Requests.update_client_request id body) = (_, refl)
  gated (Requests.add_group_request body) = (_, refl)
  gated (Requests.update_group_request id body) = (_, refl)
  gated (Requests.add_instance_request body) = (_, refl)
  gated (Requests.update_instance_request id body) = (_, refl)
  gated (Requests.grant_request body) = (_, refl)
  gated (Requests.revoke_request body) = (_, refl)
  gated (Requests.grant_instance_request body) = (_, refl)
  gated (Requests.revoke_instance_request body) = (_, refl)
  gated Requests.get_policy_request = (_, refl)
  gated Requests.list_keys_request = (_, refl)
  gated Requests.version_request = (_, refl)
  gated (Requests.set_policy_request body) = (_, refl)
  gated (Requests.add_key_request body) = (_, refl)
  gated (Requests.remove_key_request body) = (_, refl)
  gated (Requests.get_setting_request key) = (_, refl)
  gated (Requests.set_setting_request key body) = (_, refl)

  -- A request whose caller is unknown or is not the administrator is answered with a 401, a 403 or a
  -- 500, and no table changes, the activity log included.
  pub handle-IsDenial :
      (r : AdminRequest)
      → ¬ IsAdminCaller (caller h c db)
      → (d : Reply) × IsDenial d × (handle h c db r ≡ (d, db))
  unfolding as_admin denied_or
  handle-IsDenial r n = elim (gate_admin-cases (caller h c db)) [
    | inl (a, e) ↦ absurd (n a)
    | inr (m, (d, p, e)) ↦ (d, p, (gated r).1 ∙ rw (e, as_admin, denied_or) refl)
  ]

-- The caller of the request is not the administrator of the tables.
abbrev pub IsOutsider : Handler → Tables → Circumstances × AdminRequest → Type 0
IsOutsider h db (c, r) = ¬ IsAdminCaller (caller h c db)

-- Requests by callers none of whom is the administrator leave the tables as they are, however many
-- they are.
pub after_handled-outsiders :
    (h : Handler) (db : Tables) (rs : List (Circumstances × AdminRequest))
    → All (IsOutsider h db) rs
    → after_handled h db rs ≡ db
unfolding after_handled
after_handled-outsiders h db [] a = refl
after_handled-outsiders h db ((c, r) ∷ rs) (n, a) =
    let (d, p, e) = handle-IsDenial h c db r n in
    ap (λ o. after_handled h o.1 rs) e ∙ after_handled-outsiders h db rs a
