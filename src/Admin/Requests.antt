-- ===== src/Admin/Requests.antt =====
-- The modelled administrative requests of api/openapi.yaml, each with its handler.
use proxpass.Base.{ℕ, Bytes, Option, List, [], ◌∷◌}
use proxpass.Db.State.{Tables}
use proxpass.Admin.{Handler, Circumstances, Reply}
use proxpass.Admin.Wire.{AdminInstance, AdminClient, ClientGroup, AdminPolicy, AccessChange}
use proxpass.Admin.Clients.{
  handle_client_by_name, handle_get_client, handle_add_client, handle_update_client,
  handle_remove_client,
}
use proxpass.Admin.Groups.{
  handle_get_group, handle_add_group, handle_update_group, handle_remove_group,
}
use proxpass.Admin.Instances.{
  handle_get_instance, handle_add_instance, handle_update_instance, handle_remove_instance,
  handle_get_guest,
}
use proxpass.Admin.Rules.{
  handle_grant_access, handle_revoke_access, handle_grant_instance_access,
  handle_revoke_instance_access, handle_get_default_policy, handle_set_default_policy,
}
use proxpass.Admin.Keys.{
  handle_list_admin_keys, handle_add_admin_key, handle_remove_admin_key, handle_get_setting,
  handle_set_setting, handle_get_version,
}

pub data AdminRequest : Type 0 where
  client_by_name_request : Bytes → AdminRequest
  get_client_request remove_client_request get_group_request remove_group_request : ℕ → AdminRequest
  get_instance_request remove_instance_request get_guest_request : ℕ → AdminRequest
  add_client_request : Option AdminClient → AdminRequest
  update_client_request : ℕ → Option AdminClient → AdminRequest
  add_group_request : Option ClientGroup → AdminRequest
  update_group_request : ℕ → Option ClientGroup → AdminRequest
  add_instance_request : Option AdminInstance → AdminRequest
  update_instance_request : ℕ → Option AdminInstance → AdminRequest
  grant_request revoke_request : Option AccessChange → AdminRequest
  grant_instance_request revoke_instance_request : Option AccessChange → AdminRequest
  get_policy_request list_keys_request version_request : AdminRequest
  set_policy_request : Option AdminPolicy → AdminRequest
  add_key_request remove_key_request : Option Bytes → AdminRequest
  get_setting_request : Bytes → AdminRequest
  set_setting_request : Bytes → Option Bytes → AdminRequest

module _ (h : Handler) where
  unfoldable pub handle : Circumstances → Tables → AdminRequest → Reply × Tables
  handle c db (client_by_name_request name) = handle_client_by_name h c db name
  handle c db (get_client_request id) = handle_get_client h c db id
  handle c db (remove_client_request id) = handle_remove_client h c db id
  handle c db (get_group_request id) = handle_get_group h c db id
  handle c db (remove_group_request id) = handle_remove_group h c db id
  handle c db (get_instance_request id) = handle_get_instance h c db id
  handle c db (remove_instance_request id) = handle_remove_instance h c db id
  handle c db (get_guest_request id) = handle_get_guest h c db id
  handle c db (add_client_request body) = handle_add_client h c db body
  handle c db (update_client_request id body) = handle_update_client h c db id body
  handle c db (add_group_request body) = handle_add_group h c db body
  handle c db (update_group_request id body) = handle_update_group h c db id body
  handle c db (add_instance_request body) = handle_add_instance h c db body
  handle c db (update_instance_request id body) = handle_update_instance h c db id body
  handle c db (grant_request body) = handle_grant_access h c db body
  handle c db (revoke_request body) = handle_revoke_access h c db body
  handle c db (grant_instance_request body) = handle_grant_instance_access h c db body
  handle c db (revoke_instance_request body) = handle_revoke_instance_access h c db body
  handle c db get_policy_request = handle_get_default_policy h c db
  handle c db list_keys_request = handle_list_admin_keys h c db
  handle c db version_request = handle_get_version h c db
  handle c db (set_policy_request body) = handle_set_default_policy h c db body
  handle c db (add_key_request body) = handle_add_admin_key h c db body
  handle c db (remove_key_request body) = handle_remove_admin_key h c db body
  handle c db (get_setting_request key) = handle_get_setting h c db key
  handle c db (set_setting_request key body) = handle_set_setting h c db key body

  -- The tables after requests in a row.
  unfoldable pub after_handled : Tables → List (Circumstances × AdminRequest) → Tables
  after_handled db [] = db
  after_handled db ((c, r) ∷ rs) = after_handled (handle c db r).1 rs
