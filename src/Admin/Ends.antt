-- ===== src/Admin/Ends.antt =====
-- How a request that changes something ends: it is refused, or what it stored is recorded.
pub mod Parts
pub mod Handlers
use proxpass.Base.{
  Bytes, codes, Bool, Option, none, some, List, Result, err, ◌≡◌, refl, inl, inr, Bool-cases,
}
use proxpass.Models.{ProxmoxInstance, RuleType, Param}
use proxpass.Db.State.{Tables, DbError}
use proxpass.Db.Frames.{
  set_setting_keeps, grant_access_keeps, grant_instance_access_keeps, revoke_access_keeps,
  revoke_instance_access_keeps, remove_proxmox_instance_keeps,
}
use proxpass.Admin.{
  Handler, Circumstances, Reply, answered, unauthorized, forbidden, bad_request, not_found,
  conflict, failed, as_admin, with_body, with_row, if_done, if_no_clash, recorded,
}
use proxpass.Admin.Outcome.{
  IsDenial, as_admin_ends, with_body_ends, with_row_ends, if_supported_ends, with_subject_ends,
  if_done_ends, if_no_clash_ends,
}
use proxpass.Admin.Wire.{Body}
use proxpass.Admin.Atomic
use proxpass.Admin.Atomic.{IsAtomic}
use proxpass.Admin.Clients.{
  handle_client_by_name, handle_get_client, handle_add_client, handle_update_client,
  handle_remove_client,
}
use proxpass.Admin.Groups.{
  handle_get_group, handle_add_group, handle_update_group, handle_remove_group,
}
use proxpass.Admin.Instances.{
  if_supported, handle_get_instance, handle_add_instance, handle_update_instance,
  handle_remove_instance, handle_get_guest,
}
use proxpass.Admin.Rules.{
  with_subject, handle_grant_access, handle_revoke_access, handle_grant_instance_access,
  handle_revoke_instance_access, handle_get_default_policy, handle_set_default_policy,
}
use proxpass.Admin.Keys.{
  is_protected, handle_list_admin_keys, handle_add_admin_key, handle_remove_admin_key,
  handle_get_setting, handle_set_setting, handle_get_version,
}
use proxpass.Admin.Quiet.{
  IsQuiet, quiet, rules, nodes, guests, removal, discovered_quiet, revoke_each_quiet,
  add_client_quiet, update_client_quiet, remove_client_quiet, add_group_quiet, update_group_quiet,
  remove_group_quiet, add_proxmox_instance_quiet, update_proxmox_instance_quiet,
  set_default_policy_quiet, add_admin_key_quiet, remove_admin_key_quiet,
}
use proxpass.Admin.Requests
use proxpass.Admin.Requests.{AdminRequest, handle}

abbrev pub IsAnswered : Reply → Type 0
IsAnswered (answered body) = Unit
IsAnswered _ = ⊥

-- The requests that change something, and the event that each is recorded as.
abbrev pub event_of : AdminRequest → Option Bytes
event_of (Requests.remove_client_request id) = some (codes "client.removed")
event_of (Requests.remove_group_request id) = some (codes "group.removed")
event_of (Requests.remove_instance_request id) = some (codes "instance.removed")
event_of (Requests.add_client_request body) = some (codes "client.added")
event_of (Requests.update_client_request id body) = some (codes "client.updated")
event_of (Requests.add_group_request body) = some (codes "group.added")
event_of (Requests.update_group_request id body) = some (codes "group.updated")
event_of (Requests.add_instance_request body) = some (codes "instance.added")
event_of (Requests.update_instance_request id body) = some (codes "instance.updated")
event_of (Requests.grant_request body) = some (codes "access.granted")
event_of (Requests.revoke_request body) = some (codes "access.revoked")
event_of (Requests.grant_instance_request body) = some (codes "instance_access.granted")
event_of (Requests.revoke_instance_request body) = some (codes "instance_access.revoked")
event_of (Requests.set_policy_request body) = some (codes "policy.set")
event_of (Requests.add_key_request body) = some (codes "admin_key.added")
event_of (Requests.remove_key_request body) = some (codes "admin_key.removed")
event_of (Requests.set_setting_request key body) = some (codes "setting.changed")
event_of _ = none

-- The requests that revoke one rule after another.
abbrev pub IsRevocation : AdminRequest → Type 0
IsRevocation (Requests.revoke_request body) = Unit
IsRevocation (Requests.revoke_instance_request body) = Unit
IsRevocation _ = ⊥

-- What a refused request leaves: the old tables, or for a revocation tables with the old log.
abbrev pub LeftBy : Tables → AdminRequest → Tables → Type 0
LeftBy db (Requests.revoke_request body) d = IsQuiet db d
LeftBy db (Requests.revoke_instance_request body) d = IsQuiet db d
LeftBy db _ d = d ≡ db

module _ (h : Handler) (c : Circumstances) (db : Tables) where
  -- A request is refused, or what it stored is recorded.
  pub data WriteEnd (event : Bytes) (Left : Tables → Type 0) : Reply × Tables → Type 0 where
    refused : (r : Reply) (d : Tables) → ¬ IsAnswered r → Left d → WriteEnd event Left (r, d)
    written :
        (stored : Tables) (body : Body) (params : List (Bytes × Param))
        → IsQuiet db stored
        → WriteEnd event Left (recorded h c body event params stored)
