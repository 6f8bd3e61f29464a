-- ===== src/Admin/Tests.antt =====
-- Witnesses and runs of the administrative requests. The caller holds the static token, the fold
-- changes `R` to `r`, and trimming takes blanks off the front.
use proxpass.Base.{
  Bytes, codes, true, false, none, some, List, [], ◌∷◌, ◌++◌, Elem, ok, ◌≡◌, refl, inl, ◌==◌,
  if◌then◌else◌,
}
use proxpass.Models.{fold_name, Param}
use proxpass.Db.State.{Tables}
use proxpass.Db.Tests.{all_up, in_order, deployment}
use proxpass.Db.Named.Tests.{small_r, deployment-HasNames}
use proxpass.Db.Access.{has_access}
use proxpass.Db.Guests.{drop_rules, remove_proxmox_instance}
use proxpass.Db.Guests.Removal.{IsRemoved}
use proxpass.Session.{rest_api_identity}
use proxpass.Session.Tests.{session_code, cluster, alice_session}
use proxpass.Admin.{Handler, Circumstances, Reply, forbidden, failed, caller, activity_enabled}
use proxpass.Admin.Wire.{AdminClient, AccessChange}
use proxpass.Admin.Requests
use proxpass.Admin.Requests.{AdminRequest, handle, after_handled}
use proxpass.Admin.{
  gate_admin, denied_or, with_body, with_row, is_conflict, if_done, if_no_clash, actor_of, caller,
  as_admin, activity_enabled, record_event, actor_name, record_admin, recorded,
}
use proxpass.Admin.Wire.{
  to_api_instance, from_api_instance, to_api_client, from_api_client, to_api_group, from_api_group,
  to_api_guest_row, to_api_default_policy, given_true, from_api_default_policy,
}
use proxpass.Admin.Clients.{
  find_client, client_named, handle_client_by_name, handle_get_client, handle_add_client,
  handle_update_client, handle_remove_client,
}
use proxpass.Admin.Groups.{
  find_group, handle_get_group, handle_add_group, handle_update_group, handle_remove_group,
}
use proxpass.Admin.Instances.{
  checked_by, is_supported, if_supported, guest_found, store_discovered, discover_instance,
  handle_get_instance, handle_add_instance, handle_update_instance, handle_remove_instance,
  handle_get_guest,
}
use proxpass.Admin.Rules.{
  rule_type_of, with_subject, access_params, first_error, revoke_each, policy_reply,
  handle_grant_access, handle_revoke_access, handle_grant_instance_access,
  handle_revoke_instance_access, handle_get_default_policy, handle_set_default_policy,
}
use proxpass.Admin.Keys.{
  join_spaces, short_material, summary_of, admin_key_summary, read_reply, shown_version,
  with_protected_admin_key, is_protected, handle_list_admin_keys, handle_add_admin_key,
  handle_remove_admin_key, handle_get_setting, handle_set_setting, handle_get_version,
}
use proxpass.Admin.Requests.{handle, after_handled}
use proxpass.Db.Instances.{
  trim_slashes, trimmed, join_lines, on_first_line, split_lines, encode_fingerprints,
  decode_fingerprints, url_taken, insert_instance_row, update_instance_row, name_duplicate,
  normalised, stored_instance, add_proxmox_instance, update_proxmox_instance,
}
use proxpass.Db.Keys.{
  add_key_row, add_admin_key, list_admin_keys, remove_admin_key, set_default_policy,
}
use proxpass.Db.Activity.{add_activity_event, delete_activity_older_than}
use proxpass.Db.Listing.{
  value_or_empty, store_row, list_guests, list_proxmox_instances, set_setting, get_setting,
}
use proxpass.Db.Rules.{
  add_rule, drop_rule, add_rules, grant_access, grant_instance_access, revoke_access,
  revoke_instance_access,
}
use proxpass.Db.Named.{
  is_named, insert_named, name_taken, update_named, delete_named, next_id, row_or_none,
  list_clients, list_groups, remove_client, remove_group, get_client_by_name, add_client,
  update_client, add_group, update_group,
}
use proxpass.Admin.Outcome.{IsDenial}
use proxpass.Admin.Gate.{handle-IsDenial}
use proxpass.Admin.Protected.{after_handled-Elem}
use proxpass.Admin.Names.{IsNamed, after_handled-IsNamed}
use proxpass.Admin.Ends.{IsAnswered}
use proxpass.Admin.Audit.{row_of, handle-audited, handle-refused}
use proxpass.Admin.Clashes.{handle_add_client-clash}
use proxpass.Admin.Effects.{handle_grant_access-reaches, handle_remove_instance-IsRemoved}

unfoldable pub left_trimmed : Bytes → Bytes
left_trimmed [] = []
left_trimmed (c ∷ cs) = if c == 32 then left_trimmed cs else c ∷ cs

abbrev pub server : Handler
server = record {
  hash_token = λ t. t;
  rest_hash = codes "root";
  lower = small_r;
  trim = left_trimmed;
  fields = λ s. s ∷ [];
  says_unique = false;
  protected_admin_key = codes "key";
  activity_retention = 5;
  version = [];
  term_proxy_checker = none;
  discoverer = none;
}

abbrev pub by_root : Circumstances
by_root = record {
  bearer = some (codes "root");
  now = 7;
  down = all_up;
  asked_at = 7;
  recorded_at = 8;
  late_down = all_up;
  canceled_at = λ n. false;
}

-- A client's own session.
abbrev pub by_alice : Circumstances
by_alice = record by_root { bearer = some (codes "#c") }

abbrev with_key : Tables
with_key = record deployment { admin_keys = codes "key" ∷ codes "old" ∷ [] }

abbrev new_bob : AdminClient
new_bob = record { id = 0; name = codes "Rob"; public_keys = []; group_ids = [] }

unfoldable pub admin_code : Unit {0}
unfolding session_code remove_proxmox_instance drop_rules left_trimmed fold_name gate_admin
    denied_or with_body with_row is_conflict if_done if_no_clash actor_of caller as_admin
    activity_enabled record_event actor_name record_admin recorded to_api_instance from_api_instance
    to_api_client from_api_client to_api_group from_api_group to_api_guest_row to_api_default_policy
    given_true from_api_default_policy find_client client_named handle_client_by_name
    handle_get_client handle_add_client handle_update_client handle_remove_client find_group
    handle_get_group handle_add_group handle_update_group handle_remove_group checked_by
    is_supported if_supported guest_found store_discovered discover_instance handle_get_instance
    handle_add_instance handle_update_instance handle_remove_instance handle_get_guest rule_type_of
    with_subject access_params first_error revoke_each policy_reply handle_grant_access
    handle_revoke_access handle_grant_instance_access handle_revoke_instance_access
    handle_get_default_policy handle_set_default_policy join_spaces short_material summary_of
    admin_key_summary read_reply shown_version with_protected_admin_key is_protected
    handle_list_admin_keys handle_add_admin_key handle_remove_admin_key handle_get_setting
    handle_set_setting handle_get_version handle after_handled trim_slashes trimmed join_lines
    on_first_line split_lines encode_fingerprints decode_fingerprints url_taken insert_instance_row
    update_instance_row name_duplicate normalised stored_instance add_proxmox_instance
    update_proxmox_instance add_key_row add_admin_key list_admin_keys remove_admin_key
    set_default_policy add_activity_event delete_activity_older_than value_or_empty store_row
    list_guests list_proxmox_instances set_setting get_setting add_rule drop_rule add_rules
    grant_access grant_instance_access revoke_access revoke_instance_access is_named insert_named
    name_taken update_named delete_named next_id row_or_none list_clients list_groups remove_client
    remove_group get_client_by_name add_client update_client add_group update_group
admin_code = tt

denied_run :
    (handle server by_alice alice_session (Requests.add_client_request (some new_bob))).0
    ≡ forbidden
unfolding admin_code
denied_run = refl

added_rows :
    (handle server by_root deployment (Requests.add_client_request (some new_bob))).1.clients
    ≡ deployment.clients
      ++ record { id = 2; name = codes "rob"; public_keys = []; group_ids = [] } ∷ []
unfolding admin_code
added_rows = refl

added_run :
    (handle server by_root deployment (Requests.add_client_request (some new_bob))).1.next_client_id
    ≡ 3
unfolding admin_code
added_run = refl

abbrev add_bob : AdminRequest
add_bob = Requests.add_client_request (some new_bob)

handle-IsDenial_example :
    (d : Reply) × IsDenial d × (handle server by_alice alice_session add_bob ≡ (d, alice_session))
unfolding admin_code
handle-IsDenial_example = handle-IsDenial server by_alice alice_session add_bob (λ q. cc)

-- The protected key with a blank before it, and another key.
abbrev key_removals : List (Circumstances × AdminRequest)
key_removals =
    (by_root, Requests.remove_key_request (some (codes " key")))
    ∷ (by_root, Requests.remove_key_request (some (codes "old")))
    ∷ []

keys_left : (after_handled server with_key key_removals).admin_keys ≡ codes "key" ∷ []
unfolding admin_code
keys_left = refl

after_handled-Elem_example :
    Elem (codes "key") (after_handled server with_key key_removals).admin_keys
unfolding left_trimmed
after_handled-Elem_example =
    after_handled-Elem server (λ q. cc) refl with_key key_removals (inl refl)

abbrev additions : List (Circumstances × AdminRequest)
additions =
    (by_root, add_bob) ∷ (by_root, Requests.remove_client_request 1) ∷ (by_root, add_bob) ∷ []

deployment-IsNamed : IsNamed small_r deployment
deployment-IsNamed = record {
  names = deployment-HasNames;
  instances = record {
    names = record { ids = tt; names = tt; below = tt };
    urls = λ u. record { ids = tt; names = tt; below = tt };
  };
  folded_clients = ((codes "alice", refl), tt);
  folded_groups = ((codes "ops", refl), tt);
  normal_instances = tt;
}

after_handled-IsNamed_example : IsNamed small_r (after_handled server deployment additions)
after_handled-IsNamed_example = after_handled-IsNamed server deployment additions deployment-IsNamed

handle-audited_example :
    (params : List (Bytes × Param)) × ((handle server by_root deployment add_bob).1.activity_log
      ≡ row_of server by_root deployment (codes "client.added") (codes "rest-api-token") params
        ∷ [])
unfolding admin_code
handle-audited_example =
    handle-audited server by_root deployment add_bob (codes "client.added") rest_api_identity refl
      tt refl refl (λ q. cc) refl

abbrev rename_ninth : AdminRequest
rename_ninth = Requests.update_client_request 9 (some new_bob)

handle-refused_example : (handle server by_root deployment rename_ninth).1 ≡ deployment
unfolding admin_code
handle-refused_example = handle-refused server by_root deployment rename_ninth (λ q. q) (λ q. q)

abbrev second_alice : AdminClient
second_alice = record new_bob { name = codes "alice" }

handle_add_client-clash_example :
    (true ≡ true
      → handle_add_client server by_root deployment (some second_alice) ≡ (failed, deployment))
    × (true ≡ false
        → IsAnswered (handle_add_client server by_root deployment (some second_alice)).0
          × ((handle_add_client server by_root deployment (some second_alice)).1.clients
              ≡ deployment.clients
                ++ record { id = 2; name = codes "alice"; public_keys = []; group_ids = [] } ∷ []))
unfolding admin_code
handle_add_client-clash_example =
    handle_add_client-clash server by_root deployment refl second_alice refl

-- Client 2 gets guest 10.
abbrev grant_second : AccessChange
grant_second = record { subject = record { kind = codes "client"; id = 2 }; target_ids = 10 ∷ [] }

handle_grant_access-reaches_example :
    has_access all_up in_order
      (handle_grant_access server by_root deployment (some grant_second)).1
      2
      10
    ≡ ok true
unfolding admin_code
handle_grant_access-reaches_example =
    handle_grant_access-reaches server by_root deployment grant_second 10 all_up in_order refl
      (inl refl) tt (λ st. refl)

handle_remove_instance-IsRemoved_example :
    IsRemoved 3 cluster (handle_remove_instance server by_root cluster 3).1
unfolding admin_code
handle_remove_instance-IsRemoved_example =
    handle_remove_instance-IsRemoved server by_root cluster 3 tt
