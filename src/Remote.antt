-- ===== src/Remote.antt =====
-- internal/session/adminrepo.go and adminmappers.go: the repository as the administrator's session has
-- it, over the administrative API; and the policy edits of internal/cli/policy.go, which go through it.
pub mod Agreement
pub mod Tests
use proxpass.Base.{
  ℕ, Bytes, codes, Bool, false, not, Option, none, some, List, [], ◌∷◌, ◌++◌, Result, ok, err, ◌==◌,
  if◌then◌else◌, any, filter,
}
use proxpass.Models.{ProxmoxInstance, Client, Group, RuleType, client, group, DefaultAccessPolicy}
use proxpass.Db.State.{Tables}
use proxpass.Admin.{Handler, Circumstances, Reply, answered, unauthorized, forbidden}
use proxpass.Admin.Wire.{
  AdminPolicy, AccessChange, Body, instance_body, client_body, group_body, policy_body,
  setting_body, keys_body, to_api_instance, from_api_instance, to_api_client, from_api_client,
  to_api_group, from_api_group,
}
use proxpass.Admin.Requests
use proxpass.Admin.Requests.{AdminRequest, handle}

-- A request may be lost, and so may its answer, when the server has already acted.
pub data Delivery : Type 0 where
  lost_request lost_answer delivered : Delivery

-- The error of the HTTP client, ErrUnauthorized, ErrNotAdmin, and what else the server says.
pub data RemoteError : Type 0 where
  unreachable not_authorized not_admin other_status : RemoteError

unfoldable pub api_error : Reply → RemoteError
api_error (unauthorized reason) = not_authorized
api_error forbidden = not_admin
api_error _ = other_status

unfoldable pub or_other {ℓ} : {A : Type ℓ} → Option A → Result RemoteError A
or_other none = err other_status
or_other (some a) = ok a

-- What a method makes of an answer.
unfoldable pub read_answer {ℓ} :
    {A : Type ℓ} → (Body → Option A) → Option Reply → Result RemoteError A
read_answer read none = err unreachable
read_answer read (some (answered body)) = or_other (read body)
read_answer read (some reply) = err (api_error reply)

unfoldable pub client_in : Body → Option Client
client_in (client_body b) = some (from_api_client b)
client_in _ = none

unfoldable pub group_in : Body → Option Group
group_in (group_body b) = some (from_api_group b)
group_in _ = none

unfoldable pub instance_in : Body → Option ProxmoxInstance
instance_in (instance_body b) = some (from_api_instance b)
instance_in _ = none

unfoldable pub setting_in : Body → Option Bytes
setting_in (setting_body key value) = some value
setting_in _ = none

unfoldable pub keys_in : Body → Option (List Bytes)
keys_in (keys_body keys) = some keys
keys_in _ = none

-- A method that reads no body.
unfoldable pub nothing_in : Body → Option (Unit {0})
nothing_in body = some tt

-- The session's toAPIDefaultPolicy and fromAPIDefaultPolicy.
unfoldable pub sent_policy : DefaultAccessPolicy → AdminPolicy
sent_policy p = record {
  authorized_client_ids = p.authorized_client_ids;
  authorized_group_ids = p.authorized_group_ids;
  node_access = none;
}

unfoldable pub received_policy : AdminPolicy → DefaultAccessPolicy
received_policy body = record {
  authorized_client_ids = body.authorized_client_ids;
  authorized_group_ids = body.authorized_group_ids;
  node_access = false;
}

unfoldable pub policy_in : Body → Option DefaultAccessPolicy
policy_in (policy_body b) = some (received_policy b)
policy_in _ = none

unfoldable pub kind_name : RuleType → Bytes
kind_name client = codes "client"
kind_name group = codes "group"

unfoldable pub access_change : RuleType → ℕ → List ℕ → AccessChange
access_change k s ts = record { subject = record { kind = kind_name k; id = s }; target_ids = ts }

unfoldable pub append_unique : List ℕ → ℕ → List ℕ
append_unique ids id = if any (λ x. x == id) ids then ids else ids ++ id ∷ []

unfoldable pub remove_id : List ℕ → ℕ → List ℕ
remove_id ids id = filter (λ x. not (x == id)) ids

-- `policy add` and `policy remove`, once the subject is found.
unfoldable pub with_subject_added : RuleType → ℕ → DefaultAccessPolicy → DefaultAccessPolicy
with_subject_added client id p = record p {
  authorized_client_ids = append_unique p.authorized_client_ids id;
}
with_subject_added group id p = record p {
  authorized_group_ids = append_unique p.authorized_group_ids id;
}

unfoldable pub with_subject_removed : RuleType → ℕ → DefaultAccessPolicy → DefaultAccessPolicy
with_subject_removed client id p = record p {
  authorized_client_ids = remove_id p.authorized_client_ids id;
}
with_subject_removed group id p = record p {
  authorized_group_ids = remove_id p.authorized_group_ids id;
}

module _ (h : Handler) where
  -- One request over the network.
  unfoldable pub send : Circumstances → Delivery → Tables → AdminRequest → Option Reply × Tables
  send c lost_request db r = (none, db)
  send c lost_answer db r = (none, (handle h c db r).1)
  send c delivered db r = (some (handle h c db r).0, (handle h c db r).1)

  unfoldable pub ask {ℓ} :
      {A : Type ℓ}
      → (Body → Option A)
      → Circumstances
      → Delivery
      → Tables
      → AdminRequest
      → Result RemoteError A × Tables
  ask read c d db r = let sent = send c d db r in (read_answer read sent.0, sent.1)

module _ (h : Handler) (c : Circumstances) (d : Delivery) (db : Tables) where
  unfoldable pub remote_add_client : Client → Result RemoteError Client × Tables
  remote_add_client x =
      ask h client_in c d db (Requests.add_client_request (some (to_api_client x)))

  unfoldable pub remote_remove_client : ℕ → Result RemoteError (Unit {0}) × Tables
  remote_remove_client id = ask h nothing_in c d db (Requests.remove_client_request id)

  unfoldable pub remote_client_by_name : Bytes → Result RemoteError Client × Tables
  remote_client_by_name name = ask h client_in c d db (Requests.client_by_name_request name)

  unfoldable pub remote_add_group : Group → Result RemoteError Group × Tables
  remote_add_group x = ask h group_in c d db (Requests.add_group_request (some (to_api_group x)))

  unfoldable pub remote_remove_group : ℕ → Result RemoteError (Unit {0}) × Tables
  remote_remove_group id = ask h nothing_in c d db (Requests.remove_group_request id)

  unfoldable pub remote_add_instance : ProxmoxInstance → Result RemoteError ProxmoxInstance × Tables
  remote_add_instance x =
      ask h instance_in c d db (Requests.add_instance_request (some (to_api_instance x)))

  unfoldable pub remote_update_instance :
      ProxmoxInstance → Result RemoteError ProxmoxInstance × Tables
  remote_update_instance x =
      ask h instance_in c d db (Requests.update_instance_request x.id (some (to_api_instance x)))

  unfoldable pub remote_remove_instance : ℕ → Result RemoteError (Unit {0}) × Tables
  remote_remove_instance id = ask h nothing_in c d db (Requests.remove_instance_request id)

  unfoldable pub remote_grant_access :
      RuleType → ℕ → List ℕ → Result RemoteError (Unit {0}) × Tables
  remote_grant_access k s ts =
      ask h nothing_in c d db (Requests.grant_request (some (access_change k s ts)))

  unfoldable pub remote_revoke_access : RuleType → ℕ → ℕ → Result RemoteError (Unit {0}) × Tables
  remote_revoke_access k s t =
      ask h nothing_in c d db (Requests.revoke_request (some (access_change k s (t ∷ []))))

  unfoldable pub remote_grant_instance_access :
      RuleType → ℕ → List ℕ → Result RemoteError (Unit {0}) × Tables
  remote_grant_instance_access k s ts =
      ask h nothing_in c d db (Requests.grant_instance_request (some (access_change k s ts)))

  unfoldable pub remote_revoke_instance_access :
      RuleType → ℕ → ℕ → Result RemoteError (Unit {0}) × Tables
  remote_revoke_instance_access k s t =
      ask h nothing_in c d db (Requests.revoke_instance_request (some (access_change k s (t ∷ []))))

  unfoldable pub remote_set_default_policy :
      DefaultAccessPolicy → Result RemoteError (Unit {0}) × Tables
  remote_set_default_policy p =
      ask h nothing_in c d db (Requests.set_policy_request (some (sent_policy p)))

  unfoldable pub remote_get_default_policy : Result RemoteError DefaultAccessPolicy × Tables
  remote_get_default_policy = ask h policy_in c d db Requests.get_policy_request

  unfoldable pub remote_set_setting : Bytes → Bytes → Result RemoteError (Unit {0}) × Tables
  remote_set_setting key value =
      ask h nothing_in c d db (Requests.set_setting_request key (some value))

  unfoldable pub remote_get_setting : Bytes → Result RemoteError Bytes × Tables
  remote_get_setting key = ask h setting_in c d db (Requests.get_setting_request key)

  unfoldable pub remote_add_admin_key : Bytes → Result RemoteError (Unit {0}) × Tables
  remote_add_admin_key key = ask h nothing_in c d db (Requests.add_key_request (some key))

  unfoldable pub remote_list_admin_keys : Result RemoteError (List Bytes) × Tables
  remote_list_admin_keys = ask h keys_in c d db Requests.list_keys_request

  unfoldable pub remote_remove_admin_key : Bytes → Result RemoteError (Unit {0}) × Tables
  remote_remove_admin_key key = ask h nothing_in c d db (Requests.remove_key_request (some key))

-- What an edit does with the policy that it read.
unfoldable pub store_edit :
    Handler
    → Circumstances
    → Delivery
    → (DefaultAccessPolicy → DefaultAccessPolicy)
    → Result RemoteError DefaultAccessPolicy × Tables
    → Result RemoteError (Unit {0}) × Tables
store_edit h c d edit (err e, db) = (err e, db)
store_edit h c d edit (ok p, db) = remote_set_default_policy h c d db (edit p)

-- The policy is read and stored by two requests, each with its own circumstances.
unfoldable pub edit_policy :
    Handler
    → Circumstances × Delivery
    → Circumstances × Delivery
    → (DefaultAccessPolicy → DefaultAccessPolicy)
    → Tables
    → Result RemoteError (Unit {0}) × Tables
edit_policy h (c, d) (c', d') edit db = store_edit h c' d' edit (remote_get_default_policy h c d db)
