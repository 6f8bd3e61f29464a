-- ===== src/Session/Tests.antt =====
-- Witnesses and runs of the session API: alice, client 1, is in group 7, which has guests 10 and 11 and
-- node 3. The hash here puts a `#` before the token.
use proxpass.Base.{
  Bytes, codes, bytes_eq, true, false, none, some, List, [], ◌∷◌, Result, ok, ◌≡◌, refl,
}
use proxpass.Models.{names_equal, fold_name, Guest, ProxmoxInstance, SessionIdentity}
use proxpass.Db.State.{Tables, run}
use proxpass.Db.Tests.{all_up, in_order, deployment, db_code}
use proxpass.Db.Tokens.{
  has_hash, is_unexpired, is_live, scan_identity, insert_row, insert_swept, token_row,
  mint_session_token, redeem_session_token, create_api_session, lookup_api_session,
  revoke_api_session,
}
use proxpass.Db.Named.Tests.{small_r}
use proxpass.Db.Tokens.Tests.{alice}
use proxpass.Db.Tokens.Lifecycle.{after_calls, after_call}
use proxpass.Db.Guests.{get_guest_by_id}
use proxpass.Db.Listing.{
  set_setting, store_row, get_setting, value_or_empty, list_guests, list_proxmox_instances,
}
use proxpass.Session.{
  answered, unauthorized, forbidden, invalid_token, CallerError, SessionCredential,
  with_bearer_token, with_rest_api_token, identity_response, auth_failure_reason, auth_failure,
  caller_of, as_caller, new_session_credential, caller_identity, get_session_identity,
  credential_row, if_stored, exchange_redeemed, exchange_session_token, revoke_session_credential,
}
use proxpass.Session.Data.{
  WireGuest, ConnectInfo, guest_response, instance_response, set_if_not_empty, instance_credentials,
  go_on, or_forbidden, or_failed, instance_name, name_or_empty, found_guest, reachable_rows,
  accessible, may_reach, may_reach_instance, accessible_guests, accessible_instances, has_ssh_host,
  find_instance, list_session_guests, list_session_instances, connect_hosted, open_node,
  connect_allowed, connect_guest, connect_session_guest, connect_node, connect_session_node,
  is_login_name_reserved, get_public_endpoint,
}
use proxpass.Session.Requests.{after_request, after_requests, calls_of, creations, all_calls}
use proxpass.Session.Shown.{IsShown}
use proxpass.Session.Connect.{Handed, connect_session_guest-Handed, listed_connects}
use proxpass.Session.Nodes.{NodeHanded, connect_session_node-NodeHanded}

abbrev as_alice : Result CallerError SessionIdentity
as_alice = ok alice

abbrev pub marked : Bytes → Bytes
marked s = 35 ∷ s

abbrev pub node3 : ProxmoxInstance
node3 = record {
  id = 3;
  name = codes "rome";
  api_url = codes "https://rome:8006";
  api_token_id = codes "t";
  api_token_secret = codes "s";
  console_transport = codes "ssh";
  node = codes "rome";
  insecure_tls = false;
  insecure_ssh = false;
  ssh_host = codes "rome";
  ssh_port = 0;
  ssh_user = [];
  ssh_fingerprints = [];
}

abbrev pub cluster : Tables
cluster = record deployment { instances = node3 ∷ [] }

abbrev pub alice_token : Tables
alice_token = record cluster { session_tokens = token_row (codes "#m") alice 160 ∷ [] }

abbrev pub alice_session : Tables
alice_session = record cluster { api_sessions = token_row (codes "#c") alice 43301 ∷ [] }

unfoldable pub session_code : Unit {0}
unfolding db_code run get_guest_by_id has_hash is_unexpired is_live scan_identity insert_row
    insert_swept token_row mint_session_token redeem_session_token create_api_session
    revoke_api_session lookup_api_session after_call after_calls list_guests list_proxmox_instances
    with_bearer_token with_rest_api_token identity_response auth_failure_reason auth_failure
    caller_of as_caller new_session_credential caller_identity get_session_identity credential_row
    if_stored exchange_redeemed exchange_session_token revoke_session_credential guest_response
    instance_response set_if_not_empty instance_credentials go_on or_forbidden or_failed
    instance_name name_or_empty found_guest reachable_rows accessible may_reach may_reach_instance
    accessible_guests accessible_instances has_ssh_host find_instance list_session_guests
    list_session_instances connect_hosted open_node connect_allowed connect_guest
    connect_session_guest connect_node connect_session_node after_request after_requests calls_of
    creations all_calls
session_code = tt

-- EqualFold on this prefix, for the test.
bearer : with_bearer_token bytes_eq (λ s. s) (codes "Bearer abc") ≡ some (codes "abc")
unfolding session_code
bearer = refl

no_scheme : with_bearer_token bytes_eq (λ s. s) (codes "Bearer ") ≡ none
unfolding session_code
no_scheme = refl

abbrev pub cred : SessionCredential
cred = record {
  token = codes "c";
  expires_at = 43301;
  identity = record {
    login_name = codes "pp-alice";
    identity_name = codes "alice";
    is_admin = false;
    client_id = some 1;
  };
}

pub exchanged :
    (exchange_session_token marked all_up alice_token
      (some (codes "m"))
      100
      (some (codes "c"))
      101).0
    ≡ answered cred
unfolding session_code
exchanged = refl

expired :
    (exchange_session_token marked all_up alice_token
      (some (codes "m"))
      160
      (some (codes "c"))
      161).0
    ≡ unauthorized invalid_token
unfolding session_code
expired = refl

static_token :
    get_session_identity marked
      (with_rest_api_token marked (codes "r"))
      all_up
      cluster
      (some (codes "r"))
      5
    ≡ answered (record {
      login_name = [];
      identity_name = codes "rest-api-token";
      is_admin = true;
      client_id = none;
    })
unfolding session_code
static_token = refl

abbrev web_info : ConnectInfo
web_info = record {
  guest = record {
    id = 10;
    name = codes "web";
    kind = codes "ct";
    status = codes "running";
    proxmox_id = 100;
    instance_id = 3;
    instance_name = codes "rome";
  };
  target = record {
    id = 3;
    name = codes "rome";
    api_url = codes "https://rome:8006";
    console_transport = codes "ssh";
    node = codes "rome";
    api_token_id = some (codes "t");
    api_token_secret = some (codes "s");
    ssh_host = some (codes "rome");
    ssh_user = none;
    ssh_fingerprints = none;
    ssh_port = none;
    insecure_tls = false;
    insecure_ssh = false;
    ssh_key = none;
  };
}

connects : connect_session_guest all_up in_order cluster (some []) (ok alice) 10 ≡ answered web_info
unfolding session_code
connects = refl

other_guest : connect_session_guest all_up in_order cluster (some []) (ok alice) 12 ≡ forbidden
unfolding session_code
other_guest = refl

no_guest : connect_session_guest all_up in_order cluster (some []) (ok alice) 99 ≡ forbidden
unfolding session_code
no_guest = refl

connect_session_guest-Handed_example :
    (who : SessionIdentity) × (as_alice ≡ ok who)
    × ((g : Guest) × (inst : ProxmoxInstance) × Handed (some []) cluster who 10 web_info g inst)
connect_session_guest-Handed_example =
    connect_session_guest-Handed all_up in_order cluster (some []) (ok alice) 10 web_info connects

abbrev shown : List WireGuest
shown = web_info.guest ∷ record web_info.guest { id = 11; proxmox_id = 101 } ∷ []

lists : list_session_guests all_up in_order cluster (ok alice) ≡ answered shown
unfolding session_code
lists = refl

listed_connects_example :
    ((info : ConnectInfo)
      → connect_session_guest all_up in_order cluster (some []) (ok alice) 12 ≡ answered info
      → IsShown 12 shown)
    × (connect_session_guest all_up in_order cluster (some []) (ok alice) 12 ≡ forbidden
        → ¬ IsShown 12 shown)
listed_connects_example =
    listed_connects all_up in_order cluster (some []) (ok alice) 12 shown lists

node_opens :
    connect_session_node all_up in_order cluster (some []) (ok alice) 3 ≡ answered web_info.target
unfolding session_code
node_opens = refl

connect_session_node-NodeHanded_example :
    (who : SessionIdentity) × (as_alice ≡ ok who)
    × ((inst : ProxmoxInstance) × NodeHanded (some []) cluster who 3 web_info.target inst)
connect_session_node-NodeHanded_example =
    connect_session_node-NodeHanded all_up in_order cluster (some []) (ok alice) 3 web_info.target
      node_opens

reserved : is_login_name_reserved small_r as_alice (codes "admin") ≡ answered true
unfolding session_code is_login_name_reserved names_equal fold_name
reserved = refl

no_endpoint : get_public_endpoint all_up in_order cluster as_alice ≡ answered []
unfolding session_code get_public_endpoint get_setting value_or_empty
no_endpoint = refl

endpoint :
    get_public_endpoint all_up in_order
      (set_setting all_up cluster (codes "public_endpoint") (codes "pp.example")).1
      as_alice
    ≡ answered (codes "pp.example")
unfolding session_code get_public_endpoint set_setting store_row get_setting value_or_empty
endpoint = refl
