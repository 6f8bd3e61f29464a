-- ===== src/Admin/Wire.antt =====
-- internal/api/adminmappers.go: the shapes of the administrative requests and answers, and their
-- mapping to and from the rows. A missing list is an empty one.
use proxpass.Base.{ℕ, Bytes, Bool, false, Option, none, some, List}
use proxpass.Models.{GuestType, Status, ProxmoxInstance, Guest, Client, Group, DefaultAccessPolicy}

-- ProxmoxInstance of the API, secrets included.
pub record AdminInstance : Type 0 where
  pub id : ℕ
  pub name : Bytes
  pub api_url : Bytes
  pub api_token_id : Bytes
  pub api_token_secret : Bytes
  pub console_transport : Bytes
  pub node : Bytes
  pub insecure_tls : Bool
  pub insecure_ssh : Bool
  pub ssh_host : Bytes
  pub ssh_port : ℕ
  pub ssh_user : Bytes
  pub ssh_fingerprints : List Bytes

pub record AdminClient : Type 0 where
  pub id : ℕ
  pub name : Bytes
  pub public_keys : List Bytes
  pub group_ids : List ℕ

pub record ClientGroup : Type 0 where
  pub id : ℕ
  pub name : Bytes
  pub client_ids : List ℕ

pub record GuestRow : Type 0 where
  pub id : ℕ
  pub instance_id : ℕ
  pub name : Bytes
  pub proxmox_id : ℕ
  pub status : Status
  pub kind : GuestType

-- DefaultAccessPolicy of the API: a missing `node_access` is not given.
pub record AdminPolicy : Type 0 where
  pub authorized_client_ids : List ℕ
  pub authorized_group_ids : List ℕ
  pub node_access : Option Bool

-- The subject's kind is a string of the request.
pub record AccessSubject : Type 0 where
  pub kind : Bytes
  pub id : ℕ

-- The body of a grant or a revocation; the targets are guests or instances.
pub record AccessChange : Type 0 where
  pub subject : AccessSubject
  pub target_ids : List ℕ

-- The body of an answer.
pub data Body : Type 0 where
  no_content : Body
  instance_body : AdminInstance → Body
  client_body : AdminClient → Body
  group_body : ClientGroup → Body
  guest_body : GuestRow → Body
  policy_body : AdminPolicy → Body
  setting_body : Bytes → Bytes → Body
  version_body : Bytes → Body
  keys_body : List Bytes → Body

unfoldable pub to_api_instance : ProxmoxInstance → AdminInstance
to_api_instance inst = record {
  id = inst.id;
  name = inst.name;
  api_url = inst.api_url;
  api_token_id = inst.api_token_id;
  api_token_secret = inst.api_token_secret;
  console_transport = inst.console_transport;
  node = inst.node;
  insecure_tls = inst.insecure_tls;
  insecure_ssh = inst.insecure_ssh;
  ssh_host = inst.ssh_host;
  ssh_port = inst.ssh_port;
  ssh_user = inst.ssh_user;
  ssh_fingerprints = inst.ssh_fingerprints;
}

unfoldable pub from_api_instance : AdminInstance → ProxmoxInstance
from_api_instance body = record {
  id = body.id;
  name = body.name;
  api_url = body.api_url;
  api_token_id = body.api_token_id;
  api_token_secret = body.api_token_secret;
  console_transport = body.console_transport;
  node = body.node;
  insecure_tls = body.insecure_tls;
  insecure_ssh = body.insecure_ssh;
  ssh_host = body.ssh_host;
  ssh_port = body.ssh_port;
  ssh_user = body.ssh_user;
  ssh_fingerprints = body.ssh_fingerprints;
}

unfoldable pub to_api_client : Client → AdminClient
to_api_client c = record {
  id = c.id;
  name = c.name;
  public_keys = c.public_keys;
  group_ids = c.group_ids;
}

unfoldable pub from_api_client : AdminClient → Client
from_api_client body = record {
  id = body.id;
  name = body.name;
  public_keys = body.public_keys;
  group_ids = body.group_ids;
}

unfoldable pub to_api_group : Group → ClientGroup
to_api_group g = record { id = g.id; name = g.name; client_ids = g.client_ids }

unfoldable pub from_api_group : ClientGroup → Group
from_api_group body = record { id = body.id; name = body.name; client_ids = body.client_ids }

unfoldable pub to_api_guest_row : Guest → GuestRow
to_api_guest_row g = record {
  id = g.id;
  instance_id = g.instance_id;
  name = g.name;
  proxmox_id = g.proxmox_id;
  status = g.status;
  kind = g.kind;
}

unfoldable pub to_api_default_policy : DefaultAccessPolicy → AdminPolicy
to_api_default_policy p = record {
  authorized_client_ids = p.authorized_client_ids;
  authorized_group_ids = p.authorized_group_ids;
  node_access = some p.node_access;
}

-- `in.NodeAccess != nil && *in.NodeAccess`
unfoldable pub given_true : Option Bool → Bool
given_true none = false
given_true (some b) = b

unfoldable pub from_api_default_policy : AdminPolicy → DefaultAccessPolicy
from_api_default_policy body = record {
  authorized_client_ids = body.authorized_client_ids;
  authorized_group_ids = body.authorized_group_ids;
  node_access = given_true body.node_access;
}
