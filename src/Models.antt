-- ===== src/Models.antt =====
-- internal/models/models.go: the rows and values that every part exchanges. Row ids, VMIDs, ports and
-- Unix seconds are natural numbers; Go strings are lists of bytes. The console
-- transport is a string of Go.
use proxpass.Base.{ℕ, Bytes, bytes_eq, codes, Bool, true, false, List}

-- models.GuestType and models.Status are strings with named constants.
abbrev pub GuestType : Type 0
GuestType = Bytes

abbrev pub guest_type_ct : GuestType
guest_type_ct = codes "ct"

abbrev pub guest_type_vm : GuestType
guest_type_vm = codes "vm"

abbrev pub Status : Type 0
Status = Bytes

abbrev pub status_running : Status
status_running = codes "running"

pub record ProxmoxInstance : Type 0 where
  pub id : ℕ
  pub name : Bytes
  pub api_url : Bytes
  pub api_token_id : Bytes
  pub api_token_secret : Bytes
  pub console_transport : Bytes
  pub node : Bytes
  pub insecure_tls : Bool
  pub insecure_ssh : Bool
  pub ssh_host : Bytes
  pub ssh_port : ℕ
  pub ssh_user : Bytes
  pub ssh_fingerprints : List Bytes

pub record Guest : Type 0 where
  pub id : ℕ
  pub kind : GuestType
  pub name : Bytes
  pub status : Status
  pub proxmox_id : ℕ
  pub instance_id : ℕ

pub record Client : Type 0 where
  pub id : ℕ
  pub name : Bytes
  pub public_keys : List Bytes
  pub group_ids : List ℕ

pub record Group : Type 0 where
  pub id : ℕ
  pub name : Bytes
  pub client_ids : List ℕ

pub data RuleType : Type 0 where
  client group : RuleType

abbrev pub rule_type_eq : RuleType → RuleType → Bool
rule_type_eq client client = true
rule_type_eq group group = true
rule_type_eq _ _ = false

-- AccessRuleRow and InstanceAccessRuleRow: the target is a guest in one table, a node in the other.
pub record RuleRow : Type 0 where
  pub id : ℕ
  pub kind : RuleType
  pub subject_id : ℕ
  pub target_id : ℕ

pub record DefaultAccessPolicy : Type 0 where
  pub authorized_client_ids : List ℕ
  pub authorized_group_ids : List ℕ
  pub node_access : Bool

-- The administrator has no client row, which `client_id` 0 stands for.
pub record SessionIdentity : Type 0 where
  pub login_name : Bytes
  pub identity_name : Bytes
  pub is_admin : Bool
  pub client_id : ℕ

-- A value that an event's parameters hold.
pub data Param : Type 0 where
  text : Bytes → Param
  number : ℕ → Param
  numbers : List ℕ → Param

-- `occurred_at` is in Unix seconds.
pub record ActivityEvent : Type 0 where
  pub id : ℕ
  pub event_id : Bytes
  pub actor : Bytes
  pub occurred_at : ℕ
  pub params : List (Bytes × Param)

-- internal/models/names.go. `lower` is strings.ToLower.
module _ (lower : Bytes → Bytes) where
  unfoldable pub fold_name : Bytes → Bytes
  fold_name name = lower name

  unfoldable pub names_equal : Bytes → Bytes → Bool
  unfolding fold_name
  names_equal a b = bytes_eq (fold_name a) (fold_name b)
