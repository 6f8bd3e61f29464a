-- ===== src/Session/Data.antt =====
-- internal/api/sessiondata.go: which guests and nodes a session may see, and the credentials that it is
-- handed for one. The deployment's SSH key is an argument: `none` where the file cannot be read, empty
-- where there is none.
use proxpass.Base.{
  ℕ, Bytes, bytes_eq, codes, Bool, true, not, Option, none, some, List, [], ◌∷◌, map, Result, ok,
  err, ◌>>=◌, ◌==◌, if◌then◌else◌, find, filter,
}
use proxpass.Models.{ProxmoxInstance, Guest, GuestType, Status, SessionIdentity, names_equal}
use proxpass.Db.State.{Tables, DbError, no_rows, Statement, MapOrder}
use proxpass.Db.Access.{has_access, has_instance_access}
use proxpass.Db.Guests.{get_guest_by_id}
use proxpass.Db.Listing.{list_guests, list_proxmox_instances, get_setting}
use proxpass.Session.{Answer, answered, forbidden, failed, CallerError, as_caller}
use proxpass.Directory.{admin_login}

pub record WireGuest : Type 0 where
  pub id : ℕ
  pub name : Bytes
  pub kind : GuestType
  pub status : Status
  pub proxmox_id : ℕ
  pub instance_id : ℕ
  pub instance_name : Bytes

-- The shape of a list, which has no secrets.
pub record WireInstance : Type 0 where
  pub id : ℕ
  pub name : Bytes
  pub node : Bytes

pub record InstanceCredentials : Type 0 where
  pub id : ℕ
  pub name : Bytes
  pub api_url : Bytes
  pub console_transport : Bytes
  pub node : Bytes
  pub api_token_id : Option Bytes
  pub api_token_secret : Option Bytes
  pub ssh_host : Option Bytes
  pub ssh_user : Option Bytes
  pub ssh_fingerprints : Option (List Bytes)
  pub ssh_port : Option ℕ
  pub insecure_tls : Bool
  pub insecure_ssh : Bool
  pub ssh_key : Option Bytes

pub record ConnectInfo : Type 0 where
  pub guest : WireGuest
  pub target : InstanceCredentials

unfoldable pub guest_response : Guest → Bytes → WireGuest
guest_response g instance_name = record {
  id = g.id;
  name = g.name;
  kind = g.kind;
  status = g.status;
  proxmox_id = g.proxmox_id;
  instance_id = g.instance_id;
  instance_name = instance_name;
}

unfoldable pub instance_response : ProxmoxInstance → WireInstance
instance_response inst = record { id = inst.id; name = inst.name; node = inst.node }

-- setIfNotEmpty
unfoldable pub set_if_not_empty {ℓ} : {A : Type ℓ} → List A → Option (List A)
set_if_not_empty [] = none
set_if_not_empty (x ∷ xs) = some (x ∷ xs)

unfoldable pub instance_credentials : Option Bytes → ProxmoxInstance → Option InstanceCredentials
instance_credentials none inst = none
instance_credentials (some key) inst = some (record {
  id = inst.id;
  name = inst.name;
  api_url = inst.api_url;
  console_transport = inst.console_transport;
  node = inst.node;
  api_token_id = set_if_not_empty inst.api_token_id;
  api_token_secret = set_if_not_empty inst.api_token_secret;
  ssh_host = set_if_not_empty inst.ssh_host;
  ssh_user = set_if_not_empty inst.ssh_user;
  ssh_fingerprints = set_if_not_empty inst.ssh_fingerprints;
  ssh_port = if inst.ssh_port == 0 then none else some inst.ssh_port;
  insecure_tls = inst.insecure_tls;
  insecure_ssh = inst.insecure_ssh;
  ssh_key = set_if_not_empty key;
})

-- `if err != nil { return nil, err }` in a handler.
unfoldable pub go_on {ℓ κ} :
    {A : Type ℓ} {B : Type κ} → Result DbError A → (A → Answer B) → Answer B
go_on (err e) work = failed
go_on (ok a) work = work a

unfoldable pub or_forbidden {ℓ κ} : {A : Type ℓ} {B : Type κ} → Option A → (A → Answer B) → Answer B
or_forbidden none work = forbidden
or_forbidden (some a) work = work a

unfoldable pub or_failed {ℓ κ} : {A : Type ℓ} {B : Type κ} → Option A → (A → Answer B) → Answer B
or_failed none work = failed
or_failed (some a) work = work a

-- `names[id]`, the last instance with the id counting, and "" for none.
unfoldable pub instance_name : List ProxmoxInstance → ℕ → Option Bytes
instance_name [] id = none
instance_name (inst ∷ insts) id =
    let later = instance_name insts id in
    elim later [ some n ↦ some n | none ↦ if inst.id == id then some inst.name else none ]

unfoldable pub name_or_empty : Option Bytes → Bytes
name_or_empty none = []
name_or_empty (some n) = n

-- findGuest: a missing row is no error.
unfoldable pub found_guest : Result DbError Guest → Result DbError (Option Guest)
found_guest (err no_rows) = ok none
found_guest (err e) = err e
found_guest (ok g) = ok (some g)

-- The loop of accessible.
unfoldable pub reachable_rows {ℓ} :
    {T : Type ℓ} → (T → ℕ) → (ℕ → Result DbError Bool) → List T → Result DbError (List T)
reachable_rows id reach [] = ok []
reachable_rows id reach (row ∷ rows) = do
  allowed ← reach (id row)
  rest ← reachable_rows id reach rows
  ok (if allowed then row ∷ rest else rest)

unfoldable pub accessible {ℓ} :
    {T : Type ℓ}
    → SessionIdentity
    → Result DbError (List T)
    → (T → ℕ)
    → (ℕ → ℕ → Result DbError Bool)
    → Result DbError (List T)
accessible who rows id reach = do
  list ← rows
  let checked = reachable_rows id (reach who.client_id) list
  if who.is_admin then ok list else checked

unfoldable pub has_ssh_host : ProxmoxInstance → Bool
has_ssh_host inst = not (bytes_eq inst.ssh_host [])

-- The end of ConnectSessionGuest: the guest's instance is there, or it is an error that it is not.
unfoldable pub connect_hosted : Option Bytes → Guest → Option ProxmoxInstance → Answer ConnectInfo
connect_hosted key g target = or_failed target λ inst.
    or_failed (instance_credentials key inst)
      λ credentials. answered (record { guest = guest_response g inst.name; target = credentials })

-- The end of ConnectSessionNode: a node without an SSH host cannot be opened.
unfoldable pub open_node : Option Bytes → ProxmoxInstance → Bool → Answer InstanceCredentials
open_node key inst allowed =
    if allowed
    then (if has_ssh_host inst then or_failed (instance_credentials key inst) answered else failed)
    else forbidden

unfoldable pub find_instance :
    (Statement → Bool) → Tables → ℕ → Result DbError (Option ProxmoxInstance)
find_instance down db id = do
  instances ← list_proxmox_instances down db
  ok (find (λ i. i.id == id) instances)

module _ (down : Statement → Bool) (o : MapOrder) (db : Tables) where
  unfoldable pub may_reach : SessionIdentity → ℕ → Result DbError Bool
  may_reach who id = if who.is_admin then ok true else has_access down o db who.client_id id

  unfoldable pub may_reach_instance : SessionIdentity → ℕ → Result DbError Bool
  may_reach_instance who id =
      if who.is_admin then ok true else has_instance_access down o db who.client_id id

  unfoldable pub accessible_guests : SessionIdentity → Result DbError (List Guest)
  accessible_guests who = accessible who (list_guests down db) (λ g. g.id) (has_access down o db)

  unfoldable pub accessible_instances : SessionIdentity → Result DbError (List ProxmoxInstance)
  accessible_instances who = do
    granted ←
        accessible who (list_proxmox_instances down db) (λ i. i.id) (has_instance_access down o db)
    ok (filter has_ssh_host granted)

  unfoldable pub list_session_guests : Result CallerError SessionIdentity → Answer (List WireGuest)
  list_session_guests caller = as_caller caller λ who. go_on (accessible_guests who) λ guests.
      go_on (list_proxmox_instances down db) λ instances.
        answered (
          map (λ g. guest_response g (name_or_empty (instance_name instances g.instance_id)))
            guests)

  unfoldable pub list_session_instances :
      Result CallerError SessionIdentity → Answer (List WireInstance)
  list_session_instances caller = as_caller caller λ who.
      go_on (accessible_instances who) λ instances. answered (map instance_response instances)

  unfoldable pub connect_allowed : Option Bytes → Guest → Bool → Answer ConnectInfo
  connect_allowed key g allowed =
      let target = go_on (find_instance down db g.instance_id) (connect_hosted key g) in
      if allowed then target else forbidden

  unfoldable pub connect_guest : Option Bytes → SessionIdentity → Guest → Answer ConnectInfo
  connect_guest key who g = go_on (may_reach who g.id) (connect_allowed key g)

  unfoldable pub connect_session_guest :
      Option Bytes → Result CallerError SessionIdentity → ℕ → Answer ConnectInfo
  connect_session_guest key caller guest_id = as_caller caller λ who.
      go_on (found_guest (get_guest_by_id down db guest_id))
        λ found. or_forbidden found (connect_guest key who)

  unfoldable pub connect_node :
      Option Bytes → SessionIdentity → ProxmoxInstance → Answer InstanceCredentials
  connect_node key who inst = go_on (may_reach_instance who inst.id) (open_node key inst)

  unfoldable pub connect_session_node :
      Option Bytes → Result CallerError SessionIdentity → ℕ → Answer InstanceCredentials
  connect_session_node key caller instance_id = as_caller caller λ who.
      go_on (find_instance down db instance_id) λ target. or_forbidden target (connect_node key who)

  unfoldable pub get_public_endpoint : Result CallerError SessionIdentity → Answer Bytes
  get_public_endpoint caller =
      as_caller caller λ who. go_on (get_setting down db (codes "public_endpoint")) answered

-- `lower` is strings.ToLower.
unfoldable pub is_login_name_reserved :
    (Bytes → Bytes) → Result CallerError SessionIdentity → Bytes → Answer Bool
is_login_name_reserved lower caller name =
    as_caller caller λ who. answered (names_equal lower name admin_login)
