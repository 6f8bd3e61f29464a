-- ===== src/Directory.antt =====
-- internal/api: the user and group directory that sshd reads over NSS (the handlers and entries of
-- server.go, the entries of types.go, the names of loginname.go). A handler answers the request's path.
pub mod Accounts
pub mod Names
pub mod Listing
pub mod Tests
use proxpass.Base.{
  has_prefix, ℕ, ◌+◌, Bytes, bytes_eq, codes, Bool, true, false, not, ◌&&◌, ◌||◌, Option, none,
  some, List, [], ◌∷◌, ◌++◌, map, Result, ok, err, ◌>>=◌, ltb, ◌==◌, if◌then◌else◌, any, find,
  filter, length, drop,
}
use proxpass.Models.{Client, Group, names_equal}
use proxpass.Ids.{IdLayout, in_range, uid_for, gid_for, parse_uint}
use proxpass.Db.State.{Tables, DbError, no_rows, Statement}
use proxpass.Db.Named.{get_client_by_name, list_clients, list_groups}

pub record User : Type 0 where
  pub user : Bytes
  pub passwd : Bytes
  pub name : Bytes
  pub dir : Bytes
  pub shell : Bytes
  pub uid : ℕ
  pub gid : ℕ
  pub auth_keys : List Bytes

pub record UnixGroup : Type 0 where
  pub name : Bytes
  pub passwd : Bytes
  pub gid : ℕ
  pub group_members : List Bytes

-- A JSON body, 404, or 500.
pub data Reply {ℓ} (A : Type ℓ) : Type ℓ where
  found : A → Reply A
  not_found failed : Reply A

abbrev pub login_shell : Bytes
login_shell = codes "/bin/sh"

abbrev pub home_dir : Bytes
home_dir = codes "/var/empty/proxpass"

abbrev pub shadow_passwd : Bytes
shadow_passwd = codes "x"

abbrev pub admin_login : Bytes
admin_login = codes "admin"

abbrev pub alias_login : Bytes
alias_login = codes "proxpass-login"

abbrev pub shared_group : Bytes
shared_group = codes "proxpass"

abbrev pub admin_group : Bytes
admin_group = codes "proxpass-admin"

abbrev pub max_login_name_len : ℕ
max_login_name_len = 256

-- strings.ContainsAny, for a set of ASCII characters.
unfoldable pub contains_any : Bytes → Bytes → Bool
contains_any s set = any (λ c. any (λ x. x == c) set) s

-- ":\n\r\x00", "?#/%" and " \t".
abbrev pub passwd_bytes : Bytes
passwd_bytes = 58 ∷ 10 ∷ 13 ∷ 0 ∷ []

abbrev pub url_bytes : Bytes
url_bytes = 63 ∷ 35 ∷ 47 ∷ 37 ∷ []

abbrev pub blank_bytes : Bytes
blank_bytes = 32 ∷ 9 ∷ []

unfoldable pub valid_login_name : Bytes → Bool
valid_login_name name =
    if bytes_eq name [] || ltb max_login_name_len (length name)
    then false
    else if contains_any name passwd_bytes
    then false
    else if contains_any name url_bytes || contains_any name blank_bytes
    then false
    else if bytes_eq name (codes ".") || bytes_eq name (codes "..")
    then false
    else not (has_prefix name (codes "-"))

-- strings.TrimPrefix
unfoldable pub trim_prefix : Bytes → Bytes → Bytes
trim_prefix s prefix = if has_prefix s prefix then drop (length prefix) s else s

module _ (l : IdLayout) where
  unfoldable pub alias_user : Bytes → User
  alias_user name = record {
    user = name;
    passwd = shadow_passwd;
    name = codes "proxpass login";
    dir = home_dir;
    shell = login_shell;
    uid = l.alias_uid;
    gid = l.shared_group_gid;
    auth_keys = [];
  }

  unfoldable pub admin_user_as : Bytes → User
  admin_user_as name = record {
    user = name;
    passwd = shadow_passwd;
    name = codes "proxpass administrator";
    dir = home_dir;
    shell = login_shell;
    uid = l.admin_uid;
    gid = l.admin_group_gid;
    auth_keys = [];
  }

  unfoldable pub admin_user : User
  admin_user = admin_user_as admin_login

  unfoldable pub user_for : Client → User
  user_for c = record {
    user = c.name;
    passwd = shadow_passwd;
    name = codes "proxpass client " ++ c.name;
    dir = home_dir;
    shell = login_shell;
    uid = uid_for l c.id;
    gid = l.shared_group_gid;
    auth_keys = [];
  }

  unfoldable pub group_for : Group → List Bytes → UnixGroup
  group_for g members = record {
    name = g.name;
    passwd = shadow_passwd;
    gid = gid_for l g.id;
    group_members = members;
  }

  unfoldable pub write_admin_alias : Bytes → Reply User
  write_admin_alias name = if valid_login_name name then found (alias_user name) else not_found

  -- The switch over the lookup's error. The repository never answers a nil client without one.
  unfoldable pub client_reply : Bytes → Result DbError Client → Reply User
  client_reply name (err no_rows) = write_admin_alias name
  client_reply name (err _) = failed
  client_reply name (ok c) = if in_range l (user_for c).uid then found (user_for c) else failed

  -- `for _, c := range clients { if u.Uid == uid { return } }`
  unfoldable pub client_with_uid : ℕ → List Client → Reply User
  client_with_uid uid [] = not_found
  client_with_uid uid (c ∷ cs) =
      if (user_for c).uid == uid then found (user_for c) else client_with_uid uid cs

  unfoldable pub listed_users : List Client → List User
  listed_users cs = filter (λ u. in_range l u.uid) (map user_for cs)

-- `byID`: the last client with the id gives the name.
unfoldable pub name_by_id : List Client → ℕ → Option Bytes
name_by_id [] id = none
name_by_id (c ∷ cs) id =
    let later = name_by_id cs id in
    elim later [ some n ↦ some n | none ↦ if c.id == id then some c.name else none ]

-- The names of the ids that are clients', in their order.
unfoldable pub member_names : List Client → List ℕ → List Bytes
member_names cs [] = []
member_names cs (id ∷ ids) =
    let rest = member_names cs ids in elim (name_by_id cs id) [ none ↦ rest | some n ↦ n ∷ rest ]

unfoldable pub group_reply : Option UnixGroup → Reply UnixGroup
group_reply none = not_found
group_reply (some g) = found g

-- The groups of allGroups once the rows are read.
unfoldable pub groups_of : IdLayout → List Client → List Group → List UnixGroup
groups_of l clients groups =
    let admins : UnixGroup = record {
      name = admin_group;
      passwd = shadow_passwd;
      gid = l.admin_group_gid;
      group_members = admin_login ∷ [];
    } in
    let shared : UnixGroup = record {
      name = shared_group;
      passwd = shadow_passwd;
      gid = l.shared_group_gid;
      group_members = map (λ c. c.name) clients;
    } in
    admins ∷ shared ∷ map (λ g. group_for l g (member_names clients g.client_ids)) groups

module _ (l : IdLayout) (down : Statement → Bool) (db : Tables) where
  unfoldable pub all_groups : Result DbError (List UnixGroup)
  all_groups = do
    clients ← list_clients down db
    groups ← list_groups down db
    ok (groups_of l clients groups)

  unfoldable pub uid_reply : ℕ → Reply User
  uid_reply uid =
      if uid == l.alias_uid
      then found (alias_user l alias_login)
      else if uid == l.admin_uid
      then found (admin_user l)
      else if ltb uid l.uid_base
      then not_found
      else elim (list_clients down db) [
        | err e ↦ failed
        | ok clients ↦ client_with_uid l uid clients
      ]

  unfoldable pub handle_user_by_uid : Bytes → Reply User
  handle_user_by_uid path = elim (parse_uint (trim_prefix path (codes "/user/uid/"))) [
    | none ↦ not_found
    | some uid ↦ uid_reply uid
  ]

  unfoldable pub handle_users : Reply (List User)
  handle_users = elim (list_clients down db) [
    | err e ↦ failed
    | ok clients ↦ found (admin_user l ∷ listed_users l clients)
  ]

  unfoldable pub handle_group_by_gid : Bytes → Reply UnixGroup
  handle_group_by_gid path = elim (parse_uint (trim_prefix path (codes "/group/gid/"))) [
    | none ↦ not_found
    | some gid ↦ elim all_groups [
      | err e ↦ failed
      | ok groups ↦ group_reply (find (λ g. g.gid == gid) groups)
    ]
  ]

  unfoldable pub handle_groups : Reply (List UnixGroup)
  handle_groups = elim all_groups [ err e ↦ failed | ok groups ↦ found groups ]

module _ (lower : Bytes → Bytes) (l : IdLayout) (down : Statement → Bool) (db : Tables) where
  unfoldable pub handle_user_by_name : Bytes → Reply User
  handle_user_by_name path =
      let name = trim_prefix path (codes "/user/name/") in
      if bytes_eq name []
      then not_found
      else if names_equal lower name admin_login
      then found (admin_user_as l name)
      else client_reply l name (get_client_by_name lower down db name)

  unfoldable pub handle_group_by_name : Bytes → Reply UnixGroup
  handle_group_by_name path =
      let name = trim_prefix path (codes "/group/name/") in
      if bytes_eq name [] then not_found else elim (all_groups l down db) [
        | err e ↦ failed
        | ok groups ↦ group_reply (find (λ g. names_equal lower g.name name) groups)
      ]
