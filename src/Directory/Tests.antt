-- ===== src/Directory/Tests.antt =====
-- Witnesses and runs of the directory over the small deployment, where client 1 is alice and group 7
-- has her; nothing is set in the environment but the highest id.
use proxpass.Base.{
  has_prefix, Bytes, codes, bytes_eq, Bool, true, false, Option, none, [], ◌∷◌, ok, ◌≡◌, ◌↔◌, ◌⊎◌,
  find, refl, arith,
}
use proxpass.Models.{fold_name, names_equal}
use proxpass.Ids.{
  IdLayout, default_id_layout, validate, id_or_default, digits_value, fitting, parsed, parse_uint,
  load_id_layout, in_range, uid_for, gid_for,
}
use proxpass.Db.State.{Statement, select_clients, select_client_by_name, run}
use proxpass.Db.Tests.{all_up, deployment}
use proxpass.Db.Named.{
  client_columns, is_named, row_or_none, get_client_by_name, list_clients, list_groups,
}
use proxpass.Db.Named.Tests.{small_r, deployment-HasNames}
use proxpass.Directory.{
  User, UnixGroup, found, not_found, failed, contains_any, valid_login_name, trim_prefix,
  alias_user, admin_user_as, admin_user, user_for, group_for, write_admin_alias, client_reply,
  client_with_uid, listed_users, name_by_id, member_names, group_reply, groups_of, all_groups,
  uid_reply, handle_user_by_uid, handle_users, handle_group_by_gid, handle_groups,
  handle_user_by_name, handle_group_by_name, admin_login,
}
use proxpass.Directory.Accounts.{IsAdminEntry, IsAdminEntry-iff, same_account}
use proxpass.Directory.Names.{IsLoginName, asked, not_found_absent}

abbrev nothing_set : Bytes → Option Bytes
nothing_set name = none

unfoldable directory_code : Unit {0}
unfolding has_prefix bytes_eq fold_name names_equal validate id_or_default digits_value fitting
    parsed parse_uint load_id_layout in_range uid_for gid_for run is_named row_or_none
    get_client_by_name list_clients list_groups contains_any valid_login_name trim_prefix alias_user
    admin_user_as admin_user user_for group_for write_admin_alias client_reply client_with_uid
    listed_users name_by_id member_names group_reply groups_of all_groups uid_reply
    handle_user_by_uid handle_users handle_group_by_gid handle_groups handle_user_by_name
    handle_group_by_name
directory_code = tt

abbrev l : IdLayout
l = default_id_layout

layout_loaded : load_id_layout nothing_set ≡ ok l
unfolding directory_code
layout_loaded = refl

clients_down : Statement → Bool
clients_down select_clients = true
clients_down (select_client_by_name n) = true
clients_down _ = false

alice_found :
    handle_user_by_name small_r l all_up deployment (codes "/user/name/alice")
    ≡ found (user_for l (record { id = 1; name = codes "alice"; public_keys = []; group_ids = [] }))
unfolding directory_code
alice_found = refl

shouted : handle_user_by_name small_r l all_up deployment (codes "/user/name/a:b") ≡ not_found
unfolding directory_code
shouted = refl

outage : handle_user_by_name small_r l clients_down deployment (codes "/user/name/a:b") ≡ failed
unfolding directory_code clients_down
outage = refl

ops_group :
    handle_group_by_name small_r l all_up deployment (codes "/group/name/ops")
    ≡ found
        (group_for l (record { id = 7; name = codes "ops"; client_ids = [] }) (codes "alice" ∷ []))
unfolding directory_code
ops_group = refl

IsAdminEntry-iff_example : IsAdminEntry l (admin_user_as l admin_login) ↔ (
    names_equal small_r (trim_prefix (codes "/user/name/admin") (codes "/user/name/")) admin_login
    ≡ true)
unfolding directory_code
IsAdminEntry-iff_example =
    IsAdminEntry-iff nothing_set small_r l all_up deployment (codes "/user/name/admin")
      (admin_user_as l admin_login) layout_loaded deployment-HasNames (omega arith) refl

abbrev alice_entry : User
alice_entry = user_for l (record { id = 1; name = codes "alice"; public_keys = []; group_ids = [] })

same_account_example :
    handle_user_by_uid l all_up deployment (codes "/user/uid/20001") ≡ found alice_entry
unfolding directory_code
same_account_example =
    same_account nothing_set small_r l all_up deployment (codes "/user/name/alice")
      (codes "/user/uid/20001") alice_entry layout_loaded deployment-HasNames (omega arith) refl
      (λ q. absurd (omega arith)) (λ q. absurd (omega arith)) refl refl

not_found_absent_example :
    (asked (codes "/user/name/a:b") ≡ [])
    ⊎ ((all_up (select_client_by_name (fold_name small_r (asked (codes "/user/name/a:b")))) ≡ false)
        × (find
              (is_named client_columns (fold_name small_r (asked (codes "/user/name/a:b"))))
              deployment.clients
            ≡ none)
        × (¬ IsLoginName (asked (codes "/user/name/a:b"))))
unfolding directory_code
not_found_absent_example =
    not_found_absent small_r l all_up deployment (codes "/user/name/a:b") refl

abbrev ops : UnixGroup
ops = record {
  name = codes "ops";
  passwd = codes "x";
  gid = 40007;
  group_members = codes "alice" ∷ [];
}

by_gid : handle_group_by_gid l all_up deployment (codes "/group/gid/40007") ≡ found ops
unfolding directory_code
by_gid = refl
