-- ===== src/Admin/Groups.antt =====
-- internal/api/adminhandlers.go: the requests for groups.
use proxpass.Base.{ℕ, Bytes, codes, Bool, Option, Result, ok, ◌>>=◌, ◌==◌, find}
use proxpass.Models.{Group, fold_name}
use proxpass.Db.State.{Tables, DbError, Statement}
use proxpass.Db.Named.{list_groups, add_group, update_group, remove_group}
use proxpass.Admin.{
  Handler, Circumstances, Reply, answered, with_body, with_row, if_done, if_no_clash, as_admin,
  recorded,
}
use proxpass.Admin.Clients.{named_row}
use proxpass.Admin.Wire.{ClientGroup, group_body, no_content, to_api_group, from_api_group}

abbrev pub no_such_group : Bytes
no_such_group = codes "no such group"

unfoldable pub find_group : (Statement → Bool) → Tables → ℕ → Result DbError (Option Group)
find_group down db id = do groups ← list_groups down db; ok (find (λ r. r.id == id) groups)

module _ (h : Handler) (c : Circumstances) (db : Tables) where
  unfoldable pub handle_get_group : ℕ → Reply × Tables
  handle_get_group id = as_admin h c db (
      with_row no_such_group (find_group c.down db id) db
        λ group. (answered (group_body (to_api_group group)), db))

  unfoldable pub handle_add_group : Option ClientGroup → Reply × Tables
  handle_add_group body = as_admin h c db (
      with_body body db λ sent.
        let group = from_api_group sent in
        if_no_clash h.says_unique (add_group h.lower c.down db group) λ id stored.
          let made = record group { id = id; name = fold_name h.lower group.name } in
          recorded h c (group_body (to_api_group made)) (codes "group.added")
            (named_row made.name made.id) stored)

  unfoldable pub handle_update_group : ℕ → Option ClientGroup → Reply × Tables
  handle_update_group id body = as_admin h c db (
      with_body body db λ sent. with_row no_such_group (find_group c.down db id) db λ existing.
        let group = record (from_api_group sent) { id = id } in
        if_no_clash h.says_unique (update_group h.lower c.down db group) λ done stored.
          let made = record group { name = fold_name h.lower group.name } in
          recorded h c (group_body (to_api_group made)) (codes "group.updated")
            (named_row made.name made.id) stored)

  unfoldable pub handle_remove_group : ℕ → Reply × Tables
  handle_remove_group id = as_admin h c db (
      with_row no_such_group (find_group c.down db id) db λ existing.
        if_done (remove_group c.down db id) λ done stored.
          recorded h c no_content (codes "group.removed") (named_row existing.name id) stored)
