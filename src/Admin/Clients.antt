-- ===== src/Admin/Clients.antt =====
-- internal/api/adminhandlers.go: the requests for clients.
use proxpass.Base.{ℕ, Bytes, codes, Bool, Option, List, [], ◌∷◌, Result, ok, err, ◌>>=◌, ◌==◌, find}
use proxpass.Models.{Client, fold_name, Param, text, number}
use proxpass.Db.State.{Tables, DbError, no_rows, Statement}
use proxpass.Db.Named.{list_clients, get_client_by_name, add_client, update_client, remove_client}
use proxpass.Admin.{
  Handler, Circumstances, Reply, answered, not_found, failed, with_body, with_row, if_done,
  if_no_clash, as_admin, recorded,
}
use proxpass.Admin.Wire.{AdminClient, client_body, no_content, to_api_client, from_api_client}

abbrev pub no_such_client : Bytes
no_such_client = codes "no such client"

-- The parameters of an event that names a row.
abbrev pub named_row : Bytes → ℕ → List (Bytes × Param)
named_row name id = (codes "name", text name) ∷ (codes "id", number id) ∷ []

unfoldable pub find_client : (Statement → Bool) → Tables → ℕ → Result DbError (Option Client)
find_client down db id = do clients ← list_clients down db; ok (find (λ r. r.id == id) clients)

-- The client of a `?name=`, where no row is a 404.
unfoldable pub client_named : Result DbError Client → Reply
client_named (err no_rows) = not_found no_such_client
client_named (err _) = failed
client_named (ok client) = answered (client_body (to_api_client client))

module _ (h : Handler) (c : Circumstances) (db : Tables) where
  -- ListClients with `?name=`.
  unfoldable pub handle_client_by_name : Bytes → Reply × Tables
  handle_client_by_name name =
      as_admin h c db (client_named (get_client_by_name h.lower c.down db name), db)

  unfoldable pub handle_get_client : ℕ → Reply × Tables
  handle_get_client id = as_admin h c db (
      with_row no_such_client (find_client c.down db id) db
        λ client. (answered (client_body (to_api_client client)), db))

  unfoldable pub handle_add_client : Option AdminClient → Reply × Tables
  handle_add_client body = as_admin h c db (
      with_body body db λ sent.
        let client = from_api_client sent in
        if_no_clash h.says_unique (add_client h.lower c.down db client) λ id stored.
          let made = record client { id = id; name = fold_name h.lower client.name } in
          recorded h c (client_body (to_api_client made)) (codes "client.added")
            (named_row made.name made.id) stored)

  unfoldable pub handle_update_client : ℕ → Option AdminClient → Reply × Tables
  handle_update_client id body = as_admin h c db (
      with_body body db λ sent. with_row no_such_client (find_client c.down db id) db λ existing.
        let client = record (from_api_client sent) { id = id } in
        if_no_clash h.says_unique (update_client h.lower c.down db client) λ done stored.
          let made = record client { name = fold_name h.lower client.name } in
          recorded h c (client_body (to_api_client made)) (codes "client.updated")
            (named_row made.name made.id) stored)

  unfoldable pub handle_remove_client : ℕ → Reply × Tables
  handle_remove_client id = as_admin h c db (
      with_row no_such_client (find_client c.down db id) db λ existing.
        if_done (remove_client c.down db id) λ done stored.
          recorded h c no_content (codes "client.removed") (named_row existing.name id) stored)
