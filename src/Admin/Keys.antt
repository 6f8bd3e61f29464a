-- ===== src/Admin/Keys.antt =====
-- internal/api/adminhandlers.go: the administrator's keys, one setting, and the version.
use proxpass.Base.{
  Bytes, bytes_eq, codes, Bool, not, ◌&&◌, Option, List, [], ◌∷◌, ◌++◌, Result, ok, err, ltb,
  if◌then◌else◌, length, take,
}
use proxpass.Models.{text}
use proxpass.Db.State.{Tables, DbError}
use proxpass.Db.Listing.{set_setting, get_setting}
use proxpass.Db.Keys.{add_admin_key, list_admin_keys, remove_admin_key}
use proxpass.Admin.{
  Handler, Circumstances, Reply, answered, conflict, failed, with_body, if_done, if_no_clash,
  as_admin, recorded,
}
use proxpass.Admin.Wire.{Body, no_content, setting_body, version_body, keys_body}

-- The bytes of "…" in UTF-8.
abbrev pub ellipsis : Bytes
ellipsis = 226 ∷ 128 ∷ 166 ∷ []

-- strings.Join(parts, " ")
unfoldable pub join_spaces : List Bytes → Bytes
join_spaces [] = []
join_spaces (p ∷ []) = p
join_spaces (p ∷ q ∷ ps) = p ++ 32 ∷ join_spaces (q ∷ ps)

unfoldable pub short_material : Bytes → Bytes
short_material material =
    if ltb 12 (length material) then take 12 material ++ ellipsis else material

-- The summary of a key's fields: its type, the start of its material, its comment.
unfoldable pub summary_of : List Bytes → Bytes
summary_of [] = []
summary_of (kind ∷ []) = kind
summary_of (kind ∷ material ∷ []) = kind ++ 32 ∷ short_material material
summary_of (kind ∷ material ∷ comment ∷ more) =
    kind ++ 32 ∷ (short_material material ++ 32 ∷ join_spaces (comment ∷ more))

unfoldable pub admin_key_summary : (Bytes → Bytes) → (Bytes → List Bytes) → Bytes → Bytes
admin_key_summary trim fields key = summary_of (fields (trim key))

-- What a read gives, or a 500.
unfoldable pub read_reply {ℓ} : {A : Type ℓ} → Result DbError A → (A → Body) → Reply
read_reply (err e) body = failed
read_reply (ok a) body = answered (body a)

-- With no build version it is a development build.
unfoldable pub shown_version : Bytes → Bytes
shown_version v = if bytes_eq v [] then codes "dev" else v

-- WithProtectedAdminKey: the key that is kept.
unfoldable pub with_protected_admin_key : Handler → Bytes → Handler
with_protected_admin_key h key = record h { protected_admin_key = h.trim key }

unfoldable pub is_protected : Handler → Bytes → Bool
is_protected h key =
    not (bytes_eq h.protected_admin_key []) && bytes_eq (h.trim key) h.protected_admin_key

module _ (h : Handler) (c : Circumstances) (db : Tables) where
  unfoldable pub handle_list_admin_keys : Reply × Tables
  handle_list_admin_keys = as_admin h c db (read_reply (list_admin_keys c.down db) keys_body, db)

  unfoldable pub handle_add_admin_key : Option Bytes → Reply × Tables
  handle_add_admin_key body = as_admin h c db (
      with_body body db λ key.
        if_no_clash h.says_unique (add_admin_key c.down db key) λ done stored.
          recorded h c no_content (codes "admin_key.added")
            ((codes "key", text (admin_key_summary h.trim h.fields key)) ∷ []) stored)

  unfoldable pub handle_remove_admin_key : Option Bytes → Reply × Tables
  handle_remove_admin_key body = as_admin h c db (
      with_body body db λ key.
        if is_protected h key
        then (conflict, db)
        else if_done (remove_admin_key c.down db key) λ done stored.
          recorded h c no_content (codes "admin_key.removed")
            ((codes "key", text (admin_key_summary h.trim h.fields key)) ∷ []) stored)

  unfoldable pub handle_get_setting : Bytes → Reply × Tables
  handle_get_setting key =
      as_admin h c db (read_reply (get_setting c.down db key) (setting_body key), db)

  unfoldable pub handle_set_setting : Bytes → Option Bytes → Reply × Tables
  handle_set_setting key body = as_admin h c db (
      with_body body db λ value. if_done (set_setting c.down db key value) λ done stored.
        recorded h c (setting_body key value) (codes "setting.changed")
          ((codes "key", text key) ∷ (codes "value", text value) ∷ []) stored)

  unfoldable pub handle_get_version : Reply × Tables
  handle_get_version = as_admin h c db (answered (version_body (shown_version h.version)), db)
