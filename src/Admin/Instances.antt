-- ===== src/Admin/Instances.antt =====
-- internal/api/adminhandlers.go: the requests for instances and guests.
use proxpass.Base.{
  ℕ, Bytes, bytes_eq, codes, Bool, true, Option, none, some, Result, ok, err, if◌then◌else◌, List,
}
use proxpass.Models.{ProxmoxInstance, Guest}
use proxpass.Db.State.{Tables, DbError, no_rows}
use proxpass.Db.Guests.{get_guest_by_id, remove_proxmox_instance}
use proxpass.Db.Instances.{normalised, add_proxmox_instance, update_proxmox_instance}
use proxpass.Discovery.{store_guests}
use proxpass.Session.Data.{find_instance}
use proxpass.Admin.{
  Handler, Circumstances, Reply, answered, bad_request, not_found, failed, with_body, with_row,
  if_done, if_no_clash, as_admin, recorded,
}
use proxpass.Admin.Clients.{named_row}
use proxpass.Admin.Wire.{
  AdminInstance, instance_body, guest_body, no_content, to_api_instance, from_api_instance,
  to_api_guest_row,
}

abbrev pub no_such_instance : Bytes
no_such_instance = codes "no such instance"

abbrev pub no_such_guest : Bytes
no_such_guest = codes "no such guest"

abbrev pub term_proxy_transport : Bytes
term_proxy_transport = codes "termproxy"

-- The text stands for the checker's.
abbrev pub no_term_proxy : Bytes
no_term_proxy = codes "termproxy is not supported"

unfoldable pub checked_by : Option (ProxmoxInstance → Bool) → ProxmoxInstance → Bool
checked_by none inst = true
checked_by (some check) inst = check inst

-- Only the termproxy transport is checked.
unfoldable pub is_supported : Option (ProxmoxInstance → Bool) → ProxmoxInstance → Bool
is_supported checker inst =
    if bytes_eq inst.console_transport term_proxy_transport then checked_by checker inst else true

unfoldable pub if_supported :
    Option (ProxmoxInstance → Bool) → ProxmoxInstance → Tables → Reply × Tables → Reply × Tables
if_supported checker inst db done =
    if is_supported checker inst then done else (bad_request no_term_proxy, db)

unfoldable pub guest_found : Result DbError Guest → Reply
guest_found (err no_rows) = not_found no_such_guest
guest_found (err _) = failed
guest_found (ok g) = answered (guest_body (to_api_guest_row g))

module _ (c : Circumstances) where
  -- discoverInstance: nothing is stored of a discovery that failed.
  unfoldable pub store_discovered : ProxmoxInstance → Option (List Guest) → Tables → Tables
  store_discovered inst none db = db
  store_discovered inst (some guests) db = (store_guests c.down c.canceled_at inst.id db guests).1

  unfoldable pub discover_instance :
      Option (ProxmoxInstance → Option (List Guest)) → ProxmoxInstance → Tables → Tables
  discover_instance none inst db = db
  discover_instance (some discover) inst db = store_discovered inst (discover inst) db

module _ (h : Handler) (c : Circumstances) (db : Tables) where
  unfoldable pub handle_get_instance : ℕ → Reply × Tables
  handle_get_instance id = as_admin h c db (
      with_row no_such_instance (find_instance c.down db id) db
        λ inst. (answered (instance_body (to_api_instance inst)), db))

  unfoldable pub handle_add_instance : Option AdminInstance → Reply × Tables
  handle_add_instance body = as_admin h c db (
      with_body body db λ sent.
        let inst = from_api_instance sent in
        if_supported h.term_proxy_checker inst db (
          if_no_clash h.says_unique (add_proxmox_instance h.lower h.trim c.down db inst)
            λ id stored.
              let made = record (normalised h.lower inst) { id = id } in
              recorded h c (instance_body (to_api_instance made)) (codes "instance.added")
                (named_row made.name made.id) (discover_instance c h.discoverer made stored)))

  unfoldable pub handle_update_instance : ℕ → Option AdminInstance → Reply × Tables
  handle_update_instance id body = as_admin h c db (
      with_body body db λ sent.
        with_row no_such_instance (find_instance c.down db id) db λ existing.
          let inst = record (from_api_instance sent) { id = id } in
          if_supported h.term_proxy_checker inst db (
            if_no_clash h.says_unique (update_proxmox_instance h.lower h.trim c.down db inst)
              λ done stored.
                let made = normalised h.lower inst in
                recorded h c (instance_body (to_api_instance made)) (codes "instance.updated")
                  (named_row made.name made.id) stored))

  unfoldable pub handle_remove_instance : ℕ → Reply × Tables
  handle_remove_instance id = as_admin h c db (
      with_row no_such_instance (find_instance c.down db id) db λ existing.
        if_done (remove_proxmox_instance c.down db id) λ done stored.
          recorded h c no_content (codes "instance.removed") (named_row existing.name id) stored)

  unfoldable pub handle_get_guest : ℕ → Reply × Tables
  handle_get_guest id = as_admin h c db (guest_found (get_guest_by_id c.down db id), db)
