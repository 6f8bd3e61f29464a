-- ===== src/Admin/Clashes.antt =====
-- What a taken name or URL is answered with.
use proxpass.Base.{
  ℕ, Bytes, Bool, true, false, ◌||◌, ◌+◌, ◌++◌, [], ◌∷◌, some, Result, ok, err, ◌≡◌, refl, sym, ap,
  ◌∙◌, if◌then◌else◌, any,
}
use mathlib.Core.Path.{subst}
use proxpass.Models.{ProxmoxInstance, Client, fold_name}
use proxpass.Db.State.{
  Tables, DbError, Statement, unique_violation, already_exists, insert_client, insert_instance,
}
use proxpass.Db.Named.{client_columns, is_named, insert_named, next_id, add_client}
use proxpass.Db.Instances.{
  trim_slashes, instance_columns, url_columns, url_taken, normalised, stored_instance,
  insert_instance_row, name_duplicate, add_proxmox_instance,
}
use proxpass.Admin.{
  Handler, Circumstances, Reply, conflict, failed, caller, with_body, is_conflict, if_no_clash,
  recorded, record_admin,
}
use proxpass.Admin.Outcome.{IsAdminCaller, as_admin-allowed}
use proxpass.Admin.Wire.{AdminClient, AdminInstance, from_api_client, from_api_instance}
use proxpass.Admin.Clients.{handle_add_client}
use proxpass.Admin.Instances.{is_supported, if_supported, handle_add_instance}
use proxpass.Admin.Ends.{IsAnswered}
use proxpass.Admin.Effects.{same_but_log}

module _ (lower : Bytes → Bytes) (down : Statement → Bool) (db : Tables) (x : Client)
    (up : down (insert_client (fold_name lower x.name)) ≡ false) where
  add_client-taken :
      any (is_named client_columns (fold_name lower x.name)) db.clients ≡ true
      → add_client lower down db x ≡ (err unique_violation, db)
  unfolding add_client insert_named next_id
  add_client-taken e = rw (up, e, insert_named, next_id) refl

  add_client-free :
      any (is_named client_columns (fold_name lower x.name)) db.clients ≡ false
      → add_client lower down db x ≡ (
        ok db.next_client_id,
        record db {
          clients =
              db.clients ++ record x { id = db.next_client_id; name = fold_name lower x.name } ∷ [];
          next_client_id = db.next_client_id + 1;
        },
      )
  unfolding add_client insert_named next_id
  add_client-free e = rw (up, e, insert_named, next_id) refl

module _ (lower trim : Bytes → Bytes) (down : Statement → Bool) (db : Tables) (x : ProxmoxInstance)
    (up : down (insert_instance (fold_name lower x.name)) ≡ false) where
  add_proxmox_instance-taken :
      (any (is_named instance_columns (fold_name lower x.name)) db.instances
          || url_taken db.unique_urls
              (any (is_named url_columns (trim_slashes x.api_url)) db.instances))
        ≡ true
      → add_proxmox_instance lower trim down db x ≡ (err already_exists, db)
  unfolding add_proxmox_instance insert_instance_row next_id name_duplicate normalised
      stored_instance
  add_proxmox_instance-taken e = rw (up, e, insert_instance_row, next_id, name_duplicate) refl

  add_proxmox_instance-free :
      (any (is_named instance_columns (fold_name lower x.name)) db.instances
          || url_taken db.unique_urls
              (any (is_named url_columns (trim_slashes x.api_url)) db.instances))
        ≡ false
      → (id : ℕ) × ((add_proxmox_instance lower trim down db x).0 ≡ ok id)
  unfolding add_proxmox_instance insert_instance_row name_duplicate normalised stored_instance
  add_proxmox_instance-free e =
      (db.next_instance_id, rw (up, e, insert_instance_row, name_duplicate) refl)

clash_reply :
    {A : Type 0} (u : Bool) (done : Result DbError A × Tables) (next : A → Tables → Reply × Tables)
    (db : Tables)
    → done ≡ (err unique_violation, db)
    → if_no_clash u done next ≡ (if u then conflict else failed, db)
unfolding if_no_clash is_conflict
clash_reply u done next db e = ap (λ o. if_no_clash u o next) e

known_reply :
    {A : Type 0} (u : Bool) (done : Result DbError A × Tables) (next : A → Tables → Reply × Tables)
    (db : Tables)
    → done ≡ (err already_exists, db)
    → if_no_clash u done next ≡ (conflict, db)
unfolding if_no_clash is_conflict
known_reply u done next db e = ap (λ o. if_no_clash u o next) e

free_reply :
    {A : Type 0} (u : Bool) (done : Result DbError A × Tables) (next : A → Tables → Reply × Tables)
    → ((a : A) (d : Tables) → IsAnswered (next a d).0)
    → ((a : A) × (done.0 ≡ ok a))
    → IsAnswered (if_no_clash u done next).0
unfolding if_no_clash
free_reply u (ok a, d) next n e = n a d
free_reply u (err f, d) next n (a, e) = cc

module _ (h : Handler) (c : Circumstances) (db : Tables)
    (admin : IsAdminCaller (caller h c db)) where
  -- Adding a client whose name, in any spelling, is taken is answered with a 409 if the driver's report
  -- says that a UNIQUE constraint failed, and with a 500 if it is worded otherwise, and changes no table.
  -- A client whose name is free is answered with success and stands last in the table of clients, with
  -- the next id, the folded name, and the keys and groups that were sent. The caller is the
  -- administrator, and the insert does not fail otherwise.
  pub handle_add_client-clash :
      (sent : AdminClient)
      → let folded = fold_name h.lower sent.name in
        let out = handle_add_client h c db (some sent) in
        c.down (insert_client folded) ≡ false
        → (any (is_named client_columns folded) db.clients ≡ true
            → out ≡ (if h.says_unique then conflict else failed, db))
          × (any (is_named client_columns folded) db.clients ≡ false
              → IsAnswered out.0
                × (out.1.clients
                    ≡ db.clients
                      ++ record {
                        id = db.next_client_id;
                        name = folded;
                        public_keys = sent.public_keys;
                        group_ids = sent.group_ids;
                      }
                        ∷ []))
  unfolding handle_add_client with_body from_api_client recorded record_admin if_no_clash
  handle_add_client-clash sent up = (
    λ e.
        as_admin-allowed h c db _ admin
        ∙ clash_reply h.says_unique _ _ db
            (add_client-taken h.lower c.down db (from_api_client sent) up e),
    λ e.
        let row : Client = record {
          id = db.next_client_id;
          name = fold_name h.lower sent.name;
          public_keys = sent.public_keys;
          group_ids = sent.group_ids;
        } in
        let Q : Reply × Tables → Type 0 =
          λ o. IsAnswered o.0 × (o.1.clients ≡ db.clients ++ row ∷ []) in
        subst Q (sym (as_admin-allowed h c db _ admin)) (
          rw (add_client-free h.lower c.down db (from_api_client sent) up e) (
            tt,
            same_but_log h c _ _ _ _ (λ d. d.clients ≡ db.clients ++ row ∷ []) refl (λ log n. refl),
          )),
  )

  -- Adding an instance whose name, in any spelling, or whose URL, but for final slashes and where the schema keeps URLs unique, is taken is
  -- answered with a 409 whatever the driver says; one whose name and URL are free is added. The
  -- instance is of a kind that the checker, if there is one, accepts.
  pub handle_add_instance-clash :
      (sent : AdminInstance)
      → let folded = fold_name h.lower sent.name in
        let out = handle_add_instance h c db (some sent) in
        let taken =
          any (is_named instance_columns folded) db.instances
          || url_taken db.unique_urls
              (any (is_named url_columns (trim_slashes sent.api_url)) db.instances) in
        is_supported h.term_proxy_checker (from_api_instance sent) ≡ true
        → c.down (insert_instance folded) ≡ false
        → (taken ≡ true → out ≡ (conflict, db)) × (taken ≡ false → IsAnswered out.0)
  unfolding handle_add_instance with_body from_api_instance if_supported recorded
  handle_add_instance-clash sent fine up = (
    λ e.
        as_admin-allowed h c db _ admin
        ∙ rw fine (
            known_reply h.says_unique _ _ db
              (add_proxmox_instance-taken h.lower h.trim c.down db (from_api_instance sent) up e)),
    λ e.
        subst (λ (o : Reply × Tables). IsAnswered o.0) (sym (as_admin-allowed h c db _ admin))
          (rw fine (
            free_reply h.says_unique _ _ (λ a d. tt)
              (add_proxmox_instance-free h.lower h.trim c.down db (from_api_instance sent) up e))),
  )
