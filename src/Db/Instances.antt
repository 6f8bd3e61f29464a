-- ===== src/Db/Instances.antt =====
-- internal/db/sql_repository.go: adding and updating an instance. `name` is UNIQUE, and on PostgreSQL `api_url`, over
-- folded names and over URLs without a final slash. `lower` is strings.ToLower and `trim`
-- strings.TrimSpace.
pub mod Rows
use proxpass.Base.{
  ℕ, ◌+◌, Bytes, bytes_eq, Bool, true, false, not, ◌&&◌, ◌||◌, List, [], ◌∷◌, ◌++◌, map, Result, ok,
  err, ◌==◌, if◌then◌else◌, any,
}
use proxpass.Models.{ProxmoxInstance, fold_name}
use proxpass.Db.State.{
  Tables, DbError, storage, unique_violation, already_exists, Statement, insert_instance,
  update_instance,
}
use proxpass.Db.Named.{Columns, is_named, name_taken, next_id}

-- strings.TrimRight(url, "/")
unfoldable pub trim_slashes : Bytes → Bytes
trim_slashes [] = []
trim_slashes (c ∷ cs) =
    let rest = trim_slashes cs in if bytes_eq rest [] && c == 47 then [] else c ∷ rest

-- The parts of a list that are left by trimming, less the empty ones.
unfoldable pub trimmed : (Bytes → Bytes) → List Bytes → List Bytes
trimmed trim [] = []
trimmed trim (fp ∷ fps) =
    let rest = trimmed trim fps in let t = trim fp in if bytes_eq t [] then rest else t ∷ rest

-- strings.Join(fps, "\n")
unfoldable pub join_lines : List Bytes → Bytes
join_lines [] = []
join_lines (fp ∷ []) = fp
join_lines (fp ∷ next ∷ fps) = fp ++ 10 ∷ join_lines (next ∷ fps)

unfoldable pub on_first_line : ℕ → List Bytes → List Bytes
on_first_line c [] = (c ∷ []) ∷ []
on_first_line c (line ∷ lines) = (c ∷ line) ∷ lines

-- strings.Split(s, "\n")
unfoldable pub split_lines : Bytes → List Bytes
split_lines [] = [] ∷ []
split_lines (c ∷ cs) =
    let rest = split_lines cs in if c == 10 then [] ∷ rest else on_first_line c rest

unfoldable pub encode_fingerprints : (Bytes → Bytes) → List Bytes → Bytes
encode_fingerprints trim fps = join_lines (trimmed trim fps)

unfoldable pub decode_fingerprints : (Bytes → Bytes) → Bytes → List Bytes
decode_fingerprints trim s =
    let t = trim s in if bytes_eq t [] then [] else trimmed trim (split_lines t)

abbrev pub instance_columns : Columns ProxmoxInstance
instance_columns = record { id_of = λ r. r.id; name_of = λ r. r.name }

abbrev pub url_columns : Columns ProxmoxInstance
url_columns = record { id_of = λ r. r.id; name_of = λ r. r.api_url }

-- Another row has the URL, and the schema forbids it.
unfoldable pub url_taken : Bool → Bool → Bool
url_taken unique_urls taken = unique_urls && taken

unfoldable pub insert_instance_row :
    Bool → Bool → ProxmoxInstance → List ProxmoxInstance → Result DbError ℕ × List ProxmoxInstance
insert_instance_row unique_urls fails row rows =
    if fails
    then (err storage, rows)
    else if any (is_named instance_columns row.name) rows
        || url_taken unique_urls (any (is_named url_columns row.api_url) rows)
    then (err unique_violation, rows)
    else (ok row.id, rows ++ row ∷ [])

unfoldable pub update_instance_row :
    Bool
    → Bool
    → ProxmoxInstance
    → List ProxmoxInstance
    → Result DbError (Unit {0}) × List ProxmoxInstance
update_instance_row unique_urls fails row rows =
    if fails
    then (err storage, rows)
    else if name_taken instance_columns row rows
        || url_taken unique_urls (name_taken url_columns row rows)
    then (err unique_violation, rows)
    else (ok tt, map (λ r. if r.id == row.id then row else r) rows)

-- A duplicate is reported in the repository's own words.
unfoldable pub name_duplicate {ℓ} : {A : Type ℓ} → Result DbError A → Result DbError A
name_duplicate (err unique_violation) = err already_exists
name_duplicate r = r

module _ (lower : Bytes → Bytes) where
  -- What is written back into the caller's struct before the statement.
  unfoldable pub normalised : ProxmoxInstance → ProxmoxInstance
  normalised inst = record inst {
    name = fold_name lower inst.name;
    api_url = trim_slashes inst.api_url;
  }

  -- The row that a later listing reads.
  unfoldable pub stored_instance : (Bytes → Bytes) → ProxmoxInstance → ProxmoxInstance
  stored_instance trim inst = record (normalised inst) {
    ssh_fingerprints = decode_fingerprints trim (encode_fingerprints trim inst.ssh_fingerprints);
  }

module _ (lower trim : Bytes → Bytes) (down : Statement → Bool) (db : Tables) where
  -- The id that RETURNING gives is stored in the caller's instance.
  unfoldable pub add_proxmox_instance : ProxmoxInstance → Result DbError ℕ × Tables
  add_proxmox_instance inst =
      let row = stored_instance lower trim (record inst { id = db.next_instance_id }) in
      let done =
        insert_instance_row db.unique_urls (down (insert_instance row.name)) row db.instances in
      (
        name_duplicate done.0,
        record db { instances = done.1; next_instance_id = next_id done.0 db.next_instance_id },
      )

  unfoldable pub update_proxmox_instance : ProxmoxInstance → Result DbError (Unit {0}) × Tables
  update_proxmox_instance inst =
      let row = stored_instance lower trim inst in
      let done =
        update_instance_row db.unique_urls (down (update_instance row.name)) row db.instances in
      (name_duplicate done.0, record db { instances = done.1 })
