-- ===== src/Db/Named/Shapes.antt =====
-- What every row of a table of named rows has, through an insert, an update or a removal; and the form
-- in which names and URLs are stored.
use proxpass.Base.{
  ℕ, Bytes, bytes_eq, Bool, true, false, not, ◌&&◌, ◌||◌, List, [], ◌∷◌, map, ◌==◌, if◌then◌else◌,
  any, filter, All, All-append, ◌≡◌, ◌≢◌, inl, inr, arith, Bool-cases,
}
use proxpass.Models.{ProxmoxInstance}
use proxpass.Db.Named.{Columns, is_named, insert_named, name_taken, update_named, delete_named}
use proxpass.Db.Instances.{
  trim_slashes, instance_columns, url_columns, url_taken, insert_instance_row, update_instance_row,
}

-- A lower-case form.
abbrev pub IsFold : (Bytes → Bytes) → Bytes → Type 0
IsFold lower name = (spelled : Bytes) × (name ≡ lower spelled)

-- The last byte is no slash.
abbrev pub EndsBare : Bytes → Type 0
EndsBare [] = Unit
EndsBare (c ∷ []) = c ≢ 47
EndsBare (c ∷ d ∷ cs) = EndsBare (d ∷ cs)

bare_step :
    (c : ℕ) (rest : Bytes)
    → EndsBare rest
    → EndsBare (if bytes_eq rest [] && c == 47 then [] else c ∷ rest)
unfolding bytes_eq
bare_step c [] e = elim (Bool-cases (c == 47)) [ inl q ↦ rw q tt | inr q ↦ rw q (ground arith) ]
bare_step c (d ∷ ds) e = e

pub trim_slashes-EndsBare : (url : Bytes) → EndsBare (trim_slashes url)
unfolding trim_slashes
trim_slashes-EndsBare [] = tt
trim_slashes-EndsBare (c ∷ cs) = bare_step c (trim_slashes cs) (trim_slashes-EndsBare cs)

module _ {R : Type 0} (Q : R → Type 0) where
  pub filter-All : (p : R → Bool) (rows : List R) → All Q rows → All Q (filter p rows)
  filter-All p [] k = tt
  filter-All p (r ∷ rows) (q, k) = elim (Bool-cases (p r)) [
    | inl e ↦ rw e (q, filter-All p rows k)
    | inr e ↦ rw e (filter-All p rows k)
  ]

  replaced-All :
      (p : R → Bool) (row : R) (rows : List R)
      → Q row
      → All Q rows
      → All Q (map (λ r. if p r then row else r) rows)
  replaced-All p row [] q k = tt
  replaced-All p row (r ∷ rows) q (s, k) = elim (Bool-cases (p r)) [
    | inl e ↦ rw e (q, replaced-All p row rows q k)
    | inr e ↦ rw e (s, replaced-All p row rows q k)
  ]

  module _ (t : Columns R) where
    pub insert-All :
        (fails : Bool) (row : R) (rows : List R)
        → Q row
        → All Q rows
        → All Q (insert_named t fails row rows).1
    unfolding insert_named
    insert-All true row rows q k = k
    insert-All false row rows q k = elim (Bool-cases (any (is_named t (t.name_of row)) rows)) [
      | inl h ↦ rw (h, insert_named) k
      | inr h ↦ rw (h, insert_named) (All-append Q rows (row ∷ []) k (q, tt))
    ]

    pub update-All :
        (fails : Bool) (row : R) (rows : List R)
        → Q row
        → All Q rows
        → All Q (update_named t fails row rows).1
    unfolding update_named
    update-All true row rows q k = k
    update-All false row rows q k = elim (Bool-cases (name_taken t row rows)) [
      | inl h ↦ rw (h, update_named) k
      | inr h ↦ rw (h, update_named) (replaced-All (λ r. t.id_of r == t.id_of row) row rows q k)
    ]

    pub delete-All :
        (fails : Bool) (id : ℕ) (rows : List R)
        → All Q rows
        → All Q (delete_named t fails id rows).1
    unfolding delete_named
    delete-All true id rows k = k
    delete-All false id rows k = filter-All (λ r. not (t.id_of r == id)) rows k

module _ (Q : ProxmoxInstance → Type 0) (unique : Bool) (row : ProxmoxInstance)
    (rows : List ProxmoxInstance) where
  pub insert_instance-All :
      (fails : Bool) → Q row → All Q rows → All Q (insert_instance_row unique fails row rows).1
  unfolding insert_instance_row
  insert_instance-All true q k = k
  insert_instance-All false q k =
      elim (Bool-cases (
        any (is_named instance_columns row.name) rows
        || url_taken unique (any (is_named url_columns row.api_url) rows))) [
          | inl h ↦ rw (h, insert_instance_row) k
          | inr h ↦ rw (h, insert_instance_row) (All-append Q rows (row ∷ []) k (q, tt))
        ]

  pub update_instance-All :
      (fails : Bool) → Q row → All Q rows → All Q (update_instance_row unique fails row rows).1
  unfolding update_instance_row
  update_instance-All true q k = k
  update_instance-All false q k =
      elim (Bool-cases (
        name_taken instance_columns row rows
        || url_taken unique (name_taken url_columns row rows))) [
          | inl h ↦ rw (h, update_instance_row) k
          | inr h ↦ rw (h, update_instance_row) (replaced-All Q (λ r. r.id == row.id) row rows q k)
        ]
