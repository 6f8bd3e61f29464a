-- ===== src/Db/Instances/Rows.antt =====
-- The instance table over an addition, an update and a removal: ids and names stay distinct,
-- and so do URLs where the schema says so.
use proxpass.Base.{
  ℕ, ◌+◌, Bool, true, false, not, List, [], ◌∷◌, ◌++◌, map, ◌==◌, if◌then◌else◌, any, filter, ◌≡◌,
  inl, inr, Bool-cases, arith,
}
use proxpass.Models.{ProxmoxInstance}
use proxpass.Db.Named.{
  Columns, is_named, insert_named, name_taken, update_named, delete_named, next_id,
}
use proxpass.Db.Named.Rows.{IsTable, insert-IsTable, delete-IsTable, update-IsTable}
use proxpass.Db.Instances.{
  instance_columns, url_columns, url_taken, insert_instance_row, update_instance_row,
}

-- Ids and names are distinct, URLs too where the schema says so, and the counter is past all ids.
pub record IsInstanceTable (unique : Bool) (next : ℕ) (rows : List ProxmoxInstance) : Type 0 where
  pub names : IsTable instance_columns next rows
  pub urls : unique ≡ true → IsTable url_columns next rows

module _ (t : Columns ProxmoxInstance) (next : ℕ) (row : ProxmoxInstance)
    (rows : List ProxmoxInstance) where
  fresh-IsTable :
      t.id_of row ≡ next
      → any (is_named t (t.name_of row)) rows ≡ false
      → IsTable t next rows
      → IsTable t (next + 1) (rows ++ row ∷ [])
  unfolding insert_named next_id
  fresh-IsTable e f k = rw (f, insert_named, next_id) at (insert-IsTable t false next row rows e k)

  free-IsTable :
      name_taken t row rows ≡ false
      → IsTable t next rows
      → IsTable t next (map (λ r. if t.id_of r == t.id_of row then row else r) rows)
  unfolding update_named
  free-IsTable f k = rw (f, update_named) at (update-IsTable t row false next rows k)

url_free : (unique taken : Bool) → url_taken unique taken ≡ false → unique ≡ true → taken ≡ false
unfolding url_taken
url_free unique taken g u = ground arith

pub insert-IsInstanceTable :
    (unique fails : Bool) (next : ℕ) (row : ProxmoxInstance) (rows : List ProxmoxInstance)
    → row.id ≡ next
    → IsInstanceTable unique next rows
    → IsInstanceTable unique
        (next_id (insert_instance_row unique fails row rows).0 next)
        (insert_instance_row unique fails row rows).1
unfolding insert_instance_row next_id
insert-IsInstanceTable unique true next row rows e k = k
insert-IsInstanceTable unique false next row rows e k =
    elim (Bool-cases (any (is_named instance_columns row.name) rows)) [
      | inl h ↦ rw (h, insert_instance_row, next_id) k
      | inr h ↦ elim (Bool-cases (url_taken unique (any (is_named url_columns row.api_url) rows))) [
        | inl g ↦ rw (h, g, insert_instance_row, next_id) k
        | inr g ↦
            rw (h, g, insert_instance_row, next_id)
              (record {
                names = fresh-IsTable instance_columns next row rows e h k.names;
                urls = λ u.
                    fresh-IsTable url_columns next row rows e (url_free unique _ g u) (k.urls u);
              })
      ]
    ]

pub update-IsInstanceTable :
    (unique fails : Bool) (next : ℕ) (row : ProxmoxInstance) (rows : List ProxmoxInstance)
    → IsInstanceTable unique next rows
    → IsInstanceTable unique next (update_instance_row unique fails row rows).1
unfolding update_instance_row
update-IsInstanceTable unique true next row rows k = k
update-IsInstanceTable unique false next row rows k =
    elim (Bool-cases (name_taken instance_columns row rows)) [
      | inl h ↦ rw (h, update_instance_row) k
      | inr h ↦ elim (Bool-cases (url_taken unique (name_taken url_columns row rows))) [
        | inl g ↦ rw (h, g, update_instance_row) k
        | inr g ↦
            rw (h, g, update_instance_row)
              (record {
                names = free-IsTable instance_columns next row rows h k.names;
                urls =
                    λ u. free-IsTable url_columns next row rows (url_free unique _ g u) (k.urls u);
              })
      ]
    ]

pub filter-IsInstanceTable :
    (unique : Bool) (next id : ℕ) (rows : List ProxmoxInstance)
    → IsInstanceTable unique next rows
    → IsInstanceTable unique next (filter (λ r. not (r.id == id)) rows)
unfolding delete_named
filter-IsInstanceTable unique next id rows k = record {
  names = delete-IsTable instance_columns false next id rows k.names;
  urls = λ u. delete-IsTable url_columns false next id rows (k.urls u);
}
