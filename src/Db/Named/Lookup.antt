-- ===== src/Db/Named/Lookup.antt =====
-- Clients and groups over any sequence of changes, any of which may fail, and the lookup by name.
use mathlib.Core.Path.{subst}
use proxpass.Base.{
  ℕ, Bytes, bytes_eq, bytes_eq_iff, Bool, true, false, not, some, List, [], ◌∷◌, map, ok, ◌==◌,
  if◌then◌else◌, any, find, All, Elem, Any-append, Any-weaken, Any-filter_iff, Any-map, Distinct,
  ◌≡◌, ◌≢◌, refl, sym, ◌∙◌, ap, inl, inr, arith, Bool-cases,
}
use proxpass.Models.{Client, Group, fold_name, names_equal}
use proxpass.Db.State.{Tables, Statement, select_client_by_name, insert_client, run}
use proxpass.Db.Named.{
  Columns, client_columns, group_columns, is_named, insert_named, name_taken, update_named,
  delete_named, row_or_none, get_client_by_name, add_client, update_client, remove_client,
  add_group, update_group, remove_group,
}
use proxpass.Db.Named.Rows.{IsTable, insert-IsTable, delete-IsTable, update-IsTable}

-- One call, with the statements that fail in it.
pub data NamedCall : Type 0 where
  client_added client_updated : (Statement → Bool) → Client → NamedCall
  group_added group_updated : (Statement → Bool) → Group → NamedCall
  client_removed group_removed : (Statement → Bool) → ℕ → NamedCall

module _ (lower : Bytes → Bytes) where
  unfoldable pub after_change : Tables → NamedCall → Tables
  after_change db (client_added down c) = (add_client lower down db c).1
  after_change db (client_updated down c) = (update_client lower down db c).1
  after_change db (client_removed down id) = (remove_client down db id).1
  after_change db (group_added down g) = (add_group lower down db g).1
  after_change db (group_updated down g) = (update_group lower down db g).1
  after_change db (group_removed down id) = (remove_group down db id).1

  unfoldable pub after_changes : Tables → List NamedCall → Tables
  after_changes db [] = db
  after_changes db (c ∷ cs) = after_changes (after_change db c) cs

-- Clients have distinct ids and distinct folded names, and so have groups; the counters are past all
-- ids.
pub record HasNames (db : Tables) : Type 0 where
  pub clients : IsTable client_columns db.next_client_id db.clients
  pub groups : IsTable group_columns db.next_group_id db.groups

module _ (lower : Bytes → Bytes) where
  after_change-HasNames :
      (db : Tables) (c : NamedCall) → HasNames db → HasNames (after_change lower db c)
  unfolding after_change add_client update_client remove_client add_group update_group remove_group
  after_change-HasNames db (client_added down c) k = record {
    clients = insert-IsTable client_columns _ _ _ db.clients refl k.clients;
    groups = k.groups;
  }
  after_change-HasNames db (client_updated down c) k = record {
    clients = update-IsTable client_columns _ _ _ db.clients k.clients;
    groups = k.groups;
  }
  after_change-HasNames db (client_removed down id) k = record {
    clients = delete-IsTable client_columns _ _ _ db.clients k.clients;
    groups = k.groups;
  }
  after_change-HasNames db (group_added down g) k = record {
    clients = k.clients;
    groups = insert-IsTable group_columns _ _ _ db.groups refl k.groups;
  }
  after_change-HasNames db (group_updated down g) k = record {
    clients = k.clients;
    groups = update-IsTable group_columns _ _ _ db.groups k.groups;
  }
  after_change-HasNames db (group_removed down id) k = record {
    clients = k.clients;
    groups = delete-IsTable group_columns _ _ _ db.groups k.groups;
  }

  -- No change of a client or a group, failed or not, gives two clients (or two groups) one id or one
  -- folded name, or brings an id back that was used, where that held before.
  pub after_changes-HasNames :
      (db : Tables) (cs : List NamedCall) → HasNames db → HasNames (after_changes lower db cs)
  unfolding after_changes
  after_changes-HasNames db [] k = k
  after_changes-HasNames db (c ∷ cs) k =
      after_changes-HasNames (after_change lower db c) cs (after_change-HasNames db c k)

module _ {R : Type 0} (t : Columns R) where
  -- A name has one row, and the lookup finds it.
  pub find_named :
      (row : R) (rows : List R)
      → Distinct (map t.name_of rows)
      → Elem row rows
      → find (is_named t (t.name_of row)) rows ≡ some row
  unfolding is_named
  find_named row [] d m = absurd m
  find_named row (r ∷ rows) d (inl e) =
      let same : bytes_eq (t.name_of r) (t.name_of row) ≡ true =
        (bytes_eq_iff (t.name_of r) (t.name_of row)).1 (ap t.name_of e) in
      rw same (ap some e)
  find_named row (r ∷ rows) (n, d) (inr m) =
      elim (Bool-cases (bytes_eq (t.name_of r) (t.name_of row))) [
        | inl e ↦
            let same = (bytes_eq_iff (t.name_of r) (t.name_of row)).0 e in
            absurd (
              n (
                (Any-map _ t.name_of rows).1
                  (Any-weaken _ _ rows (λ a q. ap t.name_of q ∙ sym same) m)))
        | inr e ↦ rw e (find_named row rows d m)
      ]

  module _ (row : R) (rows : List R) (here : Elem row rows) where
    insert-Elem : (fails : Bool) (new : R) → Elem row (insert_named t fails new rows).1
    unfolding insert_named
    insert-Elem true new = here
    insert-Elem false new = elim (Bool-cases (any (is_named t (t.name_of new)) rows)) [
      | inl e ↦ rw (e, insert_named) here
      | inr e ↦ rw (e, insert_named) ((Any-append _ rows (new ∷ [])).1 (inl here))
    ]

    delete-Elem :
        (fails : Bool) (id : ℕ) → t.id_of row ≢ id → Elem row (delete_named t fails id rows).1
    unfolding delete_named
    delete-Elem true id n = here
    delete-Elem false id n = (Any-filter_iff (λ r. not (t.id_of r == id)) (λ r. r ≡ row) rows).1 (
        Any-weaken _ _ rows
          (λ a e. (e, subst (λ r. not (t.id_of r == id) ≡ true) (sym e) (ground arith))) here)

    update-Elem :
        (fails : Bool) (new : R)
        → t.id_of row ≢ t.id_of new
        → Elem row (update_named t fails new rows).1
    unfolding update_named
    update-Elem true new n = here
    update-Elem false new n = elim (Bool-cases (name_taken t new rows)) [
      | inl e ↦ rw (e, update_named) here
      | inr e ↦
          rw (e, update_named)
            ((Any-map _ _ rows).1 (
              Any-weaken _ _ rows
                (λ a q.
                  subst (λ r. (if t.id_of r == t.id_of new then new else r) ≡ row) (sym q)
                    (ground arith))
                here))
    ]

-- The call neither updates nor removes the client.
abbrev pub IsNoChange : ℕ → NamedCall → Type 0
IsNoChange id (client_updated down c) = id ≢ c.id
IsNoChange id (client_removed down gone) = id ≢ gone
IsNoChange id _ = Unit

module _ (lower : Bytes → Bytes) (row : Client) where
  still_there :
      (db : Tables) (c : NamedCall)
      → IsNoChange row.id c
      → Elem row db.clients
      → Elem row (after_change lower db c).clients
  unfolding after_change add_client update_client remove_client add_group update_group remove_group
  still_there db (client_added down c) n m = insert-Elem client_columns row db.clients m _ _
  still_there db (client_updated down c) n m = update-Elem client_columns row db.clients m _ _ n
  still_there db (client_removed down id) n m = delete-Elem client_columns row db.clients m _ _ n
  still_there db (group_added down g) n m = m
  still_there db (group_updated down g) n m = m
  still_there db (group_removed down id) n m = m

  All-still_there :
      (db : Tables) (cs : List NamedCall)
      → All (IsNoChange row.id) cs
      → Elem row db.clients
      → Elem row (after_changes lower db cs).clients
  unfolding after_changes
  All-still_there db [] a m = m
  All-still_there db (c ∷ cs) (n, a) m =
      All-still_there (after_change lower db c) cs a (still_there db c n m)

module _ (lower : Bytes → Bytes) where
  -- What AddClient stored.
  stored : Client → ℕ → Client
  stored c id = record c { id = id; name = fold_name lower c.name }

  add-Elem :
      (down : Statement → Bool) (db : Tables) (c : Client) (id : ℕ)
      → (add_client lower down db c).0 ≡ ok id
      → Elem (stored c id) (add_client lower down db c).1.clients
  unfolding add_client insert_named stored
  add-Elem down db c id e = elim (Bool-cases (down (insert_client (fold_name lower c.name)))) [
    | inl f ↦ absurd (ground arith)
    | inr f ↦
        elim (Bool-cases (any (is_named client_columns (fold_name lower c.name)) db.clients)) [
          | inl g ↦ absurd (ground arith)
          | inr g ↦
              rw (f, add_client, insert_named)
                (rw (g, add_client, insert_named)
                  ((Any-append _ db.clients _).1 (inr (inl ground arith))))
        ]
  ]

  -- A client that was added is found under every spelling of its name that folds to the same, with the
  -- id that was given back and its keys and groups, after any later changes that do not update or
  -- remove it: other changes, failed ones and attempts to take its name included.
  pub added_found :
      (down again : Statement → Bool) (db : Tables) (c : Client) (id : ℕ) (spelled : Bytes)
      (cs : List NamedCall)
      → HasNames db
      → (add_client lower down db c).0 ≡ ok id
      → All (IsNoChange id) cs
      → names_equal lower spelled c.name ≡ true
      → again (select_client_by_name (fold_name lower spelled)) ≡ false
      → get_client_by_name lower again
          (after_changes lower (add_client lower down db c).1 cs)
          spelled
        ≡ ok (record c { id = id; name = fold_name lower c.name })
  unfolding get_client_by_name names_equal run row_or_none stored after_change
  added_found down again db c id spelled cs k e a s up =
      let same = (bytes_eq_iff (fold_name lower spelled) (fold_name lower c.name)).0 s in
      let here = All-still_there lower (stored c id) _ cs a (add-Elem down db c id e) in
      let kept =
        after_changes-HasNames lower _ cs
          (after_change-HasNames lower db (client_added down c) k) in
      let found : find (is_named client_columns (fold_name lower c.name))
            (after_changes lower (add_client lower down db c).1 cs).clients
          ≡ some (stored c id) =
        find_named client_columns (stored c id) _ kept.clients.names here in
      rw up (rw same (rw found refl))
