-- ===== src/Db/Named/Tests.antt =====
-- Witnesses and runs of the tables of clients and groups. The fold here changes `R` to `r`.
use proxpass.Base.{
  Bytes, codes, bytes_eq, ◌==◌, if◌then◌else◌, map, List, [], ◌∷◌, ok, err, ◌≡◌, refl, arith,
}
use proxpass.Models.{Client, fold_name, names_equal}
use proxpass.Db.State.{unique_violation, no_rows, run}
use proxpass.Db.Tests.{all_up, deployment}
use proxpass.Db.Named.{
  is_named, insert_named, name_taken, update_named, delete_named, next_id, row_or_none,
  get_client_by_name, add_client, update_client, remove_client, add_group, update_group,
  remove_group,
}
use proxpass.Db.Named.Lookup.{
  NamedCall, client_added, client_updated, client_removed, after_change, after_changes, HasNames,
  added_found,
}

abbrev pub small_r : Bytes → Bytes
small_r = map (λ c. if c == 82 then 114 else c)

abbrev rome : Client
rome = record { id = 0; name = codes "Rome"; public_keys = codes "k" ∷ []; group_ids = 7 ∷ [] }

abbrev later : List NamedCall
later =
    client_added all_up (record rome { name = codes "rome" })
    ∷ client_removed all_up 1
    ∷ client_updated all_up (record rome { id = 5 })
    ∷ []

unfoldable named_code : Unit {0}
unfolding is_named insert_named name_taken update_named delete_named next_id row_or_none
    get_client_by_name add_client update_client remove_client add_group update_group remove_group
    after_change after_changes run fold_name names_equal bytes_eq
named_code = tt

pub deployment-HasNames : HasNames deployment
deployment-HasNames = record {
  clients = record { ids = (λ h. h, tt); names = (λ h. h, tt); below = (omega arith, tt) };
  groups = record { ids = (λ h. h, tt); names = (λ h. h, tt); below = (omega arith, tt) };
}

added : (add_client small_r all_up deployment rome).0 ≡ ok 2
unfolding named_code
added = refl

added_twice :
    (add_client small_r all_up (add_client small_r all_up deployment rome).1 rome).0
    ≡ err unique_violation
unfolding named_code
added_twice = refl

renamed_clash :
    (update_client small_r all_up
      (add_client small_r all_up deployment rome).1
      (record rome { id = 2; name = codes "alice" })).0
    ≡ err unique_violation
unfolding named_code
renamed_clash = refl

unknown : get_client_by_name small_r all_up deployment (codes "rome") ≡ err no_rows
unfolding named_code
unknown = refl

added_found_example :
    get_client_by_name small_r all_up
      (after_changes small_r (add_client small_r all_up deployment rome).1 later)
      (codes "Rome")
    ≡ ok (record rome { id = 2; name = codes "rome" })
unfolding named_code
added_found_example =
    added_found small_r all_up all_up deployment rome 2 (codes "Rome") later deployment-HasNames
      refl (tt, (ground arith, (ground arith, tt))) refl refl
