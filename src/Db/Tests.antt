-- ===== src/Db/Tests.antt =====
-- Witnesses and runs of the access checks and the guest table, over one small deployment: client 1 is
-- in group 7 by the group's row alone, and group 7 has guest 10 and node 3.
use proxpass.Base.{ℕ, Bool, true, false, none, [], ◌∷◌, ok, err, ◌≡◌, refl, arith, codes, bytes_eq}
use proxpass.Models.{Guest, guest_type_ct, status_running, group, RuleRow}
use proxpass.Db.State.{
  Tables, Statement, MapOrder, storage, run, transact, delete_guest, select_policy,
}
use proxpass.Db.Access.{
  is_rule, add_seen, add_all, add_groups, row_groups, client_group_ids, get_default_policy,
  policy_or_zero, group_rule, policy_names, has_access, has_instance_access,
}
use proxpass.Db.Access.Spec.{MayReachGuest, MayReachNode}
use proxpass.Db.Access.Laws.{Decides}
use proxpass.Db.Access.Decision.{
  has_access-Decides, has_instance_access-Decides, Answers, access-Answers,
}
use proxpass.Db.Guests.{
  is_guest, update_row, exec, upsert_row, upsert_guest, drop_guest, drop_guests, stale_ids, prune,
  remove_guests_not_in,
}
use proxpass.Db.Guests.Rows.{IsKeyed}

abbrev pub in_order : MapOrder
in_order = record { order = λ xs. xs; order_iff = λ x xs. (λ h. h, λ h. h) }

abbrev pub all_up : Statement → Bool
all_up st = false

abbrev policy_down : Statement → Bool
policy_down select_policy = true
policy_down _ = false

abbrev delete_down : Statement → Bool
delete_down (delete_guest id) = true
delete_down _ = false

abbrev pub guest_row : ℕ → ℕ → ℕ → Guest
guest_row id vmid inst = record {
  id = id;
  kind = guest_type_ct;
  name = codes "web";
  status = status_running;
  proxmox_id = vmid;
  instance_id = inst;
}

abbrev rule : ℕ → ℕ → RuleRow
rule g t = record { id = 1; kind = group; subject_id = g; target_id = t }

abbrev pub deployment : Tables
deployment = record {
  unique_urls = false;
  instances = [];
  guests = guest_row 10 100 3 ∷ guest_row 11 101 3 ∷ guest_row 12 100 4 ∷ [];
  clients = record { id = 1; name = codes "alice"; public_keys = []; group_ids = [] } ∷ [];
  groups = record { id = 7; name = codes "ops"; client_ids = 1 ∷ [] } ∷ [];
  access_rules = rule 7 10 ∷ rule 7 11 ∷ [];
  instance_access_rules = rule 7 3 ∷ [];
  default_policy = none;
  session_tokens = [];
  api_sessions = [];
  settings = [];
  admin_keys = [];
  activity_log = [];
  next_instance_id = 5;
  next_event_id = 1;
  next_client_id = 2;
  next_group_id = 8;
  next_guest_id = 13;
  next_rule_id = 2;
  next_instance_rule_id = 2;
}

pub deployment-IsKeyed : IsKeyed deployment
deployment-IsKeyed = record { distinct = ground arith; below = omega arith }

-- Opening this opens all that the runs below compute with.
unfoldable pub db_code : Unit {0}
unfolding run transact is_rule add_seen add_all add_groups row_groups client_group_ids
    get_default_policy policy_or_zero group_rule policy_names has_access has_instance_access
    is_guest update_row exec upsert_row upsert_guest drop_guest drop_guests stale_ids prune
    remove_guests_not_in bytes_eq
db_code = tt

access_runs :
    (has_access all_up in_order deployment 1 10 ≡ ok true)
    × (has_access all_up in_order deployment 2 10 ≡ ok false)
    × (has_access policy_down in_order deployment 2 10 ≡ err storage)
    × (has_instance_access all_up in_order deployment 1 3 ≡ ok true)
unfolding db_code
access_runs = (refl, refl, refl, refl)

has_access-Decides_example :
    Decides (MayReachGuest deployment 1 10) (has_access all_up in_order deployment 1 10)
has_access-Decides_example = has_access-Decides all_up in_order deployment 1 10

has_instance_access-Decides_example :
    Decides (MayReachNode deployment 1 3) (has_instance_access all_up in_order deployment 1 3)
has_instance_access-Decides_example = has_instance_access-Decides all_up in_order deployment 1 3

access-Answers_example :
    Answers (has_access all_up in_order deployment 1 10)
    × Answers (has_instance_access all_up in_order deployment 1 10)
access-Answers_example = access-Answers all_up (λ st. refl) in_order deployment 1 10

pruned : remove_guests_not_in all_up deployment 3 (100 ∷ []) ≡ (
  ok 1,
  record deployment {
    guests = guest_row 10 100 3 ∷ guest_row 12 100 4 ∷ [];
    access_rules = rule 7 10 ∷ [];
  },
)
unfolding db_code
pruned = refl

half_pruned : (remove_guests_not_in delete_down deployment 3 (100 ∷ [])).0 ≡ err storage
unfolding db_code
half_pruned = refl
