-- ===== src/Ids.antt =====
-- internal/api/idlayout.go: the Unix ids that the directory serves. A Go uint has 64 bits; a database id
-- is a natural number below 2 ^ 63.
pub mod Safety
pub mod Tests
use proxpass.Base.{
  ℕ, ◌+◌, ◌-◌, ◌*◌, ◌%◌, ◌^◌, Bytes, codes, bytes_eq, Bool, true, false, not, ◌&&◌, ◌||◌, Option,
  none, some, List, [], ◌∷◌, Result, ok, err, ◌>>=◌, ◌>>◌, ltb, leb, ◌==◌, if◌then◌else◌, any,
}

pub record IdLayout : Type 0 where
  pub admin_uid : ℕ
  pub alias_uid : ℕ
  pub admin_group_gid : ℕ
  pub shared_group_gid : ℕ
  pub uid_base : ℕ
  pub gid_base : ℕ
  pub max_id : ℕ

-- The refusals of Validate and LoadIDLayout, one for each message.
pub data LayoutError : Type 0 where
  not_unsigned exceeds_max in_system_range : LayoutError
  no_max admin_in_clients alias_in_clients alias_is_admin : LayoutError
  gid_in_groups same_gid few_clients few_groups : LayoutError

abbrev pub default_id_layout : IdLayout
default_id_layout = record {
  admin_uid = 19999;
  alias_uid = 19998;
  admin_group_gid = 19001;
  shared_group_gid = 19000;
  uid_base = 20000;
  gid_base = 40000;
  max_id = 65535;
}

-- The six values that both loops of Validate range over.
abbrev pub served : IdLayout → List ℕ
served l =
    l.admin_uid ∷ l.alias_uid ∷ l.admin_group_gid ∷ l.shared_group_gid ∷ l.uid_base ∷ l.gid_base
    ∷ []

-- `if bad { return err }`
abbrev pub refuse_if : Bool → LayoutError → Result LayoutError (Unit {0})
refuse_if bad e = if bad then err e else ok tt

abbrev pub first_non_system_id : ℕ
first_non_system_id = 1000

abbrev pub min_room : ℕ
min_room = 100

unfoldable pub validate : IdLayout → Result LayoutError (Unit {0})
validate l =
    refuse_if (l.max_id == 0) no_max
    >> refuse_if (any (λ v. ltb l.max_id v) (served l)) exceeds_max
    >> refuse_if (any (λ v. ltb v first_non_system_id) (served l)) in_system_range
    >> refuse_if (leb l.uid_base l.admin_uid) admin_in_clients
    >> refuse_if (leb l.uid_base l.alias_uid) alias_in_clients
    >> refuse_if (l.alias_uid == l.admin_uid) alias_is_admin
    >> refuse_if (leb l.gid_base l.admin_group_gid || leb l.gid_base l.shared_group_gid)
        gid_in_groups
    >> refuse_if (l.admin_group_gid == l.shared_group_gid) same_gid
    >> refuse_if (ltb l.max_id ((l.uid_base + min_room) % 2 ^ 64)) few_clients
    >> refuse_if (ltb l.max_id ((l.gid_base + min_room) % 2 ^ 64)) few_groups

unfoldable pub in_range : IdLayout → ℕ → Bool
in_range l id = leb id l.max_id

unfoldable pub uid_for : IdLayout → ℕ → ℕ
uid_for l row_id = (row_id + l.uid_base) % 2 ^ 64

unfoldable pub gid_for : IdLayout → ℕ → ℕ
gid_for l row_id = (row_id + l.gid_base) % 2 ^ 64

-- strconv.ParseUint(s, 10, 32): decimal digits only, at least one, and a value of 32 bits.
unfoldable pub digits_value : ℕ → Bytes → Option ℕ
digits_value n [] = some n
digits_value n (c ∷ cs) =
    let rest = digits_value (10 * n + (c - 48)) cs in if leb 48 c && leb c 57 then rest else none

unfoldable pub fitting : Option ℕ → Option ℕ
fitting none = none
fitting (some n) = if ltb n (2 ^ 32) then some n else none

unfoldable pub parse_uint : Bytes → Option ℕ
parse_uint [] = none
parse_uint (c ∷ cs) = fitting (digits_value 0 (c ∷ cs))

unfoldable pub parsed : Option ℕ → Result LayoutError ℕ
parsed none = err not_unsigned
parsed (some n) = ok n

-- One turn of the loop over the variables: a variable that is not set, or empty, leaves the default.
unfoldable pub id_or_default : Option Bytes → ℕ → Result LayoutError ℕ
id_or_default none n = ok n
id_or_default (some raw) n = if bytes_eq raw [] then ok n else parsed (parse_uint raw)

unfoldable pub load_id_layout : (Bytes → Option Bytes) → Result LayoutError IdLayout
load_id_layout lookup = do
  max ← id_or_default (lookup (codes "PROXPASS_MAX_ID")) default_id_layout.max_id
  admin ← id_or_default (lookup (codes "PROXPASS_ADMIN_UID")) default_id_layout.admin_uid
  other ← id_or_default (lookup (codes "PROXPASS_ALIAS_UID")) default_id_layout.alias_uid
  admin_gid ← id_or_default (lookup (codes "PROXPASS_ADMIN_GID")) default_id_layout.admin_group_gid
  shared ← id_or_default (lookup (codes "PROXPASS_GID")) default_id_layout.shared_group_gid
  uids ← id_or_default (lookup (codes "PROXPASS_UID_BASE")) default_id_layout.uid_base
  gids ← id_or_default (lookup (codes "PROXPASS_GID_BASE")) default_id_layout.gid_base
  let l : IdLayout = record {
    admin_uid = admin;
    alias_uid = other;
    admin_group_gid = admin_gid;
    shared_group_gid = shared;
    uid_base = uids;
    gid_base = gids;
    max_id = max;
  }
  validate l
  ok l
