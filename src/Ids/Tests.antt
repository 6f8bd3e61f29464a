-- ===== src/Ids/Tests.antt =====
-- Witnesses and runs of the id layout.
use proxpass.Base.{
  Bytes, codes, bytes_eq, Option, none, some, ok, err, ◌≡◌, refl, arith, if◌then◌else◌,
}
use proxpass.Ids.{
  IdLayout, default_id_layout, alias_is_admin, not_unsigned, validate, in_range, uid_for, gid_for,
  digits_value, fitting, parse_uint, parsed, id_or_default, load_id_layout,
}
use proxpass.Ids.Safety.{IsSeparate, load_id_layout-IsSeparate}

abbrev one_variable : Bytes → Bytes → Bytes → Option Bytes
one_variable name val key = if bytes_eq key name then some val else none

abbrev moved : IdLayout
moved = record default_id_layout { uid_base = 30000 }

unfoldable ids_code : Unit {0}
unfolding validate in_range uid_for gid_for digits_value fitting parse_uint parsed id_or_default
    load_id_layout bytes_eq
ids_code = tt

loads : load_id_layout (one_variable (codes "PROXPASS_UID_BASE") (codes "30000")) ≡ ok moved
unfolding ids_code
loads = refl

clash :
    load_id_layout (one_variable (codes "PROXPASS_ALIAS_UID") (codes "19999")) ≡ err alias_is_admin
unfolding ids_code
clash = refl

negative : load_id_layout (one_variable (codes "PROXPASS_GID") (codes "-1")) ≡ err not_unsigned
unfolding ids_code
negative = refl

load_id_layout-IsSeparate_example : IsSeparate moved 1 2
load_id_layout-IsSeparate_example =
    load_id_layout-IsSeparate (one_variable (codes "PROXPASS_UID_BASE") (codes "30000")) moved 1 2
      loads (omega arith) (omega arith)
