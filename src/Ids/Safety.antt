-- ===== src/Ids/Safety.antt =====
-- What a layout that was loaded guarantees to every account.
use mathlib.Core.Path.{subst}
use proxpass.Base.{
  ℕ, ◌+◌, ◌^◌, ◌≤◌, ◌<◌, Bytes, codes, Bool, true, false, Option, none, some, [], ◌∷◌, Result, ok,
  err, ◌>>◌, parts_ok, leb, ◌==◌, ◌≡◌, ◌≢◌, ◌↔◌, ◌⊎◌, refl, inl, inr, arith, Bool-cases,
  Option-cases, bytes_eq, ltb→lt, ◌&&◌,
}
use proxpass.Ids.{
  IdLayout, LayoutError, no_max, refuse_if, validate, in_range, uid_for, gid_for, digits_value,
  fitting, parse_uint, parsed, id_or_default, load_id_layout,
}

-- What Validate checks, as it would be said.
pub record IsValid (l : IdLayout) : Type 0 where
  pub admin_served : (1000 ≤ l.admin_uid) × (l.admin_uid < l.uid_base)
  pub alias_served : (1000 ≤ l.alias_uid) × (l.alias_uid < l.uid_base)
  pub gids_served : (1000 ≤ l.admin_group_gid) × (1000 ≤ l.shared_group_gid)
  pub gids_below : (l.admin_group_gid < l.gid_base) × (l.shared_group_gid < l.gid_base)
  pub uids_differ : l.alias_uid ≢ l.admin_uid
  pub gids_differ : l.admin_group_gid ≢ l.shared_group_gid
  pub room : (l.uid_base + 100 ≤ l.max_id) × (l.gid_base + 100 ≤ l.max_id)

-- A test that did not refuse is false, and the tests before it passed too.
passed :
    (before : Result LayoutError (Unit {0})) (bad : Bool) (e : LayoutError)
    → (before >> refuse_if bad e) ≡ ok tt
    → (before ≡ ok tt) × (bad ≡ false)
passed (err f) bad e h = cc
passed (ok tt) true e h = cc
passed (ok tt) false e h = (refl, refl)

validate-IsValid :
    (l : IdLayout) → l.uid_base < 2 ^ 32 → l.gid_base < 2 ^ 32 → validate l ≡ ok tt → IsValid l
unfolding validate
validate-IsValid l bu bg h =
    let (h9, c9) = passed _ _ _ h in
    let (h8, c8) = passed _ _ _ h9 in
    let (h7, c7) = passed _ _ _ h8 in
    let (h6, c6) = passed _ _ _ h7 in
    let (h5, c5) = passed _ _ _ h6 in
    let (h4, c4) = passed _ _ _ h5 in
    let (h3, c3) = passed _ _ _ h4 in
    let (h2, c2) = passed _ _ _ h3 in
    let (h1, c1) = passed _ _ _ h2 in
    record {
      admin_served = ground arith;
      alias_served = ground arith;
      gids_served = ground arith;
      gids_below = ground arith;
      uids_differ = ground arith;
      gids_differ = ground arith;
      room = ground arith;
    }

fitting_bound : (o : Option ℕ) (n : ℕ) → fitting o ≡ some n → n < 2 ^ 32
unfolding fitting
fitting_bound none n e = cc
fitting_bound (some k) n e = ground (arith, ltb→lt k (2 ^ 32))

parsed_bound : (raw : Bytes) (n : ℕ) → parsed (parse_uint raw) ≡ ok n → n < 2 ^ 32
unfolding parsed parse_uint
parsed_bound [] n e = cc
parsed_bound (c ∷ cs) n e = elim (Option-cases (fitting (digits_value 0 (c ∷ cs)))) [
  | inl q ↦ absurd (ground arith)
  | inr (k, q) ↦ fitting_bound (digits_value 0 (c ∷ cs)) n (ground arith)
]

-- A variable gives a value of 32 bits.
loaded_bound : (o : Option Bytes) (d n : ℕ) → d < 2 ^ 32 → id_or_default o d ≡ ok n → n < 2 ^ 32
unfolding id_or_default
loaded_bound none d n l e = ground arith
loaded_bound (some raw) d n l e = elim (Bool-cases (bytes_eq raw [])) [
  | inl t ↦ ground arith
  | inr f ↦ parsed_bound raw n (ground arith)
]

-- What distinct accounts may count on: rows `r` and `s` of the clients' or of the groups' table.
pub record IsSeparate (l : IdLayout) (r s : ℕ) : Type 0 where
  pub uids_injective : uid_for l r ≡ uid_for l s → r ≡ s
  pub gids_injective : gid_for l r ≡ gid_for l s → r ≡ s
  pub no_client_is_admin : uid_for l r ≢ l.admin_uid
  pub no_client_is_alias : uid_for l r ≢ l.alias_uid
  pub alias_is_not_admin : l.alias_uid ≢ l.admin_uid
  pub no_group_is_fixed : (gid_for l r ≢ l.admin_group_gid) × (gid_for l r ≢ l.shared_group_gid)
  pub no_group_is_shared : l.admin_group_gid ≢ l.shared_group_gid
  pub no_system_id : (1000 ≤ uid_for l r) × (1000 ≤ gid_for l r)
  pub first_hundred : r ≤ 100 → in_range l (uid_for l r) && in_range l (gid_for l r) ≡ true

fits : (a b m : ℕ) → a ≤ m → b ≤ m → leb a m && leb b m ≡ true
fits a b m h k = ground arith

valid-IsSeparate :
    (l : IdLayout) (r s : ℕ)
    → l.uid_base < 2 ^ 32
    → l.gid_base < 2 ^ 32
    → r < 2 ^ 63
    → s < 2 ^ 63
    → IsValid l
    → IsSeparate l r s
unfolding uid_for gid_for in_range
valid-IsSeparate l r s bu bg hr hs v = record {
  uids_injective = λ e. omega arith;
  gids_injective = λ e. omega arith;
  no_client_is_admin = λ e. omega (arith, v.admin_served.1);
  no_client_is_alias = λ e. omega (arith, v.alias_served.1);
  alias_is_not_admin = v.uids_differ;
  no_group_is_fixed = (λ e. omega (arith, v.gids_below.0), λ e. omega (arith, v.gids_below.1));
  no_group_is_shared = v.gids_differ;
  no_system_id = (
    omega (arith, v.admin_served.0, v.admin_served.1),
    omega (arith, v.gids_served.0, v.gids_below.0),
  );
  first_hundred = λ small.
      fits (uid_for l r) (gid_for l r) l.max_id (omega (arith, v.room.0)) (omega (arith, v.room.1));
}

passes :
    (before : Result LayoutError (Unit {0})) (bad : Bool) (e : LayoutError)
    → before ≡ ok tt
    → bad ≡ false
    → (before >> refuse_if bad e) ≡ ok tt
passes before bad e h c = rw h (rw c refl)

valid_passes :
    (l : IdLayout) → l.uid_base < 2 ^ 32 → l.gid_base < 2 ^ 32 → IsValid l → validate l ≡ ok tt
unfolding validate
valid_passes l bu bg v =
    let (a, b) = v.admin_served in
    let (c, d) = v.alias_served in
    let (e, f) = v.gids_served in
    let (g, h) = v.gids_below in
    let (i, j) = v.room in
    let first : refuse_if (l.max_id == 0) no_max ≡ ok tt = ground arith in
    passes _ _ _
      (passes _ _ _
        (passes _ _ _
          (passes _ _ _
            (passes _ _ _
              (passes _ _ _
                (passes _ _ _ (passes _ _ _ (passes _ _ _ first (ground arith)) (ground arith))
                  (ground arith))
                (ground arith))
              (ground (arith, v.uids_differ)))
            (ground arith))
          (ground (arith, v.gids_differ)))
        (ground arith))
      (ground arith)

-- Validate accepts a layout with bases of 32 bits exactly when: every id is 1000 or more, the two fixed
-- uids are distinct and below all client uids, the two fixed gids are distinct and below all group
-- gids, and a hundred clients and groups fit below the highest id.
pub validate_iff :
    (l : IdLayout) → l.uid_base < 2 ^ 32 → l.gid_base < 2 ^ 32 → (validate l ≡ ok tt) ↔ IsValid l
validate_iff l bu bg = (validate-IsValid l bu bg, valid_passes l bu bg)

valid_cases : (r : Result LayoutError (Unit {0})) → (r ≡ ok tt) ⊎ ((e : LayoutError) × (r ≡ err e))
valid_cases (ok tt) = inl refl
valid_cases (err e) = inr (e, refl)

kept_value : {A : Type 0} (r : Result LayoutError (Unit {0})) (a b : A) → (r >> ok a) ≡ ok b → a ≡ b
kept_value (ok tt) a b e = ground arith
kept_value (err f) a b e = cc

-- A layout that comes back is the one that was validated.
finished :
    (made l : IdLayout)
    → made.uid_base < 2 ^ 32
    → made.gid_base < 2 ^ 32
    → (validate made >> ok made) ≡ ok l
    → (validate l ≡ ok tt) × (l.uid_base < 2 ^ 32) × (l.gid_base < 2 ^ 32)
finished made l bu bg e = elim (valid_cases (validate made)) [
  | inl v ↦
      let same : made ≡ l = kept_value (validate made) made l e in
      subst (λ (k : IdLayout). (validate k ≡ ok tt) × (k.uid_base < 2 ^ 32) × (k.gid_base < 2 ^ 32))
        same (v, bu, bg)
  | inr (f, q) ↦ absurd (ground arith)
]

loaded :
    (lookup : Bytes → Option Bytes) (l : IdLayout)
    → load_id_layout lookup ≡ ok l
    → (validate l ≡ ok tt) × (l.uid_base < 2 ^ 32) × (l.gid_base < 2 ^ 32)
unfolding load_id_layout
loaded lookup l e =
    let (a0, q0, e0) = parts_ok (id_or_default (lookup (codes "PROXPASS_MAX_ID")) 65535) _ e in
    let (a1, q1, e1) = parts_ok (id_or_default (lookup (codes "PROXPASS_ADMIN_UID")) 19999) _ e0 in
    let (a2, q2, e2) = parts_ok (id_or_default (lookup (codes "PROXPASS_ALIAS_UID")) 19998) _ e1 in
    let (a3, q3, e3) = parts_ok (id_or_default (lookup (codes "PROXPASS_ADMIN_GID")) 19001) _ e2 in
    let (a4, q4, e4) = parts_ok (id_or_default (lookup (codes "PROXPASS_GID")) 19000) _ e3 in
    let (a5, q5, e5) = parts_ok (id_or_default (lookup (codes "PROXPASS_UID_BASE")) 20000) _ e4 in
    let (a6, q6, e6) = parts_ok (id_or_default (lookup (codes "PROXPASS_GID_BASE")) 40000) _ e5 in
    finished _ l (loaded_bound (lookup (codes "PROXPASS_UID_BASE")) 20000 a5 (omega arith) q5)
      (loaded_bound (lookup (codes "PROXPASS_GID_BASE")) 40000 a6 (omega arith) q6) e6

-- Under a layout that LoadIDLayout accepts, for any two database ids: distinct clients get distinct
-- uids and distinct groups distinct gids; none is the administrator's, an alias's or a fixed group's,
-- nor in the system range; and ids up to 100 are within the highest id.
pub load_id_layout-IsSeparate :
    (lookup : Bytes → Option Bytes) (l : IdLayout) (r s : ℕ)
    → load_id_layout lookup ≡ ok l
    → r < 2 ^ 63
    → s < 2 ^ 63
    → IsSeparate l r s
load_id_layout-IsSeparate lookup l r s e hr hs =
    let (v, bu, bg) = loaded lookup l e in
    valid-IsSeparate l r s bu bg hr hs (validate-IsValid l bu bg v)

-- No client's uid is below the base.
pub client_uid_high :
    (lookup : Bytes → Option Bytes) (l : IdLayout) (r : ℕ)
    → load_id_layout lookup ≡ ok l
    → r < 2 ^ 63
    → l.uid_base ≤ uid_for l r
unfolding uid_for
client_uid_high lookup l r e hr = let (v, bu, bg) = loaded lookup l e in omega arith
