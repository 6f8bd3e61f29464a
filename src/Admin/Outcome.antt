-- ===== src/Admin/Outcome.antt =====
-- What holds of every way in which the parts of a handler end.
use proxpass.Base.{
  Bytes, Bool, true, Option, none, some, Result, ok, err, ◌≡◌, refl, ◌⊎◌, inl, inr, Bool-cases,
}
use proxpass.Models.{ProxmoxInstance, RuleType, SessionIdentity}
use proxpass.Db.State.{
  Tables, DbError, storage, no_rows, no_such_token, unique_violation, already_exists,
}
use proxpass.Session.{CallerError, no_credential, repository}
use proxpass.Admin.{
  Handler, Circumstances, Reply, unauthorized, forbidden, bad_request, not_found, conflict, failed,
  missing_body, gate_admin, denied_or, with_body, with_row, is_conflict, if_done, if_no_clash,
  caller, as_admin,
}
use proxpass.Admin.Instances.{is_supported, if_supported, no_term_proxy}
use proxpass.Admin.Rules.{with_subject, unknown_subject}

-- A reply to one who is not the administrator.
abbrev pub IsDenial : Reply → Type 0
IsDenial (unauthorized r) = Unit
IsDenial forbidden = Unit
IsDenial failed = Unit
IsDenial _ = ⊥

-- The caller is known, and is the administrator.
abbrev pub IsAdminCaller : Result CallerError SessionIdentity → Type 0
IsAdminCaller (err e) = ⊥
IsAdminCaller (ok who) = who.is_admin ≡ true

-- The gate is open for the administrator and nobody else.
pub gate_admin-cases :
    (r : Result CallerError SessionIdentity)
    → (IsAdminCaller r × (gate_admin r ≡ none))
      ⊎ ((¬ IsAdminCaller r) × ((d : Reply) × IsDenial d × (gate_admin r ≡ some d)))
unfolding gate_admin
gate_admin-cases (err no_credential) = inr (λ q. q, (_, tt, refl))
gate_admin-cases (err (repository no_such_token)) = inr (λ q. q, (_, tt, refl))
gate_admin-cases (err (repository no_rows)) = inr (λ q. q, (_, tt, refl))
gate_admin-cases (err (repository storage)) = inr (λ q. q, (_, tt, refl))
gate_admin-cases (err (repository unique_violation)) = inr (λ q. q, (_, tt, refl))
gate_admin-cases (err (repository already_exists)) = inr (λ q. q, (_, tt, refl))
gate_admin-cases (ok who) = elim (Bool-cases who.is_admin) [
  | inl e ↦ inl (e, rw e refl)
  | inr e ↦ inr (λ q. cc, (forbidden, tt, rw e refl))
]

pub as_admin-allowed :
    (h : Handler) (c : Circumstances) (db : Tables) (done : Reply × Tables)
    → IsAdminCaller (caller h c db)
    → as_admin h c db done ≡ done
unfolding as_admin denied_or
as_admin-allowed h c db done a = elim (gate_admin-cases (caller h c db)) [
  | inl (q, e) ↦ rw (e, as_admin, denied_or) refl
  | inr (n, q) ↦ absurd (n a)
]

module _ {ℓ} (Q : Reply × Tables → Type ℓ) (db : Tables) where
  pub as_admin_ends :
      (h : Handler) (c : Circumstances) (done : Reply × Tables)
      → ((d : Reply) → IsDenial d → Q (d, db))
      → Q done
      → Q (as_admin h c db done)
  unfolding as_admin denied_or
  as_admin_ends h c done denied q = elim (gate_admin-cases (caller h c db)) [
    | inl (a, e) ↦ rw (e, as_admin, denied_or) q
    | inr (n, (d, p, e)) ↦ rw (e, as_admin, denied_or) (denied d p)
  ]

  pub with_body_ends :
      {B : Type 0} (body : Option B) (work : B → Reply × Tables)
      → Q (bad_request missing_body, db)
      → ((b : B) → Q (work b))
      → Q (with_body body db work)
  unfolding with_body
  with_body_ends none work m q = m
  with_body_ends (some b) work m q = q b

  pub with_row_ends :
      {R : Type 0} (missing : Bytes) (found : Result DbError (Option R)) (work : R → Reply × Tables)
      → Q (failed, db)
      → Q (not_found missing, db)
      → ((r : R) → Q (work r))
      → Q (with_row missing found db work)
  unfolding with_row
  with_row_ends missing (err e) work f m q = f
  with_row_ends missing (ok none) work f m q = m
  with_row_ends missing (ok (some r)) work f m q = q r

  pub if_supported_ends :
      (checker : Option (ProxmoxInstance → Bool)) (inst : ProxmoxInstance) (done : Reply × Tables)
      → Q (bad_request no_term_proxy, db)
      → Q done
      → Q (if_supported checker inst db done)
  unfolding if_supported
  if_supported_ends checker inst done n q = elim (Bool-cases (is_supported checker inst)) [
    | inl e ↦ rw (e, if_supported) q
    | inr e ↦ rw (e, if_supported) n
  ]

  pub with_subject_ends :
      (kind : Option RuleType) (work : RuleType → Reply × Tables)
      → Q (bad_request unknown_subject, db)
      → ((k : RuleType) → Q (work k))
      → Q (with_subject kind db work)
  unfolding with_subject
  with_subject_ends none work u q = u
  with_subject_ends (some k) work u q = q k

module _ {ℓ} (Q : Reply × Tables → Type ℓ) {A : Type 0} where
  pub if_done_ends :
      (done : Result DbError A × Tables) (next : A → Tables → Reply × Tables)
      → ((e : DbError) → done.0 ≡ err e → Q (failed, done.1))
      → ((a : A) → done.0 ≡ ok a → Q (next a done.1))
      → Q (if_done done next)
  unfolding if_done
  if_done_ends (err e, db) next f q = f e refl
  if_done_ends (ok a, db) next f q = q a refl

  pub if_no_clash_ends :
      (u : Bool) (done : Result DbError A × Tables) (next : A → Tables → Reply × Tables)
      → ((e : DbError) → done.0 ≡ err e → Q (failed, done.1))
      → ((e : DbError) → done.0 ≡ err e → Q (conflict, done.1))
      → ((a : A) → done.0 ≡ ok a → Q (next a done.1))
      → Q (if_no_clash u done next)
  unfolding if_no_clash
  if_no_clash_ends u (err e, db) next f c q = elim (Bool-cases (is_conflict u e)) [
    | inl k ↦ rw k (c e refl)
    | inr k ↦ rw k (f e refl)
  ]
  if_no_clash_ends u (ok a, db) next f c q = q a refl
