-- ===== src/Admin.antt =====
-- internal/api/adminhandlers.go and activity.go: what every administrative request goes through, from
-- the caller's authority to the activity log. A request that needs a body has `none` for a missing one.
pub mod Wire
pub mod Clients
pub mod Groups
pub mod Instances
pub mod Rules
pub mod Keys
pub mod Requests
pub mod Outcome
pub mod Changes
pub mod Gate
pub mod Protected
pub mod Names
pub mod Log
pub mod Atomic
pub mod Quiet
pub mod Ends
pub mod Audit
pub mod Effects
pub mod Clashes
pub mod Settings
pub mod Reports
pub mod Pruner
pub mod Tests
mod ActivityTests
use proxpass.Base.{
  ℕ, Bytes, codes, Bool, true, false, Option, none, some, List, [], ◌∷◌, Result, ok, err, ltb,
  if◌then◌else◌,
}
use proxpass.Models.{ProxmoxInstance, Guest, SessionIdentity, Param, ActivityEvent}
use proxpass.Db.State.{Tables, DbError, no_such_token, unique_violation, already_exists, Statement}
use proxpass.Db.Activity.{add_activity_event}
use proxpass.Session.{
  CallerError, no_credential, repository, Reason, missing_token, invalid_token, caller_identity,
}
use proxpass.Admin.Wire.{Body}

-- A SessionHandler's fields. `lower` is strings.ToLower, `trim` strings.TrimSpace, `fields`
-- strings.Fields. `says_unique` is whether the driver reports a duplicate key with the words "UNIQUE
-- constraint failed", which SQLite's does and PostgreSQL's does not. The checker is `true` for a node
-- that supports termproxy, and a discovery gives `none` when it fails. The retention is in
-- nanoseconds, 0 for none.
pub record Handler : Type 0 where
  pub hash_token : Bytes → Bytes
  pub rest_hash : Bytes
  pub lower : Bytes → Bytes
  pub trim : Bytes → Bytes
  pub fields : Bytes → List Bytes
  pub says_unique : Bool
  pub protected_admin_key : Bytes
  pub activity_retention : ℕ
  pub version : Bytes
  pub term_proxy_checker : Option (ProxmoxInstance → Bool)
  pub discoverer : Option (ProxmoxInstance → Option (List Guest))

-- What one request meets: its bearer token, the clock and the statements that fail while it is
-- handled, the same again while it is recorded, and the rounds before which a discovery's time is up.
pub record Circumstances : Type 0 where
  pub bearer : Option Bytes
  pub now : ℕ
  pub down : Statement → Bool
  pub asked_at : ℕ
  pub recorded_at : ℕ
  pub late_down : Statement → Bool
  pub canceled_at : ℕ → Bool

-- 200, 201 or 204 with a body, 401, 403, 400, 404, 409, or an error that becomes a 500.
pub data Reply : Type 0 where
  answered : Body → Reply
  unauthorized : Reason → Reply
  forbidden : Reply
  bad_request not_found : Bytes → Reply
  conflict failed : Reply

abbrev pub missing_body : Bytes
missing_body = codes "request body is required"

unfoldable pub gate_admin : Result CallerError SessionIdentity → Option Reply
gate_admin (err no_credential) = some (unauthorized missing_token)
gate_admin (err (repository no_such_token)) = some (unauthorized invalid_token)
gate_admin (err (repository _)) = some failed
gate_admin (ok who) = if who.is_admin then none else some forbidden

unfoldable pub denied_or : Option Reply → Tables → Reply × Tables → Reply × Tables
denied_or (some denied) db done = (denied, db)
denied_or none db done = done

unfoldable pub with_body {ℓ} :
    {B : Type ℓ} → Option B → Tables → (B → Reply × Tables) → Reply × Tables
with_body none db work = (bad_request missing_body, db)
with_body (some body) db work = work body

-- The row that was looked for, or a 404 with the text.
unfoldable pub with_row {ℓ} :
    {R : Type ℓ}
    → Bytes
    → Result DbError (Option R)
    → Tables
    → (R → Reply × Tables)
    → Reply × Tables
with_row missing (err e) db work = (failed, db)
with_row missing (ok none) db work = (not_found missing, db)
with_row missing (ok (some row)) db work = work row

unfoldable pub is_conflict : Bool → DbError → Bool
is_conflict says_unique already_exists = true
is_conflict says_unique unique_violation = says_unique
is_conflict says_unique _ = false

-- What follows a call of the repository that changes tables; an error is a 500.
unfoldable pub if_done {ℓ} :
    {A : Type ℓ} → Result DbError A × Tables → (A → Tables → Reply × Tables) → Reply × Tables
if_done (err e, db) next = (failed, db)
if_done (ok a, db) next = next a db

-- The same where a uniqueness clash is a 409.
unfoldable pub if_no_clash {ℓ} :
    {A : Type ℓ} → Bool → Result DbError A × Tables → (A → Tables → Reply × Tables) → Reply × Tables
if_no_clash says_unique (err e, db) next =
    (if is_conflict says_unique e then conflict else failed, db)
if_no_clash says_unique (ok a, db) next = next a db

unfoldable pub actor_of : Result CallerError SessionIdentity → Bytes
actor_of (err e) = codes "unknown"
actor_of (ok who) = elim who.identity_name [ [] ↦ codes "unknown" | c ∷ cs ↦ c ∷ cs ]

module _ (h : Handler) (c : Circumstances) where
  unfoldable pub caller : Tables → Result CallerError SessionIdentity
  caller db = caller_identity h.hash_token h.rest_hash c.down db c.bearer c.now

  unfoldable pub as_admin : Tables → Reply × Tables → Reply × Tables
  as_admin db done = denied_or (gate_admin (caller db)) db done

  unfoldable pub activity_enabled : Bool
  activity_enabled = ltb 0 h.activity_retention

  -- A failed write is logged and swallowed.
  unfoldable pub record_event : Bytes → Bytes → List (Bytes × Param) → Tables → Tables
  record_event event actor params db =
      if activity_enabled
      then (add_activity_event c.late_down db (record {
        id = 0;
        event_id = event;
        actor = actor;
        occurred_at = c.recorded_at;
        params = params;
      })).1
      else db

  -- The caller is looked up again for its name.
  unfoldable pub actor_name : Tables → Bytes
  actor_name db =
      actor_of (caller_identity h.hash_token h.rest_hash c.late_down db c.bearer c.asked_at)

  unfoldable pub record_admin : Bytes → List (Bytes × Param) → Tables → Tables
  record_admin event params db = record_event event (actor_name db) params db

  -- The end of a handler that changed something: it is recorded, and answered.
  unfoldable pub recorded : Body → Bytes → List (Bytes × Param) → Tables → Reply × Tables
  recorded body event params db = (answered body, record_admin event params db)
