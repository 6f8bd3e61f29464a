-- ===== src/Admin/Reports.antt =====
-- internal/api/activity.go: what a session reports of itself.
use proxpass.Base.{
  ℕ, ◌+◌, ◌≤◌, Bytes, codes, bytes_eq, Bool, true, false, Option, none, some, List, [], ◌∷◌, ◌++◌,
  Result, ok, err, ltb, if◌then◌else◌, length, take, length-append, length-take, All, All-append,
  ◌≡◌, refl, ◌⊎◌, inl, inr, Bool-cases, Option-cases, arith,
}
use native.Mathlib.Nat.{min-le_left}
use proxpass.Models.{Param, text, ActivityEvent, SessionIdentity}
use proxpass.Db.State.{Tables, insert_event}
use proxpass.Db.Guests.{exec}
use proxpass.Db.Activity.{add_activity_event}
use proxpass.Session.{CallerError, Reason, auth_failure_reason}
use proxpass.Admin.{
  Handler, Circumstances, Reply, answered, unauthorized, failed, caller, activity_enabled,
  record_event,
}
use proxpass.Admin.Wire.{no_content}
use proxpass.Admin.Keys.{ellipsis}

-- SessionActivityReport
pub record ActivityReport : Type 0 where
  pub kind : Bytes
  pub command : Option Bytes
  pub host : Option Bytes
  pub guest : Option Bytes

abbrev pub max_activity_command : ℕ
max_activity_command = 4096

unfoldable pub bounded_command : Bytes → Bytes
bounded_command cmd =
    if ltb max_activity_command (length cmd) then take max_activity_command cmd ++ ellipsis else cmd

unfoldable pub session_event_id : Bytes → Option Bytes
session_event_id kind =
    if bytes_eq kind (codes "console")
    then some (codes "session.console.opened")
    else if bytes_eq kind (codes "command")
    then some (codes "session.command.run")
    else if bytes_eq kind (codes "sftp")
    then some (codes "session.sftp.opened")
    else none

-- The command of a command report.
unfoldable pub command_param : Bool → Option Bytes → List (Bytes × Param)
command_param true (some cmd) = (codes "command", text (bounded_command cmd)) ∷ []
command_param _ _ = []

-- A parameter that is given and not empty.
unfoldable pub given_param : Bytes → Option Bytes → List (Bytes × Param)
given_param key none = []
given_param key (some []) = []
given_param key (some (c ∷ cs)) = (key, text (c ∷ cs)) ∷ []

unfoldable pub report_params : ActivityReport → List (Bytes × Param)
report_params r =
    command_param (bytes_eq r.kind (codes "command")) r.command
    ++ (given_param (codes "host") r.host ++ given_param (codes "guest") r.guest)

unfoldable pub failed_report : Option Reason → Tables → Reply × Tables
failed_report none db = (failed, db)
failed_report (some reason) db = (unauthorized reason, db)

module _ (h : Handler) (c : Circumstances) where
  -- An unknown kind is ignored.
  unfoldable pub record_report :
      SessionIdentity → ActivityReport → Option Bytes → Tables → Reply × Tables
  record_report who r none db = (answered no_content, db)
  record_report who r (some event) db =
      (answered no_content, record_event h c event who.identity_name (report_params r) db)

  unfoldable pub reported :
      Result CallerError SessionIdentity → Option ActivityReport → Tables → Reply × Tables
  reported (err e) body db = failed_report (auth_failure_reason e) db
  reported (ok who) none db = (answered no_content, db)
  reported (ok who) (some r) db = record_report who r (session_event_id r.kind) db

  unfoldable pub report_session_activity : Tables → Option ActivityReport → Reply × Tables
  report_session_activity db body = reported (caller h c db) body db

-- A command that is stored has at most 4096 bytes and the three of the ellipsis.
abbrev pub IsBounded : Bytes × Param → Type 0
IsBounded (key, text v) = key ≡ codes "command" → length v ≤ max_activity_command + 3
IsBounded (key, _) = ⊥

cut_fits :
    (n : ℕ) (cmd : Bytes)
    → length (if ltb n (length cmd) then take n cmd ++ ellipsis else cmd) ≤ n + 3
cut_fits n cmd = elim (Bool-cases (ltb n (length cmd))) [
  | inl e ↦ rw e (
      omega
        (arith, length-append (take n cmd) ellipsis, length-take n cmd, min-le_left n (length cmd)))
  | inr e ↦ rw e (ground arith)
]

bounded_fits : (cmd : Bytes) → length (bounded_command cmd) ≤ max_activity_command + 3
unfolding bounded_command
bounded_fits cmd = cut_fits max_activity_command cmd

command-IsBounded : (b : Bool) (cmd : Option Bytes) → All IsBounded (command_param b cmd)
unfolding command_param
command-IsBounded true (some cmd) = (λ e. bounded_fits cmd, tt)
command-IsBounded true none = tt
command-IsBounded false cmd = tt

given-IsBounded :
    (key : Bytes) (v : Option Bytes) → ¬ (key ≡ codes "command") → All IsBounded (given_param key v)
unfolding given_param
given-IsBounded key none n = tt
given-IsBounded key (some []) n = tt
given-IsBounded key (some (c ∷ cs)) n = (λ e. absurd (n e), tt)

params-IsBounded : (r : ActivityReport) → All IsBounded (report_params r)
unfolding report_params
params-IsBounded r =
    All-append IsBounded (command_param (bytes_eq r.kind (codes "command")) r.command) _
      (command-IsBounded _ r.command)
      (All-append IsBounded (given_param (codes "host") r.host) _
        (given-IsBounded _ r.host (λ e. cc)) (given-IsBounded _ r.guest (λ e. cc)))

-- What a report may do.
abbrev pub Logged : Tables → Result CallerError SessionIdentity → Tables → Type 0
Logged db caller d =
    (d ≡ db)
    ⊎ ((who : SessionIdentity) × ((e : ActivityEvent) × (caller ≡ ok who)
          × (d.activity_log ≡ db.activity_log ++ e ∷ [])
          × (e.actor ≡ who.identity_name)
          × All IsBounded e.params))

module _ (h : Handler) (c : Circumstances) where
  event_log :
      (db : Tables) (who : SessionIdentity) (r : ActivityReport) (event : Bytes)
      → Logged db (ok who) (record_event h c event who.identity_name (report_params r) db)
  unfolding record_event add_activity_event exec
  event_log db who r event = elim (Bool-cases (activity_enabled h c)) [
    | inl e ↦ elim (Bool-cases (c.late_down (insert_event event))) [
      | inl f ↦ inl (rw (e, f, record_event, add_activity_event, exec) refl)
      | inr f ↦ inr (
        who,
        (
          record {
            id = db.next_event_id;
            event_id = event;
            actor = who.identity_name;
            occurred_at = c.recorded_at;
            params = report_params r;
          },
          refl,
          rw (e, f, record_event, add_activity_event, exec) refl,
          refl,
          params-IsBounded r,
        ),
      )
    ]
    | inr e ↦ inl (rw (e, record_event) refl)
  ]

  report_log :
      (db : Tables) (who : SessionIdentity) (r : ActivityReport) (event : Option Bytes)
      → Logged db (ok who) (record_report h c who r event db).1
  unfolding record_report
  report_log db who r none = inl refl
  report_log db who r (some event) = event_log db who r event

  failure_log :
      (db : Tables) (e : CallerError) (body : Option ActivityReport)
      → (reported h c (err e) body db).1 ≡ db
  unfolding reported failed_report
  failure_log db e body = elim (Option-cases (auth_failure_reason e)) [
    | inl q ↦ rw (q, failed_report) refl
    | inr (r, q) ↦ rw (q, failed_report) refl
  ]

  reported_log :
      (db : Tables) (caller : Result CallerError SessionIdentity) (body : Option ActivityReport)
      → Logged db caller (reported h c caller body db).1
  unfolding reported
  reported_log db (err e) body = inl (failure_log db e body)
  reported_log db (ok who) none = inl refl
  reported_log db (ok who) (some r) = report_log db who r (session_event_id r.kind)

  -- A report changes no table, or adds one event to the log, under the name of the identity that the
  -- caller's credential stands for and with a command of at most 4099 bytes.
  pub report_session_activity-Logged :
      (db : Tables) (body : Option ActivityReport)
      → Logged db (caller h c db) (report_session_activity h c db body).1
  unfolding report_session_activity
  report_session_activity-Logged db body = reported_log db (caller h c db) body
