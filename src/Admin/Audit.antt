-- ===== src/Admin/Audit.antt =====
-- Every request that changes something is recorded under its caller's name, or refused.
use proxpass.Base.{
  ℕ, Bytes, Bool, true, false, Option, none, some, List, [], ◌∷◌, ◌++◌, ◌≡◌, refl, ap, ◌∙◌, inl,
  inr, Option-cases, ◌≢◌, ok,
}
use mathlib.Core.Path.{subst}
use proxpass.Models.{SessionIdentity, Param, ActivityEvent}
use proxpass.Db.State.{Tables, Statement, insert_event}
use proxpass.Db.Guests.{exec}
use proxpass.Db.Tokens.{lookup_api_session}
use proxpass.Db.Activity.{add_activity_event}
use proxpass.Session.{caller_identity}
use proxpass.Admin.{
  Handler, Circumstances, Reply, actor_of, activity_enabled, record_event, actor_name, record_admin,
  recorded,
}
use proxpass.Admin.Wire.{Body}
use proxpass.Admin.Quiet.{IsQuiet}
use proxpass.Admin.Ends.{IsAnswered, event_of, IsRevocation, LeftBy, WriteEnd, refused, written}
use proxpass.Admin.Ends.Handlers.{EndsBy, ends_by}
use proxpass.Admin.Requests
use proxpass.Admin.Requests.{AdminRequest, handle}

named_actor :
    (who : SessionIdentity) (name : Bytes)
    → who.identity_name ≡ name
    → name ≢ []
    → actor_of (ok who) ≡ name
unfolding actor_of
named_actor who [] e n = absurd (n refl)
named_actor who (x ∷ xs) e n = rw e refl

module _ (h : Handler) (c : Circumstances) where
  same_caller :
      (bearer : Option Bytes) (down : Statement → Bool) (now : ℕ) (a b : Tables)
      → a.api_sessions ≡ b.api_sessions
      → caller_identity h.hash_token h.rest_hash down a bearer now
        ≡ caller_identity h.hash_token h.rest_hash down b bearer now
  unfolding caller_identity lookup_api_session
  same_caller none down now a b e = refl
  same_caller (some token) down now a b e =
      ap
        (λ s.
          caller_identity h.hash_token h.rest_hash down (record b { api_sessions = s }) (some token)
            now)
        e

  same_actor :
      (a b : Tables) → a.api_sessions ≡ b.api_sessions → actor_name h c a ≡ actor_name h c b
  unfolding actor_name
  same_actor a b e = ap actor_of (same_caller c.bearer c.late_down c.asked_at a b e)

  -- The row that is written for an event of someone.
  abbrev pub row_of : Tables → Bytes → Bytes → List (Bytes × Param) → ActivityEvent
  row_of db event actor params = record {
    id = db.next_event_id;
    event_id = event;
    actor = actor;
    occurred_at = c.recorded_at;
    params = params;
  }

  record_log :
      (event actor : Bytes) (params : List (Bytes × Param)) (d : Tables)
      → activity_enabled h c ≡ true
      → c.late_down (insert_event event) ≡ false
      → (record_event h c event actor params d).activity_log
        ≡ d.activity_log
          ++ record {
            id = d.next_event_id;
            event_id = event;
            actor = actor;
            occurred_at = c.recorded_at;
            params = params;
          }
            ∷ []
  unfolding record_event add_activity_event exec
  record_log event actor params d on up = rw (on, up, record_event, add_activity_event, exec) refl

  written_log :
      (db stored : Tables) (event : Bytes) (body : Body) (params : List (Bytes × Param))
      → IsQuiet db stored
      → activity_enabled h c ≡ true
      → c.late_down (insert_event event) ≡ false
      → (recorded h c body event params stored).1.activity_log
        ≡ db.activity_log ++ row_of db event (actor_name h c db) params ∷ []
  unfolding recorded record_admin
  written_log db stored event body params (l, s, n) on up =
      record_log event (actor_name h c stored) params stored on up
      ∙ ap
          (λ x.
            x
            ++ record {
              id = stored.next_event_id;
              event_id = event;
              actor = actor_name h c stored;
              occurred_at = c.recorded_at;
              params = params;
            }
              ∷ [])
          l
      ∙ ap
          (λ x.
            db.activity_log
            ++ record {
              id = x;
              event_id = event;
              actor = actor_name h c stored;
              occurred_at = c.recorded_at;
              params = params;
            }
              ∷ [])
          n
      ∙ ap
          (λ x.
            db.activity_log
            ++ record {
              id = db.next_event_id;
              event_id = event;
              actor = x;
              occurred_at = c.recorded_at;
              params = params;
            }
              ∷ [])
          (same_actor stored db s)

  log_of :
      (db : Tables) (event : Bytes) (Left : Tables → Type 0) (out : Reply × Tables)
      → WriteEnd h c db event Left out
      → IsAnswered out.0
      → activity_enabled h c ≡ true
      → c.late_down (insert_event event) ≡ false
      → (params : List (Bytes × Param)) × (out.1.activity_log
          ≡ db.activity_log ++ row_of db event (actor_name h c db) params ∷ [])
  log_of db event Left out (refused r d n l) a on up = absurd (n a)
  log_of db event Left out (written stored body params q) a on up =
      (params, written_log db stored event body params q on up)

  known_actor :
      (db : Tables) (who : SessionIdentity)
      → caller_identity h.hash_token h.rest_hash c.late_down db c.bearer c.asked_at ≡ ok who
      → who.identity_name ≢ []
      → actor_name h c db ≡ who.identity_name
  unfolding actor_name actor_of
  known_actor db who e n = rw e (named_actor who who.identity_name refl n)

  -- With the log enabled, a request that changes something and is answered with success has added one
  -- event to the log, of its kind, at its time and with the name of the identity that the request's
  -- credential stands for when it is looked up for the log, if that lookup gives one with a name and
  -- the insert does not fail.
  pub handle-audited :
      (db : Tables) (r : AdminRequest) (event : Bytes) (who : SessionIdentity)
      → event_of r ≡ some event
      → IsAnswered (handle h c db r).0
      → activity_enabled h c ≡ true
      → caller_identity h.hash_token h.rest_hash c.late_down db c.bearer c.asked_at ≡ ok who
      → who.identity_name ≢ []
      → c.late_down (insert_event event) ≡ false
      → (params : List (Bytes × Param)) × ((handle h c db r).1.activity_log
          ≡ db.activity_log ++ row_of db event who.identity_name params ∷ [])
  handle-audited db r event who e a on known named up =
      let (params, added) =
        log_of db event (LeftBy db r) (handle h c db r)
          (subst (λ o. EndsBy h c db o r) e (ends_by h c db r)) a on up in
      (
        params,
        added
            ∙ ap (λ x. db.activity_log ++ row_of db event x params ∷ [])
                (known_actor db who known named),
      )

  left_of :
      (db : Tables) (r : AdminRequest) (d : Tables) → ¬ IsRevocation r → LeftBy db r d → d ≡ db
  left_of db (Requests.revoke_request body) d n l = absurd (n tt)
  left_of db (Requests.revoke_instance_request body) d n l = absurd (n tt)
  left_of db r d n l = l

  refused_left :
      (db : Tables) (event : Bytes) (Left : Tables → Type 0) (out : Reply × Tables)
      → WriteEnd h c db event Left out
      → ¬ IsAnswered out.0
      → Left out.1
  unfolding recorded
  refused_left db event Left out (refused r d n l) a = l
  refused_left db event Left out (written stored body params q) a = absurd (a tt)

  -- A request other than a revocation that is not answered with success, whatever was wrong with it or
  -- failed in it, has changed no table.
  pub handle-refused :
      (db : Tables) (r : AdminRequest)
      → ¬ IsRevocation r
      → ¬ IsAnswered (handle h c db r).0
      → (handle h c db r).1 ≡ db
  handle-refused db r n a = elim (Option-cases (event_of r)) [
    | inl e ↦ subst (λ o. EndsBy h c db o r) e (ends_by h c db r)
    | inr (event, e) ↦ left_of db r (handle h c db r).1 n (
        refused_left db event (LeftBy db r) (handle h c db r)
          (subst (λ o. EndsBy h c db o r) e (ends_by h c db r)) a)
  ]
