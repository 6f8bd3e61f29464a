-- ===== src/Db/Activity.antt =====
-- internal/db/sql_repository.go: the activity log.
use proxpass.Base.{
  ℕ, ◌+◌, ◌-◌, Bool, not, [], ◌∷◌, ◌++◌, Result, ok, err, ltb, if◌then◌else◌, filter, length,
}
use proxpass.Models.{ActivityEvent}
use proxpass.Db.State.{Tables, DbError, storage, Statement, insert_event, delete_events}
use proxpass.Db.Guests.{exec}

module _ (down : Statement → Bool) (db : Tables) where
  unfoldable pub add_activity_event : ActivityEvent → Result DbError (Unit {0}) × Tables
  add_activity_event event = exec down (insert_event event.event_id) db (record db {
    activity_log = db.activity_log ++ record event { id = db.next_event_id } ∷ [];
    next_event_id = db.next_event_id + 1;
  })

  -- The count is of the rows that the DELETE names.
  unfoldable pub delete_activity_older_than : ℕ → Result DbError ℕ × Tables
  delete_activity_older_than cutoff =
      let kept = filter (λ e. not (ltb e.occurred_at cutoff)) db.activity_log in
      if down (delete_events cutoff)
      then (err storage, db)
      else (ok (length db.activity_log - length kept), record db { activity_log = kept })
