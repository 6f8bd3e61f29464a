-- ===== src/Db/Tokens.antt =====
-- internal/db/sql_repository.go: the two token tables. A minted session token is redeemed once; an API
-- session is looked up until it expires or is revoked. Times are Unix seconds. The rows of a table have
-- no order that the statements can see, so a new row stands first.
pub mod Rows
pub mod Lifecycle
pub mod Sessions
pub mod Tests
use proxpass.Base.{
  ℕ, Bytes, bytes_eq, Bool, true, false, not, ◌&&◌, ◌||◌, Option, none, some, List, [], ◌∷◌, Result,
  ok, err, ltb, if◌then◌else◌, any, find, filter,
}
use proxpass.Models.{SessionIdentity}
use proxpass.Db.State.{
  Tables, TokenRow, DbError, storage, no_such_token, Statement, sweep_tokens, insert_token,
  redeem_token, sweep_sessions, insert_session, select_session, delete_session, run,
}

-- `token_hash = ?`
unfoldable pub has_hash : Bytes → TokenRow → Bool
has_hash h r = bytes_eq r.token_hash h

-- `expires_at > ?`
unfoldable pub is_unexpired : ℕ → TokenRow → Bool
is_unexpired now r = ltb now r.expires_at

-- `token_hash = ? AND expires_at > ?`
unfoldable pub is_live : Bytes → ℕ → TokenRow → Bool
is_live h now r = has_hash h r && is_unexpired now r

unfoldable pub scan_identity : Option TokenRow → Result DbError SessionIdentity
scan_identity none = err no_such_token
scan_identity (some r) = ok r.identity

-- The INSERT, which the primary key refuses when the hash is there already.
unfoldable pub insert_row :
    Bool → TokenRow → List TokenRow → Result DbError (Unit {0}) × List TokenRow
insert_row fails row rows =
    if fails || any (has_hash row.token_hash) rows then (err storage, rows) else (ok tt, row ∷ rows)

-- insertToken on one table: the sweep stays done when the INSERT fails, there is no transaction.
unfoldable pub insert_swept :
    Bool → Bool → TokenRow → ℕ → List TokenRow → Result DbError (Unit {0}) × List TokenRow
insert_swept sweep_fails insert_fails row now rows =
    if sweep_fails
    then (err storage, rows)
    else insert_row insert_fails row (filter (is_unexpired now) rows)

unfoldable pub token_row : Bytes → SessionIdentity → ℕ → TokenRow
token_row h who expires = record { token_hash = h; identity = who; expires_at = expires }

module _ (down : Statement → Bool) where
  unfoldable pub mint_session_token :
      Tables → Bytes → SessionIdentity → ℕ → ℕ → Result DbError (Unit {0}) × Tables
  mint_session_token db h who now expires =
      let done =
        insert_swept (down sweep_tokens) (down insert_token) (token_row h who expires) now
          db.session_tokens in
      (done.0, record db { session_tokens = done.1 })

  -- `DELETE ... RETURNING`: one statement reads the row and drops it.
  unfoldable pub redeem_session_token : Tables → Bytes → ℕ → Result DbError SessionIdentity × Tables
  redeem_session_token db h now = if down redeem_token then (err storage, db) else (
    scan_identity (find (is_live h now) db.session_tokens),
    record db { session_tokens = filter (λ r. not (is_live h now r)) db.session_tokens },
  )

  unfoldable pub create_api_session :
      Tables → Bytes → SessionIdentity → ℕ → ℕ → Result DbError (Unit {0}) × Tables
  create_api_session db h who now expires =
      let done =
        insert_swept (down sweep_sessions) (down insert_session) (token_row h who expires) now
          db.api_sessions in
      (done.0, record db { api_sessions = done.1 })

  unfoldable pub lookup_api_session : Tables → Bytes → ℕ → Result DbError SessionIdentity
  lookup_api_session db h now =
      if down select_session
      then err storage
      else scan_identity (find (is_live h now) db.api_sessions)

  unfoldable pub revoke_api_session : Tables → Bytes → Result DbError (Unit {0}) × Tables
  revoke_api_session db h =
      if down delete_session
      then (err storage, db)
      else (ok tt, record db { api_sessions = filter (λ r. not (has_hash h r)) db.api_sessions })
