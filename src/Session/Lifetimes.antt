-- ===== src/Session/Lifetimes.antt =====
-- How long a credential identifies its holder, and that a login leads to one.
use mathlib.Core.Path.{subst}
use proxpass.Base.{
  ℕ, ◌+◌, Bytes, bytes_eq, Bool, false, Option, some, List, Result, ok, err, All, ◌≡◌, refl, sym,
  ap, ◌∙◌, arith, Bool-cases, inl, inr, ◌<◌,
}
use proxpass.Models.{SessionIdentity}
use proxpass.Db.State.{
  Tables, DbError, storage, no_rows, no_such_token, unique_violation, already_exists, Statement,
  select_session, redeem_token, sweep_sessions, insert_session,
}
use proxpass.Db.Tokens.{
  mint_session_token, redeem_session_token, create_api_session, lookup_api_session,
  revoke_api_session,
}
use proxpass.Db.Tokens.Lifecycle.{after_calls, minted_redeems}
use proxpass.Db.Tokens.Sessions.{IsKeeping, created_looks_up, revoked_unknown}
use proxpass.Session.{
  answered, SessionCredential, WireIdentity, identity_response, as_caller, caller_of,
  caller_identity, get_session_identity, session_credential_ttl, new_session_credential, if_stored,
  credential_row, exchange_redeemed, exchange_session_token, revoke_session_credential,
  auth_failure, auth_failure_reason,
}
use proxpass.Session.Requests.{
  Request, after_requests, all_calls, after_requests-calls, All-calls, IsNoSpending, IsStaying,
  IsNoCredential, no_spending_calls, staying_calls, no_credential_calls,
}
use proxpass.Db.Tokens.{is_unexpired, insert_row, insert_swept, token_row}
use proxpass.Db.Tokens.Rows.{IsFree, filter-IsFree}
use proxpass.Session.Credentials.{stored_body, exchange-Exchanged}

answered_by :
    (r : Result DbError SessionIdentity) (out : WireIdentity)
    → as_caller (caller_of r) (λ who. answered (identity_response who)) ≡ answered out
    → (who : SessionIdentity) × (r ≡ ok who)
unfolding as_caller caller_of auth_failure auth_failure_reason
answered_by (ok who) out e = (who, refl)
answered_by (err no_such_token) out e = cc
answered_by (err unique_violation) out e = cc
answered_by (err already_exists) out e = cc
answered_by (err storage) out e = cc
answered_by (err no_rows) out e = cc

module _ (hash_token : Bytes → Bytes) (rest_hash : Bytes) where
  -- A token that is not the static one is looked up.
  session_caller :
      (down : Statement → Bool) (db : Tables) (token : Bytes) (now : ℕ)
      → bytes_eq (hash_token token) rest_hash ≡ false
      → caller_identity hash_token rest_hash down db (some token) now
        ≡ caller_of (lookup_api_session down db (hash_token token) now)
  unfolding caller_identity
  session_caller down db token now n = ground arith

  -- A credential that an exchange gave identifies its holder, as the identity that came with it, until
  -- it expires twelve hours after it was made, as long as the database runs the statement and the
  -- credential was not revoked, whatever requests anyone makes in between before that time. Its hash
  -- is not that of the static token.
  pub exchanged_identifies :
      (down again : Statement → Bool) (db : Tables) (minted : Bytes) (now later then' : ℕ)
      (fresh : Option Bytes) (cred : SessionCredential) (rs : List Request)
      → (exchange_session_token hash_token down db (some minted) now fresh later).0 ≡ answered cred
      → All (IsStaying hash_token (hash_token cred.token) cred.expires_at) rs
      → then' < later + 43200
      → again select_session ≡ false
      → bytes_eq (hash_token cred.token) rest_hash ≡ false
      → get_session_identity hash_token rest_hash again
          (after_requests hash_token
            (exchange_session_token hash_token down db (some minted) now fresh later).1
            rs)
          (some cred.token)
          then'
        ≡ answered cred.identity
  unfolding get_session_identity as_caller caller_of
  exchanged_identifies down again db minted now later then' fresh cred rs e a late up n =
      let (who, x) = exchange-Exchanged hash_token down db minted now later fresh cred e in
      let db1 = (redeem_session_token down db (hash_token minted) now).1 in
      let db2 = (exchange_session_token hash_token down db (some minted) now fresh later).1 in
      let calls = all_calls hash_token db2 rs in
      let kept : All (IsKeeping (hash_token cred.token) (later + session_credential_ttl)) calls =
        All-calls hash_token _ _
          (staying_calls hash_token (hash_token cred.token) (later + session_credential_ttl)) db2 rs
          (subst (λ t. All (IsStaying hash_token (hash_token cred.token) t) rs) (sym x.lasts) a) in
      let found =
        created_looks_up (hash_token cred.token) down again db1 who later
          (later + session_credential_ttl) then' calls x.made kept late up in
      let same : after_requests hash_token db2 rs
          ≡ after_calls
              (create_api_session down db1 (hash_token cred.token) who later
                (later + session_credential_ttl)).1
              calls =
        after_requests-calls hash_token db2 rs ∙ ap (λ d. after_calls d calls) (sym x.after) in
      rw (session_caller again (after_requests hash_token db2 rs) cred.token then' n)
        (rw same (rw found (ap answered x.is_theirs)))

  known_session :
      (down : Statement → Bool) (db : Tables) (token : Bytes) (now : ℕ) (out : WireIdentity)
      → bytes_eq (hash_token token) rest_hash ≡ false
      → get_session_identity hash_token rest_hash down db (some token) now ≡ answered out
      → (who : SessionIdentity) × (lookup_api_session down db (hash_token token) now ≡ ok who)
  unfolding get_session_identity
  known_session down db token now out n e =
      answered_by (lookup_api_session down db (hash_token token) now) out (
        subst (λ r. as_caller r (λ who. answered (identity_response who)) ≡ answered out)
          (session_caller down db token now n) e)

  -- A credential that was revoked identifies nobody, whenever it is presented and whatever requests
  -- anyone makes, as long as no credential with its hash is made. Its hash is not that of the static
  -- token.
  pub left_unknown :
      (down again : Statement → Bool) (db : Tables) (token : Bytes) (now : ℕ) (out : WireIdentity)
      (rs : List Request)
      → (revoke_session_credential hash_token down db (some token)).0 ≡ answered tt
      → All (IsNoCredential hash_token (hash_token token)) rs
      → bytes_eq (hash_token token) rest_hash ≡ false
      → ¬ (
          get_session_identity hash_token rest_hash again
            (after_requests hash_token
              (revoke_session_credential hash_token down db (some token)).1
              rs)
            (some token)
            now
          ≡ answered out)
  unfolding revoke_session_credential
  left_unknown down again db token now out rs e a n e' =
      let db1 = (revoke_api_session down db (hash_token token)).1 in
      let (done, _) = stored_body (revoke_api_session down db (hash_token token)).0 tt tt e in
      let (who, found) =
        known_session again (after_requests hash_token db1 rs) token now out n e' in
      revoked_unknown (hash_token token) down again db now who (all_calls hash_token db1 rs) done
        (All-calls hash_token _ _ (no_credential_calls hash_token (hash_token token)) db1 rs a)
        (subst (λ d. lookup_api_session again d (hash_token token) now ≡ ok who)
          (after_requests-calls hash_token db1 rs) found)

module _ (hash_token : Bytes → Bytes) (again : Statement → Bool) where
  create_succeeds :
      (db : Tables) (h : Bytes) (who : SessionIdentity) (now expires : ℕ)
      → again sweep_sessions ≡ false
      → again insert_session ≡ false
      → IsFree h db.api_sessions
      → (create_api_session again db h who now expires).0 ≡ ok tt
  unfolding create_api_session insert_swept insert_row token_row
  create_succeeds db h who now expires up up' f =
      let g = filter-IsFree (is_unexpired now) h db.api_sessions f in rw up (rw up' (rw g refl))

  redeem_sessions :
      (db : Tables) (h : Bytes) (now : ℕ)
      → (redeem_session_token again db h now).1.api_sessions ≡ db.api_sessions
  unfolding redeem_session_token
  redeem_sessions db h now = elim (Bool-cases (again redeem_token)) [
    | inl e ↦ rw (e, redeem_session_token) refl
    | inr e ↦ rw (e, redeem_session_token) refl
  ]

  exchange_succeeds :
      (db : Tables) (minted token : Bytes) (who : SessionIdentity) (now later : ℕ)
      → (redeem_session_token again db (hash_token minted) now).0 ≡ ok who
      → again sweep_sessions ≡ false
      → again insert_session ≡ false
      → IsFree (hash_token token) db.api_sessions
      → (exchange_session_token hash_token again db (some minted) now (some token) later).0
        ≡ answered
            (record { token = token; expires_at = later + 43200; identity = identity_response who })
  unfolding exchange_session_token exchange_redeemed credential_row new_session_credential if_stored
  exchange_succeeds db minted token who now later spent up up' f =
      let db1 = (redeem_session_token again db (hash_token minted) now).1 in
      let free =
        subst (IsFree (hash_token token)) (sym (redeem_sessions db (hash_token minted) now)) f in
      rw (spent, exchange_redeemed, exchange_session_token)
        (rw (create_succeeds db1 (hash_token token) who later (later + 43200) up up' free) refl)

  -- A login leads to a credential: a token that was minted is exchanged for one, for the identity it
  -- was minted for and twelve hours, before the token expires, as long as the statements run and the
  -- new credential's hash is not taken, whatever requests anyone made in between but an exchange of
  -- the same token or a login at or after its expiry.
  pub login_exchanges :
      (down : Statement → Bool) (db : Tables) (minted token : Bytes) (who : SessionIdentity)
      (now expires then' later : ℕ) (rs : List Request)
      → (mint_session_token down db (hash_token minted) who now expires).0 ≡ ok tt
      → All (IsNoSpending hash_token (hash_token minted) expires) rs
      → then' < expires
      → again redeem_token ≡ false
      → again sweep_sessions ≡ false
      → again insert_session ≡ false
      → IsFree
          (hash_token token)
          (after_requests hash_token
            (mint_session_token down db (hash_token minted) who now expires).1
            rs).api_sessions
      → (exchange_session_token hash_token again
          (after_requests hash_token
            (mint_session_token down db (hash_token minted) who now expires).1
            rs)
          (some minted)
          then'
          (some token)
          later).0
        ≡ answered
            (record { token = token; expires_at = later + 43200; identity = identity_response who })
  login_exchanges down db minted token who now expires then' later rs e a late up up' up'' f =
      let db1 = (mint_session_token down db (hash_token minted) who now expires).1 in
      let redeemed =
        minted_redeems down again db (hash_token minted) who now expires then'
          (all_calls hash_token db1 rs) e
          (All-calls hash_token _ _ (no_spending_calls hash_token (hash_token minted) expires) db1
            rs a)
          late up in
      exchange_succeeds (after_requests hash_token db1 rs) minted token who then' later
        (subst (λ d. (redeem_session_token again d (hash_token minted) then').0 ≡ ok who)
          (sym (after_requests-calls hash_token db1 rs)) redeemed)
        up' up'' f
