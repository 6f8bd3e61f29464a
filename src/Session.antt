-- ===== src/Session.antt =====
-- internal/api/session.go: who is calling, the exchange of a minted token for a credential, and its
-- revocation. `hash_token` is SHA-256 in hexadecimal, `fold_eq` strings.EqualFold, `trim`
-- strings.TrimSpace; clock readings and the fresh credential are arguments.
pub mod Data
pub mod Requests
pub mod Credentials
pub mod Lifetimes
pub mod Reach
pub mod Shown
pub mod Connect
pub mod Nodes
pub mod Tests
pub mod TokenTests
use proxpass.Base.{
  ℕ, ◌+◌, Bytes, bytes_eq, codes, Bool, true, false, not, ◌&&◌, ◌||◌, Option, none, some, List, [],
  ◌∷◌, Result, ok, err, leb, ◌==◌, if◌then◌else◌, length, take, drop,
}
use proxpass.Models.{SessionIdentity}
use proxpass.Db.State.{Tables, DbError, storage, no_rows, no_such_token, Statement}
use proxpass.Db.Tokens.{
  redeem_session_token, create_api_session, lookup_api_session, revoke_api_session,
}

-- callerIdentity fails without a token, or as the repository does.
pub data CallerError : Type 0 where
  no_credential : CallerError
  repository : DbError → CallerError

pub data Reason : Type 0 where
  missing_token invalid_token : Reason

-- 200 (or 204) with a body, 401, 403, or an error that becomes a 500.
pub data Answer {ℓ} (A : Type ℓ) : Type ℓ where
  answered : A → Answer A
  unauthorized : Reason → Answer A
  forbidden failed : Answer A

-- Identity, the wire shape: the client id is left out where it is 0.
pub record WireIdentity : Type 0 where
  pub login_name : Bytes
  pub identity_name : Bytes
  pub is_admin : Bool
  pub client_id : Option ℕ

pub record SessionCredential : Type 0 where
  pub token : Bytes
  pub expires_at : ℕ
  pub identity : WireIdentity

abbrev pub rest_api_identity_name : Bytes
rest_api_identity_name = codes "rest-api-token"

-- 12 hours, in seconds.
abbrev pub session_credential_ttl : ℕ
session_credential_ttl = 43200

abbrev pub bearer_prefix : Bytes
bearer_prefix = codes "Bearer "

unfoldable pub with_bearer_token : (Bytes → Bytes → Bool) → (Bytes → Bytes) → Bytes → Option Bytes
with_bearer_token fold_eq trim header =
    if leb (length header) (length bearer_prefix)
      || not (fold_eq (take (length bearer_prefix) header) bearer_prefix)
    then none
    else let token = trim (drop (length bearer_prefix) header) in
      if bytes_eq token [] then none else some token

unfoldable pub identity_response : SessionIdentity → WireIdentity
identity_response who = record {
  login_name = who.login_name;
  identity_name = who.identity_name;
  is_admin = who.is_admin;
  client_id = if who.client_id == 0 then none else some who.client_id;
}

abbrev pub rest_api_identity : SessionIdentity
rest_api_identity = record {
  login_name = [];
  identity_name = rest_api_identity_name;
  is_admin = true;
  client_id = 0;
}

unfoldable pub auth_failure_reason : CallerError → Option Reason
auth_failure_reason no_credential = some missing_token
auth_failure_reason (repository no_such_token) = some invalid_token
auth_failure_reason (repository _) = none

-- listGuestsAuthFailure and its likes.
unfoldable pub auth_failure {ℓ} : {A : Type ℓ} → Option Reason → Answer A
auth_failure none = failed
auth_failure (some reason) = unauthorized reason

unfoldable pub caller_of : Result DbError SessionIdentity → Result CallerError SessionIdentity
caller_of (ok who) = ok who
caller_of (err e) = err (repository e)

-- An authenticated endpoint: the work for the caller, or the 401 or 500 that its error means.
unfoldable pub as_caller {ℓ} :
    {A : Type ℓ} → Result CallerError SessionIdentity → (SessionIdentity → Answer A) → Answer A
as_caller (err e) work = auth_failure (auth_failure_reason e)
as_caller (ok who) work = work who

module _ (hash_token : Bytes → Bytes) where
  -- WithRESTAPIToken: the hash that is kept, empty for no token.
  unfoldable pub with_rest_api_token : Bytes → Bytes
  with_rest_api_token token = if bytes_eq token [] then [] else hash_token token

  -- NewSessionCredential: the credential and its hash; `none` is a failing random source.
  unfoldable pub new_session_credential : Option Bytes → Option (Bytes × Bytes)
  new_session_credential none = none
  new_session_credential (some token) = some (token, hash_token token)

module _ (hash_token : Bytes → Bytes) (rest_hash : Bytes) (down : Statement → Bool)
    (db : Tables) where
  unfoldable pub caller_identity : Option Bytes → ℕ → Result CallerError SessionIdentity
  caller_identity none now = err no_credential
  caller_identity (some token) now =
      if not (bytes_eq rest_hash []) && bytes_eq (hash_token token) rest_hash
      then ok rest_api_identity
      else caller_of (lookup_api_session down db (hash_token token) now)

  unfoldable pub get_session_identity : Option Bytes → ℕ → Answer WireIdentity
  get_session_identity bearer now =
      as_caller (caller_identity bearer now) (λ who. answered (identity_response who))

-- `if err := ...; err != nil { return nil, err }`, and the answer.
unfoldable pub if_stored {ℓ} : {A : Type ℓ} → Result DbError (Unit {0}) → A → Answer A
if_stored (err e) body = failed
if_stored (ok _) body = answered body

module _ (hash_token : Bytes → Bytes) (down : Statement → Bool) where
  -- What follows the redemption: a credential, its row, and the answer.
  unfoldable pub credential_row :
      Tables → SessionIdentity → ℕ → Option (Bytes × Bytes) → Answer SessionCredential × Tables
  credential_row db who now none = (failed, db)
  credential_row db who now (some made) =
      let expires = now + session_credential_ttl in
      let done = create_api_session down db made.1 who now expires in
      (
        if_stored done.0
            (record { token = made.0; expires_at = expires; identity = identity_response who }),
        done.1,
      )

  unfoldable pub exchange_redeemed :
      Result DbError SessionIdentity → Tables → Option Bytes → ℕ → Answer SessionCredential × Tables
  exchange_redeemed (err no_such_token) db fresh now = (unauthorized invalid_token, db)
  exchange_redeemed (err _) db fresh now = (failed, db)
  exchange_redeemed (ok who) db fresh now =
      credential_row db who now (new_session_credential hash_token fresh)

  -- The clock is read once for the redemption and once for the credential.
  unfoldable pub exchange_session_token :
      Tables → Option Bytes → ℕ → Option Bytes → ℕ → Answer SessionCredential × Tables
  exchange_session_token db none now fresh later = (unauthorized missing_token, db)
  exchange_session_token db (some minted) now fresh later =
      let spent = redeem_session_token down db (hash_token minted) now in
      exchange_redeemed spent.0 spent.1 fresh later

  unfoldable pub revoke_session_credential : Tables → Option Bytes → Answer (Unit {0}) × Tables
  revoke_session_credential db none = (unauthorized missing_token, db)
  revoke_session_credential db (some token) =
      let done = revoke_api_session down db (hash_token token) in (if_stored done.0 tt, done.1)
