-- ===== src/Session/Credentials.antt =====
-- What a minted token and a credential are good for, over any requests of anyone.
use mathlib.Core.Path.{subst}
use proxpass.Base.{
  ℕ, ◌+◌, Bytes, Bool, Option, none, some, List, ◌∷◌, Result, ok, err, All, ◌≡◌, refl, sym, ap, ◌∙◌,
  arith,
}
use proxpass.Models.{SessionIdentity}
use proxpass.Db.State.{
  Tables, DbError, storage, no_rows, no_such_token, unique_violation, already_exists, Statement,
}
use proxpass.Db.Tokens.{redeem_session_token, create_api_session}
use proxpass.Db.Tokens.Lifecycle.{
  TokenCall, create, after_call, after_calls, HasKeys, redeemed_once,
}
use proxpass.Session.{
  answered, SessionCredential, identity_response, session_credential_ttl, new_session_credential,
  if_stored, credential_row, exchange_redeemed, exchange_session_token,
}
use proxpass.Session.Requests.{
  Request, after_requests, all_calls, after_requests-calls, All-calls, IsNoLogin, no_login_calls,
}

pub stored_body :
    {A : Type 0} (r : Result DbError (Unit {0})) (a b : A)
    → if_stored r a ≡ answered b
    → (r ≡ ok tt) × (a ≡ b)
unfolding if_stored
stored_body (err e) a b q = cc
stored_body (ok u) a b q = (refl, ground arith)

module _ (hash_token : Bytes → Bytes) where
  -- An exchange that answered: whose token it was, and the session that was made.
  pub record Exchanged (down : Statement → Bool) (db : Tables) (minted : Bytes) (now later : ℕ)
      (cred : SessionCredential) (db' : Tables) (who : SessionIdentity) : Type 0 where
    pub spent : (redeem_session_token down db (hash_token minted) now).0 ≡ ok who
    pub made :
        (create_api_session down
          (redeem_session_token down db (hash_token minted) now).1
          (hash_token cred.token)
          who
          later
          (later + session_credential_ttl)).0
        ≡ ok tt
    pub after :
        (create_api_session down
          (redeem_session_token down db (hash_token minted) now).1
          (hash_token cred.token)
          who
          later
          (later + session_credential_ttl)).1
        ≡ db'
    pub lasts : later + session_credential_ttl ≡ cred.expires_at
    pub is_theirs : identity_response who ≡ cred.identity

  abbrev fresh_credential : Bytes → SessionIdentity → ℕ → SessionCredential
  fresh_credential token who later = record {
    token = token;
    expires_at = later + session_credential_ttl;
    identity = identity_response who;
  }

  row-Exchanged :
      (down : Statement → Bool) (db : Tables) (minted : Bytes) (now later : ℕ)
      (r : Result DbError SessionIdentity) (fresh : Option Bytes) (cred : SessionCredential)
      → (redeem_session_token down db (hash_token minted) now).0 ≡ r
      → (exchange_redeemed hash_token down r
          (redeem_session_token down db (hash_token minted) now).1
          fresh
          later).0
        ≡ answered cred
      → (who : SessionIdentity) × Exchanged down db minted now later cred
          (exchange_redeemed hash_token down r
            (redeem_session_token down db (hash_token minted) now).1
            fresh
            later).1
          who
  unfolding exchange_redeemed credential_row new_session_credential
  row-Exchanged down db minted now later (err no_such_token) fresh cred q e = cc
  row-Exchanged down db minted now later (err unique_violation) fresh cred q e = cc
  row-Exchanged down db minted now later (err already_exists) fresh cred q e = cc
  row-Exchanged down db minted now later (err storage) fresh cred q e = cc
  row-Exchanged down db minted now later (err no_rows) fresh cred q e = cc
  row-Exchanged down db minted now later (ok who) none cred q e = cc
  row-Exchanged down db minted now later (ok who) (some token) cred q e =
      let (done, same) =
        stored_body
          (create_api_session down (redeem_session_token down db (hash_token minted) now).1
            (hash_token token) who later (later + session_credential_ttl)).0
          (fresh_credential token who later) cred e in
      (
        who,
        subst
            (λ c.
              Exchanged down db minted now later c
                (create_api_session down (redeem_session_token down db (hash_token minted) now).1
                  (hash_token token) who later (later + session_credential_ttl)).1
                who)
            same (record { spent = q; made = done; after = refl; lasts = refl; is_theirs = refl }),
      )

  pub exchange-Exchanged :
      (down : Statement → Bool) (db : Tables) (minted : Bytes) (now later : ℕ)
      (fresh : Option Bytes) (cred : SessionCredential)
      → (exchange_session_token hash_token down db (some minted) now fresh later).0 ≡ answered cred
      → (who : SessionIdentity) × Exchanged down db minted now later cred
          (exchange_session_token hash_token down db (some minted) now fresh later).1
          who
  unfolding exchange_session_token
  exchange-Exchanged down db minted now later fresh cred e =
      row-Exchanged down db minted now later
        (redeem_session_token down db (hash_token minted) now).0 fresh cred refl e

  -- A minted token that was exchanged is never exchanged again: not after any requests of anyone,
  -- failing or not, that do not mint its hash anew, and whatever the clocks say.
  pub exchanged_once :
      (down again : Statement → Bool) (db : Tables) (minted : Bytes) (now later then' later' : ℕ)
      (fresh fresh' : Option Bytes) (cred other : SessionCredential) (rs : List Request)
      → HasKeys db
      → (exchange_session_token hash_token down db (some minted) now fresh later).0 ≡ answered cred
      → All (IsNoLogin (hash_token minted)) rs
      → ¬ (
          (exchange_session_token hash_token again
            (after_requests hash_token
              (exchange_session_token hash_token down db (some minted) now fresh later).1
              rs)
            (some minted)
            then'
            fresh'
            later').0
          ≡ answered other)
  unfolding after_calls after_call
  exchanged_once down again db minted now later then' later' fresh fresh' cred other rs k e a e' =
      let (who, x) = exchange-Exchanged down db minted now later fresh cred e in
      let db1 = (redeem_session_token down db (hash_token minted) now).1 in
      let db2 = (exchange_session_token hash_token down db (some minted) now fresh later).1 in
      let c : TokenCall =
        create down (hash_token cred.token) who later (later + session_credential_ttl) in
      let calls = c ∷ all_calls hash_token db2 rs in
      let same : after_requests hash_token db2 rs ≡ after_calls db1 calls =
        after_requests-calls hash_token db2 rs
        ∙ ap (λ d. after_calls d (all_calls hash_token db2 rs)) (sym x.after) in
      let (other_who, y) =
        exchange-Exchanged again (after_requests hash_token db2 rs) minted then' later' fresh' other
          e' in
      redeemed_once down again db (hash_token minted) now then' who other_who calls k x.spent
        (tt, All-calls hash_token _ _ (no_login_calls hash_token (hash_token minted)) db2 rs a)
        (subst (λ d. (redeem_session_token again d (hash_token minted) then').0 ≡ ok other_who) same
          y.spent)
