-- ===== src/Session/Requests.antt =====
-- The requests that touch the token tables, as the sequences of repository calls that they make: a
-- session's exchange, its revocation, its reads, and the minting at login (internal/session/token.go).
use proxpass.Base.{
  ℕ, ◌+◌, Bytes, Bool, Option, none, some, List, [], ◌∷◌, ◌++◌, Result, ok, err, All, All-append,
  ◌≡◌, refl, sym, ap, ◌∙◌, arith, ◌<◌,
}
use proxpass.Models.{SessionIdentity}
use proxpass.Db.State.{
  Tables, DbError, storage, no_rows, no_such_token, unique_violation, already_exists, Statement,
}
use proxpass.Db.Tokens.{mint_session_token, redeem_session_token}
use proxpass.Db.Tokens.Lifecycle.{
  TokenCall, mint, create, redeem, revoke, after_call, after_calls, IsNoMint, IsNoUse,
}
use proxpass.Db.Tokens.Sessions.{IsNoCreate, IsKeeping}
use proxpass.Session.{
  session_credential_ttl, new_session_credential, credential_row, exchange_redeemed,
  exchange_session_token, revoke_session_credential,
}

-- One request, with the statements that fail in it. A login mints a hash for an identity at a time,
-- with its expiry; an exchange has the token, the time, the fresh credential and the time after.
pub data Request : Type 0 where
  login : (Statement → Bool) → Bytes → SessionIdentity → ℕ → ℕ → Request
  exchange : (Statement → Bool) → Option Bytes → ℕ → Option Bytes → ℕ → Request
  leave : (Statement → Bool) → Option Bytes → Request
  read : (Statement → Bool) → Option Bytes → ℕ → Request

-- The request does not mint the hash.
abbrev pub IsNoLogin : Bytes → Request → Type 0
IsNoLogin h (login down g who now expires) = ¬ (g ≡ h)
IsNoLogin h _ = Unit

module _ (hash_token : Bytes → Bytes) where
  unfoldable pub after_request : Tables → Request → Tables
  after_request db (login down h who now expires) = (mint_session_token down db h who now expires).1
  after_request db (exchange down bearer now fresh later) =
      (exchange_session_token hash_token down db bearer now fresh later).1
  after_request db (leave down bearer) = (revoke_session_credential hash_token down db bearer).1
  after_request db (read down bearer now) = db

  unfoldable pub after_requests : Tables → List Request → Tables
  after_requests db [] = db
  after_requests db (r ∷ rs) = after_requests (after_request db r) rs

  -- The calls that an exchange makes after its redemption.
  unfoldable pub creations :
      (Statement → Bool) → Result DbError SessionIdentity → Option Bytes → ℕ → List TokenCall
  creations down (ok who) (some token) later =
      create down (hash_token token) who later (later + session_credential_ttl) ∷ []
  creations down _ _ later = []

  unfoldable pub calls_of : Tables → Request → List TokenCall
  calls_of db (login down h who now expires) = mint down h who now expires ∷ []
  calls_of db (exchange down none now fresh later) = []
  calls_of db (exchange down (some token) now fresh later) =
      redeem down (hash_token token) now
      ∷ creations down (redeem_session_token down db (hash_token token) now).0 fresh later
  calls_of db (leave down none) = []
  calls_of db (leave down (some token)) = revoke down (hash_token token) ∷ []
  calls_of db (read down bearer now) = []

  unfoldable pub all_calls : Tables → List Request → List TokenCall
  all_calls db [] = []
  all_calls db (r ∷ rs) = calls_of db r ++ all_calls (after_request db r) rs

  redeemed_calls :
      (down : Statement → Bool) (db : Tables) (r : Result DbError SessionIdentity)
      (fresh : Option Bytes) (later : ℕ)
      → (exchange_redeemed hash_token down r db fresh later).1
        ≡ after_calls db (creations down r fresh later)
  unfolding exchange_redeemed creations after_calls after_call credential_row new_session_credential
  redeemed_calls down db (ok who) (some token) later = refl
  redeemed_calls down db (ok who) none later = refl
  redeemed_calls down db (err no_such_token) fresh later = refl
  redeemed_calls down db (err unique_violation) fresh later = refl
  redeemed_calls down db (err already_exists) fresh later = refl
  redeemed_calls down db (err storage) fresh later = refl
  redeemed_calls down db (err no_rows) fresh later = refl

  after_request-calls :
      (db : Tables) (r : Request) → after_request db r ≡ after_calls db (calls_of db r)
  unfolding after_request calls_of after_calls after_call exchange_session_token
      revoke_session_credential
  after_request-calls db (login down h who now expires) = refl
  after_request-calls db (exchange down none now fresh later) = refl
  after_request-calls db (exchange down (some token) now fresh later) =
      redeemed_calls down (redeem_session_token down db (hash_token token) now).1
        (redeem_session_token down db (hash_token token) now).0 fresh later
  after_request-calls db (leave down none) = refl
  after_request-calls db (leave down (some token)) = refl
  after_request-calls db (read down bearer now) = refl

  after_calls-append :
      (db : Tables) (cs ds : List TokenCall)
      → after_calls db (cs ++ ds) ≡ after_calls (after_calls db cs) ds
  unfolding after_calls
  after_calls-append db [] ds = refl
  after_calls-append db (c ∷ cs) ds = after_calls-append (after_call db c) cs ds

  -- Any sequence of logins, exchanges, revocations and reads, failing or not, changes the tables as a
  -- sequence of the repository's five token calls does: an exchange is one redemption and, only if it
  -- gave an identity and a credential was made, one creation of a session for that identity, which
  -- lasts twelve hours.
  pub after_requests-calls :
      (db : Tables) (rs : List Request) → after_requests db rs ≡ after_calls db (all_calls db rs)
  unfolding after_requests all_calls after_calls
  after_requests-calls db [] = refl
  after_requests-calls db (r ∷ rs) =
      after_requests-calls (after_request db r) rs
      ∙ ap (λ d. after_calls d (all_calls (after_request db r) rs)) (after_request-calls db r)
      ∙ sym (after_calls-append db (calls_of db r) (all_calls (after_request db r) rs))

  -- What holds of every call of every request.
  pub All-calls :
      (P : TokenCall → Type 0) (R : Request → Type 0)
      → ((db : Tables) (r : Request) → R r → All P (calls_of db r))
      → (db : Tables) (rs : List Request) → All R rs
      → All P (all_calls db rs)
  unfolding all_calls
  All-calls P R each db [] a = tt
  All-calls P R each db (r ∷ rs) (n, a) =
      All-append P (calls_of db r) _ (each db r n) (All-calls P R each (after_request db r) rs a)

  All-creations :
      (P : TokenCall → Type 0) (down : Statement → Bool) (r : Result DbError SessionIdentity)
      (fresh : Option Bytes) (later : ℕ)
      → ((token : Bytes) (who : SessionIdentity)
          → fresh ≡ some token
          → P (create down (hash_token token) who later (later + session_credential_ttl)))
      → All P (creations down r fresh later)
  unfolding creations
  All-creations P down (ok who) (some token) later h = (h token who refl, tt)
  All-creations P down (ok who) none later h = tt
  All-creations P down (err e) fresh later h = tt

  -- The request neither spends the hash nor mints at or after the time.
  abbrev pub IsNoSpending : Bytes → ℕ → Request → Type 0
  IsNoSpending h expires (login down g who now e) = now < expires
  IsNoSpending h expires (exchange down (some token) now fresh later) = ¬ (hash_token token ≡ h)
  IsNoSpending h expires _ = Unit

  -- The request does not revoke the hash, and makes no credential at or after the time.
  abbrev pub IsStaying : Bytes → ℕ → Request → Type 0
  IsStaying h expires (exchange down bearer now fresh later) = later < expires
  IsStaying h expires (leave down (some token)) = ¬ (hash_token token ≡ h)
  IsStaying h expires _ = Unit

  -- The request makes no credential with the hash.
  abbrev pub IsNoCredential : Bytes → Request → Type 0
  IsNoCredential h (exchange down bearer now (some token) later) = ¬ (hash_token token ≡ h)
  IsNoCredential h _ = Unit

  module _ (h : Bytes) where
    pub no_login_calls :
        (db : Tables) (r : Request) → IsNoLogin h r → All (IsNoMint h) (calls_of db r)
    unfolding calls_of
    no_login_calls db (login down g who now expires) n = (n, tt)
    no_login_calls db (exchange down none now fresh later) n = tt
    no_login_calls db (exchange down (some token) now fresh later) n =
        (tt, All-creations (IsNoMint h) down _ fresh later (λ _ _ _. tt))
    no_login_calls db (leave down none) n = tt
    no_login_calls db (leave down (some token)) n = (tt, tt)
    no_login_calls db (read down bearer now) n = tt

    pub no_spending_calls :
        (expires : ℕ) (db : Tables) (r : Request)
        → IsNoSpending h expires r
        → All (IsNoUse h expires) (calls_of db r)
    unfolding calls_of
    no_spending_calls x db (login down g who now expires) n = (n, tt)
    no_spending_calls x db (exchange down none now fresh later) n = tt
    no_spending_calls x db (exchange down (some token) now fresh later) n =
        (n, All-creations (IsNoUse h x) down _ fresh later (λ _ _ _. tt))
    no_spending_calls x db (leave down none) n = tt
    no_spending_calls x db (leave down (some token)) n = (tt, tt)
    no_spending_calls x db (read down bearer now) n = tt

    pub staying_calls :
        (expires : ℕ) (db : Tables) (r : Request)
        → IsStaying h expires r
        → All (IsKeeping h expires) (calls_of db r)
    unfolding calls_of
    staying_calls x db (login down g who now expires) n = (tt, tt)
    staying_calls x db (exchange down none now fresh later) n = tt
    staying_calls x db (exchange down (some token) now fresh later) n =
        (tt, All-creations (IsKeeping h x) down _ fresh later (λ _ _ _. n))
    staying_calls x db (leave down none) n = tt
    staying_calls x db (leave down (some token)) n = (n, tt)
    staying_calls x db (read down bearer now) n = tt

    pub no_credential_calls :
        (db : Tables) (r : Request) → IsNoCredential h r → All (IsNoCreate h) (calls_of db r)
    unfolding calls_of
    no_credential_calls db (login down g who now expires) n = (tt, tt)
    no_credential_calls db (exchange down none now fresh later) n = tt
    no_credential_calls db (exchange down (some token) now (some made) later) n =
        (tt, All-creations (IsNoCreate h) down _ (some made) later (λ t w q e. n (ground arith)))
    no_credential_calls db (exchange down (some token) now none later) n =
        (tt, All-creations (IsNoCreate h) down _ none later (λ t w q. cc))
    no_credential_calls db (leave down none) n = tt
    no_credential_calls db (leave down (some token)) n = (tt, tt)
    no_credential_calls db (read down bearer now) n = tt
