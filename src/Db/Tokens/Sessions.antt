-- ===== src/Db/Tokens/Sessions.antt =====
-- What an API session is good for over any sequence of calls, any of them failing.
use proxpass.Base.{
  ℕ, Bytes, bytes_eq_refl, Bool, true, false, not, List, [], ◌∷◌, ok, any, filter, All, ◌≡◌, refl,
  sym, ◌∙◌, inl, inr, ◌<◌, arith, Bool-cases,
}
use proxpass.Models.{SessionIdentity}
use proxpass.Db.State.{
  Tables, TokenRow, Statement, redeem_token, sweep_sessions, insert_session, select_session,
  delete_session,
}
use proxpass.Db.Tokens.{
  has_hash, is_unexpired, scan_identity, insert_row, insert_swept, token_row, mint_session_token,
  redeem_session_token, create_api_session, lookup_api_session, revoke_api_session,
}
use proxpass.Db.Tokens.Rows.{
  IsFree, Names, other_hash, named_hash, filter-IsFree, filter-Names, find_live, find_free,
  insert-IsFree, insert-Names,
}
use proxpass.Db.Tokens.Lifecycle.{
  TokenCall, mint, create, redeem, look_up, revoke, after_call, after_calls,
}

-- The call does not create a session with the hash.
abbrev pub IsNoCreate : Bytes → TokenCall → Type 0
IsNoCreate h (create down g who now expires) = ¬ (g ≡ h)
IsNoCreate h _ = Unit

-- The call neither revokes the hash nor sweeps at or after the time.
abbrev pub IsKeeping : Bytes → ℕ → TokenCall → Type 0
IsKeeping h expires (create down g who now e) = now < expires
IsKeeping h expires (revoke down g) = ¬ (g ≡ h)
IsKeeping h expires _ = Unit

module _ (h : Bytes) where
  gone_stays :
      (db : Tables) (c : TokenCall)
      → IsNoCreate h c
      → IsFree h db.api_sessions
      → IsFree h (after_call db c).api_sessions
  unfolding after_call mint_session_token create_api_session redeem_session_token revoke_api_session
      token_row
  gone_stays db (mint down g who now expires) n f = f
  gone_stays db (create down g who now expires) n f = insert-IsFree _ _ _ now h db.api_sessions n f
  gone_stays db (redeem down g now) n f = elim (Bool-cases (down redeem_token)) [
    | inl e ↦ rw (e, after_call, redeem_session_token) f
    | inr e ↦ rw (e, after_call, redeem_session_token) f
  ]
  gone_stays db (look_up down g now) n f = f
  gone_stays db (revoke down g) n f = elim (Bool-cases (down delete_session)) [
    | inl e ↦ rw (e, after_call, revoke_api_session) f
    | inr e ↦ rw (e, after_call, revoke_api_session) (filter-IsFree _ h db.api_sessions f)
  ]

  All-gone_stay :
      (db : Tables) (cs : List TokenCall)
      → All (IsNoCreate h) cs
      → IsFree h db.api_sessions
      → IsFree h (after_calls db cs).api_sessions
  unfolding after_calls
  All-gone_stay db [] a f = f
  All-gone_stay db (c ∷ cs) (n, a) f = All-gone_stay (after_call db c) cs a (gone_stays db c n f)

  removed-IsFree : (rows : List TokenRow) → IsFree h (filter (λ r. not (has_hash h r)) rows)
  removed-IsFree [] = refl
  removed-IsFree (r ∷ rows) = elim (Bool-cases (has_hash h r)) [
    | inl e ↦ rw e (removed-IsFree rows)
    | inr e ↦ rw e (rw e (removed-IsFree rows))
  ]

  revoke_frees :
      (down : Statement → Bool) (db : Tables)
      → (revoke_api_session down db h).0 ≡ ok tt
      → IsFree h (revoke_api_session down db h).1.api_sessions
  unfolding revoke_api_session
  revoke_frees down db e = elim (Bool-cases (down delete_session)) [
    | inl t ↦ absurd (ground arith)
    | inr f ↦ rw (f, revoke_api_session) (removed-IsFree db.api_sessions)
  ]

  free_unknown :
      (down : Statement → Bool) (db : Tables) (now : ℕ) (who : SessionIdentity)
      → IsFree h db.api_sessions
      → ¬ (lookup_api_session down db h now ≡ ok who)
  unfolding lookup_api_session scan_identity
  free_unknown down db now who f e = ground (arith, find_free h now db.api_sessions f)

  -- A session that was revoked is not looked up again, whatever is called and whenever, as long as no
  -- session with its hash is created anew.
  pub revoked_unknown :
      (down again : Statement → Bool) (db : Tables) (now : ℕ) (who : SessionIdentity)
      (cs : List TokenCall)
      → (revoke_api_session down db h).0 ≡ ok tt
      → All (IsNoCreate h) cs
      → ¬ (
          lookup_api_session again (after_calls (revoke_api_session down db h).1 cs) h now ≡ ok who)
  revoked_unknown down again db now who cs e a =
      free_unknown again _ now who (All-gone_stay _ cs a (revoke_frees down db e))

  module _ (r : TokenRow) where
    kept_named :
        (g : Bytes) (rows : List TokenRow) → ¬ (g ≡ h) → Names h r rows → not (has_hash g r) ≡ true
    kept_named g rows n f = rw (other_hash g r (λ e. n (sym e ∙ named_hash h r rows f))) refl

    session_stays :
        (db : Tables) (c : TokenCall)
        → IsKeeping h r.expires_at c
        → Names h r db.api_sessions
        → Names h r (after_call db c).api_sessions
    unfolding after_call mint_session_token create_api_session redeem_session_token
        revoke_api_session
    session_stays db (mint down g who now expires) n f = f
    session_stays db (create down g who now expires) n f =
        insert-Names _ _ _ now h r db.api_sessions n f
    session_stays db (redeem down g now) n f = elim (Bool-cases (down redeem_token)) [
      | inl e ↦ rw (e, after_call, redeem_session_token) f
      | inr e ↦ rw (e, after_call, redeem_session_token) f
    ]
    session_stays db (look_up down g now) n f = f
    session_stays db (revoke down g) n f = elim (Bool-cases (down delete_session)) [
      | inl e ↦ rw (e, after_call, revoke_api_session) f
      | inr e ↦
          rw (e, after_call, revoke_api_session)
            (filter-Names _ h r db.api_sessions (kept_named g db.api_sessions n f) f)
    ]

    All-session_stays :
        (db : Tables) (cs : List TokenCall)
        → All (IsKeeping h r.expires_at) cs
        → Names h r db.api_sessions
        → Names h r (after_calls db cs).api_sessions
    unfolding after_calls
    All-session_stays db [] a f = f
    All-session_stays db (c ∷ cs) (n, a) f =
        All-session_stays (after_call db c) cs a (session_stays db c n f)

  create-Names :
      (down : Statement → Bool) (db : Tables) (who : SessionIdentity) (now expires : ℕ)
      → (create_api_session down db h who now expires).0 ≡ ok tt
      → Names h
          (token_row h who expires)
          (create_api_session down db h who now expires).1.api_sessions
  unfolding create_api_session insert_swept insert_row token_row has_hash
  create-Names down db who now expires e = elim (Bool-cases (down sweep_sessions)) [
    | inl t ↦ absurd (ground arith)
    | inr f ↦ elim (Bool-cases (down insert_session)) [
      | inl t ↦ absurd (ground arith)
      | inr g ↦ elim (Bool-cases (any (has_hash h) (filter (is_unexpired now) db.api_sessions))) [
        | inl t ↦ absurd (ground arith)
        | inr q ↦ rw (f, g, q) (rw (bytes_eq_refl h) refl)
      ]
    ]
  ]

  -- A session that was created is looked up, to the identity it was created for, until it expires, as
  -- long as the database runs the statement and it was not revoked, whatever else was called: sessions
  -- created before the expiry, other revocations and everything on minted tokens.
  pub created_looks_up :
      (down again : Statement → Bool) (db : Tables) (who : SessionIdentity) (now expires then : ℕ)
      (cs : List TokenCall)
      → (create_api_session down db h who now expires).0 ≡ ok tt
      → All (IsKeeping h expires) cs
      → then < expires
      → again select_session ≡ false
      → lookup_api_session again
          (after_calls (create_api_session down db h who now expires).1 cs)
          h
          then
        ≡ ok who
  unfolding lookup_api_session scan_identity token_row
  created_looks_up down again db who now expires then cs e a late up =
      let named =
        All-session_stays (token_row h who expires) _ cs a
          (create-Names down db who now expires e) in
      rw up (rw (find_live h (token_row h who expires) then _ named late) refl)
