-- ===== src/Db/Tokens/Lifecycle.antt =====
-- What a token is good for over any sequence of operations on the two tables, by any processes at any
-- times, any of them failing.
use proxpass.Base.{
  ℕ, Bytes, bytes_eq_refl, Bool, true, false, not, List, [], ◌∷◌, ok, any, find, filter, All, ◌≡◌,
  refl, inl, inr, some, Option-cases, sym, ◌∙◌, ◌<◌, arith, Bool-cases,
}
use proxpass.Models.{SessionIdentity}
use proxpass.Db.State.{
  Tables, TokenRow, Statement, sweep_tokens, insert_token, redeem_token, delete_session,
}
use proxpass.Db.Tokens.{
  has_hash, is_live, is_unexpired, scan_identity, insert_row, insert_swept, token_row,
  mint_session_token, redeem_session_token, create_api_session, revoke_api_session,
}
use proxpass.Db.Tokens.Rows.{
  IsFree, HasKey, other_hash, named_hash, Names, filter-IsFree, filter-HasKey, filter-Names,
  find_live, find_free, read-IsFree, insert-HasKey, insert-IsFree, insert-Names,
}

-- One call, with the statements that fail in it.
pub data TokenCall : Type 0 where
  mint create : (Statement → Bool) → Bytes → SessionIdentity → ℕ → ℕ → TokenCall
  redeem look_up : (Statement → Bool) → Bytes → ℕ → TokenCall
  revoke : (Statement → Bool) → Bytes → TokenCall

unfoldable pub after_call : Tables → TokenCall → Tables
after_call db (mint down h who now expires) = (mint_session_token down db h who now expires).1
after_call db (create down h who now expires) = (create_api_session down db h who now expires).1
after_call db (redeem down h now) = (redeem_session_token down db h now).1
after_call db (look_up down h now) = db
after_call db (revoke down h) = (revoke_api_session down db h).1

unfoldable pub after_calls : Tables → List TokenCall → Tables
after_calls db [] = db
after_calls db (c ∷ cs) = after_calls (after_call db c) cs

-- Both token tables have their primary key.
pub record HasKeys (db : Tables) : Type 0 where
  pub minted : HasKey db.session_tokens
  pub sessions : HasKey db.api_sessions

-- The call does not mint the hash.
abbrev pub IsNoMint : Bytes → TokenCall → Type 0
IsNoMint h (mint down g who now expires) = ¬ (g ≡ h)
IsNoMint h _ = Unit

-- The call neither redeems the hash nor mints at or after the time.
abbrev pub IsNoUse : Bytes → ℕ → TokenCall → Type 0
IsNoUse h expires (mint down g who now e) = now < expires
IsNoUse h expires (redeem down g now) = ¬ (g ≡ h)
IsNoUse h expires _ = Unit

after_call-HasKeys : (db : Tables) (c : TokenCall) → HasKeys db → HasKeys (after_call db c)
unfolding after_call mint_session_token create_api_session redeem_session_token revoke_api_session
after_call-HasKeys db (mint down h who now expires) k = record {
  minted = insert-HasKey _ _ _ now db.session_tokens k.minted;
  sessions = k.sessions;
}
after_call-HasKeys db (create down h who now expires) k = record {
  minted = k.minted;
  sessions = insert-HasKey _ _ _ now db.api_sessions k.sessions;
}
after_call-HasKeys db (redeem down h now) k = elim (Bool-cases (down redeem_token)) [
  | inl e ↦ rw (e, after_call, redeem_session_token, revoke_api_session) k
  | inr e ↦
      rw (e, after_call, redeem_session_token, revoke_api_session)
        (record { minted = filter-HasKey _ _ k.minted; sessions = k.sessions })
]
after_call-HasKeys db (look_up down h now) k = k
after_call-HasKeys db (revoke down h) k = elim (Bool-cases (down delete_session)) [
  | inl e ↦ rw (e, after_call, redeem_session_token, revoke_api_session) k
  | inr e ↦
      rw (e, after_call, redeem_session_token, revoke_api_session)
        (record { minted = k.minted; sessions = filter-HasKey _ _ k.sessions })
]

-- Tables where no two rows of a token table have one hash are still so after any calls, failed ones
-- included.
pub after_calls-HasKeys :
    (db : Tables) (cs : List TokenCall) → HasKeys db → HasKeys (after_calls db cs)
unfolding after_calls
after_calls-HasKeys db [] k = k
after_calls-HasKeys db (c ∷ cs) k =
    after_calls-HasKeys (after_call db c) cs (after_call-HasKeys db c k)

spent_stays :
    (h : Bytes) (db : Tables) (c : TokenCall)
    → IsNoMint h c
    → IsFree h db.session_tokens
    → IsFree h (after_call db c).session_tokens
unfolding after_call mint_session_token create_api_session redeem_session_token revoke_api_session
    token_row
spent_stays h db (mint down g who now expires) n f = insert-IsFree _ _ _ now h db.session_tokens n f
spent_stays h db (create down g who now expires) n f = f
spent_stays h db (redeem down g now) n f = elim (Bool-cases (down redeem_token)) [
  | inl e ↦ rw (e, after_call, redeem_session_token, revoke_api_session) f
  | inr e ↦
      rw (e, after_call, redeem_session_token, revoke_api_session)
        (filter-IsFree _ h db.session_tokens f)
]
spent_stays h db (look_up down g now) n f = f
spent_stays h db (revoke down g) n f = elim (Bool-cases (down delete_session)) [
  | inl e ↦ rw (e, after_call, redeem_session_token, revoke_api_session) f
  | inr e ↦ rw (e, after_call, redeem_session_token, revoke_api_session) f
]

All-spent_stay :
    (h : Bytes) (db : Tables) (cs : List TokenCall)
    → All (IsNoMint h) cs
    → IsFree h db.session_tokens
    → IsFree h (after_calls db cs).session_tokens
unfolding after_calls
All-spent_stay h db [] a f = f
All-spent_stay h db (c ∷ cs) (n, a) f =
    All-spent_stay h (after_call db c) cs a (spent_stays h db c n f)

-- A redemption that succeeds found a live row, and dropped it.
data Redeemed (db : Tables) (h : Bytes) (now : ℕ) (who : SessionIdentity) (db' : Tables)
    : Type 0 where
  redeemed :
      (r : TokenRow)
      → find (is_live h now) db.session_tokens ≡ some r
      → r.identity ≡ who
      → db'.session_tokens ≡ filter (λ x. not (is_live h now x)) db.session_tokens
      → Redeemed db h now who db'

redeem-Redeemed :
    (down : Statement → Bool) (db : Tables) (h : Bytes) (now : ℕ) (who : SessionIdentity)
    → (redeem_session_token down db h now).0 ≡ ok who
    → Redeemed db h now who (redeem_session_token down db h now).1
unfolding redeem_session_token scan_identity
redeem-Redeemed down db h now who e = elim (Bool-cases (down redeem_token)) [
  | inl t ↦ absurd (ground arith)
  | inr f ↦ elim (Option-cases (find (is_live h now) db.session_tokens)) [
    | inl n ↦ absurd (ground arith)
    | inr (r, m) ↦ redeemed r m (ground arith) (rw f refl)
  ]
]

free_redeem :
    (down : Statement → Bool) (h : Bytes) (db : Tables) (now : ℕ) (who : SessionIdentity)
    → IsFree h db.session_tokens
    → ¬ ((redeem_session_token down db h now).0 ≡ ok who)
free_redeem down h db now who f e = elim (redeem-Redeemed down db h now who e) [
  | redeemed r m _ _ ↦ cc (find_free h now db.session_tokens f)
]

redeem_spends :
    (down : Statement → Bool) (h : Bytes) (db : Tables) (now : ℕ) (who : SessionIdentity)
    → HasKeys db
    → (redeem_session_token down db h now).0 ≡ ok who
    → IsFree h (redeem_session_token down db h now).1.session_tokens
redeem_spends down h db now who k e = elim (redeem-Redeemed down db h now who e) [
  | redeemed r m _ q ↦ rw q (read-IsFree h now db.session_tokens r k.minted m)
]

-- A token that was redeemed is never redeemed again: not after any calls that do not mint its hash
-- anew, not at any time and not whatever the clocks said, where the tables had their primary keys.
pub redeemed_once :
    (down again : Statement → Bool) (db : Tables) (h : Bytes) (now then : ℕ)
    (who other : SessionIdentity) (cs : List TokenCall)
    → HasKeys db
    → (redeem_session_token down db h now).0 ≡ ok who
    → All (IsNoMint h) cs
    → ¬ (
        (redeem_session_token again
          (after_calls (redeem_session_token down db h now).1 cs)
          h
          then).0
        ≡ ok other)
redeemed_once down again db h now then who other cs k e a =
    free_redeem again h _ then other (All-spent_stay h _ cs a (redeem_spends down h db now who k e))

not_read :
    (h g : Bytes) (now : ℕ) (r : TokenRow) (rows : List TokenRow)
    → ¬ (g ≡ h)
    → Names h r rows
    → not (is_live g now r) ≡ true
unfolding is_live
not_read h g now r rows n f = rw (other_hash g r (λ e. n (sym e ∙ named_hash h r rows f))) refl

still_named :
    (h : Bytes) (r : TokenRow) (db : Tables) (c : TokenCall)
    → IsNoUse h r.expires_at c
    → Names h r db.session_tokens
    → Names h r (after_call db c).session_tokens
unfolding after_call mint_session_token create_api_session redeem_session_token revoke_api_session
still_named h r db (mint down g who now expires) n f =
    insert-Names _ _ _ now h r db.session_tokens n f
still_named h r db (create down g who now expires) n f = f
still_named h r db (redeem down g now) n f = elim (Bool-cases (down redeem_token)) [
  | inl e ↦ rw (e, after_call, redeem_session_token, revoke_api_session) f
  | inr e ↦
      rw (e, after_call, redeem_session_token, revoke_api_session)
        (filter-Names _ h r db.session_tokens (not_read h g now r db.session_tokens n f) f)
]
still_named h r db (look_up down g now) n f = f
still_named h r db (revoke down g) n f = elim (Bool-cases (down delete_session)) [
  | inl e ↦ rw (e, after_call, redeem_session_token, revoke_api_session) f
  | inr e ↦ rw (e, after_call, redeem_session_token, revoke_api_session) f
]

All-still_named :
    (h : Bytes) (r : TokenRow) (db : Tables) (cs : List TokenCall)
    → All (IsNoUse h r.expires_at) cs
    → Names h r db.session_tokens
    → Names h r (after_calls db cs).session_tokens
unfolding after_calls
All-still_named h r db [] a f = f
All-still_named h r db (c ∷ cs) (n, a) f =
    All-still_named h r (after_call db c) cs a (still_named h r db c n f)

mint-Names :
    (down : Statement → Bool) (db : Tables) (h : Bytes) (who : SessionIdentity) (now expires : ℕ)
    → (mint_session_token down db h who now expires).0 ≡ ok tt
    → Names h
        (token_row h who expires)
        (mint_session_token down db h who now expires).1.session_tokens
unfolding mint_session_token insert_swept insert_row token_row has_hash
mint-Names down db h who now expires e = elim (Bool-cases (down sweep_tokens)) [
  | inl t ↦ absurd (ground arith)
  | inr f ↦ elim (Bool-cases (down insert_token)) [
    | inl t ↦ absurd (ground arith)
    | inr g ↦ elim (Bool-cases (any (has_hash h) (filter (is_unexpired now) db.session_tokens))) [
      | inl t ↦ absurd (ground arith)
      | inr q ↦ rw (f, g, q) (rw (bytes_eq_refl h) refl)
    ]
  ]
]

-- A token whose minting succeeded is redeemed to the identity it was minted for, as long as it has not
-- expired and the database runs the statement, whatever was called in between: mints before the
-- expiry (of this or any hash), redemptions of other tokens, and everything on API sessions.
pub minted_redeems :
    (down again : Statement → Bool) (db : Tables) (h : Bytes) (who : SessionIdentity)
    (now expires then : ℕ) (cs : List TokenCall)
    → (mint_session_token down db h who now expires).0 ≡ ok tt
    → All (IsNoUse h expires) cs
    → then < expires
    → again redeem_token ≡ false
    → (redeem_session_token again
        (after_calls (mint_session_token down db h who now expires).1 cs)
        h
        then).0
      ≡ ok who
unfolding redeem_session_token scan_identity token_row
minted_redeems down again db h who now expires then cs e a late up =
    let named =
      All-still_named h (token_row h who expires) _ cs a (mint-Names down db h who now expires e) in
    rw up (rw (find_live h (token_row h who expires) then _ named late) refl)
