-- ===== src/Db/Tokens/Tests.antt =====
-- Witnesses and a run of the token tables: alice's token is minted at 100 for 60 seconds, bob's while
-- it is outstanding.
use proxpass.Base.{codes, bytes_eq, false, List, [], ◌∷◌, ok, err, ◌≡◌, refl}
use proxpass.Models.{SessionIdentity}
use proxpass.Db.State.{Tables, no_such_token}
use proxpass.Db.Tests.{all_up, deployment}
use proxpass.Db.Tokens.{
  has_hash, is_unexpired, is_live, scan_identity, insert_row, insert_swept, token_row,
  mint_session_token, redeem_session_token, create_api_session, lookup_api_session,
  revoke_api_session,
}
use proxpass.Db.Tokens.Lifecycle.{
  TokenCall, mint, create, redeem, look_up, revoke, after_call, after_calls, HasKeys,
}

abbrev pub alice : SessionIdentity
alice = record {
  login_name = codes "pp-alice";
  identity_name = codes "alice";
  is_admin = false;
  client_id = 1;
}

abbrev bob : SessionIdentity
bob = record alice { identity_name = codes "bob"; client_id = 2 }

abbrev with_token : Tables
with_token = record deployment { session_tokens = token_row (codes "h1") alice 160 ∷ [] }

abbrev traffic : List TokenCall
traffic =
    mint all_up (codes "h2") bob 110 170
    ∷ redeem all_up (codes "h2") 111
    ∷ create all_up (codes "h1") bob 111 900
    ∷ look_up all_up (codes "h1") 112
    ∷ revoke all_up (codes "h1")
    ∷ []

unfoldable token_code : Unit {0}
unfolding has_hash is_unexpired is_live scan_identity insert_row insert_swept token_row
    mint_session_token redeem_session_token create_api_session revoke_api_session lookup_api_session
    after_call after_calls bytes_eq
token_code = tt

with_token-HasKeys : HasKeys with_token
unfolding token_code
with_token-HasKeys = record { minted = (refl, tt); sessions = tt }

redeemed : (redeem_session_token all_up with_token (codes "h1") 120).0 ≡ ok alice
unfolding token_code
redeemed = refl

minted : (mint_session_token all_up deployment (codes "h1") alice 100 160).0 ≡ ok tt
unfolding token_code
minted = refl

expired_run : (redeem_session_token all_up with_token (codes "h1") 160).0 ≡ err no_such_token
unfolding token_code
expired_run = refl

session_run :
    lookup_api_session all_up
      (create_api_session all_up deployment (codes "h3") bob 100 160).1
      (codes "h3")
      159
    ≡ ok bob
unfolding token_code
session_run = refl
