-- ===== src/Session/TokenTests.antt =====
-- Witnesses on the lives of tokens and credentials: alice has a minted token, or a session, while others
-- log in and leave.
use proxpass.Base.{codes, bytes_eq, some, List, [], ◌∷◌, ◌≡◌, refl, arith}
use proxpass.Db.Tests.{all_up}
use proxpass.Db.Tokens.{mint_session_token}
use proxpass.Db.Tokens.Tests.{alice}
use proxpass.Db.Tokens.Lifecycle.{HasKeys}
use proxpass.Session.{
  answered, get_session_identity, exchange_session_token, revoke_session_credential,
}
use proxpass.Session.Requests.{Request, login, exchange, leave, read, after_requests}
use proxpass.Session.Credentials.{exchanged_once}
use proxpass.Session.Lifetimes.{exchanged_identifies, left_unknown, login_exchanges}
use proxpass.Session.Tests.{
  marked, cluster, alice_token, alice_session, cred, exchanged, session_code,
}

alice_token-HasKeys : HasKeys alice_token
unfolding session_code
alice_token-HasKeys = record { minted = (refl, tt); sessions = tt }

abbrev traffic : List Request
traffic =
    login all_up (codes "#n") alice 110 170
    ∷ exchange all_up (some (codes "n")) 111 (some (codes "d")) 112
    ∷ read all_up (some (codes "c")) 113
    ∷ leave all_up (some (codes "d"))
    ∷ []

exchanged_once_example : ¬ (
    (exchange_session_token marked all_up
      (after_requests marked
        (exchange_session_token marked all_up alice_token
          (some (codes "m"))
          100
          (some (codes "c"))
          101).1
        traffic)
      (some (codes "m"))
      102
      (some (codes "e"))
      103).0
    ≡ answered cred)
exchanged_once_example =
    exchanged_once marked all_up all_up alice_token (codes "m") 100 101 102 103 (some (codes "c"))
      (some (codes "e")) cred cred traffic alice_token-HasKeys exchanged
      ((λ e. ground arith), (tt, (tt, (tt, tt))))

exchanged_identifies_example :
    get_session_identity marked [] all_up
      (after_requests marked
        (exchange_session_token marked all_up alice_token
          (some (codes "m"))
          100
          (some (codes "c"))
          101).1
        traffic)
      (some (codes "c"))
      43300
    ≡ answered cred.identity
unfolding bytes_eq
exchanged_identifies_example =
    exchanged_identifies marked [] all_up all_up alice_token (codes "m") 100 101 43300
      (some (codes "c")) cred traffic exchanged (tt, (omega arith, (tt, ((λ e. ground arith), tt))))
      (omega arith) refl refl

left_unknown_example : ¬ (
    get_session_identity marked [] all_up
      (after_requests marked
        (revoke_session_credential marked all_up alice_session (some (codes "c"))).1
        traffic)
      (some (codes "c"))
      114
    ≡ answered cred.identity)
unfolding session_code
left_unknown_example =
    left_unknown marked [] all_up all_up alice_session (codes "c") 114 cred.identity traffic refl
      (tt, ((λ e. ground arith), (tt, (tt, tt)))) refl

login_exchanges_example :
    (exchange_session_token marked all_up
      (after_requests marked
        (mint_session_token all_up cluster (codes "#m") alice 100 160).1
        traffic)
      (some (codes "m"))
      150
      (some (codes "c"))
      101).0
    ≡ answered cred
unfolding session_code
login_exchanges_example =
    login_exchanges marked all_up all_up cluster (codes "m") (codes "c") alice 100 160 150 101
      traffic refl (omega arith, ((λ e. ground arith), (tt, (tt, tt)))) (omega arith) refl refl refl
      refl
