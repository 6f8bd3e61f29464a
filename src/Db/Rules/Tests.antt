-- ===== src/Db/Rules/Tests.antt =====
-- Witnesses and runs of granting and revoking, over the deployment of Db.Tests.
use proxpass.Base.{ℕ, Bool, true, false, [], ◌∷◌, ◌++◌, ok, err, ◌≡◌, refl}
use proxpass.Models.{client, RuleRow}
use proxpass.Db.State.{Tables, Statement, storage, commit, run, transact}
use proxpass.Db.Access.{is_rule}
use proxpass.Db.Tests.{all_up, deployment}
use proxpass.Db.Rules.{
  add_rule, drop_rule, add_rules, grant_access, grant_instance_access, revoke_access,
  revoke_instance_access,
}

unfoldable rules_code : Unit {0}
unfolding add_rule drop_rule add_rules grant_access grant_instance_access revoke_access
    revoke_instance_access run transact is_rule
rules_code = tt

abbrev added : ℕ → ℕ → RuleRow
added id t = record { id = id; kind = client; subject_id = 1; target_id = t }

abbrev granted : Tables
granted = record deployment {
  access_rules = deployment.access_rules ++ added 2 10 ∷ added 4 12 ∷ [];
  next_rule_id = 5;
}

abbrev commit_down : Statement → Bool
commit_down commit = true
commit_down _ = false

-- The second 10 is there already.
grants : grant_access all_up deployment client 1 (10 ∷ 10 ∷ 12 ∷ []) ≡ (ok tt, granted)
unfolding rules_code
grants = refl

rolled_back : grant_access commit_down deployment client 1 (10 ∷ []) ≡ (err storage, deployment)
unfolding rules_code
rolled_back = refl

revokes :
    revoke_access all_up granted client 1 10
    ≡ (ok tt, record granted { access_rules = deployment.access_rules ++ added 4 12 ∷ [] })
unfolding rules_code
revokes = refl
