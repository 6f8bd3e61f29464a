-- ===== src/Db/Access.antt =====
-- internal/db/sql_repository.go: who may reach a guest or a node (clientGroupIDs, GetDefaultPolicy,
-- HasAccess, HasInstanceAccess).
pub mod Spec
pub mod Laws
pub mod Decision
use proxpass.Base.{
  ℕ, Bool, true, false, ◌&&◌, ◌||◌, Option, none, some, List, [], ◌∷◌, Result, ok, ◌>>=◌, ◌==◌,
  if◌then◌else◌, any, find,
}
use proxpass.Models.{
  Client, Group, RuleType, client, group, rule_type_eq, RuleRow, DefaultAccessPolicy,
}
use proxpass.Db.State.{
  Tables, DbError, Statement, select_rule, select_instance_rule, select_client_groups,
  select_groups, select_policy, run, MapOrder,
}

-- The row test of `WHERE type = ? AND subject_id = ? AND target = ?`.
unfoldable pub is_rule : RuleType → ℕ → ℕ → RuleRow → Bool
is_rule k s t r = rule_type_eq r.kind k && r.subject_id == s && r.target_id == t

-- `seen[id] = struct{}{}`
unfoldable pub add_seen : List ℕ → ℕ → List ℕ
add_seen seen id = if any (λ x. x == id) seen then seen else id ∷ seen

unfoldable pub add_all : List ℕ → List ℕ → List ℕ
add_all seen [] = seen
add_all seen (id ∷ ids) = add_all (add_seen seen id) ids

-- The groups whose client_ids name the client.
unfoldable pub add_groups : ℕ → List ℕ → List Group → List ℕ
add_groups c seen [] = seen
add_groups c seen (g ∷ gs) =
    add_groups c (if any (λ m. m == c) g.client_ids then add_seen seen g.id else seen) gs

-- The group ids on the client's own row; none where there is no row.
unfoldable pub row_groups : Option Client → List ℕ
row_groups none = []
row_groups (some c) = c.group_ids

-- The last tier: the policy names the client, or one of its groups.
unfoldable pub policy_names : DefaultAccessPolicy → ℕ → List ℕ → Bool
policy_names p c gs =
    any (λ x. x == c) p.authorized_client_ids
    || any (λ a. any (λ m. a == m) gs) p.authorized_group_ids

-- A missing row is the zero value: nobody is authorized.
unfoldable pub policy_or_zero : Option DefaultAccessPolicy → DefaultAccessPolicy
policy_or_zero none = record {
  authorized_client_ids = [];
  authorized_group_ids = [];
  node_access = false;
}
policy_or_zero (some p) = p

module _ (down : Statement → Bool) where
  unfoldable pub get_default_policy : Tables → Result DbError DefaultAccessPolicy
  get_default_policy db = do row ← run down select_policy db.default_policy; ok (policy_or_zero row)

  -- The loop over the client's groups: one statement for each, until one has the rule.
  unfoldable pub group_rule :
      (RuleType → ℕ → ℕ → Statement) → List RuleRow → ℕ → List ℕ → Result DbError Bool
  group_rule st rules t [] = ok false
  group_rule st rules t (g ∷ gs) = do
    found ← run down (st group g t) (any (is_rule group g t) rules)
    let rest = group_rule st rules t gs
    if found then ok true else rest

module _ (down : Statement → Bool) (o : MapOrder) where
  unfoldable pub client_group_ids : Tables → ℕ → Result DbError (List ℕ)
  client_group_ids db c = do
    row ← run down (select_client_groups c) (find (λ r. r.id == c) db.clients)
    let seen = add_all [] (row_groups row)
    rows ← run down select_groups db.groups
    ok (o.order (add_groups c seen rows))

  unfoldable pub has_access : Tables → ℕ → ℕ → Result DbError Bool
  has_access db c t = do
    direct ← run down (select_rule client c t) (any (is_rule client c t) db.access_rules)
    if direct then ok true else do
      gs ← client_group_ids db c
      via ← group_rule down select_rule db.access_rules t gs
      if via then ok true else do p ← get_default_policy down db; ok (policy_names p c gs)

  unfoldable pub has_instance_access : Tables → ℕ → ℕ → Result DbError Bool
  has_instance_access db c t = do
    direct ←
        run down (select_instance_rule client c t)
          (any (is_rule client c t) db.instance_access_rules)
    if direct then ok true else do
      gs ← client_group_ids db c
      via ← group_rule down select_instance_rule db.instance_access_rules t gs
      if via then ok true else do
        p ← get_default_policy down db
        if p.node_access then ok (policy_names p c gs) else ok false
