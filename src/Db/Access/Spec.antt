-- ===== src/Db/Access/Spec.antt =====
-- What the access rules mean, with no statements and no order of evaluation in it.
use proxpass.Base.{ℕ, some, List, ◌≡◌, ◌==◌, true, find, Any}
use proxpass.Models.{Client, RuleType, client, group, RuleRow, DefaultAccessPolicy}
use proxpass.Db.State.{Tables}

abbrev pub HasRule : List RuleRow → RuleType → ℕ → ℕ → Type 0
HasRule rules k s t = Any (λ r. (r.kind ≡ k) × (r.subject_id ≡ s) × (r.target_id ≡ t)) rules

-- Membership is stored on both sides and either is enough. `id` is a primary key, so the first row
-- that has it is the row.
pub data IsMember (db : Tables) (c : ℕ) (g : ℕ) : Type 0 where
  client_side :
      (row : Client)
      → find (λ r. r.id == c) db.clients ≡ some row
      → Any (λ x. x ≡ g) row.group_ids
      → IsMember db c g
  group_side : Any (λ r. (r.id ≡ g) × Any (λ m. m ≡ c) r.client_ids) db.groups → IsMember db c g

-- The policy's last tier.
pub data IsNamed (db : Tables) (p : DefaultAccessPolicy) (c : ℕ) : Type 0 where
  named_client : Any (λ x. x ≡ c) p.authorized_client_ids → IsNamed db p c
  named_group : (g : ℕ) → IsMember db c g → Any (λ x. x ≡ g) p.authorized_group_ids → IsNamed db p c

-- A grant on a guest: by a rule for the client, by a rule for one of its groups, or by the policy.
pub data MayReachGuest (db : Tables) (c t : ℕ) : Type 0 where
  direct : HasRule db.access_rules client c t → MayReachGuest db c t
  by_group : (g : ℕ) → IsMember db c g → HasRule db.access_rules group g t → MayReachGuest db c t
  by_policy :
      (p : DefaultAccessPolicy) → db.default_policy ≡ some p → IsNamed db p c → MayReachGuest db c t

-- A grant on a node: the same over the other table, but the policy counts only with `node_access`.
pub data MayReachNode (db : Tables) (c t : ℕ) : Type 0 where
  direct : HasRule db.instance_access_rules client c t → MayReachNode db c t
  by_group :
      (g : ℕ) → IsMember db c g → HasRule db.instance_access_rules group g t → MayReachNode db c t
  by_policy :
      (p : DefaultAccessPolicy)
      → db.default_policy ≡ some p
      → p.node_access ≡ true
      → IsNamed db p c
      → MayReachNode db c t
