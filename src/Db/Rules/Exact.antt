-- ===== src/Db/Rules/Exact.antt =====
-- What a grant or a revocation changes: exactly the rules that it names.
use mathlib.Core.Path.{subst}
use proxpass.Base.{
  ℕ, ◌+◌, Bool, true, not, List, [], ◌∷◌, ok, parts_ok, any, Elem, Any-append, Any-filter_iff,
  Any-take, Any-give, Any-weaken, ◌≡◌, ◌↔◌, ◌⊎◌, inl, inr, refl, sym, ◌∙◌, arith, Bool-cases,
}
use proxpass.Models.{RuleType, RuleRow}
use proxpass.Db.State.{Tables, Statement, begin, commit, prepare, insert_rule, delete_rule, run}
use proxpass.Db.Access.{is_rule}
use proxpass.Db.Access.Spec.{HasRule}
use proxpass.Db.Access.Laws.{HasRule-iff, is_rule_iff}
use proxpass.Db.Runs.{transact_ok, run_ok}
use proxpass.Db.Rules.{add_rule, drop_rule, add_rules, grant_access, revoke_access}

-- The rule is the one named.
abbrev pub IsSame : RuleType → ℕ → ℕ → RuleType → ℕ → ℕ → Type 0
IsSame k s t j u v = (k ≡ j) × (s ≡ u) × (t ≡ v)

-- The rule is one of those granted.
abbrev pub IsGranted : RuleType → ℕ → List ℕ → RuleType → ℕ → ℕ → Type 0
IsGranted k s ts j u v = (k ≡ j) × (s ≡ u) × Elem v ts

add_rule_iff :
    (k : RuleType) (s t id : ℕ) (rules : List RuleRow) (j : RuleType) (u v : ℕ)
    → HasRule (add_rule k s t id rules) j u v ↔ (HasRule rules j u v ⊎ IsSame k s t j u v)
unfolding add_rule
add_rule_iff k s t id rules j u v = elim (Bool-cases (any (is_rule k s t) rules)) [
  | inl e ↦ rw e (
    inl,
    λ h. elim h [
      | inl r ↦ r
      | inr (a, b, c) ↦
          subst (λ y. HasRule rules j u y) c
            (subst (λ y. HasRule rules j y t) b
              (subst (λ y. HasRule rules y s t) a ((HasRule-iff rules k s t).0 e)))
    ],
  )
  | inr e ↦
      let added : RuleRow = record { id = id; kind = k; subject_id = s; target_id = t } in
      let both =
        Any-append (λ (r : RuleRow). (r.kind ≡ j) × (r.subject_id ≡ u) × (r.target_id ≡ v)) rules
          (added ∷ []) in
      rw e (ground (arith, both))
]

add_rules_rest :
    (down : Statement → Bool) (st : RuleType → ℕ → ℕ → Statement) (k : RuleType) (s t : ℕ)
    (ts : List ℕ) (id : ℕ) (rules : List RuleRow) (table : ℕ × List RuleRow)
    → add_rules down st k s (t ∷ ts) (id, rules) ≡ ok table
    → add_rules down st k s ts (id + 1, add_rule k s t id rules) ≡ ok table
unfolding add_rules run
add_rules_rest down st k s t ts id rules table e = ground arith

add_rules_iff :
    (down : Statement → Bool) (st : RuleType → ℕ → ℕ → Statement) (k : RuleType) (s : ℕ)
    (ts : List ℕ) (id : ℕ) (rules : List RuleRow) (table : ℕ × List RuleRow) (j : RuleType)
    (u v : ℕ)
    → add_rules down st k s ts (id, rules) ≡ ok table
    → HasRule table.1 j u v ↔ (HasRule rules j u v ⊎ IsGranted k s ts j u v)
unfolding add_rules run
add_rules_iff down st k s [] id rules table j u v e =
    let same : (id, rules) ≡ table = ground arith in
    subst
      (λ (w : ℕ × List RuleRow). HasRule w.1 j u v ↔ (HasRule rules j u v ⊎ IsGranted k s [] j u v))
      same (ground arith)
add_rules_iff down st k s (t ∷ ts) id rules table j u v e =
    let rest =
      add_rules_iff down st k s ts (id + 1) (add_rule k s t id rules) table j u v
        (add_rules_rest down st k s t ts id rules table e) in
    ground (arith, rest, add_rule_iff k s t id rules j u v)

abbrev IsRow : RuleType → ℕ → ℕ → RuleRow → Type 0
IsRow j u v r = (r.kind ≡ j) × (r.subject_id ≡ u) × (r.target_id ≡ v)

other_row :
    (k : RuleType) (s t : ℕ) (j : RuleType) (u v : ℕ) (r : RuleRow)
    → ¬ IsSame k s t j u v
    → IsRow j u v r
    → not (is_rule k s t r) ≡ true
other_row k s t j u v r n (a, b, c) = elim (Bool-cases (is_rule k s t r)) [
  | inl e ↦
      let (a', b', c') = (is_rule_iff k s t r).0 e in
      absurd (n (sym a' ∙ a, sym b' ∙ b, sym c' ∙ c))
  | inr e ↦ rw e refl
]

IsSame-row :
    (k : RuleType) (s t : ℕ) (j : RuleType) (u v : ℕ) (r : RuleRow)
    → IsRow j u v r
    → not (is_rule k s t r) ≡ true
    → ¬ IsSame k s t j u v
IsSame-row k s t j u v r (a, b, c) e (a', b', c') =
    let named = (is_rule_iff k s t r).1 (a ∙ sym a', b ∙ sym b', c ∙ sym c') in cc named

drop_rule_iff :
    (k : RuleType) (s t : ℕ) (rules : List RuleRow) (j : RuleType) (u v : ℕ)
    → HasRule (drop_rule k s t rules) j u v ↔ (HasRule rules j u v × (¬ IsSame k s t j u v))
unfolding drop_rule
drop_rule_iff k s t rules j u v =
    let kept = Any-filter_iff (λ r. not (is_rule k s t r)) (IsRow j u v) rules in
    (
      λ h.
          let (r, (p, e), m) = Any-take _ rules (kept.0 h) in
          (Any-give (IsRow j u v) rules r p m, IsSame-row k s t j u v r p e),
      λ (h, n). kept.1 (Any-weaken _ _ rules (λ r p. (p, other_row k s t j u v r n p)) h),
    )

-- After a grant of access to guests that succeeded there is a rule exactly where there was one before,
-- and for the grantee and each granted guest.
pub grant_access_exact :
    (down : Statement → Bool) (db db' : Tables) (k : RuleType) (s : ℕ) (ts : List ℕ)
    → grant_access down db k s ts ≡ (ok tt, db')
    → (j : RuleType) (u v : ℕ)
    → HasRule db'.access_rules j u v ↔ (HasRule db.access_rules j u v ⊎ IsGranted k s ts j u v)
unfolding grant_access
grant_access_exact down db db' k s ts e j u v =
    let work = run_ok down prepare _ _ (run_ok down begin _ _ (transact_ok db _ tt db' e)) in
    let (table, added, rest) =
      parts_ok (add_rules down insert_rule k s ts (db.next_rule_id, db.access_rules)) _ work in
    let done = run_ok down commit _ _ rest in
    let same : table.1 ≡ db'.access_rules = ground arith in
    subst (λ rules. HasRule rules j u v ↔ (HasRule db.access_rules j u v ⊎ IsGranted k s ts j u v))
      same (add_rules_iff down insert_rule k s ts db.next_rule_id db.access_rules table j u v added)

-- After a revocation that succeeded there is a rule exactly where there was one before, but for the
-- rule that was named.
pub revoke_access_exact :
    (down : Statement → Bool) (db db' : Tables) (k : RuleType) (s t : ℕ)
    → revoke_access down db k s t ≡ (ok tt, db')
    → (j : RuleType) (u v : ℕ)
    → HasRule db'.access_rules j u v ↔ (HasRule db.access_rules j u v × (¬ IsSame k s t j u v))
unfolding revoke_access
revoke_access_exact down db db' k s t e j u v = elim (Bool-cases (down (delete_rule k s t))) [
  | inl q ↦ absurd (ground arith)
  | inr q ↦
      let same : drop_rule k s t db.access_rules ≡ db'.access_rules = ground arith in
      subst
        (λ rules. HasRule rules j u v ↔ (HasRule db.access_rules j u v × (¬ IsSame k s t j u v)))
        same (drop_rule_iff k s t db.access_rules j u v)
]
