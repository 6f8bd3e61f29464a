-- ===== src/Db/Access/Decision.antt =====
-- HasAccess and HasInstanceAccess decide the specification: whichever statements fail, an answer is
-- never wrong, and there is an answer when none fails.
use proxpass.Base.{
  ℕ, Bool, true, false, List, [], ◌∷◌, Result, ok, ◌>>=◌, ◌≡◌, refl, sym, ap, ◌∙◌, if◌then◌else◌,
  any,
}
use proxpass.Models.{RuleType, client, RuleRow, DefaultAccessPolicy}
use proxpass.Db.State.{Tables, DbError, Statement, select_rule, select_instance_rule, run, MapOrder}
use proxpass.Db.Access.{
  is_rule, client_group_ids, get_default_policy, policy_or_zero, group_rule, policy_names,
  has_access, has_instance_access,
}
use proxpass.Db.Access.Spec.{MayReachGuest, MayReachNode}
use proxpass.Db.Access.Laws.{
  HasRule-iff, run-eq-ok, Decides, Decides-bind, Decides-if, ok-Decides, group_tier_true,
  group_tier_false, policy_tier, policy-eq, collected, IsNamed-some, some_named,
}

module _ (down : Statement → Bool) (o : MapOrder) (db : Tables) (c t : ℕ) where
  guest_by_policy :
      policy_names (policy_or_zero db.default_policy) c (collected o db c) ≡ true
      → MayReachGuest db c t
  guest_by_policy h =
      let (p, e, _, n) = IsNamed-some o db c db.default_policy h in MayReachGuest.by_policy p e n

  -- With no rule for the client and none for its groups, only the policy is left.
  policy_of_guest :
      (gs : List ℕ)
      → client_group_ids down o db c ≡ ok gs
      → any (is_rule client c t) db.access_rules ≡ false
      → group_rule down select_rule db.access_rules t gs ≡ ok false
      → MayReachGuest db c t
      → policy_names (policy_or_zero db.default_policy) c (collected o db c) ≡ true
  policy_of_guest gs hg hd hv (MayReachGuest.direct r) = cc ((HasRule-iff _ _ _ _).1 r)
  policy_of_guest gs hg hd hv (MayReachGuest.by_group g m r) =
      absurd (group_tier_false down o db c t select_rule db.access_rules gs g hg hv m r)
  policy_of_guest gs hg hd hv (MayReachGuest.by_policy p e n) = some_named o db c _ p e n

  -- Whatever HasAccess answers is the truth about the rules, on every path through its three tiers and
  -- whichever statements fail; when it gives no answer it reports an error.
  pub has_access-Decides : Decides (MayReachGuest db c t) (has_access down o db c t)
  unfolding has_access
  has_access-Decides = Decides-bind _ _ _ λ d hd.
      let direct = run-eq-ok down (select_rule client c t) hd in
      Decides-if _ d _ _ (λ e. MayReachGuest.direct ((HasRule-iff _ _ _ _).0 (direct ∙ e)))
        λ e. Decides-bind _ _ _ λ gs hg. Decides-bind _ _ _ λ via hv.
          Decides-if _ via _ _
            (λ ev.
              let (g, m, r) =
                group_tier_true down o db c t select_rule db.access_rules gs hg (hv ∙ ap ok ev) in
              MayReachGuest.by_group g m r)
            λ ev. Decides-bind _ _ _ λ p hp.
              let same = policy_tier down o db c t gs p hg hp in
              ok-Decides _ _ (λ n. guest_by_policy (sym same ∙ n))
                (λ r. same ∙ policy_of_guest gs hg (direct ∙ e) (hv ∙ ap ok ev) r)

  node_by_policy :
      (policy_or_zero db.default_policy).node_access ≡ true
      → policy_names (policy_or_zero db.default_policy) c (collected o db c) ≡ true
      → MayReachNode db c t
  node_by_policy a h =
      let (p, e, same, n) = IsNamed-some o db c db.default_policy h in
      MayReachNode.by_policy p e (sym (ap (λ (q : DefaultAccessPolicy). q.node_access) same) ∙ a) n

  policy_of_node :
      (gs : List ℕ)
      → client_group_ids down o db c ≡ ok gs
      → any (is_rule client c t) db.instance_access_rules ≡ false
      → group_rule down select_instance_rule db.instance_access_rules t gs ≡ ok false
      → MayReachNode db c t
      → ((policy_or_zero db.default_policy).node_access ≡ true)
        × (policy_names (policy_or_zero db.default_policy) c (collected o db c) ≡ true)
  unfolding policy_or_zero
  policy_of_node gs hg hd hv (MayReachNode.direct r) = cc ((HasRule-iff _ _ _ _).1 r)
  policy_of_node gs hg hd hv (MayReachNode.by_group g m r) =
      absurd (group_tier_false down o db c t select_instance_rule _ gs g hg hv m r)
  policy_of_node gs hg hd hv (MayReachNode.by_policy p e a n) =
      (rw e a, some_named o db c db.default_policy p e n)

  -- Whatever HasInstanceAccess answers is the truth about the node rules: the default policy counts
  -- only where its node_access flag is on. Without an answer there is an error.
  pub has_instance_access-Decides :
      Decides (MayReachNode db c t) (has_instance_access down o db c t)
  unfolding has_instance_access
  has_instance_access-Decides = Decides-bind _ _ _ λ d hd.
      let direct = run-eq-ok down (select_instance_rule client c t) hd in
      Decides-if _ d _ _ (λ e. MayReachNode.direct ((HasRule-iff _ _ _ _).0 (direct ∙ e)))
        λ e. Decides-bind _ _ _ λ gs hg. Decides-bind _ _ _ λ via hv.
          Decides-if _ via _ _
            (λ ev.
              let (g, m, r) =
                group_tier_true down o db c t select_instance_rule _ gs hg (hv ∙ ap ok ev) in
              MayReachNode.by_group g m r)
            λ ev. Decides-bind _ _ _ λ p hp.
              let same = policy_tier down o db c t gs p hg hp in
              let flag = ap (λ (q : DefaultAccessPolicy). q.node_access) (policy-eq down db p hp) in
              let reach = policy_of_node gs hg (direct ∙ e) (hv ∙ ap ok ev) in
              Decides-if _ p.node_access _ _
                (λ a.
                  ok-Decides _ _ (λ n. node_by_policy (sym flag ∙ a) (sym same ∙ n))
                    (λ r. same ∙ (reach r).1))
                (λ a r. cc (flag ∙ (reach r).0))

-- A statement that does not fail is answered.
run-up {ℓ} :
    {A : Type ℓ} (down : Statement → Bool) (st : Statement) (a : A)
    → down st ≡ false
    → run down st a ≡ ok a
unfolding run
run-up down st a e = rw e refl

-- The call returns a value, not an error.
abbrev pub Answers {ℓ} : {A : Type ℓ} → Result DbError A → Type ℓ
Answers {A} r = (a : A) × (r ≡ ok a)

Answers-bind {ℓ κ} :
    {A : Type ℓ} {B : Type κ} (m : Result DbError A) (f : A → Result DbError B)
    → Answers m
    → ((a : A) → Answers (f a))
    → Answers (m >>= f)
Answers-bind m f (a, e) k = rw e (k a)

Answers-if {ℓ} :
    {A : Type ℓ} (b : Bool) (x y : Result DbError A)
    → Answers x
    → Answers y
    → Answers (if b then x else y)
Answers-if true x y h k = h
Answers-if false x y h k = k

module _ (down : Statement → Bool) (up : (st : Statement) → down st ≡ false) where
  run-Answers {ℓ} : {A : Type ℓ} (st : Statement) (a : A) → Answers (run down st a)
  run-Answers st a = (a, run-up down st a (up st))

  group_rule-Answers :
      (st : RuleType → ℕ → ℕ → Statement) (rules : List RuleRow) (t : ℕ) (gs : List ℕ)
      → Answers (group_rule down st rules t gs)
  unfolding group_rule
  group_rule-Answers st rules t [] = (false, refl)
  group_rule-Answers st rules t (g ∷ gs) =
      let rest = group_rule-Answers st rules t gs in
      Answers-bind _ _ (run-Answers _ _) λ found. Answers-if found _ _ (true, refl) rest

  module _ (o : MapOrder) (db : Tables) where
    client_group_ids-Answers : (c : ℕ) → Answers (client_group_ids down o db c)
    unfolding client_group_ids
    client_group_ids-Answers c =
        Answers-bind _ _ (run-Answers _ _)
          λ row. Answers-bind _ _ (run-Answers _ _) λ rows. (_, refl)

    get_default_policy-Answers : Answers (get_default_policy down db)
    unfolding get_default_policy
    get_default_policy-Answers = Answers-bind _ _ (run-Answers _ _) λ row. (_, refl)

    -- When the database answers every statement, both checks return a decision.
    pub access-Answers :
        (c t : ℕ) → Answers (has_access down o db c t) × Answers (has_instance_access down o db c t)
    unfolding has_access has_instance_access
    access-Answers c t = (
      Answers-bind _ _ (run-Answers _ _) λ d.
          Answers-if d _ _ (true, refl)
            (Answers-bind _ _ (client_group_ids-Answers c) λ gs.
              Answers-bind _ _ (group_rule-Answers _ _ t gs) λ via.
                Answers-if via _ _ (true, refl)
                  (Answers-bind _ _ get_default_policy-Answers λ p. (_, refl))),
      Answers-bind _ _ (run-Answers _ _) λ d.
          Answers-if d _ _ (true, refl)
            (Answers-bind _ _ (client_group_ids-Answers c) λ gs.
              Answers-bind _ _ (group_rule-Answers _ _ t gs) λ via.
                Answers-if via _ _ (true, refl)
                  (Answers-bind _ _ get_default_policy-Answers
                    λ p. Answers-if p.node_access _ _ (_, refl) (_, refl))),
    )
