-- ===== src/Db/Access/Laws.antt =====
-- The lookups of sql_repository.go answer as the specification says, whatever statements fail.
use mathlib.Core.Path.{subst}
use proxpass.Base.{
  ℕ, Bool, true, false, Option, none, some, List, [], ◌∷◌, Result, ok, err, ◌>>=◌, ◌≡◌, ◌↔◌, ◌⊎◌,
  inl, inr, refl, sym, arith, ◌==◌, if◌then◌else◌, any, find, Any, Elem, Elem-iff, Elem-back_iff,
  Any-take, Any-give, Bool-cases,
}
use proxpass.Models.{Client, Group, RuleType, client, group, RuleRow, DefaultAccessPolicy}
use proxpass.Db.State.{Tables, DbError, Statement, run, MapOrder}
use proxpass.Db.Access.{
  is_rule, add_seen, add_all, add_groups, row_groups, client_group_ids, get_default_policy,
  policy_or_zero, group_rule, policy_names,
}
use proxpass.Db.Access.Spec.{
  HasRule, IsMember, client_side, group_side, IsNamed, named_client, named_group,
}

pub is_rule_iff :
    (k : RuleType) (s t : ℕ) (r : RuleRow)
    → (is_rule k s t r ≡ true) ↔ ((r.kind ≡ k) × (r.subject_id ≡ s) × (r.target_id ≡ t))
unfolding is_rule
is_rule_iff client s t r = ground arith
is_rule_iff group s t r = ground arith

pub HasRule-iff :
    (rules : List RuleRow) (k : RuleType) (s t : ℕ)
    → (any (is_rule k s t) rules ≡ true) ↔ HasRule rules k s t
HasRule-iff [] k s t = (λ e. cc, λ h. absurd h)
HasRule-iff (r ∷ rules) k s t = ground (arith, is_rule_iff k s t r, HasRule-iff rules k s t)

add_seen_iff : (seen : List ℕ) (id a : ℕ) → Elem a (add_seen seen id) ↔ (Elem a seen ⊎ (id ≡ a))
unfolding add_seen
add_seen_iff seen id a = elim (Bool-cases (any (λ x. x == id) seen)) [
  | inl e ↦
      rw e (
        inl,
        λ s. elim s [ inl h ↦ h | inr p ↦ subst (λ b. Elem b seen) p ((Elem-iff seen id).0 e) ],
      )
  | inr e ↦ rw e (ground arith)
]

add_all_iff : (seen ids : List ℕ) (a : ℕ) → Elem a (add_all seen ids) ↔ (Elem a seen ⊎ Elem a ids)
unfolding add_all
add_all_iff seen [] a = ground arith
add_all_iff seen (id ∷ ids) a =
    ground (arith, add_all_iff (add_seen seen id) ids a, add_seen_iff seen id a)

-- The group side of a membership.
abbrev Lists : ℕ → ℕ → List Group → Type 0
Lists c g gs = Any (λ r. (r.id ≡ g) × Elem c r.client_ids) gs

add_groups_iff :
    (c : ℕ) (seen : List ℕ) (gs : List Group) (a : ℕ)
    → Elem a (add_groups c seen gs) ↔ (Elem a seen ⊎ Lists c a gs)
unfolding add_groups
add_groups_iff c seen [] a = ground arith
add_groups_iff c seen (g ∷ gs) a = elim (Bool-cases (any (λ m. m == c) g.client_ids)) [
  | inl e ↦ rw e (
      ground (
        arith,
        add_groups_iff c (add_seen seen g.id) gs a,
        add_seen_iff seen g.id a,
        Elem-iff g.client_ids c,
      ))
  | inr e ↦ rw e (ground (arith, add_groups_iff c seen gs a, Elem-iff g.client_ids c))
]

-- What a query that was answered has answered.
pub run-eq-ok {ℓ} :
    {A : Type ℓ} (down : Statement → Bool) (st : Statement) {a b : A} → run down st a ≡ ok b → a ≡ b
unfolding run
run-eq-ok down st h = ground arith

-- An answer, if there is one, is the truth about `G`.
abbrev pub Decides : Type 0 → Result DbError Bool → Type 0
Decides G (ok true) = G
Decides G (ok false) = ¬ G
Decides G (err e) = Unit

row-IsMember :
    (db : Tables) (c g : ℕ) (row : Option Client)
    → find (λ r. r.id == c) db.clients ≡ row
    → Elem g (row_groups row)
    → IsMember db c g
unfolding row_groups
row-IsMember db c g none e h = absurd h
row-IsMember db c g (some row) e h = client_side row e h

IsMember-of_seen :
    (db : Tables) (c g : ℕ)
    → (Elem g (row_groups (find (λ r. r.id == c) db.clients)) ⊎ Lists c g db.groups)
    → IsMember db c g
IsMember-of_seen db c g (inl h) = row-IsMember db c g _ refl h
IsMember-of_seen db c g (inr h) = group_side h

seen_of_member :
    (db : Tables) (c g : ℕ)
    → IsMember db c g
    → Elem g (row_groups (find (λ r. r.id == c) db.clients)) ⊎ Lists c g db.groups
unfolding row_groups
seen_of_member db c g (client_side row e h) = inl (rw e h)
seen_of_member db c g (group_side h) = inr h

-- The ids that are collected when both statements are answered.
abbrev pub collected : MapOrder → Tables → ℕ → List ℕ
collected o db c =
    o.order (add_groups c (add_all [] (row_groups (find (λ r. r.id == c) db.clients))) db.groups)

collected_iff : (o : MapOrder) (db : Tables) (c g : ℕ) → Elem g (collected o db c) ↔ IsMember db c g
collected_iff o db c g =
    let row = row_groups (find (λ r. r.id == c) db.clients) in
    let listed = o.order_iff g (add_groups c (add_all [] row) db.groups) in
    let groups = add_groups_iff c (add_all [] row) db.groups g in
    let mine = add_all_iff [] row g in
    (
      λ h. IsMember-of_seen db c g (ground (arith, listed.0 h)),
      λ m. listed.1 (ground (arith, seen_of_member db c g m)),
    )

module _ (down : Statement → Bool) where
  -- The loop over the groups finds a rule for one of them, or there is none.
  group_rule-Decides :
      (st : RuleType → ℕ → ℕ → Statement) (rules : List RuleRow) (t : ℕ) (gs : List ℕ)
      → Decides (Any (λ g. HasRule rules group g t) gs) (group_rule down st rules t gs)
  unfolding group_rule run
  group_rule-Decides st rules t [] = λ h. h
  group_rule-Decides st rules t (g ∷ gs) =
      ground (arith, HasRule-iff rules group g t, group_rule-Decides st rules t gs)

module _ (down : Statement → Bool) (o : MapOrder) where
  client_group_ids-eq :
      (db : Tables) (c : ℕ) (gs : List ℕ)
      → client_group_ids down o db c ≡ ok gs
      → gs ≡ collected o db c
  unfolding client_group_ids run
  client_group_ids-eq db c gs h = ground arith

Has_groups_iff :
    (ids gs : List ℕ) → (any (λ a. any (λ m. a == m) gs) ids ≡ true) ↔ Any (λ a. Elem a gs) ids
Has_groups_iff [] gs = (λ e. cc, λ h. absurd h)
Has_groups_iff (a ∷ ids) gs = ground (arith, Elem-back_iff gs a, Has_groups_iff ids gs)

policy_names_iff :
    (p : DefaultAccessPolicy) (c : ℕ) (gs : List ℕ)
    → (policy_names p c gs ≡ true)
      ↔ (Elem c p.authorized_client_ids ⊎ Any (λ a. Elem a gs) p.authorized_group_ids)
unfolding policy_names
policy_names_iff p c gs =
    ground (arith, Elem-iff p.authorized_client_ids c, Has_groups_iff p.authorized_group_ids gs)

-- The policy's answer over the collected groups is the specification's.
names-IsNamed :
    (o : MapOrder) (db : Tables) (p : DefaultAccessPolicy) (c : ℕ)
    → (policy_names p c (collected o db c) ≡ true) ↔ IsNamed db p c
names-IsNamed o db p c = (λ e. to ((policy_names_iff p c (collected o db c)).0 e), back)
  where
    to :
        (Elem c p.authorized_client_ids
          ⊎ Any (λ a. Elem a (collected o db c)) p.authorized_group_ids)
        → IsNamed db p c
    to (inl h) = named_client h
    to (inr h) =
        let (g, m, a) = Any-take (λ a. Elem a (collected o db c)) p.authorized_group_ids h in
        named_group g ((collected_iff o db c g).0 m) a

    back : IsNamed db p c → policy_names p c (collected o db c) ≡ true
    back (named_client h) = (policy_names_iff p c (collected o db c)).1 (inl h)
    back (named_group g m a) = (policy_names_iff p c (collected o db c)).1 (
        inr (
          Any-give (λ a. Elem a (collected o db c)) p.authorized_group_ids g
            ((collected_iff o db c g).1 m) a))

module _ (G : Type 0) where
  pub Decides-bind {ℓ} :
      {A : Type ℓ} (m : Result DbError A) (f : A → Result DbError Bool)
      → ((a : A) → m ≡ ok a → Decides G (f a))
      → Decides G (m >>= f)
  Decides-bind (ok a) f k = k a refl
  Decides-bind (err e) f k = tt

  pub Decides-if :
      (b : Bool) (x y : Result DbError Bool)
      → (b ≡ true → Decides G x)
      → (b ≡ false → Decides G y)
      → Decides G (if b then x else y)
  Decides-if true x y h k = h refl
  Decides-if false x y h k = k refl

  pub ok-Decides : (b : Bool) → (b ≡ true → G) → (G → b ≡ true) → Decides G (ok b)
  ok-Decides true f g = f refl
  ok-Decides false f g = λ h. cc (g h)

  Decides_true : (r : Result DbError Bool) → r ≡ ok true → Decides G r → G
  Decides_true r e d = subst (Decides G) e d

  Decides-false : (r : Result DbError Bool) → r ≡ ok false → Decides G r → ¬ G
  Decides-false r e d = subst (Decides G) e d

module _ (o : MapOrder) (db : Tables) (c t : ℕ) where
  -- Rules for a group of the client, over the collected ids.
  by_some_group :
      (rules : List RuleRow)
      → Any (λ g. HasRule rules group g t) (collected o db c)
      → (g : ℕ) × IsMember db c g × HasRule rules group g t
  by_some_group rules h =
      let (g, r, m) = Any-take (λ g. HasRule rules group g t) (collected o db c) h in
      (g, (collected_iff o db c g).0 m, r)

  some_group :
      (rules : List RuleRow) (g : ℕ)
      → IsMember db c g
      → HasRule rules group g t
      → Any (λ g. HasRule rules group g t) (collected o db c)
  some_group rules g m r =
      Any-give (λ g. HasRule rules group g t) (collected o db c) g r ((collected_iff o db c g).1 m)

pub IsNamed-some :
    (o : MapOrder) (db : Tables) (c : ℕ) (row : Option DefaultAccessPolicy)
    → policy_names (policy_or_zero row) c (collected o db c) ≡ true
    → (p : DefaultAccessPolicy) × (row ≡ some p) × (policy_or_zero row ≡ p) × IsNamed db p c
unfolding policy_or_zero
IsNamed-some o db c none h = absurd (zero_names h)
  where
    zero_names : policy_names (policy_or_zero none) c (collected o db c) ≡ true → ⊥
    zero_names e = elim ((policy_names_iff (policy_or_zero none) c (collected o db c)).0 e) [
      | inl a ↦ a
      | inr a ↦ a
    ]
IsNamed-some o db c (some p) h = (p, refl, refl, (names-IsNamed o db p c).0 h)

pub some_named :
    (o : MapOrder) (db : Tables) (c : ℕ) (row : Option DefaultAccessPolicy)
    (p : DefaultAccessPolicy)
    → row ≡ some p
    → IsNamed db p c
    → policy_names (policy_or_zero row) c (collected o db c) ≡ true
unfolding policy_or_zero
some_named o db c row p e n = rw e ((names-IsNamed o db p c).1 n)

module _ (down : Statement → Bool) (db : Tables) where
  pub policy-eq :
      (p : DefaultAccessPolicy)
      → get_default_policy down db ≡ ok p
      → p ≡ policy_or_zero db.default_policy
  unfolding get_default_policy run
  policy-eq p h = ground arith

module _ (down : Statement → Bool) (o : MapOrder) (db : Tables) (c t : ℕ) where
  -- What the loop over the groups answered, in terms of the specification.
  pub group_tier_true :
      (st : RuleType → ℕ → ℕ → Statement) (rules : List RuleRow) (gs : List ℕ)
      → client_group_ids down o db c ≡ ok gs
      → group_rule down st rules t gs ≡ ok true
      → (g : ℕ) × IsMember db c g × HasRule rules group g t
  group_tier_true st rules gs hg hv = by_some_group o db c t rules (
      subst (λ xs. Any (λ g. HasRule rules group g t) xs) (client_group_ids-eq down o db c gs hg)
        (Decides_true _ _ hv (group_rule-Decides down st rules t gs)))

  pub group_tier_false :
      (st : RuleType → ℕ → ℕ → Statement) (rules : List RuleRow) (gs : List ℕ) (g : ℕ)
      → client_group_ids down o db c ≡ ok gs
      → group_rule down st rules t gs ≡ ok false
      → IsMember db c g
      → ¬ HasRule rules group g t
  group_tier_false st rules gs g hg hv m r =
      Decides-false _ _ hv (group_rule-Decides down st rules t gs) (
        subst (λ xs. Any (λ g. HasRule rules group g t) xs)
          (sym (client_group_ids-eq down o db c gs hg)) (some_group o db c t rules g m r))

  pub policy_tier :
      (gs : List ℕ) (p : DefaultAccessPolicy)
      → client_group_ids down o db c ≡ ok gs
      → get_default_policy down db ≡ ok p
      → policy_names p c gs ≡ policy_names (policy_or_zero db.default_policy) c (collected o db c)
  policy_tier gs p hg hp = cc (client_group_ids-eq down o db c gs hg, policy-eq down db p hp)
