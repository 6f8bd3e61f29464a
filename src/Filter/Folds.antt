-- ===== src/Filter/Folds.antt =====
-- What a successful Walk says of the comparisons in the filter, for any mapper and any combiner.
use mathlib.Core.Path.{subst}
use proxpass.Base.{Bytes, List, [], ◌∷◌, ◌++◌, Result, ok, parts_ok, All, All-append, ◌≡◌, arith}
use proxpass.Filter.Walk.{
  FilterError, FieldMapper, Combiner, Token, field, operator, value, array, object, TokenList, done,
  next, TokenLists, no_lists, more_lists, Operator, op_or, op_and, op_nor, op_not, op_leaf,
  operator_of, group, combine, negate, leaf_only, walk_query, walk_terms, walk_lists, walk_fields,
  walk,
}

-- The comparisons of a filter: field, operator and value, at any depth below the logical operators.
module _ {V : Type 0} where
  unfoldable mutual
    pub leaves_of : Bytes → Bytes → Token V → List (Bytes × (Bytes × V))
    leaves_of f op (value v) = (f, (op, v)) ∷ []
    leaves_of f op (array k lists) = leaves_lists f lists
    leaves_of f op (object k list) = leaves_terms f list
    leaves_of f op (field k) = []
    leaves_of f op (operator k) = []

    pub leaves_terms : Bytes → TokenList V → List (Bytes × (Bytes × V))
    leaves_terms f done = []
    leaves_terms f (next (operator op) done) = []
    leaves_terms f (next (operator op) (next val rest)) = leaves_of f op val ++ leaves_terms f rest
    leaves_terms f (next _ rest) = []

    pub leaves_lists : Bytes → TokenLists V → List (Bytes × (Bytes × V))
    leaves_lists f no_lists = []
    leaves_lists f (more_lists list lists) = leaves_terms f list ++ leaves_lists f lists

  unfoldable pub leaves_fields : Bytes → TokenList V → List (Bytes × (Bytes × V))
  leaves_fields f done = []
  leaves_fields f (next (operator op) done) = []
  leaves_fields f (next (operator op) (next val rest)) = leaves_of f op val ++ leaves_fields f rest
  leaves_fields f (next (field g) rest) = leaves_fields g rest
  leaves_fields f (next _ rest) = []

  unfoldable pub leaves : TokenList V → List (Bytes × (Bytes × V))
  leaves done = []
  leaves (next (field f) rest) = leaves_fields f rest
  leaves (next _ rest) = []

-- What a property of queries must pass through.
pub record IsKept {V Q : Type 0} (mapper : FieldMapper V Q) (c : Combiner Q) (P : Q → Type 0)
    : Type 0 where
  pub leaf_kept : (f op : Bytes) (v : V) (q : Q) → mapper f op v ≡ ok q → P q
  pub or_kept : (qs : List Q) → All P qs → P (c.or_of qs)
  pub and_kept : (qs : List Q) → All P qs → P (c.and_of qs)
  pub nor_kept : (qs : List Q) → All P qs → P (c.nor_of qs)
  pub not_kept : (q : Q) → P q → P (c.not_of q)

-- The mapper took the comparison.
abbrev pub IsTaken : {V Q : Type 0} → FieldMapper V Q → Bytes × (Bytes × V) → Type 0
IsTaken {V} {Q} mapper (f, (op, v)) = (q : Q) × (mapper f op v ≡ ok q)

pub ok_inj : {A : Type 0} (a b : A) → ◌≡◌ {A = Result FilterError A} (ok a) (ok b) → a ≡ b
ok_inj a b e = ground arith

module _ {V Q : Type 0} (lower : Bytes → Bytes) (mapper : FieldMapper V Q) (c : Combiner Q)
    (P : Q → Type 0) (kept : IsKept mapper c P) where
  group_kept : (qs : List Q) (q : Q) → group c qs ≡ ok q → All P qs → P q
  unfolding group
  group_kept [] q e a = cc
  group_kept (r ∷ []) q e a = subst P (ok_inj r q e) a.0
  group_kept (r ∷ s ∷ qs) q e a = subst P (ok_inj _ q e) (kept.and_kept (r ∷ s ∷ qs) a)

  -- A list of queries that all have the property, from comparisons that were all taken.
  abbrev pub Sound : List Q → List (Bytes × (Bytes × V)) → Type 0
  Sound qs ls = All P qs × All (IsTaken mapper) ls

  leaf_only_taken :
      (o : Operator) (r : Result FilterError Q) (q : Q) → leaf_only o r ≡ ok q → r ≡ ok q
  unfolding leaf_only
  leaf_only_taken op_leaf r q e = e
  leaf_only_taken op_or r q e = cc
  leaf_only_taken op_and r q e = cc
  leaf_only_taken op_nor r q e = cc
  leaf_only_taken op_not r q e = cc

  combine_kept :
      (o : Operator) (r : Result FilterError (List Q)) (q : Q)
      → combine c o r ≡ ok q
      → (qs : List Q) × (r ≡ ok qs) × (All P qs → P q)
  unfolding combine
  combine_kept op_or r q e =
      let (qs, g, h) = parts_ok r _ e in (qs, g, λ a. subst P (ok_inj _ q h) (kept.or_kept qs a))
  combine_kept op_and r q e =
      let (qs, g, h) = parts_ok r _ e in (qs, g, λ a. subst P (ok_inj _ q h) (kept.and_kept qs a))
  combine_kept op_nor r q e =
      let (qs, g, h) = parts_ok r _ e in (qs, g, λ a. subst P (ok_inj _ q h) (kept.nor_kept qs a))
  combine_kept op_not r q e = cc
  combine_kept op_leaf r q e = cc

  negate_kept :
      (o : Operator) (r : Result FilterError Q) (q : Q)
      → negate c o r ≡ ok q
      → (p : Q) × (r ≡ ok p) × (P p → P q)
  unfolding negate
  negate_kept op_not r q e =
      let (p, g, h) = parts_ok r _ e in (p, g, λ a. subst P (ok_inj _ q h) (kept.not_kept p a))
  negate_kept op_or r q e = cc
  negate_kept op_and r q e = cc
  negate_kept op_nor r q e = cc
  negate_kept op_leaf r q e = cc

  mutual
    unfolding walk_query leaves_of

    query_kept :
        (f op : Bytes) (t : Token V) (q : Q)
        → walk_query lower mapper c f op t ≡ ok q
        → P q × All (IsTaken mapper) (leaves_of f op t)
    query_kept f op (value v) q e =
        let taken = leaf_only_taken (operator_of (lower op)) (mapper f op v) q e in
        (kept.leaf_kept f op v q taken, ((q, taken), tt))
    query_kept f op (array k lists) q e =
        let (qs, g, h) = combine_kept (operator_of (lower op)) _ q e in
        let (a, ls) = lists_kept f lists qs g in (h a, ls)
    query_kept f op (object k list) q e =
        let (p, g, h) = negate_kept (operator_of (lower op)) _ q e in
        let (ps, gp, hp) = parts_ok _ _ g in
        let (a, ls) = terms_kept f list ps gp in (h (group_kept ps p hp a), ls)
    query_kept f op (field k) q e = cc
    query_kept f op (operator k) q e = cc

    terms_kept :
        (f : Bytes) (l : TokenList V) (qs : List Q)
        → walk_terms lower mapper c f l ≡ ok qs
        → Sound qs (leaves_terms f l)
    terms_kept f done qs e = subst (λ r. Sound r []) (ok_inj [] qs e) (tt, tt)
    terms_kept f (next (operator op) done) qs e = cc
    terms_kept f (next (operator op) (next val rest)) qs e =
        let (q, gq, hq) = parts_ok _ _ e in
        let (rs, gr, hr) = parts_ok _ _ hq in
        let (pq, lq) = query_kept f op val q gq in
        let (pr, lr) = terms_kept f rest rs gr in
        subst (λ r. Sound r (leaves_of f op val ++ leaves_terms f rest)) (ok_inj (q ∷ rs) qs hr)
          ((pq, pr), All-append (IsTaken mapper) _ _ lq lr)
    terms_kept f (next (field k) rest) qs e = cc
    terms_kept f (next (value v) rest) qs e = cc
    terms_kept f (next (array k v) rest) qs e = cc
    terms_kept f (next (object k v) rest) qs e = cc

    lists_kept :
        (f : Bytes) (l : TokenLists V) (qs : List Q)
        → walk_lists lower mapper c f l ≡ ok qs
        → Sound qs (leaves_lists f l)
    lists_kept f no_lists qs e = subst (λ r. Sound r []) (ok_inj [] qs e) (tt, tt)
    lists_kept f (more_lists list lists) qs e =
        let (q, gq, hq) = parts_ok _ _ e in
        let (rs, gr, hr) = parts_ok _ _ hq in
        let (ps, gp, hp) = parts_ok _ _ gq in
        let (pq, lq) = terms_kept f list ps gp in
        let (pr, lr) = lists_kept f lists rs gr in
        subst (λ r. Sound r (leaves_terms f list ++ leaves_lists f lists)) (ok_inj (q ∷ rs) qs hr)
          ((group_kept ps q hp pq, pr), All-append (IsTaken mapper) _ _ lq lr)

  fields_kept :
      (f : Bytes) (qs : List Q) (l : TokenList V) (out : List Q)
      → All P qs
      → walk_fields lower mapper c f qs l ≡ ok out
      → Sound out (leaves_fields f l)
  unfolding walk_fields leaves_fields
  fields_kept f qs done out a e =
      let (q, g, h) = parts_ok _ _ e in
      subst (λ r. Sound r []) (ok_inj (q ∷ []) out h) ((group_kept qs q g a, tt), tt)
  fields_kept f qs (next (operator op) done) out a e = cc
  fields_kept f qs (next (operator op) (next val rest)) out a e =
      let (q, g, h) = parts_ok _ _ e in
      let (p, l) = query_kept f op val q g in
      let (o, ls) = fields_kept f (qs ++ q ∷ []) rest out (All-append P qs (q ∷ []) a (p, tt)) h in
      (o, All-append (IsTaken mapper) _ _ l ls)
  fields_kept f qs (next (field k) rest) out a e =
      let (q, g, h) = parts_ok _ _ e in
      let (more, g', h') = parts_ok _ _ h in
      let (o, ls) = fields_kept k [] rest more tt g' in
      subst (λ r. Sound r (leaves_fields k rest)) (ok_inj (q ∷ more) out h')
        ((group_kept qs q g a, o), ls)
  fields_kept f qs (next (value v) rest) out a e = cc
  fields_kept f qs (next (array k v) rest) out a e = cc
  fields_kept f qs (next (object k v) rest) out a e = cc

  -- A Walk that succeeds took every comparison of the filter, and what it built has every property
  -- that the mapper gives and the combiner keeps.
  pub walk_kept :
      (l : TokenList V) (out : List Q) → walk lower mapper c l ≡ ok out → Sound out (leaves l)
  unfolding walk leaves
  walk_kept done out e = subst (λ r. Sound r []) (ok_inj [] out e) (tt, tt)
  walk_kept (next (field k) rest) out e = fields_kept k [] rest out tt e
  walk_kept (next (operator op) rest) out e = cc
  walk_kept (next (value v) rest) out e = cc
  walk_kept (next (array k v) rest) out e = cc
  walk_kept (next (object k v) rest) out e = cc
