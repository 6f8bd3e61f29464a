-- ===== src/Filter/Walk.antt =====
-- internal/filter/filter.go: tokens and Walk. The value of a token is a JSON scalar of some type V; every
-- error is wrapped in ErrInvalidFilter, so one error stands for all. `lower` is strings.ToLower.
use proxpass.Base.{
  Bytes, codes, bytes_eq, List, [], ◌∷◌, ◌++◌, Result, ok, err, ◌>>=◌, if◌then◌else◌,
}

pub data FilterError : Type 0 where
  invalid_filter : FilterError

-- A token with its kind: Value is a scalar, lists of operators, or one list of operators.
mutual
  pub data Token (V : Type 0) : Type 0 where
    field operator : Bytes → Token V
    value : V → Token V
    array : Bytes → TokenLists V → Token V
    object : Bytes → TokenList V → Token V

  pub data TokenList (V : Type 0) : Type 0 where
    done : TokenList V
    next : Token V → TokenList V → TokenList V

  pub data TokenLists (V : Type 0) : Type 0 where
    no_lists : TokenLists V
    more_lists : TokenList V → TokenLists V → TokenLists V

-- FieldMapper: what one comparison is.
abbrev pub FieldMapper : Type 0 → Type 0 → Type 0
FieldMapper V Q = Bytes → Bytes → V → Result FilterError Q

pub record Combiner (Q : Type 0) : Type 0 where
  pub or_of : List Q → Q
  pub and_of : List Q → Q
  pub nor_of : List Q → Q
  pub not_of : Q → Q

-- The cases of walkQuery's switch.
pub data Operator : Type 0 where
  op_or op_and op_nor op_not op_leaf : Operator

unfoldable pub operator_of : Bytes → Operator
operator_of op =
    if bytes_eq op (codes "$or")
    then op_or
    else if bytes_eq op (codes "$and")
    then op_and
    else if bytes_eq op (codes "$nor")
    then op_nor
    else if bytes_eq op (codes "$not")
    then op_not
    else op_leaf

module _ {Q : Type 0} (c : Combiner Q) where
  -- One query stands for itself, several are joined by And, none is an error.
  unfoldable pub group : List Q → Result FilterError Q
  group [] = err invalid_filter
  group (q ∷ []) = ok q
  group (q ∷ r ∷ qs) = ok (c.and_of (q ∷ r ∷ qs))

  -- walkLogical, over the queries of the array.
  unfoldable pub combine : Operator → Result FilterError (List Q) → Result FilterError Q
  combine op_or inner = inner >>= λ qs. ok (c.or_of qs)
  combine op_and inner = inner >>= λ qs. ok (c.and_of qs)
  combine op_nor inner = inner >>= λ qs. ok (c.nor_of qs)
  combine _ inner = err invalid_filter

  -- walkNot, over the query of the object.
  unfoldable pub negate : Operator → Result FilterError Q → Result FilterError Q
  negate op_not inner = inner >>= λ q. ok (c.not_of q)
  negate _ inner = err invalid_filter

unfoldable pub leaf_only : {Q : Type 0} → Operator → Result FilterError Q → Result FilterError Q
leaf_only op_leaf q = q
leaf_only _ q = err invalid_filter

module _ {V Q : Type 0} (lower : Bytes → Bytes) (mapper : FieldMapper V Q) (c : Combiner Q) where
  unfoldable mutual
    pub walk_query : Bytes → Bytes → Token V → Result FilterError Q
    walk_query f op (value v) = leaf_only (operator_of (lower op)) (mapper f op v)
    walk_query f op (array k lists) = combine c (operator_of (lower op)) (walk_lists f lists)
    walk_query f op (object k list) =
        negate c (operator_of (lower op)) (walk_terms f list >>= group c)
    walk_query f op (field k) = err invalid_filter
    walk_query f op (operator k) = err invalid_filter

    -- The queries of an operator object: walkSubList before they are joined.
    pub walk_terms : Bytes → TokenList V → Result FilterError (List Q)
    walk_terms f done = ok []
    walk_terms f (next (operator op) done) = err invalid_filter
    walk_terms f (next (operator op) (next val rest)) =
        walk_query f op val >>= λ q. walk_terms f rest >>= λ qs. ok (q ∷ qs)
    walk_terms f (next _ rest) = err invalid_filter

    pub walk_lists : Bytes → TokenLists V → Result FilterError (List Q)
    walk_lists f no_lists = ok []
    walk_lists f (more_lists list lists) =
        walk_terms f list >>= group c >>= λ q. walk_lists f lists >>= λ qs. ok (q ∷ qs)

  -- The loop of Walk inside the field `f`, whose queries so far are `qs`.
  unfoldable pub walk_fields : Bytes → List Q → TokenList V → Result FilterError (List Q)
  walk_fields f qs done = group c qs >>= λ q. ok (q ∷ [])
  walk_fields f qs (next (operator op) done) = err invalid_filter
  walk_fields f qs (next (operator op) (next val rest)) =
      walk_query f op val >>= λ q. walk_fields f (qs ++ q ∷ []) rest
  walk_fields f qs (next (field g) rest) =
      group c qs >>= λ q. walk_fields g [] rest >>= λ more. ok (q ∷ more)
  walk_fields f qs (next _ rest) = err invalid_filter

  unfoldable pub walk : TokenList V → Result FilterError (List Q)
  walk done = ok []
  walk (next (field f) rest) = walk_fields f [] rest
  walk (next _ rest) = err invalid_filter
