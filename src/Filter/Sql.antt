-- ===== src/Filter/Sql.antt =====
-- internal/filter/sql.go: a filter as a WHERE fragment with its arguments. Columns and values are byte
-- strings. A JSON number is the text that fmt renders it as. A field map is an association list.
use proxpass.Base.{
  Bytes, codes, bytes_eq, Bool, true, false, Option, none, some, List, [], ◌∷◌, ◌++◌, Result, ok,
  err, ◌>>=◌, ◌==◌, if◌then◌else◌, any,
}
use proxpass.Filter.Walk.{FilterError, invalid_filter, FieldMapper, Combiner, TokenList, walk}

-- The JSON scalars and null.
pub data Scalar : Type 0 where
  text number : Bytes → Scalar
  boolean : Bool → Scalar
  null : Scalar

unfoldable pub scalar_string : Scalar → Result FilterError Bytes
scalar_string (text s) = ok s
scalar_string (number s) = ok s
scalar_string (boolean true) = ok (codes "true")
scalar_string (boolean false) = ok (codes "false")
scalar_string null = err invalid_filter

pub record Condition : Type 0 where
  pub sql : Bytes
  pub args : List Bytes

-- No allowed operator means that every operator is allowed.
pub record FieldSpec : Type 0 where
  pub column : Bytes
  pub allowed_ops : List Bytes

unfoldable pub lookup_spec : Bytes → List (Bytes × FieldSpec) → Option FieldSpec
lookup_spec f [] = none
lookup_spec f ((k, spec) ∷ fm) =
    let rest = lookup_spec f fm in if bytes_eq k f then some spec else rest

unfoldable pub is_allowed : List Bytes → Bytes → Bool
is_allowed [] op = true
is_allowed (a ∷ more) op = any (λ x. bytes_eq x op) (a ∷ more)

-- likeEscape: a backslash before each backslash, percent sign and underscore.
unfoldable pub like_escape : Bytes → Bytes
like_escape [] = []
like_escape (c ∷ cs) =
    let rest = like_escape cs in
    if c == 92
    then 92 ∷ c ∷ rest
    else if c == 37
    then 92 ∷ c ∷ rest
    else if c == 95
    then 92 ∷ c ∷ rest
    else c ∷ rest

abbrev pub condition : Bytes → Bytes → Result FilterError Condition
condition sql arg = ok (record { sql = sql; args = arg ∷ [] })

abbrev pub like_lower : Bytes → Bytes
like_lower col = codes "LOWER(" ++ col ++ codes ") LIKE LOWER(?)"

-- The switch of operatorToCondition, on the lowered operator and the rendered value.
unfoldable pub compare_column : Bytes → Bytes → Bytes → Result FilterError Condition
compare_column col op s =
    if bytes_eq op (codes "$eq")
    then condition (col ++ codes " = ?") s
    else if bytes_eq op (codes "$ieq")
    then condition (codes "LOWER(" ++ col ++ codes ") = LOWER(?)") s
    else if bytes_eq op (codes "$contains")
    then condition (col ++ codes " LIKE ?") (codes "%" ++ like_escape s ++ codes "%")
    else if bytes_eq op (codes "$icontains")
    then condition (like_lower col) (codes "%" ++ like_escape s ++ codes "%")
    else if bytes_eq op (codes "$startswith")
    then condition (like_lower col) (like_escape s ++ codes "%")
    else if bytes_eq op (codes "$endswith")
    then condition (like_lower col) (codes "%" ++ like_escape s)
    else err invalid_filter

module _ (lower : Bytes → Bytes) where
  unfoldable pub operator_to_condition : Bytes → Bytes → Scalar → Result FilterError Condition
  operator_to_condition col op v = scalar_string v >>= λ s. compare_column col (lower op) s

  -- What both field mappers check before they read the value.
  unfoldable pub checked_spec :
      List (Bytes × FieldSpec) → Bytes → Bytes → Result FilterError FieldSpec
  checked_spec fm f op = elim (lookup_spec (lower f) fm) [
    | none ↦ err invalid_filter
    | some spec ↦ if is_allowed spec.allowed_ops (lower op) then ok spec else err invalid_filter
  ]

  unfoldable pub sql_field_mapper : List (Bytes × FieldSpec) → FieldMapper Scalar Condition
  sql_field_mapper fm f op v =
      checked_spec fm f op >>= λ spec. operator_to_condition spec.column op v

-- strings.Join and the arguments in order: joinGroup.
unfoldable pub join_sql : Bytes → List Condition → Bytes
join_sql sep [] = []
join_sql sep (q ∷ []) = q.sql
join_sql sep (q ∷ r ∷ qs) = q.sql ++ sep ++ join_sql sep (r ∷ qs)

unfoldable pub join_args : List Condition → List Bytes
join_args [] = []
join_args (q ∷ qs) = q.args ++ join_args qs

unfoldable pub join_group : Bytes → List Condition → Condition
join_group sep qs = record { sql = codes "(" ++ join_sql sep qs ++ codes ")"; args = join_args qs }

unfoldable pub sql_combiner : Combiner Condition
sql_combiner = record {
  or_of = join_group (codes " OR ");
  and_of = join_group (codes " AND ");
  nor_of = λ qs. record {
    sql = codes "NOT " ++ (join_group (codes " OR ") qs).sql;
    args = (join_group (codes " OR ") qs).args;
  };
  not_of = λ q. record { sql = codes "NOT (" ++ q.sql ++ codes ")"; args = q.args };
}

-- The end of BuildWhere: no condition is no fragment.
unfoldable pub where_of : List Condition → Condition
where_of [] = record { sql = []; args = [] }
where_of (q ∷ qs) = sql_combiner.and_of (q ∷ qs)

-- BuildWhere after Tokenize.
unfoldable pub build_where :
    (Bytes → Bytes) → List (Bytes × FieldSpec) → TokenList Scalar → Result FilterError Condition
build_where lower fm tl =
    walk lower (sql_field_mapper lower fm) sql_combiner tl >>= λ qs. ok (where_of qs)
