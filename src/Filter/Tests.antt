-- ===== src/Filter/Tests.antt =====
-- Witnesses and runs of the filter language, with ASCII folding for strings.ToLower.
use proxpass.Base.{
  has_prefix, ◌+◌, Bytes, codes, bytes_eq, ◌&&◌, List, [], ◌∷◌, ok, err, leb, if◌then◌else◌, map,
  All, ◌≡◌, refl,
}
use proxpass.Filter.Walk.{
  invalid_filter, field, operator, value, array, object, TokenList, done, next, no_lists,
  more_lists, operator_of, group, combine, negate, leaf_only, walk_query, walk_fields, walk,
}
use proxpass.Filter.Sql.{
  Scalar, text, number, scalar_string, Condition, FieldSpec, lookup_spec, is_allowed, like_escape,
  compare_column, operator_to_condition, checked_spec, sql_field_mapper, join_sql, join_args,
  join_group, sql_combiner, where_of, build_where,
}
use proxpass.Filter.Match.{
  contains, has_suffix, bool_combiner, field_value, key_of, eval_lowered, eval_op, compare_field,
  match_mapper, match_rows,
}
use proxpass.Filter.Folds.{leaves_of, leaves_fields, leaves}
use proxpass.Filter.Laws.{
  placeholders, IsBalanced, HasPlainColumns, IsPermitted, build_where-IsBalanced, build_where-All,
}

abbrev ascii_lower : Bytes → Bytes
ascii_lower s = map (λ c. if leb 65 c && leb c 90 then c + 32 else c) s

abbrev guest_fields : List (Bytes × FieldSpec)
guest_fields =
    (codes "id", record { column = codes "guest_id"; allowed_ops = codes "$eq" ∷ [] })
    ∷ (codes "name", record { column = codes "name"; allowed_ops = [] })
    ∷ []

abbrev term : Bytes → Bytes → TokenList Scalar
term op v = next (operator op) (next (value (text v)) done)

-- {"ID": {"$eq": 2}, "name": {"$or": [{"$contains": "a_b"}, {"$not": {"$startswith": "x"}}]}}
abbrev tokens : TokenList Scalar
tokens = next (field (codes "ID")) (
    next (operator (codes "$eq")) (
      next (value (number (codes "2"))) (
        next (field (codes "name")) (
          next (operator (codes "$or")) (
            next
              (array (codes "$or") (
                more_lists (term (codes "$contains") (codes "a_b")) (
                  more_lists
                    (next (operator (codes "$not"))
                      (next (object (codes "$not") (term (codes "$startswith") (codes "x"))) done))
                    no_lists)))
              done)))))

abbrev built : Condition
built = record {
  sql = codes "(guest_id = ? AND (name LIKE ? OR NOT (LOWER(name) LIKE LOWER(?))))";
  args = codes "2" ∷ codes "%a\\_b%" ∷ codes "x%" ∷ [];
}

unfoldable filter_code : Unit {0}
unfolding operator_of group combine negate leaf_only walk_query walk_fields walk scalar_string
    lookup_spec is_allowed like_escape compare_column operator_to_condition checked_spec
    sql_field_mapper join_sql join_args join_group sql_combiner where_of build_where has_prefix
    contains has_suffix bool_combiner field_value key_of eval_lowered eval_op compare_field
    match_mapper match_rows leaves_of leaves_fields leaves placeholders bytes_eq
filter_code = tt

builds : build_where ascii_lower guest_fields tokens ≡ ok built
unfolding filter_code
builds = refl

-- The operators outside the allow-list are refused below a logical operator too.
refuses :
    build_where ascii_lower guest_fields (
      next (field (codes "id")) (
        next
          (operator (codes "$not"))
          (next (object (codes "$not") (term (codes "$contains") (codes "5"))) done)))
    ≡ err invalid_filter
unfolding filter_code
refuses = refl

-- An array without elements is accepted.
empty_array :
    build_where ascii_lower guest_fields (
      next
        (field (codes "id"))
        (next (operator (codes "$or")) (next (array (codes "$or") no_lists) done)))
    ≡ ok (record { sql = codes "(())"; args = [] })
unfolding filter_code
empty_array = refl

abbrev row : Bytes → Bytes → List (Bytes × Scalar)
row id name = (codes "guest_id", number id) ∷ (codes "name", text name) ∷ []

matches :
    match_rows ascii_lower bytes_eq guest_fields tokens (
      row (codes "2") (codes "web")
      ∷ row (codes "3") (codes "web")
      ∷ row (codes "2") (codes "Xa")
      ∷ [])
    ≡ ok (row (codes "2") (codes "web") ∷ [])
unfolding filter_code
matches = refl

plain : HasPlainColumns guest_fields
unfolding filter_code
plain = (refl, (refl, tt))

build_where-IsBalanced_example : IsBalanced built
build_where-IsBalanced_example =
    build_where-IsBalanced ascii_lower guest_fields tokens built plain builds

build_where-All_example : All (IsPermitted ascii_lower guest_fields) (leaves tokens)
build_where-All_example = build_where-All ascii_lower guest_fields tokens built builds
