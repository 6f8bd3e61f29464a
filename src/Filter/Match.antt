-- ===== src/Filter/Match.antt =====
-- internal/filter/match.go: a filter as a test of one row. A row is its JSON fields; `lower` is
-- strings.ToLower and `fold_eq` strings.EqualFold.
use proxpass.Base.{
  has_prefix, Bytes, codes, bytes_eq, Bool, false, not, ◌&&◌, ◌||◌, List, [], ◌∷◌, Result, ok, err,
  ◌>>=◌, if◌then◌else◌, any, all, length, drop, leb, ◌-◌,
}
use proxpass.Filter.Walk.{FilterError, FieldMapper, Combiner, TokenList, walk}
use proxpass.Filter.Sql.{Scalar, null, scalar_string, FieldSpec, checked_spec}

unfoldable pub contains : Bytes → Bytes → Bool
contains [] p = has_prefix [] p
contains (c ∷ cs) p = has_prefix (c ∷ cs) p || contains cs p

unfoldable pub has_suffix : Bytes → Bytes → Bool
has_suffix s p = leb (length p) (length s) && bytes_eq (drop (length s - length p) s) p

unfoldable pub bool_combiner : Combiner Bool
bool_combiner = record {
  or_of = any (λ b. b);
  and_of = all (λ b. b);
  nor_of = λ qs. not (any (λ b. b) qs);
  not_of = not;
}

-- fields[key], where a missing key is nil.
unfoldable pub field_value : Bytes → List (Bytes × Scalar) → Scalar
field_value key [] = null
field_value key ((k, v) ∷ row) =
    let rest = field_value key row in if bytes_eq k key then v else rest

-- spec.Column, or the field where that is empty.
unfoldable pub key_of : Bytes → FieldSpec → Bytes
key_of f spec = if bytes_eq spec.column [] then f else spec.column

module _ (lower : Bytes → Bytes) (fold_eq : Bytes → Bytes → Bool) where
  -- The switch of evalOp, on the lowered operator.
  unfoldable pub eval_lowered : Bytes → Bytes → Bytes → Bool
  eval_lowered op got want =
      if bytes_eq op (codes "$eq")
      then bytes_eq got want
      else if bytes_eq op (codes "$ieq")
      then fold_eq got want
      else if bytes_eq op (codes "$contains")
      then contains got want
      else if bytes_eq op (codes "$icontains")
      then contains (lower got) (lower want)
      else if bytes_eq op (codes "$startswith")
      then has_prefix (lower got) (lower want)
      else if bytes_eq op (codes "$endswith")
      then has_suffix (lower got) (lower want)
      else false

  unfoldable pub eval_op : Bytes → Bytes → Bytes → Bool
  eval_op op got want = eval_lowered (lower op) got want

  -- A row whose field is missing or no scalar does not match, whatever the wanted value is.
  unfoldable pub compare_field :
      Bytes → Result FilterError Bytes → Result FilterError Bytes → Result FilterError Bool
  compare_field op (err e) want = ok false
  compare_field op (ok got) want = want >>= λ w. ok (eval_op op got w)

  unfoldable pub match_mapper :
      List (Bytes × Scalar) → List (Bytes × FieldSpec) → FieldMapper Scalar Bool
  match_mapper row fm f op v = checked_spec lower fm f op >>= λ spec.
      compare_field op (scalar_string (field_value (key_of f spec) row)) (scalar_string v)

  -- Match over rows that are given by their fields, after Tokenize; an empty filter passes all rows.
  unfoldable pub match_rows :
      List (Bytes × FieldSpec)
      → TokenList Scalar
      → List (List (Bytes × Scalar))
      → Result FilterError (List (List (Bytes × Scalar)))
  match_rows fm tl [] = ok []
  match_rows fm tl (row ∷ rows) = walk lower (match_mapper row fm) bool_combiner tl >>= λ conds.
      match_rows fm tl rows >>= λ out. ok (if all (λ b. b) conds then row ∷ out else out)
