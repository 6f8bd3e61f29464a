-- ===== src/Filter/Laws.antt =====
-- What BuildWhere guarantees: one argument for each placeholder, and no comparison outside the
-- allow-list, however deep it stands below logical operators.
use mathlib.Core.Path.{subst}
use proxpass.Base.{
  ℕ, suc, ◌+◌, Bytes, codes, bytes_eq, Bool, true, false, some, List, [], ◌∷◌, ◌++◌, Result, ok,
  err, parts_ok, ◌==◌, if◌then◌else◌, All, length, ◌≡◌, refl, inl, inr, arith, Bool-cases,
  Option-cases, length-append,
}
use proxpass.Filter.Walk.{FilterError, FieldMapper, Combiner, TokenList}
use proxpass.Filter.Sql.{
  Scalar, scalar_string, Condition, FieldSpec, lookup_spec, is_allowed, condition, like_lower,
  compare_column, operator_to_condition, checked_spec, sql_field_mapper, join_sql, join_args,
  join_group, sql_combiner, where_of, build_where,
}
use proxpass.Filter.Match.{bool_combiner, match_mapper, match_rows}
use proxpass.Filter.Folds.{leaves, IsKept, IsTaken, ok_inj, walk_kept}

-- How many placeholders a fragment has.
unfoldable pub placeholders : Bytes → ℕ
placeholders [] = 0
placeholders (c ∷ cs) = let rest = placeholders cs in if c == 63 then suc rest else rest

placeholders-append : (a b : Bytes) → placeholders (a ++ b) ≡ placeholders a + placeholders b
unfolding placeholders
placeholders-append [] b = omega arith
placeholders-append (c ∷ a) b = ground (arith, placeholders-append a b)

abbrev pub IsBalanced : Condition → Type 0
IsBalanced q = placeholders q.sql ≡ length q.args

-- No column has a placeholder in its name.
abbrev pub HasPlainColumns : List (Bytes × FieldSpec) → Type 0
HasPlainColumns fm = All (λ (k, spec). placeholders spec.column ≡ 0) fm

plain_spec :
    (f : Bytes) (fm : List (Bytes × FieldSpec)) (spec : FieldSpec)
    → HasPlainColumns fm
    → lookup_spec f fm ≡ some spec
    → placeholders spec.column ≡ 0
unfolding lookup_spec
plain_spec f [] spec h e = cc
plain_spec f ((k, s) ∷ fm) spec h e = elim (Bool-cases (bytes_eq k f)) [
  | inl t ↦
      let same : s ≡ spec = ground arith in
      subst (λ (r : FieldSpec). placeholders r.column ≡ 0) same h.0
  | inr n ↦ plain_spec f fm spec h.1 (ground arith)
]

-- Text around a fragment adds the placeholders of the text.
around :
    (pre mid post : Bytes)
    → placeholders (pre ++ mid ++ post) ≡ placeholders pre + placeholders mid + placeholders post
around pre mid post =
    omega (arith, placeholders-append (pre ++ mid) post, placeholders-append pre mid)

join_sql-placeholders :
    (sep : Bytes) (qs : List Condition)
    → placeholders sep ≡ 0
    → All IsBalanced qs
    → placeholders (join_sql sep qs) ≡ length (join_args qs)
unfolding join_sql join_args
join_sql-placeholders sep [] z a = unfold placeholders in refl
join_sql-placeholders sep (q ∷ []) z a = omega (arith, a.0, length-append q.args [])
join_sql-placeholders sep (q ∷ r ∷ qs) z a = omega (
  arith,
  a.0,
  z,
  length-append q.args (join_args (r ∷ qs)),
  around q.sql sep (join_sql sep (r ∷ qs)),
  join_sql-placeholders sep (r ∷ qs) z a.1,
)

join_group-IsBalanced :
    (sep : Bytes) (qs : List Condition)
    → placeholders sep ≡ 0
    → All IsBalanced qs
    → IsBalanced (join_group sep qs)
unfolding join_group placeholders
join_group-IsBalanced sep qs z a =
    omega
      (arith, join_sql-placeholders sep qs z a, around (codes "(") (join_sql sep qs) (codes ")"))

-- What a result gives, if anything, is balanced.
abbrev Yields : Result FilterError Condition → Type 0
Yields (ok q) = IsBalanced q
Yields (err e) = Unit

Yields-if :
    (b : Bool) (x y : Result FilterError Condition)
    → Yields x
    → Yields y
    → Yields (if b then x else y)
Yields-if true x y h k = h
Yields-if false x y h k = k

condition-Yields :
    (pre col post arg : Bytes)
    → placeholders pre + placeholders post ≡ 1
    → placeholders col ≡ 0
    → Yields (condition (pre ++ col ++ post) arg)
condition-Yields pre col post arg one z = omega (arith, one, z, around pre col post)

lowered-Yields : (col arg : Bytes) → placeholders col ≡ 0 → Yields (condition (like_lower col) arg)
unfolding placeholders
lowered-Yields col arg z =
    condition-Yields (codes "LOWER(") col (codes ") LIKE LOWER(?)") arg refl z

compare_column-Yields : (col op s : Bytes) → placeholders col ≡ 0 → Yields (compare_column col op s)
unfolding compare_column placeholders
compare_column-Yields col op s z =
    Yields-if (bytes_eq op (codes "$eq")) _ _ (condition-Yields [] col (codes " = ?") s refl z) (
      Yields-if (bytes_eq op (codes "$ieq")) _ _
        (condition-Yields (codes "LOWER(") col (codes ") = LOWER(?)") s refl z)
        (Yields-if (bytes_eq op (codes "$contains")) _ _
          (condition-Yields [] col (codes " LIKE ?") s refl z)
          (Yields-if (bytes_eq op (codes "$icontains")) _ _ (lowered-Yields col s z) (
            Yields-if (bytes_eq op (codes "$startswith")) _ _ (lowered-Yields col s z)
              (Yields-if (bytes_eq op (codes "$endswith")) _ _ (lowered-Yields col s z) tt)))))

abbrev Fits : (Bytes → Bytes) → List (Bytes × FieldSpec) → Bytes → Bytes → FieldSpec → Type 0
Fits lower fm f op spec =
    (lookup_spec (lower f) fm ≡ some spec) × (is_allowed spec.allowed_ops (lower op) ≡ true)

where_of-IsBalanced : (qs : List Condition) → All IsBalanced qs → IsBalanced (where_of qs)
unfolding where_of sql_combiner placeholders
where_of-IsBalanced [] a = refl
where_of-IsBalanced (q ∷ qs) a = join_group-IsBalanced (codes " AND ") (q ∷ qs) refl a

checked_ok :
    (lower : Bytes → Bytes) (fm : List (Bytes × FieldSpec)) (f op : Bytes) (spec : FieldSpec)
    → checked_spec lower fm f op ≡ ok spec
    → (lookup_spec (lower f) fm ≡ some spec) × (is_allowed spec.allowed_ops (lower op) ≡ true)
unfolding checked_spec
checked_ok lower fm f op spec e = elim (Option-cases (lookup_spec (lower f) fm)) [
  | inl n ↦ absurd (ground arith)
  | inr (s, m) ↦ elim (Bool-cases (is_allowed s.allowed_ops (lower op))) [
    | inl t ↦ let same : s ≡ spec = ground arith in subst (Fits lower fm f op) same (m, t)
    | inr n ↦ absurd (ground arith)
  ]
]

operator_to_condition-IsBalanced :
    (lower : Bytes → Bytes) (col op : Bytes) (v : Scalar) (q : Condition)
    → placeholders col ≡ 0
    → operator_to_condition lower col op v ≡ ok q
    → IsBalanced q
unfolding operator_to_condition
operator_to_condition-IsBalanced lower col op v q z e =
    let (s, g, h) = parts_ok (scalar_string v) (compare_column col (lower op)) e in
    subst Yields h (compare_column-Yields col (lower op) s z)

sql-IsKept :
    (lower : Bytes → Bytes) (fm : List (Bytes × FieldSpec))
    → HasPlainColumns fm
    → IsKept (sql_field_mapper lower fm) sql_combiner IsBalanced
unfolding sql_field_mapper sql_combiner placeholders
sql-IsKept lower fm plain = record {
  leaf_kept = λ f op v q e.
      let (spec, g, h) =
        parts_ok (checked_spec lower fm f op)
          (λ (s : FieldSpec). operator_to_condition lower s.column op v) e in
      operator_to_condition-IsBalanced lower spec.column op v q
        (plain_spec (lower f) fm spec plain (checked_ok lower fm f op spec g).0) h;
  or_kept = λ qs a. join_group-IsBalanced (codes " OR ") qs refl a;
  and_kept = λ qs a. join_group-IsBalanced (codes " AND ") qs refl a;
  nor_kept = λ qs a. join_group-IsBalanced (codes " OR ") qs refl a;
  not_kept = λ q a. omega (arith, a, around (codes "NOT (") q.sql (codes ")"));
}

-- A filter that BuildWhere accepts, over columns without a question mark in their names, gives as many
-- arguments as its fragment has placeholders.
pub build_where-IsBalanced :
    (lower : Bytes → Bytes) (fm : List (Bytes × FieldSpec)) (tl : TokenList Scalar) (w : Condition)
    → HasPlainColumns fm
    → build_where lower fm tl ≡ ok w
    → IsBalanced w
unfolding build_where
build_where-IsBalanced lower fm tl w plain e =
    let (qs, g, h) = parts_ok _ _ e in
    let sound =
      walk_kept lower (sql_field_mapper lower fm) sql_combiner IsBalanced
        (sql-IsKept lower fm plain) tl qs g in
    subst IsBalanced (ok_inj _ w h) (where_of-IsBalanced qs sound.0)

-- A comparison that the field map permits: a known field, and an operator of its allow-list.
abbrev pub IsPermitted :
    (Bytes → Bytes) → List (Bytes × FieldSpec) → Bytes × (Bytes × Scalar) → Type 0
IsPermitted lower fm (f, (op, v)) = (spec : FieldSpec) × Fits lower fm f op spec

All-IsPermitted :
    {Q : Type 0} (lower : Bytes → Bytes) (fm : List (Bytes × FieldSpec))
    (mapper : FieldMapper Scalar Q) (ls : List (Bytes × (Bytes × Scalar)))
    → ((l : Bytes × (Bytes × Scalar)) → IsTaken mapper l → IsPermitted lower fm l)
    → All (IsTaken mapper) ls
    → All (IsPermitted lower fm) ls
All-IsPermitted lower fm mapper [] f a = tt
All-IsPermitted lower fm mapper (l ∷ ls) f a = (f l a.0, All-IsPermitted lower fm mapper ls f a.1)

any_query :
    {Q : Type 0} (mapper : FieldMapper Scalar Q) (c : Combiner Q) → IsKept mapper c (λ q. Unit)
any_query mapper c = record {
  leaf_kept = λ f op v q e. tt;
  or_kept = λ qs a. tt;
  and_kept = λ qs a. tt;
  nor_kept = λ qs a. tt;
  not_kept = λ q a. tt;
}

-- A filter that BuildWhere accepts compares only known fields, each by operators that its allow-list
-- permits, at any depth below the logical operators.
pub build_where-All :
    (lower : Bytes → Bytes) (fm : List (Bytes × FieldSpec)) (tl : TokenList Scalar) (w : Condition)
    → build_where lower fm tl ≡ ok w
    → All (IsPermitted lower fm) (leaves tl)
unfolding build_where sql_field_mapper
build_where-All lower fm tl w e =
    let (qs, g, h) = parts_ok _ _ e in
    let mapper = sql_field_mapper lower fm in
    All-IsPermitted lower fm mapper (leaves tl)
      (λ (f, (op, v)) (q, t).
        let (spec, s, r) = parts_ok _ _ t in (spec, checked_ok lower fm f op spec s))
      (walk_kept lower mapper sql_combiner (λ q. Unit) (any_query mapper sql_combiner) tl qs g).1

-- A filter that Match accepts, over at least one row, compares only known fields, each by operators
-- that its allow-list permits, at any depth below the logical operators.
pub match_rows-All :
    (lower : Bytes → Bytes) (fold_eq : Bytes → Bytes → Bool) (fm : List (Bytes × FieldSpec))
    (tl : TokenList Scalar) (row : List (Bytes × Scalar)) (rows out : List (List (Bytes × Scalar)))
    → match_rows lower fold_eq fm tl (row ∷ rows) ≡ ok out
    → All (IsPermitted lower fm) (leaves tl)
unfolding match_rows match_mapper
match_rows-All lower fold_eq fm tl row rows out e =
    let (qs, g, h) = parts_ok _ _ e in
    let mapper = match_mapper lower fold_eq row fm in
    All-IsPermitted lower fm mapper (leaves tl)
      (λ (f, (op, v)) (q, t).
        let (spec, s, r) = parts_ok _ _ t in (spec, checked_ok lower fm f op spec s))
      (walk_kept lower mapper bool_combiner (λ q. Unit) (any_query mapper bool_combiner) tl qs g).1
