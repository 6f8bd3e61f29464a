-- ===== src/Db/Named/Rows.antt =====
-- What keeps a table of named rows: no two rows have one id or one name, and new ids are new.
use mathlib.Core.Path.{subst}
use proxpass.Base.{
  ℕ, ◌+◌, ◌<◌, Bytes, bytes_eq_iff, Bool, true, false, not, ◌&&◌, List, [], ◌∷◌, ◌++◌, map, ◌==◌,
  if◌then◌else◌, any, filter, All, Elem, Distinct, Distinct-snoc, ◌≡◌, refl, sym, ap, inl, inr, ◌↔◌,
  arith, Bool-cases,
}
use proxpass.Db.Named.{
  Columns, is_named, insert_named, name_taken, update_named, delete_named, next_id,
}

module _ {R : Type 0} (t : Columns R) where
  -- `id` is a primary key that the counter is past, and `name` is unique.
  pub record IsTable (next : ℕ) (rows : List R) : Type 0 where
    pub ids : Distinct (map t.id_of rows)
    pub names : Distinct (map t.name_of rows)
    pub below : All (λ r. t.id_of r < next) rows

  named_iff :
      (n : Bytes) (rows : List R) → (any (is_named t n) rows ≡ true) ↔ Elem n (map t.name_of rows)
  unfolding is_named
  named_iff n [] = (λ e. cc, λ h. absurd h)
  named_iff n (r ∷ rows) = ground (arith, named_iff n rows, bytes_eq_iff (t.name_of r) n)

  has_id_iff :
      (n : ℕ) (rows : List R) → (any (λ r. t.id_of r == n) rows ≡ true) ↔ Elem n (map t.id_of rows)
  has_id_iff n [] = (λ e. cc, λ h. absurd h)
  has_id_iff n (r ∷ rows) = ground (arith, has_id_iff n rows)

  All-below_fresh :
      (next : ℕ) (rows : List R) → All (λ r. t.id_of r < next) rows → ¬ Elem next (map t.id_of rows)
  All-below_fresh next [] h m = m
  All-below_fresh next (r ∷ rows) (l, h) (inl e) = omega arith
  All-below_fresh next (r ∷ rows) (l, h) (inr m) = All-below_fresh next rows h m

  All-below_snoc :
      (next : ℕ) (row : R) (rows : List R)
      → t.id_of row ≡ next
      → All (λ r. t.id_of r < next) rows
      → All (λ r. t.id_of r < next + 1) (rows ++ row ∷ [])
  All-below_snoc next row [] e h = (omega arith, tt)
  All-below_snoc next row (r ∷ rows) e (l, h) = (omega arith, All-below_snoc next row rows e h)

  map-snoc :
      {B : Type 0} (f : R → B) (row : R) (rows : List R)
      → map f (rows ++ row ∷ []) ≡ map f rows ++ f row ∷ []
  map-snoc f row [] = refl
  map-snoc f row (r ∷ rows) = ap (λ l. f r ∷ l) (map-snoc f row rows)

  pub insert-IsTable :
      (fails : Bool) (next : ℕ) (row : R) (rows : List R)
      → t.id_of row ≡ next
      → IsTable next rows
      → IsTable (next_id (insert_named t fails row rows).0 next) (insert_named t fails row rows).1
  unfolding insert_named next_id
  insert-IsTable true next row rows e k = k
  insert-IsTable false next row rows e k =
      elim (Bool-cases (any (is_named t (t.name_of row)) rows)) [
        | inl h ↦ rw (h, next_id, insert_named) k
        | inr h ↦
            rw (h, next_id, insert_named)
              (record {
                ids = subst Distinct (sym (map-snoc t.id_of row rows)) (
                    Distinct-snoc _ _ k.ids (
                      subst (λ n. ¬ Elem n (map t.id_of rows)) (sym e)
                        (All-below_fresh next rows k.below)));
                names =
                    subst Distinct (sym (map-snoc t.name_of row rows))
                      (Distinct-snoc _ _ k.names (λ m. cc ((named_iff (t.name_of row) rows).1 m)));
                below = All-below_snoc next row rows e k.below;
              })
      ]

  module _ {B : Type 0} (f : R → B) (q : R → Bool) where
    filter-Elem : (b : B) (rows : List R) → Elem b (map f (filter q rows)) → Elem b (map f rows)
    filter-Elem b [] m = m
    filter-Elem b (r ∷ rows) m = elim (Bool-cases (q r)) [
      | inl e ↦ ground (arith, filter-Elem b rows)
      | inr e ↦ ground (arith, filter-Elem b rows)
    ]

    filter-Distinct : (rows : List R) → Distinct (map f rows) → Distinct (map f (filter q rows))
    filter-Distinct [] d = tt
    filter-Distinct (r ∷ rows) (n, d) = elim (Bool-cases (q r)) [
      | inl e ↦ rw e (λ m. n (filter-Elem (f r) rows m), filter-Distinct rows d)
      | inr e ↦ rw e (filter-Distinct rows d)
    ]

  All-below_filter :
      (q : R → Bool) (next : ℕ) (rows : List R)
      → All (λ r. t.id_of r < next) rows
      → All (λ r. t.id_of r < next) (filter q rows)
  All-below_filter q next [] h = tt
  All-below_filter q next (r ∷ rows) (l, h) = elim (Bool-cases (q r)) [
    | inl e ↦ rw e (l, All-below_filter q next rows h)
    | inr e ↦ rw e (All-below_filter q next rows h)
  ]

  pub delete-IsTable :
      (fails : Bool) (next id : ℕ) (rows : List R)
      → IsTable next rows
      → IsTable next (delete_named t fails id rows).1
  unfolding delete_named
  delete-IsTable true next id rows k = k
  delete-IsTable false next id rows k = record {
    ids = filter-Distinct t.id_of _ rows k.ids;
    names = filter-Distinct t.name_of _ rows k.names;
    below = All-below_filter _ next rows k.below;
  }

  module _ (row : R) where
    -- The row that an UPDATE leaves in the place of `r`.
    abbrev updated : R → R
    updated r = if t.id_of r == t.id_of row then row else r

    same_id : (r : R) → t.id_of (updated r) ≡ t.id_of r
    same_id r = ground arith

    same_ids : (rows : List R) → map t.id_of (map updated rows) ≡ map t.id_of rows
    same_ids [] = refl
    same_ids (r ∷ rows) = ground (arith, same_id r, same_ids rows)

    same_below :
        (next : ℕ) (rows : List R)
        → All (λ r. t.id_of r < next) rows
        → All (λ r. t.id_of r < next) (map updated rows)
    same_below next [] h = tt
    same_below next (r ∷ rows) (l, h) =
        (subst (λ i. i < next) (sym (same_id r)) l, same_below next rows h)

    untouched : (rows : List R) → ¬ Elem (t.id_of row) (map t.id_of rows) → map updated rows ≡ rows
    untouched [] n = refl
    untouched (r ∷ rows) n = elim (Bool-cases (t.id_of r == t.id_of row)) [
      | inl e ↦ absurd (n (inl (ground arith)))
      | inr e ↦ rw e (ap (λ l. r ∷ l) (untouched rows (λ m. n (inr m))))
    ]

    still_absent :
        (n : Bytes) (rows : List R)
        → ¬ (t.name_of row ≡ n)
        → ¬ Elem n (map t.name_of rows)
        → ¬ Elem n (map t.name_of (map updated rows))
    still_absent n [] d a m = m
    still_absent n (r ∷ rows) d a m = elim (Bool-cases (t.id_of r == t.id_of row)) [
      | inl e ↦ ground (arith, still_absent n rows d)
      | inr e ↦ ground (arith, still_absent n rows d)
    ]

    -- No row of another id has the name.
    abbrev IsOurs : R → Type 0
    IsOurs r = t.name_of r ≡ t.name_of row → t.id_of r ≡ t.id_of row

    other_names :
        (rows : List R)
        → ¬ Elem (t.id_of row) (map t.id_of rows)
        → All IsOurs rows
        → ¬ Elem (t.name_of row) (map t.name_of rows)
    other_names [] n a m = m
    other_names (r ∷ rows) n (o, a) (inl e) = n (inl (o e))
    other_names (r ∷ rows) n (o, a) (inr m) = other_names rows (λ k. n (inr k)) a m

    updated-Distinct :
        (rows : List R)
        → Distinct (map t.id_of rows)
        → All IsOurs rows
        → Distinct (map t.name_of rows)
        → Distinct (map t.name_of (map updated rows))
    updated-Distinct [] i a d = tt
    updated-Distinct (r ∷ rows) (fresh, i) (o, a) (n, d) =
        elim (Bool-cases (t.id_of r == t.id_of row)) [
          | inl e ↦
              let same : t.id_of r ≡ t.id_of row = ground arith in
              let gone = subst (λ k. ¬ Elem k (map t.id_of rows)) same fresh in
              rw e (rw (untouched rows gone) (other_names rows gone a, d))
          | inr e ↦ rw e (
            still_absent (t.name_of r) rows (λ s. absurd (ground (arith, o (sym s)))) n,
            updated-Distinct rows i a d,
          )
        ]

    IsOurs-All :
        (rows : List R)
        → any (λ r. is_named t (t.name_of row) r && not (t.id_of r == t.id_of row)) rows ≡ false
        → All IsOurs rows
    unfolding is_named
    IsOurs-All [] e = tt
    IsOurs-All (r ∷ rows) e = (
      λ s. ground (arith, (bytes_eq_iff (t.name_of r) (t.name_of row)).1 s),
      IsOurs-All rows (ground arith),
    )

    map-IsTable :
        (next : ℕ) (rows : List R)
        → Distinct (map t.name_of (map updated rows))
        → IsTable next rows
        → IsTable next (map updated rows)
    map-IsTable next rows d k = record {
      ids = subst Distinct (sym (same_ids rows)) k.ids;
      names = d;
      below = same_below next rows k.below;
    }

    free-Distinct :
        {next : ℕ} (rows : List R)
        → name_taken t row rows ≡ false
        → IsTable next rows
        → Distinct (map t.name_of (map updated rows))
    unfolding name_taken
    free-Distinct rows e k = elim (Bool-cases (any (λ r. t.id_of r == t.id_of row) rows)) [
      | inl here ↦ updated-Distinct rows k.ids (IsOurs-All rows (ground arith)) k.names
      | inr absent ↦
          let gone = untouched rows (λ m. cc ((has_id_iff (t.id_of row) rows).1 m)) in
          subst (λ l. Distinct (map t.name_of l)) (sym gone) k.names
    ]

    pub update-IsTable :
        (fails : Bool) (next : ℕ) (rows : List R)
        → IsTable next rows
        → IsTable next (update_named t fails row rows).1
    unfolding update_named
    update-IsTable true next rows k = k
    update-IsTable false next rows k = elim (Bool-cases (name_taken t row rows)) [
      | inl e ↦ rw (e, update_named) k
      | inr e ↦ rw (e, update_named) (map-IsTable next rows (free-Distinct rows e k) k)
    ]
