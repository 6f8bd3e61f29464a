-- ===== src/Picker/Order/Sorted.antt =====
-- What sorting the picker's rows gives, and that the two directions of the cycle undo one another.
use proxpass.Base.{
  ℕ, suc, Bytes, bytes_eq, Bool, true, false, some, List, [], ◌∷◌, if◌then◌else◌, ◌≡◌, refl, sym,
  ◌∙◌, inl, inr, arith, Bool-cases,
}
use proxpass.Picker.Order.{
  SortMode, sort_unset, sort_by_name, sort_by_id, sort_by_status, sort_by_host, sort_mode_count,
  index_in, cycle_index, in_cycle, next_of, next, prev_of, prev, GuestRow, bytes_lt, first_bytes,
  first_nat, status_rank, less_by_name_then_id, less, place_row, sort_rows,
}

-- In the cycle of sort modes, Tab and Shift-Tab undo one another.
pub next-prev :
    (m : SortMode) (i : ℕ) → cycle_index m ≡ some i → (prev (next m) ≡ m) × (next (prev m) ≡ m)
unfolding cycle_index index_in in_cycle next_of next prev_of prev
next-prev sort_unset i e = cc
next-prev sort_by_name i e = (refl, refl)
next-prev sort_by_id i e = (refl, refl)
next-prev sort_by_status i e = (refl, refl)
next-prev sort_by_host i e = (refl, refl)
next-prev sort_mode_count i e = cc

bytes_lt_asym : (a b : Bytes) → bytes_lt a b ≡ true → bytes_lt b a ≡ false
unfolding bytes_lt
bytes_lt_asym [] [] e = refl
bytes_lt_asym [] (y ∷ ys) e = refl
bytes_lt_asym (x ∷ xs) [] e = cc
bytes_lt_asym (x ∷ xs) (y ∷ ys) e = ground (arith, bytes_lt_asym xs ys)

bytes_eq_sym : (a b : Bytes) → bytes_eq a b ≡ bytes_eq b a
unfolding bytes_eq
bytes_eq_sym [] [] = refl
bytes_eq_sym [] (y ∷ ys) = refl
bytes_eq_sym (x ∷ xs) [] = refl
bytes_eq_sym (x ∷ xs) (y ∷ ys) = ground (arith, bytes_eq_sym xs ys)

first_bytes_asym :
    (a b : Bytes) (r q : Bool)
    → (r ≡ true → q ≡ false)
    → first_bytes a b r ≡ true
    → first_bytes b a q ≡ false
unfolding first_bytes
first_bytes_asym a b r q f e = elim (Bool-cases (bytes_eq a b)) [
  | inl t ↦ rw (sym (bytes_eq_sym a b) ∙ t) (f (ground arith))
  | inr n ↦ rw (sym (bytes_eq_sym a b) ∙ n) (bytes_lt_asym a b (ground arith))
]

first_nat_asym :
    (a b : ℕ) (r q : Bool)
    → (r ≡ true → q ≡ false)
    → first_nat a b r ≡ true
    → first_nat b a q ≡ false
unfolding first_nat
first_nat_asym a b r q f e = ground arith

by_name_asym : (a b : GuestRow) → less_by_name_then_id a b ≡ true → less_by_name_then_id b a ≡ false
unfolding less_by_name_then_id
by_name_asym a b =
    first_bytes_asym a.name b.name _ _ (
      first_nat_asym a.vmid b.vmid _ _ (first_bytes_asym a.id b.id _ _ (bytes_lt_asym a.key b.key)))

less_asym : (m : SortMode) (a b : GuestRow) → less m a b ≡ true → less m b a ≡ false
unfolding less
less_asym sort_unset a b = by_name_asym a b
less_asym sort_by_name a b = by_name_asym a b
less_asym sort_by_id a b =
    first_nat_asym a.vmid b.vmid _ _ (first_bytes_asym a.id b.id _ _ (by_name_asym a b))
less_asym sort_by_status a b = first_nat_asym (status_rank a) (status_rank b) _ _ (by_name_asym a b)
less_asym sort_by_host a b = first_bytes_asym a.inst_name b.inst_name _ _ (by_name_asym a b)
less_asym sort_mode_count a b = by_name_asym a b

-- No row must stand before the one above it.
abbrev pub IsSorted : SortMode → List GuestRow → Type 0
IsSorted m [] = Unit
IsSorted m (a ∷ []) = Unit
IsSorted m (a ∷ b ∷ rows) = (less m b a ≡ false) × IsSorted m (b ∷ rows)

-- How many rows pass a test.
unfoldable pub count : (GuestRow → Bool) → List GuestRow → ℕ
count p [] = 0
count p (a ∷ rows) = let rest = count p rows in if p a then suc rest else rest

place_row-count :
    (p : GuestRow → Bool) (m : SortMode) (a : GuestRow) (rows : List GuestRow)
    → count p (place_row m a rows) ≡ count p (a ∷ rows)
unfolding count place_row
place_row-count p m a [] = refl
place_row-count p m a (b ∷ rows) = ground (arith, place_row-count p m a rows)

count_step :
    (p : GuestRow → Bool) (a : GuestRow) (xs ys : List GuestRow)
    → count p xs ≡ count p ys
    → count p (a ∷ xs) ≡ count p (a ∷ ys)
unfolding count
count_step p a xs ys e = rw e refl

sort_rows-count :
    (p : GuestRow → Bool) (m : SortMode) (rows : List GuestRow)
    → count p (sort_rows m rows) ≡ count p rows
unfolding sort_rows
sort_rows-count p m [] = refl
sort_rows-count p m (a ∷ rows) =
    place_row-count p m a (sort_rows m rows) ∙ count_step p a _ _ (sort_rows-count p m rows)

-- The first row of a list may stand below `b`.
abbrev Above : SortMode → GuestRow → List GuestRow → Type 0
Above m b [] = Unit
Above m b (c ∷ rows) = less m c b ≡ false

IsSorted-below :
    (m : SortMode) (b : GuestRow) (rows : List GuestRow)
    → Above m b rows
    → IsSorted m rows
    → IsSorted m (b ∷ rows)
IsSorted-below m b [] h s = tt
IsSorted-below m b (c ∷ rows) h s = (h, s)

below-IsSorted :
    (m : SortMode) (b : GuestRow) (rows : List GuestRow)
    → IsSorted m (b ∷ rows)
    → Above m b rows × IsSorted m rows
below-IsSorted m b [] s = (tt, tt)
below-IsSorted m b (c ∷ rows) s = s

place_row-Above :
    (m : SortMode) (a b : GuestRow) (rows : List GuestRow)
    → Above m b rows
    → less m a b ≡ false
    → Above m b (place_row m a rows)
unfolding place_row
place_row-Above m a b [] h l = l
place_row-Above m a b (c ∷ rows) h l = elim (Bool-cases (less m c a)) [
  | inl t ↦ rw t h
  | inr n ↦ rw n l
]

place_row-IsSorted :
    (m : SortMode) (a : GuestRow) (rows : List GuestRow)
    → IsSorted m rows
    → IsSorted m (place_row m a rows)
unfolding place_row
place_row-IsSorted m a [] s = tt
place_row-IsSorted m a (b ∷ rows) s = elim (Bool-cases (less m b a)) [
  | inl t ↦
      let (h, r) = below-IsSorted m b rows s in
      rw t (
        IsSorted-below m b (place_row m a rows) (place_row-Above m a b rows h (less_asym m b a t))
          (place_row-IsSorted m a rows r))
  | inr n ↦ rw n (n, s)
]

all_placed : (m : SortMode) (rows : List GuestRow) → IsSorted m (sort_rows m rows)
unfolding sort_rows
all_placed m [] = tt
all_placed m (a ∷ rows) = place_row-IsSorted m a (sort_rows m rows) (all_placed m rows)

-- Sorting in any mode keeps the rows, each as often as it was there, and leaves none that must stand
-- before the row above it.
pub sort_rows-IsSorted :
    (m : SortMode) (rows : List GuestRow)
    → IsSorted m (sort_rows m rows)
      × ((p : GuestRow → Bool) → count p (sort_rows m rows) ≡ count p rows)
sort_rows-IsSorted m rows = (all_placed m rows, λ p. sort_rows-count p m rows)
