-- ===== src/Picker/Order/Columns.antt =====
-- What the picker's list shows from top to bottom, column by column.
use proxpass.Base.{
  ℕ, ◌≤◌, ◌<◌, Bytes, bytes_eq, bytes_eq_iff, Bool, true, false, List, [], ◌∷◌, if◌then◌else◌, ◌≡◌,
  ◌↔◌, ◌⊎◌, refl, sym, inl, inr, arith, Bool-cases,
}
use mathlib.Core.Path.{subst}
use proxpass.Picker.Order.{
  SortMode, sort_unset, sort_by_name, sort_by_id, sort_by_status, sort_by_host, sort_mode_count,
  GuestRow, bytes_lt, first_bytes, first_nat, status_rank, less_by_name_then_id, less, sort_rows,
}
use proxpass.Picker.Order.Sorted.{IsSorted, count, sort_rows-IsSorted}

-- One text stands before another in the alphabet.
abbrev pub Before : Bytes → Bytes → Type 0
Before [] [] = ⊥
Before [] (y ∷ ys) = Unit
Before (x ∷ xs) [] = ⊥
Before (x ∷ xs) (y ∷ ys) = (x < y) ⊎ ((x ≡ y) × Before xs ys)

-- What each mode promises of a row and the next: its own column, and the one that breaks a tie.
abbrev pub Follows : SortMode → GuestRow → GuestRow → Type 0
Follows sort_by_id a b = (a.vmid ≤ b.vmid) × (a.vmid ≡ b.vmid → ¬ Before b.id a.id)
Follows sort_by_status a b =
    (b.running ≡ true → a.running ≡ true) × (a.running ≡ b.running → ¬ Before b.name a.name)
Follows sort_by_host a b =
    (¬ Before b.inst_name a.inst_name) × (a.inst_name ≡ b.inst_name → ¬ Before b.name a.name)
Follows _ a b = (¬ Before b.name a.name) × (a.name ≡ b.name → a.vmid ≤ b.vmid)

-- Every row is followed by a row that may follow it.
abbrev pub IsOrdered : SortMode → List GuestRow → Type 0
IsOrdered m [] = Unit
IsOrdered m (a ∷ []) = Unit
IsOrdered m (a ∷ b ∷ rows) = Follows m a b × IsOrdered m (b ∷ rows)

bytes_lt_iff : (a b : Bytes) → (bytes_lt a b ≡ true) ↔ Before a b
unfolding bytes_lt
bytes_lt_iff [] [] = (λ e. cc, λ h. absurd h)
bytes_lt_iff [] (y ∷ ys) = (λ e. tt, λ h. refl)
bytes_lt_iff (x ∷ xs) [] = (λ e. cc, λ h. absurd h)
bytes_lt_iff (x ∷ xs) (y ∷ ys) = ground (arith, bytes_lt_iff xs ys)

Before-irrefl : (a : Bytes) → ¬ Before a a
Before-irrefl [] h = h
Before-irrefl (x ∷ xs) (inl l) = omega arith
Before-irrefl (x ∷ xs) (inr (e, h)) = Before-irrefl xs h

-- A column of texts that does not send the rows the other way.
text_column :
    (a b : Bytes) (rest : Bool)
    → first_bytes b a rest ≡ false
    → (¬ Before b a) × (a ≡ b → rest ≡ false)
unfolding first_bytes
text_column a b rest e = elim (Bool-cases (bytes_eq b a)) [
  | inl q ↦
      (λ h. Before-irrefl a (subst (λ s. Before s a) ((bytes_eq_iff b a).0 q) h), λ s. ground arith)
  | inr q ↦ (
    λ h. let l = (bytes_lt_iff b a).1 h in ground arith,
    λ s. absurd (ground (arith, (bytes_eq_iff b a).1 (sym s))),
  )
]

number_column :
    (a b : ℕ) (rest : Bool) → first_nat b a rest ≡ false → (a ≤ b) × (a ≡ b → rest ≡ false)
unfolding first_nat
number_column a b rest e = ground arith

by_name :
    (a b : GuestRow)
    → less_by_name_then_id b a ≡ false
    → (¬ Before b.name a.name) × (a.name ≡ b.name → a.vmid ≤ b.vmid)
unfolding less_by_name_then_id
by_name a b e =
    let (n, tie) = text_column a.name b.name _ e in
    (n, λ s. (number_column a.vmid b.vmid _ (tie s)).0)

running_column :
    (a b : Bool) (rest : Bool)
    → first_nat (if b then 0 else 1) (if a then 0 else 1) rest ≡ false
    → (b ≡ true → a ≡ true) × (a ≡ b → rest ≡ false)
unfolding first_nat
running_column true true rest e = (λ q. refl, λ s. e)
running_column true false rest e = (λ q. refl, λ s. cc)
running_column false true rest e = absurd (ground arith)
running_column false false rest e = (λ q. q, λ s. e)

less-Follows : (m : SortMode) (a b : GuestRow) → less m b a ≡ false → Follows m a b
unfolding less status_rank
less-Follows sort_unset a b e = by_name a b e
less-Follows sort_by_name a b e = by_name a b e
less-Follows sort_by_id a b e =
    let (n, tie) = number_column a.vmid b.vmid _ e in (n, λ s. (text_column a.id b.id _ (tie s)).0)
less-Follows sort_by_status a b e =
    let (n, tie) = running_column a.running b.running _ e in (n, λ s. (by_name a b (tie s)).0)
less-Follows sort_by_host a b e =
    let (n, tie) = text_column a.inst_name b.inst_name _ e in (n, λ s. (by_name a b (tie s)).0)
less-Follows sort_mode_count a b e = by_name a b e

sorted-IsOrdered : (m : SortMode) (rows : List GuestRow) → IsSorted m rows → IsOrdered m rows
sorted-IsOrdered m [] s = tt
sorted-IsOrdered m (a ∷ []) s = tt
sorted-IsOrdered m (a ∷ b ∷ rows) (l, s) = (less-Follows m a b l, sorted-IsOrdered m (b ∷ rows) s)

-- Sorting keeps the rows, each as often as it was there, and orders them: by VMID, then by the display
-- id; running ones before stopped ones, then by name; by instance, then by name; and in the other
-- modes by name, then by VMID.
pub sort_rows-IsOrdered :
    (m : SortMode) (rows : List GuestRow)
    → IsOrdered m (sort_rows m rows)
      × ((p : GuestRow → Bool) → count p (sort_rows m rows) ≡ count p rows)
sort_rows-IsOrdered m rows =
    let (s, same) = sort_rows-IsSorted m rows in (sorted-IsOrdered m (sort_rows m rows) s, same)
