-- ===== src/Picker/Order.antt =====
-- internal/session/sortmode.go: the sort modes, their cycle, and the order that each gives the rows. A
-- VMID is shifted by one, so that nodeSortID, which is -1, is 0.
pub mod Sorted
pub mod Columns
use proxpass.Base.{
  ℕ, zero, suc, ◌+◌, ◌-◌, ◌%◌, Bytes, bytes_eq, Bool, true, false, not, ◌&&◌, ◌||◌, Option, none,
  some, List, [], ◌∷◌, ltb, ◌==◌, if◌then◌else◌, get_elem?, length,
}

pub data SortMode : Type 0 where
  sort_unset sort_by_name sort_by_id sort_by_status sort_by_host sort_mode_count : SortMode

abbrev pub sort_cycle : List SortMode
sort_cycle = sort_by_id ∷ sort_by_name ∷ sort_by_status ∷ sort_by_host ∷ []

abbrev pub mode_eq : SortMode → SortMode → Bool
mode_eq sort_unset sort_unset = true
mode_eq sort_by_name sort_by_name = true
mode_eq sort_by_id sort_by_id = true
mode_eq sort_by_status sort_by_status = true
mode_eq sort_by_host sort_by_host = true
mode_eq sort_mode_count sort_mode_count = true
mode_eq _ _ = false

-- The index of a mode in the cycle, or none for the -1 of cycleIndex.
unfoldable pub index_in : List SortMode → SortMode → ℕ → Option ℕ
index_in [] m i = none
index_in (mode ∷ modes) m i =
    let rest = index_in modes m (suc i) in if mode_eq mode m then some i else rest

unfoldable pub cycle_index : SortMode → Option ℕ
cycle_index m = index_in sort_cycle m 0

-- `sortCycle[i]`, for an index that is in range.
unfoldable pub in_cycle : ℕ → SortMode
in_cycle i = elim (get_elem? sort_cycle i) [ none ↦ sort_unset | some m ↦ m ]

unfoldable pub next_of : Option ℕ → SortMode
next_of none = in_cycle (0 % 4)
next_of (some i) = in_cycle ((i + 1) % 4)

unfoldable pub next : SortMode → SortMode
next m = next_of (cycle_index m)

unfoldable pub prev_of : Option ℕ → SortMode
prev_of none = in_cycle (2 % 4)
prev_of (some i) = in_cycle ((i + 4 - 1) % 4)

unfoldable pub prev : SortMode → SortMode
prev sort_unset = in_cycle 3
prev m = prev_of (cycle_index m)

pub record GuestRow : Type 0 where
  pub name : Bytes
  pub inst_name : Bytes
  pub id : Bytes
  pub vmid : ℕ
  pub running : Bool
  pub key : Bytes

-- `<` of two strings.
unfoldable pub bytes_lt : Bytes → Bytes → Bool
bytes_lt [] [] = false
bytes_lt [] (y ∷ ys) = true
bytes_lt (x ∷ xs) [] = false
bytes_lt (x ∷ xs) (y ∷ ys) =
    let rest = bytes_lt xs ys in if ltb x y then true else if ltb y x then false else rest

-- `if a != b { return a < b }`, then the rest.
unfoldable pub first_bytes : Bytes → Bytes → Bool → Bool
first_bytes a b rest = if bytes_eq a b then rest else bytes_lt a b

unfoldable pub first_nat : ℕ → ℕ → Bool → Bool
first_nat a b rest = if a == b then rest else ltb a b

unfoldable pub status_rank : GuestRow → ℕ
status_rank r = if r.running then 0 else 1

unfoldable pub less_by_name_then_id : GuestRow → GuestRow → Bool
less_by_name_then_id a b =
    first_bytes a.name b.name
      (first_nat a.vmid b.vmid (first_bytes a.id b.id (bytes_lt a.key b.key)))

-- The comparison that sortRows gives to sort.SliceStable.
unfoldable pub less : SortMode → GuestRow → GuestRow → Bool
less sort_by_id a b = first_nat a.vmid b.vmid (first_bytes a.id b.id (less_by_name_then_id a b))
less sort_by_status a b = first_nat (status_rank a) (status_rank b) (less_by_name_then_id a b)
less sort_by_host a b = first_bytes a.inst_name b.inst_name (less_by_name_then_id a b)
less _ a b = less_by_name_then_id a b

-- sort.SliceStable, as insertion: a row goes before the first row that it may stand before.
unfoldable pub place_row : SortMode → GuestRow → List GuestRow → List GuestRow
place_row m a [] = a ∷ []
place_row m a (b ∷ rows) =
    let rest = place_row m a rows in if less m b a then b ∷ rest else a ∷ b ∷ rows

unfoldable pub sort_rows : SortMode → List GuestRow → List GuestRow
sort_rows m [] = []
sort_rows m (a ∷ rows) = place_row m a (sort_rows m rows)
