-- ===== src/Picker/Tests.antt =====
-- Witnesses and runs of the picker: thirty rows of a list on a terminal of 16 lines.
use proxpass.Base.{
  List, ℕ, ◌+◌, ◌-◌, arith, Bytes, codes, bytes_eq, Bool, true, false, some, [], ◌∷◌, ◌≡◌, refl,
  ltb,
}
use proxpass.Picker.Order.{
  sort_by_status, sort_unset, sort_by_name, sort_by_id, index_in, cycle_index, in_cycle, next_of,
  next, prev_of, prev, GuestRow, bytes_lt, first_bytes, first_nat, status_rank,
  less_by_name_then_id, less, place_row, sort_rows,
}
use proxpass.Picker.Order.Columns.{IsOrdered, sort_rows-IsOrdered}
use proxpass.Picker.Order.Sorted.{count}
use proxpass.Picker.Window.{
  Window, down, list_rows, scroll_up, scroll_down, scroll_back, scroll_to_cursor, shifted, move,
  IsShown, move-IsShown,
}
use Prim.Native.Nat.{min}

abbrev thirty : Window
thirty = record { count = 30; cursor = 8; offset = 0; height = 16 }

unfoldable picker_code : Unit {0}
unfolding list_rows scroll_up scroll_down scroll_back scroll_to_cursor shifted move index_in
    cycle_index in_cycle next_of next prev_of prev bytes_lt first_bytes first_nat status_rank
    less_by_name_then_id less place_row sort_rows count bytes_eq
picker_code = tt

paged : move (down 10) thirty ≡ record thirty { cursor = 18; offset = 9 }
unfolding picker_code
paged = refl

-- A resize sets the height alone: the cursor's row may be outside the window afterwards.
hidden : (list_rows (record thirty { height = 10 }) ≡ 4) × (ltb 8 (0 + 4) ≡ false)
unfolding picker_code
hidden = (refl, refl)

first_tab : next sort_unset ≡ sort_by_id
unfolding picker_code
first_tab = refl

abbrev guest : Bytes → ℕ → Bool → GuestRow
guest name vmid up = record {
  name = name;
  inst_name = codes "rome";
  id = codes "ct";
  vmid = vmid;
  running = up;
  key = codes "g";
}

sorted :
    sort_rows sort_by_id (guest (codes "web") 102 true ∷ guest (codes "db") 101 false ∷ [])
    ≡ guest (codes "db") 101 false ∷ guest (codes "web") 102 true ∷ []
unfolding picker_code
sorted = refl

in_place : cycle_index sort_by_name ≡ some 1
unfolding picker_code
in_place = refl

move-IsShown_example :
    ((move (down 10) thirty).cursor ≡ min (shifted (down 10) 8) (30 - 1))
    × ((move (down 10) thirty).count ≡ 30)
    × IsShown (move (down 10) thirty)
move-IsShown_example = move-IsShown (down 10) thirty (omega arith)

abbrev mixed : List GuestRow
mixed = guest (codes "a") 102 false ∷ guest (codes "b") 101 true ∷ []

sort_rows-IsOrdered_example :
    IsOrdered sort_by_status (sort_rows sort_by_status mixed)
    × ((p : GuestRow → Bool) → count p (sort_rows sort_by_status mixed) ≡ count p mixed)
sort_rows-IsOrdered_example = sort_rows-IsOrdered sort_by_status mixed
