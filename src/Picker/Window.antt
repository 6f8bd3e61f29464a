-- ===== src/Picker/Window.antt =====
-- internal/session/interactive.go: the cursor and the window of the picker. `count` is len(s.shown).
-- A negative value that the source clamps to 0 is 0 here.
use proxpass.Base.{
  ℕ, ◌+◌, ◌-◌, ◌≤◌, ◌<◌, ltb, leb, ◌==◌, if◌then◌else◌, ◌≡◌, ◌⊎◌, inl, inr, refl, sym, Bool-cases,
  arith,
}
use Prim.Native.Nat.{min}
use mathlib.Core.Path.{subst}

pub record Window : Type 0 where
  pub count : ℕ
  pub cursor : ℕ
  pub offset : ℕ
  pub height : ℕ

-- The delta of move: n rows up or n rows down.
pub data Delta : Type 0 where
  up down : ℕ → Delta

abbrev pub reserved_rows : ℕ
reserved_rows = 6

abbrev pub min_list_rows : ℕ
min_list_rows = 3

unfoldable pub list_rows : Window → ℕ
list_rows s =
    if ltb (s.height - reserved_rows) min_list_rows then min_list_rows else s.height - reserved_rows

-- The three corrections of scrollToCursor, in their order.
unfoldable pub scroll_up : Window → Window
scroll_up s = if ltb s.cursor s.offset then record s { offset = s.cursor } else s

unfoldable pub scroll_down : Window → Window
scroll_down s =
    if leb (s.offset + list_rows s) s.cursor
    then record s { offset = (s.cursor + 1) - list_rows s }
    else s

unfoldable pub scroll_back : Window → Window
scroll_back s =
    if ltb (s.count - list_rows s) s.offset then record s { offset = s.count - list_rows s } else s

unfoldable pub scroll_to_cursor : Window → Window
scroll_to_cursor s = scroll_back (scroll_down (scroll_up s))

unfoldable pub shifted : Delta → ℕ → ℕ
shifted (up n) cursor = cursor - n
shifted (down n) cursor = cursor + n

unfoldable pub move : Delta → Window → Window
move d s =
    if s.count == 0
    then record s { cursor = 0; offset = 0 }
    else scroll_to_cursor (
        if ltb (s.count - 1) (shifted d s.cursor)
        then record s { cursor = s.count - 1 }
        else record s { cursor = shifted d s.cursor })

-- The cursor is on a row, the row is in the window, and no line of the window is wasted.
pub record IsShown (s : Window) : Type 0 where
  pub on_row : s.cursor < s.count
  pub in_window : (s.offset ≤ s.cursor) × (s.cursor < s.offset + list_rows s)
  pub full : (s.offset ≡ 0) ⊎ (s.offset + list_rows s ≤ s.count)

scroll-IsShown : (s : Window) → s.cursor < s.count → IsShown (scroll_to_cursor s)
unfolding scroll_to_cursor scroll_up scroll_down scroll_back list_rows
scroll-IsShown s h = record {
  on_row = ground arith;
  in_window = (ground arith, ground arith);
  full = ground arith;
}

move_cursor :
    (d : Delta) (s : Window)
    → 0 < s.count
    → (move d s).cursor ≡ min (shifted d s.cursor) (s.count - 1)
unfolding move scroll_to_cursor scroll_up scroll_down scroll_back
move_cursor d s h = ground arith

move_count : (d : Delta) (s : Window) → (move d s).count ≡ s.count
unfolding move scroll_to_cursor scroll_up scroll_down scroll_back
move_count d s = ground arith

move_scrolled :
    (d : Delta) (s : Window)
    → 0 < s.count
    → (t : Window) × (move d s ≡ scroll_to_cursor t) × (t.cursor < t.count)
unfolding move
move_scrolled d s h = elim (Bool-cases (s.count == 0)) [
  | inl e ↦ absurd (ground arith)
  | inr e ↦ elim (Bool-cases (ltb (s.count - 1) (shifted d s.cursor))) [
    | inl q ↦ (record s { cursor = s.count - 1 }, rw (e, q) refl, omega arith)
    | inr q ↦ (record s { cursor = shifted d s.cursor }, rw (e, q) refl, ground arith)
  ]
]

-- Every movement in a list with rows puts the cursor where the keys say, stopped at the first and the
-- last row, and leaves the list as it was; the cursor's row is in the window, which shows as many rows
-- as it can.
pub move-IsShown :
    (d : Delta) (s : Window)
    → 0 < s.count
    → ((move d s).cursor ≡ min (shifted d s.cursor) (s.count - 1))
      × ((move d s).count ≡ s.count)
      × IsShown (move d s)
move-IsShown d s h =
    let (t, e, l) = move_scrolled d s h in
    (move_cursor d s h, move_count d s, subst IsShown (sym e) (scroll-IsShown t l))
