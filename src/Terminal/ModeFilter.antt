-- ===== src/Terminal/ModeFilter.antt =====
-- internal/console/modefilter.go: the filter that watches a guest's output. `now` is the time at which
-- Observe is called, in nanoseconds; the clock stands still during a call.
pub mod Cuts
pub mod Split
use proxpass.Base.{
  ℕ, zero, suc, ◌-◌, Bytes, Bool, true, false, not, ◌||◌, Option, none, some, [], ◌∷◌, ◌++◌, leb,
  ◌==◌, if◌then◌else◌, length, drop,
}
use proxpass.Terminal.Scan.{
  esc, scan_escape, parse_alt_screen, parse_origin_mode, is_set_scroll_region, is_cursor_save,
  is_cursor_restore, is_full_reset, erases_bar_row,
}

pub record ModeFilter : Type 0 where
  pub alt_screen : Bool
  pub partial : Bytes
  pub reset : Bool
  pub cursor_saved : Bool
  pub cursor_saved_at : ℕ
  pub region_lost : Bool
  pub origin_mode : Bool
  pub left_alt_screen : Bool

abbrev pub max_partial_escape : ℕ
max_partial_escape = 64

abbrev pub max_cursor_hold : ℕ
max_cursor_hold = 1000000000

abbrev pub bool_eq : Bool → Bool → Bool
bool_eq true b = b
bool_eq false b = not b

-- CursorSaved: what it reports at the time `now`, and the flag it may clear.
unfoldable pub cursor_saved_now : ℕ → ModeFilter → Bool × ModeFilter
cursor_saved_now now m =
    if not m.cursor_saved
    then (false, m)
    else if leb max_cursor_hold (now - m.cursor_saved_at)
    then (false, record m { cursor_saved = false })
    else (true, m)

-- The case of a sequence that changes the alternate screen.
unfoldable pub switch_alt : Bool → ModeFilter → ModeFilter × Bool
switch_alt alt m =
    if bool_eq alt m.alt_screen
    then (m, false)
    else (record m { alt_screen = alt; left_alt_screen = m.left_alt_screen || not alt }, true)

unfoldable pub switch_origin : Option Bool → ModeFilter → ModeFilter × Bool
switch_origin none m = (m, false)
switch_origin (some origin) m =
    if bool_eq origin m.origin_mode then (m, false) else (record m { origin_mode = origin }, true)

-- The cases of the switch after the first.
unfoldable pub observe_other : ℕ → Bytes → ModeFilter → ModeFilter × Bool
observe_other now seq m =
    if is_set_scroll_region seq
    then (record m { region_lost = true }, true)
    else if is_full_reset seq
    then (
      record m { reset = true; alt_screen = false; cursor_saved = false; origin_mode = false },
      true,
    )
    else if is_cursor_save seq
    then (record m { cursor_saved = true; cursor_saved_at = now }, false)
    else if is_cursor_restore seq
    then (record m { cursor_saved = false }, m.cursor_saved)
    else if erases_bar_row seq
    then (m, true)
    else switch_origin (parse_origin_mode seq) m

-- What one sequence does, and whether it asks for a redraw.
unfoldable pub observe_seq : ℕ → Bytes → ModeFilter → ModeFilter × Bool
observe_seq now seq m = elim (parse_alt_screen seq) [
  | some alt ↦ switch_alt alt m
  | none ↦ observe_other now seq m
]

-- An incomplete tail is kept unless it is too long.
unfoldable pub keep_tail : Bytes → ModeFilter → ModeFilter
keep_tail tail m = if leb (length tail) max_partial_escape then record m { partial = tail } else m

-- The loop over the buffer, on fuel: a step drops at least one byte.
unfoldable pub observe_loop : ℕ → ℕ → ModeFilter → Bytes → ModeFilter × Bool
observe_loop zero now m buf = (m, false)
observe_loop (suc fuel) now m [] = (m, false)
observe_loop (suc fuel) now m (b ∷ bs) = elim (b == esc) [
  | false ↦ observe_loop fuel now m bs
  | true ↦ elim (scan_escape (b ∷ bs)) [
    | none ↦ (keep_tail (b ∷ bs) m, false)
    | some (seq, n) ↦
        let (m', drawn) = observe_seq now seq m in
        let (last, more) = observe_loop fuel now m' (drop n (b ∷ bs)) in (last, drawn || more)
  ]
]

unfoldable pub observe : ℕ → ModeFilter → Bytes → ModeFilter × Bool
observe now m p =
    let buf = m.partial ++ p in observe_loop (length buf) now (record m { partial = [] }) buf
