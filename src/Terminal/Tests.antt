-- ===== src/Terminal/Tests.antt =====
-- Witnesses and runs of the mode filter.
use proxpass.Base.{Bytes, codes, bytes_eq, true, false, ◌||◌, [], ◌∷◌, ◌++◌, ◌≡◌, refl, arith}
use proxpass.Terminal.Scan.{
  is_csi_middle, is_csi_final, scan_csi, csi_prefix, scan_escape, byte_is, last_is, inner,
  onto_first, split, has_mark, drop_mark, private_param, is_alt_mode, is_origin_mode, parse_mode,
  parse_alt_screen, parse_origin_mode, is_set_scroll_region, is_cursor_save, is_cursor_restore,
  is_full_reset, erases_bar_row,
}
use proxpass.Terminal.ModeFilter.{
  ModeFilter, cursor_saved_now, switch_alt, switch_origin, observe_other, observe_seq, keep_tail,
  observe_loop, observe,
}
use proxpass.Terminal.ModeFilter.Cuts.{unfinished}
use proxpass.Terminal.ModeFilter.Split.{observe_split}

abbrev fresh : ModeFilter
fresh = record {
  alt_screen = false;
  partial = [];
  reset = false;
  cursor_saved = false;
  cursor_saved_at = 0;
  region_lost = false;
  origin_mode = false;
  left_alt_screen = false;
}

-- ESC [ ?1000;10 and 49h: the switch to the alternate screen, cut in the middle of a number.
abbrev first_half : Bytes
first_half = 27 ∷ codes "[?1000;10"

abbrev second_half : Bytes
second_half = codes "49hvim"

unfoldable terminal_code : Unit {0}
unfolding is_csi_middle is_csi_final scan_csi csi_prefix scan_escape byte_is last_is inner
    onto_first split has_mark drop_mark private_param is_alt_mode is_origin_mode parse_mode
    parse_alt_screen parse_origin_mode is_set_scroll_region is_cursor_save is_cursor_restore
    is_full_reset erases_bar_row cursor_saved_now switch_alt switch_origin observe_other observe_seq
    keep_tail observe_loop observe unfinished bytes_eq
terminal_code = tt

switched : observe 5 fresh (first_half ++ second_half) ≡ (record fresh { alt_screen = true }, true)
unfolding terminal_code
switched = refl

halved : (observe 5 fresh first_half).0 ≡ record fresh { partial = first_half }
unfolding terminal_code
halved = refl

held :
    let (m, drawn) = observe 5 fresh (27 ∷ codes "7x") in (cursor_saved_now 1000000004 m).0 ≡ true
unfolding terminal_code
held = refl

let_go :
    let (m, drawn) = observe 5 fresh (27 ∷ codes "7x") in (cursor_saved_now 1000000005 m).0 ≡ false
unfolding terminal_code
let_go = refl

observe_split_example : observe 5 fresh (first_half ++ second_half) ≡ (
  (observe 5 (observe 5 fresh first_half).0 second_half).0,
  (observe 5 fresh first_half).1 || (observe 5 (observe 5 fresh first_half).0 second_half).1,
)
unfolding terminal_code
observe_split_example = observe_split 5 fresh first_half second_half (omega arith)
