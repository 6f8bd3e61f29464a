-- ===== src/Terminal/Scan.antt =====
-- internal/console/modefilter.go: the escape sequences that the filter frames and reads.
use proxpass.Base.{
  ℕ, suc, ◌-◌, Bytes, codes, bytes_eq, Bool, true, false, not, ◌&&◌, ◌||◌, Option, none, some, List,
  [], ◌∷◌, ltb, leb, ◌==◌, if◌then◌else◌, length, take, drop, get_elem?,
}

abbrev pub esc : ℕ
esc = 27

-- The characters of the source are written as their codes: '[' is 91, '?' 63, ';' 59, 'h' 104, 'l' 108,
-- 'r' 114, 'J' 74, 's' 115, 'u' 117, 'c' 99, '7' 55 and '8' 56.

-- Parameter bytes 0x30-0x3F and intermediates 0x20-0x2F.
unfoldable pub is_csi_middle : ℕ → Bool
is_csi_middle c = leb 48 c && leb c 63 || leb 32 c && leb c 47

-- Final bytes 0x40-0x7E.
unfoldable pub is_csi_final : ℕ → Bool
is_csi_final c = leb 64 c && leb c 126

-- Where the sequence that a CSI introduces ends: `i` is the index of the first byte of the rest.
unfoldable pub scan_csi : ℕ → Bytes → Option ℕ
scan_csi i [] = none
scan_csi i (c ∷ cs) =
    let more = scan_csi (suc i) cs in
    if is_csi_middle c then more else if is_csi_final c then some (suc i) else some (suc i)

unfoldable pub csi_prefix : Bytes → Option ℕ → Option (Bytes × ℕ)
csi_prefix b none = none
csi_prefix b (some n) = some (take n b, n)

-- scanEscape: none for an incomplete sequence.
unfoldable pub scan_escape : Bytes → Option (Bytes × ℕ)
scan_escape [] = none
scan_escape (x ∷ []) = none
scan_escape (x ∷ y ∷ rest) =
    if not (y == 91) then some (x ∷ y ∷ [], 2) else csi_prefix (x ∷ y ∷ rest) (scan_csi 2 rest)

-- `seq[i] == c`, where i is below the length.
unfoldable pub byte_is : Bytes → ℕ → ℕ → Bool
byte_is seq i c = elim (get_elem? seq i) [ none ↦ false | some b ↦ b == c ]

-- `seq[len(seq)-1] == c`
unfoldable pub last_is : Bytes → ℕ → Bool
last_is seq c = byte_is seq (length seq - 1) c

-- `seq[2 : len(seq)-1]`
unfoldable pub inner : Bytes → Bytes
inner seq = take (length seq - 1 - 2) (drop 2 seq)

-- A byte in front of the first part.
unfoldable pub onto_first : ℕ → List Bytes → List Bytes
onto_first c [] = (c ∷ []) ∷ []
onto_first c (q ∷ qs) = (c ∷ q) ∷ qs

-- bytes.Split on one separator byte.

unfoldable pub split : ℕ → Bytes → List Bytes
split sep [] = [] ∷ []
split sep (c ∷ cs) = let rest = split sep cs in if c == sep then [] ∷ rest else onto_first c rest

unfoldable pub has_mark : Bytes → Bool
has_mark [] = false
has_mark (c ∷ cs) = c == 63

unfoldable pub drop_mark : Bytes → Bytes
drop_mark [] = []
drop_mark (c ∷ cs) = if c == 63 then cs else c ∷ cs

-- The loop over the parameters: whether one of them, after a private marker, passes the test.
unfoldable pub private_param : (Bytes → Bool) → Bool → List Bytes → Bool
private_param test private [] = false
private_param test private (p ∷ ps) =
    let now_private = private || has_mark p in
    let found = private_param test now_private ps in
    if not now_private then found else if test (drop_mark p) then true else found

unfoldable pub is_alt_mode : Bytes → Bool
is_alt_mode p = bytes_eq p (codes "47") || bytes_eq p (codes "1047") || bytes_eq p (codes "1049")

unfoldable pub is_origin_mode : Bytes → Bool
is_origin_mode p = bytes_eq p (codes "6")

-- parseAltScreen and parseOriginMode, which differ in the modes: some enabled, or none when not ok.
unfoldable pub parse_mode : (Bytes → Bool) → Bytes → Option Bool
parse_mode test seq =
    if ltb (length seq) 4 || not (byte_is seq 1 91)
    then none
    else if not (last_is seq 104) && not (last_is seq 108)
    then none
    else if private_param test false (split 59 (inner seq))
    then some (last_is seq 104)
    else none

unfoldable pub parse_alt_screen : Bytes → Option Bool
parse_alt_screen = parse_mode is_alt_mode

unfoldable pub parse_origin_mode : Bytes → Option Bool
parse_origin_mode = parse_mode is_origin_mode

unfoldable pub is_set_scroll_region : Bytes → Bool
is_set_scroll_region seq =
    leb 3 (length seq) && byte_is seq 1 91 && last_is seq 114 && not (byte_is seq 2 63)

unfoldable pub is_cursor_save : Bytes → Bool
is_cursor_save seq =
    length seq == 2 && byte_is seq 0 esc && byte_is seq 1 55
    || length seq == 3 && byte_is seq 1 91 && byte_is seq 2 115

unfoldable pub is_cursor_restore : Bytes → Bool
is_cursor_restore seq =
    length seq == 2 && byte_is seq 0 esc && byte_is seq 1 56
    || length seq == 3 && byte_is seq 1 91 && byte_is seq 2 117

unfoldable pub is_full_reset : Bytes → Bool
is_full_reset seq = length seq == 2 && byte_is seq 0 esc && byte_is seq 1 99

unfoldable pub erases_bar_row : Bytes → Bool
erases_bar_row seq =
    if ltb (length seq) 3 || not (byte_is seq 1 91)
    then false
    else if not (last_is seq 74)
    then false
    else bytes_eq (inner seq) []
      || bytes_eq (inner seq) (codes "0")
      || bytes_eq (inner seq) (codes "2")
      || bytes_eq (inner seq) (codes "3")
