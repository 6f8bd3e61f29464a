-- ===== src/Console/Tests.antt =====
-- Witnesses and runs of the console's writer and reader.
use proxpass.Base.{Bytes, true, false, none, List, [], ◌∷◌, ◌≡◌, ◌↔◌, refl}
use proxpass.Base.{some}
use proxpass.Console.{
  translate, ends_in_cr, crlf_write, crlf_writes, fresh_reader, scan_keys, after_scan, read_keys,
  read_all,
}
use proxpass.Console.Laws.{concat, HasEscape, read_keys_iff}

unfoldable console_code : Unit {0}
unfolding translate ends_in_cr crlf_write crlf_writes scan_keys after_scan read_keys read_all
console_code = tt

abbrev lines : List Bytes
lines = (97 ∷ 10 ∷ 98 ∷ 13 ∷ []) ∷ (10 ∷ 99 ∷ []) ∷ []

written : crlf_writes false lines ≡ 97 ∷ 13 ∷ 10 ∷ 98 ∷ 13 ∷ 10 ∷ 99 ∷ []
unfolding console_code
written = refl

left : (read_all fresh_reader ((97 ∷ 1 ∷ []) ∷ (120 ∷ []) ∷ [])).done ≡ true
unfolding console_code
left = refl

not_left : (read_all fresh_reader ((1 ∷ 97 ∷ []) ∷ (120 ∷ []) ∷ [])).done ≡ false
unfolding console_code
not_left = refl

lost : (read_keys fresh_reader (97 ∷ 1 ∷ 120 ∷ [])).1 ≡ none
unfolding console_code
lost = refl

read_keys_iff_example :
    let given = (read_keys (read_all fresh_reader ((97 ∷ 1 ∷ []) ∷ [])) (88 ∷ [])).1 in
    (given ≡ none ↔ HasEscape (concat ((97 ∷ 1 ∷ []) ∷ (88 ∷ []) ∷ [])))
    × ((¬ HasEscape (concat ((97 ∷ 1 ∷ []) ∷ (88 ∷ []) ∷ []))) → given ≡ some (88 ∷ []))
read_keys_iff_example = read_keys_iff ((97 ∷ 1 ∷ []) ∷ []) (88 ∷ [])
