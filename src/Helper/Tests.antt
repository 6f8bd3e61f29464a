-- ===== src/Helper/Tests.antt =====
-- Witnesses and runs of the helper protocol. The codec here is the identity.
use proxpass.Base.{
  ◌+◌, ◌^◌, ◌*◌, ◌≤◌, Bytes, Option, some, [], ◌∷◌, ◌++◌, ok, err, length, ◌≡◌, refl, sym, arith,
  pos, negsuc,
}
use proxpass.Helper.{
  short_frame, unexpected_eof, writer, put_uint32, uint32_of, write, write_parts, payload_parts,
  write_frame, read_full, read_payload, write_message, decoded, header_of, framed, read_header,
}
use proxpass.Helper.RoundTrip.{write_message_read, reads_bound}

unfoldable helper_code : Unit {0}
unfolding put_uint32 uint32_of write write_parts payload_parts write_frame read_full read_payload
    write_message decoded header_of framed read_header
helper_code = tt

abbrev codec : Bytes → Option Bytes
codec s = some s

sent : write_message codec 100 (7 ∷ 8 ∷ []) (9 ∷ []) ≡ (ok tt, 0 ∷ 0 ∷ 0 ∷ 2 ∷ 7 ∷ 8 ∷ 9 ∷ [])
unfolding helper_code
sent = refl

cut_short : write_message codec 5 (7 ∷ 8 ∷ []) (9 ∷ []) ≡ (err writer, 0 ∷ 0 ∷ 0 ∷ 2 ∷ 7 ∷ [])
unfolding helper_code
cut_short = refl

too_large : read_header codec (0 ∷ 16 ∷ 0 ∷ 1 ∷ 5 ∷ []) ≡ (err short_frame, 5 ∷ [])
unfolding helper_code
too_large = refl

broken_off : read_header codec (0 ∷ 0 ∷ 0 ∷ 2 ∷ 5 ∷ []) ≡ (err unexpected_eof, [])
unfolding helper_code
broken_off = refl

below_zero : read_payload (negsuc 0) (5 ∷ []) ≡ (err short_frame, 5 ∷ [])
unfolding helper_code
below_zero = refl

write_message_read_example :
    (read_header codec (0 ∷ 0 ∷ 0 ∷ 2 ∷ 7 ∷ 8 ∷ 9 ∷ 4 ∷ []) ≡ (ok (7 ∷ 8 ∷ []), 9 ∷ 4 ∷ []))
    × (read_payload (pos 1) (9 ∷ 4 ∷ []) ≡ (ok (9 ∷ []), 4 ∷ []))
write_message_read_example =
    write_message_read codec codec 100 (7 ∷ 8 ∷ []) (9 ∷ []) (4 ∷ [])
      (0 ∷ 0 ∷ 0 ∷ 2 ∷ 7 ∷ 8 ∷ 9 ∷ []) (λ b e. sym e) (omega arith) sent

reads_bound_example :
    ((used : Bytes) × (used ++ (read_header codec (0 ∷ 16 ∷ 0 ∷ 1 ∷ [])).1 ≡ 0 ∷ 16 ∷ 0 ∷ 1 ∷ [])
      × (length used ≤ 4 + 2 ^ 20))
    × ((used : Bytes) × (used ++ (read_payload (pos 3) (0 ∷ 16 ∷ 0 ∷ 1 ∷ [])).1
          ≡ 0 ∷ 16 ∷ 0 ∷ 1 ∷ [])
        × (length used ≤ 8 * 2 ^ 20))
reads_bound_example = reads_bound codec (pos 3) (0 ∷ 16 ∷ 0 ∷ 1 ∷ [])
