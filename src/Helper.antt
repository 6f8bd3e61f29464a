-- ===== src/Helper.antt =====
-- internal/guesthelper/protocol.go: messages to and from the helper in a guest. A message is a header of
-- JSON behind its length in four bytes, and raw bytes of a length that the header says. The JSON codec
-- is a parameter. A writer takes a number of bytes and then fails; a reader has the bytes that come.
pub mod RoundTrip
pub mod Tests
use proxpass.Base.{
  ℕ, ◌+◌, ◌-◌, ◌*◌, ◌/◌, ◌%◌, ◌^◌, Bytes, Bool, true, false, ◌&&◌, ◌||◌, Option, none, some, List,
  [], ◌∷◌, ◌++◌, Result, ok, err, ltb, leb, ◌==◌, if◌then◌else◌, length, take, drop, ℤ, pos, negsuc,
}

abbrev pub max_frame : ℕ
max_frame = 2 ^ 20

abbrev pub max_payload : ℕ
max_payload = 8 * 2 ^ 20

-- ErrShortFrame, a codec's error, a writer's, io.EOF and io.ErrUnexpectedEOF.
pub data FrameError : Type 0 where
  short_frame codec writer eof unexpected_eof : FrameError

-- binary.BigEndian.PutUint32, and Uint32 back.
unfoldable pub put_uint32 : ℕ → Bytes
put_uint32 n = (n / 2 ^ 24) % 256 ∷ (n / 2 ^ 16) % 256 ∷ (n / 2 ^ 8) % 256 ∷ n % 256 ∷ []

unfoldable pub uint32_of : Bytes → ℕ
uint32_of (a ∷ b ∷ c ∷ d ∷ []) = a * 2 ^ 24 + b * 2 ^ 16 + c * 2 ^ 8 + d
uint32_of _ = 0

-- One Write: what was taken, and the room that is left.
unfoldable pub write : ℕ → Bytes → Result FrameError (Unit {0}) × Bytes × ℕ
write room p =
    if leb (length p) room then (ok tt, p, room - length p) else (err writer, take room p, 0)

unfoldable pub write_parts : ℕ → List Bytes → Result FrameError (Unit {0}) × Bytes
write_parts room [] = (ok tt, [])
write_parts room (p ∷ ps) =
    let (done, out, left) = write room p in
    elim done [
      | err e ↦ (err e, out)
      | ok _ ↦ let rest = write_parts left ps in (rest.0, out ++ rest.1)
    ]

-- The payload is written only where there is one.
unfoldable pub payload_parts : Bytes → List Bytes
payload_parts [] = []
payload_parts (x ∷ xs) = (x ∷ xs) ∷ []

-- The conversion to uint32 is written out, though the test before it leaves nothing to wrap.
unfoldable pub write_frame : ℕ → Option Bytes → Bytes → Result FrameError (Unit {0}) × Bytes
write_frame room none payload = (err codec, [])
write_frame room (some b) payload =
    if ltb max_frame (length b)
    then (err short_frame, [])
    else write_parts room (put_uint32 (length b % 2 ^ 32) ∷ b ∷ payload_parts payload)

-- io.ReadFull into a buffer of `n` bytes.
unfoldable pub read_full : ℕ → Bytes → Result FrameError Bytes × Bytes
read_full n s =
    if leb n (length s)
    then (ok (take n s), drop n s)
    else (err (if length s == 0 then eof else unexpected_eof), [])

unfoldable pub read_payload : ℤ → Bytes → Result FrameError Bytes × Bytes
read_payload (negsuc n) s = (err short_frame, s)
read_payload (pos n) s =
    if ltb max_payload n then (err short_frame, s) else if n == 0 then (ok [], s) else read_full n s

unfoldable pub write_message :
    {H : Type 0} → (H → Option Bytes) → ℕ → H → Bytes → Result FrameError (Unit {0}) × Bytes
write_message marshal room header payload = write_frame room (marshal header) payload

unfoldable pub decoded : {H : Type 0} → Option H → Result FrameError H
decoded none = err codec
decoded (some h) = ok h

module _ {H : Type 0} (unmarshal : Bytes → Option H) where
  unfoldable pub header_of : Result FrameError Bytes × Bytes → Result FrameError H × Bytes
  header_of (err e, s) = (err e, s)
  header_of (ok b, s) = (decoded (unmarshal b), s)

  unfoldable pub framed : Result FrameError Bytes × Bytes → Result FrameError H × Bytes
  framed (err e, s) = (err e, s)
  framed (ok prefix, s) =
      if ltb max_frame (uint32_of prefix)
      then (err short_frame, s)
      else header_of (read_full (uint32_of prefix) s)

  unfoldable pub read_header : Bytes → Result FrameError H × Bytes
  read_header s = framed (read_full 4 s)
