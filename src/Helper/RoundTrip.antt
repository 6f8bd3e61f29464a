-- ===== src/Helper/RoundTrip.antt =====
-- What was written is read back, and a reader never takes more than the bounds.
use mathlib.Core.Path.{subst}
use proxpass.Base.{
  ℕ, ◌+◌, ◌-◌, ◌*◌, ◌%◌, ◌^◌, ◌≤◌, ◌<◌, Bytes, true, false, Option, none, some, List, [], ◌∷◌, ◌++◌,
  append_assoc, append-nil, Result, ok, err, ltb, leb, ◌==◌, length, take, length-append,
  take-length-append, drop-length-append, take-append-drop, length-take, ◌≡◌, refl, sym, ap, ◌∙◌,
  arith, Bool-cases, Option-cases, inl, inr, ℤ, pos, negsuc,
}
use proxpass.Helper.{
  max_frame, max_payload, FrameError, put_uint32, uint32_of, write, write_parts, payload_parts,
  write_frame, read_full, read_payload, write_message, decoded, header_of, framed, read_header,
}

uint32_of-put : (n : ℕ) → n < 2 ^ 32 → uint32_of (put_uint32 n) ≡ n
unfolding uint32_of put_uint32
uint32_of-put n h = omega arith

abbrev joined : List Bytes → Bytes
joined [] = []
joined (p ∷ ps) = p ++ joined ps

-- A sequence of writes that succeeded wrote everything.
written :
    (room : ℕ) (ps : List Bytes) (out : Bytes)
    → write_parts room ps ≡ (ok tt, out)
    → out ≡ joined ps
unfolding write_parts write
written room [] out e = ground arith
written room (p ∷ ps) out e = elim (Bool-cases (leb (length p) room)) [
  | inr n ↦ absurd (ground arith)
  | inl f ↦
      let rest = write_parts (room - length p) ps in
      let both : (rest.0 ≡ ok tt) × (p ++ rest.1 ≡ out) = ground arith in
      let again : write_parts (room - length p) ps ≡ (ok tt, rest.1) = ground arith in
      let tail = written (room - length p) ps rest.1 again in sym both.1 ∙ ap (λ s. p ++ s) tail
]

full_prefix : (p s : Bytes) → read_full (length p) (p ++ s) ≡ (ok p, s)
unfolding read_full
full_prefix p s =
    let fits : leb (length p) (length (p ++ s)) ≡ true = ground (arith, length-append p s) in
    rw fits (rw (take-length-append p s) (rw (drop-length-append p s) refl))

joined_payload : (p : Bytes) → joined (payload_parts p) ≡ p
unfolding payload_parts
joined_payload [] = refl
joined_payload (x ∷ xs) = append-nil (x ∷ xs)

-- The bytes of a frame whose writing succeeded.
frame_bytes :
    (room : ℕ) (b payload out : Bytes)
    → write_frame room (some b) payload ≡ (ok tt, out)
    → (length b ≤ 2 ^ 20) × (out ≡ put_uint32 (length b) ++ (b ++ payload))
unfolding write_frame
frame_bytes room b payload out e = elim (Bool-cases (ltb max_frame (length b))) [
  | inl t ↦ absurd (ground arith)
  | inr f ↦
      let small : length b ≤ 2 ^ 20 = ground arith in
      let parts = put_uint32 (length b % 2 ^ 32) ∷ b ∷ payload_parts payload in
      let done : write_parts room parts ≡ (ok tt, out) = ground arith in
      let no_wrap : length b % 2 ^ 32 ≡ length b = omega arith in
      (
        small,
        written room parts out done
            ∙ ap (λ n. put_uint32 n ++ (b ++ joined (payload_parts payload))) no_wrap
            ∙ ap (λ p. put_uint32 (length b) ++ (b ++ p)) (joined_payload payload),
      )
]

prefix_read : (n : ℕ) (s : Bytes) → read_full 4 (put_uint32 n ++ s) ≡ (ok (put_uint32 n), s)
unfolding put_uint32
prefix_read n s = full_prefix (put_uint32 n) s

read_framed :
    {H : Type 0} (unmarshal : Bytes → Option H) (b rest : Bytes) (h : H)
    → length b ≤ 2 ^ 20
    → unmarshal b ≡ some h
    → read_header unmarshal (put_uint32 (length b) ++ (b ++ rest)) ≡ (ok h, rest)
unfolding read_header framed header_of decoded
read_framed unmarshal b rest h small u =
    let size = uint32_of-put (length b) (omega arith) in
    let fits : ltb max_frame (length b) ≡ false = ground arith in
    rw (prefix_read (length b) (b ++ rest), read_header)
      (rw (size, framed) (rw fits (rw (full_prefix b rest) (rw u refl))))

payload_read :
    (payload rest : Bytes)
    → length payload ≤ max_payload
    → read_payload (pos (length payload)) (payload ++ rest) ≡ (ok payload, rest)
unfolding read_payload
payload_read [] rest small = refl
payload_read (x ∷ xs) rest small =
    let fits : ltb max_payload (length (x ∷ xs)) ≡ false = ground arith in
    let some_left : (length (x ∷ xs) == 0) ≡ false = ground arith in
    rw fits (rw some_left (full_prefix (x ∷ xs) rest))

unencoded : (room : ℕ) (payload out : Bytes) → ¬ (write_frame room none payload ≡ (ok tt, out))
unfolding write_frame
unencoded room payload out e = cc

-- A message that was written whole is read back: its header, whatever comes after it, and then its
-- payload of the length that was sent, if that is at most the bound, leaving what comes after. The
-- codec reads back the header that it wrote.
pub write_message_read :
    {H : Type 0} (marshal : H → Option Bytes) (unmarshal : Bytes → Option H) (room : ℕ) (h : H)
    (payload rest out : Bytes)
    → ((b : Bytes) → marshal h ≡ some b → unmarshal b ≡ some h)
    → length payload ≤ max_payload
    → write_message marshal room h payload ≡ (ok tt, out)
    → (read_header unmarshal (out ++ rest) ≡ (ok h, payload ++ rest))
      × (read_payload (pos (length payload)) (payload ++ rest) ≡ (ok payload, rest))
unfolding write_message
write_message_read marshal unmarshal room h payload rest out law small e =
    elim (Option-cases (marshal h)) [
      | inl n ↦
          absurd (
            unencoded room payload out (subst (λ o. write_frame room o payload ≡ (ok tt, out)) n e))
      | inr (b, m) ↦
          let (fits, bytes) =
            frame_bytes room b payload out
              (subst (λ o. write_frame room o payload ≡ (ok tt, out)) m e) in
          let whole : out ++ rest ≡ put_uint32 (length b) ++ (b ++ (payload ++ rest)) =
            ap (λ s. s ++ rest) bytes
            ∙ append_assoc (put_uint32 (length b)) (b ++ payload) rest
            ∙ ap (λ s. put_uint32 (length b) ++ s) (append_assoc b payload rest) in
          (
            rw whole (read_framed unmarshal b (payload ++ rest) h fits (law b m)),
            payload_read payload rest small,
          )
    ]

full_bound :
    (n : ℕ) (s : Bytes) → (used : Bytes) × (used ++ (read_full n s).1 ≡ s) × (length used ≤ n)
unfolding read_full
full_bound n s = elim (Bool-cases (leb n (length s))) [
  | inl e ↦ (take n s, rw e (take-append-drop n s), omega (arith, length-take n s))
  | inr e ↦ (s, rw e (append-nil s), ground arith)
]

header_rest :
    {H : Type 0} (unmarshal : Bytes → Option H) (r : Result FrameError Bytes) (s : Bytes)
    → (header_of unmarshal (r, s)).1 ≡ s
unfolding header_of
header_rest unmarshal (ok b) s = refl
header_rest unmarshal (err e) s = refl

framed_bound :
    {H : Type 0} (unmarshal : Bytes → Option H) (r : Result FrameError Bytes) (s : Bytes)
    → (used : Bytes) × (used ++ (framed unmarshal (r, s)).1 ≡ s) × (length used ≤ 2 ^ 20)
unfolding framed
framed_bound unmarshal (err e) s = ([], refl, omega arith)
framed_bound unmarshal (ok p) s = elim (Bool-cases (ltb max_frame (uint32_of p))) [
  | inl t ↦ ([], rw t refl, omega arith)
  | inr f ↦
      let (used, same, few) = full_bound (uint32_of p) s in
      let r = read_full (uint32_of p) s in
      (used, rw f (rw (header_rest unmarshal r.0 r.1) same), ground arith)
]

payload_bound :
    (claimed : ℤ) (s : Bytes)
    → (used : Bytes) × (used ++ (read_payload claimed s).1 ≡ s) × (length used ≤ 8 * 2 ^ 20)
unfolding read_payload
payload_bound (negsuc n) s = ([], refl, omega arith)
payload_bound (pos n) s = elim (Bool-cases (ltb max_payload n)) [
  | inl t ↦ ([], rw t refl, omega arith)
  | inr f ↦ elim (Bool-cases (n == 0)) [
    | inl z ↦ ([], rw f (rw z refl), omega arith)
    | inr z ↦ let (used, same, few) = full_bound n s in (used, rw f (rw z same), ground arith)
  ]
]

-- Whatever bytes come, reading a header takes at most the four bytes of a length and the bound of a
-- frame, and reading a payload at most the bound of a payload, whatever length was claimed; the rest
-- is left for the next read.
pub reads_bound :
    {H : Type 0} (unmarshal : Bytes → Option H) (claimed : ℤ) (s : Bytes)
    → ((used : Bytes) × (used ++ (read_header unmarshal s).1 ≡ s) × (length used ≤ 4 + 2 ^ 20))
      × ((used : Bytes) × (used ++ (read_payload claimed s).1 ≡ s) × (length used ≤ 8 * 2 ^ 20))
unfolding read_header
reads_bound unmarshal claimed s =
    let (used, same, few) = full_bound 4 s in
    let r = read_full 4 s in
    let (more, same', few') = framed_bound unmarshal r.0 r.1 in
    (
      (
        used ++ more,
        append_assoc used more _ ∙ ap (λ t. used ++ t) same' ∙ same,
        omega (arith, length-append used more),
      ),
      payload_bound claimed s,
    )
