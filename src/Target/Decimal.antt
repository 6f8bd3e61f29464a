-- ===== src/Target/Decimal.antt =====
-- The decimal form of a number reads back as the number.
use proxpass.Base.{
  ℕ, zero, suc, ◌+◌, ◌-◌, ◌*◌, ◌/◌, ◌%◌, ◌^◌, ◌≤◌, ◌<◌, Bytes, true, false, ◌&&◌, some, [], ◌∷◌,
  ltb, leb, ◌==◌, All, ◌≡◌, refl, ap, ◌∙◌, arith, Bool-cases, inl, inr, pos,
}
use proxpass.Ids.{digits_value}
use proxpass.Target.{decimal_steps, decimal, digits_of, plus_of, atoi}

read_digit :
    (a d : ℕ) (cs : Bytes) → d < 10 → digits_value a ((48 + d) ∷ cs) ≡ digits_value (10 * a + d) cs
unfolding digits_value
read_digit a d cs h =
    let low : leb 48 (48 + d) && leb (48 + d) 57 ≡ true = ground arith in
    let back : 48 + d - 48 ≡ d = omega arith in rw low (ap (λ x. digits_value (10 * a + x) cs) back)

steps_read :
    (f n : ℕ) (out : Bytes) → n < f → digits_value 0 (decimal_steps f n out) ≡ digits_value n out
unfolding decimal_steps
steps_read zero n out h = absurd (omega arith)
steps_read (suc f) n out h = elim (Bool-cases (n / 10 == 0)) [
  | inl e ↦
      let small : 10 * 0 + n % 10 ≡ n = ground arith in
      rw e (read_digit 0 (n % 10) out (omega arith) ∙ ap (λ x. digits_value x out) small)
  | inr e ↦
      let whole : 10 * (n / 10) + n % 10 ≡ n = omega arith in
      rw e (
        steps_read f (n / 10) ((48 + n % 10) ∷ out) (ground arith)
        ∙ read_digit (n / 10) (n % 10) out (omega arith)
        ∙ ap (λ x. digits_value x out) whole)
]

-- Every byte is a digit.
abbrev pub IsDigits : Bytes → Type 0
IsDigits s = All (λ c. (48 ≤ c) × (c ≤ 57)) s

steps-IsDigits : (f n : ℕ) (out : Bytes) → IsDigits out → IsDigits (decimal_steps f n out)
unfolding decimal_steps
steps-IsDigits zero n out h = h
steps-IsDigits (suc f) n out h =
    let digit : (48 ≤ 48 + n % 10) × (48 + n % 10 ≤ 57) = omega arith in
    elim (Bool-cases (n / 10 == 0)) [
      | inl e ↦ rw e (digit, h)
      | inr e ↦ rw e (steps-IsDigits f (n / 10) ((48 + n % 10) ∷ out) (digit, h))
    ]

pub decimal-IsDigits : (n : ℕ) → IsDigits (decimal n)
unfolding decimal
decimal-IsDigits n = steps-IsDigits (suc n) n [] tt

-- A list of digits that reads as a number is one that Atoi reads.
atoi_digits :
    (s : Bytes) (n : ℕ)
    → n < 2 ^ 63
    → IsDigits s
    → (s ≡ [] → ⊥)
    → digits_value 0 s ≡ some n
    → atoi s ≡ some (pos n)
unfolding atoi plus_of digits_of
atoi_digits [] n small d some_left e = absurd (some_left refl)
atoi_digits (c ∷ cs) n small (d, ds) some_left e =
    let no_minus : (c == 45) ≡ false = ground arith in
    let no_plus : (c == 43) ≡ false = ground arith in
    let fits : ltb n (2 ^ 63) ≡ true = ground arith in
    rw no_minus (rw no_plus (rw e (rw fits refl)))

steps_left : (f n c : ℕ) (out : Bytes) → decimal_steps f n (c ∷ out) ≡ [] → ⊥
unfolding decimal_steps
steps_left zero n c out e = cc
steps_left (suc f) n c out e = elim (Bool-cases (n / 10 == 0)) [
  | inl t ↦ ground arith
  | inr t ↦ steps_left f (n / 10) (48 + n % 10) (c ∷ out) (ground arith)
]

decimal_left : (f n : ℕ) → decimal_steps (suc f) n [] ≡ [] → ⊥
unfolding decimal_steps
decimal_left f n e = elim (Bool-cases (n / 10 == 0)) [
  | inl t ↦ ground arith
  | inr t ↦ steps_left f (n / 10) (48 + n % 10) [] (ground arith)
]

pub atoi-decimal : (n : ℕ) → n < 2 ^ 63 → atoi (decimal n) ≡ some (pos n)
unfolding decimal digits_value
atoi-decimal n small =
    atoi_digits (decimal n) n small (decimal-IsDigits n) (decimal_left n n)
      (steps_read (suc n) n [] (omega arith))
