-- ===== src/Terminal/ModeFilter/Cuts.antt =====
-- A stream may be cut into reads anywhere: the filter ends in the same state, and asks for a redraw
-- when it would have.
use proxpass.Base.{
  ℕ, zero, suc, ◌+◌, ◌≤◌, ◌<◌, Bytes, Bool, true, false, ◌||◌, none, some, [], ◌∷◌, ◌++◌, ◌==◌,
  if◌then◌else◌, length, take, drop, ◌≡◌, refl, sym, ap, ◌∙◌, inl, inr, arith, Bool-cases,
  Option-cases, length-drop,
}
use proxpass.Terminal.Scan.{esc, scan_csi, is_csi_middle, is_csi_final, csi_prefix, scan_escape}
use proxpass.Terminal.ModeFilter.{
  ModeFilter, switch_alt, observe_other, switch_origin, observe_seq, keep_tail, observe_loop,
}

-- At a byte that is no middle byte a CSI ends; at one that is, the rest decides.
csi_end : (i c : ℕ) (cs : Bytes) → is_csi_middle c ≡ false → scan_csi i (c ∷ cs) ≡ some (suc i)
unfolding scan_csi
csi_end i c cs e =
    rw e
      (elim (is_csi_final c) as (λ b. (if b then some (suc i) else some (suc i)) ≡ some (suc i)) [
        | true ↦ refl
        | false ↦ refl
      ])

csi_more :
    (i c : ℕ) (cs : Bytes) → is_csi_middle c ≡ true → scan_csi i (c ∷ cs) ≡ scan_csi (suc i) cs
unfolding scan_csi
csi_more i c cs e = rw e refl

-- A CSI that ends is as long as what it was read from, at most.
scan_csi-bounds : (i : ℕ) (b : Bytes) (n : ℕ) → scan_csi i b ≡ some n → (i < n) × (n ≤ i + length b)
scan_csi-bounds i [] n e = unfold scan_csi in cc
scan_csi-bounds i (c ∷ cs) n e = elim (Bool-cases (is_csi_middle c)) [
  | inl t ↦
      let (lo, hi) = scan_csi-bounds (suc i) cs n (sym (csi_more i c cs t) ∙ e) in
      (omega arith, omega arith)
  | inr f ↦ let q = sym (csi_end i c cs f) ∙ e in (ground arith, ground arith)
]

scan_csi-append :
    (i : ℕ) (b ys : Bytes) (n : ℕ) → scan_csi i b ≡ some n → scan_csi i (b ++ ys) ≡ some n
scan_csi-append i [] ys n e = unfold scan_csi in cc
scan_csi-append i (c ∷ cs) ys n e = elim (Bool-cases (is_csi_middle c)) [
  | inl t ↦
      csi_more i c (cs ++ ys) t ∙ scan_csi-append (suc i) cs ys n (sym (csi_more i c cs t) ∙ e)
  | inr f ↦ csi_end i c (cs ++ ys) f ∙ sym (csi_end i c cs f) ∙ e
]

take-append : (n : ℕ) (b ys : Bytes) → n ≤ length b → take n (b ++ ys) ≡ take n b
take-append zero b ys l = refl
take-append (suc n) [] ys l = ground arith
take-append (suc n) (x ∷ b) ys l = ap (λ t. x ∷ t) (take-append n b ys (omega arith))

pub drop-append : (n : ℕ) (b ys : Bytes) → n ≤ length b → drop n (b ++ ys) ≡ drop n b ++ ys
drop-append zero b ys l = refl
drop-append (suc n) [] ys l = ground arith
drop-append (suc n) (x ∷ b) ys l = drop-append n b ys (omega arith)

-- A complete sequence lies within the buffer.
pub scan_escape-bounds :
    (b seq : Bytes) (n : ℕ) → scan_escape b ≡ some (seq, n) → (0 < n) × (n ≤ length b)
unfolding scan_escape csi_prefix
scan_escape-bounds [] seq n e = cc
scan_escape-bounds (x ∷ []) seq n e = cc
scan_escape-bounds (x ∷ y ∷ rest) seq n e = elim (Bool-cases (y == 91)) [
  | inl t ↦ elim (Option-cases (scan_csi 2 rest)) [
    | inl q ↦ absurd (ground arith)
    | inr (k, q) ↦
        let (lo, hi) = scan_csi-bounds 2 rest k q in
        let same : k ≡ n = ground arith in (omega arith, omega arith)
  ]
  | inr f ↦ (ground arith, ground arith)
]

-- Bytes that follow a complete sequence do not change it.
pub scan_escape-append :
    (b ys seq : Bytes) (n : ℕ)
    → scan_escape b ≡ some (seq, n)
    → scan_escape (b ++ ys) ≡ some (seq, n)
unfolding scan_escape csi_prefix
scan_escape-append [] ys seq n e = cc
scan_escape-append (x ∷ []) ys seq n e = cc
scan_escape-append (x ∷ y ∷ rest) ys seq n e = elim (Bool-cases (y == 91)) [
  | inl t ↦ elim (Option-cases (scan_csi 2 rest)) [
    | inl q ↦ absurd (ground arith)
    | inr (k, q) ↦
        let (lo, hi) = scan_csi-bounds 2 rest k q in
        let whole : csi_prefix (x ∷ y ∷ rest) (some k) ≡ some (seq, n) = ground arith in
        rw (t, scan_csi-append 2 rest ys k q)
          (ap (λ s. some (s, k)) (take-append k (x ∷ y ∷ rest) ys (omega arith)) ∙ whole)
  ]
  | inr f ↦ rw f (ground arith)
]

pub observe_seq-partial :
    (now : ℕ) (seq : Bytes) (m : ModeFilter) → (observe_seq now seq m).0.partial ≡ m.partial
unfolding observe_seq switch_alt observe_other switch_origin
observe_seq-partial now seq m = ground arith

-- The bytes of a buffer that no step of the loop uses up: an incomplete sequence at its end.
unfoldable pub unfinished : ℕ → Bytes → Bytes
unfinished zero buf = []
unfinished (suc fuel) [] = []
unfinished (suc fuel) (b ∷ bs) = elim (b == esc) [
  | false ↦ unfinished fuel bs
  | true ↦ elim (scan_escape (b ∷ bs)) [
    | none ↦ b ∷ bs
    | some (seq, n) ↦ unfinished fuel (drop n (b ∷ bs))
  ]
]

-- Running on, with the redraws of both parts.
abbrev pub and_then : ModeFilter × Bool → (ModeFilter → ModeFilter × Bool) → ModeFilter × Bool
and_then (m, drawn) k = let (last, more) = k m in (last, drawn || more)

abbrev pub cleared : ModeFilter → ModeFilter
cleared m = record m { partial = [] }

-- The steps of the loop, by what stands at the front.
pub loop_plain :
    (f now : ℕ) (m : ModeFilter) (b : ℕ) (bs : Bytes)
    → (b == esc) ≡ false
    → observe_loop (suc f) now m (b ∷ bs) ≡ observe_loop f now m bs
unfolding observe_loop
loop_plain f now m b bs e = rw (e, observe_loop) refl

pub loop_tail :
    (f now : ℕ) (m : ModeFilter) (b : ℕ) (bs : Bytes)
    → (b == esc) ≡ true
    → scan_escape (b ∷ bs) ≡ none
    → observe_loop (suc f) now m (b ∷ bs) ≡ (keep_tail (b ∷ bs) m, false)
unfolding observe_loop
loop_tail f now m b bs e q = rw (e, observe_loop) (rw q refl)

pub loop_seq :
    (f now : ℕ) (m : ModeFilter) (b : ℕ) (bs seq : Bytes) (n : ℕ)
    → (b == esc) ≡ true
    → scan_escape (b ∷ bs) ≡ some (seq, n)
    → observe_loop (suc f) now m (b ∷ bs)
      ≡ and_then (observe_seq now seq m) (λ k. observe_loop f now k (drop n (b ∷ bs)))
unfolding observe_loop
loop_seq f now m b bs seq n e q = rw (e, observe_loop) (rw q refl)

pub unfinished_plain :
    (f b : ℕ) (bs : Bytes) → (b == esc) ≡ false → unfinished (suc f) (b ∷ bs) ≡ unfinished f bs
unfolding unfinished
unfinished_plain f b bs e = rw (e, unfinished) refl

pub unfinished_tail :
    (f b : ℕ) (bs : Bytes)
    → (b == esc) ≡ true
    → scan_escape (b ∷ bs) ≡ none
    → unfinished (suc f) (b ∷ bs) ≡ b ∷ bs
unfolding unfinished
unfinished_tail f b bs e q = rw (e, unfinished) (rw q refl)

pub unfinished_seq :
    (f b : ℕ) (bs seq : Bytes) (n : ℕ)
    → (b == esc) ≡ true
    → scan_escape (b ∷ bs) ≡ some (seq, n)
    → unfinished (suc f) (b ∷ bs) ≡ unfinished f (drop n (b ∷ bs))
unfolding unfinished
unfinished_seq f b bs seq n e q = rw (e, unfinished) (rw q refl)

pub data Front (b : ℕ) (bs : Bytes) : Type 0 where
  plain : (b == esc) ≡ false → Front b bs
  cut_short : (b == esc) ≡ true → scan_escape (b ∷ bs) ≡ none → Front b bs
  sequence :
      (seq : Bytes) (n : ℕ) → (b == esc) ≡ true → scan_escape (b ∷ bs) ≡ some (seq, n) → Front b bs

pub front : (b : ℕ) (bs : Bytes) → Front b bs
front b bs = elim (Bool-cases (b == esc)) [
  | inr f ↦ plain f
  | inl t ↦ elim (Option-cases (scan_escape (b ∷ bs))) [
    | inl q ↦ cut_short t q
    | inr ((seq, n), q) ↦ sequence seq n t q
  ]
]

-- What a complete sequence leaves is shorter.
pub shorter :
    (f b : ℕ) (bs seq : Bytes) (n : ℕ)
    → scan_escape (b ∷ bs) ≡ some (seq, n)
    → length (b ∷ bs) ≤ suc f
    → length (drop n (b ∷ bs)) ≤ f
shorter f b bs seq n q l =
    let (lo, hi) = scan_escape-bounds (b ∷ bs) seq n q in omega (arith, length-drop n (b ∷ bs))

-- Fuel for the length of the buffer is enough: more gives the same.
pub observe_loop-fuel :
    (f g now : ℕ) (m : ModeFilter) (buf : Bytes)
    → length buf ≤ f
    → length buf ≤ g
    → observe_loop f now m buf ≡ observe_loop g now m buf
observe_loop-fuel zero zero now m [] l k = refl
observe_loop-fuel zero (suc g) now m [] l k = unfold observe_loop in refl
observe_loop-fuel (suc f) zero now m [] l k = unfold observe_loop in refl
observe_loop-fuel (suc f) (suc g) now m [] l k = unfold observe_loop in refl
observe_loop-fuel zero g now m (b ∷ bs) l k = absurd (omega arith)
observe_loop-fuel (suc f) zero now m (b ∷ bs) l k = absurd (omega arith)
observe_loop-fuel (suc f) (suc g) now m (b ∷ bs) l k = elim (front b bs) [
  | plain e ↦
      loop_plain f now m b bs e
      ∙ observe_loop-fuel f g now m bs (omega arith) (omega arith)
      ∙ sym (loop_plain g now m b bs e)
  | cut_short e q ↦ loop_tail f now m b bs e q ∙ sym (loop_tail g now m b bs e q)
  | sequence seq n e q ↦
      loop_seq f now m b bs seq n e q
      ∙ ap (λ r. and_then (observe_seq now seq m) (λ k. r))
          (observe_loop-fuel f g now (observe_seq now seq m).0 (drop n (b ∷ bs))
            (shorter f b bs seq n q l) (shorter g b bs seq n q k))
      ∙ sym (loop_seq g now m b bs seq n e q)
]
