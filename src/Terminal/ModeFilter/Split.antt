-- ===== src/Terminal/ModeFilter/Split.antt =====
-- Reading a stream in two parts: the loop, and what stays to be read.
use proxpass.Base.{
  ℕ, zero, suc, ◌≤◌, Bytes, Bool, true, false, ◌||◌, [], ◌∷◌, ◌++◌, leb, length, drop, ◌≡◌, refl,
  sym, ap, ◌∙◌, inl, inr, arith, Bool-cases, length-append, append_assoc,
}
use mathlib.Core.Path.{subst}
use proxpass.Terminal.ModeFilter.{
  ModeFilter, max_partial_escape, observe_seq, keep_tail, observe_loop, observe,
}
use proxpass.Terminal.ModeFilter.Cuts.{
  drop-append, scan_escape-bounds, scan_escape-append, observe_seq-partial, unfinished, and_then,
  cleared, loop_plain, loop_tail, loop_seq, unfinished_plain, unfinished_tail, unfinished_seq,
  front, plain, cut_short, sequence, shorter, observe_loop-fuel,
}

and_then_assoc :
    (r : ModeFilter × Bool) (k l : ModeFilter → ModeFilter × Bool)
    → and_then r (λ m. and_then (k m) l) ≡ and_then (and_then r k) l
and_then_assoc (m, true) k l = refl
and_then_assoc (m, false) k l = refl

cleared_same : (m : ModeFilter) → m.partial ≡ [] → cleared m ≡ m
cleared_same m e = ap (λ p. record m { partial = p }) (sym e)

cleared_keep : (t : Bytes) (m : ModeFilter) → cleared (keep_tail t m) ≡ cleared m
unfolding keep_tail
cleared_keep t m = elim (Bool-cases (leb (length t) max_partial_escape)) [
  | inl e ↦ rw e refl
  | inr e ↦ rw e refl
]

kept : (t : Bytes) (m : ModeFilter) → length t ≤ 64 → (keep_tail t m).partial ≡ t
unfolding keep_tail
kept t m l = ground arith

unfinished-length : (f : ℕ) (xs : Bytes) → length (unfinished f xs) ≤ length xs
unfinished-length zero xs = unfold unfinished in omega arith
unfinished-length (suc f) [] = unfold unfinished in omega arith
unfinished-length (suc f) (b ∷ bs) = elim (front b bs) [
  | plain e ↦ rw (unfinished_plain f b bs e) (omega (arith, unfinished-length f bs))
  | cut_short e q ↦ rw (unfinished_tail f b bs e q) (omega arith)
  | sequence seq n e q ↦
      let less = shorter (length bs) b bs seq n q (omega arith) in
      rw (unfinished_seq f b bs seq n e q)
        (omega (arith, less, unfinished-length f (drop n (b ∷ bs))))
]

-- A tail that is not too long is in the filter after the loop.
loop-partial :
    (f now : ℕ) (m : ModeFilter) (xs : Bytes)
    → length xs ≤ f
    → m.partial ≡ []
    → length (unfinished f xs) ≤ 64
    → (observe_loop f now m xs).0.partial ≡ unfinished f xs
loop-partial zero now m xs l p s = unfold observe_loop unfinished in p
loop-partial (suc f) now m [] l p s = unfold observe_loop unfinished in p
loop-partial (suc f) now m (b ∷ bs) l p s = elim (front b bs) [
  | plain e ↦
      rw (loop_plain f now m b bs e, unfinished_plain f b bs e)
        (loop-partial f now m bs (omega arith) p
          (subst (λ u. length u ≤ 64) (unfinished_plain f b bs e) s))
  | cut_short e q ↦
      let short = subst (λ u. length u ≤ 64) (unfinished_tail f b bs e q) s in
      rw (loop_tail f now m b bs e q, unfinished_tail f b bs e q) (kept (b ∷ bs) m short)
  | sequence seq n e q ↦
      rw (loop_seq f now m b bs seq n e q, unfinished_seq f b bs seq n e q)
        (loop-partial f now (observe_seq now seq m).0 (drop n (b ∷ bs)) (shorter f b bs seq n q l)
          (observe_seq-partial now seq m ∙ p)
          (subst (λ u. length u ≤ 64) (unfinished_seq f b bs seq n e q) s))
]

-- The loop over two parts is the loop over the first, then over what that left and the second.
loop_split :
    (f g h now : ℕ) (m : ModeFilter) (xs ys : Bytes)
    → length (xs ++ ys) ≤ f
    → length xs ≤ g
    → length (xs ++ ys) ≤ h
    → m.partial ≡ []
    → observe_loop f now m (xs ++ ys)
      ≡ and_then
          (observe_loop g now m xs)
          (λ k. observe_loop h now (cleared k) (unfinished g xs ++ ys))
loop_split f zero h now m [] ys l k j p =
    unfold observe_loop in
    unfold unfinished in
    observe_loop-fuel f h now m ys l j ∙ ap (λ c. observe_loop h now c ys) (sym (cleared_same m p))
loop_split f (suc g) h now m [] ys l k j p =
    unfold observe_loop in
    unfold unfinished in
    observe_loop-fuel f h now m ys l j ∙ ap (λ c. observe_loop h now c ys) (sym (cleared_same m p))
loop_split f zero h now m (b ∷ bs) ys l k j p = absurd (omega arith)
loop_split zero g h now m (b ∷ bs) ys l k j p = absurd (omega arith)
loop_split (suc f) (suc g) h now m (b ∷ bs) ys l k j p = elim (front b bs) [
  | plain e ↦
      rw (loop_plain f now m b (bs ++ ys) e, loop_plain g now m b bs e, unfinished_plain g b bs e)
        (loop_split f g h now m bs ys (omega arith) (omega arith) (omega arith) p)
  | cut_short e q ↦
      rw (loop_tail g now m b bs e q, unfinished_tail g b bs e q)
        (observe_loop-fuel (suc f) h now m (b ∷ bs ++ ys) l j
          ∙ ap (λ c. observe_loop h now c (b ∷ bs ++ ys))
              (sym (cleared_keep (b ∷ bs) m ∙ cleared_same m p)))
  | sequence seq n e q ↦
      let (lo, hi) = scan_escape-bounds (b ∷ bs) seq n q in
      let shown = observe_seq now seq m in
      let rest = drop n (b ∷ bs) in
      let rest_eq = drop-append n (b ∷ bs) ys hi in
      let fits : length (rest ++ ys) ≤ length (bs ++ ys) = omega (
        arith,
        length-append rest ys,
        length-append bs ys,
        shorter (length bs) b bs seq n q (omega arith),
      ) in
      let again =
        loop_split f g h now shown.0 rest ys (omega (arith, fits)) (shorter g b bs seq n q k)
          (omega (arith, fits)) (observe_seq-partial now seq m ∙ p) in
      loop_seq f now m b (bs ++ ys) seq n e (scan_escape-append (b ∷ bs) ys seq n q)
      ∙ ap (λ t. and_then shown (λ k. observe_loop f now k t)) rest_eq
      ∙ ap (λ r. and_then shown (λ k. r)) again
      ∙ and_then_assoc shown (λ k. observe_loop g now k rest)
          (λ k. observe_loop h now (cleared k) (unfinished g rest ++ ys))
      ∙ ap (λ r. and_then r (λ k. observe_loop h now (cleared k) (unfinished g rest ++ ys)))
          (sym (loop_seq g now m b bs seq n e q))
      ∙ ap
          (λ u.
            and_then (observe_loop (suc g) now m (b ∷ bs))
              (λ k. observe_loop h now (cleared k) (u ++ ys)))
          (sym (unfinished_seq g b bs seq n e q))
]

-- What Observe would leave of its buffer: the incomplete sequence at the end of it.
abbrev pub pending : ModeFilter → Bytes → Bytes
pending m xs = unfinished (length (m.partial ++ xs)) (m.partial ++ xs)

-- Reading xs ++ ys at once is reading xs and then ys at the same time: the filter ends in the same
-- state, and a redraw is asked for if one of the two reads asks for one. The incomplete sequence at
-- the cut must not be longer than the 64 bytes that the filter keeps.
pub observe_split :
    (now : ℕ) (m : ModeFilter) (xs ys : Bytes)
    → length (pending m xs) ≤ 64
    → observe now m (xs ++ ys) ≡ (
      (observe now (observe now m xs).0 ys).0,
      (observe now m xs).1 || (observe now (observe now m xs).0 ys).1,
    )
unfolding observe
observe_split now m xs ys s =
    let buf = m.partial ++ xs in
    let whole = sym (append_assoc m.partial xs ys) in
    let kept_eq = loop-partial (length buf) now (cleared m) buf (omega arith) refl s in
    let first = observe_loop (length buf) now (cleared m) buf in
    let u = unfinished (length buf) buf in
    let short : length (u ++ ys) ≤ length (buf ++ ys) =
      omega (arith, length-append u ys, length-append buf ys, unfinished-length (length buf) buf) in
    let long : length (buf ++ ys) ≤ length (buf ++ ys) = omega arith in
    ap (λ b. observe_loop (length b) now (cleared m) b) whole
    ∙ loop_split (length (buf ++ ys)) (length buf) (length (buf ++ ys)) now (cleared m) buf ys long
        (omega arith) long refl
    ∙ ap (λ r. and_then first (λ k. r))
        (observe_loop-fuel (length (buf ++ ys)) (length (u ++ ys)) now (cleared first.0) (u ++ ys)
          short (omega arith))
    ∙ ap
        (λ v. and_then first (λ k. observe_loop (length (v ++ ys)) now (cleared first.0) (v ++ ys)))
        (sym kept_eq)
