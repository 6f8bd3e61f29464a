-- ===== src/Target/Parse.antt =====
-- Where a target is cut into an identifier and an instance.
use mathlib.Core.Path.{subst}
use proxpass.Base.{
  Bytes, bytes_eq, bytes_eq_iff, Bool, true, ◌||◌, none, some, [], ◌∷◌, ◌++◌, ◌==◌, Elem,
  Any-append, ◌≡◌, ◌≢◌, ◌↔◌, refl, sym, ap, ◌∙◌, arith, Bool-cases, Option-cases, inl, inr,
}
use proxpass.Target.{last_at, cut_target, parse_guest_target}

-- The text is `before`, an `@` and `after`, which has no other.
abbrev IsCut : Bytes → Bytes × Bytes → Type 0
IsCut s (before, after) = (s ≡ before ++ 64 ∷ after) × (¬ Elem 64 after)

no_at : (s : Bytes) → last_at s ≡ none → ¬ Elem 64 s
unfolding last_at
no_at [] e m = m
no_at (c ∷ cs) e m = elim (Option-cases (last_at cs)) [
  | inr (p, q) ↦ ground arith
  | inl q ↦ elim m [ inl k ↦ ground arith | inr k ↦ no_at cs q k ]
]

last_at-IsCut : (s : Bytes) (p : Bytes × Bytes) → last_at s ≡ some p → IsCut s p
unfolding last_at
last_at-IsCut [] p e = cc
last_at-IsCut (c ∷ cs) p e = elim (Option-cases (last_at cs)) [
  | inr (r, q) ↦
      let same : (c ∷ r.0, r.1) ≡ p = ground arith in
      let (whole, last) = last_at-IsCut cs r q in
      subst (IsCut (c ∷ cs)) same (ap (λ t. c ∷ t) whole, last)
  | inl q ↦ elim (Bool-cases (c == 64)) [
    | inr n ↦ absurd (ground arith)
    | inl t ↦
        let same : ([], cs) ≡ p = ground arith in
        let at : c ≡ 64 = ground arith in
        subst (IsCut (c ∷ cs)) same (ap (λ x. x ∷ cs) at, no_at cs q)
  ]
]

cut_last_at :
    (before after : Bytes) → ¬ Elem 64 after → last_at (before ++ 64 ∷ after) ≡ some (before, after)
unfolding last_at
cut_last_at [] after n = elim (Option-cases (last_at after)) [
  | inl q ↦ rw q refl
  | inr (r, q) ↦
      let (whole, last) = last_at-IsCut after r q in
      absurd (n (subst (Elem 64) (sym whole) ((Any-append _ r.0 (64 ∷ r.1)).1 (inr (inl refl)))))
]
cut_last_at (c ∷ cs) after n = rw (cut_last_at cs after n) refl

uncut :
    (s : Bytes) (known : Bytes → Bool) (name identifier : Bytes)
    → cut_target s known none ≡ (name, identifier)
    → name ≡ []
unfolding cut_target
uncut s known name identifier e = ground arith

is_empty : (s : Bytes) → (bytes_eq s [] ≡ true) → s ≡ []
is_empty s e = (bytes_eq_iff s []).0 e

cut_back :
    (s : Bytes) (known : Bytes → Bool) (b a name identifier : Bytes)
    → name ≢ []
    → cut_target s known (some (b, a)) ≡ (name, identifier)
    → (a ≡ name) × (b ≡ identifier) × (b ≢ []) × (known a ≡ true)
unfolding cut_target
cut_back s known b a name identifier n e = elim (Bool-cases (bytes_eq b [] || bytes_eq a [])) [
  | inl t ↦ absurd (n (ground arith))
  | inr f ↦ elim (Bool-cases (known a)) [
    | inr g ↦ absurd (n (ground arith))
    | inl k ↦ (ground arith, ground arith, λ z. cc ((bytes_eq_iff b []).1 z), k)
  ]
]

cut_kept :
    (s : Bytes) (known : Bytes → Bool) (b a : Bytes)
    → b ≢ []
    → a ≢ []
    → known a ≡ true
    → cut_target s known (some (b, a)) ≡ (a, b)
unfolding cut_target
cut_kept s known b a some_b some_a k = elim (Bool-cases (bytes_eq b [])) [
  | inl t ↦ absurd (some_b (is_empty b t))
  | inr f ↦ elim (Bool-cases (bytes_eq a [])) [
    | inl t ↦ absurd (some_a (is_empty a t))
    | inr g ↦ rw f (rw g (rw k refl))
  ]
]

-- A target names an instance exactly where its text after the last `@` is a known instance's name and
-- there is something before it, which is then the identifier.
pub parse_guest_target_iff :
    (s : Bytes) (known : Bytes → Bool) (name identifier : Bytes)
    → name ≢ []
    → (parse_guest_target s (some known) ≡ (name, identifier))
      ↔ ((s ≡ identifier ++ 64 ∷ name) × (¬ Elem 64 name) × (identifier ≢ []) × (known name ≡ true))
unfolding parse_guest_target cut_target
parse_guest_target_iff s known name identifier n = (
  λ e. elim (Option-cases (last_at s)) [
    | inl q ↦ absurd (
        n (
          uncut s known name identifier
            (subst (λ o. cut_target s known o ≡ (name, identifier)) q e)))
    | inr ((b, a), q) ↦
        let (same, same', some_before, k) =
          cut_back s known b a name identifier n
            (subst (λ o. cut_target s known o ≡ (name, identifier)) q e) in
        let (whole, last) = last_at-IsCut s (b, a) q in
        (
          whole ∙ ap (λ t. b ++ 64 ∷ t) same ∙ ap (λ t. t ++ 64 ∷ name) same',
          subst (λ t. ¬ Elem 64 t) same last,
          subst (λ t. t ≢ []) same' some_before,
          subst (λ t. known t ≡ true) same k,
        )
  ],
  λ (whole, last, some_before, k).
      let cut : last_at s ≡ some (identifier, name) =
        ap last_at whole ∙ cut_last_at identifier name last in
      subst (λ o. cut_target s known o ≡ (name, identifier)) (sym cut)
        (cut_kept s known identifier name some_before n k),
)
