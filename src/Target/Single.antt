-- ===== src/Target/Single.antt =====
-- A filter that one guest alone passes.
use mathlib.Core.Path.{subst}
use proxpass.Base.{
  Bool, true, ◌&&◌, List, [], ◌∷◌, map, filter, All, Elem, Any-map, Any-give, Distinct, ◌≡◌, refl,
  sym, ap, ◌∙◌, Bool-cases, inl, inr,
}
use proxpass.Models.{Guest}

pub filter-filter :
    {A : Type 0} (p q : A → Bool) (xs : List A)
    → filter p (filter q xs) ≡ filter (λ x. q x && p x) xs
filter-filter p q [] = refl
filter-filter p q (x ∷ xs) = elim (Bool-cases (q x)) [
  | inl e ↦ elim (Bool-cases (p x)) [
    | inl f ↦ rw e (rw f (ap (λ l. x ∷ l) (filter-filter p q xs)))
    | inr f ↦ rw e (rw f (filter-filter p q xs))
  ]
  | inr e ↦ rw e (filter-filter p q xs)
]

-- No guest passes.
filter_none :
    (p : Guest → Bool) (g : Guest) (gs : List Guest)
    → All (λ h. p h ≡ true → h ≡ g) gs
    → ¬ Elem g.id (map (λ h. h.id) gs)
    → filter p gs ≡ []
filter_none p g [] a n = refl
filter_none p g (h ∷ gs) (one, a) n = elim (Bool-cases (p h)) [
  | inl e ↦ absurd (n (inl (ap (λ (r : Guest). r.id) (one e))))
  | inr e ↦ rw e (filter_none p g gs a (λ m. n (inr m)))
]

-- Only one guest passes, and it is there once.
pub filter_one :
    (p : Guest → Bool) (g : Guest) (gs : List Guest)
    → p g ≡ true
    → All (λ h. p h ≡ true → h ≡ g) gs
    → Distinct (map (λ h. h.id) gs)
    → Elem g gs
    → filter p gs ≡ g ∷ []
filter_one p g [] t a d m = absurd m
filter_one p g (h ∷ gs) t (one, a) (f, d) (inl e) =
    let passes : p h ≡ true = ap p e ∙ t in
    let gone = subst (λ (x : Guest). ¬ Elem x.id (map (λ r. r.id) gs)) e f in
    rw passes (ap (λ l. h ∷ l) (filter_none p g gs a gone) ∙ ap (λ x. x ∷ []) e)
filter_one p g (h ∷ gs) t (one, a) (f, d) (inr m) = elim (Bool-cases (p h)) [
  | inl e ↦
      let same = one e in
      absurd (
        f (
          subst (λ (x : Guest). Elem x.id (map (λ r. r.id) gs)) (sym same)
            ((Any-map _ (λ (r : Guest). r.id) gs).1 (Any-give _ gs g refl m))))
  | inr e ↦ rw e (filter_one p g gs t a d m)
]

pub All-weaken :
    {A : Type 0} (P Q : A → Type 0) (xs : List A) → ((a : A) → P a → Q a) → All P xs → All Q xs
All-weaken P Q [] f h = tt
All-weaken P Q (x ∷ xs) f (p, h) = (f x p, All-weaken P Q xs f h)
