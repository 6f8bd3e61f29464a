-- ===== src/Base/Lists.antt =====
-- Lists measured by native numbers, and predicates on lists by recursion.
use Prim.Native.Nat.{ℕ, zero, suc, ◌+◌, ◌-◌, min}
use mathlib.Core.Path.{◌≡◌, refl, ap, sym, subst}
use mathlib.Core.Logic.{◌↔◌, ◌⊎◌, inl, inr}
use mathlib.Core.Bool.{Bool, true, false, ◌&&◌, ◌||◌}
use mathlib.Core.List.{List, [], ◌∷◌, ◌++◌, map}
use mathlib.Core.Option.{Option, none, some}
use native.Mathlib.Omega.{arith}
use proxpass.Base.Tests.{if◌then◌else◌, Bool-cases, ◌==◌}

module _ {ℓ} {A : Type ℓ} where
  abbrev pub length : List A → ℕ
  length [] = 0
  length (x ∷ xs) = suc (length xs)

  abbrev pub get_elem? : List A → ℕ → Option A
  get_elem? [] i = none
  get_elem? (x ∷ xs) zero = some x
  get_elem? (x ∷ xs) (suc i) = get_elem? xs i

  abbrev pub take : ℕ → List A → List A
  take zero xs = []
  take (suc n) [] = []
  take (suc n) (x ∷ xs) = x ∷ take n xs

  abbrev pub drop : ℕ → List A → List A
  drop zero xs = xs
  drop (suc n) [] = []
  drop (suc n) (x ∷ xs) = drop n xs

  abbrev pub replicate : ℕ → A → List A
  replicate zero a = []
  replicate (suc n) a = a ∷ replicate n a

  -- The elements that pass a Boolean test, in their order.
  abbrev pub filter : (A → Bool) → List A → List A
  filter p [] = []
  filter p (x ∷ xs) = let rest = filter p xs in if p x then x ∷ rest else rest

  abbrev pub any : (A → Bool) → List A → Bool
  any p [] = false
  any p (x ∷ xs) = p x || any p xs

  abbrev pub all : (A → Bool) → List A → Bool
  all p [] = true
  all p (x ∷ xs) = p x && all p xs

  -- The first element that passes.
  abbrev pub find : (A → Bool) → List A → Option A
  find p [] = none
  find p (x ∷ xs) = if p x then some x else find p xs

  pub length-append : (xs ys : List A) → length (xs ++ ys) ≡ length xs + length ys
  length-append [] ys = omega arith
  length-append (x ∷ xs) ys = omega (arith, length-append xs ys)

  pub length-take : (n : ℕ) (xs : List A) → length (take n xs) ≡ min n (length xs)
  length-take zero xs = omega arith
  length-take (suc n) [] = omega arith
  length-take (suc n) (x ∷ xs) = omega (arith, length-take n xs)

  pub length-drop : (n : ℕ) (xs : List A) → length (drop n xs) ≡ length xs - n
  length-drop zero xs = omega arith
  length-drop (suc n) [] = omega arith
  length-drop (suc n) (x ∷ xs) = omega (arith, length-drop n xs)

  pub take-append-drop : (n : ℕ) (xs : List A) → take n xs ++ drop n xs ≡ xs
  take-append-drop zero xs = refl
  take-append-drop (suc n) [] = refl
  take-append-drop (suc n) (x ∷ xs) = ap (λ t. x ∷ t) (take-append-drop n xs)

  pub take-length-append : (xs ys : List A) → take (length xs) (xs ++ ys) ≡ xs
  take-length-append [] ys = refl
  take-length-append (x ∷ xs) ys = ap (λ t. x ∷ t) (take-length-append xs ys)

  pub drop-length-append : (xs ys : List A) → drop (length xs) (xs ++ ys) ≡ ys
  drop-length-append [] ys = refl
  drop-length-append (x ∷ xs) ys = drop-length-append xs ys

  pub length-replicate : (n : ℕ) (a : A) → length (replicate n a) ≡ n
  length-replicate zero a = refl
  length-replicate (suc n) a = ap suc (length-replicate n a)

module _ {ℓ κ} {A : Type ℓ} (P : A → Type κ) where
  abbrev pub All : List A → Type κ
  All [] = Unit
  All (x ∷ xs) = P x × All xs

module _ {ℓ} {A : Type ℓ} (P : A → Type 0) where
  abbrev pub Any : List A → Type 0
  Any [] = ⊥
  Any (x ∷ xs) = P x ⊎ Any xs

  pub All-append : (xs ys : List A) → All P xs → All P ys → All P (xs ++ ys)
  All-append [] ys h k = k
  All-append (x ∷ xs) ys h k = (h.0, All-append xs ys h.1 k)

module _ {ℓ} {A : Type ℓ} (p : A → Bool) where
  pub All-filter : (xs : List A) → All (λ x. p x ≡ true) (filter p xs)
  All-filter [] = tt
  All-filter (x ∷ xs) = elim (Bool-cases (p x)) [
    | inl e ↦ rw e (e, All-filter xs)
    | inr e ↦ rw e (All-filter xs)
  ]

  pub any_iff : (xs : List A) → (any p xs ≡ true) ↔ Any (λ x. p x ≡ true) xs
  any_iff [] = (λ e. cc, λ h. absurd h)
  any_iff (x ∷ xs) = ground (arith, any_iff xs)

  pub Any-filter_iff :
      (P : A → Type 0) (xs : List A) → Any P (filter p xs) ↔ Any (λ x. P x × (p x ≡ true)) xs
  Any-filter_iff P [] = (λ h. h, λ h. h)
  Any-filter_iff P (x ∷ xs) = elim (Bool-cases (p x)) [
    | inl e ↦ rw e (ground (arith, Any-filter_iff P xs))
    | inr e ↦ rw e (ground (arith, Any-filter_iff P xs))
  ]

module _ {A : Type 0} where
  abbrev pub Elem : A → List A → Type 0
  Elem x xs = Any (λ y. y ≡ x) xs

  -- Taking an element out of a list where one has the property, and back.
  pub Any-take : (P : A → Type 0) (xs : List A) → Any P xs → (a : A) × P a × Elem a xs
  Any-take P [] h = absurd h
  Any-take P (x ∷ xs) (inl h) = (x, h, inl refl)
  Any-take P (x ∷ xs) (inr h) = let (a, p, m) = Any-take P xs h in (a, p, inr m)

  pub Any-give : (P : A → Type 0) (xs : List A) (a : A) → P a → Elem a xs → Any P xs
  Any-give P [] a p m = m
  Any-give P (x ∷ xs) a p (inl e) = inl (subst P (sym e) p)
  Any-give P (x ∷ xs) a p (inr m) = inr (Any-give P xs a p m)

  pub Any-map :
      {B : Type 0} (P : B → Type 0) (f : A → B) (xs : List A)
      → Any P (map f xs) ↔ Any (λ x. P (f x)) xs
  Any-map P f [] = (λ h. h, λ h. h)
  Any-map P f (x ∷ xs) = ground (arith, Any-map P f xs)

  pub Any-weaken : (P Q : A → Type 0) (xs : List A) → ((a : A) → P a → Q a) → Any P xs → Any Q xs
  Any-weaken P Q [] f h = h
  Any-weaken P Q (x ∷ xs) f (inl h) = inl (f x h)
  Any-weaken P Q (x ∷ xs) f (inr h) = inr (Any-weaken P Q xs f h)

  pub Any-append : (P : A → Type 0) (xs ys : List A) → Any P (xs ++ ys) ↔ (Any P xs ⊎ Any P ys)
  Any-append P [] ys = ground arith
  Any-append P (x ∷ xs) ys = ground (arith, Any-append P xs ys)

  pub all_elem : (P : A → Type 0) (xs : List A) (a : A) → All P xs → Elem a xs → P a
  all_elem P [] a h m = absurd m
  all_elem P (x ∷ xs) a h (inl e) = subst P e h.0
  all_elem P (x ∷ xs) a h (inr m) = all_elem P xs a h.1 m

  -- No two entries are equal.
  abbrev pub Distinct : List A → Type 0
  Distinct [] = Unit
  Distinct (x ∷ xs) = (¬ Elem x xs) × Distinct xs

  pub Distinct-snoc : (xs : List A) (a : A) → Distinct xs → ¬ Elem a xs → Distinct (xs ++ a ∷ [])
  Distinct-snoc [] a d n = (λ h. h, tt)
  Distinct-snoc (x ∷ xs) a (fresh, d) n = (
    λ m. elim ((Any-append (λ y. y ≡ x) xs (a ∷ [])).0 m) [
      | inl h ↦ fresh h
      | inr h ↦ elim h [ inl e ↦ n (inl (sym e)) | inr z ↦ z ]
    ],
    Distinct-snoc xs a d (λ h. n (inr h)),
  )

pub Elem-iff : (xs : List ℕ) (a : ℕ) → (any (λ x. x == a) xs ≡ true) ↔ Elem a xs
Elem-iff [] a = (λ e. cc, λ h. absurd h)
Elem-iff (x ∷ xs) a = ground (arith, Elem-iff xs a)

pub Elem-back_iff : (xs : List ℕ) (a : ℕ) → (any (λ x. a == x) xs ≡ true) ↔ Elem a xs
Elem-back_iff [] a = (λ e. cc, λ h. absurd h)
Elem-back_iff (x ∷ xs) a = ground (arith, Elem-back_iff xs a)
