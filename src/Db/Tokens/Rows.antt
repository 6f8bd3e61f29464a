-- ===== src/Db/Tokens/Rows.antt =====
-- The rows of a token table under the statements that every operation is made of.
use mathlib.Core.Path.{subst}
use proxpass.Base.{
  ℕ, Bytes, bytes_eq, bytes_eq_iff, Bool, true, false, not, none, some, List, [], ◌∷◌, ltb, any,
  find, filter, ◌≡◌, refl, sym, ap, ◌∙◌, ◌↔◌, inl, inr, ◌<◌, arith, Bool-cases, lt→ltb,
}
use proxpass.Db.State.{TokenRow}
use proxpass.Db.Tokens.{has_hash, is_unexpired, is_live, insert_row, insert_swept}

-- No row has the hash.
abbrev pub IsFree : Bytes → List TokenRow → Type 0
IsFree h rows = any (has_hash h) rows ≡ false

-- No two rows have one hash: the primary key.
abbrev pub HasKey : List TokenRow → Type 0
HasKey [] = Unit
HasKey (r ∷ rows) = IsFree r.token_hash rows × HasKey rows

-- The row that the hash names.
abbrev pub Names : Bytes → TokenRow → List TokenRow → Type 0
Names h r rows = find (has_hash h) rows ≡ some r

pub filter-IsFree :
    (q : TokenRow → Bool) (h : Bytes) (rows : List TokenRow)
    → IsFree h rows
    → IsFree h (filter q rows)
filter-IsFree q h [] f = refl
filter-IsFree q h (r ∷ rows) f = elim (Bool-cases (q r)) [
  | inl e ↦ rw e (ground (arith, filter-IsFree q h rows))
  | inr e ↦ rw e (ground (arith, filter-IsFree q h rows))
]

pub filter-HasKey :
    (q : TokenRow → Bool) (rows : List TokenRow) → HasKey rows → HasKey (filter q rows)
filter-HasKey q [] k = tt
filter-HasKey q (r ∷ rows) k = elim (Bool-cases (q r)) [
  | inl e ↦ rw e (filter-IsFree q r.token_hash rows k.0, filter-HasKey q rows k.1)
  | inr e ↦ rw e (filter-HasKey q rows k.1)
]

named_head :
    (h : Bytes) (r x : TokenRow) (rows : List TokenRow)
    → has_hash h x ≡ true
    → Names h r (x ∷ rows)
    → x ≡ r
named_head h r x rows e n = ground arith

named_tail :
    (h : Bytes) (r x : TokenRow) (rows : List TokenRow)
    → has_hash h x ≡ false
    → Names h r (x ∷ rows) ↔ Names h r rows
named_tail h r x rows e = ground arith

-- Deleting rows other than the named one leaves it named.
pub filter-Names :
    (q : TokenRow → Bool) (h : Bytes) (r : TokenRow) (rows : List TokenRow)
    → q r ≡ true
    → Names h r rows
    → Names h r (filter q rows)
filter-Names q h r [] e n = cc
filter-Names q h r (x ∷ rows) e n = elim (Bool-cases (has_hash h x)) [
  | inl t ↦ let same = named_head h r x rows t n in rw (ap q same ∙ e) (rw t (ap some same))
  | inr f ↦
      let rest = filter-Names q h r rows e ((named_tail h r x rows f).0 n) in
      elim (Bool-cases (q x)) [
        | inl t ↦ rw t ((named_tail h r x (filter q rows) f).1 rest)
        | inr t ↦ rw t rest
      ]
]

-- A live read of a named row gives it while it has not expired.
pub find_live :
    (h : Bytes) (r : TokenRow) (now : ℕ) (rows : List TokenRow)
    → Names h r rows
    → now < r.expires_at
    → find (is_live h now) rows ≡ some r
unfolding is_live is_unexpired
find_live h r now [] n l = cc
find_live h r now (x ∷ rows) n l = elim (Bool-cases (has_hash h x)) [
  | inl t ↦
      let same = named_head h r x rows t n in
      let late : ltb now x.expires_at ≡ true = lt→ltb _ _ (rw same l) in
      rw t (rw late (ap some same))
  | inr f ↦ rw f (find_live h r now rows ((named_tail h r x rows f).0 n) l)
]

-- A hash that no row has is never read.
pub find_free :
    (h : Bytes) (now : ℕ) (rows : List TokenRow) → IsFree h rows → find (is_live h now) rows ≡ none
unfolding is_live
find_free h now [] f = refl
find_free h now (x ∷ rows) f = ground (arith, find_free h now rows)

taken-IsFree :
    (h : Bytes) (x : TokenRow) (rows : List TokenRow)
    → has_hash h x ≡ true
    → IsFree x.token_hash rows
    → IsFree h rows
unfolding has_hash
taken-IsFree h x rows t f = subst (λ a. IsFree a rows) ((bytes_eq_iff x.token_hash h).0 t) f

live_hash : (h : Bytes) (now : ℕ) (x : TokenRow) → is_live h now x ≡ true → has_hash h x ≡ true
unfolding is_live
live_hash h now x e = ground arith

pub named_hash :
    (h : Bytes) (r : TokenRow) (rows : List TokenRow) → Names h r rows → r.token_hash ≡ h
unfolding has_hash
named_hash h r [] n = cc
named_hash h r (x ∷ rows) n = elim (Bool-cases (has_hash h x)) [
  | inl t ↦
      ap (λ (y : TokenRow). y.token_hash) (sym (named_head h r x rows t n))
      ∙ (bytes_eq_iff x.token_hash h).0 t
  | inr f ↦ named_hash h r rows ((named_tail h r x rows f).0 n)
]

live_tail :
    (h : Bytes) (now : ℕ) (x : TokenRow) (rows : List TokenRow) (r : TokenRow)
    → is_live h now x ≡ false
    → find (is_live h now) (x ∷ rows) ≡ some r
    → find (is_live h now) rows ≡ some r
live_tail h now x rows r f e = ground arith

no_find :
    (h : Bytes) (now : ℕ) (rows : List TokenRow) (r : TokenRow)
    → find (is_live h now) rows ≡ none
    → find (is_live h now) rows ≡ some r
    → ⊥
no_find h now rows r n e = cc

pub other_hash : (h : Bytes) (r : TokenRow) → ¬ (r.token_hash ≡ h) → has_hash h r ≡ false
unfolding has_hash
other_hash h r n = elim (Bool-cases (bytes_eq r.token_hash h)) [
  | inl t ↦ absurd (n ((bytes_eq_iff r.token_hash h).0 t))
  | inr f ↦ f
]

free_unnamed :
    (h : Bytes) (q : TokenRow) (rows : List TokenRow) → IsFree h rows → Names h q rows → ⊥
free_unnamed h q [] f n = cc
free_unnamed h q (x ∷ rows) f n = elim (Bool-cases (has_hash h x)) [
  | inl t ↦ ground arith
  | inr g ↦ free_unnamed h q rows (ground arith) ((named_tail h q x rows g).0 n)
]

-- What a live read finds is a row with the hash.
pub read-IsFree :
    (h : Bytes) (now : ℕ) (rows : List TokenRow) (r : TokenRow)
    → HasKey rows
    → find (is_live h now) rows ≡ some r
    → IsFree h (filter (λ x. not (is_live h now x)) rows)
read-IsFree h now [] r k e = cc
read-IsFree h now (x ∷ rows) r k e = elim (Bool-cases (is_live h now x)) [
  | inl t ↦ rw t (filter-IsFree _ h rows (taken-IsFree h x rows (live_hash h now x t) k.0))
  | inr f ↦ elim (Bool-cases (has_hash h x)) [
    | inl t ↦
        let none_left = find_free h now rows (taken-IsFree h x rows t k.0) in
        absurd (no_find h now rows r none_left (live_tail h now x rows r f e))
    | inr g ↦
        let rest = read-IsFree h now rows r k.1 (live_tail h now x rows r f e) in rw f (rw g rest)
  ]
]

insert_row-HasKey :
    (fails : Bool) (r : TokenRow) (rows : List TokenRow)
    → HasKey rows
    → HasKey (insert_row fails r rows).1
unfolding insert_row
insert_row-HasKey true r rows k = k
insert_row-HasKey false r rows k = elim (Bool-cases (any (has_hash r.token_hash) rows)) [
  | inl t ↦ rw t k
  | inr f ↦ rw f (f, k)
]

insert_row-IsFree :
    (fails : Bool) (r : TokenRow) (h : Bytes) (rows : List TokenRow)
    → ¬ (r.token_hash ≡ h)
    → IsFree h rows
    → IsFree h (insert_row fails r rows).1
unfolding insert_row
insert_row-IsFree true r h rows n f = f
insert_row-IsFree false r h rows n f = elim (Bool-cases (any (has_hash r.token_hash) rows)) [
  | inl t ↦ rw t f
  | inr g ↦ rw g (rw (other_hash h r n) f)
]

-- A row that is named already keeps a second one out.
insert_row-Names :
    (fails : Bool) (r : TokenRow) (h : Bytes) (q : TokenRow) (rows : List TokenRow)
    → Names h q rows
    → Names h q (insert_row fails r rows).1
unfolding insert_row
insert_row-Names true r h q rows n = n
insert_row-Names false r h q rows n = elim (Bool-cases (any (has_hash r.token_hash) rows)) [
  | inl t ↦ rw t n
  | inr f ↦ (elim (Bool-cases (has_hash h r)) [
    | inl t ↦ absurd (free_unnamed h q rows (taken-IsFree h r rows t f) n)
    | inr g ↦ rw f ((named_tail h q r rows g).1 n)
  ])
]

pub insert-HasKey :
    (sf inf : Bool) (r : TokenRow) (now : ℕ) (rows : List TokenRow)
    → HasKey rows
    → HasKey (insert_swept sf inf r now rows).1
unfolding insert_swept
insert-HasKey true inf r now rows k = k
insert-HasKey false inf r now rows k =
    insert_row-HasKey inf r _ (filter-HasKey (is_unexpired now) rows k)

pub insert-IsFree :
    (sf inf : Bool) (r : TokenRow) (now : ℕ) (h : Bytes) (rows : List TokenRow)
    → ¬ (r.token_hash ≡ h)
    → IsFree h rows
    → IsFree h (insert_swept sf inf r now rows).1
unfolding insert_swept
insert-IsFree true inf r now h rows n f = f
insert-IsFree false inf r now h rows n f =
    insert_row-IsFree inf r h _ n (filter-IsFree (is_unexpired now) h rows f)

pub insert-Names :
    (sf inf : Bool) (r : TokenRow) (now : ℕ) (h : Bytes) (q : TokenRow) (rows : List TokenRow)
    → now < q.expires_at
    → Names h q rows
    → Names h q (insert_swept sf inf r now rows).1
unfolding insert_swept is_unexpired
insert-Names true inf r now h q rows l n = n
insert-Names false inf r now h q rows l n =
    insert_row-Names inf r h q _ (filter-Names (is_unexpired now) h q rows (lt→ltb _ _ l) n)
