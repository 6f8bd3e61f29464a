-- ===== src/Db/Guests/Rows.antt =====
-- Row ids stay distinct and below the counter, and what an upsert does to the rows.
use mathlib.Core.Path.{subst}
use proxpass.Base.{
  ℕ, ◌+◌, ◌<◌, Bool, true, Option, none, some, List, [], ◌∷◌, ◌++◌, map, Result, ok, err, ◌≡◌, ◌↔◌,
  ◌⊎◌, inl, inr, refl, sym, ap, arith, find, Any, All, Elem, Distinct, Distinct-snoc, Any-append,
  all_elem, All-append, Bool-cases,
}
use proxpass.Models.{Guest}
use proxpass.Db.State.{
  Tables, DbError, storage, Statement, select_guest, insert_guest, update_guest, run,
}
use proxpass.Db.Guests.{is_guest, update_row, exec, upsert_row, upsert_guest}

-- There is a row for VMID `v` on instance `i`.
abbrev pub HasRow : ℕ → ℕ → List Guest → Type 0
HasRow i v rows = Any (λ r. (r.proxmox_id ≡ v) × (r.instance_id ≡ i)) rows

abbrev pub ids : List Guest → List ℕ
ids rows = map (λ r. r.id) rows

-- The primary key: ids are distinct, and the AUTOINCREMENT counter is above them.
pub record IsKeyed (db : Tables) : Type 0 where
  pub distinct : Distinct (ids db.guests)
  pub below : All (λ x. x < db.next_guest_id) (ids db.guests)

is_guest_iff :
    (v i : ℕ) (r : Guest) → (is_guest v i r ≡ true) ↔ ((r.proxmox_id ≡ v) × (r.instance_id ≡ i))
unfolding is_guest
is_guest_iff v i r = ground arith

find-HasRow :
    (v i : ℕ) (rows : List Guest) {row : Guest}
    → find (is_guest v i) rows ≡ some row
    → HasRow i v rows
find-HasRow v i (r ∷ rows) h = elim (Bool-cases (is_guest v i r)) [
  | inl e ↦ inl ((is_guest_iff v i r).0 e)
  | inr e ↦ inr (find-HasRow v i rows (rw e at h))
]
find-HasRow v i [] h = cc

update-HasRow :
    (i v id : ℕ) (g : Guest) (rows : List Guest)
    → HasRow i v (map (update_row id g) rows) ↔ HasRow i v rows
unfolding update_row
update-HasRow i v id g [] = (λ h. h, λ h. h)
update-HasRow i v id g (r ∷ rows) = ground (arith, update-HasRow i v id g rows)

ids-update : (id : ℕ) (g : Guest) (rows : List Guest) → ids (map (update_row id g) rows) ≡ ids rows
unfolding update_row
ids-update id g [] = refl
ids-update id g (r ∷ rows) = ground (arith, ids-update id g rows)

ids-snoc : (rows : List Guest) (g : Guest) → ids (rows ++ g ∷ []) ≡ ids rows ++ g.id ∷ []
ids-snoc [] g = refl
ids-snoc (r ∷ rows) g = ap (λ t. r.id ∷ t) (ids-snoc rows g)

All-below : (n : ℕ) (xs : List ℕ) → All (λ x. x < n) xs → All (λ x. x < n + 1) xs
All-below n [] h = tt
All-below n (x ∷ xs) h = (omega arith, All-below n xs h.1)

fresh : (n : ℕ) (xs : List ℕ) → All (λ x. x < n) xs → ¬ Elem n xs
fresh n xs h m = omega (arith, all_elem (λ x. x < n) xs n h m)

-- The three outcomes of an upsert: it failed, it added a row, or it rewrote one.
pub data Upserted (db : Tables) (g : Guest) (r : Result DbError (Unit {0}) × Tables) : Type 0 where
  failed : (e : DbError) → r ≡ (err e, db) → Upserted db g r
  added :
      r ≡ (
        ok tt,
        record db {
          guests = db.guests ++ record g { id = db.next_guest_id } ∷ [];
          next_guest_id = db.next_guest_id + 1;
        },
      )
      → Upserted db g r
  updated :
      (row : Guest)
      → find (is_guest g.proxmox_id g.instance_id) db.guests ≡ some row
      → r ≡ (ok tt, record db { guests = map (update_row row.id g) db.guests })
      → Upserted db g r

module _ (down : Statement → Bool) (db : Tables) (g : Guest) where
  Upserted-row :
      (o : Option Guest)
      → find (is_guest g.proxmox_id g.instance_id) db.guests ≡ o
      → Upserted db g (upsert_row down db g (ok o))
  unfolding upsert_row exec
  Upserted-row none e = elim (Bool-cases (down (insert_guest g.proxmox_id))) [
    | inl f ↦ failed storage (rw f refl)
    | inr f ↦ added (rw f refl)
  ]
  Upserted-row (some row) e = elim (Bool-cases (down (update_guest row.id))) [
    | inl f ↦ failed storage (rw f refl)
    | inr f ↦ updated row e (rw f refl)
  ]

  pub upsert-Upserted : Upserted db g (upsert_guest down db g)
  unfolding upsert_guest run upsert_row
  upsert-Upserted = elim (Bool-cases (down (select_guest g.proxmox_id g.instance_id))) [
    | inl f ↦ rw f (failed storage refl)
    | inr f ↦ rw f (Upserted-row _ refl)
  ]

module _ {db : Tables} {g : Guest} {r : Result DbError (Unit {0}) × Tables} where
  -- The upsert names no row that it was not asked for.
  pub Upserted-only :
      (i v : ℕ)
      → Upserted db g r
      → HasRow i v r.1.guests
      → HasRow i v db.guests ⊎ ((g.proxmox_id ≡ v) × (g.instance_id ≡ i))
  Upserted-only i v (failed e q) h = inl (subst (λ s. HasRow i v s.1.guests) q h)
  Upserted-only i v (added q) h =
      elim ((Any-append _ db.guests _).0 (subst (λ s. HasRow i v s.1.guests) q h)) [
        | inl a ↦ inl a
        | inr (inl a) ↦ inr a
        | inr (inr a) ↦ absurd a
      ]
  Upserted-only i v (updated row f q) h =
      inl ((update-HasRow i v row.id g db.guests).0 (subst (λ s. HasRow i v s.1.guests) q h))

  pub Upserted-keep : (i v : ℕ) → Upserted db g r → HasRow i v db.guests → HasRow i v r.1.guests
  Upserted-keep i v (failed e q) h = subst (λ s. HasRow i v s.1.guests) (sym q) h
  Upserted-keep i v (added q) h =
      subst (λ s. HasRow i v s.1.guests) (sym q) ((Any-append _ db.guests _).1 (inl h))
  Upserted-keep i v (updated row f q) h =
      subst (λ s. HasRow i v s.1.guests) (sym q) ((update-HasRow i v row.id g db.guests).1 h)

  pub Upserted-new : Upserted db g r → r.0 ≡ ok tt → HasRow g.instance_id g.proxmox_id r.1.guests
  Upserted-new (failed e q) h = cc
  Upserted-new (added q) h =
      subst (λ s. HasRow g.instance_id g.proxmox_id s.1.guests) (sym q)
        ((Any-append _ db.guests _).1 (inr (inl (refl, refl))))
  Upserted-new (updated row f q) h =
      subst (λ s. HasRow g.instance_id g.proxmox_id s.1.guests) (sym q)
        ((update-HasRow g.instance_id g.proxmox_id row.id g db.guests).1 (find-HasRow _ _ _ f))

  pub Upserted-IsKeyed : Upserted db g r → IsKeyed db → IsKeyed r.1
  Upserted-IsKeyed (failed e q) k = subst (λ s. IsKeyed s.1) (sym q) k
  Upserted-IsKeyed (added q) k =
      subst (λ s. IsKeyed s.1) (sym q)
        (record {
          distinct =
              rw ids-snoc
                (Distinct-snoc (ids db.guests) db.next_guest_id k.distinct (fresh _ _ k.below));
          below =
              rw ids-snoc
                (All-append _ (ids db.guests) _ (All-below _ _ k.below) (omega arith, tt));
        })
  Upserted-IsKeyed (updated row f q) k =
      subst (λ s. IsKeyed s.1) (sym q)
        (record { distinct = rw ids-update k.distinct; below = rw ids-update k.below })

  pub Upserted-rules : Upserted db g r → r.1.access_rules ≡ db.access_rules
  Upserted-rules (failed e q) = ap (λ s. s.1.access_rules) q
  Upserted-rules (added q) = ap (λ s. s.1.access_rules) q
  Upserted-rules (updated row f q) = ap (λ s. s.1.access_rules) q
