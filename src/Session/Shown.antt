-- ===== src/Session/Shown.antt =====
-- The entries of the guest list and the rows behind them.
use mathlib.Core.Path.{subst}
use proxpass.Base.{
  ℕ, none, some, List, [], ◌∷◌, map, ◌==◌, find, Any, Any-map, Any-weaken, Any-give, Any-take, Elem,
  ◌≡◌, ◌↔◌, ◌⊎◌, sym, ◌∙◌, inl, inr, arith, Bool-cases,
}
use proxpass.Models.{ProxmoxInstance, Guest, SessionIdentity}
use proxpass.Db.State.{Tables}
use proxpass.Session.{Answer, answered}
use proxpass.Session.Data.{WireGuest, guest_response, instance_name, name_or_empty}
use proxpass.Session.Reach.{MayReach}

-- The id names no guest, or one that the caller may not reach.
abbrev pub Refused : Tables → SessionIdentity → ℕ → Type 0
Refused db who id =
    (find (λ r. r.id == id) db.guests ≡ none)
    ⊎ ((g : Guest) × (find (λ r. r.id == id) db.guests ≡ some g) × (¬ MayReach db who g.id))

-- The list has an entry with the id.
abbrev pub IsShown : ℕ → List WireGuest → Type 0
IsShown id shown = Any (λ w. w.id ≡ id) shown

pub wire-Any :
    (id : ℕ) (insts : List ProxmoxInstance) (guests : List Guest) (shown : List WireGuest)
    → ◌≡◌ {A = Answer (List WireGuest)}
        (answered
          (map (λ g. guest_response g (name_or_empty (instance_name insts g.instance_id))) guests))
        (answered shown)
    → IsShown id shown ↔ Any (λ g. g.id ≡ id) guests
unfolding guest_response
wire-Any id insts guests shown e =
    let wire : Guest → WireGuest =
      λ g. guest_response g (name_or_empty (instance_name insts g.instance_id)) in
    let same : map wire guests ≡ shown = ground arith in
    subst (λ l. IsShown id l ↔ Any (λ g. g.id ≡ id) guests) same
      (Any-map (λ w. w.id ≡ id) wire guests)

find-Any :
    (rows : List Guest) (id : ℕ) (g : Guest)
    → find (λ r. r.id == id) rows ≡ some g
    → Elem g rows × (g.id ≡ id)
find-Any [] id g e = cc
find-Any (r ∷ rows) id g e = elim (Bool-cases (r.id == id)) [
  | inl t ↦ let same : r ≡ g = ground arith in (inl same, ground arith)
  | inr f ↦ let (m, k) = find-Any rows id g (ground arith) in (inr m, k)
]

find-none :
    (rows : List Guest) (id : ℕ) → find (λ r. r.id == id) rows ≡ none → ¬ Any (λ r. r.id ≡ id) rows
find-none [] id e m = m
find-none (r ∷ rows) id e (inl k) = ground arith
find-none (r ∷ rows) id e (inr m) = find-none rows id (ground arith) m

module _ (db : Tables) (w who : SessionIdentity) (id : ℕ) where
  -- The guest that the id names is among the guests that may be reached.
  pub reached_here :
      (g : Guest)
      → w ≡ who
      → find (λ r. r.id == id) db.guests ≡ some g
      → MayReach db w g.id
      → Any (λ r. (r.id ≡ id) × MayReach db who r.id) db.guests
  reached_here g same e m =
      let (here, key) = find-Any db.guests id g e in
      Any-give _ db.guests g (key, subst (λ x. MayReach db x g.id) same m) here

  pub Refused-nowhere :
      w ≡ who → Refused db w id → ¬ Any (λ r. (r.id ≡ id) × MayReach db who r.id) db.guests
  Refused-nowhere same (inl n) m =
      find-none db.guests id n (Any-weaken _ _ db.guests (λ r h. h.0) m)
  Refused-nowhere same (inr (g, e, no_reach)) m =
      let (g', (k, reach), _) = Any-take _ db.guests m in
      let named = (find-Any db.guests id g e).1 in
      let same_id : g'.id ≡ g.id = k ∙ sym named in
      no_reach (subst (λ x. MayReach db x g.id) (sym same) (subst (MayReach db who) same_id reach))
