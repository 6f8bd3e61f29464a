-- ===== src/Discovery/Exact.antt =====
-- StoreGuests leaves exactly the running guests of its instance, and never drops one that runs.
use mathlib.Core.Path.{subst}
use proxpass.Base.{
  ℕ, Bool, true, false, none, List, [], Result, ok, err, ◌≡◌, ◌≢◌, ◌↔◌, ◌⊎◌, inl, inr, refl, sym,
  ap, Elem, Any-weaken, Any-take, ◌∙◌, Bool-cases, any, ◌==◌, ==_iff, Elem-iff,
}
use proxpass.Models.{Guest}
use proxpass.Db.State.{Tables, DbError, Statement}
use proxpass.Db.Guests.{remove_guests_not_in}
use proxpass.Db.Guests.Rows.{HasRow, IsKeyed}
use proxpass.Db.Guests.Prune.{IsStale, remove_guests_not_in_exact, remove_guests_not_in_atomic}
use proxpass.Discovery.{Progress, store_loop, store_pruned, store_end, store_guests}
use proxpass.Discovery.Loop.{IsReported, Holds, LoopEnd, loop-LoopEnd}

module _ (down : Statement → Bool) (canceled_at : ℕ → Bool) (inst : ℕ) (db : Tables)
    (k : IsKeyed db) where
  abbrev start : Progress
  start = record { live = []; stored = 0; first_err = none; tables = db }

  start-Holds : Holds inst db [] start
  start-Holds = record {
    keyed = k;
    live_iff = λ v. (λ h. h, λ h. h);
    kept = λ i v h. h;
    only = λ i v h. inl h;
    stored_rows = λ e v h. absurd h;
  }

  -- A row of another instance, or with a VMID that was reported, survives the prune.
  prune_keeps :
      (seen : List Guest) (p : Progress) (r : Result DbError ℕ × Tables) (j v : ℕ)
      → Holds inst db seen p
      → remove_guests_not_in down p.tables inst p.live ≡ r
      → (j ≢ inst) ⊎ Elem v p.live
      → HasRow j v p.tables.guests
      → HasRow j v r.1.guests
  prune_keeps seen p (ok n, db') j v h e safe m =
      let exact = remove_guests_not_in_exact down p.tables inst p.live n db' h.keyed e in
      (exact.0 (λ r. (r.proxmox_id ≡ v) × (r.instance_id ≡ j))).1
        (Any-weaken _ _ p.tables.guests (λ r at_row. (at_row, λ st. not_stale r at_row st)) m)
    where
      not_stale : (r : Guest) → (r.proxmox_id ≡ v) × (r.instance_id ≡ j) → ¬ IsStale inst p.live r
      not_stale r (ev, ej) (ei, gone) = elim safe [
        | inl ne ↦ ne (sym ej ∙ ei)
        | inr live ↦ gone (subst (λ w. Elem w p.live) (sym ev) live)
      ]
  prune_keeps seen p (err x, db') j v h e safe m =
      subst (λ (d : Tables). HasRow j v d.guests)
        (sym (remove_guests_not_in_atomic down p.tables inst p.live x (ap (λ r. r.0) e))
          ∙ ap (λ r. r.1) e)
        m

  -- What survives a successful prune on the instance was reported.
  prune_only :
      (seen : List Guest) (p : Progress) (n : ℕ) (db' : Tables) (v : ℕ)
      → Holds inst db seen p
      → remove_guests_not_in down p.tables inst p.live ≡ (ok n, db')
      → HasRow inst v db'.guests
      → Elem v p.live
  prune_only seen p n db' v h e m =
      let exact = remove_guests_not_in_exact down p.tables inst p.live n db' h.keyed e in
      let (r, ((ev, ei), fine), _) =
        Any-take _ p.tables.guests
          ((exact.0 (λ r. (r.proxmox_id ≡ v) × (r.instance_id ≡ inst))).0 m) in
      subst (λ w. Elem w p.live) ev
        (elim (Bool-cases (any (λ x. x == r.proxmox_id) p.live)) [
          | inl b ↦ (Elem-iff p.live r.proxmox_id).0 b
          | inr b ↦ absurd (fine (ei, λ m. cc ((Elem-iff p.live r.proxmox_id).1 m)))
        ])

  -- Other instances: a row after a successful prune was there before.
  prune_back :
      (seen : List Guest) (p : Progress) (n : ℕ) (db' : Tables) (j v : ℕ)
      → Holds inst db seen p
      → remove_guests_not_in down p.tables inst p.live ≡ (ok n, db')
      → HasRow j v db'.guests
      → HasRow j v p.tables.guests
  prune_back seen p n db' j v h e m =
      let exact = remove_guests_not_in_exact down p.tables inst p.live n db' h.keyed e in
      Any-weaken _ _ p.tables.guests (λ r a. a.0)
        ((exact.0 (λ r. (r.proxmox_id ≡ v) × (r.instance_id ≡ j))).0 m)

  module _ (gs : List Guest) where
    ended : LoopEnd down canceled_at inst db [] gs (store_loop down canceled_at inst 0 start gs)
    ended = loop-LoopEnd down canceled_at inst db 0 [] start gs start-Holds

    keeps_end :
        (out : Bool × Progress) (j v : ℕ)
        → LoopEnd down canceled_at inst db [] gs out
        → (j ≢ inst) ⊎ IsReported v gs
        → HasRow j v db.guests
        → HasRow j v (store_end down inst out).1.guests
    unfolding store_end store_pruned
    keeps_end (true, p) j v l safe m = l.holds.kept j v m
    keeps_end (false, p) j v l safe m =
        let live : (j ≢ inst) ⊎ Elem v p.live = elim safe [
          | inl ne ↦ inl ne
          | inr rep ↦
              inr ((l.holds.live_iff v).1 (subst (IsReported v) (sym (l.all_seen refl)) rep))
        ] in
        pruned_keeps l.seen p (remove_guests_not_in down p.tables inst p.live) refl j v l.holds live
          m
      where
        pruned_keeps :
            (seen : List Guest) (q : Progress) (r : Result DbError ℕ × Tables)
            → remove_guests_not_in down q.tables inst q.live ≡ r
            → (j' v' : ℕ) → Holds inst db seen q
            → (j' ≢ inst) ⊎ Elem v' q.live
            → HasRow j' v' db.guests
            → HasRow j' v' (store_pruned down inst q r).1.guests
        pruned_keeps seen q (ok n, db') e j' v' h safe' m' =
            prune_keeps seen q (ok n, db') j' v' h e safe' (h.kept j' v' m')
        pruned_keeps seen q (err x, db') e j' v' h safe' m' =
            prune_keeps seen q (err x, db') j' v' h e safe' (h.kept j' v' m')

    -- Whatever fails and whenever the context is canceled, a guest row stays in the table if it belongs
    -- to another instance or if the pass reported its VMID as running.
    pub store_guests_keeps :
        (j v : ℕ)
        → (j ≢ inst) ⊎ IsReported v gs
        → HasRow j v db.guests
        → HasRow j v (store_guests down canceled_at inst db gs).1.guests
    unfolding store_guests
    store_guests_keeps j v safe m = keeps_end _ j v ended safe m

    exact_end :
        (out : Bool × Progress)
        → LoopEnd down canceled_at inst db [] gs out
        → (store_end down inst out).0.error ≡ none
        → ((v : ℕ) → HasRow inst v (store_end down inst out).1.guests ↔ IsReported v gs)
          × ((j v : ℕ)
              → j ≢ inst
              → HasRow j v (store_end down inst out).1.guests ↔ HasRow j v db.guests)
    unfolding store_end store_pruned
    exact_end (true, p) l e = cc
    exact_end (false, p) l e =
        exact_pruned p (remove_guests_not_in down p.tables inst p.live) refl
          (subst (λ seen. Holds inst db seen p) (l.all_seen refl) l.holds) e
      where
        exact_pruned :
            (q : Progress) (r : Result DbError ℕ × Tables)
            → remove_guests_not_in down q.tables inst q.live ≡ r
            → Holds inst db gs q
            → (store_pruned down inst q r).0.error ≡ none
            → ((v : ℕ) → HasRow inst v (store_pruned down inst q r).1.guests ↔ IsReported v gs)
              × ((j v : ℕ)
                  → j ≢ inst
                  → HasRow j v (store_pruned down inst q r).1.guests ↔ HasRow j v db.guests)
        exact_pruned q (err x, db') eq h none_yet = cc
        exact_pruned q (ok n, db') eq h none_yet = (
          λ v. (
            λ m. (h.live_iff v).0 (prune_only gs q n db' v h eq m),
            λ rep.
                let live = (h.live_iff v).1 rep in
                prune_keeps gs q (ok n, db') inst v h eq (inr live) (h.stored_rows none_yet v live),
          ),
          λ j v ne. (
            λ m. elim (h.only j v (prune_back gs q n db' j v h eq m)) [
              | inl a ↦ a
              | inr a ↦ absurd (ne a.0)
            ],
            λ m. prune_keeps gs q (ok n, db') j v h eq (inl ne) (h.kept j v m),
          ),
        )

    store_guests_parts :
        (store_guests down canceled_at inst db gs).0.error ≡ none
        → ((v : ℕ)
            → HasRow inst v (store_guests down canceled_at inst db gs).1.guests ↔ IsReported v gs)
          × ((j v : ℕ)
              → j ≢ inst
              → HasRow j v (store_guests down canceled_at inst db gs).1.guests
                ↔ HasRow j v db.guests)
    unfolding store_guests
    store_guests_parts e = exact_end _ ended e

    -- When StoreGuests reports no error, the guest table has a row for a VMID on an instance exactly
    -- if it is the instance of the pass and the VMID was reported as running, or it is another instance
    -- and the row was there before.
    pub store_guests_exact :
        (j v : ℕ)
        → (store_guests down canceled_at inst db gs).0.error ≡ none
        → HasRow j v (store_guests down canceled_at inst db gs).1.guests
          ↔ (((j ≡ inst) × IsReported v gs) ⊎ ((j ≢ inst) × HasRow j v db.guests))
    store_guests_exact j v e =
        let (here, there) = store_guests_parts e in
        let rows = (store_guests down canceled_at inst db gs).1.guests in
        elim (Bool-cases (j == inst)) [
          | inl b ↦
              let q = (==_iff j inst).0 b in
              (
                λ m. inl (q, (here v).0 (subst (λ i. HasRow i v rows) q m)),
                λ s. elim s [
                  | inl a ↦ subst (λ i. HasRow i v rows) (sym q) ((here v).1 a.1)
                  | inr a ↦ absurd (a.0 q)
                ],
              )
          | inr b ↦
              let ne : j ≢ inst = λ q. cc ((==_iff j inst).1 q) in
              (
                λ m. inr (ne, (there j v ne).0 m),
                λ s. elim s [ inl a ↦ absurd (ne a.0) | inr a ↦ (there j v ne).1 a.1 ],
              )
        ]
