-- ===== src/Discovery/Loop.antt =====
-- What the loop over the reported guests keeps true.
use mathlib.Core.Path.{subst}
use proxpass.Base.{
  ℕ, suc, Bool, false, Option, none, some, List, [], ◌∷◌, ◌++◌, Result, ok, err, ◌≡◌, ◌≢◌, ◌↔◌, ◌⊎◌,
  inl, inr, refl, sym, arith, bytes_eq_iff, Any, Elem, Any-append, append_assoc, append-nil, ◌∙◌,
  Bool-cases,
}
use proxpass.Models.{Guest, status_running}
use proxpass.Db.State.{Tables, DbError, Statement}
use proxpass.Db.Guests.Rows.{
  HasRow, IsKeyed, Upserted, upsert-Upserted, Upserted-only, Upserted-keep, Upserted-new,
  Upserted-IsKeyed,
}
use proxpass.Discovery.{
  StoreError, upsert_failed, Progress, is_running, keep_first, note_upsert, store_one, store_loop,
}

-- VMID `v` is reported by the pass as running.
abbrev pub IsReported : ℕ → List Guest → Type 0
IsReported v gs = Any (λ g. (g.proxmox_id ≡ v) × (g.status ≡ status_running)) gs

-- The loop invariant: `db` are the tables at the start, `done` the guests so far.
pub record Holds (inst : ℕ) (db : Tables) (done : List Guest) (p : Progress) : Type 0 where
  pub keyed : IsKeyed p.tables
  pub live_iff : (v : ℕ) → Elem v p.live ↔ IsReported v done
  pub kept : (i v : ℕ) → HasRow i v db.guests → HasRow i v p.tables.guests
  pub only :
      (i v : ℕ) → HasRow i v p.tables.guests → HasRow i v db.guests ⊎ ((i ≡ inst) × Elem v p.live)
  pub stored_rows : p.first_err ≡ none → (v : ℕ) → Elem v p.live → HasRow inst v p.tables.guests

keep_first_ne : (o : Option StoreError) (e : StoreError) → keep_first o e ≢ none
unfolding keep_first
keep_first_ne none e = cc
keep_first_ne (some f) e = cc

module _ (inst : ℕ) (db : Tables) (done : List Guest) (p : Progress) (g : Guest) where
  module _ (run : g.status ≡ status_running) (h : Holds inst db done p) where
    live_snoc : (v : ℕ) → Elem v (p.live ++ g.proxmox_id ∷ []) ↔ IsReported v (done ++ g ∷ [])
    live_snoc v =
        let live = Any-append (λ y. y ≡ v) p.live (g.proxmox_id ∷ []) in
        let rep =
          Any-append (λ q. (q.proxmox_id ≡ v) × (q.status ≡ status_running)) done (g ∷ []) in
        ground (arith, live, rep, h.live_iff v, run)

    module _ {r : Result DbError (Unit {0}) × Tables}
        (u : Upserted p.tables (record g { instance_id = inst }) r) where
      only_snoc :
          (i v : ℕ)
          → HasRow i v r.1.guests
          → HasRow i v db.guests ⊎ ((i ≡ inst) × Elem v (p.live ++ g.proxmox_id ∷ []))
      only_snoc i v m =
          let live = Any-append (λ y. y ≡ v) p.live (g.proxmox_id ∷ []) in
          elim (Upserted-only i v u m) [
            | inl a ↦ elim (h.only i v a) [ inl b ↦ inl b | inr b ↦ inr (b.0, live.1 (inl b.1)) ]
            | inr a ↦ inr (sym a.1, live.1 (inr (inl a.0)))
          ]

      stored_snoc :
          r.0 ≡ ok tt
          → p.first_err ≡ none
          → (v : ℕ) → Elem v (p.live ++ g.proxmox_id ∷ [])
          → HasRow inst v r.1.guests
      stored_snoc e none_yet v m = elim ((Any-append (λ y. y ≡ v) p.live (g.proxmox_id ∷ [])).0 m) [
        | inl a ↦ Upserted-keep inst v u (h.stored_rows none_yet v a)
        | inr (inl a) ↦ subst (λ (w : ℕ). HasRow inst w r.1.guests) a (Upserted-new u e)
        | inr (inr a) ↦ absurd a
      ]

  note-Holds :
      (r : Result DbError (Unit {0}) × Tables)
      → Upserted p.tables (record g { instance_id = inst }) r
      → g.status ≡ status_running
      → Holds inst db done p
      → Holds inst db (done ++ g ∷ []) (note_upsert p g.proxmox_id r)
  unfolding note_upsert
  note-Holds (ok tt, db') u run h = record {
    keyed = Upserted-IsKeyed u h.keyed;
    live_iff = live_snoc run h;
    kept = λ i v m. Upserted-keep i v u (h.kept i v m);
    only = only_snoc run h u;
    stored_rows = stored_snoc run h u refl;
  }
  note-Holds (err x, db') u run h = record {
    keyed = Upserted-IsKeyed u h.keyed;
    live_iff = live_snoc run h;
    kept = λ i v m. Upserted-keep i v u (h.kept i v m);
    only = only_snoc run h u;
    stored_rows = λ e. absurd (keep_first_ne p.first_err (upsert_failed g.proxmox_id x) e);
  }

  skip-Holds : is_running g ≡ false → Holds inst db done p → Holds inst db (done ++ g ∷ []) p
  unfolding is_running
  skip-Holds e h = record {
    keyed = h.keyed;
    live_iff = λ v.
        let rep =
          Any-append (λ q. (q.proxmox_id ≡ v) × (q.status ≡ status_running)) done (g ∷ []) in
        ground (arith, rep, h.live_iff v, bytes_eq_iff g.status status_running);
    kept = h.kept;
    only = h.only;
    stored_rows = h.stored_rows;
  }

module _ (down : Statement → Bool) (canceled_at : ℕ → Bool) (inst : ℕ) (db : Tables) where
  one-Holds :
      (done : List Guest) (p : Progress) (g : Guest)
      → Holds inst db done p
      → Holds inst db (done ++ g ∷ []) (store_one down inst p g)
  unfolding store_one
  one-Holds done p g h = elim (Bool-cases (is_running g)) [
    | inl e ↦ rw e (
        note-Holds inst db done p g _
          (upsert-Upserted down p.tables (record g { instance_id = inst }))
          (unfold is_running in (bytes_eq_iff g.status status_running).0 e) h)
    | inr e ↦ rw e (skip-Holds inst db done p g e h)
  ]

  -- The loop ends with the invariant for the guests that it went through: all, unless canceled.
  pub record LoopEnd (done gs : List Guest) (out : Bool × Progress) : Type 0 where
    pub seen : List Guest
    pub holds : Holds inst db seen out.1
    pub all_seen : out.0 ≡ false → seen ≡ done ++ gs

  pub loop-LoopEnd :
      (n : ℕ) (done : List Guest) (p : Progress) (gs : List Guest)
      → Holds inst db done p
      → LoopEnd done gs (store_loop down canceled_at inst n p gs)
  unfolding store_loop
  loop-LoopEnd n done p [] h = record {
    seen = done;
    holds = h;
    all_seen = λ e. sym (append-nil done);
  }
  loop-LoopEnd n done p (g ∷ gs) h =
      let rest =
        loop-LoopEnd (suc n) (done ++ g ∷ []) (store_one down inst p g) gs (one-Holds done p g h) in
      elim (Bool-cases (canceled_at n)) [
        | inl e ↦ rw e (record { seen = done; holds = h; all_seen = λ f. cc })
        | inr e ↦ rw e (record {
          seen = rest.seen;
          holds = rest.holds;
          all_seen = λ f. rest.all_seen f ∙ append_assoc done (g ∷ []) gs;
        })
      ]
