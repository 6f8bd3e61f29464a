-- ===== src/Admin/Pruner.antt =====
-- internal/api/activitypruner.go: events that are older than the retention are deleted now and then.
-- Times are in nanoseconds since the epoch.
use proxpass.Base.{
  ℕ, ◌-◌, ◌*◌, ◌/◌, ◌≤◌, Bool, true, false, not, List, [], ◌∷◌, ltb, leb, ltb→lt, lt→ltb,
  if◌then◌else◌, filter, All, Any, Elem, Any-filter_iff, Any-weaken, ◌≡◌, ◌↔◌, refl, sym, inl, inr,
  ◌⊎◌, Bool-cases, arith,
}
use mathlib.Core.Path.{subst}
use proxpass.Models.{ActivityEvent}
use proxpass.Db.State.{Tables, Statement, delete_events}
use proxpass.Db.Activity.{delete_activity_older_than}

abbrev pub second : ℕ
second = 1_000_000_000

-- One hour.
abbrev pub default_activity_prune_interval : ℕ
default_activity_prune_interval = 3600 * second

-- NewActivityPruner: an interval of zero or less, which is 0 here, is replaced.
unfoldable pub prune_interval : ℕ → ℕ
prune_interval interval = if leb interval 0 then default_activity_prune_interval else interval

module _ (retention : ℕ) where
  -- The Unix seconds before which events go.
  abbrev pub cutoff_at : ℕ → ℕ
  cutoff_at now = (now - retention) / second

  unfoldable pub prune_once : Tables → (Statement → Bool) × ℕ → Tables
  prune_once db (down, now) = (delete_activity_older_than down db (cutoff_at now)).1

  -- The passes of a run that is not yet canceled: one at once, and one at every tick.
  unfoldable pub pruned : Tables → List ((Statement → Bool) × ℕ) → Tables
  pruned db [] = db
  pruned db (t ∷ ts) = pruned (prune_once db t) ts

  unfoldable pub run_pruner : Tables → List ((Statement → Bool) × ℕ) → Tables
  run_pruner db ticks = if leb retention 0 then db else pruned db ticks

  pruned_log :
      (db : Tables) (down : Statement → Bool) (now : ℕ)
      → down (delete_events (cutoff_at now)) ≡ false
      → (prune_once db (down, now)).activity_log
        ≡ filter (λ e. not (ltb e.occurred_at (cutoff_at now))) db.activity_log
  unfolding prune_once delete_activity_older_than
  pruned_log db down now up = rw (up, prune_once, delete_activity_older_than) refl

  failed_same :
      (db : Tables) (down : Statement → Bool) (now : ℕ)
      → down (delete_events (cutoff_at now)) ≡ true
      → prune_once db (down, now) ≡ db
  unfolding prune_once delete_activity_older_than
  failed_same db down now f = rw (f, prune_once, delete_activity_older_than) refl

  young_iff : (a b : ℕ) → (not (ltb a b) ≡ true) ↔ (b ≤ a)
  young_iff a b = ground (arith, ltb→lt a b, lt→ltb a b)

  -- After a pass whose statement did not fail the log holds exactly the events that are not older than
  -- the retention.
  pub prune_once_iff :
      (db : Tables) (down : Statement → Bool) (now : ℕ) (P : ActivityEvent → Type 0)
      → down (delete_events (cutoff_at now)) ≡ false
      → Any P (prune_once db (down, now)).activity_log
        ↔ Any (λ e. P e × (cutoff_at now ≤ e.occurred_at)) db.activity_log
  prune_once_iff db down now P up =
      let kept = Any-filter_iff (λ e. not (ltb e.occurred_at (cutoff_at now))) P db.activity_log in
      subst (λ l. Any P l ↔ Any (λ e. P e × (cutoff_at now ≤ e.occurred_at)) db.activity_log)
        (sym (pruned_log db down now up))
        (
          λ a. Any-weaken _ _ db.activity_log (λ e (p, q). (p, (young_iff _ _).0 q)) (kept.0 a),
          λ a. kept.1 (Any-weaken _ _ db.activity_log (λ e (p, q). (p, (young_iff _ _).1 q)) a),
        )

  prune_once_keeps :
      (db : Tables) (t : (Statement → Bool) × ℕ) (e : ActivityEvent)
      → cutoff_at t.1 ≤ e.occurred_at
      → Elem e db.activity_log
      → Elem e (prune_once db t).activity_log
  prune_once_keeps db (down, now) e young m =
      elim (Bool-cases (down (delete_events (cutoff_at now)))) [
        | inl f ↦ subst (λ d. Elem e d.activity_log) (sym (failed_same db down now f)) m
        | inr f ↦ (prune_once_iff db down now _ f).1 (
            Any-weaken _ _ db.activity_log
              (λ x q. (q, subst (λ y. cutoff_at now ≤ y.occurred_at) (sym q) young)) m)
      ]

  pruned_keeps :
      (db : Tables) (ticks : List ((Statement → Bool) × ℕ)) (e : ActivityEvent)
      → All (λ t. cutoff_at t.1 ≤ e.occurred_at) ticks
      → Elem e db.activity_log
      → Elem e (pruned db ticks).activity_log
  unfolding pruned
  pruned_keeps db [] e y m = m
  pruned_keeps db (t ∷ ts) e (y, ys) m =
      pruned_keeps (prune_once db t) ts e ys (prune_once_keeps db t e y m)

  All-young :
      (ticks : List ((Statement → Bool) × ℕ)) (last : ℕ) (e : ActivityEvent)
      → All (λ t. t.1 ≤ last) ticks
      → cutoff_at last ≤ e.occurred_at
      → All (λ t. cutoff_at t.1 ≤ e.occurred_at) ticks
  All-young [] last e y late = tt
  All-young (t ∷ ts) last e (y, ys) late = (omega arith, All-young ts last e ys late)

  -- An event that is not older than the retention at the last pass is still in the log, whichever
  -- passes failed; and with a retention of zero every event is.
  pub run_pruner_keeps :
      (db : Tables) (ticks : List ((Statement → Bool) × ℕ)) (last : ℕ) (e : ActivityEvent)
      → All (λ t. t.1 ≤ last) ticks
      → (cutoff_at last ≤ e.occurred_at) ⊎ (retention ≡ 0)
      → Elem e db.activity_log
      → Elem e (run_pruner db ticks).activity_log
  unfolding run_pruner
  run_pruner_keeps db ticks last e y young m = elim (Bool-cases (leb retention 0)) [
    | inl z ↦ rw (z, run_pruner) m
    | inr z ↦ elim young [
      | inl late ↦ rw (z, run_pruner) (pruned_keeps db ticks e (All-young ticks last e y late) m)
      | inr zero_retention ↦ absurd (ground arith)
    ]
  ]
