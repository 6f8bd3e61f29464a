-- ===== src/Db/Guests/Prune.antt =====
-- RemoveGuestsNotIn keeps exactly the rows that it should, or changes nothing.
use mathlib.Core.Path.{subst}
use proxpass.Base.{
  ℕ, Bool, true, not, List, [], ◌∷◌, Result, ok, err, ◌≡◌, ◌↔◌, inl, inr, refl, sym, ap, ◌∙◌, arith,
  ◌==◌, any, filter, length, Any, Elem, Distinct, Any-filter_iff, Any-map, Any-take, Any-give,
  Any-weaken, Elem-iff, ==_refl, ==_iff, Bool-cases,
}
use proxpass.Models.{Guest, RuleRow}
use proxpass.Db.State.{Tables, DbError, Statement, run, transact}
use proxpass.Db.Guests.{drop_guest, drop_guests, stale_ids, prune, remove_guests_not_in}
use proxpass.Db.Guests.Rows.{ids, IsKeyed}

pub transact_err :
    (db : Tables) (r : Result DbError (ℕ × Tables)) {e : DbError}
    → (transact db r).0 ≡ err e
    → (transact db r).1 ≡ db
unfolding transact
transact_err db (ok (n, db')) h = cc
transact_err db (err e) h = refl

-- Filtering by one key after another.
module _ {A : Type 0} (key : A → ℕ) (P : A → Type 0) where
  unfoldable pub Kept : List ℕ → A → Type 0
  Kept gone r = P r × (¬ Elem (key r) gone)

  Kept-iff :
      (id : ℕ) (gone : List ℕ) (r : A)
      → (Kept gone r × (not (key r == id) ≡ true)) ↔ Kept (id ∷ gone) r
  unfolding Kept
  Kept-iff id gone r = (
    λ ((p, n), e). (p, λ m. elim m [ inl q ↦ cc (==_refl id) | inr m ↦ n m ]),
    λ (p, n). (
      (p, λ m. n (inr m)),
      elim (Bool-cases (key r == id)) [
        | inl e ↦ absurd (n (inl (sym ((==_iff (key r) id).0 e))))
        | inr e ↦ rw e refl
      ],
    ),
  )

  -- One round of deletions, then the rest, is all of them.
  pub left_step :
      (id : ℕ) (gone : List ℕ) (xs : List A)
      → Any (Kept gone) (filter (λ r. not (key r == id)) xs) ↔ Any (Kept (id ∷ gone)) xs
  left_step id gone xs =
      let filtered = Any-filter_iff (λ r. not (key r == id)) (Kept gone) xs in
      (
        λ h. Any-weaken _ _ xs (λ r. (Kept-iff id gone r).0) (filtered.0 h),
        λ h. filtered.1 (Any-weaken _ _ xs (λ r. (Kept-iff id gone r).1) h),
      )

  pub left_all : (xs : List A) → Any P xs ↔ Any (Kept []) xs
  unfolding Kept
  left_all xs = (Any-weaken P _ xs (λ r p. (p, λ z. z)), Any-weaken _ P xs (λ r k. k.0))

drop_rest :
    (down : Statement → Bool) (id : ℕ) (gone : List ℕ) (db db' : Tables)
    → drop_guests down db (id ∷ gone) ≡ ok db'
    → drop_guests down (drop_guest id db) gone ≡ ok db'
unfolding drop_guests run
drop_rest down id gone db db' h = ground arith

-- What the deletions leave of the guests, and of the rules.
left_guests :
    (down : Statement → Bool) (P : Guest → Type 0) (gone : List ℕ) (db db' : Tables)
    → drop_guests down db gone ≡ ok db'
    → Any P db'.guests ↔ Any (Kept (λ r. r.id) P gone) db.guests
unfolding drop_guests drop_guest
left_guests down P [] db db' h =
    let e : db ≡ db' = ground arith in
    subst (λ (d : Tables). Any P d.guests ↔ Any (Kept (λ r. r.id) P []) db.guests) e
      (left_all (λ r. r.id) P db.guests)
left_guests down P (id ∷ gone) db db' h =
    let rest = left_guests down P gone (drop_guest id db) db' (drop_rest down id gone db db' h) in
    let step = left_step (λ r. r.id) P id gone db.guests in
    (λ a. step.0 (rest.0 a), λ a. rest.1 (step.1 a))

left_rules :
    (down : Statement → Bool) (P : RuleRow → Type 0) (gone : List ℕ) (db db' : Tables)
    → drop_guests down db gone ≡ ok db'
    → Any P db'.access_rules ↔ Any (Kept (λ r. r.target_id) P gone) db.access_rules
unfolding drop_guests drop_guest
left_rules down P [] db db' h =
    let e : db ≡ db' = ground arith in
    subst
      (λ (d : Tables). Any P d.access_rules ↔ Any (Kept (λ r. r.target_id) P []) db.access_rules) e
      (left_all (λ r. r.target_id) P db.access_rules)
left_rules down P (id ∷ gone) db db' h =
    let rest = left_rules down P gone (drop_guest id db) db' (drop_rest down id gone db db' h) in
    let step = left_step (λ r. r.target_id) P id gone db.access_rules in
    (λ a. step.0 (rest.0 a), λ a. rest.1 (step.1 a))

-- A prune that succeeds has dropped exactly the stale ids.
prune_dropped :
    (down : Statement → Bool) (db : Tables) (stale : List ℕ) (n : ℕ) (db' : Tables)
    → prune down db stale ≡ ok (n, db')
    → (n ≡ length stale) × (drop_guests down db stale ≡ ok db')
unfolding prune run
prune_dropped down db [] n db' h = unfold drop_guests in ground arith
prune_dropped down db (id ∷ stale) n db' h = ground arith

remove_dropped :
    (down : Statement → Bool) (db : Tables) (i : ℕ) (keep : List ℕ) (n : ℕ) (db' : Tables)
    → remove_guests_not_in down db i keep ≡ (ok n, db')
    → (n ≡ length (stale_ids db i keep)) × (drop_guests down db (stale_ids db i keep) ≡ ok db')
unfolding remove_guests_not_in run transact
remove_dropped down db i keep n db' h =
    prune_dropped down db (stale_ids db i keep) n db' (ground arith)

-- A guest of the instance that the discovery pass did not report.
abbrev pub IsStale : ℕ → List ℕ → Guest → Type 0
IsStale i keep r = (r.instance_id ≡ i) × (¬ Elem r.proxmox_id keep)

not_kept_iff : (keep : List ℕ) (v : ℕ) → (not (any (λ x. x == v) keep) ≡ true) ↔ (¬ Elem v keep)
not_kept_iff keep v = elim (Bool-cases (any (λ x. x == v) keep)) [
  | inl e ↦ rw e (λ h. cc, λ n. absurd (n ((Elem-iff keep v).0 e)))
  | inr e ↦ rw e (λ h m. cc ((Elem-iff keep v).1 m), λ n. refl)
]

abbrev unreported : List ℕ → Guest → Bool
unreported keep r = not (any (λ v. v == r.proxmox_id) keep)

IsStale-iff :
    (db : Tables) (i : ℕ) (keep : List ℕ) (x : ℕ)
    → Elem x (stale_ids db i keep) ↔ Any (λ r. (r.id ≡ x) × IsStale i keep r) db.guests
unfolding stale_ids
IsStale-iff db i keep x =
    let mine = filter (λ r. r.instance_id == i) db.guests in
    let mapped = Any-map (λ y. y ≡ x) (λ (r : Guest). r.id) (filter (unreported keep) mine) in
    let outer = Any-filter_iff (unreported keep) (λ r. r.id ≡ x) mine in
    let inner =
      Any-filter_iff (λ (r : Guest). r.instance_id == i)
        (λ r. (r.id ≡ x) × (unreported keep r ≡ true)) db.guests in
    (
      λ m.
          Any-weaken _ _ db.guests
            (λ r ((e, u), h).
              (e, ((==_iff r.instance_id i).0 h, (not_kept_iff keep r.proxmox_id).0 u)))
            (inner.0 (outer.0 (mapped.0 m))),
      λ m. mapped.1 (
          outer.1 (
            inner.1 (
              Any-weaken _ _ db.guests
                (λ r (e, st).
                  ((e, (not_kept_iff keep r.proxmox_id).1 st.1), (==_iff r.instance_id i).1 st.0))
                m))),
    )

abbrev id_of : Guest → ℕ
id_of r = r.id

same_id : (rows : List Guest) (r b : Guest) → b.id ≡ r.id → Elem b rows → Elem r.id (ids rows)
same_id rows r b e m =
    (Any-map (λ y. y ≡ r.id) id_of rows).1 (Any-give (λ x. x.id ≡ r.id) rows b e m)

-- The row with an id is one row.
Distinct-row :
    (rows : List Guest) (a b : Guest)
    → Distinct (ids rows)
    → Elem a rows
    → Elem b rows
    → a.id ≡ b.id
    → a ≡ b
Distinct-row [] a b d ea eb e = absurd ea
Distinct-row (r ∷ rows) a b (n, d) (inl p) (inl q) e = sym p ∙ q
Distinct-row (r ∷ rows) a b (n, d) (inl p) (inr q) e =
    absurd (n (same_id rows r b (sym e ∙ ap id_of (sym p)) q))
Distinct-row (r ∷ rows) a b (n, d) (inr p) (inl q) e =
    absurd (n (same_id rows r a (e ∙ ap id_of (sym q)) p))
Distinct-row (r ∷ rows) a b (n, d) (inr p) (inr q) e = Distinct-row rows a b d p q e

-- Under distinct ids the ids that are dropped are those of the stale rows.
IsStale-row :
    (db : Tables) (i : ℕ) (keep : List ℕ) (r : Guest)
    → IsKeyed db
    → Elem r db.guests
    → Elem r.id (stale_ids db i keep)
    → IsStale i keep r
IsStale-row db i keep r k m h =
    let (q, (e, st), mq) =
      Any-take (λ q. (q.id ≡ r.id) × IsStale i keep q) db.guests
        ((IsStale-iff db i keep r.id).0 h) in
    subst (IsStale i keep) (Distinct-row db.guests q r k.distinct mq m e) st

stale_row_id :
    (db : Tables) (i : ℕ) (keep : List ℕ) (r : Guest)
    → Elem r db.guests
    → IsStale i keep r
    → Elem r.id (stale_ids db i keep)
stale_row_id db i keep r m st =
    (IsStale-iff db i keep r.id).1
      (Any-give (λ q. (q.id ≡ r.id) × IsStale i keep q) db.guests r (refl, st) m)

-- A rule whose guest row is stale.
abbrev pub IsOrphan : Tables → ℕ → List ℕ → RuleRow → Type 0
IsOrphan db i keep q = Any (λ r. (r.id ≡ q.target_id) × IsStale i keep r) db.guests

module _ (down : Statement → Bool) (db : Tables) (i : ℕ) (keep : List ℕ) where
  -- After a successful RemoveGuestsNotIn(i, keep) over rows with distinct ids: whatever is asked of a
  -- row, some guest row satisfies it exactly when one before did that is not a row of instance i with
  -- an unreported VMID; likewise for the guest access rules, of which exactly those of such rows are
  -- gone.
  pub remove_guests_not_in_exact :
      (n : ℕ) (db' : Tables)
      → IsKeyed db
      → remove_guests_not_in down db i keep ≡ (ok n, db')
      → ((P : Guest → Type 0) → Any P db'.guests ↔ Any (λ r. P r × (¬ IsStale i keep r)) db.guests)
        × ((Q : RuleRow → Type 0)
            → Any Q db'.access_rules ↔ Any (λ q. Q q × (¬ IsOrphan db i keep q)) db.access_rules)
  unfolding Kept
  remove_guests_not_in_exact n db' k h =
      let (_, dropped) = remove_dropped down db i keep n db' h in
      let stale = stale_ids db i keep in
      (
        λ P.
            let left = left_guests down P stale db db' dropped in
            (
              λ a.
                  let (r, (p, keeps), m) = Any-take _ db.guests (left.0 a) in
                  Any-give _ db.guests r (p, λ st. keeps (stale_row_id db i keep r m st)) m,
              λ a.
                  let (r, (p, fine), m) = Any-take _ db.guests a in
                  left.1
                    (Any-give _ db.guests r (p, λ st. fine (IsStale-row db i keep r k m st)) m),
            ),
        λ Q.
            let left = left_rules down Q stale db db' dropped in
            (
              λ a.
                  Any-weaken _ _ db.access_rules
                    (λ q (p, keeps). (p, λ o. keeps ((IsStale-iff db i keep q.target_id).1 o)))
                    (left.0 a),
              λ a. left.1 (
                  Any-weaken _ _ db.access_rules
                    (λ q (p, fine). (p, λ m. fine ((IsStale-iff db i keep q.target_id).0 m))) a),
            ),
      )

  -- A RemoveGuestsNotIn that reports an error has changed no table.
  pub remove_guests_not_in_atomic :
      (e : DbError)
      → (remove_guests_not_in down db i keep).0 ≡ err e
      → (remove_guests_not_in down db i keep).1 ≡ db
  unfolding remove_guests_not_in
  remove_guests_not_in_atomic e h = transact_err db _ h
