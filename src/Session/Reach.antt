-- ===== src/Session/Reach.antt =====
-- What the lists of guests and nodes show, against the specification of the access rules.
use mathlib.Core.Path.{subst}
use proxpass.Base.{
  ℕ, Bool, true, false, List, [], ◌∷◌, Result, ok, err, parts_ok, if◌then◌else◌, filter, Any,
  Any-filter_iff, Any-weaken, ◌≡◌, ◌↔◌, ◌⊎◌, refl, inl, inr, arith, Bool-cases,
}
use proxpass.Models.{ProxmoxInstance, Guest, SessionIdentity}
use proxpass.Db.State.{
  Tables, DbError, storage, no_rows, no_such_token, unique_violation, already_exists, Statement,
  MapOrder, select_all_guests, select_instances, run,
}
use proxpass.Db.Access.{has_access, has_instance_access}
use proxpass.Db.Access.Spec.{MayReachGuest, MayReachNode}
use proxpass.Db.Access.Laws.{Decides}
use proxpass.Db.Access.Decision.{has_access-Decides, has_instance_access-Decides}
use proxpass.Db.Listing.{list_guests, list_proxmox_instances}
use proxpass.Session.{
  Answer, unauthorized, failed, CallerError, no_credential, repository, as_caller, auth_failure,
  auth_failure_reason,
}
use proxpass.Session.Data.{
  go_on, reachable_rows, accessible, may_reach, may_reach_instance, accessible_guests,
  accessible_instances, has_ssh_host,
}

-- An answer that is not a 500 went on.
pub went_on {κ} :
    {A : Type 0} {B : Type κ} (r : Result DbError A) (work : A → Answer B) (x : Answer B)
    → ¬ (failed ≡ x)
    → go_on r work ≡ x
    → (a : A) × (r ≡ ok a) × (work a ≡ x)
unfolding go_on
went_on (err f) work x n e = absurd (n e)
went_on (ok a) work x n e = (a, refl, e)

-- An answer that is neither a 500 nor a 401 is the work's.
pub called {κ} :
    {B : Type κ} (caller : Result CallerError SessionIdentity) (work : SessionIdentity → Answer B)
    (x : Answer B)
    → ¬ (failed ≡ x)
    → ((r : _) → ¬ (unauthorized r ≡ x))
    → as_caller caller work ≡ x
    → (who : SessionIdentity) × (caller ≡ ok who) × (work who ≡ x)
unfolding as_caller auth_failure auth_failure_reason
called (ok who) work x n u e = (who, refl, e)
called (err no_credential) work x n u e = absurd (u _ e)
called (err (repository no_such_token)) work x n u e = absurd (u _ e)
called (err (repository no_rows)) work x n u e = absurd (n e)
called (err (repository unique_violation)) work x n u e = absurd (n e)
called (err (repository already_exists)) work x n u e = absurd (n e)
called (err (repository storage)) work x n u e = absurd (n e)

-- What the access rules say, the administrator reaching everything.
abbrev pub MayReach : Tables → SessionIdentity → ℕ → Type 0
MayReach db who id = (who.is_admin ≡ true) ⊎ MayReachGuest db who.client_id id

abbrev pub MayReachInstance : Tables → SessionIdentity → ℕ → Type 0
MayReachInstance db who id = (who.is_admin ≡ true) ⊎ MayReachNode db who.client_id id

admin_Decides :
    (a : Bool) (P : Type 0) (r : Result DbError Bool)
    → Decides P r
    → Decides ((a ≡ true) ⊎ P) (if a then ok true else r)
admin_Decides true P r d = inl refl
admin_Decides false P (ok true) d = inr d
admin_Decides false P (ok false) d = λ h. elim h [ inl e ↦ cc | inr p ↦ d p ]
admin_Decides false P (err e) d = tt

module _ (down : Statement → Bool) (o : MapOrder) (db : Tables) (who : SessionIdentity)
    (id : ℕ) where
  pub may_reach-Decides : Decides (MayReach db who id) (may_reach down o db who id)
  unfolding may_reach
  may_reach-Decides = admin_Decides who.is_admin _ _ (has_access-Decides down o db who.client_id id)

  pub may_reach_instance-Decides :
      Decides (MayReachInstance db who id) (may_reach_instance down o db who id)
  unfolding may_reach_instance
  may_reach_instance-Decides =
      admin_Decides who.is_admin _ _ (has_instance_access-Decides down o db who.client_id id)

module _ {T : Type 0} (id : T → ℕ) (reach : ℕ → Result DbError Bool) (P : ℕ → Type 0)
    (decides : (n : ℕ) → Decides (P n) (reach n)) (Q : T → Type 0) where
  kept :
      (allowed : Bool) (row : T) (rest rows : List T)
      → Decides (P (id row)) (ok allowed)
      → Any Q rest ↔ Any (λ r. Q r × P (id r)) rows
      → Any Q (if allowed then row ∷ rest else rest) ↔ Any (λ r. Q r × P (id r)) (row ∷ rows)
  kept true row rest rows d more = ground arith
  kept false row rest rows d more = ground arith

  -- The loop keeps exactly the rows that may be reached.
  reachable-Any :
      (rows out : List T)
      → reachable_rows id reach rows ≡ ok out
      → Any Q out ↔ Any (λ r. Q r × P (id r)) rows
  unfolding reachable_rows
  reachable-Any [] out e =
      let same : [] ≡ out = ground arith in subst (λ l. Any Q l ↔ ⊥) same (λ h. h, λ h. h)
  reachable-Any (row ∷ rows) out e =
      let (allowed, e1, f) = parts_ok (reach (id row)) _ e in
      let (rest, e2, g) = parts_ok (reachable_rows id reach rows) _ f in
      let d : Decides (P (id row)) (ok allowed) =
        subst (Decides (P (id row))) e1 (decides (id row)) in
      let more = reachable-Any rows rest e2 in
      let same : (if allowed then row ∷ rest else rest) ≡ out = ground arith in
      subst (λ l. Any Q l ↔ Any (λ r. Q r × P (id r)) (row ∷ rows)) same
        (kept allowed row rest rows d more)

-- The administrator reaches every row.
everywhere :
    {T : Type 0} (a : Bool) (P Q : T → Type 0) (rows : List T)
    → a ≡ true
    → Any Q rows ↔ Any (λ r. Q r × ((a ≡ true) ⊎ P r)) rows
everywhere a P Q rows e =
    (Any-weaken _ _ rows (λ r q. (q, inl e)), Any-weaken _ _ rows (λ r h. h.0))

nowhere_else :
    {T : Type 0} (a : Bool) (P Q : T → Type 0) (rows : List T)
    → a ≡ false
    → Any (λ r. Q r × P r) rows ↔ Any (λ r. Q r × ((a ≡ true) ⊎ P r)) rows
nowhere_else a P Q rows e = (
  Any-weaken _ _ rows (λ r h. (h.0, inr h.1)),
  Any-weaken _ _ rows (λ r h. (h.0, elim h.1 [ inl t ↦ cc | inr p ↦ p ])),
)

module _ {T : Type 0} (id : T → ℕ) (reach : ℕ → ℕ → Result DbError Bool) (P : ℕ → Type 0)
    (who : SessionIdentity) (decides : (n : ℕ) → Decides (P n) (reach who.client_id n))
    (Q : T → Type 0) where
  accessible-Any :
      (rows : Result DbError (List T)) (list out : List T)
      → rows ≡ ok list
      → accessible who rows id reach ≡ ok out
      → Any Q out ↔ Any (λ r. Q r × ((who.is_admin ≡ true) ⊎ P (id r))) list
  unfolding accessible
  accessible-Any rows list out same e = elim (Bool-cases who.is_admin) [
    | inl a ↦
        let all : list ≡ out = ground arith in
        subst (λ l. Any Q l ↔ Any (λ r. Q r × ((who.is_admin ≡ true) ⊎ P (id r))) list) all
          (everywhere who.is_admin (λ r. P (id r)) Q list a)
    | inr a ↦
        let (f, g) = reachable-Any id (reach who.client_id) P decides Q list out (ground arith) in
        let (h, k) = nowhere_else who.is_admin (λ r. P (id r)) Q list a in
        (λ m. h (f m), λ m. g (k m))
  ]

module _ (down : Statement → Bool) (o : MapOrder) (db : Tables) where
  -- What the guest list shows are the guests that the caller may reach.
  pub guests-Any :
      (who : SessionIdentity) (Q : Guest → Type 0) (out : List Guest)
      → accessible_guests down o db who ≡ ok out
      → Any Q out ↔ Any (λ g. Q g × MayReach db who g.id) db.guests
  unfolding accessible_guests accessible list_guests run
  guests-Any who Q out e = elim (Bool-cases (down select_all_guests)) [
    | inl t ↦ absurd (ground arith)
    | inr f ↦
        accessible-Any (λ (g : Guest). g.id) (has_access down o db) (MayReachGuest db who.client_id)
          who (has_access-Decides down o db who.client_id) Q (list_guests down db) db.guests out
          (rw f refl) e
  ]

  pub nodes-Any :
      (who : SessionIdentity) (Q : ProxmoxInstance → Type 0) (out : List ProxmoxInstance)
      → accessible_instances down o db who ≡ ok out
      → Any Q out
        ↔ Any (λ i. Q i × MayReachInstance db who i.id × (has_ssh_host i ≡ true)) db.instances
  unfolding accessible_instances accessible list_proxmox_instances run
  nodes-Any who Q out e = elim (Bool-cases (down select_instances)) [
    | inl t ↦ absurd (ground arith)
    | inr f ↦
        let (granted, e1, g) =
          parts_ok
            (accessible who (list_proxmox_instances down db) (λ (i : ProxmoxInstance). i.id)
              (has_instance_access down o db))
            _ e in
        let all =
          accessible-Any (λ (i : ProxmoxInstance). i.id) (has_instance_access down o db)
            (MayReachNode db who.client_id) who
            (has_instance_access-Decides down o db who.client_id)
            (λ i. Q i × (has_ssh_host i ≡ true)) (list_proxmox_instances down db) db.instances
            granted (rw f refl) e1 in
        let hosts = Any-filter_iff has_ssh_host Q granted in
        let same : filter has_ssh_host granted ≡ out = ground arith in
        subst
          (λ l.
            Any Q l
            ↔ Any (λ i. Q i × MayReachInstance db who i.id × (has_ssh_host i ≡ true)) db.instances)
          same
          (
            λ m. Any-weaken _ _ db.instances (λ i h. (h.0.0, h.1, h.0.1)) (all.0 (hosts.0 m)),
            λ m. hosts.1 (all.1 (Any-weaken _ _ db.instances (λ i h. ((h.0, h.2), h.1)) m)),
          )
  ]
