-- ===== src/Session/Connect.antt =====
-- Who is handed credentials: only a caller that may reach the target, and exactly for what the lists
-- show.
use mathlib.Core.Path.{subst}
use proxpass.Base.{
  ℕ, Bytes, Bool, true, false, Option, none, some, List, Result, ok, ◌==◌, find, Any, ◌≡◌, ◌↔◌, inl,
  inr, arith, Option-cases,
}
use proxpass.Models.{ProxmoxInstance, Guest, SessionIdentity}
use proxpass.Db.State.{Tables, DbError, Statement, MapOrder, run}
use proxpass.Db.Access.Laws.{Decides}
use proxpass.Db.Guests.{get_guest_by_id}
use proxpass.Db.Listing.{list_proxmox_instances}
use proxpass.Session.{Answer, answered, forbidden, CallerError}
use proxpass.Session.Data.{
  WireGuest, ConnectInfo, guest_response, instance_credentials, go_on, or_forbidden, or_failed,
  found_guest, may_reach, accessible_guests, find_instance, list_session_guests, connect_hosted,
  connect_allowed, connect_guest, connect_session_guest,
}
use proxpass.Session.Shown.{Refused, IsShown, wire-Any, reached_here, Refused-nowhere}
use proxpass.Session.Reach.{went_on, called, MayReach, may_reach-Decides, guests-Any}

Decides_true : (P : Type 0) (r : Result DbError Bool) → Decides P r → r ≡ ok true → P
Decides_true P r d e = subst (Decides P) e d

Decides-false : (P : Type 0) (r : Result DbError Bool) → Decides P r → r ≡ ok false → ¬ P
Decides-false P r d e = subst (Decides P) e d

-- The caller may reach the guest that the id names, and is given that guest and the credentials of its
-- instance.
pub record Handed (key : Option Bytes) (db : Tables) (who : SessionIdentity) (id : ℕ)
    (info : ConnectInfo) (g : Guest) (inst : ProxmoxInstance) : Type 0 where
  pub named : find (λ r. r.id == id) db.guests ≡ some g
  pub reach : MayReach db who g.id
  pub hosted : find (λ i. i.id == g.instance_id) db.instances ≡ some inst
  pub shown : info.guest ≡ guest_response g inst.name
  pub given : instance_credentials key inst ≡ some info.target

module _ (down : Statement → Bool) (o : MapOrder) (db : Tables) (key : Option Bytes) where
  found_row :
      (id : ℕ) (g : Option Guest)
      → found_guest (get_guest_by_id down db id) ≡ ok g
      → find (λ r. r.id == id) db.guests ≡ g
  unfolding found_guest get_guest_by_id run
  found_row id g e = elim (Option-cases (find (λ r. r.id == id) db.guests)) [
    | inl n ↦ ground arith
    | inr (r, q) ↦ ground arith
  ]

  found_instance :
      (id : ℕ) (i : Option ProxmoxInstance)
      → find_instance down db id ≡ ok i
      → find (λ r. r.id == id) db.instances ≡ i
  unfolding find_instance list_proxmox_instances run
  found_instance id i e = ground arith

  module _ (who : SessionIdentity) (id : ℕ) (g : Guest)
      (named : find (λ r. r.id == id) db.guests ≡ some g) where
    hosted-Handed :
        (info : ConnectInfo) (target : Option ProxmoxInstance)
        → MayReach db who g.id
        → find (λ i. i.id == g.instance_id) db.instances ≡ target
        → connect_hosted key g target ≡ answered info
        → (inst : ProxmoxInstance) × Handed key db who id info g inst
    unfolding connect_hosted or_failed
    hosted-Handed info none m h e = cc
    hosted-Handed info (some inst) m h e = elim (Option-cases (instance_credentials key inst)) [
      | inl n ↦ absurd (ground arith)
      | inr (c, q) ↦ (
        inst,
        record { named = named; reach = m; hosted = h; shown = ground arith; given = ground arith },
      )
    ]

    allowed-Handed :
        (info : ConnectInfo) (allowed : Bool)
        → may_reach down o db who g.id ≡ ok allowed
        → connect_allowed down o db key g allowed ≡ answered info
        → (inst : ProxmoxInstance) × Handed key db who id info g inst
    unfolding connect_allowed
    allowed-Handed info false m e = cc
    allowed-Handed info true m e =
        let (target, e1, e2) =
          went_on (find_instance down db g.instance_id) (connect_hosted key g) (answered info)
            (λ q. cc) e in
        hosted-Handed info target (Decides_true _ _ (may_reach-Decides down o db who g.id) m)
          (found_instance g.instance_id target e1) e2

    hosted_not_forbidden :
        (target : Option ProxmoxInstance) → ¬ (connect_hosted key g target ≡ forbidden)
    unfolding connect_hosted or_failed
    hosted_not_forbidden none e = cc
    hosted_not_forbidden (some inst) e = elim (Option-cases (instance_credentials key inst)) [
      | inl n ↦ ground arith
      | inr (c, q) ↦ ground arith
    ]

    forbidden-Refused :
        (allowed : Bool)
        → may_reach down o db who g.id ≡ ok allowed
        → connect_allowed down o db key g allowed ≡ forbidden
        → ¬ MayReach db who g.id
    unfolding connect_allowed
    forbidden-Refused false m e = Decides-false _ _ (may_reach-Decides down o db who g.id) m
    forbidden-Refused true m e =
        let (target, e1, e2) =
          went_on (find_instance down db g.instance_id) (connect_hosted key g) forbidden (λ q. cc)
            e in
        absurd (hosted_not_forbidden target e2)

  row-Handed :
      (who : SessionIdentity) (id : ℕ) (row : Option Guest) (info : ConnectInfo)
      → find (λ r. r.id == id) db.guests ≡ row
      → or_forbidden row (connect_guest down o db key who) ≡ answered info
      → (g : Guest) × (inst : ProxmoxInstance) × Handed key db who id info g inst
  unfolding or_forbidden connect_guest
  row-Handed who id none info h e = cc
  row-Handed who id (some g) info h e =
      let (allowed, m, e1) =
        went_on (may_reach down o db who g.id) (connect_allowed down o db key g) (answered info)
          (λ q. cc) e in
      let (inst, done) = allowed-Handed who id g h info allowed m e1 in (g, inst, done)

  row-Refused :
      (who : SessionIdentity) (id : ℕ) (row : Option Guest)
      → find (λ r. r.id == id) db.guests ≡ row
      → or_forbidden row (connect_guest down o db key who) ≡ forbidden
      → Refused db who id
  unfolding or_forbidden connect_guest
  row-Refused who id none h e = inl h
  row-Refused who id (some g) h e =
      let (allowed, m, e1) =
        went_on (may_reach down o db who g.id) (connect_allowed down o db key g) forbidden (λ q. cc)
          e in
      inr (g, h, forbidden-Refused who id g h allowed m e1)

  -- What ConnectSessionGuest does for a known caller.
  abbrev for_guest : ℕ → SessionIdentity → Answer ConnectInfo
  for_guest id who =
      go_on (found_guest (get_guest_by_id down db id))
        λ row. or_forbidden row (connect_guest down o db key who)

  module _ (caller : Result CallerError SessionIdentity) (id : ℕ) where
    -- Credentials for a guest are handed out only to a caller that is known and may reach that guest,
    -- being the administrator or by the access rules, and they are those of the guest's instance.
    pub connect_session_guest-Handed :
        (info : ConnectInfo)
        → connect_session_guest down o db key caller id ≡ answered info
        → (who : SessionIdentity) × (caller ≡ ok who)
          × ((g : Guest) × (inst : ProxmoxInstance) × Handed key db who id info g inst)
    unfolding connect_session_guest
    connect_session_guest-Handed info e =
        let (who, c, e1) = called caller (for_guest id) (answered info) (λ q. cc) (λ r q. cc) e in
        let (row, e2, e3) =
          went_on (found_guest (get_guest_by_id down db id))
            (λ row. or_forbidden row (connect_guest down o db key who)) (answered info) (λ q. cc)
            e1 in
        (who, c, row-Handed who id row info (found_row id row e2) e3)

    connect_session_guest-Refused :
        connect_session_guest down o db key caller id ≡ forbidden
        → (who : SessionIdentity) × (caller ≡ ok who) × Refused db who id
    unfolding connect_session_guest
    connect_session_guest-Refused e =
        let (who, c, e1) = called caller (for_guest id) forbidden (λ q. cc) (λ r q. cc) e in
        let (row, e2, e3) =
          went_on (found_guest (get_guest_by_id down db id))
            (λ row. or_forbidden row (connect_guest down o db key who)) forbidden (λ q. cc) e1 in
        (who, c, row-Refused who id row (found_row id row e2) e3)

    IsShown-Any :
        (shown : List WireGuest)
        → list_session_guests down o db caller ≡ answered shown
        → (who : SessionIdentity) × (caller ≡ ok who)
          × (IsShown id shown ↔ Any (λ g. (g.id ≡ id) × MayReach db who g.id) db.guests)
    unfolding list_session_guests guest_response
    IsShown-Any shown e =
        let (who, c, e1) = called caller _ (answered shown) (λ q. cc) (λ r q. cc) e in
        let (guests, e2, e3) =
          went_on (accessible_guests down o db who) _ (answered shown) (λ q. cc) e1 in
        let (insts, e4, e5) =
          went_on (list_proxmox_instances down db) _ (answered shown) (λ q. cc) e3 in
        let wired = wire-Any id insts guests shown e5 in
        let seen = guests-Any down o db who (λ g. g.id ≡ id) guests e2 in
        (who, c, (λ m. seen.0 (wired.0 m), λ m. wired.1 (seen.1 m)))

    -- A guest id is answered with credentials only if the list of guests shows it, and with "no such
    -- guest" only if the list does not, whenever the list is answered for the same caller.
    pub listed_connects :
        (shown : List WireGuest)
        → list_session_guests down o db caller ≡ answered shown
        → ((info : ConnectInfo)
            → connect_session_guest down o db key caller id ≡ answered info
            → IsShown id shown)
          × (connect_session_guest down o db key caller id ≡ forbidden → ¬ IsShown id shown)
    listed_connects shown e =
        let (who, c, seen) = IsShown-Any shown e in
        (
          λ info h.
              let (w, c', (g, inst, k)) = connect_session_guest-Handed info h in
              let same : w ≡ who = ground arith in
              seen.1 (reached_here db w who id g same k.named k.reach),
          λ h m.
              let (w, c', r) = connect_session_guest-Refused h in
              let same : w ≡ who = ground arith in Refused-nowhere db w who id same r (seen.0 m),
        )
