-- ===== src/Admin/Effects.antt =====
-- What a granted or a removed thing means for the access checks.
use proxpass.Base.{
  ℕ, Bytes, Bool, true, false, some, List, Result, ok, err, Elem, ◌≡◌, refl, ap, inl, inr,
  Bool-cases,
}
use proxpass.Models.{RuleType, client, Param}
use proxpass.Db.State.{Tables, DbError, Statement, MapOrder, insert_event}
use proxpass.Db.Access.{has_access}
use proxpass.Db.Access.Spec.{HasRule, direct}
use proxpass.Db.Access.Laws.{Decides}
use proxpass.Db.Access.Decision.{has_access-Decides, Answers, access-Answers}
use proxpass.Db.Rules.{grant_access}
use proxpass.Db.Rules.Exact.{grant_access_exact}
use proxpass.Db.Guests.{exec, remove_proxmox_instance}
use proxpass.Db.Guests.Removal.{IsRemoved, remove_proxmox_instance_exact}
use proxpass.Db.Activity.{add_activity_event}
use proxpass.Admin.{
  Handler, Circumstances, Reply, answered, unauthorized, forbidden, bad_request, not_found,
  conflict, failed, with_body, activity_enabled, record_event, record_admin, recorded,
}
use proxpass.Admin.Outcome.{IsDenial, as_admin_ends, with_row_ends, if_done_ends}
use proxpass.Admin.Wire.{AccessChange}
use proxpass.Admin.Rules.{rule_type_of, with_subject, handle_grant_access}
use proxpass.Admin.Instances.{handle_remove_instance}
use proxpass.Admin.Ends.{IsAnswered}

-- Recording an event changes the log and nothing else.
pub same_but_log {ℓ} :
    (h : Handler) (c : Circumstances) (event actor : Bytes) (params : List (Bytes × Param))
    (d : Tables) (P : Tables → Type ℓ)
    → P d
    → ((log : _) (n : ℕ) → P (record d { activity_log = log; next_event_id = n }))
    → P (record_event h c event actor params d)
unfolding record_event add_activity_event exec
same_but_log h c event actor params d P p q = elim (Bool-cases (activity_enabled h c)) [
  | inl e ↦ elim (Bool-cases (c.late_down (insert_event event))) [
    | inl f ↦ rw (e, f, record_event, add_activity_event, exec) p
    | inr f ↦ rw (e, f, record_event, add_activity_event, exec) (q _ _)
  ]
  | inr e ↦ rw (e, record_event) p
]

not-IsAnswered : (d : Reply) → IsDenial d → ¬ IsAnswered d
not-IsAnswered (unauthorized r) p a = a
not-IsAnswered forbidden p a = a
not-IsAnswered failed p a = a
not-IsAnswered (answered _) p a = p
not-IsAnswered (bad_request _) p a = p
not-IsAnswered (not_found _) p a = p
not-IsAnswered conflict p a = p

decided : (G : Type 0) (r : Result DbError Bool) → G → Decides G r → Answers r → r ≡ ok true
decided G (ok true) g d a = refl
decided G (ok false) g d a = absurd (d g)
decided G (err e) g d (b, q) = cc

module _ (h : Handler) (c : Circumstances) (db : Tables) where
  granted_rule :
      (change : AccessChange) (k : RuleType) (t : ℕ)
      → rule_type_of change.subject.kind ≡ some k
      → Elem t change.target_ids
      → IsAnswered (handle_grant_access h c db (some change)).0
      → HasRule (handle_grant_access h c db (some change)).1.access_rules k change.subject.id t
  unfolding handle_grant_access with_body with_subject recorded record_admin
  granted_rule change k t e m =
      let Q : Reply × Tables → Type 0 =
        λ out. IsAnswered out.0 → HasRule out.1.access_rules k change.subject.id t in
      as_admin_ends Q db h c _ (λ d p a. absurd (not-IsAnswered d p a))
        (rw (e, with_subject)
          (if_done_ends Q (grant_access c.down db k change.subject.id change.target_ids) _
            (λ f q a. absurd a)
            λ u q a.
              let stored = (grant_access c.down db k change.subject.id change.target_ids).1 in
              let exact =
                grant_access_exact c.down db stored k change.subject.id change.target_ids
                  (ap (λ r. (r, stored)) q) k change.subject.id t in
              let rule = exact.1 (inr (refl, refl, m)) in
              same_but_log h c _ _ _ stored
                (λ (d : Tables). HasRule d.access_rules k change.subject.id t) rule
                (λ log n. rule)))

  -- After a grant to a client that was answered with success, the access check lets that client reach
  -- every guest of the grant, whichever way the database's maps are visited, unless a statement fails.
  pub handle_grant_access-reaches :
      (change : AccessChange) (t : ℕ) (down : Statement → Bool) (o : MapOrder)
      → rule_type_of change.subject.kind ≡ some client
      → Elem t change.target_ids
      → IsAnswered (handle_grant_access h c db (some change)).0
      → ((st : Statement) → down st ≡ false)
      → has_access down o (handle_grant_access h c db (some change)).1 change.subject.id t ≡ ok true
  handle_grant_access-reaches change t down o e m a up =
      let after = (handle_grant_access h c db (some change)).1 in
      decided _ _ (direct (granted_rule change client t e m a))
        (has_access-Decides down o after change.subject.id t)
        (access-Answers down up o after change.subject.id t).0

  -- After a removal of an instance that was answered with success, whatever is asked of a row: some
  -- guest, some rule on a guest, some rule on a node or some instance satisfies it exactly when one
  -- before did that is no guest of the instance, no rule on such a guest, no rule on the instance and
  -- not the instance. Every other table is as it was, but for the log.
  pub handle_remove_instance-IsRemoved :
      (id : ℕ)
      → IsAnswered (handle_remove_instance h c db id).0
      → IsRemoved id db (handle_remove_instance h c db id).1
  unfolding handle_remove_instance recorded record_admin
  handle_remove_instance-IsRemoved id =
      let Q : Reply × Tables → Type 1 = λ out. IsAnswered out.0 → IsRemoved id db out.1 in
      as_admin_ends Q db h c _ (λ d p a. absurd (not-IsAnswered d p a))
        (with_row_ends Q db _ _ _ (λ a. absurd a) (λ a. absurd a)
          λ row.
            if_done_ends Q (remove_proxmox_instance c.down db id) _ (λ f q a. absurd a)
              λ u q a.
                let stored = (remove_proxmox_instance c.down db id).1 in
                let removed =
                  remove_proxmox_instance_exact c.down id db stored (ap (λ r. (r, stored)) q) in
                same_but_log h c _ _ _ stored (IsRemoved id db) removed (λ log n. record {
                  guests_left = removed.guests_left;
                  rules_left = removed.rules_left;
                  node_rules_left = removed.node_rules_left;
                  instances_left = removed.instances_left;
                  apart_left = removed.apart_left;
                }))
