-- ===== src/Admin/Rules.antt =====
-- internal/api/adminhandlers.go: granting and revoking access, and the default policy.
use proxpass.Base.{
  ℕ, Bytes, bytes_eq, codes, Option, none, some, List, [], ◌∷◌, Result, ok, err, if◌then◌else◌,
  length,
}
use proxpass.Models.{DefaultAccessPolicy, RuleType, client, group, Param, text, number, numbers}
use proxpass.Db.State.{Tables, DbError}
use proxpass.Db.Access.{get_default_policy}
use proxpass.Db.Rules.{grant_access, grant_instance_access, revoke_access, revoke_instance_access}
use proxpass.Db.Keys.{set_default_policy}
use proxpass.Admin.{
  Handler, Circumstances, Reply, answered, bad_request, failed, with_body, if_done, as_admin,
  recorded,
}
use proxpass.Admin.Wire.{
  AccessChange, AdminPolicy, no_content, policy_body, to_api_default_policy,
  from_api_default_policy,
}

abbrev pub unknown_subject : Bytes
unknown_subject = codes "subject kind must be client or group"

-- The switch on the subject's kind.
unfoldable pub rule_type_of : Bytes → Option RuleType
rule_type_of kind =
    if bytes_eq kind (codes "client")
    then some client
    else if bytes_eq kind (codes "group")
    then some group
    else none

unfoldable pub with_subject :
    Option RuleType → Tables → (RuleType → Reply × Tables) → Reply × Tables
with_subject none db work = (bad_request unknown_subject, db)
with_subject (some kind) db work = work kind

-- The parameters of an event about a subject's access.
unfoldable pub access_params : Bytes → AccessChange → List (Bytes × Param)
access_params targets change =
    (codes "subject_kind", text change.subject.kind)
    ∷ (codes "subject_id", number change.subject.id)
    ∷ (targets, numbers change.target_ids)
    ∷ []

unfoldable pub first_error :
    Result DbError (Unit {0}) × Tables
    → Result DbError (Unit {0}) × Tables
    → Result DbError (Unit {0}) × Tables
first_error (err e, db) rest = (err e, db)
first_error (ok _, db) rest = rest

-- The loop of a revocation: it ends at the first failure, and what it revoked stays revoked.
unfoldable pub revoke_each :
    (Tables → ℕ → Result DbError (Unit {0}) × Tables)
    → Tables
    → List ℕ
    → Result DbError (Unit {0}) × Tables
revoke_each revoke db [] = (ok tt, db)
revoke_each revoke db (t ∷ ts) =
    let done = revoke db t in let rest = revoke_each revoke done.1 ts in first_error done rest

unfoldable pub policy_reply : Result DbError DefaultAccessPolicy → Reply
policy_reply (err e) = failed
policy_reply (ok p) = answered (policy_body (to_api_default_policy p))

module _ (h : Handler) (c : Circumstances) (db : Tables) where
  unfoldable pub handle_grant_access : Option AccessChange → Reply × Tables
  handle_grant_access body = as_admin h c db (
      with_body body db λ change. with_subject (rule_type_of change.subject.kind) db λ kind.
        if_done (grant_access c.down db kind change.subject.id change.target_ids) λ done stored.
          recorded h c no_content (codes "access.granted")
            (access_params (codes "guest_ids") change) stored)

  unfoldable pub handle_revoke_access : Option AccessChange → Reply × Tables
  handle_revoke_access body = as_admin h c db (
      with_body body db λ change. with_subject (rule_type_of change.subject.kind) db λ kind.
        if_done
          (revoke_each (λ d t. revoke_access c.down d kind change.subject.id t) db
            change.target_ids)
          λ done stored.
            recorded h c no_content (codes "access.revoked")
              (access_params (codes "guest_ids") change) stored)

  unfoldable pub handle_grant_instance_access : Option AccessChange → Reply × Tables
  handle_grant_instance_access body = as_admin h c db (
      with_body body db λ change. with_subject (rule_type_of change.subject.kind) db λ kind.
        if_done (grant_instance_access c.down db kind change.subject.id change.target_ids)
          λ done stored.
            recorded h c no_content (codes "instance_access.granted")
              (access_params (codes "instance_ids") change) stored)

  unfoldable pub handle_revoke_instance_access : Option AccessChange → Reply × Tables
  handle_revoke_instance_access body = as_admin h c db (
      with_body body db λ change. with_subject (rule_type_of change.subject.kind) db λ kind.
        if_done
          (revoke_each (λ d t. revoke_instance_access c.down d kind change.subject.id t) db
            change.target_ids)
          λ done stored.
            recorded h c no_content (codes "instance_access.revoked")
              (access_params (codes "instance_ids") change) stored)

  unfoldable pub handle_get_default_policy : Reply × Tables
  handle_get_default_policy = as_admin h c db (policy_reply (get_default_policy c.down db), db)

  unfoldable pub handle_set_default_policy : Option AdminPolicy → Reply × Tables
  handle_set_default_policy body = as_admin h c db (
      with_body body db λ sent.
        let policy = from_api_default_policy sent in
        if_done (set_default_policy c.down db policy) λ done stored.
          recorded h c (policy_body (to_api_default_policy policy)) (codes "policy.set")
            ((codes "client_count", number (length policy.authorized_client_ids))
              ∷ (codes "group_count", number (length policy.authorized_group_ids))
              ∷ [])
            stored)
