-- ===== src/Remote/Agreement.antt =====
-- What the administrator's session has of the repository.
use proxpass.Base.{
  true, [], ◌∷◌, any, ◌==◌, ◌↔◌, ◌⊎◌, Elem, Any-append, arith, ℕ, Bytes, codes, false, Option, some,
  List, Result, ok, err, ◌≡◌, refl, sym, ap, ◌∙◌, inl, inr, Bool-cases,
}
use mathlib.Core.Path.{subst}
use proxpass.Models.{Client, DefaultAccessPolicy, RuleType, client, group, fold_name, Param}
use proxpass.Db.State.{Tables, DbError, select_policy, store_policy, run}
use proxpass.Db.Named.{add_client}
use proxpass.Admin.{
  Handler, Circumstances, Reply, answered, unauthorized, forbidden, bad_request, not_found,
  conflict, failed, caller, with_body, if_done, is_conflict, if_no_clash, recorded, record_admin,
}
use proxpass.Admin.Outcome.{IsDenial, IsAdminCaller, as_admin-allowed}
use proxpass.Admin.Wire.{
  Body, client_body, to_api_client, from_api_client, to_api_default_policy, from_api_default_policy,
  given_true,
}
use proxpass.Admin.Atomic.{add_client-IsAtomic}
use proxpass.Admin.Effects.{same_but_log}
use proxpass.Admin.Rules.{policy_reply, handle_get_default_policy, handle_set_default_policy}
use proxpass.Db.Access.{get_default_policy, policy_or_zero}
use proxpass.Db.Keys.{set_default_policy}
use proxpass.Db.Guests.{exec}
use proxpass.Admin.Gate.{handle-IsDenial}
use proxpass.Admin.Clients.{named_row, handle_add_client}
use proxpass.Admin.Requests
use proxpass.Admin.Requests.{AdminRequest, handle}
use proxpass.Remote.{
  Delivery, lost_request, lost_answer, delivered, RemoteError, api_error, read_answer, send, ask,
  remote_add_client, remote_set_default_policy, remote_get_default_policy, store_edit, edit_policy,
  or_other, policy_in, client_in, received_policy, sent_policy, with_subject_added, append_unique,
}

-- It is an error.
abbrev pub IsError {ℓ} : {E : Type 0} {A : Type ℓ} → Result E A → Type 0
IsError (err e) = Unit
IsError (ok a) = ⊥

denied_answer :
    {A : Type 0} (read : Body → Option A) (r : Reply)
    → IsDenial r
    → IsError (read_answer read (some r))
unfolding read_answer
denied_answer read (unauthorized reason) p = tt
denied_answer read forbidden p = tt
denied_answer read failed p = tt
denied_answer read (answered body) p = absurd p
denied_answer read (bad_request text) p = absurd p
denied_answer read (not_found text) p = absurd p
denied_answer read conflict p = absurd p

-- The client that the repository stored, as its caller has it.
abbrev pub named : Handler → Client → ℕ → Client
named h x id = record x { id = id; name = fold_name h.lower x.name }

-- The parameters of the event that an addition is recorded with.
abbrev pub added_log : Handler → Client → ℕ → List (Bytes × Param)
added_log h x id = named_row (fold_name h.lower x.name) id

-- A remote call did what the repository's own call did.
abbrev pub Agrees :
    Handler
    → Circumstances
    → (ℕ → Client)
    → (ℕ → List (Bytes × Param))
    → Tables
    → Result DbError ℕ
    → Tables
    → Result RemoteError Client × Tables
    → Type 0
Agrees h c row params db (ok id) stored out =
    (out.0 ≡ ok (row id)) × (out.1 ≡ record_admin h c (codes "client.added") (params id) stored)
Agrees h c row params db (err e) stored out = IsError out.0 × (out.1 ≡ db)

module _ (h : Handler) (c : Circumstances) (db : Tables) where
  -- Without the administrator's credential every method that sends a request is an error and changes
  -- no table, whether the network works or not.
  pub ask-refused :
      {A : Type 0} (read : Body → Option A) (d : Delivery) (r : AdminRequest)
      → ¬ IsAdminCaller (caller h c db)
      → IsError (ask h read c d db r).0 × ((ask h read c d db r).1 ≡ db)
  unfolding ask send read_answer
  ask-refused read lost_request r n = (tt, refl)
  ask-refused read lost_answer r n =
      let (reply, p, e) = handle-IsDenial h c db r n in (tt, ap (λ o. o.1) e)
  ask-refused read delivered r n =
      let (reply, p, e) = handle-IsDenial h c db r n in
      (
        subst (λ (o : Reply × Tables). IsError (read_answer read (some o.0))) (sym e)
            (denied_answer read reply p),
        ap (λ o. o.1) e,
      )

  module _ (admin : IsAdminCaller (caller h c db)) where
    added_handled :
        (x : Client)
        → handle h c db (Requests.add_client_request (some (to_api_client x)))
          ≡ if_no_clash h.says_unique (add_client h.lower c.down db x) λ id stored.
            recorded h c
              (client_body (to_api_client (named h x id)))
              (codes "client.added")
              (named_row (fold_name h.lower x.name) id)
              stored
    unfolding handle handle_add_client with_body to_api_client from_api_client
    added_handled x = as_admin-allowed h c db _ admin

    added_parts :
        (x : Client) (done : Result DbError ℕ) (stored : Tables)
        → ((f : DbError) → done ≡ err f → stored ≡ db)
        → let out =
            if_no_clash h.says_unique
              (done, stored)
              λ id after.
                recorded h c
                  (client_body (to_api_client (named h x id)))
                  (codes "client.added")
                  (named_row (fold_name h.lower x.name) id)
                  after in
          Agrees h c
            (named h x)
            (added_log h x)
            db
            done
            stored
            (read_answer client_in (some out.0), out.1)
    unfolding if_no_clash recorded read_answer client_in or_other to_api_client from_api_client
        api_error
    added_parts x (ok id) stored same = (refl, refl)
    added_parts x (err f) stored same = elim (Bool-cases (is_conflict h.says_unique f)) [
      | inl k ↦ rw k (tt, same f refl)
      | inr k ↦ rw k (tt, same f refl)
    ]

    -- When the administrator's request arrives and its answer does: a client that is added over the
    -- API is the client that the repository adds, with its id and its folded name, and the tables are
    -- the repository's but for the log; what the repository refuses is an error, and changes nothing.
    pub remote_add_client-Agrees :
        (x : Client) (done : Result DbError ℕ) (stored : Tables)
        → add_client h.lower c.down db x ≡ (done, stored)
        → Agrees h c
            (named h x)
            (added_log h x)
            db
            done
            stored
            (remote_add_client h c delivered db x)
    unfolding remote_add_client ask send
    remote_add_client-Agrees x done stored e =
        let next : ℕ → Tables → Reply × Tables = λ id after.
          recorded h c (client_body (to_api_client (named h x id))) (codes "client.added")
            (named_row (fold_name h.lower x.name) id) after in
        subst
          (λ (o : Reply × Tables).
            Agrees h c (named h x) (added_log h x) db done stored
              (read_answer client_in (some o.0), o.1))
          (sym (added_handled x ∙ ap (λ o. if_no_clash h.says_unique o next) e))
          (added_parts x done stored (λ f q.
            ap (λ o. o.1) (sym e)
            ∙ add_client-IsAtomic db c.down h.lower x f (ap (λ o. o.0) e ∙ q)))

  set_handled :
      (p : DefaultAccessPolicy)
      → IsAdminCaller (caller h c db)
      → c.down store_policy ≡ false
      → (handle h c db (Requests.set_policy_request (some (sent_policy p)))).1.default_policy
        ≡ some (record p { node_access = false })
  unfolding handle handle_set_default_policy with_body if_done set_default_policy exec recorded
      record_admin sent_policy from_api_default_policy given_true
  set_handled p a up =
      subst (λ (o : Reply × Tables). o.1.default_policy ≡ some (record p { node_access = false }))
        (sym (as_admin-allowed h c db _ a))
        (rw (up, if_done, set_default_policy, exec)
          (same_but_log h c _ _ _ _
            (λ d. d.default_policy ≡ some (record p { node_access = false })) refl (λ log n. refl)))

  got_handled :
      (p : DefaultAccessPolicy)
      → IsAdminCaller (caller h c db)
      → c.down select_policy ≡ false
      → db.default_policy ≡ some p
      → remote_get_default_policy h c delivered db ≡ (ok (record p { node_access = false }), db)
  unfolding remote_get_default_policy ask send handle handle_get_default_policy policy_reply
      get_default_policy run policy_or_zero read_answer or_other policy_in received_policy
      to_api_default_policy
  got_handled p a up e =
      ap (λ (o : Reply × Tables). (read_answer policy_in (some o.0), o.1))
        (as_admin-allowed h c db _ a)
      ∙ rw (up, e) refl

edited :
    (k : RuleType) (id : ℕ) (p : DefaultAccessPolicy)
    → record (with_subject_added k id (record p { node_access = false })) { node_access = false }
      ≡ record (with_subject_added k id p) { node_access = false }
unfolding with_subject_added
edited client id p = refl
edited group id p = refl

-- The policy after an edit, in terms of the stored one.
edited_policy :
    (h : Handler) (c c' : Circumstances) (db : Tables) (p : DefaultAccessPolicy) (k : RuleType)
    (id : ℕ)
    → IsAdminCaller (caller h c db)
    → IsAdminCaller (caller h c' db)
    → c.down select_policy ≡ false
    → c'.down store_policy ≡ false
    → db.default_policy ≡ some p
    → (edit_policy h (c, delivered) (c', delivered) (with_subject_added k id) db).1.default_policy
      ≡ some (record (with_subject_added k id p) { node_access = false })
unfolding edit_policy store_edit remote_set_default_policy ask send
edited_policy h c c' db p k id a a' up up' e =
    let stored = λ (o : Result RemoteError DefaultAccessPolicy × Tables).
      (store_edit h c' delivered (with_subject_added k id) o).1.default_policy in
    ap stored (got_handled h c db p a up e)
    ∙ set_handled h c' db (with_subject_added k id (record p { node_access = false })) a' up'
    ∙ ap some (edited k id p)

-- The ids of one kind that a policy authorizes.
abbrev pub authorized : RuleType → DefaultAccessPolicy → List ℕ
authorized client p = p.authorized_client_ids
authorized group p = p.authorized_group_ids

any_same : (id : ℕ) (ids : List ℕ) → any (λ x. x == id) ids ≡ true → Elem id ids
any_same id [] e = cc
any_same id (x ∷ ids) e = elim (Bool-cases (x == id)) [
  | inl q ↦ inl (ground arith)
  | inr q ↦ inr (any_same id ids (ground arith))
]

appended_iff : (ids : List ℕ) (id x : ℕ) → Elem x (append_unique ids id) ↔ (Elem x ids ⊎ (id ≡ x))
unfolding append_unique
appended_iff ids id x = elim (Bool-cases (any (λ y. y == id) ids)) [
  | inl q ↦
      rw q (inl, λ h. elim h [ inl m ↦ m | inr e ↦ subst (λ y. Elem y ids) e (any_same id ids q) ])
  | inr q ↦ rw q (
    λ m. elim ((Any-append (λ y. y ≡ x) ids (id ∷ [])).0 m) [
      | inl h ↦ inl h
      | inr (inl e) ↦ inr e
      | inr (inr f) ↦ absurd f
    ],
    λ h. (Any-append (λ y. y ≡ x) ids (id ∷ [])).1 (elim h [ inl m ↦ inl m | inr e ↦ inr (inl e) ]),
  )
]

one_more : {A B C : Type 0} {k : RuleType} → (A ↔ (B ⊎ C)) → A ↔ (B ⊎ ((k ≡ k) × C))
one_more (f, g) = (
  λ a. elim (f a) [ inl b ↦ inl b | inr c ↦ inr (refl, c) ],
  λ h. elim h [ inl b ↦ g (inl b) | inr (e, c) ↦ g (inr c) ],
)

no_more : {A C : Type 0} {j k : RuleType} → ¬ (j ≡ k) → A ↔ (A ⊎ ((j ≡ k) × C))
no_more n = (inl, λ h. elim h [ inl a ↦ a | inr (e, c) ↦ absurd (n e) ])

-- One more subject of a kind is authorized, and the other kind's are as they were.
abbrev pub Authorizes : RuleType → ℕ → DefaultAccessPolicy → DefaultAccessPolicy → Type 0
Authorizes k id p q =
    (j : RuleType) (x : ℕ)
    → Elem x (authorized j q) ↔ (Elem x (authorized j p) ⊎ ((j ≡ k) × (id ≡ x)))

added-Authorizes :
    (k : RuleType) (id : ℕ) (p : DefaultAccessPolicy)
    → Authorizes k id p (record (with_subject_added k id p) { node_access = false })
unfolding with_subject_added
added-Authorizes client id p client x = one_more (appended_iff p.authorized_client_ids id x)
added-Authorizes client id p group x = no_more (λ e. cc)
added-Authorizes group id p client x = no_more (λ e. cc)
added-Authorizes group id p group x = one_more (appended_iff p.authorized_group_ids id x)

-- When a policy is stored, and both requests of the administrator's session arrive and meet no failure:
-- after an addition to the default policy the stored one authorizes the subject and those that it
-- authorized before and nobody else, and gives no access to the nodes, whether it did before or not.
pub edit_policy-forgets :
    (h : Handler) (c c' : Circumstances) (db : Tables) (p : DefaultAccessPolicy) (k : RuleType)
    (id : ℕ)
    → IsAdminCaller (caller h c db)
    → IsAdminCaller (caller h c' db)
    → c.down select_policy ≡ false
    → c'.down store_policy ≡ false
    → db.default_policy ≡ some p
    → (q : DefaultAccessPolicy) × ((edit_policy h
          (c, delivered)
          (c', delivered)
          (with_subject_added k id)
          db).1.default_policy
        ≡ some q)
      × Authorizes k id p q
      × (q.node_access ≡ false)
edit_policy-forgets h c c' db p k id a a' up up' e = (
  record (with_subject_added k id p) { node_access = false },
  edited_policy h c c' db p k id a a' up up' e,
  added-Authorizes k id p,
  refl,
)
