-- ===== src/Session/Nodes.antt =====
-- Who is handed the credentials of a node: only a caller that the node rules let reach it.
use mathlib.Core.Path.{subst}
use proxpass.Base.{
  ℕ, Bytes, Bool, true, false, Option, none, some, List, map, Result, ok, ◌==◌, find, Any, Any-map,
  ◌≡◌, ◌↔◌, inl, inr, arith, Bool-cases, Option-cases,
}
use proxpass.Models.{ProxmoxInstance, SessionIdentity}
use proxpass.Db.State.{Tables, Statement, MapOrder, run}
use proxpass.Db.Access.Laws.{Decides}
use proxpass.Db.Listing.{list_proxmox_instances}
use proxpass.Session.{Answer, answered, CallerError}
use proxpass.Session.Data.{
  WireInstance, InstanceCredentials, instance_response, instance_credentials, go_on, or_forbidden,
  or_failed, may_reach_instance, accessible_instances, has_ssh_host, find_instance,
  list_session_instances, open_node, connect_node, connect_session_node,
}
use proxpass.Session.Reach.{
  went_on, called, MayReachInstance, may_reach_instance-Decides, nodes-Any,
}

-- The caller may reach the node, which has an SSH host, and is given its credentials.
pub record NodeHanded (key : Option Bytes) (db : Tables) (who : SessionIdentity) (id : ℕ)
    (given : InstanceCredentials) (inst : ProxmoxInstance) : Type 0 where
  pub named : find (λ i. i.id == id) db.instances ≡ some inst
  pub reach : MayReachInstance db who inst.id
  pub hosted : has_ssh_host inst ≡ true
  pub credentials : instance_credentials key inst ≡ some given

module _ (down : Statement → Bool) (o : MapOrder) (db : Tables) (key : Option Bytes) where
  module _ (who : SessionIdentity) (id : ℕ) (inst : ProxmoxInstance)
      (named : find (λ i. i.id == id) db.instances ≡ some inst) where
    open-NodeHanded :
        (given : InstanceCredentials) (allowed : Bool)
        → may_reach_instance down o db who inst.id ≡ ok allowed
        → open_node key inst allowed ≡ answered given
        → NodeHanded key db who id given inst
    unfolding open_node or_failed
    open-NodeHanded given false m e = cc
    open-NodeHanded given true m e = elim (Bool-cases (has_ssh_host inst)) [
      | inr n ↦ absurd (ground arith)
      | inl h ↦ elim (Option-cases (instance_credentials key inst)) [
        | inl n ↦ absurd (ground arith)
        | inr (c, q) ↦ record {
          named = named;
          reach =
              subst (Decides (MayReachInstance db who inst.id)) m
                (may_reach_instance-Decides down o db who inst.id);
          hosted = h;
          credentials = ground arith;
        }
      ]
    ]

  row-NodeHanded :
      (who : SessionIdentity) (id : ℕ) (row : Option ProxmoxInstance) (given : InstanceCredentials)
      → find (λ i. i.id == id) db.instances ≡ row
      → or_forbidden row (connect_node down o db key who) ≡ answered given
      → (inst : ProxmoxInstance) × NodeHanded key db who id given inst
  unfolding or_forbidden connect_node
  row-NodeHanded who id none given h e = cc
  row-NodeHanded who id (some inst) given h e =
      let (allowed, m, e1) =
        went_on (may_reach_instance down o db who inst.id) (open_node key inst) (answered given)
          (λ q. cc) e in
      (inst, open-NodeHanded who id inst h given allowed m e1)

  found_row :
      (id : ℕ) (row : Option ProxmoxInstance)
      → find_instance down db id ≡ ok row
      → find (λ i. i.id == id) db.instances ≡ row
  unfolding find_instance list_proxmox_instances run
  found_row id row e = ground arith

  -- What ConnectSessionNode does for a known caller.
  abbrev for_node : ℕ → SessionIdentity → Answer InstanceCredentials
  for_node id who =
      go_on (find_instance down db id) λ row. or_forbidden row (connect_node down o db key who)

  -- Credentials for a node are handed out only to a caller that is known and may reach that node,
  -- being the administrator or by the node rules, and only for a node with an SSH host.
  pub connect_session_node-NodeHanded :
      (caller : Result CallerError SessionIdentity) (id : ℕ) (given : InstanceCredentials)
      → connect_session_node down o db key caller id ≡ answered given
      → (who : SessionIdentity) × (caller ≡ ok who)
        × ((inst : ProxmoxInstance) × NodeHanded key db who id given inst)
  unfolding connect_session_node
  connect_session_node-NodeHanded caller id given e =
      let (who, c, e1) = called caller (for_node id) (answered given) (λ q. cc) (λ r q. cc) e in
      let (row, e2, e3) =
        went_on (find_instance down db id)
          (λ row. or_forbidden row (connect_node down o db key who)) (answered given) (λ q. cc)
          e1 in
      (who, c, row-NodeHanded who id row given (found_row id row e2) e3)

  -- The list of nodes shows exactly the nodes that the caller may reach and that have an SSH host.
  pub list_session_instances_exact :
      (caller : Result CallerError SessionIdentity) (id : ℕ) (shown : List WireInstance)
      → list_session_instances down o db caller ≡ answered shown
      → (who : SessionIdentity) × (caller ≡ ok who)
        × (Any (λ w. w.id ≡ id) shown
            ↔ Any
                (λ i. (i.id ≡ id) × MayReachInstance db who i.id × (has_ssh_host i ≡ true))
                db.instances)
  unfolding list_session_instances instance_response
  list_session_instances_exact caller id shown e =
      let (who, c, e1) = called caller _ (answered shown) (λ q. cc) (λ r q. cc) e in
      let (insts, e2, e3) =
        went_on (accessible_instances down o db who)
          (λ instances. answered (map instance_response instances)) (answered shown) (λ q. cc) e1 in
      let seen = nodes-Any down o db who (λ i. i.id ≡ id) insts e2 in
      let same : map instance_response insts ≡ shown = ground arith in
      let wired =
        subst (λ l. Any (λ w. w.id ≡ id) l ↔ Any (λ i. i.id ≡ id) insts) same
          (Any-map (λ w. w.id ≡ id) instance_response insts) in
      (who, c, (λ m. seen.0 (wired.0 m), λ m. wired.1 (seen.1 m)))
