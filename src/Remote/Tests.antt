-- ===== src/Remote/Tests.antt =====
-- Witnesses and runs of the administrator's session.
use proxpass.Base.{codes, true, false, some, [], ◌∷◌, ◌≡◌, refl}
use proxpass.Models.{Client, DefaultAccessPolicy, client}
use proxpass.Db.State.{Tables}
use proxpass.Db.Named.{add_client}
use proxpass.Db.Tests.{all_up, deployment}
use proxpass.Admin.Tests.{server, by_root, admin_code}
use proxpass.Remote.{delivered, remote_add_client, edit_policy, with_subject_added, append_unique}
use proxpass.Remote.Agreement.{
  Authorizes, Agrees, named, added_log, remote_add_client-Agrees, edit_policy-forgets,
}

-- A policy with access to the nodes, which authorizes client 1.
abbrev node_policy : DefaultAccessPolicy
node_policy = record {
  authorized_client_ids = 1 ∷ [];
  authorized_group_ids = [];
  node_access = true;
}

abbrev with_policy : Tables
with_policy = record deployment { default_policy = some node_policy }

abbrev rob : Client
rob = record { id = 0; name = codes "Rob"; public_keys = []; group_ids = [] }

appended_run : append_unique (2 ∷ 1 ∷ []) 1 ≡ 2 ∷ 1 ∷ []
unfolding append_unique
appended_run = refl

edit_policy-forgets_example :
    (q : DefaultAccessPolicy) × ((edit_policy server
        (by_root, delivered)
        (by_root, delivered)
        (with_subject_added client 2)
        with_policy).1.default_policy
      ≡ some q)
    × Authorizes client 2 node_policy q
    × (q.node_access ≡ false)
unfolding admin_code
edit_policy-forgets_example =
    edit_policy-forgets server by_root by_root with_policy node_policy client 2 refl refl refl refl
      refl

remote_add_client-Agrees_example :
    let stored = add_client server.lower all_up deployment rob in
    Agrees server by_root
      (named server rob)
      (added_log server rob)
      deployment
      stored.0
      stored.1
      (remote_add_client server by_root delivered deployment rob)
unfolding admin_code
remote_add_client-Agrees_example =
    remote_add_client-Agrees server by_root deployment refl rob
      (add_client server.lower all_up deployment rob).0
      (add_client server.lower all_up deployment rob).1 refl
