-- ===== src/Admin/Names.antt =====
-- Names and URLs over any requests.
use proxpass.Base.{Bytes, List, All, refl}
use proxpass.Models.{ProxmoxInstance, fold_name}
use proxpass.Db.Named.Shapes.{
  IsFold, EndsBare, trim_slashes-EndsBare, filter-All, insert-All, update-All, delete-All,
  insert_instance-All, update_instance-All,
}
use proxpass.Db.State.{Tables}
use proxpass.Db.Named.Rows.{insert-IsTable, delete-IsTable, update-IsTable}
use proxpass.Db.Named.{client_columns, group_columns}
use proxpass.Db.Named.Lookup.{HasNames}
use proxpass.Db.Instances.{trim_slashes, normalised, stored_instance}
use proxpass.Db.Instances.Rows.{
  IsInstanceTable, insert-IsInstanceTable, update-IsInstanceTable, filter-IsInstanceTable,
}
use proxpass.Db.Named.{
  add_client, update_client, remove_client, add_group, update_group, remove_group,
}
use proxpass.Db.Instances.{add_proxmox_instance, update_proxmox_instance}
use proxpass.Db.Keys.{add_admin_key, remove_admin_key, set_default_policy}
use proxpass.Db.Activity.{add_activity_event}
use proxpass.Db.Frames.{
  IgnoresRules, IgnoresNodeRules, IgnoresGuests, IgnoresRemoval, exec_keeps, set_setting_keeps,
  grant_access_keeps, grant_instance_access_keeps, revoke_access_keeps,
  revoke_instance_access_keeps, remove_proxmox_instance_keeps,
}
use proxpass.Discovery.Frames.{store_guests_keeps}
use proxpass.Admin.{Handler, Circumstances}
use proxpass.Admin.Requests.{AdminRequest, after_handled}
use proxpass.Admin.Changes.{
  Change, client_added, client_updated, client_removed, group_added, group_updated, group_removed,
  instance_added, instance_updated, instance_removed, guests_stored, granted, node_granted, revoked,
  node_revoked, policy_set, key_added, key_removed, setting_set, event_added, Changes-keep,
}
use proxpass.Admin.Changes.Handlers.{after_handled-Changes}

-- An instance's name is a lower-case form, and its URL does not end in a slash.
abbrev pub IsNormal : (Bytes → Bytes) → ProxmoxInstance → Type 0
IsNormal lower r = IsFold lower r.name × EndsBare r.api_url

-- Clients, groups and instances have distinct ids and distinct names, in their lower-case forms, and
-- instances URLs without a final slash, distinct ones where the schema says so. The counters are past
-- all ids.
pub record IsNamed (lower : Bytes → Bytes) (db : Tables) : Type 0 where
  pub names : HasNames db
  pub instances : IsInstanceTable db.unique_urls db.next_instance_id db.instances
  pub folded_clients : All (λ r. IsFold lower r.name) db.clients
  pub folded_groups : All (λ r. IsFold lower r.name) db.groups
  pub normal_instances : All (IsNormal lower) db.instances

rules : (lower : Bytes → Bytes) → IgnoresRules (IsNamed lower)
rules lower d n r p = record {
  names = record { clients = p.names.clients; groups = p.names.groups };
  instances = p.instances;
  folded_clients = p.folded_clients;
  folded_groups = p.folded_groups;
  normal_instances = p.normal_instances;
}

nodes : (lower : Bytes → Bytes) → IgnoresNodeRules (IsNamed lower)
nodes lower d n r p = record {
  names = record { clients = p.names.clients; groups = p.names.groups };
  instances = p.instances;
  folded_clients = p.folded_clients;
  folded_groups = p.folded_groups;
  normal_instances = p.normal_instances;
}

guests : (lower : Bytes → Bytes) → IgnoresGuests (IsNamed lower)
guests lower d n g p = record {
  names = record { clients = p.names.clients; groups = p.names.groups };
  instances = p.instances;
  folded_clients = p.folded_clients;
  folded_groups = p.folded_groups;
  normal_instances = p.normal_instances;
}

removal : (lower : Bytes → Bytes) → IgnoresRemoval (IsNamed lower)
removal lower d id p = record {
  names = record { clients = p.names.clients; groups = p.names.groups };
  instances = filter-IsInstanceTable d.unique_urls d.next_instance_id id d.instances p.instances;
  folded_clients = p.folded_clients;
  folded_groups = p.folded_groups;
  normal_instances = filter-All _ _ d.instances p.normal_instances;
}

module _ (h : Handler) where
  abbrev P : Tables → Type 0
  P = IsNamed h.lower

  normal_row :
      (name url : Bytes) → IsFold h.lower (fold_name h.lower name) × EndsBare (trim_slashes url)
  unfolding fold_name
  normal_row name url = ((name, refl), trim_slashes-EndsBare url)

  Change-IsNamed : (a b : Tables) → Change h a b → P a → P b
  unfolding fold_name stored_instance normalised add_client update_client remove_client add_group
      update_group remove_group add_proxmox_instance update_proxmox_instance add_admin_key
      remove_admin_key set_default_policy add_activity_event
  Change-IsNamed a b (client_added down x) p = record {
    names = record {
      clients = insert-IsTable client_columns _ _ _ a.clients refl p.names.clients;
      groups = p.names.groups;
    };
    instances = p.instances;
    folded_clients = insert-All _ client_columns _ _ a.clients (_, refl) p.folded_clients;
    folded_groups = p.folded_groups;
    normal_instances = p.normal_instances;
  }
  Change-IsNamed a b (client_updated down x) p = record {
    names = record {
      clients = update-IsTable client_columns _ _ _ a.clients p.names.clients;
      groups = p.names.groups;
    };
    instances = p.instances;
    folded_clients = update-All _ client_columns _ _ a.clients (_, refl) p.folded_clients;
    folded_groups = p.folded_groups;
    normal_instances = p.normal_instances;
  }
  Change-IsNamed a b (client_removed down id) p = record {
    names = record {
      clients = delete-IsTable client_columns _ _ _ a.clients p.names.clients;
      groups = p.names.groups;
    };
    instances = p.instances;
    folded_clients = delete-All _ client_columns _ _ a.clients p.folded_clients;
    folded_groups = p.folded_groups;
    normal_instances = p.normal_instances;
  }
  Change-IsNamed a b (group_added down x) p = record {
    names = record {
      clients = p.names.clients;
      groups = insert-IsTable group_columns _ _ _ a.groups refl p.names.groups;
    };
    instances = p.instances;
    folded_clients = p.folded_clients;
    folded_groups = insert-All _ group_columns _ _ a.groups (_, refl) p.folded_groups;
    normal_instances = p.normal_instances;
  }
  Change-IsNamed a b (group_updated down x) p = record {
    names = record {
      clients = p.names.clients;
      groups = update-IsTable group_columns _ _ _ a.groups p.names.groups;
    };
    instances = p.instances;
    folded_clients = p.folded_clients;
    folded_groups = update-All _ group_columns _ _ a.groups (_, refl) p.folded_groups;
    normal_instances = p.normal_instances;
  }
  Change-IsNamed a b (group_removed down id) p = record {
    names = record {
      clients = p.names.clients;
      groups = delete-IsTable group_columns _ _ _ a.groups p.names.groups;
    };
    instances = p.instances;
    folded_clients = p.folded_clients;
    folded_groups = delete-All _ group_columns _ _ a.groups p.folded_groups;
    normal_instances = p.normal_instances;
  }
  Change-IsNamed a b (instance_added down x) p = record {
    names = record { clients = p.names.clients; groups = p.names.groups };
    instances = insert-IsInstanceTable _ _ _ _ a.instances refl p.instances;
    folded_clients = p.folded_clients;
    folded_groups = p.folded_groups;
    normal_instances =
        insert_instance-All _ _ _ a.instances _ (normal_row x.name x.api_url) p.normal_instances;
  }
  Change-IsNamed a b (instance_updated down x) p = record {
    names = record { clients = p.names.clients; groups = p.names.groups };
    instances = update-IsInstanceTable _ _ _ _ a.instances p.instances;
    folded_clients = p.folded_clients;
    folded_groups = p.folded_groups;
    normal_instances =
        update_instance-All _ _ _ a.instances _ (normal_row x.name x.api_url) p.normal_instances;
  }
  Change-IsNamed a b (instance_removed down id) p =
      remove_proxmox_instance_keeps P down (rules h.lower) id a (guests h.lower) (nodes h.lower)
        (removal h.lower) p
  Change-IsNamed a b (guests_stored down canceled_at id gs) p =
      store_guests_keeps P down canceled_at id (rules h.lower) (guests h.lower) a gs p
  Change-IsNamed a b (granted down k s ts) p = grant_access_keeps P down a p k s ts (rules h.lower)
  Change-IsNamed a b (node_granted down k s ts) p =
      grant_instance_access_keeps P down a p k s ts (nodes h.lower)
  Change-IsNamed a b (revoked down k s t) p = revoke_access_keeps P down a p k s t (rules h.lower)
  Change-IsNamed a b (node_revoked down k s t) p =
      revoke_instance_access_keeps P down a p k s t (nodes h.lower)
  Change-IsNamed a b (policy_set down x) p = exec_keeps P down _ a _ p (record {
    names = record { clients = p.names.clients; groups = p.names.groups };
    instances = p.instances;
    folded_clients = p.folded_clients;
    folded_groups = p.folded_groups;
    normal_instances = p.normal_instances;
  })
  Change-IsNamed a b (key_added down key) p = exec_keeps P down _ a _ p (record {
    names = record { clients = p.names.clients; groups = p.names.groups };
    instances = p.instances;
    folded_clients = p.folded_clients;
    folded_groups = p.folded_groups;
    normal_instances = p.normal_instances;
  })
  Change-IsNamed a b (key_removed down key e) p = exec_keeps P down _ a _ p (record {
    names = record { clients = p.names.clients; groups = p.names.groups };
    instances = p.instances;
    folded_clients = p.folded_clients;
    folded_groups = p.folded_groups;
    normal_instances = p.normal_instances;
  })
  Change-IsNamed a b (setting_set down key value) p =
      set_setting_keeps P down key value a p (record {
        names = record { clients = p.names.clients; groups = p.names.groups };
        instances = p.instances;
        folded_clients = p.folded_clients;
        folded_groups = p.folded_groups;
        normal_instances = p.normal_instances;
      })
  Change-IsNamed a b (event_added down e) p = exec_keeps P down _ a _ p (record {
    names = record { clients = p.names.clients; groups = p.names.groups };
    instances = p.instances;
    folded_clients = p.folded_clients;
    folded_groups = p.folded_groups;
    normal_instances = p.normal_instances;
  })

  -- Over any requests, by anybody, whatever fails in them: clients, groups and instances keep distinct
  -- ids and distinct names, every name stays a lower-case form, and the URLs of instances stay without
  -- a final slash, and distinct where the schema has them so.
  pub after_handled-IsNamed :
      (db : Tables) (rs : List (Circumstances × AdminRequest))
      → IsNamed h.lower db
      → IsNamed h.lower (after_handled h db rs)
  after_handled-IsNamed db rs k =
      Changes-keep h P Change-IsNamed db _ (after_handled-Changes h db rs) k
