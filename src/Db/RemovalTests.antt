-- ===== src/Db/RemovalTests.antt =====
-- A witness and a run of RemoveProxmoxInstance, over the deployment of Db.Tests.
use proxpass.Base.{[], ◌∷◌, ok, ◌≡◌, refl}
use proxpass.Db.State.{Tables, run, transact}
use proxpass.Db.Tests.{all_up, deployment, guest_row}
use proxpass.Db.Guests.{drop_rules, remove_proxmox_instance}

abbrev without_3 : Tables
without_3 = record deployment {
  guests = guest_row 12 100 4 ∷ [];
  access_rules = [];
  instance_access_rules = [];
}

removed : remove_proxmox_instance all_up deployment 3 ≡ (ok tt, without_3)
unfolding run transact drop_rules remove_proxmox_instance
removed = refl
