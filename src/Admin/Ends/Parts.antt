-- ===== src/Admin/Ends/Parts.antt =====
-- The parts of a handler that changes something.
use proxpass.Base.{Bytes, Bool, Option, Result, err, ◌≡◌}
use proxpass.Models.{ProxmoxInstance, RuleType}
use proxpass.Db.State.{Tables, DbError}
use proxpass.Admin.{
  Handler, Circumstances, Reply, answered, unauthorized, forbidden, bad_request, not_found,
  conflict, failed, as_admin, with_body, with_row, if_done, if_no_clash,
}
use proxpass.Admin.Outcome.{
  IsDenial, as_admin_ends, with_body_ends, with_row_ends, if_supported_ends, with_subject_ends,
  if_done_ends, if_no_clash_ends,
}
use proxpass.Admin.Instances.{if_supported}
use proxpass.Admin.Rules.{with_subject}
use proxpass.Admin.Ends.{WriteEnd, refused}

module _ (h : Handler) (c : Circumstances) (db : Tables) where
  module _ (event : Bytes) (Left : Tables → Type 0) (same : Left db) where
    abbrev pub Ends : Reply × Tables → Type 0
    Ends = WriteEnd h c db event Left

    pub denied : (d : Reply) → IsDenial d → Ends (d, db)
    denied (unauthorized r) p = refused _ db (λ a. a) same
    denied forbidden p = refused _ db (λ a. a) same
    denied failed p = refused _ db (λ a. a) same
    denied (answered _) p = absurd p
    denied (bad_request _) p = absurd p
    denied (not_found _) p = absurd p
    denied conflict p = absurd p

    pub sends :
        {B : Type 0} (body : Option B) (work : B → Reply × Tables)
        → ((b : B) → Ends (work b))
        → Ends (as_admin h c db (with_body body db work))
    sends body work q =
        as_admin_ends Ends db h c _ denied
          (with_body_ends Ends db body work (refused _ db (λ a. a) same) q)

    pub finds :
        {R : Type 0} (missing : Bytes) (found : Result DbError (Option R))
        (work : R → Reply × Tables)
        → ((r : R) → Ends (work r))
        → Ends (with_row missing found db work)
    finds missing found work q =
        with_row_ends Ends db missing found work (refused _ db (λ a. a) same)
          (refused _ db (λ a. a) same) q

    pub found :
        {R : Type 0} (missing : Bytes) (row : Result DbError (Option R)) (work : R → Reply × Tables)
        → ((r : R) → Ends (work r))
        → Ends (as_admin h c db (with_row missing row db work))
    found missing row work q = as_admin_ends Ends db h c _ denied (finds missing row work q)

    pub supports :
        (checker : Option (ProxmoxInstance → Bool)) (inst : ProxmoxInstance) (done : Reply × Tables)
        → Ends done
        → Ends (if_supported checker inst db done)
    supports checker inst done q =
        if_supported_ends Ends db checker inst done (refused _ db (λ a. a) same) q

    pub subjects :
        (kind : Option RuleType) (work : RuleType → Reply × Tables)
        → ((k : RuleType) → Ends (work k))
        → Ends (with_subject kind db work)
    subjects kind work q = with_subject_ends Ends db kind work (refused _ db (λ a. a) same) q

    module _ {A : Type 0} (done : Result DbError A × Tables) (next : A → Tables → Reply × Tables)
        (left : (e : DbError) → done.0 ≡ err e → Left done.1)
        (rest : (a : A) → Ends (next a done.1)) where
      pub does : Ends (if_done done next)
      does =
          if_done_ends Ends done next (λ e q. refused _ done.1 (λ a. a) (left e q)) (λ a q. rest a)

      pub clashes : (u : Bool) → Ends (if_no_clash u done next)
      clashes u =
          if_no_clash_ends Ends u done next (λ e q. refused _ done.1 (λ a. a) (left e q))
            (λ e q. refused _ done.1 (λ a. a) (left e q)) (λ a q. rest a)
