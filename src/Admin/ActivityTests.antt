-- ===== src/Admin/ActivityTests.antt =====
-- Witnesses and runs of the settings, the reports and the pruner.
use proxpass.Base.{ℕ, codes, has_prefix, none, some, [], ◌∷◌, Elem, ◌*◌, ◌≡◌, inl, inr, refl, arith}
use proxpass.Models.{ActivityEvent}
use proxpass.Db.State.{Tables}
use proxpass.Db.Activity.{delete_activity_older_than}
use proxpass.Db.Tests.{all_up, deployment}
use proxpass.Session.Tests.{alice_session}
use proxpass.Admin.{caller}
use proxpass.Admin.Tests.{server, by_alice, admin_code}
use proxpass.Admin.Settings.{
  cut_at, after_slashes, mask_password, mask_credentials, mask_data_source, short,
  mask_data_source-hides,
}
use proxpass.Admin.Reports.{
  ActivityReport, bounded_command, session_event_id, command_param, given_param, report_params,
  failed_report, record_report, reported, report_session_activity, Logged,
  report_session_activity-Logged,
}
use proxpass.Admin.Pruner.{prune_interval, prune_once, pruned, run_pruner, second, run_pruner_keeps}

unfoldable activity_code : Unit {0}
unfolding admin_code cut_at after_slashes has_prefix mask_password mask_credentials mask_data_source
    bounded_command session_event_id command_param given_param report_params failed_report
    record_report reported report_session_activity prune_once pruned run_pruner
    delete_activity_older_than prune_interval
activity_code = tt

mask_data_source-hides_example :
    mask_data_source (codes "postgres://u:p@h") ≡ codes "postgres://u:***@h"
mask_data_source-hides_example =
    mask_data_source-hides (codes "postgres://") (codes "u") (codes "p") (codes "h") short
      (refl, tt) (refl, tt) (refl, tt)

-- The end of a password with an `@` in it is shown.
part_shown : mask_data_source (codes "postgres://u:p@ss@h") ≡ codes "postgres://u:***@ss@h"
unfolding activity_code
part_shown = refl

abbrev ran_ls : ActivityReport
ran_ls = record {
  kind = codes "command";
  command = some (codes "ls");
  host = none;
  guest = some [];
}

ls_logged :
    (report_session_activity server by_alice alice_session (some ran_ls)).1.next_event_id ≡ 2
unfolding activity_code
ls_logged = refl

report_session_activity-Logged_example :
    Logged alice_session
      (caller server by_alice alice_session)
      (report_session_activity server by_alice alice_session (some ran_ls)).1
report_session_activity-Logged_example =
    report_session_activity-Logged server by_alice alice_session (some ran_ls)

abbrev event_at : ℕ → ActivityEvent
event_at t = record { id = 1; event_id = []; actor = []; occurred_at = t; params = [] }

abbrev with_events : Tables
with_events = record deployment { activity_log = event_at 3 ∷ event_at 8 ∷ [] }

pruned_run :
    (run_pruner (4 * second) with_events ((all_up, 9 * second) ∷ [])).activity_log ≡ event_at 8 ∷ []
unfolding activity_code
pruned_run = refl

run_pruner_keeps_example :
    Elem (event_at 8) (run_pruner (4 * second) with_events ((all_up, 9 * second) ∷ [])).activity_log
run_pruner_keeps_example =
    run_pruner_keeps (4 * second) with_events ((all_up, 9 * second) ∷ []) (9 * second) (event_at 8)
      (omega arith, tt) (inl (omega arith)) (inr (inl refl))
