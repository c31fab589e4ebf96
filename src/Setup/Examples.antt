-- ===== src/Setup/Examples.antt =====
-- A host and a guest on which everything succeeds, and one whose VM cannot be isolated; the world
-- tells which.
use susentorno.Base.{◌≡◌, refl, Bool, true, false, none, some, [], ◌∷◌, same_text, if◌then◌else◌}
use susentorno.Guest.Executor.{returned}
use susentorno.Sharing.Ledger.{
  verified, removal_failed, mark_written, mark_verified, mark_removed, mark_removal_failed,
  mark_connection_open, mark_connection_closed, entries, unverified, open_connections,
}
use susentorno.Sharing.Ledger.Laws.{status_at}
use susentorno.Sharing.Verdict.{Verdict, absent, text, classify_verification}
use susentorno.Sharing.Operations.{
  replace, verify, replace_and_verify, close, cleanup, run_script, cleanup_items, fail_all,
  mark_results,
}
use susentorno.Sharing.Operations.Cleanup.{IsSettled}
use susentorno.Steps.Runner.{run_windows_steps}
use susentorno.Steps.Runner
use susentorno.Setup.Types.{
  input_ended, success, failure, cancelled, Outcome, g9, vm_reconcile, vm_reconcile_error, Ended,
  threw, ready, Plans, Listeners, Deps,
}
use susentorno.Setup.Types
use susentorno.Setup.Phases.{guest_loop, share_loop}
use susentorno.Setup.Flow.{main, run_windows_setup, to_outcome}
use susentorno.Setup.Sequence.{IsSequence, run_windows_setup-IsSequence}
use susentorno.Setup.Endings.{run_windows_setup-IsSettled}

abbrev fine : Bool → Ended Unit × Bool
fine w = (Types.returned tt, w)

abbrev isolate : Bool → Ended Unit × Bool
isolate w = if w then (Types.returned tt, w) else (threw vm_reconcile_error, w)

abbrev said_ok : Verdict
said_ok = record { outcome = text "ok"; stage = absent; win32 = absent; results = [] }

abbrev deps : Deps Bool
deps = record {
  aborted = λ w. false;
  interrupts = λ w. false;
  asked = λ w. w;
  guest_pairs = "user" ∷ [];
  share_pairs = record { account = "share"; password = "p" } ∷ [];
  end_reason = input_ended;
  resolve_host_answers = λ w. (Types.returned "vm", w);
  preflight = λ w. (Types.returned true, w);
  discover_step_plans = λ w. (
    Types.returned
        (some (record { pre = record { filename = "01-a.ps1"; slug = "a" } ∷ []; post = [] })),
    w,
  );
  reconcile = fine;
  create_executor = fine;
  wait_for_guest = λ w. (ready, w);
  dispose = λ w. w;
  structural_checks = fine;
  check_host_share_account = λ secret w. (Types.returned true, w);
  invoke = λ script w. (returned (record { exit_code = 0; stdout = "done"; timed_out = false }), w);
  parse = λ stdout. some said_ok;
  drain = λ w. (true, w);
  expired = λ w. false;
  read_proxy_ca = λ w. (true, w);
  reconcile_trust = fine;
  invoke_step = λ wrapper w. (Runner.returned 0 false, w);
  check_no_pending_reboot = fine;
  check_run_hosting_ready =
      λ w. (Types.returned (record { dhcp_bound = true; dns_bound = true }), w);
  isolate = isolate;
  wait_for_isolated_network = fine;
  default_host_ip = 1;
  internal_host_ip = 2;
}

run_windows_setup-IsSequence_example :
    IsSequence deps (run_windows_setup deps true).outcome (run_windows_setup deps true).run.acts
run_windows_setup-IsSequence_example = run_windows_setup-IsSequence deps true

run_windows_setup-IsSettled_example :
    IsSettled
      (status_at 2 (main deps false).1.session.ledger)
      (status_at 2 (run_windows_setup deps false).run.session.ledger)
run_windows_setup-IsSettled_example = run_windows_setup-IsSettled deps false 2

a_good_run : (run_windows_setup deps true).outcome ≡ success
unfolding run_windows_setup main guest_loop share_loop run_windows_steps replace verify
    replace_and_verify close cleanup run_script cleanup_items fail_all mark_results mark_written
    mark_verified mark_removed mark_removal_failed mark_connection_open mark_connection_closed
    entries unverified open_connections same_text to_outcome classify_verification
a_good_run = refl

a_vm_that_stays : (run_windows_setup deps false).outcome ≡ failure g9 none vm_reconcile
unfolding run_windows_setup main guest_loop share_loop run_windows_steps replace verify
    replace_and_verify close cleanup run_script cleanup_items fail_all mark_results mark_written
    mark_verified mark_removed mark_removal_failed mark_connection_open mark_connection_closed
    entries unverified open_connections same_text to_outcome classify_verification
a_vm_that_stays = refl

-- The unverified entry is gone, as far as can be told, and the verified one is kept.
what_is_left :
    (status_at 1 (run_windows_setup deps false).run.session.ledger ≡ some verified)
    × (status_at 2 (run_windows_setup deps false).run.session.ledger ≡ some removal_failed)
unfolding run_windows_setup main guest_loop share_loop run_windows_steps replace verify
    replace_and_verify close cleanup run_script cleanup_items fail_all mark_results mark_written
    mark_verified mark_removed mark_removal_failed mark_connection_open mark_connection_closed
    entries unverified open_connections same_text to_outcome classify_verification
what_is_left = (refl, refl)
