-- ===== src/Setup/Flow.antt =====
-- `main`, what its errors become, and what every ending does: `runWindowsSetup`.
use susentorno.Base.{Bool, true, false, Option, none, some, List, [], String, if◌then◌else◌}
use susentorno.Guest.Executor.{
  GuestErrorKind, transport, authentication, protocol, deadline, timeout,
}
use susentorno.Guest.Executor
use susentorno.Sharing.Ledger.{Entry, new_ledger, entries}
use susentorno.Sharing.Operations.{cleanup}
use susentorno.Steps.Runner.{FailureKind, exit}
use susentorno.Steps.Runner
use susentorno.Setup.Types.{
  Phase, h1, SetupFailureKind, vm_reconcile, guest_timeout, guest_transport, guest_authentication,
  guest_protocol, guest_check, share_credential, guest_trust, step_exit, step_timeout,
  step_transport, isolated_network, unexpected, interrupt, Outcome, success, failure, cancelled,
  SetupError, interrupted, step_error, prompt_ended, guest_failure, vm_reconcile_error,
  guest_check_error, isolated_error, trust_error, other_error, share_failure, cleaned_up, disposed,
  Deps, Run, Control, next, finish, raise,
}
use susentorno.Setup.Phases.{
  log, set_world, then_phase, phase_h1, phase_h2, plan_steps, guest_loop, phase_g3, phase_g4,
  phase_g5,
}
use susentorno.Setup.Isolation.{
  phase_g6, phase_g7, phase_g8, phase_g9, phase_g10, phase_g11, phase_g12, phase_g13, phase_g14,
}

abbrev pub classify_step : FailureKind → SetupFailureKind
classify_step (exit code) = step_exit
classify_step Runner.timeout = step_timeout
classify_step kind = step_transport

abbrev pub classify_guest : GuestErrorKind → SetupFailureKind
classify_guest timeout = guest_timeout
classify_guest authentication = guest_authentication
classify_guest protocol = guest_protocol
classify_guest kind = guest_transport

-- `toOutcome` with `classifyStep` and `classify`.
unfoldable pub to_outcome : SetupError → Phase → Option String → Outcome
to_outcome interrupted phase step = cancelled phase interrupt step
to_outcome (step_error Runner.cancelled filename) phase step =
    cancelled phase interrupt (some filename)
to_outcome (step_error kind filename) phase step =
    failure phase (some filename) (classify_step kind)
to_outcome (prompt_ended reason) phase step = cancelled phase reason none
to_outcome (guest_failure Executor.cancelled) phase step = cancelled phase interrupt none
to_outcome (guest_failure kind) phase step = failure phase none (classify_guest kind)
to_outcome vm_reconcile_error phase step = failure phase none vm_reconcile
to_outcome guest_check_error phase step = failure phase none guest_check
to_outcome isolated_error phase step = failure phase none isolated_network
to_outcome trust_error phase step = failure phase none guest_trust
to_outcome other_error phase step = failure phase none unexpected
to_outcome (share_failure e) phase step = failure phase none share_credential

abbrev pub outcome_of : {W : Type 0} → Control × Run W → Outcome
outcome_of (next, s) = success
outcome_of (finish outcome, s) = outcome
outcome_of (raise error, s) = to_outcome error s.phase s.current_step

abbrev pub is_success : Outcome → Bool
is_success success = true
is_success _ = false

-- What a run returns: the outcome, what happened to the credentials, and the flow's variables.
pub record Finished (W : Type 0) : Type 0 where
  pub outcome : Outcome
  pub credentials : List Entry
  pub run : Run W

abbrev pub starting_run : {W : Type 0} → W → Run W
starting_run w = record {
  session = record { world = w; ledger = new_ledger; ran = [] };
  phase = h1;
  vm_name = none;
  has_executor = false;
  has_share_credentials = false;
  current_step = none;
  plans = record { pre = []; post = [] };
  secret = record { account = ""; password = "" };
  acts = [];
}

module _ {W : Type 0} (d : Deps W) where
  -- H1 to G5, and G6 to G14.
  abbrev pub prepare : Run W → Control × Run W
  prepare s = then_phase (phase_g5 d) (
      then_phase (phase_g4 d) (
        then_phase (phase_g3 d) (
          then_phase (guest_loop d d.guest_pairs false)
            (then_phase (plan_steps d) (then_phase (phase_h2 d) (phase_h1 d s))))))

  abbrev pub isolate_and_finish : Control × Run W → Control × Run W
  isolate_and_finish r = then_phase (phase_g14 d) (
      then_phase (phase_g13 d) (
        then_phase (phase_g12 d) (
          then_phase (phase_g11 d) (
            then_phase (phase_g10 d) (
              then_phase (phase_g9 d)
                (then_phase (phase_g8 d) (then_phase (phase_g7 d) (then_phase (phase_g6 d) r))))))))

  unfoldable pub main : W → Control × Run W
  main w = isolate_and_finish (prepare (starting_run w))

  -- `await shareCredentials?.cleanup()`
  abbrev pub clean_up_if : Bool → Run W → Run W
  clean_up_if false s = s
  clean_up_if true s =
      log cleaned_up (record s { session = cleanup d.invoke d.parse d.drain d.expired s.session })

  -- `await executor?.dispose()`
  abbrev pub dispose_if : Bool → Run W → Run W
  dispose_if false s = s
  dispose_if true s = log disposed (set_world (d.dispose s.session.world) s)

  abbrev pub end_run : Run W → Run W
  end_run s = dispose_if s.has_executor (clean_up_if s.has_share_credentials s)

  unfoldable pub run_windows_setup : W → Finished W
  run_windows_setup w =
      let r = main w in
      let s = end_run r.1 in
      let outcome = outcome_of r in
      record {
        outcome = outcome;
        credentials =
            if is_success outcome then entries r.1.session.ledger else entries s.session.ledger;
        run = s;
      }
