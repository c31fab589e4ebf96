-- ===== src/Setup/Outcomes.antt =====
-- An error never becomes a success.
use susentorno.Base.{◌≢◌, Option, String}
use susentorno.Steps.Runner.{FailureKind, exit, rethrown}
use susentorno.Steps.Runner
use susentorno.Guest.Executor.{GuestErrorKind}
use susentorno.Guest.Executor
use susentorno.Setup.Types.{
  Phase, success, SetupError, interrupted, step_error, prompt_ended, guest_failure,
  vm_reconcile_error, guest_check_error, isolated_error, trust_error, other_error, share_failure,
}
use susentorno.Setup.Flow.{to_outcome}

step_not_success :
    (kind : FailureKind) (filename : String) (phase : Phase) (step : Option String)
    → to_outcome (step_error kind filename) phase step ≢ success
unfolding to_outcome
step_not_success (exit code) filename phase step e = cc
step_not_success Runner.timeout filename phase step e = cc
step_not_success Runner.cancelled filename phase step e = cc
step_not_success Runner.transport filename phase step e = cc
step_not_success rethrown filename phase step e = cc

guest_not_success :
    (kind : GuestErrorKind) (phase : Phase) (step : Option String)
    → to_outcome (guest_failure kind) phase step ≢ success
unfolding to_outcome
guest_not_success Executor.transport phase step e = cc
guest_not_success Executor.authentication phase step e = cc
guest_not_success Executor.protocol phase step e = cc
guest_not_success Executor.deadline phase step e = cc
guest_not_success Executor.cancelled phase step e = cc
guest_not_success Executor.timeout phase step e = cc

pub not_success :
    (error : SetupError) (phase : Phase) (step : Option String)
    → to_outcome error phase step ≢ success
unfolding to_outcome
not_success interrupted phase step e = cc
not_success (step_error kind filename) phase step e = step_not_success kind filename phase step e
not_success (prompt_ended reason) phase step e = cc
not_success (guest_failure kind) phase step e = guest_not_success kind phase step e
not_success vm_reconcile_error phase step e = cc
not_success guest_check_error phase step e = cc
not_success isolated_error phase step e = cc
not_success trust_error phase step e = cc
not_success other_error phase step e = cc
not_success (share_failure failed) phase step e = cc
