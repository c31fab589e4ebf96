-- ===== src/Setup/Types.antt =====
-- The phases, the failures and the outcomes, and what the flow keeps while it runs.
use susentorno.Base.{ℕ, Bool, Option, List, String}
use susentorno.Guest.Executor.{GuestErrorKind, Invocation}
use susentorno.Sharing.Verdict.{ShareError, Verdict}
use susentorno.Sharing.Operations.{Script, Secret, Session}
use susentorno.Steps.Runner.{GuestScript, StepWrapper, FailureKind}
use susentorno.Steps.Runner

pub data Phase : Type 0 where
  h1 h2 h3 g1 g2 g3 g4 g5 g6 g7 g8 g9 g10 g11 g12 g13 g14 : Phase

pub data SetupFailureKind : Type 0 where
  host_preflight vm_reconcile guest_timeout guest_transport guest_authentication : SetupFailureKind
  guest_protocol guest_check share_account share_credential guest_trust : SetupFailureKind
  step_plan step_exit step_timeout step_transport run_hosting : SetupFailureKind
  isolated_network unexpected : SetupFailureKind

pub data Reason : Type 0 where
  interrupt input_ended : Reason

-- Messages and the prompt's question are left out.
pub data Outcome : Type 0 where
  success : Outcome
  failure : Phase → Option String → SetupFailureKind → Outcome
  cancelled : Phase → Reason → Option String → Outcome

-- What the awaited calls throw, by class.
pub data SetupError : Type 0 where
  interrupted : SetupError
  step_error : FailureKind → String → SetupError
  prompt_ended : Reason → SetupError
  guest_failure : GuestErrorKind → SetupError
  vm_reconcile_error guest_check_error isolated_error trust_error other_error : SetupError
  share_failure : ShareError → SetupError

pub data Ended (A : Type 0) : Type 0 where
  returned : A → Ended A
  threw : SetupError → Ended A

-- What `waitForPowerShellDirect` ends with.
pub data GuestWait : Type 0 where
  ready auth_rejected : GuestWait
  wait_threw : SetupError → GuestWait

pub record Plans : Type 0 where
  pub pre : List GuestScript
  pub post : List GuestScript

pub record Listeners : Type 0 where
  pub dhcp_bound : Bool
  pub dns_bound : Bool

-- The calls that the flow makes on its way, but for the disposal of a rejected attempt.
pub data Effect : Type 0 where
  resolving_answers checking_host planning_steps asking_guest : Effect
  reconciling_vm creating_executor waiting_ready checking_guest : Effect
  asking_share checking_account sharing_default reading_ca reconciling_trust : Effect
  running_pre_steps closing_default checking_reboot checking_listeners : Effect
  replacing_internal isolating_vm waiting_ready_again waiting_isolated : Effect
  verifying_internal running_post_steps closing_internal : Effect

-- A phase is announced; a call has ended, and whether well; cleanup and dispose.
pub data Act : Type 0 where
  announced : Phase → Act
  did : Effect → Bool → Act
  cleaned_up disposed : Act

-- What `runWindowsSetup` is given. `interrupts` tells whether Ctrl+C came before the call that is
-- raced against it had ended; prompts read what the user enters until the input ends.
pub record Deps (W : Type 0) : Type 0 where
  pub aborted : W → Bool
  pub interrupts : W → Bool
  pub asked : W → W
  pub guest_pairs : List String
  pub share_pairs : List Secret
  pub end_reason : Reason
  pub resolve_host_answers : W → Ended String × W
  pub preflight : W → Ended Bool × W
  pub discover_step_plans : W → Ended (Option Plans) × W
  pub reconcile : W → Ended Unit × W
  pub create_executor : W → Ended Unit × W
  pub wait_for_guest : W → GuestWait × W
  pub dispose : W → W
  pub structural_checks : W → Ended Unit × W
  pub check_host_share_account : Secret → W → Ended Bool × W
  pub invoke : Script → W → Invocation × W
  pub parse : String → Option Verdict
  pub drain : W → Bool × W
  pub expired : W → Bool
  pub read_proxy_ca : W → Bool × W
  pub reconcile_trust : W → Ended Unit × W
  pub invoke_step : StepWrapper → W → Runner.Invocation × W
  pub check_no_pending_reboot : W → Ended Unit × W
  pub check_run_hosting_ready : W → Ended Listeners × W
  pub isolate : W → Ended Unit × W
  pub wait_for_isolated_network : W → Ended Unit × W
  pub default_host_ip : ℕ
  pub internal_host_ip : ℕ

-- The flow's variables; the session holds the world and the share credentials.
pub record Run (W : Type 0) : Type 0 where
  pub session : Session W
  pub phase : Phase
  pub vm_name : Option String
  pub has_executor : Bool
  pub has_share_credentials : Bool
  pub current_step : Option String
  pub plans : Plans
  pub secret : Secret
  pub acts : List Act

-- A phase goes on with the next one, returns an outcome, or throws.
pub data Control : Type 0 where
  next : Control
  finish : Outcome → Control
  raise : SetupError → Control
