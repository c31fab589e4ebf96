-- ===== src/Vm/Reconcile.antt =====
-- src/guestSetup/vmReconcile.ts over any PowerShell and any clock: `run` carries out a command in
-- a world, `sleep` and `now` are the dependencies of that name, and `fired` gives the times at
-- which the heartbeat's timer has called `tick` while the last call was awaited.
pub mod Order
pub mod Confirming
use susentorno.Base.{
  ℕ, zero, suc, ◌+◌, Bool, true, false, Option, none, some, List, [], ◌∷◌, String, same_text, leb,
  ◌==◌, if◌then◌else◌,
}
use susentorno.Vm.Plan.{VmEntry, parse_get_vm_result, Plan, plan_vm_reconciliation}
use susentorno.Vm.Heartbeat.{Heartbeat, start_heartbeat, tick, ticks}

pub data Command : Type 0 where
  get_vm get_adapters stop_vm start_vm : Command
  connect_adapter : String → Command

-- What a command prints, decoded: entries for `get_vm`, switch names for `get_adapters`.
pub record Reply : Type 0 where
  pub exit_code : ℕ
  pub vms : List VmEntry
  pub switch_names : List String

pub record Options : Type 0 where
  pub vm_name : String
  pub off_confirm_timeout : ℕ
  pub off_poll_interval : ℕ
  pub heartbeat_interval : ℕ

pub data Failure : Type 0 where
  not_found : Failure
  adapter_count : Failure
  bad_state : String → Failure
  not_off : Option VmEntry → Failure
  command_failed : Command → Failure

-- How waiting for `Off` ends; `out_of_fuel` is no result of the code.
pub data Confirmed : Type 0 where
  off : Confirmed
  failure : Failure → Confirmed
  out_of_fuel : Confirmed

-- `done started`, or the thrown error.
pub data Outcome : Type 0 where
  done : Bool → Outcome
  failed : Failure → Outcome
  stuck : Outcome

-- The world, the commands run so far with their replies, newest first, and the heartbeat.
pub record Session (W : Type 0) : Type 0 where
  pub world : W
  pub trace : List (Command × Reply)
  pub heartbeat : Heartbeat

abbrev pub is_off : Option VmEntry → Bool
is_off none = false
is_off (some vm) = same_text vm.state "Off"

module _ {W : Type 0} (run : Command → W → Reply × W) (sleep : ℕ → W → W) (now : W → ℕ)
    (fired : W → List ℕ) (o : Options) where
  -- `deps.exec.run(command)`, and the timer's ticks in the meantime
  abbrev pub call : Command → Session W → Reply × Session W
  call c s =
      let (reply, w) = run c s.world in
      (
        reply,
        record {
          world = w;
          trace = (c, reply) ∷ s.trace;
          heartbeat = ticks o.heartbeat_interval (fired w) s.heartbeat;
        },
      )

  -- `await sleep(offPollIntervalMs); tick();`
  abbrev pub wait_and_tick : Session W → Session W
  wait_and_tick s =
      let w = sleep o.off_poll_interval s.world in
      record s {
        world = w;
        heartbeat =
            tick o.heartbeat_interval (now w) (ticks o.heartbeat_interval (fired w) s.heartbeat);
      }

  -- The `for (;;)` loop of `stopAndConfirmOff`.
  unfoldable pub confirm_off : ℕ → ℕ → Session W → Confirmed × Session W
  confirm_off zero deadline s = (out_of_fuel, s)
  confirm_off (suc fuel) deadline s =
      let (reply, s') = call get_vm s in
      let vm = parse_get_vm_result reply.vms o.vm_name in
      let rest = confirm_off fuel deadline (wait_and_tick s') in
      if is_off vm
      then (off, s')
      else if leb deadline (now s'.world)
      then (failure (not_off vm), s')
      else rest

  -- Each round sleeps, so the timeout's milliseconds are fuel enough.
  unfoldable pub graceful_stop_and_confirm_off : Session W → Confirmed × Session W
  graceful_stop_and_confirm_off s =
      let (_, s') = call stop_vm (record s { heartbeat = start_heartbeat (now s.world) }) in
      confirm_off (o.off_confirm_timeout + 2) (now s'.world + o.off_confirm_timeout) s'

  -- `runOperation`, then the rest of the operation
  abbrev pub operation :
      Command → (Session W → Outcome × Session W) → Session W → Outcome × Session W
  operation c next s =
      let (reply, s') = call c s in
      if reply.exit_code == 0 then next s' else (failed (command_failed c), s')

  abbrev pub start_if : Bool → Session W → Outcome × Session W
  start_if false s = (done false, s)
  start_if true s = operation start_vm (λ s'. (done true, s')) s

  abbrev pub connect_if : Bool → Bool → String → Session W → Outcome × Session W
  connect_if false start target s = start_if start s
  connect_if true start target s = operation (connect_adapter target) (start_if start) s

  abbrev pub after_stop : Bool → Bool → String → Confirmed × Session W → Outcome × Session W
  after_stop connect start target (off, s) = connect_if connect start target s
  after_stop connect start target (failure f, s) = (failed f, s)
  after_stop connect start target (out_of_fuel, s) = (stuck, s)

  abbrev pub carry_out : String → String → Option Plan → Session W → Outcome × Session W
  carry_out state target none s = (failed (bad_state state), s)
  carry_out state target (some plan) s =
      if plan.stop
      then after_stop plan.connect plan.start target (graceful_stop_and_confirm_off s)
      else connect_if plan.connect plan.start target s

  -- `adapters.length !== 1`
  abbrev pub with_adapters : String → String → List String → Session W → Outcome × Session W
  with_adapters state target (switch_name ∷ []) s =
      carry_out state target (plan_vm_reconciliation state switch_name target) s
  with_adapters state target _ s = (failed adapter_count, s)

  abbrev pub with_vm : String → Option VmEntry → Session W → Outcome × Session W
  with_vm target none s = (failed not_found, s)
  with_vm target (some vm) s =
      let (reply, s') = call get_adapters s in with_adapters vm.state target reply.switch_names s'

  unfoldable pub reconcile_vm_to_switch : String → Session W → Outcome × Session W
  reconcile_vm_to_switch target s =
      let (reply, s') = call get_vm s in with_vm target (parse_get_vm_result reply.vms o.vm_name) s'

  abbrev pub isolate_vm : String → Option VmEntry → Session W → Outcome × Session W
  isolate_vm target none s = (failed not_found, s)
  isolate_vm target (some vm) s =
      if same_text vm.state "Running"
      then after_stop true true target (graceful_stop_and_confirm_off s)
      else if same_text vm.state "Off"
      then connect_if true true target s
      else (failed (bad_state vm.state), s)

  unfoldable pub isolate_vm_to_switch : String → Session W → Outcome × Session W
  isolate_vm_to_switch target s =
      let (reply, s') = call get_vm s in
      isolate_vm target (parse_get_vm_result reply.vms o.vm_name) s'
