-- ===== src/Vm/Examples.antt =====
-- A VM that runs on the wrong switch; the world is its state, `run` obeys, and the clock counts up.
use susentorno.Base.{ℕ, ◌+◌, ◌≤◌, arith, List, [], ◌∷◌, String}
use susentorno.Vm.Heartbeat.{start_heartbeat, ticks, IsSpaced, ticks-IsSpaced}
use susentorno.Vm.Reconcile.{
  Command, get_vm, get_adapters, stop_vm, start_vm, connect_adapter, Reply, Options, Session,
  reconcile_vm_to_switch, isolate_vm_to_switch,
}
use susentorno.Vm.Reconcile.Order.{IsOrdered, reconcile-IsOrdered, isolate-IsOrdered}
use susentorno.Vm.Reconcile.Confirming.{IsEndedBy, reconcile-ends}

record Machine : Type 0 where
  clock : ℕ
  state : String
  switch : String

abbrev answer : Machine → Reply
answer m = record {
  exit_code = 0;
  vms = record { name = "vm"; state = m.state } ∷ [];
  switch_names = m.switch ∷ [];
}

abbrev obey : Command → Machine → Reply × Machine
obey get_vm m = (answer m, m)
obey get_adapters m = (answer m, m)
obey stop_vm m = (answer m, record m { state = "Off"; clock = m.clock + 5 })
obey start_vm m = (answer m, record m { state = "Running" })
obey (connect_adapter name) m = (answer m, record m { switch = name })

abbrev rest : ℕ → Machine → Machine
rest ms m = record m { clock = m.clock + ms }

abbrev time : Machine → ℕ
time m = m.clock

abbrev fired : Machine → List ℕ
fired m = []

abbrev options : Options
options = record {
  vm_name = "vm";
  off_confirm_timeout = 30000;
  off_poll_interval = 2000;
  heartbeat_interval = 15000;
}

abbrev session : Session Machine
session = record {
  world = record { clock = 0; state = "Running"; switch = "Default Switch" };
  trace = [];
  heartbeat = start_heartbeat 0;
}

obey_keeps_time : (c : Command) (m : Machine) → time m ≤ time (obey c m).1
obey_keeps_time get_vm m = omega arith
obey_keeps_time get_adapters m = omega arith
obey_keeps_time stop_vm m = omega arith
obey_keeps_time start_vm m = omega arith
obey_keeps_time (connect_adapter name) m = omega arith

rest_takes_time : (ms : ℕ) (m : Machine) → time m + ms ≤ time (rest ms m)
rest_takes_time ms m = omega arith

ticks-IsSpaced_example :
    IsSpaced 15 0 (ticks 15 (10 ∷ 15 ∷ 16 ∷ 40 ∷ []) (start_heartbeat 0)).emitted
ticks-IsSpaced_example = ticks-IsSpaced 15 0 (10 ∷ 15 ∷ 16 ∷ 40 ∷ [])

reconcile-IsOrdered_example :
    IsOrdered "vm"
      (reconcile_vm_to_switch obey rest time fired options "susentorno" session).1.trace
reconcile-IsOrdered_example =
    reconcile-IsOrdered obey rest time fired options "susentorno" session tt

isolate-IsOrdered_example :
    IsOrdered "vm" (isolate_vm_to_switch obey rest time fired options "susentorno" session).1.trace
isolate-IsOrdered_example = isolate-IsOrdered obey rest time fired options "susentorno" session tt

obey_returns : (c : Command) (m : Machine) → time (obey c m).1 ≤ time m + 5
obey_returns get_vm m = omega arith
obey_returns get_adapters m = omega arith
obey_returns stop_vm m = omega arith
obey_returns start_vm m = omega arith
obey_returns (connect_adapter name) m = omega arith

rest_returns : (ms : ℕ) (m : Machine) → time (rest ms m) ≤ time m + ms + 0
rest_returns ms m = omega arith

reconcile-ends_example :
    IsEndedBy obey rest time fired options 30000 32030
      (reconcile_vm_to_switch obey rest time fired options "susentorno" session)
reconcile-ends_example =
    reconcile-ends obey rest time fired options 5 0 obey_keeps_time obey_returns rest_takes_time
      rest_returns (omega arith) "susentorno" session
