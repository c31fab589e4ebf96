-- ===== src/Vm/Plan.antt =====
-- `planVmReconciliation` of src/guestSetup/hyperVOperations.ts, and `parseGetVmResult` of
-- hyperVQueries.ts on the list that `JSON.parse` has made.
use susentorno.Base.{
  Bool, true, false, not, ◌&&◌, Option, none, some, List, [], ◌∷◌, String, select, same_text,
  if◌then◌else◌,
}

pub record VmEntry : Type 0 where
  pub name : String
  pub state : String

abbrev only : List VmEntry → Option VmEntry
only (v ∷ []) = some v
only _ = none

-- Exactly one entry has the name itself.
unfoldable pub parse_get_vm_result : List VmEntry → String → Option VmEntry
parse_get_vm_result entries expected_name =
    only (select (λ v. same_text v.name expected_name) entries)

pub record Plan : Type 0 where
  pub stop : Bool
  pub connect : Bool
  pub start : Bool

-- `none` is the plan that is not ok.
unfoldable pub plan_vm_reconciliation : String → String → String → Option Plan
plan_vm_reconciliation state current_switch_name target_switch_name =
    let correct_switch = same_text current_switch_name target_switch_name in
    if same_text state "Running" && correct_switch
    then some (record { stop = false; connect = false; start = false })
    else if same_text state "Running" && not correct_switch
    then some (record { stop = true; connect = true; start = true })
    else if same_text state "Off" && not correct_switch
    then some (record { stop = false; connect = true; start = true })
    else if same_text state "Off" && correct_switch
    then some (record { stop = false; connect = false; start = true })
    else none
