-- ===== src/Steps/Plan.antt =====
-- src/guestSetup/windows/stepPlan.ts. `listScripts` is an argument: the scripts of a directory, or
-- none where it throws. The messages are values.
use susentorno.Base.{
  Option, none, some, List, [], ◌∷◌, map, select, length, String, same_text, ◌==◌, if◌then◌else◌,
}
use susentorno.Steps.Runner.{GuestScript}

-- `CONFIGURE_NETWORK_SLUG`
abbrev pub configure_network_slug : String
configure_network_slug = "configure-network"

pub data Directory : Type 0 where
  pre_scripts post_scripts : Directory

pub data Message : Type 0 where
  no_configure_network : Message
  several_configure_network : List String → Message
  unreadable : Directory → Message

pub record WindowsStepPlans : Type 0 where
  pub pre : List GuestScript
  pub post : List GuestScript

pub data Planned (A : Type 0) : Type 0 where
  ok : A → Planned A
  problem : Message → Planned A

abbrev found : List GuestScript → Message
found [] = no_configure_network
found (script ∷ scripts) = several_configure_network (map (λ s. s.filename) (script ∷ scripts))

unfoldable pub plan_windows_pre_isolation_steps : List GuestScript → Planned (List GuestScript)
plan_windows_pre_isolation_steps scripts =
    let matches = select (λ script. same_text script.slug configure_network_slug) scripts in
    if length matches == 1 then ok scripts else problem (found matches)

module _ (list_scripts : Directory → Option (List GuestScript)) where
  abbrev plan_both : Planned (List GuestScript) → List GuestScript → Planned WindowsStepPlans
  plan_both (problem message) post = problem message
  plan_both (ok pre) post = ok (record { pre = pre; post = post })

  abbrev plan_found : List GuestScript → Option (List GuestScript) → Planned WindowsStepPlans
  plan_found pre none = problem (unreadable post_scripts)
  plan_found pre (some post) = plan_both (plan_windows_pre_isolation_steps pre) post

  abbrev discover_pre : Option (List GuestScript) → Planned WindowsStepPlans
  discover_pre none = problem (unreadable pre_scripts)
  discover_pre (some pre) = plan_found pre (list_scripts post_scripts)

  unfoldable pub discover_windows_step_plans : Planned WindowsStepPlans
  discover_windows_step_plans = discover_pre (list_scripts pre_scripts)
