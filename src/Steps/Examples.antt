-- ===== src/Steps/Examples.antt =====
-- Two steps, of which the first exits with 3.
use susentorno.Base.{
  same_text, ℕ, ◌≡◌, refl, Bool, false, true, Option, none, some, ◌⊎◌, List, [], ◌∷◌, ◌++◌,
}
use susentorno.Steps.Output.{bound_step_output, IsWhole, IsCut, bound_step_output-IsBounded}
use susentorno.Steps.Plan.{
  Directory, pre_scripts, post_scripts, several_configure_network, unreadable, ok, problem,
  plan_windows_pre_isolation_steps, discover_windows_step_plans,
}
use susentorno.Bytes.{Bytes}
use susentorno.Steps.Runner.{
  GuestScript, StepWrapper, Invocation, returned, StepRun, IsInOrder, exit, failed,
  run_windows_steps, run_windows_steps-IsInOrder,
}

abbrev invoke : StepWrapper → ℕ → Invocation × ℕ
invoke wrapper w = (returned w false, 0)

abbrev aborted : ℕ → Bool
aborted w = false

abbrev scripts : List GuestScript
scripts =
    record { filename = "010-a.ps1"; slug = "a" }
    ∷ record { filename = "020-configure-network.ps1"; slug = "configure-network" }
    ∷ []

abbrev begun : StepRun ℕ
begun = record { world = 3; invoked = [] }

stopped : (run_windows_steps invoke aborted scripts begun).0 ≡ failed (exit 3) "010-a.ps1"
unfolding run_windows_steps
stopped = refl

run_windows_steps-IsInOrder_example :
    IsInOrder scripts [] (run_windows_steps invoke aborted scripts begun)
run_windows_steps-IsInOrder_example = run_windows_steps-IsInOrder invoke aborted scripts begun

-- Three characters of two bytes, and one of one byte.
abbrev text : Bytes
text = 195 ∷ 169 ∷ 195 ∷ 169 ∷ 195 ∷ 169 ∷ 97 ∷ []

cut_short : bound_step_output text 6 ≡ record {
  head = 195 ∷ 169 ∷ [];
  tail = 195 ∷ 169 ∷ 97 ∷ [];
  truncated = true;
  total_bytes = 7;
  omitted_bytes = 2;
}
unfolding bound_step_output
cut_short = refl

bound_step_output-IsBounded_example :
    IsWhole text 6 (bound_step_output text 6) ⊎ IsCut text 6 (bound_step_output text 6)
bound_step_output-IsBounded_example = bound_step_output-IsBounded text 6

planned : plan_windows_pre_isolation_steps scripts ≡ ok scripts
unfolding plan_windows_pre_isolation_steps same_text
planned = refl

planned_twice :
    plan_windows_pre_isolation_steps (scripts ++ scripts)
    ≡ problem
        (several_configure_network ("020-configure-network.ps1" ∷ "020-configure-network.ps1" ∷ []))
unfolding plan_windows_pre_isolation_steps same_text
planned_twice = refl

abbrev only_pre : Directory → Option (List GuestScript)
only_pre pre_scripts = some scripts
only_pre post_scripts = none

no_post_scripts : discover_windows_step_plans only_pre ≡ problem (unreadable post_scripts)
unfolding discover_windows_step_plans
no_post_scripts = refl
