-- ===== src/Steps/Runner.antt =====
-- `runWindowsSteps`. The executor is an argument: `invoke` runs a wrapper in a world, and `aborted`
-- reads the caller's signal. What is printed is left out.
use susentorno.Base.{
  ℕ, ◌≡◌, ◌⊎◌, refl, sym, ap, ◌∙◌, Bool, true, false, List, [], ◌∷◌, ◌++◌, map, String, same_text,
  ◌==◌, if◌then◌else◌, Bool-cases, inl, inr,
}

pub record GuestScript : Type 0 where
  pub filename : String
  pub slug : String

-- What varies in the wrapper of a step: the file, and whether it is handed `-HostIp`.
pub record StepWrapper : Type 0 where
  pub filename : String
  pub with_host_ip : Bool

-- How `executor.invoke` ends: with a result, or with an error; `rejected` is any other kind of
-- `WindowsGuestError`, `unexpected` any other error.
pub data Invocation : Type 0 where
  returned : ℕ → Bool → Invocation
  cancelled_error deadline_error rejected unexpected : Invocation

pub data FailureKind : Type 0 where
  exit : ℕ → FailureKind
  timeout cancelled transport rethrown : FailureKind

pub data StepOutcome : Type 0 where
  succeeded : StepOutcome
  failed : FailureKind → String → StepOutcome

pub record StepRun (W : Type 0) : Type 0 where
  pub world : W
  pub invoked : List StepWrapper

abbrev pub wrapper_of : GuestScript → StepWrapper
wrapper_of script = record {
  filename = script.filename;
  with_host_ip = same_text script.slug "configure-network";
}

-- Exit code 0 in time goes on with the next step.
abbrev after_step :
    {W : Type 0}
    → String
    → Invocation
    → StepRun W
    → StepOutcome × StepRun W
    → StepOutcome × StepRun W
after_step filename cancelled_error s rest = (failed cancelled filename, s)
after_step filename deadline_error s rest = (failed timeout filename, s)
after_step filename rejected s rest = (failed transport filename, s)
after_step filename unexpected s rest = (failed rethrown filename, s)
after_step filename (returned exit_code timed_out) s rest =
    if timed_out
    then (failed timeout filename, s)
    else if exit_code == 0
    then rest
    else (failed (exit exit_code) filename, s)

append_assoc : (xs ys zs : List StepWrapper) → (xs ++ ys) ++ zs ≡ xs ++ (ys ++ zs)
append_assoc [] ys zs = refl
append_assoc (x ∷ xs) ys zs = ap (◌∷◌ x) (append_assoc xs ys zs)

module _ {W : Type 0} (invoke : StepWrapper → W → Invocation × W) (aborted : W → Bool) where
  unfoldable pub run_windows_steps : List GuestScript → StepRun W → StepOutcome × StepRun W
  run_windows_steps [] s = (succeeded, s)
  run_windows_steps (script ∷ scripts) s =
      let (result, w) = invoke (wrapper_of script) s.world in
      let s' : StepRun W = record { world = w; invoked = s.invoked ++ wrapper_of script ∷ [] } in
      let rest = run_windows_steps scripts s' in
      if aborted s.world
      then (failed cancelled script.filename, s)
      else after_step script.filename result s' rest

-- Which steps have been invoked, behind the ones in `before`: all of them, or the ones up to the
-- named step, with it or without it.
abbrev pub IsInOrder :
    {W : Type 0} → List GuestScript → List StepWrapper → StepOutcome × StepRun W → Type 0
IsInOrder scripts before (succeeded, s) = s.invoked ≡ before ++ map wrapper_of scripts
IsInOrder scripts before (failed kind name, s) =
    (finished : List GuestScript) × (script : GuestScript) × (left : List GuestScript) × (scripts
      ≡ finished ++ script ∷ left)
    × (name ≡ script.filename)
    × ((s.invoked ≡ before ++ map wrapper_of finished)
        ⊎ (s.invoked ≡ before ++ (map wrapper_of finished ++ wrapper_of script ∷ [])))

append_nil : (xs : List StepWrapper) → xs ++ [] ≡ xs
append_nil [] = refl
append_nil (x ∷ xs) = ap (◌∷◌ x) (append_nil xs)

next-IsInOrder :
    {W : Type 0} (script : GuestScript) (scripts : List GuestScript) (before : List StepWrapper)
    (r : StepOutcome × StepRun W)
    → IsInOrder scripts (before ++ wrapper_of script ∷ []) r
    → IsInOrder (script ∷ scripts) before r
next-IsInOrder script scripts before (succeeded, s) h =
    h ∙ append_assoc before (wrapper_of script ∷ []) (map wrapper_of scripts)
next-IsInOrder script scripts before (failed kind name, s) (finished, last, left, e, n, inl h) = (
  script ∷ finished,
  last,
  left,
  ap (◌∷◌ script) e,
  n,
  inl (h ∙ append_assoc before (wrapper_of script ∷ []) (map wrapper_of finished)),
)
next-IsInOrder script scripts before (failed kind name, s) (finished, last, left, e, n, inr h) = (
  script ∷ finished,
  last,
  left,
  ap (◌∷◌ script) e,
  n,
  inr (
      h
      ∙ append_assoc before (wrapper_of script ∷ [])
          (map wrapper_of finished ++ wrapper_of last ∷ [])),
)

here-IsInOrder :
    {W : Type 0} (script : GuestScript) (scripts : List GuestScript) (before : List StepWrapper)
    (kind : FailureKind) (s : StepRun W)
    → s.invoked ≡ before ++ wrapper_of script ∷ []
    → IsInOrder (script ∷ scripts) before (failed kind script.filename, s)
here-IsInOrder script scripts before kind s e = ([], script, scripts, refl, refl, inr e)

after_step-IsInOrder :
    {W : Type 0} (script : GuestScript) (scripts : List GuestScript) (before : List StepWrapper)
    (i : Invocation) (s : StepRun W) (rest : StepOutcome × StepRun W)
    → s.invoked ≡ before ++ wrapper_of script ∷ []
    → IsInOrder (script ∷ scripts) before rest
    → IsInOrder (script ∷ scripts) before (after_step script.filename i s rest)
after_step-IsInOrder script scripts before cancelled_error s rest e h =
    here-IsInOrder script scripts before cancelled s e
after_step-IsInOrder script scripts before deadline_error s rest e h =
    here-IsInOrder script scripts before timeout s e
after_step-IsInOrder script scripts before rejected s rest e h =
    here-IsInOrder script scripts before transport s e
after_step-IsInOrder script scripts before unexpected s rest e h =
    here-IsInOrder script scripts before rethrown s e
after_step-IsInOrder script scripts before (returned code true) s rest e h =
    here-IsInOrder script scripts before timeout s e
after_step-IsInOrder script scripts before (returned code false) s rest e h =
    elim (Bool-cases (code == 0)) [
      | inl y ↦ rw y h
      | inr n ↦ rw n (here-IsInOrder script scripts before (exit code) s e)
    ]

-- The steps are invoked in order, each once; a run that succeeds has invoked all of them, and one
-- that fails has invoked those before the step that the failure names, and none behind it.
pub run_windows_steps-IsInOrder :
    {W : Type 0} (invoke : StepWrapper → W → Invocation × W) (aborted : W → Bool)
    (scripts : List GuestScript) (s : StepRun W)
    → IsInOrder scripts s.invoked (run_windows_steps invoke aborted scripts s)
unfolding run_windows_steps
run_windows_steps-IsInOrder invoke aborted [] s = sym (append_nil s.invoked)
run_windows_steps-IsInOrder {W} invoke aborted (script ∷ scripts) s =
    let (result, w) = invoke (wrapper_of script) s.world in
    let s' : StepRun W = record { world = w; invoked = s.invoked ++ wrapper_of script ∷ [] } in
    elim (Bool-cases (aborted s.world)) [
      | inl y ↦ rw y ([], script, scripts, refl, refl, inl (sym (append_nil s.invoked)))
      | inr n ↦ rw n (
          after_step-IsInOrder script scripts s.invoked result s'
            (run_windows_steps invoke aborted scripts s') refl
            (next-IsInOrder script scripts s.invoked (run_windows_steps invoke aborted scripts s')
              (run_windows_steps-IsInOrder invoke aborted scripts s')))
    ]
