-- ===== src/Setup/Phases.antt =====
-- The phases of `main` in runWindowsSetup, each a function of the flow's variables.
use susentorno.Base.{
  Bool, true, false, not, ◌&&◌, Option, none, some, List, [], ◌∷◌, String, if◌then◌else◌,
}
use susentorno.Sharing.Ledger.{default, internal, Target}
use susentorno.Sharing.Operations.{
  Secret, Session, Result, ok, replace_and_verify, replace, verify, close,
}
use susentorno.Sharing.Operations
use susentorno.Sharing.Operations.Asking.{asks_again}
use susentorno.Steps.Runner.{StepWrapper, StepOutcome, succeeded, failed, rethrown}
use susentorno.Setup.Types.{
  Phase, h1, h2, h3, g1, g2, g3, g4, g5, SetupFailureKind, host_preflight, step_plan, share_account,
  Reason, interrupt, failure, cancelled, interrupted, step_error, guest_failure, trust_error,
  other_error, share_failure, Ended, returned, threw, GuestWait, ready, auth_rejected, wait_threw,
  Plans, Effect, resolving_answers, checking_host, planning_steps, asking_guest, creating_executor,
  asking_share, checking_account, reading_ca, reconciling_vm, waiting_ready, checking_guest,
  sharing_default, reconciling_trust, Act, announced, did, disposed, Deps, Run, Control, next,
  finish, raise,
}

abbrev pub announce : {W : Type 0} → Phase → Run W → Run W
announce phase s = record s { phase = phase; acts = announced phase ∷ s.acts }

abbrev pub log : {W : Type 0} → Act → Run W → Run W
log act s = record s { acts = act ∷ s.acts }

abbrev pub set_world : {W : Type 0} → W → Run W → Run W
set_world w s = record s { session = record (s.session) { world = w } }

-- `fail(...)` and `cancelled(...)`, which name the current phase.
abbrev pub fail : {W : Type 0} → SetupFailureKind → Run W → Control × Run W
fail kind s = (finish (failure s.phase none kind), s)

abbrev pub cancel : {W : Type 0} → Reason → Run W → Control × Run W
cancel reason s = (finish (cancelled s.phase reason none), s)

abbrev pub control_of : {A : Type 0} → Ended A → Control
control_of (returned a) = next
control_of (threw error) = raise error

abbrev pub is_returned : {A : Type 0} → Ended A → Bool
is_returned (returned a) = true
is_returned (threw error) = false

-- An operation on the share credentials, as it ends in the flow.
abbrev pub share_ended : Result Unit → Ended Unit
share_ended (ok done) = returned done
share_ended (Operations.threw (Operations.share_error e)) = threw (share_failure e)
share_ended (Operations.threw (Operations.guest_failure kind)) = threw (guest_failure kind)
share_ended (Operations.threw Operations.other_failure) = threw other_error

abbrev pub steps_ended : StepOutcome → Ended Unit
steps_ended succeeded = returned tt
steps_ended (failed rethrown filename) = threw other_error
steps_ended (failed kind filename) = threw (step_error kind filename)

abbrev last_filename : List StepWrapper → Option String
last_filename [] = none
last_filename (w ∷ []) = some w.filename
last_filename (w ∷ (v ∷ ws)) = last_filename (v ∷ ws)

-- `onStep` has named the last step that was begun; it is forgotten once all have ended well.
abbrev pub step_left : Bool → List StepWrapper → Option String
step_left true invoked = none
step_left false invoked = last_filename invoked

-- One phase, then the next.
abbrev pub then_phase : {W : Type 0} → (Run W → Control × Run W) → Control × Run W → Control × Run W
then_phase following (next, s) = following s
then_phase following (finish outcome, s) = (finish outcome, s)
then_phase following (raise error, s) = (raise error, s)

module _ {W : Type 0} (d : Deps W) where
  -- `guard(work)`: an abandoned call is taken to have run to its end.
  abbrev pub guard : {A : Type 0} → Ended A × W → Ended A × W
  guard (r, w) = if d.interrupts w then (threw interrupted, w) else (r, w)

  abbrev pub after_call : Effect → Ended Unit × W → Run W → Control × Run W
  after_call effect (r, w) s = (control_of r, log (did effect (is_returned r)) (set_world w s))

  -- An awaited call, raced against the interrupt, and one that is not.
  abbrev pub guarded_call : Effect → (W → Ended Unit × W) → Run W → Control × Run W
  guarded_call effect work s = after_call effect (guard (work s.session.world)) s

  abbrev pub call : Effect → (W → Ended Unit × W) → Run W → Control × Run W
  call effect work s = after_call effect (work s.session.world) s

  abbrev pub after_share : Effect → Ended Unit → Session W → Run W → Control × Run W
  after_share effect r session s =
      (control_of r, log (did effect (is_returned r)) (record s { session = session }))

  abbrev pub share_guard : Result Unit × Session W → Ended Unit
  share_guard (r, session) = if d.interrupts session.world then threw interrupted else share_ended r

  abbrev pub share_call : Effect → (Session W → Result Unit × Session W) → Run W → Control × Run W
  share_call effect operation s =
      let (r, session) = operation s.session in
      after_share effect (share_guard (r, session)) session s

  abbrev pub default_target : Target
  default_target = record { role = default; host_ip = d.default_host_ip }

  abbrev pub internal_target : Target
  internal_target = record { role = internal; host_ip = d.internal_host_ip }

  abbrev pub after_answers : Ended String × W → Run W → Control × Run W
  after_answers (returned name, w) s =
      (next, log (did resolving_answers true) (set_world w (record s { vm_name = some name })))
  after_answers (threw error, w) s =
      (raise error, log (did resolving_answers false) (set_world w s))

  abbrev pub phase_h1 : Run W → Control × Run W
  phase_h1 s =
      if d.aborted s.session.world
      then cancel interrupt s
      else after_answers (guard (d.resolve_host_answers s.session.world)) (announce h1 s)

  abbrev pub after_preflight : Ended Bool × W → Run W → Control × Run W
  after_preflight (returned true, w) s = (next, log (did checking_host true) (set_world w s))
  after_preflight (returned false, w) s =
      fail host_preflight (log (did checking_host false) (set_world w s))
  after_preflight (threw error, w) s = (raise error, log (did checking_host false) (set_world w s))

  abbrev pub phase_h2 : Run W → Control × Run W
  phase_h2 s = after_preflight (guard (d.preflight s.session.world)) (announce h2 s)

  abbrev pub after_plans : Ended (Option Plans) × W → Run W → Control × Run W
  after_plans (returned none, w) s = fail step_plan (log (did planning_steps false) (set_world w s))
  after_plans (returned (some plans), w) s =
      (next, log (did planning_steps true) (set_world w (record s { plans = plans })))
  after_plans (threw error, w) s = (raise error, log (did planning_steps false) (set_world w s))

  abbrev pub plan_steps : Run W → Control × Run W
  plan_steps s = after_plans (d.discover_step_plans s.session.world) s

  -- `if (!reconciled)`: G1, the first time round.
  abbrev pub phase_g1 : Bool → Run W → Control × Run W
  phase_g1 true s = (next, s)
  phase_g1 false s = guarded_call reconciling_vm d.reconcile (announce g1 s)

  abbrev pub dispose_attempt : Run W → Run W
  dispose_attempt s =
      log disposed (set_world (d.dispose s.session.world) (record s { has_executor = false }))

  abbrev pub after_wait : (Run W → Control × Run W) → GuestWait → Run W → Control × Run W
  after_wait again ready s = (next, log (did waiting_ready true) s)
  after_wait again auth_rejected s = again (dispose_attempt (log (did waiting_ready false) s))
  after_wait again (wait_threw error) s = (raise error, log (did waiting_ready false) s)

  abbrev pub after_create : (Run W → Control × Run W) → Ended Unit × W → Run W → Control × Run W
  after_create again (returned done, w) s =
      let (r, w') = d.wait_for_guest w in
      after_wait again r
        (log (did creating_executor true) (set_world w' (record s { has_executor = true })))
  after_create again (threw error, w) s =
      (raise error, log (did creating_executor false) (set_world w s))

  abbrev pub phase_g2 : (Run W → Control × Run W) → Run W → Control × Run W
  phase_g2 again s = after_create again (d.create_executor s.session.world) (announce g2 s)

  -- A prompt, raced against the interrupt; `entered` tells whether the input goes on.
  abbrev pub ask : Effect → Bool → (Run W → Control × Run W) → Run W → Control × Run W
  ask effect entered answered s =
      let w = d.asked s.session.world in
      if d.interrupts w
      then (raise interrupted, log (did effect false) (set_world w s))
      else answered (log (did effect entered) (set_world w s))

  -- The loop over H3, G1 and G2; `reconciled` is its flag.
  unfoldable pub guest_loop : List String → Bool → Run W → Control × Run W
  guest_loop [] reconciled s = ask asking_guest false (cancel d.end_reason) (announce h3 s)
  guest_loop (name ∷ names) reconciled s =
      ask asking_guest true
        (λ s'. then_phase (phase_g2 (guest_loop names true)) (phase_g1 reconciled s'))
        (announce h3 s)

  abbrev pub phase_g3 : Run W → Control × Run W
  phase_g3 s = call checking_guest d.structural_checks (announce g3 s)

  abbrev pub after_sharing :
      (Run W → Control × Run W) → Secret → Result Unit × Session W → Run W → Control × Run W
  after_sharing again secret (r, session) s =
      let ended = share_guard (r, session) in
      let s' = log (did sharing_default (is_returned ended)) (record s { session = session }) in
      if is_returned ended
      then (next, record s' { secret = secret })
      else if not (d.interrupts session.world) && asks_again r
      then again s'
      else (control_of ended, s')

  abbrev pub after_account :
      (Run W → Control × Run W) → Secret → Ended Bool × W → Run W → Control × Run W
  after_account again secret (returned true, w) s =
      let s' = log (did checking_account true) (set_world w s) in
      after_sharing again secret
        (replace_and_verify d.invoke d.parse d.drain d.expired default_target secret s'.session) s'
  after_account again secret (returned false, w) s =
      fail share_account (log (did checking_account false) (set_world w s))
  after_account again secret (threw error, w) s =
      (raise error, log (did checking_account false) (set_world w s))

  -- The loop of G4.
  unfoldable pub share_loop : List Secret → Run W → Control × Run W
  share_loop [] s = ask asking_share false (cancel d.end_reason) s
  share_loop (secret ∷ secrets) s =
      ask asking_share true
        (λ s'.
          after_account (share_loop secrets) secret
            (guard (d.check_host_share_account secret s'.session.world)) s')
        s

  abbrev pub phase_g4 : Run W → Control × Run W
  phase_g4 s = share_loop d.share_pairs (record (announce g4 s) { has_share_credentials = true })

  abbrev pub after_ca : Bool × W → Run W → Control × Run W
  after_ca (false, w) s = (raise trust_error, log (did reading_ca false) (set_world w s))
  after_ca (true, w) s =
      guarded_call reconciling_trust d.reconcile_trust (log (did reading_ca true) (set_world w s))

  abbrev pub phase_g5 : Run W → Control × Run W
  phase_g5 s = after_ca (d.read_proxy_ca s.session.world) (announce g5 s)
