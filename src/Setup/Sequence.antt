-- ===== src/Setup/Sequence.antt =====
-- The phases from G6 on keep the order, and so does the whole flow.
use susentorno.Base.{
  ◌+◌, ◌≡◌, arith, Bool, true, false, not, ◌||◌, List, [], if◌then◌else◌, Bool-cases, inl, inr,
}
use susentorno.Sharing.Operations.{replace, verify, close}
use susentorno.Steps.Runner.{GuestScript, StepRun, StepOutcome, run_windows_steps}
use susentorno.Setup.Types.{
  run_hosting, g6, g7, g8, g9, g10, g11, g12, g13, Outcome, success, Ended, returned, threw,
  GuestWait, ready, auth_rejected, wait_threw, Listeners, Effect, running_pre_steps,
  closing_default, checking_reboot, checking_listeners, replacing_internal, isolating_vm,
  waiting_ready_again, waiting_isolated, verifying_internal, running_post_steps, closing_internal,
  Act, did, Deps, Run, Control, next, finish, raise,
}
use susentorno.Setup.Phases.{
  announce, log, set_world, fail, guarded_call, is_returned, steps_ended, then_phase, guard,
  share_call, default_target, internal_target, step_left,
}
use susentorno.Setup.Isolation.{
  after_steps, run_steps, phase_g6, are_bound, after_listeners, check_listeners, phase_g7, phase_g8,
  phase_g9, after_second_wait, phase_g10, phase_g11, phase_g12, phase_g13, phase_g14,
}
use susentorno.Setup.Flow.{
  starting_run, prepare, main, clean_up_if, dispose_if, outcome_of, run_windows_setup,
}
use susentorno.Setup.Outcomes.{not_success}
use susentorno.Setup.Order.{
  rank, IsDone, IsGated, Gate, Passed, IsDone-next, then_phase-Passed, after_call-Passed,
  share_call-Passed,
}
use susentorno.Setup.Gates.{announce-Gate, fail-Passed, prepare-Passed}

module _ {W : Type 0} (d : Deps W) where
  after_steps-Passed :
      (e : Effect) (r : StepOutcome × StepRun W) (s : Run W)
      → Gate (rank e) s
      → Passed (rank e + 1) (after_steps d e r s)
  after_steps-Passed e (outcome, run) s h =
      let ended = guard d (steps_ended outcome, run.world) in
      let left = step_left (is_returned ended.0) run.invoked in
      after_call-Passed d e ended (record s { current_step = left })
        (record { gated = h.gated; done = h.done })

  run_steps-Passed :
      (e : Effect) (scripts : List GuestScript) (s : Run W)
      → Gate (rank e) s
      → Passed (rank e + 1) (run_steps d e scripts s)
  run_steps-Passed e scripts s h =
      after_steps-Passed e
        (run_windows_steps d.invoke_step d.aborted scripts
          (record { world = s.session.world; invoked = [] }))
        s h

  phase_g6-Passed : (s : Run W) → Gate 13 s → Passed 15 (phase_g6 d s)
  phase_g6-Passed s h =
      then_phase-Passed 14 15
        (share_call d closing_default (close d.invoke d.parse d.drain d.expired (default_target d)))
        (run_steps d running_pre_steps s.plans.pre (announce g6 s))
        (λ t k.
          share_call-Passed d closing_default
            (close d.invoke d.parse d.drain d.expired (default_target d)) t k)
        (run_steps-Passed running_pre_steps s.plans.pre (announce g6 s) (announce-Gate 13 g6 s h))

  listeners_bound :
      (l : Listeners) (s : Run W)
      → Gate 16 s
      → let s' = log (did checking_listeners (are_bound d l)) s in
        Passed 17 (if not l.dhcp_bound || not l.dns_bound then fail run_hosting s' else (next, s'))
  listeners_bound l s h = elim (Bool-cases (are_bound d l)) [
    | inl y ↦
        let e : (not l.dhcp_bound || not l.dns_bound) ≡ false = ground arith in
        rw (y, e)
          (record {
            gated = (h.done, h.gated);
            done = IsDone-next checking_listeners s.acts h.done;
          })
    | inr n ↦
        let e : (not l.dhcp_bound || not l.dns_bound) ≡ true = ground arith in
        rw (n, e) ((h.done, h.gated), λ q. absurd cc)
  ]

  after_listeners-Passed :
      (r : Ended Listeners × W) (s : Run W) → Gate 16 s → Passed 17 (after_listeners d r s)
  after_listeners-Passed (returned l, w) s h =
      listeners_bound l (set_world w s) (record { gated = h.gated; done = h.done })
  after_listeners-Passed (threw error, w) s h = (h.done, h.gated)

  phase_g7-Passed : (s : Run W) → Gate 15 s → Passed 17 (phase_g7 d s)
  phase_g7-Passed s h =
      then_phase-Passed 16 17 (check_listeners d)
        (guarded_call d checking_reboot d.check_no_pending_reboot (announce g7 s))
        (λ t k. after_listeners-Passed (guard d (d.check_run_hosting_ready t.session.world)) t k)
        (after_call-Passed d checking_reboot (guard d (d.check_no_pending_reboot s.session.world))
          (announce g7 s) (announce-Gate 15 g7 s h))

  phase_g8-Passed : (s : Run W) → Gate 17 s → Passed 18 (phase_g8 d s)
  phase_g8-Passed s h =
      share_call-Passed d replacing_internal
        (replace d.invoke d.parse d.drain d.expired (internal_target d) s.secret) (announce g8 s)
        (announce-Gate 17 g8 s h)

  phase_g9-Passed : (s : Run W) → Gate 18 s → Passed 19 (phase_g9 d s)
  phase_g9-Passed s h =
      after_call-Passed d isolating_vm (guard d (d.isolate s.session.world)) (announce g9 s)
        (announce-Gate 18 g9 s h)

  after_second_wait-Passed :
      (r : GuestWait × W) (s : Run W) → Gate 19 s → Passed 20 (after_second_wait d r s)
  after_second_wait-Passed (ready, w) s h = record {
    gated = (h.done, h.gated);
    done = IsDone-next waiting_ready_again s.acts h.done;
  }
  after_second_wait-Passed (auth_rejected, w) s h =
      fail-Passed 20 _ (log (did waiting_ready_again false) (set_world w s)) (h.done, h.gated)
  after_second_wait-Passed (wait_threw error, w) s h = (h.done, h.gated)

  phase_g10-Passed : (s : Run W) → Gate 19 s → Passed 20 (phase_g10 d s)
  phase_g10-Passed s h =
      after_second_wait-Passed (d.wait_for_guest s.session.world) (announce g10 s)
        (announce-Gate 19 g10 s h)

  phase_g11-Passed : (s : Run W) → Gate 20 s → Passed 21 (phase_g11 d s)
  phase_g11-Passed s h =
      after_call-Passed d waiting_isolated (guard d (d.wait_for_isolated_network s.session.world))
        (announce g11 s) (announce-Gate 20 g11 s h)

  phase_g12-Passed : (s : Run W) → Gate 21 s → Passed 22 (phase_g12 d s)
  phase_g12-Passed s h =
      share_call-Passed d verifying_internal
        (verify d.invoke d.parse d.drain d.expired (internal_target d)) (announce g12 s)
        (announce-Gate 21 g12 s h)

  phase_g13-Passed : (s : Run W) → Gate 22 s → Passed 24 (phase_g13 d s)
  phase_g13-Passed s h =
      then_phase-Passed 23 24
        (share_call d closing_internal
          (close d.invoke d.parse d.drain d.expired (internal_target d)))
        (run_steps d running_post_steps s.plans.post (announce g13 s))
        (λ t k.
          share_call-Passed d closing_internal
            (close d.invoke d.parse d.drain d.expired (internal_target d)) t k)
        (run_steps-Passed running_post_steps s.plans.post (announce g13 s)
          (announce-Gate 22 g13 s h))

  phase_g14-Passed : (s : Run W) → Gate 24 s → Passed 24 (phase_g14 d s)
  phase_g14-Passed s h = (h.gated, λ e. h.done)

  main-Passed : (w : W) → Passed 24 (main d w)
  unfolding main
  main-Passed w =
      let r0 = prepare d (starting_run w) in
      let p0 : Passed 13 r0 = prepare-Passed d w in
      let r1 = then_phase (phase_g6 d) r0 in
      let p1 = then_phase-Passed 13 15 (phase_g6 d) r0 phase_g6-Passed p0 in
      let r2 = then_phase (phase_g7 d) r1 in
      let p2 = then_phase-Passed 15 17 (phase_g7 d) r1 phase_g7-Passed p1 in
      let r3 = then_phase (phase_g8 d) r2 in
      let p3 = then_phase-Passed 17 18 (phase_g8 d) r2 phase_g8-Passed p2 in
      let r4 = then_phase (phase_g9 d) r3 in
      let p4 = then_phase-Passed 18 19 (phase_g9 d) r3 phase_g9-Passed p3 in
      let r5 = then_phase (phase_g10 d) r4 in
      let p5 = then_phase-Passed 19 20 (phase_g10 d) r4 phase_g10-Passed p4 in
      let r6 = then_phase (phase_g11 d) r5 in
      let p6 = then_phase-Passed 20 21 (phase_g11 d) r5 phase_g11-Passed p5 in
      let r7 = then_phase (phase_g12 d) r6 in
      let p7 = then_phase-Passed 21 22 (phase_g12 d) r6 phase_g12-Passed p6 in
      let r8 = then_phase (phase_g13 d) r7 in
      let p8 = then_phase-Passed 22 24 (phase_g13 d) r7 phase_g13-Passed p7 in
      then_phase-Passed 24 24 (phase_g14 d) r8 phase_g14-Passed p8

  -- The acts are in order, and all calls have been made and have succeeded if the run has.
  abbrev pub IsSequence : Outcome → List Act → Type 0
  IsSequence outcome acts = IsGated acts × (outcome ≡ success → IsDone 24 acts)

  Passed-IsSequence : (r : Control × Run W) → Passed 24 r → IsSequence (outcome_of r) (r.1).acts
  Passed-IsSequence (next, s) h = (h.gated, λ e. h.done)
  Passed-IsSequence (finish outcome, s) h = h
  Passed-IsSequence (raise error, s) h =
      (h, λ e. absurd (not_success error s.phase s.current_step e))

  dispose_if-IsSequence :
      (b : Bool) (outcome : Outcome) (s : Run W)
      → IsSequence outcome s.acts
      → IsSequence outcome (dispose_if d b s).acts
  dispose_if-IsSequence true outcome s h = h
  dispose_if-IsSequence false outcome s h = h

  clean_up_if-IsSequence :
      (b : Bool) (outcome : Outcome) (s : Run W)
      → IsSequence outcome s.acts
      → IsSequence outcome (clean_up_if d b s).acts
  clean_up_if-IsSequence true outcome s h = h
  clean_up_if-IsSequence false outcome s h = h

  -- Whatever the host, the guest and the user answer, runWindowsSetup makes each of the 24 calls of
  -- `Effect`, from the host's answers to the last closing, only when every call of a lower `rank` has
  -- been made and has succeeded the last time: no step of the guest runs before trust is reconciled,
  -- and the VM is not isolated before the gate is passed. A run that ends in success has made them
  -- all, and each has succeeded the last time it was made.
  pub run_windows_setup-IsSequence :
      (w : W) → IsSequence (run_windows_setup d w).outcome (run_windows_setup d w).run.acts
  unfolding run_windows_setup
  run_windows_setup-IsSequence w =
      let r = main d w in
      let s = r.1 in
      dispose_if-IsSequence s.has_executor (outcome_of r) (clean_up_if d s.has_share_credentials s)
        (clean_up_if-IsSequence s.has_share_credentials (outcome_of r) s
          (Passed-IsSequence r (main-Passed w)))
