-- ===== src/Setup/Endings.antt =====
-- The phases from G6 on keep what cleanup relies on, and every ending settles the credentials.
use susentorno.Base.{ℕ, refl, sym, subst, Bool, true, false, not, ◌||◌, List, []}
use susentorno.Sharing.Ledger.Laws.{status_at}
use susentorno.Sharing.Operations.{Session, Result, replace, verify, close}
use susentorno.Sharing.Operations.Careful.{
  IsCareful, replace-IsCareful, verify-IsCareful, close-IsCareful,
}
use susentorno.Sharing.Operations.Cleanup.{IsSettled, cleanup-IsSettled}
use susentorno.Steps.Runner.{GuestScript, StepRun, StepOutcome, run_windows_steps}
use susentorno.Setup.Types.{
  g6, g7, g8, g9, g10, g11, g12, g13, g14, run_hosting, Ended, returned, threw, GuestWait, ready,
  auth_rejected, wait_threw, Listeners, Effect, running_pre_steps, closing_default, checking_reboot,
  checking_listeners, replacing_internal, isolating_vm, waiting_ready_again, waiting_isolated,
  verifying_internal, running_post_steps, closing_internal, did, Deps, Run, Control, next, finish,
  raise,
}
use susentorno.Setup.Phases.{
  announce, log, set_world, fail, guarded_call, is_returned, steps_ended, step_left, then_phase,
  guard, share_guard, share_call, default_target, internal_target,
}
use susentorno.Setup.Isolation.{
  after_steps, run_steps, phase_g6, are_bound, after_listeners, check_listeners, phase_g7, phase_g8,
  phase_g9, after_second_wait, phase_g10, phase_g11, phase_g12, phase_g13, phase_g14,
}
use susentorno.Setup.Flow.{starting_run, prepare, main, clean_up_if, dispose_if, run_windows_setup}
use susentorno.Setup.Credentials.{
  IsFresh, Tidy, Sharing, Sharing-Tidy, Kept, then_phase-Kept, if_Kept, after_call-Sharing,
  after_share-Sharing, Sharing-world, Sharing-announced, Sharing-logged, prepare-Kept,
}

module _ {W : Type 0} (d : Deps W) where
  share_call-Sharing :
      (e : Effect) (operation : Session W → Result Unit × Session W) (s : Run W)
      → ((session : Session W) → IsCareful session → IsCareful (operation session).1)
      → Sharing s
      → Kept Sharing (share_call d e operation s)
  share_call-Sharing e operation s c h =
      after_share-Sharing d e (share_guard d (operation s.session)) (operation s.session).1 s
        (c s.session h.careful) h

  after_steps-Sharing :
      (e : Effect) (r : StepOutcome × StepRun W) (s : Run W)
      → Sharing s
      → Kept Sharing (after_steps d e r s)
  after_steps-Sharing e (outcome, run) s h =
      let ended = guard d (steps_ended outcome, run.world) in
      after_call-Sharing d e ended
        (record s { current_step = step_left (is_returned ended.0) run.invoked })
        (record { careful = h.careful; created = h.created })

  run_steps-Sharing :
      (e : Effect) (scripts : List GuestScript) (s : Run W)
      → Sharing s
      → Kept Sharing (run_steps d e scripts s)
  run_steps-Sharing e scripts s h =
      after_steps-Sharing e
        (run_windows_steps d.invoke_step d.aborted scripts
          (record { world = s.session.world; invoked = [] }))
        s h

  close-Sharing :
      (e : Effect) (s : Run W)
      → Sharing s
      → Kept Sharing
          (share_call d e (close d.invoke d.parse d.drain d.expired (default_target d)) s)
  close-Sharing e s h =
      share_call-Sharing e (close d.invoke d.parse d.drain d.expired (default_target d)) s
        (close-IsCareful d.invoke d.parse d.drain d.expired (default_target d)) h

  close_internal-Sharing :
      (e : Effect) (s : Run W)
      → Sharing s
      → Kept Sharing
          (share_call d e (close d.invoke d.parse d.drain d.expired (internal_target d)) s)
  close_internal-Sharing e s h =
      share_call-Sharing e (close d.invoke d.parse d.drain d.expired (internal_target d)) s
        (close-IsCareful d.invoke d.parse d.drain d.expired (internal_target d)) h

  phase_g6-Kept : (s : Run W) → Sharing s → Kept Sharing (phase_g6 d s)
  phase_g6-Kept s h =
      then_phase-Kept Sharing Sharing
        (share_call d closing_default (close d.invoke d.parse d.drain d.expired (default_target d)))
        (run_steps d running_pre_steps s.plans.pre (announce g6 s)) (close-Sharing closing_default)
        (run_steps-Sharing running_pre_steps s.plans.pre (announce g6 s)
          (Sharing-announced d g6 s h))

  after_listeners-Kept :
      (r : Ended Listeners × W) (s : Run W) → Sharing s → Kept Sharing (after_listeners d r s)
  after_listeners-Kept (returned l, w) s h =
      let s' = log (did checking_listeners (are_bound d l)) (set_world w s) in
      let h' : Sharing s' =
        Sharing-logged d (did checking_listeners (are_bound d l)) (set_world w s)
          (Sharing-world d w s h) in
      if_Kept Sharing (not l.dhcp_bound || not l.dns_bound) (fail run_hosting s') (next, s')
        (Sharing-Tidy s' h') h'
  after_listeners-Kept (threw error, w) s h =
      Sharing-Tidy (log (did checking_listeners false) (set_world w s))
        (Sharing-logged d (did checking_listeners false) (set_world w s) (Sharing-world d w s h))

  phase_g7-Kept : (s : Run W) → Sharing s → Kept Sharing (phase_g7 d s)
  phase_g7-Kept s h =
      then_phase-Kept Sharing Sharing (check_listeners d)
        (guarded_call d checking_reboot d.check_no_pending_reboot (announce g7 s))
        (λ t k. after_listeners-Kept (guard d (d.check_run_hosting_ready t.session.world)) t k)
        (after_call-Sharing d checking_reboot (guard d (d.check_no_pending_reboot s.session.world))
          (announce g7 s) (Sharing-announced d g7 s h))

  phase_g8-Kept : (s : Run W) → Sharing s → Kept Sharing (phase_g8 d s)
  phase_g8-Kept s h =
      share_call-Sharing replacing_internal
        (replace d.invoke d.parse d.drain d.expired (internal_target d) s.secret) (announce g8 s)
        (replace-IsCareful d.invoke d.parse d.drain d.expired (internal_target d) s.secret)
        (Sharing-announced d g8 s h)

  after_second_wait-Kept :
      (r : GuestWait × W) (s : Run W) → Sharing s → Kept Sharing (after_second_wait d r s)
  after_second_wait-Kept (ready, w) s h =
      Sharing-logged d (did waiting_ready_again true) (set_world w s) (Sharing-world d w s h)
  after_second_wait-Kept (auth_rejected, w) s h =
      Sharing-Tidy (log (did waiting_ready_again false) (set_world w s))
        (Sharing-logged d (did waiting_ready_again false) (set_world w s) (Sharing-world d w s h))
  after_second_wait-Kept (wait_threw error, w) s h =
      Sharing-Tidy (log (did waiting_ready_again false) (set_world w s))
        (Sharing-logged d (did waiting_ready_again false) (set_world w s) (Sharing-world d w s h))

  phase_g12-Kept : (s : Run W) → Sharing s → Kept Sharing (phase_g12 d s)
  phase_g12-Kept s h =
      share_call-Sharing verifying_internal
        (verify d.invoke d.parse d.drain d.expired (internal_target d)) (announce g12 s)
        (verify-IsCareful d.invoke d.parse d.drain d.expired (internal_target d))
        (Sharing-announced d g12 s h)

  phase_g13-Kept : (s : Run W) → Sharing s → Kept Sharing (phase_g13 d s)
  phase_g13-Kept s h =
      then_phase-Kept Sharing Sharing
        (share_call d closing_internal
          (close d.invoke d.parse d.drain d.expired (internal_target d)))
        (run_steps d running_post_steps s.plans.post (announce g13 s))
        (close_internal-Sharing closing_internal)
        (run_steps-Sharing running_post_steps s.plans.post (announce g13 s)
          (Sharing-announced d g13 s h))

  phase_g14-Kept : (s : Run W) → Sharing s → Kept Sharing (phase_g14 d s)
  phase_g14-Kept s h = Sharing-Tidy (announce g14 s) (Sharing-announced d g14 s h)

  main-Kept : (w : W) → Kept Sharing (main d w)
  unfolding main
  main-Kept w =
      let r0 = prepare d (starting_run w) in
      let p0 : Kept Sharing r0 = prepare-Kept d w in
      let r1 = then_phase (phase_g6 d) r0 in
      let p1 = then_phase-Kept Sharing Sharing (phase_g6 d) r0 phase_g6-Kept p0 in
      let r2 = then_phase (phase_g7 d) r1 in
      let p2 = then_phase-Kept Sharing Sharing (phase_g7 d) r1 phase_g7-Kept p1 in
      let r3 = then_phase (phase_g8 d) r2 in
      let p3 = then_phase-Kept Sharing Sharing (phase_g8 d) r2 phase_g8-Kept p2 in
      let r4 = then_phase (phase_g9 d) r3 in
      let p4 =
        then_phase-Kept Sharing Sharing (phase_g9 d) r3
          (λ s h.
            after_call-Sharing d isolating_vm (guard d (d.isolate s.session.world)) (announce g9 s)
              (Sharing-announced d g9 s h))
          p3 in
      let r5 = then_phase (phase_g10 d) r4 in
      let p5 =
        then_phase-Kept Sharing Sharing (phase_g10 d) r4
          (λ s h.
            after_second_wait-Kept (d.wait_for_guest s.session.world) (announce g10 s)
              (Sharing-announced d g10 s h))
          p4 in
      let r6 = then_phase (phase_g11 d) r5 in
      let p6 =
        then_phase-Kept Sharing Sharing (phase_g11 d) r5
          (λ s h.
            after_call-Sharing d waiting_isolated
              (guard d (d.wait_for_isolated_network s.session.world)) (announce g11 s)
              (Sharing-announced d g11 s h))
          p5 in
      let r7 = then_phase (phase_g12 d) r6 in
      let p7 = then_phase-Kept Sharing Sharing (phase_g12 d) r6 phase_g12-Kept p6 in
      let r8 = then_phase (phase_g13 d) r7 in
      let p8 = then_phase-Kept Sharing Sharing (phase_g13 d) r7 phase_g13-Kept p7 in
      then_phase-Kept Sharing Sharing (phase_g14 d) r8 phase_g14-Kept p8

  Kept-Tidy : (r : Control × Run W) → Kept Sharing r → Tidy r.1
  Kept-Tidy (next, s) h = Sharing-Tidy s h
  Kept-Tidy (finish outcome, s) h = h
  Kept-Tidy (raise error, s) h = h

  clean_up_if-IsSettled :
      (b : Bool) (s : Run W) (k : ℕ)
      → IsCareful s.session
      → IsFresh b s.session.ledger
      → IsSettled (status_at k s.session.ledger) (status_at k (clean_up_if d b s).session.ledger)
  clean_up_if-IsSettled true s k c f =
      cleanup-IsSettled d.invoke d.parse d.drain d.expired s.session c.sound k
  clean_up_if-IsSettled false s k c f =
      subst (λ l. IsSettled (status_at k l) (status_at k l)) (sym f) refl

  dispose_if-IsSettled :
      (b : Bool) (s t : Run W) (k : ℕ)
      → IsSettled (status_at k s.session.ledger) (status_at k t.session.ledger)
      → IsSettled (status_at k s.session.ledger) (status_at k (dispose_if d b t).session.ledger)
  dispose_if-IsSettled true s t k h = h
  dispose_if-IsSettled false s t k h = h

  -- However runWindowsSetup ends, in success, failure or cancellation, and whatever the guest has
  -- answered, no share credential is left as written: each that was when `main` ended is removed,
  -- or noted as one whose removal failed. A verified one is kept, as is every other status.
  pub run_windows_setup-IsSettled :
      (w : W) (k : ℕ)
      → IsSettled
          (status_at k (main d w).1.session.ledger)
          (status_at k (run_windows_setup d w).run.session.ledger)
  unfolding run_windows_setup
  run_windows_setup-IsSettled w k =
      let s = (main d w).1 in
      let h = Kept-Tidy (main d w) (main-Kept w) in
      dispose_if-IsSettled s.has_executor s (clean_up_if d s.has_share_credentials s) k
        (clean_up_if-IsSettled s.has_share_credentials s k h.careful h.fresh)
