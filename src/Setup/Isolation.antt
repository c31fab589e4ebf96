-- ===== src/Setup/Isolation.antt =====
-- The phases G6 to G14 of `main` in runWindowsSetup.
use susentorno.Base.{Bool, true, false, not, ◌&&◌, ◌||◌, List, [], if◌then◌else◌}
use susentorno.Sharing.Operations.{replace, verify, close}
use susentorno.Steps.Runner.{GuestScript, StepRun, StepOutcome, run_windows_steps}
use susentorno.Setup.Types.{
  g6, g7, g8, g9, g10, g11, g12, g13, g14, run_hosting, guest_authentication, success, Ended,
  returned, threw, GuestWait, ready, auth_rejected, wait_threw, Listeners, Effect,
  running_pre_steps, closing_default, checking_reboot, checking_listeners, replacing_internal,
  isolating_vm, waiting_ready_again, waiting_isolated, verifying_internal, running_post_steps,
  closing_internal, did, Deps, Run, Control, next, finish, raise,
}
use susentorno.Setup.Phases.{
  announce, log, set_world, fail, is_returned, steps_ended, step_left, then_phase, guard,
  after_call, guarded_call, share_call, default_target, internal_target,
}

module _ {W : Type 0} (d : Deps W) where
  abbrev pub after_steps : Effect → StepOutcome × StepRun W → Run W → Control × Run W
  after_steps effect (outcome, run) s =
      let ended = guard d (steps_ended outcome, run.world) in
      after_call d effect ended
        (record s { current_step = step_left (is_returned ended.0) run.invoked })

  abbrev pub run_steps : Effect → List GuestScript → Run W → Control × Run W
  run_steps effect scripts s =
      after_steps effect
        (run_windows_steps d.invoke_step d.aborted scripts
          (record { world = s.session.world; invoked = [] }))
        s

  abbrev pub phase_g6 : Run W → Control × Run W
  phase_g6 s =
      then_phase
        (share_call d closing_default (close d.invoke d.parse d.drain d.expired (default_target d)))
        (run_steps running_pre_steps s.plans.pre (announce g6 s))

  abbrev pub are_bound : Listeners → Bool
  are_bound l = l.dhcp_bound && l.dns_bound

  abbrev pub after_listeners : Ended Listeners × W → Run W → Control × Run W
  after_listeners (returned l, w) s =
      let s' = log (did checking_listeners (are_bound l)) (set_world w s) in
      if not l.dhcp_bound || not l.dns_bound then fail run_hosting s' else (next, s')
  after_listeners (threw error, w) s =
      (raise error, log (did checking_listeners false) (set_world w s))

  abbrev pub check_listeners : Run W → Control × Run W
  check_listeners s = after_listeners (guard d (d.check_run_hosting_ready s.session.world)) s

  abbrev pub phase_g7 : Run W → Control × Run W
  phase_g7 s =
      then_phase check_listeners
        (guarded_call d checking_reboot d.check_no_pending_reboot (announce g7 s))

  abbrev pub phase_g8 : Run W → Control × Run W
  phase_g8 s =
      share_call d replacing_internal
        (replace d.invoke d.parse d.drain d.expired (internal_target d) s.secret) (announce g8 s)

  abbrev pub phase_g9 : Run W → Control × Run W
  phase_g9 s = guarded_call d isolating_vm d.isolate (announce g9 s)

  abbrev pub after_second_wait : GuestWait × W → Run W → Control × Run W
  after_second_wait (ready, w) s = (next, log (did waiting_ready_again true) (set_world w s))
  after_second_wait (auth_rejected, w) s =
      fail guest_authentication (log (did waiting_ready_again false) (set_world w s))
  after_second_wait (wait_threw error, w) s =
      (raise error, log (did waiting_ready_again false) (set_world w s))

  abbrev pub phase_g10 : Run W → Control × Run W
  phase_g10 s = after_second_wait (d.wait_for_guest s.session.world) (announce g10 s)

  abbrev pub phase_g11 : Run W → Control × Run W
  phase_g11 s = guarded_call d waiting_isolated d.wait_for_isolated_network (announce g11 s)

  abbrev pub phase_g12 : Run W → Control × Run W
  phase_g12 s =
      share_call d verifying_internal
        (verify d.invoke d.parse d.drain d.expired (internal_target d)) (announce g12 s)

  abbrev pub phase_g13 : Run W → Control × Run W
  phase_g13 s =
      then_phase
        (share_call d closing_internal
          (close d.invoke d.parse d.drain d.expired (internal_target d)))
        (run_steps running_post_steps s.plans.post (announce g13 s))

  abbrev pub phase_g14 : Run W → Control × Run W
  phase_g14 s = (finish success, announce g14 s)
