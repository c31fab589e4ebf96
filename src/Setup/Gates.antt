-- ===== src/Setup/Gates.antt =====
-- Each phase keeps the order; and the theorem on the whole flow.
use susentorno.Base.{
  ℕ, ◌+◌, ◌≤◌, arith, Bool, true, false, not, ◌&&◌, Option, none, some, List, [], ◌∷◌, String,
  if◌then◌else◌,
}
use susentorno.Sharing.Operations.{Secret, Session, replace_and_verify}
use susentorno.Sharing.Operations.Asking.{asks_again}
use susentorno.Setup.Types.{
  Phase, SetupFailureKind, Ended, returned, threw, GuestWait, ready, auth_rejected, wait_threw,
  Plans, Effect, resolving_answers, checking_host, planning_steps, asking_guest, creating_executor,
  asking_share, checking_account, reading_ca, reconciling_vm, waiting_ready, checking_guest,
  sharing_default, reconciling_trust, did, Deps, Run, Control, next, h1, h3, g1, g3,
}
use susentorno.Setup.Phases.{
  announce, log, set_world, fail, cancel, is_returned, control_of, then_phase, guard, share_guard,
  default_target, after_answers, phase_h1, after_preflight, phase_h2, after_plans, plan_steps,
  phase_g1, after_wait, after_create, phase_g2, ask, guest_loop, phase_g3, after_account,
  share_loop, phase_g4, after_ca, phase_g5,
}
use susentorno.Setup.Flow.{starting_run, prepare}
use susentorno.Setup.Order.{
  rank, IsGated, Gate, Passed, IsDone-less, IsDone-next, IsDone-again, IsDone-failed,
  then_phase-Passed, after_call-Passed,
}

pub announce-Gate : {W : Type 0} (n : ℕ) (p : Phase) (s : Run W) → Gate n s → Gate n (announce p s)
announce-Gate n p s h = record { gated = h.gated; done = h.done }

pub if_Passed :
    {W : Type 0} (n : ℕ) (b : Bool) (r q : Control × Run W)
    → Passed n r
    → Passed n q
    → Passed n (if b then r else q)
if_Passed n true r q h k = h
if_Passed n false r q h k = k

pub fail-Passed :
    {W : Type 0} (n : ℕ) (kind : SetupFailureKind) (s : Run W)
    → IsGated s.acts
    → Passed n (fail kind s)
fail-Passed n kind s h = (h, λ e. absurd cc)

-- A call that ends well in its place, or once more behind it, and one that fails and is made again.
pub next-Gate :
    {W : Type 0} (e : Effect) (s : Run W) → Gate (rank e) s → Gate (rank e + 1) (log (did e true) s)
next-Gate e s h = record { gated = (h.done, h.gated); done = IsDone-next e s.acts h.done }

again-Gate :
    {W : Type 0} (n : ℕ) (e : Effect) (s : Run W)
    → rank e ≤ n
    → Gate n s
    → Gate n (log (did e true) s)
again-Gate n e s l h = record {
  gated = (IsDone-less (rank e) n s.acts l h.done, h.gated);
  done = IsDone-again n e s.acts h.done;
}

failed-Gate :
    {W : Type 0} (m : ℕ) (e : Effect) (s : Run W)
    → m ≤ rank e
    → Gate (rank e) s
    → Gate m (log (did e false) s)
failed-Gate m e s l h = record {
  gated = (h.done, h.gated);
  done = IsDone-failed m e s.acts l (IsDone-less m (rank e) s.acts l h.done);
}

less-Gate : {W : Type 0} (m n : ℕ) (s : Run W) → m ≤ n → Gate n s → Gate m s
less-Gate m n s l h = record { gated = h.gated; done = IsDone-less m n s.acts l h.done }

module _ {W : Type 0} (d : Deps W) where
  world-Gate : (n : ℕ) (w : W) (s : Run W) → Gate n s → Gate n (set_world w s)
  world-Gate n w s h = record { gated = h.gated; done = h.done }

  start-Gate : (w : W) → Gate 0 (starting_run w)
  start-Gate w = record { gated = tt; done = λ e l. absurd (omega arith) }

  after_answers-Passed :
      (r : Ended String × W) (s : Run W) → Gate 0 s → Passed 1 (after_answers d r s)
  after_answers-Passed (returned name, w) s h =
      next-Gate resolving_answers (set_world w (record s { vm_name = some name }))
        (record { gated = h.gated; done = h.done })
  after_answers-Passed (threw error, w) s h = (h.done, h.gated)

  phase_h1-Passed : (s : Run W) → Gate 0 s → Passed 1 (phase_h1 d s)
  phase_h1-Passed s h =
      if_Passed 1 (d.aborted s.session.world) _ _ (h.gated, λ e. absurd cc)
        (after_answers-Passed _ (announce h1 s) (announce-Gate 0 h1 s h))

  after_preflight-Passed :
      (r : Ended Bool × W) (s : Run W) → Gate 1 s → Passed 2 (after_preflight d r s)
  after_preflight-Passed (returned true, w) s h =
      next-Gate checking_host (set_world w s) (world-Gate 1 w s h)
  after_preflight-Passed (returned false, w) s h = ((h.done, h.gated), λ e. absurd cc)
  after_preflight-Passed (threw error, w) s h = (h.done, h.gated)

  phase_h2-Passed : (s : Run W) → Gate 1 s → Passed 2 (phase_h2 d s)
  phase_h2-Passed s h = after_preflight-Passed _ _ (announce-Gate 1 _ s h)

  after_plans-Passed :
      (r : Ended (Option Plans) × W) (s : Run W) → Gate 2 s → Passed 3 (after_plans d r s)
  after_plans-Passed (returned none, w) s h = ((h.done, h.gated), λ e. absurd cc)
  after_plans-Passed (returned (some plans), w) s h =
      next-Gate planning_steps (set_world w (record s { plans = plans }))
        (record { gated = h.gated; done = h.done })
  after_plans-Passed (threw error, w) s h = (h.done, h.gated)

  plan_steps-Passed : (s : Run W) → Gate 2 s → Passed 3 (plan_steps d s)
  plan_steps-Passed s h = after_plans-Passed (d.discover_step_plans s.session.world) s h

  -- How far the loop has come before its prompt and behind it, when the VM has been reconciled and
  -- when it has not.
  abbrev reached : Bool → ℕ
  reached false = 3
  reached true = 5

  abbrev reached_pair : Bool → ℕ
  reached_pair false = 4
  reached_pair true = 5

  phase_g1-Passed :
      (reconciled : Bool) (s : Run W)
      → Gate (reached_pair reconciled) s
      → Passed 5 (phase_g1 d reconciled s)
  phase_g1-Passed true s h = h
  phase_g1-Passed false s h =
      after_call-Passed d reconciling_vm (guard d (d.reconcile s.session.world)) _
        (announce-Gate 4 g1 s h)

  after_wait-Passed :
      (again : Run W → Control × Run W) (r : GuestWait) (s : Run W)
      → ((t : Run W) → Gate 5 t → Passed 7 (again t))
      → Gate 6 s
      → Passed 7 (after_wait d again r s)
  after_wait-Passed again ready s f h = next-Gate waiting_ready s h
  after_wait-Passed again auth_rejected s f h =
      let k = failed-Gate 5 waiting_ready s (omega arith) h in
      f _ (record { gated = k.gated; done = k.done })
  after_wait-Passed again (wait_threw error) s f h = (h.done, h.gated)

  after_create-Passed :
      (again : Run W → Control × Run W) (r : Ended Unit × W) (s : Run W)
      → ((t : Run W) → Gate 5 t → Passed 7 (again t))
      → Gate 5 s
      → Passed 7 (after_create d again r s)
  after_create-Passed again (returned done, w) s f h =
      after_wait-Passed again (d.wait_for_guest w).0 _ f (
        next-Gate creating_executor
          (set_world (d.wait_for_guest w).1 (record s { has_executor = true }))
          (record { gated = h.gated; done = h.done }))
  after_create-Passed again (threw error, w) s f h = (h.done, h.gated)

  phase_g2-Passed :
      (again : Run W → Control × Run W) (s : Run W)
      → ((t : Run W) → Gate 5 t → Passed 7 (again t))
      → Gate 5 s
      → Passed 7 (phase_g2 d again s)
  phase_g2-Passed again s f h =
      after_create-Passed again (d.create_executor s.session.world) _ f (announce-Gate 5 _ s h)

  -- A prompt behind what must come before it.
  ask-Passed :
      (m : ℕ) (e : Effect) (entered : Bool) (answered : Run W → Control × Run W) (s : Run W)
      → Gate (rank e) s
      → Passed m (answered (log (did e entered) (set_world (d.asked s.session.world) s)))
      → Passed m (ask d e entered answered s)
  ask-Passed m e entered answered s h k =
      if_Passed m (d.interrupts (d.asked s.session.world)) _ _ (h.done, h.gated) k

  ended-Passed :
      (m : ℕ) (e : Effect) (s : Run W)
      → Gate (rank e) s
      → Passed m (ask d e false (cancel d.end_reason) s)
  ended-Passed m e s h =
      ask-Passed m e false (cancel d.end_reason) s h ((h.done, h.gated), λ q. absurd cc)

  reached-Gate : (b : Bool) (s : Run W) → Gate (reached b) s → Gate 3 s
  reached-Gate false s h = h
  reached-Gate true s h = less-Gate 3 5 s (omega arith) h

  pair-Gate :
      (b : Bool) (s : Run W)
      → Gate (reached b) s
      → Gate (reached_pair b) (log (did asking_guest true) s)
  pair-Gate false s h = next-Gate asking_guest s h
  pair-Gate true s h = again-Gate 5 asking_guest s (omega arith) h

  guest_loop-Passed :
      (names : List String) (reconciled : Bool) (s : Run W)
      → Gate (reached reconciled) s
      → Passed 7 (guest_loop d names reconciled s)
  unfolding guest_loop
  guest_loop-Passed [] reconciled s h =
      ended-Passed 7 asking_guest (announce h3 s)
        (announce-Gate 3 h3 s (reached-Gate reconciled s h))
  guest_loop-Passed (name ∷ names) reconciled s h =
      let asked = set_world (d.asked s.session.world) (announce h3 s) in
      let k = announce-Gate (reached reconciled) h3 s h in
      let t = log (did asking_guest true) asked in
      let g =
        pair-Gate reconciled asked
          (world-Gate (reached reconciled) (d.asked s.session.world) (announce h3 s) k) in
      ask-Passed 7 asking_guest true
        (λ u. then_phase (phase_g2 d (guest_loop d names true)) (phase_g1 d reconciled u))
        (announce h3 s) (reached-Gate reconciled (announce h3 s) k)
        (then_phase-Passed 5 7 (phase_g2 d (guest_loop d names true)) (phase_g1 d reconciled t)
          (λ u q.
            phase_g2-Passed (guest_loop d names true) u (λ v p. guest_loop-Passed names true v p) q)
          (phase_g1-Passed reconciled t g))

  phase_g3-Passed : (s : Run W) → Gate 7 s → Passed 8 (phase_g3 d s)
  phase_g3-Passed s h =
      after_call-Passed d checking_guest (d.structural_checks s.session.world) (announce g3 s)
        (announce-Gate 7 g3 s h)

  shared_or_again :
      (b : Bool) (ended : Ended Unit) (again : Run W → Control × Run W) (session : Session W)
      (secret : Secret) (s : Run W)
      → ((t : Run W) → Gate 8 t → Passed 11 (again t))
      → Gate 10 s
      → let s' = log (did sharing_default (is_returned ended)) (record s { session = session }) in
        Passed 11 (
          if is_returned ended
          then (next, record s' { secret = secret })
          else if b
          then again s'
          else (control_of ended, s'))
  shared_or_again b (returned done) again session secret s f h = record {
    gated = (h.done, h.gated);
    done = IsDone-next sharing_default s.acts h.done;
  }
  shared_or_again true (threw error) again session secret s f h =
      let k = failed-Gate 8 sharing_default s (omega arith) h in
      f _ (record { gated = k.gated; done = k.done })
  shared_or_again false (threw error) again session secret s f h = (h.done, h.gated)

  after_account-Passed :
      (again : Run W → Control × Run W) (secret : Secret) (r : Ended Bool × W) (s : Run W)
      → ((t : Run W) → Gate 8 t → Passed 11 (again t))
      → Gate 9 s
      → Passed 11 (after_account d again secret r s)
  after_account-Passed again secret (returned true, w) s f h =
      let s' = log (did checking_account true) (set_world w s) in
      let (r, session) =
        replace_and_verify d.invoke d.parse d.drain d.expired (default_target d) secret
          s'.session in
      shared_or_again (not (d.interrupts session.world) && asks_again r)
        (share_guard d (r, session)) again session secret s' f
        (next-Gate checking_account (set_world w s) (world-Gate 9 w s h))
  after_account-Passed again secret (returned false, w) s f h = ((h.done, h.gated), λ e. absurd cc)
  after_account-Passed again secret (threw error, w) s f h = (h.done, h.gated)

  share_loop-Passed :
      (secrets : List Secret) (s : Run W) → Gate 8 s → Passed 11 (share_loop d secrets s)
  unfolding share_loop
  share_loop-Passed [] s h = ended-Passed 11 asking_share s h
  share_loop-Passed (secret ∷ secrets) s h =
      let w = d.asked s.session.world in
      let t = log (did asking_share true) (set_world w s) in
      ask-Passed 11 asking_share true
        (λ u.
          after_account d (share_loop d secrets) secret
            (guard d (d.check_host_share_account secret u.session.world)) u)
        s h
        (after_account-Passed (share_loop d secrets) secret
          (guard d (d.check_host_share_account secret w)) t (λ u g. share_loop-Passed secrets u g)
          (next-Gate asking_share (set_world w s) (world-Gate 8 w s h)))

  phase_g4-Passed : (s : Run W) → Gate 8 s → Passed 11 (phase_g4 d s)
  phase_g4-Passed s h =
      share_loop-Passed d.share_pairs _ (record { gated = h.gated; done = h.done })

  after_ca-Passed : (r : Bool × W) (s : Run W) → Gate 11 s → Passed 13 (after_ca d r s)
  after_ca-Passed (false, w) s h = (h.done, h.gated)
  after_ca-Passed (true, w) s h =
      after_call-Passed d reconciling_trust (guard d (d.reconcile_trust w)) _
        (next-Gate reading_ca (set_world w s) (world-Gate 11 w s h))

  phase_g5-Passed : (s : Run W) → Gate 11 s → Passed 13 (phase_g5 d s)
  phase_g5-Passed s h = after_ca-Passed (d.read_proxy_ca s.session.world) _ (announce-Gate 11 _ s h)

  pub prepare-Passed : (w : W) → Passed 13 (prepare d (starting_run w))
  prepare-Passed w =
      let r0 = phase_h1 d (starting_run w) in
      let p0 : Passed 1 r0 = phase_h1-Passed (starting_run w) (start-Gate w) in
      let r1 = then_phase (phase_h2 d) r0 in
      let p1 = then_phase-Passed 1 2 (phase_h2 d) r0 phase_h2-Passed p0 in
      let r2 = then_phase (plan_steps d) r1 in
      let p2 = then_phase-Passed 2 3 (plan_steps d) r1 plan_steps-Passed p1 in
      let r3 = then_phase (guest_loop d d.guest_pairs false) r2 in
      let p3 =
        then_phase-Passed 3 7 (guest_loop d d.guest_pairs false) r2
          (λ s h. guest_loop-Passed d.guest_pairs false s h) p2 in
      let r4 = then_phase (phase_g3 d) r3 in
      let p4 = then_phase-Passed 7 8 (phase_g3 d) r3 phase_g3-Passed p3 in
      let r5 = then_phase (phase_g4 d) r4 in
      let p5 = then_phase-Passed 8 11 (phase_g4 d) r4 phase_g4-Passed p4 in
      then_phase-Passed 11 13 (phase_g5 d) r5 phase_g5-Passed p5
