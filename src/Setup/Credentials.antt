-- ===== src/Setup/Credentials.antt =====
-- What every ending of the flow leaves of the share credentials. `Tidy` says whether they have been
-- created, and that cleanup can rely on the ledger.
use susentorno.Base.{
  ◌≡◌, refl, sym, subst, Bool, true, false, not, ◌&&◌, Option, none, some, List, [], ◌∷◌, String,
  if◌then◌else◌,
}
use susentorno.Sharing.Ledger.{Ledger, new_ledger}
use susentorno.Sharing.Operations.{Secret, Session, replace_and_verify}
use susentorno.Sharing.Operations.Asking.{asks_again}
use susentorno.Sharing.Operations.Careful.{IsCareful, replace_and_verify-IsCareful}
use susentorno.Setup.Types.{
  asking_guest, asking_share, checking_account, reading_ca, Phase, h1, h2, h3, g1, g3, g5,
  interrupt, interrupted, sharing_default, reconciling_trust, Ended, returned, threw, GuestWait,
  ready, auth_rejected, wait_threw, Plans, Effect, reconciling_vm, checking_guest, did, Act, Deps,
  Run, Control, next, finish, raise,
}
use susentorno.Setup.Phases.{
  announce, log, set_world, cancel, is_returned, control_of, then_phase, guard, after_call,
  after_share, share_guard, default_target, after_answers, phase_h1, after_preflight, phase_h2,
  after_plans, plan_steps, phase_g1, after_wait, after_create, phase_g2, ask, guest_loop, phase_g3,
  after_account, share_loop, phase_g4, after_ca, phase_g5,
}
use susentorno.Setup.Flow.{starting_run, prepare}

-- Before the share credentials are created the ledger is new.
abbrev pub IsFresh : Bool → Ledger → Type 0
IsFresh true l = Unit
IsFresh false l = l ≡ new_ledger

pub record Tidy {W : Type 0} (s : Run W) : Type 0 where
  pub careful : IsCareful s.session
  pub fresh : IsFresh s.has_share_credentials s.session.ledger

-- The share credentials have been created.
pub record Sharing {W : Type 0} (s : Run W) : Type 0 where
  pub careful : IsCareful s.session
  pub created : s.has_share_credentials ≡ true

pub Sharing-Tidy : {W : Type 0} (s : Run W) → Sharing s → Tidy s
Sharing-Tidy s h = record {
  careful = h.careful;
  fresh = subst (λ b. IsFresh b s.session.ledger) (sym h.created) tt;
}

IsCareful-world :
    {W : Type 0} (w : W) (s : Session W) → IsCareful s → IsCareful (record s { world = w })
IsCareful-world w s h = record { sound = h.sound; unproved = h.unproved; cautious = h.cautious }

-- A phase that goes on keeps the one property, and one that ends the other.
abbrev pub Kept : {W : Type 0} → (Run W → Type 0) → Control × Run W → Type 0
Kept P (next, s) = P s
Kept P (finish outcome, s) = Tidy s
Kept P (raise error, s) = Tidy s

pub then_phase-Kept :
    {W : Type 0} (P Q : Run W → Type 0) (f : Run W → Control × Run W) (r : Control × Run W)
    → ((s : Run W) → P s → Kept Q (f s))
    → Kept P r
    → Kept Q (then_phase f r)
then_phase-Kept P Q f (next, s) h k = h s k
then_phase-Kept P Q f (finish outcome, s) h k = k
then_phase-Kept P Q f (raise error, s) h k = k

pub if_Kept :
    {W : Type 0} (P : Run W → Type 0) (b : Bool) (r q : Control × Run W)
    → Kept P r
    → Kept P q
    → Kept P (if b then r else q)
if_Kept P true r q h k = h
if_Kept P false r q h k = k

module _ {W : Type 0} (d : Deps W) where
  -- A call changes neither the ledger nor what has run.
  after_call-Tidy :
      (e : Effect) (r : Ended Unit × W) (s : Run W) → Tidy s → Kept Tidy (after_call d e r s)
  after_call-Tidy e (returned done, w) s h = record {
    careful = IsCareful-world w s.session h.careful;
    fresh = h.fresh;
  }
  after_call-Tidy e (threw error, w) s h = record {
    careful = IsCareful-world w s.session h.careful;
    fresh = h.fresh;
  }

  pub after_call-Sharing :
      (e : Effect) (r : Ended Unit × W) (s : Run W) → Sharing s → Kept Sharing (after_call d e r s)
  after_call-Sharing e (returned done, w) s h = record {
    careful = IsCareful-world w s.session h.careful;
    created = h.created;
  }
  after_call-Sharing e (threw error, w) s h =
      Sharing-Tidy _
        (record { careful = IsCareful-world w s.session h.careful; created = h.created })

  pub after_share-Sharing :
      (e : Effect) (r : Ended Unit) (session : Session W) (s : Run W)
      → IsCareful session
      → Sharing s
      → Kept Sharing (after_share d e r session s)
  after_share-Sharing e (returned done) session s c h = record { careful = c; created = h.created }
  after_share-Sharing e (threw error) session s c h =
      Sharing-Tidy (log (did e false) (record s { session = session }))
        (record { careful = c; created = h.created })

  Tidy-world : (w : W) (s : Run W) → Tidy s → Tidy (set_world w s)
  Tidy-world w s h = record { careful = IsCareful-world w s.session h.careful; fresh = h.fresh }

  pub Sharing-world : (w : W) (s : Run W) → Sharing s → Sharing (set_world w s)
  Sharing-world w s h = record {
    careful = IsCareful-world w s.session h.careful;
    created = h.created;
  }

  Tidy-announced : (p : Phase) (s : Run W) → Tidy s → Tidy (announce p s)
  Tidy-announced p s h = record { careful = h.careful; fresh = h.fresh }

  Tidy-logged : (a : Act) (s : Run W) → Tidy s → Tidy (log a s)
  Tidy-logged a s h = record { careful = h.careful; fresh = h.fresh }

  pub Sharing-announced : (p : Phase) (s : Run W) → Sharing s → Sharing (announce p s)
  Sharing-announced p s h = record { careful = h.careful; created = h.created }

  pub Sharing-logged : (a : Act) (s : Run W) → Sharing s → Sharing (log a s)
  Sharing-logged a s h = record { careful = h.careful; created = h.created }

  after_answers-Kept : (r : Ended String × W) (s : Run W) → Tidy s → Kept Tidy (after_answers d r s)
  after_answers-Kept (returned name, w) s h = record {
    careful = IsCareful-world w s.session h.careful;
    fresh = h.fresh;
  }
  after_answers-Kept (threw error, w) s h = Tidy-logged _ (set_world w s) (Tidy-world w s h)

  phase_h1-Kept : (s : Run W) → Tidy s → Kept Tidy (phase_h1 d s)
  phase_h1-Kept s h =
      if_Kept Tidy (d.aborted s.session.world) (cancel interrupt s)
        (after_answers d (guard d (d.resolve_host_answers s.session.world)) (announce h1 s)) h
        (after_answers-Kept (guard d (d.resolve_host_answers s.session.world)) (announce h1 s)
          (Tidy-announced h1 s h))

  after_preflight-Kept :
      (r : Ended Bool × W) (s : Run W) → Tidy s → Kept Tidy (after_preflight d r s)
  after_preflight-Kept (returned true, w) s h = Tidy-logged _ (set_world w s) (Tidy-world w s h)
  after_preflight-Kept (returned false, w) s h = Tidy-logged _ (set_world w s) (Tidy-world w s h)
  after_preflight-Kept (threw error, w) s h = Tidy-logged _ (set_world w s) (Tidy-world w s h)

  after_plans-Kept :
      (r : Ended (Option Plans) × W) (s : Run W) → Tidy s → Kept Tidy (after_plans d r s)
  after_plans-Kept (returned none, w) s h = Tidy-logged _ (set_world w s) (Tidy-world w s h)
  after_plans-Kept (returned (some plans), w) s h = record {
    careful = IsCareful-world w s.session h.careful;
    fresh = h.fresh;
  }
  after_plans-Kept (threw error, w) s h = Tidy-logged _ (set_world w s) (Tidy-world w s h)

  phase_g1-Kept : (b : Bool) (s : Run W) → Tidy s → Kept Tidy (phase_g1 d b s)
  phase_g1-Kept true s h = h
  phase_g1-Kept false s h =
      after_call-Tidy reconciling_vm (guard d (d.reconcile s.session.world)) (announce g1 s)
        (Tidy-announced g1 s h)

  after_wait-Kept :
      (again : Run W → Control × Run W) (r : GuestWait) (s : Run W)
      → ((t : Run W) → Tidy t → Kept Tidy (again t))
      → Tidy s
      → Kept Tidy (after_wait d again r s)
  after_wait-Kept again ready s f h = Tidy-logged _ s h
  after_wait-Kept again auth_rejected s f h =
      f _ (record { careful = IsCareful-world _ s.session h.careful; fresh = h.fresh })
  after_wait-Kept again (wait_threw error) s f h = Tidy-logged _ s h

  after_create-Kept :
      (again : Run W → Control × Run W) (r : Ended Unit × W) (s : Run W)
      → ((t : Run W) → Tidy t → Kept Tidy (again t))
      → Tidy s
      → Kept Tidy (after_create d again r s)
  after_create-Kept again (returned done, w) s f h =
      after_wait-Kept again (d.wait_for_guest w).0 _ f
        (record { careful = IsCareful-world _ s.session h.careful; fresh = h.fresh })
  after_create-Kept again (threw error, w) s f h = Tidy-logged _ (set_world w s) (Tidy-world w s h)

  phase_g2-Kept :
      (again : Run W → Control × Run W) (s : Run W)
      → ((t : Run W) → Tidy t → Kept Tidy (again t))
      → Tidy s
      → Kept Tidy (phase_g2 d again s)
  phase_g2-Kept again s f h =
      after_create-Kept again (d.create_executor s.session.world) _ f (Tidy-announced _ s h)

  ask-Kept :
      (e : Effect) (entered : Bool) (answered : Run W → Control × Run W) (s : Run W)
      → ((t : Run W) → Tidy t → Kept Tidy (answered t))
      → Tidy s
      → Kept Tidy (ask d e entered answered s)
  ask-Kept e entered answered s f h =
      let w = d.asked s.session.world in
      let t = log (did e false) (set_world w s) in
      let u = log (did e entered) (set_world w s) in
      let k = Tidy-world w s h in
      if_Kept Tidy (d.interrupts w) (raise interrupted, t) (answered u)
        (Tidy-logged (did e false) (set_world w s) k)
        (f u (Tidy-logged (did e entered) (set_world w s) k))

  guest_loop-Kept :
      (names : List String) (b : Bool) (s : Run W) → Tidy s → Kept Tidy (guest_loop d names b s)
  unfolding guest_loop
  guest_loop-Kept [] b s h =
      ask-Kept asking_guest false (cancel d.end_reason) (announce h3 s) (λ t k. k)
        (Tidy-announced h3 s h)
  guest_loop-Kept (name ∷ names) b s h =
      ask-Kept asking_guest true
        (λ t. then_phase (phase_g2 d (guest_loop d names true)) (phase_g1 d b t)) (announce h3 s)
        (λ t k.
          then_phase-Kept Tidy Tidy (phase_g2 d (guest_loop d names true)) (phase_g1 d b t)
            (λ u g.
              phase_g2-Kept (guest_loop d names true) u (λ v q. guest_loop-Kept names true v q) g)
            (phase_g1-Kept b t k))
        (Tidy-announced h3 s h)

  shared-Kept :
      (b : Bool) (ended : Ended Unit) (again : Run W → Control × Run W) (session : Session W)
      (secret : Secret) (s : Run W)
      → ((t : Run W) → Sharing t → Kept Sharing (again t))
      → IsCareful session
      → Sharing s
      → let s' = log (did sharing_default (is_returned ended)) (record s { session = session }) in
        Kept Sharing (
          if is_returned ended
          then (next, record s' { secret = secret })
          else if b
          then again s'
          else (control_of ended, s'))
  shared-Kept b (returned done) again session secret s f c h = record {
    careful = c;
    created = h.created;
  }
  shared-Kept true (threw error) again session secret s f c h =
      f _ (record { careful = c; created = h.created })
  shared-Kept false (threw error) again session secret s f c h =
      Sharing-Tidy (log (did sharing_default false) (record s { session = session }))
        (record { careful = c; created = h.created })

  Sharing-failed :
      (w : W) (s : Run W) (e : Effect) → Sharing s → Tidy (log (did e false) (set_world w s))
  Sharing-failed w s e h =
      Sharing-Tidy (log (did e false) (set_world w s))
        (Sharing-logged (did e false) (set_world w s) (Sharing-world w s h))

  after_account-Kept :
      (again : Run W → Control × Run W) (secret : Secret) (r : Ended Bool × W) (s : Run W)
      → ((t : Run W) → Sharing t → Kept Sharing (again t))
      → Sharing s
      → Kept Sharing (after_account d again secret r s)
  after_account-Kept again secret (returned true, w) s f h =
      let s' = log (did checking_account true) (set_world w s) in
      let h' = Sharing-logged (did checking_account true) (set_world w s) (Sharing-world w s h) in
      let target = default_target d in
      let (r, session) =
        replace_and_verify d.invoke d.parse d.drain d.expired target secret s'.session in
      shared-Kept (not (d.interrupts session.world) && asks_again r) (share_guard d (r, session))
        again session secret s' f
        (replace_and_verify-IsCareful d.invoke d.parse d.drain d.expired target secret s'.session
          h'.careful)
        h'
  after_account-Kept again secret (returned false, w) s f h = Sharing-failed w s checking_account h
  after_account-Kept again secret (threw error, w) s f h = Sharing-failed w s checking_account h

  ask-Sharing :
      (e : Effect) (entered : Bool) (answered : Run W → Control × Run W) (s : Run W)
      → ((t : Run W) → Sharing t → Kept Sharing (answered t))
      → Sharing s
      → Kept Sharing (ask d e entered answered s)
  ask-Sharing e entered answered s f h =
      let w = d.asked s.session.world in
      let t = log (did e false) (set_world w s) in
      let u = log (did e entered) (set_world w s) in
      if_Kept Sharing (d.interrupts w) (raise interrupted, t) (answered u) (Sharing-failed w s e h)
        (f u (Sharing-logged (did e entered) (set_world w s) (Sharing-world w s h)))

  share_loop-Kept :
      (secrets : List Secret) (s : Run W) → Sharing s → Kept Sharing (share_loop d secrets s)
  unfolding share_loop
  share_loop-Kept [] s h =
      ask-Sharing asking_share false (cancel d.end_reason) s (λ t k. Sharing-Tidy t k) h
  share_loop-Kept (secret ∷ secrets) s h =
      ask-Sharing asking_share true
        (λ t.
          after_account d (share_loop d secrets) secret
            (guard d (d.check_host_share_account secret t.session.world)) t)
        s
        (λ t k.
          after_account-Kept (share_loop d secrets) secret
            (guard d (d.check_host_share_account secret t.session.world)) t
            (λ u g. share_loop-Kept secrets u g) k)
        h

  phase_g4-Kept : (s : Run W) → Tidy s → Kept Sharing (phase_g4 d s)
  phase_g4-Kept s h =
      share_loop-Kept d.share_pairs _ (record { careful = h.careful; created = refl })

  after_ca-Kept : (r : Bool × W) (s : Run W) → Sharing s → Kept Sharing (after_ca d r s)
  after_ca-Kept (false, w) s h = Sharing-failed w s reading_ca h
  after_ca-Kept (true, w) s h =
      after_call-Sharing reconciling_trust (guard d (d.reconcile_trust w)) _
        (Sharing-logged (did reading_ca true) (set_world w s) (Sharing-world w s h))

  pub prepare-Kept : (w : W) → Kept Sharing (prepare d (starting_run w))
  prepare-Kept w =
      let s0 = starting_run w in
      let h0 : Tidy s0 = record {
        careful = record { sound = (tt, tt); unproved = λ k u. absurd cc; cautious = tt };
        fresh = refl;
      } in
      let r0 = phase_h1 d s0 in
      let p0 : Kept Tidy r0 = phase_h1-Kept s0 h0 in
      let r1 = then_phase (phase_h2 d) r0 in
      let p1 =
        then_phase-Kept Tidy Tidy (phase_h2 d) r0
          (λ s h.
            after_preflight-Kept (guard d (d.preflight s.session.world)) (announce h2 s)
              (Tidy-announced h2 s h))
          p0 in
      let r2 = then_phase (plan_steps d) r1 in
      let p2 =
        then_phase-Kept Tidy Tidy (plan_steps d) r1
          (λ s h. after_plans-Kept (d.discover_step_plans s.session.world) s h) p1 in
      let r3 = then_phase (guest_loop d d.guest_pairs false) r2 in
      let p3 =
        then_phase-Kept Tidy Tidy (guest_loop d d.guest_pairs false) r2
          (λ s h. guest_loop-Kept d.guest_pairs false s h) p2 in
      let r4 = then_phase (phase_g3 d) r3 in
      let p4 =
        then_phase-Kept Tidy Tidy (phase_g3 d) r3
          (λ s h.
            after_call-Tidy checking_guest (d.structural_checks s.session.world) (announce g3 s)
              (Tidy-announced g3 s h))
          p3 in
      let r5 = then_phase (phase_g4 d) r4 in
      let p5 = then_phase-Kept Tidy Sharing (phase_g4 d) r4 phase_g4-Kept p4 in
      then_phase-Kept Sharing Sharing (phase_g5 d) r5
        (λ s h.
          after_ca-Kept (d.read_proxy_ca s.session.world) (announce g5 s)
            (Sharing-announced g5 s h))
        p5
