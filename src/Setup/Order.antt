-- ===== src/Setup/Order.antt =====
-- The calls are made in one order, each only once all before it have succeeded.
use susentorno.Base.{
  ℕ, ◌+◌, ◌<◌, ◌≤◌, ◌≡◌, refl, ◌==◌, if◌then◌else◌, Bool-cases, inl, inr, arith, Bool, true, false,
  List, [], ◌∷◌,
}
use susentorno.Sharing.Operations.{Session, Result}
use susentorno.Setup.Types.{
  success, Ended, returned, threw, Effect, resolving_answers, checking_host, planning_steps,
  asking_guest, reconciling_vm, creating_executor, waiting_ready, checking_guest, asking_share,
  checking_account, sharing_default, reading_ca, reconciling_trust, running_pre_steps,
  closing_default, checking_reboot, checking_listeners, replacing_internal, isolating_vm,
  waiting_ready_again, waiting_isolated, verifying_internal, running_post_steps, closing_internal,
  Act, did, Deps, Run, Control, next, finish, raise,
}
use susentorno.Setup.Phases.{then_phase, after_call, after_share, share_call}

-- The place of a call in the order.
abbrev pub rank : Effect → ℕ
rank resolving_answers = 0
rank checking_host = 1
rank planning_steps = 2
rank asking_guest = 3
rank reconciling_vm = 4
rank creating_executor = 5
rank waiting_ready = 6
rank checking_guest = 7
rank asking_share = 8
rank checking_account = 9
rank sharing_default = 10
rank reading_ca = 11
rank reconciling_trust = 12
rank running_pre_steps = 13
rank closing_default = 14
rank checking_reboot = 15
rank checking_listeners = 16
rank replacing_internal = 17
rank isolating_vm = 18
rank waiting_ready_again = 19
rank waiting_isolated = 20
rank verifying_internal = 21
rank running_post_steps = 22
rank closing_internal = 23

-- The call is among the acts, and has succeeded the last time it was made.
abbrev pub has_done : Effect → List Act → Bool
has_done e [] = false
has_done e (did f b ∷ acts) = if rank e == rank f then b else has_done e acts
has_done e (_ ∷ acts) = has_done e acts

abbrev pub IsDone : ℕ → List Act → Type 0
IsDone n acts = (e : Effect) → rank e < n → has_done e acts ≡ true

-- Before each call every one of a lower place has been made, and has succeeded the last time.
abbrev pub IsGated : List Act → Type 0
IsGated [] = Unit
IsGated (did e b ∷ acts) = IsDone (rank e) acts × IsGated acts
IsGated (_ ∷ acts) = IsGated acts

pub record Gate {W : Type 0} (n : ℕ) (s : Run W) : Type 0 where
  pub gated : IsGated s.acts
  pub done : IsDone n s.acts

abbrev pub Passed : {W : Type 0} → ℕ → Control × Run W → Type 0
Passed n (next, s) = Gate n s
Passed n (finish outcome, s) = IsGated s.acts × (outcome ≡ success → IsDone 24 s.acts)
Passed n (raise error, s) = IsGated s.acts

pub IsDone-less : (m n : ℕ) (acts : List Act) → m ≤ n → IsDone n acts → IsDone m acts
IsDone-less m n acts l h e k = h e (omega arith)

-- A call that succeeds, in its place or once more, and one that fails.
pub IsDone-next :
    (f : Effect) (acts : List Act) → IsDone (rank f) acts → IsDone (rank f + 1) (did f true ∷ acts)
IsDone-next f acts h e l = elim (Bool-cases (rank e == rank f)) [
  | inl same ↦ rw same refl
  | inr other ↦ rw other (h e (ground arith))
]

pub IsDone-again :
    (n : ℕ) (f : Effect) (acts : List Act) → IsDone n acts → IsDone n (did f true ∷ acts)
IsDone-again n f acts h e l = elim (Bool-cases (rank e == rank f)) [
  | inl same ↦ rw same refl
  | inr other ↦ rw other (h e l)
]

pub IsDone-failed :
    (n : ℕ) (f : Effect) (acts : List Act)
    → n ≤ rank f
    → IsDone n acts
    → IsDone n (did f false ∷ acts)
IsDone-failed n f acts k h e l = elim (Bool-cases (rank e == rank f)) [
  | inl same ↦ absurd (ground arith)
  | inr other ↦ rw other (h e l)
]

pub then_phase-Passed :
    {W : Type 0} (n m : ℕ) (f : Run W → Control × Run W) (r : Control × Run W)
    → ((s : Run W) → Gate n s → Passed m (f s))
    → Passed n r
    → Passed m (then_phase f r)
then_phase-Passed n m f (next, s) h k = h s k
then_phase-Passed n m f (finish outcome, s) h k = k
then_phase-Passed n m f (raise error, s) h k = k

module _ {W : Type 0} (d : Deps W) where
  -- A call in its place.
  pub after_call-Passed :
      (e : Effect) (r : Ended Unit × W) (s : Run W)
      → Gate (rank e) s
      → Passed (rank e + 1) (after_call d e r s)
  after_call-Passed e (returned done, w) s h = record {
    gated = (h.done, h.gated);
    done = IsDone-next e s.acts h.done;
  }
  after_call-Passed e (threw error, w) s h = (h.done, h.gated)

  pub after_share-Passed :
      (e : Effect) (r : Ended Unit) (session : Session W) (s : Run W)
      → Gate (rank e) s
      → Passed (rank e + 1) (after_share d e r session s)
  after_share-Passed e (returned done) session s h = record {
    gated = (h.done, h.gated);
    done = IsDone-next e s.acts h.done;
  }
  after_share-Passed e (threw error) session s h = (h.done, h.gated)

  pub share_call-Passed :
      (e : Effect) (operation : Session W → Result Unit × Session W) (s : Run W)
      → Gate (rank e) s
      → Passed (rank e + 1) (share_call d e operation s)
  share_call-Passed e operation s h = after_share-Passed e _ (operation s.session).1 s h
