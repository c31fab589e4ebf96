-- ===== src/Vm/Reconcile/Confirming.antt =====
-- Waiting for `Off` ends, in time.
use susentorno.Base.{
  ℕ, zero, suc, ◌+◌, ◌*◌, ◌≤◌, Bool, true, false, Option, none, some, List, [], ◌∷◌, String, arith,
  leb, ◌==◌, same_text, Bool-cases, inl, inr,
}
use susentorno.Vm.Plan.{VmEntry, parse_get_vm_result, Plan}
use susentorno.Vm.Reconcile.{
  Command, get_vm, get_adapters, stop_vm, start_vm, connect_adapter, Reply, Options, not_off,
  Confirmed, off, failure, out_of_fuel, Outcome, done, failed, stuck, Session, is_off, confirm_off,
  graceful_stop_and_confirm_off, start_if, connect_if, after_stop, carry_out, with_adapters,
  with_vm, reconcile_vm_to_switch, isolate_vm, isolate_vm_to_switch,
}

module _ {W : Type 0} (run : Command → W → Reply × W) (sleep : ℕ → W → W) (now : W → ℕ)
    (fired : W → List ℕ) (o : Options) where
  -- Waiting for `Off` has ended, by a time; it gives up at its deadline and not before.
  abbrev IsConfirmedBy : ℕ → ℕ → Confirmed × Session W → Type 0
  IsConfirmedBy deadline limit (off, s) = now s.world ≤ limit
  IsConfirmedBy deadline limit (failure (not_off vm), s) =
      (deadline ≤ now s.world) × (now s.world ≤ limit)
  IsConfirmedBy deadline limit (failure f, s) = ⊥
  IsConfirmedBy deadline limit (out_of_fuel, s) = ⊥

  -- An operation has ended, by a time, and has given up waiting for `Off` no sooner than `earliest`.
  abbrev pub IsEndedBy : ℕ → ℕ → Outcome × Session W → Type 0
  IsEndedBy earliest limit (done b, s) = now s.world ≤ limit
  IsEndedBy earliest limit (failed (not_off vm), s) =
      (earliest ≤ now s.world) × (now s.world ≤ limit)
  IsEndedBy earliest limit (failed f, s) = now s.world ≤ limit
  IsEndedBy earliest limit (stuck, s) = ⊥

  -- A call of PowerShell takes `slow` milliseconds at most, and a sleep at least those asked for and
  -- at most `late` more.
  module _ (slow late : ℕ) (run_keeps_time : (c : Command) (w : W) → now w ≤ now (run c w).1)
      (run_returns : (c : Command) (w : W) → now (run c w).1 ≤ now w + slow)
      (sleep_takes_time : (ms : ℕ) (w : W) → now w + ms ≤ now (sleep ms w))
      (sleep_returns : (ms : ℕ) (w : W) → now (sleep ms w) ≤ now w + ms + late)
      (polls : 1 ≤ o.off_poll_interval) where
    -- What the loop may take past its deadline: the sleep before it, and one poll.
    abbrev pub overrun : ℕ
    overrun = o.off_poll_interval + late + slow

    confirm_off-IsConfirmedBy :
        (fuel deadline limit : ℕ) (s : Session W)
        → 1 ≤ fuel
        → deadline + 1 ≤ fuel + now s.world
        → now s.world + slow ≤ limit
        → deadline + overrun ≤ limit
        → IsConfirmedBy deadline limit (confirm_off run sleep now fired o fuel deadline s)
    unfolding confirm_off
    confirm_off-IsConfirmedBy zero deadline limit s h d l m = absurd (omega arith)
    confirm_off-IsConfirmedBy (suc fuel) deadline limit s h d l m =
        let (reply, w) = run get_vm s.world in
        let k = run_keeps_time get_vm s.world in
        let r = run_returns get_vm s.world in
        let t = sleep_takes_time o.off_poll_interval (run get_vm s.world).1 in
        let u = sleep_returns o.off_poll_interval (run get_vm s.world).1 in
        let vm = parse_get_vm_result reply.vms o.vm_name in
        elim (Bool-cases (is_off vm)) [
          | inl y ↦ rw y (omega arith)
          | inr n ↦ elim (Bool-cases (leb deadline (now w))) [
            | inl y ↦ rw (n, y) (ground arith, omega arith)
            | inr n' ↦
                rw (n, n')
                  (confirm_off-IsConfirmedBy fuel deadline limit _ (ground arith) (ground arith)
                    (ground arith) m)
          ]
        ]

    sooner :
        (deadline earlier limit : ℕ) (r : Confirmed × Session W)
        → earlier ≤ deadline
        → IsConfirmedBy deadline limit r
        → IsConfirmedBy earlier limit r
    sooner deadline earlier limit (off, s) e h = h
    sooner deadline earlier limit (failure (not_off vm), s) e (h, k) = (omega arith, k)
    sooner deadline earlier limit (failure f, s) e h = absurd h
    sooner deadline earlier limit (out_of_fuel, s) e h = h

    graceful_stop-IsConfirmedBy :
        (limit : ℕ) (s : Session W)
        → now s.world + o.off_confirm_timeout + overrun + slow ≤ limit
        → IsConfirmedBy
            (now s.world + o.off_confirm_timeout)
            limit
            (graceful_stop_and_confirm_off run sleep now fired o s)
    unfolding graceful_stop_and_confirm_off
    graceful_stop-IsConfirmedBy limit s h =
        let k = run_keeps_time stop_vm s.world in
        let r = run_returns stop_vm s.world in
        sooner _ _ limit _ (omega arith) (
          confirm_off-IsConfirmedBy _ _ limit _ (omega arith) (omega arith) (omega arith)
            (omega arith))

    start_if-IsEndedBy :
        (earliest limit : ℕ) (start : Bool) (s : Session W)
        → now s.world + slow ≤ limit
        → IsEndedBy earliest limit (start_if run sleep now fired o start s)
    start_if-IsEndedBy earliest limit false s h = omega arith
    start_if-IsEndedBy earliest limit true s h =
        let r = run_returns start_vm s.world in
        elim (Bool-cases ((run start_vm s.world).0.exit_code == 0)) [
          | inl y ↦ rw y (omega arith)
          | inr n ↦ rw n (omega arith)
        ]

    connect_if-IsEndedBy :
        (earliest limit : ℕ) (connect start : Bool) (target : String) (s : Session W)
        → now s.world + 2 * slow ≤ limit
        → IsEndedBy earliest limit (connect_if run sleep now fired o connect start target s)
    connect_if-IsEndedBy earliest limit false start target s h =
        start_if-IsEndedBy earliest limit start s (omega arith)
    connect_if-IsEndedBy earliest limit true start target s h =
        let r = run_returns (connect_adapter target) s.world in
        elim (Bool-cases ((run (connect_adapter target) s.world).0.exit_code == 0)) [
          | inl y ↦ rw y (start_if-IsEndedBy earliest limit start _ (omega arith))
          | inr n ↦ rw n (omega arith)
        ]

    after_stop-IsEndedBy :
        (deadline earliest limit : ℕ) (connect start : Bool) (target : String)
        (r : Confirmed × Session W)
        → earliest ≤ deadline
        → (ended : ℕ) → ended + 2 * slow ≤ limit
        → IsConfirmedBy deadline ended r
        → IsEndedBy earliest limit (after_stop run sleep now fired o connect start target r)
    after_stop-IsEndedBy deadline earliest limit connect start target (off, s) e ended l h =
        connect_if-IsEndedBy earliest limit connect start target s (omega arith)
    after_stop-IsEndedBy deadline earliest limit connect start target (failure (not_off vm), s) e
          ended l (h, k) =
        (omega arith, omega arith)
    after_stop-IsEndedBy deadline earliest limit connect start target (failure f, s) e ended l h =
        absurd h
    after_stop-IsEndedBy deadline earliest limit connect start target (out_of_fuel, s) e ended l h =
        h

    -- Stopping, and what follows it.
    stop_and_go-IsEndedBy :
        (earliest limit : ℕ) (connect start : Bool) (target : String) (s : Session W)
        → earliest ≤ now s.world + o.off_confirm_timeout
        → now s.world + o.off_confirm_timeout + overrun + 3 * slow ≤ limit
        → IsEndedBy earliest limit (
            after_stop run sleep now fired o connect start target
              (graceful_stop_and_confirm_off run sleep now fired o s))
    stop_and_go-IsEndedBy earliest limit connect start target s e l =
        let ended = now s.world + o.off_confirm_timeout + overrun + slow in
        after_stop-IsEndedBy (now s.world + o.off_confirm_timeout) earliest limit connect start
          target _ e ended (omega arith) (graceful_stop-IsConfirmedBy ended s (omega arith))

    carry_out-IsEndedBy :
        (earliest limit : ℕ) (state target : String) (plan : Option Plan) (s : Session W)
        → earliest ≤ now s.world + o.off_confirm_timeout
        → now s.world + o.off_confirm_timeout + overrun + 3 * slow ≤ limit
        → IsEndedBy earliest limit (carry_out run sleep now fired o state target plan s)
    carry_out-IsEndedBy earliest limit state target none s e l = omega arith
    carry_out-IsEndedBy earliest limit state target (some plan) s e l =
        elim (Bool-cases plan.stop) [
          | inl y ↦ rw y (stop_and_go-IsEndedBy earliest limit plan.connect plan.start target s e l)
          | inr n ↦
              rw n
                (connect_if-IsEndedBy earliest limit plan.connect plan.start target s (omega arith))
        ]

    with_adapters-IsEndedBy :
        (earliest limit : ℕ) (state target : String) (names : List String) (s : Session W)
        → earliest ≤ now s.world + o.off_confirm_timeout
        → now s.world + o.off_confirm_timeout + overrun + 3 * slow ≤ limit
        → IsEndedBy earliest limit (with_adapters run sleep now fired o state target names s)
    with_adapters-IsEndedBy earliest limit state target [] s e l = omega arith
    with_adapters-IsEndedBy earliest limit state target (name ∷ []) s e l =
        carry_out-IsEndedBy earliest limit state target _ s e l
    with_adapters-IsEndedBy earliest limit state target (name ∷ name' ∷ names) s e l = omega arith

    with_vm-IsEndedBy :
        (earliest limit : ℕ) (target : String) (vm : Option VmEntry) (s : Session W)
        → earliest ≤ now s.world + o.off_confirm_timeout
        → now s.world + o.off_confirm_timeout + overrun + 4 * slow ≤ limit
        → IsEndedBy earliest limit (with_vm run sleep now fired o target vm s)
    with_vm-IsEndedBy earliest limit target none s e l = omega arith
    with_vm-IsEndedBy earliest limit target (some vm) s e l =
        let k = run_keeps_time get_adapters s.world in
        let r = run_returns get_adapters s.world in
        with_adapters-IsEndedBy earliest limit vm.state target _ _ (omega arith) (omega arith)

    -- When a call takes `slow` milliseconds at most, a sleep those asked for and `late` more at most,
    -- and the poll interval is not 0, reconciling ends: after the timeout, one poll interval with its
    -- lateness and six calls at the latest. It gives up waiting for `Off` no sooner than after the
    -- timeout.
    pub reconcile-ends :
        (target : String) (s : Session W)
        → IsEndedBy
            (now s.world + o.off_confirm_timeout)
            (now s.world + o.off_confirm_timeout + o.off_poll_interval + late + 6 * slow)
            (reconcile_vm_to_switch run sleep now fired o target s)
    unfolding reconcile_vm_to_switch
    reconcile-ends target s =
        let k = run_keeps_time get_vm s.world in
        let r = run_returns get_vm s.world in
        with_vm-IsEndedBy _ _ target _ _ (omega arith) (omega arith)

    isolate_vm-IsEndedBy :
        (earliest limit : ℕ) (target : String) (vm : Option VmEntry) (s : Session W)
        → earliest ≤ now s.world + o.off_confirm_timeout
        → now s.world + o.off_confirm_timeout + overrun + 3 * slow ≤ limit
        → IsEndedBy earliest limit (isolate_vm run sleep now fired o target vm s)
    isolate_vm-IsEndedBy earliest limit target none s e l = omega arith
    isolate_vm-IsEndedBy earliest limit target (some vm) s e l =
        elim (Bool-cases (same_text vm.state "Running")) [
          | inl y ↦ rw y (stop_and_go-IsEndedBy earliest limit true true target s e l)
          | inr n ↦ elim (Bool-cases (same_text vm.state "Off")) [
            | inl y ↦
                rw (n, y) (connect_if-IsEndedBy earliest limit true true target s (omega arith))
            | inr m ↦ rw (n, m) (omega arith)
          ]
        ]

    -- Isolating ends under the same conditions, with one call less.
    pub isolate-ends :
        (target : String) (s : Session W)
        → IsEndedBy
            (now s.world + o.off_confirm_timeout)
            (now s.world + o.off_confirm_timeout + o.off_poll_interval + late + 5 * slow)
            (isolate_vm_to_switch run sleep now fired o target s)
    unfolding isolate_vm_to_switch
    isolate-ends target s =
        let k = run_keeps_time get_vm s.world in
        let r = run_returns get_vm s.world in
        isolate_vm-IsEndedBy _ _ target _ _ (omega arith) (omega arith)
