-- ===== src/Vm/Reconcile/Order.antt =====
-- In which order the VM is stopped, connected and started.
use susentorno.Base.{
  ℕ, zero, suc, ◌≡◌, refl, ap, ◌∙◌, Bool, true, false, Option, none, some, List, [], ◌∷◌, String,
  arith, leb, ◌==◌, same_text, same_text→eq, Bool-cases, inl, inr,
}
use susentorno.Vm.Plan.{VmEntry, parse_get_vm_result, Plan, plan_vm_reconciliation}
use susentorno.Vm.Reconcile.{
  Command, get_vm, get_adapters, stop_vm, start_vm, connect_adapter, Reply, Options, Confirmed, off,
  failure, out_of_fuel, Session, is_off, call, confirm_off, graceful_stop_and_confirm_off, start_if,
  connect_if, after_stop, carry_out, with_adapters, with_vm, reconcile_vm_to_switch, isolate_vm,
  isolate_vm_to_switch,
}

abbrev state_of : Option VmEntry → Option String
state_of none = none
state_of (some vm) = some vm.state

-- The state that the newest `Get-VM` has shown.
abbrev pub last_state : String → List (Command × Reply) → Option String
last_state name [] = none
last_state name ((get_vm, reply) ∷ trace) = state_of (parse_get_vm_result reply.vms name)
last_state name (_ ∷ trace) = last_state name trace

-- `Stop-VM` only on a VM last seen `Running`; the others only on one last seen `Off`.
abbrev IsAllowed : String → Command → List (Command × Reply) → Type 0
IsAllowed name get_vm trace = Unit
IsAllowed name get_adapters trace = Unit
IsAllowed name stop_vm trace = last_state name trace ≡ some "Running"
IsAllowed name start_vm trace = last_state name trace ≡ some "Off"
IsAllowed name (connect_adapter target) trace = last_state name trace ≡ some "Off"

abbrev pub IsOrdered : String → List (Command × Reply) → Type 0
IsOrdered name [] = Unit
IsOrdered name ((c, reply) ∷ trace) = IsAllowed name c trace × IsOrdered name trace

abbrev IsOrderedAt : {W : Type 0} → String → Session W → Type 0
IsOrderedAt name s = IsOrdered name s.trace

abbrev IsConfirmedAt : {W : Type 0} → String → Confirmed × Session W → Type 0
IsConfirmedAt name (off, s) = IsOrdered name s.trace × (last_state name s.trace ≡ some "Off")
IsConfirmedAt name (failure f, s) = IsOrdered name s.trace
IsConfirmedAt name (out_of_fuel, s) = IsOrdered name s.trace

is_off-state : (vm : Option VmEntry) → is_off vm ≡ true → state_of vm ≡ some "Off"
is_off-state none h = absurd (ground arith)
is_off-state (some vm) h = ap some (same_text→eq vm.state "Off" h)

abbrev IsPlanFor : String → Option Plan → Type 0
IsPlanFor state none = Unit
IsPlanFor state (some plan) =
    (plan.stop ≡ true → state ≡ "Running")
    × (plan.stop ≡ false → plan.start ≡ true → state ≡ "Off")
    × (plan.stop ≡ false → plan.connect ≡ true → state ≡ "Off")

plan-IsPlanFor :
    (state current target : String) → IsPlanFor state (plan_vm_reconciliation state current target)
unfolding plan_vm_reconciliation
plan-IsPlanFor state current target = elim (Bool-cases (same_text state "Running")) [
  | inl y ↦
      let running = same_text→eq state "Running" y in
      elim (Bool-cases (same_text current target)) [
        | inl c ↦
            rw (y, c) (λ _. running, λ _ h. absurd (ground arith), λ _ h. absurd (ground arith))
        | inr c ↦
            rw (y, c) (λ _. running, λ h _. absurd (ground arith), λ h _. absurd (ground arith))
      ]
  | inr n ↦ elim (Bool-cases (same_text state "Off")) [
    | inl y ↦
        let stopped = same_text→eq state "Off" y in
        elim (Bool-cases (same_text current target)) [
          | inl c ↦ rw (n, y, c) (λ h. absurd (ground arith), λ _ _. stopped, λ _ _. stopped)
          | inr c ↦ rw (n, y, c) (λ h. absurd (ground arith), λ _ _. stopped, λ _ _. stopped)
        ]
    | inr m ↦ rw (n, m) tt
  ]
]

module _ {W : Type 0} (run : Command → W → Reply × W) (sleep : ℕ → W → W) (now : W → ℕ)
    (fired : W → List ℕ) (o : Options) where
  confirm_off-IsConfirmedAt :
      (fuel deadline : ℕ) (s : Session W)
      → IsOrderedAt o.vm_name s
      → IsConfirmedAt o.vm_name (confirm_off run sleep now fired o fuel deadline s)
  unfolding confirm_off
  confirm_off-IsConfirmedAt zero deadline s h = h
  confirm_off-IsConfirmedAt (suc fuel) deadline s h =
      let (reply, w) = run get_vm s.world in
      let vm = parse_get_vm_result reply.vms o.vm_name in
      elim (Bool-cases (is_off vm)) [
        | inl y ↦ rw y ((tt, h), is_off-state vm y)
        | inr n ↦ elim (Bool-cases (leb deadline (now w))) [
          | inl y ↦ rw (n, y) (tt, h)
          | inr n' ↦ rw (n, n') (confirm_off-IsConfirmedAt fuel deadline _ (tt, h))
        ]
      ]

  graceful_stop-IsConfirmedAt :
      (s : Session W)
      → IsOrderedAt o.vm_name s
      → last_state o.vm_name s.trace ≡ some "Running"
      → IsConfirmedAt o.vm_name (graceful_stop_and_confirm_off run sleep now fired o s)
  unfolding graceful_stop_and_confirm_off
  graceful_stop-IsConfirmedAt s h r = confirm_off-IsConfirmedAt _ _ _ (r, h)

  start_if-IsOrderedAt :
      (start : Bool) (s : Session W)
      → IsOrderedAt o.vm_name s
      → (start ≡ true → last_state o.vm_name s.trace ≡ some "Off")
      → IsOrderedAt o.vm_name (start_if run sleep now fired o start s).1
  start_if-IsOrderedAt false s h f = h
  start_if-IsOrderedAt true s h f = elim (Bool-cases ((run start_vm s.world).0.exit_code == 0)) [
    | inl y ↦ rw y (f refl, h)
    | inr n ↦ rw n (f refl, h)
  ]

  connect_if-IsOrderedAt :
      (connect start : Bool) (target : String) (s : Session W)
      → IsOrderedAt o.vm_name s
      → (start ≡ true → last_state o.vm_name s.trace ≡ some "Off")
      → (connect ≡ true → last_state o.vm_name s.trace ≡ some "Off")
      → IsOrderedAt o.vm_name (connect_if run sleep now fired o connect start target s).1
  connect_if-IsOrderedAt false start target s h f g = start_if-IsOrderedAt start s h f
  connect_if-IsOrderedAt true start target s h f g =
      elim (Bool-cases ((run (connect_adapter target) s.world).0.exit_code == 0)) [
        | inl y ↦ rw y (start_if-IsOrderedAt start _ (g refl, h) f)
        | inr n ↦ rw n (g refl, h)
      ]

  after_stop-IsOrderedAt :
      (connect start : Bool) (target : String) (r : Confirmed × Session W)
      → IsConfirmedAt o.vm_name r
      → IsOrderedAt o.vm_name (after_stop run sleep now fired o connect start target r).1
  after_stop-IsOrderedAt connect start target (off, s) (h, e) =
      connect_if-IsOrderedAt connect start target s h (λ _. e) (λ _. e)
  after_stop-IsOrderedAt connect start target (failure f, s) h = h
  after_stop-IsOrderedAt connect start target (out_of_fuel, s) h = h

  carry_out-IsOrderedAt :
      (state target : String) (plan : Option Plan) (s : Session W)
      → IsPlanFor state plan
      → IsOrderedAt o.vm_name s
      → last_state o.vm_name s.trace ≡ some state
      → IsOrderedAt o.vm_name (carry_out run sleep now fired o state target plan s).1
  carry_out-IsOrderedAt state target none s p h e = h
  carry_out-IsOrderedAt state target (some plan) s (p, q, r) h e = elim (Bool-cases plan.stop) [
    | inl y ↦ rw y (
        after_stop-IsOrderedAt plan.connect plan.start target
          (graceful_stop_and_confirm_off run sleep now fired o s)
          (graceful_stop-IsConfirmedAt s h (e ∙ ap some (p y))))
    | inr n ↦ rw n (
        connect_if-IsOrderedAt plan.connect plan.start target s h (λ y. e ∙ ap some (q n y))
          (λ y. e ∙ ap some (r n y)))
  ]

  with_adapters-IsOrderedAt :
      (state target : String) (names : List String) (s : Session W)
      → IsOrderedAt o.vm_name s
      → last_state o.vm_name s.trace ≡ some state
      → IsOrderedAt o.vm_name (with_adapters run sleep now fired o state target names s).1
  with_adapters-IsOrderedAt state target [] s h e = h
  with_adapters-IsOrderedAt state target (name ∷ []) s h e =
      carry_out-IsOrderedAt state target _ s (plan-IsPlanFor state name target) h e
  with_adapters-IsOrderedAt state target (name ∷ name' ∷ names) s h e = h

  with_vm-IsOrderedAt :
      (target : String) (vm : Option VmEntry) (s : Session W)
      → IsOrderedAt o.vm_name s
      → last_state o.vm_name s.trace ≡ state_of vm
      → IsOrderedAt o.vm_name (with_vm run sleep now fired o target vm s).1
  with_vm-IsOrderedAt target none s h e = h
  with_vm-IsOrderedAt target (some vm) s h e =
      with_adapters-IsOrderedAt vm.state target _ (call run sleep now fired o get_adapters s).1
        (tt, h) e

  -- Reconciling stops the VM only when it was last seen `Running`, and connects or starts it only
  -- when it was last seen `Off`, whatever PowerShell answers and however it ends.
  pub reconcile-IsOrdered :
      (target : String) (s : Session W)
      → IsOrdered o.vm_name s.trace
      → IsOrdered o.vm_name (reconcile_vm_to_switch run sleep now fired o target s).1.trace
  unfolding reconcile_vm_to_switch
  reconcile-IsOrdered target s h =
      with_vm-IsOrderedAt target
        (parse_get_vm_result (call run sleep now fired o get_vm s).0.vms o.vm_name)
        (call run sleep now fired o get_vm s).1 (tt, h) refl

  isolate_vm-IsOrderedAt :
      (target : String) (vm : Option VmEntry) (s : Session W)
      → IsOrderedAt o.vm_name s
      → last_state o.vm_name s.trace ≡ state_of vm
      → IsOrderedAt o.vm_name (isolate_vm run sleep now fired o target vm s).1
  isolate_vm-IsOrderedAt target none s h e = h
  isolate_vm-IsOrderedAt target (some vm) s h e = elim (Bool-cases (same_text vm.state "Running")) [
    | inl y ↦ rw y (
        after_stop-IsOrderedAt true true target
          (graceful_stop_and_confirm_off run sleep now fired o s)
          (graceful_stop-IsConfirmedAt s h (e ∙ ap some (same_text→eq _ _ y))))
    | inr n ↦ elim (Bool-cases (same_text vm.state "Off")) [
      | inl y ↦
          let stopped = e ∙ ap some (same_text→eq vm.state "Off" y) in
          rw (n, y) (connect_if-IsOrderedAt true true target s h (λ _. stopped) (λ _. stopped))
      | inr m ↦ rw (n, m) h
    ]
  ]

  -- Isolating keeps the same order.
  pub isolate-IsOrdered :
      (target : String) (s : Session W)
      → IsOrdered o.vm_name s.trace
      → IsOrdered o.vm_name (isolate_vm_to_switch run sleep now fired o target s).1.trace
  unfolding isolate_vm_to_switch
  isolate-IsOrdered target s h =
      isolate_vm-IsOrderedAt target
        (parse_get_vm_result (call run sleep now fired o get_vm s).0.vms o.vm_name)
        (call run sleep now fired o get_vm s).1 (tt, h) refl
