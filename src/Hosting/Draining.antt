-- ===== src/Hosting/Draining.antt =====
-- `drainRestarts` runs until it waits or has no work left.
use susentorno.Base.{
  ℕ, suc, ◌≡◌, ◌⊎◌, refl, Bool, true, false, not, ◌&&◌, ◌||◌, Option, none, some, List, [], ◌∷◌,
  if◌then◌else◌, inl, inr, arith,
}
use susentorno.Credentials.Channel.{Channel, ChannelConfig}
use susentorno.Hosting.Types.{
  Loop, World, ColorPorts, PolicyRead, unreadable, malformed, readable, act, build_config,
}
use susentorno.Hosting.Shutdown.{fatal, shutdown, get_channel}
use susentorno.Hosting.Pipeline.{
  Plan, empty_plan, prepare_one, prepare_channels, arm_readable, with_plan, prepared, with_policy,
  pass, rest_now, has_work, is_empty, is_waiting, drain_from, drain_restarts,
}

-- No change is pending.
abbrev IsQuiet : Loop → Type 0
IsQuiet s = (s.pending_policy ≡ false) × (s.dirty ≡ [])

if_IsQuiet : (b : Bool) (s t : Loop) → IsQuiet s → IsQuiet t → IsQuiet (if b then s else t)
if_IsQuiet true s t g h = g
if_IsQuiet false s t g h = h

prepare_one-IsQuiet :
    (w : World) (i : ℕ) (o : Option (ChannelConfig × Channel)) (s : Loop) (p : Plan)
    → IsQuiet s
    → IsQuiet (prepare_one w i o s p).0
prepare_one-IsQuiet w i none s p h = h
prepare_one-IsQuiet w i (some (config, c)) s p h = h

prepare_channels-IsQuiet :
    (w : World) (is : List ℕ) (s : Loop) (p : Plan)
    → IsQuiet s
    → IsQuiet (prepare_channels w is s p).0
unfolding prepare_channels
prepare_channels-IsQuiet w [] s p h = h
prepare_channels-IsQuiet w (i ∷ is) s p h =
    let (s', p') = prepare_one w i (get_channel i s.channels) s p in
    prepare_channels-IsQuiet w is s' p' (prepare_one-IsQuiet w i (get_channel i s.channels) s p h)

arm_readable-IsQuiet :
    (w : World) (is : List ℕ) (s : Loop) → IsQuiet s → IsQuiet (arm_readable w is s)
arm_readable-IsQuiet w is s h = if_IsQuiet s.settled s _ h h

with_plan-IsQuiet :
    (w : World) (s : Loop) (p : Plan) (o : Option ColorPorts)
    → IsQuiet s
    → IsQuiet (with_plan w (s, p) o)
with_plan-IsQuiet w s p none h = arm_readable-IsQuiet w p.readable s h
with_plan-IsQuiet w s p (some old) h =
    if_IsQuiet p.restart_needed _ (arm_readable w p.readable s) h
      (arm_readable-IsQuiet w p.readable s h)

prepared-IsQuiet :
    (w : World) (is : List ℕ) (s : Loop) (p : Plan) → IsQuiet s → IsQuiet (prepared w is s p)
prepared-IsQuiet w is s p h =
    let (s', p') = prepare_channels w is s p in
    with_plan-IsQuiet w s' p' s'.active_ports (prepare_channels-IsQuiet w is s p h)

fatal-IsQuiet : (s : Loop) → IsQuiet s → IsQuiet (fatal s)
unfolding shutdown
fatal-IsQuiet s h = if_IsQuiet s.settled s _ h h

abbrev policy_plan : Plan
policy_plan = record empty_plan { restart_needed = true; clear_unique = true }

with_policy-IsQuiet :
    (w : World) (is : List ℕ) (r : PolicyRead) (s : Loop)
    → IsQuiet s
    → IsQuiet (with_policy w is r s)
with_policy-IsQuiet w is unreadable s h = prepared-IsQuiet w is s empty_plan h
with_policy-IsQuiet w is malformed s h = h
with_policy-IsQuiet w is (readable a) s h =
    if_IsQuiet w.applies (prepared w is (act (build_config a) s) policy_plan) (rest_now (fatal s))
      (prepared-IsQuiet w is (act (build_config a) s) policy_plan h) (fatal-IsQuiet s h)

-- A pass takes every pending change.
pass-IsQuiet : (w : World) (s : Loop) → IsQuiet (pass w s)
unfolding pass
pass-IsQuiet w s =
    let taken : Loop = record s { pending_policy = false; dirty = [] } in
    if_IsQuiet s.pending_policy (with_policy w s.dirty w.policy taken)
      (prepared w s.dirty taken empty_plan)
      (with_policy-IsQuiet w s.dirty w.policy taken (refl, refl))
      (prepared-IsQuiet w s.dirty taken empty_plan (refl, refl))

no_work :
    (settled : Bool) (dirty : List ℕ) (pending : Bool)
    → pending ≡ false
    → dirty ≡ []
    → (not settled && (not (is_empty dirty) || pending)) ≡ false
no_work true dirty pending p d = refl
no_work false dirty pending p d = rw (p, d) refl

-- Where the function stands: it has returned, or it waits for the ports of a restart.
abbrev pub HasStopped : Loop → Type 0
HasStopped s = (s.restarting ≡ false) ⊎ (is_waiting s.pc ≡ true)

-- Each branch of a test, under what the test says.
choose :
    (b : Bool) (s t : Loop)
    → (b ≡ true → HasStopped s)
    → (b ≡ false → HasStopped t)
    → HasStopped (if b then s else t)
choose true s t f g = f refl
choose false s t f g = g refl

idle : (b : Bool) (s t : Loop) → b ≡ false → HasStopped s → HasStopped (if not b then s else t)
idle false s t e h = h
idle true s t e h = absurd (ground arith)

idle_round :
    (n : ℕ) (w : World) (s : Loop) → has_work s ≡ false → HasStopped (drain_from (suc n) w s)
unfolding drain_from
idle_round n w s e = idle (has_work s) (rest_now s) _ e (inl refl)

round : (w : World) (s : Loop) → HasStopped (drain_from 2 w s)
unfolding drain_from
round w s =
    let s' = pass w s in
    let (p, d) = pass-IsQuiet w s in
    let again = drain_from 1 w s' in
    let running = if s'.restarting then again else s' in
    choose (not (has_work s)) (rest_now s) (if is_waiting s'.pc then s' else running)
      (λ _. inl refl)
      (λ _.
        choose (is_waiting s'.pc) s' running (λ y. inr y)
          (λ _.
            choose s'.restarting again s'
              (λ _. idle_round 0 w s' (no_work s'.settled s'.dirty s'.pending_policy p d))
              (λ n. inl n)))

-- `drainRestarts`, started in any state, has returned with `restarting` reset, or waits for the
-- ports of a restart: two rounds of its loop are enough, since a pass takes every pending change.
pub drain_restarts-HasStopped : (w : World) (s : Loop) → HasStopped (drain_restarts w s)
unfolding drain_restarts
drain_restarts-HasStopped w s = round w (record s { restarting = true })
