-- ===== src/Guest/Polling.antt =====
-- The `for (;;)` loop that waitForPowerShellDirect of src/guestSetup/windows/guestExecutor.ts and
-- waitForIsolatedNetwork of isolatedReadiness.ts share: probe, stop or go on, give up at the
-- deadline, beat, sleep. `probe` is one invocation within a time limit, `aborted` reads the signal,
-- and `decide` says what an answer means.
use susentorno.Base.{
  ℕ, zero, suc, ◌+◌, ◌-◌, ◌≤◌, ◌⊎◌, inl, inr, ◌≡◌, refl, Bool, true, List, ◌∷◌, arith, leb,
  if◌then◌else◌, Bool-cases,
}
use susentorno.Guest.Executor.{Invocation}

-- `stop` ends the wait; `again` carries what is reported if the time is up.
pub data Decision (R L : Type 0) : Type 0 where
  stop : R → Decision R L
  again : L → Decision R L

-- `out_of_fuel` is no result of the code.
pub data Polled (R L : Type 0) : Type 0 where
  answered : R → Polled R L
  expired : L → Polled R L
  cancelled : Polled R L
  out_of_fuel : Polled R L

pub record Wait (W : Type 0) : Type 0 where
  pub world : W
  pub last_heartbeat : ℕ
  pub heartbeats : List ℕ

pub record Times : Type 0 where
  pub deadline : ℕ
  pub probe_interval : ℕ
  pub heartbeat_interval : ℕ

abbrev pub min : ℕ → ℕ → ℕ
min a b = if leb a b then a else b

abbrev pub max : ℕ → ℕ → ℕ
max a b = if leb a b then b else a

min_positive : (a b : ℕ) → 1 ≤ a → 1 ≤ b → 1 ≤ min a b
min_positive a b h k = ground arith

module _ {W R L : Type 0} (probe : ℕ → W → Invocation × W) (aborted : W → Bool) (now : W → ℕ)
    (sleep : ℕ → W → W) (times : Times) (limit : ℕ → ℕ) (decide : Invocation → Decision R L) where
  abbrev pub beat : ℕ → Wait W → Wait W
  beat elapsed s =
      if leb times.heartbeat_interval (elapsed - s.last_heartbeat)
      then record s { last_heartbeat = elapsed; heartbeats = elapsed ∷ s.heartbeats }
      else s

  abbrev pub rest_until : ℕ → W → W
  rest_until elapsed w = sleep (min times.probe_interval (times.deadline - elapsed)) w

  abbrev pub after_probe : ℕ → Decision R L → Wait W → Polled R L × Wait W → Polled R L × Wait W
  after_probe elapsed (stop r) s rest = (answered r, s)
  after_probe elapsed (again l) s rest = if leb times.deadline elapsed then (expired l, s) else rest

  -- `limit` is the probe's time limit, from the time that remains.
  unfoldable pub poll : ℕ → ℕ → Wait W → Polled R L × Wait W
  poll zero started s = (out_of_fuel, s)
  poll (suc fuel) started s =
      let (answer, w) = probe (limit (times.deadline - (now s.world - started))) s.world in
      let elapsed = now w - started in
      let s' : Wait W = record s { world = w } in
      let rested : Wait W = record (beat elapsed s') { world = rest_until elapsed w } in
      let rest = poll fuel started rested in
      if aborted s.world then (cancelled, s) else after_probe elapsed (decide answer) s' rest

  -- A wait gives up only at its deadline, is cancelled only by the signal, and ends otherwise with
  -- a decision on some answer.
  abbrev pub IsEnd : ℕ → Polled R L × Wait W → Type 0
  IsEnd started (answered r, s) = (ms : ℕ) × (w : W) × (decide (probe ms w).0 ≡ stop r)
  IsEnd started (expired l, s) = started + times.deadline ≤ now s.world
  IsEnd started (cancelled, s) = aborted s.world ≡ true
  IsEnd started (out_of_fuel, s) = ⊥

  module _ (probe_keeps_time : (ms : ℕ) (w : W) → now w ≤ now (probe ms w).1)
      (sleep_passes : (ms : ℕ) (w : W)
        → (now w + ms ≤ now (sleep ms w)) ⊎ (aborted (sleep ms w) ≡ true))
      (polls : 1 ≤ times.probe_interval) where
    after_probe-IsEnd :
        (started ms : ℕ) (w : W) (d : Decision R L) (s : Wait W) (rest : Polled R L × Wait W)
        → decide (probe ms w).0 ≡ d
        → started ≤ now s.world
        → (now s.world - started + 1 ≤ times.deadline → IsEnd started rest)
        → IsEnd started (after_probe (now s.world - started) d s rest)
    after_probe-IsEnd started ms w (stop r) s rest e h k = (ms, w, e)
    after_probe-IsEnd started ms w (again l) s rest e h k =
        elim (Bool-cases (leb times.deadline (now s.world - started))) [
          | inl y ↦ rw y (ground arith)
          | inr n ↦ rw n (k (ground arith))
        ]

    -- Once the signal is aborted, one more round is enough.
    poll_aborted :
        (fuel started : ℕ) (s : Wait W)
        → 1 ≤ fuel
        → aborted s.world ≡ true
        → IsEnd started (poll fuel started s)
    unfolding poll
    poll_aborted zero started s f a = absurd (omega arith)
    poll_aborted (suc fuel) started s f a = rw a a

    pub poll-IsEnd :
        (fuel started : ℕ) (s : Wait W)
        → started ≤ now s.world
        → started + times.deadline + 2 ≤ fuel + now s.world
        → 1 ≤ fuel
        → IsEnd started (poll fuel started s)
    unfolding poll
    poll-IsEnd zero started s h f g = absurd (omega arith)
    poll-IsEnd (suc fuel) started s h f g =
        let ms = limit (times.deadline - (now s.world - started)) in
        let (answer, w) = probe ms s.world in
        let k = probe_keeps_time ms s.world in
        let elapsed = now w - started in
        let s' : Wait W = record s { world = w } in
        let rested : Wait W = record (beat elapsed s') { world = rest_until elapsed w } in
        let pause = min times.probe_interval (times.deadline - elapsed) in
        elim (Bool-cases (aborted s.world)) [
          | inl y ↦ rw y y
          | inr n ↦ rw n (
              after_probe-IsEnd started ms s.world (decide answer) s' (poll fuel started rested)
                refl (omega (arith, h, k))
                (λ left. elim (sleep_passes pause w) [
                  | inl passed ↦
                      let some_time : 1 ≤ pause =
                        min_positive times.probe_interval (times.deadline - elapsed) polls
                          (omega (arith, left)) in
                      poll-IsEnd fuel started rested (omega (arith, h, k, passed))
                        (omega (arith, f, k, passed, some_time)) (omega (arith, f, h, k, left))
                  | inr stopped ↦
                      poll_aborted fuel started rested (omega (arith, f, h, k, left)) stopped
                ]))
        ]
