-- ===== src/Guest/Readiness.antt =====
-- `waitForPowerShellDirect` of src/guestSetup/windows/guestExecutor.ts. What the last failure was
-- only goes into the message of the timeout, and is left out.
use susentorno.Base.{
  ℕ, ◌+◌, ◌≤◌, ◌⊎◌, ◌≡◌, ◌≢◌, arith, Bool, true, false, ◌&&◌, ◌==◌, if◌then◌else◌,
}
use susentorno.Base.Strings.{includes}
use susentorno.Guest.Executor.{
  GuestErrorKind, transport, authentication, protocol, deadline, cancelled, timeout, Invocation,
  returned, guest_error, other_error,
}
use susentorno.Guest.Polling.{
  Decision, stop, again, Polled, answered, expired, out_of_fuel, Wait, Times, min, max, poll,
  poll-IsEnd, IsEnd,
}
use susentorno.Guest.Polling

-- `stuck` is no result of the code.
pub data Readiness : Type 0 where
  ready auth_rejected : Readiness
  threw : GuestErrorKind → Readiness
  threw_other stuck : Readiness

abbrev decide_error : GuestErrorKind → Decision Readiness Unit
decide_error authentication = stop auth_rejected
decide_error transport = again tt
decide_error deadline = again tt
decide_error kind = stop (threw kind)

unfoldable pub decide_probe : Invocation → Decision Readiness Unit
decide_probe (returned r) =
    if r.exit_code == 0 && includes r.stdout "ready" then stop ready else again tt
decide_probe (guest_error kind) = decide_error kind
decide_probe other_error = stop threw_other

abbrev pub readiness_of : Polled Readiness Unit → Readiness
readiness_of (answered r) = r
readiness_of (expired last) = threw timeout
readiness_of Polling.cancelled = threw cancelled
readiness_of out_of_fuel = stuck

abbrev pub probe_limit : ℕ → ℕ → ℕ
probe_limit probe_timeout remaining = max 1000 (min probe_timeout remaining)

error_answers : (kind : GuestErrorKind) (r : Readiness) → decide_error kind ≡ stop r → r ≢ stuck
error_answers transport r d e = absurd cc
error_answers deadline r d e = absurd cc
error_answers authentication r d e = cc
error_answers protocol r d e = cc
error_answers cancelled r d e = cc
error_answers timeout r d e = cc

returned_answers :
    (b : Bool) (r : Readiness) → (if b then stop ready else again tt) ≡ stop r → r ≢ stuck
returned_answers true r d e = cc
returned_answers false r d e = absurd cc

decide_probe_answers : (a : Invocation) (r : Readiness) → decide_probe a ≡ stop r → r ≢ stuck
unfolding decide_probe
decide_probe_answers (returned result) r d e =
    returned_answers (result.exit_code == 0 && includes result.stdout "ready") r d e
decide_probe_answers (guest_error kind) r d e = error_answers kind r d e
decide_probe_answers other_error r d e = cc

module _ {W : Type 0} (invoke : ℕ → W → Invocation × W) (aborted : W → Bool) (now : W → ℕ)
    (sleep : ℕ → W → W) (times : Times) (probe_timeout : ℕ) where
  -- A round sleeps, or the signal is aborted; so the deadline's milliseconds are fuel enough.
  unfoldable pub wait_for_power_shell_direct : Wait W → Readiness × Wait W
  wait_for_power_shell_direct s =
      let (result, s') =
        poll invoke aborted now sleep times (probe_limit probe_timeout) decide_probe
          (times.deadline + 2) (now s.world) s in
      (readiness_of result, s')

  -- The wait always has an answer.
  module _ (probe_keeps_time : (ms : ℕ) (w : W) → now w ≤ now (invoke ms w).1)
      (sleep_passes : (ms : ℕ) (w : W)
        → (now w + ms ≤ now (sleep ms w)) ⊎ (aborted (sleep ms w) ≡ true))
      (polls : 1 ≤ times.probe_interval) where
    not_stuck :
        (p : Polled Readiness Unit) (started : ℕ) (s : Wait W)
        → IsEnd invoke aborted now sleep times
            (probe_limit probe_timeout)
            decide_probe
            started
            (p, s)
        → readiness_of p ≢ stuck
    not_stuck (answered r) started s (ms, w, d) e = decide_probe_answers (invoke ms w).0 r d e
    not_stuck (expired last) started s h e = cc
    not_stuck Polling.cancelled started s h e = cc
    not_stuck out_of_fuel started s h e = h

    pub wait_for_power_shell_direct_ends : (s : Wait W) → (wait_for_power_shell_direct s).0 ≢ stuck
    unfolding wait_for_power_shell_direct
    wait_for_power_shell_direct_ends s = not_stuck _ (now s.world) _ (
        poll-IsEnd invoke aborted now sleep times (probe_limit probe_timeout) decide_probe
          probe_keeps_time sleep_passes polls (times.deadline + 2) (now s.world) s (omega arith)
          (omega arith) (omega arith))
