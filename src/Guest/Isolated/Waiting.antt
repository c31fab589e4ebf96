-- ===== src/Guest/Isolated/Waiting.antt =====
-- `waitForIsolatedNetwork`. `parse` is `parseFacts`: JSON.parse, and none for what is no object.
use susentorno.Base.{
  ℕ, ◌+◌, ◌≤◌, ◌⊎◌, ◌≡◌, refl, arith, Bool, true, false, not, ◌&&◌, Option, none, some, List, [],
  ◌∷◌, String, ◌==◌, if◌then◌else◌, subst,
}
use susentorno.Guest.Executor.{
  GuestErrorKind, transport, authentication, protocol, deadline, cancelled, timeout, GuestResult,
  Invocation, returned, guest_error, other_error,
}
use susentorno.Guest.Polling.{
  Decision, stop, again, Polled, answered, expired, out_of_fuel, Wait, Times, poll, poll-IsEnd,
  IsEnd,
}
use susentorno.Guest.Polling
use susentorno.Guest.Isolated.{
  IsolatedProbeFacts, IsolatedCondition, lease, gateway, dns, proxy, evaluate_isolated_facts,
}
use susentorno.Guest.Isolated.Working.{IsWorking, evaluate_isolated_facts_iff}

-- The wait returns, or throws; `stuck` is no result of the code.
pub data IsolatedEnd : Type 0 where
  working : IsolatedEnd
  not_ready : List IsolatedCondition → IsolatedEnd
  threw : GuestErrorKind → IsolatedEnd
  threw_other stuck : IsolatedEnd

-- `probeFailed`
abbrev probe_failed : List IsolatedCondition
probe_failed = lease ∷ gateway ∷ dns ∷ proxy ∷ []

abbrev decide_unmet : List IsolatedCondition → Decision IsolatedEnd (List IsolatedCondition)
decide_unmet [] = stop working
decide_unmet (c ∷ unmet) = again (c ∷ unmet)

abbrev decide_error : GuestErrorKind → Decision IsolatedEnd (List IsolatedCondition)
decide_error transport = again probe_failed
decide_error deadline = again probe_failed
decide_error kind = stop (threw kind)

abbrev isolated_end : Polled IsolatedEnd (List IsolatedCondition) → IsolatedEnd
isolated_end (answered r) = r
isolated_end (expired unmet) = not_ready unmet
isolated_end Polling.cancelled = threw cancelled
isolated_end out_of_fuel = stuck

module _ (lower : String → String) (parse : String → Option IsolatedProbeFacts)
    (host_ip : String) where
  abbrev decide_facts : Option IsolatedProbeFacts → Decision IsolatedEnd (List IsolatedCondition)
  decide_facts none = decide_unmet probe_failed
  decide_facts (some facts) = decide_unmet (evaluate_isolated_facts lower facts host_ip)

  unfoldable pub decide_isolated : Invocation → Decision IsolatedEnd (List IsolatedCondition)
  decide_isolated (returned r) =
      decide_facts (if r.exit_code == 0 && not r.timed_out then parse r.stdout else none)
  decide_isolated (guest_error kind) = decide_error kind
  decide_isolated other_error = stop threw_other

  module _ {W : Type 0} (invoke : W → Invocation × W) (aborted : W → Bool) (now : W → ℕ)
      (sleep : ℕ → W → W) (times : Times) where
    -- A round sleeps, or the signal is aborted; so the deadline's milliseconds are fuel enough.
    unfoldable pub wait_for_isolated_network : Wait W → IsolatedEnd × Wait W
    wait_for_isolated_network s =
        let (result, s') =
          poll (λ ms w. invoke w) aborted now sleep times (λ remaining. remaining) decide_isolated
            (times.deadline + 2) (now s.world) s in
        (isolated_end result, s')

    -- Some probe has answered in time, with exit code 0 and with facts of a working network.
    pub record HasWorked : Type 0 where
      pub world : W
      pub result : GuestResult
      pub answer : (invoke world).0 ≡ returned result
      pub succeeded : (result.exit_code ≡ 0) × (result.timed_out ≡ false)
      pub facts : IsolatedProbeFacts
      pub parsed : parse result.stdout ≡ some facts
      pub is_working : IsWorking lower facts host_ip

    -- How the wait may end, started at a time.
    abbrev pub IsOutcome : ℕ → IsolatedEnd × Wait W → Type 0
    IsOutcome started (working, s) = HasWorked
    IsOutcome started (not_ready unmet, s) = started + times.deadline ≤ now s.world
    IsOutcome started (threw kind, s) = Unit
    IsOutcome started (threw_other, s) = Unit
    IsOutcome started (stuck, s) = ⊥

    decide_unmet_stops :
        (unmet : List IsolatedCondition) (r : IsolatedEnd)
        → decide_unmet unmet ≡ stop r
        → (unmet ≡ []) × (working ≡ r)
    decide_unmet_stops [] r e = (refl, cc)
    decide_unmet_stops (c ∷ unmet) r e = absurd cc

    decide_facts_stops :
        (o : Option IsolatedProbeFacts) (r : IsolatedEnd)
        → decide_facts o ≡ stop r
        → (facts : IsolatedProbeFacts) × (o ≡ some facts)
          × (evaluate_isolated_facts lower facts host_ip ≡ [])
          × (working ≡ r)
    decide_facts_stops none r e = absurd cc
    decide_facts_stops (some facts) r e =
        let (n, w) = decide_unmet_stops (evaluate_isolated_facts lower facts host_ip) r e in
        (facts, refl, n, w)

    decide_error_stops :
        (kind : GuestErrorKind) (r : IsolatedEnd) → decide_error kind ≡ stop r → threw kind ≡ r
    decide_error_stops transport r e = absurd cc
    decide_error_stops deadline r e = absurd cc
    decide_error_stops authentication r e = cc
    decide_error_stops protocol r e = cc
    decide_error_stops cancelled r e = cc
    decide_error_stops timeout r e = cc

    worked :
        (started : ℕ) (w : W) (answer : GuestResult) (r : IsolatedEnd) (s : Wait W) (in_time : Bool)
        → (invoke w).0 ≡ returned answer
        → (answer.exit_code == 0 && not answer.timed_out) ≡ in_time
        → decide_facts (if in_time then parse answer.stdout else none) ≡ stop r
        → IsOutcome started (r, s)
    worked started w answer r s true a e d =
        let (facts, p, n, same) = decide_facts_stops (parse answer.stdout) r d in
        subst (λ end. IsOutcome started (end, s)) same
          (record {
            world = w;
            result = answer;
            answer = a;
            succeeded = (ground arith, ground arith);
            facts = facts;
            parsed = p;
            is_working = (evaluate_isolated_facts_iff lower facts host_ip).0 n;
          })
    worked started w answer r s false a e d = absurd cc

    stopped-IsOutcome :
        (started : ℕ) (w : W) (a : Invocation) (r : IsolatedEnd) (s : Wait W)
        → (invoke w).0 ≡ a
        → decide_isolated a ≡ stop r
        → IsOutcome started (r, s)
    unfolding decide_isolated
    stopped-IsOutcome started w (returned answer) r s a d =
        worked started w answer r s (answer.exit_code == 0 && not answer.timed_out) a refl d
    stopped-IsOutcome started w (guest_error kind) r s a d =
        subst (λ end. IsOutcome started (end, s)) (decide_error_stops kind r d) tt
    stopped-IsOutcome started w other_error r s a d =
        let same : threw_other ≡ r = cc in subst (λ end. IsOutcome started (end, s)) same tt

    end-IsOutcome :
        (started : ℕ) (p : Polled IsolatedEnd (List IsolatedCondition)) (s : Wait W)
        → IsEnd
            (λ ms w. invoke w)
            aborted
            now
            sleep
            times
            (λ remaining. remaining)
            decide_isolated
            started
            (p, s)
        → IsOutcome started (isolated_end p, s)
    end-IsOutcome started (answered r) s (ms, w, d) =
        stopped-IsOutcome started w (invoke w).0 r s refl d
    end-IsOutcome started (expired unmet) s h = h
    end-IsOutcome started Polling.cancelled s h = tt
    end-IsOutcome started out_of_fuel s h = h

    -- When the clock goes on, `waitForIsolatedNetwork` ends. It returns only if a probe has answered
    -- with exit code 0, in time, with facts of a working network, and gives up only at its deadline.
    pub wait_for_isolated_network_ends :
        (probe_keeps_time : (w : W) → now w ≤ now (invoke w).1)
        (sleep_passes : (ms : ℕ) (w : W)
          → (now w + ms ≤ now (sleep ms w)) ⊎ (aborted (sleep ms w) ≡ true))
        (polls : 1 ≤ times.probe_interval) (s : Wait W)
        → IsOutcome (now s.world) (wait_for_isolated_network s)
    unfolding wait_for_isolated_network
    wait_for_isolated_network_ends probe_keeps_time sleep_passes polls s =
        end-IsOutcome (now s.world) _ _ (
          poll-IsEnd (λ ms w. invoke w) aborted now sleep times (λ remaining. remaining)
            decide_isolated (λ ms w. probe_keeps_time w) sleep_passes polls (times.deadline + 2)
            (now s.world) s (omega arith) (omega arith) (omega arith))
