-- ===== src/Guest/Examples.antt =====
-- A guest whose network works at once; the world counts the milliseconds.
use susentorno.Base.{
  ℕ, ◌+◌, ◌≤◌, ◌≡◌, ◌↔◌, ◌⊎◌, inl, refl, arith, Bool, true, false, Option, some, [], ◌∷◌, String,
  same_text,
}
use susentorno.Guest.Executor.{Invocation, returned}
use susentorno.Guest.Polling.{Wait, Times}
use susentorno.Guest.Isolated.{
  IsolatedProbeFacts, evaluate_isolated_facts, in_same_subnet, ipv4_to_int,
}
use susentorno.Guest.Isolated.Working.{IsWorking, evaluate_isolated_facts_iff}
use susentorno.Guest.Isolated.Waiting.{
  wait_for_isolated_network, IsOutcome, wait_for_isolated_network_ends,
}

abbrev lower : String → String
lower s = s

abbrev facts : IsolatedProbeFacts
facts = record {
  addresses =
      record { interface_index = 3; address = "192.168.77.20"; prefix_length = 24; origin = "dhcp" }
      ∷ [];
  routes = record { interface_index = 3; next_hop = "192.168.77.1" } ∷ [];
  dns_servers = record { interface_index = 3; servers = "192.168.77.1" ∷ [] } ∷ [];
  lookup_ok = true;
  proxy_ok = true;
}

abbrev parse : String → Option IsolatedProbeFacts
parse s = some facts

abbrev invoke : ℕ → Invocation × ℕ
invoke w = (returned (record { exit_code = 0; stdout = "{}"; timed_out = false }), w + 5)

abbrev aborted : ℕ → Bool
aborted w = false

abbrev now : ℕ → ℕ
now w = w

abbrev sleep : ℕ → ℕ → ℕ
sleep ms w = w + ms

abbrev times : Times
times = record { deadline = 100; probe_interval = 10; heartbeat_interval = 30 }

abbrev wait : Wait ℕ
wait = record { world = 0; last_heartbeat = 0; heartbeats = [] }

probe_keeps_time : (w : ℕ) → now w ≤ now (invoke w).1
probe_keeps_time w = omega arith

sleep_passes : (ms w : ℕ) → (now w + ms ≤ now (sleep ms w)) ⊎ (aborted (sleep ms w) ≡ true)
sleep_passes ms w = inl (omega arith)

polls : 1 ≤ times.probe_interval
polls = omega arith

evaluate_isolated_facts_iff_example :
    (evaluate_isolated_facts lower facts "192.168.77.1" ≡ []) ↔ IsWorking lower facts "192.168.77.1"
evaluate_isolated_facts_iff_example = evaluate_isolated_facts_iff lower facts "192.168.77.1"

wait_for_isolated_network_ends_example :
    IsOutcome lower parse "192.168.77.1" invoke aborted now sleep times 0
      (wait_for_isolated_network lower parse "192.168.77.1" invoke aborted now sleep times wait)
wait_for_isolated_network_ends_example =
    wait_for_isolated_network_ends lower parse "192.168.77.1" invoke aborted now sleep times
      probe_keeps_time sleep_passes polls wait

it_works : evaluate_isolated_facts lower facts "192.168.77.1" ≡ []
unfolding evaluate_isolated_facts in_same_subnet ipv4_to_int same_text
it_works = refl
