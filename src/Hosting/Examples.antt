-- ===== src/Hosting/Examples.antt =====
-- A loop without channels, started and swapped once, and one that a stop signal has settled.
use susentorno.Base.{◌≡◌, ◌⊎◌, refl, true, false, none, some, List, [], ◌∷◌}
use susentorno.Policy.Types.{Allowlist}
use susentorno.Hosting.Types.{
  Loop, World, Event, ColorPorts, start, resume, policy_changed, mcp_failed, torn_down, ports, done,
  ready, unreadable, readable,
}
use susentorno.Hosting.Shutdown.{shutdown}
use susentorno.Hosting.Pipeline.{
  prepare_channels, pass, drain_from, drain_restarts, flip, resume_pass, request_policy,
}
use susentorno.Hosting.Machine.{
  new_loop, run, step, on_event, begin, read_channels, serve_blue, resume_start,
}
use susentorno.Hosting.View.{view}
use susentorno.Hosting.Serving.{ServesAt}
use susentorno.Hosting.Draining.{HasStopped, drain_restarts-HasStopped}
use susentorno.Hosting.Uptime.{run-ServesAt}
use susentorno.Hosting.Settling.{verdict, run-verdict}

abbrev stopped : Loop
stopped = shutdown 0 false (record (new_loop []) { watching = true; mcp_running = true })

abbrev world : World
world = record {
  now = 0;
  policy = unreadable;
  creds = λ i. none;
  sync = λ i. none;
  applies = true;
  mcp_spawns = true;
}

is_settled : stopped.settled ≡ true
unfolding shutdown new_loop
is_settled = refl

-- An MCP failure behind the stop signal does not turn the exit code 0 into 1.
run-verdict_example :
    verdict
      (run true ((world, mcp_failed) ∷ (world, torn_down) ∷ (world, policy_changed) ∷ []) stopped)
    ≡ verdict stopped
run-verdict_example =
    run-verdict true ((world, mcp_failed) ∷ (world, torn_down) ∷ (world, policy_changed) ∷ [])
      stopped is_settled

abbrev allowlist : Allowlist
allowlist = record {
  passthrough = [];
  claude_authenticated = [];
  github_authenticated = [];
  codex_authenticated = [];
  auth_candidate = [];
  blocked = [];
  warnings = [];
}

abbrev first : ColorPorts
first = record { https_port = 1; http_port = 2; admin_port = 3 }

abbrev second : ColorPorts
second = record { https_port = 4; http_port = 5; admin_port = 6 }

abbrev readable_world : World
readable_world = record world { policy = readable allowlist }

-- A start, a change of the policy, and the swap to green up to the drain.
abbrev swap : List (World × Event)
swap =
    (readable_world, start)
    ∷ (readable_world, resume (ports first))
    ∷ (readable_world, resume done)
    ∷ (readable_world, resume ready)
    ∷ (readable_world, policy_changed)
    ∷ (readable_world, resume (ports second))
    ∷ (readable_world, resume done)
    ∷ (readable_world, resume ready)
    ∷ (readable_world, resume done)
    ∷ []

run-ServesAt_example :
    ((run false swap (new_loop [])).mcp_stopped ≡ true)
    ⊎ ServesAt (run false swap (new_loop [])).active_ports (view (run false swap (new_loop [])))
run-ServesAt_example = run-ServesAt false swap []

swapped : (run false swap (new_loop [])).active_ports ≡ some second
unfolding run step on_event begin read_channels serve_blue resume_start resume_pass flip
    request_policy drain_restarts drain_from pass prepare_channels new_loop
swapped = refl

drain_restarts-HasStopped_example :
    HasStopped (drain_restarts readable_world (record (new_loop []) { pending_policy = true }))
drain_restarts-HasStopped_example =
    drain_restarts-HasStopped readable_world (record (new_loop []) { pending_policy = true })
