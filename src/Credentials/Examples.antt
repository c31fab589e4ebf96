-- ===== src/Credentials/Examples.antt =====
-- One channel with two attempts.
use susentorno.Base.{◌+◌, ◌≡◌, ◌≤◌, refl, arith, true, false, Option, none, some, List, [], ◌∷◌}
use susentorno.Credentials.Plan.{Credentials, PlanInput, plan_next_actions}
use susentorno.Credentials.Channel.{
  ChannelConfig, Channel, new_channel, Effect, write_secret, prepare_restart, commit, startup_read,
  PrepareResult,
}
use susentorno.Credentials.Channel.Swaps.{
  commit_if, commit-prepare_restart, prepare_restart_retried,
}
use susentorno.Credentials.Channel.Retries.{
  timer_fired, nudge_returned, run, begun, run-nudges, Event, timeout, returned, exhausts,
  exhausts-timeouts,
}
use susentorno.Credentials.Channel.Secrets.{start, history, history-commit}

abbrev config : ChannelConfig
config = record {
  name = "claude";
  refresh_window = 600;
  retry_interval = 60;
  max_attempts = 2;
  refresh_enabled = true;
}

abbrev creds : Credentials
creds = record { access_token = "a1"; expires_at = 5000; account_id = none }

abbrev input : PlanInput
input = record {
  creds = creds;
  last_applied_token = none;
  now = 1000;
  config = record { refresh_window = 600; retry_interval = 60 };
  refresh = record { enabled = true; awaiting_outcome = false; last_nudge_at = none };
}

run-nudges_example :
    begun config new_channel
      + (run config false
          (timer_fired 10
            ∷ nudge_returned 20 (record { ok = false; stderr = "x" })
            ∷ timer_fired 90
            ∷ [])
          new_channel).1
    ≤ 2
run-nudges_example =
    run-nudges config
      (timer_fired 10
        ∷ nudge_returned 20 (record { ok = false; stderr = "x" })
        ∷ timer_fired 90
        ∷ [])
      new_channel (omega arith)

-- A channel whose timeout is armed; a nudge returns well and the credentials still do not change.
abbrev armed : Channel
armed = record new_channel { timer = some 10 }

abbrev events : List Event
events =
    timeout 0
    ∷ returned 20 (record { ok = true; stderr = "" })
    ∷ timeout 5
    ∷ returned 90 (record { ok = false; stderr = "no network" })
    ∷ timeout 0
    ∷ []

exhausts-timeouts_example : exhausts config false events armed ≡ true
exhausts-timeouts_example = exhausts-timeouts config events armed refl (omega arith) (omega arith)

abbrev read : PrepareResult × Channel × List Effect
read = prepare_restart config (some creds) 1000 none new_channel

commit-prepare_restart_example :
    ((prepare_restart config (some creds) 2000 none (commit_if read.0 read.1)).0.restart_needed
      ≡ false)
    × ((prepare_restart config (some creds) 2000 none (commit_if read.0 read.1)).2 ≡ [])
commit-prepare_restart_example = commit-prepare_restart config new_channel creds 1000 2000 none none

asked : read.0.restart_needed ≡ true
unfolding prepare_restart plan_next_actions
asked = refl

prepare_restart_retried_example :
    ((prepare_restart config (some creds) 2000 none read.1).0.restart_needed ≡ true)
    × ((prepare_restart config (some creds) 2000 none read.1).2 ≡ write_secret creds ∷ [])
prepare_restart_retried_example =
    prepare_restart_retried config new_channel creds 1000 2000 none none asked

abbrev after : Channel × Option Credentials
after = history config (start (some creds) none ∷ []) new_channel none

staged : after.0.pending_token ≡ some "a1"
unfolding history startup_read
staged = refl

history-commit_example :
    (written : Credentials) × (after.1 ≡ some written)
    × ((commit after.0).last_applied_token ≡ some written.access_token)
    × ((commit after.0).last_applied_account ≡ written.account_id)
    × ((commit after.0).pending_token ≡ none)
history-commit_example = history-commit config (start (some creds) none ∷ []) none staged
