-- ===== src/Credentials/Plan.antt =====
-- src/runHosting/types.ts and planNextActions.ts. Times are milliseconds since the epoch.
use susentorno.Base.{
  ℕ, ◌+◌, ◌-◌, Bool, true, not, Option, none, some, String, leb, if◌then◌else◌, same_option,
}

pub record Credentials : Type 0 where
  pub access_token : String
  pub expires_at : ℕ
  pub account_id : Option String

pub record RefreshState : Type 0 where
  pub enabled : Bool
  pub awaiting_outcome : Bool
  pub last_nudge_at : Option ℕ

pub record PlanConfig : Type 0 where
  pub refresh_window : ℕ
  pub retry_interval : ℕ

pub record PlanInput : Type 0 where
  pub creds : Credentials
  pub last_applied_token : Option String
  pub now : ℕ
  pub config : PlanConfig
  pub refresh : RefreshState

pub record PlanResult : Type 0 where
  pub propagate : Bool
  pub nudge_at : Option ℕ

-- `expiresAt - refreshWindowMs` below 0 is below `now`, and so is the 0 that stands for it here.
abbrev target_time : PlanInput → ℕ
target_time i =
    let target = i.creds.expires_at - i.config.refresh_window in
    if leb target i.now then i.now else target

abbrev retry_time : PlanInput → Bool → Option ℕ → ℕ
retry_time i true (some at) = at + i.config.retry_interval
retry_time i _ _ = target_time i

unfoldable pub plan_next_actions : PlanInput → PlanResult
plan_next_actions i = record {
  propagate = not (same_option (some i.creds.access_token) i.last_applied_token);
  nudge_at =
      if not i.refresh.enabled
      then none
      else some (retry_time i i.refresh.awaiting_outcome i.refresh.last_nudge_at);
}
