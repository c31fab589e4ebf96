-- ===== src/Credentials/Channel.antt =====
-- src/runHosting/credentialChannel.ts. The private fields are the record `Channel`; a method takes
-- what it reads from outside (the credentials file, the clock, what a callback answers) as
-- arguments, and returns the new state with the effects in order. A promise that is awaited splits
-- `doNudge` into `do_nudge`, up to the await, and `nudge_done`.
pub mod Swaps
pub mod Retries
pub mod Secrets
use susentorno.Base.{
  ℕ, ◌+◌, ◌-◌, Bool, true, false, not, ◌&&◌, ◌||◌, Option, none, some, List, [], ◌∷◌, ◌++◌, String,
  ltb, leb, if◌then◌else◌, same_option,
}
use susentorno.Credentials.Plan.{
  Credentials, RefreshState, PlanConfig, PlanResult, plan_next_actions,
}

pub record ChannelConfig : Type 0 where
  pub name : String
  pub refresh_window : ℕ
  pub retry_interval : ℕ
  pub max_attempts : ℕ
  pub refresh_enabled : Bool

pub record NudgeResult : Type 0 where
  pub ok : Bool
  pub stderr : String

-- `timer` is the time at which the pending timeout fires.
pub record Channel : Type 0 where
  pub last_applied_token : Option String
  pub last_applied_account : Option String
  pub last_synced_account : Option String
  pub last_seen_expires : Option ℕ
  pub last_read : Option Credentials
  pub pending_token : Option String
  pub pending_account : Option String
  pub awaiting : Bool
  pub failures : ℕ
  pub last_nudge_at : Option ℕ
  pub last_stderr : Option String
  pub timer : Option ℕ

abbrev pub new_channel : Channel
new_channel = record {
  last_applied_token = none;
  last_applied_account = none;
  last_synced_account = none;
  last_seen_expires = none;
  last_read = none;
  pending_token = none;
  pending_account = none;
  awaiting = false;
  failures = 0;
  last_nudge_at = none;
  last_stderr = none;
  timer = none;
}

-- `exhausted` carries the stderr of the last failed nudge; with none the source makes up a text
-- from the channel's name and `maxAttempts`.
pub data Effect : Type 0 where
  write_secret : Credentials → Effect
  nudge : Effect
  exhausted : Option String → Effect

pub record PrepareResult : Type 0 where
  pub restart_needed : Bool
  pub readable : Bool

abbrev pub clear_timer : Channel → Channel
clear_timer c = record c { timer = none }

-- What the call of `config.syncAccountId` gives: `none` where there is no such callback.
abbrev pub sync_account : Option Bool → Option String → Channel → Channel
sync_account (some true) account c = record c { last_synced_account = account }
sync_account _ account c = c

abbrev read_ok : Credentials → Option Bool → Channel → Channel × List Effect
read_ok creds sync c = (
  sync_account sync creds.account_id (record c {
    pending_token = some creds.access_token;
    pending_account = creds.account_id;
    last_read = some creds;
    last_seen_expires = some creds.expires_at;
  }),
  write_secret creds ∷ [],
)

unfoldable pub startup_read : Option Credentials → Option Bool → Channel → Channel × List Effect
startup_read none sync c = (c, [])
startup_read (some creds) sync c = read_ok creds sync c

abbrev pub has_advanced : Option ℕ → ℕ → Bool
has_advanced none expires = false
has_advanced (some seen) expires = ltb seen expires

abbrev stage : Bool → Credentials → Channel → Channel
stage apply creds c =
    if apply
    then record c { pending_token = some creds.access_token; pending_account = creds.account_id }
    else c

abbrev resync : Credentials → Option Bool → Channel → Channel
resync creds sync c =
    if not (same_option creds.account_id c.last_synced_account)
    then sync_account sync creds.account_id c
    else c

abbrev reset_if : Bool → Channel → Channel
reset_if advanced c = if advanced then record c { failures = 0; awaiting = false } else c

abbrev commit_token : Option String → Channel → Channel
commit_token none c = c
commit_token (some token) c = record c {
  last_applied_token = some token;
  pending_token = none;
  last_applied_account = c.pending_account;
  pending_account = none;
}

unfoldable pub commit : Channel → Channel
commit c = commit_token c.pending_token c

-- `setTimeout` with a delay of `Math.max(0, nudgeAt - now)`
abbrev pub arm_at : Option ℕ → ℕ → Channel → Channel
arm_at none now c = clear_timer c
arm_at (some nudge_at) now c = record c {
  timer = some (if leb nudge_at now then now else nudge_at);
}

module _ (config : ChannelConfig) where
  abbrev pub plan_config : PlanConfig
  plan_config = record {
    refresh_window = config.refresh_window;
    retry_interval = config.retry_interval;
  }

  abbrev pub refresh_state : Channel → RefreshState
  refresh_state c = record {
    enabled = config.refresh_enabled;
    awaiting_outcome = c.awaiting;
    last_nudge_at = c.last_nudge_at;
  }

  abbrev pub plan : Channel → Credentials → ℕ → PlanResult
  plan c creds now = plan_next_actions (record {
    creds = creds;
    last_applied_token = c.last_applied_token;
    now = now;
    config = plan_config;
    refresh = refresh_state c;
  })

  -- `plan.propagate || accountIdChanged`
  abbrev pub must_apply : Channel → Credentials → ℕ → Bool
  must_apply c creds now =
      (plan c creds now).propagate || not (same_option creds.account_id c.last_applied_account)

  unfoldable pub prepare_restart :
      Option Credentials → ℕ → Option Bool → Channel → PrepareResult × Channel × List Effect
  prepare_restart none now sync c = (record { restart_needed = false; readable = false }, c, [])
  prepare_restart (some creds) now sync c =
      let apply = must_apply c creds now in
      let advanced = has_advanced c.last_seen_expires creds.expires_at in
      let c' = reset_if advanced (resync creds sync (stage apply creds c)) in
      (
        record { restart_needed = apply; readable = true },
        record c' { last_read = some creds; last_seen_expires = some creds.expires_at },
        if apply then write_secret creds ∷ [] else [],
      )

  abbrev arm_read : Option Credentials → ℕ → Channel → Channel
  arm_read none now c = c
  arm_read (some creds) now c = arm_at (plan c creds now).nudge_at now c

  unfoldable pub arm_timer : ℕ → Channel → Channel
  arm_timer now c = arm_read c.last_read now c

  unfoldable pub do_nudge : ℕ → Channel → Channel × List Effect
  do_nudge now c = (
    arm_at (some (now + config.retry_interval)) now
        (record c { awaiting = true; last_nudge_at = some now }),
    nudge ∷ [],
  )

  unfoldable pub handle_failed_attempt : ℕ → Channel → Channel × List Effect
  handle_failed_attempt now c =
      let c' = record (clear_timer c) { failures = c.failures + 1 } in
      if leb config.max_attempts c'.failures
      then (c', exhausted c'.last_stderr ∷ [])
      else do_nudge now c'

  -- The timeout fires; nothing happens once the loop has settled.
  unfoldable pub on_timer : Bool → ℕ → Channel → Channel × List Effect
  on_timer settled now c =
      let c' = clear_timer c in
      if settled
      then (c', [])
      else if c.awaiting
      then handle_failed_attempt now c'
      else do_nudge now c'

  -- `doNudge` behind its await.
  unfoldable pub nudge_done : Bool → ℕ → NudgeResult → Channel → Channel × List Effect
  nudge_done settled now result c =
      if settled || not c.awaiting
      then (c, [])
      else if result.ok
      then (record c { last_stderr = none }, [])
      else handle_failed_attempt now (record c { last_stderr = some result.stderr })
