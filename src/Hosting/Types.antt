-- ===== src/Hosting/Types.antt =====
-- The variables that `runHostingLoop` closes over, where its two async functions may be waiting,
-- and what it does to the world. A log line is left out; a call on `deps` is an `Act`.
use susentorno.Base.{ℕ, Bool, true, false, Option, List, ◌∷◌, String}
use susentorno.Credentials.Plan.{Credentials}
use susentorno.Credentials.Channel.{Channel, ChannelConfig, NudgeResult}
use susentorno.Policy.Types.{Allowlist}

pub data Color : Type 0 where
  blue green : Color

abbrev pub other_color : Color → Color
other_color blue = green
other_color green = blue

abbrev pub same_color : Color → Color → Bool
same_color blue blue = true
same_color green green = true
same_color _ _ = false

pub record ColorPorts : Type 0 where
  pub https_port : ℕ
  pub http_port : ℕ
  pub admin_port : ℕ

-- `write_secret` and `nudge` carry the index of their channel.
pub data Act : Type 0 where
  build_config : Allowlist → Act
  write_secret : ℕ → Credentials → Act
  nudge : ℕ → Act
  start_mcp_servers : Act
  bring_up : Color → ColorPorts → Act
  stop_color : Color → Act
  set_backend : ColorPorts → Act
  drain_backend : ColorPorts → Act
  start_log : Color → Act
  stop_log : Act
  stop_mcp_servers : Act
  resolve : ℕ → Act

-- The locals of one restart, from `allocatePorts` on.
pub record Pass : Type 0 where
  pub idle : Color
  pub old_color : Color
  pub old_ports : ColorPorts
  pub applied : List ℕ
  pub readable : List ℕ
  pub clear_unique : Bool

-- Where `start` or `drainRestarts` is waiting; `resting` when neither runs.
pub data Pc : Type 0 where
  unstarted : Pc
  start_mcp_ports : Pc
  start_ports : Pc
  start_bring_up : ColorPorts → Pc
  start_ready : ColorPorts → Pc
  pass_ports : Pass → Pc
  pass_bring_up : Pass → ColorPorts → Pc
  pass_ready : Pass → ColorPorts → Pc
  pass_stop_idle : Pass → Pc
  pass_stop_log : Pass → ColorPorts → Pc
  pass_drain : Pass → Pc
  pass_stop_old : Pass → Pc
  resting : Pc

-- How far `shutdown` has come: `mcp` when an MCP fatal has the colors stopped first.
pub data Teardown : Type 0 where
  serving : Teardown
  stopping_colors : Teardown
  stopping_rest : Teardown
  resolved : Teardown

-- `exit_code` is the argument of the `shutdown` that settled the loop, `mcp_stopped` whether that
-- one stopped both colors, `crashed` whether an exception left one of the async functions.
pub record Loop : Type 0 where
  pub settled : Bool
  pub restarting : Bool
  pub pending_policy : Bool
  pub dirty : List ℕ
  pub stop_signal_seen : Bool
  pub active_color : Color
  pub active_ports : Option ColorPorts
  pub seen : List String
  pub channels : List (ChannelConfig × Channel)
  pub watching : Bool
  pub mcp_running : Bool
  pub pc : Pc
  pub teardown : Teardown
  pub exit_code : Option ℕ
  pub mcp_stopped : Bool
  pub crashed : Bool
  pub acts : List Act

-- What the three policy files give: one is missing, a parser throws, or a policy.
pub data PolicyRead : Type 0 where
  unreadable : PolicyRead
  malformed : PolicyRead
  readable : Allowlist → PolicyRead

-- What the loop reads while it handles one event. `applies` is whether `ensureLeaf` and
-- `buildConfig` return, `mcp_spawns` whether every MCP server is spawned.
pub record World : Type 0 where
  pub now : ℕ
  pub policy : PolicyRead
  pub creds : ℕ → Option Credentials
  pub sync : ℕ → Option Bool
  pub applies : Bool
  pub mcp_spawns : Bool

-- How the awaited call ends.
pub data Outcome : Type 0 where
  ports : ColorPorts → Outcome
  done : Outcome
  failed : Outcome
  ready : Outcome
  not_ready : Outcome

pub data Event : Type 0 where
  start : Event
  resume : Outcome → Event
  policy_changed : Event
  credentials_changed : ℕ → Event
  stop_signal : Event
  mcp_failed : Event
  timer_fired : ℕ → Event
  nudge_returned : ℕ → NudgeResult → Event
  log_line : List String → Event
  torn_down : Event

abbrev pub act : Act → Loop → Loop
act a s = record s { acts = a ∷ s.acts }
