-- ===== src/Hosting/Shutdown.antt =====
-- `shutdown`, `fatal`, `mcpFatal`, the stop signals, and the channels' part in them.
use susentorno.Base.{
  ℕ, zero, suc, ◌+◌, Bool, true, false, ◌||◌, Option, none, some, List, [], ◌∷◌, ◌++◌, String,
  if◌then◌else◌, same_text,
}
use susentorno.Credentials.Channel.{
  Channel, ChannelConfig, Effect, NudgeResult, clear_timer, on_timer, nudge_done, commit, arm_timer,
}
use susentorno.Hosting.Types.{
  blue, green, Act, write_secret, nudge, stop_color, stop_log, stop_mcp_servers, resolve, Teardown,
  serving, stopping_colors, stopping_rest, resolved, Loop,
}

-- The list of channels with channel `i` given anew.
abbrev pub update_channel :
    (Channel → Channel) → ℕ → List (ChannelConfig × Channel) → List (ChannelConfig × Channel)
update_channel f i [] = []
update_channel f zero ((config, c) ∷ rest) = (config, f c) ∷ rest
update_channel f (suc i) (c ∷ rest) = c ∷ update_channel f i rest

abbrev clear_timers : List (ChannelConfig × Channel) → List (ChannelConfig × Channel)
clear_timers [] = []
clear_timers ((config, c) ∷ rest) = (config, clear_timer c) ∷ clear_timers rest

-- The synchronous part: flags, timers and watchers; then the teardown's first call.
unfoldable pub shutdown : ℕ → Bool → Loop → Loop
shutdown code mcp s = if s.settled then s else record s {
  settled = true;
  channels = clear_timers s.channels;
  watching = false;
  exit_code = some code;
  mcp_stopped = mcp;
  teardown = if mcp then stopping_colors else stopping_rest;
  acts =
      if mcp
      then stop_color green ∷ stop_color blue ∷ s.acts
      else if s.mcp_running
      then stop_mcp_servers ∷ stop_log ∷ s.acts
      else stop_log ∷ s.acts;
}

abbrev pub fatal : Loop → Loop
fatal s = shutdown 1 false s

abbrev pub mcp_fatal : Loop → Loop
mcp_fatal s = shutdown 1 true s

unfoldable pub on_stop_signal : Loop → Loop
on_stop_signal s =
    if s.stop_signal_seen || s.settled
    then s
    else shutdown 0 false (record s { stop_signal_seen = true })

abbrev code_of : Option ℕ → ℕ
code_of none = 0
code_of (some code) = code

-- The teardown's promises: the colors, then the log stream with the MCP servers, then `resolve`.
unfoldable pub on_torn_down : Teardown → Loop → Loop
on_torn_down serving s = s
on_torn_down stopping_colors s = record s {
  teardown = stopping_rest;
  acts = if s.mcp_running then stop_mcp_servers ∷ stop_log ∷ s.acts else stop_log ∷ s.acts;
}
on_torn_down stopping_rest s = record s {
  teardown = resolved;
  acts = resolve (code_of s.exit_code) ∷ s.acts;
}
on_torn_down resolved s = s

abbrev pub is_exhausted : List Effect → Bool
is_exhausted [] = false
is_exhausted (Effect.exhausted _ ∷ es) = true
is_exhausted (_ ∷ es) = is_exhausted es

-- The acts that a channel's effects are, before the older ones.
abbrev pub channel_acts : ℕ → List Effect → List Act → List Act
channel_acts i [] acts = acts
channel_acts i (Effect.write_secret creds ∷ es) acts =
    channel_acts i es (write_secret i creds ∷ acts)
channel_acts i (Effect.nudge ∷ es) acts = channel_acts i es (nudge i ∷ acts)
channel_acts i (Effect.exhausted _ ∷ es) acts = channel_acts i es acts

-- Channel `i` reacts; its exhaustion is fatal.
abbrev pub settle_channel : ℕ → Channel × List Effect → Loop → Loop
settle_channel i (c, es) s =
    let s' = record s {
      channels = update_channel (λ _. c) i s.channels;
      acts = channel_acts i es s.acts;
    } in
    if is_exhausted es then fatal s' else s'

abbrev pub get_channel : ℕ → List (ChannelConfig × Channel) → Option (ChannelConfig × Channel)
get_channel i [] = none
get_channel zero (c ∷ rest) = some c
get_channel (suc i) (c ∷ rest) = get_channel i rest

abbrev pub channel_timer : ℕ → ℕ → Option (ChannelConfig × Channel) → Loop → Loop
channel_timer i now none s = s
channel_timer i now (some (config, c)) s = settle_channel i (on_timer config s.settled now c) s

unfoldable pub on_channel_timer : ℕ → ℕ → Loop → Loop
on_channel_timer i now s = channel_timer i now (get_channel i s.channels) s

abbrev pub channel_nudged : ℕ → ℕ → NudgeResult → Option (ChannelConfig × Channel) → Loop → Loop
channel_nudged i now result none s = s
channel_nudged i now result (some (config, c)) s =
    settle_channel i (nudge_done config s.settled now result c) s

unfoldable pub on_nudge_returned : ℕ → ℕ → NudgeResult → Loop → Loop
on_nudge_returned i now result s = channel_nudged i now result (get_channel i s.channels) s

-- `channel.commit()` for each channel of a list
abbrev pub commit_channels :
    List ℕ → List (ChannelConfig × Channel) → List (ChannelConfig × Channel)
commit_channels [] cs = cs
commit_channels (i ∷ is) cs = commit_channels is (update_channel commit i cs)

abbrev arm_one : ℕ → ℕ → List (ChannelConfig × Channel) → List (ChannelConfig × Channel)
arm_one now i [] = []
arm_one now zero ((config, c) ∷ rest) = (config, arm_timer config now c) ∷ rest
arm_one now (suc i) (c ∷ rest) = c ∷ arm_one now i rest

-- `channel.armTimer()` for each channel of a list
abbrev pub arm_channels :
    ℕ → List ℕ → List (ChannelConfig × Channel) → List (ChannelConfig × Channel)
arm_channels now [] cs = cs
arm_channels now (i ∷ is) cs = arm_channels now is (arm_one now i cs)

abbrev pub all_from : ℕ → List (ChannelConfig × Channel) → List ℕ
all_from i [] = []
all_from i (_ ∷ rest) = i ∷ all_from (i + 1) rest

abbrev seen_has : String → List String → Bool
seen_has key [] = false
seen_has key (k ∷ ks) = same_text k key || seen_has key ks

-- `UniqueTracker.shouldPrint` on the key of each entry of a log line
abbrev note_entries : List String → List String → List String
note_entries [] seen = seen
note_entries (key ∷ keys) seen =
    note_entries keys (if seen_has key seen then seen else seen ++ key ∷ [])

unfoldable pub on_log_line : List String → Loop → Loop
on_log_line keys s = if s.settled then s else record s { seen = note_entries keys s.seen }
