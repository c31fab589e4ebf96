-- ===== src/Hosting/Machine.antt =====
-- `start`, and the whole machine: one step for each event, over any sequence of events.
use susentorno.Base.{ℕ, ◌+◌, Bool, true, false, Option, none, some, List, [], ◌∷◌, if◌then◌else◌}
use susentorno.Credentials.Channel.{Channel, ChannelConfig, startup_read}
use susentorno.Hosting.Types.{
  blue, ColorPorts, Act, build_config, start_mcp_servers, bring_up, set_backend, start_log, Pc,
  unstarted, start_mcp_ports, start_ports, start_bring_up, start_ready, resting, serving, Loop,
  PolicyRead, unreadable, malformed, readable, World, Outcome, ports, done, failed, ready,
  not_ready, Event, start, resume, policy_changed, credentials_changed, stop_signal, mcp_failed,
  timer_fired, nudge_returned, log_line, torn_down, act,
}
use susentorno.Hosting.Shutdown.{
  channel_acts, fatal, mcp_fatal, on_stop_signal, on_torn_down, on_channel_timer, on_nudge_returned,
  commit_channels, arm_channels, all_from, on_log_line,
}
use susentorno.Hosting.Pipeline.{
  rest_now, crash, has_work, drain_restarts, resume_pass, request_policy, request_channel,
}

unfoldable pub new_loop : List (ChannelConfig × Channel) → Loop
new_loop channels = record {
  settled = false;
  restarting = false;
  pending_policy = false;
  dirty = [];
  stop_signal_seen = false;
  active_color = blue;
  active_ports = none;
  seen = [];
  channels = channels;
  watching = false;
  mcp_running = false;
  pc = unstarted;
  teardown = serving;
  exit_code = none;
  mcp_stopped = false;
  crashed = false;
  acts = [];
}

-- `start` returns.
abbrev pub start_over : Loop → Loop
start_over s = rest_now s

-- The MCP servers are spawned; a failed spawn is an MCP fatal there and then.
abbrev pub spawn_mcp : Bool → World → Loop → Loop
spawn_mcp false w s = s
spawn_mcp true w s =
    let s' = record s { mcp_running = true; acts = start_mcp_servers ∷ s.acts } in
    if w.mcp_spawns then s' else mcp_fatal s'

-- From the MCP ports on: the policy, the watchers, the configuration, `allocatePorts`.
abbrev pub with_startup_policy : Bool → World → PolicyRead → Loop → Loop
with_startup_policy mcp w unreadable s = start_over (fatal s)
with_startup_policy mcp w malformed s = crash s
with_startup_policy mcp w (readable allowlist) s =
    let armed = record s { watching = true; restarting = true } in
    if w.applies
    then record (spawn_mcp mcp w (act (build_config allowlist) armed)) { pc = start_ports }
    else start_over (fatal armed)

-- `channel.startupRead()` on each channel in turn; an unreadable file is fatal.
unfoldable pub read_channels :
    World
    → ℕ
    → List (ChannelConfig × Channel)
    → List Act
    → Option (List (ChannelConfig × Channel)) × List Act
read_channels w i [] acts = (some [], acts)
read_channels w i ((config, c) ∷ rest) acts = elim (w.creds i) [
  | none ↦ (none, acts)
  | some creds ↦
      let (c', es) = startup_read (some creds) (w.sync i) c in
      let (read, acts') = read_channels w (i + 1) rest (channel_acts i es acts) in
      (elim read [ none ↦ none | some cs ↦ some ((config, c') ∷ cs) ], acts')
]

module _ (mcp : Bool) where
  abbrev pub with_channels : World → Option (List (ChannelConfig × Channel)) → Loop → Loop
  with_channels w none s = start_over (fatal s)
  with_channels w (some channels) s =
      let s' = record s { channels = channels } in
      if mcp then record s' { pc = start_mcp_ports } else with_startup_policy mcp w w.policy s'

  unfoldable pub begin : World → Loop → Loop
  begin w s =
      let (read, acts) = read_channels w 0 s.channels s.acts in
      with_channels w read (record s { acts = acts })

  -- Blue serves: the gateway points at it, the tokens are applied, the timers are armed.
  unfoldable pub serve_blue : World → ColorPorts → Loop → Loop
  serve_blue w color_ports s =
      let all = all_from 0 s.channels in
      let up = record s {
        active_color = blue;
        active_ports = some color_ports;
        channels = arm_channels w.now all (commit_channels all s.channels);
        acts = start_log blue ∷ set_backend color_ports ∷ s.acts;
        restarting = false;
        pc = resting;
      } in
      if has_work up then drain_restarts w up else up

  -- A waiting start goes on; a rejection that nothing catches leaves it.
  unfoldable pub resume_start : World → Pc → Outcome → Loop → Loop
  resume_start w start_mcp_ports done s = with_startup_policy mcp w w.policy s
  resume_start w start_mcp_ports failed s = crash s
  resume_start w start_ports (ports color_ports) s =
      if s.settled
      then start_over s
      else record s { pc = start_bring_up color_ports; acts = bring_up blue color_ports ∷ s.acts }
  resume_start w start_ports failed s = crash s
  resume_start w (start_bring_up color_ports) failed s = start_over (fatal s)
  resume_start w (start_bring_up color_ports) done s =
      if s.settled then start_over s else record s { pc = start_ready color_ports }
  resume_start w (start_ready color_ports) ready s =
      if s.settled then start_over s else serve_blue w color_ports s
  resume_start w (start_ready color_ports) not_ready s = start_over (fatal s)
  resume_start w (start_ready color_ports) failed s = crash s
  resume_start w pc outcome s = resume_pass w pc outcome s

  abbrev pub start_once : World → Pc → Loop → Loop
  start_once w unstarted s = begin w s
  start_once w _ s = s

  -- Watchers and signal handlers act only once `start` has installed them, and an MCP server fails only once it runs.
  unfoldable pub on_event : World → Event → Loop → Loop
  on_event w start s = start_once w s.pc s
  on_event w (resume outcome) s = resume_start w s.pc outcome s
  on_event w policy_changed s = if s.watching then request_policy w s else s
  on_event w (credentials_changed i) s = if s.watching then request_channel w i s else s
  on_event w stop_signal s = if s.watching then on_stop_signal s else s
  on_event w mcp_failed s = if s.mcp_running then mcp_fatal s else s
  on_event w (timer_fired i) s = on_channel_timer i w.now s
  on_event w (nudge_returned i result) s = on_nudge_returned i w.now result s
  on_event w (log_line keys) s = on_log_line keys s
  on_event w torn_down s = on_torn_down s.teardown s

  -- A crashed process takes no more steps.
  unfoldable pub step : World → Event → Loop → Loop
  step w e s = if s.crashed then s else on_event w e s

  unfoldable pub run : List (World × Event) → Loop → Loop
  run [] s = s
  run ((w, e) ∷ rest) s = run rest (step w e s)
