-- ===== src/Hosting/Uptime.antt =====
-- Serving over any sequence of events.
use susentorno.Base.{
  ℕ, ◌≡◌, ◌⊎◌, refl, sym, ap, subst, ◌∙◌, Bool, true, false, Option, none, some, List, [], ◌∷◌,
  if◌then◌else◌, inl, inr,
}
use susentorno.Credentials.Channel.{Channel, ChannelConfig}
use susentorno.Hosting.Types.{
  blue, ColorPorts, act, build_config, bring_up, set_backend, start_log, start_mcp_servers, Loop,
  World, Pc, unstarted, start_mcp_ports, start_ports, start_bring_up, start_ready, resting, Outcome,
  ports, done, failed, ready, not_ready, PolicyRead, unreadable, malformed, readable, Event, start,
  resume, policy_changed, credentials_changed, stop_signal, mcp_failed, timer_fired, nudge_returned,
  log_line, torn_down,
}
use susentorno.Hosting.Shutdown.{
  fatal, mcp_fatal, shutdown, get_channel, on_channel_timer, on_nudge_returned, on_stop_signal,
  on_torn_down, on_log_line, channel_timer, channel_nudged, commit_channels, arm_channels, all_from,
}
use susentorno.Hosting.Pipeline.{
  has_work, drain_restarts, start_drain, request_policy, request_channel, add_dirty,
}
use susentorno.Hosting.Machine.{
  new_loop, read_channels, spawn_mcp, start_over, with_startup_policy, with_channels, begin,
  serve_blue, resume_start, start_once, on_event, step, run,
}
use susentorno.Hosting.Settling.{Verdict, verdict-step}
use susentorno.Hosting.View.{
  view, view-shutdown, view-stop_signal, view-torn_down, view-channel_timer, view-channel_nudged,
  view-log_line,
}
use susentorno.Hosting.Serving.{
  ServesAt, GoodAt, IsRight, same-GoodAt, rest-GoodAt, if_GoodAt, drain_restarts-GoodAt,
  resume_pass-GoodAt,
}

-- An MCP failure has settled the loop and stopped both colors, or the loop serves.
abbrev pub IsServing : Loop → Type 0
IsServing s = ((s.settled ≡ true) × (s.mcp_stopped ≡ true)) ⊎ GoodAt s

if_IsServing : (b : Bool) (s t : Loop) → IsServing s → IsServing t → IsServing (if b then s else t)
if_IsServing true s t g h = g
if_IsServing false s t g h = h

mcp_fatal-IsServing : (s : Loop) → GoodAt s → IsServing (mcp_fatal s)
unfolding shutdown
mcp_fatal-IsServing s g = if_IsServing s.settled s _ (inr g) (inl (refl, refl))

fatal-GoodAt : (s : Loop) → GoodAt s → GoodAt (start_over (fatal s))
fatal-GoodAt s g = rest-GoodAt (fatal s) (same-GoodAt (fatal s) s (view-shutdown 1 s) g)

-- `start` goes on to `allocatePorts` behind a spawn that may have failed.
spawned :
    (b : Bool) (s t : Loop)
    → s.active_ports ≡ none
    → (t.settled ≡ true) × (t.mcp_stopped ≡ true)
    → IsServing (record (if b then s else t) { pc = start_ports })
spawned true s t e m = inr e
spawned false s t e m = inl m

mcp_fatal_spawned :
    (s : Loop) → s.active_ports ≡ none → IsServing (record (mcp_fatal s) { pc = start_ports })
unfolding shutdown
mcp_fatal_spawned s e = spawned s.settled s _ e (refl, refl)

spawn_if :
    (b : Bool) (s : Loop)
    → s.active_ports ≡ none
    → IsServing (record (if b then s else mcp_fatal s) { pc = start_ports })
spawn_if true s e = inr e
spawn_if false s e = mcp_fatal_spawned s e

spawn_mcp-IsServing :
    (m : Bool) (w : World) (s : Loop)
    → s.active_ports ≡ none
    → IsServing (record (spawn_mcp m w s) { pc = start_ports })
spawn_mcp-IsServing false w s e = inr e
spawn_mcp-IsServing true w s e =
    spawn_if w.mcp_spawns (record s { mcp_running = true; acts = start_mcp_servers ∷ s.acts }) e

module _ (mcp : Bool) where
  startup_policy-IsServing :
      (w : World) (r : PolicyRead) (s : Loop)
      → GoodAt s
      → s.active_ports ≡ none
      → IsServing (with_startup_policy mcp w r s)
  startup_policy-IsServing w unreadable s g e = inr (fatal-GoodAt s g)
  startup_policy-IsServing w malformed s g e = inr (rest-GoodAt s g)
  startup_policy-IsServing w (readable a) s g e =
      let armed : Loop = record s { watching = true; restarting = true } in
      if_IsServing w.applies
        (record (spawn_mcp mcp w (act (build_config a) armed)) { pc = start_ports })
        (start_over (fatal armed)) (spawn_mcp-IsServing mcp w (act (build_config a) armed) e)
        (inr (fatal-GoodAt armed g))

  with_channels-IsServing :
      (w : World) (o : Option (List (ChannelConfig × Channel))) (s : Loop)
      → GoodAt s
      → s.active_ports ≡ none
      → IsServing (with_channels mcp w o s)
  with_channels-IsServing w none s g e = inr (fatal-GoodAt s g)
  with_channels-IsServing w (some cs) s g e =
      let s' : Loop = record s { channels = cs } in
      if_IsServing mcp (record s' { pc = start_mcp_ports }) (with_startup_policy mcp w w.policy s')
        (inr e) (startup_policy-IsServing w w.policy s' g e)

  begin-IsServing :
      (w : World) (s : Loop) → s.pc ≡ unstarted → s.active_ports ≡ none → IsServing (begin mcp w s)
  unfolding begin
  begin-IsServing w s e n =
      let (read, acts') = read_channels w 0 s.channels s.acts in
      let s' : Loop = record s { acts = acts' } in
      with_channels-IsServing w read s' (subst (λ pc. IsRight pc (view s')) (sym e) n) n

  start_once-IsServing :
      (w : World) (pc : Pc) (s : Loop) → s.pc ≡ pc → GoodAt s → IsServing (start_once mcp w pc s)
  start_once-IsServing w unstarted s e g =
      begin-IsServing w s e (subst (λ pc. IsRight pc (view s)) e g)
  start_once-IsServing w pc s e g = inr g

  serve_blue-GoodAt :
      (w : World) (p : ColorPorts) (s : Loop)
      → (view s).blue_up ≡ some p
      → GoodAt (serve_blue mcp w p s)
  unfolding serve_blue
  serve_blue-GoodAt w p s u =
      let all = all_from 0 s.channels in
      let up : Loop = record s {
        active_color = blue;
        active_ports = some p;
        channels = arm_channels w.now all (commit_channels all s.channels);
        acts = start_log blue ∷ set_backend p ∷ s.acts;
        restarting = false;
        pc = resting;
      } in
      if_GoodAt (has_work up) (drain_restarts w up) up (drain_restarts-GoodAt w up (refl, u))
        (refl, u)

  resume_start-IsServing :
      (w : World) (pc : Pc) (o : Outcome) (s : Loop)
      → IsRight pc (view s)
      → GoodAt s
      → IsServing (resume_start mcp w pc o s)
  unfolding resume_start
  resume_start-IsServing w start_mcp_ports done s e g = startup_policy-IsServing w w.policy s g e
  resume_start-IsServing w start_mcp_ports failed s e g = inr (rest-GoodAt s g)
  resume_start-IsServing w start_ports (ports p) s e g =
      if_IsServing s.settled (start_over s)
        (record s { pc = start_bring_up p; acts = bring_up blue p ∷ s.acts })
        (inr (rest-GoodAt s g)) (inr (e, refl))
  resume_start-IsServing w start_ports failed s e g = inr (rest-GoodAt s g)
  resume_start-IsServing w (start_bring_up p) failed s h g = inr (fatal-GoodAt s g)
  resume_start-IsServing w (start_bring_up p) done s h g =
      if_IsServing s.settled (start_over s) (record s { pc = start_ready p })
        (inr (rest-GoodAt s g)) (inr h)
  resume_start-IsServing w (start_ready p) ready s (e, u) g =
      if_IsServing s.settled (start_over s) (serve_blue mcp w p s) (inr (rest-GoodAt s g))
        (inr (serve_blue-GoodAt w p s u))
  resume_start-IsServing w (start_ready p) not_ready s h g = inr (fatal-GoodAt s g)
  resume_start-IsServing w (start_ready p) failed s h g = inr (rest-GoodAt s g)
  resume_start-IsServing w pc o s h g = inr (resume_pass-GoodAt w pc o s h g)

  start_drain-GoodAt : (w : World) (s : Loop) → GoodAt s → GoodAt (start_drain w s)
  start_drain-GoodAt w s g =
      if_GoodAt s.restarting s (drain_restarts w s) g (drain_restarts-GoodAt w s g)

  request_policy-GoodAt : (w : World) (s : Loop) → GoodAt s → GoodAt (request_policy w s)
  unfolding request_policy
  request_policy-GoodAt w s g =
      let s' : Loop = record s { pending_policy = true } in
      if_GoodAt s.settled s (start_drain w s') g (start_drain-GoodAt w s' g)

  request_channel-GoodAt :
      (w : World) (i : ℕ) (s : Loop) → GoodAt s → GoodAt (request_channel w i s)
  unfolding request_channel
  request_channel-GoodAt w i s g =
      let s' : Loop = record s { dirty = add_dirty i s.dirty } in
      if_GoodAt s.settled s (start_drain w s') g (start_drain-GoodAt w s' g)

  on_event-IsServing :
      (w : World) (e : Event) (s : Loop) → GoodAt s → IsServing (on_event mcp w e s)
  unfolding on_event on_channel_timer on_nudge_returned
  on_event-IsServing w start s g = start_once-IsServing w s.pc s refl g
  on_event-IsServing w (resume o) s g = resume_start-IsServing w s.pc o s g g
  on_event-IsServing w policy_changed s g =
      inr (if_GoodAt s.watching (request_policy w s) s (request_policy-GoodAt w s g) g)
  on_event-IsServing w (credentials_changed i) s g =
      inr (if_GoodAt s.watching (request_channel w i s) s (request_channel-GoodAt w i s g) g)
  on_event-IsServing w stop_signal s g = inr (
      if_GoodAt s.watching (on_stop_signal s) s
        (same-GoodAt (on_stop_signal s) s (view-stop_signal s) g) g)
  on_event-IsServing w mcp_failed s g =
      if_IsServing s.mcp_running (mcp_fatal s) s (mcp_fatal-IsServing s g) (inr g)
  on_event-IsServing w (timer_fired i) s g =
      let o = get_channel i s.channels in
      inr (same-GoodAt (channel_timer i w.now o s) s (view-channel_timer i w.now o s) g)
  on_event-IsServing w (nudge_returned i r) s g =
      let o = get_channel i s.channels in
      inr (same-GoodAt (channel_nudged i w.now r o s) s (view-channel_nudged i w.now r o s) g)
  on_event-IsServing w (log_line keys) s g =
      inr (same-GoodAt (on_log_line keys s) s (view-log_line keys s) g)
  on_event-IsServing w torn_down s g =
      inr (same-GoodAt (on_torn_down s.teardown s) s (view-torn_down s.teardown s) g)

  step-IsServing : (w : World) (e : Event) (s : Loop) → IsServing s → IsServing (step mcp w e s)
  unfolding step
  step-IsServing w e s (inl (y, m)) =
      let v = verdict-step mcp w e s y in
      inl (ap Verdict.settled v ∙ y, ap Verdict.mcp_stopped v ∙ m)
  step-IsServing w e s (inr g) =
      if_IsServing s.crashed s (on_event mcp w e s) (inr g) (on_event-IsServing w e s g)

  run-IsServing : (es : List (World × Event)) (s : Loop) → IsServing s → IsServing (run mcp es s)
  unfolding run
  run-IsServing [] s h = h
  run-IsServing ((w, e) ∷ es) s h = run-IsServing es (step mcp w e s) (step-IsServing w e s h)

  served : (s : Loop) → IsServing s → (s.mcp_stopped ≡ true) ⊎ ServesAt s.active_ports (view s)
  served s (inl (y, m)) = inl m
  served s (inr g) = inr (rest-GoodAt s g)

  new_loop-IsServing : (channels : List (ChannelConfig × Channel)) → IsServing (new_loop channels)
  unfolding new_loop
  new_loop-IsServing channels = inr refl

  -- From the start, whatever the sequence of events and whatever each awaited call answers: unless
  -- an MCP failure has stopped both colors, whenever the loop has active ports the gateway points
  -- at them, and the active color was brought up at them and has not been stopped since.
  pub run-ServesAt :
      (es : List (World × Event)) (channels : List (ChannelConfig × Channel))
      → let s = run mcp es (new_loop channels) in
        (s.mcp_stopped ≡ true) ⊎ ServesAt s.active_ports (view s)
  run-ServesAt es channels =
      served (run mcp es (new_loop channels))
        (run-IsServing es (new_loop channels) (new_loop-IsServing channels))
