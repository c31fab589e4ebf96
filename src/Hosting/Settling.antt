-- ===== src/Hosting/Settling.antt =====
-- What the first `shutdown` decides stays decided.
use susentorno.Base.{
  ℕ, ◌≡◌, refl, ap, ◌∙◌, Bool, true, false, Option, none, some, List, [], ◌∷◌, arith, if◌then◌else◌,
  Bool-cases, inl, inr, zero, suc,
}
use susentorno.Credentials.Channel.{Channel, ChannelConfig, NudgeResult}
use susentorno.Hosting.Types.{
  Loop, World, Event, act, build_config, Pc, Outcome, Pass, Teardown, serving, stopping_colors,
  stopping_rest, resolved, start, resume, policy_changed, credentials_changed, stop_signal,
  mcp_failed, timer_fired, nudge_returned, log_line, torn_down, unreadable, malformed, readable,
  PolicyRead, start_mcp_ports, start_ports, start_bring_up, start_ready, pass_bring_up,
  pass_stop_idle, pass_stop_old,
}
use susentorno.Hosting.Shutdown.{
  shutdown, fatal, on_stop_signal, on_torn_down, on_channel_timer, on_nudge_returned, on_log_line,
  channel_timer, channel_nudged, get_channel,
}
use susentorno.Hosting.Pipeline.{
  drain_from, drain_restarts, resume_pass, request_policy, request_channel, flip, end_of_pass,
}
use susentorno.Hosting.Machine.{
  begin, resume_start, on_event, step, run, with_startup_policy, spawn_mcp, start_over,
  with_channels, start_once,
}

pub record Verdict : Type 0 where
  pub settled : Bool
  pub exit_code : Option ℕ
  pub mcp_stopped : Bool

-- What `shutdown` has decided.
abbrev pub verdict : Loop → Verdict
verdict s = record { settled = s.settled; exit_code = s.exit_code; mcp_stopped = s.mcp_stopped }

verdict-shutdown :
    (code : ℕ) (m : Bool) (s : Loop) → s.settled ≡ true → verdict (shutdown code m s) ≡ verdict s
unfolding shutdown
verdict-shutdown code m s y = rw y refl

verdict-drain_from :
    (n : ℕ) (w : World) (s : Loop) → s.settled ≡ true → verdict (drain_from n w s) ≡ verdict s
unfolding drain_from
verdict-drain_from zero w s y = refl
verdict-drain_from (suc n) w s y = rw y refl

verdict-drain_restarts :
    (w : World) (s : Loop) → s.settled ≡ true → verdict (drain_restarts w s) ≡ verdict s
unfolding drain_restarts
verdict-drain_restarts w s y = verdict-drain_from 2 w _ y

-- Each of `b`'s branches is a state with the same verdict.
verdict-fatal_if :
    (b : Bool) (s : Loop) → s.settled ≡ true → verdict (if b then fatal s else s) ≡ verdict s
verdict-fatal_if true s y = verdict-shutdown 1 false s y
verdict-fatal_if false s y = refl

verdict-drain_armed :
    (w : World) (b : Bool) (cs : List (ChannelConfig × Channel)) (s : Loop)
    → s.settled ≡ true
    → verdict (drain_restarts w (if b then s else record s { channels = cs })) ≡ verdict s
verdict-drain_armed w true cs s y = verdict-drain_restarts w s y
verdict-drain_armed w false cs s y = verdict-drain_restarts w _ y

verdict-end_of_pass :
    (w : World) (p : Pass) (s : Loop) → s.settled ≡ true → verdict (end_of_pass w p s) ≡ verdict s
verdict-end_of_pass w p s y = verdict-drain_armed w s.settled _ s y

verdict-stop_signal : (s : Loop) → s.settled ≡ true → verdict (on_stop_signal s) ≡ verdict s
unfolding on_stop_signal
verdict-stop_signal s y = elim (Bool-cases s.stop_signal_seen) [
  | inl h ↦ rw h refl
  | inr h ↦ rw (h, y) refl
]

verdict-torn_down : (t : Teardown) (s : Loop) → verdict (on_torn_down t s) ≡ verdict s
unfolding on_torn_down
verdict-torn_down serving s = refl
verdict-torn_down stopping_colors s = refl
verdict-torn_down stopping_rest s = refl
verdict-torn_down resolved s = refl

verdict-channel_timer :
    (i now : ℕ) (o : Option (ChannelConfig × Channel)) (s : Loop)
    → s.settled ≡ true
    → verdict (channel_timer i now o s) ≡ verdict s
verdict-channel_timer i now none s y = refl
verdict-channel_timer i now (some (config, c)) s y = verdict-fatal_if _ _ y

verdict-channel_nudged :
    (i now : ℕ) (result : NudgeResult) (o : Option (ChannelConfig × Channel)) (s : Loop)
    → s.settled ≡ true
    → verdict (channel_nudged i now result o s) ≡ verdict s
verdict-channel_nudged i now result none s y = refl
verdict-channel_nudged i now result (some (config, c)) s y = verdict-fatal_if _ _ y

verdict-resume_pass :
    (w : World) (pc : Pc) (o : Outcome) (s : Loop)
    → s.settled ≡ true
    → verdict (resume_pass w pc o s) ≡ verdict s
unfolding resume_pass flip
verdict-resume_pass w (pass_bring_up p q) o s y =
    let end = verdict-end_of_pass w p s y in ground arith
verdict-resume_pass w (pass_stop_idle p) o s y =
    let end = verdict-end_of_pass w p s y in ground arith
verdict-resume_pass w (pass_stop_old p) o s y =
    let end = verdict-end_of_pass w p s y in ground arith
verdict-resume_pass w pc o s y = ground arith

verdict-request_policy :
    (w : World) (s : Loop) → s.settled ≡ true → verdict (request_policy w s) ≡ verdict s
unfolding request_policy
verdict-request_policy w s y = rw y refl

verdict-request_channel :
    (w : World) (i : ℕ) (s : Loop) → s.settled ≡ true → verdict (request_channel w i s) ≡ verdict s
unfolding request_channel
verdict-request_channel w i s y = rw y refl

verdict-spawn_mcp :
    (m : Bool) (w : World) (s : Loop) → s.settled ≡ true → verdict (spawn_mcp m w s) ≡ verdict s
verdict-spawn_mcp false w s y = refl
verdict-spawn_mcp true w s y = elim (Bool-cases w.mcp_spawns) [
  | inl h ↦ rw h refl
  | inr h ↦ rw h (verdict-shutdown 1 true _ y)
]

verdict-applied :
    (b : Bool) (t u : Loop) {v : Verdict}
    → verdict t ≡ v
    → verdict u ≡ v
    → verdict (if b then record t { pc = start_ports } else start_over u) ≡ v
verdict-applied true t u h h' = h
verdict-applied false t u h h' = h'

module _ (mcp : Bool) where
  verdict-startup_policy :
      (w : World) (read : PolicyRead) (s : Loop)
      → s.settled ≡ true
      → verdict (with_startup_policy mcp w read s) ≡ verdict s
  verdict-startup_policy w unreadable s y = verdict-shutdown 1 false s y
  verdict-startup_policy w malformed s y = refl
  verdict-startup_policy w (readable a) s y =
      let armed = record s { watching = true; restarting = true } in
      let h = verdict-spawn_mcp mcp w (act (build_config a) armed) y in
      let h' = verdict-shutdown 1 false armed y in
      verdict-applied w.applies (spawn_mcp mcp w (act (build_config a) armed)) (fatal armed) h h'

  verdict-with_channels :
      (w : World) (o : Option (List (ChannelConfig × Channel))) (s : Loop)
      → s.settled ≡ true
      → verdict (with_channels mcp w o s) ≡ verdict s
  verdict-with_channels w none s y = verdict-shutdown 1 false s y
  verdict-with_channels w (some cs) s y =
      let e = verdict-startup_policy w w.policy (record s { channels = cs }) y in ground arith

  verdict-begin : (w : World) (s : Loop) → s.settled ≡ true → verdict (begin mcp w s) ≡ verdict s
  unfolding begin
  verdict-begin w s y = verdict-with_channels w _ _ y

  verdict-resume_start :
      (w : World) (pc : Pc) (o : Outcome) (s : Loop)
      → s.settled ≡ true
      → verdict (resume_start mcp w pc o s) ≡ verdict s
  unfolding resume_start
  verdict-resume_start w start_mcp_ports o s y =
      let e = verdict-startup_policy w w.policy s y in
      let e' = verdict-resume_pass w start_mcp_ports o s y in ground arith
  verdict-resume_start w (start_bring_up p) o s y =
      let e = verdict-shutdown 1 false s y in
      let e' = verdict-resume_pass w (start_bring_up p) o s y in ground arith
  verdict-resume_start w (start_ready p) o s y =
      let e = verdict-shutdown 1 false s y in
      let e' = verdict-resume_pass w (start_ready p) o s y in ground arith
  verdict-resume_start w pc o s y = let e = verdict-resume_pass w pc o s y in ground arith

  verdict-start_once :
      (w : World) (pc : Pc) (s : Loop)
      → s.settled ≡ true
      → verdict (start_once mcp w pc s) ≡ verdict s
  verdict-start_once w pc s y = let e = verdict-begin w s y in ground arith

  verdict-on_event :
      (w : World) (e : Event) (s : Loop)
      → s.settled ≡ true
      → verdict (on_event mcp w e s) ≡ verdict s
  unfolding on_event on_channel_timer on_nudge_returned on_log_line
  verdict-on_event w start s y = verdict-start_once w s.pc s y
  verdict-on_event w (resume o) s y = verdict-resume_start w s.pc o s y
  verdict-on_event w policy_changed s y = let e = verdict-request_policy w s y in ground arith
  verdict-on_event w (credentials_changed i) s y =
      let e = verdict-request_channel w i s y in ground arith
  verdict-on_event w stop_signal s y = let e = verdict-stop_signal s y in ground arith
  verdict-on_event w mcp_failed s y = let e = verdict-shutdown 1 true s y in ground arith
  verdict-on_event w (timer_fired i) s y =
      verdict-channel_timer i w.now (get_channel i s.channels) s y
  verdict-on_event w (nudge_returned i result) s y =
      verdict-channel_nudged i w.now result (get_channel i s.channels) s y
  verdict-on_event w (log_line keys) s y = rw y refl
  verdict-on_event w torn_down s y = verdict-torn_down s.teardown s

  pub verdict-step :
      (w : World) (e : Event) (s : Loop) → s.settled ≡ true → verdict (step mcp w e s) ≡ verdict s
  unfolding step
  verdict-step w e s y = let h = verdict-on_event w e s y in ground arith

  -- Once the loop is settled, no sequence of events unsettles it or changes its exit code.
  pub run-verdict :
      (es : List (World × Event)) (s : Loop) → s.settled ≡ true → verdict (run mcp es s) ≡ verdict s
  unfolding run
  run-verdict [] s y = refl
  run-verdict ((w, e) ∷ es) s y =
      let h = verdict-step w e s y in run-verdict es (step mcp w e s) (ap Verdict.settled h ∙ y) ∙ h
