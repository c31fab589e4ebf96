-- ===== src/Hosting/Pipeline.antt =====
-- `requestRestart` and `drainRestarts`: a restart pass up to its first await, what each awaited
-- call leads to, and the `while` loop around the passes.
use susentorno.Base.{
  ℕ, zero, suc, Bool, true, false, not, ◌&&◌, ◌||◌, Option, none, some, List, [], ◌∷◌, ◌++◌,
  if◌then◌else◌, has,
}
use susentorno.Credentials.Channel.{Channel, ChannelConfig, prepare_restart}
use susentorno.Hosting.Types.{
  other_color, ColorPorts, build_config, bring_up, stop_color, set_backend, drain_backend,
  start_log, stop_log, Pass, Pc, pass_ports, pass_bring_up, pass_ready, pass_stop_idle,
  pass_stop_log, pass_drain, pass_stop_old, resting, Loop, PolicyRead, unreadable, malformed,
  readable, World, Outcome, ports, done, failed, ready, not_ready, act,
}
use susentorno.Hosting.Shutdown.{
  update_channel, channel_acts, get_channel, fatal, commit_channels, arm_channels,
}

-- The locals of a pass before its restart: what the policy and the channels have asked for.
pub record Plan : Type 0 where
  pub restart_needed : Bool
  pub clear_unique : Bool
  pub applied : List ℕ
  pub readable : List ℕ

abbrev pub empty_plan : Plan
empty_plan = record { restart_needed = false; clear_unique = false; applied = []; readable = [] }

-- The `finally` of both async functions.
abbrev pub rest_now : Loop → Loop
rest_now s = record s { restarting = false; pc = resting }

-- An exception that nothing catches ends the process: `unhandledRejection` exits.
abbrev pub crash : Loop → Loop
crash s = record (rest_now s) { crashed = true; watching = false }

-- `channel.prepareRestart()` on one channel.
abbrev pub prepare_one : World → ℕ → Option (ChannelConfig × Channel) → Loop → Plan → Loop × Plan
prepare_one w i none s p = (s, p)
prepare_one w i (some (config, c)) s p =
    let (result, c', es) = prepare_restart config (w.creds i) w.now (w.sync i) c in
    (
      record s {
        channels = update_channel (λ _. c') i s.channels;
        acts = channel_acts i es s.acts;
      },
      record {
        restart_needed = p.restart_needed || result.restart_needed;
        clear_unique = p.clear_unique;
        applied = if result.restart_needed then p.applied ++ i ∷ [] else p.applied;
        readable = if result.readable then p.readable ++ i ∷ [] else p.readable;
      },
    )

unfoldable pub prepare_channels : World → List ℕ → Loop → Plan → Loop × Plan
prepare_channels w [] s p = (s, p)
prepare_channels w (i ∷ is) s p =
    let (s', p') = prepare_one w i (get_channel i s.channels) s p in prepare_channels w is s' p'

abbrev pub arm_readable : World → List ℕ → Loop → Loop
arm_readable w is s =
    if s.settled then s else record s { channels = arm_channels w.now is s.channels }

-- The pass behind its reads: a restart starts with `allocatePorts`, and `none` is the end of a
-- pass that needs none.
abbrev pub with_plan : World → Loop × Plan → Option ColorPorts → Loop
with_plan w (s, p) none = arm_readable w p.readable s
with_plan w (s, p) (some old_ports) =
    if p.restart_needed
    then record s {
      pc = pass_ports (record {
        idle = other_color s.active_color;
        old_color = s.active_color;
        old_ports = old_ports;
        applied = p.applied;
        readable = p.readable;
        clear_unique = p.clear_unique;
      });
    }
    else arm_readable w p.readable s

abbrev pub prepared : World → List ℕ → Loop → Plan → Loop
prepared w channels s p =
    let (s', p') = prepare_channels w channels s p in with_plan w (s', p') s'.active_ports

abbrev pub with_policy : World → List ℕ → PolicyRead → Loop → Loop
with_policy w channels unreadable s = prepared w channels s empty_plan
with_policy w channels malformed s = crash s
with_policy w channels (readable allowlist) s =
    if w.applies
    then prepared w channels (act (build_config allowlist) s)
        (record empty_plan { restart_needed = true; clear_unique = true })
    else rest_now (fatal s)

-- The body of the `while` loop up to its first await; the flags are taken first.
unfoldable pub pass : World → Loop → Loop
pass w s =
    let taken = record s { pending_policy = false; dirty = [] } in
    if s.pending_policy
    then with_policy w s.dirty w.policy taken
    else prepared w s.dirty taken empty_plan

abbrev pub is_empty : List ℕ → Bool
is_empty [] = true
is_empty (_ ∷ _) = false

abbrev pub has_work : Loop → Bool
has_work s = not s.settled && (not (is_empty s.dirty) || s.pending_policy)

abbrev pub is_waiting : Pc → Bool
is_waiting (pass_ports _) = true
is_waiting _ = false

-- A pass that does not wait comes back to the head of the loop with no work left, so two rounds
-- are enough.
unfoldable pub drain_from : ℕ → World → Loop → Loop
drain_from zero w s = s
drain_from (suc fuel) w s =
    let s' = pass w s in
    let again = drain_from fuel w s' in
    if not (has_work s)
    then rest_now s
    else if is_waiting s'.pc
    then s'
    else if s'.restarting
    then again
    else s'

unfoldable pub drain_restarts : World → Loop → Loop
drain_restarts w s = drain_from 2 w (record s { restarting = true })

-- The head of the loop after a pass that waited.
abbrev pub end_of_pass : World → Pass → Loop → Loop
end_of_pass w p s = drain_restarts w (arm_readable w p.readable s)

-- The flip to the new color, and the start of the old one's drain.
unfoldable pub flip : World → Pass → ColorPorts → Loop → Loop
flip w p idle_ports s = record s {
  active_color = p.idle;
  active_ports = some idle_ports;
  channels = commit_channels p.applied s.channels;
  seen = if p.clear_unique then [] else s.seen;
  pc = pass_drain p;
  acts = drain_backend p.old_ports ∷ start_log p.idle ∷ set_backend idle_ports ∷ s.acts;
}

-- A waiting pass goes on. A call whose rejection nothing catches leaves `drainRestarts` through its
-- `finally`; a `stopColor` that fails is passed over. An outcome that its awaited call does not have
-- changes nothing.
unfoldable pub resume_pass : World → Pc → Outcome → Loop → Loop
resume_pass w (pass_ports p) (ports idle_ports) s = record s {
  pc = pass_bring_up p idle_ports;
  acts = bring_up p.idle idle_ports ∷ s.acts;
}
resume_pass w (pass_ports p) failed s = crash s
resume_pass w (pass_bring_up p idle_ports) done s =
    if s.settled then rest_now s else record s { pc = pass_ready p idle_ports }
resume_pass w (pass_bring_up p idle_ports) failed s =
    if s.settled then rest_now s else end_of_pass w p s
resume_pass w (pass_ready p idle_ports) ready s =
    if s.settled
    then rest_now s
    else record s { pc = pass_stop_log p idle_ports; acts = stop_log ∷ s.acts }
resume_pass w (pass_ready p idle_ports) not_ready s =
    if s.settled
    then rest_now s
    else record s { pc = pass_stop_idle p; acts = stop_color p.idle ∷ s.acts }
resume_pass w (pass_ready p idle_ports) failed s = crash s
resume_pass w (pass_stop_idle p) done s = end_of_pass w p s
resume_pass w (pass_stop_idle p) failed s = end_of_pass w p s
resume_pass w (pass_stop_log p idle_ports) done s = flip w p idle_ports s
resume_pass w (pass_stop_log p idle_ports) failed s = crash s
resume_pass w (pass_drain p) done s = record s {
  pc = pass_stop_old p;
  acts = stop_color p.old_color ∷ s.acts;
}
resume_pass w (pass_drain p) failed s = crash s
resume_pass w (pass_stop_old p) done s = end_of_pass w p s
resume_pass w (pass_stop_old p) failed s = end_of_pass w p s
resume_pass w _ _ s = s

abbrev pub start_drain : World → Loop → Loop
start_drain w s = if s.restarting then s else drain_restarts w s

-- `requestRestart('policy')` and `requestRestart(channel)`
unfoldable pub request_policy : World → Loop → Loop
request_policy w s = if s.settled then s else start_drain w (record s { pending_policy = true })

abbrev pub add_dirty : ℕ → List ℕ → List ℕ
add_dirty i dirty = if has i dirty then dirty else dirty ++ i ∷ []

unfoldable pub request_channel : World → ℕ → Loop → Loop
request_channel w i s =
    if s.settled then s else start_drain w (record s { dirty = add_dirty i s.dirty })
