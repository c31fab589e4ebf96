-- ===== src/Hosting/View.antt =====
-- Where the gateway points and which colors are up: the part of the loop's state that serving is
-- about, and the operations that leave it alone.
use susentorno.Base.{
  ℕ, ◌≡◌, refl, ◌∙◌, Bool, true, false, ◌||◌, Option, none, some, List, [], ◌∷◌, if◌then◌else◌,
  Bool-cases, inl, inr, String,
}
use susentorno.Credentials.Channel.{
  Channel, ChannelConfig, Effect, prepare_restart, write_secret, nudge, exhausted, NudgeResult,
  on_timer, nudge_done,
}
use susentorno.Hosting.Types.{
  Color, blue, green, same_color, ColorPorts, Act, set_backend, bring_up, stop_color, Teardown,
  serving, stopping_colors, stopping_rest, resolved, Loop, World,
}
use susentorno.Hosting.Shutdown.{
  channel_acts, settle_channel, fatal, shutdown, get_channel, on_stop_signal, on_torn_down,
  is_exhausted, channel_timer, channel_nudged, on_log_line, update_channel,
}
use susentorno.Hosting.Pipeline.{Plan, prepare_channels, prepare_one, arm_readable}

-- The target of the gateway.
abbrev pub backend : List Act → Option ColorPorts
backend [] = none
backend (set_backend p ∷ acts) = some p
backend (_ ∷ acts) = backend acts

-- The ports at which a color was last brought up, if it has not been stopped since.
abbrev pub up : Color → List Act → Option ColorPorts
up c [] = none
up c (bring_up d p ∷ acts) = if same_color d c then some p else up c acts
up c (stop_color d ∷ acts) = if same_color d c then none else up c acts
up c (_ ∷ acts) = up c acts

pub record View : Type 0 where
  pub active_color : Color
  pub active_ports : Option ColorPorts
  pub gateway : Option ColorPorts
  pub blue_up : Option ColorPorts
  pub green_up : Option ColorPorts

abbrev pub view : Loop → View
view s = record {
  active_color = s.active_color;
  active_ports = s.active_ports;
  gateway = backend s.acts;
  blue_up = up blue s.acts;
  green_up = up green s.acts;
}

pub backend-channel_acts :
    (i : ℕ) (es : List Effect) (acts : List Act) → backend (channel_acts i es acts) ≡ backend acts
backend-channel_acts i [] acts = refl
backend-channel_acts i (write_secret creds ∷ es) acts = backend-channel_acts i es _
backend-channel_acts i (nudge ∷ es) acts = backend-channel_acts i es _
backend-channel_acts i (exhausted m ∷ es) acts = backend-channel_acts i es acts

pub up-channel_acts :
    (c : Color) (i : ℕ) (es : List Effect) (acts : List Act)
    → up c (channel_acts i es acts) ≡ up c acts
up-channel_acts c i [] acts = refl
up-channel_acts c i (write_secret creds ∷ es) acts = up-channel_acts c i es _
up-channel_acts c i (nudge ∷ es) acts = up-channel_acts c i es _
up-channel_acts c i (exhausted m ∷ es) acts = up-channel_acts c i es acts

pub view-channel_acts :
    (i : ℕ) (es : List Effect) (s : Loop)
    → view (record s { acts = channel_acts i es s.acts }) ≡ view s
view-channel_acts i es s =
    rw
      (
        backend-channel_acts i es s.acts,
        up-channel_acts blue i es s.acts,
        up-channel_acts green i es s.acts,
      )
      refl

-- The same state with the same view: what the serving invariant reads.
abbrev pub SameView : Loop → Loop → Type 0
SameView s' s = (view s' ≡ view s) × (s'.pc ≡ s.pc)

view-prepare_one :
    (w : World) (i : ℕ) (o : Option (ChannelConfig × Channel)) (s : Loop) (p : Plan)
    → SameView (prepare_one w i o s p).0 s
view-prepare_one w i none s p = (refl, refl)
view-prepare_one w i (some (config, c)) s p =
    let (r, c', es) = prepare_restart config (w.creds i) w.now (w.sync i) c in
    (view-channel_acts i es s, refl)

pub view-prepare_channels :
    (w : World) (is : List ℕ) (s : Loop) (p : Plan) → SameView (prepare_channels w is s p).0 s
unfolding prepare_channels
view-prepare_channels w [] s p = (refl, refl)
view-prepare_channels w (i ∷ is) s p =
    let (s', p') = prepare_one w i (get_channel i s.channels) s p in
    let (a, b) = view-prepare_one w i (get_channel i s.channels) s p in
    let (a', b') = view-prepare_channels w is s' p' in (a' ∙ a, b' ∙ b)

armed :
    (b : Bool) (cs : List (ChannelConfig × Channel)) (s : Loop)
    → SameView (if b then s else record s { channels = cs }) s
armed true cs s = (refl, refl)
armed false cs s = (refl, refl)

pub view-arm_readable : (w : World) (is : List ℕ) (s : Loop) → SameView (arm_readable w is s) s
view-arm_readable w is s = armed s.settled _ s

pub view-shutdown : (code : ℕ) (s : Loop) → SameView (shutdown code false s) s
unfolding shutdown
view-shutdown code s = elim (Bool-cases s.settled) [
  | inl y ↦ rw y (refl, refl)
  | inr n ↦ elim (Bool-cases s.mcp_running) [
    | inl y ↦ rw (n, y) (refl, refl)
    | inr m ↦ rw (n, m) (refl, refl)
  ]
]

pub view-stop_signal : (s : Loop) → SameView (on_stop_signal s) s
unfolding on_stop_signal
view-stop_signal s = elim (Bool-cases (s.stop_signal_seen || s.settled)) [
  | inl y ↦ rw y (refl, refl)
  | inr n ↦ rw n (view-shutdown 0 (record s { stop_signal_seen = true }))
]

pub view-torn_down : (t : Teardown) (s : Loop) → SameView (on_torn_down t s) s
unfolding on_torn_down
view-torn_down serving s = (refl, refl)
view-torn_down stopping_colors s = elim (Bool-cases s.mcp_running) [
  | inl y ↦ rw y (refl, refl)
  | inr n ↦ rw n (refl, refl)
]
view-torn_down stopping_rest s = (refl, refl)
view-torn_down resolved s = (refl, refl)

fatal_if : (b : Bool) (s : Loop) → SameView (if b then fatal s else s) s
fatal_if true s = view-shutdown 1 s
fatal_if false s = (refl, refl)

pub view-settle_channel :
    (i : ℕ) (r : Channel × List Effect) (s : Loop) → SameView (settle_channel i r s) s
view-settle_channel i (c, es) s =
    let s' : Loop = record s {
      channels = update_channel (λ _. c) i s.channels;
      acts = channel_acts i es s.acts;
    } in
    let (a, b) = fatal_if (is_exhausted es) s' in (a ∙ view-channel_acts i es s, b)

pub view-channel_timer :
    (i now : ℕ) (o : Option (ChannelConfig × Channel)) (s : Loop)
    → SameView (channel_timer i now o s) s
view-channel_timer i now none s = (refl, refl)
view-channel_timer i now (some (config, c)) s =
    view-settle_channel i (on_timer config s.settled now c) s

pub view-channel_nudged :
    (i now : ℕ) (r : NudgeResult) (o : Option (ChannelConfig × Channel)) (s : Loop)
    → SameView (channel_nudged i now r o s) s
view-channel_nudged i now r none s = (refl, refl)
view-channel_nudged i now r (some (config, c)) s =
    view-settle_channel i (nudge_done config s.settled now r c) s

pub view-log_line : (keys : List String) (s : Loop) → SameView (on_log_line keys s) s
unfolding on_log_line
view-log_line keys s = elim (Bool-cases s.settled) [
  | inl y ↦ rw y (refl, refl)
  | inr n ↦ rw n (refl, refl)
]
