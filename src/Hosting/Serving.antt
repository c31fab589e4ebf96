-- ===== src/Hosting/Serving.antt =====
-- The gateway always points at a proxy that is up, through every swap.
use susentorno.Base.{
  ℕ, zero, suc, ◌≡◌, refl, sym, ap, ◌∙◌, subst, Bool, true, false, not, Option, none, some, List,
  [], ◌∷◌, if◌then◌else◌,
}
use susentorno.Hosting.Types.{
  Color, blue, green, other_color, ColorPorts, Act, act, bring_up, stop_color, stop_log,
  build_config, Loop, World, Pass, Pc, unstarted, start_mcp_ports, start_ports, start_bring_up,
  start_ready, resting, pass_ports, pass_bring_up, pass_ready, pass_stop_idle, pass_stop_log,
  pass_drain, pass_stop_old, Outcome, ports, done, failed, ready, not_ready, PolicyRead, unreadable,
  malformed, readable,
}
use susentorno.Hosting.Shutdown.{fatal}
use susentorno.Hosting.Pipeline.{
  Plan, empty_plan, prepare_channels, with_plan, prepared, with_policy, pass, drain_from,
  drain_restarts, has_work, is_waiting, rest_now, arm_readable, end_of_pass, flip, resume_pass,
}
use susentorno.Hosting.View.{
  backend, up, View, view, SameView, view-prepare_channels, view-arm_readable, view-shutdown,
}

abbrev up_of : Color → View → Option ColorPorts
up_of blue v = v.blue_up
up_of green v = v.green_up

-- With active ports, the gateway points at them and the active color is up at them.
abbrev pub ServesAt : Option ColorPorts → View → Type 0
ServesAt none v = Unit
ServesAt (some p) v = (v.gateway ≡ some p) × (up_of v.active_color v ≡ some p)

abbrev IsSwap : Pass → View → Type 0
IsSwap q v =
    (q.idle ≡ other_color v.active_color)
    × (q.old_color ≡ v.active_color)
    × ServesAt v.active_ports v

-- What holds where the async function waits.
abbrev pub IsRight : Pc → View → Type 0
IsRight unstarted v = v.active_ports ≡ none
IsRight start_mcp_ports v = v.active_ports ≡ none
IsRight start_ports v = v.active_ports ≡ none
IsRight (start_bring_up p) v = (v.active_ports ≡ none) × (v.blue_up ≡ some p)
IsRight (start_ready p) v = (v.active_ports ≡ none) × (v.blue_up ≡ some p)
IsRight (pass_ports q) v = IsSwap q v
IsRight (pass_bring_up q p) v = IsSwap q v × (up_of q.idle v ≡ some p)
IsRight (pass_ready q p) v = IsSwap q v × (up_of q.idle v ≡ some p)
IsRight (pass_stop_idle q) v = ServesAt v.active_ports v
IsRight (pass_stop_log q p) v = IsSwap q v × (up_of q.idle v ≡ some p)
IsRight (pass_drain q) v = ServesAt v.active_ports v × (q.old_color ≡ other_color v.active_color)
IsRight (pass_stop_old q) v = ServesAt v.active_ports v
IsRight resting v = ServesAt v.active_ports v

abbrev pub GoodAt : Loop → Type 0
GoodAt s = IsRight s.pc (view s)

none-ServesAt : (v : View) → v.active_ports ≡ none → ServesAt v.active_ports v
none-ServesAt v e = subst (λ o. ServesAt o v) (sym e) tt

pub IsRight-ServesAt : (pc : Pc) (v : View) → IsRight pc v → ServesAt v.active_ports v
IsRight-ServesAt unstarted v e = none-ServesAt v e
IsRight-ServesAt start_mcp_ports v e = none-ServesAt v e
IsRight-ServesAt start_ports v e = none-ServesAt v e
IsRight-ServesAt (start_bring_up p) v (e, u) = none-ServesAt v e
IsRight-ServesAt (start_ready p) v (e, u) = none-ServesAt v e
IsRight-ServesAt (pass_ports q) v (a, b, g) = g
IsRight-ServesAt (pass_bring_up q p) v ((a, b, g), u) = g
IsRight-ServesAt (pass_ready q p) v ((a, b, g), u) = g
IsRight-ServesAt (pass_stop_idle q) v g = g
IsRight-ServesAt (pass_stop_log q p) v ((a, b, g), u) = g
IsRight-ServesAt (pass_drain q) v (g, u) = g
IsRight-ServesAt (pass_stop_old q) v g = g
IsRight-ServesAt resting v g = g

pub same-GoodAt : (s' s : Loop) → SameView s' s → GoodAt s → GoodAt s'
same-GoodAt s' s (a, b) g =
    subst (λ v. IsRight s'.pc v) (sym a) (subst (λ pc. IsRight pc (view s)) (sym b) g)

pub rest-GoodAt : (s : Loop) → GoodAt s → ServesAt s.active_ports (view s)
rest-GoodAt s g = IsRight-ServesAt s.pc (view s) g

up_of-view : (c : Color) (s : Loop) → up_of c (view s) ≡ up c s.acts
up_of-view blue s = refl
up_of-view green s = refl

-- An act that moves neither the gateway nor the active color.
act-ServesAt :
    (a : Act) (o : Option ColorPorts) (s : Loop)
    → backend (a ∷ s.acts) ≡ backend s.acts
    → up s.active_color (a ∷ s.acts) ≡ up s.active_color s.acts
    → ServesAt o (view s)
    → ServesAt o (view (act a s))
act-ServesAt a none s b u g = tt
act-ServesAt a (some p) s b u (g, h) =
    (b ∙ g, up_of-view s.active_color (act a s) ∙ u ∙ sym (up_of-view s.active_color s) ∙ h)

up-stop_other :
    (d c : Color) (acts : List Act) → d ≡ other_color c → up c (stop_color d ∷ acts) ≡ up c acts
up-stop_other d blue acts e = rw e refl
up-stop_other d green acts e = rw e refl

up-bring_up_other :
    (d c : Color) (p : ColorPorts) (acts : List Act)
    → d ≡ other_color c
    → up c (bring_up d p ∷ acts) ≡ up c acts
up-bring_up_other d blue p acts e = rw e refl
up-bring_up_other d green p acts e = rw e refl

up-bring_up :
    (c : Color) (p : ColorPorts) (s : Loop) → up_of c (view (act (bring_up c p) s)) ≡ some p
up-bring_up blue p s = refl
up-bring_up green p s = refl

pub if_GoodAt : (b : Bool) (s t : Loop) → GoodAt s → GoodAt t → GoodAt (if b then s else t)
if_GoodAt true s t g h = g
if_GoodAt false s t g h = h

with_plan-GoodAt :
    (w : World) (s : Loop) (p : Plan) (o : Option ColorPorts)
    → GoodAt s
    → GoodAt (with_plan w (s, p) o)
with_plan-GoodAt w s p none g =
    same-GoodAt (arm_readable w p.readable s) s (view-arm_readable w p.readable s) g
with_plan-GoodAt w s p (some old) g =
    if_GoodAt p.restart_needed _ (arm_readable w p.readable s) (refl, refl, rest-GoodAt s g)
      (same-GoodAt (arm_readable w p.readable s) s (view-arm_readable w p.readable s) g)

prepared-GoodAt :
    (w : World) (is : List ℕ) (s : Loop) (p : Plan) → GoodAt s → GoodAt (prepared w is s p)
prepared-GoodAt w is s p g =
    let (s', p') = prepare_channels w is s p in
    with_plan-GoodAt w s' p' s'.active_ports (same-GoodAt s' s (view-prepare_channels w is s p) g)

abbrev policy_plan : Plan
policy_plan = record empty_plan { restart_needed = true; clear_unique = true }

with_policy-GoodAt :
    (w : World) (is : List ℕ) (r : PolicyRead) (s : Loop) → GoodAt s → GoodAt (with_policy w is r s)
with_policy-GoodAt w is unreadable s g = prepared-GoodAt w is s empty_plan g
with_policy-GoodAt w is malformed s g = rest-GoodAt s g
with_policy-GoodAt w is (readable a) s g =
    if_GoodAt w.applies (prepared w is (act (build_config a) s) policy_plan) (rest_now (fatal s))
      (prepared-GoodAt w is (act (build_config a) s) policy_plan g)
      (rest-GoodAt (fatal s) (same-GoodAt (fatal s) s (view-shutdown 1 s) g))

abbrev taken : Loop → Loop
taken s = record s { pending_policy = false; dirty = [] }

pass-GoodAt : (w : World) (s : Loop) → GoodAt s → GoodAt (pass w s)
unfolding pass
pass-GoodAt w s g =
    if_GoodAt s.pending_policy (with_policy w s.dirty w.policy (taken s))
      (prepared w s.dirty (taken s) empty_plan) (with_policy-GoodAt w s.dirty w.policy (taken s) g)
      (prepared-GoodAt w s.dirty (taken s) empty_plan g)

drain_from-GoodAt : (n : ℕ) (w : World) (s : Loop) → GoodAt s → GoodAt (drain_from n w s)
unfolding drain_from
drain_from-GoodAt zero w s g = g
drain_from-GoodAt (suc n) w s g =
    let s' = pass w s in
    let g' = pass-GoodAt w s g in
    let again = drain_from n w s' in
    let running = if s'.restarting then again else s' in
    let busy = if is_waiting s'.pc then s' else running in
    if_GoodAt (not (has_work s)) (rest_now s) busy (rest-GoodAt s g) (
      if_GoodAt (is_waiting s'.pc) s' running g'
        (if_GoodAt s'.restarting again s' (drain_from-GoodAt n w s' g') g'))

pub drain_restarts-GoodAt : (w : World) (s : Loop) → GoodAt s → GoodAt (drain_restarts w s)
unfolding drain_restarts
drain_restarts-GoodAt w s g = drain_from-GoodAt 2 w (record s { restarting = true }) g

end_of_pass-GoodAt : (w : World) (q : Pass) (s : Loop) → GoodAt s → GoodAt (end_of_pass w q s)
end_of_pass-GoodAt w q s g =
    let s' = arm_readable w q.readable s in
    drain_restarts-GoodAt w s' (same-GoodAt s' s (view-arm_readable w q.readable s) g)

other_other : (c : Color) → other_color (other_color c) ≡ c
other_other blue = refl
other_other green = refl

-- The new color is up at the ports to which the gateway is moved.
flip-GoodAt :
    (w : World) (q : Pass) (p : ColorPorts) (s : Loop)
    → IsSwap q (view s)
    → up_of q.idle (view s) ≡ some p
    → GoodAt (flip w q p s)
unfolding flip
flip-GoodAt w q p s (a, b, g) u = (
  (refl, up_of-view q.idle (flip w q p s) ∙ sym (up_of-view q.idle s) ∙ u),
  b ∙ sym (other_other s.active_color) ∙ ap other_color (sym a),
)

pub resume_pass-GoodAt :
    (w : World) (pc : Pc) (o : Outcome) (s : Loop)
    → IsRight pc (view s)
    → GoodAt s
    → GoodAt (resume_pass w pc o s)
unfolding resume_pass
resume_pass-GoodAt w (pass_ports q) (ports p) s (a, b, g) h = (
  (
    a,
    b,
    act-ServesAt (bring_up q.idle p) s.active_ports s refl
        (up-bring_up_other q.idle s.active_color p s.acts a) g,
  ),
  up-bring_up q.idle p s,
)
resume_pass-GoodAt w (pass_ports q) failed s (a, b, g) h = g
resume_pass-GoodAt w (pass_bring_up q p) done s ((a, b, g), u) h =
    if_GoodAt s.settled (rest_now s) (record s { pc = pass_ready q p }) g ((a, b, g), u)
resume_pass-GoodAt w (pass_bring_up q p) failed s ((a, b, g), u) h =
    if_GoodAt s.settled (rest_now s) (end_of_pass w q s) g (end_of_pass-GoodAt w q s h)
resume_pass-GoodAt w (pass_ready q p) ready s ((a, b, g), u) h =
    if_GoodAt s.settled (rest_now s) (record s { pc = pass_stop_log q p; acts = stop_log ∷ s.acts })
      g ((a, b, g), u)
resume_pass-GoodAt w (pass_ready q p) not_ready s ((a, b, g), u) h =
    if_GoodAt s.settled (rest_now s)
      (record s { pc = pass_stop_idle q; acts = stop_color q.idle ∷ s.acts }) g
      (act-ServesAt (stop_color q.idle) s.active_ports s refl
        (up-stop_other q.idle s.active_color s.acts a) g)
resume_pass-GoodAt w (pass_ready q p) failed s ((a, b, g), u) h = g
resume_pass-GoodAt w (pass_stop_idle q) done s g h = end_of_pass-GoodAt w q s h
resume_pass-GoodAt w (pass_stop_idle q) failed s g h = end_of_pass-GoodAt w q s h
resume_pass-GoodAt w (pass_stop_log q p) done s (i, u) h = flip-GoodAt w q p s i u
resume_pass-GoodAt w (pass_stop_log q p) failed s ((a, b, g), u) h = g
resume_pass-GoodAt w (pass_drain q) done s (g, a) h =
    act-ServesAt (stop_color q.old_color) s.active_ports s refl
      (up-stop_other q.old_color s.active_color s.acts a) g
resume_pass-GoodAt w (pass_drain q) failed s (g, a) h = g
resume_pass-GoodAt w (pass_stop_old q) done s g h = end_of_pass-GoodAt w q s h
resume_pass-GoodAt w (pass_stop_old q) failed s g h = end_of_pass-GoodAt w q s h
resume_pass-GoodAt w pc o s g h = h
