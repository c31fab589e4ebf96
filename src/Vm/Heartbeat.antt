-- ===== src/Vm/Heartbeat.antt =====
-- `startHeartbeat` of src/guestSetup/vmReconcile.ts: the report of a graceful stop that waits.
use susentorno.Base.{
  ℕ, ◌+◌, ◌≤◌, ◌≡◌, refl, arith, List, [], ◌∷◌, ltb, if◌then◌else◌, Bool-cases, inl, inr,
}

-- `emitted` holds the times of the reports, newest first.
pub record Heartbeat : Type 0 where
  pub started : ℕ
  pub last_emitted : ℕ
  pub emitted : List ℕ

unfoldable pub start_heartbeat : ℕ → Heartbeat
start_heartbeat now = record { started = now; last_emitted = now; emitted = [] }

-- `tick` at the time `now`; the source's test on the difference is written as a sum.
unfoldable pub tick : ℕ → ℕ → Heartbeat → Heartbeat
tick interval now h =
    if ltb now (h.last_emitted + interval)
    then h
    else record h { last_emitted = now; emitted = now ∷ h.emitted }

unfoldable pub ticks : ℕ → List ℕ → Heartbeat → Heartbeat
ticks interval [] h = h
ticks interval (now ∷ nows) h = ticks interval nows (tick interval now h)

-- Each report is at least an interval behind the one before it, the first behind the start.
abbrev pub IsSpaced : ℕ → ℕ → List ℕ → Type 0
IsSpaced interval started [] = Unit
IsSpaced interval started (t ∷ []) = started + interval ≤ t
IsSpaced interval started (t ∷ u ∷ ts) = (u + interval ≤ t) × IsSpaced interval started (u ∷ ts)

abbrev latest : ℕ → List ℕ → ℕ
latest started [] = started
latest started (t ∷ ts) = t

abbrev IsRight : ℕ → ℕ → Heartbeat → Type 0
IsRight interval start h =
    IsSpaced interval start h.emitted × (h.last_emitted ≡ latest start h.emitted)

emit-IsSpaced :
    (interval started now : ℕ) (ts : List ℕ)
    → latest started ts + interval ≤ now
    → IsSpaced interval started ts
    → IsSpaced interval started (now ∷ ts)
emit-IsSpaced interval started now [] h s = h
emit-IsSpaced interval started now (t ∷ ts) h s = (h, s)

tick-IsRight :
    (interval start now : ℕ) (h : Heartbeat)
    → IsRight interval start h
    → IsRight interval start (tick interval now h)
unfolding tick
tick-IsRight interval start now h (s, e) = elim (Bool-cases (ltb now (h.last_emitted + interval))) [
  | inl y ↦ rw y (s, e)
  | inr n ↦ rw n (emit-IsSpaced interval start now h.emitted (ground arith) s, refl)
]

ticks-IsRight :
    (interval start : ℕ) (nows : List ℕ) (h : Heartbeat)
    → IsRight interval start h
    → IsRight interval start (ticks interval nows h)
unfolding ticks
ticks-IsRight interval start [] h r = r
ticks-IsRight interval start (now ∷ nows) h r =
    ticks-IsRight interval start nows _ (tick-IsRight interval start now h r)

-- Whoever calls `tick`, and whenever, the timer and the loop together never report twice within
-- one interval, nor within one interval of the start.
pub ticks-IsSpaced :
    (interval start : ℕ) (nows : List ℕ)
    → IsSpaced interval start (ticks interval nows (start_heartbeat start)).emitted
unfolding start_heartbeat
ticks-IsSpaced interval start nows =
    (ticks-IsRight interval start nows (start_heartbeat start) (tt, refl)).0
