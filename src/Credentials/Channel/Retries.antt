-- ===== src/Credentials/Channel/Retries.antt =====
-- The bound on nudges: between two reads of the credentials file a channel nudges at most
-- `maxAttempts` times, and then reports that it is exhausted.
use susentorno.Base.{
  ℕ, suc, ◌+◌, ◌≤◌, ◌<◌, ◌≡◌, refl, Bool, true, false, ◌||◌, List, [], ◌∷◌, arith, Bool-cases, inl,
  inr, ◌⊎◌, Option, none, some,
}
use susentorno.Credentials.Channel.{
  ChannelConfig, Channel, Effect, nudge, exhausted, NudgeResult, do_nudge, handle_failed_attempt,
  on_timer, nudge_done,
}

-- What can happen to a channel between two reads: its timeout fires, or a nudge returns.
pub data Outcome : Type 0 where
  timer_fired : ℕ → Outcome
  nudge_returned : ℕ → NudgeResult → Outcome

abbrev pub nudges : List Effect → ℕ
nudges [] = 0
nudges (nudge ∷ es) = suc (nudges es)
nudges (_ ∷ es) = nudges es

abbrev pub is_exhausted : List Effect → Bool
is_exhausted [] = false
is_exhausted (exhausted _ ∷ es) = true
is_exhausted (_ ∷ es) = is_exhausted es

-- Between two reads: the armed timeout fires, so late, or a nudge returns.
pub data Event : Type 0 where
  timeout : ℕ → Event
  returned : ℕ → NudgeResult → Event

abbrev pub timeouts : List Event → ℕ
timeouts [] = 0
timeouts (timeout late ∷ events) = suc (timeouts events)
timeouts (returned now result ∷ events) = timeouts events

module _ (config : ChannelConfig) where
  abbrev pub react : Bool → Outcome → Channel → Channel × List Effect
  react settled (timer_fired now) c = on_timer config settled now c
  react settled (nudge_returned now result) c = nudge_done config settled now result c

  -- The loop settles when a channel is exhausted: `onExhausted` is `fatal`.
  unfoldable pub run : Bool → List Outcome → Channel → Channel × ℕ × Bool
  run settled [] c = (c, 0, settled)
  run settled (o ∷ os) c =
      let (c', es) = react settled o c in
      let (c'', n, settled') = run (settled || is_exhausted es) os c' in
      (c'', nudges es + n, settled')

  abbrev in_flight : Bool → ℕ
  in_flight true = 1
  in_flight false = 0

  -- The attempts that a channel has begun since its count was last reset.
  abbrev pub begun : Channel → ℕ
  begun c = c.failures + in_flight c.awaiting

  -- One reaction begins an attempt for each nudge that it sends, and leaves fewer failures than the
  -- bound unless it reports exhaustion; a settled channel sends nothing.
  react_lem :
      (settled : Bool) (o : Outcome) (c : Channel)
      → let (c', es) = react settled o c in
        (begun c + nudges es ≤ begun c')
        × (c.failures < config.max_attempts
            → (is_exhausted es ≡ true) ⊎ (c'.failures < config.max_attempts))
  unfolding on_timer nudge_done handle_failed_attempt do_nudge
  react_lem settled (timer_fired now) c = ground arith
  react_lem settled (nudge_returned now result) c = ground arith

  settled_lem : (o : Outcome) (c : Channel) → (react true o c).1 ≡ []
  unfolding on_timer nudge_done
  settled_lem (timer_fired now) c = refl
  settled_lem (nudge_returned now result) c = refl

  exhausted_lem :
      (o : Outcome) (c : Channel)
      → let es = (react false o c).1 in is_exhausted es ≡ true → nudges es ≡ 0
  unfolding on_timer nudge_done handle_failed_attempt do_nudge
  exhausted_lem (timer_fired now) c = ground arith
  exhausted_lem (nudge_returned now result) c = ground arith

  begun-le : (c : Channel) → begun c ≤ c.failures + 1
  begun-le c = ground arith

  run_settled : (os : List Outcome) (c : Channel) → (run true os c).1 ≡ 0
  unfolding run
  run_settled [] c = refl
  run_settled (o ∷ os) c =
      let ih = run_settled os (react true o c).0 in rw (settled_lem o c) (omega (arith, ih))

  -- Whatever timeouts fire and however the nudges end, the attempts that have begun and the nudges
  -- that are still sent are `maxAttempts` together at most.
  pub run-nudges :
      (os : List Outcome) (c : Channel)
      → c.failures < config.max_attempts
      → begun c + (run false os c).1 ≤ config.max_attempts
  unfolding run
  run-nudges [] c h = omega (arith, begun-le c)
  run-nudges (o ∷ os) c h =
      let (c', es) = react false o c in
      let (grows, bound) = react_lem false o c in
      elim (Bool-cases (is_exhausted es)) [
        | inl y ↦ rw y (omega (arith, exhausted_lem o c y, run_settled os c', begun-le c))
        | inr n ↦
            let below : c'.failures < config.max_attempts = ground arith in
            rw n (omega (arith, run-nudges os c' below))
      ]

  abbrev pub has_timer : Option ℕ → Bool
  has_timer none = false
  has_timer (some at) = true

  -- The timeout that is armed fires, some milliseconds late; with none armed nothing can fire.
  abbrev fire : Bool → Option ℕ → ℕ → Channel → Channel × List Effect
  fire settled none late c = (c, [])
  fire settled (some at) late c = react settled (timer_fired (at + late)) c

  abbrev happen : Bool → Event → Channel → Channel × List Effect
  happen settled (timeout late) c = fire settled c.timer late c
  happen settled (returned now result) c = react settled (nudge_returned now result) c

  -- Whether the channel has reported that it is exhausted, after these events.
  unfoldable pub exhausts : Bool → List Event → Channel → Bool
  exhausts settled [] c = settled
  exhausts settled (e ∷ events) c =
      let (c', es) = happen settled e c in exhausts (settled || is_exhausted es) events c'

  -- After an event the channel is exhausted, or it is armed and fewer attempts are left by each
  -- timeout.
  abbrev IsProgress : ℕ → Channel → Channel × List Effect → Type 0
  IsProgress n c (c', es) =
      (is_exhausted es ≡ true)
      ⊎ ((has_timer c'.timer ≡ true)
          × (begun c + n ≤ begun c')
          × (c'.failures < config.max_attempts))

  timer_fired-IsProgress :
      (now : ℕ) (c : Channel)
      → c.failures < config.max_attempts
      → IsProgress 1 c (react false (timer_fired now) c)
  unfolding on_timer handle_failed_attempt do_nudge
  timer_fired-IsProgress now c h = ground arith

  nudge_returned-IsProgress :
      (now : ℕ) (result : NudgeResult) (c : Channel)
      → has_timer c.timer ≡ true
      → c.failures < config.max_attempts
      → IsProgress 0 c (react false (nudge_returned now result) c)
  unfolding nudge_done handle_failed_attempt do_nudge
  nudge_returned-IsProgress now result c armed h = ground arith

  fire-IsProgress :
      (timer : Option ℕ) (late : ℕ) (c : Channel)
      → has_timer timer ≡ true
      → c.failures < config.max_attempts
      → IsProgress 1 c (fire false timer late c)
  fire-IsProgress none late c armed h = cc
  fire-IsProgress (some at) late c armed h = timer_fired-IsProgress (at + late) c h

  happen-IsProgress :
      (e : Event) (c : Channel)
      → has_timer c.timer ≡ true
      → c.failures < config.max_attempts
      → IsProgress (timeouts (e ∷ [])) c (happen false e c)
  happen-IsProgress (timeout late) c armed h = fire-IsProgress c.timer late c armed h
  happen-IsProgress (returned now result) c armed h = nudge_returned-IsProgress now result c armed h

  exhausts_stays : (events : List Event) (c : Channel) → exhausts true events c ≡ true
  unfolding exhausts
  exhausts_stays [] c = refl
  exhausts_stays (e ∷ events) c = exhausts_stays events (happen true e c).0

  timeouts_next :
      (e : Event) (events : List Event)
      → timeouts (e ∷ events) ≡ timeouts (e ∷ []) + timeouts events
  timeouts_next (timeout late) events = omega arith
  timeouts_next (returned now result) events = omega arith

  -- From a channel with an armed timeout and fewer failures than `maxAttempts`, over any events of
  -- which none is a read: once the armed timeout has fired more often than attempts were left, the
  -- channel has reported that it is exhausted, however late the timeouts fire and whenever and
  -- however the nudges return.
  pub exhausts-timeouts :
      (events : List Event) (c : Channel)
      → has_timer c.timer ≡ true
      → c.failures < config.max_attempts
      → config.max_attempts < begun c + timeouts events
      → exhausts false events c ≡ true
  unfolding exhausts
  exhausts-timeouts [] c armed h k = absurd (omega (arith, begun-le c))
  exhausts-timeouts (e ∷ events) c armed h k =
      let (c', es) = happen false e c in
      elim (happen-IsProgress e c armed h) [
        | inl y ↦ rw y (exhausts_stays events c')
        | inr (armed', more, below) ↦
            let next = timeouts_next e events in
            elim (Bool-cases (is_exhausted es)) [
              | inl y ↦ rw y (exhausts_stays events c')
              | inr n ↦ rw n (exhausts-timeouts events c' armed' below (omega arith))
            ]
      ]
