-- ===== src/Credentials/Channel/Secrets.antt =====
-- What the secret file holds when a channel's token is committed.
use susentorno.Base.{
  ℕ, ◌≡◌, refl, sym, subst, Bool, true, false, Option, none, some, List, [], ◌∷◌, arith, Bool-cases,
  inl, inr, ◌⊎◌, String,
}
use susentorno.Credentials.Plan.{Credentials}
use susentorno.Credentials.Channel.Swaps.{Marks, marks, differs, prepared}
use susentorno.Credentials.Channel.{
  ChannelConfig, plan, Channel, Effect, write_secret, NudgeResult, new_channel, startup_read,
  prepare_restart, commit, commit_token, arm_timer, arm_at, arm_read, do_nudge,
  handle_failed_attempt, on_timer, nudge_done,
}

-- Every call that the loop and the timers make on a channel.
pub data Call : Type 0 where
  start : Option Credentials → Option Bool → Call
  prepare : Option Credentials → ℕ → Option Bool → Call
  swap : Call
  arm : ℕ → Call
  timer_fired : Bool → ℕ → Call
  nudge_returned : Bool → ℕ → NudgeResult → Call

-- The secret file after some effects.
abbrev pub written : List Effect → Option Credentials → Option Credentials
written [] secret = secret
written (write_secret creds ∷ es) secret = written es (some creds)
written (_ ∷ es) secret = written es secret

-- A token that is staged stands in the secret file, with its account.
abbrev pub IsStaged : Channel → Option Credentials → Type 0
IsStaged c secret =
    (c.pending_token ≡ none)
    ⊎ ((creds : Credentials) × (secret ≡ some creds)
        × (c.pending_token ≡ some creds.access_token)
        × (c.pending_account ≡ creds.account_id))

module _ (config : ChannelConfig) where
  abbrev pub call : Call → Channel → Channel × List Effect
  call (start read sync) c = startup_read read sync c
  call (prepare read now sync) c =
      let (_, c', es) = prepare_restart config read now sync c in (c', es)
  call swap c = (commit c, [])
  call (arm now) c = (arm_timer config now c, [])
  call (timer_fired settled now) c = on_timer config settled now c
  call (nudge_returned settled now result) c = nudge_done config settled now result c

  unfoldable pub history : List Call → Channel → Option Credentials → Channel × Option Credentials
  history [] c secret = (c, secret)
  history (o ∷ os) c secret = let (c', es) = call o c in history os c' (written es secret)

  start-IsStaged :
      (creds : Credentials) (sync : Option Bool) (c : Channel) (secret : Option Credentials)
      → let (c', es) = startup_read (some creds) sync c in IsStaged c' (written es secret)
  unfolding startup_read
  start-IsStaged creds none c secret = inr (creds, refl, refl, refl)
  start-IsStaged creds (some true) c secret = inr (creds, refl, refl, refl)
  start-IsStaged creds (some false) c secret = inr (creds, refl, refl, refl)

  -- `IsStaged` looks at the marks alone.
  abbrev MarksStaged : Marks → Option Credentials → Type 0
  MarksStaged m secret =
      (m.pending_token ≡ none)
      ⊎ ((creds : Credentials) × (secret ≡ some creds)
          × (m.pending_token ≡ some creds.access_token)
          × (m.pending_account ≡ creds.account_id))

  prepare-IsStaged :
      (creds : Credentials) (now : ℕ) (sync : Option Bool) (c : Channel)
      (secret : Option Credentials)
      → IsStaged c secret
      → let (_, c', es) = prepare_restart config (some creds) now sync c in
        IsStaged c' (written es secret)
  prepare-IsStaged creds now sync c secret h =
      let (_, c', es) = prepare_restart config (some creds) now sync c in
      let (e, _, w) = prepared config c creds now sync in
      let result : MarksStaged (marks c') (written es secret) =
        rw (e, w)
          (elim (Bool-cases (differs creds (marks c))) [
            | inl y ↦ rw y (inr (creds, refl, refl, refl))
            | inr n ↦ rw n h
          ]) in
      result

  commit-IsStaged :
      (o : Option String) (c : Channel) (secret : Option Credentials)
      → c.pending_token ≡ o
      → IsStaged (commit_token o c) secret
  commit-IsStaged none c secret h = inl h
  commit-IsStaged (some token) c secret h = inl refl

  arm_at-marks : (at : Option ℕ) (now : ℕ) (c : Channel) → marks (arm_at at now c) ≡ marks c
  arm_at-marks none now c = refl
  arm_at-marks (some t) now c = refl

  arm_read-marks :
      (read : Option Credentials) (now : ℕ) (c : Channel)
      → marks (arm_read config read now c) ≡ marks c
  arm_read-marks none now c = refl
  arm_read-marks (some creds) now c = arm_at-marks (plan config c creds now).nudge_at now c

  call-IsStaged :
      (o : Call) (c : Channel) (secret : Option Credentials)
      → IsStaged c secret
      → let (c', es) = call o c in IsStaged c' (written es secret)
  unfolding commit arm_timer on_timer nudge_done handle_failed_attempt do_nudge startup_read
      prepare_restart
  call-IsStaged (start none sync) c secret h = h
  call-IsStaged (start (some creds) sync) c secret h = start-IsStaged creds sync c secret
  call-IsStaged (prepare none now sync) c secret h = h
  call-IsStaged (prepare (some creds) now sync) c secret h =
      prepare-IsStaged creds now sync c secret h
  call-IsStaged swap c secret h = commit-IsStaged c.pending_token c secret refl
  call-IsStaged (arm now) c secret h =
      subst (λ m. MarksStaged m secret) (sym (arm_read-marks c.last_read now c)) h
  call-IsStaged (timer_fired settled now) c secret h = ground arith
  call-IsStaged (nudge_returned settled now result) c secret h = ground arith

  history-IsStaged :
      (os : List Call) (c : Channel) (secret : Option Credentials)
      → IsStaged c secret
      → let (c', secret') = history os c secret in IsStaged c' secret'
  unfolding history
  history-IsStaged [] c secret h = h
  history-IsStaged (o ∷ os) c secret h =
      let (c', es) = call o c in
      history-IsStaged os c' (written es secret) (call-IsStaged o c secret h)

  -- Whatever calls came before, a commit of a staged token makes applied exactly the token and the
  -- account that stand in the secret file.
  pub history-commit :
      (os : List Call) (secret : Option Credentials) {token : String}
      → let (c, secret') = history os new_channel secret in
        c.pending_token ≡ some token
        → (creds : Credentials) × (secret' ≡ some creds)
          × ((commit c).last_applied_token ≡ some creds.access_token)
          × ((commit c).last_applied_account ≡ creds.account_id)
          × ((commit c).pending_token ≡ none)
  unfolding commit
  history-commit os secret e =
      let (c, secret') = history os new_channel secret in
      let staged_now : IsStaged c secret' = history-IsStaged os new_channel secret (inl refl) in
      ground arith
