-- ===== src/Credentials/Channel/Swaps.antt =====
-- Which reads of the credentials file ask for a restart, and what a commit applies.
use susentorno.Base.{
  ℕ, ◌≡◌, refl, sym, ap, ◌∙◌, Bool, true, false, not, ◌||◌, Option, none, some, [], ◌∷◌,
  if◌then◌else◌, Bool-cases, inl, inr, same_option, same_option_refl, String, same_text_refl,
}
use susentorno.Credentials.Plan.{Credentials, plan_next_actions}
use susentorno.Credentials.Channel.{
  ChannelConfig, Channel, write_secret, PrepareResult, sync_account, has_advanced, stage, resync,
  reset_if, prepare_restart, commit, commit_token,
}

-- What the loop does once the swap to the new proxy has succeeded.
abbrev pub commit_if : PrepareResult → Channel → Channel
commit_if r c = if r.restart_needed then commit c else c

-- The tokens that a channel has applied and staged.
pub record Marks : Type 0 where
  pub applied_token : Option String
  pub applied_account : Option String
  pub pending_token : Option String
  pub pending_account : Option String

abbrev pub marks : Channel → Marks
marks c = record {
  applied_token = c.last_applied_token;
  applied_account = c.last_applied_account;
  pending_token = c.pending_token;
  pending_account = c.pending_account;
}

marks-resync :
    (creds : Credentials) (sync : Option Bool) (c : Channel) → marks (resync creds sync c) ≡ marks c
marks-resync creds sync c = elim (Bool-cases (same_option creds.account_id c.last_synced_account)) [
  | inl y ↦ rw y refl
  | inr n ↦ rw n (synced sync)
]
  where
    synced : (s : Option Bool) → marks (sync_account s creds.account_id c) ≡ marks c
    synced none = refl
    synced (some true) = refl
    synced (some false) = refl

marks-reset_if : (advanced : Bool) (c : Channel) → marks (reset_if advanced c) ≡ marks c
marks-reset_if true c = refl
marks-reset_if false c = refl

-- Whether a read of `creds` is to be applied depends on the marks alone.
abbrev pub differs : Credentials → Marks → Bool
differs creds m =
    not (same_option (some creds.access_token) m.applied_token)
    || not (same_option creds.account_id m.applied_account)

abbrev pub staged : Credentials → Marks → Marks
staged creds m =
    if differs creds m
    then record m { pending_token = some creds.access_token; pending_account = creds.account_id }
    else m

marks-stage :
    (creds : Credentials) (c : Channel)
    → marks (stage (differs creds (marks c)) creds c) ≡ staged creds (marks c)
marks-stage creds c = elim (Bool-cases (differs creds (marks c))) [
  | inl y ↦ rw y refl
  | inr n ↦ rw n refl
]

abbrev commit_marks : Option String → Marks → Marks
commit_marks none m = m
commit_marks (some token) m = record {
  applied_token = some token;
  applied_account = m.pending_account;
  pending_token = none;
  pending_account = none;
}

abbrev committed : Marks → Marks
committed m = commit_marks m.pending_token m

marks-commit : (c : Channel) → marks (commit c) ≡ committed (marks c)
unfolding commit
marks-commit c = go c.pending_token
  where
    go : (o : Option String) → marks (commit_token o c) ≡ commit_marks o (marks c)
    go none = refl
    go (some token) = refl

differs-staged :
    (creds : Credentials) (m : Marks)
    → differs creds m ≡ true
    → differs creds (staged creds m) ≡ true
differs-staged creds m y = rw y y

committed_settled :
    (creds : Credentials) (m : Marks)
    → differs creds m ≡ true
    → differs creds (committed (staged creds m)) ≡ false
committed_settled creds m y = rw y (rw (same_text_refl, same_option_refl) refl)

staged_settled :
    (creds : Credentials) (m : Marks)
    → differs creds m ≡ false
    → differs creds (staged creds m) ≡ false
staged_settled creds m n = rw n n

module _ (config : ChannelConfig) where
  -- What a readable read does to the marks, the result and the secret.
  pub prepared :
      (c : Channel) (creds : Credentials) (now : ℕ) (sync : Option Bool)
      → let (r, c', es) = prepare_restart config (some creds) now sync c in
        (marks c' ≡ staged creds (marks c))
        × (r.restart_needed ≡ differs creds (marks c))
        × (es ≡ (if differs creds (marks c) then write_secret creds ∷ [] else []))
  unfolding prepare_restart plan_next_actions
  prepared c creds now sync =
      let c₁ = stage (differs creds (marks c)) creds c in
      (
        marks-reset_if (has_advanced c.last_seen_expires creds.expires_at) (resync creds sync c₁)
            ∙ marks-resync creds sync c₁
            ∙ marks-stage creds c,
        refl,
        refl,
      )

  marks-commit_if :
      (c c' : Channel) (r : PrepareResult) (creds : Credentials)
      → marks c' ≡ staged creds (marks c)
      → r.restart_needed ≡ differs creds (marks c)
      → differs creds (marks (commit_if r c')) ≡ false
  marks-commit_if c c' r creds e f = elim (Bool-cases (differs creds (marks c))) [
    | inl y ↦
        let want : r.restart_needed ≡ true = f ∙ y in
        rw want (
          ap (differs creds) (marks-commit c' ∙ ap committed e)
          ∙ committed_settled creds (marks c) y)
    | inr n ↦
        let quiet : r.restart_needed ≡ false = f ∙ n in
        rw quiet (ap (differs creds) e ∙ staged_settled creds (marks c) n)
  ]

  -- Once a swap has committed what a read asked for, reading the same credentials again asks for
  -- no restart and writes no secret, whatever the times and the account callback.
  pub commit-prepare_restart :
      (c : Channel) (creds : Credentials) (now now' : ℕ) (sync sync' : Option Bool)
      → let (r, c', _) = prepare_restart config (some creds) now sync c in
        let (r', _, es) = prepare_restart config (some creds) now' sync' (commit_if r c') in
        (r'.restart_needed ≡ false) × (es ≡ [])
  commit-prepare_restart c creds now now' sync sync' =
      let (e, f, _) = prepared c creds now sync in
      let (r, c', _) = prepare_restart config (some creds) now sync c in
      let quiet = marks-commit_if c c' r creds e f in
      let (_, g, h) = prepared (commit_if r c') creds now' sync' in (g ∙ quiet, h ∙ rw quiet)

  -- A read that asks for a restart asks for it again, and writes the secret again, as long as no
  -- swap has committed it.
  pub prepare_restart_retried :
      (c : Channel) (creds : Credentials) (now now' : ℕ) (sync sync' : Option Bool)
      → let (r, c', _) = prepare_restart config (some creds) now sync c in
        let (r', _, es) = prepare_restart config (some creds) now' sync' c' in
        r.restart_needed ≡ true → (r'.restart_needed ≡ true) × (es ≡ write_secret creds ∷ [])
  prepare_restart_retried c creds now now' sync sync' asked =
      let (e, f, _) = prepared c creds now sync in
      let (r, c', _) = prepare_restart config (some creds) now sync c in
      let again : differs creds (marks c') ≡ true =
        ap (differs creds) e ∙ differs-staged creds (marks c) (sym f ∙ asked) in
      let (_, g, h) = prepared c' creds now' sync' in (g ∙ again, h ∙ rw again)
