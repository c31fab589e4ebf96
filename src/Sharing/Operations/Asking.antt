-- ===== src/Sharing/Operations/Asking.antt =====
-- When the account and password are asked for again, and what replacing an entry leaves behind.
use susentorno.Base.{
  ℕ, ◌≡◌, refl, ◌∙◌, arith, Bool, true, false, not, ◌&&◌, Option, none, some, String, has, ◌==◌,
  if◌then◌else◌, Bool-cases, inl, inr,
}
use susentorno.Guest.Executor.{Invocation, returned, guest_error, other_error}
use susentorno.Sharing.Ledger.{Role, default, internal, Target}
use susentorno.Sharing.Verdict.{
  Verdict, repromptable, ShareFailureKind, is_authentication, identity_conflict, account_rejected,
  share_unreachable, permission, missing_content, operation, bad_credential,
  account_restricted_errors, unreachable_errors, is_text, as_number, as_text, bad_credential_errors,
  classify_code, classify_verification,
}
use susentorno.Sharing.Operations.{
  Script, replace_script, verify_script, Secret, share_error, Result, ok, threw, Session,
  parsed_or_error, read_result, succeeded, run_script, finish, replace, finish_verify, verify,
  and_then, replace_and_verify,
}

-- `error instanceof ShareCredentialError && error.repromptable`
abbrev pub asks_again : {A : Type 0} → Result A → Bool
asks_again (threw (share_error e)) = repromptable e
asks_again _ = false

abbrev pub is_default : Role → Bool
is_default default = true
is_default internal = false

abbrev has_bad_credential_error : Option ℕ → Bool
has_bad_credential_error none = false
has_bad_credential_error (some win32) = has win32 bad_credential_errors

-- The verification script ran, did not succeed, and named error 1326 or 86.
abbrev pub login_refused : Result Verdict → Bool
login_refused (threw error) = false
login_refused (ok verdict) =
    not (is_text "ok" verdict.outcome)
    && not (is_text "writable" verdict.outcome)
    && has_bad_credential_error (as_number verdict.win32)

abbrev pub is_ok : {A : Type 0} → Result A → Bool
is_ok (ok a) = true
is_ok (threw error) = false

structural :
    (b c d e f : Bool)
    → is_authentication (
        if b
        then identity_conflict
        else if c
        then account_rejected
        else if d
        then share_unreachable
        else if e
        then permission
        else if f
        then missing_content
        else operation)
      ≡ false
structural true c d e f = refl
structural false true d e f = refl
structural false false true e f = refl
structural false false false true f = refl
structural false false false false true = refl
structural false false false false false = refl

first_code :
    (b : Bool) (role : Role) (k : ShareFailureKind)
    → is_authentication k ≡ false
    → is_authentication (if b then bad_credential role else k) ≡ (is_default role && b)
first_code true default k e = refl
first_code true internal k e = refl
first_code false default k e = e
first_code false internal k e = e

classify_code-authentication :
    (code : Option ℕ) (stage : String) (role : Role)
    → is_authentication (classify_code code stage role)
      ≡ (is_default role && has_bad_credential_error code)
classify_code-authentication none stage default = refl
classify_code-authentication none stage internal = refl
classify_code-authentication (some win32) stage role =
    first_code (has win32 bad_credential_errors) role _ (
      structural (win32 == 1219) (has win32 account_restricted_errors)
        (has win32 unreachable_errors) (win32 == 5) _)

classify_verification-authentication :
    (v : Verdict) (t : Target)
    → repromptable (classify_verification v t) ≡ (
        is_default t.role
        && (not (is_text "writable" v.outcome) && has_bad_credential_error (as_number v.win32)))
unfolding classify_verification
classify_verification-authentication v t =
    let e = classify_code-authentication (as_number v.win32) (as_text v.stage) t.role in
    elim (Bool-cases (is_text "writable" v.outcome)) [
      | inl y ↦ rw y (ground arith)
      | inr n ↦ rw n e
    ]

asks_again-parsed : (t : Target) (o : Option Verdict) → asks_again (parsed_or_error t o) ≡ false
asks_again-parsed t none = refl
asks_again-parsed t (some v) = refl

asks_again-read_result :
    (parse : String → Option Verdict) (t : Target) (a : Invocation)
    → asks_again (read_result parse t a) ≡ false
asks_again-read_result parse t (returned r) = elim (Bool-cases r.timed_out) [
  | inl y ↦ rw y refl
  | inr n ↦ elim (Bool-cases (r.exit_code == 0)) [
    | inl y ↦ rw (n, y) (asks_again-parsed t (parse r.stdout))
    | inr n' ↦ rw (n, n') refl
  ]
]
asks_again-read_result parse t (guest_error kind) = refl
asks_again-read_result parse t other_error = refl

module _ {W : Type 0} (invoke : Script → W → Invocation × W) (parse : String → Option Verdict)
    (drain : W → Bool × W) (expired : W → Bool) where
  finish_verify-asks_again :
      (t : Target) (r : Result Verdict) (s : Session W)
      → asks_again r ≡ false
      → asks_again (finish_verify invoke parse drain expired t (r, s)).0
        ≡ (is_default t.role && login_refused r)
  finish_verify-asks_again t (threw error) s e = e ∙ ground arith
  finish_verify-asks_again t (ok v) s e =
      let c = classify_verification-authentication v t in
      elim (Bool-cases (is_text "ok" v.outcome)) [ inl y ↦ rw y (ground arith) | inr n ↦ rw n c ]

  and_then-asks_again :
      (t : Target) (next : Session W → Result Unit × Session W) (r : Result Verdict) (s : Session W)
      (b : Bool)
      → asks_again r ≡ false
      → asks_again (next s).0 ≡ (is_default t.role && b)
      → asks_again
          (and_then invoke parse drain expired next
            (finish invoke parse drain expired t (λ l. l) (r, s))).0
        ≡ (is_default t.role && (succeeded r && b))
  and_then-asks_again t next (threw error) s b e h = e ∙ ground arith
  and_then-asks_again t next (ok v) s b e h = elim (Bool-cases (is_text "ok" v.outcome)) [
    | inl y ↦ rw y h
    | inr n ↦ rw n (ground arith)
  ]

  verify-asks_again :
      (t : Target) (s : Session W)
      → asks_again (verify invoke parse drain expired t s).0 ≡ (
          is_default t.role
          && login_refused (read_result parse t (invoke (verify_script t) s.world).0))
  unfolding verify run_script
  verify-asks_again t s =
      finish_verify-asks_again t (read_result parse t (invoke (verify_script t) s.world).0) _
        (asks_again-read_result parse t (invoke (verify_script t) s.world).0)

  -- `replaceAndVerify` fails in the way that asks for the account and password again exactly when
  -- the target is the Default Switch address, the replacement succeeded, and the verification
  -- behind it answered a refused login: an outcome that is neither `ok` nor `writable`, with
  -- Windows error 1326 or 86. Every other answer of the guest ends in success or a structural
  -- failure.
  pub replace_and_verify-asks_again :
      (t : Target) (secret : Secret) (s : Session W)
      → let (first, w) = invoke (replace_script t secret.account) s.world in
        let (second, w') = invoke (verify_script t) w in
        asks_again (replace_and_verify invoke parse drain expired t secret s).0 ≡ (
          is_default t.role
          && (succeeded (read_result parse t first) && login_refused (read_result parse t second)))
  unfolding replace_and_verify replace run_script
  replace_and_verify-asks_again t secret s =
      let (first, w) = invoke (replace_script t secret.account) s.world in
      and_then-asks_again t (verify invoke parse drain expired t) (read_result parse t first) _ _
        (asks_again-read_result parse t first) (verify-asks_again t _)
