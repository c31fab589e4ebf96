-- ===== src/Sharing/Verdict.antt =====
-- What the guest's share scripts answer, and `classifyVerification` of
-- src/guestSetup/windows/shareCredential.ts. The messages of the errors are left out.
use susentorno.Base.{
  ℕ, Bool, true, false, not, ◌&&◌, Option, none, some, List, [], ◌∷◌, String, same_text, has, ◌==◌,
  if◌then◌else◌,
}
use susentorno.Sharing.Ledger.{Role, default, internal, Target}

-- A field of a parsed verdict; `fraction` is any finite number that is no natural number.
pub data Value : Type 0 where
  absent other : Value
  text : String → Value
  number : ℕ → Value
  fraction : Value
  flag : Bool → Value

-- A member of `Results`: `null_item` stands for a `null`, whose field the code cannot read.
pub data Candidate : Type 0 where
  null_item : Candidate
  item : Option ℕ → Value → Candidate

-- `results` is `Results` where that is an array, and empty where it is not.
pub record Verdict : Type 0 where
  pub outcome : Value
  pub stage : Value
  pub win32 : Value
  pub results : List Candidate

pub data ShareFailureKind : Type 0 where
  authentication internal_authentication identity_conflict account_rejected : ShareFailureKind
  share_unreachable permission missing_content writable_share operation : ShareFailureKind

pub record ShareError : Type 0 where
  pub kind : ShareFailureKind
  pub target : Target

abbrev pub is_authentication : ShareFailureKind → Bool
is_authentication authentication = true
is_authentication _ = false

abbrev pub repromptable : ShareError → Bool
repromptable e = is_authentication e.kind

abbrev pub bad_credential_errors : List ℕ
bad_credential_errors = 1326 ∷ 86 ∷ []

abbrev pub account_restricted_errors : List ℕ
account_restricted_errors = 1327 ∷ 1328 ∷ 1329 ∷ 1330 ∷ 1331 ∷ 1385 ∷ 1909 ∷ []

abbrev pub unreachable_errors : List ℕ
unreachable_errors = 53 ∷ 64 ∷ 67 ∷ 121 ∷ 1231 ∷ []

abbrev pub not_found_errors : List ℕ
not_found_errors = 0 ∷ 2 ∷ 3 ∷ []

-- A number that is in none of the sets of errors is `none`.
abbrev pub as_number : Value → Option ℕ
as_number (number n) = some n
as_number fraction = none
as_number _ = some 0

abbrev pub as_text : Value → String
as_text (text s) = s
as_text _ = ""

abbrev pub is_text : String → Value → Bool
is_text s (text t) = same_text t s
is_text s _ = false

abbrev pub bad_credential : Role → ShareFailureKind
bad_credential default = authentication
bad_credential internal = internal_authentication

abbrev pub classify_code : Option ℕ → String → Role → ShareFailureKind
classify_code none stage role = operation
classify_code (some win32) stage role =
    if has win32 bad_credential_errors
    then bad_credential role
    else if win32 == 1219
    then identity_conflict
    else if has win32 account_restricted_errors
    then account_rejected
    else if has win32 unreachable_errors
    then share_unreachable
    else if win32 == 5
    then permission
    else if has win32 not_found_errors && not (same_text stage "probe")
    then missing_content
    else operation

unfoldable pub classify_verification : Verdict → Target → ShareError
classify_verification verdict target = record {
  kind =
      if is_text "writable" verdict.outcome
      then writable_share
      else classify_code (as_number verdict.win32) (as_text verdict.stage) target.role;
  target = target;
}
