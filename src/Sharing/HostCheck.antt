-- ===== src/Sharing/HostCheck.antt =====
-- `checkHostShareAccount` of src/guestSetup/windows/shareCredential.ts. What the three commands
-- print is an argument, read from JSON; `lower` is `toLowerCase`.
pub mod Access
use susentorno.Base.{
  ◌≡◌, ◌≢◌, ◌↔◌, refl, arith, Bool, true, false, not, ◌&&◌, ◌||◌, Option, none, some, List, [], ◌∷◌,
  map, any, find, String, same_text, if◌then◌else◌,
}
use susentorno.Base.Strings.{join, ends_with}

-- An object of `Get-LocalUser`: a name that is no text is none.
pub record LocalUser : Type 0 where
  pub name : Option String
  pub enabled : Bool

-- An object of `Get-SmbShareAccess`.
pub record RawEntry : Type 0 where
  pub account_name : Option String
  pub sid : Option String
  pub access_control_type : Option String
  pub access_right : Option String

pub record ShareAccessEntry : Type 0 where
  pub principal : String
  pub sid : Option String
  pub allow : Bool
  pub right : String

pub data HostShareAccountResult : Type 0 where
  ok : HostShareAccountResult
  not_local disabled : HostShareAccountResult
  denied : String → HostShareAccountResult
  not_readable : HostShareAccountResult

abbrev text_or_empty : Option String → String
text_or_empty none = ""
text_or_empty (some s) = s

abbrev pub includes_text : String → List String → Bool
includes_text s texts = any (λ t. same_text t s) texts

abbrev broad_principals : List String
broad_principals = "everyone" ∷ "nt authority\\authenticated users" ∷ []

abbrev readable_rights : List String
readable_rights = "read" ∷ "change" ∷ "full" ∷ []

module _ (lower : String → String) where
  abbrev parse_sid : Option String → Option String
  parse_sid none = none
  parse_sid (some s) = if same_text s "" then none else some (lower s)

  abbrev is_allow : Option String → Bool
  is_allow none = false
  is_allow (some s) = same_text (lower s) "allow"

  abbrev lower_or_empty : Option String → String
  lower_or_empty none = ""
  lower_or_empty (some s) = lower s

  unfoldable pub parse_share_access : List RawEntry → List ShareAccessEntry
  parse_share_access raws =
      map
        (λ raw. record {
          principal = text_or_empty raw.account_name;
          sid = parse_sid raw.sid;
          allow = is_allow raw.access_control_type;
          right = lower_or_empty raw.access_right;
        })
        raws

  abbrev applies_by : Option String → String → String → List String → Bool
  applies_by (some sid) name account_name token_sids = includes_text sid token_sids
  applies_by none name account_name token_sids =
      same_text name account_name
      || (ends_with name (join "\\" account_name) || includes_text name broad_principals)

  -- `applies(entry)`
  abbrev pub applies : String → List String → ShareAccessEntry → Bool
  applies account token_sids entry =
      applies_by entry.sid (lower entry.principal) (lower account) token_sids

  abbrev pub is_denial : String → List String → ShareAccessEntry → Bool
  is_denial account token_sids entry =
      not entry.allow && (not (same_text entry.right "") && applies account token_sids entry)

  abbrev pub is_readable : String → List String → ShareAccessEntry → Bool
  is_readable account token_sids entry =
      entry.allow && (includes_text entry.right readable_rights && applies account token_sids entry)

  abbrev names : String → Option String → Bool
  names account none = false
  names account (some name) = same_text (lower name) (lower account)

  abbrev pub is_account : String → LocalUser → Bool
  is_account account user = names account user.name

  abbrev check_readable : Bool → HostShareAccountResult
  check_readable false = not_readable
  check_readable true = ok

  abbrev check_access : String → Option ShareAccessEntry → Bool → HostShareAccountResult
  check_access account (some denial) readable = denied denial.principal
  check_access account none readable = check_readable readable

  abbrev check_user :
      String → Option LocalUser → List RawEntry → List String → HostShareAccountResult
  check_user account none raws sids = not_local
  check_user account (some user) raws sids =
      let entries = parse_share_access raws in
      let token_sids = map lower sids in
      if user.enabled
      then check_access account (find (is_denial account token_sids) entries)
          (any (is_readable account token_sids) entries)
      else disabled

  unfoldable pub check_host_share_account :
      String → List LocalUser → List RawEntry → List String → HostShareAccountResult
  check_host_share_account account users raws sids =
      check_user account (find (is_account account) users) raws sids
