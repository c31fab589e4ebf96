-- ===== src/Sharing/HostCheck/Access.antt =====
-- The host check passes exactly when the account's effective access to the share is at least read.
use susentorno.Base.{
  ◌≡◌, ◌≢◌, ◌↔◌, ◌⊎◌, inl, inr, refl, arith, Bool, true, false, Option, none, some, List, map, any,
  find, Some, any-Some, Some-any, any-find-none, any-find-some, String, same_text, same_text→eq,
  same_text_refl, if◌then◌else◌, Bool-cases, Option-cases, subst, sym,
}
use susentorno.Sharing.HostCheck.{
  LocalUser, RawEntry, ShareAccessEntry, HostShareAccountResult, ok, disabled, includes_text,
  parse_share_access, applies, is_denial, is_readable, is_account, readable_rights, check_access,
  check_user, check_host_share_account,
}

module _ (lower : String → String) (account : String) (token_sids : List String) where
  -- A Deny entry of any right for a principal in the account's token.
  abbrev pub IsDenial : ShareAccessEntry → Type 0
  IsDenial e = (e.allow ≡ false) × (e.right ≢ "") × (applies lower account token_sids e ≡ true)

  -- An Allow entry of a right that includes read.
  abbrev pub IsGrant : ShareAccessEntry → Type 0
  IsGrant e =
      (e.allow ≡ true)
      × ((e.right ≡ "read") ⊎ ((e.right ≡ "change") ⊎ (e.right ≡ "full")))
      × (applies lower account token_sids e ≡ true)

  same_text-false : (s t : String) → same_text s t ≡ false → s ≢ t
  same_text-false s t n e =
      let r = subst (λ u. same_text s u ≡ true) e (same_text_refl s) in absurd (ground arith)

  text_differs : (s t : String) → s ≢ t → same_text s t ≡ false
  text_differs s t h = elim (Bool-cases (same_text s t)) [
    | inl y ↦ absurd (h (same_text→eq s t y))
    | inr n ↦ n
  ]

  same_text_eq : (s t : String) → s ≡ t → same_text s t ≡ true
  same_text_eq s t e = subst (λ u. same_text s u ≡ true) e (same_text_refl s)

  is_denial-IsDenial :
      (e : ShareAccessEntry) → (is_denial lower account token_sids e ≡ true) ↔ IsDenial e
  is_denial-IsDenial e = (
    λ h. (ground arith, same_text-false e.right "" (ground arith), ground arith),
    λ (a, r, p). let n = text_differs e.right "" r in rw (a, n, p) refl,
  )

  includes-readable :
      (right : String)
      → (includes_text right readable_rights ≡ true)
        ↔ ((right ≡ "read") ⊎ ((right ≡ "change") ⊎ (right ≡ "full")))
  includes-readable right = (
    λ h. elim (Bool-cases (same_text "read" right)) [
      | inl y ↦ inl (sym (same_text→eq "read" right y))
      | inr n ↦ elim (Bool-cases (same_text "change" right)) [
        | inl y ↦ inr (inl (sym (same_text→eq "change" right y)))
        | inr n' ↦ inr (inr (sym (same_text→eq "full" right (ground arith))))
      ]
    ],
    λ h. elim h [
      | inl e ↦ let y = same_text_eq "read" right (sym e) in ground arith
      | inr (inl e) ↦ let y = same_text_eq "change" right (sym e) in ground arith
      | inr (inr e) ↦ let y = same_text_eq "full" right (sym e) in ground arith
    ],
  )

  is_readable-IsGrant :
      (e : ShareAccessEntry) → (is_readable lower account token_sids e ≡ true) ↔ IsGrant e
  is_readable-IsGrant e =
      let r = includes-readable e.right in
      (
        λ h. (ground arith, r.0 (ground arith), ground arith),
        λ (a, g, p). let i = r.1 g in rw (a, i, p) refl,
      )

-- What the account's logon would get: it is a local account and enabled, and among the share's
-- entries none denies it anything and one lets it read.
pub record HasReadAccess (lower : String → String) (account : String) (users : List LocalUser)
    (raws : List RawEntry) (sids : List String) : Type 0 where
  pub user : LocalUser
  pub is_local : find (is_account lower account) users ≡ some user
  pub is_enabled : user.enabled ≡ true
  pub not_denied :
      Some (IsDenial lower account (map lower sids)) (parse_share_access lower raws) → ⊥
  pub granted : Some (IsGrant lower account (map lower sids)) (parse_share_access lower raws)

module _ (lower : String → String) (account : String) where
  check_access-ok :
      (o : Option ShareAccessEntry) (readable : Bool)
      → check_access lower account o readable ≡ ok
      → (o ≡ none) × (readable ≡ true)
  check_access-ok none true e = (refl, refl)
  check_access-ok none false e = absurd cc
  check_access-ok (some d) readable e = absurd cc

  if_ok :
      (b : Bool) (r : HostShareAccountResult)
      → (if b then r else disabled) ≡ ok
      → (b ≡ true) × (r ≡ ok)
  if_ok true r e = (refl, e)
  if_ok false r e = absurd cc

  find-none {ℓ} : {A : Type ℓ} (p : A → Bool) (xs : List A) → any p xs ≡ false → find p xs ≡ none
  find-none p xs e = elim (Option-cases (find p xs)) [
    | inl n ↦ n
    | inr (x, s) ↦ let y = any-find-some p xs x s in absurd (ground arith)
  ]

  check_user-HasReadAccess :
      (users : List LocalUser) (raws : List RawEntry) (sids : List String) (o : Option LocalUser)
      → find (is_account lower account) users ≡ o
      → check_user lower account o raws sids ≡ ok
      → HasReadAccess lower account users raws sids
  check_user-HasReadAccess users raws sids none f e = absurd cc
  check_user-HasReadAccess users raws sids (some user) f e =
      let entries = parse_share_access lower raws in
      let tokens = map lower sids in
      let (on, e') = if_ok user.enabled _ e in
      let (no_denial, readable) = check_access-ok _ _ e' in
      let none_denied = any-find-none (is_denial lower account tokens) entries no_denial in
      record {
        user = user;
        is_local = f;
        is_enabled = on;
        not_denied = λ h.
            let y =
              Some-any (is_denial lower account tokens) (is_denial-IsDenial lower account tokens)
                entries h in
            ground arith;
        granted =
            any-Some (is_readable lower account tokens) (is_readable-IsGrant lower account tokens)
              entries readable;
      }

  HasReadAccess-check_user :
      (users : List LocalUser) (raws : List RawEntry) (sids : List String)
      → (h : HasReadAccess lower account users raws sids)
      → check_user lower account (some h.user) raws sids ≡ ok
  HasReadAccess-check_user users raws sids h =
      let entries = parse_share_access lower raws in
      let tokens = map lower sids in
      let denial = is_denial lower account tokens in
      let no_denial : any denial entries ≡ false = elim (Bool-cases (any denial entries)) [
        | inl y ↦
            absurd
              (h.not_denied (any-Some denial (is_denial-IsDenial lower account tokens) entries y))
        | inr n ↦ n
      ] in
      let readable =
        Some-any (is_readable lower account tokens) (is_readable-IsGrant lower account tokens)
          entries h.granted in
      rw (h.is_enabled, find-none denial entries no_denial, readable) refl

  -- The host check passes exactly for an account that is local and enabled and whose effective
  -- access to the share is read: no Deny entry names it or a group in its token, and some Allow
  -- entry with read, change or full does.
  pub check_host_share_account_iff :
      (users : List LocalUser) (raws : List RawEntry) (sids : List String)
      → (check_host_share_account lower account users raws sids ≡ ok)
        ↔ HasReadAccess lower account users raws sids
  unfolding check_host_share_account
  check_host_share_account_iff users raws sids = (
    check_user-HasReadAccess users raws sids (find (is_account lower account) users) refl,
    λ h.
        subst (λ o. check_user lower account o raws sids ≡ ok) (sym h.is_local)
          (HasReadAccess-check_user users raws sids h),
  )
