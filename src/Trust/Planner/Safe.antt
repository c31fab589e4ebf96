-- ===== src/Trust/Planner/Safe.antt =====
-- What a plan installs, and that it removes nothing but a proxy CA that setup itself installed.
use susentorno.Base.{
  ℕ, ◌≡◌, ◌≢◌, ◌⊎◌, refl, sym, ◌∙◌, ap, subst, arith, Bool, true, false, not, ◌||◌, ◌&&◌, Option,
  none, some, List, [], ◌==◌, has, Bool-cases, ==_refl, inl, inr,
}
use susentorno.Base.Sets.{sort, add_all, has-sort, has-add_all, has-without}
use susentorno.Trust.Planner.{
  TrustCertificate, TrustManifest, TrustSnapshot, TrustPlan, planned, failed, shas, CertificateMap,
  required_shas, Previous, previous, ambiguous, previous_proxy, superseded_proxy, with_previous,
  with_retained, plan_from, Retained, certificates, missing, keys, by_sha, collect,
  manifest_ambient, same_sha,
}
use susentorno.Trust.Planner.Maps.{
  IsKeyed, by_sha-IsKeyed, collect-HasShas, HasShas, has-keys-by_sha,
}
use susentorno.Trust.Planner.Guest.{run_all, cleaned}
use susentorno.Trust.Planner.Converges.{
  IsRemovable, imported, guest-imported, retained-imported, proxy-imported, run_all-operations,
  has-required,
}

-- The manifest proves that setup installed `x` as the proxy CA, and does not retain it as ambient.
abbrev pub IsOwned : Option TrustManifest → ℕ → Type 0
IsOwned none x = ⊥
IsOwned (some m) x = (m.proxy ≡ some x) × (m.proxy_owned ≡ true) × (has x m.ambient ≡ false)

-- A plan's operations run through with every verification met. Then the guest trusts the proxy CA
-- and every host root, and of what it trusted before it lacks at most an owned proxy CA.
abbrev pub Converges : Option TrustManifest → TrustSnapshot → TrustPlan → Type 0
Converges manifest snapshot (failed f) = Unit
Converges manifest snapshot (planned operations) =
    (store : List ℕ) × (run_all operations snapshot.guest_root_sha256 ≡ some store)
    × (has snapshot.proxy.sha256 store ≡ true)
    × ((x : ℕ) → has x (shas snapshot.host_roots) ≡ true → has x store ≡ true)
    × ((x : ℕ)
        → has x snapshot.guest_root_sha256 ≡ true
        → (has x store ≡ true) ⊎ IsOwned manifest x)

has-cleaned :
    (o : Option ℕ) (x : ℕ) (store : List ℕ)
    → has x store ≡ true
    → (has x (cleaned o store) ≡ true) ⊎ (o ≡ some x)
has-cleaned none x store h = inl h
has-cleaned (some sha) x store h = elim (Bool-cases (sha == x)) [
  | inl y ↦ let same : sha ≡ x = ground arith in inr (ap some same)
  | inr n ↦ inl (has-without sha x store ∙ (rw (h, n) refl))
]

kept :
    (o : Option ℕ) (x : ℕ) (store : List ℕ)
    → has x store ≡ true
    → o ≢ some x
    → has x (cleaned o store) ≡ true
kept o x store h n = elim (has-cleaned o x store h) [ inl y ↦ y | inr e ↦ absurd (n e) ]

-- The conditions under which a proxy is superseded.
abbrev IsSuperseded : Option ℕ → Bool → ℕ → List ℕ → Option ℕ → Type 0
IsSuperseded p owned sha retained_shas none = Unit
IsSuperseded p owned sha retained_shas (some q) =
    (p ≡ some q) × (owned ≡ true) × ((q == sha) ≡ false) × (has q retained_shas ≡ false)

superseded_proxy-IsSuperseded :
    (p : Option ℕ) (owned : Bool) (sha : ℕ) (retained_shas guest : List ℕ)
    → IsSuperseded p owned sha retained_shas (superseded_proxy p owned sha retained_shas guest)
superseded_proxy-IsSuperseded none owned sha retained_shas guest = tt
superseded_proxy-IsSuperseded (some p) owned sha retained_shas guest =
    elim (Bool-cases (owned && not (p == sha) && not (has p retained_shas) && has p guest)) [
      | inl y ↦ rw y (refl, ground arith, ground arith, ground arith)
      | inr n ↦ rw n tt
    ]

-- Whence `previous_proxy` has its answer.
abbrev IsFrom : Option TrustManifest → Previous → Type 0
IsFrom manifest (ambiguous sha) = Unit
IsFrom none (previous p owned) = owned ≡ false
IsFrom (some m) (previous p owned) = (p ≡ m.proxy) × (owned ≡ m.proxy_owned)

previous_proxy-IsFrom :
    (manifest : Option TrustManifest) (o : Option TrustCertificate) (sha : ℕ)
    → IsFrom manifest (previous_proxy manifest o sha)
previous_proxy-IsFrom none o sha = refl
previous_proxy-IsFrom (some m) none sha = (refl, refl)
previous_proxy-IsFrom (some m) (some c) sha =
    elim (Bool-cases (not (same_sha m.proxy c.sha256) && not (c.sha256 == sha))) [
      | inl y ↦ rw y tt
      | inr n ↦ rw n (refl, refl)
    ]

IsSuperseded-IsOwned :
    (manifest : Option TrustManifest) (p : Option ℕ) (owned : Bool) (sha x : ℕ)
    (retained guest : List ℕ)
    → IsFrom manifest (previous p owned)
    → (has x retained ≡ false → has x (manifest_ambient manifest) ≡ false)
    → IsSuperseded p owned sha retained (some x)
    → IsOwned manifest x
IsSuperseded-IsOwned none p owned sha x retained guest f k (e, y, n, r) = absurd (ground arith)
IsSuperseded-IsOwned (some m) p owned sha x retained guest (e', y') k (e, y, n, r) =
    (sym e' ∙ e, sym y' ∙ y, k r)

module _ (snapshot : TrustSnapshot) (ambient_files : CertificateMap)
    (manifest : Option TrustManifest) where
  abbrev selected : CertificateMap
  selected = by_sha snapshot.host_roots []

  abbrev retained_shas : List ℕ
  retained_shas =
      add_all (keys selected)
        (add_all (keys ambient_files) (add_all (manifest_ambient manifest) []))

  has-retained_shas :
      (x : ℕ)
      → has x retained_shas ≡ (
          (has x (manifest_ambient manifest) || has x (keys ambient_files))
          || has x (shas snapshot.host_roots))
  has-retained_shas x =
      let a =
        has-add_all x (keys selected)
          (add_all (keys ambient_files) (add_all (manifest_ambient manifest) [])) in
      let b = has-add_all x (keys ambient_files) (add_all (manifest_ambient manifest) []) in
      let c = has-add_all x (manifest_ambient manifest) [] in
      let d = has-keys-by_sha x snapshot.host_roots [] in ground arith

  host_retained : (x : ℕ) → has x (shas snapshot.host_roots) ≡ true → has x retained_shas ≡ true
  host_retained x h = let e = has-retained_shas x in ground arith

  ambient_retained :
      (x : ℕ) → has x retained_shas ≡ false → has x (manifest_ambient manifest) ≡ false
  ambient_retained x h = let e = has-retained_shas x in ground arith

  -- The superseded proxy is owned, not required, and not a host root.
  IsSuperseded-IsRemovable :
      (cs : List TrustCertificate) (p : Option ℕ) (owned : Bool) (o : Option ℕ)
      → ((x : ℕ) → has x (shas cs) ≡ has x retained_shas)
      → IsSuperseded p owned snapshot.proxy.sha256 retained_shas o
      → IsRemovable o (required_shas cs snapshot.proxy)
  IsSuperseded-IsRemovable cs p owned none same h = tt
  IsSuperseded-IsRemovable cs p owned (some q) same (e, y, n, r) =
      has-required q cs snapshot.proxy ∙ (rw (same q, n, r) refl)

  with_previous-Converges :
      (cs : List TrustCertificate) (r : Previous)
      → ((x : ℕ) → has x (shas cs) ≡ has x retained_shas)
      → IsFrom manifest r
      → Converges manifest snapshot
          (with_previous snapshot selected ambient_files manifest retained_shas cs r)
  with_previous-Converges cs (ambiguous sha) same f = tt
  with_previous-Converges cs (previous p owned) same f =
      let guest = snapshot.guest_root_sha256 in
      let proxy = snapshot.proxy in
      let o = superseded_proxy p owned proxy.sha256 retained_shas guest in
      let s : IsSuperseded p owned proxy.sha256 retained_shas o =
        superseded_proxy-IsSuperseded p owned proxy.sha256 retained_shas guest in
      let store = imported snapshot retained_shas cs same in
      let removed : (x : ℕ)
          → o ≡ some x
          → IsSuperseded p owned proxy.sha256 retained_shas (some x) =
        λ x e. subst (IsSuperseded p owned proxy.sha256 retained_shas) e s in
      (
        cleaned o store,
        run_all-operations snapshot retained_shas cs same selected ambient_files manifest o
            (IsSuperseded-IsRemovable cs p owned o same s),
        kept o proxy.sha256 store (proxy-imported snapshot retained_shas cs same) (λ e.
            let (a, b, c, d) = removed proxy.sha256 e in
            let q = ==_refl proxy.sha256 in ground arith),
        (λ x h.
            kept o x store
              (retained-imported snapshot retained_shas cs same x (same x ∙ host_retained x h))
              (λ e. let (a, b, c, d) = removed x e in let q = host_retained x h in ground arith)),
        (λ x h. elim (has-cleaned o x store (guest-imported snapshot retained_shas cs same x h)) [
          | inl y ↦ inl y
          | inr e ↦ inr (
              IsSuperseded-IsOwned manifest p owned proxy.sha256 x retained_shas guest f
                (ambient_retained x) (removed x e))
        ]),
      )

  with_retained-Converges :
      (proxy_file : Option TrustCertificate) (r : Retained)
      → HasShas (sort retained_shas) r
      → Converges manifest snapshot
          (with_retained snapshot selected ambient_files proxy_file manifest retained_shas r)
  with_retained-Converges proxy_file (missing sha) h = tt
  with_retained-Converges proxy_file (certificates cs) h =
      with_previous-Converges cs _ (λ x. ap (has x) h ∙ has-sort x retained_shas)
        (previous_proxy-IsFrom manifest proxy_file snapshot.proxy.sha256)

  pub plan_from-Converges :
      (proxy_file : Option TrustCertificate)
      → IsKeyed ambient_files
      → Converges manifest snapshot (plan_from snapshot ambient_files proxy_file manifest)
  unfolding plan_from
  plan_from-Converges proxy_file k =
      with_retained-Converges proxy_file (collect selected ambient_files (sort retained_shas)) (
        collect-HasShas selected ambient_files (sort retained_shas)
          (by_sha-IsKeyed snapshot.host_roots [] tt) k)
