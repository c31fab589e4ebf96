-- ===== src/Trust/Planner/Converges.antt =====
-- A plan, carried out on the guest of its snapshot, converges.
use susentorno.Base.{
  ℕ, ◌≡◌, refl, ◌∙◌, subst, arith, Bool, true, false, not, ◌||◌, ◌&&◌, Option, none, some, List, [],
  ◌∷◌, ◌++◌, ◌==◌, has, Bool-cases, ==_refl, inl, inr,
}
use susentorno.Base.Sets.{
  all_in, without, add_all, has-append, has-append_left, has-append_right, has-sort, has-add_all,
  has-without, all_in_lem, all_in-without,
}
use susentorno.Trust.Planner.{
  TrustCertificate, TrustManifest, TrustSnapshot, verify_store, publish, set_environment, shas,
  removal, to_import, required_shas, CertificateMap, operations_of,
}
use susentorno.Trust.Planner.Guest.{
  run_all, run_all-push_write, run_all-push_import, run_all-push_proxy, proxy_shas, cleaned,
  has-to_import,
}

pub has-required :
    (x : ℕ) (cs : List TrustCertificate) (proxy : TrustCertificate)
    → has x (required_shas cs proxy) ≡ (has x (shas cs) || x == proxy.sha256)
has-required x cs proxy =
    let e = has-sort x (add_all (shas cs ++ proxy.sha256 ∷ []) []) in
    let a = has-add_all x (shas cs ++ proxy.sha256 ∷ []) [] in
    let b = has-append x (shas cs) (proxy.sha256 ∷ []) in e ∙ a ∙ b ∙ ground arith

-- What is removed is not required.
abbrev pub IsRemovable : Option ℕ → List ℕ → Type 0
IsRemovable none required = Unit
IsRemovable (some sha) required = has sha required ≡ false

run_all-verified :
    (o : Option ℕ) (required store : List ℕ) (m : TrustManifest) (bundle : List TrustCertificate)
    (proxy : TrustCertificate)
    → all_in required store ≡ true
    → IsRemovable o required
    → run_all
        (verify_store required []
          ∷ publish m bundle proxy
          ∷ set_environment required
          ∷ removal o required)
        store
      ≡ some (cleaned o store)
unfolding run_all
run_all-verified none required store m bundle proxy h r = rw h refl
run_all-verified (some sha) required store m bundle proxy h r =
    let gone : has sha (without sha store) ≡ false =
      let e = has-without sha sha store in let q = ==_refl sha in ground arith in
    rw (h, all_in-without sha required store h r, gone) refl

module _ (snapshot : TrustSnapshot) (retained_shas : List ℕ) (cs : List TrustCertificate)
    (same : (x : ℕ) → has x (shas cs) ≡ has x retained_shas) where
  abbrev proxy : TrustCertificate
  proxy = snapshot.proxy

  abbrev guest : List ℕ
  guest = snapshot.guest_root_sha256

  abbrev imports_proxy : Bool
  imports_proxy = not (has proxy.sha256 guest) && not (has proxy.sha256 retained_shas)

  -- The store when the imports are done.
  abbrev pub imported : List ℕ
  imported = (guest ++ shas (to_import guest cs)) ++ proxy_shas imports_proxy proxy

  pub guest-imported : (x : ℕ) → has x guest ≡ true → has x imported ≡ true
  guest-imported x h =
      has-append_left x _ (proxy_shas imports_proxy proxy) (has-append_left x guest _ h)

  pub retained-imported : (x : ℕ) → has x (shas cs) ≡ true → has x imported ≡ true
  retained-imported x h = elim (Bool-cases (has x guest)) [
    | inl g ↦ guest-imported x g
    | inr n ↦
        has-append_left x _ (proxy_shas imports_proxy proxy)
          (has-append_right x guest _ (has-to_import x guest cs h n))
  ]

  pub proxy-imported : has proxy.sha256 imported ≡ true
  proxy-imported = elim (Bool-cases (has proxy.sha256 guest)) [
    | inl g ↦ guest-imported proxy.sha256 g
    | inr n ↦ elim (Bool-cases (has proxy.sha256 retained_shas)) [
      | inl r ↦ retained-imported proxy.sha256 (same proxy.sha256 ∙ r)
      | inr m ↦
          has-append_right proxy.sha256 (guest ++ shas (to_import guest cs)) _
            (rw (n, m, ==_refl proxy.sha256) refl)
    ]
  ]

  required-imported : (x : ℕ) → has x (required_shas cs proxy) ≡ true → has x imported ≡ true
  required-imported x h = elim (Bool-cases (has x (shas cs))) [
    | inl r ↦ retained-imported x r
    | inr n ↦
        let e = has-required x cs proxy in
        let is : proxy.sha256 ≡ x = ground arith in
        subst (λ y. has y imported ≡ true) is proxy-imported
  ]

  pub run_all-operations :
      (selected ambient_files : CertificateMap) (manifest : Option TrustManifest) (o : Option ℕ)
      → IsRemovable o (required_shas cs proxy)
      → run_all (operations_of snapshot selected ambient_files manifest retained_shas cs o) guest
        ≡ some (cleaned o imported)
  run_all-operations selected ambient_files manifest o r =
      run_all-push_write _ _ guest
      ∙ run_all-push_import (to_import guest cs) _ guest
      ∙ run_all-push_proxy imports_proxy proxy _ _
      ∙ run_all-verified o (required_shas cs proxy) imported _ _ proxy
          (all_in_lem (required_shas cs proxy) imported required-imported) r
