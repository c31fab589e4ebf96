-- ===== src/Trust/Planner.antt =====
-- `planTrustReconciliation`. The certificate parser, the pattern of a managed file's name and the
-- manifest's JSON parser are arguments.
pub mod Maps
pub mod Guest
pub mod Converges
pub mod Safe
pub mod Reading
use susentorno.Base.{
  ℕ, Bool, true, false, not, ◌&&◌, ◌||◌, Option, none, some, List, [], ◌∷◌, ◌++◌, String, ◌==◌, has,
  select, lookup, insert, if◌then◌else◌,
}
use susentorno.Base.Sets.{add, add_all, sort}

pub record TrustCertificate : Type 0 where
  pub sha256 : ℕ
  pub pem : String

pub record TrustManifest : Type 0 where
  pub ambient : List ℕ
  pub proxy : Option ℕ
  pub proxy_owned : Bool

pub record AmbientFile : Type 0 where
  pub file_name : String
  pub text : String

pub record ManagedTrustState : Type 0 where
  pub manifest_text : Option String
  pub proxy_file_text : Option String
  pub ambient_files : List AmbientFile

pub record TrustSnapshot : Type 0 where
  pub host_roots : List TrustCertificate
  pub proxy : TrustCertificate
  pub guest_root_sha256 : List ℕ
  pub managed : ManagedTrustState

-- `bundle` lists the certificates whose PEMs are joined.
pub data PlanOperation : Type 0 where
  write_ambient_pems : List TrustCertificate → PlanOperation
  import_ambient : List TrustCertificate → PlanOperation
  import_proxy : TrustCertificate → PlanOperation
  verify_store : List ℕ → List ℕ → PlanOperation
  publish : TrustManifest → List TrustCertificate → TrustCertificate → PlanOperation
  set_environment : List ℕ → PlanOperation
  remove_proxy : ℕ → PlanOperation

-- The reason with the fingerprint that the failure names.
pub data TrustPlanFailure : Type 0 where
  malformed_ambient_pem : Option ℕ → TrustPlanFailure
  malformed_proxy_pem : TrustPlanFailure
  malformed_manifest : TrustPlanFailure
  missing_pem : ℕ → TrustPlanFailure
  ownership_ambiguity : ℕ → TrustPlanFailure

pub data TrustPlan : Type 0 where
  planned : List PlanOperation → TrustPlan
  failed : TrustPlanFailure → TrustPlan

abbrev pub CertificateMap : Type 0
CertificateMap = List (ℕ × TrustCertificate)

-- `new Map(roots.map((root) => [root.sha256, root]))`
abbrev pub by_sha : List TrustCertificate → CertificateMap → CertificateMap
by_sha [] m = m
by_sha (c ∷ cs) m = by_sha cs (insert c.sha256 c m)

abbrev pub keys : CertificateMap → List ℕ
keys [] = []
keys ((k, c) ∷ m) = k ∷ keys m

abbrev pub shas : List TrustCertificate → List ℕ
shas [] = []
shas (c ∷ cs) = c.sha256 ∷ shas cs

abbrev is_key : ℕ → CertificateMap → Bool
is_key k m = has k (keys m)

-- The managed PEMs by fingerprint, or the fingerprint in the name of a bad one.
pub data AmbientRead : Type 0 where
  files : CertificateMap → AmbientRead
  bad : Option ℕ → AmbientRead

pub data Retained : Type 0 where
  certificates : List TrustCertificate → Retained
  missing : ℕ → Retained

-- `selected.get(sha) ?? ambientFiles.get(sha)`
abbrev pub get_either : Option TrustCertificate → Option TrustCertificate → Option TrustCertificate
get_either (some c) o = some c
get_either none o = o

abbrev retain : ℕ → Option TrustCertificate → Retained → Retained
retain sha none rest = missing sha
retain sha (some c) (certificates cs) = certificates (c ∷ cs)
retain sha (some c) (missing s) = missing s

abbrev pub collect : CertificateMap → CertificateMap → List ℕ → Retained
collect selected ambient_files [] = certificates []
collect selected ambient_files (sha ∷ rest) =
    retain sha (get_either (lookup sha selected) (lookup sha ambient_files))
      (collect selected ambient_files rest)

-- The previous proxy, and whether setup is proven to have installed it.
pub data Previous : Type 0 where
  previous : Option ℕ → Bool → Previous
  ambiguous : ℕ → Previous

abbrev pub same_sha : Option ℕ → ℕ → Bool
same_sha none sha = false
same_sha (some s) sha = s == sha

abbrev pub or_else : Option ℕ → ℕ → ℕ
or_else none sha = sha
or_else (some s) sha = s

abbrev pub sha_of : Option TrustCertificate → Option ℕ
sha_of none = none
sha_of (some c) = some c.sha256

abbrev pub previous_proxy : Option TrustManifest → Option TrustCertificate → ℕ → Previous
previous_proxy none proxy_file sha = previous (sha_of proxy_file) false
previous_proxy (some m) none sha = previous m.proxy m.proxy_owned
previous_proxy (some m) (some c) sha =
    if not (same_sha m.proxy c.sha256) && not (c.sha256 == sha)
    then ambiguous (or_else m.proxy c.sha256)
    else previous m.proxy m.proxy_owned

abbrev pub superseded_proxy : Option ℕ → Bool → ℕ → List ℕ → List ℕ → Option ℕ
superseded_proxy none owned sha retained_shas guest = none
superseded_proxy (some p) owned sha retained_shas guest =
    if owned && not (p == sha) && not (has p retained_shas) && has p guest then some p else none

abbrev is_owned : Option TrustManifest → ℕ → Bool
is_owned none sha = false
is_owned (some m) sha = same_sha m.proxy sha && m.proxy_owned

abbrev pub manifest_ambient : Option TrustManifest → List ℕ
manifest_ambient none = []
manifest_ambient (some m) = m.ambient

abbrev pub push_write : List TrustCertificate → List PlanOperation → List PlanOperation
push_write [] ops = ops
push_write (c ∷ cs) ops = write_ambient_pems (c ∷ cs) ∷ ops

abbrev pub push_import : List TrustCertificate → List PlanOperation → List PlanOperation
push_import [] ops = ops
push_import (c ∷ cs) ops = import_ambient (c ∷ cs) ∷ ops

abbrev pub push_proxy : Bool → TrustCertificate → List PlanOperation → List PlanOperation
push_proxy false proxy ops = ops
push_proxy true proxy ops = import_proxy proxy ∷ ops

abbrev pub removal : Option ℕ → List ℕ → List PlanOperation
removal none required = []
removal (some sha) required = remove_proxy sha ∷ verify_store required (sha ∷ []) ∷ []

abbrev pub to_import : List ℕ → List TrustCertificate → List TrustCertificate
to_import guest retained = select (λ c. not (has c.sha256 guest)) retained

-- The certificates that the bundle and the store need.
abbrev pub required_shas : List TrustCertificate → TrustCertificate → List ℕ
required_shas retained proxy = sort (add_all (shas retained ++ proxy.sha256 ∷ []) [])

abbrev pub operations_of :
    TrustSnapshot
    → CertificateMap
    → CertificateMap
    → Option TrustManifest
    → List ℕ
    → List TrustCertificate
    → Option ℕ
    → List PlanOperation
operations_of snapshot selected ambient_files manifest retained_shas retained superseded =
    let proxy = snapshot.proxy in
    let guest = snapshot.guest_root_sha256 in
    let imports_proxy = not (has proxy.sha256 guest) && not (has proxy.sha256 retained_shas) in
    let required = required_shas retained proxy in
    let to_write =
      select (λ c. is_key c.sha256 selected && not (is_key c.sha256 ambient_files)) retained in
    push_write to_write (
      push_import (to_import guest retained) (
        push_proxy imports_proxy proxy (
          verify_store required []
          ∷ publish
              (record {
                ambient = shas retained;
                proxy = some proxy.sha256;
                proxy_owned = imports_proxy || is_owned manifest proxy.sha256;
              })
              (retained ++ (if has proxy.sha256 retained_shas then [] else proxy ∷ [])) proxy
          ∷ set_environment required
          ∷ removal superseded required)))

abbrev pub with_previous :
    TrustSnapshot
    → CertificateMap
    → CertificateMap
    → Option TrustManifest
    → List ℕ
    → List TrustCertificate
    → Previous
    → TrustPlan
with_previous snapshot selected ambient_files manifest retained_shas retained (ambiguous sha) =
    failed (ownership_ambiguity sha)
with_previous snapshot selected ambient_files manifest retained_shas retained (previous p owned) =
    planned (
      operations_of snapshot selected ambient_files manifest retained_shas retained
        (superseded_proxy p owned snapshot.proxy.sha256 retained_shas snapshot.guest_root_sha256))

abbrev pub with_retained :
    TrustSnapshot
    → CertificateMap
    → CertificateMap
    → Option TrustCertificate
    → Option TrustManifest
    → List ℕ
    → Retained
    → TrustPlan
with_retained snapshot selected ambient_files proxy_file manifest retained_shas (missing sha) =
    failed (missing_pem sha)
with_retained snapshot selected ambient_files proxy_file manifest retained_shas (certificates cs) =
    with_previous snapshot selected ambient_files manifest retained_shas cs
      (previous_proxy manifest proxy_file snapshot.proxy.sha256)

-- From the three managed parts on, all well-formed.
unfoldable pub plan_from :
    TrustSnapshot → CertificateMap → Option TrustCertificate → Option TrustManifest → TrustPlan
plan_from snapshot ambient_files proxy_file manifest =
    let selected = by_sha snapshot.host_roots [] in
    let retained_shas =
      add_all (keys selected)
        (add_all (keys ambient_files) (add_all (manifest_ambient manifest) [])) in
    with_retained snapshot selected ambient_files proxy_file manifest retained_shas
      (collect selected ambient_files (sort retained_shas))

module _ (parse_certificate_pem : String → Option TrustCertificate)
    (ambient_sha : String → Option ℕ) (parse_manifest : String → Option TrustManifest) where
  abbrev pub add_file : Option ℕ → Option TrustCertificate → CertificateMap → AmbientRead
  add_file name_sha none m = bad name_sha
  add_file none (some c) m = bad none
  add_file (some sha) (some c) m =
      if c.sha256 == sha then files (insert c.sha256 c m) else bad (some sha)

  abbrev pub and_then : AmbientRead → (CertificateMap → AmbientRead) → AmbientRead
  and_then (files m) next = next m
  and_then (bad sha) next = bad sha

  unfoldable pub read_ambient : List AmbientFile → CertificateMap → AmbientRead
  read_ambient [] m = files m
  read_ambient (f ∷ fs) m =
      and_then (add_file (ambient_sha f.file_name) (parse_certificate_pem f.text) m)
        (read_ambient fs)

  -- A text that is there and does not parse ends the plan.
  abbrev pub with_parsed_manifest :
      TrustSnapshot → CertificateMap → Option TrustCertificate → Option TrustManifest → TrustPlan
  with_parsed_manifest snapshot ambient_files proxy_file none = failed malformed_manifest
  with_parsed_manifest snapshot ambient_files proxy_file (some m) =
      plan_from snapshot ambient_files proxy_file (some m)

  abbrev pub with_manifest :
      TrustSnapshot → CertificateMap → Option TrustCertificate → Option String → TrustPlan
  with_manifest snapshot ambient_files proxy_file none =
      plan_from snapshot ambient_files proxy_file none
  with_manifest snapshot ambient_files proxy_file (some text) =
      with_parsed_manifest snapshot ambient_files proxy_file (parse_manifest text)

  abbrev pub with_parsed_proxy :
      TrustSnapshot → CertificateMap → Option TrustCertificate → TrustPlan
  with_parsed_proxy snapshot ambient_files none = failed malformed_proxy_pem
  with_parsed_proxy snapshot ambient_files (some c) =
      with_manifest snapshot ambient_files (some c) snapshot.managed.manifest_text

  abbrev pub with_proxy_file : TrustSnapshot → CertificateMap → Option String → TrustPlan
  with_proxy_file snapshot ambient_files none =
      with_manifest snapshot ambient_files none snapshot.managed.manifest_text
  with_proxy_file snapshot ambient_files (some text) =
      with_parsed_proxy snapshot ambient_files (parse_certificate_pem text)

  abbrev pub with_ambient : TrustSnapshot → AmbientRead → TrustPlan
  with_ambient snapshot (bad sha) = failed (malformed_ambient_pem sha)
  with_ambient snapshot (files m) = with_proxy_file snapshot m snapshot.managed.proxy_file_text

  unfoldable pub plan_trust_reconciliation : TrustSnapshot → TrustPlan
  plan_trust_reconciliation snapshot =
      with_ambient snapshot (read_ambient snapshot.managed.ambient_files [])
