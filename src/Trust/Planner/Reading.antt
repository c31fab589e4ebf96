-- ===== src/Trust/Planner/Reading.antt =====
-- The managed texts as the plan reads them, and the plan as a whole.
use susentorno.Base.{ℕ, Option, none, some, List, [], ◌∷◌, ◌==◌, Bool-cases, inl, inr, String}
use susentorno.Trust.Planner.{
  TrustCertificate, TrustManifest, TrustSnapshot, AmbientFile, AmbientRead, files, bad,
  CertificateMap, read_ambient, add_file, and_then, with_manifest, with_proxy_file,
  with_parsed_manifest, with_parsed_proxy, with_ambient, plan_trust_reconciliation,
}
use susentorno.Trust.Planner.Maps.{IsKeyed, insert-IsKeyed}
use susentorno.Trust.Planner.Safe.{Converges, plan_from-Converges}

-- The manifest as the plan reads it.
abbrev pub parsed : (String → Option TrustManifest) → Option String → Option TrustManifest
parsed parse none = none
parsed parse (some text) = parse text

abbrev IsKeyedRead : AmbientRead → Type 0
IsKeyedRead (files m) = IsKeyed m
IsKeyedRead (bad sha) = Unit

module _ (parse_certificate_pem : String → Option TrustCertificate)
    (ambient_sha : String → Option ℕ) (parse_manifest : String → Option TrustManifest) where
  add_file-IsKeyedRead :
      (name : Option ℕ) (o : Option TrustCertificate) (m : CertificateMap)
      → IsKeyed m
      → IsKeyedRead (add_file parse_certificate_pem ambient_sha parse_manifest name o m)
  add_file-IsKeyedRead name none m k = tt
  add_file-IsKeyedRead none (some c) m k = tt
  add_file-IsKeyedRead (some sha) (some c) m k = elim (Bool-cases (c.sha256 == sha)) [
    | inl y ↦ rw y (insert-IsKeyed c m k)
    | inr n ↦ rw n tt
  ]

  and_then-IsKeyedRead :
      (r : AmbientRead) (next : CertificateMap → AmbientRead)
      → IsKeyedRead r
      → ((m : CertificateMap) → IsKeyed m → IsKeyedRead (next m))
      → IsKeyedRead (and_then parse_certificate_pem ambient_sha parse_manifest r next)
  and_then-IsKeyedRead (files m) next k f = f m k
  and_then-IsKeyedRead (bad sha) next k f = tt

  read_ambient-IsKeyedRead :
      (fs : List AmbientFile) (m : CertificateMap)
      → IsKeyed m
      → IsKeyedRead (read_ambient parse_certificate_pem ambient_sha parse_manifest fs m)
  unfolding read_ambient
  read_ambient-IsKeyedRead [] m k = k
  read_ambient-IsKeyedRead (f ∷ fs) m k =
      and_then-IsKeyedRead _ _
        (add_file-IsKeyedRead (ambient_sha f.file_name) (parse_certificate_pem f.text) m k)
        (read_ambient-IsKeyedRead fs)

  with_parsed_manifest-Converges :
      (snapshot : TrustSnapshot) (m : CertificateMap) (c : Option TrustCertificate)
      (o : Option TrustManifest)
      → IsKeyed m
      → Converges o snapshot
          (with_parsed_manifest parse_certificate_pem ambient_sha parse_manifest snapshot m c o)
  with_parsed_manifest-Converges snapshot m c none k = tt
  with_parsed_manifest-Converges snapshot m c (some p) k =
      plan_from-Converges snapshot m (some p) c k

  with_manifest-Converges :
      (snapshot : TrustSnapshot) (m : CertificateMap) (c : Option TrustCertificate)
      (text : Option String)
      → IsKeyed m
      → Converges
          (parsed parse_manifest text)
          snapshot
          (with_manifest parse_certificate_pem ambient_sha parse_manifest snapshot m c text)
  with_manifest-Converges snapshot m c none k = plan_from-Converges snapshot m none c k
  with_manifest-Converges snapshot m c (some text) k =
      with_parsed_manifest-Converges snapshot m c (parse_manifest text) k

  with_parsed_proxy-Converges :
      (snapshot : TrustSnapshot) (m : CertificateMap) (c : Option TrustCertificate)
      → IsKeyed m
      → Converges
          (parsed parse_manifest snapshot.managed.manifest_text)
          snapshot
          (with_parsed_proxy parse_certificate_pem ambient_sha parse_manifest snapshot m c)
  with_parsed_proxy-Converges snapshot m none k = tt
  with_parsed_proxy-Converges snapshot m (some c) k =
      with_manifest-Converges snapshot m (some c) snapshot.managed.manifest_text k

  with_proxy_file-Converges :
      (snapshot : TrustSnapshot) (m : CertificateMap) (text : Option String)
      → IsKeyed m
      → Converges
          (parsed parse_manifest snapshot.managed.manifest_text)
          snapshot
          (with_proxy_file parse_certificate_pem ambient_sha parse_manifest snapshot m text)
  with_proxy_file-Converges snapshot m none k = with_manifest-Converges snapshot m none _ k
  with_proxy_file-Converges snapshot m (some text) k =
      with_parsed_proxy-Converges snapshot m (parse_certificate_pem text) k

  with_ambient-Converges :
      (snapshot : TrustSnapshot) (r : AmbientRead)
      → IsKeyedRead r
      → Converges
          (parsed parse_manifest snapshot.managed.manifest_text)
          snapshot
          (with_ambient parse_certificate_pem ambient_sha parse_manifest snapshot r)
  with_ambient-Converges snapshot (bad sha) k = tt
  with_ambient-Converges snapshot (files m) k = with_proxy_file-Converges snapshot m _ k

  -- Whatever the snapshot and the parsers: a plan, carried out on the snapshot's root store, meets
  -- every verification in it. Then the guest trusts the proxy CA and every host root, and of the
  -- roots it had it lacks at most a CA that the manifest records as the proxy which setup
  -- installed and does not list as ambient.
  pub plan-Converges :
      (snapshot : TrustSnapshot)
      → Converges
          (parsed parse_manifest snapshot.managed.manifest_text)
          snapshot
          (plan_trust_reconciliation parse_certificate_pem ambient_sha parse_manifest snapshot)
  unfolding plan_trust_reconciliation
  plan-Converges snapshot =
      with_ambient-Converges snapshot
        (read_ambient parse_certificate_pem ambient_sha parse_manifest
          snapshot.managed.ambient_files [])
        (read_ambient-IsKeyedRead snapshot.managed.ambient_files [] tt)
