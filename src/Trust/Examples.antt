-- ===== src/Trust/Examples.antt =====
-- A guest whose manifest records an owned proxy CA 5, before a rotation to 7.
use susentorno.Base.{ℕ, true, Option, none, some, [], ◌∷◌, String}
use susentorno.Trust.Planner.{
  TrustCertificate, TrustManifest, TrustSnapshot, plan_trust_reconciliation,
}
use susentorno.Trust.Planner.Safe.{Converges}
use susentorno.Trust.Planner.Reading.{parsed, plan-Converges}

abbrev snapshot : TrustSnapshot
snapshot = record {
  host_roots = record { sha256 = 3; pem = "root" } ∷ [];
  proxy = record { sha256 = 7; pem = "proxy" };
  guest_root_sha256 = 1 ∷ 5 ∷ [];
  managed = record { manifest_text = some "owned 5"; proxy_file_text = none; ambient_files = [] };
}

abbrev parse_pem : String → Option TrustCertificate
parse_pem text = none

abbrev name_sha : String → Option ℕ
name_sha name = none

abbrev parse_manifest : String → Option TrustManifest
parse_manifest text = some (record { ambient = []; proxy = some 5; proxy_owned = true })

plan-Converges_example :
    Converges
      (parsed parse_manifest (some "owned 5"))
      snapshot
      (plan_trust_reconciliation parse_pem name_sha parse_manifest snapshot)
plan-Converges_example = plan-Converges parse_pem name_sha parse_manifest snapshot
