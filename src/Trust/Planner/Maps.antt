-- ===== src/Trust/Planner/Maps.antt =====
-- The maps from fingerprint to certificate, and what `collect` finds in them.
use susentorno.Base.{
  ℕ, ◌≡◌, refl, arith, ◌||◌, Option, none, some, List, [], ◌∷◌, ◌==◌, has, lookup, insert,
  Bool-cases, inl, inr,
}
use susentorno.Trust.Planner.{
  TrustCertificate, CertificateMap, by_sha, keys, shas, get_either, Retained, certificates, missing,
  collect, retain,
}

-- Every certificate stands under its own fingerprint.
abbrev pub IsKeyed : CertificateMap → Type 0
IsKeyed [] = Unit
IsKeyed ((k, c) ∷ m) = (c.sha256 ≡ k) × IsKeyed m

abbrev KeyIs : ℕ → Option TrustCertificate → Type 0
KeyIs k none = Unit
KeyIs k (some c) = c.sha256 ≡ k

pub insert-IsKeyed :
    (c : TrustCertificate) (m : CertificateMap) → IsKeyed m → IsKeyed (insert c.sha256 c m)
insert-IsKeyed c [] h = (refl, tt)
insert-IsKeyed c ((k, d) ∷ m) (e, h) = elim (Bool-cases (c.sha256 == k)) [
  | inl y ↦ rw y (ground arith, h)
  | inr n ↦ rw n (e, insert-IsKeyed c m h)
]

pub by_sha-IsKeyed :
    (cs : List TrustCertificate) (m : CertificateMap) → IsKeyed m → IsKeyed (by_sha cs m)
by_sha-IsKeyed [] m h = h
by_sha-IsKeyed (c ∷ cs) m h = by_sha-IsKeyed cs _ (insert-IsKeyed c m h)

lookup-KeyIs : (k : ℕ) (m : CertificateMap) → IsKeyed m → KeyIs k (lookup k m)
lookup-KeyIs k [] h = tt
lookup-KeyIs k ((j, c) ∷ m) (e, h) = elim (Bool-cases (k == j)) [
  | inl y ↦ rw y (ground arith)
  | inr n ↦ rw n (lookup-KeyIs k m h)
]

get_either-KeyIs :
    (k : ℕ) (o p : Option TrustCertificate) → KeyIs k o → KeyIs k p → KeyIs k (get_either o p)
get_either-KeyIs k none p h g = g
get_either-KeyIs k (some c) p h g = h

abbrev pub HasShas : List ℕ → Retained → Type 0
HasShas xs (certificates cs) = shas cs ≡ xs
HasShas xs (missing sha) = Unit

retain-HasShas :
    (k : ℕ) (ks : List ℕ) (o : Option TrustCertificate) (r : Retained)
    → KeyIs k o
    → HasShas ks r
    → HasShas (k ∷ ks) (retain k o r)
retain-HasShas k ks none r h g = tt
retain-HasShas k ks (some c) (certificates cs) h g = rw (h, g) refl
retain-HasShas k ks (some c) (missing s) h g = tt

-- The retained certificates are the ones asked for, in order.
pub collect-HasShas :
    (selected ambient : CertificateMap) (ks : List ℕ)
    → IsKeyed selected
    → IsKeyed ambient
    → HasShas ks (collect selected ambient ks)
collect-HasShas selected ambient [] h g = refl
collect-HasShas selected ambient (k ∷ ks) h g =
    retain-HasShas k ks (get_either (lookup k selected) (lookup k ambient))
      (collect selected ambient ks)
      (get_either-KeyIs k (lookup k selected) (lookup k ambient) (lookup-KeyIs k selected h)
        (lookup-KeyIs k ambient g))
      (collect-HasShas selected ambient ks h g)

has-keys-insert :
    (x k : ℕ) (c : TrustCertificate) (m : CertificateMap)
    → has x (keys (insert k c m)) ≡ (x == k || has x (keys m))
has-keys-insert x k c [] = refl
has-keys-insert x k c ((j, d) ∷ m) = let r = has-keys-insert x k c m in ground arith

pub has-keys-by_sha :
    (x : ℕ) (cs : List TrustCertificate) (m : CertificateMap)
    → has x (keys (by_sha cs m)) ≡ (has x (shas cs) || has x (keys m))
has-keys-by_sha x [] m = refl
has-keys-by_sha x (c ∷ cs) m =
    let r = has-keys-by_sha x cs (insert c.sha256 c m) in
    let e = has-keys-insert x c.sha256 c m in ground arith
