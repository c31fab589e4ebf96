-- ===== src/Dhcp/Leases/Granting.antt =====
-- What a client may rely on when an address is offered or acknowledged.
use susentorno.Base.{
  ℕ, ◌+◌, ◌*◌, ◌%◌, ◌^◌, ◌<◌, ◌≡◌, ◌∙◌, ◌≢◌, sym, ap, refl, true, false, ◌&&◌, Option, none, some,
  List, [], ◌∷◌, arith, Bool-cases, inl, inr, lookup, lookup-insert, HasDistinctKeys,
}
use susentorno.Dhcp.Ip.{Ip, ip_to_int, int_to_ip}
use susentorno.Dhcp.Ip.Laws.{ip_to_int-int_to_ip}
use susentorno.Dhcp.Leases.{
  Identity, same_identity, LeaseTableOptions, Lease, LeaseTable, ack, size, is_live, find_existing,
  existing, assign, is_vacant, is_free, grant, chosen, acquire, held_by_other, is_refused, request,
  hash32,
}
use susentorno.Dhcp.Leases.Sound.{
  IsPool, IsLeasable, IsSound, is_free-IsLeasable, scan-is_free, find_existing-key, request-cases,
}

pub same_identity_refl : (x : Identity) → same_identity x x ≡ true
same_identity_refl [] = refl
same_identity_refl (c ∷ cs) = ground (arith, same_identity_refl cs)

module _ (opts : LeaseTableOptions) where
  -- The lease that a grant at `now` records.
  abbrev pub fresh : Identity → ℕ → Lease
  fresh identity now = record { identity = identity; expires_at = now + opts.lease_seconds * 1000 }

  -- `identity` was given `addr` by a call that took the table from `t` to `t'`.
  pub record IsGranted (identity : Identity) (now : ℕ) (addr : ℕ) (t t' : LeaseTable) : Type 0 where
    pub leasable : IsLeasable opts t.declined addr
    pub not_taken : held_by_other opts identity now (lookup addr t.leases) ≡ false
    pub recorded : lookup addr t'.leases ≡ some (fresh identity now)
    pub others_kept : (k : ℕ) → k ≢ addr → lookup k t'.leases ≡ lookup k t.leases
    pub declined_kept : t'.declined ≡ t.declined

  assign-IsGranted :
      (identity : Identity) (now addr : ℕ) (t : LeaseTable)
      → IsLeasable opts t.declined addr
      → held_by_other opts identity now (lookup addr t.leases) ≡ false
      → IsGranted identity now addr t (assign opts addr identity now t)
  unfolding assign
  assign-IsGranted identity now addr t l h = record {
    leasable = l;
    not_taken = h;
    recorded = ground (arith, lookup-insert addr addr (fresh identity now) t.leases);
    others_kept = λ k ne. ground (arith, lookup-insert addr k (fresh identity now) t.leases);
    declined_kept = refl;
  }

  vacant-not_held :
      (identity : Identity) (now : ℕ) (o : Option Lease)
      → is_vacant opts now o ≡ true
      → held_by_other opts identity now o ≡ false
  vacant-not_held identity now none h = refl
  vacant-not_held identity now (some l) h = ground arith

  -- What `find_existing` returns is the address of a live lease of that identity.
  pub find_existing-lookup :
      (identity : Identity) (now : ℕ) (m : List (ℕ × Lease)) (addr : ℕ)
      → HasDistinctKeys m
      → find_existing opts identity now m ≡ some addr
      → (l : Lease) × (lookup addr m ≡ some l)
        × (same_identity l.identity identity ≡ true)
        × (is_live opts now l ≡ true)
  find_existing-lookup identity now [] addr d e = cc
  find_existing-lookup identity now ((k, l) ∷ m) addr (u, d) e =
      elim (Bool-cases (same_identity l.identity identity && is_live opts now l)) [
        | inl y ↦ (l, ground arith, ground arith, ground arith)
        | inr n ↦
            let (l', at, same, live) = find_existing-lookup identity now m addr d (ground arith) in
            (l', ground arith, same, live)
      ]

  existing-not_held :
      (identity : Identity) (now addr : ℕ) (t : LeaseTable)
      → IsSound opts t
      → existing opts identity now t ≡ some addr
      → held_by_other opts identity now (lookup addr t.leases) ≡ false
  unfolding existing
  existing-not_held identity now addr t s e =
      let (l, at, same, live) = find_existing-lookup identity now t.leases addr s.distinct e in
      ground arith

  module _ (pool : IsPool opts) where
    chosen-facts :
        (identity : Identity) (now : ℕ) (t : LeaseTable) (addr : ℕ) (old : Option ℕ)
        → IsSound opts t
        → existing opts identity now t ≡ old
        → chosen opts identity now t old ≡ some addr
        → IsLeasable opts t.declined addr
          × (held_by_other opts identity now (lookup addr t.leases) ≡ false)
    unfolding existing is_free
    chosen-facts identity now t addr (some k) s f e =
        let found : existing opts identity now t ≡ some addr = f ∙ e in
        (
          find_existing-key opts _ identity now t.leases s.leasable found,
          existing-not_held identity now addr t s found,
        )
    chosen-facts identity now t addr none s f e =
        let (slot, below, found, free) =
          scan-is_free opts pool (size opts) 0 (hash32 identity % size opts) now t
            (omega (arith, pool)) e in
        (
          rw found (is_free-IsLeasable opts pool slot now t below (rw found at free)),
          vacant-not_held identity now (lookup addr t.leases) (ground arith),
        )

    grant-IsGranted :
        (identity : Identity) (now : ℕ) (t : LeaseTable) (ip : Ip) (picked : Option ℕ)
        → ((addr : ℕ)
            → picked ≡ some addr
            → IsLeasable opts t.declined addr
              × (held_by_other opts identity now (lookup addr t.leases) ≡ false))
        → (grant opts picked identity now t).0 ≡ some ip
        → IsGranted identity now (ip_to_int ip) t (grant opts picked identity now t).1
    grant-IsGranted identity now t ip none facts e = cc
    grant-IsGranted identity now t ip (some addr) facts e =
        let (l, h) = facts addr refl in
        let small : addr < 2 ^ 32 = omega (arith, pool, l) in
        let same : int_to_ip addr ≡ ip = cc in
        let back : ip_to_int ip ≡ addr = ap ip_to_int (sym same) ∙ ip_to_int-int_to_ip addr small in
        rw back (assign-IsGranted identity now addr t l h)

    -- `acquire` grants what it returns.
    pub acquire-IsGranted :
        (identity : Identity) (now : ℕ) (t : LeaseTable) (ip : Ip)
        → IsSound opts t
        → (acquire opts identity now t).0 ≡ some ip
        → IsGranted identity now (ip_to_int ip) t (acquire opts identity now t).1
    unfolding acquire
    acquire-IsGranted identity now t ip s e =
        grant-IsGranted identity now t ip _
          (λ addr picked.
            chosen-facts identity now t addr (existing opts identity now t) s refl picked)
          e

    -- `request` grants what it acknowledges, and changes nothing where it refuses.
    pub request-IsGranted :
        (identity : Identity) (now : ℕ) (t : LeaseTable) (ip : Ip)
        → (request opts identity ip now t).0 ≡ ack
        → IsGranted identity now (ip_to_int ip) t (request opts identity ip now t).1
    request-IsGranted identity now t ip e = elim (request-cases opts pool identity ip now t) [
      | inl (eq, l, h) ↦ rw eq (assign-IsGranted identity now (ip_to_int ip) t l h)
      | inr refused ↦ absurd (cc (ap (λ p. p.0) refused))
    ]

    -- An address that was just granted is acknowledged when the same client asks for it, at any
    -- later reading of the clock.
    pub granted-request :
        (identity : Identity) (now now' : ℕ) (ip : Ip) (t t' : LeaseTable)
        → IsGranted identity now (ip_to_int ip) t t'
        → (request opts identity ip now' t').0 ≡ ack
    unfolding request
    granted-request identity now now' ip t t' g =
        let addr = ip_to_int ip in
        let allowed : is_refused opts addr t' ≡ false =
          ground (arith, pool, g.leasable, g.declined_kept) in
        let own : held_by_other opts identity now' (lookup addr t'.leases) ≡ false =
          rw g.recorded (ground (arith, same_identity_refl identity)) in
        rw (allowed, own) refl
