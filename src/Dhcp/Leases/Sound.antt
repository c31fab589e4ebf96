-- ===== src/Dhcp/Leases/Sound.antt =====
-- The invariant of the lease table, and that every operation keeps it.
use susentorno.Base.{
  ℕ, zero, suc, ◌+◌, ◌%◌, ◌^◌, ◌≤◌, ◌<◌, ◌≡◌, ◌∙◌, refl, true, false, ◌&&◌, Option, none, some,
  List, [], ◌∷◌, arith, ◌==◌, Bool-cases, inl, inr, subst, has, lookup, remove, AllKeys,
  AllKeys-insert, AllKeys-remove, HasDistinctKeys, HasDistinctKeys-insert, HasDistinctKeys-remove,
  ◌⊎◌,
}
use susentorno.Dhcp.Ip.{Ip, ip_to_int}
use susentorno.Dhcp.Leases.{
  Identity, same_identity, LeaseTableOptions, Lease, LeaseTable, ack, nak, start, end, size, base,
  host, address_at, is_live, find_existing, existing, assign, is_free, scan, grant, chosen, acquire,
  held_by_other, is_refused, request, drop_lease, release, decline, hash32, empty_table,
}

-- A pool that holds an address, and whose last address is a 32-bit word.
pub record IsPool (opts : LeaseTableOptions) : Type 0 where
  pub not_empty : start opts ≤ end opts
  pub no_wrap : base opts + end opts < 2 ^ 32

module _ (opts : LeaseTableOptions) where
  -- An address that the table may lease: in the pool, not the host's own, and not declined.
  pub record IsLeasable (declined : List ℕ) (addr : ℕ) : Type 0 where
    pub from_first : base opts + start opts ≤ addr
    pub to_last : addr ≤ base opts + end opts
    pub not_host : (addr == host opts) ≡ false
    pub not_declined : has addr declined ≡ false

  pub record IsSound (t : LeaseTable) : Type 0 where
    pub leasable : AllKeys (IsLeasable t.declined) t.leases
    pub distinct : HasDistinctKeys t.leases

  pub empty_table-IsSound : IsSound empty_table
  empty_table-IsSound = record { leasable = tt; distinct = tt }

  pub assign-IsSound :
      (addr now : ℕ) (identity : Identity) (t : LeaseTable)
      → IsLeasable t.declined addr
      → IsSound t
      → IsSound (assign opts addr identity now t)
  unfolding assign
  assign-IsSound addr now identity t l s = record {
    leasable = AllKeys-insert _ addr _ t.leases l s.leasable;
    distinct = HasDistinctKeys-insert addr _ t.leases s.distinct;
  }

  remove-IsSound :
      (addr : ℕ) (t : LeaseTable) → IsSound t → IsSound (record t { leases = remove addr t.leases })
  remove-IsSound addr t s = record {
    leasable = AllKeys-remove _ addr t.leases s.leasable;
    distinct = HasDistinctKeys-remove addr t.leases s.distinct;
  }

  pub find_existing-key :
      (P : ℕ → Type 0) (identity : Identity) (now : ℕ) (m : List (ℕ × Lease)) {addr : ℕ}
      → AllKeys P m
      → find_existing opts identity now m ≡ some addr
      → P addr
  find_existing-key P identity now [] h e = cc
  find_existing-key P identity now ((k, l) ∷ m) {addr} (p, h) e =
      elim (Bool-cases (same_identity l.identity identity && is_live opts now l)) [
        | inl y ↦ let found : k ≡ addr = ground arith in subst P found p
        | inr n ↦ find_existing-key P identity now m h (ground arith)
      ]

  module _ (pool : IsPool opts) where
    pub address_at_lem :
        (slot : ℕ) → slot < size opts → address_at opts slot ≡ base opts + start opts + slot
    address_at_lem slot h = omega (arith, pool)

    pub is_free-IsLeasable :
        (slot now : ℕ) (t : LeaseTable)
        → slot < size opts
        → is_free opts (address_at opts slot) now t ≡ true
        → IsLeasable t.declined (address_at opts slot)
    unfolding is_free
    is_free-IsLeasable slot now t h f = record {
      from_first = omega (arith, pool);
      to_last = omega (arith, pool);
      not_host = ground arith;
      not_declined = ground arith;
    }

    -- What `scan` finds is a free address of the pool.
    pub scan-is_free :
        (left i preferred now : ℕ) (t : LeaseTable) {addr : ℕ}
        → 0 < size opts
        → scan opts left i preferred now t ≡ some addr
        → (slot : ℕ) × (slot < size opts)
          × (addr ≡ address_at opts slot)
          × (is_free opts addr now t ≡ true)
    unfolding scan
    scan-is_free zero i preferred now t h e = cc
    scan-is_free (suc left) i preferred now t {addr} h e =
        let slot = (preferred + i) % size opts in
        elim (Bool-cases (is_free opts (address_at opts slot) now t)) [
          | inl y ↦
              let found : addr ≡ address_at opts slot = ground arith in
              (slot, omega arith, found, rw found y)
          | inr n ↦ scan-is_free left (i + 1) preferred now t h (ground arith)
        ]

    chosen-IsLeasable :
        (identity : Identity) (now : ℕ) (t : LeaseTable) (addr : ℕ) (old : Option ℕ)
        → IsSound t
        → existing opts identity now t ≡ old
        → chosen opts identity now t old ≡ some addr
        → IsLeasable t.declined addr
    unfolding existing
    chosen-IsLeasable identity now t addr (some k) s f e =
        find_existing-key _ identity now t.leases s.leasable (f ∙ e)
    chosen-IsLeasable identity now t addr none s f e =
        let (slot, below, found, free) =
          scan-is_free (size opts) 0 (hash32 identity % size opts) now t (omega (arith, pool)) e in
        rw found (is_free-IsLeasable slot now t below (rw found at free))

    grant-IsSound :
        (identity : Identity) (now : ℕ) (t : LeaseTable) (picked : Option ℕ)
        → ((addr : ℕ) → picked ≡ some addr → IsLeasable t.declined addr)
        → IsSound t
        → IsSound (grant opts picked identity now t).1
    grant-IsSound identity now t none l s = s
    grant-IsSound identity now t (some addr) l s =
        assign-IsSound addr now identity t (l addr refl) s

    pub acquire-IsSound :
        (identity : Identity) (now : ℕ) (t : LeaseTable)
        → IsSound t
        → IsSound (acquire opts identity now t).1
    unfolding acquire
    acquire-IsSound identity now t s =
        grant-IsSound identity now t _
          (λ addr e. chosen-IsLeasable identity now t addr (existing opts identity now t) s refl e)
          s

    is_refused-IsLeasable :
        (addr : ℕ) (t : LeaseTable) → is_refused opts addr t ≡ false → IsLeasable t.declined addr
    is_refused-IsLeasable addr t f = record {
      from_first = ground (arith, pool);
      to_last = ground (arith, pool);
      not_host = ground arith;
      not_declined = ground arith;
    }

    -- An acknowledged request is for a leasable address that no other client holds, and records
    -- the lease; a refused one changes nothing.
    pub request-cases :
        (identity : Identity) (ip : Ip) (now : ℕ) (t : LeaseTable)
        → ((request opts identity ip now t ≡ (ack, assign opts (ip_to_int ip) identity now t))
            × IsLeasable t.declined (ip_to_int ip)
            × (held_by_other opts identity now (lookup (ip_to_int ip) t.leases) ≡ false))
          ⊎ (request opts identity ip now t ≡ (nak, t))
    unfolding request
    request-cases identity ip now t =
        let addr = ip_to_int ip in
        elim (Bool-cases (is_refused opts addr t)) [
          | inl y ↦ inr (rw y)
          | inr n ↦ elim (Bool-cases (held_by_other opts identity now (lookup addr t.leases))) [
            | inl y ↦ inr (rw (n, y))
            | inr m ↦ inl (rw (n, m), is_refused-IsLeasable addr t n, m)
          ]
        ]

    is_refused-not_IsLeasable :
        (addr : ℕ) (t : LeaseTable) → is_refused opts addr t ≡ true → IsLeasable t.declined addr → ⊥
    is_refused-not_IsLeasable addr t f l = ground (arith, pool, l)

    -- A request is refused only for an address that is not leasable, or that another client holds.
    pub request-refused :
        (identity : Identity) (ip : Ip) (now : ℕ) (t : LeaseTable)
        → (request opts identity ip now t).0 ≡ nak
        → (IsLeasable t.declined (ip_to_int ip) → ⊥)
          ⊎ (held_by_other opts identity now (lookup (ip_to_int ip) t.leases) ≡ true)
    unfolding request
    request-refused identity ip now t r =
        let addr = ip_to_int ip in
        elim (Bool-cases (is_refused opts addr t)) [
          | inl y ↦ inl (is_refused-not_IsLeasable addr t y)
          | inr n ↦ elim (Bool-cases (held_by_other opts identity now (lookup addr t.leases))) [
            | inl y ↦ inr y
            | inr m ↦ absurd (cc (rw (n, m) at r))
          ]
        ]

    pub request-IsSound :
        (identity : Identity) (ip : Ip) (now : ℕ) (t : LeaseTable)
        → IsSound t
        → IsSound (request opts identity ip now t).1
    request-IsSound identity ip now t s = elim (request-cases identity ip now t) [
      | inl (e, l, m) ↦ rw e (assign-IsSound (ip_to_int ip) now identity t l s)
      | inr e ↦ rw e s
    ]

    drop_lease-IsSound :
        (found : Option ℕ) (t : LeaseTable) → IsSound t → IsSound (drop_lease opts found t)
    drop_lease-IsSound none t s = s
    drop_lease-IsSound (some addr) t s = remove-IsSound addr t s

    pub release-IsSound :
        (identity : Identity) (now : ℕ) (t : LeaseTable)
        → IsSound t
        → IsSound (release opts identity now t)
    unfolding release
    release-IsSound identity now t s = drop_lease-IsSound (existing opts identity now t) t s

    declined-AllKeys :
        (addr : ℕ) (declined : List ℕ) (m : List (ℕ × Lease))
        → AllKeys (IsLeasable declined) m
        → AllKeys (IsLeasable (addr ∷ declined)) (remove addr m)
    declined-AllKeys addr declined [] h = tt
    declined-AllKeys addr declined ((k, l) ∷ m) (p, h) = elim (Bool-cases (addr == k)) [
      | inl e ↦ rw e (declined-AllKeys addr declined m h)
      | inr e ↦ rw e (
        record {
          from_first = p.from_first;
          to_last = p.to_last;
          not_host = p.not_host;
          not_declined = ground (arith, p.not_declined);
        },
        declined-AllKeys addr declined m h,
      )
    ]

    pub decline-IsSound : (ip : Ip) (t : LeaseTable) → IsSound t → IsSound (decline opts ip t)
    unfolding decline
    decline-IsSound ip t s = record {
      leasable = declined-AllKeys (ip_to_int ip) t.declined t.leases s.leasable;
      distinct = HasDistinctKeys-remove (ip_to_int ip) t.leases s.distinct;
    }
