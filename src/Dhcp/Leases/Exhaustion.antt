-- ===== src/Dhcp/Leases/Exhaustion.antt =====
-- `acquire` finds a free address whenever there is one.
use native.Mathlib.Nat.{mod-eq_of_lt}
use susentorno.Base.{
  ℕ, zero, suc, ◌+◌, ◌-◌, ◌%◌, ◌<◌, ◌≡◌, ◌↔◌, refl, false, Option, none, some, arith, leb,
  Bool-cases, inl, inr,
}
use susentorno.Dhcp.Leases.{
  Identity, LeaseTableOptions, LeaseTable, size, address_at, existing, is_free, scan, grant, chosen,
  acquire, hash32,
}
use susentorno.Dhcp.Leases.Sound.{IsPool}

module _ (opts : LeaseTableOptions) where
  scan-none :
      (left i preferred now : ℕ) (t : LeaseTable) (k : ℕ)
      → scan opts left i preferred now t ≡ none
      → k < left
      → is_free opts (address_at opts ((preferred + (i + k)) % size opts)) now t ≡ false
  unfolding scan
  scan-none zero i preferred now t k e h = absurd (omega arith)
  scan-none (suc left) i preferred now t zero e h =
      let same : i + 0 ≡ i = omega arith in rw same (ground arith)
  scan-none (suc left) i preferred now t (suc k) e h =
      let next : i + suc k ≡ i + 1 + k = omega arith in
      let later : scan opts left (i + 1) preferred now t ≡ none = ground arith in
      rw next (scan-none left (i + 1) preferred now t k later (omega arith))

  scan_all_taken :
      (left i preferred now : ℕ) (t : LeaseTable)
      → 0 < size opts
      → ((slot : ℕ) → slot < size opts → is_free opts (address_at opts slot) now t ≡ false)
      → scan opts left i preferred now t ≡ none
  unfolding scan
  scan_all_taken zero i preferred now t p h = refl
  scan_all_taken (suc left) i preferred now t p h =
      rw (h ((preferred + i) % size opts) (omega arith))
        (scan_all_taken left (i + 1) preferred now t p h)

  mod_wrap : (a n : ℕ) → a < n → (a + n) % n ≡ a
  mod_wrap a n h = grind arith

  -- Each slot is met in one of the `size` rounds.
  round_of :
      (preferred slot n : ℕ)
      → preferred < n
      → slot < n
      → (k : ℕ) × (k < n) × ((preferred + (0 + k)) % n ≡ slot)
  round_of preferred slot n p h = elim (Bool-cases (leb preferred slot)) [
    | inl y ↦ (
      slot - preferred,
      ground arith,
      let sum : preferred + (0 + (slot - preferred)) ≡ slot = ground arith in
          rw sum (mod-eq_of_lt h),
    )
    | inr y ↦ (
      slot + n - preferred,
      ground arith,
      let sum : preferred + (0 + (slot + n - preferred)) ≡ slot + n = ground arith in
          rw sum (mod_wrap slot n h),
    )
  ]

  -- The conditions on which `acquire` has nothing to offer.
  pub record IsExhausted (identity : Identity) (now : ℕ) (t : LeaseTable) : Type 0 where
    pub no_lease : existing opts identity now t ≡ none
    pub none_free :
        (slot : ℕ) → slot < size opts → is_free opts (address_at opts slot) now t ≡ false

  chosen-none :
      (identity : Identity) (now : ℕ) (t : LeaseTable) (old : Option ℕ)
      → 0 < size opts
      → chosen opts identity now t old ≡ none
      → (old ≡ none)
        × ((slot : ℕ) → slot < size opts → is_free opts (address_at opts slot) now t ≡ false)
  chosen-none identity now t (some k) p e = cc
  chosen-none identity now t none p e = (
    refl,
    λ slot h.
        let preferred = hash32 identity % size opts in
        let (k, below, meets) = round_of preferred slot (size opts) (omega arith) h in
        rw meets at (scan-none (size opts) 0 preferred now t k e below),
  )

  grant-none :
      (identity : Identity) (now : ℕ) (t : LeaseTable) (picked : Option ℕ)
      → (grant opts picked identity now t).0 ≡ none
      → picked ≡ none
  grant-none identity now t none e = refl
  grant-none identity now t (some addr) e = cc

  -- `acquire` returns null exactly when the client holds no live lease and no slot is free.
  pub acquire-none_iff :
      (identity : Identity) (now : ℕ) (t : LeaseTable)
      → IsPool opts
      → ((acquire opts identity now t).0 ≡ none) ↔ IsExhausted identity now t
  unfolding acquire
  acquire-none_iff identity now t pool = (
    λ e.
        let (gone, taken) =
          chosen-none identity now t (existing opts identity now t) (omega (arith, pool))
            (grant-none identity now t _ e) in
        record { no_lease = gone; none_free = taken },
    λ x. rw x.no_lease (
        rw (
          scan_all_taken (size opts) 0 (hash32 identity % size opts) now t (omega (arith, pool))
            x.none_free)),
  )
