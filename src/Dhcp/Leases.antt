-- ===== src/Dhcp/Leases.antt =====
-- src/runHosting/dhcpLeases.ts. The table is the state that `createLeaseTable` closes over, and
-- each method returns the new table beside its result. `now` is the reading of the clock that a
-- call works with.
pub mod Sound
pub mod Granting
pub mod Exhaustion
use Prim.Native.Nat.{bit_xor}
use mathlib.Core.Option
use susentorno.Base.{
  ℕ, zero, suc, ◌+◌, ◌-◌, ◌*◌, ◌%◌, Bool, true, false, not, ◌&&◌, ◌||◌, Option, none, some, List,
  [], ◌∷◌, ltb, leb, ◌==◌, if◌then◌else◌, has, lookup, insert, remove,
}
use susentorno.Dhcp.Ip.{Ip, u32, ip_to_int, int_to_ip, network_address}

-- The UTF-16 code units of an identity, which is a text of hexadecimal digits.
abbrev pub Identity : Type 0
Identity = List ℕ

abbrev pub same_identity : Identity → Identity → Bool
same_identity [] [] = true
same_identity (x ∷ xs) (y ∷ ys) = x == y && same_identity xs ys
same_identity _ _ = false

pub record LeaseTableOptions : Type 0 where
  pub host_ip : Ip
  pub netmask : Ip
  pub pool_start : Option ℕ
  pub pool_end : Option ℕ
  pub lease_seconds : ℕ

pub record Lease : Type 0 where
  pub identity : Identity
  pub expires_at : ℕ

pub record LeaseTable : Type 0 where
  pub leases : List (ℕ × Lease)
  pub declined : List ℕ

pub data Verdict : Type 0 where
  ack nak : Verdict

-- `h ^= c` and `Math.imul(h, 0x01000193) >>> 0`: the low 32 bits of the product.
unfoldable pub hash_from : ℕ → Identity → ℕ
hash_from h [] = h
hash_from h (c ∷ cs) = hash_from (u32 (bit_xor h c * 0x01000193)) cs

unfoldable pub hash32 : Identity → ℕ
unfolding hash_from
hash32 s = hash_from 0x811c9dc5 s

abbrev pub empty_table : LeaseTable
empty_table = record { leases = []; declined = [] }

module _ (opts : LeaseTableOptions) where
  abbrev pub start : ℕ
  start = Option.get_or opts.pool_start 10

  abbrev pub end : ℕ
  end = Option.get_or opts.pool_end 209

  abbrev pub size : ℕ
  size = end + 1 - start

  abbrev pub base : ℕ
  base = network_address opts.host_ip opts.netmask

  abbrev pub host : ℕ
  host = ip_to_int opts.host_ip

  abbrev pub address_at : ℕ → ℕ
  address_at slot = u32 (base + start + slot)

  -- A live lease is one with `expiresAt > now()`.
  abbrev pub is_live : ℕ → Lease → Bool
  is_live now l = ltb now l.expires_at

  abbrev pub find_existing : Identity → ℕ → List (ℕ × Lease) → Option ℕ
  find_existing identity now [] = none
  find_existing identity now ((addr, l) ∷ rest) =
      if same_identity l.identity identity && is_live now l
      then some addr
      else find_existing identity now rest

  unfoldable pub existing : Identity → ℕ → LeaseTable → Option ℕ
  existing identity now t = find_existing identity now t.leases

  unfoldable pub assign : ℕ → Identity → ℕ → LeaseTable → LeaseTable
  assign addr identity now t = record t {
    leases =
        insert addr (record { identity = identity; expires_at = now + opts.lease_seconds * 1000 })
          t.leases;
  }

  -- `!lease || lease.expiresAt <= now()`
  abbrev pub is_vacant : ℕ → Option Lease → Bool
  is_vacant now none = true
  is_vacant now (some l) = leb l.expires_at now

  unfoldable pub is_free : ℕ → ℕ → LeaseTable → Bool
  is_free addr now t =
      not (addr == host) && not (has addr t.declined) && is_vacant now (lookup addr t.leases)

  -- The `for` loop of `acquire`, with `left = size - i` rounds to go.
  unfoldable pub scan : ℕ → ℕ → ℕ → ℕ → LeaseTable → Option ℕ
  scan zero i preferred now t = none
  scan (suc left) i preferred now t =
      let rest = scan left (i + 1) preferred now t in
      let addr = address_at ((preferred + i) % size) in
      if is_free addr now t then some addr else rest

  -- The lease table's part of `acquire` for the address that was chosen, if any.
  abbrev pub grant : Option ℕ → Identity → ℕ → LeaseTable → Option Ip × LeaseTable
  grant none identity now t = (none, t)
  grant (some addr) identity now t = (some (int_to_ip addr), assign addr identity now t)

  abbrev pub chosen : Identity → ℕ → LeaseTable → Option ℕ → Option ℕ
  chosen identity now t (some old) = some old
  chosen identity now t none = scan size 0 (hash32 identity % size) now t

  unfoldable pub acquire : Identity → ℕ → LeaseTable → Option Ip × LeaseTable
  acquire identity now t = grant (chosen identity now t (existing identity now t)) identity now t

  -- `lease && lease.expiresAt > now() && lease.identity !== identity`
  abbrev pub held_by_other : Identity → ℕ → Option Lease → Bool
  held_by_other identity now none = false
  held_by_other identity now (some l) = is_live now l && not (same_identity l.identity identity)

  -- `addr < first || addr > last || addr === host || declined.has(addr)`
  abbrev pub is_refused : ℕ → LeaseTable → Bool
  is_refused addr t =
      let first = address_at 0 in
      let last = address_at (size - 1) in
      ltb addr first || ltb last addr || addr == host || has addr t.declined

  unfoldable pub request : Identity → Ip → ℕ → LeaseTable → Verdict × LeaseTable
  request identity requested now t =
      let addr = ip_to_int requested in
      if is_refused addr t
      then (nak, t)
      else if held_by_other identity now (lookup addr t.leases)
      then (nak, t)
      else (ack, assign addr identity now t)

  abbrev pub drop_lease : Option ℕ → LeaseTable → LeaseTable
  drop_lease none t = t
  drop_lease (some addr) t = record t { leases = remove addr t.leases }

  unfoldable pub release : Identity → ℕ → LeaseTable → LeaseTable
  release identity now t = drop_lease (existing identity now t) t

  unfoldable pub decline : Ip → LeaseTable → LeaseTable
  decline address t =
      let addr = ip_to_int address in
      record { leases = remove addr t.leases; declined = addr ∷ t.declined }
