-- ===== src/Sharing/Ledger.antt =====
-- `ShareCredentialLedger` of src/guestSetup/windows/shareCredential.ts. A host address is a number:
-- the program only compares addresses.
pub mod Laws
pub mod Refinement
use susentorno.Base.{
  ℕ, Bool, true, false, not, Option, none, some, List, [], ◌∷◌, ◌++◌, map, has, select, lookup,
  insert, values, ◌==◌, if◌then◌else◌,
}
use susentorno.Base.Sets.{add, without}

pub data Role : Type 0 where
  default internal : Role

pub record Target : Type 0 where
  pub role : Role
  pub host_ip : ℕ

pub data Status : Type 0 where
  written verified removed removal_failed : Status

pub record Entry : Type 0 where
  pub role : Role
  pub host_ip : ℕ
  pub status : Status

-- `byAddress` and `open`, in the order in which their keys were first set.
pub record Ledger : Type 0 where
  pub by_address : List (ℕ × Entry)
  pub open_addresses : List ℕ

abbrev pub new_ledger : Ledger
new_ledger = record { by_address = []; open_addresses = [] }

-- `byAddress.set(target.hostIp, { ...target, status })`
abbrev pub mark : Status → Target → Ledger → Ledger
mark status target l = record l {
  by_address =
      insert target.host_ip
        (record { role = target.role; host_ip = target.host_ip; status = status }) l.by_address;
}

unfoldable pub mark_written : Target → Ledger → Ledger
mark_written target l = mark written target l

unfoldable pub mark_verified : Target → Ledger → Ledger
mark_verified target l = mark verified target l

-- The assignment to `entry.status` changes the entry that the map holds.
abbrev pub set_found : Option Entry → ℕ → Status → Ledger → Ledger
set_found none host_ip status l = l
set_found (some entry) host_ip status l = record l {
  by_address = insert host_ip (record entry { status = status }) l.by_address;
}

abbrev pub set_status : ℕ → Status → Ledger → Ledger
set_status host_ip status l = set_found (lookup host_ip l.by_address) host_ip status l

unfoldable pub mark_removed : ℕ → Ledger → Ledger
mark_removed host_ip l = set_status host_ip removed l

unfoldable pub mark_removal_failed : ℕ → Ledger → Ledger
mark_removal_failed host_ip l = set_status host_ip removal_failed l

unfoldable pub mark_connection_open : ℕ → Ledger → Ledger
mark_connection_open host_ip l = record l { open_addresses = add host_ip l.open_addresses }

unfoldable pub mark_connection_closed : ℕ → Ledger → Ledger
mark_connection_closed host_ip l = record l {
  open_addresses = select (λ x. not (host_ip == x)) l.open_addresses;
}

unfoldable pub entries : Ledger → List Entry
entries l = values l.by_address

abbrev pub is_written : Status → Bool
is_written written = true
is_written _ = false

unfoldable pub unverified : Ledger → List Entry
unfolding entries
unverified l = select (λ entry. is_written entry.status) (entries l)

unfoldable pub open_connections : Ledger → List ℕ
open_connections l = l.open_addresses
