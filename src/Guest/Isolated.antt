-- ===== src/Guest/Isolated.antt =====
-- `evaluateIsolatedFacts` of src/guestSetup/windows/isolatedReadiness.ts. The facts are read from
-- JSON; a field that is absent is an empty list here, as `list` has it, and a missing lookup or
-- connection is one that failed. `lower` is `toLowerCase`, and details are left out.
pub mod Working
pub mod Waiting
use Prim.Native.Char.{Char, code}
use Prim.Native.String.{[] as empty, ◌∷◌ as char}
use susentorno.Base.{
  ℕ, zero, suc, ◌+◌, ◌-◌, ◌*◌, ◌/◌, ◌^◌, Bool, true, false, not, ◌&&◌, ◌||◌, Option, none, some,
  List, [], ◌∷◌, ◌++◌, any, has, select, map, String, same_text, ltb, leb, ◌==◌, if◌then◌else◌,
}
use susentorno.Base.TextSets.{has_text}

pub record Address : Type 0 where
  pub interface_index : ℕ
  pub address : String
  pub prefix_length : ℕ
  pub origin : String

pub record Route : Type 0 where
  pub interface_index : ℕ
  pub next_hop : String

pub record DnsServers : Type 0 where
  pub interface_index : ℕ
  pub servers : List String

pub record IsolatedProbeFacts : Type 0 where
  pub addresses : List Address
  pub routes : List Route
  pub dns_servers : List DnsServers
  pub lookup_ok : Bool
  pub proxy_ok : Bool

pub data IsolatedCondition : Type 0 where
  lease gateway dns proxy : IsolatedCondition

-- `text.split('.')`
abbrev begin_part : Char → List String → List String
begin_part c [] = char c empty ∷ []
begin_part c (part ∷ parts) = char c part ∷ parts

abbrev split_dots : String → List String
split_dots empty = empty ∷ []
split_dots (char c s) =
    let rest = split_dots s in if code c == 46 then empty ∷ rest else begin_part c rest

abbrev is_digit : Char → Bool
is_digit c = leb 48 (code c) && leb (code c) 57

-- The number that a part writes, where it has one to three digits and is at most 255.
abbrev digits : String → ℕ → Option ℕ
digits empty n = some n
digits (char c s) n = if is_digit c then digits s (n * 10 + (code c - 48)) else none

abbrev is_short : String → Bool
is_short empty = false
is_short (char c empty) = true
is_short (char c (char d empty)) = true
is_short (char c (char d (char e empty))) = true
is_short (char c (char d (char e (char f s)))) = false

abbrev byte_or_none : Option ℕ → Option ℕ
byte_or_none none = none
byte_or_none (some n) = if leb n 255 then some n else none

abbrev read_part : String → Option ℕ
read_part part = if is_short part then byte_or_none (digits part 0) else none

-- The loop over the parts.
abbrev read_parts : List String → ℕ → Option ℕ
read_parts [] value = some value
read_parts (part ∷ parts) value = elim (read_part part) [
  | none ↦ none
  | some n ↦ read_parts parts (value * 256 + n)
]

abbrev read_four : List String → Option ℕ
read_four (a ∷ (b ∷ (c ∷ (d ∷ [])))) = read_parts (a ∷ (b ∷ (c ∷ (d ∷ [])))) 0
read_four _ = none

unfoldable pub ipv4_to_int : String → Option ℕ
ipv4_to_int address = read_four (split_dots address)

abbrev same_block : Option ℕ → Option ℕ → ℕ → Bool
same_block (some a) (some b) prefix_length =
    leb 1 prefix_length
    && (leb prefix_length 32 && (a / 2 ^ (32 - prefix_length)) == (b / 2 ^ (32 - prefix_length)))
same_block _ _ prefix_length = false

unfoldable pub in_same_subnet : String → String → ℕ → Bool
in_same_subnet address other prefix_length =
    same_block (ipv4_to_int address) (ipv4_to_int other) prefix_length

abbrev pub flatten : List DnsServers → List String
flatten [] = []
flatten (d ∷ ds) = d.servers ++ flatten ds

abbrev pub is_empty : {A : Type 0} → List A → Bool
is_empty [] = true
is_empty (x ∷ xs) = false

abbrev pub when : Bool → IsolatedCondition → List IsolatedCondition
when b condition = if b then condition ∷ [] else []

module _ (lower : String → String) where
  abbrev pub leased : IsolatedProbeFacts → String → List Address
  leased facts host_ip =
      select (λ a. in_same_subnet a.address host_ip a.prefix_length)
        (select (λ a. same_text (lower a.origin) "dhcp") facts.addresses)

  abbrev pub leased_interfaces : IsolatedProbeFacts → String → List ℕ
  leased_interfaces facts host_ip = map (λ a. a.interface_index) (leased facts host_ip)

  abbrev pub configured : IsolatedProbeFacts → String → List String
  configured facts host_ip =
      flatten
        (select (λ d. has d.interface_index (leased_interfaces facts host_ip)) facts.dns_servers)

  abbrev pub gateways : IsolatedProbeFacts → String → List Route
  gateways facts host_ip =
      select (λ r. has r.interface_index (leased_interfaces facts host_ip)) facts.routes

  -- The conditions that are unmet, in the order of the checks.
  unfoldable pub evaluate_isolated_facts : IsolatedProbeFacts → String → List IsolatedCondition
  evaluate_isolated_facts facts host_ip =
      when (is_empty (leased facts host_ip)) lease
      ++ (when (not (any (λ r. same_text r.next_hop host_ip) (gateways facts host_ip))) gateway
          ++ (when (not (has_text host_ip (configured facts host_ip)) || not facts.lookup_ok) dns
              ++ when (not facts.proxy_ok) proxy))
