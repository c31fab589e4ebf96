-- ===== src/HostNetwork/Subnets.antt =====
-- src/hostNetwork/subnetSelection.ts. A dotted address is its four numbers, as in the DHCP server;
-- the argument of `detectTakenRanges` is what `os.networkInterfaces()` lists, interface by
-- interface.
use Prim.Native.Nat.{bit_and, bit_or}
use susentorno.Base.{
  ℕ, zero, suc, ◌+◌, ◌-◌, ◌*◌, ◌/◌, ◌%◌, ◌^◌, ◌≤◌, ◌<◌, ◌≡◌, refl, arith, Bool, true, false, not,
  Option, subst, none, some, List, [], ◌∷◌, ◌++◌, ltb, leb, ◌==◌, if◌then◌else◌, any, Bool-cases,
  inl, inr,
}
use susentorno.Dhcp.Ip.{Ip}

pub record TakenRange : Type 0 where
  pub network : ℕ
  pub prefix_length : ℕ

pub record NetworkInterfaceInfo : Type 0 where
  pub is_ipv4 : Bool
  pub address : Ip
  pub netmask : Ip

-- `<<` on the four numbers, then `>>> 0`
unfoldable pub ip_to_int : Ip → ℕ
ip_to_int ip = bit_or (bit_or (bit_or (ip.a * 2 ^ 24) (ip.b * 2 ^ 16)) (ip.c * 2 ^ 8)) ip.d % 2 ^ 32

unfoldable pub prefix_mask : ℕ → ℕ
prefix_mask prefix_length =
    if prefix_length == 0 then 0 else 0xffffffff * 2 ^ (32 - prefix_length) % 2 ^ 32

-- The ones among the low `n` binary digits.
unfoldable pub count_ones : ℕ → ℕ → ℕ
count_ones zero value = 0
count_ones (suc n) value = value % 2 + count_ones n (value / 2)

unfoldable pub netmask_to_prefix_length : Ip → ℕ
netmask_to_prefix_length netmask = count_ones 32 (ip_to_int netmask)

abbrev range_of : NetworkInterfaceInfo → TakenRange
range_of info =
    let prefix_length = netmask_to_prefix_length info.netmask in
    record {
      network = bit_and (ip_to_int info.address) (prefix_mask prefix_length) % 2 ^ 32;
      prefix_length = prefix_length;
    }

abbrev ranges_of : List NetworkInterfaceInfo → List TakenRange
ranges_of [] = []
ranges_of (info ∷ infos) = if info.is_ipv4 then range_of info ∷ ranges_of infos else ranges_of infos

unfoldable pub detect_taken_ranges : List (List NetworkInterfaceInfo) → List TakenRange
detect_taken_ranges [] = []
detect_taken_ranges (infos ∷ rest) = ranges_of infos ++ detect_taken_ranges rest

abbrev min : ℕ → ℕ → ℕ
min a b = if leb a b then a else b

abbrev ranges_overlap : TakenRange → TakenRange → Bool
ranges_overlap a b =
    let mask = prefix_mask (min a.prefix_length b.prefix_length) in
    bit_and a.network mask == bit_and b.network mask

unfoldable pub is_subnet_taken : ℕ → List TakenRange → Bool
is_subnet_taken n taken_ranges =
    let candidate : TakenRange = record {
      network = ip_to_int (record { a = 192; b = 168; c = n; d = 0 });
      prefix_length = 24;
    } in
    any (λ range. ranges_overlap candidate range) taken_ranges

-- The rest of the `for` loop, with `count` values of `n` to go.
unfoldable pub find_from : ℕ → ℕ → List TakenRange → Option ℕ
find_from zero n taken_ranges = none
find_from (suc count) n taken_ranges =
    let rest = find_from count (n + 1) taken_ranges in
    if not (is_subnet_taken n taken_ranges) then some n else rest

unfoldable pub find_free_subnet : List TakenRange → Option ℕ
find_free_subnet taken_ranges = find_from 256 0 taken_ranges

-- Why a subnet is refused. A value that is no natural number is refused as `invalid` as well, and
-- has no argument here.
pub data Refusal : Type 0 where
  invalid overlaps : ℕ → Refusal

unfoldable pub validate_subnet : ℕ → List TakenRange → Option Refusal
validate_subnet n taken_ranges =
    if ltb 255 n
    then some (invalid n)
    else if is_subnet_taken n taken_ranges
    then some (overlaps n)
    else none

-- What a search from `n` on has found.
abbrev pub IsFirst : List TakenRange → ℕ → ℕ → Option ℕ → Type 0
IsFirst taken_ranges n end none = (m : ℕ) → n ≤ m → m < end → is_subnet_taken m taken_ranges ≡ true
IsFirst taken_ranges n end (some k) =
    (n ≤ k)
    × (k < end)
    × (is_subnet_taken k taken_ranges ≡ false)
    × ((m : ℕ) → n ≤ m → m < k → is_subnet_taken m taken_ranges ≡ true)

before :
    (taken_ranges : List TakenRange) (n m : ℕ)
    → is_subnet_taken n taken_ranges ≡ true
    → n ≤ m
    → (n + 1 ≤ m → is_subnet_taken m taken_ranges ≡ true)
    → is_subnet_taken m taken_ranges ≡ true
before taken_ranges n m t h f = elim (Bool-cases (n == m)) [
  | inl y ↦
      let same : n ≡ m = ground arith in subst (λ k. is_subnet_taken k taken_ranges ≡ true) same t
  | inr x ↦ f (ground arith)
]

extend :
    (taken_ranges : List TakenRange) (n end : ℕ) (o : Option ℕ)
    → is_subnet_taken n taken_ranges ≡ true
    → IsFirst taken_ranges (n + 1) end o
    → IsFirst taken_ranges n end o
extend taken_ranges n end none t h = λ m l u. before taken_ranges n m t l (λ l'. h m l' u)
extend taken_ranges n end (some k) t (l, u, free, below) =
    (omega arith, u, free, λ m l' u'. before taken_ranges n m t l' (λ l''. below m l'' u'))

find_from-IsFirst :
    (count n : ℕ) (taken_ranges : List TakenRange)
    → IsFirst taken_ranges n (n + count) (find_from count n taken_ranges)
unfolding find_from
find_from-IsFirst zero n taken_ranges = λ m l u. absurd (omega arith)
find_from-IsFirst (suc count) n taken_ranges = elim (Bool-cases (is_subnet_taken n taken_ranges)) [
  | inl y ↦
      let e : n + suc count ≡ n + 1 + count = omega arith in
      rw (y, e)
        (extend taken_ranges n (n + 1 + count) _ y (find_from-IsFirst count (n + 1) taken_ranges))
  | inr x ↦ rw x (omega arith, omega arith, x, λ m l u. absurd (omega arith))
]

-- `findFreeSubnet` gives the lowest of 0 to 255 whose subnet overlaps no taken range, and null only
-- when all 256 overlap one.
pub find_free_subnet-IsFirst :
    (taken_ranges : List TakenRange) → IsFirst taken_ranges 0 256 (find_free_subnet taken_ranges)
unfolding find_free_subnet
find_free_subnet-IsFirst taken_ranges = find_from-IsFirst 256 0 taken_ranges

-- A subnet that `findFreeSubnet` gives passes `validateSubnet`.
pub find_free_subnet-validate_subnet :
    (taken_ranges : List TakenRange) (n : ℕ)
    → find_free_subnet taken_ranges ≡ some n
    → validate_subnet n taken_ranges ≡ none
unfolding validate_subnet
find_free_subnet-validate_subnet taken_ranges n h =
    let (l, u, free, below) =
      subst (IsFirst taken_ranges 0 256) h (find_free_subnet-IsFirst taken_ranges) in
    let small : ltb 255 n ≡ false = ground arith in rw (small, free) refl
