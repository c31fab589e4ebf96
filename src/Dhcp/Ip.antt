-- ===== src/Dhcp/Ip.antt =====
-- src/runHosting/ip.ts. A dotted IPv4 text is modelled by its four numbers: two such texts are
-- equal exactly when the numbers are.
pub mod Laws
use Prim.Native.Nat.{bit_and}
use susentorno.Base.{ℕ, zero, suc, ◌+◌, ◌*◌, ◌/◌, ◌%◌, ◌^◌, Bool, ◌&&◌, ◌==◌, if◌then◌else◌}

pub record Ip : Type 0 where
  pub a : ℕ
  pub b : ℕ
  pub c : ℕ
  pub d : ℕ

-- `x >>> 0` of a non-negative number
abbrev pub u32 : ℕ → ℕ
u32 n = n % 2 ^ 32

unfoldable pub ip_to_int : Ip → ℕ
ip_to_int ip = u32 (ip.a * 2 ^ 24) + ip.b * 2 ^ 16 + ip.c * 2 ^ 8 + ip.d

unfoldable pub int_to_ip : ℕ → Ip
int_to_ip v = record {
  a = v / 2 ^ 24 % 256;
  b = v / 2 ^ 16 % 256;
  c = v / 2 ^ 8 % 256;
  d = v % 256;
}

unfoldable pub network_address : Ip → Ip → ℕ
unfolding ip_to_int
network_address ip netmask = u32 (bit_and (ip_to_int ip) (ip_to_int netmask))

-- The `while` loop of `prefixLength`; the test is the top bit of a 32-bit word.
prefix_bits : ℕ → ℕ → ℕ → ℕ
prefix_bits zero bits mask = bits
prefix_bits (suc fuel) bits mask =
    let rest = prefix_bits fuel (bits + 1) (u32 (mask * 2)) in
    if mask / 2 ^ 31 % 2 == 1 then rest else bits

-- A 32-bit word has lost all its bits after 32 shifts.
unfoldable pub prefix_length : Ip → ℕ
unfolding prefix_bits ip_to_int
prefix_length netmask = prefix_bits 33 0 (ip_to_int netmask)

-- `===` on two dotted texts
abbrev pub same_ip : Ip → Ip → Bool
same_ip x y = x.a == y.a && x.b == y.b && x.c == y.c && x.d == y.d
