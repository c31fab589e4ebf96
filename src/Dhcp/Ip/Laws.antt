-- ===== src/Dhcp/Ip/Laws.antt =====
-- Addresses as numbers and as octets.
use susentorno.Base.{ℕ, ◌/◌, ◌%◌, ◌^◌, ◌<◌, ◌≡◌, true, arith}
use susentorno.Dhcp.Ip.{Ip, ip_to_int, int_to_ip, same_ip}

-- Each of the four numbers is an octet.
pub record IsAddress (ip : Ip) : Type 0 where
  pub a_octet : ip.a < 256
  pub b_octet : ip.b < 256
  pub c_octet : ip.c < 256
  pub d_octet : ip.d < 256

pub int_to_ip-IsAddress : (v : ℕ) → IsAddress (int_to_ip v)
unfolding int_to_ip
int_to_ip-IsAddress v = omega arith

pub ip_to_int-int_to_ip : (v : ℕ) → v < 2 ^ 32 → ip_to_int (int_to_ip v) ≡ v
unfolding ip_to_int int_to_ip
ip_to_int-int_to_ip v h = omega arith

pub ip_to_int_bound : (ip : Ip) → IsAddress ip → ip_to_int ip < 2 ^ 32
unfolding ip_to_int
ip_to_int_bound ip h = omega arith

octets :
    (ip : Ip)
    → IsAddress ip
    → let v = ip_to_int ip in
      (v / 2 ^ 24 % 256 ≡ ip.a)
      × (v / 2 ^ 16 % 256 ≡ ip.b)
      × (v / 2 ^ 8 % 256 ≡ ip.c)
      × (v % 256 ≡ ip.d)
unfolding ip_to_int
octets ip h = omega arith

-- The text of an IPv4 address is read back as it was.
pub int_to_ip-ip_to_int : (ip : Ip) → IsAddress ip → int_to_ip (ip_to_int ip) ≡ ip
unfolding int_to_ip
int_to_ip-ip_to_int ip h =
    let (p, q, r, s) = octets ip h in λ i. record { a = p i; b = q i; c = r i; d = s i }

pub same_ip→eq : (x y : Ip) → same_ip x y ≡ true → x ≡ y
same_ip→eq x y h = ground arith

pub same_ip_refl : (x : Ip) → same_ip x x ≡ true
same_ip_refl x = ground arith
