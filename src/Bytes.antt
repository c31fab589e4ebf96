-- ===== src/Bytes.antt =====
-- Node's `Buffer` as a list of bytes: the big-endian reads and writes that the DHCP and DNS
-- messages use. A read past the end gives 0 here; each reader checks the length first, as the
-- source does.
pub mod Laws
use susentorno.Base.{ℕ, zero, suc, ◌+◌, ◌*◌, ◌/◌, ◌%◌, ◌^◌, List, [], ◌∷◌, get_or}

abbrev pub Bytes : Type 0
Bytes = List ℕ

abbrev pub read_u8 : Bytes → ℕ → ℕ
read_u8 b o = get_or b o 0

abbrev pub read_u16 : Bytes → ℕ → ℕ
read_u16 b o = read_u8 b o * 2 ^ 8 + read_u8 b (o + 1)

abbrev pub read_u32 : Bytes → ℕ → ℕ
read_u32 b o =
    read_u8 b o * 2 ^ 24
    + read_u8 b (o + 1) * 2 ^ 16
    + read_u8 b (o + 2) * 2 ^ 8
    + read_u8 b (o + 3)

-- The bytes that `writeUInt16BE` and `writeUInt32BE` put down.
abbrev pub be16 : ℕ → Bytes
be16 n = n / 2 ^ 8 % 256 ∷ n % 256 ∷ []

abbrev pub be32 : ℕ → Bytes
be32 n = n / 2 ^ 24 % 256 ∷ n / 2 ^ 16 % 256 ∷ n / 2 ^ 8 % 256 ∷ n % 256 ∷ []

-- `n` bytes of a zeroed buffer, into which `b` is copied from the start.
unfoldable pub pad : ℕ → Bytes → Bytes
pad zero b = []
pad (suc n) [] = 0 ∷ pad n []
pad (suc n) (x ∷ b) = x ∷ pad n b
