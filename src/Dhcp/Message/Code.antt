-- ===== src/Dhcp/Message/Code.antt =====
-- The option codes of src/runHosting/dhcpMessage.ts.
use susentorno.Base.{ℕ}

abbrev pub end : ℕ
end = 255

abbrev pub pad : ℕ
pad = 0

abbrev pub mt : ℕ
mt = 53

abbrev pub mask : ℕ
mask = 1

abbrev pub router : ℕ
router = 3

abbrev pub dns : ℕ
dns = 6

abbrev pub req : ℕ
req = 50

abbrev pub lease : ℕ
lease = 51

abbrev pub server : ℕ
server = 54

abbrev pub client : ℕ
client = 61

abbrev pub t1 : ℕ
t1 = 58

abbrev pub t2 : ℕ
t2 = 59
