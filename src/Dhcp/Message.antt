-- ===== src/Dhcp/Message.antt =====
-- src/runHosting/dhcpMessage.ts. A packet's option map is the list of its entries in insertion
-- order, a fixed field of the 300-byte reply buffer is the bytes written there, and bytes that
-- nothing writes stay 0.
pub mod Kind
pub mod Code
pub mod RoundTrip
use susentorno.Base.{
  ℕ, zero, suc, ◌+◌, ◌*◌, ◌/◌, ◌%◌, ◌^◌, ◌≡◌, Bool, true, false, not, ◌&&◌, ◌||◌, Option, none,
  some, List, [], ◌∷◌, ◌++◌, map, ltb, leb, ◌==◌, if◌then◌else◌, length, take, drop, lookup, insert,
}
use susentorno.Bytes.{Bytes, read_u8, read_u16, read_u32, be16, be32, pad}
use susentorno.Dhcp.Ip.{Ip, ip_to_int, int_to_ip}
use susentorno.Dhcp.Leases.{Identity}

abbrev pub cookie : ℕ
cookie = 0x63825363

abbrev pub min_length : ℕ
min_length = 240

pub record DhcpPacket : Type 0 where
  pub op : ℕ
  pub xid : ℕ
  pub flags : ℕ
  pub ciaddr : Ip
  pub giaddr : Ip
  pub chaddr : Bytes
  pub message_type : ℕ
  pub options : List (ℕ × Bytes)

abbrev pub read_ip : Bytes → ℕ → Ip
read_ip b o = int_to_ip (read_u32 b o)

-- The option loop, on the bytes from `off` on. Each round takes at least one byte, so a fuel of
-- one more than their number is never used up.
unfoldable pub parse_options : ℕ → Bytes → List (ℕ × Bytes) → Option (List (ℕ × Bytes))
parse_options zero rest options = none
parse_options (suc fuel) [] options = none
parse_options (suc fuel) (code ∷ []) options =
    if code == Code.end
    then some options
    else if code == Code.pad
    then parse_options fuel [] options
    else none
parse_options (suc fuel) (code ∷ len ∷ rest) options =
    let skipped = parse_options fuel (len ∷ rest) options in
    let stored = parse_options fuel (drop len rest) (insert code (take len rest) options) in
    if code == Code.end
    then some options
    else if code == Code.pad
    then skipped
    else if ltb (length rest) len
    then none
    else stored

-- The packet's fields, once the options and the message type are known.
abbrev packet_of : Bytes → ℕ → List (ℕ × Bytes) → Option Bytes → Option DhcpPacket
packet_of buf hlen options (some (type ∷ [])) = some (record {
  op = read_u8 buf 0;
  xid = read_u32 buf 4;
  flags = read_u16 buf 10;
  ciaddr = read_ip buf 12;
  giaddr = read_ip buf 24;
  chaddr = take hlen (drop 28 buf);
  message_type = type;
  options = options;
})
packet_of buf hlen options _ = none

abbrev packet_with : Bytes → ℕ → Option (List (ℕ × Bytes)) → Option DhcpPacket
packet_with buf hlen none = none
packet_with buf hlen (some options) = packet_of buf hlen options (lookup Code.mt options)

unfoldable pub parse_packet : Bytes → Option DhcpPacket
unfolding parse_options
parse_packet buf =
    let hlen = read_u8 buf 2 in
    let options = drop min_length buf in
    if ltb (length buf) min_length || not (read_u32 buf 236 == cookie)
    then none
    else if ltb hlen 1 || ltb 16 hlen
    then none
    else packet_with buf hlen (parse_options (suc (length options)) options [])

-- One hexadecimal digit, as its character code.
abbrev hex_digit : ℕ → ℕ
hex_digit n = if ltb n 10 then n + 48 else n + 87

-- `buffer.toString('hex')`
unfoldable pub to_hex : Bytes → Identity
to_hex [] = []
to_hex (x ∷ b) = hex_digit (x / 16) ∷ hex_digit (x % 16) ∷ to_hex b

abbrev or_bytes : Option Bytes → Bytes → Bytes
or_bytes none d = d
or_bytes (some b) d = b

unfoldable pub client_identity : DhcpPacket → Identity
client_identity pkt = to_hex (or_bytes (lookup Code.client pkt.options) pkt.chaddr)

-- An option of four bytes, read as an address.
abbrev address_option : Option Bytes → Option Ip
address_option none = none
address_option (some o) = if length o == 4 then some (read_ip o 0) else none

unfoldable pub requested_address : DhcpPacket → Option Ip
requested_address pkt = address_option (lookup Code.req pkt.options)

unfoldable pub server_identifier : DhcpPacket → Option Ip
server_identifier pkt = address_option (lookup Code.server pkt.options)

pub record BuildReplyInput : Type 0 where
  pub request : DhcpPacket
  pub message_type : ℕ
  pub yiaddr : Ip
  pub host_ip : Ip
  pub netmask : Ip
  pub lease_seconds : ℕ

abbrev write_ip : Ip → Bytes
write_ip ip = be32 (ip_to_int ip)

-- `opt(c, v)`
abbrev opt : ℕ → Bytes → Bytes
opt c v = c ∷ length v ∷ v

-- The options that a reply carries, in order; `Buffer.from([n])` keeps the low byte of `n`.
abbrev pub reply_options : BuildReplyInput → List (ℕ × Bytes)
reply_options i =
    (Code.mt, i.message_type % 256 ∷ [])
    ∷ (Code.server, write_ip i.host_ip)
    ∷ (if i.message_type == Kind.nak
        then []
        else (Code.mask, write_ip i.netmask)
          ∷ (Code.router, write_ip i.host_ip)
          ∷ (Code.dns, write_ip i.host_ip)
          ∷ (Code.lease, be32 i.lease_seconds)
          ∷ (Code.t1, be32 (i.lease_seconds / 2))
          ∷ (Code.t2, be32 (i.lease_seconds * 7 / 8))
          ∷ [])

abbrev pub print_options : List (ℕ × Bytes) → Bytes
print_options [] = Code.end ∷ []
print_options ((c, v) ∷ os) = opt c v ++ print_options os

-- Offsets 0 to 27: op, htype, hlen, hops, xid, secs, flags, ciaddr, yiaddr, siaddr, giaddr.
abbrev pub print_header : BuildReplyInput → Bytes
print_header i =
    (2 ∷ 1 ∷ length i.request.chaddr ∷ 0 ∷ [])
    ++ (be32 i.request.xid
        ++ (0 ∷ 0 ∷ be16 i.request.flags)
        ++ write_ip i.request.ciaddr
        ++ write_ip i.yiaddr
        ++ write_ip i.host_ip
        ++ write_ip i.request.giaddr)

-- The client's hardware address stands at 28, the cookie at 236, the options from 240 on.
unfoldable pub print_reply : BuildReplyInput → Bytes
unfolding pad
print_reply i =
    print_header i ++ (pad 208 i.request.chaddr ++ (be32 cookie ++ print_options (reply_options i)))

-- `writeUInt8`, `writeUInt16BE` and `writeUInt32BE` throw on a number that does not fit.
abbrev pub fits : BuildReplyInput → Bool
fits i =
    ltb (length i.request.chaddr) (2 ^ 8)
    && ltb i.request.xid (2 ^ 32)
    && ltb i.request.flags (2 ^ 16)
    && (i.message_type == Kind.nak || ltb i.lease_seconds (2 ^ 32))

-- The buffer, or none where a write throws.
unfoldable pub build_reply : BuildReplyInput → Option Bytes
build_reply i = if fits i then some (print_reply i) else none
