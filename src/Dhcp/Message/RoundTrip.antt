-- ===== src/Dhcp/Message/RoundTrip.antt =====
-- A reply that `buildReply` writes is read back by `parsePacket`.
use susentorno.Base.{
  ℕ, suc, ◌%◌, ◌^◌, ◌≤◌, ◌<◌, ◌≡◌, refl, ap, ◌∙◌, true, false, ◌⊎◌, ◌||◌, some, List, [], ◌∷◌, ◌++◌,
  arith, ltb, ◌==◌, length, take, drop, lookup, Bool-cases, inl, inr,
}
use susentorno.Bytes.{Bytes, read_u8, read_u16, read_u32, be16, be32, pad}
use susentorno.Base.{length-append}
use susentorno.Bytes.Laws.{get_or-pad, drop-pad, take-pad, length-pad}
use susentorno.Dhcp.Ip.{Ip, ip_to_int, int_to_ip}
use susentorno.Dhcp.Ip.Laws.{IsAddress, int_to_ip-ip_to_int, ip_to_int_bound}
use susentorno.Dhcp.Message.{
  DhcpPacket, BuildReplyInput, parse_options, parse_packet, reply_options, print_options,
  print_reply, fits, build_reply, cookie, read_ip, packet_of,
}
use susentorno.Dhcp.Message.Kind
use susentorno.Dhcp.Message.Code

-- The fields that the reply writes fit their places; a NAK has no lease.
pub record IsReply (i : BuildReplyInput) : Type 0 where
  pub xid_word : i.request.xid < 2 ^ 32
  pub flags_word : i.request.flags < 2 ^ 16
  pub ciaddr_address : IsAddress i.request.ciaddr
  pub giaddr_address : IsAddress i.request.giaddr
  pub chaddr_some : 0 < length i.request.chaddr
  pub chaddr_short : length i.request.chaddr ≤ 16
  pub type_byte : i.message_type < 2 ^ 8
  pub lease_word : (i.message_type ≡ Kind.nak) ⊎ (i.lease_seconds < 2 ^ 32)

-- The packet that a client reads from the reply.
abbrev pub reply_packet : BuildReplyInput → DhcpPacket
reply_packet i = record {
  op = 2;
  xid = i.request.xid;
  flags = i.request.flags;
  ciaddr = i.request.ciaddr;
  giaddr = i.request.giaddr;
  chaddr = i.request.chaddr;
  message_type = i.message_type;
  options = reply_options i;
}

options_parsed :
    (i : BuildReplyInput)
    → let os = print_options (reply_options i) in
      parse_options (suc (length os)) os [] ≡ some (reply_options i)
unfolding parse_options
options_parsed i = elim (Bool-cases (i.message_type == Kind.nak)) [
  | inl y ↦ rw y refl
  | inr n ↦ rw n refl
]

be32_word : (n : ℕ) → n < 2 ^ 32 → read_u32 (be32 n) 0 ≡ n
be32_word n h = omega arith

be16_word : (n : ℕ) → n < 2 ^ 16 → read_u16 (be16 n) 0 ≡ n
be16_word n h = omega arith

ip_read : (ip : Ip) → IsAddress ip → read_ip (be32 (ip_to_int ip)) 0 ≡ ip
ip_read ip h =
    ap int_to_ip (be32_word (ip_to_int ip) (ip_to_int_bound ip h)) ∙ int_to_ip-ip_to_int ip h

-- `parsePacket` on a buffer of which the parts that it tests are known.
parse_packet_parts :
    (buf rest : Bytes) (type : ℕ) (os : List (ℕ × Bytes))
    → ltb (length buf) 240 ≡ false
    → read_u32 buf 236 ≡ cookie
    → ltb (read_u8 buf 2) 1 || ltb 16 (read_u8 buf 2) ≡ false
    → drop 240 buf ≡ rest
    → parse_options (suc (length rest)) rest [] ≡ some os
    → lookup Code.mt os ≡ some (type ∷ [])
    → parse_packet buf ≡ packet_of buf (read_u8 buf 2) os (some (type ∷ []))
unfolding parse_packet
parse_packet_parts buf rest type os l c h d o t = rw (l, c, h, d) (rw o (rw t))

module _ (i : BuildReplyInput) where
  abbrev options_bytes : Bytes
  options_bytes = print_options (reply_options i)

  abbrev behind : Bytes
  behind = be32 cookie ++ options_bytes

  cookie_read : read_u32 (print_reply i) 236 ≡ cookie
  unfolding print_reply
  cookie_read =
      let at = λ (k : ℕ). get_or-pad 208 k i.request.chaddr behind in
      rw (at 0, at 1, at 2, at 3) refl

  options_read : drop 240 (print_reply i) ≡ options_bytes
  unfolding print_reply
  options_read = drop-pad 208 4 i.request.chaddr behind

  chaddr_read :
      length i.request.chaddr ≤ 16
      → take (length i.request.chaddr) (drop 28 (print_reply i)) ≡ i.request.chaddr
  unfolding print_reply
  chaddr_read h = take-pad 208 i.request.chaddr behind (omega arith)

  long_enough : ltb (length (print_reply i)) 240 ≡ false
  unfolding print_reply
  long_enough =
      ground
        (arith, length-append (pad 208 i.request.chaddr) behind, length-pad 208 i.request.chaddr)

  xid_read : i.request.xid < 2 ^ 32 → read_u32 (print_reply i) 4 ≡ i.request.xid
  unfolding print_reply
  xid_read h = be32_word i.request.xid h

  flags_read : i.request.flags < 2 ^ 16 → read_u16 (print_reply i) 10 ≡ i.request.flags
  unfolding print_reply
  flags_read h = be16_word i.request.flags h

  ciaddr_read : IsAddress i.request.ciaddr → read_ip (print_reply i) 12 ≡ i.request.ciaddr
  unfolding print_reply
  ciaddr_read h = ip_read i.request.ciaddr h

  giaddr_read : IsAddress i.request.giaddr → read_ip (print_reply i) 24 ≡ i.request.giaddr
  unfolding print_reply
  giaddr_read h = ip_read i.request.giaddr h

  hlen_read :
      0 < length i.request.chaddr
      → length i.request.chaddr ≤ 16
      → ltb (read_u8 (print_reply i) 2) 1 || ltb 16 (read_u8 (print_reply i) 2) ≡ false
  unfolding print_reply
  hlen_read h k = ground arith

  op_read : read_u8 (print_reply i) 0 ≡ 2
  unfolding print_reply
  op_read = refl

  chaddr_taken :
      length i.request.chaddr ≤ 16
      → take (read_u8 (print_reply i) 2) (drop 28 (print_reply i)) ≡ i.request.chaddr
  unfolding print_reply
  chaddr_taken h = chaddr_read h

  type_kept : i.message_type < 2 ^ 8 → i.message_type % 256 ≡ i.message_type
  type_kept h = omega arith

  print_reply_read : IsReply i → parse_packet (print_reply i) ≡ some (reply_packet i)
  print_reply_read h =
      parse_packet_parts (print_reply i) options_bytes (i.message_type % 256) (reply_options i)
        long_enough cookie_read (hlen_read h.chaddr_some h.chaddr_short) options_read
        (options_parsed i) refl
      ∙ λ j. some (record {
        op = op_read j;
        xid = xid_read h.xid_word j;
        flags = flags_read h.flags_word j;
        ciaddr = ciaddr_read h.ciaddr_address j;
        giaddr = giaddr_read h.giaddr_address j;
        chaddr = chaddr_taken h.chaddr_short j;
        message_type = type_kept h.type_byte j;
        options = reply_options i;
      })

  is_written : IsReply i → fits i ≡ true
  is_written h = ground (arith, h)

  -- When the fields fit their places, buildReply returns, and parsePacket reads what it has written
  -- as the packet that the fields say.
  pub parse_packet-build_reply :
      IsReply i
      → (buffer : Bytes) × (build_reply i ≡ some buffer)
        × (parse_packet buffer ≡ some (reply_packet i))
  unfolding build_reply
  parse_packet-build_reply h = (print_reply i, rw (is_written h) refl, print_reply_read h)
