-- ===== src/Dns/Message.antt =====
-- src/runHosting/dnsMessage.ts, and the socket's message handler in dnsResponder.ts. A text is the
-- list of its character codes.
pub mod Bounds
pub mod Replies
use susentorno.Base.{
  ℕ, zero, suc, ◌+◌, ◌-◌, ◌*◌, ◌/◌, ◌%◌, ◌^◌, Bool, true, false, not, ◌&&◌, Option, none, some,
  List, [], ◌∷◌, ◌++◌, map, length, take, drop, ltb, leb, ◌==◌, if◌then◌else◌,
}
use susentorno.Bytes.{Bytes, read_u8, read_u16, be16, be32}
use susentorno.Dhcp.Ip.{Ip}

abbrev pub header_len : ℕ
header_len = 12

abbrev max_name_len : ℕ
max_name_len = 255

abbrev max_label_len : ℕ
max_label_len = 63

pub record ParsedQuery : Type 0 where
  pub id : ℕ
  pub rd : Bool
  pub name : List ℕ
  pub qtype : ℕ
  pub question_end : ℕ

pub data Reason : Type 0 where
  short_header qr_set opcode qdcount name_past_end compression_pointer label_too_long : Reason
  label_past_end name_too_long question_truncated qclass : Reason

-- `stuck` is no result of the code: it is the loop's fuel run out, which never happens.
pub data ParseResult : Type 0 where
  ok : ParsedQuery → ParseResult
  dropped : Reason → ParseResult
  formerr : ℕ → Reason → ParseResult
  stuck : ParseResult

-- How the loop over the labels ends.
pub data Labels : Type 0 where
  found : List (List ℕ) → ℕ → Labels
  malformed : Reason → Labels
  out_of_fuel : Labels

-- `buf.toString('ascii', off, off + len)`
abbrev ascii : Bytes → ℕ → ℕ → List ℕ
ascii buf off len = map (λ byte. byte % 128) (take len (drop off buf))

-- The `for (;;)` loop.
unfoldable pub parse_labels : ℕ → Bytes → ℕ → ℕ → List (List ℕ) → Labels
parse_labels zero buf off name_len labels = out_of_fuel
parse_labels (suc fuel) buf off name_len labels =
    let len = read_u8 buf off in
    let name_len' = name_len + (len + 1) in
    let labels' = labels ++ ascii buf (off + 1) len ∷ [] in
    let rest = parse_labels fuel buf (off + (1 + len)) name_len' labels' in
    if leb (length buf) off
    then malformed name_past_end
    else if len == 0
    then found labels (off + 1)
    else if not (len / 64 % 4 == 0)
    then malformed compression_pointer
    else if ltb max_label_len len
    then malformed label_too_long
    else if ltb (length buf) (off + 1 + len)
    then malformed label_past_end
    else if ltb max_name_len name_len'
    then malformed name_too_long
    else rest

-- `labels.join('.')`
abbrev join : List (List ℕ) → List ℕ
join [] = []
join (l ∷ []) = l
join (l ∷ m ∷ ls) = l ++ 46 ∷ join (m ∷ ls)

-- `toLowerCase` on one ASCII code
abbrev lower : ℕ → ℕ
lower c = if leb 65 c && leb c 90 then c + 32 else c

-- What follows the name.
unfoldable pub parse_question : Bytes → ℕ → ℕ → List (List ℕ) → ℕ → ParseResult
parse_question buf id flags labels off =
    if ltb (length buf) (off + 4)
    then formerr id question_truncated
    else if not (read_u16 buf (off + 2) == 1)
    then formerr id qclass
    else ok (record {
      id = id;
      rd = not (flags / 2 ^ 8 % 2 == 0);
      name = map lower (join labels);
      qtype = read_u16 buf off;
      question_end = off + 4;
    })

abbrev pub with_labels : Bytes → ℕ → ℕ → Labels → ParseResult
with_labels buf id flags (found labels off) = parse_question buf id flags labels off
with_labels buf id flags (malformed reason) = formerr id reason
with_labels buf id flags out_of_fuel = stuck

-- Each round of the loop goes on by a byte at least, so the length is fuel enough.
unfoldable pub parse_query : Bytes → ParseResult
parse_query buf =
    let id = read_u16 buf 0 in
    let flags = read_u16 buf 2 in
    let labels = parse_labels (suc (length buf)) buf header_len 0 [] in
    if ltb (length buf) header_len
    then dropped short_header
    else if not (flags / 2 ^ 15 % 2 == 0)
    then dropped qr_set
    else if not (flags / 2 ^ 11 % 16 == 0)
    then formerr id opcode
    else if not (read_u16 buf 4 == 1)
    then formerr id qdcount
    else with_labels buf id flags labels

unfoldable pub answer_for : ℕ → Ip → Option Ip
answer_for qtype host_ip = if qtype == 1 then some host_ip else none

-- The answer record: a pointer to the question's name, type A, class IN, 30 s, the address.
abbrev pub answer_record : Option Ip → Bytes
answer_record none = []
answer_record (some ip) =
    be16 0xc00c
    ++ be16 1
    ++ be16 1
    ++ be32 30
    ++ be16 4
    ++ ip.a % 256 ∷ ip.b % 256 ∷ ip.c % 256 ∷ ip.d % 256 ∷ []

abbrev answer_count : Option Ip → ℕ
answer_count none = 0
answer_count (some ip) = 1

unfoldable pub build_response : Bytes → ParsedQuery → Option Ip → Bytes
build_response request query answer_ip =
    be16 query.id
    ++ be16 (if query.rd then 0x8100 else 0x8000)
    ++ be16 1
    ++ be16 (answer_count answer_ip)
    ++ be16 0
    ++ be16 0
    ++ take (query.question_end - header_len) (drop header_len request)
    ++ answer_record answer_ip

unfoldable pub build_form_err : ℕ → Bytes
build_form_err id = be16 id ++ be16 0x8001 ++ be16 0 ++ be16 0 ++ be16 0 ++ be16 0

abbrev pub reply_to : Ip → Bytes → ParseResult → Option Bytes
reply_to host_ip msg (ok query) = some (build_response msg query (answer_for query.qtype host_ip))
reply_to host_ip msg (dropped reason) = none
reply_to host_ip msg (formerr id reason) = some (build_form_err id)
reply_to host_ip msg stuck = none

-- What `socket.on('message')` sends back.
unfoldable pub respond : Ip → Bytes → Option Bytes
respond host_ip msg = reply_to host_ip msg (parse_query msg)
