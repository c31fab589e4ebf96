-- ===== src/Dhcp/Examples.antt =====
-- One client of a server on 192.168.50.1.
use susentorno.Base.{ℕ, ◌≡◌, ◌≢◌, ◌↔◌, refl, arith, inr, none, some, List, [], ◌∷◌, ◌++◌}
use susentorno.Bytes.{Bytes, pad}
use susentorno.Dhcp.Ip.{Ip, ip_to_int, int_to_ip, network_address}
use susentorno.Dhcp.Ip.Laws.{IsAddress, int_to_ip-ip_to_int}
use susentorno.Dhcp.Message.{to_hex}
use susentorno.Dhcp.Leases.{
  existing, scan, is_free, assign, hash32, hash_from, LeaseTable, empty_table, acquire, request,
  decline, nak,
}
use susentorno.Dhcp.Leases.Sound.{IsPool, IsSound, empty_table-IsSound}
use susentorno.Dhcp.Leases.Granting.{IsGranted}
use susentorno.Dhcp.Leases.Exhaustion.{IsExhausted, acquire-none_iff}
use susentorno.Dhcp.Message.{
  DhcpPacket, BuildReplyInput, client_identity, requested_address, server_identifier, parse_packet,
  build_reply,
}
use susentorno.Dhcp.Message.Kind
use susentorno.Dhcp.Message.Code
use susentorno.Dhcp.Message.RoundTrip.{reply_packet, parse_packet-build_reply}
use susentorno.Dhcp.Handler.{handle_dhcp, on_discover, reply}
use susentorno.Dhcp.Handler.Server.{DhcpServerOptions, table_options, handler_options, serve}
use susentorno.Dhcp.Handler.Promises.{
  IsDirect, IsWritable, RequestOutcome, offer-request-ack, handle_request-outcome,
}
use susentorno.Dhcp.Handler.Histories.{serve-IsSound, serve-decline}

abbrev host_ip : Ip
host_ip = record { a = 192; b = 168; c = 50; d = 1 }

abbrev netmask : Ip
netmask = record { a = 255; b = 255; c = 255; d = 0 }

abbrev options : DhcpServerOptions
options = record { listen_address = host_ip; netmask = netmask; lease_seconds = 3600 }

pool : IsPool (table_options options)
unfolding network_address
pool = record { not_empty = omega arith; no_wrap = omega arith }

abbrev no_ip : Ip
no_ip = record { a = 0; b = 0; c = 0; d = 0 }

abbrev packet : ℕ → List (ℕ × Bytes) → DhcpPacket
packet type os = record {
  op = 1;
  xid = 7;
  flags = 0;
  ciaddr = no_ip;
  giaddr = no_ip;
  chaddr = 2 ∷ 0 ∷ 0 ∷ 0 ∷ 0 ∷ 9 ∷ [];
  message_type = type;
  options = os;
}

abbrev discover : DhcpPacket
discover = packet Kind.discover []

abbrev offered_ip : Ip
offered_ip = record { a = 192; b = 168; c = 50; d = 20 }

abbrev request_packet : DhcpPacket
request_packet = packet Kind.request ((Code.req, 192 ∷ 168 ∷ 50 ∷ 20 ∷ []) ∷ [])

abbrev datagrams : List (Bytes × ℕ)
datagrams =
    (
      (1 ∷ 1 ∷ 6 ∷ 0 ∷ 0 ∷ 0 ∷ 0 ∷ 7 ∷ [])
          ++ pad 228 []
          ++ 99 ∷ 130 ∷ 83 ∷ 99 ∷ 53 ∷ 1 ∷ 1 ∷ 255 ∷ [],
      1000,
    )
    ∷ []

abbrev input : BuildReplyInput
input = record {
  request = discover;
  message_type = Kind.offer;
  yiaddr = offered_ip;
  host_ip = host_ip;
  netmask = netmask;
  lease_seconds = 3600;
}

int_to_ip-ip_to_int_example : int_to_ip (ip_to_int host_ip) ≡ host_ip
int_to_ip-ip_to_int_example = int_to_ip-ip_to_int host_ip (record {
  a_octet = omega arith;
  b_octet = omega arith;
  c_octet = omega arith;
  d_octet = omega arith;
})

no_ip-IsAddress : IsAddress no_ip
no_ip-IsAddress = record {
  a_octet = omega arith;
  b_octet = omega arith;
  c_octet = omega arith;
  d_octet = omega arith;
}

parse_packet-build_reply_example :
    (buffer : Bytes) × (build_reply input ≡ some buffer)
    × (parse_packet buffer ≡ some (reply_packet input))
parse_packet-build_reply_example = parse_packet-build_reply input (record {
  xid_word = omega arith;
  flags_word = omega arith;
  ciaddr_address = no_ip-IsAddress;
  giaddr_address = no_ip-IsAddress;
  chaddr_some = omega arith;
  chaddr_short = omega arith;
  type_byte = omega arith;
  lease_word = inr (omega arith);
})

serve-IsSound_example : IsSound (table_options options) (serve options datagrams empty_table)
serve-IsSound_example = serve-IsSound options datagrams pool

serve-decline_example :
    ((acquire
        (table_options options)
        (50 ∷ [])
        5000
        (serve options datagrams (decline (table_options options) offered_ip empty_table))).0
      ≢ some offered_ip)
    × ((request
          (table_options options)
          (50 ∷ [])
          offered_ip
          5000
          (serve options datagrams (decline (table_options options) offered_ip empty_table))).0
        ≡ nak)
serve-decline_example =
    serve-decline options offered_ip empty_table datagrams (50 ∷ []) 5000 pool
      (empty_table-IsSound (table_options options))

handle_request-outcome_example :
    RequestOutcome
      (handler_options options)
      pool
      request_packet
      1000
      empty_table
      (handle_dhcp (handler_options options) request_packet 1000 empty_table)
handle_request-outcome_example =
    handle_request-outcome (handler_options options) pool request_packet 1000 empty_table
      (refl, refl)

acquire-none_iff_example :
    ((acquire (table_options options) (50 ∷ []) 1000 empty_table).0 ≡ none)
    ↔ IsExhausted (table_options options) (50 ∷ []) 1000 empty_table
acquire-none_iff_example = acquire-none_iff (table_options options) (50 ∷ []) 1000 empty_table pool

-- The address that the client's hash picks.
abbrev granted_ip : Ip
granted_ip = record { a = 192; b = 168; c = 50; d = 174 }

offered :
    (handle_dhcp (handler_options options) discover 1000 empty_table).reply
    ≡ some (reply (handler_options options) discover Kind.offer granted_ip)
unfolding handle_dhcp on_discover acquire client_identity to_hex existing scan is_free assign hash32
    hash_from int_to_ip network_address ip_to_int
offered = refl

abbrev table_after : LeaseTable
table_after = (handle_dhcp (handler_options options) discover 1000 empty_table).table

offer-request-ack_example :
    (ip : Ip) × (reply (handler_options options) discover Kind.offer granted_ip
      ≡ reply (handler_options options) discover Kind.offer ip)
    × IsGranted
        (table_options options)
        (client_identity discover)
        1000
        (ip_to_int ip)
        empty_table
        table_after
    × ((q : DhcpPacket) (now' : ℕ)
        → client_identity q ≡ client_identity discover
        → IsWritable q
        → IsDirect q Kind.request
        → requested_address q ≡ some ip
        → server_identifier q ≡ some host_ip
        → ((handle_dhcp (handler_options options) q now' table_after).reply
            ≡ some (reply (handler_options options) q Kind.ack ip))
          × ((buffer : Bytes) × ((reply (handler_options options) q Kind.ack ip).buffer
                ≡ some buffer)))
offer-request-ack_example =
    offer-request-ack (handler_options options) pool discover 1000 empty_table (omega arith)
      (refl, refl) (empty_table-IsSound (table_options options)) offered
