-- ===== src/Dhcp/Handler/Server.antt =====
-- src/runHosting/dhcpServer.ts: the state of `startDhcpServer` and its handler of one datagram.
-- The socket itself is left out; a datagram comes with the reading of the clock at its arrival.
use susentorno.Base.{ℕ, Option, none, some, List, [], ◌∷◌}
use susentorno.Bytes.{Bytes}
use susentorno.Dhcp.Ip.{Ip}
use susentorno.Dhcp.Leases.{LeaseTableOptions, LeaseTable}
use susentorno.Dhcp.Message.{DhcpPacket, parse_packet}
use susentorno.Dhcp.Handler.{DhcpHandlerOptions, Handled, silent, handle_dhcp}

-- `listenAddress`, `netmask` and `leaseSeconds`, its default of 3600 filled in.
pub record DhcpServerOptions : Type 0 where
  pub listen_address : Ip
  pub netmask : Ip
  pub lease_seconds : ℕ

abbrev pub table_options : DhcpServerOptions → LeaseTableOptions
table_options opts = record {
  host_ip = opts.listen_address;
  netmask = opts.netmask;
  pool_start = none;
  pool_end = none;
  lease_seconds = opts.lease_seconds;
}

abbrev pub handler_options : DhcpServerOptions → DhcpHandlerOptions
handler_options opts = record {
  host_ip = opts.listen_address;
  netmask = opts.netmask;
  lease_seconds = opts.lease_seconds;
  leases = table_options opts;
}

abbrev pub on_packet : DhcpServerOptions → Option DhcpPacket → ℕ → LeaseTable → Handled
on_packet opts none now t = silent t
on_packet opts (some pkt) now t = handle_dhcp (handler_options opts) pkt now t

unfoldable pub on_message : DhcpServerOptions → Bytes → ℕ → LeaseTable → Handled
on_message opts msg now t = on_packet opts (parse_packet msg) now t

-- The table after a sequence of datagrams, each with its time.
unfoldable pub serve : DhcpServerOptions → List (Bytes × ℕ) → LeaseTable → LeaseTable
serve opts [] t = t
serve opts ((msg, now) ∷ rest) t = serve opts rest (on_message opts msg now t).table
