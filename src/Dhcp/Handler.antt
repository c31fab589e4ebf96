-- ===== src/Dhcp/Handler.antt =====
-- src/runHosting/dhcpHandler.ts, and the message handler of dhcpServer.ts. `onWarn` is the list of
-- warnings that a call gives, and the clock is an argument.
pub mod Keeps
pub mod Server
pub mod Promises
pub mod Histories
use susentorno.Base.{ℕ, Bool, not, ◌&&◌, Option, none, some, List, [], ◌∷◌, ◌==◌, if◌then◌else◌}
use susentorno.Bytes.{Bytes}
use susentorno.Dhcp.Ip.{Ip, same_ip}
use susentorno.Dhcp.Leases.{
  Identity, LeaseTableOptions, LeaseTable, Verdict, ack, nak, acquire, request, release, decline,
  empty_table,
}
use susentorno.Dhcp.Message.{
  DhcpPacket, parse_packet, client_identity, requested_address, server_identifier, build_reply,
}
use susentorno.Dhcp.Message.Kind

abbrev pub zero_ip : Ip
zero_ip = record { a = 0; b = 0; c = 0; d = 0 }

abbrev pub broadcast : Ip
broadcast = record { a = 255; b = 255; c = 255; d = 255 }

-- `buffer` is none where `buildReply` throws: then `handleDhcp` throws, with the table as it is.
pub record DhcpReply : Type 0 where
  pub buffer : Option Bytes
  pub destination : Ip

pub data Warning : Type 0 where
  relayed : Ip → Warning
  exhausted : Identity → Warning
  declined : Identity → Option Ip → Warning

pub record DhcpHandlerOptions : Type 0 where
  pub host_ip : Ip
  pub netmask : Ip
  pub lease_seconds : ℕ
  pub leases : LeaseTableOptions

-- What a call of the handler returns and does: the reply, the new table, the warnings.
pub record Handled : Type 0 where
  pub reply : Option DhcpReply
  pub table : LeaseTable
  pub warnings : List Warning

abbrev pub has_ciaddr : DhcpPacket → Bool
has_ciaddr pkt = not (same_ip pkt.ciaddr zero_ip)

abbrev pub destination : DhcpPacket → Ip
destination pkt = if has_ciaddr pkt then pkt.ciaddr else broadcast

abbrev pub silent : LeaseTable → Handled
silent t = record { reply = none; table = t; warnings = [] }

abbrev pub warned : LeaseTable → Warning → Handled
warned t w = record { reply = none; table = t; warnings = w ∷ [] }

-- `chosen !== null && chosen !== opts.hostIp`
abbrev pub chose_other : Option Ip → Ip → Bool
chose_other none host = Bool.false
chose_other (some ip) host = not (same_ip ip host)

-- `requestedAddress(pkt) ?? (hasCiaddr ? pkt.ciaddr : null)`
abbrev pub wanted_address : DhcpPacket → Option Ip → Option Ip
wanted_address pkt (some ip) = some ip
wanted_address pkt none = if has_ciaddr pkt then some pkt.ciaddr else none

module _ (opts : DhcpHandlerOptions) (pkt : DhcpPacket) where
  abbrev pub reply : ℕ → Ip → DhcpReply
  reply type yiaddr = record {
    buffer = build_reply (record {
      request = pkt;
      message_type = type;
      yiaddr = yiaddr;
      host_ip = opts.host_ip;
      netmask = opts.netmask;
      lease_seconds = opts.lease_seconds;
    });
    destination = destination pkt;
  }

  abbrev pub answer : LeaseTable → ℕ → Ip → Handled
  answer t type yiaddr = record { reply = some (reply type yiaddr); table = t; warnings = [] }

  abbrev pub on_acquired : Option Ip × LeaseTable → Handled
  on_acquired (none, t) = warned t (exhausted (client_identity pkt))
  on_acquired (some address, t) = answer t Kind.offer address

  abbrev pub on_verdict : Ip → Verdict × LeaseTable → Handled
  on_verdict wanted (ack, t) = answer t Kind.ack wanted
  on_verdict wanted (nak, t) = answer t Kind.nak zero_ip

  abbrev pub on_wanted : Option Ip → ℕ → LeaseTable → Handled
  on_wanted none now t = answer t Kind.nak zero_ip
  on_wanted (some wanted) now t =
      on_verdict wanted (request opts.leases (client_identity pkt) wanted now t)

  abbrev pub decline_some : Option Ip → LeaseTable → LeaseTable
  decline_some none t = t
  decline_some (some bad) t = decline opts.leases bad t

  -- The `case` of a DISCOVER, a REQUEST and a DECLINE.
  unfoldable pub on_discover : ℕ → LeaseTable → Handled
  on_discover now t = on_acquired (acquire opts.leases (client_identity pkt) now t)

  unfoldable pub on_request : ℕ → LeaseTable → Handled
  on_request now t =
      if chose_other (server_identifier pkt) opts.host_ip
      then silent (release opts.leases (client_identity pkt) now t)
      else on_wanted (wanted_address pkt (requested_address pkt)) now t

  pub on_decline : LeaseTable → Handled
  on_decline t =
      warned (decline_some (requested_address pkt) t)
        (declined (client_identity pkt) (requested_address pkt))

  unfoldable pub handle_dhcp : ℕ → LeaseTable → Handled
  handle_dhcp now t =
      if not (same_ip pkt.giaddr zero_ip)
      then warned t (relayed pkt.giaddr)
      else if pkt.message_type == Kind.discover
      then on_discover now t
      else if pkt.message_type == Kind.request
      then on_request now t
      else if pkt.message_type == Kind.release
      then silent (release opts.leases (client_identity pkt) now t)
      else if pkt.message_type == Kind.decline
      then on_decline t
      else if pkt.message_type == Kind.inform
      then answer t Kind.ack zero_ip
      else silent t
