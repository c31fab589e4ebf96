-- ===== src/Dhcp/Handler/Keeps.antt =====
-- What the four operations of the lease table keep, the handler of a packet keeps, and so does
-- the server over a sequence of datagrams.
use susentorno.Base.{
  ℕ, ◌≡◌, refl, Bool, true, false, not, Option, none, some, List, [], ◌∷◌, ◌==◌, if◌then◌else◌,
  Bool-cases, inl, inr,
}
use susentorno.Bytes.{Bytes}
use susentorno.Dhcp.Ip.{Ip, same_ip}
use susentorno.Dhcp.Leases.{
  Identity, LeaseTableOptions, LeaseTable, Verdict, ack, nak, acquire, request, release, decline,
}
use susentorno.Dhcp.Message.{
  DhcpPacket, parse_packet, client_identity, requested_address, server_identifier,
}
use susentorno.Dhcp.Message.Kind
use susentorno.Dhcp.Handler.{
  DhcpHandlerOptions, Handled, handle_dhcp, on_acquired, on_verdict, on_wanted, on_discover,
  on_request, on_decline, decline_some, chose_other, wanted_address, zero_ip, answer, silent,
  warned, relayed,
}
use susentorno.Dhcp.Handler.Server.{
  DhcpServerOptions, table_options, handler_options, on_packet, on_message, serve,
}

-- The table's operations keep `P`.
pub record IsKept (opts : LeaseTableOptions) (P : LeaseTable → Type 0) : Type 0 where
  pub acquire_keeps :
      (identity : Identity) (now : ℕ) (t : LeaseTable) → P t → P (acquire opts identity now t).1
  pub request_keeps :
      (identity : Identity) (ip : Ip) (now : ℕ) (t : LeaseTable)
      → P t
      → P (request opts identity ip now t).1
  pub release_keeps :
      (identity : Identity) (now : ℕ) (t : LeaseTable) → P t → P (release opts identity now t)
  pub decline_keeps : (ip : Ip) (t : LeaseTable) → P t → P (decline opts ip t)

module _ (opts : DhcpHandlerOptions) (pkt : DhcpPacket) where
  pub on_acquired-table : (r : Option Ip × LeaseTable) → (on_acquired opts pkt r).table ≡ r.1
  on_acquired-table (none, t) = refl
  on_acquired-table (some ip, t) = refl

  on_verdict-table :
      (wanted : Ip) (r : Verdict × LeaseTable) → (on_verdict opts pkt wanted r).table ≡ r.1
  on_verdict-table wanted (ack, t) = refl
  on_verdict-table wanted (nak, t) = refl

  module _ (P : LeaseTable → Type 0) (kept : IsKept opts.leases P) where
    on_discover-keeps : (now : ℕ) (t : LeaseTable) → P t → P (on_discover opts pkt now t).table
    unfolding on_discover
    on_discover-keeps now t s =
        rw on_acquired-table (kept.acquire_keeps (client_identity pkt) now t s)

    on_wanted-keeps :
        (w : Option Ip) (now : ℕ) (t : LeaseTable) → P t → P (on_wanted opts pkt w now t).table
    on_wanted-keeps none now t s = s
    on_wanted-keeps (some ip) now t s =
        rw on_verdict-table (kept.request_keeps (client_identity pkt) ip now t s)

    on_request-keeps : (now : ℕ) (t : LeaseTable) → P t → P (on_request opts pkt now t).table
    unfolding on_request
    on_request-keeps now t s =
        elim (Bool-cases (chose_other (server_identifier pkt) opts.host_ip)) [
          | inl y ↦ rw y (kept.release_keeps (client_identity pkt) now t s)
          | inr n ↦ rw n (on_wanted-keeps (wanted_address pkt (requested_address pkt)) now t s)
        ]

    decline_some-keeps : (bad : Option Ip) (t : LeaseTable) → P t → P (decline_some opts pkt bad t)
    decline_some-keeps none t s = s
    decline_some-keeps (some ip) t s = kept.decline_keeps ip t s

    record Keeps (h : Handled) : Type 0 where
      at : P h.table

    if-Keeps : (b : Bool) {x y : Handled} → Keeps x → Keeps y → Keeps (if b then x else y)
    if-Keeps true p q = p
    if-Keeps false p q = q

    keeps : (h : Handled) → P h.table → Keeps h
    keeps h p = record { at = p }

    pub handle_dhcp-keeps : (now : ℕ) (t : LeaseTable) → P t → P (handle_dhcp opts pkt now t).table
    unfolding handle_dhcp on_decline
    handle_dhcp-keeps now t s =
        let is = λ (k : ℕ). pkt.message_type == k in
        let released = kept.release_keeps (client_identity pkt) now t s in
        let rest =
          if-Keeps (is Kind.decline)
            (keeps (on_decline opts pkt t) (decline_some-keeps (requested_address pkt) t s))
            (if-Keeps (is Kind.inform) (keeps (answer opts pkt t Kind.ack zero_ip) s)
              (keeps (silent t) s)) in
        let asked =
          if-Keeps (is Kind.request) (keeps (on_request opts pkt now t) (on_request-keeps now t s))
            (if-Keeps (is Kind.release)
              (keeps (silent (release opts.leases (client_identity pkt) now t)) released) rest) in
        (if-Keeps (not (same_ip pkt.giaddr zero_ip)) (keeps (warned t (relayed pkt.giaddr)) s) (
          if-Keeps (is Kind.discover)
            (keeps (on_discover opts pkt now t) (on_discover-keeps now t s)) asked)).at

module _ (opts : DhcpServerOptions) (P : LeaseTable → Type 0)
    (kept : IsKept (table_options opts) P) where
  on_packet-keeps :
      (pkt : Option DhcpPacket) (now : ℕ) (t : LeaseTable)
      → P t
      → P (on_packet opts pkt now t).table
  on_packet-keeps none now t s = s
  on_packet-keeps (some pkt) now t s = handle_dhcp-keeps (handler_options opts) pkt P kept now t s

  pub serve-keeps : (received : List (Bytes × ℕ)) (t : LeaseTable) → P t → P (serve opts received t)
  unfolding serve on_message
  serve-keeps [] t s = s
  serve-keeps ((msg, now) ∷ rest) t s =
      serve-keeps rest _ (on_packet-keeps (parse_packet msg) now t s)
