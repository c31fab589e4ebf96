-- ===== src/Dhcp/Handler/Promises.antt =====
-- What a client may conclude from the reply to a DISCOVER and to a REQUEST.
use susentorno.Base.{
  ◌^◌, ◌<◌, ◌≤◌, arith, length, ℕ, ◌≡◌, refl, ap, subst, ◌∙◌, true, false, lookup, Option, none,
  some, Bool-cases, inl, inr, ◌⊎◌,
}
use susentorno.Dhcp.Ip.{Ip, same_ip, ip_to_int}
use susentorno.Dhcp.Ip.Laws.{same_ip_refl}
use susentorno.Dhcp.Leases.{
  Identity, LeaseTable, Verdict, ack, nak, acquire, release, held_by_other,
}
use susentorno.Dhcp.Leases.Sound.{IsPool, IsSound, request-cases, request-refused, IsLeasable}
use susentorno.Dhcp.Leases.Granting.{
  IsGranted, acquire-IsGranted, request-IsGranted, granted-request,
}
use susentorno.Bytes.{Bytes}
use susentorno.Dhcp.Message.{
  BuildReplyInput, fits, print_reply, build_reply, DhcpPacket, client_identity, requested_address,
  server_identifier,
}
use susentorno.Dhcp.Message.Kind
use susentorno.Dhcp.Handler.Keeps.{on_acquired-table}
use susentorno.Dhcp.Handler.{
  DhcpReply, DhcpHandlerOptions, Handled, handle_dhcp, on_acquired, on_verdict, on_wanted,
  on_discover, on_request, chose_other, wanted_address, zero_ip, reply, answer, silent, warned,
  exhausted,
}

-- The packet came from the client itself, and has this message type.
abbrev pub IsDirect : DhcpPacket → ℕ → Type 0
IsDirect pkt type = (same_ip pkt.giaddr zero_ip ≡ true) × (pkt.message_type ≡ type)

-- The fields of a packet that a reply writes fit their places.
pub record IsWritable (pkt : DhcpPacket) : Type 0 where
  pub xid_word : pkt.xid < 2 ^ 32
  pub flags_word : pkt.flags < 2 ^ 16
  pub chaddr_short : length pkt.chaddr ≤ 16

module _ (opts : DhcpHandlerOptions) where
  pub handle_discover :
      (pkt : DhcpPacket) (now : ℕ) (t : LeaseTable)
      → IsDirect pkt Kind.discover
      → handle_dhcp opts pkt now t
        ≡ on_acquired opts pkt (acquire opts.leases (client_identity pkt) now t)
  unfolding handle_dhcp on_discover
  handle_discover pkt now t (g, m) = rw (g, m) refl

  pub handle_request :
      (pkt : DhcpPacket) (now : ℕ) (t : LeaseTable)
      → IsDirect pkt Kind.request
      → handle_dhcp opts pkt now t ≡ on_request opts pkt now t
  unfolding handle_dhcp
  handle_request pkt now t (g, m) = rw (g, m) refl

  on_acquired-cases :
      (pkt : DhcpPacket) (r : Option Ip × LeaseTable)
      → ((ip : Ip) × (r.0 ≡ some ip) × (on_acquired opts pkt r ≡ answer opts pkt r.1 Kind.offer ip))
        ⊎ ((r.0 ≡ none) × (on_acquired opts pkt r ≡ warned r.1 (exhausted (client_identity pkt))))
  on_acquired-cases pkt (none, t) = inr (refl, refl)
  on_acquired-cases pkt (some ip, t) = inl (ip, refl, refl)

  module _ (pool : IsPool opts.leases) where
    -- The four outcomes of a REQUEST: for another server; and for this one with no address, with an
    -- address that cannot be leased or that another client holds, and with one that is granted.
    pub data RequestOutcome (pkt : DhcpPacket) (now : ℕ) (t : LeaseTable) (h : Handled)
        : Type 0 where
      elsewhere :
          chose_other (server_identifier pkt) opts.host_ip ≡ true
          → h ≡ silent (release opts.leases (client_identity pkt) now t)
          → RequestOutcome pkt now t h
      unaddressed :
          chose_other (server_identifier pkt) opts.host_ip ≡ false
          → wanted_address pkt (requested_address pkt) ≡ none
          → h ≡ answer opts pkt t Kind.nak zero_ip
          → RequestOutcome pkt now t h
      refused :
          (wanted : Ip)
          → chose_other (server_identifier pkt) opts.host_ip ≡ false
          → wanted_address pkt (requested_address pkt) ≡ some wanted
          → (IsLeasable opts.leases t.declined (ip_to_int wanted) → ⊥)
            ⊎ (held_by_other opts.leases
                  (client_identity pkt)
                  now
                  (lookup (ip_to_int wanted) t.leases)
                ≡ true)
          → h ≡ answer opts pkt t Kind.nak zero_ip
          → RequestOutcome pkt now t h
      acknowledged :
          (wanted : Ip)
          → chose_other (server_identifier pkt) opts.host_ip ≡ false
          → wanted_address pkt (requested_address pkt) ≡ some wanted
          → h ≡ answer opts pkt h.table Kind.ack wanted
          → IsGranted opts.leases (client_identity pkt) now (ip_to_int wanted) t h.table
          → RequestOutcome pkt now t h

    on_wanted-outcome :
        (pkt : DhcpPacket) (now : ℕ) (t : LeaseTable) (w : Option Ip)
        → chose_other (server_identifier pkt) opts.host_ip ≡ false
        → wanted_address pkt (requested_address pkt) ≡ w
        → RequestOutcome pkt now t (on_wanted opts pkt w now t)
    on_wanted-outcome pkt now t none ours e = unaddressed ours e refl
    on_wanted-outcome pkt now t (some ip) ours e =
        elim (request-cases opts.leases pool (client_identity pkt) ip now t) [
          | inl (eq, l, h) ↦
              let granted =
                request-IsGranted opts.leases pool (client_identity pkt) now t ip
                  (ap (λ p. p.0) eq) in
              let table = ap (λ p. p.1) eq in
              rw eq (
                acknowledged ip ours e refl (
                  subst (IsGranted opts.leases (client_identity pkt) now (ip_to_int ip) t) table
                    granted))
          | inr eq ↦
              let why =
                request-refused opts.leases pool (client_identity pkt) ip now t
                  (ap (λ p. p.0) eq) in
              rw eq (refused ip ours e why refl)
        ]

    -- A REQUEST for another server releases the client's lease and is not answered. One for this
    -- server is a NAK that changes nothing when it names no address, or names one that cannot be
    -- leased or that another client holds; any other is an ACK of an address granted to the client,
    -- unless buildReply throws.
    pub handle_request-outcome :
        (pkt : DhcpPacket) (now : ℕ) (t : LeaseTable)
        → IsDirect pkt Kind.request
        → RequestOutcome pkt now t (handle_dhcp opts pkt now t)
    unfolding on_request
    handle_request-outcome pkt now t d =
        rw (handle_request pkt now t d)
          (elim (Bool-cases (chose_other (server_identifier pkt) opts.host_ip)) [
            | inl y ↦ rw y (elsewhere y refl)
            | inr n ↦ rw n (on_wanted-outcome pkt now t _ n refl)
          ])

    offered :
        (pkt : DhcpPacket) (acquired : Option Ip × LeaseTable) {r : DhcpReply}
        → (on_acquired opts pkt acquired).reply ≡ some r
        → (ip : Ip) × (r ≡ reply opts pkt Kind.offer ip) × (acquired.0 ≡ some ip)
    offered pkt (none, t) e = cc
    offered pkt (some ip, t) e = (ip, cc, refl)

    verdict_ack :
        (pkt : DhcpPacket) (wanted : Ip) (v : Verdict × LeaseTable)
        → v.0 ≡ ack
        → (on_verdict opts pkt wanted v).reply ≡ some (reply opts pkt Kind.ack wanted)
    verdict_ack pkt wanted (ack, t) e = refl
    verdict_ack pkt wanted (nak, t) e = cc

    -- The client of a granted address is acknowledged when it asks this server for it.
    granted-handle_request :
        (q : DhcpPacket) (identity : Identity) (now now' : ℕ) (ip : Ip) (t t' : LeaseTable)
        → IsGranted opts.leases identity now (ip_to_int ip) t t'
        → client_identity q ≡ identity
        → IsDirect q Kind.request
        → requested_address q ≡ some ip
        → server_identifier q ≡ some opts.host_ip
        → (handle_dhcp opts q now' t').reply ≡ some (reply opts q Kind.ack ip)
    unfolding on_request
    granted-handle_request q identity now now' ip t t' g same d wanted server =
        rw (handle_request q now' t' d) (
          rw (server, wanted)
            (rw (same_ip_refl opts.host_ip) (
              verdict_ack q ip _
                (rw same (granted-request opts.leases pool identity now now' ip t t' g)))))

    reply-IsWritten :
        (q : DhcpPacket) (type : ℕ) (ip : Ip)
        → opts.lease_seconds < 2 ^ 32
        → IsWritable q
        → (buffer : Bytes) × ((reply opts q type ip).buffer ≡ some buffer)
    unfolding build_reply
    reply-IsWritten q type ip l w =
        let i : BuildReplyInput = record {
          request = q;
          message_type = type;
          yiaddr = ip;
          host_ip = opts.host_ip;
          netmask = opts.netmask;
          lease_seconds = opts.lease_seconds;
        } in
        let ok : fits i ≡ true = ground (arith, w) in (print_reply i, rw ok refl)

    -- With lease seconds of 32 bits, an offer names an address that is granted to the client. When
    -- the next datagram that is handled is a REQUEST of the same client to this server for that
    -- address, it is answered with an ACK of it, which buildReply writes, at whatever time it comes.
    pub offer-request-ack :
        (d : DhcpPacket) (now : ℕ) (t : LeaseTable) {r : DhcpReply}
        → opts.lease_seconds < 2 ^ 32
        → IsDirect d Kind.discover
        → IsSound opts.leases t
        → (handle_dhcp opts d now t).reply ≡ some r
        → let t' = (handle_dhcp opts d now t).table in
          (ip : Ip) × (r ≡ reply opts d Kind.offer ip)
          × IsGranted opts.leases (client_identity d) now (ip_to_int ip) t t'
          × ((q : DhcpPacket) (now' : ℕ)
              → client_identity q ≡ client_identity d
              → IsWritable q
              → IsDirect q Kind.request
              → requested_address q ≡ some ip
              → server_identifier q ≡ some opts.host_ip
              → ((handle_dhcp opts q now' t').reply ≡ some (reply opts q Kind.ack ip))
                × ((buffer : Bytes) × ((reply opts q Kind.ack ip).buffer ≡ some buffer)))
    offer-request-ack d now t {r} seconds direct s e =
        let id = client_identity d in
        let acquired = acquire opts.leases id now t in
        let handled = handle_discover d now t direct in
        let (ip, same, got) = offered d acquired (rw handled at e) in
        let table = ap (λ (h : Handled). h.table) handled ∙ on_acquired-table opts d acquired in
        let g : IsGranted opts.leases id now (ip_to_int ip) t (handle_dhcp opts d now t).table =
          rw table (acquire-IsGranted opts.leases pool id now t ip s got) in
        (
          ip,
          same,
          g,
          λ q now' who fit asks wanted server. (
            granted-handle_request q id now now' ip t _ g who asks wanted server,
            reply-IsWritten q Kind.ack ip seconds fit,
          ),
        )
