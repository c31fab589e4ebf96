-- ===== src/Dhcp/Handler/Histories.antt =====
-- What holds after any sequence of datagrams.
use susentorno.Base.{
  ℕ, ◌≡◌, ◌≢◌, refl, ap, ◌∙◌, true, Option, none, some, List, arith, has, inl, inr,
}
use susentorno.Bytes.{Bytes}
use susentorno.Dhcp.Ip.{Ip, ip_to_int}
use susentorno.Dhcp.Leases.{
  Identity, LeaseTableOptions, LeaseTable, nak, acquire, request, release, decline, assign,
  drop_lease, existing, grant, chosen, empty_table,
}
use susentorno.Dhcp.Leases.Sound.{
  IsPool, IsSound, acquire-IsSound, request-IsSound, release-IsSound, decline-IsSound,
  request-cases, empty_table-IsSound,
}
use susentorno.Dhcp.Leases.Granting.{acquire-IsGranted}
use susentorno.Dhcp.Handler.Server.{DhcpServerOptions, table_options, serve}
use susentorno.Dhcp.Handler.Keeps.{IsKept, serve-keeps}

IsSound-IsKept : (opts : LeaseTableOptions) → IsPool opts → IsKept opts (IsSound opts)
IsSound-IsKept opts pool = record {
  acquire_keeps = acquire-IsSound opts pool;
  request_keeps = request-IsSound opts pool;
  release_keeps = release-IsSound opts pool;
  decline_keeps = decline-IsSound opts pool;
}

module _ (opts : LeaseTableOptions) where
  grant-declined :
      (picked : Option ℕ) (identity : Identity) (now : ℕ) (t : LeaseTable)
      → (grant opts picked identity now t).1.declined ≡ t.declined
  unfolding assign
  grant-declined none identity now t = refl
  grant-declined (some addr) identity now t = refl

  acquire-declined :
      (identity : Identity) (now : ℕ) (t : LeaseTable)
      → (acquire opts identity now t).1.declined ≡ t.declined
  unfolding acquire
  acquire-declined identity now t =
      grant-declined (chosen opts identity now t (existing opts identity now t)) identity now t

  request-declined :
      IsPool opts
      → (identity : Identity) (ip : Ip) (now : ℕ) (t : LeaseTable)
      → (request opts identity ip now t).1.declined ≡ t.declined
  unfolding assign
  request-declined pool identity ip now t = elim (request-cases opts pool identity ip now t) [
    | inl (e, _, _) ↦ rw e refl
    | inr e ↦ rw e refl
  ]

  release-declined :
      (identity : Identity) (now : ℕ) (t : LeaseTable)
      → (release opts identity now t).declined ≡ t.declined
  unfolding release
  release-declined identity now t = drop_lease-declined (existing opts identity now t)
    where
      drop_lease-declined : (found : Option ℕ) → (drop_lease opts found t).declined ≡ t.declined
      drop_lease-declined none = refl
      drop_lease-declined (some addr) = refl

  abbrev IsDeclined : ℕ → LeaseTable → Type 0
  IsDeclined addr t = has addr t.declined ≡ true

  decline-IsDeclined : (ip : Ip) (t : LeaseTable) → IsDeclined (ip_to_int ip) (decline opts ip t)
  unfolding decline
  decline-IsDeclined ip t = ground arith

  IsDeclined-IsKept : IsPool opts → (addr : ℕ) → IsKept opts (IsDeclined addr)
  unfolding decline
  IsDeclined-IsKept pool addr = record {
    acquire_keeps = λ identity now t h. ap (has addr) (acquire-declined identity now t) ∙ h;
    request_keeps =
        λ identity ip now t h. ap (has addr) (request-declined pool identity ip now t) ∙ h;
    release_keeps = λ identity now t h. ap (has addr) (release-declined identity now t) ∙ h;
    decline_keeps = λ ip t h. ground arith;
  }

module _ (opts : DhcpServerOptions) where
  -- Whatever datagrams arrive, the server's table stays sound: each lease is on an address of the
  -- pool that is neither the host's nor declined, and no address is leased twice.
  pub serve-IsSound :
      (received : List (Bytes × ℕ))
      → IsPool (table_options opts)
      → IsSound (table_options opts) (serve opts received empty_table)
  serve-IsSound received pool =
      serve-keeps opts _ (IsSound-IsKept (table_options opts) pool) received empty_table
        (empty_table-IsSound (table_options opts))

  -- Once an address has been declined, no later sequence of datagrams leads to a table from which
  -- it is offered or acknowledged to any client.
  pub serve-decline :
      (ip : Ip) (t : LeaseTable) (later : List (Bytes × ℕ)) (identity : Identity) (now : ℕ)
      → IsPool (table_options opts)
      → IsSound (table_options opts) t
      → let t' = serve opts later (decline (table_options opts) ip t) in
        ((acquire (table_options opts) identity now t').0 ≢ some ip)
        × ((request (table_options opts) identity ip now t').0 ≡ nak)
  serve-decline ip t later identity now pool s =
      let o = table_options opts in
      let addr = ip_to_int ip in
      let sound =
        serve-keeps opts (IsSound o) (IsSound-IsKept o pool) later (decline o ip t)
          (decline-IsSound o pool ip t s) in
      let gone =
        serve-keeps opts (IsDeclined o addr) (IsDeclined-IsKept o pool addr) later (decline o ip t)
          (decline-IsDeclined o ip t) in
      (
        λ e.
            let g =
              acquire-IsGranted o pool identity now (serve opts later (decline o ip t)) ip sound
                e in
            cc (gone, g.leasable.not_declined),
        elim (request-cases o pool identity ip now (serve opts later (decline o ip t))) [
          | inl (_, l, _) ↦ absurd (cc (gone, l.not_declined))
          | inr e ↦ ap (λ p. p.0) e
        ],
      )
