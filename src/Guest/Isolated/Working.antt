-- ===== src/Guest/Isolated/Working.antt =====
-- No condition is unmet exactly when the isolated network works.
use susentorno.Base.{
  ℕ, ◌≡◌, ◌↔◌, inl, inr, refl, sym, ◌∙◌, arith, Bool, true, false, not, ◌&&◌, ◌||◌, List, [], ◌∷◌,
  ◌++◌, any, has, select, map, Some, any-Some, Some-any, String, same_text, same_text→eq,
  same_text_refl, ◌==◌, ==_iff, Bool-cases, subst,
}
use susentorno.Base.TextSets.{has_text, has_text-append}
use susentorno.Guest.Isolated.{
  Address, Route, DnsServers, IsolatedProbeFacts, IsolatedCondition, lease, gateway, dns, proxy,
  in_same_subnet, leased, leased_interfaces, flatten, configured, gateways, is_empty, when,
  evaluate_isolated_facts,
}

any-select {ℓ} :
    {A : Type ℓ} (p q : A → Bool) (xs : List A) → any p (select q xs) ≡ any (λ x. q x && p x) xs
any-select p q [] = refl
any-select p q (x ∷ xs) =
    let r = any-select p q xs in
    elim (Bool-cases (q x)) [ inl y ↦ rw y (ground arith) | inr n ↦ rw n r ]

is_empty-any : {A : Type 0} (xs : List A) → is_empty xs ≡ not (any (λ x. true) xs)
is_empty-any [] = refl
is_empty-any (x ∷ xs) = refl

has-map :
    (i : ℕ) (xs : List Address)
    → has i (map (λ a. a.interface_index) xs) ≡ any (λ a. i == a.interface_index) xs
has-map i [] = refl
has-map i (x ∷ xs) = let r = has-map i xs in ground arith

has_text-flatten :
    (h : String) (q : DnsServers → Bool) (ds : List DnsServers)
    → has_text h (flatten (select q ds)) ≡ any (λ d. q d && has_text h d.servers) ds
has_text-flatten h q [] = refl
has_text-flatten h q (d ∷ ds) =
    let r = has_text-flatten h q ds in
    let a = has_text-append h d.servers (flatten (select q ds)) in
    elim (Bool-cases (q d)) [ inl y ↦ rw y (a ∙ ground arith) | inr n ↦ rw n r ]

when_nil :
    (b : Bool) (c : IsolatedCondition) (rest : List IsolatedCondition)
    → (when b c ++ rest ≡ []) ↔ ((b ≡ false) × (rest ≡ []))
when_nil true c rest = (λ e. absurd cc, λ (b, r). absurd cc)
when_nil false c rest = (λ e. (refl, e), λ (b, r). r)

any_ext {ℓ} :
    {A : Type ℓ} {p q : A → Bool} (xs : List A) → ((x : A) → p x ≡ q x) → any p xs ≡ any q xs
any_ext [] h = refl
any_ext (x ∷ xs) h = let a = h x in let r = any_ext xs h in ground arith

and_true : (b : Bool) → (b && true) ≡ b
and_true b = ground arith

and_iff :
    {a b : Bool} {P Q : Type 0} → (a ≡ true) ↔ P → (b ≡ true) ↔ Q → ((a && b) ≡ true) ↔ (P × Q)
and_iff f g = (
  λ h. (f.0 (ground arith), g.0 (ground arith)),
  λ (p, q). let x = f.1 p in let y = g.1 q in ground arith,
)

when_only : (b : Bool) (c : IsolatedCondition) → (when b c ≡ []) ↔ (b ≡ false)
when_only true c = (λ e. absurd cc, λ e. absurd cc)
when_only false c = (λ e. refl, λ e. refl)

text_iff : (s t : String) → (same_text s t ≡ true) ↔ (s ≡ t)
text_iff s t =
    (λ y. same_text→eq s t y, λ e. subst (λ u. same_text s u ≡ true) e (same_text_refl s))

module _ (lower : String → String) (facts : IsolatedProbeFacts) (host_ip : String) where
  -- An address that DHCP gave, in the subnet of the host's address.
  abbrev pub IsLease : Address → Type 0
  IsLease a = (lower a.origin ≡ "dhcp") × (in_same_subnet a.address host_ip a.prefix_length ≡ true)

  -- The adapter with this index holds a lease.
  abbrev pub IsOnLeased : ℕ → Type 0
  IsOnLeased i = Some (λ a. IsLease a × (i ≡ a.interface_index)) facts.addresses

  -- There is a lease; the host is the gateway of a leased adapter, and the resolver of one, and
  -- answers a lookup; and the proxy accepts a connection.
  pub record IsWorking : Type 0 where
    pub has_lease : Some IsLease facts.addresses
    pub has_gateway : Some (λ r. IsOnLeased r.interface_index × (r.next_hop ≡ host_ip)) facts.routes
    pub has_resolver :
        Some
          (λ d. IsOnLeased d.interface_index × (has_text host_ip d.servers ≡ true))
          facts.dns_servers
    pub resolves : facts.lookup_ok ≡ true
    pub connects : facts.proxy_ok ≡ true

  abbrev lease_test : Address → Bool
  lease_test a =
      same_text (lower a.origin) "dhcp" && in_same_subnet a.address host_ip a.prefix_length

  IsLease-iff : (a : Address) → (lease_test a ≡ true) ↔ IsLease a
  IsLease-iff a =
      let t = text_iff (lower a.origin) "dhcp" in
      (λ h. (t.0 (ground arith), ground arith), λ (o, s). let y = t.1 o in ground arith)

  any-leased :
      (p : Address → Bool)
      → any p (leased lower facts host_ip) ≡ any (λ a. lease_test a && p a) facts.addresses
  any-leased p =
      any-select p (λ a. in_same_subnet a.address host_ip a.prefix_length)
        (select (λ a. same_text (lower a.origin) "dhcp") facts.addresses)
      ∙ any-select _ (λ a. same_text (lower a.origin) "dhcp") facts.addresses
      ∙ any_ext facts.addresses (λ a. ground arith)

  IsOnLeased-iff : (i : ℕ) → (has i (leased_interfaces lower facts host_ip) ≡ true) ↔ IsOnLeased i
  IsOnLeased-iff i =
      let test : Address → Bool = λ a. lease_test a && i == a.interface_index in
      let e = has-map i (leased lower facts host_ip) ∙ any-leased (λ a. i == a.interface_index) in
      let iff = λ (a : Address). and_iff (IsLease-iff a) (==_iff i a.interface_index) in
      (
        λ h. any-Some test iff facts.addresses (sym e ∙ h),
        λ h. e ∙ Some-any test iff facts.addresses h,
      )

  has-IsLease_iff : (is_empty (leased lower facts host_ip) ≡ false) ↔ Some IsLease facts.addresses
  has-IsLease_iff =
      let e = is_empty-any (leased lower facts host_ip) in
      let a : any (λ a. true) (leased lower facts host_ip) ≡ any lease_test facts.addresses =
        any-leased (λ a. true) ∙ any_ext facts.addresses (λ a. and_true (lease_test a)) in
      (
        λ h. any-Some lease_test IsLease-iff facts.addresses (ground arith),
        λ h. let y = Some-any lease_test IsLease-iff facts.addresses h in ground arith,
      )

  gateway_iff :
      (any (λ r. same_text r.next_hop host_ip) (gateways lower facts host_ip) ≡ true)
      ↔ Some (λ r. IsOnLeased r.interface_index × (r.next_hop ≡ host_ip)) facts.routes
  gateway_iff =
      let test : Route → Bool = λ r.
        has r.interface_index (leased_interfaces lower facts host_ip)
        && same_text r.next_hop host_ip in
      let e = any-select (λ r. same_text r.next_hop host_ip) _ facts.routes in
      let iff =
        λ (r : Route). and_iff (IsOnLeased-iff r.interface_index) (text_iff r.next_hop host_ip) in
      (λ h. any-Some test iff facts.routes (sym e ∙ h), λ h. e ∙ Some-any test iff facts.routes h)

  resolver_iff :
      (has_text host_ip (configured lower facts host_ip) ≡ true)
      ↔ Some
          (λ d. IsOnLeased d.interface_index × (has_text host_ip d.servers ≡ true))
          facts.dns_servers
  resolver_iff =
      let test : DnsServers → Bool = λ d.
        has d.interface_index (leased_interfaces lower facts host_ip)
        && has_text host_ip d.servers in
      let e = has_text-flatten host_ip _ facts.dns_servers in
      let iff = λ (d : DnsServers). and_iff (IsOnLeased-iff d.interface_index) (λ h. h, λ h. h) in
      (
        λ h. any-Some test iff facts.dns_servers (sym e ∙ h),
        λ h. e ∙ Some-any test iff facts.dns_servers h,
      )

  -- `evaluateIsolatedFacts` finds no unmet condition exactly when the isolated network works: some
  -- adapter holds a DHCP lease in the host's subnet, a leased adapter has the host as its gateway
  -- and one has it as its resolver, a lookup is answered, and the proxy accepts a connection.
  pub evaluate_isolated_facts_iff : (evaluate_isolated_facts lower facts host_ip ≡ []) ↔ IsWorking
  unfolding evaluate_isolated_facts
  evaluate_isolated_facts_iff =
      let no_gateway =
        not (any (λ r. same_text r.next_hop host_ip) (gateways lower facts host_ip)) in
      let no_resolver =
        not (has_text host_ip (configured lower facts host_ip)) || not facts.lookup_ok in
      let last : Bool = not facts.proxy_ok in
      let tail = when last proxy in
      let three = when_nil no_resolver dns tail in
      let two = when_nil no_gateway gateway (when no_resolver dns ++ tail) in
      let one =
        when_nil (is_empty (leased lower facts host_ip)) lease
          (when no_gateway gateway ++ (when no_resolver dns ++ tail)) in
      (
        λ e.
            let (a, e1) = one.0 e in
            let (b, e2) = two.0 e1 in
            let (c, e3) = three.0 e2 in
            let d = (when_only last proxy).0 e3 in
            record {
              has_lease = has-IsLease_iff.0 a;
              has_gateway = gateway_iff.0 (ground arith);
              has_resolver = resolver_iff.0 (ground arith);
              resolves = ground arith;
              connects = ground arith;
            },
        λ h.
            let a = has-IsLease_iff.1 h.has_lease in
            let b = gateway_iff.1 h.has_gateway in
            let c = resolver_iff.1 h.has_resolver in
            let x = h.resolves in
            let y = h.connects in
            one.1 (
              a,
              two.1 (ground arith, three.1 (ground arith, (when_only last proxy).1 (ground arith))),
            ),
      )
