-- ===== src/Policy/Mcp/Winning.antt =====
-- An MCP server's host is in no list once the collisions are resolved.
use susentorno.Base.{
  ◌≡◌, refl, sym, ◌∙◌, ap, subst, arith, true, false, not, ◌&&◌, List, [], ◌∷◌, any, String,
  same_text, if◌then◌else◌, Bool-cases, inl, inr,
}
use susentorno.Base.TextSets.{has_text, IsTextSet, same_text_test, same_text_sym}
use susentorno.Policy.Types.{Allowlist}
use susentorno.Base.Strings.{ends_with, rest_of}
use susentorno.Policy.Files.{ListFile, AuthListFile, is_wildcard}
use susentorno.Policy.Combine.{
  Section, passthrough, claude_authenticated, github_authenticated, codex_authenticated,
  auth_candidate, combine_policy,
}
use susentorno.Policy.Combine.Resolving.{same_section, among}
use susentorno.Policy.Combine.Sorting.{list_of}
use susentorno.Policy.Combine.Distinct.{either, combine_policy-IsTextSet}
use susentorno.Policy.Mcp.{
  McpServerConfig, remove_first, mcp_entry, set_list, warn, take_out, take_out_all,
  allowlist_sections, unblock, resolve_server, resolve_mcp_allowlist_collisions,
}

has-remove_first :
    (e x : String) (ts : List String)
    → IsTextSet ts
    → has_text e (remove_first x ts) ≡ (has_text e ts && not (same_text e x))
has-remove_first e x [] h = refl
has-remove_first e x (t ∷ ts) (q, h) = elim (Bool-cases (same_text x t)) [
  | inl y ↦
      let same = same_text_test (same_text e) x t y in
      elim (Bool-cases (same_text e t)) [
        | inl k ↦ let none = same_text_test (λ z. has_text z ts) e t k in rw y (ground arith)
        | inr k ↦ rw y (ground arith)
      ]
  | inr n ↦
      let r = has-remove_first e x ts h in
      elim (Bool-cases (same_text e t)) [
        | inl k ↦
            let other = same_text_test (same_text x) e t k in
            let turned = same_text_sym e x in rw n (ground arith)
        | inr k ↦ rw n (ground arith)
      ]
]

remove_first-IsTextSet :
    (x : String) (ts : List String) → IsTextSet ts → IsTextSet (remove_first x ts)
remove_first-IsTextSet x [] h = tt
remove_first-IsTextSet x (t ∷ ts) (q, h) = elim (Bool-cases (same_text x t)) [
  | inl y ↦ rw y h
  | inr n ↦ let e = has-remove_first t x ts h in rw n (ground arith, remove_first-IsTextSet x ts h)
]

AreSets : Allowlist → Type 0
AreSets a = (s : Section) → IsTextSet (list_of s a)

list_of-set_list :
    (s t : Section) (texts : List String) (a : Allowlist)
    → list_of s (set_list t texts a) ≡ (if same_section s t then texts else list_of s a)
list_of-set_list passthrough t texts a = ground arith
list_of-set_list claude_authenticated t texts a = ground arith
list_of-set_list github_authenticated t texts a = ground arith
list_of-set_list codex_authenticated t texts a = ground arith
list_of-set_list auth_candidate t texts a = ground arith

list_of-warn : (s : Section) (text : String) (a : Allowlist) → list_of s (warn text a) ≡ list_of s a
list_of-warn passthrough text a = refl
list_of-warn claude_authenticated text a = refl
list_of-warn github_authenticated text a = refl
list_of-warn codex_authenticated text a = refl
list_of-warn auth_candidate text a = refl

same_section→eq : (s t : Section) → same_section s t ≡ true → s ≡ t
same_section→eq passthrough t h = ground arith
same_section→eq claude_authenticated t h = ground arith
same_section→eq github_authenticated t h = ground arith
same_section→eq codex_authenticated t h = ground arith
same_section→eq auth_candidate t h = ground arith

-- One round changes the lists as deleting the entry from one section does.
list_of-take_out :
    (x : String) (s t : Section) (a : Allowlist)
    → has_text x (list_of t a) ≡ true
    → list_of s (take_out x t a)
      ≡ (if same_section s t then remove_first x (list_of t a) else list_of s a)
list_of-take_out x s t a y =
    rw y (list_of-warn s _ _ ∙ list_of-set_list s t (remove_first x (list_of t a)) a)

absent_entry :
    (e x : String) (s t : Section) (a : Allowlist)
    → has_text x (list_of t a) ≡ false
    → has_text e (list_of s a)
      ≡ (has_text e (list_of s a) && not (same_text e x && same_section s t))
absent_entry e x s t a n = elim (Bool-cases (same_text e x)) [
  | inl y ↦ elim (Bool-cases (same_section s t)) [
    | inl k ↦
        let one = same_text_test (λ z. has_text z (list_of s a)) e x y in
        let two = ap (λ u. has_text x (list_of u a)) (same_section→eq s t k) in ground arith
    | inr k ↦ ground arith
  ]
  | inr k ↦ ground arith
]

has-take_out :
    (e x : String) (s t : Section) (a : Allowlist)
    → AreSets a
    → has_text e (list_of s (take_out x t a))
      ≡ (has_text e (list_of s a) && not (same_text e x && same_section s t))
unfolding AreSets
has-take_out e x s t a h = elim (Bool-cases (has_text x (list_of t a))) [
  | inl y ↦ ap (has_text e) (list_of-take_out x s t a y) ∙ (elim (Bool-cases (same_section s t)) [
    | inl k ↦
        let same = ap (λ u. has_text e (list_of u a)) (same_section→eq s t k) in
        let r = has-remove_first e x (list_of t a) (h t) in rw k (ground arith)
    | inr k ↦ rw k (ground arith)
  ])
  | inr n ↦ rw n (absent_entry e x s t a n)
]

take_out-AreSets : (x : String) (t : Section) (a : Allowlist) → AreSets a → AreSets (take_out x t a)
unfolding AreSets
take_out-AreSets x t a h s = elim (Bool-cases (has_text x (list_of t a))) [
  | inl y ↦ subst IsTextSet (sym (list_of-take_out x s t a y)) (
      either (same_section s t) (remove_first x (list_of t a)) (list_of s a)
        (remove_first-IsTextSet x (list_of t a) (h t)) (h s))
  | inr n ↦ rw n (h s)
]

has-take_out_all :
    (e x : String) (s : Section) (sections : List Section) (a : Allowlist)
    → AreSets a
    → AreSets (take_out_all x sections a)
      × (has_text e (list_of s (take_out_all x sections a))
          ≡ (has_text e (list_of s a) && not (same_text e x && among s sections)))
has-take_out_all e x s [] a h = (h, ground arith)
has-take_out_all e x s (t ∷ sections) a h =
    let r = has-take_out_all e x s sections (take_out x t a) (take_out-AreSets x t a h) in
    let d = has-take_out e x s t a h in (r.0, r.1 ∙ ground arith)

among_all : (s : Section) → among s allowlist_sections ≡ true
among_all passthrough = refl
among_all claude_authenticated = refl
among_all github_authenticated = refl
among_all codex_authenticated = refl
among_all auth_candidate = refl

list_of-blocked :
    (s : Section) (texts : List String) (a : Allowlist)
    → list_of s (record a { blocked = texts }) ≡ list_of s a
list_of-blocked passthrough texts a = refl
list_of-blocked claude_authenticated texts a = refl
list_of-blocked github_authenticated texts a = refl
list_of-blocked codex_authenticated texts a = refl
list_of-blocked auth_candidate texts a = refl

list_of-unblock :
    (s : Section) (hostname : String) (a : Allowlist) → list_of s (unblock hostname a) ≡ list_of s a
list_of-unblock s hostname a =
    let wild =
      any (λ pattern. is_wildcard pattern && ends_with hostname (rest_of pattern)) a.blocked in
    elim (Bool-cases (has_text hostname a.blocked)) [
      | inl y ↦ rw y (list_of-warn s _ _ ∙ list_of-blocked s _ a)
      | inr n ↦ elim (Bool-cases wild) [
        | inl y ↦ rw (n, y) (list_of-warn s _ a)
        | inr n' ↦ rw (n, n') refl
      ]
    ]

unblock-AreSets : (hostname : String) (a : Allowlist) → AreSets a → AreSets (unblock hostname a)
unfolding AreSets
unblock-AreSets hostname a h s = subst IsTextSet (sym (list_of-unblock s hostname a)) (h s)

-- The list of a section, once the collisions with some servers are resolved.
has-resolve :
    (e : String) (s : Section) (servers : List McpServerConfig) (a : Allowlist)
    → AreSets a
    → has_text e (list_of s (resolve_mcp_allowlist_collisions a servers))
      ≡ (has_text e (list_of s a) && not (any (λ server. same_text e (mcp_entry server)) servers))
unfolding resolve_mcp_allowlist_collisions
has-resolve e s [] a h = ground arith
has-resolve e s (server ∷ servers) a h =
    let x = mcp_entry server in
    let out = take_out_all x allowlist_sections a in
    let d = has-take_out_all e x s allowlist_sections a h in
    let m = among_all s in
    let u = ap (has_text e) (list_of-unblock s server.hostname out) in
    has-resolve e s servers (resolve_server server a) (unblock-AreSets server.hostname out d.0)
    ∙ ap (λ b. b && not (any (λ other. same_text e (mcp_entry other)) servers)) (u ∙ d.1)
    ∙ ground arith

-- Resolving the collisions of a combined policy with MCP servers takes exactly the servers' own
-- entries, host name and port 443, out of each of its lists, and leaves every other entry.
pub has-resolve_mcp_allowlist_collisions :
    (a : ListFile) (u : AuthListFile) (b : ListFile) (servers : List McpServerConfig) (s : Section)
    (e : String)
    → has_text e (list_of s (resolve_mcp_allowlist_collisions (combine_policy a u b) servers)) ≡ (
        has_text e (list_of s (combine_policy a u b))
        && not (any (λ server. same_text e (mcp_entry server)) servers))
unfolding AreSets
has-resolve_mcp_allowlist_collisions a u b servers s e =
    has-resolve e s servers (combine_policy a u b) (combine_policy-IsTextSet a u b)
