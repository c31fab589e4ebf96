-- ===== src/Policy/Combine/Resolving.antt =====
-- A collision takes an entry out of every section but the first, in order of priority, that has it.
use susentorno.Base.{
  ◌≡◌, refl, sym, ◌∙◌, ap, arith, Bool, true, false, not, ◌&&◌, ◌||◌, List, [], ◌∷◌, select, String,
  same_text, Bool-cases, inl, inr,
}
use susentorno.Base.TextSets.{has_text, delete_text, has_text-delete_text, same_text_test}
use susentorno.Policy.Combine.{
  Section, passthrough, claude_authenticated, github_authenticated, codex_authenticated,
  auth_candidate, Sections, get, set, by_priority, present_in, delete_from, Combined, settle,
  resolve_entries,
}

abbrev pub same_section : Section → Section → Bool
same_section passthrough passthrough = true
same_section claude_authenticated claude_authenticated = true
same_section github_authenticated github_authenticated = true
same_section codex_authenticated codex_authenticated = true
same_section auth_candidate auth_candidate = true
same_section _ _ = false

abbrev pub among : Section → List Section → Bool
among s [] = false
among s (t ∷ ts) = same_section s t || among s ts

abbrev pub losers_of : List Section → List Section
losers_of [] = []
losers_of (winner ∷ losers) = losers

-- Whether a section of a higher priority passes a test.
abbrev pub any_higher : (Section → Bool) → Section → Bool
any_higher p auth_candidate = false
any_higher p github_authenticated = p auth_candidate
any_higher p codex_authenticated = p auth_candidate || p github_authenticated
any_higher p claude_authenticated =
    p auth_candidate || (p github_authenticated || p codex_authenticated)
any_higher p passthrough =
    p auth_candidate
    || (p github_authenticated || (p codex_authenticated || p claude_authenticated))

among-losers :
    (p : Section → Bool) (s : Section)
    → among s (losers_of (select p by_priority)) ≡ (p s && any_higher p s)
among-losers p passthrough = ground arith
among-losers p claude_authenticated = ground arith
among-losers p github_authenticated = ground arith
among-losers p codex_authenticated = ground arith
among-losers p auth_candidate = ground arith

has-delete_one :
    (e x : String) (s loser : Section) (sections : Sections)
    → has_text e (get s (set loser (delete_text x (get loser sections)) sections))
      ≡ (has_text e (get s sections) && not (same_text e x && same_section s loser))
has-delete_one e x passthrough loser sections =
    let d = has_text-delete_text e x (get passthrough sections) in ground arith
has-delete_one e x claude_authenticated loser sections =
    let d = has_text-delete_text e x (get claude_authenticated sections) in ground arith
has-delete_one e x github_authenticated loser sections =
    let d = has_text-delete_text e x (get github_authenticated sections) in ground arith
has-delete_one e x codex_authenticated loser sections =
    let d = has_text-delete_text e x (get codex_authenticated sections) in ground arith
has-delete_one e x auth_candidate loser sections =
    let d = has_text-delete_text e x (get auth_candidate sections) in ground arith

has-delete_from :
    (e x : String) (s : Section) (losers : List Section) (sections : Sections)
    → has_text e (get s (delete_from x losers sections))
      ≡ (has_text e (get s sections) && not (same_text e x && among s losers))
has-delete_from e x s [] sections = ground arith
has-delete_from e x s (loser ∷ losers) sections =
    let d = has-delete_one e x s loser sections in
    let r =
      has-delete_from e x s losers (set loser (delete_text x (get loser sections)) sections) in
    ground arith

-- Settling one entry deletes it from the losers, of which there may be none.
pub settle_sections :
    (x : String) (present : List Section) (c : Combined)
    → (settle x present c).sections ≡ delete_from x (losers_of present) c.sections
settle_sections x [] c = refl
settle_sections x (winner ∷ []) c = refl
settle_sections x (winner ∷ (loser ∷ losers)) c = refl

-- Which sections have an entry.
abbrev pub has_in : Sections → String → Section → Bool
has_in sections e s = has_text e (get s sections)

abbrev resolve_one : String → Combined → Combined
resolve_one x c = settle x (present_in x c.sections by_priority) c

has-resolve_one :
    (e x : String) (c : Combined) (s : Section)
    → has_in (resolve_one x c).sections e s
      ≡ (has_in c.sections e s && not (same_text e x && any_higher (has_in c.sections e) s))
has-resolve_one e x c s =
    let present = present_in x c.sections by_priority in
    let q = ap (λ sections. has_in sections e s) (settle_sections x present c) in
    let d = has-delete_from e x s (losers_of present) c.sections in
    let a = among-losers (has_in c.sections x) s in
    elim (Bool-cases (same_text e x)) [
      | inl y ↦
          let higher =
            same_text_test (λ z. has_in c.sections z s && any_higher (has_in c.sections z) s) e x
              y in
          q
          ∙ d
          ∙ ap (λ b. has_in c.sections e s && not (same_text e x && b)) (a ∙ sym higher)
          ∙ ground arith
      | inr n ↦ q ∙ d ∙ ground arith
    ]

-- Two rounds settle what one round with both entries does.
settled_twice :
    (p q : Section → Bool) (here later : Bool)
    → ((s : Section) → q s ≡ (p s && not (here && any_higher p s)))
    → (s : Section)
    → (q s && not (later && any_higher q s)) ≡ (p s && not ((here || later) && any_higher p s))
settled_twice p q here later h passthrough =
    let a = h passthrough in
    let b = h claude_authenticated in
    let c = h github_authenticated in
    let d = h codex_authenticated in let e = h auth_candidate in ground arith
settled_twice p q here later h claude_authenticated =
    let a = h passthrough in
    let b = h claude_authenticated in
    let c = h github_authenticated in
    let d = h codex_authenticated in let e = h auth_candidate in ground arith
settled_twice p q here later h github_authenticated =
    let a = h passthrough in
    let b = h claude_authenticated in
    let c = h github_authenticated in
    let d = h codex_authenticated in let e = h auth_candidate in ground arith
settled_twice p q here later h codex_authenticated =
    let a = h passthrough in
    let b = h claude_authenticated in
    let c = h github_authenticated in
    let d = h codex_authenticated in let e = h auth_candidate in ground arith
settled_twice p q here later h auth_candidate =
    let a = h passthrough in
    let b = h claude_authenticated in
    let c = h github_authenticated in
    let d = h codex_authenticated in let e = h auth_candidate in ground arith

pub has-resolve_entries :
    (e : String) (entries : List String) (c : Combined) (s : Section)
    → has_in (resolve_entries entries c).sections e s
      ≡ (has_in c.sections e s && not (has_text e entries && any_higher (has_in c.sections e) s))
has-resolve_entries e [] c s = ground arith
has-resolve_entries e (x ∷ entries) c s =
    let h = has-resolve_one e x c in
    has-resolve_entries e entries (resolve_one x c) s
    ∙ settled_twice (has_in c.sections e) (has_in (resolve_one x c).sections e) (same_text e x)
        (has_text e entries) h s
