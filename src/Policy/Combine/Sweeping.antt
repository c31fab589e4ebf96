-- ===== src/Policy/Combine/Sweeping.antt =====
-- What removing the blocked entries and pruning leave in each section.
use susentorno.Base.{
  ◌≡◌, ◌∙◌, ap, arith, Bool, true, not, ◌&&◌, List, [], ◌∷◌, String, same_text, Bool-cases, inl,
  inr,
}
use susentorno.Base.TextSets.{
  has_text, has_text-add_texts, has_text-select, has_text-delete_text, same_text_test,
}
use susentorno.Policy.Files.{host_of, is_kept, prune_passthrough}
use susentorno.Policy.Combine.{
  Section, passthrough, claude_authenticated, github_authenticated, codex_authenticated,
  auth_candidate, Sections, get, is_blocked, Swept, sweep_one, sweep, name_of, Combined,
  sweep_section, remove_blocked, prune,
}

abbrev pub is_blocked_entry : List String → String → Bool
is_blocked_entry patterns entry = is_blocked (host_of entry) patterns

has-sweep_one :
    (name : String) (patterns : List String) (x : String) (s : Swept) (e : String)
    → has_text e (sweep_one name patterns x s).texts
      ≡ (has_text e s.texts && not (same_text e x && is_blocked_entry patterns x))
has-sweep_one name patterns x s e =
    let d = has_text-delete_text e x s.texts in
    elim (Bool-cases (is_blocked_entry patterns x)) [
      | inl y ↦ rw y (d ∙ ground arith)
      | inr n ↦ rw n (ground arith)
    ]

has-sweep :
    (name : String) (patterns entries : List String) (s : Swept) (e : String)
    → has_text e (sweep name patterns entries s).texts
      ≡ (has_text e s.texts && not (has_text e entries && is_blocked_entry patterns e))
has-sweep name patterns [] s e = ground arith
has-sweep name patterns (x ∷ entries) s e =
    let d = has-sweep_one name patterns x s e in
    let r = has-sweep name patterns entries (sweep_one name patterns x s) e in
    elim (Bool-cases (same_text e x)) [
      | inl y ↦
          let same = same_text_test (is_blocked_entry patterns) e x y in
          r
          ∙ ap (λ b. b && not (has_text e entries && is_blocked_entry patterns e)) d
          ∙ ground arith
      | inr n ↦
          r
          ∙ ap (λ b. b && not (has_text e entries && is_blocked_entry patterns e)) d
          ∙ ground arith
    ]

swept :
    (name : String) (patterns xs warnings : List String) (e : String)
    → has_text e (sweep name patterns xs (record { texts = xs; warnings = warnings })).texts
      ≡ (has_text e xs && not (is_blocked_entry patterns e))
swept name patterns xs warnings e =
    has-sweep name patterns xs (record { texts = xs; warnings = warnings }) e ∙ ground arith

-- No blocked entry is left in any section, and nothing else has gone.
pub has-remove_blocked :
    (patterns : List String) (c : Combined) (s : Section) (e : String)
    → has_text e (get s (remove_blocked patterns c).sections)
      ≡ (has_text e (get s c.sections) && not (is_blocked_entry patterns e))
unfolding remove_blocked
has-remove_blocked patterns c passthrough e =
    swept (name_of passthrough) patterns (get passthrough c.sections) c.warnings e
has-remove_blocked patterns c claude_authenticated e =
    let c1 = sweep_section patterns passthrough c in
    swept (name_of claude_authenticated) patterns (get claude_authenticated c.sections) c1.warnings
      e
has-remove_blocked patterns c github_authenticated e =
    let c1 = sweep_section patterns passthrough c in
    let c2 = sweep_section patterns claude_authenticated c1 in
    swept (name_of github_authenticated) patterns (get github_authenticated c.sections) c2.warnings
      e
has-remove_blocked patterns c codex_authenticated e =
    let c1 = sweep_section patterns passthrough c in
    let c2 = sweep_section patterns claude_authenticated c1 in
    let c3 = sweep_section patterns github_authenticated c2 in
    swept (name_of codex_authenticated) patterns (get codex_authenticated c.sections) c3.warnings e
has-remove_blocked patterns c auth_candidate e =
    let c1 = sweep_section patterns passthrough c in
    let c2 = sweep_section patterns claude_authenticated c1 in
    let c3 = sweep_section patterns github_authenticated c2 in
    let c4 = sweep_section patterns codex_authenticated c3 in
    swept (name_of auth_candidate) patterns (get auth_candidate c.sections) c4.warnings e

-- Whether pruning keeps an entry in its section.
abbrev pub is_kept_in : Section → Sections → String → Bool
is_kept_in passthrough s e = is_kept s.passthrough_set e
is_kept_in _ s e = true

pub has-prune :
    (c : Combined) (s : Section) (e : String)
    → has_text e (get s (prune c).sections)
      ≡ (has_text e (get s c.sections) && is_kept_in s c.sections e)
has-prune c passthrough e =
    let xs = c.sections.passthrough_set in
    has_text-add_texts e (prune_passthrough xs) [] ∙ has_text-select (is_kept xs) e xs
has-prune c claude_authenticated e = ground arith
has-prune c github_authenticated e = ground arith
has-prune c codex_authenticated e = ground arith
has-prune c auth_candidate e = ground arith
