-- ===== src/Policy/Combine/Distinct.antt =====
-- The lists of the combined policy are sets.
use susentorno.Base.{
  ◌≡◌, sym, arith, Bool, true, false, List, [], ◌∷◌, String, subst, same_text, if◌then◌else◌, not,
}
use susentorno.Base.TextSets.{
  add_texts, delete_text, IsTextSet, IsTextSet-add_texts, IsTextSet-select,
}
use susentorno.Policy.Files.{ListFile, AuthListFile, host_of, prune_passthrough}
use susentorno.Policy.Combine.{
  Section, passthrough, claude_authenticated, github_authenticated, codex_authenticated,
  auth_candidate, Sections, get, set, is_blocked, Swept, sweep_one, sweep, name_of, Combined,
  sweep_section, remove_blocked, prune, starting, delete_from, present_in, by_priority, settle,
  resolve_entries, all_entries, combine_policy,
}
use susentorno.Policy.Combine.Resolving.{same_section, losers_of, settle_sections}
use susentorno.Policy.Combine.Sorting.{list_of}

AreSets : Sections → Type 0
AreSets s = (section : Section) → IsTextSet (get section s)

get-set :
    (s t : Section) (texts : List String) (sections : Sections)
    → get s (set t texts sections) ≡ (if same_section s t then texts else get s sections)
get-set passthrough t texts sections = ground arith
get-set claude_authenticated t texts sections = ground arith
get-set github_authenticated t texts sections = ground arith
get-set codex_authenticated t texts sections = ground arith
get-set auth_candidate t texts sections = ground arith

pub either :
    (b : Bool) (xs ys : List String)
    → IsTextSet xs
    → IsTextSet ys
    → IsTextSet (if b then xs else ys)
either true xs ys h k = h
either false xs ys h k = k

set-AreSets :
    (t : Section) (texts : List String) (sections : Sections)
    → IsTextSet texts
    → AreSets sections
    → AreSets (set t texts sections)
unfolding AreSets
set-AreSets t texts sections h k s =
    subst IsTextSet (sym (get-set s t texts sections))
      (either (same_section s t) texts (get s sections) h (k s))

swept_one :
    (b : Bool) (s t : Swept)
    → IsTextSet s.texts
    → IsTextSet t.texts
    → IsTextSet (if b then s else t).texts
swept_one true s t h k = h
swept_one false s t h k = k

sweep_one-IsTextSet :
    (name : String) (patterns : List String) (x : String) (s : Swept)
    → IsTextSet s.texts
    → IsTextSet (sweep_one name patterns x s).texts
sweep_one-IsTextSet name patterns x s h =
    swept_one (is_blocked (host_of x) patterns) _ s
      (IsTextSet-select (λ t. not (same_text t x)) s.texts h) h

sweep-IsTextSet :
    (name : String) (patterns entries : List String) (s : Swept)
    → IsTextSet s.texts
    → IsTextSet (sweep name patterns entries s).texts
sweep-IsTextSet name patterns [] s h = h
sweep-IsTextSet name patterns (x ∷ entries) s h =
    sweep-IsTextSet name patterns entries (sweep_one name patterns x s)
      (sweep_one-IsTextSet name patterns x s h)

sweep_section-AreSets :
    (patterns : List String) (t : Section) (c : Combined)
    → AreSets c.sections
    → AreSets (sweep_section patterns t c).sections
unfolding AreSets
sweep_section-AreSets patterns t c h =
    set-AreSets t _ c.sections
      (sweep-IsTextSet (name_of t) patterns (get t c.sections)
        (record { texts = get t c.sections; warnings = c.warnings }) (h t))
      h

remove_blocked-AreSets :
    (patterns : List String) (c : Combined)
    → AreSets c.sections
    → AreSets (remove_blocked patterns c).sections
unfolding remove_blocked
remove_blocked-AreSets patterns c h = sweep_section-AreSets patterns auth_candidate _ (
    sweep_section-AreSets patterns codex_authenticated _ (
      sweep_section-AreSets patterns github_authenticated _ (
        sweep_section-AreSets patterns claude_authenticated _
          (sweep_section-AreSets patterns passthrough c h))))

prune-AreSets : (c : Combined) → AreSets c.sections → AreSets (prune c).sections
prune-AreSets c h =
    let texts = add_texts (prune_passthrough c.sections.passthrough_set) [] in
    set-AreSets passthrough texts c.sections
      (IsTextSet-add_texts (prune_passthrough c.sections.passthrough_set) [] tt) h

delete_from-AreSets :
    (x : String) (losers : List Section) (sections : Sections)
    → AreSets sections
    → AreSets (delete_from x losers sections)
unfolding AreSets
delete_from-AreSets x [] sections h = h
delete_from-AreSets x (loser ∷ losers) sections h = delete_from-AreSets x losers _ (
    set-AreSets loser (delete_text x (get loser sections)) sections
      (IsTextSet-select (λ t. not (same_text t x)) (get loser sections) (h loser)) h)

resolve_entries-AreSets :
    (entries : List String) (c : Combined)
    → AreSets c.sections
    → AreSets (resolve_entries entries c).sections
resolve_entries-AreSets [] c h = h
resolve_entries-AreSets (x ∷ entries) c h =
    let present = present_in x c.sections by_priority in
    resolve_entries-AreSets entries (settle x present c) (
      subst AreSets (sym (settle_sections x present c))
        (delete_from-AreSets x (losers_of present) c.sections h))

starting-AreSets :
    (a : ListFile) (u : AuthListFile) (b : ListFile) → AreSets (starting a u b).sections
unfolding AreSets
starting-AreSets a u b passthrough = IsTextSet-add_texts a.entries [] tt
starting-AreSets a u b claude_authenticated = IsTextSet-add_texts u.claude_authenticated [] tt
starting-AreSets a u b github_authenticated = IsTextSet-add_texts u.github_authenticated [] tt
starting-AreSets a u b codex_authenticated = IsTextSet-add_texts u.codex_authenticated [] tt
starting-AreSets a u b auth_candidate = IsTextSet-add_texts u.auth_candidate [] tt

resolved-AreSets :
    (a : ListFile) (u : AuthListFile) (b : ListFile)
    → let pruned = prune (remove_blocked b.entries (starting a u b)) in
      AreSets (resolve_entries (all_entries pruned.sections) pruned).sections
resolved-AreSets a u b =
    let start = starting a u b in
    let pruned = prune (remove_blocked b.entries start) in
    resolve_entries-AreSets (all_entries pruned.sections) pruned (
      prune-AreSets (remove_blocked b.entries start)
        (remove_blocked-AreSets b.entries start (starting-AreSets a u b)))

pub combine_policy-IsTextSet :
    (a : ListFile) (u : AuthListFile) (b : ListFile) (s : Section)
    → IsTextSet (list_of s (combine_policy a u b))
unfolding combine_policy AreSets
combine_policy-IsTextSet a u b passthrough = resolved-AreSets a u b passthrough
combine_policy-IsTextSet a u b claude_authenticated = resolved-AreSets a u b claude_authenticated
combine_policy-IsTextSet a u b github_authenticated = resolved-AreSets a u b github_authenticated
combine_policy-IsTextSet a u b codex_authenticated = resolved-AreSets a u b codex_authenticated
combine_policy-IsTextSet a u b auth_candidate = resolved-AreSets a u b auth_candidate
