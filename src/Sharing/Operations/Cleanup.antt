-- ===== src/Sharing/Operations/Cleanup.antt =====
-- Cleanup settles every entry that was written and never verified, and leaves the others alone.
use susentorno.Base.{
  ℕ, ◌≡◌, ◌⊎◌, inl, inr, refl, sym, ◌∙◌, ap, subst, arith, Bool, true, false, ◌&&◌, ◌||◌, Option,
  none, some, List, [], ◌∷◌, String, ◌==◌, if◌then◌else◌, Bool-cases,
}
use susentorno.Guest.Executor.{Invocation}
use susentorno.Sharing.Ledger.{
  Status, written, verified, removed, removal_failed, Ledger, mark_removed, set_status, Target,
  mark_removal_failed, mark_connection_closed,
}
use susentorno.Sharing.Operations.Items.{removable, removable-cleanup_items}
use susentorno.Sharing.Ledger.Laws.{
  IsSound, status_at, set_existing, status_at-set_status, is_unverified,
}
use susentorno.Sharing.Verdict.{Candidate, Verdict, is_text}
use susentorno.Sharing.Operations.{
  CleanupItem, Script, Result, ok, threw, Session, cleanup_items, fail_one, fail_all, Found, found,
  missing, found_null, find_result, removed_one, mark_result, is_found_null, mark_results,
  after_loop, settle_cleanup, run_script, other_failure, cleanup_drained, cleanup_with, cleanup,
}

-- How the status of an address changes when it is to be removed, and when it is not.
abbrev pub After : Bool → Option Status → Option Status → Type 0
After false o p = p ≡ o
After true o p = (p ≡ set_existing removed o) ⊎ (p ≡ set_existing removal_failed o)

set_twice :
    (x y : Status) (o : Option Status) → set_existing x (set_existing y o) ≡ set_existing x o
set_twice x y none = refl
set_twice x y (some z) = refl

After-trans : (a b : Bool) (o p q : Option Status) → After a o p → After b p q → After (a || b) o q
After-trans false false o p q h k = k ∙ h
After-trans true false o p q (inl e) k = inl (k ∙ e)
After-trans true false o p q (inr e) k = inr (k ∙ e)
After-trans false true o p q h (inl k) = inl (k ∙ ap (set_existing removed) h)
After-trans false true o p q h (inr k) = inr (k ∙ ap (set_existing removal_failed) h)
After-trans true true o p q (inl e) (inl k) =
    inl (k ∙ ap (set_existing removed) e ∙ set_twice removed removed o)
After-trans true true o p q (inl e) (inr k) =
    inr (k ∙ ap (set_existing removal_failed) e ∙ set_twice removal_failed removed o)
After-trans true true o p q (inr e) (inl k) =
    inl (k ∙ ap (set_existing removed) e ∙ set_twice removed removal_failed o)
After-trans true true o p q (inr e) (inr k) =
    inr (k ∙ ap (set_existing removal_failed) e ∙ set_twice removal_failed removal_failed o)

-- Marking one address with one of the two statuses of a cleanup.
IsFinal : Status → Type 0
IsFinal status = (o p : Option Status) → p ≡ set_existing status o → After true o p

removed-IsFinal : IsFinal removed
unfolding IsFinal
removed-IsFinal o p e = inl e

removal_failed-IsFinal : IsFinal removal_failed
unfolding IsFinal
removal_failed-IsFinal o p e = inr e

After-if :
    (status : Status) (c : Bool) (o at_j p : Option Status)
    → IsFinal status
    → (c ≡ true → at_j ≡ o)
    → p ≡ (if c then set_existing status at_j else o)
    → After c o p
unfolding IsFinal
After-if status true o at_j p h same e = h o p (e ∙ ap (set_existing status) (same refl))
After-if status false o at_j p h same e = e

set_status-After :
    (status : Status) (k j : ℕ) (l : Ledger)
    → IsFinal status
    → After (k == j) (status_at k l) (status_at k (set_status j status l))
set_status-After status k j l h =
    After-if status (k == j) (status_at k l) (status_at j l) (status_at k (set_status j status l)) h
      (λ y. ap (λ i. status_at i l) (ground arith)) (status_at-set_status k j status l)

chosen-After :
    (k : ℕ) (b c : Bool) (l m : Ledger)
    → After c (status_at k l) (status_at k m)
    → After (b && c) (status_at k l) (status_at k (if b then m else l))
chosen-After k true c l m h = h
chosen-After k false c l m h = refl

fail_one-After :
    (k : ℕ) (i : CleanupItem) (l : Ledger)
    → After
        (i.remove_credential && k == i.target.host_ip)
        (status_at k l)
        (status_at k (fail_one i l))
unfolding mark_removal_failed
fail_one-After k i l =
    chosen-After k i.remove_credential (k == i.target.host_ip) l
      (mark_removal_failed i.target.host_ip l)
      (set_status-After removal_failed k i.target.host_ip l removal_failed-IsFinal)

removed_one-After :
    (k : ℕ) (i : CleanupItem) (l : Ledger)
    → After
        (i.remove_credential && k == i.target.host_ip)
        (status_at k l)
        (status_at k (removed_one i l))
unfolding mark_removed
removed_one-After k i l =
    chosen-After k i.remove_credential (k == i.target.host_ip) l (mark_removed i.target.host_ip l)
      (set_status-After removed k i.target.host_ip l removed-IsFinal)

fail_all-After :
    (k : ℕ) (items : List CleanupItem) (l : Ledger)
    → After (removable k items) (status_at k l) (status_at k (fail_all items l))
unfolding fail_all
fail_all-After k [] l = refl
fail_all-After k (i ∷ items) l =
    After-trans _ (removable k items) (status_at k l) (status_at k (fail_one i l)) _
      (fail_one-After k i l) (fail_all-After k items (fail_one i l))

mark_result-After :
    (k : ℕ) (f : Found) (i : CleanupItem) (l : Ledger)
    → is_found_null f ≡ false
    → After
        (i.remove_credential && k == i.target.host_ip)
        (status_at k l)
        (status_at k (mark_result f i l))
unfolding mark_connection_closed
mark_result-After k (found outcome) i l e = elim (Bool-cases (is_text "ok" outcome)) [
  | inl y ↦ rw y (removed_one-After k i (mark_connection_closed i.target.host_ip l))
  | inr n ↦ rw n (fail_one-After k i l)
]
mark_result-After k missing i l e = fail_one-After k i l
mark_result-After k found_null i l e = absurd cc

-- The loop settles all items, or has thrown on the way.
abbrev Looped : Bool → Bool → Option Status → Option Status → Type 0
Looped false r o p = After r o p
Looped true r o p = (p ≡ o) ⊎ ((r ≡ true) × After true o p)

Looped-trans :
    (thrown a b : Bool) (o p q : Option Status)
    → After a o p
    → Looped thrown b p q
    → Looped thrown (a || b) o q
Looped-trans false a b o p q h k = After-trans a b o p q h k
Looped-trans true false b o p q h (inl k) = inl (k ∙ h)
Looped-trans true false b o p q h (inr (r, k)) = inr (r, After-trans false true o p q h k)
Looped-trans true true b o p q h (inl k) = inr (refl, After-trans true false o p q h k)
Looped-trans true true b o p q h (inr (r, k)) = inr (refl, After-trans true true o p q h k)

mark_results-Looped :
    (k : ℕ) (items : List CleanupItem) (results : List Candidate) (l : Ledger)
    → Looped
        (mark_results items results l).0
        (removable k items)
        (status_at k l)
        (status_at k (mark_results items results l).1)
unfolding mark_results
mark_results-Looped k [] results l = refl
mark_results-Looped k (i ∷ items) results l =
    let f = find_result i.target.host_ip results in
    elim (Bool-cases (is_found_null f)) [
      | inl y ↦ rw y (inl refl)
      | inr n ↦ rw n (
          Looped-trans (mark_results items results (mark_result f i l)).0 _ (removable k items)
            (status_at k l) (status_at k (mark_result f i l)) _ (mark_result-After k f i l n)
            (mark_results-Looped k items results (mark_result f i l)))
    ]

after_loop-After :
    (k : ℕ) (items : List CleanupItem) (r : Bool × Ledger) (o : Option Status)
    → Looped r.0 (removable k items) o (status_at k r.1)
    → After (removable k items) o (status_at k (after_loop items r))
after_loop-After k items (false, l) o h = h
after_loop-After k items (true, l) o (inl e) =
    After-trans false (removable k items) o (status_at k l) _ e (fail_all-After k items l)
after_loop-After k items (true, l) o (inr (r, h)) =
    subst (λ b. After b o (status_at k (fail_all items l))) (sym r)
      (After-trans true (removable k items) o (status_at k l) _ h (fail_all-After k items l))

pub settle_cleanup-After :
    (k : ℕ) (late : Bool) (items : List CleanupItem) (r : Result Verdict) (l : Ledger)
    → After (removable k items) (status_at k l) (status_at k (settle_cleanup late items r l))
settle_cleanup-After k true items r l = fail_all-After k items l
settle_cleanup-After k false items (threw error) l = fail_all-After k items l
settle_cleanup-After k false items (ok verdict) l =
    after_loop-After k items (mark_results items verdict.results l) (status_at k l)
      (mark_results-Looped k items verdict.results l)

-- A written entry is removed or could not be, any other is as it was.
abbrev pub IsSettled : Option Status → Option Status → Type 0
IsSettled (some written) p = (p ≡ some removed) ⊎ (p ≡ some removal_failed)
IsSettled o p = p ≡ o

After-IsSettled : (o p : Option Status) → After (is_unverified o) o p → IsSettled o p
After-IsSettled none p h = h
After-IsSettled (some written) p h = h
After-IsSettled (some verified) p h = h
After-IsSettled (some removed) p h = h
After-IsSettled (some removal_failed) p h = h

module _ {W : Type 0} (invoke : Script → W → Invocation × W) (parse : String → Option Verdict)
    (drain : W → Bool × W) (expired : W → Bool) where
  cleanup_drained-After :
      (k : ℕ) (items : List CleanupItem) (t : Target) (r : Bool × W) (s : Session W)
      → After
          (removable k items)
          (status_at k s.ledger)
          (status_at k (cleanup_drained invoke parse drain expired items t r s).ledger)
  unfolding run_script
  cleanup_drained-After k items t (false, w) s =
      settle_cleanup-After k (expired w) items (threw other_failure) s.ledger
  cleanup_drained-After k items t (true, w) s = settle_cleanup-After k _ items _ s.ledger

  cleanup_with-After :
      (k : ℕ) (items : List CleanupItem) (s : Session W)
      → After
          (removable k items)
          (status_at k s.ledger)
          (status_at k (cleanup_with invoke parse drain expired items s).ledger)
  cleanup_with-After k [] s = refl
  cleanup_with-After k (i ∷ items) s =
      cleanup_drained-After k (i ∷ items) i.target (drain s.world) s

  pub cleanup-IsSettled :
      (s : Session W)
      → IsSound s.ledger
      → (k : ℕ)
      → IsSettled (status_at k s.ledger) (status_at k (cleanup invoke parse drain expired s).ledger)
  unfolding cleanup
  cleanup-IsSettled s h k = After-IsSettled (status_at k s.ledger) _ (
      subst
        (λ b.
          After b (status_at k s.ledger)
            (status_at k (cleanup invoke parse drain expired s).ledger))
        (removable-cleanup_items k s.ledger h) (cleanup_with-After k (cleanup_items s.ledger) s))
