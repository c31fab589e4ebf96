-- ===== src/Sharing/Operations/Soundness.antt =====
-- Cleanup keeps the ledger sound: each address once, under its own key.
use susentorno.Base.{Bool, true, false, List, [], ◌∷◌, if◌then◌else◌, Bool-cases, inl, inr}
use susentorno.Sharing.Ledger.{
  Ledger, mark_removed, mark_removal_failed, mark_connection_closed, removed, removal_failed,
}
use susentorno.Sharing.Ledger.Laws.{IsSound, set_status-IsSound}
use susentorno.Sharing.Verdict.{Candidate, Verdict, is_text}
use susentorno.Sharing.Operations.{
  CleanupItem, Result, ok, threw, fail_one, fail_all, Found, found, missing, found_null,
  find_result, removed_one, mark_result, is_found_null, mark_results, after_loop, settle_cleanup,
}

if_IsSound : (b : Bool) (l m : Ledger) → IsSound l → IsSound m → IsSound (if b then m else l)
if_IsSound true l m h k = k
if_IsSound false l m h k = h

fail_one-IsSound : (i : CleanupItem) (l : Ledger) → IsSound l → IsSound (fail_one i l)
unfolding mark_removal_failed
fail_one-IsSound i l h =
    if_IsSound i.remove_credential l _ h (set_status-IsSound i.target.host_ip removal_failed l h)

removed_one-IsSound : (i : CleanupItem) (l : Ledger) → IsSound l → IsSound (removed_one i l)
unfolding mark_removed
removed_one-IsSound i l h =
    if_IsSound i.remove_credential l _ h (set_status-IsSound i.target.host_ip removed l h)

fail_all-IsSound : (items : List CleanupItem) (l : Ledger) → IsSound l → IsSound (fail_all items l)
unfolding fail_all
fail_all-IsSound [] l h = h
fail_all-IsSound (i ∷ items) l h = fail_all-IsSound items (fail_one i l) (fail_one-IsSound i l h)

mark_result-IsSound :
    (f : Found) (i : CleanupItem) (l : Ledger) → IsSound l → IsSound (mark_result f i l)
unfolding mark_connection_closed
mark_result-IsSound (found outcome) i l h =
    if_IsSound (is_text "ok" outcome) (fail_one i l) _ (fail_one-IsSound i l h)
      (removed_one-IsSound i (mark_connection_closed i.target.host_ip l) h)
mark_result-IsSound missing i l h = fail_one-IsSound i l h
mark_result-IsSound found_null i l h = h

mark_results-IsSound :
    (items : List CleanupItem) (results : List Candidate) (l : Ledger)
    → IsSound l
    → IsSound (mark_results items results l).1
unfolding mark_results
mark_results-IsSound [] results l h = h
mark_results-IsSound (i ∷ items) results l h =
    let f = find_result i.target.host_ip results in
    elim (Bool-cases (is_found_null f)) [
      | inl y ↦ rw y h
      | inr n ↦ rw n (mark_results-IsSound items results _ (mark_result-IsSound f i l h))
    ]

after_loop-IsSound :
    (items : List CleanupItem) (r : Bool × Ledger) → IsSound r.1 → IsSound (after_loop items r)
after_loop-IsSound items (false, l) h = h
after_loop-IsSound items (true, l) h = fail_all-IsSound items l h

pub settle_cleanup-IsSound :
    (late : Bool) (items : List CleanupItem) (r : Result Verdict) (l : Ledger)
    → IsSound l
    → IsSound (settle_cleanup late items r l)
settle_cleanup-IsSound true items r l h = fail_all-IsSound items l h
settle_cleanup-IsSound false items (threw error) l h = fail_all-IsSound items l h
settle_cleanup-IsSound false items (ok v) l h =
    after_loop-IsSound items (mark_results items v.results l)
      (mark_results-IsSound items v.results l h)
