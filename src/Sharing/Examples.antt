-- ===== src/Sharing/Examples.antt =====
-- A guest that refuses every login at the second script; the world counts the scripts.
use susentorno.Base.{
  refl, ℕ, suc, ◌≡◌, ◌↔◌, Bool, true, false, ◌&&◌, Option, none, some, List, [], ◌∷◌, has, String,
  same_text, if◌then◌else◌,
}
use susentorno.Guest.Executor.{Invocation, returned}
use susentorno.Sharing.Ledger.{
  default, Target, written, removed, new_ledger, mark_written, mark_verified, mark_removed,
  mark_removal_failed, mark_connection_open, mark_connection_closed, entries, unverified,
  open_connections,
}
use susentorno.Sharing.Ledger.Laws.{status_at, is_unverified, hosts}
use susentorno.Sharing.Ledger.Refinement.{
  Marking, write_entry, remove_at, connect, apply_all, note_all, empty_book, apply_all-refines,
}
use susentorno.Sharing.Verdict.{classify_verification, Verdict, absent, text, number, item}
use susentorno.Sharing.Operations.{
  Script, replace_script, verify_script, close_script, cleanup_script, Secret, read_result,
  succeeded, replace_and_verify, cleanup, replace, verify, run_script, cleanup_items, fail_all,
  mark_results,
}
use susentorno.Sharing.Operations.Cleanup.{IsSettled}
use susentorno.Sharing.Operations.Careful.{IsCautious}
use susentorno.Sharing.Operations.Asking.{
  asks_again, is_default, login_refused, replace_and_verify-asks_again,
}
use susentorno.Sharing.Operations.Histories.{
  Call, replacing, replacing_and_verifying, cleaning_up, new_session, perform_all,
  perform_all-IsCautious, cleanup_settles,
}
use susentorno.Sharing.HostCheck.{
  LocalUser, RawEntry, ok, check_host_share_account, parse_share_access,
}
use susentorno.Sharing.HostCheck.Access.{HasReadAccess, check_host_share_account_iff}

abbrev answer : String → Invocation
answer stdout = returned (record { exit_code = 0; stdout = stdout; timed_out = false })

abbrev invoke : Script → ℕ → Invocation × ℕ
invoke (replace_script t account) n = (answer "done", suc n)
invoke (verify_script t) n = (answer "refused", suc n)
invoke (close_script t) n = (answer "done", suc n)
invoke (cleanup_script items) n = (answer "cleaned", suc n)

abbrev refused : Verdict
refused = record { outcome = text "error"; stage = text "read"; win32 = number 1326; results = [] }

abbrev done : Verdict
done = record { outcome = text "ok"; stage = absent; win32 = absent; results = [] }

abbrev cleaned : Verdict
cleaned = record {
  outcome = absent;
  stage = absent;
  win32 = absent;
  results = item (some 7) (text "ok") ∷ [];
}

abbrev parse : String → Option Verdict
parse s =
    if same_text s "refused"
    then some refused
    else if same_text s "cleaned"
    then some cleaned
    else some done

abbrev drain : ℕ → Bool × ℕ
drain n = (true, n)

abbrev expired : ℕ → Bool
expired n = false

abbrev target : Target
target = record { role = default; host_ip = 7 }

abbrev secret : Secret
secret = record { account = "share"; password = "p" }

abbrev calls : List Call
calls = replacing_and_verifying target secret ∷ cleaning_up ∷ replacing target secret ∷ []

abbrev markings : List Marking
markings = write_entry target ∷ connect 7 ∷ remove_at 7 ∷ []

apply_all-refines_example :
    (status_at 7 (apply_all markings new_ledger) ≡ (note_all markings empty_book).status 7)
    × (has 7 (open_connections (apply_all markings new_ledger))
        ≡ (note_all markings empty_book).is_open 7)
    × (has 7 (hosts (unverified (apply_all markings new_ledger)))
        ≡ is_unverified ((note_all markings empty_book).status 7))
apply_all-refines_example = apply_all-refines markings 7

perform_all-IsCautious_example :
    IsCautious (perform_all invoke parse drain expired calls (new_session 0)).ran
perform_all-IsCautious_example = perform_all-IsCautious invoke parse drain expired calls 0

cleanup_settles_example :
    let s = perform_all invoke parse drain expired calls (new_session 0) in
    IsSettled (status_at 7 s.ledger) (status_at 7 (cleanup invoke parse drain expired s).ledger)
cleanup_settles_example = cleanup_settles invoke parse drain expired calls 0 7

replace_and_verify-asks_again_example :
    asks_again (replace_and_verify invoke parse drain expired target secret (new_session 0)).0 ≡ (
      is_default default
      && (succeeded (read_result parse target (answer "done"))
          && login_refused (read_result parse target (answer "refused"))))
replace_and_verify-asks_again_example =
    replace_and_verify-asks_again invoke parse drain expired target secret (new_session 0)

abbrev lower : String → String
lower s = s

abbrev users : List LocalUser
users = record { name = some "share"; enabled = true } ∷ []

abbrev grants : List RawEntry
grants =
    record {
      account_name = some "HOST\\share";
      sid = none;
      access_control_type = some "allow";
      access_right = some "read";
    }
    ∷ []

check_host_share_account_iff_example :
    (check_host_share_account lower "share" users grants [] ≡ ok)
    ↔ HasReadAccess lower "share" users grants []
check_host_share_account_iff_example = check_host_share_account_iff lower "share" users grants []

-- The second attempt is written and not verified, the first has been cleaned up.
a_written_entry :
    status_at 7 (perform_all invoke parse drain expired calls (new_session 0)).ledger ≡ some written
unfolding same_text replace verify replace_and_verify cleanup run_script mark_written mark_verified
    mark_removed mark_removal_failed mark_connection_open mark_connection_closed entries unverified
    open_connections cleanup_items fail_all mark_results classify_verification
a_written_entry = refl

a_passing_check : check_host_share_account lower "share" users grants [] ≡ ok
unfolding check_host_share_account parse_share_access same_text
a_passing_check = refl

after_cleanup :
    status_at 7
      (cleanup invoke parse drain expired
        (perform_all invoke parse drain expired calls (new_session 0))).ledger
    ≡ some removed
unfolding same_text replace verify replace_and_verify cleanup run_script mark_written mark_verified
    mark_removed mark_removal_failed mark_connection_open mark_connection_closed entries unverified
    open_connections cleanup_items fail_all mark_results classify_verification
after_cleanup = refl
