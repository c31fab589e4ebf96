-- ===== src/Sharing/Operations.antt =====
-- `createVmShareCredentials` of src/guestSetup/windows/shareCredential.ts over any guest: `invoke`
-- runs a script in a world, `parse` is `JSON.parse` with the test for an object, `drain` is
-- `drainCancelled` (false: it throws), and `expired` tells whether the cleanup's budget ran out
-- before its work ended.
pub mod Items
pub mod Soundness
pub mod Cleanup
pub mod Careful
pub mod Histories
pub mod Asking
use susentorno.Base.{
  ℕ, zero, suc, Bool, true, false, not, ◌&&◌, ◌||◌, Option, none, some, List, [], ◌∷◌, String,
  lookup, insert, values, ◌==◌, if◌then◌else◌,
}
use susentorno.Guest.Executor.{
  GuestErrorKind, GuestResult, Invocation, returned, guest_error, other_error,
}
use susentorno.Sharing.Ledger.{
  Role, default, Target, Entry, Ledger, mark_written, mark_verified, mark_removed,
  mark_removal_failed, mark_connection_open, mark_connection_closed, entries, unverified,
  open_connections,
}
use susentorno.Sharing.Verdict.{
  Value, Candidate, null_item, item, Verdict, ShareError, operation, is_text, classify_verification,
}

pub record CleanupItem : Type 0 where
  pub target : Target
  pub remove_credential : Bool

-- A script by what it does; the account stands for the secret.
pub data Script : Type 0 where
  replace_script : Target → String → Script
  verify_script close_script : Target → Script
  cleanup_script : List CleanupItem → Script

pub record Secret : Type 0 where
  pub account : String
  pub password : String

-- An operation returns, or throws an error of its own or one of the executor's.
pub data Thrown : Type 0 where
  share_error : ShareError → Thrown
  guest_failure : GuestErrorKind → Thrown
  other_failure : Thrown

pub data Result (A : Type 0) : Type 0 where
  ok : A → Result A
  threw : Thrown → Result A

-- The guest, the ledger, and the scripts that have run, newest first, each with whether it said
-- that it succeeded.
pub record Session (W : Type 0) : Type 0 where
  pub world : W
  pub ledger : Ledger
  pub ran : List (Script × Bool)

abbrev operation_error : {A : Type 0} → Target → Result A
operation_error target = threw (share_error (record { kind = operation; target = target }))

abbrev pub parsed_or_error : Target → Option Verdict → Result Verdict
parsed_or_error target none = operation_error target
parsed_or_error target (some verdict) = ok verdict

abbrev pub read_result : (String → Option Verdict) → Target → Invocation → Result Verdict
read_result parse target (returned r) =
    if r.timed_out
    then operation_error target
    else if r.exit_code == 0
    then parsed_or_error target (parse r.stdout)
    else operation_error target
read_result parse target (guest_error kind) = threw (guest_failure kind)
read_result parse target other_error = threw other_failure

abbrev pub succeeded : Result Verdict → Bool
succeeded (ok verdict) = is_text "ok" verdict.outcome
succeeded (threw error) = false

-- `ledger.entries().find(...)`, and `known?.role ?? 'default'`
abbrev pub find_role : ℕ → List Entry → Role
find_role host_ip [] = default
find_role host_ip (entry ∷ rest) =
    if entry.host_ip == host_ip then entry.role else find_role host_ip rest

abbrev pub open_item : Ledger → ℕ → CleanupItem
open_item l host_ip = record {
  target = record { role = find_role host_ip (entries l); host_ip = host_ip };
  remove_credential = false;
}

abbrev pub unverified_item : Entry → CleanupItem
unverified_item entry = record {
  target = record { role = entry.role; host_ip = entry.host_ip };
  remove_credential = true;
}

abbrev pub add_open : Ledger → List ℕ → List (ℕ × CleanupItem) → List (ℕ × CleanupItem)
add_open l [] items = items
add_open l (host_ip ∷ rest) items = add_open l rest (insert host_ip (open_item l host_ip) items)

abbrev pub add_unverified : List Entry → List (ℕ × CleanupItem) → List (ℕ × CleanupItem)
add_unverified [] items = items
add_unverified (entry ∷ rest) items =
    add_unverified rest (insert entry.host_ip (unverified_item entry) items)

unfoldable pub cleanup_items : Ledger → List CleanupItem
cleanup_items l = values (add_unverified (unverified l) (add_open l (open_connections l) []))

abbrev pub fail_one : CleanupItem → Ledger → Ledger
fail_one i l = if i.remove_credential then mark_removal_failed i.target.host_ip l else l

-- `failAll`
unfoldable pub fail_all : List CleanupItem → Ledger → Ledger
fail_all [] l = l
fail_all (i ∷ items) l = fail_all items (fail_one i l)

-- `results.find(...)`: reading a field of `null` throws.
pub data Found : Type 0 where
  found : Value → Found
  missing found_null : Found

abbrev same_host : ℕ → Option ℕ → Bool
same_host host_ip none = false
same_host host_ip (some k) = k == host_ip

abbrev pub find_result : ℕ → List Candidate → Found
find_result host_ip [] = missing
find_result host_ip (null_item ∷ rest) = found_null
find_result host_ip (item k outcome ∷ rest) =
    let later = find_result host_ip rest in if same_host host_ip k then found outcome else later

abbrev pub removed_one : CleanupItem → Ledger → Ledger
removed_one i l = if i.remove_credential then mark_removed i.target.host_ip l else l

-- One round of the loop over the items, where it does not throw.
abbrev pub mark_result : Found → CleanupItem → Ledger → Ledger
mark_result (found outcome) i l =
    if is_text "ok" outcome
    then removed_one i (mark_connection_closed i.target.host_ip l)
    else fail_one i l
mark_result missing i l = fail_one i l
mark_result found_null i l = l

abbrev pub is_found_null : Found → Bool
is_found_null found_null = true
is_found_null _ = false

-- The loop; `true` where it has thrown.
unfoldable pub mark_results : List CleanupItem → List Candidate → Ledger → Bool × Ledger
mark_results [] results l = (false, l)
mark_results (i ∷ items) results l =
    let found = find_result i.target.host_ip results in
    let rest = mark_results items results (mark_result found i l) in
    if is_found_null found then (true, l) else rest

abbrev pub after_loop : List CleanupItem → Bool × Ledger → Ledger
after_loop items (false, l) = l
after_loop items (true, l) = fail_all items l

-- What the ledger gets once the work has ended or the budget has run out.
abbrev pub settle_cleanup : Bool → List CleanupItem → Result Verdict → Ledger → Ledger
settle_cleanup true items result l = fail_all items l
settle_cleanup false items (threw error) l = fail_all items l
settle_cleanup false items (ok verdict) l = after_loop items (mark_results items verdict.results l)

module _ {W : Type 0} (invoke : Script → W → Invocation × W) (parse : String → Option Verdict)
    (drain : W → Bool × W) (expired : W → Bool) where
  -- `runScript`
  unfoldable pub run_script : Script → Target → Session W → Result Verdict × Session W
  run_script script target s =
      let (answer, w) = invoke script s.world in
      let result = read_result parse target answer in
      (result, record s { world = w; ran = (script, succeeded result) ∷ s.ran })

  abbrev pub update_ledger : (Ledger → Ledger) → Session W → Session W
  update_ledger f s = record s { ledger = f s.ledger }

  -- The check of `verdict.Outcome` in `replace` and `close`.
  abbrev pub finish :
      Target → (Ledger → Ledger) → Result Verdict × Session W → Result Unit × Session W
  finish target mark (threw error, s) = (threw error, s)
  finish target mark (ok verdict, s) =
      if is_text "ok" verdict.outcome
      then (ok tt, update_ledger mark s)
      else (operation_error target, s)

  unfoldable pub replace : Target → Secret → Session W → Result Unit × Session W
  replace target secret s =
      finish target (λ l. l)
        (run_script (replace_script target secret.account) target
          (update_ledger (mark_written target) s))

  abbrev pub finish_verify : Target → Result Verdict × Session W → Result Unit × Session W
  finish_verify target (threw error, s) = (threw error, s)
  finish_verify target (ok verdict, s) =
      if is_text "ok" verdict.outcome
      then (ok tt, update_ledger (mark_verified target) s)
      else (threw (share_error (classify_verification verdict target)), s)

  unfoldable pub verify : Target → Session W → Result Unit × Session W
  verify target s = finish_verify target (
      run_script (verify_script target) target
        (update_ledger (mark_connection_open target.host_ip) s))

  abbrev pub and_then :
      (Session W → Result Unit × Session W) → Result Unit × Session W → Result Unit × Session W
  and_then next (ok done, s) = next s
  and_then next (threw error, s) = (threw error, s)

  unfoldable pub replace_and_verify : Target → Secret → Session W → Result Unit × Session W
  replace_and_verify target secret s = and_then (verify target) (replace target secret s)

  unfoldable pub close : Target → Session W → Result Unit × Session W
  close target s =
      finish target (mark_connection_closed target.host_ip)
        (run_script (close_script target) target s)

  abbrev pub settle_session : List CleanupItem → Result Verdict × Session W → Session W
  settle_session items (result, s) = update_ledger (settle_cleanup (expired s.world) items result) s

  -- The script is sent once the cancelled invocations have ended, also behind the budget's end.
  abbrev pub cleanup_drained : List CleanupItem → Target → Bool × W → Session W → Session W
  cleanup_drained items target (false, w) s =
      settle_session items (threw other_failure, record s { world = w })
  cleanup_drained items target (true, w) s =
      settle_session items (run_script (cleanup_script items) target (record s { world = w }))

  abbrev pub cleanup_with : List CleanupItem → Session W → Session W
  cleanup_with [] s = s
  cleanup_with (i ∷ items) s = cleanup_drained (i ∷ items) i.target (drain s.world) s

  unfoldable pub cleanup : Session W → Session W
  cleanup s = cleanup_with (cleanup_items s.ledger) s
