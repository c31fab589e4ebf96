-- ===== src/Sharing/Operations/Histories.antt =====
-- The operations of `VmShareCredentials`, called in any order on one session.
use susentorno.Base.{ℕ, Bool, Option, List, [], ◌∷◌, String}
use susentorno.Guest.Executor.{Invocation}
use susentorno.Sharing.Ledger.{Target, new_ledger}
use susentorno.Sharing.Ledger.Laws.{status_at}
use susentorno.Sharing.Verdict.{Verdict}
use susentorno.Sharing.Operations.{
  Script, Secret, Session, replace, verify, replace_and_verify, close, cleanup,
}
use susentorno.Sharing.Operations.Careful.{
  IsCautious, IsCareful, replace-IsCareful, verify-IsCareful, close-IsCareful,
  replace_and_verify-IsCareful, cleanup-IsCareful,
}
use susentorno.Sharing.Operations.Cleanup.{IsSettled, cleanup-IsSettled}

pub data Call : Type 0 where
  replacing replacing_and_verifying : Target → Secret → Call
  verifying closing : Target → Call
  cleaning_up : Call

abbrev pub new_session : {W : Type 0} → W → Session W
new_session w = record { world = w; ledger = new_ledger; ran = [] }

module _ {W : Type 0} (invoke : Script → W → Invocation × W) (parse : String → Option Verdict)
    (drain : W → Bool × W) (expired : W → Bool) where
  abbrev pub perform : Call → Session W → Session W
  perform (replacing t secret) s = (replace invoke parse drain expired t secret s).1
  perform (replacing_and_verifying t secret) s =
      (replace_and_verify invoke parse drain expired t secret s).1
  perform (verifying t) s = (verify invoke parse drain expired t s).1
  perform (closing t) s = (close invoke parse drain expired t s).1
  perform cleaning_up s = cleanup invoke parse drain expired s

  abbrev pub perform_all : List Call → Session W → Session W
  perform_all [] s = s
  perform_all (c ∷ calls) s = perform_all calls (perform c s)

  perform-IsCareful : (c : Call) (s : Session W) → IsCareful s → IsCareful (perform c s)
  perform-IsCareful (replacing t secret) s h =
      replace-IsCareful invoke parse drain expired t secret s h
  perform-IsCareful (replacing_and_verifying t secret) s h =
      replace_and_verify-IsCareful invoke parse drain expired t secret s h
  perform-IsCareful (verifying t) s h = verify-IsCareful invoke parse drain expired t s h
  perform-IsCareful (closing t) s h = close-IsCareful invoke parse drain expired t s h
  perform-IsCareful cleaning_up s h = cleanup-IsCareful invoke parse drain expired s h

  perform_all-IsCareful :
      (calls : List Call) (s : Session W) → IsCareful s → IsCareful (perform_all calls s)
  perform_all-IsCareful [] s h = h
  perform_all-IsCareful (c ∷ calls) s h =
      perform_all-IsCareful calls (perform c s) (perform-IsCareful c s h)

  new_session-IsCareful : (w : W) → IsCareful (new_session w)
  new_session-IsCareful w = record { sound = (tt, tt); unproved = λ k u. absurd cc; cautious = tt }

  -- Whatever operations are called in whatever order, and whatever the guest answers, a cleanup
  -- script deletes a credential only if the last thing that the earlier scripts did with it was to
  -- write it: no verification of it has succeeded since.
  pub perform_all-IsCautious :
      (calls : List Call) (w : W) → IsCautious (perform_all calls (new_session w)).ran
  perform_all-IsCautious calls w =
      (perform_all-IsCareful calls (new_session w) (new_session-IsCareful w)).cautious

  -- Whatever operations have been called, cleanup leaves no entry as written: it is removed, or
  -- noted as one whose removal failed, also when the script throws, answers nonsense or comes too
  -- late. The status of every other entry is as it was.
  pub cleanup_settles :
      (calls : List Call) (w : W) (k : ℕ)
      → let s = perform_all calls (new_session w) in
        IsSettled (status_at k s.ledger) (status_at k (cleanup invoke parse drain expired s).ledger)
  cleanup_settles calls w k =
      let s = perform_all calls (new_session w) in
      let h = perform_all-IsCareful calls (new_session w) (new_session-IsCareful w) in
      cleanup-IsSettled invoke parse drain expired s h.sound k
