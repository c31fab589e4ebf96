-- ===== src/Sharing/Operations/Careful.antt =====
-- Each operation keeps the session careful: cleanup deletes only credentials that this run wrote and
-- has not proved since.
use susentorno.Base.{
  ℕ, ◌≡◌, refl, sym, ◌∙◌, ap, arith, Bool, true, false, Option, none, some, List, [], ◌∷◌, String,
  ◌==◌, if◌then◌else◌, Bool-cases, inl, inr,
}
use susentorno.Guest.Executor.{Invocation}
use susentorno.Sharing.Ledger.{
  Target, Status, written, verified, Ledger, mark, mark_written, mark_verified,
  mark_connection_open, mark_connection_closed,
}
use susentorno.Sharing.Ledger.Laws.{IsSound, mark-IsSound, status_at, status_at-mark, is_unverified}
use susentorno.Sharing.Verdict.{Verdict, is_text}
use susentorno.Sharing.Operations.{
  CleanupItem, Script, replace_script, verify_script, close_script, cleanup_script, Secret, Result,
  ok, threw, other_failure, Session, read_result, succeeded, cleanup_items, run_script,
  update_ledger, finish, replace, finish_verify, verify, and_then, replace_and_verify, close,
  settle_session, cleanup_drained, cleanup_with, cleanup,
}
use susentorno.Sharing.Operations.Items.{removable, removable-cleanup_items}
use susentorno.Sharing.Operations.Soundness.{settle_cleanup-IsSound}
use susentorno.Sharing.Operations.Cleanup.{After, settle_cleanup-After}

-- The last thing that the scripts did with the credential at an address is to write it: no
-- verification has succeeded since.
abbrev pub is_unproved : ℕ → List (Script × Bool) → Bool
is_unproved k [] = false
is_unproved k ((replace_script t account, b) ∷ ran) =
    if k == t.host_ip then true else is_unproved k ran
is_unproved k ((verify_script t, true) ∷ ran) = if k == t.host_ip then false else is_unproved k ran
is_unproved k (_ ∷ ran) = is_unproved k ran

-- Each cleanup script deletes only what was unproved before it.
abbrev pub IsCautious : List (Script × Bool) → Type 0
IsCautious [] = Unit
IsCautious ((cleanup_script items, b) ∷ ran) =
    ((k : ℕ) → removable k items ≡ true → is_unproved k ran ≡ true) × IsCautious ran
IsCautious (_ ∷ ran) = IsCautious ran

pub record IsCareful {W : Type 0} (s : Session W) : Type 0 where
  pub sound : IsSound s.ledger
  pub unproved : (k : ℕ) → is_unverified (status_at k s.ledger) ≡ true → is_unproved k s.ran ≡ true
  pub cautious : IsCautious s.ran

After-unverified :
    (b : Bool) (o p : Option Status) → After b o p → is_unverified p ≡ true → is_unverified o ≡ true
After-unverified false o p e u = ap is_unverified (sym e) ∙ u
After-unverified true none p (inl e) u = ap is_unverified (sym e) ∙ u
After-unverified true none p (inr e) u = ap is_unverified (sym e) ∙ u
After-unverified true (some x) p (inl e) u = absurd (ground arith)
After-unverified true (some x) p (inr e) u = absurd (ground arith)

mark_other :
    (k : ℕ) (status : Status) (t : Target) (l : Ledger)
    → (k == t.host_ip) ≡ false
    → status_at k (mark status t l) ≡ status_at k l
mark_other k status t l n = let e = status_at-mark k status t l in e ∙ rw n refl

mark_same :
    (k : ℕ) (status : Status) (t : Target) (l : Ledger)
    → (k == t.host_ip) ≡ true
    → status_at k (mark status t l) ≡ some status
mark_same k status t l y = let e = status_at-mark k status t l in e ∙ rw y refl

silent-IsCautious :
    (t : Target) (b : Bool) (ran : List (Script × Bool))
    → IsCautious ran
    → IsCautious ((verify_script t, b) ∷ ran)
silent-IsCautious t true ran h = h
silent-IsCautious t false ran h = h

module _ {W : Type 0} (invoke : Script → W → Invocation × W) (parse : String → Option Verdict)
    (drain : W → Bool × W) (expired : W → Bool) where
  finish-IsCareful :
      (t : Target) (f : Ledger → Ledger) (r : Result Verdict) (s : Session W)
      → IsCareful s
      → IsCareful (update_ledger invoke parse drain expired f s)
      → IsCareful (finish invoke parse drain expired t f (r, s)).1
  finish-IsCareful t f (threw error) s h k = h
  finish-IsCareful t f (ok v) s h k = elim (Bool-cases (is_text "ok" v.outcome)) [
    | inl y ↦ rw y k
    | inr n ↦ rw n h
  ]

  pub replace-IsCareful :
      (t : Target) (secret : Secret) (s : Session W)
      → IsCareful s
      → IsCareful (replace invoke parse drain expired t secret s).1
  unfolding replace run_script mark_written
  replace-IsCareful t secret s h =
      let (answer, w) = invoke (replace_script t secret.account) s.world in
      let c : IsCareful (record {
        world = w;
        ledger = mark written t s.ledger;
        ran = (replace_script t secret.account, succeeded (read_result parse t answer)) ∷ s.ran;
      }) =
        record {
          sound = mark-IsSound written t s.ledger h.sound;
          unproved = λ k u. elim (Bool-cases (k == t.host_ip)) [
            | inl y ↦ rw y refl
            | inr n ↦
                rw n (h.unproved k (ap is_unverified (sym (mark_other k written t s.ledger n)) ∙ u))
          ];
          cautious = h.cautious;
        } in
      finish-IsCareful t (λ l. l) (read_result parse t answer) _ c c

  finish_verify-IsCareful :
      (t : Target) (r : Result Verdict) (w : W) (s : Session W)
      → IsCareful s
      → IsCareful
          (finish_verify invoke parse drain expired t
            (r, record s { world = w; ran = (verify_script t, succeeded r) ∷ s.ran })).1
  unfolding mark_verified
  finish_verify-IsCareful t (threw error) w s h = record {
    sound = h.sound;
    unproved = h.unproved;
    cautious = h.cautious;
  }
  finish_verify-IsCareful t (ok v) w s h = elim (Bool-cases (is_text "ok" v.outcome)) [
    | inl y ↦ rw y (record {
      sound = mark-IsSound verified t s.ledger h.sound;
      unproved = λ k u. elim (Bool-cases (k == t.host_ip)) [
        | inl same ↦ absurd (
            let e = mark_same k verified t s.ledger same in
            let f = ap is_unverified e in ground arith)
        | inr n ↦
            rw n (h.unproved k (ap is_unverified (sym (mark_other k verified t s.ledger n)) ∙ u))
      ];
      cautious = h.cautious;
    })
    | inr n ↦ rw n (record { sound = h.sound; unproved = h.unproved; cautious = h.cautious })
  ]

  pub verify-IsCareful :
      (t : Target) (s : Session W)
      → IsCareful s
      → IsCareful (verify invoke parse drain expired t s).1
  unfolding verify run_script mark_connection_open
  verify-IsCareful t s h =
      let (answer, w) = invoke (verify_script t) s.world in
      finish_verify-IsCareful t (read_result parse t answer) w
        (update_ledger invoke parse drain expired (mark_connection_open t.host_ip) s)
        (record { sound = h.sound; unproved = h.unproved; cautious = h.cautious })

  pub close-IsCareful :
      (t : Target) (s : Session W)
      → IsCareful s
      → IsCareful (close invoke parse drain expired t s).1
  unfolding close run_script mark_connection_closed
  close-IsCareful t s h =
      let (answer, w) = invoke (close_script t) s.world in
      finish-IsCareful t (mark_connection_closed t.host_ip) (read_result parse t answer) _
        (record { sound = h.sound; unproved = h.unproved; cautious = h.cautious })
        (record { sound = h.sound; unproved = h.unproved; cautious = h.cautious })

  and_then-IsCareful :
      (next : Session W → Result Unit × Session W) (r : Result Unit × Session W)
      → ((s : Session W) → IsCareful s → IsCareful (next s).1)
      → IsCareful r.1
      → IsCareful (and_then invoke parse drain expired next r).1
  and_then-IsCareful next (ok done, s) f h = f s h
  and_then-IsCareful next (threw error, s) f h = h

  pub replace_and_verify-IsCareful :
      (t : Target) (secret : Secret) (s : Session W)
      → IsCareful s
      → IsCareful (replace_and_verify invoke parse drain expired t secret s).1
  unfolding replace_and_verify
  replace_and_verify-IsCareful t secret s h =
      and_then-IsCareful (verify invoke parse drain expired t)
        (replace invoke parse drain expired t secret s) (verify-IsCareful t)
        (replace-IsCareful t secret s h)

  settle-IsCareful :
      (items : List CleanupItem) (r : Result Verdict) (s : Session W)
      → ((k : ℕ) → removable k items ≡ is_unverified (status_at k s.ledger))
      → IsCareful s
      → IsCareful (settle_session invoke parse drain expired items (r, s))
  settle-IsCareful items r s e h = record {
    sound = settle_cleanup-IsSound (expired s.world) items r s.ledger h.sound;
    unproved = λ k u. h.unproved k (
        After-unverified (removable k items) (status_at k s.ledger) _
          (settle_cleanup-After k (expired s.world) items r s.ledger) u);
    cautious = h.cautious;
  }

  cleanup_drained-IsCareful :
      (items : List CleanupItem) (t : Target) (r : Bool × W) (s : Session W)
      → ((k : ℕ) → removable k items ≡ is_unverified (status_at k s.ledger))
      → IsCareful s
      → IsCareful (cleanup_drained invoke parse drain expired items t r s)
  unfolding run_script
  cleanup_drained-IsCareful items t (false, w) s e h =
      settle-IsCareful items (threw other_failure) _ e
        (record { sound = h.sound; unproved = h.unproved; cautious = h.cautious })
  cleanup_drained-IsCareful items t (true, w) s e h =
      let (answer, w') = invoke (cleanup_script items) w in
      settle-IsCareful items (read_result parse t answer) _ e (record {
        sound = h.sound;
        unproved = h.unproved;
        cautious = (λ k m. h.unproved k (sym (e k) ∙ m), h.cautious);
      })

  cleanup_with-IsCareful :
      (items : List CleanupItem) (s : Session W)
      → ((k : ℕ) → removable k items ≡ is_unverified (status_at k s.ledger))
      → IsCareful s
      → IsCareful (cleanup_with invoke parse drain expired items s)
  cleanup_with-IsCareful [] s e h = h
  cleanup_with-IsCareful (i ∷ items) s e h =
      cleanup_drained-IsCareful (i ∷ items) i.target (drain s.world) s e h

  pub cleanup-IsCareful :
      (s : Session W) → IsCareful s → IsCareful (cleanup invoke parse drain expired s)
  unfolding cleanup
  cleanup-IsCareful s h =
      cleanup_with-IsCareful (cleanup_items s.ledger) s
        (λ k. removable-cleanup_items k s.ledger h.sound) h
