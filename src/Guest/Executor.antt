-- ===== src/Guest/Executor.antt =====
-- What `invoke` of src/guestSetup/windows/guestExecutor.ts ends with.
use susentorno.Base.{ℕ, Bool, String, same_text, if◌then◌else◌}

pub data GuestErrorKind : Type 0 where
  transport authentication protocol deadline cancelled timeout : GuestErrorKind

-- `stderr` only goes into messages, and is left out; an exit code is only compared with 0.
pub record GuestResult : Type 0 where
  pub exit_code : ℕ
  pub stdout : String
  pub timed_out : Bool

-- `invoke` returns a result, or throws a `WindowsGuestError` or another error.
pub data Invocation : Type 0 where
  returned : GuestResult → Invocation
  guest_error : GuestErrorKind → Invocation
  other_error : Invocation

-- The bridge's standard output after `JSON.parse`, `isResult` and `isBridgeError`.
pub data Envelope : Type 0 where
  result : GuestResult → Envelope
  bridge_error : String → Envelope
  invalid : Envelope

-- How the race of the bridge and the caller's signal ends.
pub data Settled : Type 0 where
  aborted : Settled
  closed : Bool → Bool → Envelope → Settled

abbrev pub category_kind : String → GuestErrorKind
category_kind category =
    if same_text category "authentication"
    then authentication
    else if same_text category "transport"
    then transport
    else protocol

abbrev pub read_envelope : Envelope → Invocation
read_envelope (result r) = returned r
read_envelope (bridge_error category) = guest_error (category_kind category)
read_envelope invalid = guest_error protocol

-- `closed deadline_hit spawn_failed envelope`
unfoldable pub settle : Settled → Invocation
settle aborted = guest_error cancelled
settle (closed deadline_hit spawn_failed envelope) =
    if deadline_hit
    then guest_error deadline
    else if spawn_failed
    then guest_error protocol
    else read_envelope envelope
