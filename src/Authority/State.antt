-- ===== src/Authority/State.antt =====
-- The state of the authority, its validation, and how a session starts.
use proxmox_sharedlvmthin.Base.{
  String, Bool, true, false, not, ◌&&◌, Result, ok, refused, ◌>>=◌, ◌>>◌, refuse_if, is_hex32,
  is_hex64, is_boot_id, if◌then◌else◌,
}
use proxmox_sharedlvmthin.Base.Int.{pos}
use proxmox_sharedlvmthin.Base.Scalars.{
  Scalar, null, int, Exact, fields, same, is_null, is_int_from, check_pattern,
}

pub data Phase : Type 0 where
  cold active poisoned unknown : Phase

pub record Flight : Type 0 where
  pub request_id : Scalar
  pub transaction : Scalar
  pub attempt : Scalar
  pub pre_revision : Scalar
  pub pre_ledger_sha256 : Scalar

-- `in_flight`: `None`, a dict with the keys of a flight, or another value.
pub data InFlight : Type 0 where
  idle : InFlight
  busy : Flight → InFlight
  garbled : InFlight

pub record State : Type 0 where
  pub schema : Scalar
  pub phase : Phase
  pub enrollment_sha256 : Scalar
  pub session_nonce : Scalar
  pub boot_id : Scalar
  pub invocation_id : Scalar
  pub pid : Scalar
  pub start_ticks : Scalar
  pub ram_revision : Scalar
  pub ram_ledger_sha256 : Scalar
  pub in_flight : InFlight

pub record Head : Type 0 where
  pub revision : Scalar
  pub ledger_sha256 : Scalar

pub record Request : Type 0 where
  pub request_id : Scalar
  pub transaction : Scalar
  pub attempt : Scalar

pub record Binding : Type 0 where
  pub enrollment_sha256 : Scalar
  pub session_nonce : Scalar
  pub boot_id : Scalar
  pub invocation_id : Scalar

pub record Session : Type 0 where
  pub session_nonce : Scalar
  pub boot_id : Scalar
  pub invocation_id : Scalar
  pub pid : Scalar
  pub start_ticks : Scalar

pub record Response : Type 0 where
  pub session_nonce : Scalar
  pub request_id : Scalar
  pub transaction : Scalar
  pub attempt : Scalar
  pub ledger_revision : Scalar
  pub ledger_sha256 : Scalar

pub data Verb : Type 0 where
  refuse head_match begin_assumed ram_head_advanced response_correlation : Verb

pub record Reply : Type 0 where
  pub action : Verb
  pub state : State

-- `refusal(state, reason)`: the reason is told to the caller and decides nothing.
abbrev pub refusal : State → Result Reply
refusal s = ok (record { action = refuse; state = s })

abbrev pub reply : Verb → State → Result Reply
reply v s = ok (record { action = v; state = s })

abbrev pub is_idle : InFlight → Bool
is_idle idle = true
is_idle _ = false

abbrev pub is_active : Phase → Bool
is_active active = true
is_active _ = false

unfoldable pub check_cold : State → Result (Unit {0})
check_cold s =
    refuse_if
      (not (
        is_null s.session_nonce
        && is_null s.boot_id
        && is_null s.invocation_id
        && is_null s.pid
        && is_null s.start_ticks
        && is_null s.ram_revision
        && is_null s.ram_ledger_sha256
        && is_idle s.in_flight))
      "COLD authority carries live-session state"

abbrev pub live_error : String
live_error = "live authority session identity is malformed"

unfoldable pub check_live : State → Result (Unit {0})
check_live s = do
  check_pattern is_hex32 live_error s.session_nonce
  check_pattern is_boot_id live_error s.boot_id
  check_pattern is_hex32 live_error s.invocation_id
  refuse_if (not (is_int_from (pos 1) s.pid)) live_error
  refuse_if (not (is_int_from (pos 1) s.start_ticks)) live_error
  refuse_if (not (is_int_from (pos 1) s.ram_revision)) live_error
  check_pattern is_hex64 live_error s.ram_ledger_sha256

abbrev pub flight_error : String
flight_error = "in-flight authority mutation is malformed"

-- The flight of a session whose RAM head is `revision` and `ledger`.
unfoldable pub check_flight : (revision ledger : Scalar) → InFlight → Result (Unit {0})
check_flight revision ledger idle = ok tt
check_flight revision ledger garbled = refused flight_error
check_flight revision ledger (busy f) = do
  check_pattern is_hex32 flight_error f.request_id
  check_pattern is_hex32 flight_error f.transaction
  check_pattern is_hex32 flight_error f.attempt
  refuse_if (not (is_int_from (pos 1) f.pre_revision)) flight_error
  check_pattern is_hex64 flight_error f.pre_ledger_sha256
  refuse_if (not (same f.pre_revision revision)) flight_error
  refuse_if (not (same f.pre_ledger_sha256 ledger)) flight_error

unfoldable pub check_session : State → Result (Unit {0})
check_session s = do check_live s; check_flight s.ram_revision s.ram_ledger_sha256 s.in_flight

unfoldable pub check_phase : Phase → State → Result (Unit {0})
check_phase cold s = check_cold s
check_phase _ s = check_session s

abbrev pub is_unknown : Phase → Bool
is_unknown unknown = true
is_unknown _ = false

abbrev pub state_error : String
state_error = "process-lifetime authority state is malformed"

unfoldable pub check_common : State → Result (Unit {0})
check_common s = do
  refuse_if (not (same s.schema (int (pos 1)))) state_error
  refuse_if (is_unknown s.phase) state_error
  check_pattern is_hex64 state_error s.enrollment_sha256

unfoldable pub validate_state : State → Result State
validate_state s = do check_common s; check_phase s.phase s; ok s

abbrev pub cold_of : Scalar → State
cold_of e = record {
  schema = int (pos 1);
  phase = cold;
  enrollment_sha256 = e;
  session_nonce = null;
  boot_id = null;
  invocation_id = null;
  pid = null;
  start_ticks = null;
  ram_revision = null;
  ram_ledger_sha256 = null;
  in_flight = idle;
}

-- `enrollment or ""`: what is falsy and no text raises a ValueError, other values a TypeError.
unfoldable pub cold_state : Scalar → Result State
cold_state e = do
  refuse_if (is_null e) "enrollment digest is invalid"
  check_pattern is_hex64 "enrollment digest is invalid" e
  ok (cold_of e)

-- `{**cold, **session, ...}`
abbrev pub activate : State → Session → Head → State
activate c n h = record c {
  session_nonce = n.session_nonce;
  boot_id = n.boot_id;
  invocation_id = n.invocation_id;
  pid = n.pid;
  start_ticks = n.start_ticks;
  phase = active;
  ram_revision = h.revision;
  ram_ledger_sha256 = h.ledger_sha256;
  in_flight = idle;
}

abbrev pub is_cold : Phase → Bool
is_cold cold = true
is_cold _ = false

unfoldable pub start : State → Exact Session → Exact Head → Result State
start c (fields n) (fields h) =
    if is_cold c.phase
    then validate_state (activate c n h)
    else refused "ACTIVE fixture assumptions are malformed"
start c _ _ = refused "ACTIVE fixture assumptions are malformed"

unfoldable pub active_fixture : State → Exact Session → Exact Head → Result State
active_fixture c session head = do _ ← validate_state c; start c session head

abbrev pub binding_of : State → Binding
binding_of s = record {
  enrollment_sha256 = s.enrollment_sha256;
  session_nonce = s.session_nonce;
  boot_id = s.boot_id;
  invocation_id = s.invocation_id;
}

pub client_binding : State → Result Binding
client_binding s = do
  _ ← validate_state s
  refuse_if (not (is_active s.phase)) "only ACTIVE model fixture has a client binding"
  ok (binding_of s)
