-- ===== src/ConfigCas/Trace.antt =====
-- `evaluate` from its event loop on, for a request that `validate_request` accepted. Numbers that
-- `_number` accepts are naturals.
use proxmox_sharedlvmthin.Base.{
  ℕ, suc, ◌+◌, ◌-◌, String, Bool, true, false, not, ◌&&◌, ◌||◌, Option, none, some, List, [], ◌∷◌,
  ◌++◌, Result, ok, refused, ◌>>=◌, ◌>>◌, require, if◌then◌else◌, ltb, leb, ◌==◌, str_eq, any,
  length, codes, is_empty,
}

-- A value of an event: `None`, a `bool`, an `int` from 0 on, a `str`, `bytes`, or any other.
pub data Field : Type 0 where
  absent : Field
  flag : Bool → Field
  number : ℕ → Field
  text : String → Field
  bytes : List ℕ → Field
  foreign : Field

-- An event with exactly the keys of its kind.
pub data Kind : Type 0 where
  reserve cas_dispatch crash : Kind
  intent_ack receipt_ack : (durability : Field) → Kind
  cas_return : (outcome detail : Field) → Kind
  quiescence : (executor_terminated config_lock_held barrier_current : Field) → Kind
  observe : (result raw : Field) → Kind

pub record Event : Type 0 where
  pub kind : Kind
  pub sequence : Field
  pub attempt_id : Field
  pub request_sha256 : Field
  pub wall_ns : Field
  pub monotonic_ns : Field

-- What the loop reads of a valid request.
pub record Request : Type 0 where
  pub attempt_id : String
  pub request_sha256 : String
  pub baseline : List ℕ
  pub target : List ℕ
  pub issued_wall_ns : ℕ
  pub expires_wall_ns : ℕ
  pub start_monotonic_ns : ℕ

pub data Phase : Type 0 where
  new intent_pending intent_durable cas_dispatched settlement_pending settlement_admitted observed
        terminal :
      Phase

pub data Reason : Type 0 where
  wall_clock_rollback expired intent_durability_unproven settlement_publication_interrupted
        success_observation_contradiction settlement_durability_unproven :
      Reason

pub data Seen : Type 0 where
  seen_target seen_baseline seen_foreign seen_unknown : Seen

pub record State : Type 0 where
  pub phase : Phase
  pub wall : ℕ
  pub mono : ℕ
  pub dispatches : ℕ
  pub outcome : Option String
  pub detail : Option String
  pub seen : Option Seen
  pub observed_raw : Option (List ℕ)
  pub intent_is_durable : Bool
  pub receipt_is_durable : Bool
  pub crashed : Bool
  pub poison : List Reason
  pub settled : Bool

abbrev pub max_int : ℕ
max_int = 9223372036854775807

abbrev pub max_bytes : ℕ
max_bytes = 1048576

abbrev pub max_events : ℕ
max_events = 16

abbrev pub eq_bytes : List ℕ → List ℕ → Bool
eq_bytes [] [] = true
eq_bytes [] (y ∷ ys) = false
eq_bytes (x ∷ xs) [] = false
eq_bytes (x ∷ xs) (y ∷ ys) = x == y && eq_bytes xs ys

abbrev pub is_text : String → Field → Bool
is_text s (text t) = str_eq t s
is_text s _ = false

abbrev pub is_true : Field → Bool
is_true (flag b) = b
is_true _ = false

abbrev pub is_phase : Phase → Phase → Bool
is_phase new new = true
is_phase intent_pending intent_pending = true
is_phase intent_durable intent_durable = true
is_phase cas_dispatched cas_dispatched = true
is_phase settlement_pending settlement_pending = true
is_phase settlement_admitted settlement_admitted = true
is_phase observed observed = true
is_phase terminal terminal = true
is_phase _ _ = false

-- `_number`
abbrev pub number_of : String → Field → Result ℕ
number_of label (number n) = if leb n max_int then ok n else refused label
number_of label _ = refused label

abbrev pub text_of : Field → Option String
text_of (text t) = some t
text_of _ = none

-- `x in ("DURABLE", "FAILED", "UNKNOWN")`
unfoldable pub is_durability : Field → Bool
is_durability f = is_text "DURABLE" f || is_text "FAILED" f || is_text "UNKNOWN" f

unfoldable pub is_outcome : Field → Bool
is_outcome f = is_text "SUCCESS" f || is_text "ERROR" f || is_text "UNKNOWN" f

unfoldable pub is_detail : Field → Bool
is_detail (text t) = leb (length (codes t)) 4096
is_detail _ = false

unfoldable pub is_rollback : Reason → Bool
is_rollback wall_clock_rollback = true
is_rollback _ = false

unfoldable pub is_expired : Reason → Bool
is_expired expired = true
is_expired _ = false

-- `if "X" not in poison: poison.append("X")`
abbrev pub poison_when : Bool → (Reason → Bool) → Reason → List Reason → List Reason
poison_when due is_reason reason poison =
    if due && not (any is_reason poison) then poison ++ reason ∷ [] else poison

abbrev pub deadline : Request → ℕ
deadline r = r.start_monotonic_ns + r.expires_wall_ns - r.issued_wall_ns

-- The clocks of an event, after its sequence number and its binding to the request.
unfoldable pub check_envelope : Request → ℕ → State → Event → Result (ℕ × ℕ)
check_envelope r index s e = do
  sequence ← number_of "sequence invalid" e.sequence
  require
      (sequence == index
        && is_text r.attempt_id e.attempt_id
        && is_text r.request_sha256 e.request_sha256)
      "event binding invalid"
  wall ← number_of "wall_ns invalid" e.wall_ns
  mono ← number_of "monotonic_ns invalid" e.monotonic_ns
  require (leb s.mono mono) "monotonic clock regressed"
  require (not (is_phase terminal s.phase)) "terminal attempt cannot continue"
  ok (wall, mono)

-- What the clocks of an event add to the poison.
unfoldable pub tick : Request → State → ℕ → ℕ → State
tick r s wall mono = record s {
  wall = wall;
  mono = mono;
  poison =
      poison_when (ltb r.expires_wall_ns wall || ltb (deadline r) mono) is_expired expired
        (poison_when (ltb wall s.wall) is_rollback wall_clock_rollback s.poison);
}

abbrev pub add_when : Bool → Reason → List Reason → List Reason
add_when due reason poison = if due then poison ++ reason ∷ [] else poison

abbrev pub is_success : Option String → Bool
is_success none = false
is_success (some t) = str_eq t "SUCCESS"

abbrev pub is_target : Seen → Bool
is_target seen_target = true
is_target _ = false

unfoldable pub compare_bytes : Request → List ℕ → Seen
compare_bytes r raw =
    if eq_bytes raw r.target
    then seen_target
    else if eq_bytes raw r.baseline
    then seen_baseline
    else seen_foreign

unfoldable pub observe_as : State → Option (List ℕ) → Seen → State
observe_as s raw seen = record s {
  phase = observed;
  settled = true;
  observed_raw = raw;
  seen = some seen;
  poison =
      add_when (is_success s.outcome && not (is_target seen)) success_observation_contradiction
        s.poison;
}

-- The bytes of an observation that succeeded.
unfoldable pub observe_bytes : Request → State → Field → Result State
observe_bytes r s (bytes raw) = do
  require (leb (length raw) max_bytes) "observation bytes invalid"
  ok (observe_as s (some raw) (compare_bytes r raw))
observe_bytes r s _ = refused "observation bytes invalid"

abbrev pub is_absent : Field → Bool
is_absent absent = true
is_absent _ = false

-- An observation that failed claims no bytes.
unfoldable pub observe_error : State → Field → Result State
observe_error s raw = do
  require (is_absent raw) "failed observation must not claim bytes"
  ok (observe_as s s.observed_raw seen_unknown)

unfoldable pub observe_result : Request → State → Field → Field → Result State
observe_result r s result raw =
    if is_text "ERROR" result then observe_error s raw else observe_bytes r s raw

unfoldable pub handle : Request → State → Kind → Result State
handle r s reserve = do
  require (is_phase new s.phase && is_empty s.poison) "reservation not admissible"
  ok (record s { phase = intent_pending })
handle r s (intent_ack durability) = do
  require (is_phase intent_pending s.phase) "intent acknowledgement out of order"
  require (is_durability durability) "intent durability invalid"
  ok (record s {
    intent_is_durable = is_text "DURABLE" durability;
    phase = if is_text "DURABLE" durability then intent_durable else terminal;
    poison = add_when (not (is_text "DURABLE" durability)) intent_durability_unproven s.poison;
  })
handle r s cas_dispatch = do
  require
      (is_phase intent_durable s.phase
        && s.intent_is_durable
        && not s.crashed
        && is_empty s.poison
        && s.dispatches == 0)
      "CAS dispatch not admissible"
  ok (record s { dispatches = 1; phase = cas_dispatched })
handle r s (cas_return outcome detail) = do
  require (is_phase cas_dispatched s.phase) "CAS return out of order"
  require (is_outcome outcome) "CAS outcome invalid"
  require (is_detail detail) "CAS detail invalid"
  ok (record s { outcome = text_of outcome; detail = text_of detail; phase = settlement_pending })
handle r s crash = do
  require (not (is_phase new s.phase) && not s.crashed) "crash out of order"
  ok (record s {
    crashed = true;
    phase = if s.settled then terminal else settlement_pending;
    poison = add_when s.settled settlement_publication_interrupted s.poison;
  })
handle r s (quiescence executor_terminated config_lock_held barrier_current) = do
  require (is_phase settlement_pending s.phase) "quiescence out of order"
  require (is_true executor_terminated && is_true config_lock_held && is_true barrier_current)
      "settlement requires quiescence, serialization and barrier"
  ok (record s { phase = settlement_admitted })
handle r s (observe result raw) = do
  require (is_phase settlement_admitted s.phase) "observation out of order"
  require (is_text "OK" result || is_text "ERROR" result) "observation result invalid"
  observe_result r s result raw
handle r s (receipt_ack durability) = do
  require (is_phase observed s.phase) "receipt acknowledgement out of order"
  require (is_durability durability) "receipt durability invalid"
  ok (record s {
    receipt_is_durable = is_text "DURABLE" durability;
    poison = add_when (not (is_text "DURABLE" durability)) settlement_durability_unproven s.poison;
    phase = terminal;
  })

-- The body of the loop.
unfoldable pub step : Request → ℕ → State → Event → Result State
step r index s e = do
  clocks ← check_envelope r index s e
  handle r (tick r s clocks.0 clocks.1) e.kind

unfoldable pub run : Request → ℕ → State → List Event → Result State
run r index s [] = ok s
run r index s (e ∷ events) = step r index s e >>= λ t. run r (suc index) t events

unfoldable pub initial : Request → State
initial r = record {
  phase = new;
  wall = r.issued_wall_ns;
  mono = r.start_monotonic_ns;
  dispatches = 0;
  outcome = none;
  detail = none;
  seen = none;
  observed_raw = none;
  intent_is_durable = false;
  receipt_is_durable = false;
  crashed = false;
  poison = [];
  settled = false;
}

pub data Classification : Type 0 where
  new_no_effect unknown_retain target_observed_nonqualified baseline_observed_nonqualified
        foreign_observed_retain :
      Classification

-- The table of the classifications; looking up `None` raises a KeyError.
abbrev pub classification_of : Option Seen → Result Classification
classification_of none = refused "KeyError: None"
classification_of (some seen_target) = ok target_observed_nonqualified
classification_of (some seen_baseline) = ok baseline_observed_nonqualified
classification_of (some seen_foreign) = ok foreign_observed_retain
classification_of (some seen_unknown) = ok unknown_retain

unfoldable pub classify : State → Result Classification
classify s =
    if s.receipt_is_durable && is_empty s.poison
    then classification_of s.seen
    else if is_phase new s.phase
    then ok new_no_effect
    else ok unknown_retain

-- What the report is made of; its other fields are constants and digests of the arguments.
pub record Report : Type 0 where
  pub classification : Classification
  pub final : State

unfoldable pub evaluate : Request → List Event → Result Report
evaluate r events = do
  require (leb (length events) max_events) "event list invalid"
  s ← run r 1 (initial r) events
  c ← classify s
  ok (record { classification = c; final = s })
