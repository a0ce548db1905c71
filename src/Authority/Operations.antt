-- ===== src/Authority/Operations.antt =====
-- The operations on a live authority. A reply carries the next state; an exception leaves the caller
-- with the state that it had.
use proxmox_sharedlvmthin.Base.{
  Bool, true, false, not, ◌&&◌, ◌||◌, Result, ok, ◌>>=◌, is_hex32, is_hex64, if◌then◌else◌,
}
use proxmox_sharedlvmthin.Base.Int.{pos, ◌+ℤ◌}
use proxmox_sharedlvmthin.Base.Scalars.{
  Scalar, int, Exact, fields, malformed, same, is_int, fullmatch,
}
use proxmox_sharedlvmthin.Authority.State.{
  Flight, InFlight, State, Head, Request, Binding, Response, Verb, Reply, refusal, reply, is_idle,
  is_active, validate_state, cold_state, poisoned, idle, busy, refuse, head_match, begin_assumed,
  ram_head_advanced, response_correlation,
}

unfoldable pub binding_matches : State → Exact Binding → Bool
binding_matches s malformed = false
binding_matches s (fields b) =
    same b.enrollment_sha256 s.enrollment_sha256
    && same b.session_nonce s.session_nonce
    && same b.boot_id s.boot_id
    && same b.invocation_id s.invocation_id

abbrev pub poison : State → State
poison s = record s { phase = poisoned }

unfoldable pub same_head : State → Head → Bool
same_head s h = same h.revision s.ram_revision && same h.ledger_sha256 s.ram_ledger_sha256

unfoldable pub compare_head : State → Head → Result Reply
compare_head s h = if not (is_int h.revision) then refusal (poison s) else do
  matched ← fullmatch is_hex64 h.ledger_sha256
  if not matched
      then refusal (poison s)
      else if not (same_head s h)
      then refusal (poison s)
      else reply head_match s

-- The part of `observe_head` after `validate_state`.
unfoldable pub observe_valid : State → Exact Head → Result Reply
observe_valid s disk_head =
    if not (is_active s.phase)
    then refusal s
    else if not (is_idle s.in_flight)
    then refusal s
    else elim disk_head [ fields h ↦ compare_head s h | malformed ↦ refusal (poison s) ]

unfoldable pub observe_head : State → Exact Head → Result Reply
observe_head s disk_head = do _ ← validate_state s; observe_valid s disk_head

abbrev pub flight_of : State → Request → Flight
flight_of s r = record {
  request_id = r.request_id;
  transaction = r.transaction;
  attempt = r.attempt;
  pre_revision = s.ram_revision;
  pre_ledger_sha256 = s.ram_ledger_sha256;
}

-- `all(HEX32.fullmatch(request.get(name, "")) for name in request)`
unfoldable pub request_matches : Request → Result Bool
request_matches r = do
  a ← fullmatch is_hex32 r.request_id
  if not a then ok false else do
    b ← fullmatch is_hex32 r.transaction
    if not b then ok false else fullmatch is_hex32 r.attempt

unfoldable pub begin_request : State → Exact Request → Result Reply
begin_request s malformed = refusal s
begin_request s (fields r) = do
  matched ← request_matches r
  if not matched
      then refusal s
      else reply begin_assumed (record s { in_flight = busy (flight_of s r) })

abbrev pub is_refuse : Verb → Bool
is_refuse refuse = true
is_refuse _ = false

unfoldable pub begin_mutation : State → Exact Binding → Exact Head → Exact Request → Result Reply
begin_mutation s binding disk_head request = do
  _ ← validate_state s
  if not (is_active s.phase)
      then refusal s
      else if not (binding_matches s binding)
      then refusal s
      else if not (is_idle s.in_flight)
      then refusal s
      else do
        observed ← observe_head s disk_head
        if is_refuse observed.action then ok observed else begin_request observed.state request

unfoldable pub same_request : Request → Flight → Bool
same_request r f =
    same r.request_id f.request_id && same r.transaction f.transaction && same r.attempt f.attempt

abbrev pub next : Scalar → Scalar
next (int a) = int (a +ℤ pos 1)
next v = v

-- `persist_outcome == "EXACT_COMMITTED"` is the Boolean. The tests stop at the first that fails, so
-- that a digest that is no text raises only after the revision was found right.
unfoldable pub commit_head : State → Flight → Head → Result Reply
commit_head s f h =
    if not (is_int h.revision && same h.revision (next f.pre_revision))
    then refusal (poison s)
    else do
      matched ← fullmatch is_hex64 h.ledger_sha256
      if not matched || same h.ledger_sha256 f.pre_ledger_sha256
          then refusal (poison s)
          else reply ram_head_advanced (record s {
            ram_revision = h.revision;
            ram_ledger_sha256 = h.ledger_sha256;
            in_flight = idle;
          })

unfoldable pub complete_flight : State → Flight → Request → Exact Head → Bool → Result Reply
complete_flight s f r post_head committed =
    if not (same_request r f)
    then refusal s
    else if not committed
    then refusal (poison s)
    else elim post_head [ malformed ↦ refusal (poison s) | fields h ↦ commit_head s f h ]

unfoldable pub complete_any : State → InFlight → Request → Exact Head → Bool → Result Reply
complete_any s (busy f) r post_head committed = complete_flight s f r post_head committed
complete_any s _ r post_head committed = refusal s

-- A request without one of the keys has `null` there.
unfoldable pub complete_persist : State → Exact Binding → Request → Exact Head → Bool → Result Reply
complete_persist s binding r post_head committed = do
  _ ← validate_state s
  if not (is_active s.phase) || not (binding_matches s binding)
      then refusal s
      else complete_any s s.in_flight r post_head committed

unfoldable pub process_lost : State → Result State
process_lost s = do _ ← validate_state s; cold_state s.enrollment_sha256

unfoldable pub response_matches : State → Request → Response → Bool
response_matches s r p =
    same p.session_nonce s.session_nonce
    && same p.request_id r.request_id
    && same p.transaction r.transaction
    && same p.attempt r.attempt
    && is_int p.ledger_revision
    && same p.ledger_revision s.ram_revision
    && same p.ledger_sha256 s.ram_ledger_sha256

unfoldable pub correlate_exact : State → Exact Request → Exact Response → Result Reply
correlate_exact s malformed response = refusal s
correlate_exact s (fields r) response = do
  matched ← request_matches r
  if not matched then refusal s else elim response [
    | malformed ↦ refusal s
    | fields p ↦ if response_matches s r p then reply response_correlation s else refusal s
  ]

unfoldable pub correlate_response :
    State → Exact Binding → Exact Request → Exact Response → Result Reply
correlate_response s binding expected response = do
  _ ← validate_state s
  if not (is_active s.phase) || not (binding_matches s binding)
      then refusal s
      else if not (is_idle s.in_flight)
      then refusal s
      else correlate_exact s expected response
