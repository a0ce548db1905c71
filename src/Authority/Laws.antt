-- ===== src/Authority/Laws.antt =====
-- One call of the authority: what it accepts, what it may change, and when it poisons.
pub use proxmox_sharedlvmthin.Authority.Validity.{IsValid}
use proxmox_sharedlvmthin.Base.{
  Bool, true, false, ◌≡◌, ◌≢◌, ◌⊎◌, inl, inr, sym, arith, Result, ok, ◌>>=◌, >>=-eq-ok, Bool-cases,
  if◌then◌else◌,
}
use proxmox_sharedlvmthin.Base.Scalars.{Exact, fields, malformed, same}
use proxmox_sharedlvmthin.Authority.State.{
  active, Flight, InFlight, idle, busy, garbled, State, Head, Request, Binding, Response,
  ram_head_advanced, Reply, refusal,
}
use proxmox_sharedlvmthin.Authority.Operations.{
  begin_mutation, observe_head, complete_persist, correlate_response, observe_valid, compare_head,
  begin_request, commit_head, complete_flight, complete_any, correlate_exact, next, is_refuse,
}
use proxmox_sharedlvmthin.Authority.Validity.{validate_first}
use proxmox_sharedlvmthin.Authority.Preservation.{
  observe_head-IsValid, begin_mutation-IsValid, complete_persist-IsValid,
  correlate_response-IsValid,
}

-- A call of one of the four operations on a live authority.
pub data Op : Type 0 where
  observe : Exact Head → Op
  begin : Exact Binding → Exact Head → Exact Request → Op
  complete : Exact Binding → Request → Exact Head → Bool → Op
  correlate : Exact Binding → Exact Request → Exact Response → Op

unfoldable pub step : State → Op → Result Reply
step s (observe d) = observe_head s d
step s (begin b d q) = begin_mutation s b d q
step s (complete b q post committed) = complete_persist s b q post committed
step s (correlate b q p) = correlate_response s b q p

-- Every reply of every operation carries a state that passes `validate_state` again, whatever the
-- arguments were.
pub step-IsValid : (s : State) (op : Op) (r : Reply) → step s op ≡ ok r → IsValid r.state
unfolding step
step-IsValid s (observe d) r e = observe_head-IsValid s d r e
step-IsValid s (begin b d q) r e = begin_mutation-IsValid s b d q r e
step-IsValid s (complete b q post committed) r e = complete_persist-IsValid s b q post committed r e
step-IsValid s (correlate b q p) r e =
    let (v, same_state) = correlate_response-IsValid s b q p r e in rw same_state v

-- The identity of the session, which no operation changes.
pub record SameSession (s t : State) : Type 0 where
  pub enrollment_kept : t.enrollment_sha256 ≡ s.enrollment_sha256
  pub nonce_kept : t.session_nonce ≡ s.session_nonce
  pub boot_kept : t.boot_id ≡ s.boot_id
  pub invocation_kept : t.invocation_id ≡ s.invocation_id
  pub pid_kept : t.pid ≡ s.pid
  pub start_kept : t.start_ticks ≡ s.start_ticks

abbrev pub SameHead : State → State → Type 0
SameHead s t = (t.ram_revision ≡ s.ram_revision) × (t.ram_ledger_sha256 ≡ s.ram_ledger_sha256)

-- A commit of the mutation in flight: the revision goes up by one, the digest changes, and the
-- authority is idle and active.
pub record Commits (s t : State) (f : Flight) : Type 0 where
  pub was_active : s.phase ≡ active
  pub was_busy : s.in_flight ≡ busy f
  pub next_revision : same t.ram_revision (next f.pre_revision) ≡ true
  pub new_digest : same t.ram_ledger_sha256 f.pre_ledger_sha256 ≡ false
  pub now_idle : t.in_flight ≡ idle
  pub still_active : t.phase ≡ active

-- What a reply may do to the head: nothing, or one commit, which is then its action.
abbrev pub Moves : State → Reply → Type 0
Moves s r =
    SameSession s r.state
    × (((r.action ≢ ram_head_advanced) × SameHead s r.state)
        ⊎ ((r.action ≡ ram_head_advanced) × ((f : Flight) × Commits s r.state f)))

observe_valid-Moves :
    (s : State) (d : Exact Head) (r : Reply) → observe_valid s d ≡ ok r → Moves s r
unfolding observe_valid compare_head
observe_valid-Moves s malformed r e = ground arith
observe_valid-Moves s (fields h) r e = ground arith

begin_request-Moves :
    (s : State) (q : Exact Request) (r : Reply) → begin_request s q ≡ ok r → Moves s r
unfolding begin_request
begin_request-Moves s malformed r e = ground arith
begin_request-Moves s (fields q) r e = ground arith

observe_valid-same :
    (s : State) (d : Exact Head) (r : Reply)
    → observe_valid s d ≡ ok r
    → is_refuse r.action ≡ false
    → r.state ≡ s
unfolding observe_valid compare_head
observe_valid-same s malformed r e n = ground arith
observe_valid-same s (fields h) r e n = ground arith

begin_observed-Moves :
    (s : State) (d : Exact Head) (q : Exact Request) (r : Reply)
    → (observe_head s d >>= λ o. if is_refuse o.action then ok o else begin_request o.state q)
      ≡ ok r
    → Moves s r
unfolding observe_head
begin_observed-Moves s d q r e =
    let (o, seen, rest) = >>=-eq-ok (observe_head s d) _ e in
    let (_v, seen') = validate_first s (λ _. observe_valid s d) seen in
    elim (Bool-cases (is_refuse o.action)) [
      | inl y ↦
          let q1 : o ≡ r = ground (arith, y, rest) in rw (sym q1) (observe_valid-Moves s d o seen')
      | inr n ↦
          let q1 = observe_valid-same s d o seen' n in
          let q2 : begin_request s q ≡ ok r = ground (arith, n, rest, q1) in
          begin_request-Moves s q r q2
    ]

commit_head-Moves :
    (s : State) (f : Flight) (h : Head) (r : Reply)
    → s.phase ≡ active
    → s.in_flight ≡ busy f
    → commit_head s f h ≡ ok r
    → Moves s r
unfolding commit_head
commit_head-Moves s f h r p b e = ground arith

complete_flight-Moves :
    (s : State) (f : Flight) (q : Request) (post : Exact Head) (committed : Bool) (r : Reply)
    → s.phase ≡ active
    → s.in_flight ≡ busy f
    → complete_flight s f q post committed ≡ ok r
    → Moves s r
unfolding complete_flight
complete_flight-Moves s f q malformed committed r p b e = ground arith
complete_flight-Moves s f q (fields h) committed r p b e =
    ground (arith, commit_head-Moves s f h r p b)

complete_any-Moves :
    (s : State) (i : InFlight) (q : Request) (post : Exact Head) (committed : Bool) (r : Reply)
    → s.phase ≡ active
    → s.in_flight ≡ i
    → complete_any s i q post committed ≡ ok r
    → Moves s r
unfolding complete_any
complete_any-Moves s (busy f) q post committed r p b e =
    complete_flight-Moves s f q post committed r p b e
complete_any-Moves s idle q post committed r p b e = ground arith
complete_any-Moves s garbled q post committed r p b e = ground arith

refused-Moves : (s : State) (r : Reply) → refusal s ≡ ok r → Moves s r
refused-Moves s r e = ground arith

begin_mutation-Moves :
    (s : State) (b : Exact Binding) (d : Exact Head) (q : Exact Request) (r : Reply)
    → begin_mutation s b d q ≡ ok r
    → Moves s r
unfolding begin_mutation
begin_mutation-Moves s b d q r e =
    let (v, rest) = validate_first s _ e in
    ground (arith, refused-Moves s r, begin_observed-Moves s d q r)

complete_persist-Moves :
    (s : State) (b : Exact Binding) (q : Request) (post : Exact Head) (committed : Bool) (r : Reply)
    → complete_persist s b q post committed ≡ ok r
    → Moves s r
unfolding complete_persist
complete_persist-Moves s b q post committed r e =
    let (v, rest) = validate_first s _ e in
    ground (arith, refused-Moves s r, complete_any-Moves s s.in_flight q post committed r)

correlate_response-Moves :
    (s : State) (b : Exact Binding) (q : Exact Request) (p : Exact Response) (r : Reply)
    → correlate_response s b q p ≡ ok r
    → Moves s r
unfolding correlate_response correlate_exact
correlate_response-Moves s b malformed p r e = ground arith
correlate_response-Moves s b (fields q) malformed r e = ground arith
correlate_response-Moves s b (fields q) (fields p) r e = ground arith

-- No operation changes the identity of the session, and none changes the RAM head but a reply
-- whose action is the advance of it: that one comes out of a mutation in flight, raises the revision
-- by one, changes the digest, and leaves the authority idle and active.
pub step-Moves : (s : State) (op : Op) (r : Reply) → step s op ≡ ok r → Moves s r
unfolding step observe_head
step-Moves s (observe d) r e =
    let (v, rest) = validate_first s (λ _. observe_valid s d) e in observe_valid-Moves s d r rest
step-Moves s (begin b d q) r e = begin_mutation-Moves s b d q r e
step-Moves s (complete b q post committed) r e = complete_persist-Moves s b q post committed r e
step-Moves s (correlate b q p) r e = correlate_response-Moves s b q p r e

-- An authority that is not active, cold or poisoned, refuses every operation and stays as it is.
pub step_inactive : (s : State) (op : Op) → s.phase ≢ active → IsValid s → step s op ≡ refusal s
unfolding step observe_head begin_mutation complete_persist correlate_response observe_valid
step_inactive s (observe d) n v = ground arith
step_inactive s (begin b d q) n v = ground arith
step_inactive s (complete b q post committed) n v = ground arith
step_inactive s (correlate b q p) n v = ground arith
