-- ===== src/Authority/Tests.antt =====
-- One session of the authority, and the theorems applied to it.
use proxmox_sharedlvmthin.Base.{
  ◌+◌, String, true, List, [], ◌∷◌, ◌≡◌, ◌≢◌, ◌⊎◌, refl, ok, refused, is_hex32, is_hex64,
  is_boot_id,
}
use proxmox_sharedlvmthin.Base.Int.{pos, ◌+ℤ◌}
use proxmox_sharedlvmthin.Base.Scalars.{Scalar, null, int, str, fields}
use proxmox_sharedlvmthin.Authority.State.{
  active, poisoned, State, Head, Request, Session, reply, refusal, validate_state, check_common,
  check_phase, check_session, check_live, check_flight, check_cold, cold_of, activate,
  active_fixture, start, binding_of, head_match, begin_assumed, ram_head_advanced,
  response_correlation,
}
use proxmox_sharedlvmthin.Authority.Operations.{
  poison, observe_head, observe_valid, compare_head, same_head, begin_mutation, begin_request,
  request_matches, complete_persist, complete_any, complete_flight, commit_head, same_request,
  binding_matches, flight_of, correlate_response,
}
use proxmox_sharedlvmthin.Authority.Validity.{IsValid}
use proxmox_sharedlvmthin.Authority.Laws.{
  Op, observe, begin, complete, step, step-IsValid, step-Moves, Moves,
}
use proxmox_sharedlvmthin.Authority.Traces.{run, advances, run-revision}
use proxmox_sharedlvmthin.Authority.Cycle.{
  IsReady, Follows, head_of, begun, advanced, response_of, mutation_cycle,
}
use proxmox_sharedlvmthin.Authority.Guards.{observe_head_verdict, observe_head_raises, step_busy}

abbrev a32 : Scalar
a32 = str "aaaaaaaaaaaaaaaaaaaaaaaaaaaaaaaa"

abbrev b32 : Scalar
b32 = str "bbbbbbbbbbbbbbbbbbbbbbbbbbbbbbbb"

abbrev c32 : Scalar
c32 = str "0123456789abcdef0123456789abcdef"

abbrev a64 : Scalar
a64 = str "aaaaaaaaaaaaaaaaaaaaaaaaaaaaaaaaaaaaaaaaaaaaaaaaaaaaaaaaaaaaaaaa"

abbrev b64 : Scalar
b64 = str "bbbbbbbbbbbbbbbbbbbbbbbbbbbbbbbbbbbbbbbbbbbbbbbbbbbbbbbbbbbbbbbb"

abbrev boot : Scalar
boot = str "01234567-89ab-cdef-0123-456789abcdef"

abbrev session : Session
session = record {
  session_nonce = a32;
  boot_id = boot;
  invocation_id = b32;
  pid = int (pos 41);
  start_ticks = int (pos 900);
}

abbrev first_head : Head
first_head = record { revision = int (pos 7); ledger_sha256 = a64 }

abbrev next_head : Head
next_head = record { revision = int (pos 8); ledger_sha256 = b64 }

abbrev request : Request
request = record { request_id = a32; transaction = b32; attempt = c32 }

abbrev live : State
live = activate (cold_of a64) session first_head

abbrev life : List Op
life =
    begin (fields (binding_of live)) (fields first_head) (fields request)
    ∷ begin (fields (binding_of live)) (fields first_head) (fields request)
    ∷ complete (fields (binding_of live)) request (fields next_head) true
    ∷ observe (fields next_head)
    ∷ observe (fields first_head)
    ∷ []

live-IsValid : IsValid live
unfolding validate_state check_common check_phase check_session check_live check_flight is_hex64
    is_hex32 is_boot_id
live-IsValid = refl

live-IsReady : IsReady live
live-IsReady = record { valid = live-IsValid; is_live = refl; not_busy = refl }

next_head-Follows : Follows live next_head
unfolding ◌+ℤ◌ is_hex64
next_head-Follows = record { one_more = refl; is_digest = refl; other_digest = refl }

begun-IsValid : IsValid (begun live request)
unfolding validate_state check_common check_phase check_session check_live check_flight is_hex64
    is_hex32 is_boot_id
begun-IsValid = refl

poisoned-IsValid : IsValid (poison live)
unfolding validate_state check_common check_phase check_session check_live check_flight is_hex64
    is_hex32 is_boot_id
poisoned-IsValid = refl

-- The second begin is refused, the commit advances, and the observation of the old head poisons.
run-life : run live life ≡ poison (advanced live next_head)
unfolding run step validate_state check_common check_phase check_session check_live check_flight
    is_hex64 is_hex32 is_boot_id observe_head observe_valid compare_head same_head begin_mutation
    begin_request request_matches complete_persist complete_any complete_flight commit_head
    same_request binding_matches ◌+ℤ◌
run-life = refl

advances-life : advances live life ≡ 1
unfolding advances step validate_state check_common check_phase check_session check_live
    check_flight is_hex64 is_hex32 is_boot_id observe_head observe_valid compare_head same_head
    begin_mutation begin_request request_matches complete_persist complete_any complete_flight
    commit_head same_request binding_matches ◌+ℤ◌
advances-life = refl

commits :
    step (begun live request) (complete (fields (binding_of live)) request (fields next_head) true)
    ≡ reply ram_head_advanced (advanced live next_head)
unfolding step validate_state check_common check_phase check_session check_live check_flight
    is_hex64 is_hex32 is_boot_id complete_persist complete_any complete_flight commit_head
    same_request binding_matches ◌+ℤ◌
commits = refl

fixture_starts : active_fixture (cold_of a64) (fields session) (fields first_head) ≡ ok live
unfolding active_fixture start validate_state check_common check_phase check_cold check_session
    check_live check_flight is_hex64 is_hex32 is_boot_id
fixture_starts = refl

poisoned-active : ¬ (poisoned ≡ active)
poisoned-active q = cc

null-str : (t : String) → null ≢ str t
null-str t q = cc

step-IsValid_example : IsValid (advanced live next_head)
step-IsValid_example =
    step-IsValid (begun live request)
      (complete (fields (binding_of live)) request (fields next_head) true)
      (record { action = ram_head_advanced; state = advanced live next_head }) commits

step-Moves_example :
    Moves
      (begun live request)
      (record { action = ram_head_advanced; state = advanced live next_head })
step-Moves_example =
    step-Moves (begun live request)
      (complete (fields (binding_of live)) request (fields next_head) true)
      (record { action = ram_head_advanced; state = advanced live next_head }) commits

run-revision_example : (run live life).ram_revision ≡ int (pos (7 + advances live life))
run-revision_example = run-revision live life 7 live-IsValid refl

mutation_cycle_example :
    (begin_mutation live (fields (binding_of live)) (fields (head_of live)) (fields request)
      ≡ reply begin_assumed (begun live request))
    × (complete_persist
          (begun live request)
          (fields (binding_of live))
          request
          (fields next_head)
          true
        ≡ reply ram_head_advanced (advanced live next_head))
    × IsReady (advanced live next_head)
    × (correlate_response
          (advanced live next_head)
          (fields (binding_of live))
          (fields request)
          (fields (response_of (advanced live next_head) request))
        ≡ reply response_correlation (advanced live next_head))
unfolding request_matches is_hex32
mutation_cycle_example = mutation_cycle live request next_head live-IsReady refl next_head-Follows

observe_head_verdict_example :
    ((fields next_head ≡ fields (head_of live))
      × (observe_head live (fields next_head) ≡ reply head_match live))
    ⊎ ((fields next_head ≢ fields (head_of live))
        × (observe_head live (fields next_head) ≡ refusal (poison live)))
observe_head_verdict_example =
    observe_head_verdict live (fields next_head) live-IsReady
      ("bbbbbbbbbbbbbbbbbbbbbbbbbbbbbbbbbbbbbbbbbbbbbbbbbbbbbbbbbbbbbbbb", refl)

observe_head_raises_example :
    (m : String) × (observe_head live
        (fields (record { revision = int (pos 7); ledger_sha256 = null }))
      ≡ refused m)
observe_head_raises_example =
    observe_head_raises live (pos 7) null live-IsReady (λ t q. null-str t q)

step_busy_example :
    step (begun live request) (observe (fields next_head)) ≡ refusal (begun live request)
step_busy_example =
    step_busy (begun live request) (flight_of live request) (observe (fields next_head))
      begun-IsValid refl refl (λ q. q)
