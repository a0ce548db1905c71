-- ===== src/ConfigCas/Tests.antt =====
-- One settled trace, and the theorems applied to it.
use proxmox_sharedlvmthin.Base.{
  ℕ, ◌+◌, ◌≤◌, true, false, some, List, [], ◌∷◌, ◌≡◌, ◌≢◌, ◌⊎◌, refl, arith, ok, length,
}
use proxmox_sharedlvmthin.ConfigCas.Trace.{
  text, flag, number, bytes, Kind, reserve, cas_dispatch, intent_ack, receipt_ack, cas_return,
  quiescence, observe, Event, Request, terminal, State, run, step, initial, check_envelope, tick,
  handle, is_durability, is_outcome, is_detail, is_rollback, is_expired, compare_bytes, observe_as,
  observe_bytes, observe_result, classify, evaluate, Classification, target_observed_nonqualified,
  seen_target, baseline_observed_nonqualified, foreign_observed_retain,
}
use proxmox_sharedlvmthin.ConfigCas.Effects.{dispatched, evaluate_effects}
use proxmox_sharedlvmthin.ConfigCas.Bound.{run-length}
use proxmox_sharedlvmthin.ConfigCas.Settlement.{evaluate_no_contradiction}

abbrev request : Request
request = record {
  attempt_id = "a1";
  request_sha256 = "f0";
  baseline = 1 ∷ 2 ∷ [];
  target = 1 ∷ 3 ∷ [];
  issued_wall_ns = 100;
  expires_wall_ns = 200;
  start_monotonic_ns = 10;
}

abbrev event : ℕ → Kind → Event
event n k = record {
  kind = k;
  sequence = number n;
  attempt_id = text "a1";
  request_sha256 = text "f0";
  wall_ns = number (100 + n);
  monotonic_ns = number (10 + n);
}

abbrev events : List Event
events =
    event 1 reserve
    ∷ event 2 (intent_ack (text "DURABLE"))
    ∷ event 3 cas_dispatch
    ∷ event 4 (cas_return (text "SUCCESS") (text ""))
    ∷ event 5 (quiescence (flag true) (flag true) (flag true))
    ∷ event 6 (observe (text "OK") (bytes (1 ∷ 3 ∷ [])))
    ∷ event 7 (receipt_ack (text "DURABLE"))
    ∷ []

abbrev settled_state : State
settled_state = record {
  phase = terminal;
  wall = 107;
  mono = 17;
  dispatches = 1;
  outcome = some "SUCCESS";
  detail = some "";
  seen = some seen_target;
  observed_raw = some (1 ∷ 3 ∷ []);
  intent_is_durable = true;
  receipt_is_durable = true;
  crashed = false;
  poison = [];
  settled = true;
}

run-events : run request 1 (initial request) events ≡ ok settled_state
unfolding run step initial check_envelope tick handle is_durability is_outcome is_detail is_rollback
    is_expired compare_bytes observe_as observe_bytes observe_result
run-events = refl

evaluate-events :
    evaluate request events
    ≡ ok (record { classification = target_observed_nonqualified; final = settled_state })
unfolding evaluate classify run step initial check_envelope tick handle is_durability is_outcome
    is_detail is_rollback is_expired compare_bytes observe_as observe_bytes observe_result
evaluate-events = refl

evaluate_effects_example :
    ((dispatched events ≡ 0) ⊎ ((dispatched events ≡ 1) × (settled_state.intent_is_durable ≡ true)))
    × (settled_state.dispatches ≡ dispatched events)
    × ((c : Classification) × (evaluate request events
          ≡ ok (record { classification = c; final = settled_state })))
evaluate_effects_example = evaluate_effects request settled_state events run-events (omega arith)

run-length_example : length events ≤ 9
run-length_example = run-length request settled_state events run-events

evaluate_no_contradiction_example :
    (target_observed_nonqualified ≢ baseline_observed_nonqualified)
    × (target_observed_nonqualified ≢ foreign_observed_retain)
evaluate_no_contradiction_example =
    evaluate_no_contradiction request events
      (record { classification = target_observed_nonqualified; final = settled_state })
      (omega arith) evaluate-events refl
