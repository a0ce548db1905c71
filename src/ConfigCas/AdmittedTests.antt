-- ===== src/ConfigCas/AdmittedTests.antt =====
-- A request for four nodes, a trace of it that settles, and the theorem at them.
use proxmox_sharedlvmthin.Base.{
  ℕ, ◌+◌, String, true, false, some, List, [], ◌∷◌, ◌≡◌, refl, ok, is_hex32, is_hex64, is_uuid,
  is_name, sorted_set, insert_sorted,
}
use proxmox_sharedlvmthin.Base.Int.{pos}
use proxmox_sharedlvmthin.Base.Checks.{requires}
use proxmox_sharedlvmthin.Base.Json.{
  Value, int, str, blob, dict, array, cons, nil, entry, close, get, has_exactly, is_match, is_array,
  items, equals,
}
use proxmox_sharedlvmthin.ConfigCas.Trace.{
  text, flag, number, bytes, Kind, reserve, cas_dispatch, intent_ack, receipt_ack, cas_return,
  quiescence, observe, Event, terminal, Report, run, step, initial, check_envelope, tick, handle,
  is_durability, is_outcome, is_detail, is_rollback, is_expired, compare_bytes, observe_as,
  observe_bytes, observe_result, classify, evaluate, target_observed_nonqualified, seen_target,
}
use proxmox_sharedlvmthin.ConfigCas.Settlement.{IsTargetEvidence}
use proxmox_sharedlvmthin.ConfigCas.Admission.{
  is_model_int, check_builtin, is_hex40, check_nodes, validate_request, request_of,
}
use proxmox_sharedlvmthin.ConfigCas.Admitted.{IsAdmitted, validate_request-IsTargetEvidence}

abbrev hex32 : String
hex32 = "0123456789abcdef0123456789abcdef"

abbrev hex64 : Value
hex64 = str "0123456789abcdef0123456789abcdef0123456789abcdef0123456789abcdef"

abbrev digest_of : Value → String
digest_of v = "f0"

abbrev boot : Value
boot = str "01234567-89ab-4def-8123-456789abcdef"

abbrev node : String → String → Value
node name role =
    dict (entry "node" (str name) (entry "boot_id" boot (entry "role" (str role) close)))

abbrev request : Value
request = dict (
    entry "schema" (str "slt-config-cas-model/v1") (
      entry "tx" (str hex32) (
        entry "generation" (int (pos 1)) (
          entry "attempt_id" (str hex32) (
            entry "context_sha256" hex64 (
              entry "candidate_sha256" hex64 (
                entry "serializer_sha256" hex64 (
                  entry "executor" (dict (entry "node" (str "n1") (entry "boot_id" boot close))) (
                    entry "nodes"
                      (array (
                        cons (node "n1" "SAN_PARTICIPANT") (
                          cons (node "n2" "SAN_PARTICIPANT") (
                            cons (node "n3" "SAN_PARTICIPANT")
                              (cons (node "n4" "CONTROL_ONLY") nil)))))
                      (entry "preinst_sha256"
                        (dict (entry "n1" hex64 (entry "n2" hex64 (entry "n3" hex64 close))))
                        (entry "payload_sha256"
                          (dict (
                            entry "n1" hex64
                              (entry "n2" hex64 (entry "n3" hex64 (entry "n4" hex64 close)))))
                          (entry "baseline" (blob (1 ∷ 2 ∷ [])) (
                            entry "target" (blob (1 ∷ 3 ∷ [])) (
                              entry "baseline_native_digest"
                                (str "0123456789abcdef0123456789abcdef01234567")
                                (entry "authorization"
                                  (dict (
                                    entry "action" (str "MODEL_ONE_CAS_ONLY") (
                                      entry "issued_wall_ns" (int (pos 100)) (
                                        entry "expires_wall_ns" (int (pos 200))
                                          (entry "start_monotonic_ns" (int (pos 10)) close)))))
                                  close)))))))))))))))

abbrev event : ℕ → Kind → Event
event n k = record {
  kind = k;
  sequence = number n;
  attempt_id = text hex32;
  request_sha256 = text "f0";
  wall_ns = number (100 + n);
  monotonic_ns = number (10 + n);
}

abbrev events : List Event
events =
    event 1 reserve
    ∷ event 2 (intent_ack (text "DURABLE"))
    ∷ event 3 cas_dispatch
    ∷ event 4 (cas_return (text "SUCCESS") (text ""))
    ∷ event 5 (quiescence (flag true) (flag true) (flag true))
    ∷ event 6 (observe (text "OK") (bytes (1 ∷ 3 ∷ [])))
    ∷ event 7 (receipt_ack (text "DURABLE"))
    ∷ []

abbrev settled : Report
settled = record {
  classification = target_observed_nonqualified;
  final = record {
    phase = terminal;
    wall = 107;
    mono = 17;
    dispatches = 1;
    outcome = some "SUCCESS";
    detail = some "";
    seen = some seen_target;
    observed_raw = some (1 ∷ 3 ∷ []);
    intent_is_durable = true;
    receipt_is_durable = true;
    crashed = false;
    poison = [];
    settled = true;
  };
}

admitted : validate_request request ≡ ok tt
unfolding validate_request check_builtin is_model_int is_hex40 check_nodes requires get has_exactly
    is_match is_array items equals is_hex32 is_hex64 is_uuid is_name sorted_set insert_sorted
admitted = refl

evaluated : evaluate (request_of digest_of request) events ≡ ok settled
unfolding evaluate request_of get classify run step initial check_envelope tick handle is_durability
    is_outcome is_detail is_rollback is_expired compare_bytes observe_as observe_bytes
    observe_result
evaluated = refl

validate_request-IsTargetEvidence_example :
    IsAdmitted (request_of digest_of request)
    × IsTargetEvidence (request_of digest_of request) settled.final
validate_request-IsTargetEvidence_example =
    validate_request-IsTargetEvidence digest_of request events settled admitted evaluated refl
