-- ===== src/ConfigCas/Admitted.antt =====
-- An inspection as a whole: the request is validated, and then the trace is read.
use proxmox_sharedlvmthin.Base.{
  ◌+◌, ◌*◌, ◌≤◌, ◌<◌, String, true, false, List, ok, ◌≡◌, ◌≢◌, subst, arith, >>=-eq-ok,
}
use proxmox_sharedlvmthin.Base.Checks.{requires, requires-Passed}
use proxmox_sharedlvmthin.Base.Json.{
  Value, null, flag, int, str, blob, array, dict, get, equals, items,
}
use proxmox_sharedlvmthin.Base.Json.Laws.{equals_self}
use proxmox_sharedlvmthin.ConfigCas.Trace.{
  Event, Request, Report, target_observed_nonqualified, evaluate, deadline, max_int,
}
use proxmox_sharedlvmthin.ConfigCas.Settlement.{IsTargetEvidence, evaluate-IsTargetEvidence}
use proxmox_sharedlvmthin.ConfigCas.Admission.{
  bytes_of, is_raw, field_checks, topology_checks, authorization_checks, check_nodes, check_builtin,
  validate_request, request_of,
}

different_bytes :
    (a b : Value) → is_raw a ≡ true → is_raw b ≡ true → equals a b ≡ false → bytes_of a ≢ bytes_of b
different_bytes (blob a) (blob b) h k n e =
    let same : equals (blob a) (blob b) ≡ true =
      subst (λ v. equals (blob a) (blob v) ≡ true) e (equals_self (blob a) tt) in
    ground (arith, same, n)
different_bytes null b h k n e = cc
different_bytes (flag a) b h k n e = cc
different_bytes (int a) b h k n e = cc
different_bytes (str a) b h k n e = cc
different_bytes (array a) b h k n e = cc
different_bytes (dict a) b h k n e = cc
different_bytes (blob a) null h k n e = cc
different_bytes (blob a) (flag b) h k n e = cc
different_bytes (blob a) (int b) h k n e = cc
different_bytes (blob a) (str b) h k n e = cc
different_bytes (blob a) (array b) h k n e = cc
different_bytes (blob a) (dict b) h k n e = cc

-- What the trace is read against: two different texts of bytes and a window of at most half an hour.
pub record IsAdmitted (r : Request) : Type 0 where
  pub positive : r.issued_wall_ns < r.expires_wall_ns
  pub short : r.expires_wall_ns ≤ r.issued_wall_ns + 1800 * 1000000000
  pub in_range : deadline r ≤ max_int
  pub different : r.baseline ≢ r.target

validate_request-IsAdmitted :
    (digest : Value → String) (v : Value)
    → validate_request v ≡ ok tt
    → IsAdmitted (request_of digest v)
unfolding validate_request request_of
validate_request-IsAdmitted digest v h =
    let (_, _, h1) = >>=-eq-ok (check_builtin 0 v) _ h in
    let (_, fields, h2) = >>=-eq-ok (requires (field_checks v)) _ h1 in
    let (_, _, h3) = >>=-eq-ok (check_nodes (items (get "nodes" v))) _ h2 in
    let (_, _, times) = >>=-eq-ok (requires (topology_checks v (items (get "nodes" v)))) _ h3 in
    let (_, (_, (_, (_, (_, (_, (_, (_, (_, (baseline, (target, (other, _)))))))))))) =
      requires-Passed (field_checks v) fields in
    let (_, (_, (_, (_, (_, (window, _)))))) =
      requires-Passed (authorization_checks (get "authorization" v)) times in
    record {
      positive = ground (arith, window);
      short = ground (arith, window);
      in_range = ground (arith, window);
      different =
          different_bytes (get "baseline" v) (get "target" v) baseline target
            (ground (arith, other));
    }

-- An admitted request has a positive window of at most 1800 seconds whose deadline is in range, and
-- bytes that differ; its trace is classified as the target only on durable, timely and exact evidence.
pub validate_request-IsTargetEvidence :
    (digest : Value → String) (v : Value) (events : List Event) (report : Report)
    → validate_request v ≡ ok tt
    → evaluate (request_of digest v) events ≡ ok report
    → report.classification ≡ target_observed_nonqualified
    → IsAdmitted (request_of digest v) × IsTargetEvidence (request_of digest v) report.final
validate_request-IsTargetEvidence digest v events report valid h q =
    let a = validate_request-IsAdmitted digest v valid in
    (
      a,
      evaluate-IsTargetEvidence (request_of digest v) events report (ground (arith, a.positive)) h
          q,
    )
