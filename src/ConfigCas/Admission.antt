-- ===== src/ConfigCas/Admission.antt =====
-- `validate_request` and `_builtin`. A `Value` is a tree of built-in values, so that the tests for
-- other types and for cycles have nothing to refuse.
use proxmox_sharedlvmthin.Base.{
  ℕ, suc, ◌+◌, ◌-◌, ◌*◌, String, Bool, true, false, not, ◌&&◌, List, [], ◌∷◌, map, keep, all,
  length, Result, ok, ◌>>◌, ltb, leb, ◌==◌, codes, is_hex, is_hex32, is_hex64, is_uuid, is_name,
  contains, sorted_set, same_texts, if◌then◌else◌,
}
use proxmox_sharedlvmthin.Base.Int.{pos}
use proxmox_sharedlvmthin.Base.Checks.{◌//◌, requires}
use proxmox_sharedlvmthin.Base.Json.{
  Value, null, flag, int, str, blob, array, dict, Items, nil, cons, Entries, close, entry, keys_of,
  get, has_exactly, is_match, is_array, is_text, is_one_of, items, equals, text_of,
}
use proxmox_sharedlvmthin.ConfigCas.Trace.{Request, max_bytes, max_int}

-- `0 <= value <= MAX_INT`, of an `int`.
unfoldable pub is_model_int : Value → Bool
is_model_int (int (pos n)) = leb n max_int
is_model_int _ = false

abbrev depth_check : ℕ → List (Bool × String)
depth_check depth = (leb depth 16 // "input nesting exceeds bound") ∷ []

unfoldable mutual
  pub check_builtin : ℕ → Value → Result (Unit {0})
  check_builtin depth (str s) =
      requires (depth_check depth)
      >> requires ((leb (length (codes s)) max_bytes // "input scalar exceeds bound") ∷ [])
  check_builtin depth (blob bs) =
      requires (depth_check depth)
      >> requires ((leb (length bs) max_bytes // "input scalar exceeds bound") ∷ [])
  check_builtin depth (int n) =
      requires (depth_check depth)
      >> requires ((is_model_int (int n) // "integer outside model range") ∷ [])
  check_builtin depth (array xs) =
      requires (depth_check depth)
      >> requires ((leb (length (items (array xs))) 64 // "input container exceeds bound") ∷ [])
      >> check_items (suc depth) xs
  check_builtin depth (dict fs) =
      requires (depth_check depth)
      >> requires ((leb (length (keys_of fs)) 64 // "input container exceeds bound") ∷ [])
      >> check_entries (suc depth) fs
  check_builtin depth null = requires (depth_check depth)
  check_builtin depth (flag b) = requires (depth_check depth)

  pub check_items : ℕ → Items → Result (Unit {0})
  check_items depth nil = ok tt
  check_items depth (cons v rest) = check_builtin depth v >> check_items depth rest

  pub check_entries : ℕ → Entries → Result (Unit {0})
  check_entries depth close = ok tt
  check_entries depth (entry key v rest) =
      requires ((leb (length (codes key)) 128 // "namespace key exceeds bound") ∷ [])
      >> check_builtin depth v
      >> check_entries depth rest

abbrev pub bytes_of : Value → List ℕ
bytes_of (blob bs) = bs
bytes_of _ = []

abbrev pub nat_of : Value → ℕ
nat_of (int (pos n)) = n
nat_of _ = 0

abbrev pub is_raw : Value → Bool
is_raw (blob bs) = ltb 0 (length bs) && leb (length bs) max_bytes
is_raw _ = false

unfoldable pub is_hex40 : String → Bool
is_hex40 s = length (codes s) == 40 && all is_hex (codes s)

abbrev pub field_checks : Value → List (Bool × String)
field_checks r =
    (has_exactly
        ("schema" ∷ "tx" ∷ "generation" ∷ "attempt_id" ∷ "context_sha256" ∷ "candidate_sha256"
          ∷ "serializer_sha256" ∷ "executor" ∷ "nodes" ∷ "preinst_sha256" ∷ "payload_sha256"
          ∷ "baseline" ∷ "target" ∷ "baseline_native_digest" ∷ "authorization" ∷ [])
        r
      // "request fields invalid")
    ∷ (is_text "slt-config-cas-model/v1" (get "schema" r) // "request schema invalid")
    ∷ (is_match is_hex32 (get "tx" r) // "tx invalid")
    ∷ (is_match is_hex32 (get "attempt_id" r) // "attempt_id invalid")
    ∷ (is_model_int (get "generation" r) // "generation invalid")
    ∷ (ltb 0 (nat_of (get "generation" r)) // "generation must be positive")
    ∷ (is_match is_hex64 (get "context_sha256" r) // "context_sha256 invalid")
    ∷ (is_match is_hex64 (get "candidate_sha256" r) // "candidate_sha256 invalid")
    ∷ (is_match is_hex64 (get "serializer_sha256" r) // "serializer_sha256 invalid")
    ∷ (is_raw (get "baseline" r) // "baseline must be nonempty exact bytes")
    ∷ (is_raw (get "target" r) // "target must be nonempty exact bytes")
    ∷ (not (equals (get "baseline" r) (get "target" r)) // "baseline and target are identical")
    ∷ (is_match is_hex40 (get "baseline_native_digest" r) // "native digest invalid")
    ∷ (is_array (get "nodes" r) && length (items (get "nodes" r)) == 4
        // "exactly four nodes required")
    ∷ []

abbrev node_checks : Value → List (Bool × String)
node_checks node =
    (has_exactly ("node" ∷ "boot_id" ∷ "role" ∷ []) node // "node fields invalid")
    ∷ (is_match is_name (get "node" node) // "node name invalid")
    ∷ (is_match is_uuid (get "boot_id" node) // "boot ID invalid")
    ∷ (is_one_of ("SAN_PARTICIPANT" ∷ "CONTROL_ONLY" ∷ []) (get "role" node) // "node role invalid")
    ∷ []

unfoldable pub check_nodes : List Value → Result (Unit {0})
check_nodes [] = ok tt
check_nodes (node ∷ rest) = requires (node_checks node) >> check_nodes rest

abbrev node_names : List Value → List String
node_names nodes = map (λ n. text_of (get "node" n)) nodes

-- `san`
abbrev san_names : List Value → List String
san_names nodes = node_names (keep (λ n. is_text "SAN_PARTICIPANT" (get "role" n)) nodes)

-- `boots[node]`, of a node that is listed once.
abbrev boot_of : Value → List Value → Value
boot_of node [] = null
boot_of node (n ∷ rest) = if equals node (get "node" n) then get "boot_id" n else boot_of node rest

abbrev values_of : Entries → List Value
values_of close = []
values_of (entry key v rest) = v ∷ values_of rest

abbrev are_digests : Value → Bool
are_digests (dict fs) = all (is_match is_hex64) (values_of fs)
are_digests _ = true

abbrev pub topology_checks : Value → List Value → List (Bool × String)
topology_checks r nodes =
    (same_texts (node_names nodes) (sorted_set (node_names nodes)) && length (san_names nodes) == 3
      // "node topology invalid")
    ∷ (has_exactly ("node" ∷ "boot_id" ∷ []) (get "executor" r) // "executor fields invalid")
    ∷ (is_match (contains (san_names nodes)) (get "node" (get "executor" r))
          && equals (get "boot_id" (get "executor" r))
              (boot_of (get "node" (get "executor" r)) nodes)
        // "executor identity invalid")
    ∷ (has_exactly (san_names nodes) (get "preinst_sha256" r) // "preinst_sha256 fields invalid")
    ∷ (are_digests (get "preinst_sha256" r) // "preinst_sha256 invalid")
    ∷ (has_exactly (node_names nodes) (get "payload_sha256" r) // "payload_sha256 fields invalid")
    ∷ (are_digests (get "payload_sha256" r) // "payload_sha256 invalid")
    ∷ []

abbrev pub budget : Value → ℕ
budget auth = nat_of (get "expires_wall_ns" auth) - nat_of (get "issued_wall_ns" auth)

abbrev pub authorization_checks : Value → List (Bool × String)
authorization_checks auth =
    (has_exactly ("action" ∷ "issued_wall_ns" ∷ "expires_wall_ns" ∷ "start_monotonic_ns" ∷ []) auth
      // "authorization fields invalid")
    ∷ (is_text "MODEL_ONE_CAS_ONLY" (get "action" auth) // "authorization action invalid")
    ∷ (is_model_int (get "issued_wall_ns" auth) // "issued_wall_ns invalid")
    ∷ (is_model_int (get "expires_wall_ns" auth) // "expires_wall_ns invalid")
    ∷ (is_model_int (get "start_monotonic_ns" auth) // "start_monotonic_ns invalid")
    -- A budget below 0 is 0 here, and refused as well.
    ∷ (ltb 0 (budget auth)
          && leb (budget auth) (1800 * 1000000000)
          && leb (nat_of (get "start_monotonic_ns" auth) + budget auth) max_int
        // "authorization budget invalid")
    ∷ []

-- The digest of the request is returned by the source; it is the parameter of `request_of`.
unfoldable pub validate_request : Value → Result (Unit {0})
validate_request r = do
  check_builtin 0 r
  requires (field_checks r)
  check_nodes (items (get "nodes" r))
  requires (topology_checks r (items (get "nodes" r)))
  requires (authorization_checks (get "authorization" r))

-- What the event loop reads of it.
unfoldable pub request_of : (Value → String) → Value → Request
request_of digest r = record {
  attempt_id = text_of (get "attempt_id" r);
  request_sha256 = digest r;
  baseline = bytes_of (get "baseline" r);
  target = bytes_of (get "target" r);
  issued_wall_ns = nat_of (get "issued_wall_ns" (get "authorization" r));
  expires_wall_ns = nat_of (get "expires_wall_ns" (get "authorization" r));
  start_monotonic_ns = nat_of (get "start_monotonic_ns" (get "authorization" r));
}
