-- ===== src/Continuity/Evidence.antt =====
-- The validators. A test of one of their chains is a `Result`: matching what is no text raises.
use proxmox_sharedlvmthin.Base.{
  String, Bool, ◌&&◌, List, [], ◌∷◌, all, Result, ok, ◌>>◌, require, is_hex32, is_hex64, is_boot_id,
  is_name, is_node, is_lvm_uuid, if◌then◌else◌,
}
use proxmox_sharedlvmthin.Base.Chains.{fullmatch, validate}
use proxmox_sharedlvmthin.Base.Int.{pos}
use proxmox_sharedlvmthin.Base.Json.{
  Value, int, get, has_exactly, is_match, is_any, is_int, is_int_from, is_null, is_text, equals,
  in_set,
}

abbrev pub is_exact_int : Value → Value → Bool
is_exact_int n v = is_int v && equals v n

abbrev pub identity_fields : List String
identity_fields = "authority_id" ∷ "authority_node" ∷ "authority_boot_id" ∷ "enrollment_epoch" ∷ []

abbrev pub identity_tests : Value → List (Result Bool) → List (Result Bool)
identity_tests v rest =
    fullmatch is_hex32 (get "authority_id" v)
    ∷ fullmatch is_node (get "authority_node" v)
    ∷ fullmatch is_boot_id (get "authority_boot_id" v)
    ∷ fullmatch is_hex64 (get "enrollment_epoch" v)
    ∷ rest

abbrev pub enrollment_tests : Value → List (Result Bool)
enrollment_tests v =
    ok (
      has_exactly
        ("schema" ∷ "kind" ∷ "cluster_id" ∷ "storage_id" ∷ "vg_uuid" ∷ "storage_set"
          ∷ "authority_id" ∷ "authority_node" ∷ "authority_boot_id" ∷ "enrollment_epoch" ∷ "backend"
          ∷ "code_digest" ∷ "policy_digest" ∷ [])
        v)
    ∷ ok (is_exact_int (int (pos 1)) (get "schema" v))
    ∷ ok (is_text "PINNED_ADMISSION_AUTHORITY" (get "kind" v))
    ∷ ok (is_match is_any (get "cluster_id" v))
    ∷ fullmatch is_node (get "cluster_id" v)
    ∷ fullmatch is_name (get "storage_id" v)
    ∷ fullmatch is_lvm_uuid (get "vg_uuid" v)
    ∷ fullmatch is_hex64 (get "storage_set" v)
    ∷ identity_tests v (
        ok (is_text "LOCAL_PERSISTENT_NO_FAILOVER" (get "backend" v))
        ∷ fullmatch is_hex64 (get "code_digest" v)
        ∷ fullmatch is_hex64 (get "policy_digest" v)
        ∷ [])

unfoldable pub validate_enrollment : Value → Result (Unit {0})
validate_enrollment v =
    validate (enrollment_tests v) "authority enrollment schema or identity is invalid"

abbrev pub head_tests : Value → List (Result Bool) → List (Result Bool)
head_tests v rest = identity_tests v (
    fullmatch is_hex64 (get "enrollment_sha256" v)
    ∷ ok (is_int_from (pos 1) (get "ledger_revision" v))
    ∷ fullmatch is_hex64 (get "ledger_sha256" v)
    ∷ rest)

abbrev trusted_fields : List String
trusted_fields =
    "authority_id" ∷ "authority_node" ∷ "authority_boot_id" ∷ "enrollment_epoch"
    ∷ "enrollment_sha256" ∷ "ledger_revision" ∷ "ledger_sha256" ∷ []

abbrev pub observation_tests : Value → List (Result Bool)
observation_tests v =
    ok (
      has_exactly
        ("schema" ∷ "kind" ∷ "status" ∷ "authority_id" ∷ "authority_node" ∷ "authority_boot_id"
          ∷ "enrollment_epoch" ∷ "enrollment_sha256" ∷ "ledger_revision" ∷ "ledger_sha256" ∷ [])
        v)
    ∷ ok (is_exact_int (int (pos 1)) (get "schema" v))
    ∷ ok (is_text "AUTHORITY_HEAD_OBSERVATION" (get "kind" v))
    ∷ in_set ("AVAILABLE" ∷ "UNAVAILABLE" ∷ "MISSING" ∷ "CORRUPT" ∷ []) (get "status" v)
    ∷ []

abbrev pub is_available : Value → Bool
is_available v = is_text "AVAILABLE" (get "status" v)

-- The head of an authority that is available; any other carries none.
abbrev pub validate_head : Value → Result (Unit {0})
validate_head v =
    if is_available v
    then validate (head_tests v []) "available authority observation is malformed"
    else require (all (λ k. is_null (get k v)) trusted_fields)
        "unavailable authority observation carries trusted state"

unfoldable pub validate_observation : Value → Result (Unit {0})
validate_observation v =
    validate (observation_tests v) "authority observation schema is invalid" >> validate_head v

abbrev pub witness_tests : Value → List (Result Bool)
witness_tests v =
    ok (
      has_exactly
        ("schema" ∷ "kind" ∷ "trust_domain" ∷ "authority_id" ∷ "authority_node"
          ∷ "authority_boot_id" ∷ "enrollment_epoch" ∷ "enrollment_sha256" ∷ "ledger_revision"
          ∷ "ledger_sha256" ∷ "proof_digest" ∷ [])
        v)
    ∷ ok (is_exact_int (int (pos 1)) (get "schema" v))
    ∷ ok (is_text "INDEPENDENT_AUTHORITY_HEAD_V1" (get "kind" v))
    ∷ ok (is_text "ROLLBACK_INDEPENDENT" (get "trust_domain" v))
    ∷ head_tests v (fullmatch is_hex64 (get "proof_digest" v) ∷ [])

unfoldable pub validate_witness : Value → Result (Unit {0})
validate_witness v = validate (witness_tests v) "independent authority-head witness is malformed"
