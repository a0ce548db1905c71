-- ===== src/Continuity/Evaluate.antt =====
-- `evaluate_continuity`, `evaluate_alias_set` and `evaluate_reenrollment`.
use proxmox_sharedlvmthin.Base.{
  ℕ, String, Bool, true, false, not, ◌||◌, List, [], ◌∷◌, ◌++◌, map, all, is_empty, Result, ok,
  refused, ◌>>=◌, ◌>>◌, are_unique, is_hex32, is_hex64, is_node, is_lvm_uuid, if◌then◌else◌,
}
use proxmox_sharedlvmthin.Base.Int.{pos, ltb_ℤ}
use proxmox_sharedlvmthin.Base.Json.{
  Value, int, str, get, has_exactly, is_null, is_array, is_text, items, equals, text_of,
}
use proxmox_sharedlvmthin.Base.Chains.{fullmatch, holds_all}
use proxmox_sharedlvmthin.Continuity.Evidence.{
  is_exact_int, identity_fields, validate_enrollment, validate_observation, validate_witness,
  is_available,
}

-- `action`: REFUSE and the three that name assumptions.
pub data Action : Type 0 where
  refuse continuity_matches aliases_consistent reenrollment_assumed : Action

pub data Classification : Type 0 where
  blocked_on_continuity_proof blocked_malformed_authority_evidence : Classification

pub record Reply : Type 0 where
  pub action : Action
  pub allowed : ℕ
  pub dispatch_allowed : ℕ
  pub classification : Classification
  pub reason : String

abbrev pub blocked_as : Classification → String → Reply
blocked_as c message = record {
  action = refuse;
  allowed = 0;
  dispatch_allowed = 0;
  classification = c;
  reason = message;
}

abbrev pub blocked : String → Reply
blocked message = blocked_as blocked_on_continuity_proof message

abbrev pub malformed : String → Reply
malformed message = blocked_as blocked_malformed_authority_evidence message

-- A reply that names what was assumed; what it authorizes is 0 too.
abbrev pub assumed : Action → String → Reply
assumed a message = record {
  action = a;
  allowed = 0;
  dispatch_allowed = 0;
  classification = blocked_on_continuity_proof;
  reason = message;
}

-- Both values have equal values under the names.
unfoldable pub agree : List String → Value → Value → Bool
agree names v w = all (λ k. equals (get k v) (get k w)) names

abbrev pub same_identity : Value → Value → Bool
same_identity v w = agree identity_fields v w

abbrev pub is_less : Value → Value → Bool
is_less (int a) (int b) = ltb_ℤ a b
is_less _ _ = false

abbrev pub head_fields : List String
head_fields = "ledger_revision" ∷ "ledger_sha256" ∷ []

abbrev pub compare_heads : Value → Value → Reply
compare_heads observation witness =
    if not (agree head_fields observation witness)
    then blocked (
        if is_less (get "ledger_revision" observation) (get "ledger_revision" witness)
        then "authority ledger is older than rollback-independent witness"
        else "observed authority head differs from rollback-independent witness")
    else assumed continuity_matches
        "head bindings match, but witness authenticity, freshness and CAS relationship are unqualified"

abbrev storage_fields : List String
storage_fields = "storage_set" ∷ "code_digest" ∷ "policy_digest" ∷ "cluster_id" ∷ "backend" ∷ []

-- `_identity` and what `binding` adds to it.
abbrev pub binding_fields : List String
binding_fields = identity_fields ++ storage_fields

unfoldable pub validate_each : List Value → Result (Unit {0})
validate_each [] = ok tt
validate_each (v ∷ rest) = do validate_enrollment v; validate_each rest

abbrev pub compare_aliases : List Value → Reply
compare_aliases [] = malformed "authority enrollment set is absent"
compare_aliases (first ∷ rest) =
    if not (are_unique (map (λ v. text_of (get "storage_id" v)) (first ∷ rest)))
    then blocked "alias list contains duplicate storage identities"
    else if not (all (λ v. agree ("vg_uuid" ∷ []) v first) (first ∷ rest))
    then blocked "alias comparison spans different VG identities"
    else if not (all (λ v. agree binding_fields v first) rest)
    then blocked "same-VG aliases do not share one exact authority binding"
    else assumed aliases_consistent
        "supplied unique aliases agree; participant-set completeness is unproven"

unfoldable pub evaluate_alias_set : Value → Reply
evaluate_alias_set enrollments =
    if not (is_array enrollments) || is_empty (items enrollments)
    then malformed "authority enrollment set is absent"
    else elim (validate_each (items enrollments)) [
      | refused message ↦ malformed message
      | ok _ ↦ compare_aliases (items enrollments)
    ]

-- `type(value) is int and value in (0, 1)`
unfoldable pub exact_bit : Value → Bool
exact_bit v = is_exact_int (int (pos 0)) v || is_exact_int (int (pos 1)) v

abbrev pub bit_fields : List String
bit_fields =
    "participant_set_complete" ∷ "all_potential_executors_fenced" ∷ "storage_reconciled"
    ∷ "old_authority_disabled" ∷ "old_history_retired" ∷ []

abbrev pub reenrollment_tests : Value → List (Result Bool)
reenrollment_tests v =
    ok (
      has_exactly
        ("schema" ∷ "kind" ∷ "cluster_id" ∷ "vg_uuid" ∷ "old_enrollment_sha256"
          ∷ "recovery_transaction" ∷ "participant_set_sha256" ∷ bit_fields)
        v)
    ∷ ok (is_exact_int (int (pos 1)) (get "schema" v))
    ∷ ok (is_text "MANUAL_REENROLLMENT_EVIDENCE" (get "kind" v))
    ∷ fullmatch is_node (get "cluster_id" v)
    ∷ fullmatch is_lvm_uuid (get "vg_uuid" v)
    ∷ fullmatch is_hex64 (get "old_enrollment_sha256" v)
    ∷ fullmatch is_hex32 (get "recovery_transaction" v)
    ∷ fullmatch is_hex64 (get "participant_set_sha256" v)
    ∷ ok (all (λ k. exact_bit (get k v)) bit_fields)
    ∷ []

abbrev pub judge_evidence : Value → Bool → Reply
judge_evidence v false = malformed "manual re-enrollment evidence is malformed"
judge_evidence v true =
    if not (all (λ k. equals (get k v) (int (pos 1))) bit_fields)
    then blocked "re-enrollment requires complete fencing and reconciliation"
    else assumed reenrollment_assumed
        "bound preconditions are asserted but fencing, reconciliation and non-replay proofs are unqualified"

-- Nothing catches what the tests raise.
unfoldable pub evaluate_reenrollment : Value → Result Reply
evaluate_reenrollment v = holds_all (reenrollment_tests v) >>= λ b. ok (judge_evidence v b)

-- `enrollment_digest`, SHA-256 of a canonical JSON text, is the parameter; no witness is `None`.
module _ (enrollment_digest : Value → String) where
  unfoldable pub is_enrolled : Value → Value → Bool
  is_enrolled enrollment v = equals (get "enrollment_sha256" v) (str (enrollment_digest enrollment))

  abbrev pub evaluate_witness : Value → Value → Value → Reply
  evaluate_witness enrollment observation witness =
      if not (same_identity witness enrollment)
      then blocked "independent witness identifies another authority history"
      else if not (is_enrolled enrollment witness)
      then blocked "independent witness is not bound to the complete enrollment"
      else compare_heads observation witness

  abbrev pub evaluate_observed : Value → Value → Value → Reply
  evaluate_observed enrollment observation witness =
      if not (is_available observation)
      then blocked "authority history is not positively available"
      else if not (same_identity observation enrollment)
      then blocked "observed authority identity differs from pinned enrollment"
      else if not (is_enrolled enrollment observation)
      then blocked "authority observation is not bound to the complete enrollment"
      else if is_null witness
      then blocked "rollback-independent authority-head witness is absent"
      else elim (validate_witness witness) [
        | refused message ↦ malformed message
        | ok _ ↦ evaluate_witness enrollment observation witness
      ]

  unfoldable pub evaluate_continuity : Value → Value → Value → Reply
  evaluate_continuity enrollment observation witness =
      elim (validate_enrollment enrollment >> validate_observation observation) [
        | refused message ↦ malformed message
        | ok _ ↦ evaluate_observed enrollment observation witness
      ]
