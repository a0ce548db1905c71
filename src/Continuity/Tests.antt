-- ===== src/Continuity/Tests.antt =====
-- An enrollment, an observation and a witness that match, two aliases, and the theorems at them.
use proxmox_sharedlvmthin.Base.{
  String, true, false, ◌∷◌, map, ok, refused, ◌≡◌, refl, Memᴰ, ◌↔◌, is_hex32, is_hex64, is_boot_id,
  is_name, is_node, is_lvm_uuid, are_unique,
}
use proxmox_sharedlvmthin.Base.Int.{pos}
use proxmox_sharedlvmthin.Base.Json.{
  Value, int, str, dict, array, cons, nil, entry, close, get, has_exactly, is_match, is_any, is_int,
  is_int_from, is_null, is_array, items, equals, text_of, is_text, in_set,
}
use proxmox_sharedlvmthin.Base.Chains.{fullmatch, holds_all, type_error}
use proxmox_sharedlvmthin.Continuity.Evidence.{
  validate_enrollment, validate_observation, validate_witness, is_exact_int,
}
use proxmox_sharedlvmthin.Continuity.Evaluate.{
  continuity_matches, aliases_consistent, agree, validate_each, evaluate_alias_set, bit_fields,
  evaluate_reenrollment, is_enrolled, evaluate_continuity,
}
use proxmox_sharedlvmthin.Continuity.Laws.{IsContinuous, evaluate_continuity_iff}
use proxmox_sharedlvmthin.Continuity.Aliases.{IsAlias, evaluate_alias_set-IsAlias}
use proxmox_sharedlvmthin.Continuity.Reenrollment.{evaluate_reenrollment_raises}

abbrev hex64 : String
hex64 = "0123456789abcdef0123456789abcdef0123456789abcdef0123456789abcdef"

abbrev hex32 : String
hex32 = "0123456789abcdef0123456789abcdef"

abbrev digest_of : Value → String
digest_of v = hex64

abbrev boot : Value
boot = str "01234567-89ab-cdef-0123-456789abcdef"

abbrev enrollment : String → Value
enrollment storage_id = dict (
    entry "schema" (int (pos 1)) (
      entry "kind" (str "PINNED_ADMISSION_AUTHORITY") (
        entry "cluster_id" (str "c1") (
          entry "storage_id" (str storage_id) (
            entry "vg_uuid" (str "abcdef-0123-4567-89ab-cdef-0123-456789") (
              entry "storage_set" (str hex64) (
                entry "authority_id" (str hex32) (
                  entry "authority_node" (str "pve1") (
                    entry "authority_boot_id" boot (
                      entry "enrollment_epoch" (str hex64) (
                        entry "backend" (str "LOCAL_PERSISTENT_NO_FAILOVER") (
                          entry "code_digest" (str hex64)
                            (entry "policy_digest" (str hex64) close)))))))))))))

abbrev observation : Value
observation = dict (
    entry "schema" (int (pos 1)) (
      entry "kind" (str "AUTHORITY_HEAD_OBSERVATION") (
        entry "status" (str "AVAILABLE") (
          entry "authority_id" (str hex32) (
            entry "authority_node" (str "pve1") (
              entry "authority_boot_id" boot (
                entry "enrollment_epoch" (str hex64) (
                  entry "enrollment_sha256" (str hex64) (
                    entry "ledger_revision" (int (pos 3))
                      (entry "ledger_sha256" (str hex64) close))))))))))

abbrev witness : Value
witness = dict (
    entry "schema" (int (pos 1)) (
      entry "kind" (str "INDEPENDENT_AUTHORITY_HEAD_V1") (
        entry "trust_domain" (str "ROLLBACK_INDEPENDENT") (
          entry "authority_id" (str hex32) (
            entry "authority_node" (str "pve1") (
              entry "authority_boot_id" boot (
                entry "enrollment_epoch" (str hex64) (
                  entry "enrollment_sha256" (str hex64) (
                    entry "ledger_revision" (int (pos 3)) (
                      entry "ledger_sha256" (str hex64)
                        (entry "proof_digest" (str hex64) close)))))))))))

-- A cluster that is a number.
abbrev evidence : Value
evidence = dict (
    entry "schema" (int (pos 1)) (
      entry "kind" (str "MANUAL_REENROLLMENT_EVIDENCE") (
        entry "cluster_id" (int (pos 7)) (
          entry "vg_uuid" (str "abcdef-0123-4567-89ab-cdef-0123-456789") (
            entry "old_enrollment_sha256" (str hex64) (
              entry "recovery_transaction" (str hex32) (
                entry "participant_set_sha256" (str hex64) (
                  entry "participant_set_complete" (int (pos 1)) (
                    entry "all_potential_executors_fenced" (int (pos 1)) (
                      entry "storage_reconciled" (int (pos 1)) (
                        entry "old_authority_disabled" (int (pos 1))
                          (entry "old_history_retired" (int (pos 1)) close))))))))))))

abbrev aliases : Value
aliases = array (cons (enrollment "eager") (cons (enrollment "lazy") nil))

matched :
    (evaluate_continuity digest_of (enrollment "eager") observation witness).action
    ≡ continuity_matches
unfolding evaluate_continuity validate_enrollment validate_observation validate_witness fullmatch
    in_set holds_all agree is_enrolled get has_exactly is_match is_int is_int_from is_null equals
    is_hex32 is_hex64 is_boot_id is_name is_node is_lvm_uuid
matched = refl

consistent : (evaluate_alias_set aliases).action ≡ aliases_consistent
unfolding evaluate_alias_set validate_each validate_enrollment fullmatch holds_all agree are_unique
    get has_exactly is_match is_int is_array items equals is_hex32 is_hex64 is_boot_id is_name
    is_node is_lvm_uuid
consistent = refl

evaluate_continuity_example :
    ((evaluate_continuity digest_of (enrollment "eager") observation witness).action
      ≡ continuity_matches)
    ↔ ((validate_enrollment (enrollment "eager") ≡ ok tt)
        × (validate_observation observation ≡ ok tt)
        × (validate_witness witness ≡ ok tt)
        × IsContinuous digest_of (enrollment "eager") observation witness)
evaluate_continuity_example =
    evaluate_continuity_iff digest_of (enrollment "eager") observation witness

-- The example is one where both sides hold.
evidence-IsContinuous : IsContinuous digest_of (enrollment "eager") observation witness
evidence-IsContinuous =
    ((evaluate_continuity_iff digest_of (enrollment "eager") observation witness).0 matched).3

evaluate_alias_set_example :
    (are_unique (map (λ e. text_of (get "storage_id" e)) (items aliases)) ≡ true)
    × ((a b : Value) → Memᴰ a (items aliases) → Memᴰ b (items aliases) → IsAlias a b)
evaluate_alias_set_example = evaluate_alias_set-IsAlias aliases consistent

reenrollment_keys :
    has_exactly
      ("schema" ∷ "kind" ∷ "cluster_id" ∷ "vg_uuid" ∷ "old_enrollment_sha256"
        ∷ "recovery_transaction" ∷ "participant_set_sha256" ∷ bit_fields)
      evidence
    ≡ true
unfolding has_exactly
reenrollment_keys = refl

schema_one : is_exact_int (int (pos 1)) (get "schema" evidence) ≡ true
unfolding get is_int equals
schema_one = refl

kind_manual : is_text "MANUAL_REENROLLMENT_EVIDENCE" (get "kind" evidence) ≡ true
unfolding get equals
kind_manual = refl

cluster_no_text : is_match is_any (get "cluster_id" evidence) ≡ false
unfolding get is_match
cluster_no_text = refl

evaluate_reenrollment_example : evaluate_reenrollment evidence ≡ refused type_error
evaluate_reenrollment_example =
    evaluate_reenrollment_raises evidence reenrollment_keys schema_one kind_manual cluster_no_text
