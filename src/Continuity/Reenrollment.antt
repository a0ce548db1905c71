-- ===== src/Continuity/Reenrollment.antt =====
-- `evaluate_reenrollment`, which catches no exception of its tests.
use proxmox_sharedlvmthin.Base.{
  String, Bool, true, false, List, ◌∷◌, Result, ok, refused, ◌≡◌, refl,
}
use proxmox_sharedlvmthin.Base.Int.{pos}
use proxmox_sharedlvmthin.Base.Json.{
  Value, null, int, str, flag, blob, array, dict, get, has_exactly, is_match, is_any, is_text,
}
use proxmox_sharedlvmthin.Base.Chains.{fullmatch, holds_all, type_error}
use proxmox_sharedlvmthin.Continuity.Evidence.{is_exact_int}
use proxmox_sharedlvmthin.Continuity.Evaluate.{bit_fields, evaluate_reenrollment}

no_text :
    (p : String → Bool) (v : Value) → is_match is_any v ≡ false → fullmatch p v ≡ refused type_error
unfolding is_match fullmatch
no_text p (str s) h = cc
no_text p null h = refl
no_text p (flag b) h = refl
no_text p (int n) h = refl
no_text p (blob b) h = refl
no_text p (array xs) h = refl
no_text p (dict fs) h = refl

raised :
    (keys schema kind : Bool) (third : Result Bool) (rest : List (Result Bool)) (e : String)
    → keys ≡ true
    → schema ≡ true
    → kind ≡ true
    → third ≡ refused e
    → holds_all (ok keys ∷ ok schema ∷ ok kind ∷ third ∷ rest) ≡ refused e
unfolding holds_all
raised keys schema kind third rest e a b c d = rw (a, b, c, d) refl

-- Evidence with the right keys, schema and kind whose cluster is no text is not refused as
-- malformed: the call raises a TypeError.
pub evaluate_reenrollment_raises :
    (v : Value)
    → has_exactly
        ("schema" ∷ "kind" ∷ "cluster_id" ∷ "vg_uuid" ∷ "old_enrollment_sha256"
          ∷ "recovery_transaction" ∷ "participant_set_sha256" ∷ bit_fields)
        v
      ≡ true
    → is_exact_int (int (pos 1)) (get "schema" v) ≡ true
    → is_text "MANUAL_REENROLLMENT_EVIDENCE" (get "kind" v) ≡ true
    → is_match is_any (get "cluster_id" v) ≡ false
    → evaluate_reenrollment v ≡ refused type_error
unfolding evaluate_reenrollment
evaluate_reenrollment_raises v keys schema kind cluster =
    rw (raised _ _ _ _ _ type_error keys schema kind (no_text _ (get "cluster_id" v) cluster)) refl
