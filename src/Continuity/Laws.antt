-- ===== src/Continuity/Laws.antt =====
-- When the evaluators answer with more than a refusal.
use proxmox_sharedlvmthin.Base.{
  String, Bool, true, false, not, All, Result, ok, refused, ◌≡◌, ◌↔◌, refl, ◌∙◌, arith, >>=-eq-ok,
  ◌>>◌, if◌then◌else◌,
}
use proxmox_sharedlvmthin.Base.Json.{Value, str, get, str-eq}
use proxmox_sharedlvmthin.Continuity.Evidence.{
  identity_fields, is_available, validate_enrollment, validate_observation, validate_witness,
}
use proxmox_sharedlvmthin.Continuity.Evaluate.{
  continuity_matches, Reply, malformed, blocked, agree, same_identity, head_fields, compare_heads,
  evaluate_continuity, evaluate_observed, evaluate_witness, is_enrolled,
}
use proxmox_sharedlvmthin.Continuity.Validity.{
  agree-Same, Same-agree, witness-IsHead, observation-IsHead, not_null, heads-Same, Same-heads,
  text_equals, identity-Texts,
}

not_malformed :
    (r : Result (Unit {0})) (x : Reply)
    → (elim r as (λ q. Reply) [ refused m ↦ malformed m | ok _ ↦ x ]).action ≡ continuity_matches
    → (r ≡ ok tt) × (x.action ≡ continuity_matches)
not_malformed (refused m) x h = cc
not_malformed (ok u) x h = (refl, h)

when_valid :
    (r : Result (Unit {0})) (x : Reply)
    → r ≡ ok tt
    → (elim r as (λ q. Reply) [ refused m ↦ malformed m | ok _ ↦ x ]).action ≡ x.action
when_valid (refused m) x h = cc
when_valid (ok u) x h = refl

both_ok : (r s : Result (Unit {0})) → r ≡ ok tt → s ≡ ok tt → (r >> s) ≡ ok tt
both_ok (refused m) s h k = cc
both_ok (ok u) s h k = k

observed_guards :
    (available same enrolled absent : Bool) (m1 m2 m3 m4 : String) (x : Reply)
    → (if not available
        then blocked m1
        else if not same
        then blocked m2
        else if not enrolled
        then blocked m3
        else if absent
        then blocked m4
        else x).action
      ≡ continuity_matches
    → (available ≡ true)
      × (same ≡ true)
      × (enrolled ≡ true)
      × (absent ≡ false)
      × (x.action ≡ continuity_matches)
observed_guards available same enrolled absent m1 m2 m3 m4 x h = ground (arith, h)

witness_guards :
    (same enrolled : Bool) (m1 m2 : String) (x : Reply)
    → (if not same then blocked m1 else if not enrolled then blocked m2 else x).action
      ≡ continuity_matches
    → (same ≡ true) × (enrolled ≡ true) × (x.action ≡ continuity_matches)
witness_guards same enrolled m1 m2 x h = ground (arith, h)

heads_agree :
    (o w : Value) → (compare_heads o w).action ≡ continuity_matches → agree head_fields o w ≡ true
heads_agree o w h = ground (arith, h)

module _ (enrollment_digest : Value → String) where
  -- Observation and witness are of the enrolled authority, and have one head.
  abbrev pub IsContinuous : Value → Value → Value → Type 0
  IsContinuous e o w =
      (get "status" o ≡ str "AVAILABLE")
      × All (λ k. get k o ≡ get k e) identity_fields
      × All (λ k. get k w ≡ get k e) identity_fields
      × (get "enrollment_sha256" o ≡ str (enrollment_digest e))
      × (get "enrollment_sha256" w ≡ str (enrollment_digest e))
      × All (λ k. get k o ≡ get k w) head_fields

  record Matched (e o w : Value) : Type 0 where
    pub enrollment_ok : validate_enrollment e ≡ ok tt
    pub observation_ok : validate_observation o ≡ ok tt
    pub witness_ok : validate_witness w ≡ ok tt
    pub available : is_available o ≡ true
    pub same_o : same_identity o e ≡ true
    pub same_w : same_identity w e ≡ true
    pub enrolled_o : is_enrolled enrollment_digest e o ≡ true
    pub enrolled_w : is_enrolled enrollment_digest e w ≡ true
    pub one_head : agree head_fields o w ≡ true

  evaluate-Matched :
      (e o w : Value)
      → (evaluate_continuity enrollment_digest e o w).action ≡ continuity_matches
      → Matched e o w
  unfolding evaluate_continuity
  evaluate-Matched e o w h =
      let (valid, h1) =
        not_malformed (validate_enrollment e >> validate_observation o)
          (evaluate_observed enrollment_digest e o w) h in
      let (_, valid_e, valid_o) = >>=-eq-ok (validate_enrollment e) _ valid in
      let (available, same_o, enrolled_o, present, h2) = observed_guards _ _ _ _ _ _ _ _ _ h1 in
      let (valid_w, h3) =
        not_malformed (validate_witness w) (evaluate_witness enrollment_digest e o w) h2 in
      let (same_w, enrolled_w, h4) = witness_guards _ _ _ _ _ h3 in
      record {
        enrollment_ok = valid_e;
        observation_ok = valid_o;
        witness_ok = valid_w;
        available = available;
        same_o = same_o;
        same_w = same_w;
        enrolled_o = enrolled_o;
        enrolled_w = enrolled_w;
        one_head = heads_agree o w h4;
      }

  Matched-evaluate :
      (e o w : Value)
      → Matched e o w
      → (evaluate_continuity enrollment_digest e o w).action ≡ continuity_matches
  unfolding evaluate_continuity
  Matched-evaluate e o w m =
      when_valid (validate_enrollment e >> validate_observation o)
        (evaluate_observed enrollment_digest e o w)
        (both_ok (validate_enrollment e) (validate_observation o) m.enrollment_ok m.observation_ok)
      ∙ ground (
        arith,
        m,
        not_null w m.witness_ok,
        when_valid (validate_witness w) (evaluate_witness enrollment_digest e o w) m.witness_ok,
      )

  Matched-IsContinuous : (e o w : Value) → Matched e o w → IsContinuous e o w
  unfolding is_enrolled
  Matched-IsContinuous e o w m =
      let texts = identity-Texts e m.enrollment_ok in
      (
        str-eq "AVAILABLE" (get "status" o) m.available,
        agree-Same identity_fields o e texts m.same_o,
        agree-Same identity_fields w e texts m.same_w,
        str-eq (enrollment_digest e) (get "enrollment_sha256" o) m.enrolled_o,
        str-eq (enrollment_digest e) (get "enrollment_sha256" w) m.enrolled_w,
        heads-Same o w (observation-IsHead o m.available m.observation_ok)
            (witness-IsHead w m.witness_ok) m.one_head,
      )

  IsContinuous-Matched :
      (e o w : Value)
      → validate_enrollment e ≡ ok tt
      → validate_observation o ≡ ok tt
      → validate_witness w ≡ ok tt
      → IsContinuous e o w
      → Matched e o w
  unfolding is_enrolled
  IsContinuous-Matched e o w valid_e valid_o valid_w
        (available, same_o, same_w, sha_o, sha_w, one_head) =
      let texts = identity-Texts e valid_e in
      record {
        enrollment_ok = valid_e;
        observation_ok = valid_o;
        witness_ok = valid_w;
        available = text_equals "AVAILABLE" (get "status" o) available;
        same_o = Same-agree identity_fields o e texts same_o;
        same_w = Same-agree identity_fields w e texts same_w;
        enrolled_o = text_equals (enrollment_digest e) (get "enrollment_sha256" o) sha_o;
        enrolled_w = text_equals (enrollment_digest e) (get "enrollment_sha256" w) sha_w;
        one_head = Same-heads o w (witness-IsHead w valid_w) one_head;
      }

  -- The heads match exactly when all three records are valid, the observation is available, all are
  -- of one authority, both heads name the digest of the enrollment, and the heads are the same.
  pub evaluate_continuity_iff :
      (e o w : Value)
      → ((evaluate_continuity enrollment_digest e o w).action ≡ continuity_matches) ↔ (
          (validate_enrollment e ≡ ok tt)
          × (validate_observation o ≡ ok tt)
          × (validate_witness w ≡ ok tt)
          × IsContinuous e o w)
  evaluate_continuity_iff e o w = (
    λ h.
        let m = evaluate-Matched e o w h in
        (m.enrollment_ok, m.observation_ok, m.witness_ok, Matched-IsContinuous e o w m),
    λ (a, b, c, d). Matched-evaluate e o w (IsContinuous-Matched e o w a b c d),
  )
