-- ===== src/Continuity/Aliases.antt =====
-- `evaluate_alias_set`: the enrollments of one volume group under several storage identities.
use proxmox_sharedlvmthin.Base.{
  String, Bool, true, not, List, [], ◌∷◌, map, All, all, Memᴰ, Result, ok, refused, ◌≡◌, refl, sym,
  subst, ◌∙◌, arith, >>=-eq-ok, all-mem, are_unique, if◌then◌else◌,
}
use proxmox_sharedlvmthin.Base.Json.{Value, get, items, text_of}
use proxmox_sharedlvmthin.Continuity.Evidence.{validate_enrollment}
use proxmox_sharedlvmthin.Continuity.Evaluate.{
  aliases_consistent, Reply, malformed, blocked, agree, binding_fields, validate_each,
  compare_aliases, evaluate_alias_set,
}
use proxmox_sharedlvmthin.Continuity.Validity.{agree-Same, enrollment-Texts}

-- Two enrollments of one volume group with one binding.
abbrev pub IsAlias : Value → Value → Type 0
IsAlias a b = All (λ k. get k a ≡ get k b) ("vg_uuid" ∷ binding_fields)

Same_refl : (names : List String) (v : Value) → All (λ k. get k v ≡ get k v) names
Same_refl [] v = tt
Same_refl (k ∷ names) v = (refl, Same_refl names v)

Same_join :
    (names : List String) (a b f : Value)
    → All (λ k. get k a ≡ get k f) names
    → All (λ k. get k b ≡ get k f) names
    → All (λ k. get k a ≡ get k b) names
Same_join [] a b f g h = tt
Same_join (k ∷ names) a b f g h = (g.0 ∙ sym h.0, Same_join names a b f g.1 h.1)

abbrev names_of : List Value → List String
names_of vs = map (λ v. text_of (get "storage_id" v)) vs

alias_guards :
    (unique one_vg bound : Bool) (m1 m2 m3 : String) (x : Reply)
    → (if not unique
        then blocked m1
        else if not one_vg
        then blocked m2
        else if not bound
        then blocked m3
        else x).action
      ≡ aliases_consistent
    → (unique ≡ true) × (one_vg ≡ true) × (bound ≡ true)
alias_guards unique one_vg bound m1 m2 m3 x h = ground (arith, h)

first_valid :
    (first : Value) (rest : List Value)
    → validate_each (first ∷ rest) ≡ ok tt
    → validate_enrollment first ≡ ok tt
unfolding validate_each
first_valid first rest h = let (_, valid, _) = >>=-eq-ok (validate_enrollment first) _ h in valid

compared-Alias :
    (first a : Value) (rest : List Value)
    → validate_enrollment first ≡ ok tt
    → all (λ v. agree ("vg_uuid" ∷ []) v first) (first ∷ rest) ≡ true
    → all (λ v. agree binding_fields v first) rest ≡ true
    → Memᴰ a (first ∷ rest)
    → IsAlias a first
compared-Alias first a rest valid vgs bindings (Memᴰ.head e) =
    subst (λ v. IsAlias v first) (sym e) (Same_refl ("vg_uuid" ∷ binding_fields) first)
compared-Alias first a rest valid vgs bindings (Memᴰ.tail m) =
    let (vg, texts) = enrollment-Texts first valid in
    let (one, _) =
      agree-Same ("vg_uuid" ∷ []) a first (vg, tt)
        (all-mem (λ v. agree ("vg_uuid" ∷ []) v first) (first ∷ rest) vgs (Memᴰ.tail m)) in
    (
      one,
      agree-Same binding_fields a first texts
          (all-mem (λ v. agree binding_fields v first) rest bindings m),
    )

compared_pair :
    (xs : List Value)
    → (compare_aliases xs).action ≡ aliases_consistent
    → validate_each xs ≡ ok tt
    → (are_unique (names_of xs) ≡ true) × ((a b : Value) → Memᴰ a xs → Memᴰ b xs → IsAlias a b)
compared_pair [] h valid = cc
compared_pair (first ∷ rest) h valid =
    let (unique, vgs, bindings) = alias_guards _ _ _ _ _ _ _ h in
    let to_first : (a : Value) → Memᴰ a (first ∷ rest) → IsAlias a first =
      λ a m. compared-Alias first a rest (first_valid first rest valid) vgs bindings m in
    (
      unique,
      λ a b m n. Same_join ("vg_uuid" ∷ binding_fields) a b first (to_first a m) (to_first b n),
    )

evaluated :
    (empty : Bool) (r : Result (Unit {0})) (m : String) (x : Reply)
    → (if empty
        then malformed m
        else elim r as (λ q. Reply) [ refused e ↦ malformed e | ok _ ↦ x ]).action
      ≡ aliases_consistent
    → (r ≡ ok tt) × (x.action ≡ aliases_consistent)
evaluated empty (refused e) m x h = ground (arith, h)
evaluated empty (ok u) m x h = (refl, ground (arith, h))

-- Aliases that are called consistent have storage identities of their own, and any two of them
-- have the same volume group, authority, storage set, code, policy, cluster and backend.
pub evaluate_alias_set-IsAlias :
    (v : Value)
    → (evaluate_alias_set v).action ≡ aliases_consistent
    → (are_unique (map (λ e. text_of (get "storage_id" e)) (items v)) ≡ true)
      × ((a b : Value) → Memᴰ a (items v) → Memᴰ b (items v) → IsAlias a b)
unfolding evaluate_alias_set
evaluate_alias_set-IsAlias v h =
    let (valid, h1) = evaluated _ (validate_each (items v)) _ (compare_aliases (items v)) h in
    compared_pair (items v) h1 valid
