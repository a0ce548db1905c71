-- ===== src/BridgePlan/Relation.antt =====
-- The recovery plans as a relation: which action is planned for which evidence.
use proxmox_sharedlvmthin.Base.{
  contains, true, ◌≡◌, ◌≢◌, ◌⊎◌, inl, inr, ◌↔◌, arith, eq_iff, ok, sym, ◌∙◌,
}
use proxmox_sharedlvmthin.Base.Int.{pos, ◌+ℤ◌, ◌≤ℤ◌}
use proxmox_sharedlvmthin.BridgePlan.{
  Evidence, Action, continue_materialize, migrate_thick, finalize_thick_only, finalize_thin,
  prepare_return_thin, finalize_thick, continue_return_thin, source_phases, target_phases, is_phase,
  validate, classify_source, classify_target, classify,
}

-- Evidence that contradicts nothing known about a migration.
pub record IsConsistent (e : Evidence) : Type 0 where
  pub named : is_phase e.phase ≡ true
  pub owned : (e.authority ≡ "source") ⊎ (e.authority ≡ "target")
  pub policy : (e.return_thin ≡ pos 0) ⊎ (e.return_thin ≡ pos 1)
  pub some_disk : pos 1 ≤ℤ e.disk_count
  pub thin_nonneg : pos 0 ≤ℤ e.thin_count
  pub thick_nonneg : pos 0 ≤ℤ e.thick_count
  pub accounted : e.thin_count +ℤ e.thick_count ≡ e.disk_count
  pub admitted : (e.admission ≡ "none") ⊎ (e.admission ≡ "exact")

validate-IsConsistent : (e : Evidence) → validate e ≡ ok tt → IsConsistent e
unfolding validate
validate-IsConsistent e h = ground (
  arith,
  eq_iff e.authority "source",
  eq_iff e.authority "target",
  eq_iff e.admission "none",
  eq_iff e.admission "exact",
  eq_iff e.admission "foreign",
)

abbrev pub IsSource : Evidence → Type 0
IsSource e = (e.authority ≡ "source") × (contains source_phases e.phase ≡ true)

abbrev pub IsTarget : Evidence → Type 0
IsTarget e = (e.authority ≡ "target") × (contains target_phases e.phase ≡ true)

-- A target that is past materialization, and not yet in its last phase.
abbrev pub IsReturning : Evidence → Type 0
IsReturning e =
    IsTarget e × (e.phase ≢ "FINALIZING_THICK") × (e.admission ≡ "exact" → e.return_thin ≡ pos 1)

abbrev pub Returns : Evidence → Type 0
Returns e = e.return_thin ≡ pos 1

abbrev pub KeepsThick : Evidence → Type 0
KeepsThick e = e.return_thin ≡ pos 0

-- What each action is planned for.
abbrev pub Plans : Evidence → Action → Type 0
Plans e continue_materialize = IsSource e × (e.thin_count ≢ pos 0)
Plans e migrate_thick = IsSource e × (e.thin_count ≡ pos 0)
Plans e finalize_thick_only =
    IsTarget e × (e.phase ≡ "FINALIZING_THICK") × KeepsThick e × (e.thick_count ≡ e.disk_count)
Plans e finalize_thin = IsReturning e × Returns e × (e.thin_count ≡ e.disk_count)
Plans e prepare_return_thin =
    IsReturning e × Returns e × (e.thin_count ≢ e.disk_count) × (e.thick_count ≡ e.disk_count)
Plans e finalize_thick =
    IsReturning e × KeepsThick e × (e.thin_count ≢ e.disk_count) × (e.thick_count ≡ e.disk_count)
Plans e continue_return_thin =
    IsReturning e × Returns e × (e.thin_count ≢ e.disk_count) × (e.thick_count ≢ e.disk_count)

IsConsistent-validate : (e : Evidence) → IsConsistent e → validate e ≡ ok tt
unfolding validate
IsConsistent-validate e h = ground (
  arith,
  eq_iff "none" "foreign",
  eq_iff "exact" "foreign",
  eq_iff e.authority "source",
  eq_iff e.authority "target",
  eq_iff e.admission "none",
  eq_iff e.admission "exact",
  eq_iff e.admission "foreign",
)

classify_source-Plans :
    (e : Evidence) (a : Action) → e.authority ≡ "source" → classify_source e ≡ ok a → Plans e a
unfolding classify_source
classify_source-Plans e continue_materialize s h = ground arith
classify_source-Plans e _ s h = ground arith

Plans-classify_source :
    (e : Evidence) (a : Action) → e.authority ≡ "source" → Plans e a → classify_source e ≡ ok a
unfolding classify_source
Plans-classify_source e continue_materialize s h = ground arith
Plans-classify_source e _ s h = ground (arith, eq_iff "source" "target")

classify_target-Plans :
    (e : Evidence) (a : Action)
    → IsConsistent e
    → e.authority ≡ "target"
    → classify_target e ≡ ok a
    → Plans e a
unfolding classify_target
classify_target-Plans e continue_materialize c s h = ground arith
classify_target-Plans e _ c s h =
    ground (arith, eq_iff e.admission "exact", eq_iff e.phase "FINALIZING_THICK")

Plans-classify_target :
    (e : Evidence) (a : Action)
    → IsConsistent e
    → e.authority ≡ "target"
    → Plans e a
    → classify_target e ≡ ok a
unfolding classify_target
Plans-classify_target e continue_materialize c s h = ground (arith, eq_iff "source" "target")
Plans-classify_target e _ c s h =
    ground (
      arith,
      eq_iff "source" "target",
      eq_iff e.admission "exact",
      eq_iff e.phase "FINALIZING_THICK",
    )

classify-owner :
    (e : Evidence)
    → IsConsistent e
    → ((e.authority ≡ "source") × (classify e ≡ classify_source e))
      ⊎ ((e.authority ≡ "target") × (classify e ≡ classify_target e))
unfolding classify
classify-owner e c =
    ground (arith, IsConsistent-validate e c, eq_iff e.authority "source", eq_iff "source" "target")

classify-IsConsistent : (e : Evidence) (a : Action) → classify e ≡ ok a → IsConsistent e
unfolding classify
classify-IsConsistent e a h = validate-IsConsistent e (ground arith)

-- `classify` returns an action exactly when the evidence is consistent and the relation plans that
-- action for it; in every other case it refuses.
pub classify_iff : (e : Evidence) (a : Action) → (classify e ≡ ok a) ↔ (IsConsistent e × Plans e a)
classify_iff e a = (sound, λ h. complete h.0 h.1)
  where
    sound : classify e ≡ ok a → IsConsistent e × Plans e a
    sound h =
        let c = classify-IsConsistent e a h in
        elim (classify-owner e c) [
          | inl (s, q) ↦ (c, classify_source-Plans e a s (sym q ∙ h))
          | inr (t, q) ↦ (c, classify_target-Plans e a c t (sym q ∙ h))
        ]

    complete : IsConsistent e → Plans e a → classify e ≡ ok a
    complete c p = elim (classify-owner e c) [
      | inl (s, q) ↦ q ∙ Plans-classify_source e a s p
      | inr (t, q) ↦ q ∙ Plans-classify_target e a c t p
    ]
