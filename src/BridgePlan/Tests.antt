-- ===== src/BridgePlan/Tests.antt =====
-- Runs of the planner, and the theorems at concrete evidence.
use proxmox_sharedlvmthin.Base.{
  ◌≡◌, refl, ◌↔◌, ◌⊎◌, String, [], ◌∷◌, Result, ok, refused, str_eq, if◌then◌else◌, eq_iff,
}
use proxmox_sharedlvmthin.Base.Int.{ℤ, pos}
use proxmox_sharedlvmthin.BridgePlan.{
  Evidence, Action, finalize_thick_only, finalize_thick, continue_return_thin, source_phases,
  target_phases, is_phase, classify, main,
}
use proxmox_sharedlvmthin.BridgePlan.Relation.{IsConsistent, Plans, classify_iff}
use proxmox_sharedlvmthin.BridgePlan.Laws.{keep_thick_plan, returning_progress}

abbrev returning : Evidence
returning = record {
  phase = "RETURNING_THIN";
  authority = "target";
  return_thin = pos 1;
  disk_count = pos 3;
  thin_count = pos 1;
  thick_count = pos 2;
  admission = "exact";
}

abbrev kept : Evidence
kept = record {
  phase = "MIGRATED_THICK";
  authority = "target";
  return_thin = pos 0;
  disk_count = pos 2;
  thin_count = pos 0;
  thick_count = pos 2;
  admission = "none";
}

returning_runs : classify returning ≡ ok continue_return_thin
unfolding classify is_phase source_phases target_phases
returning_runs = refl

kept_runs : classify kept ≡ ok finalize_thick
unfolding classify is_phase source_phases target_phases
kept_runs = refl

missing_disk :
    classify (record kept { thick_count = pos 1 })
    ≡ refused "disk topology contains missing, foreign or duplicate storage"
unfolding classify is_phase source_phases target_phases
missing_disk = refl

returning-IsConsistent : IsConsistent returning
returning-IsConsistent = ((classify_iff returning continue_return_thin).0 returning_runs).0

-- Only the digits 0 to 3 parse here.
abbrev small_int : String → Result ℤ
small_int s =
    if str_eq s "0"
    then ok (pos 0)
    else if str_eq s "1"
    then ok (pos 1)
    else if str_eq s "2"
    then ok (pos 2)
    else if str_eq s "3"
    then ok (pos 3)
    else refused "invalid literal for int()"

main_runs :
    (main small_int ("RETURNING_THIN" ∷ "target" ∷ "1" ∷ "3" ∷ "1" ∷ "2" ∷ "exact" ∷ [])).out
    ≡ "RECOVERY_PLAN=CONTINUE_RETURN_THIN" ∷ []
unfolding main is_phase source_phases target_phases
main_runs = refl

classify_iff_example :
    (classify returning ≡ ok continue_return_thin)
    ↔ (IsConsistent returning × Plans returning continue_return_thin)
classify_iff_example = classify_iff returning continue_return_thin

keep_thick_plan_example :
    ((finalize_thick ≡ finalize_thick_only) ⊎ (finalize_thick ≡ finalize_thick))
    × (pos 2 ≡ pos 2)
    × (pos 0 ≡ pos 0)
keep_thick_plan_example = keep_thick_plan kept finalize_thick refl refl kept_runs

returning_progress_example : (a : Action) × (classify returning ≡ ok a)
unfolding target_phases
returning_progress_example =
    returning_progress returning returning-IsConsistent refl refl refl
      (λ e. cc ((eq_iff "RETURNING_THIN" "FINALIZING_THICK").1 e))
