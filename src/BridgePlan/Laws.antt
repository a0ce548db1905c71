-- ===== src/BridgePlan/Laws.antt =====
-- What the planner guarantees to an operator: a plan never contradicts the saved policy, and
-- consistent evidence of a returning migration always has a next action.
use proxmox_sharedlvmthin.Base.{
  contains, ◌<>◌, ◌≡◌, ◌≢◌, true, ◌⊎◌, arith, String, [], ◌∷◌, Result, ok, if◌then◌else◌, eq_iff,
}
use proxmox_sharedlvmthin.Base.Int.{ℤ, pos, +ℤ-eq_right, eq_ℤ}
use proxmox_sharedlvmthin.BridgePlan.{
  Evidence, Action, continue_materialize, finalize_thick_only, finalize_thin, prepare_return_thin,
  finalize_thick, continue_return_thin, target_phases, classify, action_name, Exit,
}
use proxmox_sharedlvmthin.BridgePlan.Relation.{IsConsistent, IsReturning, Plans, classify_iff}

-- Under a keep-Thick policy the target only ever gets a finalizing action, and that only once
-- every disk is Thick and none is Thin.
pub keep_thick_plan :
    (e : Evidence) (a : Action)
    → e.return_thin ≡ pos 0
    → e.authority ≡ "target"
    → classify e ≡ ok a
    → ((a ≡ finalize_thick_only) ⊎ (a ≡ finalize_thick))
      × (e.thick_count ≡ e.disk_count)
      × (e.thin_count ≡ pos 0)
keep_thick_plan e a k t h = go a ((classify_iff e a).0 h)
  where
    go :
        (b : Action)
        → IsConsistent e × Plans e b
        → ((b ≡ finalize_thick_only) ⊎ (b ≡ finalize_thick))
          × (e.thick_count ≡ e.disk_count)
          × (e.thin_count ≡ pos 0)
    go continue_materialize p = ground (arith, eq_iff "source" "target")
    go _ p = ground (arith, eq_iff "source" "target", +ℤ-eq_right e.thin_count e.thick_count)

next : Evidence → Action
next e =
    if eq_ℤ e.thin_count e.disk_count
    then finalize_thin
    else if eq_ℤ e.thick_count e.disk_count
    then prepare_return_thin
    else continue_return_thin

next-Plans : (e : Evidence) → IsReturning e → e.return_thin ≡ pos 1 → Plans e (next e)
unfolding next
next-Plans e h r = ground arith

-- Consistent evidence of a target that is to return to Thin, in any target phase other than
-- FINALIZING_THICK, has a next action.
pub returning_progress :
    (e : Evidence)
    → IsConsistent e
    → e.authority ≡ "target"
    → e.return_thin ≡ pos 1
    → contains target_phases e.phase ≡ true
    → e.phase ≢ "FINALIZING_THICK"
    → (a : Action) × (classify e ≡ ok a)
returning_progress e c t r p f =
    (next e, (classify_iff e (next e)).1 (c, next-Plans e ((t, p), f, λ _. r) r))

-- The arguments in the order of the command line, the four counts read as integers.
abbrev pub evidence_of : String → String → ℤ → ℤ → ℤ → ℤ → String → Evidence
evidence_of phase authority return_thin disk_count thin_count thick_count admission = record {
  phase = phase;
  authority = authority;
  return_thin = return_thin;
  disk_count = disk_count;
  thin_count = thin_count;
  thick_count = thick_count;
  admission = admission;
}

module _ (int : String → Result ℤ) (phase authority r d thin thick admission : String) where
  -- Each count parses, the evidence has a plan, and the plan is what is printed.
  abbrev pub Printed : Exit → Type 0
  Printed x =
      (return_thin : ℤ) × (disks : ℤ) × (thins : ℤ) × (thicks : ℤ) × (a : Action) × (int r
        ≡ ok return_thin)
      × (int d ≡ ok disks)
      × (int thin ≡ ok thins)
      × (int thick ≡ ok thicks)
      × (classify (evidence_of phase authority return_thin disks thins thicks admission) ≡ ok a)
      × (x.out ≡ ("RECOVERY_PLAN=" <> action_name a) ∷ [])

-- A refusal: status 70, and no other lines than that and why.
abbrev pub IsRefusal : Exit → Type 0
IsRefusal x =
    (x.status ≡ 70)
    × ((reason : String) × (x.out ≡ "RECOVERY_PLAN=REFUSE" ∷ ("REASON=" <> reason) ∷ []))
