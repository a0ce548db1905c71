-- ===== src/BridgePlan.antt =====
-- usr/libexec/pve-sharedlvmthin/sharedlvmthin-bridge-plan: the recovery planner of a materialized
-- Thin migration. `classify` takes its keyword arguments as one record; counts are integers.
pub mod Relation
pub mod Laws
mod Tests
use proxmox_sharedlvmthin.Base.{
  ℕ, suc, ◌+◌, String, Bool, true, false, not, ◌&&◌, ◌||◌, List, [], ◌∷◌, contains,
  matches_head_tail, is_upper, is_digit, only, codes, str_eq, if◌then◌else◌, Result, ok, refused,
  ◌>>=◌, ◌>>◌, refuse_if, ◌<>◌,
}
use proxmox_sharedlvmthin.Base.Int.{ℤ, pos, ◌+ℤ◌, ltb_ℤ, leb_ℤ, eq_ℤ}

pub source_phases : List String
source_phases =
    "PREPARED" ∷ "WAITING_ADMISSION" ∷ "MATERIALIZING" ∷ "MATERIALIZE_FAILED" ∷ "MATERIALIZED_THICK"
    ∷ "MIGRATION_UNSETTLED" ∷ []

pub target_phases : List String
target_phases =
    "MATERIALIZED_THICK" ∷ "MIGRATION_UNSETTLED" ∷ "MIGRATED_THICK" ∷ "RETURN_ADMISSION_PENDING"
    ∷ "RETURN_HEALTH_PENDING" ∷ "RETURN_THIN_PREPARED" ∷ "RETURNING_THIN" ∷ "RETURN_FAILED"
    ∷ "RETURNED_THIN" ∷ "FINALIZING_THICK" ∷ "COMPLETE_THICK" ∷ []

pub record Evidence : Type 0 where
  pub phase : String
  pub authority : String
  pub return_thin : ℤ
  pub disk_count : ℤ
  pub thin_count : ℤ
  pub thick_count : ℤ
  pub admission : String

pub data Action : Type 0 where
  continue_materialize migrate_thick finalize_thick_only : Action
  finalize_thin prepare_return_thin finalize_thick continue_return_thin : Action

-- `re.fullmatch(r"[A-Z][A-Z0-9_]*", phase)`
pub is_phase : String → Bool
is_phase s = matches_head_tail is_upper (λ c. is_upper c || is_digit c || only b'_' c) (codes s)

classify_source : Evidence → Result Action
classify_source e = do
  refuse_if (not (contains source_phases e.phase)) "phase is incompatible with source authority"
  ok (if not (eq_ℤ e.thin_count (pos 0)) then continue_materialize else migrate_thick)

-- `if return_thin`, and `thick_count == disk_count`.
abbrev returns : Evidence → Bool
returns e = not (eq_ℤ e.return_thin (pos 0))

abbrev all_thick : Evidence → Bool
all_thick e = eq_ℤ e.thick_count e.disk_count

-- The `FINALIZING_THICK` branch, and the branches after it.
classify_finalizing : Evidence → Result Action
classify_finalizing e = do
  refuse_if (returns e || not (all_thick e))
      "finalizing-Thick state contradicts saved policy or topology"
  ok finalize_thick_only

classify_all_thin : Evidence → Result Action
classify_all_thin e = do
  refuse_if (not (returns e)) "all-Thin target contradicts keep-Thick policy"
  ok finalize_thin

classify_mixed : Evidence → Result Action
classify_mixed e = do
  refuse_if (not (returns e)) "mixed target contradicts keep-Thick policy"
  ok continue_return_thin

classify_returning : Evidence → Result Action
unfolding classify_all_thin classify_mixed
classify_returning e = do
  refuse_if (str_eq e.admission "exact" && not (returns e))
      "keep-Thick target has an unexpected active admission"
  if eq_ℤ e.thin_count e.disk_count
      then classify_all_thin e
      else if all_thick e
      then ok (if returns e then prepare_return_thin else finalize_thick)
      else classify_mixed e

classify_target : Evidence → Result Action
unfolding classify_finalizing classify_returning
classify_target e = do
  refuse_if (not (contains target_phases e.phase)) "phase is incompatible with target authority"
  if str_eq e.phase "FINALIZING_THICK" then classify_finalizing e else classify_returning e

-- The checks that come before the choice of an action.
validate : Evidence → Result (Unit {0})
validate e = do
  refuse_if (not (is_phase e.phase)) "invalid phase"
  refuse_if (not (contains ("source" ∷ "target" ∷ []) e.authority))
      "authoritative VM node is neither source nor target"
  refuse_if (not (eq_ℤ e.return_thin (pos 0) || eq_ℤ e.return_thin (pos 1)))
      "invalid return-Thin policy"
  refuse_if
      (leb_ℤ e.disk_count (pos 0) || ltb_ℤ e.thin_count (pos 0) || ltb_ℤ e.thick_count (pos 0))
      "invalid disk counts"
  refuse_if (not (eq_ℤ (e.thin_count +ℤ e.thick_count) e.disk_count))
      "disk topology contains missing, foreign or duplicate storage"
  refuse_if (not (contains ("none" ∷ "exact" ∷ "foreign" ∷ []) e.admission))
      "invalid admission evidence"
  refuse_if (str_eq e.admission "foreign") "VG admission belongs to another transaction"

pub classify : Evidence → Result Action
unfolding validate classify_source classify_target ◌+ℤ◌
classify e = do
  validate e
  if str_eq e.authority "source" then classify_source e else classify_target e

abbrev action_name : Action → String
action_name continue_materialize = "CONTINUE_MATERIALIZE"
action_name migrate_thick = "MIGRATE_THICK"
action_name finalize_thick_only = "FINALIZE_THICK_ONLY"
action_name finalize_thin = "FINALIZE_THIN"
action_name prepare_return_thin = "PREPARE_RETURN_THIN"
action_name finalize_thick = "FINALIZE_THICK"
action_name continue_return_thin = "CONTINUE_RETURN_THIN"

pub record Exit : Type 0 where
  pub status : ℕ
  pub out : List String
  pub err : List String

report : Result Action → Exit
report (ok a) = record { status = 0; out = ("RECOVERY_PLAN=" <> action_name a) ∷ []; err = [] }
report (refused m) = record {
  status = 70;
  out = "RECOVERY_PLAN=REFUSE" ∷ ("REASON=" <> m) ∷ [];
  err = [];
}

usage : Exit
usage = record {
  status = 64;
  out = [];
  err =
      "Usage: sharedlvmthin-bridge-plan <phase> <source|target> <return-thin:0|1> <disk-count> <thin-count> <thick-count> <none|exact|foreign>"
      ∷ [];
}

-- `int(text)` of Python is the parameter: it returns an integer or raises with a message.
module _ (int : String → Result ℤ) where
  -- The keyword arguments of the call in `main`, evaluated in order.
  pub read_evidence : String → String → String → String → String → String → String → Result Evidence
  read_evidence phase authority r d thin thick admission = do
    return_thin ← int r
    disk_count ← int d
    thin_count ← int thin
    thick_count ← int thick
    ok (record {
      phase = phase;
      authority = authority;
      return_thin = return_thin;
      disk_count = disk_count;
      thin_count = thin_count;
      thick_count = thick_count;
      admission = admission;
    })

  pub main : List String → Exit
  unfolding read_evidence report usage classify
  main (phase ∷ authority ∷ r ∷ d ∷ thin ∷ thick ∷ admission ∷ []) =
      report (read_evidence phase authority r d thin thick admission >>= classify)
  main _ = usage
