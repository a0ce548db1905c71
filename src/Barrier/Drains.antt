-- ===== src/Barrier/Drains.antt =====
-- What a run has done before it drains a node.
use proxmox_sharedlvmthin.Base.Effects.{gives, raises, Ending}
use proxmox_sharedlvmthin.Base.{
  ℕ, suc, String, Bool, true, false, List, [], ◌∷◌, ◌++◌, all, Result, ok, ◌≡◌, refl, sym, ap,
  subst, ◌∙◌, &&_left, &&_right, &&_intro,
}
use mathlib.Core.List.{append-nil, append_assoc}
use proxmox_sharedlvmthin.Base.Int.{ℤ}
use proxmox_sharedlvmthin.Base.Json.{Value}
use proxmox_sharedlvmthin.Barrier.Enrollment.{names_of, validate_plan}
use proxmox_sharedlvmthin.Control.Calls.{after_first}
use proxmox_sharedlvmthin.Control.State.{World}
use proxmox_sharedlvmthin.Barrier.Controller.{Backend, Call, mask_persistent, drain_services}
use proxmox_sharedlvmthin.Barrier.Run.{Answer, model_completed_historical, model_held, run}
use proxmox_sharedlvmthin.Barrier.Protocol.{work, protocol}
use proxmox_sharedlvmthin.Barrier.Order.{IsLog, run-Followed}
use proxmox_sharedlvmthin.Barrier.Schedule.{
  looks, preflights, phase, entry_phase, drain_phase, protocol-schedule,
}

abbrev is_other : Call → Bool
is_other (drain_services node) = false
is_other _ = true

all_append :
    (xs ys : List Call)
    → all is_other xs ≡ true
    → all is_other ys ≡ true
    → all is_other (xs ++ ys) ≡ true
all_append [] ys p q = q
all_append (x ∷ xs) ys p q =
    &&_intro (&&_left (is_other x) (all is_other xs) p)
      (all_append xs ys (&&_right (is_other x) (all is_other xs) p) q)

preflights_other : (names : List String) → all is_other (preflights names) ≡ true
preflights_other [] = refl
preflights_other (name ∷ names) = preflights_other names

looks_other : (names : List String) → all is_other (looks names) ≡ true
looks_other [] = refl
looks_other (name ∷ names) = looks_other names

masks_other :
    (index : ℕ) (names : List String) → all is_other (phase mask_persistent index names) ≡ true
masks_other index [] = refl
masks_other index (name ∷ names) = masks_other (suc index) names

entry_phase_other : (names : List String) → all is_other (entry_phase names) ≡ true
entry_phase_other names = all_append (preflights names) _ (preflights_other names) (
    all_append (phase mask_persistent 0 names) (looks names) (masks_other 0 names)
      (looks_other names))

-- The calls of a run are the first ones of the whole protocol.
IsLog-prefix :
    (plan : Value) (calls : List Call) (r : Ending Answer)
    → IsLog plan [] calls r
    → (left : List Call) × (calls ++ left ≡ protocol plan model_held)
IsLog-prefix plan calls (gives model_completed_historical) logged =
    (work plan, ap (λ l. l ++ work plan) logged)
IsLog-prefix plan calls (gives model_held) logged = ([], append-nil calls ∙ logged)
IsLog-prefix plan calls (raises kind message) (done, left, split, logged) =
    (left, ap (λ l. l ++ left) logged ∙ sym split)

-- A run under an accepted plan, of a controller that is not running and not poisoned and of which no
-- call was noted before, drains no node, however the run ends, before it has read the journal, has
-- looked at every node, has blocked the entries of every node, each block recorded before its call as
-- meant and as attempted and after it as complete, and has looked at every node again.
pub run_drained_after :
    {S : Type 0} (b : Backend S) (is_sorted_set : List Value → Result Bool) (at : ℤ) (plan : Value)
    (digest : Value → String) (plan_sha256 : String) (w : World S Call) (xs ys : List Call)
    (node : Value)
    → validate_plan at plan ≡ ok tt
    → w.self.running ≡ false
    → w.self.poisoned ≡ false
    → w.calls ≡ []
    → (run b is_sorted_set plan digest plan_sha256 w).0.calls ≡ xs ++ (drain_services node ∷ ys)
    → (zs : List Call) × (xs ≡ entry_phase (names_of plan) ++ zs)
run_drained_after b is_sorted_set at plan digest plan_sha256 w xs ys node valid idle clean unlogged
      drained =
    let end = run b is_sorted_set plan digest plan_sha256 w in
    let logged = (run-Followed b is_sorted_set plan digest plan_sha256 w idle clean).0 in
    let (left, split) =
      IsLog-prefix plan end.0.calls end.1
        (subst (λ l. IsLog plan l end.0.calls end.1) unlogged logged) in
    let (zs, split, rest) =
      after_first is_other (entry_phase (names_of plan)) (drain_phase (names_of plan)) xs
        (ys ++ left) (drain_services node) (entry_phase_other (names_of plan)) refl
        (sym (append_assoc xs (drain_services node ∷ ys) left)
          ∙ ap (λ l. l ++ left) (sym drained)
          ∙ split
          ∙ protocol-schedule at plan valid) in
    (zs, split)
