-- ===== src/Barrier/Order.antt =====
-- A run as a whole.
use proxmox_sharedlvmthin.Base.{String, Bool, false, List, ◌++◌, Result, ◌≡◌, refl, ap, ◌∙◌}
use mathlib.Core.List.{append_assoc}
use proxmox_sharedlvmthin.Base.Json.{Value}
use proxmox_sharedlvmthin.Base.Effects.{
  gives, raises, Ending, pure, Emitted, Returns, continue, ◌>>=◌,
}
use proxmox_sharedlvmthin.Base.Kept.{Keeps-pure, Returns-keep}
use proxmox_sharedlvmthin.Barrier.Controller.{Backend, Call}
use proxmox_sharedlvmthin.Barrier.Journal.{Start, fresh, completed_historical}
use proxmox_sharedlvmthin.Barrier.Run.{complete, Answer, model_held, begin, proceed, attempt, run}
use proxmox_sharedlvmthin.Barrier.Protocol.{opening, work, protocol}
use proxmox_sharedlvmthin.Control.State.{World, enter}
use proxmox_sharedlvmthin.Control.Calls.{log, all_done}
use proxmox_sharedlvmthin.Control.Sound.{IsUnpoisoned, IsLeft, guarded_lem}
use proxmox_sharedlvmthin.Barrier.Steps.{begin-Emits, complete-Emits}
use proxmox_sharedlvmthin.Barrier.Sound.{begin-Returns, complete-Returns}

-- A log of the calls of the answer's protocol, or of some of the first calls of the whole one.
abbrev pub IsLog : Value → List Call → List Call → Ending Answer → Type 0
IsLog plan before calls (gives a) = calls ≡ before ++ protocol plan a
IsLog plan before calls (raises kind message) =
    (done : List Call) × (left : List Call) × (protocol plan model_held ≡ done ++ left)
    × (calls ≡ before ++ done)

-- Both, of a run that started from the log `before`.
abbrev pub Followed : {S : Type 0} → Value → List Call → World S Call × Ending Answer → Type 0
Followed plan before step = IsLog plan before step.0.calls step.1 × IsLeft step

module _ {S : Type 0} (b : Backend S) (is_sorted_set : List Value → Result Bool) (plan : Value)
    (digest : Value → String) (plan_sha256 : String) where
  held_case :
      (before : List Call) (w : World S Call) (step : World S Call × Ending (Unit {0}))
      → w.calls ≡ before ++ opening
      → Emitted log (work plan) w.calls step
      → (let whole = continue step (λ u. pure model_held) in
          IsLog plan before whole.0.calls whole.1)
  unfolding pure
  held_case before w (w', gives u) opened (done, left, grown, split, ended) =
      grown
      ∙ ap (λ l. l ++ done) opened
      ∙ append_assoc before opening done
      ∙ ap (λ l. before ++ (opening ++ l)) (all_done (work plan) done left split ended)
  held_case before w (w', raises kind message) opened (done, left, grown, split, ended) = (
    opening ++ done,
    left,
    ap (λ l. opening ++ l) split,
    grown ∙ ap (λ l. l ++ done) opened ∙ append_assoc before opening done,
  )

  opened_case :
      (before : List Call) (step : World S Call × Ending Start)
      → Emitted log opening before step
      → (let whole = continue step (proceed b is_sorted_set plan digest plan_sha256) in
          IsLog plan before whole.0.calls whole.1)
  unfolding proceed pure ◌>>=◌
  opened_case before (w, gives completed_historical) (done, left, grown, split, ended) =
      grown ∙ ap (λ l. before ++ l) (all_done opening done left split ended)
  opened_case before (w, gives fresh) (done, left, grown, split, ended) =
      held_case before w (complete b is_sorted_set plan digest plan_sha256 w)
        (grown ∙ ap (λ l. before ++ l) (all_done opening done left split ended))
        ((complete-Emits b is_sorted_set plan digest plan_sha256).emitted w)
  opened_case before (w, raises kind message) (done, left, grown, split, ended) = (
    done,
    left ++ work plan,
    ap (λ l. l ++ work plan) split ∙ append_assoc done left (work plan),
    grown,
  )

  opened-IsUnpoisoned :
      (step : World S Call × Ending Start)
      → ((found : Start) → step.1 ≡ gives found → IsUnpoisoned step.0)
      → (a : Answer) → (continue step (proceed b is_sorted_set plan digest plan_sha256)).1 ≡ gives a
      → IsUnpoisoned (continue step (proceed b is_sorted_set plan digest plan_sha256)).0
  unfolding proceed pure
  opened-IsUnpoisoned (w, gives completed_historical) first a e = first completed_historical refl
  opened-IsUnpoisoned (w, gives fresh) first a e =
      (Returns-keep IsUnpoisoned _ _ (complete-Returns b is_sorted_set plan digest plan_sha256)
          λ u. Keeps-pure IsUnpoisoned model_held).returned
        w a e
  opened-IsUnpoisoned (w, raises kind message) first a e = cc

  attempt-IsLog :
      (w : World S Call)
      → (let end = attempt b is_sorted_set plan digest plan_sha256 w in
          IsLog plan w.calls end.0.calls end.1)
  unfolding attempt ◌>>=◌
  attempt-IsLog w =
      opened_case w.calls (begin b is_sorted_set plan digest plan_sha256 w)
        ((begin-Emits b is_sorted_set plan digest plan_sha256).emitted w)

  attempt-IsUnpoisoned :
      Returns
        (λ w a. IsUnpoisoned {S = S} {C = Call} w)
        (attempt b is_sorted_set plan digest plan_sha256)
  unfolding attempt ◌>>=◌
  attempt-IsUnpoisoned = record {
    returned = λ w a e.
        opened-IsUnpoisoned (begin b is_sorted_set plan digest plan_sha256 w)
          ((begin-Returns b is_sorted_set plan digest plan_sha256).returned w) a e;
  }

  -- A run of a controller that is not poisoned and not running makes, if it answers, all calls of the
  -- answer's protocol in order, each once, and leaves the controller not poisoned, whatever the callbacks
  -- did to it; if it raises it made some first part of the protocol's calls, and an Exception leaves the
  -- controller poisoned. It is not running afterwards, whatever was raised.
  pub run-Followed :
      (w : World S Call)
      → w.self.running ≡ false
      → w.self.poisoned ≡ false
      → Followed plan w.calls (run b is_sorted_set plan digest plan_sha256 w)
  unfolding run enter
  run-Followed w idle clean =
      guarded_lem (IsLog plan w.calls) _ _ (attempt b is_sorted_set plan digest plan_sha256) w idle
        clean (attempt-IsLog (enter w)) attempt-IsUnpoisoned
