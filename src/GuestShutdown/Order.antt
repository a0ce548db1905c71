-- ===== src/GuestShutdown/Order.antt =====
-- A run as a whole.
use proxmox_sharedlvmthin.Base.{String, Bool, false, List, [], Result, ◌≡◌}
use proxmox_sharedlvmthin.Base.Int.{ℤ}
use proxmox_sharedlvmthin.Base.Json.{Value}
use proxmox_sharedlvmthin.Base.Effects.{Ending, Returns, Returns-then}
use proxmox_sharedlvmthin.Base.Kept.{Returns-keep, Keeps-pure}
use proxmox_sharedlvmthin.Control.State.{World, enter}
use proxmox_sharedlvmthin.Control.Calls.{IsLog, Emitted-IsLog}
use proxmox_sharedlvmthin.Control.Sound.{
  IsUnpoisoned, unchanged-Returns, keep_rules, IsLeft, guarded_lem,
}
use proxmox_sharedlvmthin.GuestShutdown.Controller.{Backend, Call, authority, clock, guard}
use proxmox_sharedlvmthin.GuestShutdown.Run.{Answer, guests_of, survey, attempt, run}
use proxmox_sharedlvmthin.GuestShutdown.Protocol.{protocol, attempt-Emits}

-- A run that started from the log `before` has made its calls, and left the controller.
abbrev pub Finished : {S : Type 0} → Value → List Call → World S Call × Ending Answer → Type 0
Finished plan before step =
    IsLog (protocol (guests_of plan)) before step.0.calls step.1 × IsLeft step

module _ {S : Type 0} (b : Backend S) (is_digits : String → Bool) (int_of : String → Result ℤ)
    (plan : Value) (digest : Value → String) (plan_sha : String) where
  clock-Returns : Returns (λ w u. IsUnpoisoned {S = S} {C = Call} w) (clock b plan digest plan_sha)
  unfolding clock authority
  clock-Returns = Returns-then _ _ _ λ old.
      Returns-then _ _ _ λ value.
        Returns-keep IsUnpoisoned _ _ (unchanged-Returns _ _) λ u. search keep_rules depth 16

  survey-Returns :
      (guests : List Value)
      → Returns
          (λ w u. IsUnpoisoned {S = S} {C = Call} w)
          (survey b is_digits int_of plan digest plan_sha guests)
  unfolding survey guard
  survey-Returns guests =
      Returns-then _ _ _ λ snapshot. Returns-then _ _ _ λ u. Returns-then _ _ _ λ u. clock-Returns

  attempt-Returns :
      Returns
        (λ w a. IsUnpoisoned {S = S} {C = Call} w)
        (attempt b is_digits int_of plan digest plan_sha)
  unfolding attempt
  attempt-Returns = Returns-then _ _ _ λ u. Returns-then _ _ _ λ u.
      Returns-then _ _ _
        λ u. Returns-keep IsUnpoisoned _ _ (survey-Returns []) λ u. Keeps-pure IsUnpoisoned _

  attempt-IsLog :
      (w : World S Call)
      → (let end = attempt b is_digits int_of plan digest plan_sha w in
          IsLog (protocol (guests_of plan)) w.calls end.0.calls end.1)
  attempt-IsLog w =
      Emitted-IsLog _ _ (attempt b is_digits int_of plan digest plan_sha w)
        ((attempt-Emits b is_digits int_of plan digest plan_sha).emitted w)

  -- A run of a controller that is not poisoned and not running makes, if it answers, all calls of the
  -- protocol of the plan's guests in order, each once, and leaves the controller not poisoned, whatever
  -- the callbacks did to it; if it raises it made some first part of these calls, and an Exception
  -- leaves the controller poisoned. It is not running afterwards, whatever was raised.
  pub run-Finished :
      (w : World S Call)
      → w.self.running ≡ false
      → w.self.poisoned ≡ false
      → Finished plan w.calls (run b is_digits int_of plan digest plan_sha w)
  unfolding run enter
  run-Finished w idle clean =
      guarded_lem (IsLog (protocol (guests_of plan)) w.calls) _ _
        (attempt b is_digits int_of plan digest plan_sha) w idle clean (attempt-IsLog (enter w))
        attempt-Returns
