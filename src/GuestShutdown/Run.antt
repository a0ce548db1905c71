-- ===== src/GuestShutdown/Run.antt =====
-- `run`: each guest is looked at, asked to shut down, waited for and looked at again, each step
-- recorded, before the next guest.
use proxmox_sharedlvmthin.Base.{ℕ, suc, String, Bool, true, false, List, [], ◌∷◌, Result}
use proxmox_sharedlvmthin.Base.Int.{ℤ}
use proxmox_sharedlvmthin.Base.Checks.{◌//◌, requires}
use proxmox_sharedlvmthin.Base.Json.{Value, get, items}
use proxmox_sharedlvmthin.Base.Effects.{Action, pure, lift, ◌>>=◌, ◌>>◌}
use proxmox_sharedlvmthin.Control.State.{World, ask, guarded}
use proxmox_sharedlvmthin.GuestShutdown.Snapshot.{is_empty_list, validate_snapshot}
use proxmox_sharedlvmthin.GuestShutdown.Receipts.{guest_checks, check_acceptance, terminal_checks}
use proxmox_sharedlvmthin.GuestShutdown.Controller.{
  Backend, Call, load_events, observe_cluster, observe_guest, submit_graceful_shutdown, wait_task,
  authority, clock, guard, persist,
}

pub data Answer : Type 0 where
  model_allowlist_stopped : Answer

abbrev pub guests_of : Value → List Value
guests_of plan = items (get "guests" plan)

module _ {S : Type 0} (b : Backend S) (is_digits : String → Bool) (int_of : String → Result ℤ)
    (plan : Value) (digest : Value → String) (plan_sha : String) where
  -- The guests that are still to be stopped run, and no other.
  unfoldable pub survey : List Value → Action (World S Call) (Unit {0})
  survey guests = do
    snapshot ← ask observe_cluster b.observe_cluster
    lift (validate_snapshot plan guests snapshot)
    guard b plan digest plan_sha

  unfoldable pub look_before : Value → Action (World S Call) (Unit {0})
  look_before guest = do
    before ← ask (observe_guest guest) (b.observe_guest guest)
    lift (requires (guest_checks "guest preflight" "guest preflight drifted" true guest before))
    guard b plan digest plan_sha

  unfoldable pub request : ℕ → Value → Action (World S Call) Value
  request index guest = do
    clock b plan digest plan_sha
    persist b plan digest plan_sha "INTENT_DURABLE" index guest []
    persist b plan digest plan_sha "ATTEMPTED" index guest []
    accepted ← ask (submit_graceful_shutdown guest) (b.submit_graceful_shutdown guest)
    lift (check_acceptance is_digits int_of guest accepted)
    authority b plan digest plan_sha
    persist b plan digest plan_sha "TASK_ACCEPTED" index guest (accepted ∷ [])
    pure accepted

  unfoldable pub await : ℕ → Value → Value → Action (World S Call) (Unit {0})
  await index guest accepted = do
    terminal ←
        ask (wait_task index)
          (b.wait_task (get "upid" accepted) (get "per_task_timeout" plan) (get "deadline" plan))
    lift (requires (terminal_checks accepted terminal))
    guard b plan digest plan_sha
    persist b plan digest plan_sha "TASK_TERMINAL" index guest (terminal ∷ [])

  unfoldable pub look_after : ℕ → Value → Action (World S Call) (Unit {0})
  look_after index guest = do
    absent ← ask (observe_guest guest) (b.observe_guest guest)
    lift (
        requires
          (guest_checks "guest absence receipt" "guest absence is not proven" false guest absent))
    guard b plan digest plan_sha
    persist b plan digest plan_sha "OBSERVED_ABSENT" index guest (absent ∷ [])

  unfoldable pub stop : ℕ → Value → Action (World S Call) (Unit {0})
  stop index guest = do
    look_before guest
    accepted ← request index guest
    await index guest accepted
    look_after index guest

  unfoldable pub stop_all : ℕ → List Value → Action (World S Call) (Unit {0})
  stop_all index [] = pure tt
  stop_all index (guest ∷ guests) = do
    survey (guest ∷ guests)
    stop index guest
    stop_all (suc index) guests

  unfoldable pub begin : Action (World S Call) (Unit {0})
  begin = do
    clock b plan digest plan_sha
    history ← ask load_events (b.load_events (get "tx" plan))
    guard b plan digest plan_sha
    lift (
        requires
          ((is_empty_list history // "nonempty shutdown history requires explicit recovery") ∷ []))

  -- The `try` block.
  unfoldable pub attempt : Action (World S Call) Answer
  attempt = do
    begin
    survey (guests_of plan)
    stop_all 0 (guests_of plan)
    survey []
    pure model_allowlist_stopped

  unfoldable pub run : Action (World S Call) Answer
  run = guarded "shutdown controller reentered" "shutdown controller poisoned" attempt
