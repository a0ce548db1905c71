-- ===== src/GuestShutdown/Protocol.antt =====
-- The calls of a run, in order.
use proxmox_sharedlvmthin.Base.{ℕ, suc, String, Bool, List, [], ◌∷◌, ◌++◌, Result}
use proxmox_sharedlvmthin.Base.Int.{ℤ}
use proxmox_sharedlvmthin.Base.Json.{Value}
use proxmox_sharedlvmthin.Base.Effects.{Emits, Emits-pure, Emits-bind, after_call}
use proxmox_sharedlvmthin.Control.Calls.{log, ask-Emits, unchanged-Emits, after_quiet, call_rules}
use proxmox_sharedlvmthin.GuestShutdown.Controller.{
  Backend, Call, now, load_events, observe_cluster, observe_guest, submit_graceful_shutdown,
  wait_task, persist_event, authority, clock, guard, persist,
}
use proxmox_sharedlvmthin.GuestShutdown.Run.{
  guests_of, survey, look_before, request, await, look_after, stop, stop_all, begin, attempt,
}

abbrev pub opening : List Call
opening = now ∷ load_events ∷ now ∷ []

abbrev pub surveyed : List Call
surveyed = observe_cluster ∷ now ∷ []

-- Until a guest is asked to shut down: it is looked at, and the request is recorded as meant and as
-- attempted.
abbrev pub asked : ℕ → Value → List Call
asked index guest =
    observe_cluster
    ∷ now
    ∷ observe_guest guest
    ∷ now
    ∷ now
    ∷ persist_event "INTENT_DURABLE" index
    ∷ now
    ∷ persist_event "ATTEMPTED" index
    ∷ now
    ∷ []

-- Until it is recorded as absent.
abbrev pub answered : ℕ → Value → List Call
answered index guest =
    persist_event "TASK_ACCEPTED" index
    ∷ now
    ∷ wait_task index
    ∷ now
    ∷ persist_event "TASK_TERMINAL" index
    ∷ now
    ∷ observe_guest guest
    ∷ now
    ∷ persist_event "OBSERVED_ABSENT" index
    ∷ now
    ∷ []

-- All guests, one after another.
abbrev pub stops : ℕ → List Value → List Call
stops index [] = []
stops index (guest ∷ guests) =
    asked index guest
    ++ (submit_graceful_shutdown guest ∷ (answered index guest ++ stops (suc index) guests))

abbrev pub protocol : List Value → List Call
protocol guests = (opening ++ surveyed) ++ (stops 0 guests ++ surveyed)

module _ {S : Type 0} (b : Backend S) (plan : Value) (digest : Value → String)
    (plan_sha : String) where
  authority-Emits : Emits log [] (authority b plan digest plan_sha)
  unfolding authority
  authority-Emits = unchanged-Emits _ _

  clock-Emits : Emits log (now ∷ []) (clock b plan digest plan_sha)
  unfolding clock
  clock-Emits = search (call_rules, authority-Emits) depth 24

  guard-Emits : Emits log (now ∷ []) (guard b plan digest plan_sha)
  unfolding guard
  guard-Emits = after_quiet _ _ _ authority-Emits λ u. clock-Emits

  persist-Emits :
      (kind : String) (index : ℕ) (guest : Value) (payload : List Value)
      → Emits log
          (persist_event kind index ∷ now ∷ [])
          (persist b plan digest plan_sha kind index guest payload)
  unfolding persist
  persist-Emits kind index guest payload = after_call log _ _ _ _ (ask-Emits _ _) λ u. guard-Emits

ruleset part_rules = (call_rules, authority-Emits, clock-Emits, guard-Emits, persist-Emits)

module _ {S : Type 0} (b : Backend S) (is_digits : String → Bool) (int_of : String → Result ℤ)
    (plan : Value) (digest : Value → String) (plan_sha : String) where
  survey-Emits :
      (guests : List Value)
      → Emits log surveyed (survey b is_digits int_of plan digest plan_sha guests)
  unfolding survey
  survey-Emits guests = search part_rules depth 16

  look_before-Emits :
      (guest : Value)
      → Emits log
          (observe_guest guest ∷ now ∷ [])
          (look_before b is_digits int_of plan digest plan_sha guest)
  unfolding look_before
  look_before-Emits guest = search part_rules depth 16

  request-Emits :
      (index : ℕ) (guest : Value)
      → Emits log
          (now
            ∷ persist_event "INTENT_DURABLE" index
            ∷ now
            ∷ persist_event "ATTEMPTED" index
            ∷ now
            ∷ submit_graceful_shutdown guest
            ∷ persist_event "TASK_ACCEPTED" index
            ∷ now
            ∷ [])
          (request b is_digits int_of plan digest plan_sha index guest)
  unfolding request
  request-Emits index guest = search part_rules depth 32

  await-Emits :
      (index : ℕ) (guest accepted : Value)
      → Emits log
          (wait_task index ∷ now ∷ persist_event "TASK_TERMINAL" index ∷ now ∷ [])
          (await b is_digits int_of plan digest plan_sha index guest accepted)
  unfolding await
  await-Emits index guest accepted = search part_rules depth 24

  look_after-Emits :
      (index : ℕ) (guest : Value)
      → Emits log
          (observe_guest guest ∷ now ∷ persist_event "OBSERVED_ABSENT" index ∷ now ∷ [])
          (look_after b is_digits int_of plan digest plan_sha index guest)
  unfolding look_after
  look_after-Emits index guest = search part_rules depth 24

  stop-Emits :
      (index : ℕ) (guest : Value)
      → Emits log
          (observe_guest guest
            ∷ now
            ∷ now
            ∷ persist_event "INTENT_DURABLE" index
            ∷ now
            ∷ persist_event "ATTEMPTED" index
            ∷ now
            ∷ submit_graceful_shutdown guest
            ∷ answered index guest)
          (stop b is_digits int_of plan digest plan_sha index guest)
  unfolding stop
  stop-Emits index guest = Emits-bind log _ _ _ _ (look_before-Emits guest) λ u.
      Emits-bind log _ _ _ _ (request-Emits index guest) λ accepted.
        Emits-bind log _ _ _ _ (await-Emits index guest accepted) λ u. look_after-Emits index guest

  stop_all-Emits :
      (index : ℕ) (guests : List Value)
      → Emits log
          (stops index guests)
          (stop_all b is_digits int_of plan digest plan_sha index guests)
  unfolding stop_all
  stop_all-Emits index [] = Emits-pure log tt
  stop_all-Emits index (guest ∷ guests) =
      Emits-bind log _ _ _ _ (survey-Emits (guest ∷ guests))
        λ u. Emits-bind log _ _ _ _ (stop-Emits index guest) λ u. stop_all-Emits (suc index) guests

  begin-Emits : Emits log opening (begin b is_digits int_of plan digest plan_sha)
  unfolding begin
  begin-Emits = search part_rules depth 24

  pub attempt-Emits :
      Emits log (protocol (guests_of plan)) (attempt b is_digits int_of plan digest plan_sha)
  unfolding attempt
  attempt-Emits = Emits-bind log _ _ _ _ begin-Emits λ u.
      Emits-bind log _ _ _ _ (survey-Emits (guests_of plan)) λ u.
        Emits-bind log _ _ _ _ (stop_all-Emits 0 (guests_of plan))
          λ u. Emits-bind log _ _ _ _ (survey-Emits []) λ u. Emits-pure log _
