-- ===== src/Barrier/Protocol.antt =====
-- The calls of a run, in order.
use proxmox_sharedlvmthin.Base.{ℕ, suc, String, Bool, true, false, List, [], ◌∷◌, ◌++◌, ◌==◌}
use proxmox_sharedlvmthin.Base.Json.{Value, get, is_text, items}
use proxmox_sharedlvmthin.Base.Effects.{Emits, after_call}
use proxmox_sharedlvmthin.Control.Calls.{log, ask-Emits, unchanged-Emits, after_quiet, call_rules}
use proxmox_sharedlvmthin.Barrier.Controller.{
  Backend, Call, now, load_events, observe_node, mask_persistent, drain_services, persist_event,
  authority, clock, persist, guard,
}
use proxmox_sharedlvmthin.Barrier.Run.{Answer, model_completed_historical, model_held, participants}

-- A reading of the clock stands on both sides of every call.
abbrev pub opening : List Call
opening = now ∷ load_events ∷ now ∷ []

abbrev pub preflight_calls : List Value → List Call
preflight_calls [] = []
preflight_calls (row ∷ rows) = now ∷ observe_node (get "node" row) ∷ now ∷ preflight_calls rows

abbrev pub barrier_calls : List Value → List Call
barrier_calls [] = []
barrier_calls (row ∷ rows) = observe_node (get "node" row) ∷ now ∷ barrier_calls rows

-- The call that does an action.
abbrev pub effect_step : Bool → Bool → Value → Call
effect_step true is_drain node = mask_persistent node
effect_step false true node = drain_services node
effect_step false false node = observe_node node

abbrev pub effect : Value → Call
effect act =
    effect_step (is_text "ENTRY_BLOCK" (get "step" act)) (is_text "SERVICE_DRAIN" (get "step" act))
      (get "node" act)

-- An action is recorded as meant and as attempted before its call, and as complete afterwards.
abbrev pub recorded : ℕ → Call → List Call
recorded index c =
    now
    ∷ persist_event "INTENT_DURABLE" index
    ∷ now
    ∷ persist_event "ATTEMPTED" index
    ∷ now
    ∷ now
    ∷ c
    ∷ now
    ∷ persist_event "OBSERVED_COMPLETE" index
    ∷ now
    ∷ []

-- Before the action of index 4 all nodes are looked at.
abbrev pub gate_at : List Call → Bool → List Call
gate_at gate true = gate
gate_at gate false = []

abbrev pub all_calls : List Call → ℕ → List Value → List Call
all_calls gate index [] = []
all_calls gate index (act ∷ acts) =
    (gate_at gate (index == 4) ++ recorded index (effect act)) ++ all_calls gate (suc index) acts

abbrev pub work : Value → List Call
work plan =
    preflight_calls (participants plan)
    ++ (all_calls (barrier_calls (participants plan)) 0 (items (get "actions" plan)) ++ (now ∷ []))

abbrev pub protocol : Value → Answer → List Call
protocol plan model_completed_historical = opening
protocol plan model_held = opening ++ work plan

module _ {S : Type 0} (b : Backend S) (plan : Value) (digest : Value → String)
    (plan_sha256 : String) where
  pub authority-Emits : Emits log [] (authority b plan digest plan_sha256)
  unfolding authority
  authority-Emits = unchanged-Emits _ _

  clock-Emits : Emits log (now ∷ []) (clock b plan digest plan_sha256)
  unfolding clock
  clock-Emits = search (call_rules, authority-Emits) depth 24

  pub guard-Emits : Emits log (now ∷ []) (guard b plan digest plan_sha256)
  unfolding guard
  guard-Emits = after_quiet _ _ _ authority-Emits λ u. clock-Emits

  pub persist-Emits :
      (kind : String) (index : ℕ) (act : Value) (receipt : List Value)
      → Emits log
          (persist_event kind index ∷ now ∷ [])
          (persist b plan digest plan_sha256 kind index act receipt)
  unfolding persist
  persist-Emits kind index act receipt =
      after_call log _ _ _ _ (ask-Emits _ _) λ u. after_quiet _ _ _ authority-Emits λ u. clock-Emits
