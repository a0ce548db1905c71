-- ===== src/Barrier/Run.antt =====
-- `run`: the journal, a preflight of all nodes, and the actions of the plan, each recorded before and
-- after it is done. What raises poisons the controller.
use proxmox_sharedlvmthin.Base.{
  ℕ, suc, String, Bool, true, false, not, ◌&&◌, ◌==◌, List, [], ◌∷◌, all, any, Result,
}
use proxmox_sharedlvmthin.Base.Checks.{◌//◌, requires}
use proxmox_sharedlvmthin.Base.Json.{Value, get, is_text, items, text_of}
use proxmox_sharedlvmthin.Base.Effects.{Action, pure, lift, ◌>>=◌, ◌>>◌}
use proxmox_sharedlvmthin.Control.State.{World, ask, guarded}
use proxmox_sharedlvmthin.Barrier.Observation.{
  entry_units, terminal_ingress, forbidden_stops, has_item, validate_observation, check_receipt,
}
use proxmox_sharedlvmthin.Barrier.Journal.{Start, fresh, completed_historical, start}
use proxmox_sharedlvmthin.Barrier.Controller.{
  Backend, load_events, observe_node, mask_persistent, drain_services, Call, authority, guard,
  persist,
}

pub data Answer : Type 0 where
  model_completed_historical model_held : Answer

-- Every unit of the entry is masked, and no ingress is active.
abbrev pub is_barred : Value → Bool
is_barred v =
    all (has_item (get "persistent_masks" v)) entry_units
    && not (any (has_item (get "active_services" v)) terminal_ingress)

abbrev pub drain_checks : Value → List (Bool × String)
drain_checks v =
    (all (has_item (get "persistent_masks" v)) entry_units
      // "drain observation lost persistent masks")
    ∷ (not (any (has_item (get "stopped_services" v)) forbidden_stops)
        // "drain stopped a forbidden service")
    ∷ []

abbrev pub participants : Value → List Value
participants plan = items (get "participants" plan)

module _ {S : Type 0} (b : Backend S) (is_sorted_set : List Value → Result Bool) (plan : Value)
    (digest : Value → String) (plan_sha256 : String) where
  -- Before the first effect.
  unfoldable pub preflight : List Value → Action (World S Call) (Unit {0})
  preflight [] = pure tt
  preflight (row ∷ rows) = do
    guard b plan digest plan_sha256
    observed ← ask (observe_node (get "node" row)) (b.observe_node (get "node" row))
    lift (validate_observation is_sorted_set plan (text_of (get "node" row)) false observed)
    guard b plan digest plan_sha256
    preflight rows

  -- Before the first drain.
  unfoldable pub check_barred : List Value → Action (World S Call) (Unit {0})
  check_barred [] = pure tt
  check_barred (row ∷ rows) = do
    observed ← ask (observe_node (get "node" row)) (b.observe_node (get "node" row))
    lift (validate_observation is_sorted_set plan (text_of (get "node" row)) false observed)
    lift (requires ((is_barred observed // "entry barrier is not terminal on every node") ∷ []))
    guard b plan digest plan_sha256
    check_barred rows

  unfoldable pub check_first_drain : Bool → Action (World S Call) (Unit {0})
  check_first_drain true = check_barred (participants plan)
  check_first_drain false = pure tt

  -- The call that does an action.
  unfoldable pub drain : Value → Action (World S Call) Value
  drain act = do
    receipt ← ask (drain_services (get "node" act)) (b.drain_services (get "node" act))
    lift (check_receipt is_sorted_set plan act false receipt)
    lift (requires (drain_checks receipt))
    pure receipt

  unfoldable pub perform_step : Bool → Bool → Value → Action (World S Call) Value
  perform_step true is_drain act =
      ask (mask_persistent (get "node" act)) (b.mask_persistent (get "node" act))
  perform_step false true act = drain act
  perform_step false false act =
      ask (observe_node (get "node" act)) (b.observe_node (get "node" act))

  abbrev pub perform : Value → Action (World S Call) Value
  perform act =
      perform_step (is_text "ENTRY_BLOCK" (get "step" act))
        (is_text "SERVICE_DRAIN" (get "step" act)) act

  unfoldable pub record_action : ℕ → Value → Action (World S Call) (Unit {0})
  record_action index act = do
    guard b plan digest plan_sha256
    persist b plan digest plan_sha256 "INTENT_DURABLE" index act []
    persist b plan digest plan_sha256 "ATTEMPTED" index act []
    guard b plan digest plan_sha256
    receipt ← perform act
    lift (check_receipt is_sorted_set plan act (is_text "FINAL_AUDIT" (get "step" act)) receipt)
    guard b plan digest plan_sha256
    persist b plan digest plan_sha256 "OBSERVED_COMPLETE" index act (receipt ∷ [])

  unfoldable pub act_on : ℕ → Value → Action (World S Call) (Unit {0})
  act_on index act = do check_first_drain (index == 4); record_action index act

  unfoldable pub act_all : ℕ → List Value → Action (World S Call) (Unit {0})
  act_all index [] = pure tt
  act_all index (act ∷ acts) = act_on index act >> act_all (suc index) acts

  unfoldable pub complete : Action (World S Call) (Unit {0})
  complete = do
    preflight (participants plan)
    act_all 0 (items (get "actions" plan))
    guard b plan digest plan_sha256
    authority b plan digest plan_sha256

  unfoldable pub proceed : Start → Action (World S Call) Answer
  proceed completed_historical = pure model_completed_historical
  proceed fresh = complete >> pure model_held

  -- The `try` block: what the journal says, and what is then done.
  unfoldable pub begin : Action (World S Call) Start
  begin = do
    guard b plan digest plan_sha256
    history ← ask load_events (b.load_events (get "tx" plan))
    guard b plan digest plan_sha256
    lift (start is_sorted_set plan plan_sha256 history)

  unfoldable pub attempt : Action (World S Call) Answer
  attempt = begin >>= proceed

  unfoldable pub run : Action (World S Call) Answer
  run = guarded "controller is reentered and poisoned" "controller is poisoned" attempt
