-- ===== src/Barrier/Journal.antt =====
-- `_history`, and what `run` decides from it before it touches a node.
use proxmox_sharedlvmthin.Base.{
  ℕ, suc, String, Bool, false, not, ◌&&◌, List, [], ◌∷◌, Option, none, some, is_empty, length,
  Result, ok, refused, ◌>>◌, ◌>>=◌, ◌==◌, str_eq, if◌then◌else◌,
}
use proxmox_sharedlvmthin.Base.Int.{pos}
use proxmox_sharedlvmthin.Base.Checks.{◌//◌, requires}
use proxmox_sharedlvmthin.Base.Json.{Value, int, get, has_exactly, is_array, is_text, items, equals}
use proxmox_sharedlvmthin.Barrier.Observation.{check_receipt}

-- A place in the journal: the index of its action, the action, and the kind of the event.
abbrev pub Slot : Type 0
Slot = ℕ × Value × String

-- Three events for each action, from the index on.
abbrev pub slots : ℕ → List Value → List Slot
slots index [] = []
slots index (act ∷ acts) =
    (index, act, "INTENT_DURABLE")
    ∷ (index, act, "ATTEMPTED")
    ∷ (index, act, "OBSERVED_COMPLETE")
    ∷ slots (suc index) acts

abbrev pub is_complete : String → Bool
is_complete kind = str_eq kind "OBSERVED_COMPLETE"

abbrev event_fields : String → List String
event_fields kind =
    "tx"
    ∷ "plan_sha256"
    ∷ "kind"
    ∷ "index"
    ∷ "step"
    ∷ "node"
    ∷ (if is_complete kind then "receipt" ∷ [] else [])

-- The answers of `run` that are given from the journal alone.
pub data Start : Type 0 where
  fresh completed_historical : Start

-- `missing_kind not in (None, "INTENT_DURABLE")`
abbrev pub is_pending : Option String → Bool
is_pending none = false
is_pending (some kind) = not (str_eq kind "INTENT_DURABLE")

module _ (is_sorted_set : List Value → Result Bool) (plan : Value) (plan_sha256 : String) where
  abbrev pub event_checks : Slot → Value → List (Bool × String)
  event_checks (index, act, kind) row =
      (has_exactly (event_fields kind) row // "journal event fields invalid")
      ∷ (equals (get "tx" row) (get "tx" plan)
            && is_text plan_sha256 (get "plan_sha256" row)
            && is_text kind (get "kind" row)
            && equals (get "index" row) (int (pos index))
            && equals (get "step" row) (get "step" act)
            && equals (get "node" row) (get "node" act)
          // "journal event identity or order invalid")
      ∷ []

  unfoldable pub check_event : Slot → Value → Result (Unit {0})
  check_event (index, act, kind) row =
      let received =
        check_receipt is_sorted_set plan act (is_text "FINAL_AUDIT" (get "step" act))
          (get "receipt" row) in
      requires (event_checks (index, act, kind) row)
      >> (if is_complete kind then received else ok tt)

  -- The first place without an event, or the number of actions.
  unfoldable pub read_events : ℕ → List Slot → List Value → Result (ℕ × Option String)
  read_events count [] [] = ok (count, none)
  read_events count [] (row ∷ rows) = refused "journal has extra records"
  read_events count ((index, act, kind) ∷ rest) [] = ok (index, some kind)
  read_events count (slot ∷ rest) (row ∷ rows) = do
    check_event slot row
    read_events count rest rows

  unfoldable pub read_history : Value → Result (ℕ × Option String)
  read_history history = do
    requires ((is_array history // "journal history invalid") ∷ [])
    read_events (length (items (get "actions" plan))) (slots 0 (items (get "actions" plan)))
        (items history)

  abbrev pub start_of : Value → ℕ × Option String → Result Start
  start_of history (completed, missing_kind) =
      if is_pending missing_kind
      then refused "pending action requires recovery"
      else if completed == length (items (get "actions" plan))
      then ok completed_historical
      else if completed == 0 && is_empty (items history)
      then ok fresh
      else refused "partial completed history requires explicit recovery"

  unfoldable pub start : Value → Result Start
  start history = read_history history >>= λ found. start_of history found
