-- ===== src/Barrier/Enrollment.antt =====
-- `validate_plan`: four nodes, a deadline, and the only order of actions.
use proxmox_sharedlvmthin.Base.{
  String, Bool, false, ◌&&◌, ◌==◌, List, [], ◌∷◌, ◌++◌, map, keep, length, Result, ok, ◌>>◌,
  sorted_set, same_texts, is_uuid, is_hex32, is_hex64,
}
use proxmox_sharedlvmthin.Base.Int.{ℤ, pos, leb_ℤ, ltb_ℤ, ◌+ℤ◌}
use proxmox_sharedlvmthin.Base.Checks.{◌//◌, requires}
use proxmox_sharedlvmthin.Base.Json.{
  Value, int, str, array, dict, Items, nil, cons, entry, close, get, has_exactly, is_match,
  is_nonempty, is_flag, is_false, is_array, is_text, items, equals, text_of,
}

-- `issued_at <= now <= deadline and 0 < deadline - issued_at <= 1800`
unfoldable pub is_timed : ℤ → Value → Value → Bool
unfolding ◌+ℤ◌
is_timed now (int issued) (int deadline) =
    leb_ℤ issued now
    && leb_ℤ now deadline
    && ltb_ℤ issued deadline
    && leb_ℤ deadline (issued +ℤ pos 1800)
is_timed now _ _ = false

abbrev pub head_checks : ℤ → Value → List (Bool × String)
head_checks now plan =
    (has_exactly
        ("schema" ∷ "tx" ∷ "participants" ∷ "workload_snapshot_sha256" ∷ "storage_cfg_sha256"
          ∷ "candidate_sha256" ∷ "issued_at" ∷ "deadline" ∷ "actions" ∷ [])
        plan
      // "plan fields invalid")
    ∷ (is_text "slt-maintenance-barrier-model/v1" (get "schema" plan)
          && is_match is_hex32 (get "tx" plan)
        // "plan identity invalid")
    ∷ (is_timed now (get "issued_at" plan) (get "deadline" plan) // "plan timing invalid")
    ∷ (is_match is_hex64 (get "workload_snapshot_sha256" plan)
        // "workload_snapshot_sha256 invalid")
    ∷ (is_match is_hex64 (get "storage_cfg_sha256" plan) // "storage_cfg_sha256 invalid")
    ∷ (is_match is_hex64 (get "candidate_sha256" plan) // "candidate_sha256 invalid")
    ∷ (is_array (get "participants" plan) && length (items (get "participants" plan)) == 4
        // "exactly four participants required")
    ∷ []

abbrev pub participant_checks : Value → List (Bool × String)
participant_checks row =
    (has_exactly ("node" ∷ "boot_id" ∷ "san_role" ∷ []) row // "participant fields invalid")
    ∷ (is_match is_nonempty (get "node" row)
          && is_match is_uuid (get "boot_id" row)
          && is_flag (get "san_role" row)
        // "participant invalid")
    ∷ []

unfoldable pub check_participants : List Value → Result (Unit {0})
check_participants [] = ok tt
check_participants (row ∷ rows) = do requires (participant_checks row); check_participants rows

abbrev pub names_of : Value → List String
names_of plan = map (λ row. text_of (get "node" row)) (items (get "participants" plan))

abbrev pub action : String → String → Value
action step node = dict (entry "step" (str step) (entry "node" (str node) close))

abbrev pub items_of : List Value → Items
items_of [] = nil
items_of (v ∷ vs) = cons v (items_of vs)

-- `expected`: each step on every node before the next step.
abbrev pub expected_actions : List String → List Value
expected_actions names =
    map (action "ENTRY_BLOCK") names
    ++ (map (action "SERVICE_DRAIN") names ++ map (action "FINAL_AUDIT") names)

abbrev pub order_checks : Value → List (Bool × String)
order_checks plan =
    (same_texts (names_of plan) (sorted_set (names_of plan))
      // "participant set is duplicated or unordered")
    ∷ (length (keep (λ row. is_false (get "san_role" row)) (items (get "participants" plan))) == 1
        // "topology must explicitly bind one control-plane-only node")
    ∷ (is_array (get "actions" plan)
          && equals (get "actions" plan) (array (items_of (expected_actions (names_of plan))))
        // "action plan is not the exact closed four-node order")
    ∷ []

unfoldable pub validate_plan : ℤ → Value → Result (Unit {0})
validate_plan now plan = do
  requires (head_checks now plan)
  check_participants (items (get "participants" plan))
  requires (order_checks plan)
