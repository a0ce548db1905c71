-- ===== src/GuestShutdown/Enrollment.antt =====
-- `validate_plan`: four nodes, and the list of the guests in the order of their identities.
use proxmox_sharedlvmthin.Base.{
  String, Bool, true, false, not, ◌&&◌, ◌||◌, ◌==◌, List, [], ◌∷◌, map, any, length, is_empty,
  Result, ok, ◌>>◌, str_eq, sorted_set, same_texts, is_hex32, is_hex64, if◌then◌else◌,
}
use Prim.Native.String.{compare}
use Prim.Native.Nat.{Ordering}
use proxmox_sharedlvmthin.Base.Int.{ℤ, pos, leb_ℤ, ltb_ℤ, eq_ℤ, ◌+ℤ◌}
use proxmox_sharedlvmthin.Base.Checks.{◌//◌, requires}
use proxmox_sharedlvmthin.Base.Chains.{fullmatch_or, validate, is_sorted_list}
use proxmox_sharedlvmthin.Base.Json.{
  Value, int, get, has_exactly, is_match, is_nonempty, is_false, is_array, is_text, is_one_of,
  items, text_of,
}

-- `issued_at <= now <= deadline and 0 < deadline - issued_at <= 7200`
unfoldable pub is_window : ℤ → Value → Value → Bool
unfolding ◌+ℤ◌
is_window now (int issued) (int deadline) =
    leb_ℤ issued now
    && leb_ℤ now deadline
    && ltb_ℤ issued deadline
    && leb_ℤ deadline (issued +ℤ pos 7200)
is_window now _ _ = false

unfoldable pub is_timeout : Value → Bool
is_timeout (int n) = leb_ℤ (pos 1) n && leb_ℤ n (pos 900)
is_timeout _ = false

abbrev pub identity_tests : Value → List (Result Bool)
identity_tests plan =
    ok (is_text "slt-supervised-shutdown-model/v1" (get "schema" plan))
    ∷ fullmatch_or is_hex32 (get "tx" plan)
    ∷ map (λ field. fullmatch_or is_hex64 (get field plan))
        ("barrier_plan_sha256" ∷ "barrier_evidence_sha256" ∷ "storage_cfg_sha256"
          ∷ "workload_snapshot_sha256" ∷ [])

abbrev pub policy_checks : ℤ → Value → List (Bool × String)
policy_checks now plan =
    (is_window now (get "issued_at" plan) (get "deadline" plan)
        && is_timeout (get "per_task_timeout" plan)
        && is_false (get "force_stop" plan)
      // "shutdown timing/policy invalid")
    ∷ (is_array (get "participants" plan) && length (items (get "participants" plan)) == 4
        // "participant set invalid")
    ∷ []

abbrev pub participant_checks : Value → List (Bool × String)
participant_checks row =
    (has_exactly ("node" ∷ "boot_id" ∷ []) row // "participant fields invalid")
    ∷ (is_match is_nonempty (get "node" row) && is_match is_nonempty (get "boot_id" row)
        // "participant invalid")
    ∷ []

unfoldable pub check_participants : List Value → Result (Unit {0})
check_participants [] = ok tt
check_participants (row ∷ rows) = do requires (participant_checks row); check_participants rows

abbrev pub nodes_of : Value → List String
nodes_of plan = map (λ row. text_of (get "node" row)) (items (get "participants" plan))

unfoldable pub is_positive : Value → Bool
is_positive (int n) = ltb_ℤ (pos 0) n
is_positive _ = false

-- `value in nodes`
abbrev pub is_node_of : List String → Value → Bool
is_node_of nodes v = any (λ n. is_text n v) nodes

-- A guest is told by its node, its type and its number.
abbrev pub Identity : Type 0
Identity = String × String × ℤ

abbrev number_or_zero : Value → ℤ
number_or_zero (int n) = n
number_or_zero _ = pos 0

abbrev pub identity_of : Value → Identity
identity_of guest =
    (text_of (get "node" guest), text_of (get "type" guest), number_or_zero (get "vmid" guest))

abbrev precedes : String → String → Bool
precedes s t = elim (compare s t) [ Ordering.lt ↦ true | _ ↦ false ]

-- The order of tuples.
abbrev pub is_before : Identity → Identity → Bool
is_before (n, t, v) (m, u, w) =
    precedes n m || str_eq n m && (precedes t u || str_eq t u && ltb_ℤ v w)

unfoldable pub insert_identity : Identity → List Identity → List Identity
insert_identity x [] = x ∷ []
insert_identity x (y ∷ ys) =
    let rest = insert_identity x ys in
    if is_before x y then x ∷ y ∷ ys else if is_before y x then y ∷ rest else y ∷ ys

-- `sorted(set(identities))`
unfoldable pub sorted_identities : List Identity → List Identity
sorted_identities [] = []
sorted_identities (x ∷ xs) = insert_identity x (sorted_identities xs)

abbrev pub same_identities : List Identity → List Identity → Bool
same_identities [] [] = true
same_identities ((n, t, v) ∷ xs) ((m, u, w) ∷ ys) =
    str_eq n m && str_eq t u && eq_ℤ v w && same_identities xs ys
same_identities _ _ = false

unfoldable pub are_distinct : List ℤ → Bool
are_distinct [] = true
are_distinct (v ∷ vs) = not (any (eq_ℤ v) vs) && are_distinct vs

abbrev pub order_checks : List Value → List (Bool × String)
order_checks guests =
    (same_identities (map identity_of guests) (sorted_identities (map identity_of guests))
        && are_distinct (map (λ g. number_or_zero (get "vmid" g)) guests)
      // "guest allowlist duplicated or unordered")
    ∷ []

-- `sorted(set(...))` of a list of other things than texts is the parameter.
module _ (is_sorted_set : List Value → Result Bool) where
  abbrev pub guest_tests : List String → Value → List (Result Bool)
  guest_tests nodes guest =
      ok (is_positive (get "vmid" guest))
      ∷ ok (is_one_of ("qemu" ∷ "lxc" ∷ []) (get "type" guest))
      ∷ ok (is_node_of nodes (get "node" guest))
      ∷ ok (is_false (get "ha_managed" guest))
      ∷ fullmatch_or is_hex64 (get "config_sha256" guest)
      ∷ ok (
          is_array (get "managed_disks" guest)
          && not (is_empty (items (get "managed_disks" guest))))
      ∷ is_sorted_list is_sorted_set (get "managed_disks" guest)
      ∷ []

  unfoldable pub check_guests : List String → List Value → Result (Unit {0})
  check_guests nodes [] = ok tt
  check_guests nodes (guest ∷ guests) = do
    requires (
        (has_exactly
            ("vmid" ∷ "type" ∷ "node" ∷ "config_sha256" ∷ "managed_disks" ∷ "ha_managed" ∷ []) guest
          // "guest fields invalid")
        ∷ [])
    validate (guest_tests nodes guest) "guest identity invalid"
    check_guests nodes guests

  unfoldable pub validate_plan : ℤ → Value → Result (Unit {0})
  validate_plan now plan = do
    requires (
        (has_exactly
            ("schema" ∷ "tx" ∷ "barrier_plan_sha256" ∷ "barrier_evidence_sha256"
              ∷ "storage_cfg_sha256" ∷ "workload_snapshot_sha256" ∷ "participants" ∷ "guests"
              ∷ "issued_at" ∷ "deadline" ∷ "per_task_timeout" ∷ "force_stop" ∷ [])
            plan
          // "shutdown plan fields invalid")
        ∷ [])
    validate (identity_tests plan) "shutdown identity invalid"
    requires (policy_checks now plan)
    check_participants (items (get "participants" plan))
    requires (
        (same_texts (nodes_of plan) (sorted_set (nodes_of plan)) // "participant set invalid")
        ∷ (is_array (get "guests" plan) && not (is_empty (items (get "guests" plan)))
            // "guest allowlist empty")
        ∷ [])
    check_guests (nodes_of plan) (items (get "guests" plan))
    requires (order_checks (items (get "guests" plan)))
