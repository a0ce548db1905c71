-- ===== src/Barrier/Observation.antt =====
-- `validate_observation` and `_receipt`: what a node must show after an action.
use proxmox_sharedlvmthin.Base.{
  String, Bool, not, ◌&&◌, List, [], ◌∷◌, ◌++◌, map, all, any, is_empty, Result, ok, ◌>>◌, ◌>>=◌,
  ◌<>◌, sort, if◌then◌else◌,
}
use proxmox_sharedlvmthin.Base.Chains.{is_sorted_list}
use proxmox_sharedlvmthin.Base.Checks.{◌//◌, requires}
use proxmox_sharedlvmthin.Base.Json.{
  Value, null, str, array, dict, entry, close, get, has_exactly, is_true, is_array, is_dict,
  is_text, is_one_of, items, equals, text_of,
}
use proxmox_sharedlvmthin.Barrier.Enrollment.{names_of, items_of}

abbrev pub entry_units : List String
entry_units =
    "pveproxy.service" ∷ "spiceproxy.service" ∷ "pvescheduler.service" ∷ "pve-guests.service" ∷ []

abbrev pub terminal_ingress : List String
terminal_ingress = "pveproxy.service" ∷ "pvescheduler.service" ∷ "spiceproxy.service" ∷ []

abbrev pub forbidden_stops : List String
forbidden_stops =
    "pve-guests.service" ∷ "pve-cluster.service" ∷ "corosync.service" ∷ "multipathd.service" ∷ []

abbrev pub required_stops : List String
required_stops =
    "pveproxy.service" ∷ "spiceproxy.service" ∷ "pvescheduler.service" ∷ "pvedaemon.service"
    ∷ "pvestatd.service" ∷ "pve-ha-lrm.service" ∷ "pve-ha-crm.service" ∷ "qmeventd.service" ∷ []

abbrev allowed_active : List String
allowed_active =
    "pve-cluster.service" ∷ "corosync.service" ∷ "multipathd.service"
    ∷ "pve-sharedlvmthin-thin-guard.service" ∷ "pve-guests.service" ∷ []

-- `RESTARTABLE_MASKS`
abbrev restartable_masks : List String
restartable_masks = required_stops ++ entry_units

-- The boot of the first participant with the node's name.
abbrev boot_of : String → List Value → Value
boot_of node [] = null
boot_of node (row ∷ rows) =
    if is_text node (get "node" row) then get "boot_id" row else boot_of node rows

-- The text is one of the items.
abbrev pub has_item : Value → String → Bool
has_item v s = any (λ w. equals w (str s)) (items v)

abbrev are_text : List String → Value → Bool
are_text names v = all (λ w. any (λ s. equals w (str s)) names) (items v)

abbrev are_disjoint : Value → Value → Bool
are_disjoint v w = not (any (λ x. any (equals x) (items w)) (items v))

abbrev texts : List String → Value
texts names = array (items_of (map str names))

abbrev pub identity_checks : Value → String → Value → List (Bool × String)
identity_checks plan node v =
    (has_exactly
        ("node" ∷ "boot_id" ∷ "membership" ∷ "storage_cfg_sha256" ∷ "workload_snapshot_sha256"
          ∷ "quorate" ∷ "running_guests" ∷ "ha_state" ∷ "tasks" ∷ "workers" ∷ "pending_jobs"
          ∷ "persistent_masks" ∷ "active_services" ∷ "stopped_services" ∷ [])
        v
      // "observation fields invalid")
    ∷ (is_text node (get "node" v)
          && equals (get "boot_id" v) (boot_of node (items (get "participants" plan)))
          && equals (get "membership" v) (texts (names_of plan))
          && equals (get "storage_cfg_sha256" v) (get "storage_cfg_sha256" plan)
          && equals (get "workload_snapshot_sha256" v) (get "workload_snapshot_sha256" plan)
          && is_true (get "quorate" v)
        // "cluster identity drifted")
    ∷ map
        (λ field.
          (is_array (get field v) && is_empty (items (get field v)), field <> " is not empty"))
        ("running_guests" ∷ "tasks" ∷ "workers" ∷ "pending_jobs" ∷ [])

abbrev pub drained_checks : Value → List (Bool × String)
drained_checks v =
    (is_text "DRAINED" (get "ha_state" v) // "HA daemons not drained")
    ∷ (all (has_item (get "persistent_masks" v)) restartable_masks
        // "persistent ingress masks are incomplete")
    ∷ (are_disjoint (get "active_services" v) (get "stopped_services" v)
        // "service lifecycle is contradictory")
    ∷ (not (any (has_item (get "stopped_services" v)) forbidden_stops)
        // "forbidden service was stopped")
    ∷ (are_text required_stops (get "stopped_services" v)
          && all (has_item (get "stopped_services" v)) required_stops
        // "required terminal service evidence is incomplete")
    ∷ (are_text allowed_active (get "active_services" v) // "unexpected service remains active")
    ∷ []

-- `value == {"persistent_masks": ..., "terminal_ingress": ...}`
unfoldable pub is_entry_receipt : Value → Bool
is_entry_receipt v =
    is_dict v
    && equals v (
        dict (
          entry "persistent_masks" (texts (sort entry_units))
            (entry "terminal_ingress" (texts terminal_ingress) close)))

-- `value == sorted(set(value))`, for a list of other things than texts, is the parameter: it can raise.
module _ (is_sorted_set : List Value → Result Bool) where
  unfoldable pub check_lists : List String → Value → Result (Unit {0})
  check_lists [] v = ok tt
  check_lists (field ∷ fields) v = is_sorted_list is_sorted_set (get field v) >>= λ b.
      requires ((b, field <> " invalid") ∷ []) >> check_lists fields v

  unfoldable pub validate_observation : Value → String → Bool → Value → Result (Unit {0})
  validate_observation plan node final v = do
    requires (identity_checks plan node v)
    requires (
        (is_one_of ("EMPTY_IDLE" ∷ "DRAINED" ∷ []) (get "ha_state" v) // "HA is not empty and idle")
        ∷ [])
    check_lists ("persistent_masks" ∷ "active_services" ∷ "stopped_services" ∷ []) v
    requires (if final then drained_checks v else [])

  -- `_receipt`
  unfoldable pub check_receipt : Value → Value → Bool → Value → Result (Unit {0})
  check_receipt plan act final v =
      let observed = validate_observation plan (text_of (get "node" act)) final v in
      if is_text "ENTRY_BLOCK" (get "step" act)
      then requires ((is_entry_receipt v // "entry-block receipt invalid") ∷ [])
      else observed
