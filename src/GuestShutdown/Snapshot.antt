-- ===== src/GuestShutdown/Snapshot.antt =====
-- `validate_snapshot`: the barrier still stands, and exactly the expected guests run.
use proxmox_sharedlvmthin.Base.{
  String, Bool, ◌&&◌, List, [], ◌∷◌, map, all, is_empty, Result, ok, ◌>>◌,
}
use proxmox_sharedlvmthin.Base.Checks.{◌//◌, requires}
use proxmox_sharedlvmthin.Base.Json.{
  Value, array, dict, entry, close, get, has_exactly, is_match, is_any, is_true, is_int, is_array,
  items, equals,
}
use proxmox_sharedlvmthin.Barrier.Enrollment.{items_of}

-- The part of a guest that an inventory shows.
abbrev pub consumer : Value → Value
consumer guest = dict (
    entry "vmid" (get "vmid" guest) (
      entry "type" (get "type" guest) (
        entry "node" (get "node" guest) (
          entry "config_sha256" (get "config_sha256" guest)
            (entry "managed_disks" (get "managed_disks" guest) close)))))

abbrev is_participant : Value → Bool
is_participant row =
    has_exactly ("node" ∷ "boot_id" ∷ []) row
    && is_match is_any (get "node" row)
    && is_match is_any (get "boot_id" row)

abbrev pub is_empty_list : Value → Bool
is_empty_list v = is_array v && is_empty (items v)

abbrev pub head_checks : Value → Value → List (Bool × String)
head_checks plan v =
    (has_exactly
        ("participants" ∷ "barrier_plan_sha256" ∷ "barrier_evidence_sha256" ∷ "storage_cfg_sha256"
          ∷ "workload_snapshot_sha256" ∷ "admission_closed" ∷ "ha_idle_disarmed" ∷ "tasks"
          ∷ "workers" ∷ "running_consumers" ∷ [])
        v
      // "cluster snapshot fields invalid")
    ∷ (is_array (get "participants" v)
          && all is_participant (items (get "participants" v))
          && all (λ field. equals (get field v) (get field plan))
              ("participants" ∷ "barrier_plan_sha256" ∷ "barrier_evidence_sha256"
                ∷ "storage_cfg_sha256" ∷ "workload_snapshot_sha256" ∷ [])
          && is_true (get "admission_closed" v)
          && is_true (get "ha_idle_disarmed" v)
        // "shutdown prerequisite barrier invalid")
    ∷ (is_empty_list (get "tasks" v) && is_empty_list (get "workers" v)
        // "cluster has active task or worker")
    ∷ (is_array (get "running_consumers" v) // "running consumer inventory invalid")
    ∷ []

abbrev pub consumer_checks : Value → List (Bool × String)
consumer_checks row =
    (has_exactly ("vmid" ∷ "type" ∷ "node" ∷ "config_sha256" ∷ "managed_disks" ∷ []) row
      // "running consumer fields invalid")
    ∷ (is_int (get "vmid" row)
          && all (λ field. is_match is_any (get field row)) ("type" ∷ "node" ∷ "config_sha256" ∷ [])
          && is_array (get "managed_disks" row)
          && all (is_match is_any) (items (get "managed_disks" row))
        // "running consumer types invalid")
    ∷ []

unfoldable pub check_consumers : List Value → Result (Unit {0})
check_consumers [] = ok tt
check_consumers (row ∷ rows) = do requires (consumer_checks row); check_consumers rows

-- The guests are those that are expected to run.
unfoldable pub validate_snapshot : Value → List Value → Value → Result (Unit {0})
validate_snapshot plan guests v = do
  requires (head_checks plan v)
  check_consumers (items (get "running_consumers" v))
  requires (
      (equals (get "running_consumers" v) (array (items_of (map consumer guests)))
        // "running managed consumer set differs from allowlist")
      ∷ [])
