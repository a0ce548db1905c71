-- ===== src/Barrier/Tests.antt =====
-- A plan for four nodes, and the theorems at it.
use proxmox_sharedlvmthin.Base.{
  String, Bool, true, false, List, [], ◌∷◌, Result, ok, refused, ◌≡◌, refl, ◌↔◌, sorted_set,
  insert_sorted, sort, insert, is_hex32, is_hex64, is_uuid,
}
use proxmox_sharedlvmthin.Base.Int.{pos, ◌+ℤ◌}
use proxmox_sharedlvmthin.Base.Checks.{requires}
use proxmox_sharedlvmthin.Base.Json.{
  Value, int, str, flag, dict, array, cons, nil, entry, close, get, has_exactly, is_match, is_flag,
  is_false, is_array, is_dict, items, equals,
}
use proxmox_sharedlvmthin.Barrier.Enrollment.{
  is_timed, check_participants, items_of, expected_actions, validate_plan,
}
use proxmox_sharedlvmthin.Barrier.Observation.{
  is_entry_receipt, check_receipt, validate_observation,
}
use proxmox_sharedlvmthin.Barrier.Journal.{
  fresh, completed_historical, check_event, read_events, read_history, start,
}
use proxmox_sharedlvmthin.Barrier.Laws.{IsWhole, start_verdict}

-- For lists of other things than texts.
abbrev pub no_order : List Value → Result Bool
no_order [] = ok true
no_order (v ∷ vs) = refused "'<' not supported"

abbrev pub hex64 : Value
hex64 = str "0123456789abcdef0123456789abcdef0123456789abcdef0123456789abcdef"

abbrev row : String → Bool → Value
row node san = dict (
    entry "node" (str node) (
      entry "boot_id" (str "01234567-89ab-4def-8123-456789abcdef")
        (entry "san_role" (flag san) close)))

abbrev pub nodes : List String
nodes = "n1" ∷ "n2" ∷ "n3" ∷ "n4" ∷ []

abbrev pub plan : Value
plan = dict (
    entry "schema" (str "slt-maintenance-barrier-model/v1") (
      entry "tx" (str "0123456789abcdef0123456789abcdef") (
        entry "participants"
          (array (
            cons (row "n1" true)
              (cons (row "n2" true) (cons (row "n3" true) (cons (row "n4" false) nil)))))
          (entry "workload_snapshot_sha256" hex64 (
            entry "storage_cfg_sha256" hex64 (
              entry "candidate_sha256" hex64 (
                entry "issued_at" (int (pos 1000)) (
                  entry "deadline" (int (pos 1900))
                    (entry "actions" (array (items_of (expected_actions nodes))) close)))))))))

pub accepted : validate_plan (pos 1200) plan ≡ ok tt
unfolding validate_plan requires get has_exactly is_match is_flag is_false is_array items equals
    is_uuid is_timed ◌+ℤ◌ check_participants sorted_set insert_sorted is_hex32 is_hex64
accepted = refl

blocked_entries :
    is_entry_receipt (
      dict (
        entry "persistent_masks"
          (array (
            items_of (
              str "pve-guests.service"
              ∷ str "pveproxy.service"
              ∷ str "pvescheduler.service"
              ∷ str "spiceproxy.service"
              ∷ [])))
          (entry "terminal_ingress"
            (array (
              items_of (
                str "pveproxy.service"
                ∷ str "pvescheduler.service"
                ∷ str "spiceproxy.service"
                ∷ [])))
            close)))
    ≡ true
unfolding is_entry_receipt is_dict equals sort insert
blocked_entries = refl

abbrev half_done : Value
half_done = array (
    cons
      (dict (
        entry "tx" (str "0123456789abcdef0123456789abcdef") (
          entry "plan_sha256" hex64 (
            entry "kind" (str "INTENT_DURABLE") (
              entry "index" (int (pos 0))
                (entry "step" (str "ENTRY_BLOCK") (entry "node" (str "n1") close)))))))
      nil)

half_done_refused :
    start no_order plan "0123456789abcdef0123456789abcdef0123456789abcdef0123456789abcdef" half_done
    ≡ refused "pending action requires recovery"
unfolding start read_history read_events check_event check_receipt validate_observation requires get
    has_exactly is_array items equals
half_done_refused = refl

start_verdict_example :
    ((start no_order plan "aa" half_done ≡ ok fresh) ↔ (half_done ≡ array nil))
    × ((start no_order plan "aa" half_done ≡ ok completed_historical)
        ↔ IsWhole no_order plan "aa" half_done)
start_verdict_example = start_verdict no_order (pos 1200) plan "aa" half_done accepted
