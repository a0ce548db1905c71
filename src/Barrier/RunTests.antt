-- ===== src/Barrier/RunTests.antt =====
-- A run over four nodes that all are drained, and the theorems at it.
use proxmox_sharedlvmthin.Base.{
  String, true, false, List, [], ◌∷◌, ◌++◌, map, ◌≡◌, refl, ap, sorted_set, insert_sorted, sort,
  insert,
}
use proxmox_sharedlvmthin.Base.Int.{pos}
use proxmox_sharedlvmthin.Base.Chains.{is_sorted_list}
use proxmox_sharedlvmthin.Base.Checks.{requires}
use proxmox_sharedlvmthin.Base.Json.{
  Value, int, str, flag, dict, array, nil, entry, close, get, has_exactly, is_match, is_true,
  is_array, is_dict, items, equals,
}
use proxmox_sharedlvmthin.Base.Effects.{
  interrupt, exception, gives, raises, pure, lift, assign, ◌>>=◌,
}
use proxmox_sharedlvmthin.Barrier.Enrollment.{items_of}
use proxmox_sharedlvmthin.Barrier.Observation.{
  entry_units, terminal_ingress, required_stops, is_entry_receipt, check_lists,
  validate_observation, check_receipt,
}
use proxmox_sharedlvmthin.Barrier.Journal.{read_events, read_history, start}
use proxmox_sharedlvmthin.Control.State.{
  World, ask, check, unchanged, clock_read, enter, conclude, guarded,
}
use proxmox_sharedlvmthin.Barrier.Controller.{
  Backend, Call, now, load_events, observe_node, drain_services, persist_event, authority, clock,
  guard, persist,
}
use proxmox_sharedlvmthin.Barrier.Run.{
  model_held, preflight, check_barred, check_first_drain, drain, perform_step, record_action,
  act_on, act_all, complete, proceed, begin, attempt, run,
}
use proxmox_sharedlvmthin.Barrier.Order.{Followed, run-Followed}
use proxmox_sharedlvmthin.Barrier.Schedule.{phase, entry_phase, schedule}
use proxmox_sharedlvmthin.Barrier.Drains.{run_drained_after}
use proxmox_sharedlvmthin.Barrier.Tests.{no_order, nodes, hex64, plan, accepted}

abbrev texts : List String → Value
texts names = array (items_of (map str names))

abbrev observed : Value → Value
observed node = dict (
    entry "node" node (
      entry "boot_id" (str "01234567-89ab-4def-8123-456789abcdef") (
        entry "membership" (texts nodes) (
          entry "storage_cfg_sha256" hex64 (
            entry "workload_snapshot_sha256" hex64 (
              entry "quorate" (flag true) (
                entry "running_guests" (array nil) (
                  entry "ha_state" (str "DRAINED") (
                    entry "tasks" (array nil) (
                      entry "workers" (array nil) (
                        entry "pending_jobs" (array nil) (
                          entry "persistent_masks"
                            (texts (sorted_set ("pve-guests.service" ∷ required_stops)))
                            (entry "active_services" (array nil) (
                              entry "stopped_services" (texts (sort required_stops))
                                close))))))))))))))

abbrev blocked : Value
blocked = dict (
    entry "persistent_masks" (texts (sort entry_units))
      (entry "terminal_ingress" (texts terminal_ingress) close))

abbrev drained_nodes : Backend (Unit {0})
drained_nodes = record {
  now = λ c. (c, gives (int (pos 1300)));
  load_events = λ tx c. (c, gives (array nil));
  observe_node = λ node c. (c, gives (observed node));
  mask_persistent = λ node c. (c, gives blocked);
  drain_services = λ node c. (c, gives (observed node));
  persist_event = λ event c. (c, gives tt);
}

abbrev sha : String
sha = "0123456789abcdef0123456789abcdef0123456789abcdef0123456789abcdef"

abbrev enrolled : World (Unit {0}) Call
enrolled = record {
  self = record { poisoned = false; running = false; last_clock = pos 1200; backend = tt };
  calls = [];
}

held : run drained_nodes no_order plan (λ v. sha) sha enrolled ≡ (
  record {
    self = record { poisoned = false; running = false; last_clock = pos 1300; backend = tt };
    calls = schedule nodes;
  },
  gives model_held,
)
unfolding run guarded unchanged enter attempt begin proceed complete preflight act_all act_on
    check_first_drain check_barred record_action drain perform_step conclude guard clock authority
    persist ask check clock_read pure lift assign ◌>>=◌ start read_history read_events check_receipt
    validate_observation check_lists is_sorted_list requires get has_exactly is_match is_true
    is_array is_dict items equals sorted_set insert_sorted sort insert is_entry_receipt
held = refl

-- A node that is looked at while the run is entered again.
abbrev reentering : Backend (Unit {0})
reentering = record drained_nodes {
  observe_node = λ node c. (record c { poisoned = true }, gives (observed node));
}

poisoned : run reentering no_order plan (λ v. sha) sha enrolled ≡ (
  record {
    self = record { poisoned = true; running = false; last_clock = pos 1300; backend = tt };
    calls = now ∷ load_events ∷ now ∷ now ∷ observe_node (str "n1") ∷ [];
  },
  raises exception "plan changed after enrollment",
)
unfolding run guarded unchanged enter attempt begin proceed complete preflight conclude guard clock
    authority ask check clock_read pure lift assign ◌>>=◌ start read_history read_events
    validate_observation check_lists is_sorted_list requires get has_exactly is_match is_true
    is_array items equals sorted_set insert_sorted sort insert
poisoned = refl

-- A call that is interrupted leaves the controller as it was, and not running.
abbrev interrupted_nodes : Backend (Unit {0})
interrupted_nodes = record drained_nodes {
  observe_node = λ node c. (c, raises interrupt "KeyboardInterrupt");
}

interrupted : run interrupted_nodes no_order plan (λ v. sha) sha enrolled ≡ (
  record {
    self = record { poisoned = false; running = false; last_clock = pos 1300; backend = tt };
    calls = now ∷ load_events ∷ now ∷ now ∷ observe_node (str "n1") ∷ [];
  },
  raises interrupt "KeyboardInterrupt",
)
unfolding run guarded unchanged enter attempt begin proceed complete preflight conclude guard clock
    authority ask check clock_read pure lift assign ◌>>=◌ start read_history read_events
    validate_observation check_lists is_sorted_list requires get has_exactly is_match is_true
    is_array items equals sorted_set insert_sorted sort insert
interrupted = refl

run-Followed_example : Followed plan [] (run drained_nodes no_order plan (λ v. sha) sha enrolled)
run-Followed_example = run-Followed drained_nodes no_order plan (λ v. sha) sha enrolled refl refl

abbrev before_drain : List Call
before_drain =
    now ∷ persist_event "INTENT_DURABLE" 4 ∷ now ∷ persist_event "ATTEMPTED" 4 ∷ now ∷ now ∷ []

abbrev after_drain : List Call
after_drain =
    (now ∷ persist_event "OBSERVED_COMPLETE" 4 ∷ now ∷ [])
    ++ (phase drain_services 5 ("n2" ∷ "n3" ∷ "n4" ∷ [])
        ++ (phase observe_node 8 nodes ++ (now ∷ [])))

run_drained_after_example :
    (zs : List Call) × (entry_phase nodes ++ before_drain ≡ entry_phase nodes ++ zs)
unfolding items get
run_drained_after_example =
    run_drained_after drained_nodes no_order (pos 1200) plan (λ v. sha) sha enrolled
      (entry_phase nodes ++ before_drain) after_drain (str "n1") accepted refl refl refl
      (ap (λ w. w.0.calls) held)
