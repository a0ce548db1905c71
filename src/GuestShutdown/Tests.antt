-- ===== src/GuestShutdown/Tests.antt =====
-- Two guests that are shut down, and the theorems at them.
use proxmox_sharedlvmthin.Base.{
  String, Bool, true, false, not, ◌&&◌, List, [], ◌∷◌, ◌++◌, map, all, Result, ok, refused, ◌≡◌,
  refl, ap, str_eq, codes, is_digit, sorted_set, insert_sorted, is_hex32, is_hex64, split_once,
  split_max, if◌then◌else◌,
}
use proxmox_sharedlvmthin.Base.Int.{ℤ, pos, ◌+ℤ◌}
use proxmox_sharedlvmthin.Base.Checks.{requires}
use proxmox_sharedlvmthin.Base.Chains.{fullmatch_or, holds_all, is_sorted_list}
use proxmox_sharedlvmthin.Base.Json.{
  Value, int, str, flag, dict, array, nil, cons, entry, close, get, has_exactly, is_match, is_true,
  is_false, is_flag, is_int, is_array, items, equals,
}
use proxmox_sharedlvmthin.Base.Effects.{gives, pure, lift, assign, ◌>>=◌}
use proxmox_sharedlvmthin.Control.State.{
  World, ask, check, unchanged, clock_read, enter, conclude, guarded,
}
use proxmox_sharedlvmthin.Barrier.Enrollment.{items_of}
use proxmox_sharedlvmthin.GuestShutdown.Enrollment.{
  is_window, is_timeout, check_participants, is_positive, insert_identity, sorted_identities,
  are_distinct, check_guests, validate_plan,
}
use proxmox_sharedlvmthin.GuestShutdown.Snapshot.{consumer, check_consumers, validate_snapshot}
use proxmox_sharedlvmthin.GuestShutdown.Receipts.{
  observed_guest, task_type, parse_upid, check_acceptance, confirmed,
}
use proxmox_sharedlvmthin.GuestShutdown.Controller.{Backend, Call, authority, clock, guard, persist}
use proxmox_sharedlvmthin.GuestShutdown.Run.{
  model_allowlist_stopped, guests_of, survey, look_before, request, await, look_after, stop,
  stop_all, begin, attempt, run,
}
use proxmox_sharedlvmthin.GuestShutdown.Protocol.{opening, surveyed, answered, protocol}
use proxmox_sharedlvmthin.GuestShutdown.Order.{Finished, run-Finished}
use proxmox_sharedlvmthin.GuestShutdown.Turns.{until_asked, run_turn}

abbrev no_order : List Value → Result Bool
no_order [] = ok true
no_order (v ∷ vs) = refused "'<' not supported"

abbrev hex64 : Value
hex64 = str "0123456789abcdef0123456789abcdef0123456789abcdef0123456789abcdef"

abbrev guest : ℤ → String → String → Value
guest vmid type node = dict (
    entry "vmid" (int vmid) (
      entry "type" (str type) (
        entry "node" (str node) (
          entry "config_sha256" hex64 (
            entry "managed_disks" (array (cons (str "disk-0") nil))
              (entry "ha_managed" (flag false) close))))))

abbrev machine : Value
machine = guest (pos 101) "qemu" "n1"

abbrev container : Value
container = guest (pos 202) "lxc" "n2"

abbrev row : String → Value
row node = dict (entry "node" (str node) (entry "boot_id" (str "boot") close))

abbrev plan : Value
plan = dict (
    entry "schema" (str "slt-supervised-shutdown-model/v1") (
      entry "tx" (str "0123456789abcdef0123456789abcdef") (
        entry "barrier_plan_sha256" hex64 (
          entry "barrier_evidence_sha256" hex64 (
            entry "storage_cfg_sha256" hex64 (
              entry "workload_snapshot_sha256" hex64 (
                entry "participants" (array (items_of (map row ("n1" ∷ "n2" ∷ "n3" ∷ "n4" ∷ [])))) (
                  entry "guests" (array (cons machine (cons container nil))) (
                    entry "issued_at" (int (pos 1000)) (
                      entry "deadline" (int (pos 8200)) (
                        entry "per_task_timeout" (int (pos 300))
                          (entry "force_stop" (flag false) close))))))))))))

accepted_plan : validate_plan no_order (pos 1200) plan ≡ ok tt
unfolding validate_plan requires get has_exactly is_match is_false is_array items equals is_window
    ◌+ℤ◌ is_timeout check_participants is_positive sorted_identities insert_identity are_distinct
    check_guests fullmatch_or holds_all is_sorted_list sorted_set insert_sorted is_hex32 is_hex64
accepted_plan = refl

abbrev is_digits : String → Bool
is_digits s = not (str_eq s "") && all is_digit (codes s)

abbrev int_of : String → Result ℤ
int_of s =
    if str_eq s "101"
    then ok (pos 101)
    else if str_eq s "202"
    then ok (pos 202)
    else refused "invalid literal for int()"

abbrev upid_of : Value → String
upid_of v =
    if equals v machine
    then "UPID:n1:00000A1B:0001C2D3:65F00000:qmshutdown:101:root@pam:"
    else "UPID:n2:00000A1C:0001C2D4:65F00010:vzshutdown:202:root@pam:"

abbrev acceptance : Value → Value
acceptance v = dict (
    entry "upid" (str (upid_of v)) (
      entry "node" (get "node" v) (
        entry "vmid" (get "vmid" v)
          (entry "type" (get "type" v) (entry "task_type" (str (task_type v)) close)))))

abbrev cluster : List Value → Value
cluster running = dict (
    entry "participants" (get "participants" plan) (
      entry "barrier_plan_sha256" hex64 (
        entry "barrier_evidence_sha256" hex64 (
          entry "storage_cfg_sha256" hex64 (
            entry "workload_snapshot_sha256" hex64 (
              entry "admission_closed" (flag true) (
                entry "ha_idle_disarmed" (flag true) (
                  entry "tasks" (array nil) (
                    entry "workers" (array nil) (
                      entry "running_consumers" (array (items_of (map consumer running)))
                        close))))))))))

abbrev is_first : Value → List Value → Bool
is_first v [] = false
is_first v (w ∷ ws) = equals v w

abbrev without_first : List Value → List Value
without_first [] = []
without_first (v ∷ vs) = vs

-- The guests that run are the backend's state.
abbrev nodes : Backend (List Value)
nodes = record {
  now = λ c. (c, gives (int (pos 1300)));
  load_events = λ tx c. (c, gives (array nil));
  observe_cluster = λ c. (c, gives (cluster c.backend));
  observe_guest = λ v c. (c, gives (observed_guest (is_first v c.backend) v));
  submit_graceful_shutdown =
      λ v c. (record c { backend = without_first c.backend }, gives (acceptance v));
  wait_task = λ upid timeout deadline c. (
    c,
    gives (
        confirmed
          (acceptance (if equals upid (str (upid_of machine)) then machine else container))),
  );
  persist_event = λ event c. (c, gives tt);
}

abbrev enrolled : World (List Value) Call
enrolled = record {
  self = record {
    poisoned = false;
    running = false;
    last_clock = pos 1200;
    backend = machine ∷ container ∷ [];
  };
  calls = [];
}

stopped : run nodes is_digits int_of plan (λ v. "aa") "aa" enrolled ≡ (
  record {
    self = record { poisoned = false; running = false; last_clock = pos 1300; backend = [] };
    calls = protocol (machine ∷ container ∷ []);
  },
  gives model_allowlist_stopped,
)
unfolding run guarded enter attempt begin survey stop_all stop look_before request await look_after
    guard clock authority persist ask check unchanged clock_read pure lift assign ◌>>=◌ conclude
    validate_snapshot check_consumers requires get has_exactly is_match is_true is_flag is_int
    is_array items equals check_acceptance parse_upid split_max split_once holds_all
stopped = refl

run-Finished_example : Finished plan [] (run nodes is_digits int_of plan (λ v. "aa") "aa" enrolled)
run-Finished_example = run-Finished nodes is_digits int_of plan (λ v. "aa") "aa" enrolled refl refl

run_turn_example :
    (earlier : List Value) × (later : List Value) × (guests_of plan
      ≡ earlier ++ (container ∷ later))
    × ((opening ++ surveyed) ++ until_asked 0 (machine ∷ []) container
        ≡ (opening ++ surveyed) ++ until_asked 0 earlier container)
run_turn_example =
    run_turn nodes is_digits int_of plan (λ v. "aa") "aa" enrolled
      ((opening ++ surveyed) ++ until_asked 0 (machine ∷ []) container)
      (answered 1 container ++ surveyed) container refl refl refl (ap (λ s. s.0.calls) stopped)
