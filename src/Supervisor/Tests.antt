-- ===== src/Supervisor/Tests.antt =====
-- A backend that answers as the supervisor demands, one whose monitor fails, and the theorems at them.
use proxmox_sharedlvmthin.Base.{
  ℕ, ◌≤◌, String, true, false, [], ◌∷◌, ◌≡◌, refl, is_hex32, is_hex64, is_boot_id,
}
use proxmox_sharedlvmthin.Base.Int.{pos}
use proxmox_sharedlvmthin.Base.Checks.{requires}
use proxmox_sharedlvmthin.Base.Json.{
  Value, null, int, str, flag, dict, array, cons, nil, entry, close, get, has_exactly, is_match,
  is_int, is_int_from, is_flag, is_true, is_false, is_null, is_array, is_dict, in_set, items,
  equals,
}
use proxmox_sharedlvmthin.Base.Effects.{interrupt, gives, raises, Action, pure, lift, assign, ◌>>=◌}
use proxmox_sharedlvmthin.Supervisor.Requests.{
  are_variables, validate_environment, validate_owner, validate_executable, validate_request,
  clean_environment,
}
use proxmox_sharedlvmthin.Supervisor.Receipts.{validate_child, validate_capture, validate_command}
use proxmox_sharedlvmthin.Supervisor.Model.{Backend, Phase, new, World, ask, persist}
use proxmox_sharedlvmthin.Supervisor.Run.{
  admit, observe, bind, issue, watch, finish, attempt, conclude, run,
}
use proxmox_sharedlvmthin.Supervisor.Once.{grants, run_all, run_all_once}
use proxmox_sharedlvmthin.Supervisor.Evidence.{Recorded, run-Recorded}

abbrev num : ℕ → Value
num n = int (pos n)

abbrev hex64 : String
hex64 = "0123456789abcdef0123456789abcdef0123456789abcdef0123456789abcdef"

abbrev digest_of : Value → String
digest_of v = hex64

abbrev same_path : String → String
same_path s = s

abbrev request_id : Value
request_id = str "0123456789abcdef0123456789abcdef"

abbrev boot : Value
boot = str "01234567-89ab-cdef-0123-456789abcdef"

abbrev executable : Value
executable = dict (
    entry "path" (str "/usr/sbin/dmsetup")
      (entry "sha256" (str hex64) (entry "dev" (num 5) (entry "inode" (num 6) close))))

abbrev argv : Value
argv = array (cons (str "/usr/sbin/dmsetup") (cons (str "info") nil))

abbrev request : Value
request = dict (
    entry "schema" (num 1) (
      entry "request_id" request_id (
        entry "purpose" (str "RECOVERY_READONLY_PROBE") (
          entry "boot_id" boot (
            entry "argv" argv (
              entry "environment" clean_environment (
                entry "executable" executable (
                  entry "launcher" executable (
                    entry "timeout_ms" (num 1000) (
                      entry "cleanup_ms" (num 100) (
                        entry "capture_limit" (num 64) (
                          entry "signal_policy" (str "NONE") (
                            entry "storage_authorized" (flag false)
                              (entry "postcondition_verified" (flag false) close))))))))))))))

abbrev owner : Value
owner = dict (entry "pid" (num 10) (entry "starttime" (num 3) (entry "boot_id" boot close)))

abbrev child : Value
child = dict (
    entry "request_id" request_id (
      entry "boot_id" boot (
        entry "pid" (num 11) (
          entry "starttime" (num 4) (
            entry "owner_pid" (num 10) (
              entry "owner_starttime" (num 3)
                (entry "launcher_sha256" (str hex64) (entry "armed" (flag false) close))))))))

abbrev command : Value
command = dict (
    entry "pid" (num 11) (
      entry "starttime" (num 4) (
        entry "boot_id" boot (
          entry "request_id" request_id (
            entry "argv" argv (
              entry "environment_sha256" (str hex64)
                (entry "executable" executable (entry "armed" (flag true) close))))))))

abbrev capture : Value
capture = dict (
    entry "eof" (flag true)
      (entry "truncated" (flag false) (entry "bytes" (num 7) (entry "sha256" (str hex64) close))))

abbrev observed : Value
observed = dict (
    entry "command" command (
      entry "pidfd_token" (num 9) (
        entry "terminal" (str "EXITED") (
          entry "unreaped" (flag true) (
            entry "returncode" (num 0) (
              entry "deadline_exceeded" (flag false) (
                entry "survivor" (flag false) (
                  entry "descendants" (array nil) (
                    entry "descendants_complete" (flag true) (
                      entry "stdout" capture
                        (entry "stderr" capture (entry "elapsed_ms" (num 400) close))))))))))))

abbrev reaped : Value
reaped = dict (
    entry "command" command (
      entry "pidfd_token" (num 9) (
        entry "reaped" (flag true) (
          entry "returncode" (num 0)
            (entry "echild_after_reap" (flag true) (entry "elapsed_ms" (num 600) close))))))

abbrev settlement : Value
settlement = dict (
    entry "child" child (
      entry "pidfd_token" (num 9) (
        entry "cleanup_elapsed_ms" (num 50) (
          entry "signal_policy" (str "NONE") (
            entry "signal_sent" null (
              entry "terminal" (flag true) (
                entry "reaped" (flag true) (
                  entry "echild_after_reap" (flag true)
                    (entry "survivor" (flag false) close)))))))))

abbrev answer : {A : Type 0} → A → Action (Unit {0}) A
answer a s = (s, gives a)

abbrev willing : Backend (Unit {0})
willing = record {
  capabilities = answer (
      dict (
        entry "pidfd" (flag true) (
          entry "pidfd_waitid" (flag true) (
            entry "pidfd_signal" (flag true)
              (entry "subreaper" (flag true) (entry "nonblocking_capture" (flag true) close))))));
  enable_subreaper = λ _. answer (
      dict (
        entry "before" (flag false)
          (entry "after" (flag true) (entry "process_local" (flag true) close))));
  prepare_unarmed = λ _ _. answer child;
  observe_launcher = λ _. answer child;
  bind_pidfd = λ _. answer (dict (entry "child" child (entry "token" (num 9) close)));
  grant_exec = λ _ _ _. answer (
      dict (
        entry "request_id" request_id
          (entry "bytes_written" (num 1) (entry "grant_eof" (flag true) close))));
  observe_exec = λ _ _ _. answer command;
  monitor = λ _ _ _. answer observed;
  reap_exact = λ _ _ _. answer reaped;
  settle_unknown = λ _ _ _ _. answer settlement;
  append = λ _. answer tt;
}

abbrev blind : Backend (Unit {0})
blind = record willing { monitor = λ _ _ _ s. (s, raises interrupt "lost") }

abbrev fresh : World (Unit {0})
fresh = record {
  phase = new;
  backend = tt;
  request = null;
  owner = null;
  child = null;
  pidfd = null;
  process_settled = false;
  calls = [];
  events = [];
}

-- The run of the example returns.
returns : (run willing same_path digest_of hex64 request owner fresh).0.phase ≡ Phase.terminal
unfolding run conclude attempt admit observe bind issue watch finish ask persist ◌>>=◌ lift assign
    pure are_variables validate_environment validate_owner validate_executable validate_request
    validate_child validate_capture validate_command requires get has_exactly is_match is_int
    is_int_from is_flag is_true is_false is_null is_array is_dict in_set items equals is_hex32
    is_hex64 is_boot_id
returns = refl

fails : (run blind same_path digest_of hex64 request owner fresh).1 ≡ raises interrupt "lost"
unfolding run conclude attempt admit observe bind issue watch finish ask persist ◌>>=◌ lift assign
    pure are_variables validate_environment validate_owner validate_executable validate_request
    validate_child validate_capture validate_command requires get has_exactly is_match is_int
    is_int_from is_flag is_true is_false is_null is_array is_dict in_set items equals is_hex32
    is_hex64 is_boot_id
fails = refl

run-Recorded_example : Recorded "lost" (run blind same_path digest_of hex64 request owner fresh).0
run-Recorded_example =
    run-Recorded blind same_path digest_of hex64 request owner fresh interrupt "lost" refl fails

no_grants : grants fresh.calls ≡ 0
unfolding grants
no_grants = refl

run_all_once_example :
    grants
      (run_all willing same_path digest_of hex64 fresh
        ((request, owner) ∷ (request, owner) ∷ [])).calls
    ≤ 1
run_all_once_example =
    run_all_once willing same_path digest_of hex64 fresh ((request, owner) ∷ (request, owner) ∷ [])
      refl no_grants
