-- ===== src/GuestShutdown/Receipts.antt =====
-- `parse_upid` and what the calls for one guest must show.
use proxmox_sharedlvmthin.Base.{
  String, Bool, true, false, not, ◌&&◌, List, [], ◌∷◌, all, Result, ok, refused, ◌>>◌, ◌>>=◌, ◌<>◌,
  str_eq, codes, is_any_hex, split_max, if◌then◌else◌,
}
use proxmox_sharedlvmthin.Base.Int.{ℤ, pos, ltb_ℤ}
use proxmox_sharedlvmthin.Base.Checks.{◌//◌, requires}
use proxmox_sharedlvmthin.Base.Chains.{validate}
use proxmox_sharedlvmthin.Base.Json.{
  Value, int, str, flag, array, dict, nil, cons, entry, close, get, has_exactly, is_match, is_any,
  is_nonempty, is_int, is_flag, is_array, is_text, equals, text_of,
}

abbrev pub guest_fields : List String
guest_fields =
    "vmid" ∷ "type" ∷ "node" ∷ "config_sha256" ∷ "managed_disks" ∷ "running" ∷ "ha_managed"
    ∷ "task_refs" ∷ "process_refs" ∷ "cgroup_populated" ∷ "cleanup_tasks" ∷ []

-- A running guest has one process and a populated group, a stopped one has neither.
abbrev pub observed_guest : Bool → Value → Value
observed_guest running guest = dict (
    entry "vmid" (get "vmid" guest) (
      entry "type" (get "type" guest) (
        entry "node" (get "node" guest) (
          entry "config_sha256" (get "config_sha256" guest) (
            entry "managed_disks" (get "managed_disks" guest) (
              entry "running" (flag running) (
                entry "ha_managed" (flag false) (
                  entry "task_refs" (array nil) (
                    entry "process_refs"
                      (array (if running then cons (str "guest-runtime") nil else nil))
                      (entry "cgroup_populated" (flag running)
                        (entry "cleanup_tasks" (array nil) close)))))))))))

abbrev pub guest_checks : String → String → Bool → Value → Value → List (Bool × String)
guest_checks label message running guest v =
    (has_exactly guest_fields v // (label <> " fields invalid"))
    ∷ (is_int (get "vmid" v)
          && all (λ field. is_flag (get field v))
              ("running" ∷ "ha_managed" ∷ "cgroup_populated" ∷ [])
          && all (λ field. is_array (get field v))
              ("managed_disks" ∷ "task_refs" ∷ "process_refs" ∷ "cleanup_tasks" ∷ [])
          && equals v (observed_guest running guest)
        // message)
    ∷ []

abbrev pub task_type : Value → String
task_type guest = if is_text "qemu" (get "type" guest) then "qmshutdown" else "vzshutdown"

abbrev is_hexes : String → Bool
is_hexes s = not (str_eq s "") && all is_any_hex (codes s)

abbrev pub Upid : Type 0
Upid = String × String × ℤ

-- `str.isdigit` and `int` of the text between two colons are parameters: they know other digits too,
-- and `int` raises where there is none for it.
module _ (is_digits : String → Bool) (int_of : String → Result ℤ) where
  abbrev is_vmid : String → Result Bool
  is_vmid s = if is_digits s then (int_of s >>= λ n. ok (ltb_ℤ (pos 0) n)) else ok false

  abbrev pub upid_tests : List String → List (Result Bool)
  upid_tests (kind ∷ node ∷ pid ∷ start ∷ time ∷ task ∷ vmid ∷ user ∷ end ∷ []) =
      ok (
        str_eq kind "UPID"
        && str_eq end ""
        && is_nonempty node
        && all is_hexes (pid ∷ start ∷ time ∷ [])
        && is_nonempty task)
      ∷ is_vmid vmid
      ∷ ok (is_nonempty user)
      ∷ []
  upid_tests _ = ok false ∷ []

  abbrev upid_of : List String → Result Upid
  upid_of (kind ∷ node ∷ pid ∷ start ∷ time ∷ task ∷ vmid ∷ rest) =
      int_of vmid >>= λ n. ok (node, task, n)
  upid_of _ = refused "shutdown UPID invalid"

  -- `value.split(":")`, of which a tenth part refuses.
  abbrev parts_of : Value → List String
  parts_of v = split_max b':' 9 (text_of v)

  unfoldable pub parse_upid : Value → Result Upid
  parse_upid v = do
    requires ((is_match is_any v // "shutdown UPID invalid") ∷ [])
    validate (upid_tests (parts_of v)) "shutdown UPID invalid"
    upid_of (parts_of v)

  abbrev pub acceptance_checks : Value → Value → Upid → List (Bool × String)
  acceptance_checks guest v (node, task, vmid) =
      (is_int (get "vmid" v)
          && all (λ field. is_match is_any (get field v))
              ("upid" ∷ "node" ∷ "type" ∷ "task_type" ∷ [])
          && equals (str node) (get "node" guest)
          && str_eq task (task_type guest)
          && equals (int vmid) (get "vmid" guest)
          && equals (get "node" v) (get "node" guest)
          && equals (get "vmid" v) (get "vmid" guest)
          && equals (get "type" v) (get "type" guest)
          && is_text (task_type guest) (get "task_type" v)
        // "shutdown UPID binding invalid")
      ∷ []

  unfoldable pub check_acceptance : Value → Value → Result (Unit {0})
  check_acceptance guest v = do
    requires (
        (has_exactly ("upid" ∷ "node" ∷ "vmid" ∷ "type" ∷ "task_type" ∷ []) v
          // "shutdown acceptance fields invalid")
        ∷ [])
    parsed ← parse_upid (get "upid" v)
    requires (acceptance_checks guest v parsed)

-- `{**accepted, "terminal": True, "exitstatus": "OK"}`
abbrev pub confirmed : Value → Value
confirmed accepted = dict (
    entry "upid" (get "upid" accepted) (
      entry "node" (get "node" accepted) (
        entry "vmid" (get "vmid" accepted) (
          entry "type" (get "type" accepted) (
            entry "task_type" (get "task_type" accepted)
              (entry "terminal" (flag true) (entry "exitstatus" (str "OK") close)))))))

abbrev pub terminal_checks : Value → Value → List (Bool × String)
terminal_checks accepted v =
    (has_exactly ("upid" ∷ "node" ∷ "vmid" ∷ "type" ∷ "task_type" ∷ "terminal" ∷ "exitstatus" ∷ [])
        v
      // "shutdown terminal receipt fields invalid")
    ∷ (is_int (get "vmid" v)
          && is_flag (get "terminal" v)
          && all (λ field. is_match is_any (get field v))
              ("upid" ∷ "node" ∷ "type" ∷ "task_type" ∷ "exitstatus" ∷ [])
          && equals v (confirmed accepted)
        // "shutdown task is not a confirmed success")
    ∷ []
