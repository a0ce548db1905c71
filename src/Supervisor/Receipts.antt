-- ===== src/Supervisor/Receipts.antt =====
-- The validators of what the backend answers.
use proxmox_sharedlvmthin.Base.{
  ℕ, String, Bool, true, false, not, ◌&&◌, ◌||◌, List, [], ◌∷◌, all, Result, ◌>>◌, leb, ltb,
  is_hex64,
}
use proxmox_sharedlvmthin.Base.Int.{pos}
use proxmox_sharedlvmthin.Base.Checks.{◌//◌, requires}
use proxmox_sharedlvmthin.Base.Json.{
  Value, int, array, nil, get, has_exactly, is_match, is_int, is_int_from, is_true, is_false,
  is_array, is_text, equals, number_of,
}
use proxmox_sharedlvmthin.Supervisor.Requests.{validate_executable}

-- `type(value) is int and value == other`
abbrev pub is_same_int : Value → Value → Bool
is_same_int v w = is_int v && equals v w

-- `value is armed`
abbrev pub is_armed : Bool → Value → Bool
is_armed true v = is_true v
is_armed false v = is_false v

unfoldable pub validate_child : Value → Value → Bool → Value → Result (Unit {0})
validate_child request owner armed child = requires (
    (has_exactly
        ("request_id" ∷ "boot_id" ∷ "pid" ∷ "starttime" ∷ "owner_pid" ∷ "owner_starttime"
          ∷ "launcher_sha256" ∷ "armed" ∷ [])
        child
      // "launcher identity schema is invalid")
    ∷ (equals (get "request_id" child) (get "request_id" request)
          && equals (get "boot_id" child) (get "boot_id" request)
          && is_same_int (get "owner_pid" child) (get "pid" owner)
          && is_same_int (get "owner_starttime" child) (get "starttime" owner)
          && is_int_from (pos 2) (get "pid" child)
          && not (equals (get "pid" child) (get "pid" owner))
          && is_int_from (pos 1) (get "starttime" child)
          && is_match is_hex64 (get "launcher_sha256" child)
          && equals (get "launcher_sha256" child) (get "sha256" (get "launcher" request))
          && is_armed armed (get "armed" child)
        // "launcher identity binding is invalid")
    ∷ [])

abbrev pub capability_names : List String
capability_names =
    "pidfd" ∷ "pidfd_waitid" ∷ "pidfd_signal" ∷ "subreaper" ∷ "nonblocking_capture" ∷ []

abbrev pub has_capabilities : Value → Bool
has_capabilities v = has_exactly capability_names v && all (λ k. is_true (get k v)) capability_names

abbrev pub is_subreaper : Value → Bool
is_subreaper v =
    has_exactly ("before" ∷ "after" ∷ "process_local" ∷ []) v
    && is_false (get "before" v)
    && is_true (get "after" v)
    && is_true (get "process_local" v)

abbrev pub is_grant : Value → Value → Bool
is_grant request v =
    has_exactly ("request_id" ∷ "bytes_written" ∷ "grant_eof" ∷ []) v
    && equals (get "request_id" v) (get "request_id" request)
    && is_same_int (get "bytes_written" v) (int (pos 1))
    && is_true (get "grant_eof" v)

-- The digest of the empty text and the digest of a value are parameters.
module _ (empty_digest : String) where
  abbrev pub capture_checks : Value → Value → List (Bool × String)
  capture_checks limit v =
      (has_exactly ("eof" ∷ "truncated" ∷ "bytes" ∷ "sha256" ∷ []) v // "capture schema is invalid")
      ∷ (is_true (get "eof" v)
            && is_false (get "truncated" v)
            && is_int_from (pos 0) (get "bytes" v)
            && leb (number_of (get "bytes" v)) (number_of limit)
            && is_match is_hex64 (get "sha256" v)
          // "capture is incomplete or exceeds bounds")
      ∷ (not (equals (get "bytes" v) (int (pos 0))) || is_text empty_digest (get "sha256" v)
          // "empty capture digest is inconsistent")
      ∷ []

  unfoldable pub validate_capture : Value → Value → Result (Unit {0})
  validate_capture limit v = requires (capture_checks limit v)

module _ (digest : Value → String) where
  abbrev pub is_command : Value → Value → Value → Bool
  is_command request child v =
      is_same_int (get "pid" v) (get "pid" child)
      && is_same_int (get "starttime" v) (get "starttime" child)
      && equals (get "boot_id" v) (get "boot_id" child)
      && equals (get "request_id" v) (get "request_id" request)
      && is_array (get "argv" v)
      && equals (get "argv" v) (get "argv" request)
      && is_text (digest (get "environment" request)) (get "environment_sha256" v)
      && equals (get "executable" v) (get "executable" request)
      && is_true (get "armed" v)

module _ (normpath : String → String) where
  abbrev pub check_identity : Value → Result (Unit {0})
  check_identity v =
      requires (
        (has_exactly
            ("pid" ∷ "starttime" ∷ "boot_id" ∷ "request_id" ∷ "argv" ∷ "environment_sha256"
              ∷ "executable" ∷ "armed" ∷ [])
            v
          // "command identity schema is invalid")
        ∷ [])
      >> validate_executable normpath (get "executable" v)

  unfoldable pub validate_command : (Value → String) → Value → Value → Value → Result (Unit {0})
  validate_command digest request child v =
      check_identity v
      >> requires
          ((is_command digest request child v // "command identity binding is invalid") ∷ [])

-- What the monitor must have seen: the exact command has ended by itself, in time, and left nobody.
abbrev pub is_terminal : Value → Value → Value → Value → Bool
is_terminal request command pidfd v =
    equals (get "command" v) command
    && is_same_int (get "pidfd_token" v) pidfd
    && is_text "EXITED" (get "terminal" v)
    && is_true (get "unreaped" v)
    && is_same_int (get "returncode" v) (int (pos 0))
    && is_false (get "deadline_exceeded" v)
    && is_false (get "survivor" v)
    && is_true (get "descendants_complete" v)
    && equals (get "descendants" v) (array nil)
    && is_int_from (pos 0) (get "elapsed_ms" v)
    && ltb (number_of (get "elapsed_ms" v)) (number_of (get "timeout_ms" request))

abbrev pub monitor_fields : List String
monitor_fields =
    "command" ∷ "pidfd_token" ∷ "terminal" ∷ "unreaped" ∷ "returncode" ∷ "deadline_exceeded"
    ∷ "survivor" ∷ "descendants" ∷ "descendants_complete" ∷ "stdout" ∷ "stderr" ∷ "elapsed_ms" ∷ []

abbrev pub reap_fields : List String
reap_fields =
    "command" ∷ "pidfd_token" ∷ "reaped" ∷ "returncode" ∷ "echild_after_reap" ∷ "elapsed_ms" ∷ []

abbrev pub is_reaped : Value → Value → ℕ → Value → Bool
is_reaped command pidfd remaining v =
    equals (get "command" v) command
    && is_same_int (get "pidfd_token" v) pidfd
    && is_true (get "reaped" v)
    && is_same_int (get "returncode" v) (int (pos 0))
    && is_true (get "echild_after_reap" v)
    && is_int_from (pos 0) (get "elapsed_ms" v)
    && leb (number_of (get "elapsed_ms" v)) remaining
