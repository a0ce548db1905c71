-- ===== src/Supervisor/Requests.antt =====
-- The validators of what the supervisor is given: the request and the owner.
use proxmox_sharedlvmthin.Base.{
  ℕ, String, Bool, true, false, not, ◌&&◌, ◌==◌, List, [], ◌∷◌, all, any, is_empty, length, Result,
  ◌>>=◌, ◌>>◌, codes, leb, str_eq, starts_with, is_hex32, is_hex64, is_boot_id,
}
use proxmox_sharedlvmthin.Base.Int.{pos}
use proxmox_sharedlvmthin.Base.Checks.{◌//◌, requires}
use proxmox_sharedlvmthin.Base.Json.{
  Value, null, int, str, dict, Entries, close, entry, get, has_exactly, is_match, is_nonempty,
  is_int, is_int_from, is_false, is_array, is_dict, is_one_of, in_set, items, equals, number_of,
}

-- `integer(value, minimum) and value <= maximum`
abbrev pub is_within : ℕ → ℕ → Value → Bool
is_within minimum maximum v = is_int_from (pos minimum) v && leb (number_of v) maximum

abbrev has_code : ℕ → String → Bool
has_code c s = any (λ d. d == c) (codes s)

abbrev pub clean_environment : Value
clean_environment =
    dict (entry "PATH" (str "/usr/sbin:/usr/bin:/sbin:/bin") (entry "LC_ALL" (str "C") close))

abbrev is_variable : String → Value → Bool
is_variable key (str s) =
    is_nonempty key
    && not (has_code b'=' key)
    && not (has_code 0 key)
    && not (has_code 0 s)
    && leb (length (codes key)) 128
    && leb (length (codes s)) 4096
is_variable key _ = false

unfoldable pub are_variables : Entries → Bool
are_variables close = true
are_variables (entry key v rest) = is_variable key v && are_variables rest

abbrev variables_ok : Value → Bool
variables_ok (dict fs) = are_variables fs
variables_ok _ = false

unfoldable pub validate_environment : Value → Result (Unit {0})
validate_environment v = requires (
    (is_dict v && equals v clean_environment // "environment must equal the closed clean mapping")
    ∷ (variables_ok v // "environment entry is invalid")
    ∷ [])

-- An item of `argv`.
abbrev is_argument : String → Bool
is_argument s = is_nonempty s && not (has_code 0 s) && leb (length (codes s)) 4096

abbrev head_item : List Value → Value
head_item [] = null
head_item (v ∷ vs) = v

abbrev pub identity_checks : Value → List (Bool × String)
identity_checks r =
    (is_match is_boot_id (get "boot_id" r) // "request boot identity is invalid")
    ∷ (is_array (get "argv" r)
          && not (is_empty (items (get "argv" r)))
          && leb (length (items (get "argv" r))) 64
          && all (is_match is_argument) (items (get "argv" r))
        // "request argv is invalid")
    ∷ []

abbrev pub schema_checks : Value → List (Bool × String)
schema_checks r =
    (has_exactly
        ("schema" ∷ "request_id" ∷ "purpose" ∷ "boot_id" ∷ "argv" ∷ "environment" ∷ "executable"
          ∷ "launcher" ∷ "timeout_ms" ∷ "cleanup_ms" ∷ "capture_limit" ∷ "signal_policy"
          ∷ "storage_authorized" ∷ "postcondition_verified" ∷ [])
        r
      // "request schema is incomplete or open")
    ∷ (is_int (get "schema" r) && equals (get "schema" r) (int (pos 1))
        // "request schema version is unsupported")
    ∷ (is_match is_hex32 (get "request_id" r) // "request identity is invalid")
    ∷ []

abbrev pub limit_checks : Value → List (Bool × String)
limit_checks r =
    (is_within 1 60000 (get "timeout_ms" r) // "execution deadline is invalid")
    ∷ (is_within 1 10000 (get "cleanup_ms" r) // "cleanup budget is invalid")
    ∷ (is_within 1 1048576 (get "capture_limit" r) // "capture limit is invalid")
    ∷ (is_one_of ("NONE" ∷ "PIDFD_TERM_THEN_KILL" ∷ []) (get "signal_policy" r)
        // "signal policy is invalid")
    ∷ (is_false (get "storage_authorized" r) && is_false (get "postcondition_verified" r)
        // "process request cannot authorize storage")
    ∷ []

unfoldable pub validate_owner : Value → Value → Result (Unit {0})
validate_owner boot owner = requires (
    (has_exactly ("pid" ∷ "starttime" ∷ "boot_id" ∷ []) owner
        && is_int_from (pos 2) (get "pid" owner)
        && is_int_from (pos 1) (get "starttime" owner)
        && equals (get "boot_id" owner) boot
      // "supervisor owner identity is invalid")
    ∷ [])

-- `posixpath.normpath` is the parameter.
module _ (normpath : String → String) where
  abbrev is_path : String → Bool
  is_path s = starts_with s "/" && str_eq (normpath s) s && not (has_code 0 s)

  abbrev pub executable_checks : Value → List (Bool × String)
  executable_checks v =
      (has_exactly ("path" ∷ "sha256" ∷ "dev" ∷ "inode" ∷ []) v
        // "executable identity schema is invalid")
      ∷ (is_match is_path (get "path" v) // "executable path is invalid")
      ∷ (is_match is_hex64 (get "sha256" v) // "executable digest is invalid")
      ∷ (is_int_from (pos 1) (get "dev" v) && is_int_from (pos 1) (get "inode" v)
          // "executable inode identity is invalid")
      ∷ []

  unfoldable pub validate_executable : Value → Result (Unit {0})
  validate_executable v = requires (executable_checks v)

  unfoldable pub validate_request : Value → Result (Unit {0})
  validate_request r =
      requires (schema_checks r)
      >> (in_set ("RECOVERY_READONLY_PROBE" ∷ "DISPOSABLE_KERNEL_LAB" ∷ []) (get "purpose" r)
          >>= λ b. requires ((b // "request purpose is not allowed by the model") ∷ []))
      >> requires (identity_checks r)
      >> validate_executable (get "executable" r)
      >> validate_executable (get "launcher" r)
      >> requires (
          (equals (head_item (items (get "argv" r))) (get "path" (get "executable" r))
            // "argv executable differs from pinned identity")
          ∷ [])
      >> validate_environment (get "environment" r)
      >> requires (limit_checks r)
