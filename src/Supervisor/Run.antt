-- ===== src/Supervisor/Run.antt =====
-- `run`. The body is cut where it persists an event; the handler settles the child and persists why.
use proxmox_sharedlvmthin.Base.{
  ℕ, ◌-◌, String, Bool, true, false, not, ◌&&◌, ◌||◌, List, [], ◌∷◌, Result, ok, refused, contains,
  leb, if◌then◌else◌,
}
use proxmox_sharedlvmthin.Base.Int.{pos}
use proxmox_sharedlvmthin.Base.Checks.{◌//◌, requires}
use proxmox_sharedlvmthin.Base.Json.{
  Value, null, flag, int, str, dict, close, entry, get, has_exactly, is_match, is_int_from, is_flag,
  is_true, is_false, is_null, is_dict, is_text, equals, number_of,
}
use proxmox_sharedlvmthin.Base.Effects.{
  exception, gives, raises, Ending, Action, pure, lift, assign, ◌>>=◌, ◌>>◌,
}
use proxmox_sharedlvmthin.Supervisor.Requests.{validate_request, validate_owner}
use proxmox_sharedlvmthin.Supervisor.Receipts.{
  is_same_int, validate_child, has_capabilities, is_subreaper, is_grant, validate_capture,
  validate_command, is_terminal, monitor_fields, reap_fields, is_reaped,
}
use proxmox_sharedlvmthin.Supervisor.Model.{
  Backend, read_capabilities, enable_subreaper, prepare, observe_launcher, bind_pidfd, grant_exec,
  observe_exec, monitor, reap, settle, append_intent, append_bound, append_issued, append_terminal,
  append_unknown, Phase, new, starting, intent_persisted, child_bound, exec_issued, monitoring,
  terminal, unknown, World, ask, persist, enter,
}

abbrev pub intent_event : (Value → String) → Value → Value → Value
intent_event digest request owner = dict (
    entry "kind" (str "INTENT") (
      entry "request" request
        (entry "owner" owner (entry "request_sha256" (str (digest request)) close))))

abbrev pub bound_event : Value → Value → Value
bound_event child pidfd =
    dict (entry "kind" (str "CHILD_BOUND") (entry "child" child (entry "pidfd_token" pidfd close)))

abbrev pub issued_event : Value → Value
issued_event request = dict (
    entry "kind" (str "EXEC_ISSUED")
      (entry "request_id" (get "request_id" request) (entry "grant_bytes" (int (pos 1)) close)))

-- The result of a run that returns.
abbrev pub exit_result : Value → Value → Value → Value → Value
exit_result request command observed reaped = dict (
    entry "classification" (str "PROCESS_TERMINAL_EXIT0") (
      entry "request_id" (get "request_id" request) (
        entry "command" command (
          entry "stdout" (get "stdout" observed) (
            entry "stderr" (get "stderr" observed) (
              entry "reap" reaped (
                entry "storage_authorized" (flag false) (
                  entry "postcondition_verified" (flag false)
                    (entry "runtime_authorized" (flag false) close)))))))))

abbrev pub terminal_event : Value → Value
terminal_event result = dict (entry "kind" (str "PROCESS_TERMINAL") (entry "result" result close))

abbrev pub unknown_event : Value → Value → Value → Value → String → Value
unknown_event request child pidfd settlement message = dict (
    entry "kind" (str "UNKNOWN_PRESERVE") (
      entry "request_id" (get "request_id" request) (
        entry "child" child (
          entry "pidfd_token" pidfd (
            entry "settlement" settlement (
              entry "error" (str message) (
                entry "retry_dispatched" (flag false)
                  (entry "storage_cleanup_dispatched" (flag false) close))))))))

abbrev pub settlement_unknown : String → Value
settlement_unknown message = dict (
    entry "classification" (str "SETTLEMENT_UNKNOWN")
      (entry "error" (str message) (entry "survivor" (flag true) close)))

abbrev settlement_fields : List String
settlement_fields =
    "child" ∷ "pidfd_token" ∷ "cleanup_elapsed_ms" ∷ "signal_policy" ∷ "signal_sent" ∷ "terminal"
    ∷ "reaped" ∷ "echild_after_reap" ∷ "survivor" ∷ []

abbrev same_pidfd : Value → Value → Bool
same_pidfd pidfd token = is_null pidfd && is_null token || is_same_int token pidfd

-- A dead child is one that has ended, was reaped and left no other; a survivor is none of that.
abbrev pub is_accounted : Value → Bool
is_accounted v =
    (not (is_false (get "survivor" v))
      || is_true (get "terminal" v)
        && is_true (get "reaped" v)
        && is_true (get "echild_after_reap" v))
    && (not (is_true (get "survivor" v))
        || not (
            is_true (get "terminal" v)
            || is_true (get "reaped" v)
            || is_true (get "echild_after_reap" v)))

abbrev pub is_signal_allowed : Value → Value → Value → Bool
is_signal_allowed request pidfd v =
    (not (is_text "NONE" (get "signal_policy" request)) || is_null (get "signal_sent" v))
    && (is_null (get "signal_sent" v) || is_int_from (pos 1) pidfd)

abbrev pub settlement_checks : Value → Value → Value → Value → List (Bool × String)
settlement_checks request child pidfd v =
    (has_exactly settlement_fields v
        && equals (get "child" v) child
        && same_pidfd pidfd (get "pidfd_token" v)
        && is_int_from (pos 0) (get "cleanup_elapsed_ms" v)
        && leb (number_of (get "cleanup_elapsed_ms" v)) (number_of (get "cleanup_ms" request))
        && equals (get "signal_policy" v) (get "signal_policy" request)
        && (is_null (get "signal_sent" v)
            || is_match (contains ("SIGTERM" ∷ "SIGKILL" ∷ [])) (get "signal_sent" v))
        && is_flag (get "terminal" v)
        && is_flag (get "reaped" v)
        && is_flag (get "echild_after_reap" v)
        && is_flag (get "survivor" v)
        && is_accounted v
      // "bounded settlement receipt is invalid")
    ∷ (not (is_text "NONE" (get "signal_policy" request)) || is_null (get "signal_sent" v)
        // "signal contradicts persisted policy")
    ∷ (is_null (get "signal_sent" v) || is_int_from (pos 1) pidfd
        // "signal lacks an exact pidfd binding")
    ∷ []

-- The receipt of a settlement: a dict's child is validated before anything else is.
unfoldable pub check_settlement : Value → Value → Value → Value → Value → Result (Unit {0})
check_settlement request owner child pidfd v =
    elim (if is_dict v then validate_child request owner false (get "child" v) else ok tt) [
      | refused message ↦ refused message
      | ok _ ↦ requires (settlement_checks request child pidfd v)
    ]

-- The receipt, or why there is none.
unfoldable pub settlement_of : Value → Value → Value → Value → Ending Value → Value
settlement_of request owner child pidfd (raises kind message) = settlement_unknown message
settlement_of request owner child pidfd (gives v) =
    elim (check_settlement request owner child pidfd v) [
      | refused message ↦ settlement_unknown message
      | ok _ ↦ v
    ]

abbrev pub is_new : Phase → Bool
is_new new = true
is_new _ = false

-- `child is not None and not process_settled`
abbrev pub is_unsettled : {S : Type 0} → World S → Bool
is_unsettled w = not (is_null w.child || w.process_settled)

-- The local variables at the start of a run.
abbrev pub begin : {S : Type 0} → World S → World S
begin w = record w {
  phase = starting;
  request = null;
  owner = null;
  child = null;
  pidfd = null;
  process_settled = false;
}

abbrev pub remaining_ms : Value → Value → ℕ
remaining_ms request observed =
    number_of (get "timeout_ms" request) - number_of (get "elapsed_ms" observed)

module _ {S : Type 0} (b : Backend S) (normpath : String → String) (digest : Value → String)
    (empty_digest : String) where
  -- Up to the durable intent.
  unfoldable pub admit : Value → Value → Action (World S) (Value × Value)
  admit supplied supplied_owner = do
    lift (validate_request normpath supplied)
    assign (λ w. record w { request = supplied })
    lift (validate_owner (get "boot_id" supplied) supplied_owner)
    assign (λ w. record w { owner = supplied_owner })
    capabilities ← ask read_capabilities b.capabilities
    lift (
        requires (
          (has_capabilities capabilities // "mandatory supervisor capabilities are unavailable")
          ∷ []))
    subreaper ← ask enable_subreaper (b.enable_subreaper supplied_owner)
    lift (requires ((is_subreaper subreaper // "subreaper enable/readback is ambiguous") ∷ []))
    persist b append_intent (intent_event digest supplied supplied_owner)
    assign (enter intent_persisted)
    pure (supplied, supplied_owner)

  -- The launcher is observed to be the same child.
  unfoldable pub observe : Value → Value → Value → String → Action (World S) (Unit {0})
  observe request owner child message = do
    observed ← ask observe_launcher (b.observe_launcher child)
    lift (validate_child request owner false observed)
    lift (requires ((equals observed child // message) ∷ []))

  unfoldable pub bind : Value → Value → Action (World S) (Value × Value)
  bind request owner = do
    child ← ask prepare (b.prepare_unarmed request owner)
    assign (λ w. record w { child = child })
    lift (validate_child request owner false child)
    observe request owner child "launcher changed before pidfd binding"
    binding ← ask bind_pidfd (b.bind_pidfd child)
    lift (
        requires
          ((has_exactly ("child" ∷ "token" ∷ []) binding // "pidfd binding is invalid") ∷ []))
    lift (validate_child request owner false (get "child" binding))
    lift (
        requires (
          (equals (get "child" binding) child && is_int_from (pos 1) (get "token" binding)
            // "pidfd binding is invalid")
          ∷ []))
    assign (λ w. record w { pidfd = get "token" binding })
    observe request owner child "launcher changed while binding pidfd"
    persist b append_bound (bound_event child (get "token" binding))
    assign (enter child_bound)
    pure (child, get "token" binding)

  unfoldable pub issue : Value → Value → Value → Action (World S) Value
  issue request child pidfd = do
    persist b append_issued (issued_event request)
    assign (enter exec_issued)
    grant ← ask grant_exec (b.grant_exec child pidfd request)
    lift (requires ((is_grant request grant // "one-shot exec grant is ambiguous") ∷ []))
    command ← ask observe_exec (b.observe_exec child pidfd request)
    lift (validate_command normpath digest request child command)
    assign (enter monitoring)
    pure command

  unfoldable pub watch : Value → Value → Value → Value → Action (World S) Value
  watch request child pidfd command = do
    observed ← ask monitor (b.monitor command pidfd request)
    lift (
        requires
          ((has_exactly monitor_fields observed // "monitor receipt schema is invalid") ∷ []))
    lift (validate_command normpath digest request child (get "command" observed))
    lift (
        requires (
          (is_terminal request command pidfd observed
            // "process or descendant terminal proof is incomplete")
          ∷ []))
    lift (validate_capture empty_digest (get "capture_limit" request) (get "stdout" observed))
    lift (validate_capture empty_digest (get "capture_limit" request) (get "stderr" observed))
    pure observed

  unfoldable pub finish : Value → Value → Value → Value → Value → Action (World S) Value
  finish request child pidfd command observed = do
    reaped ← ask reap (b.reap_exact command pidfd (remaining_ms request observed))
    lift (requires ((has_exactly reap_fields reaped // "exact reap proof is incomplete") ∷ []))
    lift (validate_command normpath digest request child (get "command" reaped))
    lift (
        requires (
          (is_reaped command pidfd (remaining_ms request observed) reaped
            // "exact reap proof is incomplete")
          ∷ []))
    assign (λ w. record w { process_settled = true })
    persist b append_terminal (terminal_event (exit_result request command observed reaped))
    assign (enter terminal)
    pure (exit_result request command observed reaped)

  -- The `try` block.
  unfoldable pub attempt : Value → Value → Action (World S) Value
  attempt supplied supplied_owner = do
    (request, owner) ← admit supplied supplied_owner
    (child, pidfd) ← bind request owner
    command ← issue request child pidfd
    observed ← watch request child pidfd command
    finish request child pidfd command observed

  -- The receipt of `settle_unknown_model`, checked.
  unfoldable pub ask_settlement : World S → World S × Value
  ask_settlement w =
      let (w', r) =
        ask settle (b.settle_unknown w.child w.pidfd w.request (get "cleanup_ms" w.request)) w in
      (w', settlement_of w.request w.owner w.child w.pidfd r)

  -- What is known of the child: no receipt if there is none, or if it was reaped.
  unfoldable pub settle_child : World S → World S × Value
  settle_child w = if is_unsettled w then ask_settlement w else (w, null)

  -- The `except` block. A journal that fails is noted on the exception, which is raised again.
  unfoldable pub preserve : String → World S → World S
  preserve message w =
      let (w', settlement) = settle_child (enter unknown w) in
      (persist b append_unknown (unknown_event w'.request w'.child w'.pidfd settlement message)
        w').0

  unfoldable pub conclude : World S × Ending Value → World S × Ending Value
  conclude (w, gives v) = (w, gives v)
  conclude (w, raises kind message) = (preserve message w, raises kind message)

  unfoldable pub run : Value → Value → Action (World S) Value
  run supplied supplied_owner w =
      if is_new w.phase
      then conclude (attempt supplied supplied_owner (begin w))
      else (w, raises exception "supervisor model is single-use")
