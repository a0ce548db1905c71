-- ===== src/Supervisor/Exit.antt =====
-- What a run that returns has shown.
use proxmox_sharedlvmthin.Base.{
  ℕ, String, Bool, true, ◌&&◌, [], ◌∷◌, ok, ◌≡◌, refl, arith, subst, leb, &&_intro, >>=-eq-ok,
}
use proxmox_sharedlvmthin.Base.Int.{pos}
use proxmox_sharedlvmthin.Base.Checks.{requires-Passed}
use proxmox_sharedlvmthin.Base.Json.{
  Value, int, get, equals, is_true, is_false, is_text, is_int_from, number_of,
}
use proxmox_sharedlvmthin.Base.Effects.{
  Returns, Returns-bind, Returns-then, Returns-lift, Returns-pure, Returns-last,
}
use proxmox_sharedlvmthin.Supervisor.Receipts.{
  is_same_int, validate_command, validate_capture, capture_checks, is_command, check_identity,
  is_reaped,
}
use proxmox_sharedlvmthin.Supervisor.Model.{Backend, terminal, World}
use proxmox_sharedlvmthin.Supervisor.Run.{
  admit, issue, watch, finish, attempt, exit_result, remaining_ms,
}

-- The capture reached the end of its stream, nothing of it was cut off, and it is within the limit.
abbrev is_captured : Value → Value → Bool
is_captured limit v =
    is_true (get "eof" v)
    && is_false (get "truncated" v)
    && is_int_from (pos 0) (get "bytes" v)
    && leb (number_of (get "bytes" v)) (number_of limit)

-- The command was reaped with 0 within the time, and left no child.
abbrev is_reap_of : Value → ℕ → Value → Bool
is_reap_of command time v =
    equals (get "command" v) command
    && is_true (get "reaped" v)
    && is_true (get "echild_after_reap" v)
    && is_same_int (get "returncode" v) (int (pos 0))
    && leb (number_of (get "elapsed_ms" v)) time

abbrev is_unauthorized : Value → Bool
is_unauthorized v =
    is_false (get "storage_authorized" v)
    && is_false (get "postcondition_verified" v)
    && is_false (get "runtime_authorized" v)

-- The command is the one that the request names.
abbrev is_command_of : Value → Value → Bool
is_command_of request v =
    equals (get "request_id" v) (get "request_id" request)
    && equals (get "argv" v) (get "argv" request)
    && equals (get "executable" v) (get "executable" request)

-- The requested command ended by itself with 0 and was reaped within the deadline, leaving no child, and both
-- captures are whole and within the limit; nothing more is claimed.
abbrev pub is_exit : Value → Value → Bool
is_exit request v =
    is_text "PROCESS_TERMINAL_EXIT0" (get "classification" v)
    && is_command_of request (get "command" v)
    && is_reap_of (get "command" v) (number_of (get "timeout_ms" request)) (get "reap" v)
    && is_captured (get "capture_limit" request) (get "stdout" v)
    && is_captured (get "capture_limit" request) (get "stderr" v)
    && is_unauthorized v

reap-is_reap_of :
    (request command observed reaped pidfd : Value)
    → is_reaped command pidfd (remaining_ms request observed) reaped ≡ true
    → is_reap_of command (number_of (get "timeout_ms" request)) reaped ≡ true
reap-is_reap_of request command observed reaped pidfd h = ground (arith, h)

capture-is_captured :
    (empty_digest : String) (limit v : Value)
    → validate_capture empty_digest limit v ≡ ok tt
    → is_captured limit v ≡ true
unfolding validate_capture
capture-is_captured empty_digest limit v h =
    let (_, (whole, _)) = requires-Passed (capture_checks empty_digest limit v) h in
    ground (arith, whole)

command-is_command_of :
    (normpath : String → String) (digest : Value → String) (request child command : Value)
    → validate_command normpath digest request child command ≡ ok tt
    → is_command_of request command ≡ true
unfolding validate_command
command-is_command_of normpath digest request child command h =
    let (_, _, bound) = >>=-eq-ok (check_identity normpath command) _ h in
    let (bound_, _) =
      requires-Passed
        ((is_command digest request child command, "command identity binding is invalid") ∷ [])
        bound in
    ground (arith, bound_)

exit_case :
    (request command observed reaped pidfd : Value)
    → is_command_of request command ≡ true
    → is_captured (get "capture_limit" request) (get "stdout" observed) ≡ true
    → is_captured (get "capture_limit" request) (get "stderr" observed) ≡ true
    → is_reaped command pidfd (remaining_ms request observed) reaped ≡ true
    → is_exit request (exit_result request command observed reaped) ≡ true
unfolding get is_false equals
exit_case request command observed reaped pidfd command_ out_ err_ reaped_ =
    &&_intro
      (&&_intro
        (&&_intro
          (&&_intro (&&_intro refl command_)
            (reap-is_reap_of request command observed reaped pidfd reaped_))
          out_)
        err_)
      refl

abbrev Watched : {S : Type 0} → Value → World S → Value → Type 0
Watched request w observed =
    (is_captured (get "capture_limit" request) (get "stdout" observed) ≡ true)
    × (is_captured (get "capture_limit" request) (get "stderr" observed) ≡ true)

abbrev pub Exited : {S : Type 0} → Value → World S → Value → Type 0
Exited request w v = (w.phase ≡ terminal) × (is_exit request v ≡ true)

module _ {S : Type 0} (b : Backend S) (normpath : String → String) (digest : Value → String)
    (empty_digest : String) where
  watch-Watched :
      (request child pidfd command : Value)
      → Returns (Watched request) (watch b normpath digest empty_digest request child pidfd command)
  unfolding watch
  watch-Watched request child pidfd command = Returns-then _ _ _ λ observed.
      Returns-lift _ _ _ λ _ _. Returns-lift _ _ _ λ _ _. Returns-lift _ _ _ λ _ _.
        Returns-lift _ _ _ λ u out_. Returns-lift _ _ _ λ v err_. Returns-pure _ observed λ w.
          (capture-is_captured empty_digest _ _ out_, capture-is_captured empty_digest _ _ err_)

  finish-Exited :
      (request child pidfd command observed : Value)
      → is_command_of request command ≡ true
      → is_captured (get "capture_limit" request) (get "stdout" observed) ≡ true
      → is_captured (get "capture_limit" request) (get "stderr" observed) ≡ true
      → Returns
          (Exited request)
          (finish b normpath digest empty_digest request child pidfd command observed)
  unfolding finish
  finish-Exited request child pidfd command observed command_ out_ err_ =
      Returns-then _ _ _ λ reaped. Returns-lift _ _ _ λ _ _. Returns-lift _ _ _ λ _ _.
        Returns-lift _ _ _ λ _ reaped_. Returns-then _ _ _ λ _. Returns-then _ _ _ λ _.
          Returns-last _ _ _ λ w. (
            refl,
            exit_case request command observed reaped pidfd command_ out_ err_
                (requires-Passed
                  ((
                    is_reaped command pidfd (remaining_ms request observed) reaped,
                    "exact reap proof is incomplete",
                  )
                    ∷ [])
                  reaped_).0,
          )

  issue-is_command_of :
      (request child pidfd : Value)
      → Returns
          (λ w command. is_command_of request command ≡ true)
          (issue b normpath digest empty_digest request child pidfd)
  unfolding issue
  issue-is_command_of request child pidfd = Returns-then _ _ _ λ _. Returns-then _ _ _ λ _.
      Returns-then _ _ _ λ _. Returns-then _ _ _ λ _. Returns-then _ _ _ λ command.
        Returns-lift _ _ _ λ u bound.
          Returns-last _ _ _ λ w. command-is_command_of normpath digest request child command bound

  -- The request of an attempt is the one it was given.
  admit-Same :
      (supplied supplied_owner : Value)
      → Returns
          (λ w p. p.0 ≡ supplied)
          (admit b normpath digest empty_digest supplied supplied_owner)
  unfolding admit
  admit-Same supplied supplied_owner = Returns-then _ _ _ λ _. Returns-then _ _ _ λ _.
      Returns-then _ _ _ λ _. Returns-then _ _ _ λ _. Returns-then _ _ _ λ _.
        Returns-then _ _ _ λ _.
          Returns-then _ _ _
            λ _. Returns-then _ _ _ λ _. Returns-then _ _ _ λ _. Returns-last _ _ _ λ w. refl

  pub attempt-Exited :
      (supplied supplied_owner : Value)
      → Returns (Exited supplied) (attempt b normpath digest empty_digest supplied supplied_owner)
  unfolding attempt
  attempt-Exited supplied supplied_owner =
      Returns-bind _ _ _ _ (admit-Same supplied supplied_owner) λ p _ same. Returns-then _ _ _ λ q.
        Returns-bind _ _ _ _ (issue-is_command_of p.0 q.0 q.1) λ command _ named.
          Returns-bind _ _ _ _ (watch-Watched p.0 q.0 q.1 command) λ observed _ seen.
            subst
              (λ r.
                Returns (Exited r)
                  (finish b normpath digest empty_digest p.0 q.0 q.1 command observed))
              same (finish-Exited p.0 q.0 q.1 command observed named seen.0 seen.1)
