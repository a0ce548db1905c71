-- ===== src/LazyGuard/Epoch.antt =====
-- `GuardEpochModel`: a method returns the object after the call and what the caller sees. A method
-- that raises can have changed the object.
use proxmox_sharedlvmthin.Base.{
  ℕ, ◌+◌, String, Bool, true, false, not, ◌&&◌, ◌||◌, Option, none, some, List, [], ◌∷◌, Result, ok,
  refused, ◌>>◌, if◌then◌else◌, str_eq, contains, is_hex32,
}
use proxmox_sharedlvmthin.Base.Checks.{◌//◌, requires}
use proxmox_sharedlvmthin.Base.Json.{
  Value, get, has_exactly, is_match, is_int, is_text, is_true, equals,
}
use proxmox_sharedlvmthin.LazyGuard.Fixture.{validate_fixture, role, is_number}

pub data Phase : Type 0 where
  graph_verified guard_verified model_published unpublished unknown : Phase

pub record Guard : Type 0 where
  pub fixture : Value
  pub digest : String
  pub epoch : ℕ
  pub phase : Phase
  pub guard : Option Value
  pub was_withdrawn : Bool

abbrev pub is_phase : Phase → Phase → Bool
is_phase graph_verified graph_verified = true
is_phase guard_verified guard_verified = true
is_phase model_published model_published = true
is_phase unpublished unpublished = true
is_phase unknown unknown = true
is_phase _ _ = false

-- The object after the call, and the message of the exception or a return.
abbrev pub Outcome : Type 0
Outcome = Guard × Result (Unit {0})

unfoldable pub invalidate : Guard → Guard
invalidate g = record g { phase = unknown; guard = none }

abbrev pub poison : Guard → String → Outcome
poison g message = (record g { phase = unknown; guard = none }, refused message)

abbrev pub unchanged : Guard → Result (Unit {0}) → Outcome
unchanged g r = (g, r)

-- The fields of a receipt that bind it to the graph and the epoch.
unfoldable pub is_bound : Value → String → ℕ → Value → Bool
is_bound fixture digest epoch r =
    is_number 1 (get "schema" r)
    && equals (get "fixture_nonce" r) (get "nonce" fixture)
    && equals (get "boot_id" r) (get "boot_id" fixture)
    && is_number epoch (get "epoch" r)
    && is_text digest (get "graph_digest" r)

-- The fields that bind it to the clone device and its queue.
unfoldable pub is_guarding : Value → Value → Bool
is_guarding clone r =
    equals (get "clone_devno" r) (get "devno" clone)
    && is_int (get "clone_diskseq" r)
    && equals (get "clone_diskseq" r) (get "diskseq" clone)
    && equals (get "clone_table" r) (get "table" clone)
    && equals (get "queue_devno" r) (get "devno" clone)
    && is_int (get "queue_diskseq" r)
    && equals (get "queue_diskseq" r) (get "diskseq" clone)
    && is_number 0 (get "discard_max_bytes" r)
    && is_match is_hex32 (get "attempt_id" r)

unfoldable pub is_receipt : Value → Bool
is_receipt r =
    has_exactly
      ("schema" ∷ "fixture_nonce" ∷ "boot_id" ∷ "epoch" ∷ "graph_digest" ∷ "clone_devno"
        ∷ "clone_diskseq" ∷ "clone_table" ∷ "queue_devno" ∷ "queue_diskseq" ∷ "discard_max_bytes"
        ∷ "attempt_id" ∷ [])
      r

unfoldable pub accept_guard : Guard → Value → Outcome
accept_guard g receipt =
    if not (is_phase graph_verified g.phase)
    then unchanged g (refused "guard state")
    else if not (is_receipt receipt)
    then poison g "guard schema"
    else if not (
        is_bound g.fixture g.digest g.epoch receipt && is_guarding (role "clone" g.fixture) receipt)
    then poison g "guard identity or epoch mismatch"
    else (record g { guard = some receipt; phase = guard_verified }, ok tt)

unfoldable pub publish : Guard → Outcome
publish g =
    if not (is_phase guard_verified g.phase)
    then unchanged g (refused "publication state")
    else if not (is_text "GUARDED" (get "purpose" g.fixture))
    then unchanged g (refused "negative fixture cannot publish")
    else (record g { phase = model_published }, ok tt)

-- `terminal is True and type(open_count) is int and open_count == 0`
unfoldable pub is_closed : Value → Value → Bool
is_closed terminal open_count = is_true terminal && is_number 0 open_count

unfoldable pub withdraw : Guard → Value → Value → Outcome
withdraw g terminal open_count =
    if not (is_phase model_published g.phase)
    then unchanged g (refused "withdraw state")
    else if not (is_closed terminal open_count)
    then unchanged g (refused "terminal zero-open proof")
    else (record g { phase = unpublished; was_withdrawn = true }, ok tt)

-- What is required of the fixture that is observed after the device was reconfigured.
abbrev pub continuity_checks : String → Value → Value → List (Bool × String)
continuity_checks kind old new =
    (equals (get "nonce" new) (get "nonce" old)
        && equals (get "boot_id" new) (get "boot_id" old)
        && equals (get "purpose" new) (get "purpose" old)
      // "fixture continuity changed")
    ∷ (not (contains ("RELOAD" ∷ "RESUME" ∷ []) kind) || equals new old
        // "reload/resume must preserve the exact graph")
    ∷ (not (str_eq kind "REOPEN") || equals (role "data" new) (role "data" old)
        // "reopen data identity changed")
    ∷ (not (str_eq kind "REOPEN") || equals (role "metadata" new) (role "metadata" old)
        // "reopen metadata identity changed")
    ∷ (not (str_eq kind "REOPEN") || equals (role "zero" new) (role "zero" old)
        // "reopen zero-source identity changed")
    ∷ []

unfoldable pub check_observed : String → Value → Value → Result (Unit {0})
check_observed kind old new = do validate_fixture new; requires (continuity_checks kind old new)

abbrev pub reconfigure_checks : Guard → String → Value → Value → List (Bool × String)
reconfigure_checks g kind terminal open_count =
    (contains ("RELOAD" ∷ "RESUME" ∷ "REOPEN" ∷ []) kind // "reconfigure kind")
    ∷ (is_phase unpublished g.phase && g.was_withdrawn
        // "reconfigure requires completed withdrawal")
    ∷ (is_closed terminal open_count // "reconfigure requires terminal zero-open proof")
    ∷ []

-- SHA-256 of the canonical JSON is the parameter.
module _ (graph_digest : Value → String) where
  unfoldable pub start : Value → Result Guard
  start fixture = do
    validate_fixture fixture
    ok (record {
      fixture = fixture;
      digest = graph_digest fixture;
      epoch = 1;
      phase = graph_verified;
      guard = none;
      was_withdrawn = false;
    })

  -- The next epoch: whatever is found, the old guard is gone.
  unfoldable pub observe : Guard → Value → Result (Unit {0}) → Outcome
  observe g fixture (refused message) =
      (record g { epoch = g.epoch + 1; guard = none; phase = unknown }, refused message)
  observe g fixture (ok _) = (
    record {
      fixture = fixture;
      digest = graph_digest fixture;
      epoch = g.epoch + 1;
      phase = graph_verified;
      guard = none;
      was_withdrawn = false;
    },
    ok tt,
  )

  unfoldable pub reconfigure : Guard → String → Value → Value → Value → Outcome
  reconfigure g kind fixture terminal open_count =
      elim (requires (reconfigure_checks g kind terminal open_count)) [
        | refused message ↦ unchanged g (refused message)
        | ok _ ↦ observe g fixture (check_observed kind g.fixture fixture)
      ]
