-- ===== src/Supervisor/Model.antt =====
-- The backend and the journal, which are parameters of the supervisor, and the world of one run.
use proxmox_sharedlvmthin.Base.{ℕ, Bool, List, [], ◌∷◌, ◌++◌}
use proxmox_sharedlvmthin.Base.Json.{Value}
use proxmox_sharedlvmthin.Base.Effects.{Action}

-- The callbacks, on a state of their own; each can raise. They are given copies.
pub record Backend (S : Type 0) : Type 0 where
  pub capabilities : Action S Value
  pub enable_subreaper : (owner : Value) → Action S Value
  pub prepare_unarmed : (request owner : Value) → Action S Value
  pub observe_launcher : (child : Value) → Action S Value
  pub bind_pidfd : (child : Value) → Action S Value
  pub grant_exec : (child pidfd request : Value) → Action S Value
  pub observe_exec : (child pidfd request : Value) → Action S Value
  pub monitor : (command pidfd request : Value) → Action S Value
  pub reap_exact : (command pidfd : Value) (remaining_ms : ℕ) → Action S Value
  pub settle_unknown : (child pidfd request cleanup_ms : Value) → Action S Value
  pub append : (event : Value) → Action S (Unit {0})

-- A call of a callback; `append` is one for each kind of event.
pub data Call : Type 0 where
  read_capabilities enable_subreaper prepare observe_launcher bind_pidfd grant_exec : Call
  observe_exec monitor reap settle : Call
  append_intent append_bound append_issued append_terminal append_unknown : Call

pub data Phase : Type 0 where
  new starting intent_persisted child_bound exec_issued monitoring terminal unknown : Phase

-- The supervisor's state, the backend's, and the local variables that the handler of `run` reads,
-- `null` for `None`. The calls and the events offered to the journal are written down for the proofs.
pub record World (S : Type 0) : Type 0 where
  pub phase : Phase
  pub backend : S
  pub request : Value
  pub owner : Value
  pub child : Value
  pub pidfd : Value
  pub process_settled : Bool
  pub calls : List Call
  pub events : List Value

module _ {S : Type 0} where
  unfoldable pub ask : {A : Type 0} → Call → Action S A → Action (World S) A
  ask c f w = let (s, r) = f w.backend in (record w { backend = s; calls = w.calls ++ (c ∷ []) }, r)

  -- `_persist`
  unfoldable pub persist : Backend S → Call → Value → Action (World S) (Unit {0})
  persist b c event w =
      let (s, r) = b.append event w.backend in
      (record w { backend = s; calls = w.calls ++ (c ∷ []); events = w.events ++ (event ∷ []) }, r)

  abbrev pub enter : Phase → World S → World S
  enter p w = record w { phase = p }
