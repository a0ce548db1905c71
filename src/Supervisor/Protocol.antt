-- ===== src/Supervisor/Protocol.antt =====
-- The calls of an attempt, in order.
use proxmox_sharedlvmthin.Base.{String, List, [], ◌∷◌, ◌++◌, refl}
use proxmox_sharedlvmthin.Base.Json.{Value}
use proxmox_sharedlvmthin.Base.Effects.{
  gives, raises, Ending, Action, Emits, Emitted, Emits-pure, Emits-lift, Emits-bind, after_lift,
  after_assign, after_call,
}
use proxmox_sharedlvmthin.Supervisor.Model.{
  Backend, Call, read_capabilities, enable_subreaper, prepare, observe_launcher, bind_pidfd,
  grant_exec, observe_exec, monitor, reap, append_intent, append_bound, append_issued,
  append_terminal, World, ask, persist,
}
use proxmox_sharedlvmthin.Supervisor.Run.{admit, observe, bind, issue, watch, finish, attempt}

abbrev pub protocol : List Call
protocol =
    read_capabilities ∷ enable_subreaper ∷ append_intent ∷ prepare ∷ observe_launcher ∷ bind_pidfd
    ∷ observe_launcher ∷ append_bound ∷ append_issued ∷ grant_exec ∷ observe_exec ∷ monitor ∷ reap
    ∷ append_terminal ∷ []

module _ {S : Type 0} where
  abbrev pub log : World S → List Call
  log w = w.calls

  ask_case :
      {A : Type 0} (c : Call) (w : World S) (step : S × Ending A)
      → Emitted log
          (c ∷ [])
          w.calls
          (record w { backend = step.0; calls = w.calls ++ (c ∷ []) }, step.1)
  ask_case c w (s, gives a) = (c ∷ [], [], refl, refl, refl)
  ask_case c w (s, raises kind message) = (c ∷ [], [], refl, refl, tt)

  ask-Emits : {A : Type 0} (c : Call) (f : Action S A) → Emits log (c ∷ []) (ask c f)
  unfolding ask
  ask-Emits c f = record { emitted = λ w. ask_case c w (f w.backend) }

  persist_case :
      (c : Call) (event : Value) (w : World S) (step : S × Ending (Unit {0}))
      → Emitted log (c ∷ []) w.calls (
        record w {
          backend = step.0;
          calls = w.calls ++ (c ∷ []);
          events = w.events ++ (event ∷ []);
        },
        step.1,
      )
  persist_case c event w (s, gives a) = (c ∷ [], [], refl, refl, refl)
  persist_case c event w (s, raises kind message) = (c ∷ [], [], refl, refl, tt)

  persist-Emits :
      (b : Backend S) (c : Call) (event : Value) → Emits log (c ∷ []) (persist b c event)
  unfolding persist
  persist-Emits b c event = record {
    emitted = λ w. persist_case c event w (b.append event w.backend);
  }

ruleset emits_rules =
    (after_lift, after_assign, after_call, ask-Emits, persist-Emits, Emits-pure, Emits-lift)

module _ {S : Type 0} (b : Backend S) (normpath : String → String) (digest : Value → String)
    (empty_digest : String) where
  finish-Emits :
      (request child pidfd command observed : Value)
      → Emits log
          (reap ∷ append_terminal ∷ [])
          (finish b normpath digest empty_digest request child pidfd command observed)
  unfolding finish
  finish-Emits request child pidfd command observed = search emits_rules depth 16

  watch-Emits :
      (request child pidfd command : Value)
      → Emits log (monitor ∷ []) (watch b normpath digest empty_digest request child pidfd command)
  unfolding watch
  watch-Emits request child pidfd command = search emits_rules depth 16

  issue-Emits :
      (request child pidfd : Value)
      → Emits log
          (append_issued ∷ grant_exec ∷ observe_exec ∷ [])
          (issue b normpath digest empty_digest request child pidfd)
  unfolding issue
  issue-Emits request child pidfd = search emits_rules depth 16

  observe-Emits :
      (request owner child : Value) (message : String)
      → Emits log
          (observe_launcher ∷ [])
          (observe b normpath digest empty_digest request owner child message)
  unfolding observe
  observe-Emits request owner child message = search emits_rules depth 16

  bind-Emits :
      (request owner : Value)
      → Emits log
          (prepare ∷ observe_launcher ∷ bind_pidfd ∷ observe_launcher ∷ append_bound ∷ [])
          (bind b normpath digest empty_digest request owner)
  unfolding bind
  bind-Emits request owner = search (emits_rules, observe-Emits) depth 24

  admit-Emits :
      (supplied supplied_owner : Value)
      → Emits log
          (read_capabilities ∷ enable_subreaper ∷ append_intent ∷ [])
          (admit b normpath digest empty_digest supplied supplied_owner)
  unfolding admit
  admit-Emits supplied supplied_owner = search emits_rules depth 24

  -- An attempt makes the calls of the protocol and no other.
  pub attempt-Emits :
      (supplied supplied_owner : Value)
      → Emits log protocol (attempt b normpath digest empty_digest supplied supplied_owner)
  unfolding attempt
  attempt-Emits supplied supplied_owner =
      Emits-bind log _ _ _ _ (admit-Emits supplied supplied_owner) λ p.
        Emits-bind log _ _ _ _ (bind-Emits p.0 p.1) λ q.
          Emits-bind log _ _ _ _ (issue-Emits p.0 q.0 q.1) λ command.
            Emits-bind log _ _ _ _ (watch-Emits p.0 q.0 q.1 command)
              λ observed. finish-Emits p.0 q.0 q.1 command observed
