-- ===== src/Barrier/Controller.antt =====
-- The backend, a parameter whose calls may do to the controller what they like, as a run that is
-- entered again does, and the methods that `run` uses. The plan is fixed.
use proxmox_sharedlvmthin.Base.{ℕ, String, List, [], ◌∷◌, str_eq}
use proxmox_sharedlvmthin.Control.State.{
  Controller, World, ask, check, unchanged, clock_read, set_clock, int_or, is_from, is_until,
}
use proxmox_sharedlvmthin.Base.Int.{pos, eq_ℤ}
use proxmox_sharedlvmthin.Base.Checks.{◌//◌, requires}
use proxmox_sharedlvmthin.Base.Json.{Value, int, str, dict, Entries, close, entry, get}
use proxmox_sharedlvmthin.Base.Effects.{Action, lift, assign, ◌>>=◌, ◌>>◌}

pub record Backend (S : Type 0) : Type 0 where
  pub now : Action (Controller S) Value
  pub load_events : (tx : Value) → Action (Controller S) Value
  pub observe_node : (node : Value) → Action (Controller S) Value
  pub mask_persistent : (node : Value) → Action (Controller S) Value
  pub drain_services : (node : Value) → Action (Controller S) Value
  pub persist_event : (event : Value) → Action (Controller S) (Unit {0})

-- A call of the backend: events are told apart by their kind and the index of the action.
pub data Call : Type 0 where
  now load_events : Call
  observe_node mask_persistent drain_services : (node : Value) → Call
  persist_event : (kind : String) (index : ℕ) → Call

module _ {S : Type 0} (b : Backend S) (plan : Value) (digest : Value → String)
    (plan_sha256 : String) where
  -- `_authority`
  unfoldable pub authority : Action (World S Call) (Unit {0})
  authority = unchanged (str_eq (digest plan) plan_sha256) "plan changed after enrollment"

  -- `_clock`
  unfoldable pub clock : Action (World S Call) (Unit {0})
  clock = do
    previous ← clock_read
    value ← ask now b.now
    authority
    check (λ c. eq_ℤ c.last_clock previous) "clock watermark changed inside backend callback"
    lift (requires ((is_from previous value // "clock is invalid or regressed") ∷ []))
    assign (set_clock (int_or previous value))
    lift (
        requires (
          (is_until (get "deadline" plan) (int_or previous value) // "absolute deadline expired")
          ∷ []))

  unfoldable pub guard : Action (World S Call) (Unit {0})
  guard = authority >> clock

  abbrev pub receipt_entry : List Value → Entries
  receipt_entry [] = close
  receipt_entry (v ∷ rest) = entry "receipt" v close

  abbrev pub event : String → ℕ → Value → List Value → Value
  event kind index act receipt = dict (
      entry "tx" (get "tx" plan) (
        entry "plan_sha256" (str plan_sha256) (
          entry "kind" (str kind) (
            entry "index" (int (pos index)) (
              entry "step" (get "step" act)
                (entry "node" (get "node" act) (receipt_entry receipt)))))))

  -- `_persist`, with a receipt or none.
  unfoldable pub persist : String → ℕ → Value → List Value → Action (World S Call) (Unit {0})
  persist kind index act receipt = do
    ask (persist_event kind index) (b.persist_event (event kind index act receipt))
    authority
    clock
