-- ===== src/GuestShutdown/Controller.antt =====
-- The backend of the shutdown controller, whose calls may do to the controller what they like, and
-- the methods that `run` uses.
use proxmox_sharedlvmthin.Base.{ℕ, String, ◌&&◌, List, [], ◌∷◌, str_eq}
use proxmox_sharedlvmthin.Base.Int.{pos, eq_ℤ}
use proxmox_sharedlvmthin.Base.Json.{Value, int, str, dict, Entries, close, entry, get}
use proxmox_sharedlvmthin.Base.Effects.{Action, assign, ◌>>=◌, ◌>>◌}
use proxmox_sharedlvmthin.Control.State.{
  Controller, World, ask, check, unchanged, clock_read, set_clock, int_or, is_from, is_until,
}

pub record Backend (S : Type 0) : Type 0 where
  pub now : Action (Controller S) Value
  pub load_events : (tx : Value) → Action (Controller S) Value
  pub observe_cluster : Action (Controller S) Value
  pub observe_guest : (guest : Value) → Action (Controller S) Value
  pub submit_graceful_shutdown : (guest : Value) → Action (Controller S) Value
  pub wait_task : (upid per_task_timeout deadline : Value) → Action (Controller S) Value
  pub persist_event : (event : Value) → Action (Controller S) (Unit {0})

-- A call of the backend: events are told apart by their kind and the index of the guest, tasks by it.
pub data Call : Type 0 where
  now load_events observe_cluster : Call
  observe_guest submit_graceful_shutdown : (guest : Value) → Call
  wait_task : (index : ℕ) → Call
  persist_event : (kind : String) (index : ℕ) → Call

module _ {S : Type 0} (b : Backend S) (plan : Value) (digest : Value → String)
    (plan_sha : String) where
  unfoldable pub authority : Action (World S Call) (Unit {0})
  authority = unchanged (str_eq (digest plan) plan_sha) "shutdown controller authority changed"

  unfoldable pub clock : Action (World S Call) (Unit {0})
  clock = do
    old ← clock_read
    value ← ask now b.now
    authority
    check
        (λ c.
          eq_ℤ c.last_clock old
          && is_from old value
          && is_until (get "deadline" plan) (int_or old value))
        "shutdown clock invalid or expired"
    assign (set_clock (int_or old value))

  unfoldable pub guard : Action (World S Call) (Unit {0})
  guard = authority >> clock

  abbrev pub payload_entry : List Value → Entries
  payload_entry [] = close
  payload_entry (v ∷ rest) = entry "payload" v close

  abbrev pub event : String → ℕ → Value → List Value → Value
  event kind index guest payload = dict (
      entry "tx" (get "tx" plan) (
        entry "plan_sha256" (str plan_sha) (
          entry "kind" (str kind) (
            entry "index" (int (pos index)) (
              entry "vmid" (get "vmid" guest) (
                entry "type" (get "type" guest)
                  (entry "node" (get "node" guest) (payload_entry payload))))))))

  -- With a payload or none.
  unfoldable pub persist : String → ℕ → Value → List Value → Action (World S Call) (Unit {0})
  persist kind index guest payload = do
    ask (persist_event kind index) (b.persist_event (event kind index guest payload))
    guard
