-- ===== src/Control/State.antt =====
-- The controller, its backend's calls, and the `try` block around a run. A call may do to the
-- controller what it likes, as a run that is entered again does.
use proxmox_sharedlvmthin.Base.{
  String, Bool, true, false, not, ◌&&◌, List, [], ◌∷◌, ◌++◌, if◌then◌else◌,
}
use proxmox_sharedlvmthin.Base.Int.{ℤ, leb_ℤ}
use proxmox_sharedlvmthin.Base.Checks.{◌//◌, requires}
use proxmox_sharedlvmthin.Base.Json.{Value, int}
use proxmox_sharedlvmthin.Base.Effects.{
  exception, interrupt, gives, raises, Ending, ending_of, Action,
}

pub record Controller (S : Type 0) : Type 0 where
  pub poisoned : Bool
  pub running : Bool
  pub last_clock : ℤ
  pub backend : S

-- The calls are written down for the proofs.
pub record World (S C : Type 0) : Type 0 where
  pub self : Controller S
  pub calls : List C

module _ {S C : Type 0} where
  unfoldable pub ask : {A : Type 0} → C → Action (Controller S) A → Action (World S C) A
  ask c f w = let (s, r) = f w.self in (record { self = s; calls = w.calls ++ (c ∷ []) }, r)

  -- A test of the controller as it is at that moment.
  unfoldable pub check : (Controller S → Bool) → String → Action (World S C) (Unit {0})
  check test message w = (w, ending_of (requires ((test w.self // message) ∷ [])))

  -- The controller is not poisoned, and the plan's digest is the enrolled one.
  unfoldable pub unchanged : Bool → String → Action (World S C) (Unit {0})
  unchanged same_digest message = check (λ c. not c.poisoned && same_digest) message

  unfoldable pub clock_read : Action (World S C) ℤ
  clock_read w = (w, gives w.self.last_clock)

  abbrev pub set_clock : ℤ → World S C → World S C
  set_clock t w = record w { self = record w.self { last_clock = t } }

  unfoldable pub enter : World S C → World S C
  enter w = record w { self = record w.self { running = true } }

  abbrev pub leave : Bool → World S C → World S C
  leave failed w = record w {
    self = record w.self { poisoned = if failed then true else w.self.poisoned; running = false };
  }

  -- `except Exception` and `finally`.
  unfoldable pub conclude : {A : Type 0} → World S C × Ending A → World S C × Ending A
  conclude (w, gives a) = (leave false w, gives a)
  conclude (w, raises exception message) = (leave true w, raises exception message)
  conclude (w, raises interrupt message) = (leave false w, raises interrupt message)

  unfoldable pub guarded :
      {A : Type 0} → String → String → Action (World S C) A → Action (World S C) A
  guarded reentered poisoned attempt w =
      if w.self.running
      then (record w { self = record w.self { poisoned = true } }, raises exception reentered)
      else if w.self.poisoned
      then (w, raises exception poisoned)
      else conclude (attempt (enter w))

-- The number that a value is, where it is one.
abbrev pub int_or : ℤ → Value → ℤ
int_or default (int n) = n
int_or default _ = default

-- `value >= previous` of an `int`, and `value <= limit` of two.
abbrev pub is_from : ℤ → Value → Bool
is_from previous (int n) = leb_ℤ previous n
is_from previous _ = false

abbrev pub is_until : Value → ℤ → Bool
is_until (int n) t = leb_ℤ t n
is_until _ t = false
