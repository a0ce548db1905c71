-- ===== src/Control/Sound.antt =====
-- What poisons the controller inside a callback is seen before a run returns.
use proxmox_sharedlvmthin.Base.{String, Bool, true, false, not, ◌&&◌, List, [], ◌∷◌, ok, ◌≡◌, refl}
use proxmox_sharedlvmthin.Base.Int.{ℤ}
use proxmox_sharedlvmthin.Base.Checks.{requires}
use proxmox_sharedlvmthin.Base.Effects.{
  ending_of-ok, exception, interrupt, gives, raises, Ending, Action, assign, Returns,
}
use proxmox_sharedlvmthin.Base.Kept.{
  Keeps, Keeps-bind, Keeps-pure, Keeps-lift, Keeps-assign, Returns-keep,
}
use proxmox_sharedlvmthin.Control.State.{
  Controller, World, check, unchanged, clock_read, set_clock, enter, conclude, guarded,
}

unpoisoned_case :
    (p c : Bool) (message : String) → requires (((not p && c), message) ∷ []) ≡ ok tt → p ≡ false
unfolding requires
unpoisoned_case true c message h = cc
unpoisoned_case false c message h = refl

module _ {S C : Type 0} where
  abbrev pub IsUnpoisoned : World S C → Type 0
  IsUnpoisoned w = w.self.poisoned ≡ false

  pub clock_read-Keeps : Keeps IsUnpoisoned (clock_read {S = S} {C = C})
  unfolding clock_read
  clock_read-Keeps = record { kept = λ w h. h }

  pub check-Keeps :
      (test : Controller S → Bool) (message : String) → Keeps IsUnpoisoned (check test message)
  unfolding check
  check-Keeps test message = record { kept = λ w h. h }

  pub set_clock-Keeps : (t : ℤ) → Keeps IsUnpoisoned (assign (set_clock {S = S} {C = C} t))
  set_clock-Keeps t = Keeps-assign IsUnpoisoned (set_clock t) λ w h. h

  pub unchanged-Returns :
      (same_digest : Bool) (message : String)
      → Returns (λ w u. IsUnpoisoned w) (unchanged {S = S} {C = C} same_digest message)
  unfolding unchanged check
  unchanged-Returns same_digest message = record {
    returned = λ w u e. unpoisoned_case w.self.poisoned same_digest message (ending_of-ok _ e);
  }

  -- How a run leaves the controller: an Exception has poisoned it.
  abbrev pub IsLeft : {A : Type 0} → World S C × Ending A → Type 0
  IsLeft (w, gives a) = (w.self.poisoned ≡ false) × (w.self.running ≡ false)
  IsLeft (w, raises exception message) = (w.self.poisoned ≡ true) × (w.self.running ≡ false)
  IsLeft (w, raises interrupt message) = w.self.running ≡ false

pub ruleset keep_rules =
    (Keeps-bind, Keeps-pure, Keeps-lift, check-Keeps, clock_read-Keeps, set_clock-Keeps)

module _ {S C A : Type 0} (Logged : List C → Ending A → Type 0) where
  conclude_case :
      (step : World S C × Ending A)
      → Logged step.0.calls step.1
      → ((a : A) → step.1 ≡ gives a → IsUnpoisoned step.0)
      → (let end = conclude step in Logged end.0.calls end.1 × IsLeft end)
  unfolding conclude
  conclude_case (w, gives a) logged clean = (logged, (clean a refl, refl))
  conclude_case (w, raises exception message) logged clean = (logged, (refl, refl))
  conclude_case (w, raises interrupt message) logged clean = (logged, refl)

  -- A run of a controller that is not running and not poisoned is its attempt.
  pub guarded_lem :
      (reentered poisoned : String) (attempt : Action (World S C) A) (w : World S C)
      → w.self.running ≡ false
      → w.self.poisoned ≡ false
      → Logged (attempt (enter w)).0.calls (attempt (enter w)).1
      → Returns (λ w a. IsUnpoisoned w) attempt
      → (let end = guarded reentered poisoned attempt w in Logged end.0.calls end.1 × IsLeft end)
  unfolding guarded
  guarded_lem reentered poisoned attempt w idle clean logged safe =
      let concluded = conclude_case (attempt (enter w)) logged (safe.returned (enter w)) in
      simp (idle, clean) concluded
