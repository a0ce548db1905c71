-- ===== src/Control/Calls.antt =====
-- Which calls a part of a run makes.
use proxmox_sharedlvmthin.Base.{
  true, false, all, &&_left, &&_right, String, Bool, List, [], ◌∷◌, ◌++◌, ◌≡◌, refl, sym, ap, ◌∙◌,
}
use mathlib.Core.List.{append-nil}
use proxmox_sharedlvmthin.Base.Checks.{requires}
use proxmox_sharedlvmthin.Base.Effects.{
  gives, raises, Ending, Action, pure, lift, assign, Emits-assign, Emits, Emitted, Emits-pure,
  Emits-lift, Emits-bind, after_lift, after_assign, after_call, continue, ◌>>=◌,
}
use proxmox_sharedlvmthin.Control.State.{
  Controller, World, ask, check, unchanged, clock_read, set_clock,
}
use proxmox_sharedlvmthin.Base.Int.{ℤ}

module _ {S C : Type 0} where
  abbrev pub log : World S C → List C
  log w = w.calls

  ask_case :
      {A : Type 0} (c : C) (w : World S C) (step : Controller S × Ending A)
      → Emitted log
          (c ∷ [])
          w.calls
          (record w { self = step.0; calls = w.calls ++ (c ∷ []) }, step.1)
  ask_case c w (s, gives a) = (c ∷ [], [], refl, refl, refl)
  ask_case c w (s, raises kind message) = (c ∷ [], [], refl, refl, tt)

  pub ask-Emits : {A : Type 0} (c : C) (f : Action (Controller S) A) → Emits log (c ∷ []) (ask c f)
  unfolding ask
  ask-Emits c f = record { emitted = λ w. ask_case c w (f w.self) }

  pub check-Emits :
      (test : Controller S → Bool) (message : String) → Emits log [] (check test message)
  unfolding check lift
  check-Emits test message = record {
    emitted = λ w. (Emits-lift log (requires ((test w.self, message) ∷ []))).emitted w;
  }

  pub unchanged-Emits :
      (same_digest : Bool) (message : String) → Emits log [] (unchanged same_digest message)
  unfolding unchanged
  unchanged-Emits same_digest message = check-Emits _ _

  pub clock_read-Emits : Emits log [] (clock_read {S = S} {C = C})
  unfolding clock_read pure
  clock_read-Emits = record { emitted = λ w. (Emits-pure log w.self.last_clock).emitted w }

  pub set_clock-Emits : (t : ℤ) → Emits log [] (assign (set_clock {S = S} {C = C} t))
  set_clock-Emits t = Emits-assign log (set_clock t) λ w. refl

  -- A step that calls nothing.
  pub after_quiet :
      {A B : Type 0} (calls : List C) (m : Action (World S C) A) (k : A → Action (World S C) B)
      → Emits log [] m
      → ((a : A) → Emits log calls (k a))
      → Emits log calls (m >>= k)
  after_quiet calls m k first h = Emits-bind log [] calls m k first h

  -- A step that makes two calls.
  pub after_two :
      {A B : Type 0} (c d : C) (calls : List C) (m : Action (World S C) A)
      (k : A → Action (World S C) B)
      → Emits log (c ∷ d ∷ []) m
      → ((a : A) → Emits log calls (k a))
      → Emits log (c ∷ d ∷ calls) (m >>= k)
  after_two c d calls m k first h = Emits-bind log (c ∷ d ∷ []) calls m k first h

-- The rules that a program's calls are found with.
pub ruleset call_rules = (
  after_lift, after_assign, after_call, after_quiet, after_two, ask-Emits, check-Emits,
  unchanged-Emits, clock_read-Emits, set_clock-Emits, Emits-pure, Emits-lift,
)

-- What is done when nothing is left of the protocol.
pub all_done :
    {C : Type 0} (calls done left : List C) → calls ≡ done ++ left → left ≡ [] → done ≡ calls
all_done calls done left split ended = sym (split ∙ ap (λ l. done ++ l) ended ∙ append-nil done)

module _ {C : Type 0} (whole before : List C) where
  -- A log with all calls of the whole protocol, or with some of the first ones.
  abbrev pub IsLog : {A : Type 0} → List C → Ending A → Type 0
  IsLog calls (gives a) = calls ≡ before ++ whole
  IsLog calls (raises kind message) =
      (done : List C) × (left : List C) × (whole ≡ done ++ left) × (calls ≡ before ++ done)

  pub Emitted-IsLog :
      {S A : Type 0} (step : World S C × Ending A)
      → Emitted log whole before step
      → IsLog step.0.calls step.1
  Emitted-IsLog (w, gives a) (done, left, grown, split, ended) =
      grown ∙ ap (λ l. before ++ l) (all_done whole done left split ended)
  Emitted-IsLog (w, raises kind message) (done, left, grown, split, ended) =
      (done, left, split, grown)

module _ {C : Type 0} (is_other : C → Bool) where
  -- A call that is not among the first ones of a list comes after all of them.
  pub after_first :
      (first rest xs ys : List C) (c : C)
      → all is_other first ≡ true
      → is_other c ≡ false
      → xs ++ (c ∷ ys) ≡ first ++ rest
      → (zs : List C) × (xs ≡ first ++ zs) × (zs ++ (c ∷ ys) ≡ rest)
  after_first [] rest xs ys c others last same = (xs, refl, same)
  after_first (e ∷ first) rest [] ys c others last same =
      let other = &&_left (is_other e) (all is_other first) others in cc
  after_first (e ∷ first) rest (x ∷ xs) ys c others last same =
      let head : x ≡ e = cc in
      let later : xs ++ (c ∷ ys) ≡ first ++ rest = cc in
      let (zs, split, left) =
        after_first first rest xs ys c (&&_right (is_other e) (all is_other first) others) last
          later in
      (zs, ap (λ v. v ∷ xs) head ∙ ap (λ l. e ∷ l) split, left)
