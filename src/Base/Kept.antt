-- ===== src/Base/Kept.antt =====
-- What holds of the world while a program goes on.
use mathlib.Core.Path.{◌≡◌, refl}
use proxmox_sharedlvmthin.Base.Results.{Result}
use proxmox_sharedlvmthin.Base.Effects.{
  Action, gives, raises, Ending, pure, lift, assign, ◌>>=◌, continue, Returns,
}

module _ {W : Type 0} where
  -- What held before the program holds after it, also where it raises.
  pub record Keeps {A : Type 0} (P : W → Type 0) (m : Action W A) : Type 0 where
    pub kept : (w : W) → P w → P (m w).0

  keeps_case :
      {A B : Type 0} (P : W → Type 0) (step : W × Ending A) (f : A → Action W B)
      → P step.0
      → ((a : A) → Keeps P (f a))
      → P (continue step f).0
  keeps_case P (w, gives a) f h next = (next a).kept w h
  keeps_case P (w, raises kind message) f h next = h

  pub Keeps-bind :
      {A B : Type 0} (P : W → Type 0) (m : Action W A) (f : A → Action W B)
      → Keeps P m
      → ((a : A) → Keeps P (f a))
      → Keeps P (m >>= f)
  unfolding ◌>>=◌
  Keeps-bind P m f first next = record { kept = λ w h. keeps_case P (m w) f (first.kept w h) next }

  pub Keeps-pure : {A : Type 0} (P : W → Type 0) (a : A) → Keeps P (pure a)
  unfolding pure
  Keeps-pure P a = record { kept = λ w h. h }

  pub Keeps-lift : {A : Type 0} (P : W → Type 0) (r : Result A) → Keeps P (lift r)
  unfolding lift
  Keeps-lift P r = record { kept = λ w h. h }

  pub Keeps-assign : (P : W → Type 0) (f : W → W) → ((w : W) → P w → P (f w)) → Keeps P (assign f)
  unfolding assign
  Keeps-assign P f h = record { kept = h }

  returns_kept :
      {A B : Type 0} (P : W → Type 0) (step : W × Ending A) (f : A → Action W B)
      → ((a : A) → step.1 ≡ gives a → P step.0)
      → ((a : A) → Keeps P (f a))
      → (b : B) → (continue step f).1 ≡ gives b
      → P (continue step f).0
  returns_kept P (w, gives a) f first next b e = (next a).kept w (first a refl)
  returns_kept P (w, raises kind message) f first next b e = cc

  -- What the first program returned with is kept by the second.
  pub Returns-keep :
      {A B : Type 0} (P : W → Type 0) (m : Action W A) (f : A → Action W B)
      → Returns (λ w a. P w) m
      → ((a : A) → Keeps P (f a))
      → Returns (λ w b. P w) (m >>= f)
  unfolding ◌>>=◌
  Returns-keep P m f first next = record {
    returned = λ w b e. returns_kept P (m w) f (first.returned w) next b e;
  }
