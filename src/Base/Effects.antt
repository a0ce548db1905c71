-- ===== src/Base/Effects.antt =====
-- Calls on a world that can raise: what was changed before a raise stays changed. `Emits` says which
-- calls of a protocol a program makes, in order; one that raises can stop after any of them.
use Prim.Native.String.{String}
use mathlib.Core.Path.{◌≡◌, refl, sym, ap, subst, ◌∙◌}
use mathlib.Core.List.{List, [], ◌∷◌, ◌++◌, append-nil, append_assoc}
use proxmox_sharedlvmthin.Base.Results.{Result, ok, refused}

-- What a raise is of: an `Exception`, or another `BaseException` such as `KeyboardInterrupt`, which
-- `except Exception` does not catch.
pub data Raise : Type 0 where
  exception interrupt : Raise

pub data Ending (A : Type 0) : Type 0 where
  gives : A → Ending A
  raises : (kind : Raise) (message : String) → Ending A

-- The refusals of this library's functions are Exceptions.
abbrev pub ending_of : {A : Type 0} → Result A → Ending A
ending_of (ok a) = gives a
ending_of (refused message) = raises exception message

pub gives_injective : {A : Type 0} {a b : A} → gives a ≡ gives b → a ≡ b
gives_injective h = cc

pub raises-message :
    {A : Type 0} {k l : Raise} {s t : String} → ◌≡◌ {A = Ending A} (raises k s) (raises l t) → s ≡ t
raises-message h = cc

pub ending_of-ok : {A : Type 0} (r : Result A) {a : A} → ending_of r ≡ gives a → r ≡ ok a
ending_of-ok (ok b) h = ap ok (gives_injective h)
ending_of-ok (refused message) h = cc

abbrev pub Action : Type 0 → Type 0 → Type 0
Action W A = W → W × Ending A

module _ {W : Type 0} where
  unfoldable pub pure : {A : Type 0} → A → Action W A
  pure a w = (w, gives a)

  unfoldable pub raise : {A : Type 0} → String → Action W A
  raise message w = (w, raises exception message)

  -- A call of a function that changes nothing.
  unfoldable pub lift : {A : Type 0} → Result A → Action W A
  lift r w = (w, ending_of r)

  unfoldable pub assign : (W → W) → Action W (Unit {0})
  assign f w = (f w, gives tt)

  abbrev pub continue : {A B : Type 0} → W × Ending A → (A → Action W B) → W × Ending B
  continue (w, gives a) f = f a w
  continue (w, raises kind message) f = (w, raises kind message)

  infixl 5 ◌>>=◌ ◌>>◌
  -- Opening this opens `pure`, `raise`, `lift` and `assign` too.
  unfoldable pub ◌>>=◌ : {A B : Type 0} → Action W A → (A → Action W B) → Action W B
  unfolding pure raise lift assign
  ◌>>=◌ m f w = continue (m w) f

  abbrev pub ◌>>◌ : {B : Type 0} → Action W (Unit {0}) → Action W B → Action W B
  m >> k = m >>= λ _. k

  chain_case :
      {A B : Type 0} (step : W × Ending A) (f : A → Action W B) {b : B}
      → (continue step f).1 ≡ gives b
      → (a : A) × (step.1 ≡ gives a) × (continue step f ≡ f a step.0)
  chain_case (w', gives a) f h = (a, refl, refl)
  chain_case (w', raises kind message) f h = cc

  -- A chain that returned had a first step that returned, and went on from where that ended.
  pub chain-ok :
      {A B : Type 0} (m : Action W A) (f : A → Action W B) (w : W) {b : B}
      → ((m >>= f) w).1 ≡ gives b
      → (a : A) × ((m w).1 ≡ gives a) × ((m >>= f) w ≡ f a (m w).0)
  unfolding ◌>>=◌
  chain-ok m f w h = chain_case (m w) f h

-- What is left of a protocol when a program has returned: nothing.
abbrev pub Ended : {C A : Type 0} → List C → Ending A → Type 0
Ended left (gives a) = left ≡ []
Ended left (raises kind message) = Unit {0}

module _ {W C : Type 0} (log : W → List C) where
  -- From a log on, part of the protocol was added: all of it if the program returned.
  abbrev pub Emitted : {A : Type 0} → List C → List C → W × Ending A → Type 0
  Emitted calls before (w, r) =
      (done : List C) × (left : List C) × (log w ≡ before ++ done)
      × (calls ≡ done ++ left)
      × Ended left r

  pub record Emits {A : Type 0} (calls : List C) (m : Action W A) : Type 0 where
    pub emitted : (w : W) → Emitted calls (log w) (m w)

  lift_case : {A : Type 0} (w : W) (r : Result A) → Emitted [] (log w) (w, ending_of r)
  lift_case w (ok a) = ([], [], sym (append-nil (log w)), refl, refl)
  lift_case w (refused message) = ([], [], sym (append-nil (log w)), refl, tt)

  bind_case :
      {A B : Type 0} (calls others before : List C) (step : W × Ending A) (f : A → Action W B)
      → Emitted calls before step
      → ((a : A) → Emits others (f a))
      → Emitted (calls ++ others) before (continue step f)
  bind_case calls others before (w', gives a) f (done, left, grown, split, ended) g =
      let (done2, left2, grown2, split2, ended2) = (g a).emitted w' in
      let whole : calls ≡ done = split ∙ ap (λ l. done ++ l) ended ∙ append-nil done in
      (
        calls ++ done2,
        left2,
        grown2
            ∙ ap (λ l. l ++ done2) grown
            ∙ append_assoc before done done2
            ∙ ap (λ l. before ++ (l ++ done2)) (sym whole),
        ap (λ l. calls ++ l) split2 ∙ sym (append_assoc calls done2 left2),
        ended2,
      )
  bind_case calls others before (w', raises kind message) f (done, left, grown, split, ended) g =
      (done, left ++ others, grown, ap (λ l. l ++ others) split ∙ append_assoc done left others, tt)

  -- One program after another.
  pub Emits-bind :
      {A B : Type 0} (calls others : List C) (m : Action W A) (f : A → Action W B)
      → Emits calls m
      → ((a : A) → Emits others (f a))
      → Emits (calls ++ others) (m >>= f)
  unfolding ◌>>=◌
  Emits-bind calls others m f h g = record {
    emitted = λ w. bind_case calls others (log w) (m w) f (h.emitted w) g;
  }

  -- A step that calls nothing, at the end of a program and within it.
  pub Emits-pure : {A : Type 0} (a : A) → Emits [] (pure a)
  unfolding pure
  Emits-pure a = record { emitted = λ w. lift_case w (ok a) }

  pub Emits-lift : {A : Type 0} (r : Result A) → Emits [] (lift r)
  unfolding lift
  Emits-lift r = record { emitted = λ w. lift_case w r }

  pub Emits-assign : (f : W → W) → ((w : W) → log (f w) ≡ log w) → Emits [] (assign f)
  unfolding assign
  Emits-assign f same = record {
    emitted = λ w. ([], [], same w ∙ sym (append-nil (log w)), refl, refl);
  }

  pub after_lift :
      {A B : Type 0} (r : Result A) (calls : List C) (k : A → Action W B)
      → ((a : A) → Emits calls (k a))
      → Emits calls (lift r >>= k)
  after_lift r calls k h = Emits-bind [] calls (lift r) k (Emits-lift r) h

  pub after_assign :
      {B : Type 0} (f : W → W) (calls : List C) (k : Unit {0} → Action W B)
      → ((w : W) → log (f w) ≡ log w)
      → ((u : Unit {0}) → Emits calls (k u))
      → Emits calls (assign f >>= k)
  after_assign f calls k same h = Emits-bind [] calls (assign f) k (Emits-assign f same) h

  -- A step that makes one call.
  pub after_call :
      {A B : Type 0} (c : C) (calls : List C) (m : Action W A) (k : A → Action W B)
      → Emits (c ∷ []) m
      → ((a : A) → Emits calls (k a))
      → Emits (c ∷ calls) (m >>= k)
  after_call c calls m k first h = Emits-bind (c ∷ []) calls m k first h

module _ {W : Type 0} where
  -- Whenever the program returns, its end and its value are so related.
  pub record Returns {A : Type 0} (P : W → A → Type 0) (m : Action W A) : Type 0 where
    pub returned : (w : W) (a : A) → (m w).1 ≡ gives a → P (m w).0 a

  returns_case :
      {A B : Type 0} (Q : W → A → Type 0) (P : W → B → Type 0) (step : W × Ending A)
      (f : A → Action W B)
      → ((a : A) → step.1 ≡ gives a → Q step.0 a)
      → ((a : A) (w : W) → Q w a → Returns P (f a))
      → (b : B) → (continue step f).1 ≡ gives b
      → P (continue step f).0 b
  returns_case Q P (w, gives a) f first next b h = (next a w (first a refl)).returned w b h
  returns_case Q P (w, raises kind message) f first next b h = cc

  -- What the first program returned with holds while the second runs.
  pub Returns-bind :
      {A B : Type 0} (Q : W → A → Type 0) (P : W → B → Type 0) (m : Action W A) (f : A → Action W B)
      → Returns Q m
      → ((a : A) (w : W) → Q w a → Returns P (f a))
      → Returns P (m >>= f)
  unfolding ◌>>=◌
  Returns-bind Q P m f h next = record {
    returned = λ w b e. returns_case Q P (m w) f (h.returned w) next b e;
  }

  -- A program of which only the rest is looked at.
  pub Returns-then :
      {A B : Type 0} (P : W → B → Type 0) (m : Action W A) (f : A → Action W B)
      → ((a : A) → Returns P (f a))
      → Returns P (m >>= f)
  Returns-then P m f next =
      Returns-bind (λ _ _. Unit {0}) P m f (record { returned = λ w a e. tt }) λ a w u. next a

  -- A test that was passed.
  pub Returns-lift :
      {A B : Type 0} (P : W → B → Type 0) (r : Result A) (f : A → Action W B)
      → ((a : A) → r ≡ ok a → Returns P (f a))
      → Returns P (lift r >>= f)
  unfolding lift
  Returns-lift P r f next =
      Returns-bind (λ _ a. r ≡ ok a) P (lift r) f (record { returned = λ w a e. ending_of-ok r e })
        λ a w e. next a e

  -- How a program ends.
  pub Returns-pure :
      {A : Type 0} (P : W → A → Type 0) (a : A) → ((w : W) → P w a) → Returns P (pure a)
  unfolding pure
  Returns-pure P a h = record { returned = λ w b e. subst (P w) (gives_injective e) (h w) }

  pub Returns-last :
      {A : Type 0} (P : W → A → Type 0) (f : W → W) (a : A)
      → ((w : W) → P (f w) a)
      → Returns P (assign f >> pure a)
  unfolding ◌>>=◌
  Returns-last P f a h = record { returned = λ w b e. subst (P (f w)) (gives_injective e) (h w) }
