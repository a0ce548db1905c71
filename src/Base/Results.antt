-- ===== src/Base/Results.antt =====
-- A call that returns, or that raises with a message (`Refusal`, `ValueError`).
use Prim.Native.String.{String}
use mathlib.Core.Path.{◌≡◌, refl}
use mathlib.Core.Bool.{Bool, true, false}

pub data Result {ℓ} (A : Type ℓ) : Type ℓ where
  refused : String → Result A
  ok : A → Result A

module _ {ℓ κ} {A : Type ℓ} {B : Type κ} where
  infixl 5 ◌>>=◌
  abbrev pub ◌>>=◌ : Result A → (A → Result B) → Result B
  refused reason >>= next = refused reason
  ok value >>= next = next value

  -- A chain that returned had a first step that returned, and went on from its value.
  pub >>=-eq-ok :
      (first : Result A) (next : A → Result B) {b : B}
      → (first >>= next) ≡ ok b
      → (value : A) × (first ≡ ok value) × (next value ≡ ok b)
  >>=-eq-ok (refused reason) next h = cc
  >>=-eq-ok (ok value) next h = (value, refl, h)

module _ {ℓ} {B : Type ℓ} where
  infixl 5 ◌>>◌
  abbrev pub ◌>>◌ : Result (Unit {0}) → Result B → Result B
  check >> rest = check >>= λ _. rest

-- `require(value, message)`, and `if test: raise Refusal(message)`.
abbrev pub require : Bool → String → Result (Unit {0})
require false reason = refused reason
require true reason = ok tt

abbrev pub refuse_if : Bool → String → Result (Unit {0})
refuse_if false reason = ok tt
refuse_if true reason = refused reason

module _ {ℓ} {B : Type ℓ} where
  pub require-eq-ok :
      (test : Bool) (reason : String) (rest : Result B) {b : B}
      → (require test reason >> rest) ≡ ok b
      → (test ≡ true) × (rest ≡ ok b)
  require-eq-ok false reason rest h = cc
  require-eq-ok true reason rest h = (refl, h)

  pub refuse_if-eq-ok :
      (test : Bool) (reason : String) (rest : Result B) {b : B}
      → (refuse_if test reason >> rest) ≡ ok b
      → (test ≡ false) × (rest ≡ ok b)
  refuse_if-eq-ok false reason rest h = (refl, h)
  refuse_if-eq-ok true reason rest h = cc

pub ok_injective {ℓ} : {A : Type ℓ} {a b : A} → ok a ≡ ok b → a ≡ b
ok_injective h = cc
