-- ===== src/Base/Checks.antt =====
-- A run of `require(test, message)` as the list of its tests in order: the first that fails raises.
use Prim.Native.String.{String}
use mathlib.Core.Path.{◌≡◌, refl}
use mathlib.Core.Bool.{Bool, true, false}
use mathlib.Core.List.{List, [], ◌∷◌}
use proxmox_sharedlvmthin.Base.Results.{Result, ok, refused}

infix 10 ◌//◌
-- `require(test, message)`, one of a run.
abbrev pub ◌//◌ : Bool → String → Bool × String
test // message = (test, message)

unfoldable pub requires : List (Bool × String) → Result (Unit {0})
requires [] = ok tt
requires ((test, message) ∷ rest) = elim test [ true ↦ requires rest | false ↦ refused message ]

abbrev pub Passed : List (Bool × String) → Type 0
Passed [] = Unit {0}
Passed ((test, message) ∷ rest) = (test ≡ true) × Passed rest

-- A run that returns passed each of its tests.
pub requires-Passed : (cs : List (Bool × String)) → requires cs ≡ ok tt → Passed cs
unfolding requires
requires-Passed [] h = tt
requires-Passed ((true, message) ∷ rest) h = (refl, requires-Passed rest h)
requires-Passed ((false, message) ∷ rest) h = cc

pub Passed-requires : (cs : List (Bool × String)) → Passed cs → requires cs ≡ ok tt
unfolding requires
Passed-requires [] p = refl
Passed-requires ((true, message) ∷ rest) p = Passed-requires rest p.1
Passed-requires ((false, message) ∷ rest) p = cc
