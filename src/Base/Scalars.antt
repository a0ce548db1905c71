-- ===== src/Base/Scalars.antt =====
-- Values that reach the sources from outside, before their types are checked.
use Prim.Native.String.{String}
use mathlib.Core.Bool.{Bool, true, false, not}
use text.Mathlib.Text.{◌==◌ as str_eq}
use proxmox_sharedlvmthin.Base.Int.{ℤ, leb_ℤ, eq_ℤ}
use proxmox_sharedlvmthin.Base.Results.{Result, ok, refused, refuse_if}

-- `None`, an `int` that is no `bool`, a `str`, or a value of another type.
pub data Scalar : Type 0 where
  null : Scalar
  int : ℤ → Scalar
  str : String → Scalar
  other : Scalar

-- A dict with exactly the expected keys, or anything else.
pub data Exact {ℓ} (A : Type ℓ) : Type ℓ where
  fields : A → Exact A
  malformed : Exact A

-- `==` where one side is known to be an `int` or a `str`.
abbrev pub same : Scalar → Scalar → Bool
same null null = true
same (int a) (int b) = eq_ℤ a b
same (str s) (str t) = str_eq s t
same _ _ = false

abbrev pub is_null : Scalar → Bool
is_null null = true
is_null _ = false

-- `type(value) is int and value >= minimum`
abbrev pub is_int_from : ℤ → Scalar → Bool
is_int_from minimum (int a) = leb_ℤ minimum a
is_int_from minimum _ = false

abbrev pub is_int : Scalar → Bool
is_int (int a) = true
is_int _ = false

-- `if not PATTERN.fullmatch(value): raise`: matching what is no text raises a TypeError.
abbrev pub check_pattern : (String → Bool) → String → Scalar → Result (Unit {0})
check_pattern matches m (str s) = refuse_if (not (matches s)) m
check_pattern matches m _ = refused "TypeError: expected string or bytes-like object"

-- `PATTERN.fullmatch(value)` on its own.
abbrev pub fullmatch : (String → Bool) → Scalar → Result Bool
fullmatch matches (str s) = ok (matches s)
fullmatch matches _ = refused "TypeError: expected string or bytes-like object"
