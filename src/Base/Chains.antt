-- ===== src/Base/Chains.antt =====
-- Tests joined by `and`, of which one can raise, and Python's tests that do.
use Prim.Native.String.{String}
use mathlib.Core.Bool.{Bool, true, false, not}
use mathlib.Core.List.{List, [], ◌∷◌, map}
use proxmox_sharedlvmthin.Base.Tests.{if◌then◌else◌}
use proxmox_sharedlvmthin.Base.Lists.{all, is_empty}
use proxmox_sharedlvmthin.Base.Text.{same_texts, contains}
use proxmox_sharedlvmthin.Base.Sorted.{sorted_set}
use proxmox_sharedlvmthin.Base.Results.{Result, ok, refused, require, ◌>>=◌}
use proxmox_sharedlvmthin.Base.Int.{pos}
use proxmox_sharedlvmthin.Base.Json.{
  Value, null, flag, int, blob, dict, keys_of, equals, str, array, is_match, is_any, items, text_of,
}

abbrev pub type_error : String
type_error = "expected string or bytes-like object"

-- `PATTERN.fullmatch(value)`
unfoldable pub fullmatch : (String → Bool) → Value → Result Bool
fullmatch matches (str s) = ok (matches s)
fullmatch matches _ = refused type_error

-- Tests joined by `and`: the first that fails or raises decides.
unfoldable pub holds_all : List (Result Bool) → Result Bool
holds_all [] = ok true
holds_all (test ∷ rest) =
    let others = holds_all rest in
    elim test [ refused e ↦ refused e | ok b ↦ if b then others else ok false ]

-- `if not ...: raise ValueError(message)`
abbrev pub validate : List (Result Bool) → String → Result (Unit {0})
validate tests message = holds_all tests >>= λ b. require b message

-- `type(value) is list and value == sorted(set(value))`; of a list of other things than texts the
-- second test is the parameter: it can raise.
unfoldable pub is_sorted_list : (List Value → Result Bool) → Value → Result Bool
is_sorted_list is_sorted_set (array xs) =
    if all (is_match is_any) (items (array xs))
    then ok
        (same_texts (map text_of (items (array xs))) (sorted_set (map text_of (items (array xs)))))
    else is_sorted_set (items (array xs))
is_sorted_list is_sorted_set _ = ok false

-- `not value`
unfoldable pub is_falsy : Value → Bool
is_falsy null = true
is_falsy (flag b) = not b
is_falsy (int n) = equals (int n) (int (pos 0))
is_falsy (str s) = contains ("" ∷ []) s
is_falsy (blob bs) = is_empty bs
is_falsy (array xs) = is_empty (items (array xs))
is_falsy (dict fs) = is_empty (keys_of fs)

-- `PATTERN.fullmatch(value or "")`
unfoldable pub fullmatch_or : (String → Bool) → Value → Result Bool
fullmatch_or matches (str s) = ok (matches s)
fullmatch_or matches v = if is_falsy v then ok (matches "") else refused type_error
