-- ===== src/Base/Json.antt =====
-- Python values as `json` reads them, without floats, and what the sources do with them: lookups, tests of the type,
-- and `==`. A dict is the list of its items, and the first item of a key counts.
pub mod Laws
use Prim.Native.Nat.{ℕ, zero, suc}
use Prim.Native.String.{String}
use mathlib.Core.Bool.{Bool, true, false, not, ◌&&◌, ◌||◌}
use mathlib.Core.Path.{◌≡◌, refl, ap}
use mathlib.Core.List.{List, [], ◌∷◌, map}
use native.Mathlib.Omega.{arith}
use text.Mathlib.Text.{◌==◌ as str_eq}
use text.Mathlib.TextEquality.{eq_iff}
use proxmox_sharedlvmthin.Base.Tests.{◌==◌, if◌then◌else◌}
use proxmox_sharedlvmthin.Base.Lists.{all, any}
use proxmox_sharedlvmthin.Base.Text.{contains}
use proxmox_sharedlvmthin.Base.Results.{Result, ok, refused}
use proxmox_sharedlvmthin.Base.Int.{ℤ, pos, pos_part, leb_ℤ, eq_ℤ}

mutual
  pub data Value : Type 0 where
    null : Value
    flag : Bool → Value
    int : ℤ → Value
    str : String → Value
    blob : List ℕ → Value
    array : Items → Value
    dict : Entries → Value

  pub data Items : Type 0 where
    nil : Items
    cons : Value → Items → Items

  pub data Entries : Type 0 where
    close : Entries
    entry : String → Value → Entries → Entries

abbrev pub find : String → Entries → Value
find key close = null
find key (entry k v rest) = if str_eq k key then v else find key rest

abbrev pub keys_of : Entries → List String
keys_of close = []
keys_of (entry k v rest) = k ∷ keys_of rest

abbrev pub list_of : Items → List Value
list_of nil = []
list_of (cons v rest) = v ∷ list_of rest

-- `value[key]` of a dict that has the key, and `value.get(key)`.
unfoldable pub get : String → Value → Value
get key (dict fs) = find key fs
get key _ = null

-- `isinstance(value, dict) and set(value) == set(names)`
unfoldable pub has_exactly : List String → Value → Bool
has_exactly names (dict fs) = all (contains names) (keys_of fs) && all (contains (keys_of fs)) names
has_exactly names _ = false

-- `isinstance(value, str) and pattern.fullmatch(value)`
unfoldable pub is_match : (String → Bool) → Value → Bool
is_match pattern_ (str s) = pattern_ s
is_match pattern_ _ = false

abbrev pub is_any : String → Bool
is_any s = true

abbrev pub is_nonempty : String → Bool
is_nonempty s = not (str_eq s "")

-- `type(value) is int and value >= minimum`
unfoldable pub is_int_from : ℤ → Value → Bool
is_int_from minimum (int n) = leb_ℤ minimum n
is_int_from minimum _ = false

unfoldable pub is_int : Value → Bool
is_int (int n) = true
is_int _ = false

unfoldable pub is_flag : Value → Bool
is_flag (flag b) = true
is_flag _ = false

-- `value is True`, `value is False`, `value is None`
unfoldable pub is_true : Value → Bool
is_true (flag b) = b
is_true _ = false

unfoldable pub is_false : Value → Bool
is_false (flag b) = not b
is_false _ = false

unfoldable pub is_null : Value → Bool
is_null null = true
is_null _ = false

unfoldable pub is_array : Value → Bool
is_array (array xs) = true
is_array _ = false

unfoldable pub is_dict : Value → Bool
is_dict (dict fs) = true
is_dict _ = false

-- The items of a list; no other value is asked for them.
unfoldable pub items : Value → List Value
items (array xs) = list_of xs
items _ = []

abbrev pub of_bool : Bool → ℤ
of_bool true = pos 1
of_bool false = pos 0

abbrev pub same_bytes : List ℕ → List ℕ → Bool
same_bytes [] [] = true
same_bytes (x ∷ xs) (y ∷ ys) = x == y && same_bytes xs ys
same_bytes _ _ = false

-- `==`. A `bool` is a number, and dicts are equal when each has the other's items.
unfoldable mutual
  pub equals : Value → Value → Bool
  equals null null = true
  equals (flag a) (flag b) = eq_ℤ (of_bool a) (of_bool b)
  equals (flag a) (int b) = eq_ℤ (of_bool a) b
  equals (int a) (flag b) = eq_ℤ a (of_bool b)
  equals (int a) (int b) = eq_ℤ a b
  equals (str a) (str b) = str_eq a b
  equals (blob a) (blob b) = same_bytes a b
  equals (array xs) (array ys) = equal_items xs ys
  equals (dict fs) (dict gs) =
      equal_entries fs gs
      && all (contains (keys_of fs)) (keys_of gs)
      && all (contains (keys_of gs)) (keys_of fs)
  equals _ _ = false

  pub equal_items : Items → Items → Bool
  equal_items nil nil = true
  equal_items (cons v xs) (cons w ys) = equals v w && equal_items xs ys
  equal_items _ _ = false

  -- Each item of the first has its value in the second.
  pub equal_entries : Entries → Entries → Bool
  equal_entries close gs = true
  equal_entries (entry k v rest) gs = equals v (find k gs) && equal_entries rest gs

-- `value == "s"`
abbrev pub is_text : String → Value → Bool
is_text s v = equals v (str s)

-- `value in ("s", ...)`
abbrev pub is_one_of : List String → Value → Bool
is_one_of xs v = is_match (contains xs) v

-- The text of a value that was tested to be one.
abbrev pub text_of : Value → String
text_of (str s) = s
text_of _ = ""

-- An `int` that was tested to be at least 0.
abbrev pub number_of : Value → ℕ
number_of (int n) = pos_part n
number_of _ = 0

-- `value in {"s", ...}`, a set: lists and dicts have no hash.
unfoldable pub in_set : List String → Value → Result Bool
in_set names (str s) = ok (contains names s)
in_set names (array xs) = refused "unhashable type: 'list'"
in_set names (dict fs) = refused "unhashable type: 'dict'"
in_set names _ = ok false

pub str-eq : (s : String) (v : Value) → equals v (str s) ≡ true → v ≡ str s
unfolding equals
str-eq s null h = cc
str-eq s (flag b) h = cc
str-eq s (int n) h = cc
str-eq s (str t) h = ap str ((eq_iff t s).0 h)
str-eq s (blob b) h = cc
str-eq s (array xs) h = cc
str-eq s (dict fs) h = cc
