-- ===== src/Base/Text.antt =====
-- Texts: tests on characters, and the regular expressions of the sources as executable matchers.
-- A fixed-length expression is a list of character classes, one for each position.
use Prim.Native.Nat.{ℕ, zero, suc}
use Prim.Native.Char.{Char, code}
use Prim.Native.String.{String}
use mathlib.Core.Bool.{Bool, true, false, not, ◌&&◌, ◌||◌}
use mathlib.Core.Option
use mathlib.Core.Option.{Option, none, some}
use text.Mathlib.Text.{◌==◌ as str_eq}
use mathlib.Core.List.{List, [], ◌∷◌, ◌++◌}
use proxmox_sharedlvmthin.Base.Tests.{leb, ◌==◌, if◌then◌else◌}
use proxmox_sharedlvmthin.Base.Lists.{length, replicate, all, any}

abbrev pub CharClass : Type 0
CharClass = ℕ → Bool

abbrev pub codes : String → List ℕ
codes String.[] = []
codes (String.◌∷◌ c s) = code c ∷ codes s

-- [0-9], [a-z], [A-Z]
abbrev pub is_digit : CharClass
is_digit c = leb b'0' c && leb c b'9'

abbrev pub is_lower : CharClass
is_lower c = leb b'a' c && leb c b'z'

abbrev pub is_upper : CharClass
is_upper c = leb b'A' c && leb c b'Z'

-- [0-9a-f]
abbrev pub is_hex : CharClass
is_hex c = is_digit c || leb b'a' c && leb c b'f'

-- [0-9A-Fa-f]
abbrev pub is_any_hex : CharClass
is_any_hex c = is_digit c || leb b'a' c && leb c b'f' || leb b'A' c && leb c b'F'

-- [A-Za-z0-9]
abbrev pub is_alnum : CharClass
is_alnum c = is_digit c || is_lower c || is_upper c

-- [a-z0-9]
abbrev pub is_lower_alnum : CharClass
is_lower_alnum c = is_digit c || is_lower c

abbrev pub only : ℕ → CharClass
only a c = c == a

abbrev pub matches_classes : List CharClass → List ℕ → Bool
matches_classes [] [] = true
matches_classes [] (c ∷ cs) = false
matches_classes (p ∷ ps) [] = false
matches_classes (p ∷ ps) (c ∷ cs) = p c && matches_classes ps cs

-- A head class followed by any number of a second one: `[H][T]*`.
abbrev pub matches_head_tail : CharClass → CharClass → List ℕ → Bool
matches_head_tail h t [] = false
matches_head_tail h t (c ∷ cs) = h c && all t cs

-- `[0-9a-f]{32}` and `[0-9a-f]{64}`
unfoldable pub is_hex32 : String → Bool
is_hex32 s = length (codes s) == 32 && all is_hex (codes s)

unfoldable pub is_hex64 : String → Bool
is_hex64 s = length (codes s) == 64 && all is_hex (codes s)

abbrev dash : List CharClass
dash = only b'-' ∷ []

-- `[0-9a-f]{8}(?:-[0-9a-f]{4}){3}-[0-9a-f]{12}`
unfoldable pub is_boot_id : String → Bool
is_boot_id s =
    matches_classes
      (replicate 8 is_hex
        ++ (dash
            ++ (replicate 4 is_hex
                ++ (dash
                    ++ (replicate 4 is_hex
                        ++ (dash ++ (replicate 4 is_hex ++ (dash ++ replicate 12 is_hex))))))))
      (codes s)

-- `[0-9a-f]{8}-[0-9a-f]{4}-[1-5][0-9a-f]{3}-[89ab][0-9a-f]{3}-[0-9a-f]{12}`
unfoldable pub is_uuid : String → Bool
is_uuid s =
    matches_classes
      (replicate 8 is_hex
        ++ (only b'-' ∷ replicate 4 is_hex
            ++ (only b'-' ∷ (λ c. leb b'1' c && leb c b'5') ∷ replicate 3 is_hex
                ++ (only b'-'
                      ∷ (λ c. c == b'8' || c == b'9' || c == b'a' || c == b'b')
                      ∷ replicate 3 is_hex
                    ++ (only b'-' ∷ replicate 12 is_hex)))))
      (codes s)

-- `==` of lists of texts.
abbrev pub same_texts : List String → List String → Bool
same_texts [] [] = true
same_texts (s ∷ ss) (t ∷ ts) = str_eq s t && same_texts ss ts
same_texts _ _ = false

-- `s in xs`, for a Python set, tuple or list of texts.
abbrev pub contains : List String → String → Bool
contains xs s = any (str_eq s) xs

abbrev is_name_char : CharClass
is_name_char c = is_alnum c || c == b'_' || c == b'.' || c == b'-'

-- `[A-Za-z0-9][A-Za-z0-9_.-]{0,63}`
unfoldable pub is_name : String → Bool
is_name s = matches_head_tail is_alnum is_name_char (codes s) && leb (length (codes s)) 64

-- The same without the bound: a node's name.
unfoldable pub is_node : String → Bool
is_node s = matches_head_tail is_alnum is_name_char (codes s)

abbrev group : List CharClass
group = only b'-' ∷ replicate 4 is_alnum

-- `[A-Za-z0-9]{6}(?:-[A-Za-z0-9]{4}){5}-[A-Za-z0-9]{6}`
unfoldable pub is_lvm_uuid : String → Bool
is_lvm_uuid s =
    matches_classes
      (replicate 6 is_alnum
        ++ (group
            ++ (group ++ (group ++ (group ++ (group ++ (only b'-' ∷ replicate 6 is_alnum)))))))
      (codes s)

-- `len(texts) == len(set(texts))`
unfoldable pub are_unique : List String → Bool
are_unique [] = true
are_unique (s ∷ ss) = not (contains ss s) && are_unique ss

-- `s.split(c, 1)` where `c` occurs.
unfoldable pub split_once : ℕ → String → Option (String × String)
split_once c String.[] = none
split_once c (String.◌∷◌ x s) =
    let rest = split_once c s in
    if code x == c then some (String.[], s) else Option.map (λ (a, b). (String.◌∷◌ x a, b)) rest

-- `s.split(c, n)`
unfoldable pub split_max : ℕ → ℕ → String → List String
unfolding split_once
split_max c zero s = s ∷ []
split_max c (suc n) s = elim (split_once c s) [ none ↦ s ∷ [] | some (a, b) ↦ a ∷ split_max c n b ]

-- The line boundaries of `str.splitlines`.
abbrev is_break : CharClass
is_break c = leb 10 c && leb c 13 || leb 28 c && leb c 30 || c == 133 || c == 8232 || c == 8233

abbrev cons_head : Char → List String → List String
cons_head x [] = String.◌∷◌ x String.[] ∷ []
cons_head x (l ∷ ls) = String.◌∷◌ x l ∷ ls

-- `s.splitlines()`, after a carriage return or not: a line feed that follows one ends no line.
unfoldable pub split_lines_after : Bool → String → List String
split_lines_after cr String.[] = []
split_lines_after cr (String.◌∷◌ x s) =
    let rest = split_lines_after (code x == 13) s in
    if cr && code x == 10
    then rest
    else if is_break (code x)
    then String.[] ∷ rest
    else cons_head x rest

abbrev pub split_lines : String → List String
split_lines s = split_lines_after false s
