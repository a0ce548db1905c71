-- ===== src/LazyGuard/Fixture.antt =====
-- `validate_fixture` and the functions below it.
use proxmox_sharedlvmthin.Base.{
  ℕ, String, Bool, true, false, not, ◌&&◌, ◌||◌, ◌==◌, none, some, List, [], ◌∷◌, ◌++◌, ◌<>◌, any,
  all, Result, ◌>>◌, codes, split_once, is_digit, matches_head_tail, leb, is_hex32, is_boot_id,
}
use proxmox_sharedlvmthin.Base.Int.{pos}
use proxmox_sharedlvmthin.Base.Checks.{◌//◌, requires}
use proxmox_sharedlvmthin.Base.Json.{
  Value, int, str, array, nil, cons, get, has_exactly, is_match, is_any, is_int, is_int_from,
  is_flag, is_true, is_false, is_array, is_text, text_of, is_one_of, items, equals,
}

-- `0|[1-9][0-9]*`
unfoldable pub is_decimal : String → Bool
is_decimal s =
    matches_head_tail (λ c. c == b'0') (λ c. false) (codes s)
    || matches_head_tail (λ c. leb b'1' c && leb c b'9') is_digit (codes s)

unfoldable pub is_devno : String → Bool
unfolding split_once
is_devno s = elim (split_once b':' s) [
  | none ↦ false
  | some (major, minor) ↦ is_decimal major && is_decimal minor
]

-- `type(value) is int and value == n`
unfoldable pub is_number : ℕ → Value → Bool
is_number n v = is_int v && equals v (int (pos n))

-- `len(values) == len(set(values))`
unfoldable pub are_distinct : List Value → Bool
are_distinct [] = true
are_distinct (v ∷ vs) = not (any (λ w. equals v w) vs) && are_distinct vs

abbrev pub is_string : Value → Bool
is_string v = is_match is_any v

abbrev pub singleton : Value → Value
singleton v = array (cons v nil)

abbrev pub loop_checks : String → ℕ → Value → List (Bool × String)
loop_checks role size v =
    (has_exactly
        ("kind" ∷ "role" ∷ "devno" ∷ "diskseq" ∷ "size_bytes" ∷ "backing_dev" ∷ "backing_inode"
          ∷ "offset" ∷ "sizelimit" ∷ "readonly" ∷ "holders" ∷ [])
        v
      // role <> " schema")
    ∷ (is_text "loop" (get "kind" v) && is_text role (get "role" v) // role <> " role")
    ∷ (is_match is_devno (get "devno" v) && is_int_from (pos 1) (get "diskseq" v)
        // role <> " identity")
    ∷ (is_number size (get "size_bytes" v) && is_false (get "readonly" v) // role <> " geometry")
    ∷ (is_int_from (pos 1) (get "backing_dev" v) && is_int_from (pos 1) (get "backing_inode" v)
        // role <> " backing")
    ∷ (is_number 0 (get "offset" v) && is_number 0 (get "sizelimit" v) // role <> " mapping")
    ∷ (is_array (get "holders" v)
          && all is_string (items (get "holders" v))
          && are_distinct (items (get "holders" v))
        // role <> " holders")
    ∷ []

abbrev pub dm_checks : String → Value → List (Bool × String)
dm_checks role v =
    (has_exactly
        ("kind" ∷ "role" ∷ "devno" ∷ "diskseq" ∷ "size_bytes" ∷ "name" ∷ "uuid" ∷ "table"
          ∷ "readonly" ∷ "suspended" ∷ "open_count" ∷ "holders" ∷ "dependencies" ∷ [])
        v
      // role <> " schema")
    ∷ (is_text "dm" (get "kind" v) && is_text role (get "role" v) // role <> " role")
    ∷ (is_match is_devno (get "devno" v) && is_int_from (pos 1) (get "diskseq" v)
        // role <> " identity")
    ∷ (is_number 134217728 (get "size_bytes" v) // role <> " geometry")
    ∷ (is_string (get "name" v) && is_string (get "uuid" v) // role <> " naming")
    ∷ (is_string (get "table" v)
          && is_flag (get "readonly" v)
          && is_flag (get "suspended" v)
          && is_int_from (pos 0) (get "open_count" v)
        // role <> " state")
    ∷ (is_array (get "holders" v)
          && is_array (get "dependencies" v)
          && all is_string (items (get "holders" v) ++ items (get "dependencies" v))
          && are_distinct (items (get "holders" v))
        // role <> " graph")
    ∷ []

abbrev pub role : String → Value → Value
role name fixture = get name (get "roles" fixture)

abbrev pub head_checks : Value → List (Bool × String)
head_checks v =
    (has_exactly ("schema" ∷ "nonce" ∷ "boot_id" ∷ "purpose" ∷ "region_sectors" ∷ "roles" ∷ []) v
      // "fixture schema")
    ∷ (is_number 1 (get "schema" v) && is_match is_hex32 (get "nonce" v) // "fixture identity")
    ∷ (is_match is_boot_id (get "boot_id" v) // "boot identity")
    ∷ (is_one_of ("GUARDED" ∷ "NEGATIVE_L2" ∷ []) (get "purpose" v) // "fixture purpose")
    ∷ (is_number 2048 (get "region_sectors" v) // "region geometry")
    ∷ (has_exactly ("data" ∷ "metadata" ∷ "zero" ∷ "clone" ∷ []) (get "roles" v) // "role set")
    ∷ []

-- The devices are four, and the two loop devices have two backing files.
unfoldable pub same_backing : Value → Value → Bool
same_backing a b =
    equals (get "backing_dev" a) (get "backing_dev" b)
    && equals (get "backing_inode" a) (get "backing_inode" b)

unfoldable pub is_named : String → String → Value → Value → Bool
is_named name uuid nonce v =
    equals (get "name" v) (str (name <> text_of nonce))
    && equals (get "uuid" v) (str (uuid <> text_of nonce))

-- `expected`, the table of the clone.
unfoldable pub clone_table : Value → String
clone_table v =
    "0 262144 clone "
    <> (text_of (get "devno" (role "metadata" v))
        <> (" "
            <> (text_of (get "devno" (role "data" v))
                <> (" "
                    <> (text_of (get "devno" (role "zero" v))
                        <> " 2048 2 no_hydration no_discard_passdown")))))

unfoldable pub is_zero_target : Value → Bool
is_zero_target zero_ =
    is_text "0 262144 zero" (get "table" zero_)
    && is_true (get "readonly" zero_)
    && is_false (get "suspended" zero_)
    && equals (get "open_count" zero_) (int (pos 0))
    && equals (get "dependencies" zero_) (array nil)

unfoldable pub is_clone_target : Value → Bool
is_clone_target v =
    is_text (clone_table v) (get "table" (role "clone" v))
    && is_false (get "readonly" (role "clone" v))
    && is_false (get "suspended" (role "clone" v))
    && equals (get "open_count" (role "clone" v)) (int (pos 0))

unfoldable pub is_holder_graph : Value → Bool
is_holder_graph v =
    let held = singleton (get "devno" (role "clone" v)) in
    equals (get "holders" (role "clone" v)) (array nil)
    && equals (get "holders" (role "data" v)) held
    && equals (get "holders" (role "metadata" v)) held
    && equals (get "holders" (role "zero" v)) held

abbrev pub graph_checks : Value → List (Bool × String)
graph_checks v =
    (are_distinct (
        get "devno" (role "data" v)
        ∷ get "devno" (role "metadata" v)
        ∷ get "devno" (role "zero" v)
        ∷ get "devno" (role "clone" v)
        ∷ [])
      // "role devnos alias")
    ∷ (not (same_backing (role "data" v) (role "metadata" v)) // "loop backing alias")
    ∷ (is_named "slt-lazy-zero-" "SLT-LAZY-ZERO-" (get "nonce" v) (role "zero" v) // "zero naming")
    ∷ (is_named "slt-lazy-clone-" "SLT-LAZY-CLONE-" (get "nonce" v) (role "clone" v)
        // "clone naming")
    ∷ (is_zero_target (role "zero" v) // "zero target semantics")
    ∷ (is_clone_target v // "clone target semantics")
    ∷ (equals (get "dependencies" (role "clone" v)) (
          array (
            cons (get "devno" (role "data" v))
              (cons (get "devno" (role "metadata" v)) (cons (get "devno" (role "zero" v)) nil))))
        // "clone dependencies")
    ∷ (is_holder_graph v // "holder graph")
    ∷ []

unfoldable pub validate_fixture : Value → Result (Unit {0})
validate_fixture v = do
  requires (head_checks v)
  requires (loop_checks "data" 134217728 (role "data" v))
  requires (loop_checks "metadata" 33554432 (role "metadata" v))
  requires (dm_checks "zero" (role "zero" v))
  requires (dm_checks "clone" (role "clone" v))
  requires (graph_checks v)
