-- ===== src/Policy/Protocol.antt =====
-- `parse_protocol_v3`: the hook's byte stream to a list of package actions. The configuration
-- dict that the source builds is never returned, so only the checks on its lines are kept.
pub mod Laws
pub mod RoundTrip
use proxmox_sharedlvmthin.Base.{
  ℕ, suc, ◌*◌, String, Bool, true, false, not, ◌&&◌, ◌||◌, Option, none, some, List, [], ◌∷◌, ◌++◌,
  length, contains, split_once, split_max, split_lines_after, split_lines, str_eq, starts_with, ltb,
  if◌then◌else◌, Result, ok, refused, ◌>>=◌, ◌>>◌, refuse_if, is_empty,
}
use proxmox_sharedlvmthin.Policy.Data.{Action, is_package, is_version, is_arch}

abbrev pub max_protocol_bytes : ℕ
max_protocol_bytes = 16 * 1024 * 1024

abbrev pub max_actions : ℕ
max_actions = 4096

-- `lines.index("", 1)` on the lines after the first: what is before the blank line, and after.
unfoldable pub split_at_blank : List String → Option (List String × List String)
split_at_blank [] = none
split_at_blank (l ∷ ls) =
    let rest = split_at_blank ls in
    if str_eq l "" then some ([], ls) else elim rest [ none ↦ none | some (a, b) ↦ some (l ∷ a, b) ]

unfoldable pub check_config_line : String → Result (Unit {0})
check_config_line line = elim (split_once b'=' line) [
  | none ↦ refused "malformed APT configuration line"
  | some (key, value) ↦ refuse_if (str_eq key "") "empty APT configuration key"
]

unfoldable pub check_config : List String → Result (Unit {0})
check_config [] = ok tt
check_config (l ∷ ls) = do check_config_line l; check_config ls

unfoldable pub unsafe_version : String → Bool
unsafe_version v = not (str_eq v "-") && not (is_version v)

abbrev pub multiarch : List String
multiarch = "-" ∷ "same" ∷ "foreign" ∷ "allowed" ∷ "none" ∷ "no" ∷ []

unfoldable pub is_multiarch : String → Bool
is_multiarch m = contains multiarch m

unfoldable pub is_direction : String → Bool
is_direction d = contains ("<" ∷ ">" ∷ "=" ∷ []) d

unfoldable pub is_operation : String → Bool
is_operation act = contains ("**CONFIGURE**" ∷ "**REMOVE**" ∷ []) act || starts_with act "/"

-- The checks on one row, in the order of the source.
unfoldable pub check_action : Action → Result (Unit {0})
check_action a = do
  refuse_if (not (is_package a.package_name)) "unsafe APT package name"
  refuse_if (unsafe_version a.old_version) "unsafe old package version"
  refuse_if (unsafe_version a.new_version) "unsafe new package version"
  refuse_if (not (is_arch a.old_arch) || not (is_arch a.new_arch)) "unsafe package architecture"
  refuse_if
      (not (is_multiarch a.old_multiarch)
        || not (is_multiarch a.new_multiarch)
        || not (is_direction a.direction))
      "invalid APT package action metadata"
  refuse_if (not (is_operation a.action)) "APT package payload path must be absolute"

unfoldable pub action_of_fields : List String → Result Action
action_of_fields (p ∷ ov ∷ oa ∷ om ∷ d ∷ nv ∷ na ∷ nm ∷ act ∷ []) = ok (record {
  package_name = p;
  old_version = ov;
  old_arch = oa;
  old_multiarch = om;
  direction = d;
  new_version = nv;
  new_arch = na;
  new_multiarch = nm;
  action = act;
})
action_of_fields _ = refused "malformed APT package action"

unfoldable pub parse_action : String → Result Action
parse_action line = do a ← action_of_fields (split_max b' ' 8 line); check_action a; ok a

-- The loop over the package lines; `actions` is the list built so far.
unfoldable pub parse_actions : List Action → List String → Result (List Action)
parse_actions actions [] = ok actions
parse_actions actions (line ∷ lines) =
    let skip = parse_actions actions lines in
    let take = do
      a ← parse_action line
      refuse_if (ltb max_actions (length (actions ++ a ∷ []))) "APT hook action count exceeds limit"
      parse_actions (actions ++ a ∷ []) lines
    in if str_eq line "" then skip else take

unfoldable pub parse_lines : List String → Result (List Action)
parse_lines [] = refused "APT hook protocol v3 is required"
parse_lines (first ∷ lines) = do
  refuse_if (not (str_eq first "VERSION 3")) "APT hook protocol v3 is required"
  elim (split_at_blank lines) [
    | none ↦ refused "APT hook protocol has no configuration terminator"
    | some (config, rows) ↦ do check_config config; parse_actions [] rows
  ]

-- Strict UTF-8 decoding is the parameter: bytes to a text, or an error.
module _ (decode : List ℕ → Option String) where
  unfoldable pub parse_protocol_v3 : List ℕ → Result (List Action)
  parse_protocol_v3 raw = do
    refuse_if (ltb max_protocol_bytes (length raw)) "APT hook protocol exceeds size limit"
    elim (decode raw) [
      | none ↦ refused "APT hook protocol is not UTF-8"
      | some text ↦ parse_lines (split_lines text)
    ]
