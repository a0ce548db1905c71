-- ===== src/Policy/Data.antt =====
-- usr/libexec/pve-sharedlvmthin/sharedlvmthin_update_policy.py: the data of the APT guard's policy.
-- The JSON values of the catalogue are typed; an absent list is the empty one, and an absent text
-- that is only compared with nonempty texts is the empty one.
use proxmox_sharedlvmthin.Base.{
  ℕ, String, Bool, ◌&&◌, ◌||◌, Option, none, some, List, [], ◌∷◌, codes, split_once,
  matches_head_tail, is_lower_alnum, is_alnum, only, str_eq, if◌then◌else◌,
}

-- A row of the hook protocol, version 3. `action` is a payload path, `**CONFIGURE**` or `**REMOVE**`.
pub record Action : Type 0 where
  pub package_name : String
  pub old_version : String
  pub old_arch : String
  pub old_multiarch : String
  pub direction : String
  pub new_version : String
  pub new_arch : String
  pub new_multiarch : String
  pub action : String

-- A compatibility tuple of the catalogue.
pub record Row : Type 0 where
  pub id : String
  pub api : ℕ
  pub running_kernel : String
  pub status : String
  pub required_tests : List String
  pub profiles : List String
  pub scopes : List String
  pub plugin_versions : List String
  pub packages : List (String × String)

pub record ApiTransition : Type 0 where
  pub from_api : ℕ
  pub to_api : ℕ
  pub package_name : String
  pub old_version : Option String
  pub new_version : Option String

-- A rolling edge between two tuples.
pub record Edge : Type 0 where
  pub id : Option String
  pub source : String
  pub target : String
  pub status : String
  pub required_tests : List String
  pub api_transition : Option ApiTransition
  pub allowed_package_changes : List String

pub record IncompatibleRule : Type 0 where
  pub storage_min : String
  pub qemu_max_exclusive : String
  pub reason : String

pub record Manifest : Type 0 where
  pub watched_packages : List String
  pub watched_package_patterns : List String
  pub tuples : List Row
  pub rolling_edges : List Edge
  pub known_incompatible : List IncompatibleRule

pub record Policy : Type 0 where
  pub mode : String
  pub required_scope : Option String

-- What is installed and running on the node.
pub record Context : Type 0 where
  pub installed : List (String × String)
  pub profile : String
  pub api : ℕ
  pub running_kernel : String
  pub plugin_version : String

-- A dict from package to version, read by `get`: a missing key and a stored `None` read alike.
abbrev pub Versions : Type 0
Versions = String → Option String

-- `rows.get(name)` on the items of a dict.
unfoldable pub version_of : List (String × String) → Versions
version_of [] name = none
version_of ((k, v) ∷ rows) name = if str_eq k name then some v else version_of rows name

-- PACKAGE_RE, VERSION_RE and ARCH_RE under `fullmatch`. The first class of PACKAGE_RE has no colon,
-- so a colon starts the architecture.
abbrev pub is_name : String → Bool
is_name s =
    matches_head_tail is_lower_alnum
      (λ c. is_lower_alnum c || only b'+' c || only b'.' c || only b'-' c) (codes s)

abbrev pub is_arch_name : String → Bool
is_arch_name s = matches_head_tail is_lower_alnum (λ c. is_lower_alnum c || only b'-' c) (codes s)

unfoldable pub is_package : String → Bool
unfolding split_once
is_package s = elim (split_once b':' s) [
  | none ↦ is_name s
  | some (name, arch) ↦ is_name name && is_arch_name arch
]

abbrev pub is_version_char : ℕ → Bool
is_version_char c =
    is_alnum c
    || only b'.' c
    || only b'+' c
    || only b':' c
    || only b'~' c
    || only b'_' c
    || only b'-' c

unfoldable pub is_version : String → Bool
is_version s = matches_head_tail is_version_char is_version_char (codes s)

unfoldable pub is_arch : String → Bool
is_arch s = str_eq s "-" || is_arch_name s

-- `name.split(":", 1)[0]`
unfoldable pub base_package : String → String
unfolding split_once
base_package name = elim (split_once b':' name) [ none ↦ name | some (a, _) ↦ a ]
