-- ===== src/Policy/Tuples.antt =====
-- The lookups in the catalogue: which compatibility tuple a set of package versions matches.
pub mod Laws
use proxmox_sharedlvmthin.Base.{
  ℕ, String, Bool, true, false, not, ◌&&◌, ◌||◌, ◌==◌, Option, none, some, List, [], ◌∷◌, ◌++◌, all,
  any, keep, is_empty, contains, codes, str_eq, split_once, if◌then◌else◌, Result, ok, refused,
  ◌>>=◌, ◌>>◌, refuse_if,
}
use proxmox_sharedlvmthin.Policy.Data.{
  Action, Row, Manifest, IncompatibleRule, Versions, version_of, base_package, is_package,
  is_version,
}

-- What a row is matched against, but for the API, which `planned_tuple` varies.
pub record Runtime : Type 0 where
  pub profile : String
  pub running_kernel : String
  pub plugin_version : String
  pub scope : String

-- `versions.get(name) == value`
abbrev pub has_version : Versions → String × String → Bool
has_version versions (name, value) = elim (versions name) [ none ↦ false | some v ↦ str_eq v value ]

-- `expected and all(versions.get(name) == value for name, value in expected.items())`
unfoldable pub packages_match : Versions → List (String × String) → Bool
packages_match versions expected = not (is_empty expected) && all (has_version versions) expected

abbrev pub qualified_statuses : List String
qualified_statuses = "QUALIFIED" ∷ "EXACT_LAB_TESTED" ∷ []

-- The tests that the loop of `exact_tuple` puts before `matches.append`.
unfoldable pub is_exact : ℕ → Runtime → Versions → Row → Bool
is_exact api r versions item =
    contains qualified_statuses item.status
    && is_empty item.required_tests
    && contains item.profiles r.profile
    && item.api == api
    && str_eq item.running_kernel r.running_kernel
    && contains item.scopes r.scope
    && contains item.plugin_versions r.plugin_version
    && packages_match versions item.packages

-- `if len(matches) > 1: raise`, else the match if there is one.
unfoldable pub at_most_one : String → List Row → Result (Option Row)
at_most_one m [] = ok none
at_most_one m (r ∷ []) = ok (some r)
at_most_one m (r ∷ s ∷ rows) = refused m

unfoldable pub exact_tuple : Manifest → Versions → ℕ → Runtime → Result (Option Row)
exact_tuple manifest versions api r =
    at_most_one "runtime matches multiple qualified compatibility tuples"
      (keep (is_exact api r versions) manifest.tuples)

abbrev to_list : Option Row → List Row
to_list none = []
to_list (some r) = r ∷ []

unfoldable pub planned_tuple : Manifest → Versions → Runtime → Result (Option Row)
planned_tuple manifest versions r = do
  a ← exact_tuple manifest versions 14 r
  b ← exact_tuple manifest versions 15 r
  c ← exact_tuple manifest versions 16 r
  at_most_one "candidate matches multiple qualified compatibility tuples"
      (to_list a ++ (to_list b ++ to_list c))

-- The tests of `observed_tuple`: identity without status, tests or scope.
unfoldable pub is_observed : ℕ → Runtime → Versions → Row → Bool
is_observed api r versions item =
    contains item.profiles r.profile
    && item.api == api
    && str_eq item.running_kernel r.running_kernel
    && contains item.plugin_versions r.plugin_version
    && packages_match versions item.packages

unfoldable pub observed_tuple : Manifest → Versions → ℕ → Runtime → Result (Option Row)
observed_tuple manifest versions api r =
    at_most_one "runtime matches multiple compatibility tuples"
      (keep (is_observed api r versions) manifest.tuples)

-- The loop `for action in actions` of `resulting_versions`.
unfoldable pub resulting_versions : Versions → List Action → Versions
resulting_versions versions [] = versions
resulting_versions versions (a ∷ actions) =
    resulting_versions
      (λ name.
        if str_eq name (base_package a.package_name)
        then (if str_eq a.action "**REMOVE**" || str_eq a.new_version "-"
            then none
            else some a.new_version)
        else versions name)
      actions

-- The version comparison (`dpkg --compare-versions`) is the parameter.
module _ (compare_versions : String → String → String → Bool) where
  first_incompatible : String → String → List IncompatibleRule → Option IncompatibleRule
  first_incompatible storage qemu [] = none
  first_incompatible storage qemu (rule ∷ rules) =
      if compare_versions storage "ge" rule.storage_min
        && compare_versions qemu "lt" rule.qemu_max_exclusive
      then some rule
      else first_incompatible storage qemu rules

  unfoldable pub known_incompatible : Manifest → Versions → Option IncompatibleRule
  unfolding first_incompatible
  known_incompatible manifest versions = elim (versions "libpve-storage-perl") [
    | none ↦ none
    | some storage ↦ elim (versions "qemu-server") [
      | none ↦ none
      | some qemu ↦
          if str_eq storage "" || str_eq qemu ""
          then none
          else first_incompatible storage qemu manifest.known_incompatible
    ]
  ]
