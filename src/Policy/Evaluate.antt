-- ===== src/Policy/Evaluate.antt =====
-- `evaluate`: the verdict of the policy on a planned APT transaction, and the functions that it
-- calls on the actions.
pub mod Laws
pub mod Modes
pub mod Coverage
use Prim.Native.Nat.{Ordering}
use proxmox_sharedlvmthin.Base.{
  ℕ, ◌+◌, String, Bool, true, false, not, ◌&&◌, ◌||◌, ◌==◌, Option, none, some, List, [], ◌∷◌, ◌++◌,
  all, any, keep, map, is_empty, length, contains, str_eq, starts_with, split_once, if◌then◌else◌,
  Result, ok, refused, ◌>>=◌, ◌>>◌, refuse_if, sorted_set,
}
use proxmox_sharedlvmthin.Policy.Data.{
  Action, Row, ApiTransition, Edge, Manifest, IncompatibleRule, Policy, Context, Versions,
  version_of, base_package,
}
use proxmox_sharedlvmthin.Policy.Tuples.{
  Runtime, exact_tuple, planned_tuple, resulting_versions, known_incompatible, qualified_statuses,
}

pub data IdentityChange : Type 0 where
  architecture_change : (name old_arch new_arch : String) → IdentityChange
  multiarch_change : (name old_multiarch new_multiarch : String) → IdentityChange

unfoldable pub identity_change : Action → Option IdentityChange
identity_change a =
    if not (str_eq a.old_arch "-")
      && not (str_eq a.new_arch "-")
      && not (str_eq a.old_arch a.new_arch)
    then some (architecture_change a.package_name a.old_arch a.new_arch)
    else if not (str_eq a.old_multiarch "-")
        && not (str_eq a.new_multiarch "-")
        && not (str_eq a.old_multiarch a.new_multiarch)
    then some (multiarch_change a.package_name a.old_multiarch a.new_multiarch)
    else none

abbrev add : Option IdentityChange → List IdentityChange → List IdentityChange
add none refused_so_far = refused_so_far
add (some c) refused_so_far = c ∷ refused_so_far

unfoldable pub unsupported_identity_changes : List Action → List IdentityChange
unsupported_identity_changes [] = []
unsupported_identity_changes (a ∷ actions) =
    add (identity_change a) (unsupported_identity_changes actions)

-- The names of the verdict's constructors are the verdicts; the arguments are the other keys.
pub data Verdict : Type 0 where
  allow_unrelated : Verdict
  refuse_policy_unselected : Verdict
  require_exact_manual_authorization : Verdict
  refuse_freeze : Verdict
  refuse_unqualified_package_identity_change : (identity_changes : List IdentityChange) → Verdict
  refuse_known_incompatible : (reason : String) → Verdict
  refuse_unqualified : (current target : Option String) → Verdict
  refuse_unqualified_package_change : (packages : List String) (current target : String) → Verdict
  refuse_unqualified_edge : (current target : String) → Verdict
  refuse_unqualified_api_transition : (current target : String) → Verdict
  refuse_unsafe_edge_allowance : (packages : List String) (current target : String) → Verdict
  allow_qualified : (current target : String) → Verdict
  allow_qualified_edge :
      (current target : String) (edge : Option String) (source_api target_api : ℕ) → Verdict

pub record Outcome : Type 0 where
  pub verdict : Verdict
  pub relevant : List Action
  pub post_gate_required : Bool

abbrev pub refuse : List Action → Verdict → Result Outcome
refuse related v = ok (record { verdict = v; relevant = related; post_gate_required = false })

abbrev pub allow : List Action → Verdict → Result Outcome
allow related v = ok (record { verdict = v; relevant = related; post_gate_required = true })

abbrev pub storage_package : String
storage_package = "libpve-storage-perl"

-- `represented`, and the relevant packages that the target tuple does not name.
unfoldable pub is_represented : Row → String → Bool
is_represented target name = any (λ (k, v). str_eq k name) target.packages

unfoldable pub unrepresented : Row → List Action → List String
unfolding sorted_set
unrepresented target related = sorted_set (
    keep (λ name. not (is_represented target name))
      (map (λ a. base_package a.package_name) related))

-- The conditions of the comprehension over `rolling_edges`.
unfoldable pub is_edge : Row → Row → Edge → Bool
is_edge current target edge =
    str_eq edge.source current.id
    && str_eq edge.target target.id
    && contains qualified_statuses edge.status
    && is_empty edge.required_tests

abbrev pub same_option : Option String → Option String → Bool
same_option none none = true
same_option none (some t) = false
same_option (some s) none = false
same_option (some s) (some t) = str_eq s t

-- `edge.get("api_transition") == expected_transition`
unfoldable pub is_transition : Row → Row → Option ApiTransition → Bool
is_transition current target none = false
is_transition current target (some t) =
    t.from_api == current.api
    && t.to_api == target.api
    && str_eq t.package_name storage_package
    && same_option t.old_version (version_of current.packages storage_package)
    && same_option t.new_version (version_of target.packages storage_package)

-- The single storage action goes from the current tuple's version to the target's.
unfoldable pub moves_storage : Row → Row → List Action → Bool
moves_storage current target (a ∷ []) =
    starts_with a.action "/"
    && same_option (some a.old_version) (version_of current.packages storage_package)
    && same_option (some a.new_version) (version_of target.packages storage_package)
moves_storage current target _ = false

-- `valid`: the API step, the declared transition, and the one storage action.
unfoldable pub valid_transition : Row → Row → Edge → List Action → Bool
valid_transition current target edge related =
    target.api == current.api + 1
    && is_transition current target edge.api_transition
    && not (
        same_option (version_of current.packages storage_package)
          (version_of target.packages storage_package))
    && moves_storage current target
        (keep (λ a. str_eq (base_package a.package_name) storage_package) related)

-- What follows once one edge is found.
unfoldable pub evaluate_edge : Row → Row → Edge → List Action → Result Outcome
evaluate_edge current target edge related =
    if not (target.api == current.api) && not (valid_transition current target edge related)
    then refuse related (refuse_unqualified_api_transition current.id target.id)
    else if not (is_empty edge.allowed_package_changes)
    then refuse related (
        refuse_unsafe_edge_allowance (sorted_set edge.allowed_package_changes) current.id target.id)
    else if not (is_empty (unrepresented target related))
    then refuse related
        (refuse_unqualified_package_change (unrepresented target related) current.id target.id)
    else allow related (allow_qualified_edge current.id target.id edge.id current.api target.api)

unfoldable pub evaluate_edges : Row → Row → List Action → List Edge → Result Outcome
evaluate_edges current target related [] =
    refuse related (refuse_unqualified_edge current.id target.id)
evaluate_edges current target related (edge ∷ []) = evaluate_edge current target edge related
evaluate_edges current target related (edge ∷ other ∷ edges) =
    refused "multiple qualified upgrade edges match the transaction"

-- Both tuples are known.
unfoldable pub evaluate_tuples : Manifest → Row → Row → List Action → Result Outcome
evaluate_tuples manifest current target related =
    if str_eq current.id target.id
    then (if not (is_empty (unrepresented target related))
        then refuse related
            (refuse_unqualified_package_change (unrepresented target related) current.id target.id)
        else allow related (allow_qualified current.id target.id))
    else evaluate_edges current target related
        (keep (is_edge current target) manifest.rolling_edges)

-- `x and x["id"]`
abbrev id_of : Option Row → Option String
id_of none = none
id_of (some r) = some r.id

unfoldable pub evaluate_matches : Manifest → Option Row → Option Row → List Action → Result Outcome
evaluate_matches manifest (some current) (some target) related =
    evaluate_tuples manifest current target related
evaluate_matches manifest current target related =
    refuse related (refuse_unqualified (id_of current) (id_of target))

abbrev pub scope_of : Policy → String
scope_of policy = elim policy.required_scope [ none ↦ "san-dataplane" | some s ↦ s ]

abbrev pub runtime_of : Policy → Context → Runtime
runtime_of policy context = record {
  profile = context.profile;
  running_kernel = context.running_kernel;
  plugin_version = context.plugin_version;
  scope = scope_of policy;
}

-- `re.fullmatch` with a pattern of the manifest is the parameter.
module _ (fullmatch : String → String → Bool) where
  unfoldable pub watched : Manifest → Action → Bool
  watched manifest a =
      let name = base_package a.package_name in
      contains manifest.watched_packages name
      || any (λ pattern_. fullmatch pattern_ name) manifest.watched_package_patterns

  unfoldable pub relevant_actions : Manifest → List Action → List Action
  relevant_actions manifest plan = keep (watched manifest) plan

-- The version comparison is the parameter.
module _ (compare_versions : String → String → String → Bool) where
  -- The modes QUALIFIED_AUTO and QUALIFIED_ONLY.
  unfoldable pub evaluate_qualified :
      List Action → Manifest → Policy → Context → List Action → Result Outcome
  evaluate_qualified plan manifest policy context related =
      let installed = version_of context.installed in
      let target_versions = resulting_versions installed plan in
      let changes = unsupported_identity_changes related in
      if not (is_empty changes)
      then refuse related (refuse_unqualified_package_identity_change changes)
      else elim (known_incompatible compare_versions manifest target_versions) [
        | some rule ↦ refuse related (refuse_known_incompatible rule.reason)
        | none ↦ do
          current ← exact_tuple manifest installed context.api (runtime_of policy context)
          target ← planned_tuple manifest target_versions (runtime_of policy context)
          evaluate_matches manifest current target related
      ]

  unfoldable pub evaluate_mode :
      List Action → Manifest → Policy → Context → List Action → Result Outcome
  evaluate_mode plan manifest policy context related =
      if str_eq policy.mode "UNSELECTED"
      then refuse related refuse_policy_unselected
      else if contains ("WARN" ∷ "MANUAL_OVERRIDE" ∷ []) policy.mode
      then refuse related require_exact_manual_authorization
      else if not (contains ("QUALIFIED_AUTO" ∷ "QUALIFIED_ONLY" ∷ "FREEZE" ∷ []) policy.mode)
      then refused "unknown update policy mode"
      else if str_eq policy.mode "FREEZE"
      then refuse related refuse_freeze
      else evaluate_qualified plan manifest policy context related

module _ (fullmatch : String → String → Bool)
    (compare_versions : String → String → String → Bool) where
  unfoldable pub evaluate : List Action → Manifest → Policy → Context → Result Outcome
  evaluate plan manifest policy context =
      let related = relevant_actions fullmatch manifest plan in
      if is_empty related
      then refuse [] allow_unrelated
      else evaluate_mode compare_versions plan manifest policy context related
