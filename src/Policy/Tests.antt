-- ===== src/Policy/Tests.antt =====
-- A small catalogue, transactions over it, and the theorems at them.
use proxmox_sharedlvmthin.Base.{
  String, Bool, true, false, none, some, List, [], ◌∷◌, ◌≡◌, ◌↔◌, ◌⊎◌, refl, Memᴰ, Result, ok,
  split_once, split_max, split_lines_after,
}
use proxmox_sharedlvmthin.Policy.Data.{
  Action, Row, Edge, Manifest, Policy, Context, version_of, base_package, is_package, is_version,
  is_arch,
}
use proxmox_sharedlvmthin.Policy.Protocol.{
  parse_protocol_v3, parse_lines, parse_actions, parse_action, action_of_fields, check_action,
  check_config, check_config_line, split_at_blank, unsafe_version, is_multiarch, is_direction,
  is_operation,
}
use proxmox_sharedlvmthin.Policy.Protocol.Laws.{
  IsStream, IsWellFormed, parse_protocol_v3-IsStream, check_action_iff,
}
use proxmox_sharedlvmthin.Policy.Protocol.RoundTrip.{print_action, parse_action-print_action}
use proxmox_sharedlvmthin.Policy.Tuples.{
  is_exact, packages_match, at_most_one, exact_tuple, planned_tuple, resulting_versions,
  known_incompatible,
}
use proxmox_sharedlvmthin.Policy.Tuples.Laws.{
  Answers, Qualifies, IsPlannedApi, exact_tuple-Answers, planned_tuple-Answers,
}
use proxmox_sharedlvmthin.Policy.Evaluate.{
  Outcome, allow_qualified_edge, allow_unrelated, refuse_unqualified, identity_change,
  unsupported_identity_changes, is_represented, unrepresented, is_edge, is_transition,
  moves_storage, valid_transition, evaluate_edge, evaluate_edges, evaluate_tuples, evaluate_matches,
  runtime_of, watched, relevant_actions, evaluate_qualified, evaluate_mode, evaluate, refuse,
}
use proxmox_sharedlvmthin.Policy.Evaluate.Laws.{IsAllowed, IsQualifiedVerdict, evaluate-IsAllowed}
use proxmox_sharedlvmthin.Policy.Evaluate.Modes.{evaluate_gate}
use proxmox_sharedlvmthin.Policy.Evaluate.Coverage.{
  SameTuple, StorageStep, allowed_installed, evaluate-StorageStep,
}

abbrev storage_14 : Row
storage_14 = record {
  id = "pve-14";
  api = 14;
  running_kernel = "6.14";
  status = "QUALIFIED";
  required_tests = [];
  profiles = "dual" ∷ [];
  scopes = "san-dataplane" ∷ [];
  plugin_versions = "1.0" ∷ [];
  packages = ("libpve-storage-perl", "9.0") ∷ ("qemu-server", "9.1") ∷ [];
}

abbrev storage_15 : Row
storage_15 = record storage_14 {
  id = "pve-15";
  api = 15;
  packages = ("libpve-storage-perl", "10.0") ∷ ("qemu-server", "9.1") ∷ [];
}

abbrev step_up : Edge
step_up = record {
  id = some "14-to-15";
  source = "pve-14";
  target = "pve-15";
  status = "EXACT_LAB_TESTED";
  required_tests = [];
  api_transition = some (record {
    from_api = 14;
    to_api = 15;
    package_name = "libpve-storage-perl";
    old_version = some "9.0";
    new_version = some "10.0";
  });
  allowed_package_changes = [];
}

abbrev manifest : Manifest
manifest = record {
  watched_packages = "libpve-storage-perl" ∷ "qemu-server" ∷ [];
  watched_package_patterns = [];
  tuples = storage_14 ∷ storage_15 ∷ [];
  rolling_edges = step_up ∷ [];
  known_incompatible = [];
}

abbrev policy : Policy
policy = record { mode = "QUALIFIED_AUTO"; required_scope = none }

abbrev context : Context
context = record {
  installed = ("libpve-storage-perl", "9.0") ∷ ("qemu-server", "9.1") ∷ [];
  profile = "dual";
  api = 14;
  running_kernel = "6.14";
  plugin_version = "1.0";
}

abbrev upgrade : Action
upgrade = record {
  package_name = "libpve-storage-perl:all";
  old_version = "9.0";
  old_arch = "all";
  old_multiarch = "none";
  direction = "<";
  new_version = "10.0";
  new_arch = "all";
  new_multiarch = "none";
  action = "/var/cache/apt/storage.deb";
}

-- No version order is needed without incompatibility rules, and no pattern is matched.
abbrev never : String → String → Bool
never p s = false

abbrev never_3 : String → String → String → Bool
never_3 a op b = false

abbrev outcome : Outcome
outcome = record {
  verdict = allow_qualified_edge "pve-14" "pve-15" (some "14-to-15") 14 15;
  relevant = upgrade ∷ [];
  post_gate_required = true;
}

run : List Action → Result Outcome
unfolding evaluate evaluate_mode evaluate_qualified evaluate_matches evaluate_tuples evaluate_edges
    evaluate_edge relevant_actions watched unsupported_identity_changes identity_change
    known_incompatible exact_tuple planned_tuple is_exact packages_match at_most_one
    resulting_versions version_of base_package unrepresented is_represented is_edge valid_transition
    is_transition moves_storage
run plan = evaluate never never_3 plan manifest policy context

run-upgrade : run (upgrade ∷ []) ≡ ok outcome
unfolding run
run-upgrade = refl

run_nothing : run [] ≡ refuse [] allow_unrelated
unfolding run
run_nothing = refl

-- Removing the storage package leads to no qualified tuple.
run_removal :
    run (record upgrade { new_version = "-"; action = "**REMOVE**" } ∷ [])
    ≡ refuse
        (record upgrade { new_version = "-"; action = "**REMOVE**" } ∷ [])
        (refuse_unqualified (some "pve-14") none)
unfolding run
run_removal = refl

upgrade_allowed : evaluate never never_3 (upgrade ∷ []) manifest policy context ≡ ok outcome
unfolding run
upgrade_allowed = run-upgrade

-- Reads ASCII only.
abbrev stream : String
stream =
    "VERSION 3\nAPT::Architecture=amd64\n\nlibpve-storage-perl:all 9.0 all none < 10.0 all none /var/cache/apt/storage.deb\n"

parse_stream : parse_protocol_v3 (λ raw. some stream) [] ≡ ok (upgrade ∷ [])
unfolding parse_protocol_v3 parse_lines parse_actions parse_action action_of_fields check_action
    check_config check_config_line split_at_blank unsafe_version is_multiarch is_direction
    is_operation is_package is_version is_arch split_max split_once split_lines_after
parse_stream = refl

parse_protocol_v3-IsStream_example : IsStream (λ raw. some stream) [] (upgrade ∷ [])
parse_protocol_v3-IsStream_example =
    parse_protocol_v3-IsStream (λ raw. some stream) [] (upgrade ∷ []) parse_stream

upgrade_checks : check_action upgrade ≡ ok tt
unfolding check_action unsafe_version is_multiarch is_direction is_operation is_package is_version
    is_arch
upgrade_checks = refl

upgrade-IsWellFormed : IsWellFormed upgrade
upgrade-IsWellFormed = (check_action_iff upgrade).0 upgrade_checks

parse_action-print_action_example : parse_action (print_action upgrade) ≡ ok upgrade
parse_action-print_action_example = parse_action-print_action upgrade upgrade-IsWellFormed

exact_runs :
    exact_tuple manifest (version_of context.installed) 14 (runtime_of policy context)
    ≡ ok (some storage_14)
unfolding exact_tuple is_exact packages_match at_most_one version_of
exact_runs = refl

exact_tuple-Answers_example :
    Answers
      (Qualifies 14 (runtime_of policy context) (version_of context.installed))
      manifest.tuples
      (some storage_14)
exact_tuple-Answers_example =
    exact_tuple-Answers manifest (version_of context.installed) 14 (runtime_of policy context)
      (some storage_14) exact_runs

planned_runs :
    planned_tuple manifest (version_of storage_15.packages) (runtime_of policy context)
    ≡ ok (some storage_15)
unfolding planned_tuple exact_tuple is_exact packages_match at_most_one version_of
planned_runs = refl

planned_tuple-Answers_example :
    Memᴰ storage_15 manifest.tuples
    × IsPlannedApi 15
    × Qualifies 15 (runtime_of policy context) (version_of storage_15.packages) storage_15
    × ((s : Row)
        → Memᴰ s manifest.tuples
        → IsPlannedApi s.api
        → Qualifies s.api (runtime_of policy context) (version_of storage_15.packages) s
        → s ≡ storage_15)
planned_tuple-Answers_example =
    planned_tuple-Answers manifest (version_of storage_15.packages) (runtime_of policy context)
      storage_15 planned_runs

evaluate-IsAllowed_example :
    IsAllowed never_3
      (upgrade ∷ [])
      manifest
      policy
      context
      (relevant_actions never manifest (upgrade ∷ []))
evaluate-IsAllowed_example =
    evaluate-IsAllowed never never_3 (upgrade ∷ []) manifest policy context outcome upgrade_allowed
      refl

evaluate_gate_example :
    (outcome.relevant ≡ relevant_actions never manifest (upgrade ∷ []))
    × ((outcome.post_gate_required ≡ true) ↔ IsQualifiedVerdict outcome.verdict)
    × ((outcome.verdict ≡ allow_unrelated) ↔ (relevant_actions never manifest (upgrade ∷ []) ≡ []))
evaluate_gate_example =
    evaluate_gate never never_3 (upgrade ∷ []) manifest policy context outcome upgrade_allowed

upgrade_watched : Memᴰ upgrade (relevant_actions never manifest (upgrade ∷ []))
unfolding relevant_actions watched base_package
upgrade_watched = Memᴰ.head refl

allowed_installed_example :
    (target : Row) × (version : String) × Memᴰ target manifest.tuples
    × Memᴰ (base_package upgrade.package_name, version) target.packages
    × (resulting_versions
          (version_of context.installed)
          (upgrade ∷ [])
          (base_package upgrade.package_name)
        ≡ some version)
allowed_installed_example =
    allowed_installed never never_3 (upgrade ∷ []) manifest policy context outcome upgrade
      upgrade_allowed refl upgrade_watched

evaluate-StorageStep_example :
    (w : IsAllowed never_3
      (upgrade ∷ [])
      manifest
      policy
      context
      (relevant_actions never manifest (upgrade ∷ [])))
    × (SameTuple w.current w.target
        ⊎ (w.target.api ≡ w.current.api)
        ⊎ StorageStep w.current w.target (relevant_actions never manifest (upgrade ∷ [])))
evaluate-StorageStep_example =
    evaluate-StorageStep never never_3 (upgrade ∷ []) manifest policy context outcome
      upgrade_allowed refl
