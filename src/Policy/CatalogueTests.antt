-- ===== src/Policy/CatalogueTests.antt =====
-- A candidate catalogue of one row, and the theorem at it.
use proxmox_sharedlvmthin.Base.{String, some, List, [], ◌∷◌, ◌≡◌, refl, ok, split_once}
use proxmox_sharedlvmthin.Policy.Data.{Row, version_of, is_package, is_version}
use proxmox_sharedlvmthin.Policy.Tuples.{
  Runtime, is_observed, observed_tuple, at_most_one, packages_match,
}
use proxmox_sharedlvmthin.Policy.Catalogue.{
  Catalogue, is_watchable, is_pinned, is_row, is_covered, check_rows, is_catalogue, is_incomplete,
  validate_candidate_catalogue, candidate_of, candidate_runtime_tuple,
}

abbrev row : Row
row = record {
  id = "t1";
  api = 14;
  running_kernel = "6.14";
  status = "RETEST_REQUIRED";
  required_tests = "reboot" ∷ [];
  profiles = "dual" ∷ [];
  scopes = "san-dataplane" ∷ [];
  plugin_versions = "1.2" ∷ [];
  packages = ("qemu-server", "9.0.1") ∷ [];
}

abbrev catalogue : Catalogue
catalogue = record {
  schema = 1;
  name = "pve-qualified-tuples-v1";
  manifest = record {
    watched_packages = "qemu-server" ∷ "lvm2" ∷ [];
    watched_package_patterns = [];
    tuples = row ∷ [];
    rolling_edges = [];
    known_incompatible = [];
  };
}

abbrev runtime : Runtime
runtime = record {
  profile = "dual";
  running_kernel = "6.14";
  plugin_version = "1.2";
  scope = "san-dataplane";
}

abbrev installed : List (String × String)
installed = ("qemu-server", "9.0.1") ∷ ("lvm2", "2.03") ∷ []

candidate-row : candidate_runtime_tuple catalogue (version_of installed) 14 runtime ≡ ok (some row)
unfolding candidate_runtime_tuple validate_candidate_catalogue is_catalogue is_incomplete
    is_watchable is_pinned is_row is_covered check_rows candidate_of is_package is_version
    version_of is_observed observed_tuple at_most_one packages_match split_once
candidate-row = refl
