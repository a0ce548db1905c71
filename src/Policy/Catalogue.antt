-- ===== src/Policy/Catalogue.antt =====
-- The validation of a candidate catalogue, and the lookup of the runtime in a catalogue that passed.
-- The values of the JSON have their types; `set(row["packages"])` is the list of its keys.
use proxmox_sharedlvmthin.Base.{
  ℕ, String, Bool, true, not, ◌&&◌, ◌||◌, ◌==◌, ◌≡◌, ◌⊎◌, ◌∙◌, ap, arith, eq_iff, Option, none,
  some, List, [], ◌∷◌, all, All, any, keep, keep-mem, Memᴰ, is_empty, contains, codes, only, str_eq,
  if◌then◌else◌, Result, ok, ◌>>=◌, ◌>>◌, >>=-eq-ok, refuse_if, refuse_if-eq-ok, &&_left, &&_right,
}
use mathlib.Core.List.Memᴰ.{not-nil}
use proxmox_sharedlvmthin.Policy.Data.{Row, Manifest, Versions, is_package, is_version}
use proxmox_sharedlvmthin.Policy.Tuples.{Runtime, is_observed, observed_tuple, at_most_one}
use proxmox_sharedlvmthin.Policy.Tuples.Laws.{packages_match_iff, HasVersion}

pub record Catalogue : Type 0 where
  pub schema : ℕ
  pub name : String
  pub manifest : Manifest

-- `len(watched) == len(set(watched))`
abbrev pub is_distinct : List String → Bool
is_distinct [] = true
is_distinct (name ∷ names) = not (contains names name) && is_distinct names

unfoldable pub is_watchable : String → Bool
is_watchable name = is_package name && not (any (only b':') (codes name))

unfoldable pub is_pinned : String × String → Bool
is_pinned (k, v) = is_package k && is_version v

abbrev pub is_filled : String → Bool
is_filled s = not (str_eq s "")

-- The tests on one row.
unfoldable pub is_row : Row → Bool
is_row row =
    is_filled row.id
    && is_filled row.running_kernel
    && is_filled row.status
    && not (is_empty row.profiles)
    && all (λ p. contains ("dual" ∷ "thick-only" ∷ []) p) row.profiles
    && not (is_empty row.plugin_versions)
    && all is_version row.plugin_versions
    && not (is_empty row.packages)
    && all is_pinned row.packages

unfoldable pub is_covered : List String → Row → Bool
is_covered names row = all (λ (k, v). contains names k) row.packages

unfoldable pub check_rows : List String → List Row → Result (Unit {0})
check_rows names [] = ok tt
check_rows names (row ∷ rows) = do
  refuse_if (not (is_row row)) "malformed candidate tuple catalogue row"
  refuse_if (not (is_covered names row)) "candidate tuple requires an unwatched package"
  check_rows names rows

unfoldable pub is_catalogue : Catalogue → Bool
is_catalogue c = c.schema == 1 && str_eq c.name "pve-qualified-tuples-v1"

unfoldable pub is_incomplete : Manifest → Bool
is_incomplete m =
    is_empty m.watched_packages
    || not (all is_watchable m.watched_packages)
    || not (is_distinct m.watched_packages)
    || is_empty m.tuples

unfoldable pub validate_candidate_catalogue : Catalogue → Result (Unit {0})
validate_candidate_catalogue c = do
  refuse_if (not (is_catalogue c)) "invalid candidate tuple catalogue"
  refuse_if (is_incomplete c.manifest) "incomplete candidate tuple catalogue"
  check_rows c.manifest.watched_packages c.manifest.tuples

abbrev pub candidate_statuses : List String
candidate_statuses = "EXACT_LAB_TESTED" ∷ "RETEST_REQUIRED" ∷ []

unfoldable pub candidate_of : Option Row → Option Row
candidate_of none = none
candidate_of (some row) = if contains candidate_statuses row.status then some row else none

unfoldable pub candidate_runtime_tuple : Catalogue → Versions → ℕ → Runtime → Result (Option Row)
candidate_runtime_tuple c versions api r = do
  validate_candidate_catalogue c
  observed ← observed_tuple c.manifest versions api r
  ok (candidate_of observed)

all-mem :
    {A : Type 0} (p : A → Bool) (xs : List A) {x : A} → all p xs ≡ true → Memᴰ x xs → p x ≡ true
all-mem p [] h m = absurd (not-nil m)
all-mem p (y ∷ xs) h (Memᴰ.head e) = ap p e ∙ &&_left (p y) (all p xs) h
all-mem p (y ∷ xs) h (Memᴰ.tail m) = all-mem p xs (&&_right (p y) (all p xs) h) m

check_rows-mem :
    (names : List String) (rows : List Row) {row : Row}
    → check_rows names rows ≡ ok tt
    → Memᴰ row rows
    → is_covered names row ≡ true
unfolding check_rows
check_rows-mem names [] h m = absurd (not-nil m)
check_rows-mem names (r ∷ rows) h (Memᴰ.head e) = ap (is_covered names) e ∙ ground (arith, h)
check_rows-mem names (r ∷ rows) h (Memᴰ.tail m) =
    let (_a, h1) = refuse_if-eq-ok (not (is_row r)) _ _ h in
    let (_b, h2) = refuse_if-eq-ok (not (is_covered names r)) _ _ h1 in
    check_rows-mem names rows h2 m

at_most_one-mem :
    (m : String) (rows : List Row) (row : Row) → at_most_one m rows ≡ ok (some row) → Memᴰ row rows
unfolding at_most_one
at_most_one-mem m [] row h = cc
at_most_one-mem m (r ∷ []) row h = Memᴰ.head (ground arith)
at_most_one-mem m (r ∷ q ∷ rows) row h = cc

-- What is known of a row that the runtime is found to be.
pub record IsCandidate (c : Catalogue) (versions : Versions) (row : Row) : Type 0 where
  pub catalogued : Memᴰ row c.manifest.tuples
  pub status_ok : (row.status ≡ "EXACT_LAB_TESTED") ⊎ (row.status ≡ "RETEST_REQUIRED")
  pub installed : All (HasVersion versions) row.packages
  pub all_watched :
      {name version : String}
      → Memᴰ (name, version) row.packages
      → contains c.manifest.watched_packages name ≡ true

candidate_of-status :
    (o : Option Row) (row : Row)
    → candidate_of o ≡ some row
    → (o ≡ some row) × ((row.status ≡ "EXACT_LAB_TESTED") ⊎ (row.status ≡ "RETEST_REQUIRED"))
unfolding candidate_of
candidate_of-status none row h = cc
candidate_of-status (some r) row h =
    ground (arith, eq_iff r.status "EXACT_LAB_TESTED", eq_iff r.status "RETEST_REQUIRED")

is_observed-installed :
    (api : ℕ) (r : Runtime) (versions : Versions) (row : Row)
    → is_observed api r versions row ≡ true
    → All (HasVersion versions) row.packages
unfolding is_observed
is_observed-installed api r versions row h =
    ground (arith, packages_match_iff versions row.packages)

validated-covered :
    (c : Catalogue) {row : Row}
    → validate_candidate_catalogue c ≡ ok tt
    → Memᴰ row c.manifest.tuples
    → is_covered c.manifest.watched_packages row ≡ true
unfolding validate_candidate_catalogue
validated-covered c h m =
    let (_a, h1) = refuse_if-eq-ok (not (is_catalogue c)) _ _ h in
    let (_b, h2) = refuse_if-eq-ok (is_incomplete c.manifest) _ _ h1 in
    check_rows-mem c.manifest.watched_packages c.manifest.tuples h2 m

covered-watched :
    (names : List String) (row : Row) {name version : String}
    → is_covered names row ≡ true
    → Memᴰ (name, version) row.packages
    → contains names name ≡ true
unfolding is_covered
covered-watched names row h m = all-mem (λ (k, v). contains names k) row.packages h m

-- A runtime tuple of a candidate catalogue is in the catalogue, has one of the two candidate
-- statuses, and lists packages that are installed at exactly the listed versions and are all
-- watched.
candidate_runtime_tuple-IsCandidate :
    (c : Catalogue) (versions : Versions) (api : ℕ) (r : Runtime) (row : Row)
    → candidate_runtime_tuple c versions api r ≡ ok (some row)
    → IsCandidate c versions row
unfolding candidate_runtime_tuple observed_tuple
candidate_runtime_tuple-IsCandidate c versions api r row h =
    let (u, valid, h1) = >>=-eq-ok (validate_candidate_catalogue c) _ h in
    let (o, seen, h2) = >>=-eq-ok (observed_tuple c.manifest versions api r) _ h1 in
    let (found, status) = candidate_of-status o row (ground (arith, h2)) in
    let kept =
      at_most_one-mem _ (keep (is_observed api r versions) c.manifest.tuples) row
        (seen ∙ ap ok found) in
    let (m, fits) = keep-mem (is_observed api r versions) kept in
    record {
      catalogued = m;
      status_ok = status;
      installed = is_observed-installed api r versions row fits;
      all_watched =
          λ p. covered-watched c.manifest.watched_packages row (validated-covered c valid m) p;
    }
