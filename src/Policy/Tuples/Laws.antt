-- ===== src/Policy/Tuples/Laws.antt =====
-- What a lookup in the catalogue returns: the one qualified tuple, none, or a refusal.
use mathlib.Core.List.{Memᴰ}
use mathlib.Core.List.Memᴰ.{not-nil}
use proxmox_sharedlvmthin.Base.{
  ℕ, String, Bool, true, ◌||◌, ◌==◌, ==_iff, ◌⊎◌, inl, inr, ◌↔◌, Option, none, some, List, [], ◌∷◌,
  ◌++◌, ◌≡◌, ◌≢◌, refl, sym, ◌∙◌, arith, all, All, keep, keep-mem, mem-keep, subst, contains,
  str_eq, eq_iff, Bool-cases, Option-cases, if◌then◌else◌, ok, >>=-eq-ok,
}
use proxmox_sharedlvmthin.Policy.Data.{Action, Row, Manifest, Versions, base_package}
use proxmox_sharedlvmthin.Policy.Tuples.{
  Runtime, has_version, packages_match, is_exact, at_most_one, exact_tuple, planned_tuple,
  resulting_versions, to_list,
}

abbrev pub HasVersion : Versions → String × String → Type 0
HasVersion versions p = versions p.0 ≡ some p.1

-- A catalogue row that qualifies the given runtime and package versions.
pub record Qualifies (api : ℕ) (r : Runtime) (versions : Versions) (item : Row) : Type 0 where
  pub status_ok : (item.status ≡ "QUALIFIED") ⊎ (item.status ≡ "EXACT_LAB_TESTED")
  pub no_tests : item.required_tests ≡ []
  pub profile_ok : contains item.profiles r.profile ≡ true
  pub api_ok : item.api ≡ api
  pub kernel_ok : item.running_kernel ≡ r.running_kernel
  pub scope_ok : contains item.scopes r.scope ≡ true
  pub plugin_ok : contains item.plugin_versions r.plugin_version ≡ true
  pub some_package : item.packages ≢ []
  pub versions_ok : All (HasVersion versions) item.packages

has_version_iff :
    (versions : Versions) (p : String × String)
    → (has_version versions p ≡ true) ↔ HasVersion versions p
has_version_iff versions p = elim (Option-cases (versions p.0)) [
  | inl missing ↦ ground arith
  | inr (v, e) ↦ ground (arith, eq_iff v p.1)
]

all-has_version :
    (versions : Versions) (ps : List (String × String))
    → all (has_version versions) ps ≡ true
    → All (HasVersion versions) ps
all-has_version versions [] h = tt
all-has_version versions (p ∷ ps) h =
    ground (arith, has_version_iff versions p, all-has_version versions ps)

All-has_version :
    (versions : Versions) (ps : List (String × String))
    → All (HasVersion versions) ps
    → all (has_version versions) ps ≡ true
All-has_version versions [] h = refl
All-has_version versions (p ∷ ps) h =
    ground (arith, has_version_iff versions p, All-has_version versions ps)

pub packages_match_iff :
    (versions : Versions) (ps : List (String × String))
    → (packages_match versions ps ≡ true) ↔ ((ps ≢ []) × All (HasVersion versions) ps)
unfolding packages_match
packages_match_iff versions [] = (λ h. cc, λ h. absurd (h.0 refl))
packages_match_iff versions (p ∷ ps) = (
  λ h. (λ e. cc, all-has_version versions (p ∷ ps) h),
  λ h. All-has_version versions (p ∷ ps) h.1,
)

pub is_exact_iff :
    (api : ℕ) (r : Runtime) (versions : Versions) (item : Row)
    → (is_exact api r versions item ≡ true) ↔ Qualifies api r versions item
unfolding is_exact
is_exact_iff api r versions item = ground (
  arith,
  eq_iff item.status "QUALIFIED",
  eq_iff item.status "EXACT_LAB_TESTED",
  eq_iff item.running_kernel r.running_kernel,
  packages_match_iff versions item.packages,
)

-- The answer of a lookup over the catalogue's rows: no row fits, or exactly the returned one.
abbrev pub Answers : (Row → Type 0) → List Row → Option Row → Type 0
Answers P rows none = (s : Row) → Memᴰ s rows → P s → ⊥
Answers P rows (some r) = Memᴰ r rows × P r × ((s : Row) → Memᴰ s rows → P s → s ≡ r)

mem_singleton : {s r : Row} → Memᴰ s (r ∷ []) → s ≡ r
mem_singleton (Memᴰ.head e) = e
mem_singleton (Memᴰ.tail m) = absurd (not-nil m)

at_most_one-Answers :
    (m : String) (p : Row → Bool) (rows : List Row) (o : Option Row)
    → at_most_one m (keep p rows) ≡ ok o
    → Answers (λ s. p s ≡ true) rows o
unfolding at_most_one
at_most_one-Answers m p rows o h = go (keep p rows) refl o h
  where
    go :
        (kept : List Row)
        → keep p rows ≡ kept
        → (o : Option Row) → at_most_one m kept ≡ ok o
        → Answers (λ s. p s ≡ true) rows o
    go [] e none h = λ s i t. not-nil (subst (Memᴰ s) e (mem-keep p i t))
    go [] e (some r) h = cc
    go (r ∷ []) e none h = cc
    go (r ∷ []) e (some q) h =
        let same : r ≡ q = cc h in
        let (i, t) = keep-mem p {xs = rows} (subst (Memᴰ r) (sym e) (Memᴰ.head refl)) in
        rw (← same) (i, t, λ s j u. mem_singleton (subst (Memᴰ s) e (mem-keep p j u)))
    go (r ∷ s ∷ more) e o h = cc

-- A lookup that does not refuse returns the only catalogue row that qualifies the runtime and
-- the versions, or none when no row does; with two different such rows there is no answer.
pub exact_tuple-Answers :
    (manifest : Manifest) (versions : Versions) (api : ℕ) (r : Runtime) (o : Option Row)
    → exact_tuple manifest versions api r ≡ ok o
    → Answers (Qualifies api r versions) manifest.tuples o
unfolding exact_tuple
exact_tuple-Answers manifest versions api r none h =
    let none_fits = at_most_one-Answers _ (is_exact api r versions) manifest.tuples none h in
    λ s i q. none_fits s i ((is_exact_iff api r versions s).1 q)
exact_tuple-Answers manifest versions api r (some q) h =
    let (i, t, alone) =
      at_most_one-Answers _ (is_exact api r versions) manifest.tuples (some q) h in
    (
      i,
      (is_exact_iff api r versions q).0 t,
      λ s j u. alone s j ((is_exact_iff api r versions s).1 u),
    )

-- The APIs that a transaction may lead to.
abbrev pub IsPlannedApi : ℕ → Type 0
IsPlannedApi n = (n ≡ 14) ⊎ (n ≡ 15) ⊎ (n ≡ 16)

chosen :
    (m : String) (a b c : Option Row) (q : Row)
    → at_most_one m (to_list a ++ (to_list b ++ to_list c)) ≡ ok (some q)
    → ((a ≡ some q) × (b ≡ none) × (c ≡ none))
      ⊎ ((a ≡ none) × (b ≡ some q) × (c ≡ none))
      ⊎ ((a ≡ none) × (b ≡ none) × (c ≡ some q))
unfolding at_most_one
chosen m a b c q h = ground arith

module _ (manifest : Manifest) (versions : Versions) (r : Runtime) (q : Row) where
  abbrev At : ℕ → Option Row → Type 0
  At n = Answers (Qualifies n r versions) manifest.tuples

  abbrev IsPlanned : Type 0
  IsPlanned =
      Memᴰ q manifest.tuples
      × IsPlannedApi q.api
      × Qualifies q.api r versions q
      × ((s : Row)
          → Memᴰ s manifest.tuples
          → IsPlannedApi s.api
          → Qualifies s.api r versions s
          → s ≡ q)

  -- The row found at one API is the planned one, if none is found at the others.
  settle :
      (n : ℕ)
      → At n (some q)
      → IsPlannedApi n
      → ((m : ℕ) → IsPlannedApi m → m ≢ n → At m none)
      → IsPlanned
  settle n (i, found, alone) planned others = (
    i,
    subst IsPlannedApi (sym found.api_ok) planned,
    subst (λ k. Qualifies k r versions q) (sym found.api_ok) found,
    λ s j p u. elim (Bool-cases (s.api == n)) [
      | inl e ↦ alone s j (subst (λ k. Qualifies k r versions s) ((==_iff s.api n).0 e) u)
      | inr differs ↦ absurd (others s.api p (λ e. ground arith) s j u)
    ],
  )

  from_choice :
      (a b c : Option Row)
      → At 14 a
      → At 15 b
      → At 16 c
      → ((a ≡ some q) × (b ≡ none) × (c ≡ none))
        ⊎ ((a ≡ none) × (b ≡ some q) × (c ≡ none))
        ⊎ ((a ≡ none) × (b ≡ none) × (c ≡ some q))
      → IsPlanned
  from_choice a b c x y z (inl (ea, eb, ec)) = settle 14 (subst (At 14) ea x) (inl refl) λ m p n.
      elim p [
        | inl e ↦ absurd (n e)
        | inr (inl e) ↦ subst (λ k. At k none) (sym e) (subst (At 15) eb y)
        | inr (inr e) ↦ subst (λ k. At k none) (sym e) (subst (At 16) ec z)
      ]
  from_choice a b c x y z (inr (inl (ea, eb, ec))) =
      settle 15 (subst (At 15) eb y) (inr (inl refl)) λ m p n. elim p [
        | inl e ↦ subst (λ k. At k none) (sym e) (subst (At 14) ea x)
        | inr (inl e) ↦ absurd (n e)
        | inr (inr e) ↦ subst (λ k. At k none) (sym e) (subst (At 16) ec z)
      ]
  from_choice a b c x y z (inr (inr (ea, eb, ec))) =
      settle 16 (subst (At 16) ec z) (inr (inr refl)) λ m p n. elim p [
        | inl e ↦ subst (λ k. At k none) (sym e) (subst (At 14) ea x)
        | inr (inl e) ↦ subst (λ k. At k none) (sym e) (subst (At 15) eb y)
        | inr (inr e) ↦ absurd (n e)
      ]

-- A planned tuple is in the catalogue, has one of the APIs 14, 15 and 16, qualifies the runtime and
-- the resulting versions, and no other row with one of these APIs does.
pub planned_tuple-Answers :
    (manifest : Manifest) (versions : Versions) (r : Runtime) (q : Row)
    → planned_tuple manifest versions r ≡ ok (some q)
    → Memᴰ q manifest.tuples
      × IsPlannedApi q.api
      × Qualifies q.api r versions q
      × ((s : Row)
          → Memᴰ s manifest.tuples
          → IsPlannedApi s.api
          → Qualifies s.api r versions s
          → s ≡ q)
unfolding planned_tuple
planned_tuple-Answers manifest versions r q h =
    let (a, ea, h1) = >>=-eq-ok (exact_tuple manifest versions 14 r) _ h in
    let (b, eb, h2) = >>=-eq-ok (exact_tuple manifest versions 15 r) _ h1 in
    let (c, ec, h3) = >>=-eq-ok (exact_tuple manifest versions 16 r) _ h2 in
    from_choice manifest versions r q a b c (exact_tuple-Answers manifest versions 14 r a ea)
      (exact_tuple-Answers manifest versions 15 r b eb)
      (exact_tuple-Answers manifest versions 16 r c ec) (chosen _ a b c q h3)

abbrev names : String → Action → Bool
names name a = str_eq name (base_package a.package_name)

-- What an action leaves installed of the package that it names.
abbrev pub left_by : Action → Option String
left_by a =
    if str_eq a.action "**REMOVE**" || str_eq a.new_version "-" then none else some a.new_version

-- A package that no action names keeps its version.
resulting_versions_untouched :
    (actions : List Action) (versions : Versions) (name : String)
    → keep (names name) actions ≡ []
    → resulting_versions versions actions name ≡ versions name
unfolding resulting_versions
resulting_versions_untouched [] versions name h = refl
resulting_versions_untouched (a ∷ actions) versions name h = elim (Bool-cases (names name a)) [
  | inl here ↦ cc (rw here at h)
  | inr other ↦ resulting_versions_untouched actions _ name (rw other at h) ∙ rw other
]

resulting_versions-append :
    (before after : List Action) (versions : Versions)
    → resulting_versions versions (before ++ after)
      ≡ resulting_versions (resulting_versions versions before) after
unfolding resulting_versions
resulting_versions-append [] after versions = refl
resulting_versions-append (a ∷ before) after versions = resulting_versions-append before after _

-- The last action of a transaction that names a package decides its version, whatever comes before:
-- none if the action removes it, else the action's new version.
resulting_versions_last :
    (before after : List Action) (a : Action) (versions : Versions)
    → keep (λ b. str_eq (base_package a.package_name) (base_package b.package_name)) after ≡ []
    → resulting_versions versions (before ++ (a ∷ after)) (base_package a.package_name) ≡ left_by a
unfolding resulting_versions
resulting_versions_last before after a versions h =
    rw (resulting_versions-append before (a ∷ after) versions) (
      resulting_versions_untouched after _ (base_package a.package_name) h
      ∙ rw ((eq_iff (base_package a.package_name) _).1 refl))
