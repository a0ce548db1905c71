-- ===== src/Policy/Evaluate/Laws.antt =====
-- What an allowed transaction has been checked for, stage by stage of `evaluate`.
use proxmox_sharedlvmthin.Base.{
  String, Bool, true, not, ◌⊎◌, inl, inr, Option, none, some, List, [], ◌∷◌, ◌≡◌, ◌≢◌, refl, sym,
  ◌∙◌, subst, ap, arith, All, keep, keep-mem, Memᴰ, map, str_eq, eq_iff, Bool-cases, ok, >>=-eq-ok,
  sorted_set, insert_sorted,
}
use proxmox_sharedlvmthin.Policy.Data.{
  Action, Row, Edge, Manifest, Policy, Context, version_of, base_package,
}
use proxmox_sharedlvmthin.Policy.Tuples.{
  exact_tuple, planned_tuple, resulting_versions, known_incompatible,
}
use proxmox_sharedlvmthin.Policy.Tuples.Laws.{
  Qualifies, IsPlannedApi, exact_tuple-Answers, planned_tuple-Answers,
}
use proxmox_sharedlvmthin.Policy.Evaluate.{
  identity_change, unsupported_identity_changes, Verdict, allow_qualified, allow_qualified_edge,
  Outcome, is_represented, unrepresented, is_edge, valid_transition, evaluate_edge, evaluate_edges,
  evaluate_tuples, evaluate_matches, runtime_of, relevant_actions, evaluate_qualified,
  evaluate_mode, evaluate,
}

abbrev pub IsQualifiedVerdict : Verdict → Type 0
IsQualifiedVerdict (allow_qualified c t) = Unit
IsQualifiedVerdict (allow_qualified_edge c t e a b) = Unit
IsQualifiedVerdict _ = ⊥

insert_sorted-ne-nil : (s : String) (ts : List String) → insert_sorted s ts ≢ []
unfolding insert_sorted
insert_sorted-ne-nil s [] h = cc
insert_sorted-ne-nil s (t ∷ ts) h = ground arith

sorted_set-eq-nil : (ss : List String) → sorted_set ss ≡ [] → ss ≡ []
unfolding sorted_set
sorted_set-eq-nil [] h = refl
sorted_set-eq-nil (s ∷ ss) h = absurd (insert_sorted-ne-nil s (sorted_set ss) h)

abbrev pub Represents : Row → Action → Type 0
Represents target a = is_represented target (base_package a.package_name) ≡ true

All-Represents :
    (target : Row) (acts : List Action)
    → keep (λ name. not (is_represented target name)) (map (λ a. base_package a.package_name) acts)
      ≡ []
    → All (Represents target) acts
All-Represents target [] h = tt
All-Represents target (a ∷ acts) h = ground (arith, All-Represents target acts)

unrepresented-eq-nil :
    (target : Row) (acts : List Action)
    → unrepresented target acts ≡ []
    → All (Represents target) acts
unfolding unrepresented
unrepresented-eq-nil target acts h = All-Represents target acts (sorted_set-eq-nil _ h)

-- The identity of every relevant package stays what it was.
identity_unchanged :
    (acts : List Action)
    → unsupported_identity_changes acts ≡ []
    → All (λ a. identity_change a ≡ none) acts
unfolding unsupported_identity_changes
identity_unchanged [] h = tt
identity_unchanged (a ∷ acts) h = ground (arith, identity_unchanged acts)

-- The step from the current tuple to the target: none, or over the only edge between them, with an
-- API step only where the edge declares it.
abbrev pub Route : Manifest → Row → Row → List Action → Type 0
Route manifest current target related =
    (current.id ≡ target.id)
    ⊎ ((edge : Edge) × Memᴰ edge manifest.rolling_edges
        × (is_edge current target edge ≡ true)
        × ((target.api ≡ current.api) ⊎ (valid_transition current target edge related ≡ true)))

evaluate_edge_gate :
    (current target : Row) (edge : Edge) (related : List Action) (o : Outcome)
    → evaluate_edge current target edge related ≡ ok o
    → o.post_gate_required ≡ true
    → (unrepresented target related ≡ [])
      × ((target.api ≡ current.api) ⊎ (valid_transition current target edge related ≡ true))
unfolding evaluate_edge
evaluate_edge_gate current target edge related o h g = ground arith

evaluate_tuples_gate :
    (manifest : Manifest) (current target : Row) (related : List Action) (o : Outcome)
    → evaluate_tuples manifest current target related ≡ ok o
    → o.post_gate_required ≡ true
    → (unrepresented target related ≡ []) × Route manifest current target related
unfolding evaluate_tuples evaluate_edges
evaluate_tuples_gate manifest current target related o h g =
    elim (Bool-cases (str_eq current.id target.id)) [
      | inl same ↦ (ground arith, inl ((eq_iff current.id target.id).0 same))
      | inr differ ↦ go (keep (is_edge current target) manifest.rolling_edges) refl (rw differ at h)
    ]
  where
    go :
        (edges : List Edge)
        → keep (is_edge current target) manifest.rolling_edges ≡ edges
        → evaluate_edges current target related edges ≡ ok o
        → (unrepresented target related ≡ []) × Route manifest current target related
    go [] e q = ground arith
    go (edge ∷ []) e q =
        let (covered, step) = evaluate_edge_gate current target edge related o q g in
        let (i, t) =
          keep-mem (is_edge current target) {xs = manifest.rolling_edges}
            (subst (Memᴰ edge) (sym e) (Memᴰ.head refl)) in
        (covered, inr (edge, i, t, step))
    go (edge ∷ other ∷ more) e q = cc

-- All that stands behind an allowed transaction.
pub record IsAllowed (compare_versions : String → String → String → Bool) (plan : List Action)
    (manifest : Manifest) (policy : Policy) (context : Context) (related : List Action)
    : Type 0 where
  pub current : Row
  pub target : Row
  pub mode_ok : (policy.mode ≡ "QUALIFIED_AUTO") ⊎ (policy.mode ≡ "QUALIFIED_ONLY")
  pub current_listed : Memᴰ current manifest.tuples
  pub current_ok :
      Qualifies context.api (runtime_of policy context) (version_of context.installed) current
  pub target_listed : Memᴰ target manifest.tuples
  pub target_api : IsPlannedApi target.api
  pub target_ok :
      Qualifies target.api
        (runtime_of policy context)
        (resulting_versions (version_of context.installed) plan)
        target
  pub identity_ok : All (λ a. identity_change a ≡ none) related
  pub compatible :
      known_incompatible compare_versions manifest
        (resulting_versions (version_of context.installed) plan)
      ≡ none
  pub covered : All (Represents target) related
  pub route : Route manifest current target related

evaluate_matches_gate :
    (manifest : Manifest) (a b : Option Row) (related : List Action) (o : Outcome)
    → evaluate_matches manifest a b related ≡ ok o
    → o.post_gate_required ≡ true
    → (current : Row) × (target : Row) × (a ≡ some current)
      × (b ≡ some target)
      × (unrepresented target related ≡ [])
      × Route manifest current target related
unfolding evaluate_matches
evaluate_matches_gate manifest (some current) (some target) related o h g =
    let (covered, route) = evaluate_tuples_gate manifest current target related o h g in
    (current, target, refl, refl, covered, route)
evaluate_matches_gate manifest (some current) none related o h g = absurd (ground arith)
evaluate_matches_gate manifest none (some target) related o h g = absurd (ground arith)
evaluate_matches_gate manifest none none related o h g = absurd (ground arith)

module _ (compare_versions : String → String → String → Bool) where
  -- The tests before the lookups have passed.
  evaluate_qualified_checks :
      (plan : List Action) (manifest : Manifest) (policy : Policy) (context : Context)
      (related : List Action) (o : Outcome)
      → evaluate_qualified compare_versions plan manifest policy context related ≡ ok o
      → o.post_gate_required ≡ true
      → (unsupported_identity_changes related ≡ [])
        × (known_incompatible compare_versions manifest
              (resulting_versions (version_of context.installed) plan)
            ≡ none)
  unfolding evaluate_qualified
  evaluate_qualified_checks plan manifest policy context related o h g = ground arith

  evaluate_qualified_gate :
      (plan : List Action) (manifest : Manifest) (policy : Policy) (context : Context)
      (related : List Action) (o : Outcome)
      → (policy.mode ≡ "QUALIFIED_AUTO") ⊎ (policy.mode ≡ "QUALIFIED_ONLY")
      → evaluate_qualified compare_versions plan manifest policy context related ≡ ok o
      → o.post_gate_required ≡ true
      → IsAllowed compare_versions plan manifest policy context related
  unfolding evaluate_qualified
  evaluate_qualified_gate plan manifest policy context related o m h g =
      let installed = version_of context.installed in
      let rt = runtime_of policy context in
      let (same, fine) = evaluate_qualified_checks plan manifest policy context related o h g in
      let (a, ea, h1) =
        >>=-eq-ok (exact_tuple manifest installed context.api rt) _
          (rw (same, fine, evaluate_qualified) at h) in
      let (b, eb, h2) =
        >>=-eq-ok (planned_tuple manifest (resulting_versions installed plan) rt) _ h1 in
      let (current, target, ca, tb, covered, route) =
        evaluate_matches_gate manifest a b related o h2 g in
      let (ci, cq, calone) =
        exact_tuple-Answers manifest installed context.api rt (some current) (ea ∙ ap ok ca) in
      let (ti, tp, tq, talone) =
        planned_tuple-Answers manifest (resulting_versions installed plan) rt target
          (eb ∙ ap ok tb) in
      record {
        current = current;
        target = target;
        mode_ok = m;
        current_listed = ci;
        current_ok = cq;
        target_listed = ti;
        target_api = tp;
        target_ok = tq;
        identity_ok = identity_unchanged related same;
        compatible = fine;
        covered = unrepresented-eq-nil target related covered;
        route = route;
      }

  evaluate_mode_gate :
      (plan : List Action) (manifest : Manifest) (policy : Policy) (context : Context)
      (related : List Action) (o : Outcome)
      → evaluate_mode compare_versions plan manifest policy context related ≡ ok o
      → o.post_gate_required ≡ true
      → ((policy.mode ≡ "QUALIFIED_AUTO") ⊎ (policy.mode ≡ "QUALIFIED_ONLY"))
        × (evaluate_qualified compare_versions plan manifest policy context related ≡ ok o)
  unfolding evaluate_mode
  evaluate_mode_gate plan manifest policy context related o h g =
      ground (arith, eq_iff policy.mode "QUALIFIED_AUTO", eq_iff policy.mode "QUALIFIED_ONLY")

module _ (fullmatch : String → String → Bool)
    (compare_versions : String → String → String → Bool) where
  -- A transaction that is allowed with a post gate runs in a qualified mode, starts from a catalogued
  -- qualified tuple, leads to one whose packages are exactly the versions that it leaves installed,
  -- changes no package's architecture or Multi-Arch, is not known to be incompatible, touches no
  -- watched package outside the target tuple, and stays on its tuple or follows a qualified edge.
  pub evaluate-IsAllowed :
      (plan : List Action) (manifest : Manifest) (policy : Policy) (context : Context) (o : Outcome)
      → evaluate fullmatch compare_versions plan manifest policy context ≡ ok o
      → o.post_gate_required ≡ true
      → IsAllowed compare_versions plan manifest policy context
          (relevant_actions fullmatch manifest plan)
  unfolding evaluate
  evaluate-IsAllowed plan manifest policy context o h g =
      let related = relevant_actions fullmatch manifest plan in
      let (m, q) =
        evaluate_mode_gate compare_versions plan manifest policy context related o (ground arith)
          g in
      evaluate_qualified_gate compare_versions plan manifest policy context related o m q g
