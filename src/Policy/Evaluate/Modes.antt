-- ===== src/Policy/Evaluate/Modes.antt =====
-- The verdicts by mode, and the post gate.
use proxmox_sharedlvmthin.Base.{
  String, Bool, true, inl, inr, ◌↔◌, List, [], ◌∷◌, ◌≡◌, ◌≢◌, arith, str_eq, is_empty, Bool-cases,
  Option-cases, List-cases, ok, Option, none, some, >>=-eq-ok, ◌>>=◌,
}
use proxmox_sharedlvmthin.Policy.Data.{Action, Row, Edge, Manifest, Policy, Context, version_of}
use proxmox_sharedlvmthin.Policy.Tuples.{
  exact_tuple, planned_tuple, resulting_versions, known_incompatible,
}
use proxmox_sharedlvmthin.Policy.Evaluate.{
  allow_unrelated, Outcome, evaluate_edge, evaluate_edges, evaluate_tuples, evaluate_matches,
  relevant_actions, evaluate_qualified, evaluate_mode, evaluate, runtime_of,
  unsupported_identity_changes,
}
use proxmox_sharedlvmthin.Policy.Evaluate.Laws.{IsQualifiedVerdict}

abbrev pub IsGated : List Action → Outcome → Type 0
IsGated related o =
    (o.relevant ≡ related)
    × ((o.post_gate_required ≡ true) ↔ IsQualifiedVerdict o.verdict)
    × (o.verdict ≢ allow_unrelated)

evaluate_edge-IsGated :
    (current target : Row) (edge : Edge) (related : List Action) (o : Outcome)
    → evaluate_edge current target edge related ≡ ok o
    → IsGated related o
unfolding evaluate_edge
evaluate_edge-IsGated current target edge related o h = ground arith

evaluate_edges-IsGated :
    (current target : Row) (related : List Action) (edges : List Edge) (o : Outcome)
    → evaluate_edges current target related edges ≡ ok o
    → IsGated related o
unfolding evaluate_edges
evaluate_edges-IsGated current target related [] o h = ground arith
evaluate_edges-IsGated current target related (e ∷ []) o h =
    evaluate_edge-IsGated current target e related o h
evaluate_edges-IsGated current target related (e ∷ f ∷ es) o h = cc

evaluate_tuples-IsGated :
    (manifest : Manifest) (current target : Row) (related : List Action) (o : Outcome)
    → evaluate_tuples manifest current target related ≡ ok o
    → IsGated related o
unfolding evaluate_tuples
evaluate_tuples-IsGated manifest current target related o h =
    elim (Bool-cases (str_eq current.id target.id)) [
      | inl same ↦ ground arith
      | inr differ ↦ evaluate_edges-IsGated current target related _ o (rw differ at h)
    ]

evaluate_matches-IsGated :
    (manifest : Manifest) (a b : Option Row) (related : List Action) (o : Outcome)
    → evaluate_matches manifest a b related ≡ ok o
    → IsGated related o
unfolding evaluate_matches
evaluate_matches-IsGated manifest (some c) (some t) related o h =
    evaluate_tuples-IsGated manifest c t related o h
evaluate_matches-IsGated manifest (some c) none related o h = ground arith
evaluate_matches-IsGated manifest none b related o h = ground arith

module _ (compare_versions : String → String → String → Bool) where
  lookups-IsGated :
      (plan : List Action) (manifest : Manifest) (policy : Policy) (context : Context)
      (related : List Action) (o : Outcome)
      → (exact_tuple manifest (version_of context.installed) context.api (runtime_of policy context)
          >>= λ current.
              planned_tuple manifest
                (resulting_versions (version_of context.installed) plan)
                (runtime_of policy context)
              >>= λ target. evaluate_matches manifest current target related)
        ≡ ok o
      → IsGated related o
  lookups-IsGated plan manifest policy context related o h =
      let (a, ea, h1) =
        >>=-eq-ok
          (exact_tuple manifest (version_of context.installed) context.api
            (runtime_of policy context))
          _ h in
      let (b, eb, h2) =
        >>=-eq-ok
          (planned_tuple manifest (resulting_versions (version_of context.installed) plan)
            (runtime_of policy context))
          _ h1 in
      evaluate_matches-IsGated manifest a b related o h2

  evaluate_qualified-IsGated :
      (plan : List Action) (manifest : Manifest) (policy : Policy) (context : Context)
      (related : List Action) (o : Outcome)
      → evaluate_qualified compare_versions plan manifest policy context related ≡ ok o
      → IsGated related o
  unfolding evaluate_qualified
  evaluate_qualified-IsGated plan manifest policy context related o h =
      elim (Bool-cases (is_empty (unsupported_identity_changes related))) [
        | inr changed ↦ ground arith
        | inl same ↦
            elim (Option-cases (
              known_incompatible compare_versions manifest
                (resulting_versions (version_of context.installed) plan))) [
                  | inr (rule, e) ↦ ground arith
                  | inl fine ↦
                      lookups-IsGated plan manifest policy context related o
                        (rw (same, fine, evaluate_qualified) at h)
                ]
      ]

  evaluate_mode-IsGated :
      (plan : List Action) (manifest : Manifest) (policy : Policy) (context : Context)
      (related : List Action) (o : Outcome)
      → evaluate_mode compare_versions plan manifest policy context related ≡ ok o
      → IsGated related o
  unfolding evaluate_mode
  evaluate_mode-IsGated plan manifest policy context related o h =
      ground (arith, evaluate_qualified-IsGated plan manifest policy context related o)

module _ (fullmatch : String → String → Bool)
    (compare_versions : String → String → String → Bool) where
  -- Whatever the mode, an outcome names exactly the watched actions, asks for the post gate exactly
  -- when its verdict is ALLOW_QUALIFIED or ALLOW_QUALIFIED_EDGE, and is ALLOW_UNRELATED exactly when
  -- no action is watched.
  pub evaluate_gate :
      (plan : List Action) (manifest : Manifest) (policy : Policy) (context : Context) (o : Outcome)
      → evaluate fullmatch compare_versions plan manifest policy context ≡ ok o
      → (o.relevant ≡ relevant_actions fullmatch manifest plan)
        × ((o.post_gate_required ≡ true) ↔ IsQualifiedVerdict o.verdict)
        × ((o.verdict ≡ allow_unrelated) ↔ (relevant_actions fullmatch manifest plan ≡ []))
  unfolding evaluate
  evaluate_gate plan manifest policy context o h =
      elim (List-cases (relevant_actions fullmatch manifest plan)) [
        | inl none_watched ↦ ground arith
        | inr some_watched ↦ ground (
          arith,
          evaluate_mode-IsGated compare_versions plan manifest policy context
              (relevant_actions fullmatch manifest plan) o,
        )
      ]
