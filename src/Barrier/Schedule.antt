-- ===== src/Barrier/Schedule.antt =====
-- The calls of a run under an accepted plan, from the names of its nodes.
use proxmox_sharedlvmthin.Base.{
  ℕ, suc, String, Bool, true, List, [], ◌∷◌, ◌++◌, map, length, ok, ◌≡◌, refl, sym, ap, ◌∙◌, arith,
  ==_iff, &&_left, &&_right, >>=-eq-ok,
}
use proxmox_sharedlvmthin.Base.Int.{ℤ}
use proxmox_sharedlvmthin.Base.Checks.{requires, requires-Passed}
use proxmox_sharedlvmthin.Base.Json.{
  Value, null, flag, int, blob, array, dict, str, Items, nil, cons, get, equals, equal_items, items,
  list_of, text_of, is_match, is_nonempty, is_array, str-eq,
}
use proxmox_sharedlvmthin.Base.Json.Laws.{equals-get}
use proxmox_sharedlvmthin.Barrier.Enrollment.{
  action, items_of, names_of, head_checks, order_checks, validate_plan, expected_actions,
  check_participants, participant_checks,
}
use proxmox_sharedlvmthin.Barrier.Controller.{
  Call, now, observe_node, mask_persistent, drain_services,
}
use proxmox_sharedlvmthin.Barrier.Protocol.{
  opening, preflight_calls, barrier_calls, effect, recorded, all_calls, work, protocol,
}
use proxmox_sharedlvmthin.Barrier.Run.{model_held}
use proxmox_sharedlvmthin.Barrier.Size.{length-items}
use mathlib.Core.List.{append_assoc}

abbrev pub looks : List String → List Call
looks [] = []
looks (name ∷ names) = observe_node (str name) ∷ now ∷ looks names

abbrev pub preflights : List String → List Call
preflights [] = []
preflights (name ∷ names) = now ∷ observe_node (str name) ∷ now ∷ preflights names

-- One step on every node, its actions numbered from the index on.
abbrev pub phase : (Value → Call) → ℕ → List String → List Call
phase call index [] = []
phase call index (name ∷ names) = recorded index (call (str name)) ++ phase call (suc index) names

-- All nodes are looked at and blocked, and looked at again.
abbrev pub entry_phase : List String → List Call
entry_phase names = opening ++ (preflights names ++ (phase mask_persistent 0 names ++ looks names))

-- Then all are drained, and all are audited.
abbrev pub drain_phase : List String → List Call
drain_phase names = phase drain_services 4 names ++ (phase observe_node 8 names ++ (now ∷ []))

abbrev pub schedule : List String → List Call
schedule names = entry_phase names ++ drain_phase names

is_match-str :
    (pattern_ : String → Bool) (v : Value) → is_match pattern_ v ≡ true → v ≡ str (text_of v)
unfolding is_match
is_match-str pattern_ (str s) h = refl
is_match-str pattern_ null h = cc
is_match-str pattern_ (flag b) h = cc
is_match-str pattern_ (int n) h = cc
is_match-str pattern_ (blob b) h = cc
is_match-str pattern_ (array xs) h = cc
is_match-str pattern_ (dict fs) h = cc

named_row :
    (row : Value)
    → requires (participant_checks row) ≡ ok tt
    → get "node" row ≡ str (text_of (get "node" row))
named_row row h =
    let (_, (texts, _)) = requires-Passed (participant_checks row) h in
    is_match-str is_nonempty (get "node" row) (&&_left _ _ (&&_left _ _ texts))

preflight_calls-preflights :
    (rows : List Value)
    → check_participants rows ≡ ok tt
    → (preflight_calls rows ≡ preflights (map (λ row. text_of (get "node" row)) rows))
      × (barrier_calls rows ≡ looks (map (λ row. text_of (get "node" row)) rows))
unfolding check_participants
preflight_calls-preflights [] h = (refl, refl)
preflight_calls-preflights (row ∷ rows) h =
    let (_, first, others) = >>=-eq-ok (requires (participant_checks row)) _ h in
    let (p, q) = preflight_calls-preflights rows others in
    let named = named_row row first in
    (
      ap (λ v. now ∷ observe_node v ∷ now ∷ preflight_calls rows) named
          ∙ ap (λ l. now ∷ observe_node (str (text_of (get "node" row))) ∷ now ∷ l) p,
      ap (λ v. observe_node v ∷ now ∷ barrier_calls rows) named
          ∙ ap (λ l. observe_node (str (text_of (get "node" row))) ∷ now ∷ l) q,
    )

effect_same :
    (act : Value) (step node : String)
    → equals act (action step node) ≡ true
    → effect act ≡ effect (action step node)
unfolding get
effect_same act step node h =
    let s : get "step" act ≡ str step =
      str-eq step (get "step" act) (equals-get "step" act (action step node) h) in
    let n : get "node" act ≡ str node =
      str-eq node (get "node" act) (equals-get "node" act (action step node) h) in
    rw (s, n) refl

abbrev actions_of : List (String × String) → List Value
actions_of [] = []
actions_of ((step, node) ∷ rest) = action step node ∷ actions_of rest

abbrev steps : String → List String → List (String × String)
steps step [] = []
steps step (name ∷ names) = (step, name) ∷ steps step names

all_calls_same :
    (gate : List Call) (index : ℕ) (xs : Items) (pairs : List (String × String))
    → equal_items xs (items_of (actions_of pairs)) ≡ true
    → all_calls gate index (list_of xs) ≡ all_calls gate index (actions_of pairs)
unfolding equals
all_calls_same gate index nil [] h = refl
all_calls_same gate index nil (p ∷ rest) h = cc
all_calls_same gate index (cons v xs) [] h = cc
all_calls_same gate index (cons v xs) ((step, node) ∷ rest) h =
    rw
      (
        effect_same v step node (&&_left _ _ h),
        all_calls_same gate (suc index) xs rest (&&_right (equals v (action step node)) _ h),
      )
      refl

-- With the four names known, both lists are written out.
planned_calls :
    (names : List String) (xs : Items)
    → length names ≡ 4
    → equal_items xs (items_of (expected_actions names)) ≡ true
    → all_calls (looks names) 0 (list_of xs) ++ (now ∷ [])
      ≡ (phase mask_persistent 0 names ++ looks names) ++ drain_phase names
unfolding equals get
planned_calls (a ∷ b ∷ c ∷ d ∷ []) xs four h =
    let names = a ∷ b ∷ c ∷ d ∷ [] in
    ap (λ l. l ++ (now ∷ []))
      (all_calls_same (looks names) 0 xs
        (steps "ENTRY_BLOCK" names ++ (steps "SERVICE_DRAIN" names ++ steps "FINAL_AUDIT" names)) h)
planned_calls [] xs four h = cc
planned_calls (a ∷ []) xs four h = absurd (omega (arith, four))
planned_calls (a ∷ b ∷ []) xs four h = absurd (omega (arith, four))
planned_calls (a ∷ b ∷ c ∷ []) xs four h = absurd (omega (arith, four))
planned_calls (a ∷ b ∷ c ∷ d ∷ e ∷ names) xs four h = absurd (omega (arith, four))

planned_items :
    (names : List String) (acts : Value)
    → length names ≡ 4
    → equals acts (array (items_of (expected_actions names))) ≡ true
    → all_calls (looks names) 0 (items acts) ++ (now ∷ [])
      ≡ (phase mask_persistent 0 names ++ looks names) ++ drain_phase names
unfolding equals items
planned_items names (array xs) four h = planned_calls names xs four h
planned_items names null four h = cc
planned_items names (flag b) four h = cc
planned_items names (int n) four h = cc
planned_items names (str s) four h = cc
planned_items names (blob b) four h = cc
planned_items names (dict fs) four h = cc

-- The whole protocol of an accepted plan is the schedule of its names.
pub protocol-schedule :
    (at : ℤ) (plan : Value)
    → validate_plan at plan ≡ ok tt
    → protocol plan model_held ≡ schedule (names_of plan)
unfolding validate_plan
protocol-schedule at plan h =
    let (_, heads, h1) = >>=-eq-ok (requires (head_checks at plan)) _ h in
    let (_, rows, orders) = >>=-eq-ok (check_participants (items (get "participants" plan))) _ h1 in
    let (_, (_, (_, (_, (_, (_, (four, _))))))) = requires-Passed (head_checks at plan) heads in
    let (_, (_, (closed, _))) = requires-Passed (order_checks plan) orders in
    let names = names_of plan in
    let size : length names ≡ 4 =
      length-items (λ row. text_of (get "node" row)) (items (get "participants" plan))
      ∙ (==_iff (length (items (get "participants" plan))) 4).0
          (&&_right (is_array (get "participants" plan)) _ four) in
    let (p, q) = preflight_calls-preflights (items (get "participants" plan)) rows in
    let planned =
      planned_items names (get "actions" plan) size
        (&&_right (is_array (get "actions" plan)) _ closed) in
    let joined : opening ++ work plan
        ≡ opening
          ++ (preflights names
              ++ ((phase mask_persistent 0 names ++ looks names) ++ drain_phase names)) =
      rw (p, q, planned) refl in
    joined
    ∙ ap (λ l. opening ++ l)
        (sym (
          append_assoc (preflights names) (phase mask_persistent 0 names ++ looks names)
            (drain_phase names)))
