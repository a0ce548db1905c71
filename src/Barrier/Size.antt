-- ===== src/Barrier/Size.antt =====
-- An accepted plan has three actions for each of its four nodes.
use proxmox_sharedlvmthin.Base.{
  ◌*◌, String, true, List, [], ◌∷◌, ◌++◌, map, length, ok, ◌≡◌, refl, arith, >>=-eq-ok, ==_iff,
  length-append, &&_right,
}
use proxmox_sharedlvmthin.Base.Int.{ℤ}
use proxmox_sharedlvmthin.Base.Checks.{requires, requires-Passed}
use proxmox_sharedlvmthin.Base.Json.{
  Value, null, int, flag, str, blob, array, dict, Items, nil, cons, get, items, list_of, equals,
  equal_items, text_of, is_array,
}
use proxmox_sharedlvmthin.Barrier.Enrollment.{
  head_checks, check_participants, order_checks, validate_plan, action, names_of, expected_actions,
  items_of,
}

length-map : (f : String → Value) (xs : List String) → length (map f xs) ≡ length xs
length-map f [] = refl
length-map f (x ∷ xs) = omega (arith, length-map f xs)

pub length-items : (f : Value → String) (vs : List Value) → length (map f vs) ≡ length vs
length-items f [] = refl
length-items f (v ∷ vs) = omega (arith, length-items f vs)

equal_items-length :
    (xs : Items) (vs : List Value)
    → equal_items xs (items_of vs) ≡ true
    → length (list_of xs) ≡ length vs
unfolding equals
equal_items-length nil [] h = refl
equal_items-length nil (v ∷ vs) h = cc
equal_items-length (cons x xs) [] h = cc
equal_items-length (cons x xs) (v ∷ vs) h =
    omega (arith, equal_items-length xs vs (&&_right (equals x v) (equal_items xs (items_of vs)) h))

equals-length :
    (v : Value) (vs : List Value)
    → equals v (array (items_of vs)) ≡ true
    → length (items v) ≡ length vs
unfolding equals items
equals-length (array xs) vs h = equal_items-length xs vs h
equals-length null vs h = cc
equals-length (flag b) vs h = cc
equals-length (int n) vs h = cc
equals-length (str s) vs h = cc
equals-length (blob b) vs h = cc
equals-length (dict fs) vs h = cc

expected-length : (names : List String) → length (expected_actions names) ≡ 3 * length names
expected-length names =
    let one =
      length-append (map (action "ENTRY_BLOCK") names)
        (map (action "SERVICE_DRAIN") names ++ map (action "FINAL_AUDIT") names) in
    let two =
      length-append (map (action "SERVICE_DRAIN") names) (map (action "FINAL_AUDIT") names) in
    omega (
      arith,
      one,
      two,
      length-map (action "ENTRY_BLOCK") names,
      length-map (action "SERVICE_DRAIN") names,
      length-map (action "FINAL_AUDIT") names,
    )

-- An accepted plan has twelve actions.
pub validate_plan-length :
    (now : ℤ) (plan : Value)
    → validate_plan now plan ≡ ok tt
    → length (items (get "actions" plan)) ≡ 12
unfolding validate_plan
validate_plan-length now plan h =
    let (_, heads, h1) = >>=-eq-ok (requires (head_checks now plan)) _ h in
    let (_, _, orders) = >>=-eq-ok (check_participants (items (get "participants" plan))) _ h1 in
    let (_, (_, (_, (_, (_, (_, (four, _))))))) = requires-Passed (head_checks now plan) heads in
    let (_, (_, (closed, _))) = requires-Passed (order_checks plan) orders in
    let names = names_of plan in
    let same_ =
      equals-length (get "actions" plan) (expected_actions names)
        (&&_right (is_array (get "actions" plan)) _ closed) in
    let people : length (items (get "participants" plan)) ≡ 4 =
      (==_iff (length (items (get "participants" plan))) 4).0
        (&&_right (is_array (get "participants" plan)) _ four) in
    omega (
      arith,
      same_,
      expected-length names,
      length-items (λ row. text_of (get "node" row)) (items (get "participants" plan)),
      people,
    )
