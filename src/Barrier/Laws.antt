-- ===== src/Barrier/Laws.antt =====
-- When the journal lets a run begin, and when it shows a finished one.
use proxmox_sharedlvmthin.Base.{
  ℕ, suc, ◌+◌, ◌*◌, ◌≤◌, String, Bool, true, false, List, [], ◌∷◌, Option, none, some, length,
  is_empty, Result, ok, ok_injective, ◌≡◌, ◌↔◌, refl, sym, subst, arith, >>=-eq-ok,
}
use proxmox_sharedlvmthin.Base.Int.{ℤ}
use proxmox_sharedlvmthin.Base.Checks.{requires, requires-Passed}
use proxmox_sharedlvmthin.Base.Json.{
  Value, null, int, flag, str, blob, array, dict, nil, cons, get, items, is_array,
}
use proxmox_sharedlvmthin.Barrier.Enrollment.{validate_plan}
use proxmox_sharedlvmthin.Barrier.Journal.{
  Slot, slots, check_event, read_events, read_history, fresh, completed_historical, is_pending,
  start_of, start,
}
use proxmox_sharedlvmthin.Barrier.Size.{validate_plan-length}

-- A place was found after that many events: its index counts the actions that are complete.
abbrev Found : ℕ → List Value → List Value → ℕ × Option String → Type 0
Found n acts rows (index, missing) =
    (3 * index ≤ 3 * n + length rows)
    × (is_pending missing ≡ false → 3 * index ≡ 3 * n + length rows)
    × (length rows ≤ 3 * length acts)

Found-three :
    (n : ℕ) (acts rows : List Value) (a r1 r2 r3 : Value) (found : ℕ × Option String)
    → Found (suc n) acts rows found
    → Found n (a ∷ acts) (r1 ∷ r2 ∷ r3 ∷ rows) found
Found-three n acts rows a r1 r2 r3 (index, missing) (low, at_start, all_) =
    (omega (arith, low), λ p. omega (arith, at_start p), omega (arith, all_))

module _ (is_sorted_set : List Value → Result Bool) (plan : Value) (plan_sha256 : String) where
  -- Each event is accepted at its place, from the first place on.
  abbrev pub Follows : List Slot → List Value → Type 0
  Follows rest [] = Unit {0}
  Follows [] (row ∷ rows) = ⊥
  Follows (slot ∷ rest) (row ∷ rows) =
      (check_event is_sorted_set plan plan_sha256 slot row ≡ ok tt) × Follows rest rows

  read_events-Follows :
      (count : ℕ) (rest : List Slot) (rows : List Value) {found : ℕ × Option String}
      → read_events is_sorted_set plan plan_sha256 count rest rows ≡ ok found
      → Follows rest rows
  unfolding read_events
  read_events-Follows count rest [] h = tt
  read_events-Follows count [] (row ∷ rows) h = cc
  read_events-Follows count (slot ∷ rest) (row ∷ rows) h =
      let (u, first, others) =
        >>=-eq-ok (check_event is_sorted_set plan plan_sha256 slot row) _ h in
      (first, read_events-Follows count rest rows others)

  read_events-Found :
      (count n : ℕ) (acts rows : List Value) {found : ℕ × Option String}
      → read_events is_sorted_set plan plan_sha256 count (slots n acts) rows ≡ ok found
      → count ≡ n + length acts
      → Found n acts rows found
  unfolding read_events
  read_events-Found count n [] [] h c =
      subst (Found n [] []) (ok_injective h) (omega (arith, c), λ p. omega (arith, c), omega arith)
  read_events-Found count n [] (row ∷ rows) h c = cc
  read_events-Found count n (a ∷ acts) [] h c =
      subst (Found n (a ∷ acts) []) (ok_injective h) (omega arith, λ p. omega arith, omega arith)
  read_events-Found count n (a ∷ acts) (r1 ∷ []) h c =
      let (_, _, h1) =
        >>=-eq-ok (check_event is_sorted_set plan plan_sha256 (n, a, "INTENT_DURABLE") r1) _ h in
      subst (Found n (a ∷ acts) (r1 ∷ [])) (ok_injective h1) (omega arith, λ p. cc, omega arith)
  read_events-Found count n (a ∷ acts) (r1 ∷ r2 ∷ []) h c =
      let (_, _, h1) =
        >>=-eq-ok (check_event is_sorted_set plan plan_sha256 (n, a, "INTENT_DURABLE") r1) _ h in
      let (_, _, h2) =
        >>=-eq-ok (check_event is_sorted_set plan plan_sha256 (n, a, "ATTEMPTED") r2) _ h1 in
      subst (Found n (a ∷ acts) (r1 ∷ r2 ∷ [])) (ok_injective h2)
        (omega arith, λ p. cc, omega arith)
  read_events-Found count n (a ∷ acts) (r1 ∷ r2 ∷ r3 ∷ rows) {found} h c =
      let (_, _, h1) =
        >>=-eq-ok (check_event is_sorted_set plan plan_sha256 (n, a, "INTENT_DURABLE") r1) _ h in
      let (_, _, h2) =
        >>=-eq-ok (check_event is_sorted_set plan plan_sha256 (n, a, "ATTEMPTED") r2) _ h1 in
      let (_, _, h3) =
        >>=-eq-ok (check_event is_sorted_set plan plan_sha256 (n, a, "OBSERVED_COMPLETE") r3) _
          h2 in
      Found-three n acts rows a r1 r2 r3 found
        (read_events-Found count (suc n) acts rows h3 (omega (arith, c)))

  read_history-Found :
      (history : Value) {found : ℕ × Option String}
      → read_history is_sorted_set plan plan_sha256 history ≡ ok found
      → (is_array history ≡ true)
        × Follows (slots 0 (items (get "actions" plan))) (items history)
        × Found 0 (items (get "actions" plan)) (items history) found
  unfolding read_history
  read_history-Found history h =
      let acts = items (get "actions" plan) in
      let (_, list_, h1) =
        >>=-eq-ok (requires ((is_array history, "journal history invalid") ∷ [])) _ h in
      (
        (requires-Passed ((is_array history, "journal history invalid") ∷ []) list_).0,
        read_events-Follows (length acts) (slots 0 acts) (items history) h1,
        read_events-Found (length acts) 0 acts (items history) h1 (omega arith),
      )

  fresh-found :
      (history : Value) (index : ℕ) (missing : Option String)
      → start_of is_sorted_set plan plan_sha256 history (index, missing) ≡ ok fresh
      → is_empty (items history) ≡ true
  fresh-found history index missing h = ground (arith, h)

  completed_found :
      (history : Value) (index : ℕ) (missing : Option String)
      → start_of is_sorted_set plan plan_sha256 history (index, missing) ≡ ok completed_historical
      → (is_pending missing ≡ false) × (index ≡ length (items (get "actions" plan)))
  completed_found history index missing h = ground (arith, h)

  empty_events :
      (count : ℕ) (acts : List Value)
      → length acts ≡ 12
      → read_events is_sorted_set plan plan_sha256 count (slots 0 acts) []
        ≡ ok (0, some "INTENT_DURABLE")
  unfolding read_events
  empty_events count [] n = cc
  empty_events count (a ∷ acts) n = refl

  fresh-start :
      length (items (get "actions" plan)) ≡ 12
      → start is_sorted_set plan plan_sha256 (array nil) ≡ ok fresh
  unfolding start read_history requires is_array items
  fresh-start n =
      rw (empty_events (length (items (get "actions" plan))) (items (get "actions" plan)) n, n) refl

items-array_nil : (v : Value) → is_array v ≡ true → is_empty (items v) ≡ true → v ≡ array nil
unfolding is_array items
items-array_nil (array nil) a e = refl
items-array_nil (array (cons v vs)) a e = cc
items-array_nil null a e = cc
items-array_nil (flag b) a e = cc
items-array_nil (int n) a e = cc
items-array_nil (str s) a e = cc
items-array_nil (blob b) a e = cc
items-array_nil (dict fs) a e = cc

slots-length : (n : ℕ) (acts : List Value) → length (slots n acts) ≡ 3 * length acts
slots-length n [] = refl
slots-length n (a ∷ acts) = omega (arith, slots-length (suc n) acts)

module _ (is_sorted_set : List Value → Result Bool) (plan : Value) (plan_sha256 : String) where
  read_events-whole :
      (count : ℕ) (rest : List Slot) (rows : List Value)
      → length rows ≡ length rest
      → Follows is_sorted_set plan plan_sha256 rest rows
      → read_events is_sorted_set plan plan_sha256 count rest rows ≡ ok (count, none)
  unfolding read_events
  read_events-whole count [] [] n f = refl
  read_events-whole count [] (row ∷ rows) n f = absurd f
  read_events-whole count (slot ∷ rest) [] n f = cc
  read_events-whole count (slot ∷ rest) (row ∷ rows) n (first, others) =
      rw first (read_events-whole count rest rows (omega (arith, n)) others)

  -- The journal has an event for each place of the plan, in order.
  abbrev pub IsWhole : Value → Type 0
  IsWhole history =
      (is_array history ≡ true)
      × (length (items history) ≡ 36)
      × Follows is_sorted_set plan plan_sha256 (slots 0 (items (get "actions" plan)))
          (items history)

  IsWhole-start :
      (history : Value)
      → length (items (get "actions" plan)) ≡ 12
      → IsWhole history
      → start is_sorted_set plan plan_sha256 history ≡ ok completed_historical
  unfolding start read_history requires
  IsWhole-start history n (list_, size, follows) =
      let acts = items (get "actions" plan) in
      let read : read_events is_sorted_set plan plan_sha256 (length acts) (slots 0 acts)
            (items history)
          ≡ ok (length acts, none) =
        read_events-whole (length acts) (slots 0 acts) (items history)
          (omega (arith, size, n, slots-length 0 acts)) follows in
      rw (list_, read, n) refl

  start-IsWhole :
      (history : Value)
      → length (items (get "actions" plan)) ≡ 12
      → start is_sorted_set plan plan_sha256 history ≡ ok completed_historical
      → IsWhole history
  unfolding start
  start-IsWhole history n h =
      let ((index, missing), found, h1) =
        >>=-eq-ok (read_history is_sorted_set plan plan_sha256 history) _ h in
      let (list_, follows, (_, at_start, _)) =
        read_history-Found is_sorted_set plan plan_sha256 history found in
      let (settled, all_) =
        completed_found is_sorted_set plan plan_sha256 history index missing h1 in
      (list_, omega (arith, at_start settled, all_, n), follows)

  start_empty :
      (history : Value)
      → start is_sorted_set plan plan_sha256 history ≡ ok fresh
      → history ≡ array nil
  unfolding start
  start_empty history h =
      let ((index, missing), found, h1) =
        >>=-eq-ok (read_history is_sorted_set plan plan_sha256 history) _ h in
      let (list_, _, _) = read_history-Found is_sorted_set plan plan_sha256 history found in
      items-array_nil history list_
        (fresh-found is_sorted_set plan plan_sha256 history index missing h1)

-- A run under an accepted plan begins exactly when the journal is empty, and it calls the work
-- finished exactly when the journal is a list of 36 events, each of them accepted at its place.
pub start_verdict :
    (is_sorted_set : List Value → Result Bool) (now : ℤ) (plan : Value) (plan_sha256 : String)
    (history : Value)
    → validate_plan now plan ≡ ok tt
    → ((start is_sorted_set plan plan_sha256 history ≡ ok fresh) ↔ (history ≡ array nil))
      × ((start is_sorted_set plan plan_sha256 history ≡ ok completed_historical)
          ↔ IsWhole is_sorted_set plan plan_sha256 history)
start_verdict is_sorted_set now plan plan_sha256 history valid =
    let n = validate_plan-length now plan valid in
    (
      (
        start_empty is_sorted_set plan plan_sha256 history,
        λ e.
            subst (λ v. start is_sorted_set plan plan_sha256 v ≡ ok fresh) (sym e)
              (fresh-start is_sorted_set plan plan_sha256 n),
      ),
      (
        start-IsWhole is_sorted_set plan plan_sha256 history n,
        IsWhole-start is_sorted_set plan plan_sha256 history n,
      ),
    )
