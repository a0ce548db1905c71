-- ===== src/Supervisor/Laws.antt =====
-- A run as a whole, and any number of them.
use proxmox_sharedlvmthin.Base.{
  arith, ◌⊎◌, inl, inr, not, ◌||◌, ◌↔◌, ◌≢◌, String, Bool, true, false, List, [], ◌∷◌, ◌++◌, ◌≡◌,
  refl, sym, ap, ◌∙◌, if◌then◌else◌,
}
use mathlib.Core.List.{append-nil, append_assoc}
use proxmox_sharedlvmthin.Base.Json.{Value, null, flag, int, str, blob, array, dict, is_null}
use proxmox_sharedlvmthin.Base.Effects.{gives, raises, Ending, Emitted}
use proxmox_sharedlvmthin.Supervisor.Model.{
  Backend, Call, settle, append_unknown, new, terminal, unknown, World, ask, persist, enter,
}
use proxmox_sharedlvmthin.Supervisor.Run.{
  attempt, begin, ask_settlement, settle_child, is_unsettled, is_new, preserve, conclude, run,
}
use proxmox_sharedlvmthin.Supervisor.Protocol.{protocol, log, attempt-Emits}
use proxmox_sharedlvmthin.Supervisor.Exit.{Exited, is_exit, attempt-Exited}

-- The calls after a failure: the child is settled if there is one that was not, and it is recorded.
abbrev pub epilogue : Bool → List Call
epilogue true = settle ∷ append_unknown ∷ []
epilogue false = append_unknown ∷ []

-- How a run from the log `before` ends: all calls of the protocol and an exit, or some and why.
abbrev pub Concluded : {S : Type 0} → Value → List Call → World S × Ending Value → Type 0
Concluded request before (w, gives v) =
    (w.phase ≡ terminal) × (w.calls ≡ before ++ protocol) × (is_exit request v ≡ true)
Concluded request before (w, raises kind message) =
    (done : List Call) × (left : List Call) × (settled : Bool) × (w.phase ≡ unknown)
    × (protocol ≡ done ++ left)
    × (w.calls ≡ before ++ done ++ epilogue settled)
    × ((settled ≡ true) ↔ ((w.child ≢ null) × (w.process_settled ≡ false)))

null_cases : (v : Value) → ((is_null v ≡ true) × (v ≡ null)) ⊎ ((is_null v ≡ false) × (v ≢ null))
unfolding is_null
null_cases null = inl (refl, refl)
null_cases (flag b) = inr (refl, λ e. cc)
null_cases (int n) = inr (refl, λ e. cc)
null_cases (str s) = inr (refl, λ e. cc)
null_cases (blob b) = inr (refl, λ e. cc)
null_cases (array xs) = inr (refl, λ e. cc)
null_cases (dict fs) = inr (refl, λ e. cc)

unsettled_case :
    (child : Value) (reaped : Bool)
    → (not (is_null child || reaped) ≡ true) ↔ ((child ≢ null) × (reaped ≡ false))
unsettled_case child reaped = elim (null_cases child) [
  | inl (n, e) ↦ (λ h. absurd (ground (arith, h, n)), λ k. absurd (k.0 e))
  | inr (n, e) ↦ (λ h. (e, ground (arith, h, n)), λ k. ground (arith, k.1, n))
]

is_unsettled-child :
    {S : Type 0} (w : World S)
    → (is_unsettled w ≡ true) ↔ ((w.child ≢ null) × (w.process_settled ≡ false))
unfolding is_null
is_unsettled-child w = unsettled_case w.child w.process_settled

module _ {S : Type 0} (b : Backend S) (normpath : String → String) (digest : Value → String)
    (empty_digest : String) where
  settled_calls :
      (w : World S) (c : Bool)
      → (let s = (if c then ask_settlement b normpath digest empty_digest w else (w, null)).0 in
          (s.phase ≡ w.phase)
          × (s.child ≡ w.child)
          × (s.process_settled ≡ w.process_settled)
          × (s.calls ++ (append_unknown ∷ []) ≡ w.calls ++ epilogue c))
  unfolding ask_settlement ask
  settled_calls w true =
      (refl, refl, refl, append_assoc w.calls (settle ∷ []) (append_unknown ∷ []))
  settled_calls w false = (refl, refl, refl, refl)

  preserve_calls :
      (message : String) (w : World S)
      → (let w' = preserve b normpath digest empty_digest message w in
          (w'.phase ≡ unknown)
          × (w'.child ≡ w.child)
          × (w'.process_settled ≡ w.process_settled)
          × (w'.calls ≡ w.calls ++ epilogue (is_unsettled w)))
  unfolding preserve settle_child persist
  preserve_calls message w = settled_calls (enter unknown w) (is_unsettled w)

  conclude-Concluded :
      (request : Value) (before : List Call) (step : World S × Ending Value)
      → Emitted log protocol before step
      → ((v : Value) → step.1 ≡ gives v → Exited request step.0 v)
      → Concluded request before (conclude b normpath digest empty_digest step)
  unfolding conclude
  conclude-Concluded request before (w, gives v) (done, left, grown, split, ended) exited =
      let (at_end, shown) = exited v refl in
      let whole : protocol ≡ done = split ∙ ap (λ l. done ++ l) ended ∙ append-nil done in
      (at_end, grown ∙ ap (λ l. before ++ l) (sym whole), shown)
  conclude-Concluded request before (w, raises kind message) (done, left, grown, split, _) exited =
      let (lost, same_child, same_end, calls) = preserve_calls message w in
      (
        done,
        left,
        is_unsettled w,
        lost,
        split,
        calls ∙ ap (λ l. l ++ epilogue (is_unsettled w)) grown,
        rw (same_child, same_end) (is_unsettled-child w),
      )

  pub run-Concluded :
      (request owner : Value) (w : World S)
      → w.phase ≡ new
      → Concluded request w.calls (run b normpath digest empty_digest request owner w)
  unfolding run
  run-Concluded request owner w fresh =
      let e : is_new w.phase ≡ true = ap is_new fresh in
      rw e (
        conclude-Concluded request w.calls
          (attempt b normpath digest empty_digest request owner (begin w))
          ((attempt-Emits b normpath digest empty_digest request owner).emitted (begin w))
          ((attempt-Exited b normpath digest empty_digest request owner).returned (begin w)))
