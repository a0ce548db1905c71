-- ===== src/ConfigCas/Settlement.antt =====
-- When a trace may be classified: only unpoisoned, in time, and by the bytes that were read.
use proxmox_sharedlvmthin.Base.{
  ℕ, suc, ◌≤◌, Bool, true, false, not, ◌&&◌, ◌||◌, Option, none, some, List, [], ◌∷◌, ◌++◌, ok,
  >>=-eq-ok, ltb, leb, any, length, is_empty, ◌≡◌, ◌≢◌, ◌⊎◌, inl, inr, refl, subst, ◌∙◌, ap, arith,
  require-eq-ok, Bool-cases,
}
use proxmox_sharedlvmthin.ConfigCas.Effects.{is_phase-eq}
use proxmox_sharedlvmthin.ConfigCas.Trace.{
  Field, text, flag, number, foreign, bytes, absent, Kind, reserve, cas_dispatch, crash, intent_ack,
  receipt_ack, cas_return, quiescence, observe, Event, Request, new, intent_pending, intent_durable,
  cas_dispatched, settlement_pending, observed, terminal, intent_durability_unproven,
  settlement_publication_interrupted, settlement_durability_unproven, is_text, Reason, Seen,
  seen_target, seen_baseline, seen_foreign, seen_unknown, State, eq_bytes, check_envelope, tick,
  observe_as, observe_bytes, observe_error, observe_result, handle, step, run, initial, classify,
  classification_of, evaluate, Report, Classification, target_observed_nonqualified,
  baseline_observed_nonqualified, foreign_observed_retain, compare_bytes, poison_when, add_when,
  deadline, max_events, is_success, is_target, success_observation_contradiction, is_rollback,
  is_expired, wall_clock_rollback, expired,
}

eq_bytes-eq : (xs ys : List ℕ) → eq_bytes xs ys ≡ true → xs ≡ ys
eq_bytes-eq [] [] h = refl
eq_bytes-eq [] (y ∷ ys) h = cc
eq_bytes-eq (x ∷ xs) [] h = cc
eq_bytes-eq (x ∷ xs) (y ∷ ys) h = ground (arith, eq_bytes-eq xs ys)

append_nonempty : (ps : List Reason) (x : Reason) → ¬ (ps ++ x ∷ [] ≡ [])
append_nonempty [] x h = cc
append_nonempty (p ∷ ps) x h = cc

add_when-empty :
    (due : Bool) (x : Reason) (ps : List Reason)
    → add_when due x ps ≡ []
    → (ps ≡ []) × (due ≡ false)
add_when-empty true x ps h = absurd (append_nonempty ps x h)
add_when-empty false x ps h = (h, refl)

poison_when-empty :
    (due : Bool) (p : Reason → Bool) (x : Reason) (ps : List Reason)
    → poison_when due p x ps ≡ []
    → (ps ≡ []) × (due ≡ false)
poison_when-empty false p x ps h = (h, refl)
poison_when-empty true p x [] h = cc
poison_when-empty true p x (q ∷ ps) h = elim (Bool-cases (any p (q ∷ ps))) [
  | inl y ↦ ground (arith, y, h)
  | inr n ↦ ground (arith, n, h, append_nonempty (q ∷ ps) x)
]

-- What holds of an unpoisoned trace, and of the bytes of an observation.
pub record Sound (r : Request) (s : State) : Type 0 where
  pub in_time : s.poison ≡ [] → (s.wall ≤ r.expires_wall_ns) × (s.mono ≤ deadline r)
  pub target_bytes : s.seen ≡ some seen_target → s.observed_raw ≡ some r.target
  pub agrees :
      s.poison ≡ [] → is_success s.outcome ≡ true → (s.seen ≡ none) ⊎ (s.seen ≡ some seen_target)
  pub unseen :
      ((s.settled ≡ false) × (s.seen ≡ none))
      ⊎ ((s.settled ≡ true) × ((s.phase ≡ observed) ⊎ (s.phase ≡ terminal)))

initial-Sound : (r : Request) → r.issued_wall_ns ≤ r.expires_wall_ns → Sound r (initial r)
unfolding initial
initial-Sound r h = ground arith

compare_bytes-target :
    (r : Request) (raw : List ℕ) → compare_bytes r raw ≡ seen_target → raw ≡ r.target
unfolding compare_bytes
compare_bytes-target r raw h = ground (arith, eq_bytes-eq raw r.target)

tick_clean :
    (r : Request) (s : State) (wall mono : ℕ) → (tick r s wall mono).poison ≡ [] → s.poison ≡ []
unfolding tick
tick_clean r s wall mono h =
    let (clean, due) =
      poison_when-empty (ltb r.expires_wall_ns wall || ltb (deadline r) mono) is_expired expired
        (poison_when (ltb wall s.wall) is_rollback wall_clock_rollback s.poison) h in
    (poison_when-empty (ltb wall s.wall) is_rollback wall_clock_rollback s.poison clean).0

observed_clean :
    (s : State) (v : Seen)
    → add_when
        (is_success s.outcome && not (is_target v))
        success_observation_contradiction
        s.poison
      ≡ []
    → (s.poison ≡ []) × ((is_success s.outcome && not (is_target v)) ≡ false)
observed_clean s v h =
    add_when-empty (is_success s.outcome && not (is_target v)) success_observation_contradiction
      s.poison h

tick-Sound : (r : Request) (s : State) (wall mono : ℕ) → Sound r s → Sound r (tick r s wall mono)
unfolding tick
tick-Sound r s wall mono g = record {
  in_time = λ h.
      let (clean, due) =
        poison_when-empty (ltb r.expires_wall_ns wall || ltb (deadline r) mono) is_expired expired
          (poison_when (ltb wall s.wall) is_rollback wall_clock_rollback s.poison) h in
      ground (arith, due);
  target_bytes = g.target_bytes;
  agrees = λ h. g.agrees (tick_clean r s wall mono h);
  unseen = g.unseen;
}

observe_as-Sound :
    (r : Request) (s : State) (raw : Option (List ℕ)) (v : Seen)
    → Sound r s
    → (v ≡ seen_target → raw ≡ some r.target)
    → Sound r (observe_as s raw v)
unfolding observe_as
observe_as-Sound r s raw v g h = record {
  in_time = λ q. g.in_time (observed_clean s v q).0;
  target_bytes = λ q. h (ground (arith, q));
  agrees = λ q y. inr (ground (arith, y, (observed_clean s v q).1));
  unseen = inr (refl, inl refl);
}

observe_error-Sound :
    (r : Request) (s t : State) (raw : Field) → Sound r s → observe_error s raw ≡ ok t → Sound r t
unfolding observe_error
observe_error-Sound r s t raw g e =
    ground (arith, observe_as-Sound r s s.observed_raw seen_unknown g cc)

observe_bytes-Sound :
    (r : Request) (s t : State) (raw : Field) → Sound r s → observe_bytes r s raw ≡ ok t → Sound r t
unfolding observe_bytes
observe_bytes-Sound r s t (bytes raw) g e =
    let sound =
      observe_as-Sound r s (some raw) (compare_bytes r raw) g
        (λ q. ap some (compare_bytes-target r raw q)) in
    ground (arith, sound)
observe_bytes-Sound r s t absent g e = cc
observe_bytes-Sound r s t (flag b) g e = cc
observe_bytes-Sound r s t (number n) g e = cc
observe_bytes-Sound r s t (text x) g e = cc
observe_bytes-Sound r s t foreign g e = cc

observe_result-Sound :
    (r : Request) (s t : State) (result raw : Field)
    → Sound r s
    → observe_result r s result raw ≡ ok t
    → Sound r t
unfolding observe_result
observe_result-Sound r s t result raw g e =
    ground (arith, observe_error-Sound r s t raw g, observe_bytes-Sound r s t raw g)

handle-Sound : (r : Request) (s t : State) (k : Kind) → Sound r s → handle r s k ≡ ok t → Sound r t
unfolding handle
handle-Sound r s t reserve g e = ground (arith, is_phase-eq new s.phase)
handle-Sound r s t (intent_ack durability) g e = ground (
  arith,
  is_phase-eq intent_pending s.phase,
  add_when-empty (not (is_text "DURABLE" durability)) intent_durability_unproven s.poison,
)
handle-Sound r s t cas_dispatch g e = ground (arith, is_phase-eq intent_durable s.phase)
handle-Sound r s t (cas_return outcome detail) g e =
    ground (arith, is_phase-eq cas_dispatched s.phase)
handle-Sound r s t crash g e = ground (
  arith,
  is_phase-eq new s.phase,
  add_when-empty s.settled settlement_publication_interrupted s.poison,
)
handle-Sound r s t (quiescence x y z) g e = ground (arith, is_phase-eq settlement_pending s.phase)
handle-Sound r s t (observe result raw) g e =
    ground (arith, observe_result-Sound r s t result raw g)
handle-Sound r s t (receipt_ack durability) g e = ground (
  arith,
  is_phase-eq observed s.phase,
  add_when-empty (not (is_text "DURABLE" durability)) settlement_durability_unproven s.poison,
)

step-Sound :
    (r : Request) (i : ℕ) (s t : State) (e : Event) → Sound r s → step r i s e ≡ ok t → Sound r t
unfolding step
step-Sound r i s t e g h =
    let (clocks, _c, rest) = >>=-eq-ok (check_envelope r i s e) _ h in
    handle-Sound r (tick r s clocks.0 clocks.1) t e.kind (tick-Sound r s clocks.0 clocks.1 g) rest

run-Sound :
    (r : Request) (i : ℕ) (s t : State) (events : List Event)
    → Sound r s
    → run r i s events ≡ ok t
    → Sound r t
unfolding run
run-Sound r i s t [] g h = ground arith
run-Sound r i s t (e ∷ events) g h =
    let (u, first, rest) = >>=-eq-ok (step r i s e) _ h in
    run-Sound r (suc i) u t events (step-Sound r i s u e g first) rest

-- What a classification as the target rests on.
pub record IsTargetEvidence (r : Request) (s : State) : Type 0 where
  pub receipt : s.receipt_is_durable ≡ true
  pub unpoisoned : s.poison ≡ []
  pub read : s.observed_raw ≡ some r.target
  pub wall_in_time : s.wall ≤ r.expires_wall_ns
  pub mono_in_time : s.mono ≤ deadline r

classification-target :
    (v : Option Seen) → classification_of v ≡ ok target_observed_nonqualified → v ≡ some seen_target
classification-target none h = cc
classification-target (some seen_target) h = refl
classification-target (some seen_baseline) h = cc
classification-target (some seen_foreign) h = cc
classification-target (some seen_unknown) h = cc

is_empty-nil : (ps : List Reason) → is_empty ps ≡ true → ps ≡ []
is_empty-nil [] h = refl
is_empty-nil (p ∷ ps) h = cc

classify-target :
    (s : State)
    → classify s ≡ ok target_observed_nonqualified
    → (s.receipt_is_durable ≡ true) × (s.poison ≡ []) × (s.seen ≡ some seen_target)
unfolding classify
classify-target s h = ground (arith, is_empty-nil s.poison, classification-target s.seen)

evaluated :
    (r : Request) (events : List Event) (report : Report)
    → r.issued_wall_ns ≤ r.expires_wall_ns
    → evaluate r events ≡ ok report
    → Sound r report.final × (classify report.final ≡ ok report.classification)
unfolding evaluate
evaluated r events report b h =
    let (_n, h1) = require-eq-ok (leb (length events) max_events) "event list invalid" _ h in
    let (s, ran, h2) = >>=-eq-ok (run r 1 (initial r) events) _ h1 in
    let (c, told, h3) = >>=-eq-ok (classify s) _ h2 in
    let sound = run-Sound r 1 (initial r) s events (initial-Sound r b) ran in
    let made : Report = record { classification = c; final = s } in
    let q : made ≡ report = ground (arith, h3) in
    subst (λ x. Sound r x.final × (classify x.final ≡ ok x.classification)) q (sound, told)

-- A trace is classified as having reached the target only when its settlement receipt is durable,
-- nothing poisoned it, its clocks ended within the budget, and the bytes it read are the target.
pub evaluate-IsTargetEvidence :
    (r : Request) (events : List Event) (report : Report)
    → r.issued_wall_ns ≤ r.expires_wall_ns
    → evaluate r events ≡ ok report
    → report.classification ≡ target_observed_nonqualified
    → IsTargetEvidence r report.final
unfolding evaluate
evaluate-IsTargetEvidence r events report b h q =
    let (sound, told) = evaluated r events report b h in
    let (receipt, clean, seen) = classify-target report.final (told ∙ ap ok q) in
    let (wall, mono) = sound.in_time clean in
    record {
      receipt = receipt;
      unpoisoned = clean;
      read = sound.target_bytes seen;
      wall_in_time = wall;
      mono_in_time = mono;
    }

other_seen :
    (v : Option Seen) (c : Classification)
    → classification_of v ≡ ok c
    → (c ≡ baseline_observed_nonqualified) ⊎ (c ≡ foreign_observed_retain)
    → ¬ ((v ≡ none) ⊎ (v ≡ some seen_target))
other_seen none c h k = cc
other_seen (some seen_target) c h k = ground arith
other_seen (some seen_baseline) c h k = ground arith
other_seen (some seen_foreign) c h k = ground arith
other_seen (some seen_unknown) c h k = ground arith

classify_other :
    (s : State) (c : Classification)
    → classify s ≡ ok c
    → (c ≡ baseline_observed_nonqualified) ⊎ (c ≡ foreign_observed_retain)
    → (s.poison ≡ []) × ¬ ((s.seen ≡ none) ⊎ (s.seen ≡ some seen_target))
unfolding classify
classify_other s c h k = ground (arith, is_empty-nil s.poison, other_seen s.seen c)

-- A trace whose write was reported as a success is never classified as having read the baseline or
-- foreign bytes.
pub evaluate_no_contradiction :
    (r : Request) (events : List Event) (report : Report)
    → r.issued_wall_ns ≤ r.expires_wall_ns
    → evaluate r events ≡ ok report
    → is_success report.final.outcome ≡ true
    → (report.classification ≢ baseline_observed_nonqualified)
      × (report.classification ≢ foreign_observed_retain)
evaluate_no_contradiction r events report b h y =
    let (sound, told) = evaluated r events report b h in
    let other = classify_other report.final report.classification told in
    (
      (λ q. let (clean, never) = other (inl q) in never (sound.agrees clean y)),
      (λ q. let (clean, never) = other (inr q) in never (sound.agrees clean y)),
    )
