-- ===== src/ConfigCas/Effects.antt =====
-- What an accepted trace shows: at most one write, of a durable intent, and a classification that
-- the observed bytes bear out.
use proxmox_sharedlvmthin.Base.{
  ◌+◌, ==_iff, subst, ℕ, suc, ◌≤◌, true, ◌&&◌, Option, some, List, [], ◌∷◌, ok, >>=-eq-ok, length,
  is_empty, ◌≡◌, ◌⊎◌, inl, inr, refl, arith, Bool-cases, &&_left,
}
use proxmox_sharedlvmthin.ConfigCas.Trace.{
  Field, text, flag, number, foreign, bytes, absent, Kind, reserve, cas_dispatch, crash, intent_ack,
  receipt_ack, cas_return, quiescence, observe, Event, Request, Phase, new, intent_pending,
  intent_durable, cas_dispatched, settlement_pending, observed, Seen, seen_target, seen_unknown,
  compare_bytes, State, is_phase, check_envelope, tick, observe_as, observe_bytes, observe_error,
  observe_result, handle, step, run, initial, classify, classification_of, evaluate, Classification,
  new_no_effect, unknown_retain, seen_baseline, seen_foreign,
}

pub is_phase-eq : (p q : Phase) → is_phase p q ≡ true → q ≡ p
is_phase-eq p q h = ground arith

-- What holds before and after every event.
pub record Good (s : State) : Type 0 where
  pub early : (s.phase ≡ new) ⊎ (s.phase ≡ intent_pending) → s.dispatches ≡ 0
  pub backed : (s.dispatches ≡ 0) ⊎ ((s.dispatches ≡ 1) × (s.intent_is_durable ≡ true))
  pub observed_settled : s.phase ≡ observed → s.settled ≡ true
  pub settled_seen : s.settled ≡ true → (v : Seen) × (s.seen ≡ some v)
  pub receipt_settled : s.receipt_is_durable ≡ true → s.settled ≡ true

pub initial-Good : (r : Request) → Good (initial r)
unfolding initial
initial-Good r = record {
  early = λ h. refl;
  backed = inl refl;
  observed_settled = cc;
  settled_seen = cc;
  receipt_settled = cc;
}

observe_as-Good :
    (s : State) (raw : Option (List ℕ)) (v : Seen) → Good s → Good (observe_as s raw v)
unfolding observe_as
observe_as-Good s raw v g = ground arith

observe_error-Good : (s t : State) (raw : Field) → Good s → observe_error s raw ≡ ok t → Good t
unfolding observe_error
observe_error-Good s t raw g e = ground (arith, observe_as-Good s s.observed_raw seen_unknown g)

observe_bytes-Good :
    (r : Request) (s t : State) (raw : Field) → Good s → observe_bytes r s raw ≡ ok t → Good t
unfolding observe_bytes
observe_bytes-Good r s t (bytes raw) g e =
    ground (arith, observe_as-Good s (some raw) (compare_bytes r raw) g)
observe_bytes-Good r s t absent g e = cc
observe_bytes-Good r s t (flag b) g e = cc
observe_bytes-Good r s t (number n) g e = cc
observe_bytes-Good r s t (text x) g e = cc
observe_bytes-Good r s t foreign g e = cc

observe_result-Good :
    (r : Request) (s t : State) (result raw : Field)
    → Good s
    → observe_result r s result raw ≡ ok t
    → Good t
unfolding observe_result
observe_result-Good r s t result raw g e =
    ground (arith, observe_error-Good s t raw g, observe_bytes-Good r s t raw g)

handle-Good : (r : Request) (s t : State) (k : Kind) → Good s → handle r s k ≡ ok t → Good t
unfolding handle
handle-Good r s t reserve g e = ground arith
handle-Good r s t (intent_ack durability) g e = ground (arith, is_phase-eq intent_pending s.phase)
handle-Good r s t cas_dispatch g e = ground (arith, is_phase-eq intent_durable s.phase)
handle-Good r s t (cas_return outcome detail) g e =
    ground (arith, is_phase-eq cas_dispatched s.phase)
handle-Good r s t crash g e = ground (arith, is_phase-eq new s.phase)
handle-Good r s t (quiescence x y z) g e = ground (arith, is_phase-eq settlement_pending s.phase)
handle-Good r s t (observe result raw) g e = ground (arith, observe_result-Good r s t result raw g)
handle-Good r s t (receipt_ack durability) g e = ground (arith, is_phase-eq observed s.phase)

pub tick-Good : (r : Request) (s : State) (wall mono : ℕ) → Good s → Good (tick r s wall mono)
unfolding tick
tick-Good r s wall mono g = record {
  early = g.early;
  backed = g.backed;
  observed_settled = g.observed_settled;
  settled_seen = g.settled_seen;
  receipt_settled = g.receipt_settled;
}

pub step-Good :
    (r : Request) (i : ℕ) (s t : State) (e : Event) → Good s → step r i s e ≡ ok t → Good t
unfolding step
step-Good r i s t e g h =
    let (clocks, _c, rest) = >>=-eq-ok (check_envelope r i s e) _ h in
    handle-Good r (tick r s clocks.0 clocks.1) t e.kind (tick-Good r s clocks.0 clocks.1 g) rest

pub run-Good :
    (r : Request) (i : ℕ) (s t : State) (events : List Event)
    → Good s
    → run r i s events ≡ ok t
    → Good t
unfolding run
run-Good r i s t [] g h = ground arith
run-Good r i s t (e ∷ events) g h =
    let (u, first, rest) = >>=-eq-ok (step r i s e) _ h in
    run-Good r (suc i) u t events (step-Good r i s u e g first) rest

-- How many events of a trace dispatch the write.
abbrev is_dispatch : Kind → ℕ
is_dispatch cas_dispatch = 1
is_dispatch _ = 0

abbrev pub dispatched : List Event → ℕ
dispatched [] = 0
dispatched (e ∷ events) = is_dispatch e.kind + dispatched events

observe_bytes-dispatches :
    (r : Request) (s t : State) (raw : Field)
    → observe_bytes r s raw ≡ ok t
    → t.dispatches ≡ s.dispatches
unfolding observe_bytes observe_as
observe_bytes-dispatches r s t (bytes raw) e = ground arith
observe_bytes-dispatches r s t absent e = cc
observe_bytes-dispatches r s t (flag b) e = cc
observe_bytes-dispatches r s t (number n) e = cc
observe_bytes-dispatches r s t (text x) e = cc
observe_bytes-dispatches r s t foreign e = cc

observe_result-dispatches :
    (r : Request) (s t : State) (result raw : Field)
    → observe_result r s result raw ≡ ok t
    → t.dispatches ≡ s.dispatches
unfolding observe_result observe_error observe_as
observe_result-dispatches r s t result raw e = ground (arith, observe_bytes-dispatches r s t raw)

-- Each accepted dispatch is counted.
handle-dispatches :
    (r : Request) (s t : State) (k : Kind)
    → handle r s k ≡ ok t
    → t.dispatches ≡ s.dispatches + is_dispatch k
unfolding handle
handle-dispatches r s t reserve e = ground arith
handle-dispatches r s t (intent_ack durability) e = ground arith
handle-dispatches r s t cas_dispatch e = ground (arith, ==_iff s.dispatches 0)
handle-dispatches r s t (cas_return outcome detail) e = ground arith
handle-dispatches r s t crash e = ground arith
handle-dispatches r s t (quiescence x y z) e = ground arith
handle-dispatches r s t (observe result raw) e =
    ground (arith, observe_result-dispatches r s t result raw)
handle-dispatches r s t (receipt_ack durability) e = ground arith

tick-dispatches :
    (r : Request) (s : State) (wall mono : ℕ) → (tick r s wall mono).dispatches ≡ s.dispatches
unfolding tick
tick-dispatches r s wall mono = refl

step-dispatches :
    (r : Request) (i : ℕ) (s t : State) (e : Event)
    → step r i s e ≡ ok t
    → t.dispatches ≡ s.dispatches + is_dispatch e.kind
unfolding step
step-dispatches r i s t e h =
    let (clocks, _, rest) = >>=-eq-ok (check_envelope r i s e) _ h in
    omega (
      arith,
      handle-dispatches r (tick r s clocks.0 clocks.1) t e.kind rest,
      tick-dispatches r s clocks.0 clocks.1,
    )

run-dispatches :
    (r : Request) (i : ℕ) (s t : State) (events : List Event)
    → run r i s events ≡ ok t
    → t.dispatches ≡ s.dispatches + dispatched events
unfolding run
run-dispatches r i s t [] h = ground (arith, h)
run-dispatches r i s t (e ∷ events) h =
    let (u, first, rest) = >>=-eq-ok (step r i s e) _ h in
    omega (arith, step-dispatches r i s u e first, run-dispatches r (suc i) u t events rest)

initial-dispatches : (r : Request) → (initial r).dispatches ≡ 0
unfolding initial
initial-dispatches r = refl

classification_total : (v : Seen) → (c : Classification) × (classification_of (some v) ≡ ok c)
classification_total seen_target = (_, refl)
classification_total seen_baseline = (_, refl)
classification_total seen_foreign = (_, refl)
classification_total seen_unknown = (_, refl)

classify_total : (s : State) → Good s → (c : Classification) × (classify s ≡ ok c)
unfolding classify
classify_total s g = elim (Bool-cases (s.receipt_is_durable && is_empty s.poison)) [
  | inl y ↦
      let (v, q) = g.settled_seen (g.receipt_settled (&&_left s.receipt_is_durable _ y)) in
      let (c, k) = classification_total v in (c, ground (arith, y, q, k))
  | inr n ↦ elim (Bool-cases (is_phase new s.phase)) [
    | inl a ↦ (new_no_effect, ground (arith, n, a))
    | inr b ↦ (unknown_retain, ground (arith, n, b))
  ]
]

-- A trace of at most 16 events that the loop accepts has no event that dispatches the write, or
-- exactly one, and then the intent was durable; the count that is reported is the number of those
-- events; and the report is made: no classification is looked up that the table does not have.
pub evaluate_effects :
    (r : Request) (s : State) (events : List Event)
    → run r 1 (initial r) events ≡ ok s
    → length events ≤ 16
    → ((dispatched events ≡ 0) ⊎ ((dispatched events ≡ 1) × (s.intent_is_durable ≡ true)))
      × (s.dispatches ≡ dispatched events)
      × ((c : Classification) × (evaluate r events ≡ ok (record { classification = c; final = s })))
unfolding evaluate
evaluate_effects r s events h n =
    let g = run-Good r 1 (initial r) s events (initial-Good r) h in
    let counted : s.dispatches ≡ dispatched events =
      omega (arith, run-dispatches r 1 (initial r) s events h, initial-dispatches r) in
    let (c, q) = classify_total s g in
    (
      subst (λ m. (m ≡ 0) ⊎ ((m ≡ 1) × (s.intent_is_durable ≡ true))) counted g.backed,
      counted,
      (c, ground (arith, h, q)),
    )
