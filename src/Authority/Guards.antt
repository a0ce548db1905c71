-- ===== src/Authority/Guards.antt =====
-- When the authority poisons itself, when it only refuses, and how a session starts and ends.
use proxmox_sharedlvmthin.Base.{
  String, true, ◌≡◌, ◌≢◌, ◌⊎◌, inl, inr, refl, ◌∙◌, ap, subst, List, arith, ok, refused, ◌>>=◌,
  >>=-eq-ok, is_hex64, Bool-cases,
}
use proxmox_sharedlvmthin.Base.Int.{ℤ}
use proxmox_sharedlvmthin.Base.Scalars.{
  Scalar, null, int, str, other, Exact, fields, malformed, check_pattern,
}
use proxmox_sharedlvmthin.Authority.State.{
  Phase, cold, active, Flight, busy, State, Head, Session, head_match, reply, refusal, check_common,
  state_error, check_phase, check_cold, validate_state, activate, active_fixture, start, cold_state,
  cold_of, is_cold,
}
use proxmox_sharedlvmthin.Authority.Operations.{
  poison, observe_head, observe_valid, compare_head, same_head, begin_mutation, correlate_response,
  process_lost,
}
use proxmox_sharedlvmthin.Authority.Validity.{IsValid, validate_first}
use proxmox_sharedlvmthin.Authority.Laws.{Op, observe, begin, complete, correlate, step}
use proxmox_sharedlvmthin.Authority.Traces.{run, run_inactive}
use proxmox_sharedlvmthin.Authority.Cycle.{
  IsReady, head_of, same-eq, observe-head_of, check_common-enrollment,
}

-- A disk head whose digest, where there is one, is a text.
abbrev pub Readable : Exact Head → Type 0
Readable malformed = Unit {0}
Readable (fields h) = (t : String) × (h.ledger_sha256 ≡ str t)

compare_head-match : (s : State) (h : Head) → compare_head s h ≡ reply head_match s → h ≡ head_of s
unfolding compare_head same_head
compare_head-match s h e =
    ground (arith, same-eq h.revision s.ram_revision, same-eq h.ledger_sha256 s.ram_ledger_sha256)

observe_ready : (s : State) (d : Exact Head) → IsReady s → observe_head s d ≡ observe_valid s d
unfolding observe_head
observe_ready s d v = rw v.valid refl

compare_head_drift :
    (s : State) (h : Head) (t : String)
    → h.ledger_sha256 ≡ str t
    → (compare_head s h ≡ reply head_match s) ⊎ (compare_head s h ≡ refusal (poison s))
unfolding compare_head
compare_head_drift s h t e = ground arith

observe_malformed : (s : State) → IsReady s → observe_valid s malformed ≡ refusal (poison s)
unfolding observe_valid
observe_malformed s v = ground (arith, v.is_live, v.not_busy)

observe_fields : (s : State) (h : Head) → IsReady s → observe_valid s (fields h) ≡ compare_head s h
unfolding observe_valid
observe_fields s h v = ground (arith, v.is_live, v.not_busy)

drift-match :
    (s : State)
    → observe_head s (fields (head_of s)) ≡ refusal (poison s)
    → ¬ (observe_head s (fields (head_of s)) ≡ reply head_match s)
drift-match s a b = ground arith

-- A ready authority that is shown a readable disk head answers that it matches when it is exactly
-- the RAM head, and poisons itself in every other case.
pub observe_head_verdict :
    (s : State) (d : Exact Head)
    → IsReady s
    → Readable d
    → ((d ≡ fields (head_of s)) × (observe_head s d ≡ reply head_match s))
      ⊎ ((d ≢ fields (head_of s)) × (observe_head s d ≡ refusal (poison s)))
observe_head_verdict s malformed v t = inr (cc, observe_ready s malformed v ∙ observe_malformed s v)
observe_head_verdict s (fields h) v (t, q) =
    let seen = observe_ready s (fields h) v ∙ observe_fields s h v in
    elim (compare_head_drift s h t q) [
      | inl y ↦ inl (ap fields (compare_head-match s h y), seen ∙ y)
      | inr n ↦ inr (
        (λ w.
            drift-match s (subst (λ d. observe_head s d ≡ refusal (poison s)) w (seen ∙ n))
              (observe-head_of s v)),
        seen ∙ n,
      )
    ]

compare_head_raises :
    (s : State) (rev : ℤ) (digest : Scalar)
    → ((t : String) → digest ≢ str t)
    → (m : String) × (compare_head s (record { revision = int rev; ledger_sha256 = digest })
        ≡ refused m)
unfolding compare_head
compare_head_raises s rev null n = (_, refl)
compare_head_raises s rev (int a) n = (_, refl)
compare_head_raises s rev (str t) n = elim (n t refl) [ ]
compare_head_raises s rev other n = (_, refl)

-- A ready authority that is shown a disk head with the right keys, an integer revision and a
-- digest that is no text raises, and so stays ready.
pub observe_head_raises :
    (s : State) (rev : ℤ) (digest : Scalar)
    → IsReady s
    → ((t : String) → digest ≢ str t)
    → (m : String) × (observe_head s
          (fields (record { revision = int rev; ledger_sha256 = digest }))
        ≡ refused m)
observe_head_raises s rev digest v n =
    let (m, e) = compare_head_raises s rev digest n in
    let h : Head = record { revision = int rev; ledger_sha256 = digest } in
    (m, observe_ready s (fields h) v ∙ observe_fields s h v ∙ e)

abbrev pub IsCompletion : Op → Type 0
IsCompletion (complete b q post committed) = Unit {0}
IsCompletion _ = ⊥

-- While a mutation is in flight, every operation that answers, but its completion, refuses and
-- changes nothing.
pub step_busy :
    (s : State) (f : Flight) (op : Op)
    → IsValid s
    → s.phase ≡ active
    → s.in_flight ≡ busy f
    → ¬ IsCompletion op
    → step s op ≡ refusal s
unfolding step observe_head begin_mutation correlate_response observe_valid
step_busy s f (observe d) v p b n = ground arith
step_busy s f (begin b d q) v p i n = ground arith
step_busy s f (complete b q post committed) v p i n = elim (n tt) [ ]
step_busy s f (correlate b q r) v p i n = ground arith

validated : (t s : State) → validate_state t ≡ ok s → (IsValid t) × (t ≡ s)
validated t s e =
    let h : (validate_state t >>= ok) ≡ ok s = ground (arith, e) in
    let (v, q) = validate_first t ok h in (v, ground (arith, q))

is_cold-cold : (p : Phase) → is_cold p ≡ true → p ≡ cold
is_cold-cold p h = ground arith

started :
    (c s : State) (n : Session) (h : Head)
    → IsValid (activate c n h)
    → activate c n h ≡ s
    → IsReady s
started c s n h v q = subst IsReady q (record { valid = v; is_live = refl; not_busy = refl })

start-IsReady :
    (c s : State) (n : Exact Session) (h : Exact Head)
    → start c n h ≡ ok s
    → IsReady s × (c.phase ≡ cold)
unfolding start
start-IsReady c s malformed h e = ground arith
start-IsReady c s (fields n) malformed e = ground arith
start-IsReady c s (fields n) (fields h) e = elim (Bool-cases (is_cold c.phase)) [
  | inl y ↦
      let (v, q) = validated (activate c n h) s (ground (arith, y, e)) in
      (started c s n h v q, is_cold-cold c.phase y)
  | inr w ↦ ground (arith, w, e)
]

-- A session that starts from a fixture starts cold and is ready.
pub active_fixture-IsReady :
    (c s : State) (n : Exact Session) (h : Exact Head)
    → active_fixture c n h ≡ ok s
    → IsReady s × (c.phase ≡ cold)
unfolding active_fixture
active_fixture-IsReady c s n h e =
    let (v, rest) = validate_first c _ e in start-IsReady c s n h rest

valid-pattern :
    (s : State) → IsValid s → check_pattern is_hex64 state_error s.enrollment_sha256 ≡ ok tt
unfolding validate_state
valid-pattern s v = let (u, c, e1) = >>=-eq-ok (check_common s) _ v in check_common-enrollment s c

cold_state-cold_of :
    (e : Scalar) → check_pattern is_hex64 state_error e ≡ ok tt → cold_state e ≡ ok (cold_of e)
unfolding cold_state
cold_state-cold_of null h = cc
cold_state-cold_of (int a) h = cc
cold_state-cold_of (str t) h = ground arith
cold_state-cold_of other h = cc

cold_of-IsValid : (e : Scalar) → check_pattern is_hex64 state_error e ≡ ok tt → IsValid (cold_of e)
unfolding validate_state check_common check_phase check_cold
cold_of-IsValid e h = rw h refl

cold-active : ¬ (cold ≡ active)
cold-active q = cc

-- Losing the process of a valid authority gives a cold one of the same enrollment, which is valid
-- and which no sequence of operations changes.
process_lost-cold :
    (s : State)
    → IsValid s
    → (c : State) × (process_lost s ≡ ok c)
      × (c.phase ≡ cold)
      × (c.enrollment_sha256 ≡ s.enrollment_sha256)
      × IsValid c
      × ((ops : List Op) → run c ops ≡ c)
unfolding process_lost
process_lost-cold s v =
    let p = valid-pattern s v in
    let w = cold_of-IsValid s.enrollment_sha256 p in
    (
      cold_of s.enrollment_sha256,
      ground (arith, v, cold_state-cold_of s.enrollment_sha256 p),
      refl,
      refl,
      w,
      λ ops. run_inactive (cold_of s.enrollment_sha256) ops (λ q. cold-active q) w,
    )
