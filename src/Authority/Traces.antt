-- ===== src/Authority/Traces.antt =====
-- A life of the authority: a sequence of calls. A call that raises leaves the state as it was.
use proxmox_sharedlvmthin.Base.{
  ℕ, ◌+◌, true, List, [], ◌∷◌, ◌≡◌, ◌≢◌, inl, inr, refl, sym, ◌∙◌, ap, subst, arith, Result, ok,
  refused,
}
use proxmox_sharedlvmthin.Base.Int.{ℤ, pos, ◌+ℤ◌}
use proxmox_sharedlvmthin.Base.Scalars.{Scalar, null, int, str, other, same}
use proxmox_sharedlvmthin.Authority.State.{
  active, Flight, State, Verb, refuse, head_match, begin_assumed, ram_head_advanced,
  response_correlation, Reply,
}
use proxmox_sharedlvmthin.Authority.Operations.{next}
use proxmox_sharedlvmthin.Authority.Validity.{IsValid, busy_pre}
use proxmox_sharedlvmthin.Authority.Laws.{
  Op, step, step-IsValid, step-Moves, step_inactive, Moves, Commits,
}

-- What the caller holds after a call.
abbrev pub after : State → Result Reply → State
after s (ok r) = r.state
after s (refused m) = s

unfoldable pub run : State → List Op → State
run s [] = s
run s (op ∷ ops) = run (after s (step s op)) ops

abbrev pub counts : Verb → ℕ
counts ram_head_advanced = 1
counts _ = 0

abbrev pub advance : Result Reply → ℕ
advance (ok r) = counts r.action
advance (refused m) = 0

-- How many calls of a life advanced the RAM head.
unfoldable pub advances : State → List Op → ℕ
advances s [] = 0
advances s (op ∷ ops) = advance (step s op) + advances (after s (step s op)) ops

result-IsValid :
    (s : State) (o : Result Reply)
    → IsValid s
    → ((r : Reply) → o ≡ ok r → IsValid r.state)
    → IsValid (after s o)
result-IsValid s (ok r) v f = f r refl
result-IsValid s (refused m) v f = v

after-IsValid : (s : State) (op : Op) → IsValid s → IsValid (after s (step s op))
after-IsValid s op v = result-IsValid s (step s op) v (step-IsValid s op)

run-IsValid : (s : State) (ops : List Op) → IsValid s → IsValid (run s ops)
unfolding run
run-IsValid s [] v = v
run-IsValid s (op ∷ ops) v = run-IsValid (after s (step s op)) ops (after-IsValid s op v)

-- A valid authority that is not active, cold or poisoned, is left as it is by every sequence of calls.
pub run_inactive : (s : State) (ops : List Op) → s.phase ≢ active → IsValid s → run s ops ≡ s
unfolding run
run_inactive s [] n v = refl
run_inactive s (op ∷ ops) n v = rw (step_inactive s op n v) (run_inactive s ops n v)

same_int : (v : Scalar) (n : ℤ) → same v (int n) ≡ true → v ≡ int n
same_int null n h = cc
same_int (int a) n h = ground arith
same_int (str t) n h = cc
same_int other n h = cc

pub next_succ : (n : ℕ) → next (int (pos n)) ≡ int (pos (n + 1))
unfolding ◌+ℤ◌
next_succ n = ground arith

Commits-revision :
    (s t : State) (f : Flight) (n : ℕ)
    → IsValid s
    → Commits s t f
    → s.ram_revision ≡ int (pos n)
    → t.ram_revision ≡ int (pos (n + 1))
Commits-revision s t f n v c e =
    let pre : f.pre_revision ≡ int (pos n) =
      same_int f.pre_revision (pos n)
        (subst (λ w. same f.pre_revision w ≡ true) e (busy_pre s f v c.was_active c.was_busy)) in
    let nxt : next f.pre_revision ≡ int (pos (n + 1)) = ap next pre ∙ next_succ n in
    same_int t.ram_revision (pos (n + 1))
      (subst (λ w. same t.ram_revision w ≡ true) nxt c.next_revision)

counts_none : (w : Verb) → w ≢ ram_head_advanced → counts w ≡ 0
counts_none refuse h = refl
counts_none head_match h = refl
counts_none begin_assumed h = refl
counts_none ram_head_advanced h = elim (h refl) [ ]
counts_none response_correlation h = refl

reply-revision :
    (s : State) (r : Reply) (n : ℕ)
    → IsValid s
    → Moves s r
    → s.ram_revision ≡ int (pos n)
    → r.state.ram_revision ≡ int (pos (n + counts r.action))
reply-revision s r n v m e = elim m.1 [
  | inl (other_action, (kept, _)) ↦
      kept ∙ e ∙ ap (λ k. int (pos k)) (ground (arith, counts_none r.action other_action))
  | inr (q, (f, c)) ↦
      Commits-revision s r.state f n v c e ∙ ap (λ w. int (pos (n + counts w))) (sym q)
]

after-revision :
    (s : State) (o : Result Reply) (n : ℕ)
    → IsValid s
    → ((r : Reply) → o ≡ ok r → Moves s r)
    → s.ram_revision ≡ int (pos n)
    → (after s o).ram_revision ≡ int (pos (n + advance o))
after-revision s (ok r) n v m e = reply-revision s r n v (m r refl) e
after-revision s (refused x) n v m e = ground (arith, e)

-- However a life of calls that answer or raise goes, its RAM revision is the first one plus the number of advances: nothing else
-- moves it, and no advance skips or repeats a revision.
pub run-revision :
    (s : State) (ops : List Op) (n : ℕ)
    → IsValid s
    → s.ram_revision ≡ int (pos n)
    → (run s ops).ram_revision ≡ int (pos (n + advances s ops))
unfolding run advances
run-revision s [] n v e = ground (arith, e)
run-revision s (op ∷ ops) n v e =
    let o = step s op in
    let later =
      run-revision (after s o) ops (n + advance o) (after-IsValid s op v)
        (after-revision s o n v (step-Moves s op) e) in
    later ∙ ap (λ k. int (pos k)) (ground arith)
