-- ===== src/LazyGuard/Runs.antt =====
-- Sequences of calls on the epoch model. A caller that catches an exception can call again.
use proxmox_sharedlvmthin.Base.{
  ℕ, String, true, false, List, [], ◌∷◌, ok, ◌≡◌, ◌≢◌, ◌⊎◌, inl, inr, sym, ◌∙◌, subst, arith,
  Bool-cases,
}
use proxmox_sharedlvmthin.Base.Int.{pos}
use proxmox_sharedlvmthin.Base.Json.{
  Value, int, str, flag, null, blob, array, dict, get, is_int, is_text, equals, str-eq,
}
use proxmox_sharedlvmthin.LazyGuard.Fixture.{validate_fixture, is_number}
use proxmox_sharedlvmthin.LazyGuard.Epoch.{
  graph_verified, model_published, unknown, Guard, invalidate, is_bound, accept_guard, start,
}
use proxmox_sharedlvmthin.LazyGuard.Laws.{
  Op, step, IsSound, is_guard, start-IsSound, step-IsSound, step_unknown,
}

number-int : (n : ℕ) (v : Value) → is_number n v ≡ true → v ≡ int (pos n)
unfolding is_number is_int equals
number-int n (int a) h = ground arith
number-int n null h = cc
number-int n (flag b) h = cc
number-int n (str s) h = cc
number-int n (blob b) h = cc
number-int n (array xs) h = cc
number-int n (dict fs) h = cc

accepted-bound :
    (g : Guard) (r : Value)
    → (accept_guard g r).1 ≡ ok tt
    → is_bound g.fixture g.digest g.epoch r ≡ true
unfolding accept_guard
accepted-bound g r h = ground arith

bound-epoch :
    (f : Value) (d : String) (n : ℕ) (r : Value)
    → is_bound f d n r ≡ true
    → (get "epoch" r ≡ int (pos n)) × (get "graph_digest" r ≡ str d)
unfolding is_bound
bound-epoch f d n r h = (
  number-int n (get "epoch" r) (ground (arith, h)),
  str-eq d (get "graph_digest" r) (ground (arith, h)),
)

str_injective : (a b : String) → str a ≡ str b → a ≡ b
str_injective a b h = cc

int_injective : (a b : ℕ) → int (pos a) ≡ int (pos b) → a ≡ b
int_injective a b h = cc

one_binding :
    (g k : Guard)
    → int (pos g.epoch) ≡ int (pos k.epoch)
    → str g.digest ≡ str k.digest
    → ¬ ((k.epoch ≢ g.epoch) ⊎ (k.digest ≢ g.digest))
one_binding g k e d n =
    let e' = int_injective g.epoch k.epoch e in
    let d' = str_injective g.digest k.digest d in
    elim n [ inl other ↦ other (sym e') | inr other ↦ other (sym d') ]

poisoned_by :
    (k : Guard) (r : Value)
    → k.phase ≡ graph_verified
    → is_bound k.fixture k.digest k.epoch r ≡ false
    → (accept_guard k r).0 ≡ invalidate k
unfolding accept_guard invalidate
poisoned_by k r p n = ground arith

-- A receipt that was accepted once is good for that epoch and that graph only: shown in any other
-- epoch, or for a graph with another digest, it poisons the model.
pub replayed_receipt :
    (g k : Guard) (r : Value)
    → (accept_guard g r).1 ≡ ok tt
    → k.phase ≡ graph_verified
    → (k.epoch ≢ g.epoch) ⊎ (k.digest ≢ g.digest)
    → (accept_guard k r).0 ≡ invalidate k
unfolding invalidate
replayed_receipt g k r h p n =
    let (e, d) = bound-epoch g.fixture g.digest g.epoch r (accepted-bound g r h) in
    elim (Bool-cases (is_bound k.fixture k.digest k.epoch r)) [
      | inl bound ↦
          let (e2, d2) = bound-epoch k.fixture k.digest k.epoch r bound in
          absurd (one_binding g k (sym e ∙ e2) (sym d ∙ d2) n)
      | inr unbound ↦ poisoned_by k r p unbound
    ]

module _ (graph_digest : Value → String) where
  unfoldable pub run : Guard → List Op → Guard
  run g [] = g
  run g (op ∷ ops) = run (step graph_digest g op).0 ops

  run-IsSound :
      (g : Guard) (ops : List Op) → IsSound graph_digest g → IsSound graph_digest (run g ops)
  unfolding run
  run-IsSound g [] s = s
  run-IsSound g (op ∷ ops) s =
      run-IsSound (step graph_digest g op).0 ops (step-IsSound graph_digest g op s)

  -- However a life goes that starts with a fixture, a published clone has a valid fixture that was
  -- made to be guarded, and a guard that binds it, its digest, the clone and the present epoch.
  pub published_guarded :
      (f : Value) (g : Guard) (ops : List Op)
      → start graph_digest f ≡ ok g
      → (run g ops).phase ≡ model_published
      → (validate_fixture (run g ops).fixture ≡ ok tt)
        × (is_text "GUARDED" (get "purpose" (run g ops).fixture) ≡ true)
        × (is_guard
              (run g ops).fixture
              (graph_digest (run g ops).fixture)
              (run g ops).epoch
              (run g ops).guard
            ≡ true)
  published_guarded f g ops h p =
      let s = run-IsSound g ops (start-IsSound graph_digest f g h) in
      (
        s.fixture_ok,
        s.purposed p,
        subst (λ d. is_guard (run g ops).fixture d (run g ops).epoch (run g ops).guard ≡ true)
            s.digest_ok (s.guarded (inr p)),
      )

  -- A model that was poisoned or invalidated stays so, whatever is called.
  pub run_unknown : (g : Guard) (ops : List Op) → g.phase ≡ unknown → (run g ops).phase ≡ unknown
  unfolding run
  run_unknown g [] p = p
  run_unknown g (op ∷ ops) p =
      run_unknown (step graph_digest g op).0 ops (step_unknown graph_digest g op p)
