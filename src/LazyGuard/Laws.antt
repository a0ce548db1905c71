-- ===== src/LazyGuard/Laws.antt =====
-- One call on the epoch model: what a published clone rests on, and what no call undoes.
use proxmox_sharedlvmthin.Base.{
  ℕ, String, Bool, true, false, ◌&&◌, Option, none, some, Result, ok, refused, ◌≡◌, ◌⊎◌, refl,
  arith, >>=-eq-ok,
}
use proxmox_sharedlvmthin.Base.Checks.{requires, requires-Passed}
use proxmox_sharedlvmthin.Base.Json.{Value, get, is_text}
use proxmox_sharedlvmthin.LazyGuard.Fixture.{validate_fixture, role}
use proxmox_sharedlvmthin.LazyGuard.Epoch.{
  Phase, guard_verified, model_published, unpublished, unknown, Guard, Outcome, invalidate,
  is_bound, is_guarding, accept_guard, publish, withdraw, unchanged, check_observed,
  reconfigure_checks, start, observe, reconfigure, is_phase,
}

pub is_phase-eq : (p q : Phase) → is_phase p q ≡ true → q ≡ p
is_phase-eq p q h = ground arith

-- A call of a method.
pub data Op : Type 0 where
  accepts : (receipt : Value) → Op
  publishes : Op
  withdraws : (terminal open_count : Value) → Op
  reconfigures : (kind : String) (fixture terminal open_count : Value) → Op
  invalidates : Op

-- A receipt is there, and binds the graph, the epoch and the clone.
abbrev pub is_guard : Value → String → ℕ → Option Value → Bool
is_guard fixture digest epoch none = false
is_guard fixture digest epoch (some r) =
    is_bound fixture digest epoch r && is_guarding (role "clone" fixture) r

-- A reconfiguration that is refused changes nothing; any other is an observation.
either_outcome :
    (P : Guard → Type 0) (g : Guard) (o : Outcome) (r : Result (Unit {0}))
    → P g
    → P o.0
    → P (elim r as (λ x. Outcome) [ refused message ↦ unchanged g (refused message) | ok _ ↦ o ]).0
either_outcome P g o (refused m) h k = h
either_outcome P g o (ok u) h k = k

module _ (graph_digest : Value → String) where
  unfoldable pub step : Guard → Op → Outcome
  step g (accepts r) = accept_guard g r
  step g publishes = publish g
  step g (withdraws t o) = withdraw g t o
  step g (reconfigures kind f t o) = reconfigure graph_digest g kind f t o
  step g invalidates = (invalidate g, ok tt)

  -- The guard of a verified or published clone binds the fixture, its digest and the epoch, and says
  -- that the queue of the clone discards nothing; and only a fixture made for it is published.
  pub record IsSound (g : Guard) : Type 0 where
    pub fixture_ok : validate_fixture g.fixture ≡ ok tt
    pub digest_ok : g.digest ≡ graph_digest g.fixture
    pub guarded :
        (g.phase ≡ guard_verified) ⊎ (g.phase ≡ model_published)
        → is_guard g.fixture g.digest g.epoch g.guard ≡ true
    pub purposed : g.phase ≡ model_published → is_text "GUARDED" (get "purpose" g.fixture) ≡ true

  pub start-IsSound : (f : Value) (g : Guard) → start graph_digest f ≡ ok g → IsSound g
  unfolding start
  start-IsSound f g h =
      let (u, valid, e) = >>=-eq-ok (validate_fixture f) _ h in ground (arith, valid, e)

  accept_guard-IsSound : (g : Guard) (r : Value) → IsSound g → IsSound (accept_guard g r).0
  unfolding accept_guard
  accept_guard-IsSound g r s = ground arith

  publish-IsSound : (g : Guard) → IsSound g → IsSound (publish g).0
  unfolding publish
  publish-IsSound g s = ground (arith, is_phase-eq guard_verified g.phase)

  withdraw-IsSound : (g : Guard) (t o : Value) → IsSound g → IsSound (withdraw g t o).0
  unfolding withdraw
  withdraw-IsSound g t o s = ground arith

  observe-IsSound :
      (g : Guard) (f : Value) (r : Result (Unit {0}))
      → IsSound g
      → (r ≡ ok tt → validate_fixture f ≡ ok tt)
      → IsSound (observe graph_digest g f r).0
  unfolding observe
  observe-IsSound g f (refused m) s h = ground arith
  observe-IsSound g f (ok u) s h = ground (arith, h refl)

  check_observed-valid :
      (kind : String) (old new : Value)
      → check_observed kind old new ≡ ok tt
      → validate_fixture new ≡ ok tt
  unfolding check_observed
  check_observed-valid kind old new h = let (u, e, _) = >>=-eq-ok (validate_fixture new) _ h in e

  reconfigure-IsSound :
      (g : Guard) (kind : String) (f t o : Value)
      → IsSound g
      → IsSound (reconfigure graph_digest g kind f t o).0
  unfolding reconfigure
  reconfigure-IsSound g kind f t o s =
      either_outcome IsSound g _ (requires (reconfigure_checks g kind t o)) s (
        observe-IsSound g f (check_observed kind g.fixture f) s
          (check_observed-valid kind g.fixture f))

  -- Every call keeps that.
  pub step-IsSound : (g : Guard) (op : Op) → IsSound g → IsSound (step g op).0
  unfolding step invalidate
  step-IsSound g (accepts r) s = accept_guard-IsSound g r s
  step-IsSound g publishes s = publish-IsSound g s
  step-IsSound g (withdraws t o) s = withdraw-IsSound g t o s
  step-IsSound g (reconfigures kind f t o) s = reconfigure-IsSound g kind f t o s
  step-IsSound g invalidates s = ground arith

  unknown_refused :
      (g : Guard) (kind : String) (t o : Value)
      → g.phase ≡ unknown
      → ¬ (requires (reconfigure_checks g kind t o) ≡ ok tt)
  unknown_refused g kind t o p h =
      let (_k, (open_, _)) = requires-Passed (reconfigure_checks g kind t o) h in
      ground (arith, is_phase-eq unpublished g.phase, open_)

  reconfigure_unknown :
      (g : Guard) (out : Outcome) (r : Result (Unit {0}))
      → g.phase ≡ unknown
      → ¬ (r ≡ ok tt)
      → (elim r as (λ x. Outcome) [
        | refused message ↦ unchanged g (refused message)
        | ok _ ↦ out
      ]).0.phase
        ≡ unknown
  reconfigure_unknown g out (refused m) p n = p
  reconfigure_unknown g out (ok u) p n = absurd (n refl)

  -- A poisoned model stays so.
  pub step_unknown : (g : Guard) (op : Op) → g.phase ≡ unknown → (step g op).0.phase ≡ unknown
  unfolding step accept_guard publish withdraw reconfigure invalidate
  step_unknown g (accepts r) p = ground arith
  step_unknown g publishes p = ground arith
  step_unknown g (withdraws t o) p = ground arith
  step_unknown g (reconfigures kind f t o) p =
      reconfigure_unknown g _ (requires (reconfigure_checks g kind t o)) p
        (unknown_refused g kind t o p)
  step_unknown g invalidates p = ground arith
