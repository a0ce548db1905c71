-- ===== src/Supervisor/Once.antt =====
-- Any number of runs of one supervisor.
use proxmox_sharedlvmthin.Base.Effects.{gives, raises, Ending}
use proxmox_sharedlvmthin.Base.{
  ℕ, suc, ◌+◌, ◌≤◌, String, Bool, true, false, List, [], ◌∷◌, ◌++◌, ◌≡◌, ◌⊎◌, inl, inr, refl, arith,
  ap,
}
use proxmox_sharedlvmthin.Base.Json.{Value}
use proxmox_sharedlvmthin.Supervisor.Model.{Backend, Call, grant_exec, new, World}
use proxmox_sharedlvmthin.Supervisor.Run.{is_new, run}
use proxmox_sharedlvmthin.Supervisor.Protocol.{protocol}
use proxmox_sharedlvmthin.Supervisor.Laws.{Concluded, epilogue, run-Concluded}

-- The number of times that a command was let go.
unfoldable pub grants : List Call → ℕ
grants [] = 0
grants (grant_exec ∷ calls) = suc (grants calls)
grants (_ ∷ calls) = grants calls

grants-append : (xs ys : List Call) → grants (xs ++ ys) ≡ grants xs + grants ys
unfolding grants
grants-append [] ys = omega arith
grants-append (x ∷ xs) ys = ground (arith, grants-append xs ys)

grants-epilogue : (settled : Bool) → grants (epilogue settled) ≡ 0
unfolding grants
grants-epilogue true = refl
grants-epilogue false = refl

-- A new supervisor has let nothing go, and any other at most one command.
IsOnce : {S : Type 0} → World S → Type 0
IsOnce w =
    ((w.phase ≡ new) × (grants w.calls ≡ 0)) ⊎ ((is_new w.phase ≡ false) × (grants w.calls ≤ 1))

Concluded-IsOnce :
    {S : Type 0} (request : Value) (before : List Call) (step : World S × Ending Value)
    → Concluded request before step
    → grants before ≡ 0
    → IsOnce step.0
unfolding IsOnce grants
Concluded-IsOnce request before (w, gives v) (at_end, calls, _) none_ =
    inr (ap is_new at_end, omega (arith, ap grants calls, grants-append before protocol, none_))
Concluded-IsOnce request before (w, raises kind message)
      (done, left, settled, lost, split, calls, _) none_ =
    inr (
      ap is_new lost,
      omega (
        arith,
        ap grants calls,
        grants-append (before ++ done) (epilogue settled),
        grants-append before done,
        none_,
        grants-epilogue settled,
        ap grants split,
        grants-append done left,
      ),
    )

module _ {S : Type 0} (b : Backend S) (normpath : String → String) (digest : Value → String)
    (empty_digest : String) where
  used_case :
      (request owner : Value) (w : World S)
      → is_new w.phase ≡ false
      → grants w.calls ≤ 1
      → IsOnce (run b normpath digest empty_digest request owner w).0
  unfolding IsOnce run
  used_case request owner w used once = rw used (inr (used, once))

  run-IsOnce :
      (request owner : Value) (w : World S)
      → IsOnce w
      → IsOnce (run b normpath digest empty_digest request owner w).0
  unfolding IsOnce
  run-IsOnce request owner w (inl (fresh, none_)) =
      Concluded-IsOnce request w.calls (run b normpath digest empty_digest request owner w)
        (run-Concluded b normpath digest empty_digest request owner w fresh) none_
  run-IsOnce request owner w (inr (used, once)) = used_case request owner w used once

  unfoldable pub run_all : World S → List (Value × Value) → World S
  run_all w [] = w
  run_all w ((request, owner) ∷ rest) =
      run_all (run b normpath digest empty_digest request owner w).0 rest

  run_all-IsOnce :
      (w : World S) (requests : List (Value × Value)) → IsOnce w → IsOnce (run_all w requests)
  unfolding run_all
  run_all-IsOnce w [] h = h
  run_all-IsOnce w ((request, owner) ∷ rest) h =
      run_all-IsOnce (run b normpath digest empty_digest request owner w).0 rest
        (run-IsOnce request owner w h)

  -- However often a new supervisor is run, it lets at most one command go.
  pub run_all_once :
      (w : World S) (requests : List (Value × Value))
      → w.phase ≡ new
      → grants w.calls ≡ 0
      → grants (run_all w requests).calls ≤ 1
  unfolding IsOnce
  run_all_once w requests fresh none_ = elim (run_all-IsOnce w requests (inl (fresh, none_))) [
    | inl (_, still) ↦ omega (arith, still)
    | inr (_, once) ↦ once
  ]
