-- ===== src/RebootIntent/Recovery.antt =====
-- A handoff that was admitted survives any number of crashes and can be completed after them.
use proxmox_sharedlvmthin.Base.{
  ℕ, String, true, ◌&&◌, ◌||◌, ◌==◌, Option, none, some, List, [], ◌∷◌, if◌then◌else◌, ◌≡◌, inl,
  inr, refl, sym, ap, ◌∙◌, subst, arith, take, Bool-cases, Result, ok, refused, >>=-eq-ok,
  require-eq-ok,
}
use proxmox_sharedlvmthin.Base.Checks.{requires}
use proxmox_sharedlvmthin.Base.Json.{Value, equals, is_null, get}
use proxmox_sharedlvmthin.Base.Json.Laws.{IsWellFormed, equals_self}
use proxmox_sharedlvmthin.RebootIntent.Reconcile.{
  Store, Write, write_intent, put, put_all, old_records, new_records, holds, prefix_index,
  proposal_checks, store_checks, intent_of, reconcile_at, reconcile, record_intent,
}
use proxmox_sharedlvmthin.RebootIntent.Resume.{confirmed, IsHandoff, IsDone, Resumes, resume-Stage}
use proxmox_sharedlvmthin.RebootIntent.Prefixes.{at_old}

module _ (digest : Value → String) (p boot_id : Value) (formed : IsWellFormed p)
    (proposed : requires (proposal_checks digest p boot_id) ≡ ok tt) where
  IsHandoff-Resumes :
      (s : Store) → IsHandoff digest p s → (ws : List Write) × Resumes digest p boot_id s ws
  IsHandoff-Resumes s g = resume-Stage digest p boot_id formed proposed s g.intended g.stage

  -- A life of the store under calls of which each may be cut short after any of its writes.
  pub data Crashes (s : Store) : Store → Type 0 where
    here : Crashes s s
    call :
        {t : Store} (ws : List Write) (k : ℕ)
        → Crashes s t
        → reconcile digest t p boot_id confirmed ≡ ok (ws, "CLOSED_ONLY_MODEL_COMPLETE")
        → Crashes s (put_all t (take k ws))

  same_writes :
      (a b : List Write) (m : String)
      → ◌≡◌ {A = Result (List Write × String)} (ok (a, m)) (ok (b, m))
      → a ≡ b
  same_writes a b m h = cc

  Crashes-IsHandoff : {s t : Store} → IsHandoff digest p s → Crashes s t → IsHandoff digest p t
  Crashes-IsHandoff g here = g
  Crashes-IsHandoff g (call {t} ws k before e) =
      let (vs, r) = IsHandoff-Resumes t (Crashes-IsHandoff g before) in
      let q = same_writes vs ws "CLOSED_ONLY_MODEL_COMPLETE" (sym r.accepted ∙ e) in
      subst (λ w. IsHandoff digest p (put_all t (take k w))) q (r.survives k)

  -- A handoff whose intent is durable and whose records are at an ordered prefix, with no completion or,
  -- if the records are the new ones, perhaps the right one, cut short any number of times after any of
  -- its writes, is accepted again with the confirmed effect, and a call that is not cut short leaves the
  -- new records and the completion.
  pub crash_recovery :
      (s t : Store)
      → IsHandoff digest p s
      → Crashes s t
      → (ws : List Write) × (reconcile digest t p boot_id confirmed
          ≡ ok (ws, "CLOSED_ONLY_MODEL_COMPLETE"))
        × IsDone digest p (put_all t ws)
  crash_recovery s t g c =
      let (ws, r) = IsHandoff-Resumes t (Crashes-IsHandoff g c) in (ws, r.accepted, r.finishes)

  intent_self : equals (intent_of digest p) (intent_of digest p) ≡ true
  intent_self =
      equals_self (intent_of digest p) (tt, refl, (tt, refl, (formed, refl, (tt, refl, tt))))

  index_zero :
      (s : Store)
      → prefix_index s (old_records p) (new_records p) ≡ some 0
      → holds s (get "old_latch" p) (get "old_release" p) (get "old_ledger" p) ≡ true
  unfolding prefix_index
  index_zero s h = ground (arith, h)

  no_dispatch_at :
      (s : Store) (index : ℕ) (ws : List Write) (r : String)
      → reconcile_at digest s p index "NO_DISPATCH_PROVEN" ≡ ok (ws, r)
      → (index ≡ 0)
        × (is_null s.complete ≡ true)
        × (ws ≡ (if is_null s.intent then write_intent (intent_of digest p) ∷ [] else []))
  unfolding reconcile_at record_intent
  no_dispatch_at s index ws r h =
      let (_u, passed, rest) =
        >>=-eq-ok (requires (store_checks digest s p index "NO_DISPATCH_PROVEN")) _ h in
      let (cond, written) = require-eq-ok (index == 0 && is_null s.complete) _ _ rest in
      (ground (arith, cond), ground (arith, cond), cc written)

  index_of :
      (o : Option ℕ) (s : Store) (ws : List Write) (r effects : String)
      → Result.ok (ws, r) ≡ elim o [
        | none ↦ refused "records do not match an ordered prefix"
        | some index ↦ reconcile_at digest s p index effects
      ]
      → (index : ℕ) × (o ≡ some index) × (reconcile_at digest s p index effects ≡ ok (ws, r))
  index_of none s ws r effects h = cc
  index_of (some index) s ws r effects h = (index, refl, sym h)

  -- What a call that only observed that nothing was dispatched says of the store.
  no_dispatch_parts :
      (s : Store) (ws : List Write) (r : String)
      → reconcile digest s p boot_id "NO_DISPATCH_PROVEN" ≡ ok (ws, r)
      → ((is_null s.intent || equals s.intent (intent_of digest p)) ≡ true)
        × (prefix_index s (old_records p) (new_records p) ≡ some 0)
        × (is_null s.complete ≡ true)
        × (ws ≡ (if is_null s.intent then write_intent (intent_of digest p) ∷ [] else []))
  unfolding reconcile
  no_dispatch_parts s ws r h =
      let (_u, _p, rest) = >>=-eq-ok (requires (proposal_checks digest p boot_id)) _ h in
      let (fork, rest2) =
        require-eq-ok (is_null s.intent || equals s.intent (intent_of digest p)) _ _ rest in
      let (index, e, at) =
        index_of (prefix_index s (old_records p) (new_records p)) s ws r "NO_DISPATCH_PROVEN"
          (sym rest2) in
      let (zero_, open_, w) = no_dispatch_at s index ws r at in (fork, e ∙ ap some zero_, open_, w)

  -- A call on the word that nothing was dispatched writes at most the intent, and leaves a handoff
  -- whose records are still those of the old boot.
  pub no_dispatch-IsHandoff :
      (s : Store) (ws : List Write) (r : String)
      → reconcile digest s p boot_id "NO_DISPATCH_PROVEN" ≡ ok (ws, r)
      → IsHandoff digest p (put_all s ws)
        × (holds (put_all s ws) (get "old_latch" p) (get "old_release" p) (get "old_ledger" p)
            ≡ true)
        × ((put_all s ws).complete ≡ s.complete)
  unfolding put_all put holds
  no_dispatch-IsHandoff s ws r h =
      let (fork, index, open_, w) = no_dispatch_parts s ws r h in
      let old = index_zero s index in
      elim (Bool-cases (is_null s.intent)) [
        | inl fresh ↦
            let q : ws ≡ write_intent (intent_of digest p) ∷ [] = ground (arith, w, fresh) in
            rw q (record { intended = intent_self; stage = at_old old open_ }, old, refl)
        | inr kept ↦
            let q : ws ≡ [] = ground (arith, w, kept) in
            rw q (
              record { intended = ground (arith, fork, kept); stage = at_old old open_ },
              old,
              refl,
            )
      ]
