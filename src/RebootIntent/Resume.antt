-- ===== src/RebootIntent/Resume.antt =====
-- A call at each stage of a handoff: it is accepted, every cut of it leaves a handoff, and all of it
-- leaves a done one.
use proxmox_sharedlvmthin.Base.{
  ℕ, zero, suc, String, Bool, true, false, not, ◌&&◌, ◌||◌, ◌==◌, some, List, [], ◌∷◌, ◌≡◌, inl,
  inr, refl, sym, subst, arith, take, take-nil, all, Bool-cases, ok, is_hex32,
}
use proxmox_sharedlvmthin.Base.Checks.{requires, requires-Passed, Passed-requires}
use proxmox_sharedlvmthin.Base.Json.{Value, equals, is_null, get, is_match}
use proxmox_sharedlvmthin.Base.Json.Laws.{
  IsWellFormed, equals_self, equals-get, equals_join, get-IsWellFormed,
}
use proxmox_sharedlvmthin.RebootIntent.Reconcile.{
  Store, Write, write_intent, write_latch, write_release, write_ledger, write_complete, put,
  put_all, old_records, new_records, holds, prefix_index, closed, is_ledger, are_latches,
  proposal_checks, store_checks, intent_of, completion_of, handoff_writes, hand_off, reconcile_at,
  reconcile,
}
use proxmox_sharedlvmthin.RebootIntent.Prefixes.{
  Apart, Stage, at_old, at_latch, at_release, at_new, at_end, cut-at_old, cut-at_latch,
  cut-at_release, cut-at_new, prefix_index-at_new,
}

latch_text :
    (latch boot : Value) → closed latch boot ≡ true → is_match is_hex32 (get "txid" latch) ≡ true
unfolding closed
latch_text latch boot h = ground arith

ledger_text :
    (ledger latch : Value)
    → is_ledger ledger latch ≡ true
    → is_match is_hex32 (get "generation" ledger) ≡ true
unfolding is_ledger
ledger_text ledger latch h = ground arith

-- Nothing equals two values whose texts under a key differ.
apart_by :
    (key : String) (v a b : Value)
    → is_match is_hex32 (get key a) ≡ true
    → is_match is_hex32 (get key b) ≡ true
    → not (equals (get key a) (get key b)) ≡ true
    → equals v b ≡ true
    → equals v a ≡ false
apart_by key v a b m n d h = elim (Bool-cases (equals v a)) [
  | inl same ↦
      let j =
        equals_join is_hex32 is_hex32 (get key v) (get key a) (get key b) m n
          (equals-get key v a same) (equals-get key v b h) in
      ground (arith, j, d)
  | inr other ↦ other
]

holds_latch : (s : Store) (l r g : Value) → holds s l r g ≡ true → equals s.latch l ≡ true
unfolding holds
holds_latch s l r g h = ground (arith, h)

holds_release : (s : Store) (l r g : Value) → holds s l r g ≡ true → equals s.release r ≡ true
unfolding holds
holds_release s l r g h = ground (arith, h)

holds_of :
    (s : Store) (l r g : Value)
    → equals s.latch l ≡ true
    → equals s.release r ≡ true
    → equals s.ledger g ≡ true
    → holds s l r g ≡ true
unfolding holds
holds_of s l r g a b c = rw (a, b) c

abbrev pub confirmed : String
confirmed = "EXACT_TARGET_CONFIRMED"

keeps_intent : Write → Bool
keeps_intent (write_intent v) = false
keeps_intent w = true

put_all-intent :
    (s : Store) (ws : List Write) (k : ℕ)
    → all keeps_intent ws ≡ true
    → (put_all s (take k ws)).intent ≡ s.intent
unfolding put_all put keeps_intent
put_all-intent s ws zero h = refl
put_all-intent s [] (suc k) h = refl
put_all-intent s (write_intent v ∷ ws) (suc k) h = cc
put_all-intent s (write_latch v ∷ ws) (suc k) h = put_all-intent (put s (write_latch v)) ws k h
put_all-intent s (write_release v ∷ ws) (suc k) h = put_all-intent (put s (write_release v)) ws k h
put_all-intent s (write_ledger v ∷ ws) (suc k) h = put_all-intent (put s (write_ledger v)) ws k h
put_all-intent s (write_complete v ∷ ws) (suc k) h =
    put_all-intent (put s (write_complete v)) ws k h

module _ (digest : Value → String) (p : Value) where
  abbrev pub finished : Value
  finished = completion_of digest p

  -- The intent of the proposal is durable, and the records are at an ordered prefix.
  pub record IsHandoff (s : Store) : Type 0 where
    pub intended : equals s.intent (intent_of digest p) ≡ true
    pub stage : Stage (old_records p) (new_records p) finished s

  -- The records of the new boot and the completion are in place.
  pub record IsDone (s : Store) : Type 0 where
    pub moved : holds s (get "new_latch" p) (get "new_release" p) (get "new_ledger" p) ≡ true
    pub completed : equals s.complete finished ≡ true

  finished_self : equals finished finished ≡ true
  finished_self = equals_self finished (tt, refl, (tt, refl, (tt, refl, tt)))

  finished_present : is_null finished ≡ false
  unfolding is_null
  finished_present = refl

module _ (digest : Value → String) (p boot_id : Value) where
  -- A call whose writes are `ws`: it is accepted, each of its prefixes leaves a handoff, and all of
  -- it leaves a done one.
  pub record Resumes (s : Store) (ws : List Write) : Type 0 where
    pub accepted : reconcile digest s p boot_id confirmed ≡ ok (ws, "CLOSED_ONLY_MODEL_COMPLETE")
    pub survives : (k : ℕ) → IsHandoff digest p (put_all s (take k ws))
    pub finishes : IsDone digest p (put_all s ws)

module _ (digest : Value → String) (p boot_id : Value) (formed : IsWellFormed p)
    (proposed : requires (proposal_checks digest p boot_id) ≡ ok tt) where
  proposal-Apart : Apart (old_records p) (new_records p)
  unfolding are_latches
  proposal-Apart =
      let (
        shape,
        (boots, (node, (latches, (release0, (ledger0, (release1, (ledger1, (generation, _)))))))),
      ) =
        requires-Passed (proposal_checks digest p boot_id) proposed in
      record {
        latch_self = equals_self (get "new_latch" p) (get-IsWellFormed "new_latch" p formed);
        release_self = equals_self (get "new_release" p) (get-IsWellFormed "new_release" p formed);
        ledger_self = equals_self (get "new_ledger" p) (get-IsWellFormed "new_ledger" p formed);
        latch_apart = λ v.
            apart_by "txid" v (get "old_latch" p) (get "new_latch" p)
              (latch_text (get "old_latch" p) (get "old_boot" p) (ground (arith, latches)))
              (latch_text (get "new_latch" p) (get "new_boot" p) (ground (arith, latches)))
              (ground (arith, latches));
        ledger_apart = λ v.
            apart_by "generation" v (get "old_ledger" p) (get "new_ledger" p)
              (ledger_text (get "old_ledger" p) (get "old_latch" p) ledger0)
              (ledger_text (get "new_ledger" p) (get "new_latch" p) ledger1) generation;
      }

  accept_at :
      (s : Store) (index : ℕ)
      → equals s.intent (intent_of digest p) ≡ true
      → (is_null s.complete || equals s.complete (completion_of digest p) && index == 3) ≡ true
      → reconcile_at digest s p index confirmed
        ≡ ok (handoff_writes digest s p index, "CLOSED_ONLY_MODEL_COMPLETE")
  unfolding reconcile_at hand_off
  accept_at s index i c =
      let handed : (index == 0 || equals s.intent (intent_of digest p)) ≡ true =
        ground (arith, i) in
      rw (Passed-requires (store_checks digest s p index confirmed) (handed, (c, (refl, tt))), i)
        refl

  accept :
      (s : Store) (index : ℕ)
      → equals s.intent (intent_of digest p) ≡ true
      → prefix_index s (old_records p) (new_records p) ≡ some index
      → (is_null s.complete || equals s.complete (completion_of digest p) && index == 3) ≡ true
      → reconcile digest s p boot_id confirmed
        ≡ ok (handoff_writes digest s p index, "CLOSED_ONLY_MODEL_COMPLETE")
  unfolding reconcile
  accept s index i e c =
      let fork : (is_null s.intent || equals s.intent (intent_of digest p)) ≡ true =
        ground (arith, i) in
      rw (proposed, fork, e) (accept_at s index i c)

  -- Enough for a call that starts at `index` with nothing complete.
  resume :
      (s : Store) (index : ℕ) (ws : List Write)
      → equals s.intent (intent_of digest p) ≡ true
      → prefix_index s (old_records p) (new_records p) ≡ some index
      → is_null s.complete ≡ true
      → handoff_writes digest s p index ≡ ws
      → all keeps_intent ws ≡ true
      → ((k : ℕ)
          → Stage (old_records p) (new_records p) (completion_of digest p) (put_all s (take k ws)))
      → IsDone digest p (put_all s ws)
      → (vs : List Write) × Resumes digest p boot_id s vs
  resume s index ws i e n w keeps cut done = (
    ws,
    record {
      accepted =
          subst (λ v. reconcile digest s p boot_id confirmed ≡ ok (v, "CLOSED_ONLY_MODEL_COMPLETE"))
            w (accept s index i e (ground (arith, n)));
      survives = λ k. record {
        intended =
            subst (λ v. equals v (intent_of digest p) ≡ true) (sym (put_all-intent s ws k keeps)) i;
        stage = cut k;
      };
      finishes = done;
    },
  )

  resume-at_old :
      (s : Store)
      → equals s.intent (intent_of digest p) ≡ true
      → holds s (get "old_latch" p) (get "old_release" p) (get "old_ledger" p) ≡ true
      → is_null s.complete ≡ true
      → (ws : List Write) × Resumes digest p boot_id s ws
  unfolding prefix_index handoff_writes keeps_intent put_all put holds
  resume-at_old s i h n =
      let a = proposal-Apart in
      resume s 0 _ i (rw h refl) n (rw n refl) refl
        (λ k.
          cut-at_old (old_records p) (new_records p) (completion_of digest p) a
            (finished_self digest p) (finished_present digest p) s k h n)
        (record {
          moved = rw (a.latch_self, a.release_self) a.ledger_self;
          completed = (finished_self digest p);
        })

  past_latch :
      (s : Store) (release ledger : Value)
      → holds s (get "new_latch" p) release ledger ≡ true
      → holds s (get "old_latch" p) (get "old_release" p) (get "old_ledger" p) ≡ false
  unfolding holds
  past_latch s release ledger h = ground (arith, proposal-Apart.latch_apart s.latch)

  resume-at_latch :
      (s : Store)
      → equals s.intent (intent_of digest p) ≡ true
      → holds s (get "new_latch" p) (get "old_release" p) (get "old_ledger" p) ≡ true
      → is_null s.complete ≡ true
      → (ws : List Write) × Resumes digest p boot_id s ws
  unfolding prefix_index handoff_writes keeps_intent put_all put
  resume-at_latch s i h n =
      let a = proposal-Apart in
      let latch : equals s.latch (get "new_latch" p) ≡ true = holds_latch s _ _ _ h in
      resume s 1 _ i (rw (past_latch s _ _ h, h) refl) n (rw n refl) refl
        (λ k.
          cut-at_latch (old_records p) (new_records p) (completion_of digest p) a
            (finished_self digest p) (finished_present digest p) s k h n)
        (record {
          moved = holds_of _ _ _ _ latch a.release_self a.ledger_self;
          completed = (finished_self digest p);
        })

  resume-at_release :
      (s : Store)
      → equals s.intent (intent_of digest p) ≡ true
      → holds s (get "new_latch" p) (get "new_release" p) (get "old_ledger" p) ≡ true
      → is_null s.complete ≡ true
      → (ws : List Write) × Resumes digest p boot_id s ws
  unfolding prefix_index handoff_writes keeps_intent put_all put
  resume-at_release s i h n =
      elim (Bool-cases (holds s (get "new_latch" p) (get "old_release" p) (get "old_ledger" p))) [
        | inl both ↦ resume-at_latch s i both n
        | inr apart ↦
            let a = proposal-Apart in
            let latch : equals s.latch (get "new_latch" p) ≡ true = holds_latch s _ _ _ h in
            let release : equals s.release (get "new_release" p) ≡ true = holds_release s _ _ _ h in
            resume s 2 _ i (rw (past_latch s _ _ h, apart, h) refl) n (rw n refl) refl
              (λ k.
                cut-at_release (old_records p) (new_records p) (completion_of digest p) a
                  (finished_self digest p) (finished_present digest p) s k h n)
              (record {
                moved = holds_of _ _ _ _ latch release a.ledger_self;
                completed = (finished_self digest p);
              })
      ]

  resume-at_new :
      (s : Store)
      → equals s.intent (intent_of digest p) ≡ true
      → holds s (get "new_latch" p) (get "new_release" p) (get "new_ledger" p) ≡ true
      → is_null s.complete ≡ true
      → (ws : List Write) × Resumes digest p boot_id s ws
  unfolding handoff_writes keeps_intent put_all put holds
  resume-at_new s i h n =
      let a = proposal-Apart in
      resume s 3 _ i
        (prefix_index-at_new (old_records p) (new_records p) (completion_of digest p) a
          (finished_self digest p) (finished_present digest p) s h)
        n (rw n refl) refl
        (λ k.
          cut-at_new (old_records p) (new_records p) (completion_of digest p) a
            (finished_self digest p) (finished_present digest p) s k h n)
        (record { moved = h; completed = (finished_self digest p) })

  resume-at_end :
      (s : Store)
      → equals s.intent (intent_of digest p) ≡ true
      → holds s (get "new_latch" p) (get "new_release" p) (get "new_ledger" p) ≡ true
      → is_null s.complete ≡ false
      → equals s.complete (completion_of digest p) ≡ true
      → (ws : List Write) × Resumes digest p boot_id s ws
  unfolding handoff_writes put_all
  resume-at_end s i h n c =
      let a = proposal-Apart in
      let e =
        prefix_index-at_new (old_records p) (new_records p) (completion_of digest p) a
          (finished_self digest p) (finished_present digest p) s h in
      let none_left : handoff_writes digest s p 3 ≡ [] = rw n refl in
      (
        [],
        record {
          accepted =
              subst
                (λ v. reconcile digest s p boot_id confirmed ≡ ok (v, "CLOSED_ONLY_MODEL_COMPLETE"))
                none_left (accept s 3 i e (rw (n, c) refl));
          survives = λ k. record {
            intended = rw (take-nil {A = Write} k) i;
            stage = rw (take-nil {A = Write} k) (at_end h n c);
          };
          finishes = record { moved = h; completed = c };
        },
      )

  pub resume-Stage :
      (s : Store)
      → equals s.intent (intent_of digest p) ≡ true
      → Stage (old_records p) (new_records p) (completion_of digest p) s
      → (ws : List Write) × Resumes digest p boot_id s ws
  resume-Stage s i (at_old h n) = resume-at_old s i h n
  resume-Stage s i (at_latch h n) = resume-at_latch s i h n
  resume-Stage s i (at_release h n) = resume-at_release s i h n
  resume-Stage s i (at_new h n) = resume-at_new s i h n
  resume-Stage s i (at_end h n c) = resume-at_end s i h n c
