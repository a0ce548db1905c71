-- ===== src/RebootIntent/Prefixes.antt =====
-- Where a handoff stands, and where it stands after some of its writes.
use proxmox_sharedlvmthin.Base.{
  ℕ, zero, suc, true, false, some, [], ◌∷◌, ◌≡◌, refl, arith, take, take-nil,
}
use proxmox_sharedlvmthin.Base.Json.{Value, equals, is_null}
use proxmox_sharedlvmthin.RebootIntent.Reconcile.{
  Store, Write, write_latch, write_release, write_ledger, write_complete, put, put_all, Records,
  holds, prefix_index,
}

-- What makes the prefixes tell one another apart: the new records equal themselves, and nothing
-- equals an old and a new latch, or an old and a new ledger.
pub record Apart (old new : Records) : Type 0 where
  pub latch_self : equals new.latch new.latch ≡ true
  pub release_self : equals new.release new.release ≡ true
  pub ledger_self : equals new.ledger new.ledger ≡ true
  pub latch_apart : (v : Value) → equals v new.latch ≡ true → equals v old.latch ≡ false
  pub ledger_apart : (v : Value) → equals v new.ledger ≡ true → equals v old.ledger ≡ false

-- The store is at one of the four prefixes, and is complete at the last one only.
pub data Stage (old new : Records) (done : Value) (s : Store) : Type 0 where
  at_old :
      holds s old.latch old.release old.ledger ≡ true
      → is_null s.complete ≡ true
      → Stage old new done s
  at_latch :
      holds s new.latch old.release old.ledger ≡ true
      → is_null s.complete ≡ true
      → Stage old new done s
  at_release :
      holds s new.latch new.release old.ledger ≡ true
      → is_null s.complete ≡ true
      → Stage old new done s
  at_new :
      holds s new.latch new.release new.ledger ≡ true
      → is_null s.complete ≡ true
      → Stage old new done s
  at_end :
      holds s new.latch new.release new.ledger ≡ true
      → is_null s.complete ≡ false
      → equals s.complete done ≡ true
      → Stage old new done s

module _ (old new : Records) (done : Value) (apart : Apart old new)
    (whole : equals done done ≡ true) (present : is_null done ≡ false) where
  holds_new-old :
      (s : Store)
      → holds s new.latch new.release new.ledger ≡ true
      → (holds s old.latch old.release old.ledger ≡ false)
        × (holds s new.latch old.release old.ledger ≡ false)
        × (holds s new.latch new.release old.ledger ≡ false)
  unfolding holds
  holds_new-old s h = ground (arith, apart.ledger_apart s.ledger)

  pub prefix_index-at_new :
      (s : Store)
      → holds s new.latch new.release new.ledger ≡ true
      → prefix_index s old new ≡ some 3
  unfolding prefix_index
  prefix_index-at_new s h = let (a, b, c) = holds_new-old s h in rw (a, b, c, h) refl

  -- The writes that a stage has left.
  pub cut-at_old :
      (s : Store) (k : ℕ)
      → holds s old.latch old.release old.ledger ≡ true
      → is_null s.complete ≡ true
      → Stage old new done (
          put_all s (
            take k (
              write_latch new.latch
              ∷ write_release new.release
              ∷ write_ledger new.ledger
              ∷ write_complete done
              ∷ [])))
  unfolding put_all put holds
  cut-at_old s zero h n = at_old h n
  cut-at_old s (suc zero) h n = at_latch (ground (arith, apart.latch_self)) n
  cut-at_old s (suc (suc zero)) h n =
      at_release (ground (arith, apart.latch_self, apart.release_self)) n
  cut-at_old s (suc (suc (suc zero))) h n =
      at_new (ground (arith, apart.latch_self, apart.release_self, apart.ledger_self)) n
  cut-at_old s (suc (suc (suc (suc k)))) h n = rw (take-nil {A = Write} k) (
      at_end (ground (arith, apart.latch_self, apart.release_self, apart.ledger_self)) present
        whole)

  pub cut-at_latch :
      (s : Store) (k : ℕ)
      → holds s new.latch old.release old.ledger ≡ true
      → is_null s.complete ≡ true
      → Stage old new done (
          put_all s (
            take k
              (write_release new.release ∷ write_ledger new.ledger ∷ write_complete done ∷ [])))
  unfolding put_all put holds
  cut-at_latch s zero h n = at_latch h n
  cut-at_latch s (suc zero) h n = at_release (ground (arith, apart.release_self)) n
  cut-at_latch s (suc (suc zero)) h n =
      at_new (ground (arith, apart.release_self, apart.ledger_self)) n
  cut-at_latch s (suc (suc (suc k))) h n =
      rw (take-nil {A = Write} k)
        (at_end (ground (arith, apart.release_self, apart.ledger_self)) present whole)

  pub cut-at_release :
      (s : Store) (k : ℕ)
      → holds s new.latch new.release old.ledger ≡ true
      → is_null s.complete ≡ true
      → Stage old new done (put_all s (take k (write_ledger new.ledger ∷ write_complete done ∷ [])))
  unfolding put_all put holds
  cut-at_release s zero h n = at_release h n
  cut-at_release s (suc zero) h n = at_new (ground (arith, apart.ledger_self)) n
  cut-at_release s (suc (suc k)) h n =
      rw (take-nil {A = Write} k) (at_end (ground (arith, apart.ledger_self)) present whole)

  pub cut-at_new :
      (s : Store) (k : ℕ)
      → holds s new.latch new.release new.ledger ≡ true
      → is_null s.complete ≡ true
      → Stage old new done (put_all s (take k (write_complete done ∷ [])))
  unfolding put_all put holds
  cut-at_new s zero h n = at_new h n
  cut-at_new s (suc k) h n = rw (take-nil {A = Write} k) (at_end h present whole)
