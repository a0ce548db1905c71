-- ===== src/RebootIntent/Tests.antt =====
-- A handoff that is cut short after its second write, and the theorems at it.
use proxmox_sharedlvmthin.Base.{
  String, true, List, [], ◌∷◌, ◌≡◌, refl, arith, ok, is_hex32, is_hex64, is_boot_id, take,
}
use proxmox_sharedlvmthin.Base.Checks.{requires}
use proxmox_sharedlvmthin.Base.Json.{
  Value, null, str, dict, entry, close, get, has_exactly, is_match, is_null, equals,
}
use proxmox_sharedlvmthin.Base.Json.Laws.{IsWellFormed}
use proxmox_sharedlvmthin.RebootIntent.Reconcile.{
  Store, Write, write_intent, write_latch, write_release, write_ledger, write_complete, put_all,
  closed, holds, prefix_index, is_ledger, is_boot_pair, are_latches, proposal_checks, intent_of,
  completion_of, record_intent, handoff_writes, hand_off, reconcile_at, reconcile, release_of,
}
use proxmox_sharedlvmthin.RebootIntent.Prefixes.{at_old}
use proxmox_sharedlvmthin.RebootIntent.Resume.{confirmed, IsHandoff, IsDone}
use proxmox_sharedlvmthin.RebootIntent.Recovery.{here, call, crash_recovery, no_dispatch-IsHandoff}

abbrev digest_of : Value → String
digest_of v = "aaaaaaaaaaaaaaaaaaaaaaaaaaaaaaaaaaaaaaaaaaaaaaaaaaaaaaaaaaaaaaaa"

abbrev boot_a : Value
boot_a = str "01234567-89ab-cdef-0123-456789abcdef"

abbrev boot_b : Value
boot_b = str "11234567-89ab-cdef-0123-456789abcdef"

abbrev payload : Value
payload = str "bbbbbbbbbbbbbbbbbbbbbbbbbbbbbbbbbbbbbbbbbbbbbbbbbbbbbbbbbbbbbbbb"

abbrev latch : String → Value → Value
latch txid boot = dict (
    entry "state" (str "CLOSED") (
      entry "authority" (str "NONE")
        (entry "txid" (str txid) (entry "boot_id" boot (entry "payload" payload close)))))

abbrev ledger : String → Value
ledger generation = dict (
    entry "phase" (str "ACTIVE")
      (entry "generation" (str generation) (entry "payload" payload close)))

abbrev one : String
one = "00000000000000000000000000000001"

abbrev two : String
two = "00000000000000000000000000000002"

abbrev proposal : Value
proposal = dict (
    entry "node" (str "pve1") (
      entry "old_boot" boot_a (
        entry "new_boot" boot_b (
          entry "old_latch" (latch one boot_a) (
            entry "new_latch" (latch two boot_b) (
              entry "old_release" (release_of digest_of (latch one boot_a)) (
                entry "new_release" (release_of digest_of (latch two boot_b))
                  (entry "old_ledger" (ledger one) (entry "new_ledger" (ledger two) close)))))))))

abbrev fresh : Store
fresh = record {
  intent = null;
  latch = latch one boot_a;
  release = release_of digest_of (latch one boot_a);
  ledger = ledger one;
  complete = null;
}

abbrev intended : Store
intended = record fresh { intent = intent_of digest_of proposal }

proposal-IsWellFormed : IsWellFormed proposal
proposal-IsWellFormed = ground arith

proposal-passes : requires (proposal_checks digest_of proposal boot_b) ≡ ok tt
unfolding requires closed is_ledger is_boot_pair are_latches get has_exactly is_match equals
    is_hex32 is_hex64 is_boot_id
proposal-passes = refl

intended-IsHandoff : IsHandoff digest_of proposal intended
unfolding holds get equals is_null
intended-IsHandoff = record { intended = refl; stage = at_old refl refl }

abbrev writes : List Write
writes =
    write_latch (latch two boot_b)
    ∷ write_release (release_of digest_of (latch two boot_b))
    ∷ write_ledger (ledger two)
    ∷ write_complete (completion_of digest_of proposal)
    ∷ []

reconcile-intended :
    reconcile digest_of intended proposal boot_b confirmed
    ≡ ok (writes, "CLOSED_ONLY_MODEL_COMPLETE")
unfolding reconcile reconcile_at hand_off handoff_writes prefix_index holds requires closed
    is_ledger is_boot_pair are_latches get has_exactly is_match equals is_hex32 is_hex64 is_boot_id
    is_null
reconcile-intended = refl

reconcile-fresh :
    reconcile digest_of fresh proposal boot_b "NO_DISPATCH_PROVEN"
    ≡ ok (write_intent (intent_of digest_of proposal) ∷ [], "CLOSED_ONLY_INTENT_RECORDED")
unfolding reconcile reconcile_at record_intent prefix_index holds requires closed is_ledger
    is_boot_pair are_latches get has_exactly is_match equals is_hex32 is_hex64 is_boot_id is_null
reconcile-fresh = refl

crash_recovery_example :
    (ws : List Write) × (reconcile digest_of
        (put_all intended (take 2 writes))
        proposal
        boot_b
        confirmed
      ≡ ok (ws, "CLOSED_ONLY_MODEL_COMPLETE"))
    × IsDone digest_of proposal (put_all (put_all intended (take 2 writes)) ws)
crash_recovery_example =
    crash_recovery digest_of proposal boot_b proposal-IsWellFormed proposal-passes intended
      (put_all intended (take 2 writes)) intended-IsHandoff (call writes 2 here reconcile-intended)

no_dispatch-IsHandoff_example :
    IsHandoff digest_of proposal (put_all fresh (write_intent (intent_of digest_of proposal) ∷ []))
    × (holds
          (put_all fresh (write_intent (intent_of digest_of proposal) ∷ []))
          (get "old_latch" proposal)
          (get "old_release" proposal)
          (get "old_ledger" proposal)
        ≡ true)
    × ((put_all fresh (write_intent (intent_of digest_of proposal) ∷ [])).complete ≡ fresh.complete)
no_dispatch-IsHandoff_example =
    no_dispatch-IsHandoff digest_of proposal boot_b proposal-IsWellFormed proposal-passes fresh
      (write_intent (intent_of digest_of proposal) ∷ []) "CLOSED_ONLY_INTENT_RECORDED"
      reconcile-fresh
