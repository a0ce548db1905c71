-- ===== src/RebootIntent/Reconcile.antt =====
-- `reconcile` reads the store before it writes, and what it writes does not depend on its writes: a
-- call is the list of its writes and its result, and a crash keeps a prefix of them.
use proxmox_sharedlvmthin.Base.{
  ℕ, String, Bool, not, ◌&&◌, ◌||◌, Option, none, some, List, [], ◌∷◌, if◌then◌else◌, Result, ok,
  refused, ◌>>◌, require, is_hex32, is_hex64, is_boot_id, str_eq, contains, leb, ◌==◌,
}
use proxmox_sharedlvmthin.Base.Int.{pos}
use proxmox_sharedlvmthin.Base.Checks.{◌//◌, requires}
use proxmox_sharedlvmthin.Base.Json.{
  Value, int, str, dict, entry, close, get, has_exactly, is_match, is_nonempty, is_null, is_text,
  equals,
}

pub record Store : Type 0 where
  pub intent : Value
  pub latch : Value
  pub release : Value
  pub ledger : Value
  pub complete : Value

pub data Write : Type 0 where
  write_intent write_latch write_release write_ledger write_complete : Value → Write

unfoldable pub put : Store → Write → Store
put s (write_intent v) = record s { intent = v }
put s (write_latch v) = record s { latch = v }
put s (write_release v) = record s { release = v }
put s (write_ledger v) = record s { ledger = v }
put s (write_complete v) = record s { complete = v }

unfoldable pub put_all : Store → List Write → Store
put_all s [] = s
put_all s (w ∷ ws) = put_all (put s w) ws

unfoldable pub closed : Value → Value → Bool
closed value boot =
    has_exactly ("state" ∷ "authority" ∷ "txid" ∷ "boot_id" ∷ "payload" ∷ []) value
    && is_text "CLOSED" (get "state" value)
    && is_text "NONE" (get "authority" value)
    && is_match is_hex32 (get "txid" value)
    && equals (get "boot_id" value) boot
    && is_match is_hex64 (get "payload" value)

-- The records of one boot: `old_tuple` and `new_tuple`.
pub record Records : Type 0 where
  pub latch : Value
  pub release : Value
  pub ledger : Value

abbrev pub old_records : Value → Records
old_records p = record {
  latch = get "old_latch" p;
  release = get "old_release" p;
  ledger = get "old_ledger" p;
}

abbrev pub new_records : Value → Records
new_records p = record {
  latch = get "new_latch" p;
  release = get "new_release" p;
  ledger = get "new_ledger" p;
}

unfoldable pub holds : Store → (latch release ledger : Value) → Bool
holds s latch release ledger =
    equals s.latch latch && equals s.release release && equals s.ledger ledger

-- `prefixes.index(actual)`, where `actual` is one of the prefixes.
unfoldable pub prefix_index : Store → Records → Records → Option ℕ
prefix_index s old new =
    if holds s old.latch old.release old.ledger
    then some 0
    else if holds s new.latch old.release old.ledger
    then some 1
    else if holds s new.latch new.release old.ledger
    then some 2
    else if holds s new.latch new.release new.ledger
    then some 3
    else none

unfoldable pub is_ledger : Value → Value → Bool
is_ledger ledger latch =
    has_exactly ("phase" ∷ "generation" ∷ "payload" ∷ []) ledger
    && is_text "ACTIVE" (get "phase" ledger)
    && is_match is_hex32 (get "generation" ledger)
    && equals (get "payload" ledger) (get "payload" latch)

unfoldable pub is_boot_pair : Value → Value → Bool
is_boot_pair p boot_id =
    is_match is_boot_id (get "old_boot" p)
    && is_match is_boot_id (get "new_boot" p)
    && not (equals (get "old_boot" p) (get "new_boot" p))
    && equals boot_id (get "new_boot" p)

unfoldable pub are_latches : Value → Bool
are_latches p =
    closed (get "old_latch" p) (get "old_boot" p)
    && closed (get "new_latch" p) (get "new_boot" p)
    && not (equals (get "txid" (get "old_latch" p)) (get "txid" (get "new_latch" p)))

abbrev pub write_when : Bool → Write → List Write → List Write
write_when due w ws = if due then w ∷ ws else ws

-- `json.dumps`, then SHA-256, is the parameter.
module _ (digest : Value → String) where
  abbrev pub release_of : Value → Value
  release_of latch =
      dict (entry "qualified" (str "UNQUALIFIED") (entry "latch_sha256" (str (digest latch)) close))

  -- What is required of the proposal, in the order of the source.
  abbrev pub proposal_checks : Value → Value → List (Bool × String)
  proposal_checks p boot_id =
      (has_exactly
          ("node" ∷ "old_boot" ∷ "new_boot" ∷ "old_latch" ∷ "new_latch" ∷ "old_release"
            ∷ "new_release" ∷ "old_ledger" ∷ "new_ledger" ∷ [])
          p
        // "proposal shape")
      ∷ (is_boot_pair p boot_id // "boot changed or invalid")
      ∷ (is_match is_nonempty (get "node" p) // "node missing")
      ∷ (are_latches p // "latch identity is not closed")
      ∷ (equals (get "old_release" p) (release_of (get "old_latch" p))
          // "release does not bind closed latch")
      ∷ (is_ledger (get "old_ledger" p) (get "old_latch" p) // "ledger mismatch")
      ∷ (equals (get "new_release" p) (release_of (get "new_latch" p))
          // "release does not bind closed latch")
      ∷ (is_ledger (get "new_ledger" p) (get "new_latch" p) // "ledger mismatch")
      ∷ (not
            (equals (get "generation" (get "old_ledger" p)) (get "generation" (get "new_ledger" p)))
          // "ledger generation did not advance")
      ∷ []

  -- `expected`, the intent of a proposal, and `complete`.
  abbrev pub intent_of : Value → Value
  intent_of p = dict (
      entry "model" (int (pos 1)) (
        entry "authority" (str "NONE")
          (entry "proposal" p (entry "proposal_sha256" (str (digest p)) close))))

  abbrev pub completion_of : Value → Value
  completion_of p = dict (
      entry "model" (int (pos 1))
        (entry "authority" (str "NONE") (entry "intent_sha256" (str (digest (intent_of p))) close)))

  -- What is required of the store and the observed effects, once the index is known.
  abbrev pub store_checks : Store → Value → ℕ → String → List (Bool × String)
  store_checks s p index effects =
      (index == 0 || equals s.intent (intent_of p) // "handoff lacks its intent")
      ∷ (is_null s.complete || equals s.complete (completion_of p) && index == 3
          // "completion fork")
      ∷ (contains ("NO_DISPATCH_PROVEN" ∷ "EXACT_TARGET_CONFIRMED" ∷ []) effects
          // "previous effect is unknown")
      ∷ []

  unfoldable pub record_intent : Store → Value → ℕ → Result (List Write × String)
  record_intent s p index = do
    require (index == 0 && is_null s.complete) "no-dispatch observation conflicts with handoff"
    ok (
      if is_null s.intent then write_intent (intent_of p) ∷ [] else [],
      "CLOSED_ONLY_INTENT_RECORDED",
    )

  unfoldable pub handoff_writes : Store → Value → ℕ → List Write
  handoff_writes s p index = write_when (leb index 0) (write_latch (get "new_latch" p)) (
      write_when (leb index 1) (write_release (get "new_release" p)) (
        write_when (leb index 2) (write_ledger (get "new_ledger" p))
          (write_when (is_null s.complete) (write_complete (completion_of p)) [])))

  unfoldable pub hand_off : Store → Value → ℕ → Result (List Write × String)
  hand_off s p index = do
    require (equals s.intent (intent_of p)) "target evidence without prior durable intent"
    ok (handoff_writes s p index, "CLOSED_ONLY_MODEL_COMPLETE")

  unfoldable pub reconcile_at : Store → Value → ℕ → String → Result (List Write × String)
  reconcile_at s p index effects = do
    requires (store_checks s p index effects)
    if str_eq effects "NO_DISPATCH_PROVEN" then record_intent s p index else hand_off s p index

  unfoldable pub reconcile : Store → Value → Value → String → Result (List Write × String)
  reconcile s p boot_id effects = do
    requires (proposal_checks p boot_id)
    require (is_null s.intent || equals s.intent (intent_of p)) "intent fork"
    elim (prefix_index s (old_records p) (new_records p)) [
      | none ↦ refused "records do not match an ordered prefix"
      | some index ↦ reconcile_at s p index effects
    ]
