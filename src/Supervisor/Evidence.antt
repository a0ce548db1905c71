-- ===== src/Supervisor/Evidence.antt =====
-- What the record of a failed run says of the child.
use proxmox_sharedlvmthin.Base.Effects.{Raise, raises-message, gives, raises, Ending}
use proxmox_sharedlvmthin.Base.{
  String, Bool, true, false, ◌&&◌, List, [], ◌∷◌, ◌++◌, Result, ok, refused, ◌≡◌, refl, arith, ap,
  subst, if◌then◌else◌, &&_intro, &&_right,
}
use proxmox_sharedlvmthin.Base.Checks.{requires, requires-Passed}
use proxmox_sharedlvmthin.Base.Json.{Value, null, get, is_null, is_true, is_false, is_dict}
use proxmox_sharedlvmthin.Supervisor.Receipts.{validate_child}
use proxmox_sharedlvmthin.Supervisor.Model.{Backend, new, unknown, World, ask, persist, enter}
use proxmox_sharedlvmthin.Supervisor.Run.{
  attempt, begin, check_settlement, settlement_checks, settlement_of, settlement_unknown,
  ask_settlement, settle_child, is_unsettled, is_new, preserve, conclude, run, unknown_event,
  is_accounted, is_signal_allowed,
}

-- The record says that the child is gone only if it ended, was reaped and left no other, and that it
-- was signalled only under a policy that allows it, through an exact descriptor.
abbrev pub is_evidence : Value → Value → Value → Bool
is_evidence request pidfd s = is_accounted s && is_signal_allowed request pidfd s

checked_case :
    (request child pidfd v : Value) (c : Result (Unit {0}))
    → (c ≡ ok tt → is_evidence request pidfd v ≡ true)
    → is_evidence request pidfd
        (elim c as (λ _. Value) [ refused message ↦ settlement_unknown message | ok _ ↦ v ])
      ≡ true
unfolding get is_false is_true is_null
checked_case request child pidfd v (refused message) h = ground arith
checked_case request child pidfd v (ok u) h = h refl

receipt-is_evidence :
    (request child pidfd v : Value)
    → requires (settlement_checks request child pidfd v) ≡ ok tt
    → is_evidence request pidfd v ≡ true
receipt-is_evidence request child pidfd v h =
    let (shown, (policy, (bound, _))) =
      requires-Passed (settlement_checks request child pidfd v) h in
    &&_intro (&&_right _ (is_accounted v) shown) (&&_intro policy bound)

validated_case :
    (c : Result (Unit {0})) (d : Result (Unit {0}))
    → (elim c as (λ _. Result (Unit {0})) [ refused message ↦ refused message | ok _ ↦ d ]) ≡ ok tt
    → d ≡ ok tt
validated_case (refused message) d h = cc
validated_case (ok u) d h = h

settlement_of-is_evidence :
    (request owner child pidfd : Value) (r : Ending Value)
    → is_evidence request pidfd (settlement_of request owner child pidfd r) ≡ true
unfolding settlement_of check_settlement get is_false is_true is_null
settlement_of-is_evidence request owner child pidfd (raises kind message) = ground arith
settlement_of-is_evidence request owner child pidfd (gives v) =
    checked_case request child pidfd v (check_settlement request owner child pidfd v) λ h.
      receipt-is_evidence request child pidfd v (
        validated_case
          (if is_dict v then validate_child request owner false (get "child" v) else ok tt) _ h)

-- The last event of a run is the record of its failure, with evidence of what it says of the child.
abbrev pub Recorded : {S : Type 0} → String → World S → Type 0
Recorded message w =
    (earlier : List Value) × (settlement : Value) × (w.events
      ≡ earlier ++ (unknown_event w.request w.child w.pidfd settlement message ∷ []))
    × (is_evidence w.request w.pidfd settlement ≡ true)

null-is_evidence : (request pidfd : Value) → is_evidence request pidfd null ≡ true
unfolding get is_false is_true is_null
null-is_evidence request pidfd = ground arith

module _ {S : Type 0} (b : Backend S) (normpath : String → String) (digest : Value → String)
    (empty_digest : String) where
  settled_record :
      (w : World S) (c : Bool)
      → (let (s, v) = if c then ask_settlement b normpath digest empty_digest w else (w, null) in
          is_evidence s.request s.pidfd v ≡ true)
  unfolding ask_settlement ask
  settled_record w true = settlement_of-is_evidence w.request w.owner w.child w.pidfd _
  settled_record w false = null-is_evidence w.request w.pidfd

  preserve-Recorded :
      (message : String) (w : World S)
      → Recorded message (preserve b normpath digest empty_digest message w)
  unfolding preserve settle_child persist
  preserve-Recorded message w = (_, _, refl, settled_record (enter unknown w) (is_unsettled w))

  conclude-Recorded :
      (step : World S × Ending Value) (kind : Raise) (message : String)
      → (conclude b normpath digest empty_digest step).1 ≡ raises kind message
      → Recorded message (conclude b normpath digest empty_digest step).0
  unfolding conclude
  conclude-Recorded (w, gives v) kind message h = cc
  conclude-Recorded (w, raises k m) kind message h =
      subst (λ t. Recorded t (preserve b normpath digest empty_digest m w)) (raises-message h)
        (preserve-Recorded m w)

  -- A run of a new supervisor that fails offers the journal, as its last event, the request, the
  -- child, the descriptor and the error, and a settlement that never says more than was shown.
  pub run-Recorded :
      (request owner : Value) (w : World S) (kind : Raise) (message : String)
      → w.phase ≡ new
      → (run b normpath digest empty_digest request owner w).1 ≡ raises kind message
      → Recorded message (run b normpath digest empty_digest request owner w).0
  unfolding run
  run-Recorded request owner w kind message fresh h =
      let e : is_new w.phase ≡ true = ap is_new fresh in
      rw e (
        conclude-Recorded (attempt b normpath digest empty_digest request owner (begin w)) kind
          message (rw e at h))
