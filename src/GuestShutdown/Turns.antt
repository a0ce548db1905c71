-- ===== src/GuestShutdown/Turns.antt =====
-- The guests are shut down one after another.
use proxmox_sharedlvmthin.Base.Effects.{gives, raises, Ending}
use proxmox_sharedlvmthin.Base.{
  ℕ, suc, String, Bool, true, false, List, [], ◌∷◌, ◌++◌, all, Result, ◌≡◌, refl, sym, ap, subst,
  ◌∙◌,
}
use mathlib.Core.List.{append-nil, append_assoc}
use proxmox_sharedlvmthin.Base.Int.{ℤ}
use proxmox_sharedlvmthin.Base.Json.{Value}
use proxmox_sharedlvmthin.Control.State.{World}
use proxmox_sharedlvmthin.Control.Calls.{IsLog, after_first}
use proxmox_sharedlvmthin.GuestShutdown.Controller.{Backend, Call, submit_graceful_shutdown}
use proxmox_sharedlvmthin.GuestShutdown.Run.{Answer, guests_of, run}
use proxmox_sharedlvmthin.GuestShutdown.Protocol.{
  opening, surveyed, asked, answered, stops, protocol,
}
use proxmox_sharedlvmthin.GuestShutdown.Order.{run-Finished}

abbrev is_other : Call → Bool
is_other (submit_graceful_shutdown guest) = false
is_other _ = true

-- The calls until a guest is asked, where the earlier ones are asked and recorded as absent before.
abbrev pub until_asked : ℕ → List Value → Value → List Call
until_asked index [] guest = asked index guest
until_asked index (first ∷ earlier) guest =
    asked index first
    ++ (submit_graceful_shutdown first
        ∷ (answered index first ++ until_asked (suc index) earlier guest))

no_call : (xs ys : List Call) (c : Call) → xs ++ (c ∷ ys) ≡ [] → ⊥
no_call [] ys c h = cc
no_call (x ∷ xs) ys c h = cc

-- The place of a request: it comes when the earlier guests are recorded as absent.
abbrev pub IsTurn : ℕ → List Value → List Call → Value → Type 0
IsTurn index guests xs guest =
    (earlier : List Value) × (later : List Value) × (guests ≡ earlier ++ (guest ∷ later))
    × (xs ≡ until_asked index earlier guest)

here_or_later :
    (index : ℕ) (first : Value) (guests : List Value) (tail xs ys zs : List Call) (guest : Value)
    → xs ≡ asked index first ++ zs
    → zs ++ (submit_graceful_shutdown guest ∷ ys)
      ≡ submit_graceful_shutdown first
        ∷ ((answered index first ++ stops (suc index) guests) ++ tail)
    → ((ws : List Call)
        → ws ++ (submit_graceful_shutdown guest ∷ ys) ≡ stops (suc index) guests ++ tail
        → IsTurn (suc index) guests ws guest)
    → IsTurn index (first ∷ guests) xs guest
here_or_later index first guests tail xs ys [] guest before rest next =
    let it : first ≡ guest = cc in
    (
      [],
      guests,
      ap (λ g. g ∷ guests) it,
      before ∙ append-nil (asked index first) ∙ ap (asked index) it,
    )
here_or_later index first guests tail xs ys (z ∷ zs) guest before rest next =
    let head : z ≡ submit_graceful_shutdown first = cc in
    let after : zs ++ (submit_graceful_shutdown guest ∷ ys)
        ≡ answered index first ++ (stops (suc index) guests ++ tail) =
      cc in
    let (ws, split, left) =
      after_first is_other (answered index first) (stops (suc index) guests ++ tail) zs ys
        (submit_graceful_shutdown guest) refl refl after in
    let (earlier, later, listed, turn) = next ws left in
    (
      first ∷ earlier,
      later,
      ap (λ l. first ∷ l) listed,
      before
          ∙ ap (λ c. asked index first ++ (c ∷ zs)) head
          ∙ ap (λ l. asked index first ++ (submit_graceful_shutdown first ∷ l)) split
          ∙ ap
              (λ l.
                asked index first ++ (submit_graceful_shutdown first ∷ (answered index first ++ l)))
              turn,
    )

located :
    (index : ℕ) (guests : List Value) (tail xs ys : List Call) (guest : Value)
    → all is_other tail ≡ true
    → xs ++ (submit_graceful_shutdown guest ∷ ys) ≡ stops index guests ++ tail
    → IsTurn index guests xs guest
located index [] tail xs ys guest others same =
    let (zs, _, nothing) =
      after_first is_other tail [] xs ys (submit_graceful_shutdown guest) others refl
        (same ∙ sym (append-nil tail)) in
    absurd (no_call zs ys (submit_graceful_shutdown guest) nothing)
located index (first ∷ guests) tail xs ys guest others same =
    let (zs, before, rest) =
      after_first is_other (asked index first)
        (submit_graceful_shutdown first
          ∷ ((answered index first ++ stops (suc index) guests) ++ tail))
        xs ys (submit_graceful_shutdown guest) refl refl same in
    here_or_later index first guests tail xs ys zs guest before rest
      λ ws left. located (suc index) guests tail ws ys guest others left

-- The calls of a run are the first ones of the whole protocol.
IsLog-prefix :
    (whole calls : List Call) (r : Ending Answer)
    → IsLog whole [] calls r
    → (left : List Call) × (calls ++ left ≡ whole)
IsLog-prefix whole calls (gives a) logged = ([], append-nil calls ∙ logged)
IsLog-prefix whole calls (raises kind message) (done, left, split, logged) =
    (left, ap (λ l. l ++ left) logged ∙ sym split)

-- When a run, of a controller that is not running and not poisoned and of which no call was noted
-- before, asks a guest to shut down, however the run ends, then the guest is in the plan's list, and
-- what was called before is exactly this: the journal, a survey of the cluster, for each guest that
-- stands before it a request with its receipts, up to the record that it is absent, and for the guest
-- itself a survey, a look at it, and the records that its request is meant and attempted.
pub run_turn :
    {S : Type 0} (b : Backend S) (is_digits : String → Bool) (int_of : String → Result ℤ)
    (plan : Value) (digest : Value → String) (plan_sha : String) (w : World S Call)
    (xs ys : List Call) (guest : Value)
    → w.self.running ≡ false
    → w.self.poisoned ≡ false
    → w.calls ≡ []
    → (run b is_digits int_of plan digest plan_sha w).0.calls
      ≡ xs ++ (submit_graceful_shutdown guest ∷ ys)
    → (earlier : List Value) × (later : List Value) × (guests_of plan ≡ earlier ++ (guest ∷ later))
      × (xs ≡ (opening ++ surveyed) ++ until_asked 0 earlier guest)
run_turn b is_digits int_of plan digest plan_sha w xs ys guest idle clean unlogged asked_ =
    let end = run b is_digits int_of plan digest plan_sha w in
    let whole = protocol (guests_of plan) in
    let logged = (run-Finished b is_digits int_of plan digest plan_sha w idle clean).0 in
    let (left, split) =
      IsLog-prefix whole end.0.calls end.1
        (subst (λ l. IsLog whole l end.0.calls end.1) unlogged logged) in
    let (zs, before, rest) =
      after_first is_other (opening ++ surveyed) (stops 0 (guests_of plan) ++ surveyed) xs
        (ys ++ left) (submit_graceful_shutdown guest) refl refl
        (sym (append_assoc xs (submit_graceful_shutdown guest ∷ ys) left)
          ∙ ap (λ l. l ++ left) (sym asked_)
          ∙ split) in
    let (earlier, later, listed, turn) =
      located 0 (guests_of plan) surveyed zs (ys ++ left) guest refl rest in
    (earlier, later, listed, before ∙ ap (λ l. (opening ++ surveyed) ++ l) turn)
