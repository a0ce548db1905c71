-- ===== src/Barrier/Sound.antt =====
-- What poisons the controller inside a callback is seen before a run returns.
use proxmox_sharedlvmthin.Base.{String, Bool, List, Result}
use proxmox_sharedlvmthin.Base.Json.{Value}
use proxmox_sharedlvmthin.Base.Effects.{Returns, Returns-then}
use proxmox_sharedlvmthin.Base.Kept.{Returns-keep}
use proxmox_sharedlvmthin.Control.Sound.{IsUnpoisoned, unchanged-Returns, keep_rules}
use proxmox_sharedlvmthin.Barrier.Controller.{Backend, Call, authority, clock, guard}
use proxmox_sharedlvmthin.Barrier.Run.{complete, begin}

module _ {S : Type 0} (b : Backend S) (is_sorted_set : List Value → Result Bool) (plan : Value)
    (digest : Value → String) (plan_sha256 : String) where
  authority-Returns :
      Returns (λ w u. IsUnpoisoned {S = S} {C = Call} w) (authority b plan digest plan_sha256)
  unfolding authority
  authority-Returns = unchanged-Returns _ _

  clock-Returns :
      Returns (λ w u. IsUnpoisoned {S = S} {C = Call} w) (clock b plan digest plan_sha256)
  unfolding clock
  clock-Returns = Returns-then _ _ _ λ previous.
      Returns-then _ _ _
        λ value. Returns-keep IsUnpoisoned _ _ authority-Returns λ u. search keep_rules depth 16

  guard-Returns :
      Returns (λ w u. IsUnpoisoned {S = S} {C = Call} w) (guard b plan digest plan_sha256)
  unfolding guard
  guard-Returns = Returns-then _ _ _ λ u. clock-Returns

  pub begin-Returns :
      Returns
        (λ w found. IsUnpoisoned {S = S} {C = Call} w)
        (begin b is_sorted_set plan digest plan_sha256)
  unfolding begin
  begin-Returns = Returns-then _ _ _ λ u.
      Returns-then _ _ _
        λ history. Returns-keep IsUnpoisoned _ _ guard-Returns λ u. search keep_rules

  pub complete-Returns :
      Returns
        (λ w u. IsUnpoisoned {S = S} {C = Call} w)
        (complete b is_sorted_set plan digest plan_sha256)
  unfolding complete
  complete-Returns =
      Returns-then _ _ _ λ u. Returns-then _ _ _ λ u. Returns-then _ _ _ λ u. authority-Returns
