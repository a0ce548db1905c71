-- ===== src/Barrier/Steps.antt =====
-- Which calls each part of a run makes.
use proxmox_sharedlvmthin.Base.{
  ℕ, suc, String, Bool, true, false, List, [], ◌∷◌, ◌++◌, ◌==◌, Result,
}
use proxmox_sharedlvmthin.Base.Json.{Value, get, is_text, items}
use proxmox_sharedlvmthin.Base.Effects.{Emits, Emits-pure, Emits-bind, after_call, ◌>>◌}
use proxmox_sharedlvmthin.Barrier.Controller.{Backend, now, guard, authority}
use proxmox_sharedlvmthin.Barrier.Run.{
  participants, preflight, check_barred, check_first_drain, drain, perform_step, record_action,
  act_on, act_all, complete, begin,
}
use proxmox_sharedlvmthin.Control.Calls.{log, ask-Emits, after_two, call_rules}
use proxmox_sharedlvmthin.Barrier.Protocol.{
  opening, preflight_calls, barrier_calls, effect_step, effect, recorded, gate_at, all_calls, work,
  authority-Emits, guard-Emits, persist-Emits,
}

ruleset part_rules = (call_rules, authority-Emits, guard-Emits, persist-Emits)

module _ {S : Type 0} (b : Backend S) (is_sorted_set : List Value → Result Bool) (plan : Value)
    (digest : Value → String) (plan_sha256 : String) where
  preflight-Emits :
      (rows : List Value)
      → Emits log (preflight_calls rows) (preflight b is_sorted_set plan digest plan_sha256 rows)
  unfolding preflight
  preflight-Emits [] = Emits-pure log tt
  preflight-Emits (row ∷ rows) =
      let rest = preflight-Emits rows in search (part_rules, rest) depth 24

  check_barred-Emits :
      (rows : List Value)
      → Emits log (barrier_calls rows) (check_barred b is_sorted_set plan digest plan_sha256 rows)
  unfolding check_barred
  check_barred-Emits [] = Emits-pure log tt
  check_barred-Emits (row ∷ rows) =
      let rest = check_barred-Emits rows in search (part_rules, rest) depth 24

  check_first_drain-Emits :
      (c : Bool)
      → Emits log
          (gate_at (barrier_calls (participants plan)) c)
          (check_first_drain b is_sorted_set plan digest plan_sha256 c)
  unfolding check_first_drain
  check_first_drain-Emits true = check_barred-Emits (participants plan)
  check_first_drain-Emits false = Emits-pure log tt

  perform_step-Emits :
      (c d : Bool) (act : Value)
      → Emits log
          (effect_step c d (get "node" act) ∷ [])
          (perform_step b is_sorted_set plan digest plan_sha256 c d act)
  unfolding perform_step drain
  perform_step-Emits true d act = ask-Emits _ _
  perform_step-Emits false true act = search part_rules depth 16
  perform_step-Emits false false act = ask-Emits _ _

  recorded-Emits :
      (index : ℕ) (act : Value)
      → Emits log
          (recorded index (effect act))
          (record_action b is_sorted_set plan digest plan_sha256 index act)
  unfolding record_action
  recorded-Emits index act =
      let done =
        perform_step-Emits (is_text "ENTRY_BLOCK" (get "step" act))
          (is_text "SERVICE_DRAIN" (get "step" act)) act in
      after_call log _ _ _ _ (guard-Emits b plan digest plan_sha256) λ u.
        after_two _ _ _ _ _ (persist-Emits b plan digest plan_sha256 _ _ _ _) λ u.
          after_two _ _ _ _ _ (persist-Emits b plan digest plan_sha256 _ _ _ _) λ u.
            after_call log _ _ _ _ (guard-Emits b plan digest plan_sha256)
              λ u. after_call log _ _ _ _ done λ receipt. search part_rules depth 16

  act_on-Emits :
      (index : ℕ) (act : Value)
      → Emits log
          (gate_at (barrier_calls (participants plan)) (index == 4) ++ recorded index (effect act))
          (act_on b is_sorted_set plan digest plan_sha256 index act)
  unfolding act_on
  act_on-Emits index act =
      Emits-bind log _ _ _ _ (check_first_drain-Emits (index == 4)) λ u. recorded-Emits index act

  act_all-Emits :
      (index : ℕ) (acts : List Value)
      → Emits log
          (all_calls (barrier_calls (participants plan)) index acts)
          (act_all b is_sorted_set plan digest plan_sha256 index acts)
  unfolding act_all
  act_all-Emits index [] = Emits-pure log tt
  act_all-Emits index (act ∷ acts) =
      Emits-bind log _ _ _ _ (act_on-Emits index act) λ u. act_all-Emits (suc index) acts

  closing-Emits :
      Emits log (now ∷ []) (guard b plan digest plan_sha256 >> authority b plan digest plan_sha256)
  closing-Emits = search part_rules depth 16

  pub complete-Emits : Emits log (work plan) (complete b is_sorted_set plan digest plan_sha256)
  unfolding complete
  complete-Emits =
      Emits-bind log _ _ _ _ (preflight-Emits (participants plan)) λ u.
        Emits-bind log _ _ _ _ (act_all-Emits 0 (items (get "actions" plan))) λ u. closing-Emits

  pub begin-Emits : Emits log opening (begin b is_sorted_set plan digest plan_sha256)
  unfolding begin
  begin-Emits = search part_rules depth 16
