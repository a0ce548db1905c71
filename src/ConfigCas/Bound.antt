-- ===== src/ConfigCas/Bound.antt =====
-- How long an accepted trace can be.
use proxmox_sharedlvmthin.Base.{
  ℕ, suc, ◌+◌, ◌≤◌, ◌<◌, Bool, true, false, not, List, [], ◌∷◌, ok, >>=-eq-ok, length, ◌≡◌, ◌≢◌,
  arith, require-eq-ok,
}
use proxmox_sharedlvmthin.ConfigCas.Trace.{
  Field, Kind, reserve, cas_dispatch, crash, intent_ack, receipt_ack, cas_return, quiescence,
  observe, Event, Request, Phase, new, intent_pending, intent_durable, cas_dispatched,
  settlement_pending, settlement_admitted, observed, terminal, State, is_phase, check_envelope,
  tick, observe_as, observe_bytes, observe_error, observe_result, handle, step, run, initial,
  absent, bytes, flag, text, number, foreign, number_of,
}
use proxmox_sharedlvmthin.ConfigCas.Effects.{Good, is_phase-eq, step-Good, tick-Good, initial-Good}

unfoldable rank : Phase → ℕ
rank new = 0
rank intent_pending = 1
rank intent_durable = 2
rank cas_dispatched = 3
rank settlement_pending = 4
rank settlement_admitted = 5
rank observed = 6
rank terminal = 7

abbrev crash_bonus : Bool → ℕ
crash_bonus true = 2
crash_bonus false = 0

-- What every event raises: a crash may go back by one phase, and happens once.
abbrev potential : State → ℕ
potential s = rank s.phase + crash_bonus s.crashed

potential_most : (s : State) → potential s ≤ 9
unfolding rank
potential_most s = ground arith

observe_bytes-observed :
    (r : Request) (s t : State) (raw : Field)
    → observe_bytes r s raw ≡ ok t
    → (t.phase ≡ observed) × (t.crashed ≡ s.crashed)
unfolding observe_bytes observe_as
observe_bytes-observed r s t (bytes raw) e = ground arith
observe_bytes-observed r s t absent e = cc
observe_bytes-observed r s t (flag b) e = cc
observe_bytes-observed r s t (number n) e = cc
observe_bytes-observed r s t (text x) e = cc
observe_bytes-observed r s t foreign e = cc

observe_result-observed :
    (r : Request) (s t : State) (result raw : Field)
    → observe_result r s result raw ≡ ok t
    → (t.phase ≡ observed) × (t.crashed ≡ s.crashed)
unfolding observe_result observe_error observe_as
observe_result-observed r s t result raw e = ground (arith, observe_bytes-observed r s t raw)

handle-potential :
    (r : Request) (s t : State) (k : Kind)
    → Good s
    → s.phase ≢ terminal
    → handle r s k ≡ ok t
    → potential s < potential t
unfolding handle rank
handle-potential r s t reserve g n e = ground (arith, is_phase-eq new s.phase)
handle-potential r s t (intent_ack durability) g n e =
    ground (arith, is_phase-eq intent_pending s.phase)
handle-potential r s t cas_dispatch g n e = ground (arith, is_phase-eq intent_durable s.phase)
handle-potential r s t (cas_return outcome detail) g n e =
    ground (arith, is_phase-eq cas_dispatched s.phase)
handle-potential r s t crash g n e = ground (arith, g.observed_settled)
handle-potential r s t (quiescence x y z) g n e =
    ground (arith, is_phase-eq settlement_pending s.phase)
handle-potential r s t (observe result raw) g n e =
    ground
      (arith, is_phase-eq settlement_admitted s.phase, observe_result-observed r s t result raw)
handle-potential r s t (receipt_ack durability) g n e = ground (arith, is_phase-eq observed s.phase)

terminal_closed : (s : State) → s.phase ≡ terminal → ¬ (not (is_phase terminal s.phase) ≡ true)
terminal_closed s p h = ground (arith, p, h)

check_envelope-terminal :
    (r : Request) (i : ℕ) (s : State) (e : Event) (clocks : ℕ × ℕ)
    → check_envelope r i s e ≡ ok clocks
    → s.phase ≢ terminal
unfolding check_envelope
check_envelope-terminal r i s e clocks h =
    let (a, ea, h1) = >>=-eq-ok (number_of "sequence invalid" e.sequence) _ h in
    let (binding, h2) = require-eq-ok _ _ _ h1 in
    let (w, ew, h3) = >>=-eq-ok (number_of "wall_ns invalid" e.wall_ns) _ h2 in
    let (m, em, h4) = >>=-eq-ok (number_of "monotonic_ns invalid" e.monotonic_ns) _ h3 in
    let (forward, h5) = require-eq-ok _ _ _ h4 in
    let (open_, h6) = require-eq-ok _ _ _ h5 in λ p. terminal_closed s p open_

step-potential :
    (r : Request) (i : ℕ) (s t : State) (e : Event)
    → Good s
    → step r i s e ≡ ok t
    → potential s < potential t
unfolding step tick
step-potential r i s t e g h =
    let (clocks, c, rest) = >>=-eq-ok (check_envelope r i s e) _ h in
    handle-potential r (tick r s clocks.0 clocks.1) t e.kind (tick-Good r s clocks.0 clocks.1 g)
      (check_envelope-terminal r i s e clocks c) rest

run-potential :
    (r : Request) (i : ℕ) (s t : State) (events : List Event)
    → Good s
    → run r i s events ≡ ok t
    → potential s + length events ≤ potential t
unfolding run
run-potential r i s t [] g h = ground arith
run-potential r i s t (e ∷ events) g h =
    let (u, first, rest) = >>=-eq-ok (step r i s e) _ h in
    let one = step-potential r i s u e g first in
    let more = run-potential r (suc i) u t events (step-Good r i s u e g first) rest in
    omega (arith, one, more)

-- The event loop accepts no trace of more than nine events, so that the limit on the number of
-- events refuses nothing that the loop would accept.
pub run-length :
    (r : Request) (s : State) (events : List Event)
    → run r 1 (initial r) events ≡ ok s
    → length events ≤ 9
unfolding initial rank
run-length r s events h =
    let grown = run-potential r 1 (initial r) s events (initial-Good r) h in
    omega (arith, grown, potential_most s)
