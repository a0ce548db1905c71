-- ===== src/Authority/Preservation.antt =====
-- Every reply carries a state that the next call will accept.
use proxmox_sharedlvmthin.Base.{
  Bool, true, ◌≡◌, ◌⊎◌, inl, refl, arith, ok, ◌>>=◌, >>=-eq-ok, is_hex32, is_hex64, is_boot_id,
  if◌then◌else◌,
}
use proxmox_sharedlvmthin.Base.Int.{pos, ◌+ℤ◌}
use proxmox_sharedlvmthin.Base.Scalars.{
  Scalar, null, int, str, other, Exact, fields, malformed, same, is_int_from, fullmatch,
  check_pattern,
}
use proxmox_sharedlvmthin.Authority.State.{
  active, Flight, InFlight, idle, busy, garbled, State, Head, Request, Binding, Response, Reply,
  check_live, check_flight, check_common, flight_error, live_error,
}
use proxmox_sharedlvmthin.Authority.Operations.{
  compare_head, observe_valid, observe_head, flight_of, request_matches, begin_request,
  begin_mutation, next, commit_head, complete_flight, complete_any, complete_persist,
  correlate_exact, correlate_response, is_refuse,
}
use proxmox_sharedlvmthin.Authority.Validity.{
  IsValid, IsValid-IsLive, IsLive-IsValid, poison-IsValid, validate_first, same-int_self,
  check_pattern-same_self, check_pattern_any, fullmatch-check_pattern, check_live-head,
  request_matches-parts, busy_pos,
}

compare_head-IsValid :
    (s : State) (h : Head) (r : Reply)
    → IsValid s
    → s.phase ≡ active
    → compare_head s h ≡ ok r
    → IsValid r.state
unfolding compare_head
compare_head-IsValid s h r v p e = ground (arith, poison-IsValid s p v)

observe_valid-IsValid :
    (s : State) (d : Exact Head) (r : Reply)
    → IsValid s
    → observe_valid s d ≡ ok r
    → IsValid r.state
unfolding observe_valid
observe_valid-IsValid s malformed r v e = ground (arith, poison-IsValid s)
observe_valid-IsValid s (fields h) r v e = ground (arith, compare_head-IsValid s h r)

check_flight-flight_of :
    (s : State) (r : Request)
    → check_live s ≡ ok tt
    → request_matches r ≡ ok true
    → check_flight s.ram_revision s.ram_ledger_sha256 (busy (flight_of s r)) ≡ ok tt
unfolding check_flight
check_flight-flight_of s r l m =
    let (rev, led) = check_live-head s l in
    let (a, b, c) = request_matches-parts r m in
    rw (
      fullmatch-check_pattern is_hex32 flight_error r.request_id a,
      fullmatch-check_pattern is_hex32 flight_error r.transaction b,
      fullmatch-check_pattern is_hex32 flight_error r.attempt c,
      rev,
      check_pattern_any is_hex64 live_error flight_error s.ram_ledger_sha256 led,
      same-int_self s.ram_revision rev,
      check_pattern-same_self is_hex64 live_error s.ram_ledger_sha256 led,
    )

with_flight-IsValid :
    (s : State) (r : Request)
    → IsValid s
    → s.phase ≡ active
    → request_matches r ≡ ok true
    → IsValid (record s { in_flight = busy (flight_of s r) })
unfolding check_common check_live
with_flight-IsValid s r v p m =
    let l = IsValid-IsLive s p v in
    IsLive-IsValid (record s { in_flight = busy (flight_of s r) }) (inl p)
      (record { common = l.common; live = l.live; flight = check_flight-flight_of s r l.live m })

begin_request-IsValid :
    (s : State) (q : Exact Request) (r : Reply)
    → IsValid s
    → s.phase ≡ active
    → begin_request s q ≡ ok r
    → IsValid r.state
unfolding begin_request
begin_request-IsValid s malformed r v p e = ground arith
begin_request-IsValid s (fields q) r v p e = ground (arith, with_flight-IsValid s q v p)

-- After an observation the state is active exactly where the observation did not refuse.
observe_valid-active :
    (s : State) (d : Exact Head) (r : Reply)
    → observe_valid s d ≡ ok r
    → (is_refuse r.action ≡ true) ⊎ (r.state ≡ s)
unfolding observe_valid compare_head
observe_valid-active s malformed r e = ground arith
observe_valid-active s (fields h) r e = ground arith

pub observe_head-IsValid :
    (s : State) (d : Exact Head) (r : Reply) → observe_head s d ≡ ok r → IsValid r.state
unfolding observe_head
observe_head-IsValid s d r e =
    let (v, rest) = validate_first s (λ _. observe_valid s d) e in
    observe_valid-IsValid s d r v rest

begin_observed-IsValid :
    (s : State) (d : Exact Head) (q : Exact Request) (r : Reply)
    → IsValid s
    → s.phase ≡ active
    → (observe_head s d >>= λ o. if is_refuse o.action then ok o else begin_request o.state q)
      ≡ ok r
    → IsValid r.state
unfolding observe_head
begin_observed-IsValid s d q r v p e =
    let (o, seen, rest) = >>=-eq-ok (observe_head s d) _ e in
    let (_v, seen') = validate_first s (λ _. observe_valid s d) seen in
    ground (
      arith,
      observe_head-IsValid s d o seen,
      observe_valid-active s d o seen',
      begin_request-IsValid o.state q r,
    )

pub begin_mutation-IsValid :
    (s : State) (b : Exact Binding) (d : Exact Head) (q : Exact Request) (r : Reply)
    → begin_mutation s b d q ≡ ok r
    → IsValid r.state
unfolding begin_mutation
begin_mutation-IsValid s b d q r e =
    let (v, rest) = validate_first s _ e in ground (arith, begin_observed-IsValid s d q r v)

next_pos :
    (v w : Scalar)
    → is_int_from (pos 1) v ≡ true
    → same w (next v) ≡ true
    → is_int_from (pos 1) w ≡ true
unfolding ◌+ℤ◌
next_pos (int a) (int b) h e = ground arith
next_pos (int a) null h e = cc
next_pos (int a) (str t) h e = cc
next_pos (int a) other h e = cc
next_pos null w h e = cc
next_pos (str t) w h e = cc
next_pos other w h e = cc

check_live-set_head :
    (s : State) (rev led : Scalar)
    → check_live s ≡ ok tt
    → is_int_from (pos 1) rev ≡ true
    → check_pattern is_hex64 live_error led ≡ ok tt
    → check_live (record s { ram_revision = rev; ram_ledger_sha256 = led; in_flight = idle })
      ≡ ok tt
unfolding check_live
check_live-set_head s rev led l r d =
    let (a, ea, h1) = >>=-eq-ok (check_pattern is_hex32 live_error s.session_nonce) _ l in
    let (b, eb, h2) = >>=-eq-ok (check_pattern is_boot_id live_error s.boot_id) _ h1 in
    let (c, ec, h3) = >>=-eq-ok (check_pattern is_hex32 live_error s.invocation_id) _ h2 in
    ground arith

committed-IsValid :
    (s : State) (f : Flight) (h : Head)
    → IsValid s
    → s.phase ≡ active
    → s.in_flight ≡ busy f
    → same h.revision (next f.pre_revision) ≡ true
    → fullmatch is_hex64 h.ledger_sha256 ≡ ok true
    → IsValid (record s {
      ram_revision = h.revision;
      ram_ledger_sha256 = h.ledger_sha256;
      in_flight = idle;
    })
unfolding check_common check_flight
committed-IsValid s f h v p b n m =
    let l = IsValid-IsLive s p v in
    IsLive-IsValid
      (record s {
        ram_revision = h.revision;
        ram_ledger_sha256 = h.ledger_sha256;
        in_flight = idle;
      })
      (inl p)
      (record {
        common = l.common;
        live =
            check_live-set_head s h.revision h.ledger_sha256 l.live
              (next_pos f.pre_revision h.revision (busy_pos s f v p b) n)
              (fullmatch-check_pattern is_hex64 live_error h.ledger_sha256 m);
        flight = refl;
      })

-- The head after a commit is one above a head that was valid.
commit_head-IsValid :
    (s : State) (f : Flight) (h : Head) (r : Reply)
    → IsValid s
    → s.phase ≡ active
    → s.in_flight ≡ busy f
    → commit_head s f h ≡ ok r
    → IsValid r.state
unfolding commit_head
commit_head-IsValid s f h r v p b e =
    ground (arith, poison-IsValid s p v, committed-IsValid s f h v p b)

complete_flight-IsValid :
    (s : State) (f : Flight) (q : Request) (post : Exact Head) (committed : Bool) (r : Reply)
    → IsValid s
    → s.phase ≡ active
    → s.in_flight ≡ busy f
    → complete_flight s f q post committed ≡ ok r
    → IsValid r.state
unfolding complete_flight
complete_flight-IsValid s f q malformed committed r v p b e = ground (arith, poison-IsValid s p v)
complete_flight-IsValid s f q (fields h) committed r v p b e =
    ground (arith, poison-IsValid s p v, commit_head-IsValid s f h r v p b)

complete_any-IsValid :
    (s : State) (i : InFlight) (q : Request) (post : Exact Head) (committed : Bool) (r : Reply)
    → IsValid s
    → s.phase ≡ active
    → s.in_flight ≡ i
    → complete_any s i q post committed ≡ ok r
    → IsValid r.state
unfolding complete_any
complete_any-IsValid s (busy f) q post committed r v p b e =
    complete_flight-IsValid s f q post committed r v p b e
complete_any-IsValid s idle q post committed r v p b e = ground arith
complete_any-IsValid s garbled q post committed r v p b e = ground arith

pub complete_persist-IsValid :
    (s : State) (b : Exact Binding) (q : Request) (post : Exact Head) (committed : Bool) (r : Reply)
    → complete_persist s b q post committed ≡ ok r
    → IsValid r.state
unfolding complete_persist
complete_persist-IsValid s b q post committed r e =
    let (v, rest) = validate_first s _ e in
    ground (arith, complete_any-IsValid s s.in_flight q post committed r v)

pub correlate_response-IsValid :
    (s : State) (b : Exact Binding) (q : Exact Request) (p : Exact Response) (r : Reply)
    → correlate_response s b q p ≡ ok r
    → (IsValid s) × (r.state ≡ s)
unfolding correlate_response correlate_exact
correlate_response-IsValid s b malformed p r e =
    let (v, rest) = validate_first s _ e in (v, ground arith)
correlate_response-IsValid s b (fields q) malformed r e =
    let (v, rest) = validate_first s _ e in (v, ground arith)
correlate_response-IsValid s b (fields q) (fields p) r e =
    let (v, rest) = validate_first s _ e in (v, ground arith)
