-- ===== src/Authority/Validity.antt =====
-- What `validate_state` accepts, taken apart and put together.
use proxmox_sharedlvmthin.Base.{
  String, Bool, true, not, ◌≡◌, ◌⊎◌, inr, refl, sym, ◌∙◌, arith, Result, ok, refuse_if, ◌>>=◌,
  >>=-eq-ok, is_hex32, is_hex64, is_boot_id, eq_iff, ap, subst,
}
use proxmox_sharedlvmthin.Base.Int.{pos}
use proxmox_sharedlvmthin.Base.Scalars.{
  Scalar, null, int, str, other, same, is_int_from, fullmatch, check_pattern,
}
use proxmox_sharedlvmthin.Authority.State.{
  active, poisoned, Flight, busy, State, Request, check_live, check_flight, check_session,
  check_phase, check_common, validate_state, flight_error, live_error,
}
use proxmox_sharedlvmthin.Authority.Operations.{poison, request_matches}

abbrev pub IsValid : State → Type 0
IsValid s = validate_state s ≡ ok s

-- A live state that is valid, in its parts.
pub record IsLive (s : State) : Type 0 where
  pub common : check_common s ≡ ok tt
  pub live : check_live s ≡ ok tt
  pub flight : check_flight s.ram_revision s.ram_ledger_sha256 s.in_flight ≡ ok tt

pub IsValid-IsLive : (s : State) → s.phase ≡ active → IsValid s → IsLive s
unfolding validate_state check_phase check_session
IsValid-IsLive s p h = ground arith

pub IsLive-IsValid : (s : State) → (s.phase ≡ active) ⊎ (s.phase ≡ poisoned) → IsLive s → IsValid s
unfolding validate_state check_phase check_session
IsLive-IsValid s p h = ground arith

pub poison-IsValid : (s : State) → s.phase ≡ active → IsValid s → IsValid (poison s)
unfolding check_common check_live
poison-IsValid s p h =
    let l = IsValid-IsLive s p h in
    IsLive-IsValid (poison s) (inr refl)
      (record { common = ground (arith, l.common); live = l.live; flight = l.flight })

pub validate_first :
    {B : Type 0} (s : State) (k : State → Result B) {b : B}
    → (validate_state s >>= k) ≡ ok b
    → IsValid s × (k s ≡ ok b)
unfolding validate_state
validate_first s k h =
    let (t, e, rest) = >>=-eq-ok (validate_state s) k h in
    let (u, c, e1) = >>=-eq-ok (check_common s) _ e in
    let (v, d, e2) = >>=-eq-ok (check_phase s.phase s) _ e1 in
    let q : s ≡ t = cc e2 in (e ∙ ap ok (sym q), rw q rest)

pub same-int_self : (v : Scalar) → is_int_from (pos 1) v ≡ true → same v v ≡ true
same-int_self null h = cc
same-int_self (int a) h = ground arith
same-int_self (str t) h = cc
same-int_self other h = cc

pub check_pattern-same_self :
    (p : String → Bool) (m : String) (v : Scalar) → check_pattern p m v ≡ ok tt → same v v ≡ true
check_pattern-same_self p m null h = cc
check_pattern-same_self p m (int a) h = cc
check_pattern-same_self p m (str t) h = (eq_iff t t).1 refl
check_pattern-same_self p m other h = cc

-- Any two error messages do: a check that passes does not use its message.
pub check_pattern_any :
    (p : String → Bool) (m n : String) (v : Scalar)
    → check_pattern p m v ≡ ok tt
    → check_pattern p n v ≡ ok tt
check_pattern_any p m n null h = cc
check_pattern_any p m n (int a) h = cc
check_pattern_any p m n (str t) h = ground arith
check_pattern_any p m n other h = cc

pub fullmatch-check_pattern :
    (p : String → Bool) (m : String) (v : Scalar)
    → fullmatch p v ≡ ok true
    → check_pattern p m v ≡ ok tt
fullmatch-check_pattern p m null h = cc
fullmatch-check_pattern p m (int a) h = cc
fullmatch-check_pattern p m (str t) h = ground arith
fullmatch-check_pattern p m other h = cc

-- What a live session says of its RAM head.
pub check_live-head :
    (s : State)
    → check_live s ≡ ok tt
    → (is_int_from (pos 1) s.ram_revision ≡ true)
      × (check_pattern is_hex64 live_error s.ram_ledger_sha256 ≡ ok tt)
unfolding check_live
check_live-head s h =
    let (a, ea, h1) = >>=-eq-ok (check_pattern is_hex32 live_error s.session_nonce) _ h in
    let (b, eb, h2) = >>=-eq-ok (check_pattern is_boot_id live_error s.boot_id) _ h1 in
    let (c, ec, h3) = >>=-eq-ok (check_pattern is_hex32 live_error s.invocation_id) _ h2 in
    (ground arith, ground arith)

pub request_matches-parts :
    (r : Request)
    → request_matches r ≡ ok true
    → (fullmatch is_hex32 r.request_id ≡ ok true)
      × (fullmatch is_hex32 r.transaction ≡ ok true)
      × (fullmatch is_hex32 r.attempt ≡ ok true)
unfolding request_matches
request_matches-parts r h = ground arith

pub busy_pos :
    (s : State) (f : Flight)
    → IsValid s
    → s.phase ≡ active
    → s.in_flight ≡ busy f
    → is_int_from (pos 1) f.pre_revision ≡ true
unfolding check_flight
busy_pos s f v p b =
    let h : check_flight s.ram_revision s.ram_ledger_sha256 (busy f) ≡ ok tt =
      subst (λ i. check_flight s.ram_revision s.ram_ledger_sha256 i ≡ ok tt) b
        (IsValid-IsLive s p v).flight in
    let (a, ea, h1) = >>=-eq-ok (check_pattern is_hex32 flight_error f.request_id) _ h in
    let (c, ec, h2) = >>=-eq-ok (check_pattern is_hex32 flight_error f.transaction) _ h1 in
    let (d, ed, h3) = >>=-eq-ok (check_pattern is_hex32 flight_error f.attempt) _ h2 in ground arith

pub busy_pre :
    (s : State) (f : Flight)
    → IsValid s
    → s.phase ≡ active
    → s.in_flight ≡ busy f
    → same f.pre_revision s.ram_revision ≡ true
unfolding check_flight
busy_pre s f v p b =
    let h : check_flight s.ram_revision s.ram_ledger_sha256 (busy f) ≡ ok tt =
      subst (λ i. check_flight s.ram_revision s.ram_ledger_sha256 i ≡ ok tt) b
        (IsValid-IsLive s p v).flight in
    let (a, ea, h1) = >>=-eq-ok (check_pattern is_hex32 flight_error f.request_id) _ h in
    let (c, ec, h2) = >>=-eq-ok (check_pattern is_hex32 flight_error f.transaction) _ h1 in
    let (d, ed, h3) = >>=-eq-ok (check_pattern is_hex32 flight_error f.attempt) _ h2 in
    let (g, eg, h4) =
      >>=-eq-ok (refuse_if (not (is_int_from (pos 1) f.pre_revision)) flight_error) _ h3 in
    let (j, ej, h5) = >>=-eq-ok (check_pattern is_hex64 flight_error f.pre_ledger_sha256) _ h4 in
    ground arith
