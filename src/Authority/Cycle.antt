-- ===== src/Authority/Cycle.antt =====
-- What a live authority does for a client that follows the protocol, and what it does of a disk
-- head that is not its own.
use proxmox_sharedlvmthin.Base.{
  String, Bool, true, false, ◌≡◌, refl, ap, arith, ok, >>=-eq-ok, eq_iff, is_hex32, is_hex64,
  is_boot_id,
}
use proxmox_sharedlvmthin.Base.Int.{pos}
use proxmox_sharedlvmthin.Base.Scalars.{
  Scalar, null, int, str, other, fields, same, is_int_from, is_int, fullmatch, check_pattern,
}
use proxmox_sharedlvmthin.Authority.State.{
  active, idle, busy, State, Head, Request, Response, head_match, begin_assumed, ram_head_advanced,
  response_correlation, reply, check_live, live_error, check_common, state_error, binding_of,
}
use proxmox_sharedlvmthin.Authority.Operations.{
  binding_matches, flight_of, observe_head, observe_valid, compare_head, same_head, begin_mutation,
  begin_request, complete_persist, complete_any, complete_flight, commit_head, correlate_response,
  correlate_exact, response_matches, request_matches, same_request, next,
}
use proxmox_sharedlvmthin.Authority.Validity.{
  IsValid, IsValid-IsLive, check_live-head, same-int_self, check_pattern-same_self,
  fullmatch-check_pattern, request_matches-parts,
}
use proxmox_sharedlvmthin.Authority.Preservation.{begin_mutation-IsValid, complete_persist-IsValid}

abbrev pub head_of : State → Head
head_of s = record { revision = s.ram_revision; ledger_sha256 = s.ram_ledger_sha256 }

-- An authority that can take a mutation.
pub record IsReady (s : State) : Type 0 where
  pub valid : IsValid s
  pub is_live : s.phase ≡ active
  pub not_busy : s.in_flight ≡ idle

pattern_text :
    (p : String → Bool) (m : String) (v : Scalar)
    → check_pattern p m v ≡ ok tt
    → fullmatch p v ≡ ok true
pattern_text p m null h = cc
pattern_text p m (int a) h = cc
pattern_text p m (str t) h = ground arith
pattern_text p m other h = cc

pub same-eq : (v w : Scalar) → same v w ≡ true → v ≡ w
same-eq null null h = refl
same-eq null (int b) h = cc
same-eq null (str t) h = cc
same-eq null other h = cc
same-eq (int a) null h = cc
same-eq (int a) (int b) h = ground arith
same-eq (int a) (str t) h = cc
same-eq (int a) other h = cc
same-eq (str s) null h = cc
same-eq (str s) (int b) h = cc
same-eq (str s) (str t) h = ap str ((eq_iff s t).0 h)
same-eq (str s) other h = cc
same-eq other null h = cc
same-eq other (int b) h = cc
same-eq other (str t) h = cc
same-eq other other h = cc

-- What validation says of the values of a live session, each of which equals itself.
pub record Known (s : State) : Type 0 where
  enrollment_self : same s.enrollment_sha256 s.enrollment_sha256 ≡ true
  nonce_self : same s.session_nonce s.session_nonce ≡ true
  boot_self : same s.boot_id s.boot_id ≡ true
  invocation_self : same s.invocation_id s.invocation_id ≡ true
  revision_self : same s.ram_revision s.ram_revision ≡ true
  revision_int : is_int s.ram_revision ≡ true
  ledger_self : same s.ram_ledger_sha256 s.ram_ledger_sha256 ≡ true
  ledger_text : fullmatch is_hex64 s.ram_ledger_sha256 ≡ ok true

int_from-int : (v : Scalar) → is_int_from (pos 1) v ≡ true → is_int v ≡ true
int_from-int null h = cc
int_from-int (int a) h = refl
int_from-int (str t) h = cc
int_from-int other h = cc

pub check_common-enrollment :
    (s : State)
    → check_common s ≡ ok tt
    → check_pattern is_hex64 state_error s.enrollment_sha256 ≡ ok tt
unfolding check_common
check_common-enrollment s h = ground arith

pub active-Known : (s : State) → IsValid s → s.phase ≡ active → Known s
unfolding check_live
active-Known s v p =
    let l = IsValid-IsLive s p v in
    let (rev, led) = check_live-head s l.live in
    let (a, ea, h1) = >>=-eq-ok (check_pattern is_hex32 live_error s.session_nonce) _ l.live in
    let (b, eb, h2) = >>=-eq-ok (check_pattern is_boot_id live_error s.boot_id) _ h1 in
    let (c, ec, h3) = >>=-eq-ok (check_pattern is_hex32 live_error s.invocation_id) _ h2 in
    record {
      enrollment_self =
          check_pattern-same_self is_hex64 state_error s.enrollment_sha256
            (check_common-enrollment s l.common);
      nonce_self = check_pattern-same_self is_hex32 live_error s.session_nonce ea;
      boot_self = check_pattern-same_self is_boot_id live_error s.boot_id eb;
      invocation_self = check_pattern-same_self is_hex32 live_error s.invocation_id ec;
      revision_self = same-int_self s.ram_revision rev;
      revision_int = int_from-int s.ram_revision rev;
      ledger_self = check_pattern-same_self is_hex64 live_error s.ram_ledger_sha256 led;
      ledger_text = pattern_text is_hex64 live_error s.ram_ledger_sha256 led;
    }

pub compare-head_of : (s : State) → Known s → compare_head s (head_of s) ≡ reply head_match s
unfolding compare_head same_head
compare-head_of s k = rw (k.revision_int, k.ledger_text, k.revision_self, k.ledger_self)

pub observe-head_of :
    (s : State) → IsReady s → observe_head s (fields (head_of s)) ≡ reply head_match s
unfolding observe_head observe_valid
observe-head_of s v =
    ground
      (arith, v.valid, v.is_live, v.not_busy, compare-head_of s (active-Known s v.valid v.is_live))

binding_matches-binding_of :
    (s : State) → Known s → binding_matches s (fields (binding_of s)) ≡ true
unfolding binding_matches
binding_matches-binding_of s k =
    rw (k.enrollment_self, k.nonce_self, k.boot_self, k.invocation_self)

abbrev pub begun : State → Request → State
begun s q = record s { in_flight = busy (flight_of s q) }

begin-head_of :
    (s : State) (q : Request)
    → IsReady s
    → request_matches q ≡ ok true
    → begin_mutation s (fields (binding_of s)) (fields (head_of s)) (fields q)
      ≡ reply begin_assumed (begun s q)
unfolding begin_mutation begin_request
begin-head_of s q v m = ground (
  arith,
  v.valid,
  v.is_live,
  binding_matches-binding_of s (active-Known s v.valid v.is_live),
  v.not_busy,
  observe-head_of s v,
  m,
)

abbrev pub advanced : State → Head → State
advanced s h = record s {
  ram_revision = h.revision;
  ram_ledger_sha256 = h.ledger_sha256;
  in_flight = idle;
}

fullmatch_self : (p : String → Bool) (v : Scalar) → fullmatch p v ≡ ok true → same v v ≡ true
fullmatch_self p v h = check_pattern-same_self p "" v (fullmatch-check_pattern p "" v h)

record Named (q : Request) : Type 0 where
  request_self : same q.request_id q.request_id ≡ true
  transaction_self : same q.transaction q.transaction ≡ true
  attempt_self : same q.attempt q.attempt ≡ true

request_matches-Named : (q : Request) → request_matches q ≡ ok true → Named q
request_matches-Named q m =
    let (a, b, c) = request_matches-parts q m in
    record {
      request_self = fullmatch_self is_hex32 q.request_id a;
      transaction_self = fullmatch_self is_hex32 q.transaction b;
      attempt_self = fullmatch_self is_hex32 q.attempt c;
    }

-- A head that may follow that of `s`.
pub record Follows (s : State) (h : Head) : Type 0 where
  pub one_more : same h.revision (next s.ram_revision) ≡ true
  pub is_digest : fullmatch is_hex64 h.ledger_sha256 ≡ ok true
  pub other_digest : same h.ledger_sha256 s.ram_ledger_sha256 ≡ false

next_int : (v w : Scalar) → is_int v ≡ true → same w (next v) ≡ true → is_int w ≡ true
next_int null w h e = cc
next_int (str t) w h e = cc
next_int other w h e = cc
next_int (int a) null h e = cc
next_int (int a) (int b) h e = refl
next_int (int a) (str t) h e = cc
next_int (int a) other h e = cc

commit_head-advanced :
    (s : State) (q : Request) (h : Head)
    → Known s
    → Follows s h
    → commit_head (begun s q) (flight_of s q) h ≡ reply ram_head_advanced (advanced s h)
unfolding commit_head
commit_head-advanced s q h k n = rw (
  next_int s.ram_revision h.revision k.revision_int n.one_more,
  n.one_more,
  n.is_digest,
  n.other_digest,
)

complete_begun :
    (s : State) (q : Request) (h : Head)
    → IsReady s
    → Known s
    → request_matches q ≡ ok true
    → Follows s h
    → IsValid (begun s q)
    → complete_persist (begun s q) (fields (binding_of s)) q (fields h) true
      ≡ reply ram_head_advanced (advanced s h)
unfolding complete_persist complete_any complete_flight same_request
complete_begun s q h v k m n w =
    let i = request_matches-Named q m in
    ground (
      arith,
      w,
      v.is_live,
      binding_matches-binding_of (begun s q) (active-Known (begun s q) w v.is_live),
      i.request_self,
      i.transaction_self,
      i.attempt_self,
      commit_head-advanced s q h k n,
    )

-- The response to a request at the head of `s`.
abbrev pub response_of : State → Request → Response
response_of s q = record {
  session_nonce = s.session_nonce;
  request_id = q.request_id;
  transaction = q.transaction;
  attempt = q.attempt;
  ledger_revision = s.ram_revision;
  ledger_sha256 = s.ram_ledger_sha256;
}

correlate_current :
    (s : State) (q : Request)
    → IsReady s
    → request_matches q ≡ ok true
    → correlate_response s (fields (binding_of s)) (fields q) (fields (response_of s q))
      ≡ reply response_correlation s
unfolding correlate_response correlate_exact response_matches
correlate_current s q v m =
    let i = request_matches-Named q m in
    let k = active-Known s v.valid v.is_live in
    ground (
      arith,
      v.valid,
      v.is_live,
      v.not_busy,
      binding_matches-binding_of s k,
      m,
      k.nonce_self,
      i.request_self,
      i.transaction_self,
      i.attempt_self,
      k.revision_int,
      k.revision_self,
      k.ledger_self,
    )

-- A ready authority and its own client: with a well-formed request and a disk head that is the RAM
-- head, the mutation begins; a commit whose head follows then advances the RAM head; the authority
-- is ready again and correlates the response to the request at the new head.
pub mutation_cycle :
    (s : State) (q : Request) (h : Head)
    → IsReady s
    → request_matches q ≡ ok true
    → Follows s h
    → (begin_mutation s (fields (binding_of s)) (fields (head_of s)) (fields q)
        ≡ reply begin_assumed (begun s q))
      × (complete_persist (begun s q) (fields (binding_of s)) q (fields h) true
          ≡ reply ram_head_advanced (advanced s h))
      × IsReady (advanced s h)
      × (correlate_response
            (advanced s h)
            (fields (binding_of s))
            (fields q)
            (fields (response_of (advanced s h) q))
          ≡ reply response_correlation (advanced s h))
mutation_cycle s q h v m n =
    let begins = begin-head_of s q v m in
    let w =
      begin_mutation-IsValid s (fields (binding_of s)) (fields (head_of s)) (fields q) _ begins in
    let completes = complete_begun s q h v (active-Known s v.valid v.is_live) m n w in
    let ready : IsReady (advanced s h) = record {
      valid =
          complete_persist-IsValid (begun s q) (fields (binding_of s)) q (fields h) true _
            completes;
      is_live = v.is_live;
      not_busy = refl;
    } in
    (begins, completes, ready, correlate_current (advanced s h) q ready m)
