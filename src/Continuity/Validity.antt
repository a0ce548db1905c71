-- ===== src/Continuity/Validity.antt =====
-- What valid evidence holds: texts, and whole numbers as revisions.
use proxmox_sharedlvmthin.Base.{
  String, Bool, true, false, List, [], ◌∷◌, All, all, Result, ok, refused, ◌≡◌, refl, sym, subst,
  ap, ◌∙◌, arith, >>=-eq-ok, ok_injective, require, is_hex64, ◌>>=◌, &&_left, &&_right,
}
use proxmox_sharedlvmthin.Base.Int.{pos, eq_ℤ_iff}
use proxmox_sharedlvmthin.Base.Json.{
  Value, null, int, str, flag, blob, array, dict, get, equals, is_int_from, is_null, has_exactly,
  str-eq,
}
use proxmox_sharedlvmthin.Base.Json.Laws.{equals_self}
use proxmox_sharedlvmthin.Base.Chains.{fullmatch, holds_all, validate}
use proxmox_sharedlvmthin.Continuity.Evidence.{
  enrollment_tests, head_tests, validate_enrollment, validate_observation, validate_witness,
  observation_tests, witness_tests, is_available, validate_head, identity_fields,
}
use proxmox_sharedlvmthin.Continuity.Evaluate.{agree, binding_fields, head_fields}

abbrev pub IsText : Value → Type 0
IsText v = (s : String) × (v ≡ str s)

pub fullmatch-IsText : (p : String → Bool) (v : Value) → fullmatch p v ≡ ok true → IsText v
unfolding fullmatch
fullmatch-IsText p (str s) h = (s, refl)
fullmatch-IsText p null h = cc
fullmatch-IsText p (flag b) h = cc
fullmatch-IsText p (int n) h = cc
fullmatch-IsText p (blob b) h = cc
fullmatch-IsText p (array xs) h = cc
fullmatch-IsText p (dict fs) h = cc

-- A chain that holds passed each test.
pub holds_all-Each :
    (tests : List (Result Bool)) → holds_all tests ≡ ok true → All (λ t. t ≡ ok true) tests
unfolding holds_all
holds_all-Each [] h = tt
holds_all-Each (ok true ∷ rest) h = (refl, holds_all-Each rest h)
holds_all-Each (ok false ∷ rest) h = cc
holds_all-Each (refused e ∷ rest) h = cc

require-true : (r : Result Bool) (m : String) → (r >>= λ b. require b m) ≡ ok tt → r ≡ ok true
require-true (refused e) m h = cc
require-true (ok true) m h = refl
require-true (ok false) m h = cc

pub validate-Each :
    (tests : List (Result Bool)) (m : String)
    → validate tests m ≡ ok tt
    → All (λ t. t ≡ ok true) tests
validate-Each tests m h = holds_all-Each tests (require-true (holds_all tests) m h)

text_same : (a b : Value) → IsText b → equals a b ≡ true → a ≡ b
text_same a b (s, e) h = str-eq s a (subst (λ v. equals a v ≡ true) e h) ∙ sym e

-- Values that agree under names whose values are texts have the same texts.
pub agree-Same :
    (names : List String) (v w : Value)
    → All (λ k. IsText (get k w)) names
    → agree names v w ≡ true
    → All (λ k. get k v ≡ get k w) names
unfolding agree
agree-Same [] v w t h = tt
agree-Same (k ∷ names) v w t h = (
  text_same (get k v) (get k w) t.0
      (&&_left (equals (get k v) (get k w)) (all (λ j. equals (get j v) (get j w)) names) h),
  agree-Same names v w t.1
      (&&_right (equals (get k v) (get k w)) (all (λ j. equals (get j v) (get j w)) names) h),
)

pub Same-agree :
    (names : List String) (v w : Value)
    → All (λ k. IsText (get k w)) names
    → All (λ k. get k v ≡ get k w) names
    → agree names v w ≡ true
unfolding agree
Same-agree [] v w t h = refl
Same-agree (k ∷ names) v w t h =
    let first : equals (get k v) (get k w) ≡ true =
      subst (λ x. equals x (get k w) ≡ true) (sym h.0)
        (subst (λ x. equals x x ≡ true) (sym (t.0).1) (equals_self (str (t.0).0) tt)) in
    ground (arith, first, Same-agree names v w t.1 h.1)

pub int_same :
    (a b : Value)
    → is_int_from (pos 1) a ≡ true
    → is_int_from (pos 1) b ≡ true
    → equals a b ≡ true
    → a ≡ b
unfolding is_int_from equals
int_same (int a) (int b) h k e = ap int ((eq_ℤ_iff a b).0 e)
int_same (int a) null h k e = cc
int_same (int a) (flag b) h k e = cc
int_same (int a) (str s) h k e = cc
int_same (int a) (blob b) h k e = cc
int_same (int a) (array xs) h k e = cc
int_same (int a) (dict fs) h k e = cc
int_same null b h k e = cc
int_same (flag a) b h k e = cc
int_same (str a) b h k e = cc
int_same (blob a) b h k e = cc
int_same (array a) b h k e = cc
int_same (dict a) b h k e = cc

pub enrollment-Texts :
    (v : Value)
    → validate_enrollment v ≡ ok tt
    → All (λ k. IsText (get k v)) ("vg_uuid" ∷ binding_fields)
unfolding validate_enrollment
enrollment-Texts v h =
    let (
      _,
      (
        _,
        (
          _,
          (
            _,
            (
              cluster,
              (_, (vg, (set, (id, (node, (boot, (epoch, (backend, (code, (policy, _)))))))))),
            ),
          ),
        ),
      ),
    ) =
      validate-Each (enrollment_tests v) _ h in
    (
      fullmatch-IsText _ (get "vg_uuid" v) vg,
      (
        fullmatch-IsText _ (get "authority_id" v) id,
        (
          fullmatch-IsText _ (get "authority_node" v) node,
          (
            fullmatch-IsText _ (get "authority_boot_id" v) boot,
            (
              fullmatch-IsText _ (get "enrollment_epoch" v) epoch,
              (
                fullmatch-IsText _ (get "storage_set" v) set,
                (
                  fullmatch-IsText _ (get "code_digest" v) code,
                  (
                    fullmatch-IsText _ (get "policy_digest" v) policy,
                    (
                      fullmatch-IsText _ (get "cluster_id" v) cluster,
                      (
                        (
                          "LOCAL_PERSISTENT_NO_FAILOVER",
                          str-eq _ (get "backend" v) (ok_injective backend),
                        ),
                        tt,
                      ),
                    ),
                  ),
                ),
              ),
            ),
          ),
        ),
      ),
    )

-- A head: a revision from 1 on, and a digest.
abbrev pub IsHead : Value → Type 0
IsHead v = (is_int_from (pos 1) (get "ledger_revision" v) ≡ true) × IsText (get "ledger_sha256" v)

head_tests-IsHead :
    (v : Value) (rest : List (Result Bool)) → All (λ t. t ≡ ok true) (head_tests v rest) → IsHead v
head_tests-IsHead v rest (_, (_, (_, (_, (_, (revision, (sha, _))))))) =
    (ok_injective revision, fullmatch-IsText _ (get "ledger_sha256" v) sha)

pub witness-IsHead : (v : Value) → validate_witness v ≡ ok tt → IsHead v
unfolding validate_witness
witness-IsHead v h =
    let (_, (_, (_, (_, head_)))) = validate-Each (witness_tests v) _ h in
    head_tests-IsHead v (fullmatch is_hex64 (get "proof_digest" v) ∷ []) head_

IsHead-valid : (v : Value) → is_available v ≡ true → validate_head v ≡ ok tt → IsHead v
IsHead-valid v available h = head_tests-IsHead v [] (
    validate-Each (head_tests v []) "available authority observation is malformed"
      (rw available at h))

pub observation-IsHead :
    (v : Value) → is_available v ≡ true → validate_observation v ≡ ok tt → IsHead v
unfolding validate_observation
observation-IsHead v available h =
    let (_, _, head_) =
      >>=-eq-ok (validate (observation_tests v) "authority observation schema is invalid") _ h in
    IsHead-valid v available head_

pub not_null : (w : Value) → validate_witness w ≡ ok tt → is_null w ≡ false
unfolding validate_witness is_null holds_all has_exactly
not_null null h = cc
not_null w h = refl

int_self : (v : Value) → is_int_from (pos 1) v ≡ true → equals v v ≡ true
unfolding is_int_from equals
int_self (int a) h = (eq_ℤ_iff a a).1 refl
int_self null h = cc
int_self (flag a) h = cc
int_self (str a) h = cc
int_self (blob a) h = cc
int_self (array a) h = cc
int_self (dict a) h = cc

-- Heads agree exactly when they are the same.
pub heads-Same :
    (o w : Value)
    → IsHead o
    → IsHead w
    → agree head_fields o w ≡ true
    → All (λ k. get k o ≡ get k w) head_fields
unfolding agree
heads-Same o w (n, s) (m, t) h = (
  int_same (get "ledger_revision" o) (get "ledger_revision" w) n m (ground (arith, h)),
  (text_same (get "ledger_sha256" o) (get "ledger_sha256" w) t (ground (arith, h)), tt),
)

pub Same-heads :
    (o w : Value)
    → IsHead w
    → All (λ k. get k o ≡ get k w) head_fields
    → agree head_fields o w ≡ true
unfolding agree
Same-heads o w (n, t) (r, (s, _)) =
    let first : equals (get "ledger_revision" o) (get "ledger_revision" w) ≡ true =
      subst (λ x. equals x (get "ledger_revision" w) ≡ true) (sym r)
        (int_self (get "ledger_revision" w) n) in
    let second : agree ("ledger_sha256" ∷ []) o w ≡ true =
      Same-agree ("ledger_sha256" ∷ []) o w (t, tt) (s, tt) in
    ground (arith, first, second)

pub text_equals : (s : String) (v : Value) → v ≡ str s → equals v (str s) ≡ true
text_equals s v e = subst (λ x. equals x (str s) ≡ true) (sym e) (equals_self (str s) tt)

-- The identity of a valid enrollment.
pub identity-Texts :
    (v : Value) → validate_enrollment v ≡ ok tt → All (λ k. IsText (get k v)) identity_fields
identity-Texts v h = let (_, (a, (b, (c, (d, _))))) = enrollment-Texts v h in (a, (b, (c, (d, tt))))
