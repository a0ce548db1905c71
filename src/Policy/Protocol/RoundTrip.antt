-- ===== src/Policy/Protocol/RoundTrip.antt =====
-- Writing a row of the protocol and reading it back.
use Prim.Native.Char.{code}
use text.Mathlib.TextLemmas.{nil-append, cons-append}
use proxmox_sharedlvmthin.Base.{
  ℕ, suc, String, ◌<>◌, true, not, ◌&&◌, ==_iff, ◌⊎◌, inl, inr, some, List, [], ◌∷◌, ◌++◌, all,
  codes, matches_head_tail, ◌==◌, ◌≡◌, refl, ap, arith, split_once, split_max, str_eq, eq_iff,
  Bool-cases, Option-cases, ok, CharClass, All, contains, &&_left, &&_right,
}
use mathlib.Core.Option.{some-injective}
use proxmox_sharedlvmthin.Policy.Data.{
  Action, is_package, is_version, is_arch, is_name, is_arch_name,
}
use proxmox_sharedlvmthin.Policy.Protocol.{multiarch, is_multiarch, parse_action, action_of_fields}
use proxmox_sharedlvmthin.Policy.Protocol.Laws.{IsWellFormed, row-parse_action}

-- A row as the hook writes it: nine fields between single spaces.
pub print_action : Action → String
print_action a =
    a.package_name
    <> (" "
        <> (a.old_version
            <> (" "
                <> (a.old_arch
                    <> (" "
                        <> (a.old_multiarch
                            <> (" "
                                <> (a.direction
                                    <> (" "
                                        <> (a.new_version
                                            <> (" "
                                                <> (a.new_arch
                                                    <> (" "
                                                        <> (a.new_multiarch
                                                            <> (" " <> a.action)))))))))))))))

abbrev is_visible : CharClass
is_visible c = not (c == b' ')

abbrev HasNoSpace : String → Type 0
HasNoSpace s = all is_visible (codes s) ≡ true

split_once-append : (s t : String) → HasNoSpace s → split_once b' ' (s <> (" " <> t)) ≡ some (s, t)
unfolding split_once
split_once-append String.[] t h = rw nil-append (rw cons-append (rw nil-append))
split_once-append (String.◌∷◌ x s) t h =
    rw (cons-append x s (" " <> t)) (ground (arith, split_once-append s t))

all_mono :
    (p q : CharClass)
    → ((c : ℕ) → p c ≡ true → q c ≡ true)
    → (cs : List ℕ) → all p cs ≡ true
    → all q cs ≡ true
all_mono p q pq [] h = refl
all_mono p q pq (c ∷ cs) h = ground (arith, pq c, all_mono p q pq cs)

head_tail_visible :
    (p q : CharClass)
    → ((c : ℕ) → p c ≡ true → is_visible c ≡ true)
    → ((c : ℕ) → q c ≡ true → is_visible c ≡ true)
    → (cs : List ℕ) → matches_head_tail p q cs ≡ true
    → all is_visible cs ≡ true
head_tail_visible p q hp hq [] h = refl
head_tail_visible p q hp hq (c ∷ cs) h = ground (arith, hp c, all_mono q is_visible hq cs)

is_arch-HasNoSpace : (s : String) → is_arch_name s ≡ true → HasNoSpace s
is_arch-HasNoSpace s h =
    head_tail_visible _ _ (λ c k. ground arith) (λ c k. ground arith) (codes s) h

codes-split_once :
    (c : ℕ) (s : String) (p : String × String)
    → split_once c s ≡ some p
    → codes s ≡ codes p.0 ++ (c ∷ codes p.1)
unfolding split_once
codes-split_once c String.[] p h = cc
codes-split_once c (String.◌∷◌ x s) p h = elim (Bool-cases (code x == c)) [
  | inl here ↦
      let e : (String.[], s) ≡ p = some-injective _ _ (rw here at h) in
      rw (← e) (ap (λ k. k ∷ codes s) ((==_iff (code x) c).0 here))
  | inr later ↦ elim (Option-cases (split_once c s)) [
    | inl missing ↦ cc (rw (later, missing) at h)
    | inr (q, found) ↦
        let e : (String.◌∷◌ x q.0, q.1) ≡ p = some-injective _ _ (rw (later, found) at h) in
        rw (← e) (ap (λ ks. code x ∷ ks) (codes-split_once c s q found))
  ]
]

all-append :
    (p : CharClass) (xs ys : List ℕ) → all p xs ≡ true → all p ys ≡ true → all p (xs ++ ys) ≡ true
all-append p [] ys h k = k
all-append p (x ∷ xs) ys h k = ground (arith, all-append p xs ys)

is_name-HasNoSpace : (s : String) → is_name s ≡ true → HasNoSpace s
is_name-HasNoSpace s h =
    head_tail_visible _ _ (λ c k. ground arith) (λ c k. ground arith) (codes s) h

is_package-HasNoSpace : (s : String) → is_package s ≡ true → HasNoSpace s
unfolding is_package
is_package-HasNoSpace s h = elim (Option-cases (split_once b':' s)) [
  | inl plain ↦ is_name-HasNoSpace s (rw (plain, is_package) at h)
  | inr (p, e) ↦
      let both : (is_name p.0 && is_arch_name p.1) ≡ true = rw (e, is_package) at h in
      rw (codes-split_once b':' s p e) (
        all-append is_visible (codes p.0) (b':' ∷ codes p.1)
          (is_name-HasNoSpace p.0 (&&_left _ _ both)) (is_arch-HasNoSpace p.1 (&&_right _ _ both)))
]

is_version-HasNoSpace : (s : String) → (s ≡ "-") ⊎ (is_version s ≡ true) → HasNoSpace s
unfolding is_version
is_version-HasNoSpace s (inl e) = rw e
is_version-HasNoSpace s (inr h) =
    head_tail_visible _ _ (λ c k. ground arith) (λ c k. ground arith) (codes s) h

is_arch-HasNoSpace_of_dash : (s : String) → is_arch s ≡ true → HasNoSpace s
unfolding is_arch
is_arch-HasNoSpace_of_dash s h = elim (Bool-cases (str_eq s "-")) [
  | inl e ↦ rw ((eq_iff s "-").0 e)
  | inr n ↦ is_arch-HasNoSpace s (rw (n, is_arch) at h)
]

contains-HasNoSpace :
    (s : String) (xs : List String) → All HasNoSpace xs → contains xs s ≡ true → HasNoSpace s
contains-HasNoSpace s [] a h = cc
contains-HasNoSpace s (x ∷ xs) a h = elim (Bool-cases (str_eq s x)) [
  | inl e ↦ rw ((eq_iff s x).0 e) a.0
  | inr n ↦ contains-HasNoSpace s xs a.1 (rw n at h)
]

is_multiarch-HasNoSpace : (s : String) → is_multiarch s ≡ true → HasNoSpace s
unfolding is_multiarch
is_multiarch-HasNoSpace s h =
    contains-HasNoSpace s multiarch (refl, (refl, (refl, (refl, (refl, (refl, tt)))))) h

direction-HasNoSpace : (d : String) → (d ≡ "<") ⊎ (d ≡ ">") ⊎ (d ≡ "=") → HasNoSpace d
direction-HasNoSpace d (inl e) = rw e
direction-HasNoSpace d (inr (inl e)) = rw e
direction-HasNoSpace d (inr (inr e)) = rw e

split_max-cons :
    (n : ℕ) (s t : String)
    → HasNoSpace s
    → split_max b' ' (suc n) (s <> (" " <> t)) ≡ s ∷ split_max b' ' n t
unfolding split_max
split_max-cons n s t h = rw (split_once-append s t h, split_max)

split-print_action :
    (a : Action) → IsWellFormed a → action_of_fields (split_max b' ' 8 (print_action a)) ≡ ok a
unfolding print_action action_of_fields split_max
split-print_action a w = rw (
  split_max-cons 7 a.package_name _ (is_package-HasNoSpace _ w.named),
  split_max-cons 6 a.old_version _ (is_version-HasNoSpace _ w.old_ok),
  split_max-cons 5 a.old_arch _ (is_arch-HasNoSpace_of_dash _ w.old_arch_ok),
  split_max-cons 4 a.old_multiarch _ (is_multiarch-HasNoSpace _ w.old_multi_ok),
  split_max-cons 3 a.direction _ (direction-HasNoSpace _ w.directed),
  split_max-cons 2 a.new_version _ (is_version-HasNoSpace _ w.new_ok),
  split_max-cons 1 a.new_arch _ (is_arch-HasNoSpace_of_dash _ w.new_arch_ok),
  split_max-cons 0 a.new_multiarch _ (is_multiarch-HasNoSpace _ w.new_multi_ok),
)

-- Reading the printed form of a well-formed row gives that row back.
pub parse_action-print_action : (a : Action) → IsWellFormed a → parse_action (print_action a) ≡ ok a
parse_action-print_action a w = row-parse_action (print_action a) a (split-print_action a w) w
