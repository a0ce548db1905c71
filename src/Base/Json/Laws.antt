-- ===== src/Base/Json/Laws.antt =====
-- The laws of `==` on values. A dict has each of its keys once: `IsWellFormed` says so at every depth.
use Prim.Native.Nat.{ℕ}
use Prim.Native.String.{String}
use mathlib.Core.Bool.{Bool, true, false}
use mathlib.Core.Path.{◌≡◌, refl, sym, ◌∙◌, subst}
use mathlib.Core.Logic.{inl, inr}
use mathlib.Core.List.{List, [], ◌∷◌}
use native.Mathlib.Omega.{arith}
use text.Mathlib.Text.{◌==◌ as str_eq}
use text.Mathlib.TextEquality.{eq_iff}
use proxmox_sharedlvmthin.Base.Tests.{Bool-cases, &&_left, &&_right}
use proxmox_sharedlvmthin.Base.Lists.{all}
use proxmox_sharedlvmthin.Base.Text.{contains}
use proxmox_sharedlvmthin.Base.Int.{ℤ, eq_ℤ}
use proxmox_sharedlvmthin.Base.Json.{
  Value, null, flag, int, str, blob, array, dict, Items, nil, cons, Entries, close, entry, find,
  keys_of, get, is_match, str-eq, same_bytes, of_bool, equals, equal_items, equal_entries,
}

abbrev mutual
  pub IsWellFormed : Value → Type 0
  IsWellFormed (array xs) = AllWellFormed xs
  IsWellFormed (dict fs) = AreDistinct fs
  IsWellFormed _ = Unit {0}

  pub AllWellFormed : Items → Type 0
  AllWellFormed nil = Unit {0}
  AllWellFormed (cons v rest) = IsWellFormed v × AllWellFormed rest

  pub AreDistinct : Entries → Type 0
  AreDistinct close = Unit {0}
  AreDistinct (entry k v rest) =
      IsWellFormed v × (contains (keys_of rest) k ≡ false) × AreDistinct rest

str_eq_self : (s : String) → str_eq s s ≡ true
str_eq_self s = (eq_iff s s).1 refl

same_bytes_self : (bs : List ℕ) → same_bytes bs bs ≡ true
same_bytes_self [] = refl
same_bytes_self (b ∷ bs) = ground (arith, same_bytes_self bs)

eq_ℤ_self : (a : ℤ) → eq_ℤ a a ≡ true
eq_ℤ_self a = ground arith

-- Every key of the first list is in the second.
all-contains :
    (xs ys : List String)
    → ((k : String) → contains xs k ≡ true → contains ys k ≡ true)
    → all (contains ys) xs ≡ true
all-contains [] ys h = refl
all-contains (x ∷ xs) ys h =
    let first = h x (ground (arith, str_eq_self x)) in
    let others = all-contains xs ys (λ k m. h k (ground (arith, m))) in
    ground (arith, first, others)

find-entry_other :
    (k j : String) (v : Value) (rest : Entries)
    → contains (keys_of rest) k ≡ false
    → contains (keys_of rest) j ≡ true
    → find j (entry k v rest) ≡ find j rest
find-entry_other k j v rest absent present = elim (Bool-cases (str_eq k j)) [
  | inl same ↦
      let q : k ≡ j = (eq_iff k j).0 same in
      ground (arith, subst (λ w. contains (keys_of rest) w ≡ false) q absent, present)
  | inr other ↦ rw other refl
]

str_eq_comm : (s t : String) → str_eq s t ≡ str_eq t s
str_eq_comm s t = ground (arith, eq_iff s t, eq_iff t s)

mutual
  unfolding equals

  pub equals_self : (v : Value) → IsWellFormed v → equals v v ≡ true
  equals_self null h = refl
  equals_self (flag b) h = eq_ℤ_self (of_bool b)
  equals_self (int n) h = eq_ℤ_self n
  equals_self (str s) h = str_eq_self s
  equals_self (blob b) h = same_bytes_self b
  equals_self (array xs) h = equal_items_self xs h
  equals_self (dict fs) h =
      let items = equal_entries_self fs fs h (λ k m. refl) in
      let keys = all-contains (keys_of fs) (keys_of fs) (λ k m. m) in ground (arith, items, keys)

  equal_items_self : (xs : Items) → AllWellFormed xs → equal_items xs xs ≡ true
  equal_items_self nil h = refl
  equal_items_self (cons v xs) h = ground (arith, equals_self v h.0, equal_items_self xs h.1)

  equal_entries_self :
      (fs gs : Entries)
      → AreDistinct fs
      → ((k : String) → contains (keys_of fs) k ≡ true → find k gs ≡ find k fs)
      → equal_entries fs gs ≡ true
  equal_entries_self close gs h agree = refl
  equal_entries_self (entry k v rest) gs h agree =
      let found : find k gs ≡ v =
        agree k (ground (arith, str_eq_self k)) ∙ rw (str_eq_self k) refl in
      let first : equals v (find k gs) ≡ true =
        subst (λ w. equals v w ≡ true) (sym found) (equals_self v h.0) in
      let others =
        equal_entries_self rest gs h.2
          (λ j m. agree j (ground (arith, m)) ∙ find-entry_other k j v rest h.1 m) in
      ground (arith, first, others)

contains-tail :
    (k key : String) (ks : List String)
    → contains (k ∷ ks) key ≡ true
    → str_eq k key ≡ false
    → contains ks key ≡ true
contains-tail k key ks m other = ground (arith, m, other, str_eq_comm key k)

-- Equal dicts hold equal values under every key; so do values of which one is no dict.
find_both :
    (key : String) (fs gs : Entries)
    → equal_entries fs gs ≡ true
    → contains (keys_of fs) key ≡ true
    → equals (find key fs) (find key gs) ≡ true
unfolding equals
find_both key close gs h m = cc
find_both key (entry k v rest) gs h m = elim (Bool-cases (str_eq k key)) [
  | inl same ↦
      let q : k ≡ key = (eq_iff k key).0 same in
      rw same (
        subst (λ j. equals v (find j gs) ≡ true) q
          (&&_left (equals v (find k gs)) (equal_entries rest gs) h))
  | inr other ↦ rw other (
      find_both key rest gs (&&_right (equals v (find k gs)) (equal_entries rest gs) h)
        (contains-tail k key (keys_of rest) m other))
]

find_absent : (key : String) (fs : Entries) → contains (keys_of fs) key ≡ false → find key fs ≡ null
find_absent key close h = refl
find_absent key (entry k v rest) h = ground (arith, h, str_eq_comm key k, find_absent key rest)

contains-subset :
    (xs ys : List String) (k : String)
    → all (contains ys) xs ≡ true
    → contains xs k ≡ true
    → contains ys k ≡ true
contains-subset [] ys k h m = cc
contains-subset (x ∷ xs) ys k h m = elim (Bool-cases (str_eq k x)) [
  | inl same ↦
      let q : k ≡ x = (eq_iff k x).0 same in
      subst (λ j. contains ys j ≡ true) (sym q) (ground (arith, h))
  | inr other ↦ contains-subset xs ys k (ground (arith, h)) (ground (arith, m, other))
]

absent_both :
    (fs gs : Entries) (k : String)
    → all (contains (keys_of fs)) (keys_of gs) ≡ true
    → contains (keys_of fs) k ≡ false
    → contains (keys_of gs) k ≡ false
absent_both fs gs k h m = elim (Bool-cases (contains (keys_of gs) k)) [
  | inl present ↦
      let q = contains-subset (keys_of gs) (keys_of fs) k h present in ground (arith, q, m)
  | inr absent ↦ absent
]

dict_keys :
    (fs gs : Entries)
    → equals (dict fs) (dict gs) ≡ true
    → all (contains (keys_of fs)) (keys_of gs) ≡ true
unfolding equals
dict_keys fs gs h =
    &&_right (equal_entries fs gs) _ (&&_left _ (all (contains (keys_of gs)) (keys_of fs)) h)

pub equals-get :
    (key : String) (v w : Value) → equals v w ≡ true → equals (get key v) (get key w) ≡ true
unfolding get equals
equals-get key (dict fs) (dict gs) h = elim (Bool-cases (contains (keys_of fs) key)) [
  | inl present ↦
      find_both key fs gs
        (&&_left (equal_entries fs gs) _ (&&_left _ (all (contains (keys_of gs)) (keys_of fs)) h))
        present
  | inr absent ↦
      let gone : find key gs ≡ null =
        find_absent key gs (absent_both fs gs key (dict_keys fs gs h) absent) in
      rw (find_absent key fs absent, gone) refl
]
equals-get key null w h = ground arith
equals-get key v w h = ground arith

find-IsWellFormed : (key : String) (fs : Entries) → AreDistinct fs → IsWellFormed (find key fs)
find-IsWellFormed key close h = tt
find-IsWellFormed key (entry k v rest) h = elim (Bool-cases (str_eq k key)) [
  | inl same ↦ rw same h.0
  | inr other ↦ rw other (find-IsWellFormed key rest h.2)
]

pub get-IsWellFormed : (key : String) (v : Value) → IsWellFormed v → IsWellFormed (get key v)
unfolding get
get-IsWellFormed key (dict fs) h = find-IsWellFormed key fs h
get-IsWellFormed key null h = tt
get-IsWellFormed key (flag b) h = tt
get-IsWellFormed key (int n) h = tt
get-IsWellFormed key (str s) h = tt
get-IsWellFormed key (blob b) h = tt
get-IsWellFormed key (array xs) h = tt

pub match-str :
    (p : String → Bool) (v : Value)
    → is_match p v ≡ true
    → (s : String) × (v ≡ str s) × (p s ≡ true)
unfolding is_match
match-str p null h = cc
match-str p (flag b) h = cc
match-str p (int n) h = cc
match-str p (str s) h = (s, refl, h)
match-str p (blob b) h = cc
match-str p (array xs) h = cc
match-str p (dict fs) h = cc

-- What equals two texts makes them equal.
pub equals_join :
    (p q : String → Bool) (v a b : Value)
    → is_match p a ≡ true
    → is_match q b ≡ true
    → equals v a ≡ true
    → equals v b ≡ true
    → equals a b ≡ true
equals_join p q v a b m n g h =
    let (s, e, _) = match-str p a m in
    let (t, f, _) = match-str q b n in
    let x = str-eq s v (subst (λ w. equals v w ≡ true) e g) in
    let y = str-eq t v (subst (λ w. equals v w ≡ true) f h) in
    let z : a ≡ b = e ∙ sym x ∙ y ∙ sym f in
    subst (λ w. equals w b ≡ true) (sym z)
      (subst (λ w. equals w w ≡ true) (sym f) (equals_self (str t) tt))
