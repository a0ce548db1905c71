-- ===== src/Base/Lists.antt =====
-- Lists measured by native numbers, and predicates on lists by recursion.
use Prim.Native.Nat.{ℕ, zero, suc, ◌+◌}
use mathlib.Core.Path.{◌≡◌, refl, subst, sym, ap, ◌∙◌}
use mathlib.Core.Logic.{◌⊎◌, inl, inr}
use mathlib.Core.Bool.{Bool, true, false, ◌&&◌, ◌||◌}
use mathlib.Core.List.{List, [], ◌∷◌, ◌++◌, Memᴰ}
use mathlib.Core.List.Memᴰ.{not-nil, cases_cons}
use native.Mathlib.Omega.{arith}
use proxmox_sharedlvmthin.Base.Tests.{if◌then◌else◌, Bool-cases}

module _ {ℓ} {A : Type ℓ} where
  abbrev pub length : List A → ℕ
  length [] = 0
  length (x ∷ xs) = suc (length xs)

  pub length-append : (xs ys : List A) → length (xs ++ ys) ≡ length xs + length ys
  length-append [] ys = omega arith
  length-append (x ∷ xs) ys = omega (arith, length-append xs ys)

  abbrev pub replicate : ℕ → A → List A
  replicate zero a = []
  replicate (suc n) a = a ∷ replicate n a

  abbrev pub take : ℕ → List A → List A
  take zero xs = []
  take (suc n) [] = []
  take (suc n) (x ∷ xs) = x ∷ take n xs

  pub take-nil : (n : ℕ) → take n [] ≡ []
  take-nil zero = refl
  take-nil (suc n) = refl

  -- Python's `all` and `any` over a generator, and a comprehension with an `if`.
  abbrev pub all : (A → Bool) → List A → Bool
  all p [] = true
  all p (x ∷ xs) = p x && all p xs

  abbrev pub any : (A → Bool) → List A → Bool
  any p [] = false
  any p (x ∷ xs) = p x || any p xs

  abbrev pub keep : (A → Bool) → List A → List A
  keep p [] = []
  keep p (x ∷ xs) = let rest = keep p xs in if p x then x ∷ rest else rest

  abbrev pub is_empty : List A → Bool
  is_empty [] = true
  is_empty (x ∷ xs) = false

module _ {ℓ κ} {A : Type ℓ} where
  abbrev pub All : (A → Type κ) → List A → Type κ
  All P [] = Unit
  All P (x ∷ xs) = P x × All P xs

module _ {ℓ} {A : Type ℓ} (p : A → Bool) where
  pub mem-keep : {x : A} {xs : List A} → Memᴰ x xs → p x ≡ true → Memᴰ x (keep p xs)
  mem-keep {x} {xs = []} m h = absurd (not-nil m)
  mem-keep {x} {xs = y ∷ xs} (Memᴰ.head e) h =
      let q : p y ≡ true = sym (ap p e) ∙ h in rw q (Memᴰ.head e)
  mem-keep {x} {xs = y ∷ xs} (Memᴰ.tail m) h = elim (Bool-cases (p y)) [
    | inl kept ↦ rw kept (Memᴰ.tail (mem-keep m h))
    | inr dropped ↦ rw dropped (mem-keep m h)
  ]

  pub keep-mem : {x : A} {xs : List A} → Memᴰ x (keep p xs) → Memᴰ x xs × (p x ≡ true)
  keep-mem {x} {xs = []} m = absurd (not-nil m)
  keep-mem {x} {xs = y ∷ xs} m = elim (Bool-cases (p y)) [
    | inl kept ↦ elim (cases_cons (rw kept at m)) [
      | inl e ↦ (Memᴰ.head e, ap p e ∙ kept)
      | inr n ↦ let (i, t) = keep-mem {xs = xs} n in (Memᴰ.tail i, t)
    ]
    | inr dropped ↦ let (i, t) = keep-mem {xs = xs} (rw dropped at m) in (Memᴰ.tail i, t)
  ]

pub List-cases {ℓ} :
    {A : Type ℓ} (xs : List A) → (xs ≡ []) ⊎ ((x : A) × (r : List A) × (xs ≡ x ∷ r))
List-cases [] = inl refl
List-cases (x ∷ r) = inr (x, r, refl)

pub All-mem {ℓ κ} :
    {A : Type ℓ} (P : A → Type κ) (xs : List A) → All P xs → {x : A} → Memᴰ x xs → P x
All-mem P [] a m = absurd (not-nil m)
All-mem P (y ∷ xs) a (Memᴰ.head e) = subst P (sym e) a.0
All-mem P (y ∷ xs) a (Memᴰ.tail m) = All-mem P xs a.1 m

pub all-mem {ℓ} :
    {A : Type ℓ} (p : A → Bool) (xs : List A) → all p xs ≡ true → {x : A} → Memᴰ x xs → p x ≡ true
all-mem p [] h m = absurd (not-nil m)
all-mem p (y ∷ xs) h (Memᴰ.head e) = ap p e ∙ ground (arith, h)
all-mem p (y ∷ xs) h (Memᴰ.tail m) = all-mem p xs (ground (arith, h)) m
