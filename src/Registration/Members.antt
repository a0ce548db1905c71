-- ===== src/Registration/Members.antt =====
-- Membership through the sorting, the minimum and the loops of `plan`.
use Prim.Native.String.{compare}
use Prim.Native.Nat.{Ordering}
use proxmox_sharedlvmthin.Base.{
  ℕ, String, List, [], ◌∷◌, map, Memᴰ, ok, ◌≤◌, ◌≡◌, refl, sym, ap, subst, arith, >>=-eq-ok, inl,
  inr, Bool-cases, ltb, insert, sort,
}
use mathlib.Core.List.Memᴰ.{not-nil}
use proxmox_sharedlvmthin.Base.Checks.{requires, Passed, requires-Passed}
use proxmox_sharedlvmthin.Base.Json.{Value, get}
use proxmox_sharedlvmthin.Registration.Evidence.{
  peer_checks, check_peers, definition_checks, check_definitions,
}
use proxmox_sharedlvmthin.Registration.Plan.{minimum}

pub map-mem {ℓ κ} :
    {A : Type ℓ} {B : Type κ} (f : A → B) {x : A} {xs : List A} → Memᴰ x xs → Memᴰ (f x) (map f xs)
map-mem f {x} {xs = []} m = absurd (not-nil m)
map-mem f {x} {xs = y ∷ xs} (Memᴰ.head e) = Memᴰ.head (ap f e)
map-mem f {x} {xs = y ∷ xs} (Memᴰ.tail m) = Memᴰ.tail (map-mem f m)

insert-mem_self : (s : String) (ts : List String) → Memᴰ s (insert s ts)
unfolding insert
insert-mem_self s [] = Memᴰ.head refl
insert-mem_self s (t ∷ ts) =
    elim (compare s t)
      as (λ o. Memᴰ s (elim o [ Ordering.gt ↦ t ∷ insert s ts | _ ↦ s ∷ t ∷ ts ])) [
        | Ordering.lt ↦ Memᴰ.head refl
        | Ordering.eq ↦ Memᴰ.head refl
        | Ordering.gt ↦ Memᴰ.tail (insert-mem_self s ts)
      ]

insert-mem : (s x : String) (ts : List String) → Memᴰ x ts → Memᴰ x (insert s ts)
unfolding insert
insert-mem s x [] m = absurd (not-nil m)
insert-mem s x (t ∷ ts) m =
    elim (compare s t)
      as (λ o. Memᴰ x (elim o [ Ordering.gt ↦ t ∷ insert s ts | _ ↦ s ∷ t ∷ ts ])) [
        | Ordering.lt ↦ Memᴰ.tail m
        | Ordering.eq ↦ Memᴰ.tail m
        | Ordering.gt ↦ elim m [
          | Memᴰ.head e ↦ Memᴰ.head e
          | Memᴰ.tail n ↦ Memᴰ.tail (insert-mem s x ts n)
        ]
      ]

pub sort-mem : (x : String) (ss : List String) → Memᴰ x ss → Memᴰ x (sort ss)
unfolding sort
sort-mem x [] m = absurd (not-nil m)
sort-mem x (s ∷ ss) (Memᴰ.head e) =
    subst (λ y. Memᴰ y (insert s (sort ss))) (sym e) (insert-mem_self s (sort ss))
sort-mem x (s ∷ ss) (Memᴰ.tail m) = insert-mem s x (sort ss) (sort-mem x ss m)

pub minimum_le : (x : ℕ) (xs : List ℕ) → Memᴰ x xs → minimum xs ≤ x
unfolding minimum
minimum_le x [] m = absurd (not-nil m)
minimum_le x (n ∷ []) (Memᴰ.head e) = omega (arith, e)
minimum_le x (n ∷ []) (Memᴰ.tail m) = absurd (not-nil m)
minimum_le x (n ∷ k ∷ rest) (Memᴰ.head e) = ground (arith, e)
minimum_le x (n ∷ k ∷ rest) (Memᴰ.tail m) = ground (arith, minimum_le x (k ∷ rest) m)

-- A minimum is one of the numbers.
pub minimum-mem : (n : ℕ) (rest : List ℕ) → Memᴰ (minimum (n ∷ rest)) (n ∷ rest)
unfolding minimum
minimum-mem n [] = Memᴰ.head refl
minimum-mem n (m ∷ rest) = elim (Bool-cases (ltb (minimum (m ∷ rest)) n)) [
  | inl less ↦ rw less (Memᴰ.tail (minimum-mem m rest))
  | inr not_less ↦ rw not_less (Memᴰ.head refl)
]

pub peer-Passed :
    (expected peers : Value) (n : String) (nodes : List String)
    → check_peers expected peers nodes ≡ ok tt
    → Memᴰ n nodes
    → Passed (peer_checks expected (get n peers))
unfolding check_peers
peer-Passed expected peers n [] h m = absurd (not-nil m)
peer-Passed expected peers n (node ∷ nodes) h m =
    let (u, first, rest) = >>=-eq-ok (requires (peer_checks expected (get node peers))) _ h in
    elim m [
      | Memᴰ.head e ↦
          subst (λ x. Passed (peer_checks expected (get x peers))) (sym e)
            (requires-Passed (peer_checks expected (get node peers)) first)
      | Memᴰ.tail t ↦ peer-Passed expected peers n nodes rest t
    ]

pub definition-Passed :
    (vg vg_uuid : Value) (ids : List String) (x : Value) (defs : List Value)
    → check_definitions vg vg_uuid ids defs ≡ ok tt
    → Memᴰ x defs
    → Passed (definition_checks vg vg_uuid ids x)
unfolding check_definitions
definition-Passed vg vg_uuid ids x [] h m = absurd (not-nil m)
definition-Passed vg vg_uuid ids x (item ∷ rest) h m =
    let (u, first, others) = >>=-eq-ok (requires (definition_checks vg vg_uuid ids item)) _ h in
    elim m [
      | Memᴰ.head e ↦
          subst (λ y. Passed (definition_checks vg vg_uuid ids y)) (sym e)
            (requires-Passed (definition_checks vg vg_uuid ids item) first)
      | Memᴰ.tail t ↦ definition-Passed vg vg_uuid ids x rest others t
    ]
