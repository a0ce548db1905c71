-- ===== src/Policy/Evaluate/Coverage.antt =====
-- What an allowed transaction leaves installed, and when it may change the storage API.
use proxmox_sharedlvmthin.Base.{
  ◌+◌, String, Bool, true, ◌⊎◌, inl, inr, Option, none, some, List, [], ◌∷◌, ◌≡◌, refl, sym, ap,
  arith, any, All-mem, keep, Memᴰ, str_eq, eq_iff, Bool-cases, starts_with, ok,
}
use proxmox_sharedlvmthin.Policy.Data.{
  Action, Row, Edge, Manifest, Policy, Context, version_of, base_package,
}
use proxmox_sharedlvmthin.Policy.Tuples.{resulting_versions}
use proxmox_sharedlvmthin.Policy.Evaluate.{
  Outcome, same_option, is_represented, valid_transition, moves_storage, relevant_actions, evaluate,
  storage_package,
}
use proxmox_sharedlvmthin.Policy.Evaluate.Laws.{IsAllowed, evaluate-IsAllowed}

any-package :
    (name : String) (ps : List (String × String))
    → any (λ (k, v). str_eq k name) ps ≡ true
    → (v : String) × Memᴰ (name, v) ps
any-package name [] h = cc
any-package name ((k, v) ∷ ps) h = elim (Bool-cases (str_eq k name)) [
  | inl here ↦ (v, Memᴰ.head (ap (λ n. (n, v)) (sym ((eq_iff k name).0 here))))
  | inr later ↦ let (w, m) = any-package name ps (rw later at h) in (w, Memᴰ.tail m)
]

abbrev pub SameTuple : Row → Row → Type 0
SameTuple current target = current.id ≡ target.id

abbrev on_storage : Action → Bool
on_storage a = str_eq (base_package a.package_name) storage_package

-- The API goes up by one, by one action that moves the storage package between the versions of the
-- two tuples, which differ.
pub record StorageStep (current target : Row) (related : List Action) : Type 0 where
  pub next_api : target.api ≡ current.api + 1
  pub action : Action
  pub alone : keep on_storage related ≡ action ∷ []
  pub unpacks : starts_with action.action "/" ≡ true
  pub old_version_ok : version_of current.packages storage_package ≡ some action.old_version
  pub new_version_ok : version_of target.packages storage_package ≡ some action.new_version

same_option-eq : (s : String) (o : Option String) → same_option (some s) o ≡ true → o ≡ some s
same_option-eq s none h = cc
same_option-eq s (some t) h = ap some (sym ((eq_iff s t).0 h))

StorageStep-moves_storage :
    (current target : Row) (related acts : List Action)
    → target.api ≡ current.api + 1
    → keep on_storage related ≡ acts
    → moves_storage current target acts ≡ true
    → StorageStep current target related
unfolding moves_storage
StorageStep-moves_storage current target related (a ∷ []) n e h = record {
  next_api = n;
  action = a;
  alone = e;
  unpacks = ground arith;
  old_version_ok =
      same_option-eq a.old_version (version_of current.packages storage_package) (ground arith);
  new_version_ok =
      same_option-eq a.new_version (version_of target.packages storage_package) (ground arith);
}
StorageStep-moves_storage current target related [] n e h = cc
StorageStep-moves_storage current target related (a ∷ b ∷ acts) n e h = cc

valid_transition-StorageStep :
    (current target : Row) (edge : Edge) (related : List Action)
    → valid_transition current target edge related ≡ true
    → StorageStep current target related
unfolding valid_transition
valid_transition-StorageStep current target edge related h =
    StorageStep-moves_storage current target related (keep on_storage related) (ground arith) refl
      (ground arith)

module _ (fullmatch : String → String → Bool)
    (compare_versions : String → String → String → Bool) where
  -- After an allowed transaction every package that a watched action names is installed, at exactly
  -- the version that a catalogued target tuple lists; so no allowed transaction removes one.
  pub allowed_installed :
      (plan : List Action) (manifest : Manifest) (policy : Policy) (context : Context) (o : Outcome)
      (a : Action)
      → evaluate fullmatch compare_versions plan manifest policy context ≡ ok o
      → o.post_gate_required ≡ true
      → Memᴰ a (relevant_actions fullmatch manifest plan)
      → (target : Row) × (version : String) × Memᴰ target manifest.tuples
        × Memᴰ (base_package a.package_name, version) target.packages
        × (resulting_versions (version_of context.installed) plan (base_package a.package_name)
            ≡ some version)
  unfolding is_represented
  allowed_installed plan manifest policy context o a h g m =
      let w = evaluate-IsAllowed fullmatch compare_versions plan manifest policy context o h g in
      let represented = All-mem _ _ w.covered m in
      let (v, i) = any-package (base_package a.package_name) w.target.packages represented in
      (w.target, v, w.target_listed, i, All-mem _ w.target.packages w.target_ok.versions_ok i)

  -- An allowed transaction keeps its tuple, or keeps the storage API, or raises it by exactly one; then
  -- exactly one of its watched actions is on the storage package, and that one installs from a payload
  -- path, from the current tuple's version to the target's.
  pub evaluate-StorageStep :
      (plan : List Action) (manifest : Manifest) (policy : Policy) (context : Context) (o : Outcome)
      → evaluate fullmatch compare_versions plan manifest policy context ≡ ok o
      → o.post_gate_required ≡ true
      → let related = relevant_actions fullmatch manifest plan in
        (w : IsAllowed compare_versions plan manifest policy context related) × (SameTuple w.current
            w.target
          ⊎ (w.target.api ≡ w.current.api)
          ⊎ StorageStep w.current w.target related)
  evaluate-StorageStep plan manifest policy context o h g =
      let w = evaluate-IsAllowed fullmatch compare_versions plan manifest policy context o h g in
      (
        w,
        elim w.route [
          | inl same ↦ inl same
          | inr (edge, listed, fits, inl stays) ↦ inr (inl stays)
          | inr (edge, listed, fits, inr steps) ↦
              inr (inr (valid_transition-StorageStep w.current w.target edge _ steps))
        ],
      )
