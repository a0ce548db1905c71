-- ===== src/Policy/Protocol/Laws.antt =====
-- The parser accepts only rows that pass every check, and at most the allowed number of them.
use proxmox_sharedlvmthin.Base.{
  ℕ, ◌+◌, ◌≤◌, String, true, false, ◌⊎◌, inl, inr, ◌↔◌, Option, some, List, [], ◌∷◌, ◌++◌, length,
  length-append, ◌≡◌, sym, ◌∙◌, ◌≢◌, arith, str_eq, eq_iff, starts_with, All, Bool-cases,
  Option-cases, split_once, ok, >>=-eq-ok, refuse_if-eq-ok, ltb, split_max, split_lines,
}
use mathlib.Core.Path.{subst}
use mathlib.Core.List.{append_assoc, append-nil}
use proxmox_sharedlvmthin.Policy.Data.{Action, is_package, is_version, is_arch}
use proxmox_sharedlvmthin.Policy.Protocol.{
  max_actions, is_multiarch, is_direction, is_operation, check_action, unsafe_version,
  action_of_fields, parse_action, parse_actions, parse_lines, split_at_blank, check_config,
  check_config_line, max_protocol_bytes, parse_protocol_v3,
}

-- A row that the guard may reason about.
pub record IsWellFormed (a : Action) : Type 0 where
  pub named : is_package a.package_name ≡ true
  pub old_ok : (a.old_version ≡ "-") ⊎ (is_version a.old_version ≡ true)
  pub new_ok : (a.new_version ≡ "-") ⊎ (is_version a.new_version ≡ true)
  pub old_arch_ok : is_arch a.old_arch ≡ true
  pub new_arch_ok : is_arch a.new_arch ≡ true
  pub old_multi_ok : is_multiarch a.old_multiarch ≡ true
  pub new_multi_ok : is_multiarch a.new_multiarch ≡ true
  pub directed : (a.direction ≡ "<") ⊎ (a.direction ≡ ">") ⊎ (a.direction ≡ "=")
  pub acted :
      (a.action ≡ "**CONFIGURE**") ⊎ (a.action ≡ "**REMOVE**") ⊎ (starts_with a.action "/" ≡ true)

unsafe_version_iff : (v : String) → (unsafe_version v ≡ false) ↔ ((v ≡ "-") ⊎ (is_version v ≡ true))
unfolding unsafe_version
unsafe_version_iff v = ground (arith, eq_iff v "-")

is_direction_iff : (d : String) → (is_direction d ≡ true) ↔ ((d ≡ "<") ⊎ (d ≡ ">") ⊎ (d ≡ "="))
unfolding is_direction
is_direction_iff d = ground (arith, eq_iff d "<", eq_iff d ">", eq_iff d "=")

is_operation_iff :
    (act : String)
    → (is_operation act ≡ true)
      ↔ ((act ≡ "**CONFIGURE**") ⊎ (act ≡ "**REMOVE**") ⊎ (starts_with act "/" ≡ true))
unfolding is_operation
is_operation_iff act = ground (arith, eq_iff act "**CONFIGURE**", eq_iff act "**REMOVE**")

pub check_action_iff : (a : Action) → (check_action a ≡ ok tt) ↔ IsWellFormed a
unfolding check_action
check_action_iff a = ground (
  arith,
  unsafe_version_iff a.old_version,
  unsafe_version_iff a.new_version,
  is_direction_iff a.direction,
  is_operation_iff a.action,
)

-- Rows and the actions read from them, in order; blank rows give none.
pub data Reads : List String → List Action → Type 0 where
  end : Reads [] []
  blank :
      {l : String} {ls : List String} {acts : List Action}
      → l ≡ ""
      → Reads ls acts
      → Reads (l ∷ ls) acts
  row :
      {l : String} {a : Action} {ls : List String} {acts : List Action}
      → l ≢ ""
      → action_of_fields (split_max b' ' 8 l) ≡ ok a
      → IsWellFormed a
      → Reads ls acts
      → Reads (l ∷ ls) (a ∷ acts)

parse_action-row :
    (l : String) (a : Action)
    → parse_action l ≡ ok a
    → (action_of_fields (split_max b' ' 8 l) ≡ ok a) × IsWellFormed a
unfolding parse_action
parse_action-row l a h =
    let (b, read, rest) = >>=-eq-ok (action_of_fields (split_max b' ' 8 l)) _ h in
    let (u, checked, same) = >>=-eq-ok (check_action b) _ rest in
    let e : b ≡ a = cc same in rw (← e) (read, (check_action_iff b).0 checked)

pub row-parse_action :
    (l : String) (a : Action)
    → action_of_fields (split_max b' ' 8 l) ≡ ok a
    → IsWellFormed a
    → parse_action l ≡ ok a
unfolding parse_action
row-parse_action l a read w = rw (read, (check_action_iff a).1 w)

parse_actions-Reads :
    (done : List Action) (ls : List String) (out : List Action)
    → length done ≤ max_actions
    → parse_actions done ls ≡ ok out
    → (acts : List Action) × (out ≡ done ++ acts) × Reads ls acts × (length out ≤ max_actions)
unfolding parse_actions
parse_actions-Reads done [] out small h =
    let e : done ≡ out = cc h in ([], sym e ∙ sym (append-nil done), end, rw (← e) small)
parse_actions-Reads done (l ∷ ls) out small h = elim (Bool-cases (str_eq l "")) [
  | inl skip ↦
      let (acts, e, r, n) = parse_actions-Reads done ls out small (ground (arith, skip)) in
      (acts, e, blank ((eq_iff l "").0 skip) r, n)
  | inr take ↦
      let (a, one, more) = >>=-eq-ok (parse_action l) _ (rw take at h) in
      let (fits, rest) = refuse_if-eq-ok (ltb max_actions (length (done ++ a ∷ []))) _ _ more in
      let (read, w) = parse_action-row l a one in
      let (acts, e, r, n) = parse_actions-Reads (done ++ a ∷ []) ls out (ground arith) rest in
      (a ∷ acts, e ∙ append_assoc done (a ∷ []) acts, row (λ q. cc ((eq_iff l "").1 q)) read w r, n)
]

Reads-parse_actions :
    (done : List Action) {ls : List String} {acts : List Action}
    → Reads ls acts
    → length done + length acts ≤ max_actions
    → parse_actions done ls ≡ ok (done ++ acts)
unfolding parse_actions
Reads-parse_actions done end small = rw append-nil
Reads-parse_actions done (blank {l} {ls} {acts} e r) small =
    rw ((eq_iff l "").1 e) (Reads-parse_actions done r small)
Reads-parse_actions done (row {l} {a} {ls} {acts} full read w r) small = ground (
  arith,
  eq_iff l "",
  row-parse_action l a read w,
  length-append done (a ∷ []),
  append_assoc done (a ∷ []) acts,
  Reads-parse_actions (done ++ a ∷ []) r,
)

-- A configuration line: a key that is not empty, an equals sign, and a value.
abbrev pub IsConfigLine : String → Type 0
IsConfigLine l =
    (key : String) × (value : String) × (split_once b'=' l ≡ some (key, value)) × (key ≢ "")

-- A hook stream and the actions that it asks for.
pub record IsStream (decode : List ℕ → Option String) (raw : List ℕ) (acts : List Action)
    : Type 0 where
  pub text : String
  pub config : List String
  pub rows : List String
  pub bounded : length raw ≤ max_protocol_bytes
  pub decoded : decode raw ≡ some text
  pub framed : split_lines text ≡ "VERSION 3" ∷ config ++ ("" ∷ rows)
  pub configured : All IsConfigLine config
  pub read : Reads rows acts
  pub few : length acts ≤ max_actions

split_at_blank-append :
    (ls config rows : List String)
    → split_at_blank ls ≡ some (config, rows)
    → ls ≡ config ++ ("" ∷ rows)
unfolding split_at_blank
split_at_blank-append [] config rows h = cc
split_at_blank-append (l ∷ ls) config rows h = elim (Bool-cases (str_eq l "")) [
  | inl empty ↦ ground (arith, eq_iff l "")
  | inr full ↦ elim (Option-cases (split_at_blank ls)) [
    | inl missing ↦ ground arith
    | inr (p, e) ↦ ground (arith, split_at_blank-append ls p.0 p.1)
  ]
]

check_config_line-IsConfigLine : (l : String) → check_config_line l ≡ ok tt → IsConfigLine l
unfolding check_config_line
check_config_line-IsConfigLine l h = elim (Option-cases (split_once b'=' l)) [
  | inl missing ↦ ground arith
  | inr (p, e) ↦ (p.0, p.1, e, λ q. ground (arith, eq_iff p.0 ""))
]

check_config-All : (ls : List String) → check_config ls ≡ ok tt → All IsConfigLine ls
unfolding check_config
check_config-All [] h = tt
check_config-All (l ∷ ls) h =
    let (u, one, rest) = >>=-eq-ok (check_config_line l) _ h in
    (check_config_line-IsConfigLine l one, check_config-All ls rest)

parse_lines-framed :
    (ls : List String) (acts : List Action)
    → parse_lines ls ≡ ok acts
    → (config : List String) × (rows : List String) × (ls ≡ "VERSION 3" ∷ config ++ ("" ∷ rows))
      × (check_config config ≡ ok tt)
      × (parse_actions [] rows ≡ ok acts)
unfolding parse_lines
parse_lines-framed [] acts h = cc
parse_lines-framed (first ∷ lines) acts h = elim (Option-cases (split_at_blank lines)) [
  | inl missing ↦ ground arith
  | inr (p, e) ↦ (
    p.0,
    p.1,
    ground (arith, eq_iff first "VERSION 3", split_at_blank-append lines p.0 p.1),
    ground arith,
    ground arith,
  )
]

-- Whatever the decoder is, a stream that the parser accepts is within the size limit, decodes, is
-- framed as protocol version 3, has well-formed configuration lines, and asks for exactly the
-- returned actions: the rows that are not blank, in order, each well formed, at most 4096.
pub parse_protocol_v3-IsStream :
    (decode : List ℕ → Option String) (raw : List ℕ) (acts : List Action)
    → parse_protocol_v3 decode raw ≡ ok acts
    → IsStream decode raw acts
unfolding parse_protocol_v3
parse_protocol_v3-IsStream decode raw acts h = elim (Option-cases (decode raw)) [
  | inl missing ↦ ground arith
  | inr (text, e) ↦
      let (config, rows, framed, configured, parsed) =
        parse_lines-framed (split_lines text) acts (ground arith) in
      let (tail, same, read, few) = parse_actions-Reads [] rows acts (omega arith) parsed in
      record {
        text = text;
        config = config;
        rows = rows;
        bounded = ground arith;
        decoded = e;
        framed = framed;
        configured = check_config-All config configured;
        read = subst (Reads rows) (sym same) read;
        few = few;
      }
]
