-- ===== src/Registration/Evidence.antt =====
-- The tests of `plan` up to the loop over the storage definitions, in the order of the source.
use proxmox_sharedlvmthin.Base.{
  is_any_hex, String, Bool, false, not, ◌&&◌, ◌||◌, List, [], ◌∷◌, ◌++◌, map, all, is_empty, Result,
  ok, ◌>>◌, codes, length, leb, contains, is_name, is_lvm_uuid, are_unique, if◌then◌else◌, sort,
}
use proxmox_sharedlvmthin.Base.Int.{pos}
use proxmox_sharedlvmthin.Base.Chains.{is_falsy}
use proxmox_sharedlvmthin.Base.Checks.{◌//◌, requires}
use proxmox_sharedlvmthin.Base.Json.{
  Value, int, dict, keys_of, get, is_match, is_any, is_int_from, is_array, is_dict, is_true,
  is_one_of, items, equals, text_of, number_of,
}

-- `[0-9a-fA-F]{16,128}`
unfoldable pub is_wwid : String → Bool
is_wwid s = all is_any_hex (codes s) && leb 16 (length (codes s)) && leb (length (codes s)) 128

unfoldable pub has_key : String → Value → Bool
has_key key (dict fs) = contains (keys_of fs) key
has_key key _ = false

-- `value.get(key, default)`
abbrev pub get_or : Value → String → Value → Value
get_or default key v = if has_key key v then get key v else default

abbrev pub nodes_of : Value → List String
nodes_of request = sort (map text_of (items (get "nodes" request)))

-- The aliases of a request with no other mode than these, in the order of the modes.
abbrev alias_at : String → Value → List (String × Value)
alias_at mode aliases = if has_key mode aliases then (mode, get mode aliases) ∷ [] else []

unfoldable pub aliases_of : Value → List (String × Value)
aliases_of aliases = alias_at "eager" aliases ++ alias_at "lazy" aliases

abbrev pub storage_ids : Value → List String
storage_ids aliases = map (λ a. text_of a.1) (aliases_of aliases)

abbrev pub modes_ok : Value → Bool
modes_ok (dict fs) =
    not (is_empty (keys_of fs)) && all (contains ("eager" ∷ "lazy" ∷ [])) (keys_of fs)
modes_ok _ = false

abbrev pub node_checks : Value → Value → List (Bool × String)
node_checks request evidence =
    (is_dict request && is_dict evidence // "invalid input")
    ∷ (is_true (get "quorate" evidence) && is_true (get "inventory_complete" evidence)
        // "quorum or inventory not proven")
    ∷ (is_array (get "nodes" request)
          && not (is_empty (items (get "nodes" request)))
          && all (is_match is_any) (items (get "nodes" request))
          && are_unique (map text_of (items (get "nodes" request)))
        // "invalid selected nodes")
    ∷ (all (is_match is_name) (items (get "nodes" request)) // "invalid node")
    ∷ (is_dict (get "members" evidence)
          && all (λ n. is_true (get n (get "members" evidence))) (nodes_of request)
        // "selected node unavailable")
    ∷ []

abbrev pub request_checks : Value → List (Bool × String)
request_checks request =
    (is_match is_name (get "vg" request) // "invalid VG")
    ∷ (modes_ok (get "aliases" request) // "invalid modes")
    ∷ (all (λ a. is_match is_name a.1) (aliases_of (get "aliases" request)) // "invalid storage ID")
    ∷ (are_unique (storage_ids (get "aliases" request)) // "duplicate requested storage ID")
    ∷ (is_int_from (pos 0) (get_or (int (pos 5)) "reserve_percent" request)
          && leb (number_of (get_or (int (pos 5)) "reserve_percent" request)) 50
        // "new registration reserve must be between 0 and 50 percent")
    ∷ []

-- `expected` is the VG of the evidence.
abbrev pub vg_checks : Value → Value → List (Bool × String)
vg_checks vg expected =
    (is_dict expected
        && equals (get "name" expected) vg
        && equals (get "pv_count" expected) (int (pos 1))
      // "VG is not a proven single-PV VG")
    ∷ (is_match is_lvm_uuid (get "vg_uuid" expected) // "invalid LVM UUID")
    ∷ (is_match is_lvm_uuid (get "pv_uuid" expected) // "invalid LVM UUID")
    ∷ (is_match is_wwid (get "wwid" expected) // "invalid WWID")
    ∷ (is_int_from (pos 1) (get "size_bytes" expected)
          && is_int_from (pos 0) (get "free_bytes" expected)
          && leb (number_of (get "free_bytes" expected)) (number_of (get "size_bytes" expected))
        // "invalid VG capacity")
    ∷ (is_true (get "dedicated" expected) // "dedicated VG not proven")
    ∷ []

abbrev pub peer_checks : Value → Value → List (Bool × String)
peer_checks expected item =
    (is_dict item && is_true (get "complete" item) && is_true (get "peer_ssh_verified" item)
      // "peer evidence incomplete")
    ∷ (all (λ k. equals (get k item) (get k expected))
          ("vg_uuid" ∷ "pv_uuid" ∷ "wwid" ∷ "size_bytes" ∷ [])
        // "peer identity mismatch")
    ∷ (is_int_from (pos 1) (get "healthy_paths" item) && is_true (get "mapper_verified" item)
        // "multipath identity or healthy path missing")
    ∷ []

unfoldable pub check_peers : Value → Value → List String → Result (Unit {0})
check_peers expected peers [] = ok tt
check_peers expected peers (node ∷ nodes) = do
  requires (peer_checks expected (get node peers))
  check_peers expected peers nodes

-- A storage definition of the cluster, against the requested names and the VG.
abbrev pub definition_checks : Value → Value → List String → Value → List (Bool × String)
definition_checks vg vg_uuid ids item =
    (is_dict item && is_match is_any (get "id" item) // "storage definition ambiguous")
    ∷ (not (
          is_match (contains ids) (get "id" item)
          || equals (get "vg_name" item) vg
          || equals (get "vg_uuid" item) vg_uuid)
        // "existing storage association requires full policy review")
    ∷ (not (
          is_one_of ("sharedlvmthin" ∷ "lvm" ∷ "lvmthin" ∷ []) (get "type" item)
          && is_falsy (get "vg_name" item))
        // "storage VG association is ambiguous")
    ∷ []

unfoldable pub check_definitions : Value → Value → List String → List Value → Result (Unit {0})
check_definitions vg vg_uuid ids [] = ok tt
check_definitions vg vg_uuid ids (item ∷ rest) = do
  requires (definition_checks vg vg_uuid ids item)
  check_definitions vg vg_uuid ids rest
