-- ===== src/Registration/Tests.antt =====
-- A request for two nodes and one mode, and the theorems at it.
use proxmox_sharedlvmthin.Base.Chains.{is_falsy}
use proxmox_sharedlvmthin.Base.{
  ℕ, String, true, List, [], ◌∷◌, ◌<>◌, Memᴰ, ok, ◌≡◌, ◌≤◌, refl, if◌then◌else◌, is_name,
  is_lvm_uuid, are_unique, insert, sort,
}
use proxmox_sharedlvmthin.Base.Int.{ℤ, pos, eq_ℤ}
use proxmox_sharedlvmthin.Base.Checks.{requires}
use proxmox_sharedlvmthin.Base.Json.{
  Value, int, str, flag, dict, array, nil, cons, entry, close, get, is_match, is_int_from, is_array,
  is_dict, is_true, items, equals, number_of,
}
use proxmox_sharedlvmthin.Registration.Evidence.{
  is_wwid, has_key, aliases_of, check_peers, check_definitions,
}
use proxmox_sharedlvmthin.Registration.Plan.{
  Preview, minimum, join, allocation_mode, config, options, definition, preview, plan,
}
use proxmox_sharedlvmthin.Registration.Laws.{
  is_unclaimed, is_verified, plan-IsUnclaimed, plan-IsVerified,
}

abbrev small_decimal : ℤ → String
small_decimal n = if eq_ℤ n (pos 2) then "2" else if eq_ℤ n (pos 5) then "5" else "1"

abbrev spaced : List String → String
spaced [] = ""
spaced (s ∷ rest) = s <> (" " <> spaced rest)

abbrev vg_uuid : Value
vg_uuid = str "abcdef-0123-4567-89ab-cdef-0123-456789"

abbrev wwid : Value
wwid = str "3600508b1001c0123"

abbrev vg : Value
vg = dict (
    entry "name" (str "vg0") (
      entry "pv_count" (int (pos 1)) (
        entry "vg_uuid" vg_uuid (
          entry "pv_uuid" vg_uuid (
            entry "wwid" wwid (
              entry "size_bytes" (int (pos 4096))
                (entry "free_bytes" (int (pos 1024)) (entry "dedicated" (flag true) close))))))))

abbrev peer : ℕ → Value
peer paths = dict (
    entry "complete" (flag true) (
      entry "peer_ssh_verified" (flag true) (
        entry "vg_uuid" vg_uuid (
          entry "pv_uuid" vg_uuid (
            entry "wwid" wwid (
              entry "size_bytes" (int (pos 4096)) (
                entry "healthy_paths" (int (pos paths))
                  (entry "mapper_verified" (flag true) close))))))))

abbrev local_definition : Value
local_definition = dict (entry "id" (str "local") (entry "type" (str "dir") close))

abbrev request : Value
request = dict (
    entry "nodes" (array (cons (str "pve2") (cons (str "pve1") nil))) (
      entry "vg" (str "vg0") (
        entry "aliases" (dict (entry "lazy" (str "slow") (entry "eager" (str "quick") close)))
          close)))

abbrev evidence : Value
evidence = dict (
    entry "quorate" (flag true) (
      entry "inventory_complete" (flag true) (
        entry "members" (dict (entry "pve1" (flag true) (entry "pve2" (flag true) close))) (
          entry "vg" vg (
            entry "node_evidence" (dict (entry "pve1" (peer 4) (entry "pve2" (peer 2) close)))
              (entry "storage_definitions" (array (cons local_definition nil)) close))))))

abbrev planned : Preview
planned = preview small_decimal spaced request evidence

accepted : plan small_decimal spaced request evidence ≡ ok planned
unfolding plan requires get is_match is_int_from is_array is_dict is_true items equals is_name
    is_lvm_uuid is_wwid has_key is_falsy are_unique insert sort aliases_of check_peers
    check_definitions
accepted = refl

first_command :
    (definition small_decimal spaced request evidence ("eager", str "quick")).cli
    ≡ "pvesm add sharedlvmthin quick --slt-vgname vg0 --slt-allocation-mode thick-generations --slt-vg-layout isolated --slt-expected-vg-uuid abcdef-0123-4567-89ab-cdef-0123-456789 --slt-expected-pv-uuid abcdef-0123-4567-89ab-cdef-0123-456789 --slt-expected-wwid 3600508b1001c0123 --slt-expected-min-paths 2 --slt-vg-reserve-percent 5 --nodes pve1,pve2 --shared 1 --content images,rootdir "
unfolding definition config options join allocation_mode minimum get items insert sort has_key
first_command = refl

selected : Memᴰ (str "pve2") (items (get "nodes" request))
unfolding get items
selected = Memᴰ.head refl

defined : Memᴰ local_definition (items (get "storage_definitions" evidence))
unfolding get items
defined = Memᴰ.head refl

plan-IsUnclaimed_example : is_unclaimed request evidence planned local_definition ≡ true
plan-IsUnclaimed_example =
    plan-IsUnclaimed small_decimal spaced request evidence local_definition planned accepted defined

plan-IsVerified_example :
    (is_verified evidence "pve2" ≡ true)
    × (1 ≤ planned.expected_min_paths)
    × (planned.expected_min_paths
        ≤ number_of (get "healthy_paths" (get "pve2" (get "node_evidence" evidence))))
plan-IsVerified_example =
    plan-IsVerified small_decimal spaced request evidence "pve2" planned accepted selected
