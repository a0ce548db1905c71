-- ===== src/Registration/Plan.antt =====
-- `plan`: what it returns for evidence that passes its tests.
use proxmox_sharedlvmthin.Base.{
  ℕ, String, List, [], ◌∷◌, map, Result, ok, ◌>>◌, ◌<>◌, contains, if◌then◌else◌, ltb, str_eq,
}
use proxmox_sharedlvmthin.Base.Int.{ℤ, pos}
use proxmox_sharedlvmthin.Base.Checks.{◌//◌, requires}
use proxmox_sharedlvmthin.Base.Json.{
  Value, int, str, dict, Entries, close, entry, get, is_array, is_dict, items, text_of, number_of,
}
use proxmox_sharedlvmthin.Registration.Evidence.{
  get_or, nodes_of, aliases_of, storage_ids, node_checks, request_checks, vg_checks, check_peers,
  check_definitions,
}

pub record Definition : Type 0 where
  pub mode : String
  pub status : String
  pub api_parameters : Value
  pub cli : String

pub record Preview : Type 0 where
  pub result : String
  pub vg_size_bytes : Value
  pub vg_free_bytes : Value
  pub expected_min_paths : ℕ
  pub definitions : List Definition

-- `min(counts)`, of a list that is not empty.
unfoldable pub minimum : List ℕ → ℕ
minimum [] = 0
minimum (n ∷ []) = n
minimum (n ∷ m ∷ rest) = let least = minimum (m ∷ rest) in if ltb least n then least else n

abbrev pub path_counts : Value → List String → List ℕ
path_counts peers nodes = map (λ n. number_of (get "healthy_paths" (get n peers))) nodes

-- `','.join(texts)`
unfoldable pub join : List String → String
join [] = ""
join (s ∷ []) = s
join (s ∷ t ∷ rest) = s <> ("," <> join (t ∷ rest))

unfoldable pub allocation_mode : String → String
allocation_mode mode = if str_eq mode "eager" then "thick-generations" else "thick-generations-lazy"

-- `cfg`, for one of the requested aliases.
unfoldable pub config : Value → Value → String → Value → Value
config request evidence mode sid = dict (
    entry "type" (str "sharedlvmthin") (
      entry "storage" sid (
        entry "slt-vgname" (get "vg" request) (
          entry "slt-allocation-mode" (str (allocation_mode mode)) (
            entry "slt-vg-layout" (str "isolated") (
              entry "slt-expected-vg-uuid" (get "vg_uuid" (get "vg" evidence)) (
                entry "slt-expected-pv-uuid" (get "pv_uuid" (get "vg" evidence)) (
                  entry "slt-expected-wwid" (get "wwid" (get "vg" evidence)) (
                    entry "slt-expected-min-paths"
                      (int (
                        pos (
                          minimum (path_counts (get "node_evidence" evidence) (nodes_of request)))))
                      (entry "slt-vg-reserve-percent"
                        (get_or (int (pos 5)) "reserve_percent" request)
                        (entry "nodes" (str (join (nodes_of request))) (
                          entry "shared" (int (pos 1))
                            (entry "content" (str "images,rootdir") close)))))))))))))

-- `str` of an integer and `shlex.join` are parameters.
module _ (decimal : ℤ → String) (shlex_join : List String → String) where
  abbrev option_text : Value → String
  option_text (int n) = decimal n
  option_text v = text_of v

  unfoldable pub options : Entries → List String
  options close = []
  options (entry key v rest) =
      let others = options rest in
      if contains ("type" ∷ "storage" ∷ []) key
      then others
      else ("--" <> key) ∷ option_text v ∷ others

  abbrev arguments : Value → List String
  arguments (dict fs) =
      "pvesm" ∷ "add" ∷ "sharedlvmthin" ∷ text_of (get "storage" (dict fs)) ∷ options fs
  arguments _ = []

  unfoldable pub definition : Value → Value → String × Value → Definition
  definition request evidence (mode, sid) = record {
    mode = mode;
    status = "CREATE";
    api_parameters = config request evidence mode sid;
    cli = shlex_join (arguments (config request evidence mode sid));
  }

  abbrev pub preview : Value → Value → Preview
  preview request evidence = record {
    result = "PREVIEW_ONLY";
    vg_size_bytes = get "size_bytes" (get "vg" evidence);
    vg_free_bytes = get "free_bytes" (get "vg" evidence);
    expected_min_paths = minimum (path_counts (get "node_evidence" evidence) (nodes_of request));
    definitions = map (definition request evidence) (aliases_of (get "aliases" request));
  }

  unfoldable pub plan : Value → Value → Result Preview
  plan request evidence = do
    requires (node_checks request evidence)
    requires (request_checks request)
    requires (vg_checks (get "vg" request) (get "vg" evidence))
    requires ((is_dict (get "node_evidence" evidence) // "peer evidence missing") ∷ [])
    check_peers (get "vg" evidence) (get "node_evidence" evidence) (nodes_of request)
    requires
        ((is_array (get "storage_definitions" evidence) // "storage definitions unavailable") ∷ [])
    check_definitions (get "vg" request) (get "vg_uuid" (get "vg" evidence))
        (storage_ids (get "aliases" request)) (items (get "storage_definitions" evidence))
    ok (preview request evidence)
