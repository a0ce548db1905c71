-- ===== src/Registration/Laws.antt =====
-- What a preview rests on.
use proxmox_sharedlvmthin.Base.{
  String, Bool, true, false, not, ◌&&◌, List, [], ◌∷◌, map, all, any, Memᴰ, ok, ◌≤◌, ◌≡◌, refl, sym,
  ap, subst, arith, >>=-eq-ok, ok_injective, all-mem, &&_left, &&_right, contains, is_name,
}
use mathlib.Core.List.Memᴰ.{not-nil}
use proxmox_sharedlvmthin.Base.Int.{ℤ, pos}
use proxmox_sharedlvmthin.Base.Checks.{requires, Passed, requires-Passed}
use proxmox_sharedlvmthin.Base.Json.{
  Value, null, flag, blob, array, dict, str, int, get, is_dict, is_array, is_any, equals, is_match,
  is_true, is_int_from, items, text_of, number_of,
}
use proxmox_sharedlvmthin.Base.Json.Laws.{match-str}
use proxmox_sharedlvmthin.Registration.Evidence.{
  nodes_of, aliases_of, storage_ids, node_checks, request_checks, vg_checks, peer_checks,
  check_peers, definition_checks, check_definitions,
}
use proxmox_sharedlvmthin.Registration.Plan.{
  Preview, minimum, path_counts, definition, config, preview, plan,
}
use proxmox_sharedlvmthin.Registration.Members.{
  map-mem, sort-mem, minimum_le, peer-Passed, definition-Passed,
}

-- No storage definition has one of the identifiers, or the name or the UUID of the VG.
abbrev pub is_unclaimed : Value → Value → Preview → Value → Bool
is_unclaimed request evidence p item =
    is_match is_any (get "id" item)
    && not (any (λ d. equals (get "id" item) (get "storage" d.api_parameters)) p.definitions)
    && not (equals (get "vg_name" item) (get "vg" request))
    && not (equals (get "vg_uuid" item) (get "vg_uuid" (get "vg" evidence)))

-- A selected node: a member whose evidence is complete, verified, and of the same VG, PV and device.
abbrev pub is_verified : Value → String → Bool
is_verified evidence n =
    let item = get n (get "node_evidence" evidence) in
    is_true (get n (get "members" evidence))
    && is_true (get "complete" item)
    && is_true (get "peer_ssh_verified" item)
    && is_true (get "mapper_verified" item)
    && is_int_from (pos 1) (get "healthy_paths" item)
    && all (λ k. equals (get k item) (get k (get "vg" evidence)))
        ("vg_uuid" ∷ "pv_uuid" ∷ "wwid" ∷ "size_bytes" ∷ [])

positive-number : (v : Value) → is_int_from (pos 1) v ≡ true → 1 ≤ number_of v
unfolding is_int_from
positive-number null h = cc
positive-number (flag b) h = cc
positive-number (int n) h = ground arith
positive-number (str s) h = cc
positive-number (blob b) h = cc
positive-number (array xs) h = cc
positive-number (dict fs) h = cc

paths_positive :
    (expected peers : Value) (n : String) (ns : List String)
    → check_peers expected peers (n ∷ ns) ≡ ok tt
    → 1 ≤ minimum (path_counts peers (n ∷ ns))
unfolding check_peers minimum is_int_from
paths_positive expected peers n [] h =
    let (_, (_, (enough, _))) = peer-Passed expected peers n (n ∷ []) h (Memᴰ.head refl) in
    positive-number (get "healthy_paths" (get n peers)) (&&_left _ _ enough)
paths_positive expected peers n (k ∷ ns) h =
    let (_, (_, (enough, _))) = peer-Passed expected peers n (n ∷ k ∷ ns) h (Memᴰ.head refl) in
    let (_, _, others) = >>=-eq-ok (requires (peer_checks expected (get n peers))) _ h in
    let first = positive-number (get "healthy_paths" (get n peers)) (&&_left _ _ enough) in
    ground (arith, first, paths_positive expected peers k ns others)

module _ (decimal : ℤ → String) (shlex_join : List String → String) where
  record Accepted (request evidence : Value) : Type 0 where
    pub nodes_ok : Passed (node_checks request evidence)
    pub request_ok : Passed (request_checks request)
    pub vg_ok : Passed (vg_checks (get "vg" request) (get "vg" evidence))
    pub peers_ok :
        check_peers (get "vg" evidence) (get "node_evidence" evidence) (nodes_of request) ≡ ok tt
    pub definitions_ok :
        check_definitions
          (get "vg" request)
          (get "vg_uuid" (get "vg" evidence))
          (storage_ids (get "aliases" request))
          (items (get "storage_definitions" evidence))
        ≡ ok tt

  plan-Accepted :
      (request evidence : Value) (p : Preview)
      → plan decimal shlex_join request evidence ≡ ok p
      → Accepted request evidence × (preview decimal shlex_join request evidence ≡ p)
  unfolding plan
  plan-Accepted request evidence p h =
      let (_, a, h1) = >>=-eq-ok (requires (node_checks request evidence)) _ h in
      let (_, b, h2) = >>=-eq-ok (requires (request_checks request)) _ h1 in
      let (_, c, h3) =
        >>=-eq-ok (requires (vg_checks (get "vg" request) (get "vg" evidence))) _ h2 in
      let (_, d, h4) =
        >>=-eq-ok
          (requires ((is_dict (get "node_evidence" evidence), "peer evidence missing") ∷ [])) _
          h3 in
      let (_, e, h5) =
        >>=-eq-ok
          (check_peers (get "vg" evidence) (get "node_evidence" evidence) (nodes_of request)) _
          h4 in
      let (_, f, h6) =
        >>=-eq-ok
          (requires (
            (is_array (get "storage_definitions" evidence), "storage definitions unavailable")
            ∷ []))
          _ h5 in
      let (_, g, h7) = >>=-eq-ok (check_definitions _ _ _ _) _ h6 in
      (
        record {
          nodes_ok = requires-Passed (node_checks request evidence) a;
          request_ok = requires-Passed (request_checks request) b;
          vg_ok = requires-Passed (vg_checks (get "vg" request) (get "vg" evidence)) c;
          peers_ok = e;
          definitions_ok = g;
        },
        ok_injective h7,
      )

  storage_none :
      (request evidence : Value) (s : String) (names_ : List (String × Value))
      → all (λ a. is_match is_name a.1) names_ ≡ true
      → contains (map (λ a. text_of a.1) names_) s ≡ false
      → any
          (λ d. equals (str s) (get "storage" d.api_parameters))
          (map (definition decimal shlex_join request evidence) names_)
        ≡ false
  unfolding definition config get equals
  storage_none request evidence s [] names fresh = refl
  storage_none request evidence s ((mode, sid) ∷ others) names fresh =
      let (t, e, _) =
        match-str is_name sid
          (&&_left (is_match is_name sid) (all (λ a. is_match is_name a.1) others) names) in
      let head_ : equals (str s) sid ≡ false =
        subst (λ v. equals (str s) v ≡ false) (sym e) (ground (arith, fresh, ap text_of e)) in
      ground (
        arith,
        head_,
        storage_none request evidence s others
            (&&_right (is_match is_name sid) (all (λ a. is_match is_name a.1) others) names)
            (ground (arith, fresh)),
      )

  unclaimed_item :
      (request evidence item : Value) (ids : List String) (p : Preview)
      → Passed (definition_checks (get "vg" request) (get "vg_uuid" (get "vg" evidence)) ids item)
      → ((s : String)
          → contains ids s ≡ false
          → any (λ d. equals (str s) (get "storage" d.api_parameters)) p.definitions ≡ false)
      → is_unclaimed request evidence p item ≡ true
  unfolding is_match
  unclaimed_item request evidence item ids p passed none_ =
      let (s, e, _) =
        match-str is_any (get "id" item)
          (&&_right (is_dict item) (is_match is_any (get "id" item)) passed.0) in
      ground (arith, e, passed.1, none_ s)

  -- No storage definition of the cluster has one of the identifiers that a preview names, or names
  -- the VG, or has its UUID; and each has a text as its identifier.
  pub plan-IsUnclaimed :
      (request evidence item : Value) (p : Preview)
      → plan decimal shlex_join request evidence ≡ ok p
      → Memᴰ item (items (get "storage_definitions" evidence))
      → is_unclaimed request evidence p item ≡ true
  plan-IsUnclaimed request evidence item p h m =
      let (a, e) = plan-Accepted request evidence p h in
      let (_, (_, (names, _))) = a.request_ok in
      let passed =
        definition-Passed (get "vg" request) _ (storage_ids (get "aliases" request)) item _
          a.definitions_ok m in
      subst (λ q. is_unclaimed request evidence q item ≡ true) e
        (unclaimed_item request evidence item (storage_ids (get "aliases" request))
          (preview decimal shlex_join request evidence) passed
          (λ s fresh.
            storage_none request evidence s (aliases_of (get "aliases" request)) names fresh))

  peer_verified :
      (evidence : Value) (n : String)
      → is_true (get n (get "members" evidence)) ≡ true
      → Passed (peer_checks (get "vg" evidence) (get n (get "node_evidence" evidence)))
      → is_verified evidence n ≡ true
  peer_verified evidence n member passed = ground (arith, member, passed)

  paths_enough :
      (expected peers : Value) (n : String) (ns : List String)
      → check_peers expected peers ns ≡ ok tt
      → Memᴰ n ns
      → 1 ≤ minimum (path_counts peers ns)
  paths_enough expected peers n [] h m = absurd (not-nil m)
  paths_enough expected peers n (k ∷ ns) h m = paths_positive expected peers k ns h

  -- Every selected node is a member whose evidence is complete, verified and of the same VG, PV and
  -- device, and the number of paths that a preview expects is positive and at most its healthy paths.
  pub plan-IsVerified :
      (request evidence : Value) (n : String) (p : Preview)
      → plan decimal shlex_join request evidence ≡ ok p
      → Memᴰ (str n) (items (get "nodes" request))
      → (is_verified evidence n ≡ true)
        × (1 ≤ p.expected_min_paths)
        × (p.expected_min_paths
            ≤ number_of (get "healthy_paths" (get n (get "node_evidence" evidence))))
  plan-IsVerified request evidence n p h m =
      let (a, e) = plan-Accepted request evidence p h in
      let peers = get "node_evidence" evidence in
      let chosen : Memᴰ n (nodes_of request) = sort-mem n _ (map-mem text_of m) in
      let (_, (_, (_, (_, (members, _))))) = a.nodes_ok in
      let member =
        all-mem (λ k. is_true (get k (get "members" evidence))) (nodes_of request)
          (&&_right (is_dict (get "members" evidence)) _ members) chosen in
      let passed = peer-Passed (get "vg" evidence) peers n (nodes_of request) a.peers_ok chosen in
      let least = ap (λ q. q.expected_min_paths) e in
      (
        peer_verified evidence n member passed,
        subst (λ k. 1 ≤ k) least
            (paths_enough (get "vg" evidence) peers n (nodes_of request) a.peers_ok chosen),
        subst (λ k. k ≤ number_of (get "healthy_paths" (get n peers))) least
            (minimum_le _ (path_counts peers (nodes_of request))
              (map-mem (λ k. number_of (get "healthy_paths" (get k peers))) chosen)),
      )
