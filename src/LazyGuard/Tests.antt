-- ===== src/LazyGuard/Tests.antt =====
-- A fixture with its four devices, a receipt for it, and the theorems at them.
use proxmox_sharedlvmthin.Base.{
  ℕ, ◌≡◌, refl, String, true, false, List, [], ◌∷◌, ok, none, inl, arith, split_once, is_hex32,
  is_boot_id,
}
use proxmox_sharedlvmthin.Base.Int.{pos}
use proxmox_sharedlvmthin.Base.Checks.{requires}
use proxmox_sharedlvmthin.Base.Json.{
  Value, int, str, flag, dict, array, nil, cons, entry, close, get, has_exactly, is_match, is_int,
  is_int_from, is_flag, is_true, is_false, is_array, items, equals, is_text,
}
use proxmox_sharedlvmthin.LazyGuard.Fixture.{
  is_decimal, is_devno, is_number, are_distinct, same_backing, is_named, clone_table,
  is_zero_target, is_clone_target, is_holder_graph, validate_fixture, singleton,
}
use proxmox_sharedlvmthin.LazyGuard.Epoch.{
  graph_verified, model_published, unknown, Guard, invalidate, is_bound, is_guarding, is_receipt,
  accept_guard, publish, is_closed, withdraw, check_observed, start, observe, reconfigure,
}
use proxmox_sharedlvmthin.LazyGuard.Laws.{
  Op, accepts, publishes, withdraws, reconfigures, step, is_guard,
}
use proxmox_sharedlvmthin.LazyGuard.Runs.{run, published_guarded, replayed_receipt}

abbrev digest_of : Value → String
digest_of v = "aaaaaaaaaaaaaaaaaaaaaaaaaaaaaaaaaaaaaaaaaaaaaaaaaaaaaaaaaaaaaaaa"

abbrev num : ℕ → Value
num n = int (pos n)

abbrev loop_device : String → String → ℕ → ℕ → Value
loop_device role devno size inode = dict (
    entry "kind" (str "loop") (
      entry "role" (str role) (
        entry "devno" (str devno) (
          entry "diskseq" (num 7) (
            entry "size_bytes" (num size) (
              entry "backing_dev" (num 2049) (
                entry "backing_inode" (num inode) (
                  entry "offset" (num 0) (
                    entry "sizelimit" (num 0) (
                      entry "readonly" (flag false)
                        (entry "holders" (singleton (str "253:1")) close)))))))))))

abbrev dm_device : String → String → String → String → String → Value → Value → Value → Value
dm_device role devno name uuid table readonly holders dependencies = dict (
    entry "kind" (str "dm") (
      entry "role" (str role) (
        entry "devno" (str devno) (
          entry "diskseq" (num 9) (
            entry "size_bytes" (num 134217728) (
              entry "name" (str name) (
                entry "uuid" (str uuid) (
                  entry "table" (str table) (
                    entry "readonly" readonly (
                      entry "suspended" (flag false) (
                        entry "open_count" (num 0) (
                          entry "holders" holders
                            (entry "dependencies" dependencies close)))))))))))))

abbrev nonce : String
nonce = "0123456789abcdef0123456789abcdef"

abbrev boot : Value
boot = str "01234567-89ab-cdef-0123-456789abcdef"

abbrev table : String
table = "0 262144 clone 7:1 7:0 253:0 2048 2 no_hydration no_discard_passdown"

abbrev fixture : Value
fixture = dict (
    entry "schema" (num 1) (
      entry "nonce" (str nonce) (
        entry "boot_id" boot (
          entry "purpose" (str "GUARDED") (
            entry "region_sectors" (num 2048) (
              entry "roles"
                (dict (
                  entry "data" (loop_device "data" "7:0" 134217728 11) (
                    entry "metadata" (loop_device "metadata" "7:1" 33554432 12) (
                      entry "zero"
                        (dm_device "zero" "253:0" "slt-lazy-zero-0123456789abcdef0123456789abcdef"
                          "SLT-LAZY-ZERO-0123456789abcdef0123456789abcdef" "0 262144 zero"
                          (flag true) (singleton (str "253:1")) (array nil))
                        (entry "clone"
                          (dm_device "clone" "253:1"
                            "slt-lazy-clone-0123456789abcdef0123456789abcdef"
                            "SLT-LAZY-CLONE-0123456789abcdef0123456789abcdef" table (flag false)
                            (array nil)
                            (array (cons (str "7:0") (cons (str "7:1") (cons (str "253:0") nil)))))
                          close)))))
                close))))))

abbrev receipt_for : ℕ → Value
receipt_for epoch = dict (
    entry "schema" (num 1) (
      entry "fixture_nonce" (str nonce) (
        entry "boot_id" boot (
          entry "epoch" (num epoch) (
            entry "graph_digest" (str (digest_of fixture)) (
              entry "clone_devno" (str "253:1") (
                entry "clone_diskseq" (num 9) (
                  entry "clone_table" (str table) (
                    entry "queue_devno" (str "253:1") (
                      entry "queue_diskseq" (num 9) (
                        entry "discard_max_bytes" (num 0)
                          (entry "attempt_id" (str nonce) close))))))))))))

abbrev at_epoch : ℕ → Guard
at_epoch n = record {
  fixture = fixture;
  digest = digest_of fixture;
  epoch = n;
  phase = graph_verified;
  guard = none;
  was_withdrawn = false;
}

-- Published, withdrawn, reloaded, and published again with a receipt for the second epoch.
abbrev life : List Op
life =
    (accepts (receipt_for 1)
      ∷ publishes
      ∷ withdraws (flag true) (num 0)
      ∷ reconfigures "RELOAD" fixture (flag true) (num 0)
      ∷ accepts (receipt_for 2)
      ∷ publishes
      ∷ [])

started : start digest_of fixture ≡ ok (at_epoch 1)
unfolding start validate_fixture requires get has_exactly is_match is_number is_int is_int_from
    is_flag is_true is_false is_array items equals is_devno is_decimal split_once are_distinct
    same_backing is_named clone_table is_zero_target is_clone_target is_holder_graph is_hex32
    is_boot_id
started = refl

lived : (run digest_of (at_epoch 1) life).phase ≡ model_published
unfolding run step accept_guard publish withdraw reconfigure check_observed observe is_closed
    is_receipt is_bound is_guarding validate_fixture requires get has_exactly is_match is_number
    is_int is_int_from is_flag is_true is_false is_array items equals is_devno is_decimal split_once
    are_distinct same_backing is_named clone_table is_zero_target is_clone_target is_holder_graph
    is_hex32 is_boot_id
lived = refl

accepted : (accept_guard (at_epoch 1) (receipt_for 1)).1 ≡ ok tt
unfolding accept_guard is_receipt is_bound is_guarding get has_exactly is_match is_number is_int
    equals is_hex32
accepted = refl

published_guarded_example :
    (validate_fixture (run digest_of (at_epoch 1) life).fixture ≡ ok tt)
    × (is_text "GUARDED" (get "purpose" (run digest_of (at_epoch 1) life).fixture) ≡ true)
    × (is_guard
          (run digest_of (at_epoch 1) life).fixture
          (digest_of (run digest_of (at_epoch 1) life).fixture)
          (run digest_of (at_epoch 1) life).epoch
          (run digest_of (at_epoch 1) life).guard
        ≡ true)
published_guarded_example = published_guarded digest_of fixture (at_epoch 1) life started lived

replayed_receipt_example : (accept_guard (at_epoch 2) (receipt_for 1)).0 ≡ invalidate (at_epoch 2)
replayed_receipt_example =
    replayed_receipt (at_epoch 1) (at_epoch 2) (receipt_for 1) accepted refl
      (inl (λ e. ground (arith, e)))

invalidated : (invalidate (at_epoch 1)).phase ≡ unknown
unfolding invalidate
invalidated = refl
