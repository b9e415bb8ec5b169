-- ===== src/Examples/Updates.antt =====
-- An update over a version whose writer committed before the updater began.
use preemptdb.Prelude.{ℕ, ◌*◌, ◌^◌, ◌≡◌, refl, true, [], ◌∷◌, if◌then◌else◌, arith}
use preemptdb.FatPtr.{asi, asi_type, asi_xid, offset, size_code}
use preemptdb.FatPtr.Csn
use preemptdb.FatPtr.Fields.{asi_type_lem}
use preemptdb.FatPtr.Xid
use preemptdb.Visibility.{Memory, version, start_over, get_version, has_context, is_above_committed}
use preemptdb.Update.{
  updated, refused, update_tuple, decide, is_object, judge_update, wait_for_holder, update_state,
  install_at, swap_head, await_pdest, install_version, publish,
}
use preemptdb.Update.Wins.{Won, update_tuple_wins}
use preemptdb.Update.Frozen.{may_update, stored, update_tuple_frozen, update_tuple-get_version}
use preemptdb.Update.Own.{update_tuple-reads_own}
use preemptdb.Examples.Data.{reader, after_post_commit}
use preemptdb.Examples.Chains.{two_versions, reader_at, held-IsSettled, two_versions-Chain}

abbrev fresh : ℕ
fresh = 5 * 2 ^ 16

abbrev after_update : Memory
after_update = install_version two_versions fresh (9 ∷ []) (reader_at 8) 1 (2 ^ 16) 1

updates :
    update_tuple 1 (λ _. two_versions) 0 fresh (9 ∷ []) (reader_at 8) 1
    ≡ updated (2 ^ 16) after_update
unfolding update_tuple decide is_object size_code judge_update wait_for_holder update_state
    install_at swap_head await_pdest install_version publish has_context offset asi_type Xid.epoch
    Xid.local asi
updates = refl

update_tuple_wins_example :
    Won (λ _. two_versions) 0 fresh (9 ∷ []) (reader_at 8) 1 (2 ^ 16) after_update
update_tuple_wins_example =
    update_tuple_wins 1 (λ _. two_versions) 0 fresh (9 ∷ []) (reader_at 8) 1 (2 ^ 16) after_update
      updates

is_object_head : is_object (2 ^ 16) ≡ true
unfolding is_object asi_type asi offset size_code
is_object_head = refl

update_tuple_frozen_example :
    update_tuple 3 (λ _. two_versions) 0 fresh (9 ∷ []) (reader_at 7) 1 ≡ (
      if may_update two_versions (reader_at 7) 1
      then updated (2 ^ 16) (stored two_versions fresh (9 ∷ []) (reader_at 7) 1)
      else refused)
unfolding offset
update_tuple_frozen_example =
    update_tuple_frozen 2 two_versions 0 fresh (9 ∷ []) (reader_at 7) 1 is_object_head
      (held-IsSettled 7) (omega arith)

update_tuple-get_version_example :
    (2 ^ 16 ≡ two_versions.entry)
    × (get_version 4 (λ _. two_versions) 9 (reader_at 8) start_over ≡ version (offset (2 ^ 16)))
update_tuple-get_version_example =
    update_tuple-get_version 0 4 two_versions after_update 0 9 fresh (9 ∷ []) (reader_at 8) 1
      (2 ^ 16) 1 (2 ∷ []) is_object_head (two_versions-Chain 8) (omega arith) (omega arith) updates

reader-typed : asi_type reader.owner ≡ asi_xid
reader-typed = omega (arith, asi_type_lem reader.owner)

fresh_hot : asi_type fresh ≡ 0
fresh_hot = omega (arith, asi_type_lem fresh)

-- An update over a version that carries a CSN
abbrev over_committed : Memory
over_committed = install_version after_post_commit fresh (9 ∷ []) (reader_at 8) 1 (2 ^ 16) 1

updates_committed :
    update_tuple 1 (λ _. after_post_commit) 0 fresh (9 ∷ []) (reader_at 8) 1
    ≡ updated (2 ^ 16) over_committed
unfolding update_tuple decide is_object judge_update install_at swap_head await_pdest
    install_version publish offset asi_type asi size_code Csn.to_ptr Csn.make
updates_committed = refl

head_hot : asi_type ((over_committed.object (offset fresh)).next_volatile) ≡ 0
unfolding install_version publish offset
head_hot = omega (arith, asi_type_lem (2 ^ 16))

above : is_above_committed (λ _. over_committed) 0 (offset fresh) ≡ true
unfolding is_above_committed install_version publish offset asi_type asi Csn.to_ptr Csn.make
above = refl

update_tuple-reads_own_example :
    (get_version 2 (λ _. over_committed) 9 (reader_at 8) start_over ≡ version (offset fresh))
    × ((over_committed.object (offset fresh)).value ≡ 9 ∷ [])
unfolding offset Xid.to_ptr
update_tuple-reads_own_example =
    update_tuple-reads_own 1 0 (λ _. after_post_commit) over_committed 0 9 fresh (9 ∷ [])
      (reader_at 8) 1 (2 ^ 16) fresh_hot (omega arith) (omega arith) reader-typed refl head_hot
      above updates_committed
