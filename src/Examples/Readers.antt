-- ===== src/Examples/Readers.antt =====
-- A reader whose begin stamp is the CSN of the version.
use preemptdb.Prelude.{◌≡◌, refl}
use preemptdb.FatPtr.{asi, asi_type, offset}
use preemptdb.FatPtr.Csn
use preemptdb.Visibility.{visible, judge_csn, test_visibility}
use preemptdb.Visibility.Sound.{Witnessed, test_visibility_sound}
use preemptdb.Examples.Data.{reader, after_post_commit}

sees_committed : test_visibility 0 (λ _. after_post_commit) 5 1 reader ≡ visible
unfolding test_visibility judge_csn asi_type asi offset Csn.to_ptr Csn.make
sees_committed = refl

test_visibility_sound_example :
    Witnessed (λ _. after_post_commit) 6 (Csn.to_ptr (Csn.make 7)) reader
test_visibility_sound_example =
    test_visibility_sound 0 (λ _. after_post_commit) 5 1 reader sees_committed
