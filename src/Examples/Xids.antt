-- ===== src/Examples/Xids.antt =====
-- The first thread takes the first word of contexts, and a context of it.
use preemptdb.Prelude.{◌<◌, ◌≡◌, ◌≢◌, refl, some, true, arith}
use preemptdb.FatPtr.Xid
use preemptdb.XidAlloc.{Pool, has_bit, lowest, global_init, take_one, xid_free, grab}
use preemptdb.XidAlloc.Places.{shared, holds}
use preemptdb.XidAlloc.Grab.{after_grab}
use preemptdb.XidAlloc.Take.{after_take, taken_xid}
use preemptdb.XidAlloc.Free.{after_free}
use preemptdb.XidAlloc.Reach.{frees}
use preemptdb.XidAlloc.Rows.{second_row_empty}
use preemptdb.XidAlloc.Reach.{Reachable, starts, steps, grabs, takes}

abbrev grabbed : Pool
grabbed = after_grab global_init 0 0

grabs_word : grab global_init 0 0 ≡ some grabbed
unfolding grab has_bit global_init
grabs_word = refl

takes_context : take_one grabbed 0 ≡ some (taken_xid grabbed 0, after_take grabbed 0)
unfolding take_one has_bit lowest global_init
takes_context = refl

grabbed-Reachable : Reachable grabbed
grabbed-Reachable = steps starts (grabs 0 0 grabs_word)

abbrev freed : Pool
freed = after_free (after_take grabbed 0) (taken_xid grabbed 0)

frees_context : xid_free (after_take grabbed 0) (taken_xid grabbed 0) ≡ some freed
unfolding xid_free lowest global_init Xid.make Xid.local Xid.epoch
frees_context = refl

real : taken_xid grabbed 0 ≢ 0
unfolding lowest global_init Xid.make
real e = omega (arith, e)

freed_there : holds freed (shared 0) 0 ≡ true
unfolding holds lowest global_init Xid.make Xid.local Xid.epoch
freed_there = refl

second_row_empty_example : 0 < 2
second_row_empty_example =
    second_row_empty freed 0 0
      (steps (steps grabbed-Reachable (takes 0 (taken_xid grabbed 0) takes_context))
        (frees (taken_xid grabbed 0) real frees_context))
      freed_there
