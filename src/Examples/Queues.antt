-- ===== src/Examples/Queues.antt =====
-- The commit queue and the global durable CSN.
use preemptdb.Prelude.{◌+◌, ◌^◌, ◌%◌, ◌≡◌, ◌≢◌, ◌≤◌, false, true, [], ◌∷◌, ◌++◌, arith}
use preemptdb.CommitQueue.{push_back, extend, dequeue_committed_xcts, get_global_durable_csn}
use preemptdb.CommitQueue.Contents.{contents, IsValid}
use preemptdb.CommitQueue.Queue.{push_back-contents, extend-contents, extend_loses}
use preemptdb.CommitQueue.Dequeue.{drop_durable, durable_latency, dequeue-contents}
use preemptdb.CommitQueue.Durable.{All, global_durable-le-dirty}
use preemptdb.Examples.Data.{old_entry, wrapped, flat}

wrapped-IsValid : IsValid wrapped
wrapped-IsValid = omega arith

flat-IsValid : IsValid flat
flat-IsValid = omega arith

push_back-contents_example :
    let p = push_back wrapped old_entry false true in
    (contents p.after ≡ contents wrapped ++ old_entry ∷ []) × (p.insert ≡ false) × IsValid p.after
push_back-contents_example = push_back-contents wrapped old_entry false true wrapped-IsValid

extend-contents_example : (contents (extend flat) ≡ contents flat) × IsValid (extend flat)
extend-contents_example = extend-contents flat flat-IsValid (omega arith) (omega arith)

extend_loses_example : contents (extend wrapped) ≢ contents wrapped
extend_loses_example = extend_loses wrapped wrapped-IsValid (omega arith) (omega arith) (λ e. cc)

dequeue-contents_example :
    let r = dequeue_committed_xcts wrapped 5 100 in
    (contents r ≡ drop_durable 5 (contents wrapped))
    × (r.total_latency_us ≡ durable_latency 5 100 (contents wrapped) 0)
    × IsValid r
dequeue-contents_example = dequeue-contents wrapped 5 100 wrapped-IsValid

global_durable-le-dirty_example :
    All
      (λ c. 2 ^ 63 ≤ c → get_global_durable_csn (4 ∷ (2 ^ 63 + 3) ∷ []) ≤ c % 2 ^ 63)
      (4 ∷ (2 ^ 63 + 3) ∷ [])
global_durable-le-dirty_example =
    global_durable-le-dirty (4 ∷ (2 ^ 63 + 3) ∷ []) (omega arith, (omega arith, tt))
