-- ===== src/Update.antt =====
-- dbcore/sm-oid.cpp: how a transaction puts a new version at the head of a tuple's chain, and takes
-- it off again. As in Visibility, a history gives the memory at each tick, and every read of
-- shared memory takes a tick; a write is made to the memory of its own tick.
pub mod Decide
pub mod Wins
pub mod Frozen
pub mod Own
use preemptdb.Prelude.{
  ℕ, zero, suc, ◌+◌, ◌*◌, Bool, true, false, Option, none, some, List, leb, ◌==◌, ◌&&◌, ◌||◌, not,
  if◌then◌else◌,
}
use preemptdb.FatPtr.{asi_type, asi_xid, asi_csn, offset, size_code}
use preemptdb.SizeEncode.{invalid_size_code}
use preemptdb.FatPtr.Xid
use preemptdb.Visibility.{
  TxnState, committing, committed, Object, Memory, History, Visitor, has_context, context_at,
}

-- Where the tests of the head lead: to the label `install`, with the flag `overwrite`, to a null
-- result, to the label `start_over`, past the fuel of a wait, or to an assertion that does not hold.
pub data Decision : Type 0 where
  install : Bool → Decision
  conflict : Decision
  start_again : Decision
  spins : Decision
  fails : Decision

-- The state and the end stamp of the holder, once its context is known to be the holder's.
unfoldable pub update_state : TxnState → ℕ → ℕ → Decision → Decision
update_state committing end_stamp begin again = again
update_state committed end_stamp begin again =
    if leb begin end_stamp then conflict else install false
update_state _ end_stamp begin again = conflict

-- The assertion where the holder has no context any more: its version has got a CSN, or is not at the
-- head any more.
unfoldable pub is_released : History → ℕ → ℕ → Bool
is_released h t head =
    (asi_type ((h t).object (offset head)).csn == asi_csn) || not ((h (t + 1)).entry == head)

-- The label `wait_for_commit` of `UpdateTuple`
unfoldable pub wait_for_holder : ℕ → History → ℕ → ℕ → ℕ → ℕ → Decision
unfolding is_released
wait_for_holder zero h t head holder_xid begin = spins
wait_for_holder (suc fuel) h t head holder_xid begin =
    let again = wait_for_holder fuel h (t + 4) head holder_xid begin in
    if has_context (context_at h t holder_xid).owner holder_xid
    then if (context_at h (t + 2) holder_xid).owner == holder_xid
      then update_state (context_at h (t + 1) holder_xid).state
          (context_at h (t + 3) holder_xid).end_stamp begin again
      else start_again
    else if is_released h (t + 1) head
    then start_again
    else fails

-- `csn` is what the read of the head's stamp gave.
unfoldable pub judge_update : ℕ → History → ℕ → ℕ → ℕ → Visitor → Decision
judge_update fuel h t head csn v =
    if csn == 0
    then start_again
    else if asi_type csn == asi_xid
    then (if csn == v.owner then install true else wait_for_holder fuel h t head csn v.begin)
    else if asi_type csn == asi_csn
    then (if leb v.begin (offset csn) then conflict else install false)
    else fails

-- `Object::Create`, as far as the object's contents go
unfoldable pub create : List ℕ → ℕ → Object
create value epoch = record {
  alloc_epoch = epoch;
  pdest = 0;
  next_pdest = 0;
  next_volatile = 0;
  csn = 0;
  value = value;
}

-- The store of an object that no one else has seen yet, and of a fat pointer to it in the entry
unfoldable pub publish : Memory → ℕ → Object → Memory
publish m fresh o = record m {
  object = λ a. if a == offset fresh then o else m.object a;
  entry = fresh;
}

-- `while (pa == NULL_PTR)`: the pointer that it ends with, and the tick after
unfoldable pub await_pdest : ℕ → History → ℕ → ℕ → Option (ℕ × ℕ)
await_pdest zero h t obj = none
await_pdest (suc fuel) h t obj =
    let rest = await_pdest fuel h (t + 1) obj in
    if ((h t).object obj).pdest == 0 then rest else some (((h t).object obj).pdest, t + 1)

-- `updated` has the old head and the memory after the store; `failed` is an assertion that does not
-- hold.
pub data Outcome : Type 0 where
  updated : ℕ → Memory → Outcome
  refused : Outcome
  unfinished : Outcome
  failed : Outcome

-- The transaction's own version is replaced: its links are kept.
unfoldable pub overwrite_version : Memory → ℕ → List ℕ → Visitor → ℕ → ℕ → Memory
unfolding create publish
overwrite_version m fresh value v epoch head = publish m fresh (record (create value epoch) {
  csn = Xid.to_ptr v.owner;
  next_pdest = (m.object (offset head)).next_pdest;
  next_volatile = (m.object (offset head)).next_volatile;
})

unfoldable pub install_version : Memory → ℕ → List ℕ → Visitor → ℕ → ℕ → ℕ → Memory
unfolding create publish
install_version m fresh value v epoch head pa = publish m fresh (record (create value epoch) {
  csn = Xid.to_ptr v.owner;
  next_pdest = pa;
  next_volatile = head;
})

-- The compare-and-swap, after the wait for the persistent address
unfoldable pub swap_head : Option (ℕ × ℕ) → History → ℕ → List ℕ → Visitor → ℕ → ℕ → Outcome
swap_head none h fresh value v epoch head = unfinished
swap_head (some (pa, t)) h fresh value v epoch head =
    if (h t).entry == head
    then updated head (install_version (h t) fresh value v epoch head pa)
    else refused

-- The label `install`
unfoldable pub install_at : Bool → ℕ → History → ℕ → ℕ → List ℕ → Visitor → ℕ → ℕ → Outcome
unfolding swap_head
install_at true fuel h t fresh value v epoch head =
    updated head (overwrite_version (h t) fresh value v epoch head)
install_at false fuel h t fresh value v epoch head =
    swap_head (await_pdest fuel h t (offset head)) h fresh value v epoch head

unfoldable pub decide : Decision → Outcome → (Bool → Outcome) → Outcome
decide (install overwrite) again go = go overwrite
decide conflict again go = refused
decide start_again again go = again
decide spins again go = unfinished
decide fails again go = failed

-- The assertions on the head: it points to an object in memory, and has a valid size code.
unfoldable pub is_object : ℕ → Bool
is_object head =
    (asi_type head == 0) && not (offset head == 0) && not (size_code head == invalid_size_code)

-- `fresh` is the fat pointer that `Object::Create` returns. The tests with `suc fuel` rounds make
-- their last read before tick `t + 2 + 4 * suc fuel`.
unfoldable pub update_tuple : ℕ → History → ℕ → ℕ → List ℕ → Visitor → ℕ → Outcome
unfolding decide is_object
update_tuple zero h t fresh value v epoch = unfinished
update_tuple (suc fuel) h t fresh value v epoch =
    let head = (h t).entry in
    let after = t + 2 + 4 * suc fuel in
    let again = update_tuple fuel h after fresh value v epoch in
    let judged =
      if is_object head
      then judge_update (suc fuel) h (t + 2) head ((h (t + 1)).object (offset head)).csn v
      else fails in
    decide judged again
      (λ overwrite. install_at overwrite (suc fuel) h after fresh value v epoch head)

-- The entry gets the next pointer of the version at its head.
unfoldable pub unlink_tuple : Memory → Memory
unlink_tuple m = record m { entry = (m.object (offset m.entry)).next_volatile }
