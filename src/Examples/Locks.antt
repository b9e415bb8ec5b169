-- ===== src/Examples/Locks.antt =====
-- Two threads at a lock: one is inside, the other is turned back.
use preemptdb.Prelude.{◌≡◌, refl, inl}
use preemptdb.SpinLock.{
  retrying, inside, State, call_lock, load, swap, back_off, with_thread, with_both, calls, loads,
  swaps, new_lock, Reachable, starts, steps,
}
use preemptdb.SpinLock.Exclusive.{IsExclusive, Reachable-IsExclusive}
use preemptdb.SpinLock.Patience.{IsPatient, Reachable-IsPatient}
use preemptdb.SpinLock.Progress.{Steps, waiting_enters}

abbrev called : State
called = with_thread new_lock 0 (call_lock 7)

abbrev looked : State
looked = with_thread called 0 (load called.lock_ (called.threads 0))

abbrev entered : State
entered = with_both looked 0 (swap looked.lock_ (looked.threads 0))

abbrev joined : State
joined = with_thread entered 1 (call_lock 9)

abbrev turned_back : State
turned_back = with_thread joined 1 (load joined.lock_ (joined.threads 1))

turned_back-Reachable : Reachable turned_back
unfolding new_lock call_lock load swap back_off
turned_back-Reachable =
    steps
      (steps (steps (steps (steps starts (calls 0 7 refl)) (loads 0 refl)) (swaps 0 refl))
        (calls 1 9 refl))
      (loads 1 refl)

turned_back-retrying : (turned_back.threads 1).stage ≡ retrying
unfolding new_lock call_lock load swap back_off
turned_back-retrying = refl

Reachable-IsExclusive_example : IsExclusive turned_back
Reachable-IsExclusive_example = Reachable-IsExclusive turned_back turned_back-Reachable

waiting_enters_example : (s' : State) × Steps turned_back s' × ((s'.threads 1).stage ≡ inside)
waiting_enters_example =
    waiting_enters turned_back 1 turned_back-Reachable (inl turned_back-retrying)

Reachable-IsPatient_example : IsPatient (turned_back.threads 1)
Reachable-IsPatient_example = Reachable-IsPatient turned_back 1 turned_back-Reachable
