-- ===== src/Sensors/Wakelock/Laws.antt =====
-- The count of references and the lock of the kernel agree.
use device_xiaomi_camellia.Base.{
  ℕ, ◌+◌, ◌≤◌, ◌<◌, ◌^◌, ◌≡◌, true, false, none, some, arith, ◌==◌, if◌then◌else◌, List, [], ◌∷◌,
}
use device_xiaomi_camellia.Sensors.Wakelock.{
  Wakelock, increment_ref_count_and_maybe_acquire_wakelock,
  decrement_ref_count_and_maybe_release_wakelock, reset_shared_wakelock, handle_wakelocks_begin,
  Call, increment, decrement, begin, end, reset, set_threads_run, timed_out, step, run,
}

-- The kernel's lock is held just while the count is not zero.
abbrev pub Agrees : Wakelock → Type 0
Agrees w = w.held ≡ (if w.ref_count == 0 then false else true)

-- A caller takes the lock for one event at least, and the count has room for all.
abbrev pub IsFair : Call → Wakelock → Type 0
IsFair (increment now delta) w = (0 < delta) × (w.ref_count + delta < 2 ^ 64)
IsFair _ w = Unit {0}

pub step-Agrees :
    (timeout : ℕ) (c : Call) (w : Wakelock) → IsFair c w → Agrees w → Agrees (step timeout c w)
unfolding step
step-Agrees timeout (increment now delta) w f h = ground arith
step-Agrees timeout (decrement delta start) w f h = ground arith
step-Agrees timeout (begin now later) w f h = ground arith
step-Agrees timeout (end none) w f h = ground arith
step-Agrees timeout (end (some n)) w f h = ground arith
step-Agrees timeout (reset now) w f h = ground arith
step-Agrees timeout (set_threads_run runs) w f h = ground arith

-- Every call of a history is fair in the state that it meets.
abbrev pub AllFair : ℕ → List Call → Wakelock → Type 0
AllFair timeout [] w = Unit {0}
AllFair timeout (c ∷ cs) w = IsFair c w × AllFair timeout cs (step timeout c w)

-- Whatever the threads do, in any order, the kernel's lock is held exactly while events are
-- counted.
pub run-Agrees :
    (timeout : ℕ) (cs : List Call) (w : Wakelock)
    → AllFair timeout cs w
    → Agrees w
    → Agrees (run timeout cs w)
unfolding run
run-Agrees timeout [] w f h = h
run-Agrees timeout (c ∷ cs) w f h =
    run-Agrees timeout cs (step timeout c w) f.1 (step-Agrees timeout c w f.0 h)

-- A reference that is given back, with the time at which it was taken, leaves the count and the
-- lock as they were, unless the lock was reset after it was taken.
pub decrement-increment :
    (now delta : ℕ) (w : Wakelock)
    → Agrees w
    → w.threads_run ≡ true
    → w.timeout_reset_time ≤ now
    → w.ref_count + delta < 2 ^ 64
    → 0 < delta
    → let (taken, start) = increment_ref_count_and_maybe_acquire_wakelock now delta w in
      decrement_ref_count_and_maybe_release_wakelock delta start taken
      ≡ record w { timeout_start_time = now }
unfolding increment_ref_count_and_maybe_acquire_wakelock
    decrement_ref_count_and_maybe_release_wakelock
decrement-increment now delta w h runs time room some_event = ground arith

-- A reference taken before the last reset gives nothing back: the count of later holders stays.
pub decrement_stale :
    (delta start : ℕ) (w : Wakelock)
    → start < w.timeout_reset_time
    → decrement_ref_count_and_maybe_release_wakelock delta (some start) w ≡ w
unfolding decrement_ref_count_and_maybe_release_wakelock
decrement_stale delta start w old = ground arith

-- Once the lock is older than the timeout, the next round of the thread releases it, and stamps
-- the reset so that no reference taken before can release it again.
pub handle_wakelocks_begin_timeout :
    (timeout now later start delta : ℕ) (w : Wakelock)
    → w.threads_run ≡ true
    → Agrees w
    → 0 < w.ref_count
    → w.timeout_start_time + timeout < now
    → start < later
    → let (freed, round) = handle_wakelocks_begin timeout now later w in
      (freed.ref_count ≡ 0)
      × (freed.held ≡ false)
      × (round ≡ timed_out)
      × (decrement_ref_count_and_maybe_release_wakelock delta (some start) freed ≡ freed)
unfolding handle_wakelocks_begin
handle_wakelocks_begin_timeout timeout now later start delta w runs h used old taken = ground arith

-- While the threads are stopped a reset changes only its time stamp: neither the count nor the
-- lock is given back.
pub reset_shared_wakelock_stopped :
    (now : ℕ) (w : Wakelock)
    → w.threads_run ≡ false
    → reset_shared_wakelock now w ≡ record w { timeout_reset_time = now }
unfolding reset_shared_wakelock
reset_shared_wakelock_stopped now w stopped = ground arith
