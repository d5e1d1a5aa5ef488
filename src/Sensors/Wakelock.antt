-- ===== src/Sensors/Wakelock.antt =====
-- The shared wake lock of sensors/HalProxy.cpp: a reference count, the times of its last use and
-- of its last reset, and the lock of the kernel. Times are numbers of nanoseconds, which do not
-- wrap; `size_t` wraps at 2 ^ 64. The calls run under a recursive mutex, so each is one step.
pub mod Laws
use device_xiaomi_camellia.Base.{
  ℕ, ◌+◌, ◌-◌, ◌%◌, ◌^◌, min, Bool, true, false, ◌||◌, Option, none, some, ltb, ◌==◌, if◌then◌else◌,
  List, [], ◌∷◌,
}

pub record Wakelock : Type 0 where
  pub threads_run : Bool
  pub ref_count : ℕ
  pub timeout_start_time : ℕ
  pub timeout_reset_time : ℕ
  pub held : Bool

-- The result holds what the call writes to `*timeoutStart`, and `none` where it returns false.
unfoldable pub increment_ref_count_and_maybe_acquire_wakelock :
    ℕ → ℕ → Wakelock → Wakelock × Option ℕ
increment_ref_count_and_maybe_acquire_wakelock now delta w =
    if w.threads_run
    then (
      record w {
        held = if w.ref_count == 0 then true else w.held;
        timeout_start_time = now;
        ref_count = (w.ref_count + delta) % 2 ^ 64;
      },
      some now,
    )
    else (w, none)

-- The default -1 of `timeoutStart` is `none`.
abbrev pub or_reset_time : Option ℕ → Wakelock → ℕ
or_reset_time none w = w.timeout_reset_time
or_reset_time (some start) w = start

unfoldable pub decrement_ref_count_and_maybe_release_wakelock : ℕ → Option ℕ → Wakelock → Wakelock
decrement_ref_count_and_maybe_release_wakelock delta timeout_start w =
    if w.threads_run
    then (if w.ref_count == 0 || ltb (or_reset_time timeout_start w) w.timeout_reset_time
        then w
        else let left = w.ref_count - min w.ref_count delta in
          record w { ref_count = left; held = if left == 0 then false else w.held })
    else w

unfoldable pub reset_shared_wakelock : ℕ → Wakelock → Wakelock
unfolding decrement_ref_count_and_maybe_release_wakelock
reset_shared_wakelock now w =
    record (decrement_ref_count_and_maybe_release_wakelock w.ref_count none w) {
      timeout_reset_time = now;
    }

-- `none` if it timed out, and else the time left. `now - start > timeout` is written with sums.
unfoldable pub shared_wakelock_did_timeout : ℕ → ℕ → Wakelock → Option ℕ
shared_wakelock_did_timeout timeout now w =
    if ltb (w.timeout_start_time + timeout) now
    then none
    else some (w.timeout_start_time + timeout - now)

-- How a round of `handleWakelocks` goes on: the thread waits for an event to be counted, or it has
-- reset the lock, or it goes to read with so much time left, or it has ended.
pub data Round : Type 0 where
  waits timed_out ended : Round
  reads : ℕ → Round

round_of : ℕ → Option ℕ → Wakelock → Wakelock × Round
unfolding reset_shared_wakelock
round_of later none w = (reset_shared_wakelock later w, timed_out)
round_of later (some left) w = (w, reads left)

-- A round up to `readBlocking`, for which the mutex is given up. The loop is left, with a last
-- reset, when the threads are to stop.
unfoldable pub handle_wakelocks_begin : ℕ → ℕ → ℕ → Wakelock → Wakelock × Round
unfolding shared_wakelock_did_timeout reset_shared_wakelock round_of
handle_wakelocks_begin timeout now later w =
    if w.threads_run
    then (if w.ref_count == 0
        then (w, waits)
        else round_of later (shared_wakelock_did_timeout timeout now w) w)
    else (reset_shared_wakelock later w, ended)

-- The rest of the round, with the number that was read if the read succeeded.
unfoldable pub handle_wakelocks_end : Option ℕ → Wakelock → Wakelock
unfolding decrement_ref_count_and_maybe_release_wakelock
handle_wakelocks_end none w = w
handle_wakelocks_end (some processed) w =
    decrement_ref_count_and_maybe_release_wakelock processed none w

-- Whatever may happen to the lock, from any thread. A caller acquires for at least one event, and
-- the count stays below 2 ^ 64.
pub data Call : Type 0 where
  increment : ℕ → ℕ → Call
  decrement : ℕ → Option ℕ → Call
  begin : ℕ → ℕ → Call
  end : Option ℕ → Call
  reset : ℕ → Call
  set_threads_run : Bool → Call

unfoldable pub step : ℕ → Call → Wakelock → Wakelock
unfolding increment_ref_count_and_maybe_acquire_wakelock handle_wakelocks_begin handle_wakelocks_end
step timeout (increment now delta) w =
    (increment_ref_count_and_maybe_acquire_wakelock now delta w).0
step timeout (decrement delta start) w =
    decrement_ref_count_and_maybe_release_wakelock delta start w
step timeout (begin now later) w = (handle_wakelocks_begin timeout now later w).0
step timeout (end processed) w = handle_wakelocks_end processed w
step timeout (reset now) w = reset_shared_wakelock now w
step timeout (set_threads_run runs) w = record w { threads_run = runs }

unfoldable pub run : ℕ → List Call → Wakelock → Wakelock
unfolding step
run timeout [] w = w
run timeout (c ∷ cs) w = run timeout cs (step timeout c w)
