-- ===== src/Sensors/EventQueue.antt =====
-- The way of events to the framework, sensors/HalProxy.cpp: a post writes to the message queue as
-- many events as fit, and the rest waits for the pending writes thread. The message queue is not
-- part of the repository: what it answers (`availableToWrite`, `getQuantumCount` and whether a
-- write succeeds) is an argument of each call, and `handed` lists the events that it was offered,
-- each with the answer. Numbers of events do not wrap.
pub mod Invariant
pub mod Order
pub mod Dropped
pub mod Drained
use mathlib.Core.Option
use device_xiaomi_camellia.Base.{
  ℕ, suc, ◌+◌, ◌-◌, ◌≤◌, min, max, Bool, true, false, ◌&&◌, ◌||◌, Option, none, some, List, [], ◌∷◌,
  ◌++◌, map, ltb, leb, ◌==◌, if◌then◌else◌, length, take, drop,
}
use device_xiaomi_camellia.Sensors.Platform.{Event}

-- Where the pending writes thread stands: before a round, in `writeBlocking` without the mutex,
-- or about to take the mutex again. The number is `eventQueueSize`.
pub data Writer : Type 0 where
  idle : Writer
  writing wrote : ℕ → Writer

pub record EventQueue : Type 0 where
  pub pending : List (List Event × ℕ)
  pub size_pending : ℕ
  pub most_observed : ℕ
  pub writer : Writer
  pub handed : List (Event × Bool)

-- The state of the members before the first call.
abbrev pub empty : EventQueue
empty = record { pending = []; size_pending = 0; most_observed = 0; writer = idle; handed = [] }

abbrev pub offer : Bool → List Event → List (Event × Bool)
offer taken = map (λ e. (e, taken))

-- How many events a post writes itself: none while older events are pending.
unfoldable pub num_to_write : ℕ → Bool → List Event → List (List Event × ℕ) → ℕ
num_to_write available takes events [] = if takes then min (length events) available else 0
num_to_write available takes events (p ∷ ps) = 0

-- Whether the rest of a post is kept for the thread.
unfoldable pub is_kept : ℕ → ℕ → List Event → EventQueue → Bool
is_kept limit n events q = ltb n (length events) && leb (q.size_pending + (length events - n)) limit

-- `postEventsToMessageQueue` behind its wake lock; `limit` is `kMaxSizePendingWriteEventsQueue`.
unfoldable pub post_events_to_message_queue :
    ℕ → ℕ → Bool → List Event → ℕ → EventQueue → EventQueue
unfolding num_to_write is_kept
post_events_to_message_queue limit available takes events num_wakeup_events q =
    let n = num_to_write available takes events q.pending in
    let size = q.size_pending + (length events - n) in
    let handed = q.handed ++ offer true (take n events) in
    if is_kept limit n events q
    then record q {
      pending = q.pending ++ ((drop n events, num_wakeup_events) ∷ []);
      size_pending = size;
      most_observed = max q.most_observed size;
      handed = handed;
    }
    else record q { handed = handed }

-- A round of `handlePendingWrites` up to `lock.unlock()`; it waits while nothing is pending.
begin_write : ℕ → List (List Event × ℕ) → EventQueue → EventQueue
begin_write quantum [] q = q
begin_write quantum (p ∷ ps) q = record q { writer = writing quantum }

-- `writeBlocking`, with its answer.
write_front : Bool → ℕ → List (List Event × ℕ) → EventQueue → EventQueue
write_front takes quantum [] q = q
write_front takes quantum ((events, n) ∷ ps) q = record q {
  writer = wrote quantum;
  handed = q.handed ++ offer takes (take (min (length events) quantum) events);
}

-- From `lock.lock()` on.
end_write : ℕ → List (List Event × ℕ) → EventQueue → EventQueue
end_write quantum [] q = q
end_write quantum ((events, n) ∷ ps) q = record q {
  writer = idle;
  size_pending = q.size_pending - min (length events) quantum;
  pending = if ltb quantum (length events) then (drop quantum events, n) ∷ ps else ps;
}

step_writer : ℕ → Bool → Writer → EventQueue → EventQueue
unfolding begin_write write_front end_write
step_writer quantum takes idle q = begin_write quantum q.pending q
step_writer quantum takes (writing size) q = write_front takes size q.pending q
step_writer quantum takes (wrote size) q = end_write size q.pending q

-- The next step of the thread; `quantum` is read at the start of a round, `takes` at the write.
unfoldable pub handle_pending_writes : ℕ → Bool → EventQueue → EventQueue
unfolding step_writer
handle_pending_writes quantum takes q = step_writer quantum takes q.writer q

-- The calls of the two threads, in the order in which they get the mutex.
pub data Call : Type 0 where
  post : ℕ → Bool → List Event → ℕ → Call
  advance : ℕ → Bool → Call

unfoldable pub step : ℕ → Call → EventQueue → EventQueue
unfolding post_events_to_message_queue handle_pending_writes
step limit (post available takes events num_wakeup_events) q =
    post_events_to_message_queue limit available takes events num_wakeup_events q
step limit (advance quantum takes) q = handle_pending_writes quantum takes q

unfoldable pub run : ℕ → List Call → EventQueue → EventQueue
unfolding step
run limit [] q = q
run limit (c ∷ cs) q = run limit cs (step limit c q)
