-- ===== src/Sensors/Stop.antt =====
-- The loops of the two threads and `stopThreads`, sensors/HalProxy.cpp, as they interleave: where
-- each loop stands between two accesses to `mThreadsRun` or to its condition variable. A thread
-- holds its mutex but while it sleeps and in the middle of its body; `stopThreads` takes no mutex,
-- so its calls come between any two moves. The calls that block in a body have a time limit.
pub mod Walk
pub mod Laws
use device_xiaomi_camellia.Base.{
  ℕ, Bool, true, false, not, ◌&&◌, ◌||◌, List, [], ◌∷◌, if◌then◌else◌,
}

-- `wait` evaluates its predicate, and unless that holds it sleeps and starts again.
pub data Place : Type 0 where
  at_loop at_wait : Place
  falls_asleep : Place  -- the predicate did not hold, and the thread does not sleep yet
  asleep : Place
  after_wait in_body : Place
  ended : Place

-- What comes next in the loop; `has_work` is what the predicate finds besides `mThreadsRun`.
unfoldable pub advance : Bool → Bool → Place → Place
advance threads_run has_work at_loop = if threads_run then at_wait else ended
advance threads_run has_work at_wait =
    if has_work || not threads_run then after_wait else falls_asleep
advance threads_run has_work falls_asleep = asleep
advance threads_run has_work asleep = asleep
advance threads_run has_work after_wait = if threads_run then in_body else at_loop
advance threads_run has_work in_body = at_loop
advance threads_run has_work ended = ended

-- A notification reaches a thread only in its sleep.
unfoldable pub wake : Place → Place
wake asleep = at_wait
wake at_loop = at_loop
wake at_wait = at_wait
wake falls_asleep = falls_asleep
wake after_wait = after_wait
wake in_body = in_body
wake ended = ended

-- A thread goes on, or it is woken by a post or for no reason.
pub data Move : Type 0 where
  goes_on : Bool → Move
  is_woken : Move

unfoldable pub move : Bool → Move → Place → Place
unfolding advance wake
move threads_run (goes_on has_work) place = advance threads_run has_work place
move threads_run is_woken place = wake place

pub data Thread : Type 0 where
  pending_writes_thread wakelock_thread : Thread

pub record Threads : Type 0 where
  pub threads_run : Bool
  pub pending_writes : Place
  pub wakelock : Place

unfoldable pub at : Thread → (Place → Place) → Threads → Threads
at pending_writes_thread f s = record s { pending_writes = f s.pending_writes }
at wakelock_thread f s = record s { wakelock = f s.wakelock }

unfoldable pub moves : List (Thread × Move) → Threads → Threads
unfolding at move
moves [] s = s
moves ((thread, m) ∷ ms) s = moves ms (at thread (move s.threads_run m) s)

unfoldable pub notify_one : Thread → Threads → Threads
unfolding at wake
notify_one thread s = at thread wake s

-- `stopThreads` up to its calls of `join`, with what the threads do before it, between its store
-- and its two notifications, and after those.
unfoldable pub stop_calls : (before between amid after : List (Thread × Move)) → Threads → Threads
unfolding moves notify_one
stop_calls before between amid after s =
    let stored = record (moves before s) { threads_run = false } in
    let notified = notify_one wakelock_thread (moves between stored) in
    moves after (notify_one pending_writes_thread (moves amid notified))

unfoldable pub is_ended : Place → Bool
is_ended ended = true
is_ended _ = false

-- Whether both calls of `join` return.
unfoldable pub joins : Threads → Bool
unfolding is_ended
joins s = is_ended s.pending_writes && is_ended s.wakelock
