-- ===== src/Usb/Port/Work/Signal.antt =====
-- How the signal of `setCallback` meets the loop of the worker thread, usb/Usb.cpp: where the loop
-- stands between two accesses to `destroyThread` or to the descriptor.
use device_xiaomi_camellia.Base.{Bool, true, false, List, [], ◌∷◌, if◌then◌else◌}

pub data Place : Type 0 where
  at_loop : Place
  before_wait : Place  -- `destroyThread` was tested, and `epoll_wait` is not called yet
  in_wait : Place
  in_events : Place
  ended : Place

-- What comes next in the loop; `has_event` is whether the socket has an event. The wait has no
-- time limit.
unfoldable pub advance : Bool → Bool → Place → Place
advance destroy_thread has_event at_loop = if destroy_thread then ended else before_wait
advance destroy_thread has_event before_wait = in_wait
advance destroy_thread has_event in_wait = if has_event then in_events else in_wait
advance destroy_thread has_event in_events = at_loop
advance destroy_thread has_event ended = ended

unfoldable pub walk : Bool → List Bool → Place → Place
unfolding advance
walk destroy_thread [] place = place
walk destroy_thread (has_event ∷ moves) place =
    walk destroy_thread moves (advance destroy_thread has_event place)

-- The handler runs wherever the thread is, and ends a wait with EINTR.
unfoldable pub interrupt : Place → Place
interrupt in_wait = at_loop
interrupt at_loop = at_loop
interrupt before_wait = before_wait
interrupt in_events = in_events
interrupt ended = ended

-- `pthread_kill`, with the moves of the thread before it and during `pthread_join`.
unfoldable pub kill_and_join : List Bool → List Bool → Place → Place
unfolding walk interrupt
kill_and_join before after place = walk true after (interrupt (walk false before place))

-- Whether `pthread_join` returns.
unfoldable pub is_ended : Place → Bool
is_ended ended = true
is_ended _ = false

unfoldable pub is_before_wait : Place → Bool
is_before_wait before_wait = true
is_before_wait _ = false
