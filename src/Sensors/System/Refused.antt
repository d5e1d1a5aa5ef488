-- ===== src/Sensors/System/Refused.antt =====
-- What is given back when the message queue refuses the rest of a post.
use device_xiaomi_camellia.Base.{
  ℕ, ◌+◌, ◌-◌, ◌≤◌, ◌<◌, ◌^◌, ◌≡◌, true, false, List, [], ◌++◌, arith, length, take, drop,
  length-drop, append_assoc,
}
use device_xiaomi_camellia.Sensors.Platform.{Platform, Event}
use device_xiaomi_camellia.Sensors.Wakelock.{
  increment_ref_count_and_maybe_acquire_wakelock, decrement_ref_count_and_maybe_release_wakelock,
}
use device_xiaomi_camellia.Sensors.EventQueue.{
  idle, offer, post_events_to_message_queue, handle_pending_writes, num_to_write, is_kept,
}
use device_xiaomi_camellia.Sensors.EventQueue.Order.{take_min}
use device_xiaomi_camellia.Sensors.EventQueue.Dropped.{give_back}
use device_xiaomi_camellia.Sensors.Proxy.{HalProxy, post_events}
use device_xiaomi_camellia.Sensors.System.{returned, give, next_write, step_pending_writes}

module _ (p : Platform) where
  -- While the threads run and nothing is pending, let the message queue take only the first events
  -- of a post with wake-up events, whose rest has room in the pending queue and fits one write,
  -- and then refuse the rest: all references that the post took are given back, those for the
  -- events that the framework did get and has not processed included.
  pub post_refused :
      (now available n quantum : ℕ) (events : List Event) (proxy : HalProxy)
      → proxy.wakelock.threads_run ≡ true
      → proxy.queue.pending ≡ []
      → proxy.queue.writer ≡ idle
      → 0 < n
      → proxy.wakelock.ref_count + n < 2 ^ 64
      → available < length events
      → proxy.queue.size_pending + (length events - available)
        ≤ p.max_size_pending_write_events_queue
      → length events - available ≤ quantum
      → let posted = post_events p now true available true events n proxy in
        let begun = step_pending_writes p quantum true posted in
        let refused = step_pending_writes p quantum false begun in
        (refused.wakelock.ref_count ≡ proxy.wakelock.ref_count)
        × (refused.queue.handed
            ≡ proxy.queue.handed
              ++ offer true (take available events)
              ++ offer false (drop available events))
  unfolding post_events post_events_to_message_queue step_pending_writes returned give next_write
      num_to_write is_kept handle_pending_writes give_back
      increment_ref_count_and_maybe_acquire_wakelock decrement_ref_count_and_maybe_release_wakelock
  post_refused now available n quantum events proxy runs empty still some_wakeup room fewer kept
        fits =
      ground (
        arith,
        length-drop available events,
        append_assoc proxy.queue.handed (offer true (take available events))
            (offer false (drop available events)),
        take_min (length (drop available events)) (drop available events) (omega arith),
      )
