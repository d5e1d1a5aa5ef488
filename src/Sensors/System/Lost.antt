-- ===== src/Sensors/System/Lost.antt =====
-- A post between the two lines of `initializeCommon` that clear the queue of pending events and its
-- counter, sensors/HalProxy.cpp.
use device_xiaomi_camellia.Base.{
  ℕ, ◌+◌, ◌-◌, ◌≤◌, ◌<◌, ◌≡◌, Bool, true, [], List, arith, length, length-drop,
}
use device_xiaomi_camellia.Sensors.Platform.{Platform, Event}
use device_xiaomi_camellia.Sensors.EventQueue.{num_to_write, is_kept, post_events_to_message_queue}
use device_xiaomi_camellia.Sensors.EventQueue.Invariant.{total}
use device_xiaomi_camellia.Sensors.Wakelock.{increment_ref_count_and_maybe_acquire_wakelock}
use device_xiaomi_camellia.Sensors.Proxy.{SubHals, HalProxy, post_events}
use device_xiaomi_camellia.Sensors.Initialize.{Handover, halt, clear_pending, clear_size, restart}

-- What a post leaves for the pending writes thread, if nothing is pending.
abbrev pub rest_of : ℕ → Bool → List Event → ℕ
rest_of available takes events = length events - num_to_write available takes events []

module _ {W : Type 0} (p : Platform) (S : SubHals W) where
  -- An initialization in which a post goes on between the two lines.
  unfoldable pub initialize_around :
      (HalProxy → HalProxy) → ℕ → ℕ → Handover → HalProxy → W → HalProxy
  unfolding halt clear_pending clear_size restart
  initialize_around post ended now h proxy w =
      let (stopped, w') = halt p S ended now proxy w in
      (restart p S h (clear_size (post (clear_pending stopped))) w').1

  -- Let a post that has passed its test of `mThreadsRun` before an initialization go on between
  -- the two lines that clear the queue of pending events and its counter, and let its rest find
  -- room next to the old number of pending events. Then the rest stays pending after the
  -- initialization, but is not counted, and its wake-up events take no references.
  pub initialize_around-post_events :
      (ended now time n available : ℕ) (locked takes : Bool) (events : List Event) (h : Handover)
      (proxy : HalProxy) (w : W)
      → 0 < rest_of available takes events
      → proxy.queue.size_pending + rest_of available takes events
        ≤ p.max_size_pending_write_events_queue
      → let proxy' =
          initialize_around
            (post_events p time locked available takes events n)
            ended
            now
            h
            proxy
            w in
        (total proxy'.queue.pending ≡ rest_of available takes events)
        × (proxy'.queue.size_pending ≡ 0)
        × (proxy'.wakelock.ref_count ≡ proxy.wakelock.ref_count)
        × (proxy'.wakelock.threads_run ≡ true)
  unfolding initialize_around post_events post_events_to_message_queue is_kept halt clear_pending
      total increment_ref_count_and_maybe_acquire_wakelock
  initialize_around-post_events ended now time n available locked takes events h proxy w left room =
      ground (arith, left, room, length-drop (num_to_write available takes events []) events)
