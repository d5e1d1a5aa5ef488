-- ===== src/Sensors/System/Preserved.antt =====
-- What the components promise of the proxy together, and that the writes and the posts keep it.
use device_xiaomi_camellia.Base.{
  ℕ, ltb, not, if◌then◌else◌, ◌+◌, ◌<◌, ◌^◌, ◌≡◌, ◌⊎◌, inl, inr, Bool, true, false, Option, none,
  some, List, [], ◌∷◌, arith, length, Bool-cases, Option-cases,
}
use device_xiaomi_camellia.Sensors.Platform.{Platform, SensorInfo, Event}
use device_xiaomi_camellia.Sensors.Wakelock.{
  Wakelock, increment, decrement, step as step_wakelock,
  decrement_ref_count_and_maybe_release_wakelock,
}
use device_xiaomi_camellia.Sensors.Wakelock.Laws.{Agrees, step-Agrees}
use device_xiaomi_camellia.Sensors.EventQueue.{
  EventQueue, post, advance, step, post_events_to_message_queue,
}
use device_xiaomi_camellia.Sensors.EventQueue.Invariant.{IsCounted, step-IsCounted}
use device_xiaomi_camellia.Sensors.EventQueue.Order.{HasFront, step-HasFront}
use device_xiaomi_camellia.Sensors.Callback.{Posted, post_events as callback_post_events}
use device_xiaomi_camellia.Sensors.Callback.Laws.{
  process_events_lem, count_wakeups, survivors, count_wakeups-length,
}
use device_xiaomi_camellia.Sensors.Proxy.{HalProxy, post_events}
use device_xiaomi_camellia.Sensors.Dynamic.Laws.{IsKeyed}
use device_xiaomi_camellia.Sensors.System.{
  give, next_write, step_pending_writes, post_from_sub_hal, Asserts,
}

module _ (p : Platform) where
  -- The kernel's lock agrees with the count of references, the counters of the queue are exact and
  -- bounded, the pending writes thread is in a round only while there is something to write, and each
  -- dynamic sensor stands under its own handle.
  pub record IsConsistent (proxy : HalProxy) : Type 0 where
    pub agrees : Agrees proxy.wakelock
    pub counted : IsCounted p.max_size_pending_write_events_queue proxy.queue
    pub fronted : HasFront proxy.queue
    pub keyed : IsKeyed proxy.dynamic_sensors

  give-Agrees : (amount : Option ℕ) (w : Wakelock) → Agrees w → Agrees (give p amount w)
  unfolding give decrement_ref_count_and_maybe_release_wakelock step_wakelock
  give-Agrees none w h = h
  give-Agrees (some n) w h = step-Agrees p.wakelock_timeout_ns (decrement n none) w tt h

  -- The queue after a step of the thread: the thread ended, or its step was taken.
  pub next_write-cases :
      (runs : Bool) (quantum : ℕ) (takes : Bool) (q : EventQueue)
      → (next_write p runs quantum takes q q.writer ≡ q)
        ⊎ (next_write p runs quantum takes q q.writer
            ≡ step p.max_size_pending_write_events_queue (advance quantum takes) q)
  unfolding next_write step
  next_write-cases runs quantum takes q = ground arith

  pub step_pending_writes-IsConsistent :
      (quantum : ℕ) (takes : Bool) (proxy : HalProxy)
      → IsConsistent proxy
      → IsConsistent (step_pending_writes p quantum takes proxy)
  unfolding step_pending_writes
  step_pending_writes-IsConsistent quantum takes proxy h =
      let limit = p.max_size_pending_write_events_queue in
      record {
        agrees = give-Agrees _ proxy.wakelock h.agrees;
        counted = elim (next_write-cases proxy.wakelock.threads_run quantum takes proxy.queue) [
          | inl e ↦ rw (e) h.counted
          | inr e ↦ rw (e) (step-IsCounted limit (advance quantum takes) proxy.queue h.counted)
        ];
        fronted = elim (next_write-cases proxy.wakelock.threads_run quantum takes proxy.queue) [
          | inl e ↦ rw (e) h.fronted
          | inr e ↦ rw (e) (step-HasFront limit (advance quantum takes) proxy.queue h.fronted)
        ];
        keyed = h.keyed;
      }

  -- What the callback hands on after its assertion.
  pub record IsPosted (info : ℕ → SensorInfo) (sub_hal : ℕ) (runs locked : Bool)
      (events : List Event) (posted : Posted p info sub_hal) : Type 0 where
    pub running : runs ≡ true
    pub handed : posted.events ≡ survivors p info sub_hal events
    pub counted : posted.num_wakeup_events ≡ count_wakeups p info sub_hal posted.events
    pub asserted :
        posted.assertion_holds ≡ (if ltb 0 posted.num_wakeup_events then locked else not locked)

  pub callback_post_events-IsPosted :
      (info : ℕ → SensorInfo) (sub_hal : ℕ) (runs locked : Bool) (events : List Event)
      (posted : Posted p info sub_hal)
      → callback_post_events p info sub_hal runs events locked ≡ some posted
      → IsPosted info sub_hal runs locked events posted
  unfolding callback_post_events
  callback_post_events-IsPosted info sub_hal runs locked [] posted e = cc
  callback_post_events-IsPosted info sub_hal false locked (event ∷ events) posted e = cc
  callback_post_events-IsPosted info sub_hal true locked (event ∷ events) posted e =
      ground (arith, process_events_lem p info sub_hal (event ∷ events))

  pub post_events-IsConsistent :
      (now : ℕ) (locked : Bool) (available : ℕ) (takes : Bool) (events : List Event) (n : ℕ)
      (proxy : HalProxy)
      → (locked ≡ true → 0 < n)
      → proxy.wakelock.ref_count + n < 2 ^ 64
      → IsConsistent proxy
      → IsConsistent (post_events p now locked available takes events n proxy)
  unfolding post_events post_events_to_message_queue step step_wakelock
  post_events-IsConsistent now locked available takes events n proxy some_wakeup room h =
      let limit = p.max_size_pending_write_events_queue in
      let c = post available takes events n in
      record {
        agrees = elim (Bool-cases locked) [
          | inl e ↦
              rw (e) (step-Agrees 0 (increment now n) proxy.wakelock (some_wakeup e, room) h.agrees)
          | inr e ↦ rw (e) h.agrees
        ];
        counted = step-IsCounted limit c proxy.queue h.counted;
        fronted = step-HasFront limit c proxy.queue h.fronted;
        keyed = h.keyed;
      }

  pub post_from_sub_hal-IsConsistent :
      (info : ℕ → SensorInfo) (sub_hal now : ℕ) (locked : Bool) (available : ℕ) (takes : Bool)
      (events : List Event) (proxy : HalProxy)
      → Asserts p info sub_hal locked events proxy
      → proxy.wakelock.ref_count + length events < 2 ^ 64
      → IsConsistent proxy
      → IsConsistent (post_from_sub_hal p info sub_hal now locked available takes events proxy)
  unfolding post_from_sub_hal
  post_from_sub_hal-IsConsistent info sub_hal now locked available takes events proxy asserts room
        h =
      elim (Option-cases posting) [
        | inl e ↦ rw (e, post_from_sub_hal) h
        | inr (posted, e) ↦
            let is = callback_post_events-IsPosted info sub_hal _ locked events posted e in
            let few = count_wakeups-length p info sub_hal events in
            rw (e, post_from_sub_hal)
              (post_events-IsConsistent now locked available takes posted.events
                posted.num_wakeup_events proxy
                (λ l. ground (arith, asserts posted e, is.asserted, l))
                (ground (arith, is.counted, is.handed)) h)
      ]
    where
      posting : Option (Posted p info sub_hal)
      posting = callback_post_events p info sub_hal proxy.wakelock.threads_run events locked
