-- ===== src/Sensors/System/Sums.antt =====
-- How many wake-up events are on their way, and what each step of the queue does to their number.
use device_xiaomi_camellia.Base.{
  ℕ, suc, zero, ◌+◌, ◌≤◌, ◌≡◌, refl, inl, inr, Bool, List, [], ◌∷◌, ◌++◌, arith, take, ap,
}
use device_xiaomi_camellia.Sensors.Platform.{Platform, SensorInfo, Event}
use device_xiaomi_camellia.Sensors.EventQueue.{
  EventQueue, Call, post, advance, step, num_to_write, post_events_to_message_queue,
}
use device_xiaomi_camellia.Sensors.EventQueue.Order.{
  HasFront, step-order, step-offered, offered, undelivered, accepted,
}
use device_xiaomi_camellia.Sensors.Callback.Laws.{count_wakeups}
use device_xiaomi_camellia.Sensors.Proxy.{HalProxy, post_events}
use device_xiaomi_camellia.Sensors.System.{wakeups, next_write}
use device_xiaomi_camellia.Sensors.System.Preserved.{next_write-cases}

module _ (p : Platform) (info : ℕ → SensorInfo) where
  pub wakeups-append :
      (es fs : List Event) → wakeups p info (es ++ fs) ≡ wakeups p info es + wakeups p info fs
  unfolding wakeups
  wakeups-append [] fs = omega arith
  wakeups-append (e ∷ es) fs = ground (arith, wakeups-append es fs)

  pub wakeups-take : (n : ℕ) (es : List Event) → wakeups p info (take n es) ≤ wakeups p info es
  unfolding wakeups
  wakeups-take zero es = omega arith
  wakeups-take (suc n) [] = omega arith
  wakeups-take (suc n) (e ∷ es) = ground (arith, wakeups-take n es)

  -- The callback counts the same, whichever sub-HAL it belongs to.
  pub count_wakeups-wakeups :
      (sub_hal : ℕ) (es : List Event) → count_wakeups p info sub_hal es ≡ wakeups p info es
  unfolding wakeups count_wakeups
  count_wakeups-wakeups sub_hal [] = refl
  count_wakeups-wakeups sub_hal (e ∷ es) = ground (arith, count_wakeups-wakeups sub_hal es)

  -- The wake-up events that were offered to the framework, and those on their way to it.
  unfoldable pub given : EventQueue → ℕ
  given q = wakeups p info (offered q)

  unfoldable pub on_the_way : EventQueue → ℕ
  on_the_way q = wakeups p info (undelivered q)

  accepted_few :
      (limit available : ℕ) (takes : Bool) (events : List Event) (n : ℕ) (q : EventQueue)
      → wakeups p info (accepted limit (post available takes events n) q) ≤ wakeups p info events
  unfolding accepted
  accepted_few limit available takes events n q =
      ground (arith, wakeups-take (num_to_write available takes events q.pending) events)

  pub step-given : (limit : ℕ) (c : Call) (q : EventQueue) → given q ≤ given (step limit c q)
  unfolding given
  step-given limit c q =
      let (more, e) = step-offered limit c q in
      rw (e) (omega (arith, wakeups-append (offered q) more))

  -- A step adds what it accepts.
  pub step_sum :
      (limit : ℕ) (c : Call) (q : EventQueue)
      → HasFront q
      → given (step limit c q) + on_the_way (step limit c q)
        ≡ given q + on_the_way q + wakeups p info (accepted limit c q)
  unfolding given on_the_way
  step_sum limit c q h =
      let after = wakeups-append (offered (step limit c q)) (undelivered (step limit c q)) in
      let both = wakeups-append (offered q ++ undelivered q) (accepted limit c q) in
      let before = wakeups-append (offered q) (undelivered q) in
      let same = ap (wakeups p info) (step-order limit c q h) in
      omega (arith, after, both, before, same)

  pub post_sum :
      (now : ℕ) (locked : Bool) (available : ℕ) (takes : Bool) (events : List Event) (n : ℕ)
      (proxy : HalProxy)
      → HasFront proxy.queue
      → let proxy' = post_events p now locked available takes events n proxy in
        (given proxy'.queue + on_the_way proxy'.queue
          ≤ given proxy.queue + on_the_way proxy.queue + wakeups p info events)
        × (given proxy.queue ≤ given proxy'.queue)
  unfolding post_events post_events_to_message_queue step
  post_sum now locked available takes events n proxy h =
      let limit = p.max_size_pending_write_events_queue in
      let c = post available takes events n in
      let sum = step_sum limit c proxy.queue h in
      let few = accepted_few limit available takes events n proxy.queue in
      (omega (arith, sum, few), step-given limit c proxy.queue)

  pub next_write_sum :
      (runs : Bool) (quantum : ℕ) (takes : Bool) (q : EventQueue)
      → HasFront q
      → let q' = next_write p runs quantum takes q q.writer in
        (given q' + on_the_way q' ≡ given q + on_the_way q) × (given q ≤ given q')
  unfolding wakeups accepted
  next_write_sum runs quantum takes q h =
      let limit = p.max_size_pending_write_events_queue in
      let c = advance quantum takes in
      elim (next_write-cases p runs quantum takes q) [
        | inl e ↦ rw (e) (refl, omega arith)
        | inr e ↦ rw (e) (omega (arith, step_sum limit c q h), step-given limit c q)
      ]
