-- ===== src/Sensors/Callback/Laws.antt =====
-- The filter of the callback against a description without a loop.
use device_xiaomi_camellia.Base.{
  ℕ, suc, ◌+◌, ◌≡◌, refl, true, false, some, List, [], ◌∷◌, ◌++◌, append_assoc, append-nil, arith,
  All, if◌then◌else◌, ◌≤◌, length,
}
use device_xiaomi_camellia.Sensors.Platform.{Platform, SensorInfo, Event}
use device_xiaomi_camellia.Sensors.Callback.{
  mark, is_skipped, wakes_up, process_loop, process_events, post_events,
}

module _ (p : Platform) (info : ℕ → SensorInfo) (sub_hal : ℕ) where
  unfoldable pub survivors : List Event → List Event
  survivors [] = []
  survivors (event ∷ events) =
      let rest = survivors events in
      let marked = mark p info sub_hal event in
      if is_skipped p info sub_hal marked then rest else marked ∷ rest

  unfoldable pub count_wakeups : List Event → ℕ
  count_wakeups [] = 0
  count_wakeups (event ∷ events) =
      if wakes_up p info sub_hal event then suc (count_wakeups events) else count_wakeups events

  process_loop_lem :
      (events out : List Event) (n : ℕ)
      → process_loop p info sub_hal events out n
        ≡ (out ++ survivors events, n + count_wakeups (survivors events))
  unfolding process_loop survivors count_wakeups
  process_loop_lem [] out n = ground (arith, append-nil out)
  process_loop_lem (event ∷ events) out n =
      let marked = mark p info sub_hal event in
      ground (
        arith,
        process_loop_lem events out n,
        process_loop_lem events (out ++ marked ∷ []) n,
        process_loop_lem events (out ++ marked ∷ []) (n + 1),
        append_assoc out (marked ∷ []) (survivors events),
      )

  -- The proxy is handed the events in their order, marked with the sub-HAL's index, without the
  -- pick-up gestures whose value is not 1, and the number of those handed over that wake up.
  pub process_events_lem :
      (events : List Event)
      → process_events p info sub_hal events ≡ (survivors events, count_wakeups (survivors events))
  unfolding process_events
  process_events_lem events = ground (arith, process_loop_lem events [] 0)

  pub count_wakeups-length :
      (events : List Event) → count_wakeups (survivors events) ≤ length events
  unfolding count_wakeups survivors
  count_wakeups-length [] = omega arith
  count_wakeups-length (event ∷ events) = ground (arith, count_wakeups-length events)

  pub survivors-length : (events : List Event) → length (survivors events) ≤ length events
  unfolding survivors
  survivors-length [] = omega arith
  survivors-length (event ∷ events) = ground (arith, survivors-length events)

  survivors_none :
      (events : List Event)
      → All (λ e. is_skipped p info sub_hal (mark p info sub_hal e) ≡ true) events
      → survivors events ≡ []
  unfolding survivors
  survivors_none [] h = refl
  survivors_none (event ∷ events) h = ground (arith, survivors_none events h.1)

  -- A sub-HAL that takes the wake lock, as it must for wake-up events, and posts only pick-up
  -- gestures whose value is not 1 runs into the assertion that no wake lock is held: the filter
  -- has taken the wake-up events away before they are counted.
  pub post_events_assertion :
      (event : Event) (events : List Event)
      → All (λ e. is_skipped p info sub_hal (mark p info sub_hal e) ≡ true) (event ∷ events)
      → post_events p info sub_hal true (event ∷ events) true
        ≡ some (record { events = []; num_wakeup_events = 0; assertion_holds = false })
  unfolding post_events count_wakeups
  post_events_assertion event events skipped =
      rw (process_events_lem (event ∷ events), survivors_none (event ∷ events) skipped, post_events)
