-- ===== src/Sensors/Callback.antt =====
-- sensors/HalProxyCallback.cpp: how events of a sub-HAL are marked, filtered and counted.
-- `getSensorInfo`, which stands in a header of the platform, is the parameter `info`.
pub mod Laws
pub mod Listed
use device_xiaomi_camellia.Base.{
  ℕ, suc, ◌+◌, bit_and, Bool, true, false, not, ◌&&◌, ◌||◌, Option, none, some, List, [], ◌∷◌, ◌==◌,
  ltb, if◌then◌else◌, ◌++◌,
}
use device_xiaomi_camellia.Sensors.Platform.{Platform, SensorInfo, Event, float_one}
use device_xiaomi_camellia.Sensors.Handle.{set_sub_hal_index}

module _ (p : Platform) (info : ℕ → SensorInfo) (sub_hal : ℕ) where
  abbrev pub mark : Event → Event
  mark event = record event { sensor_handle = set_sub_hal_index event.sensor_handle sub_hal }

  -- A pick-up gesture counts only with the value 1.
  abbrev pub is_skipped : Event → Bool
  is_skipped event =
      (info event.sensor_handle).sensor_type == p.pick_up_gesture && not (event.scalar == float_one)

  abbrev pub wakes_up : Event → Bool
  wakes_up event = not (bit_and (info event.sensor_handle).flags p.wake_up == 0)

  -- The loop, with the events and the number of wake-up events so far.
  process_loop : List Event → List Event → ℕ → List Event × ℕ
  process_loop [] events_out num_wakeup_events = (events_out, num_wakeup_events)
  process_loop (event ∷ events) events_out num_wakeup_events =
      let marked = mark event in
      elim (is_skipped marked) [
        | true ↦ process_loop events events_out num_wakeup_events
        | false ↦
            process_loop events (events_out ++ marked ∷ [])
              (if wakes_up marked then num_wakeup_events + 1 else num_wakeup_events)
      ]

  unfoldable pub process_events : List Event → List Event × ℕ
  unfolding process_loop
  process_events events = process_loop events [] 0

  -- What a post hands to the proxy, and whether the assertion about the wake lock holds.
  pub record Posted : Type 0 where
    pub events : List Event
    pub num_wakeup_events : ℕ
    pub assertion_holds : Bool

  -- `none` where the call returns at once.
  unfoldable pub post_events : Bool → List Event → Bool → Option Posted
  unfolding process_events
  post_events threads_running [] locked = none
  post_events false (event ∷ events) locked = none
  post_events true (event ∷ events) locked =
      let (processed, count) = process_events (event ∷ events) in
      some (record {
        events = processed;
        num_wakeup_events = count;
        assertion_holds = if ltb 0 count then locked else not locked;
      })
