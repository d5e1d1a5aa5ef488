-- ===== src/Sensors/Callback/Listed.antt =====
-- The events of a sensor that a sub-HAL lists, through the table and the callback.
use device_xiaomi_camellia.Base.{
  ℕ, ◌≤◌, ◌≡◌, ◌≢◌, refl, bit_and, Bool, true, not, ◌&&◌, some, List, [], ◌∷◌, ◌++◌, arith,
  get_elem?, ◌==◌, if◌then◌else◌, All, length,
}
use device_xiaomi_camellia.Base.Dict.{find}
use native.Mathlib.Decide.{ℕ_discrete}
use device_xiaomi_camellia.Sensors.Platform.{Platform, IsDocumented, SensorInfo, Event, float_one}
use device_xiaomi_camellia.Sensors.Handle.{set_sub_hal_index, sub_hal_index_is_clear}
use device_xiaomi_camellia.Sensors.SensorList.{initialize_sensor_list}
use device_xiaomi_camellia.Sensors.SensorList.Complete.{is_wanted}
use device_xiaomi_camellia.Sensors.SensorList.Apart.{HasInt32Handle}
use device_xiaomi_camellia.Sensors.SensorList.Entry.{
  known_type, IsEntryOf, find-initialize_sensor_list,
}
use device_xiaomi_camellia.Sensors.Callback.{process_events}
use device_xiaomi_camellia.Sensors.Callback.Laws.{survivors, count_wakeups, process_events_lem}

module _ (p : Platform) (i : ℕ) (s : SensorInfo) where
  -- A gesture counts only with the value 1.
  abbrev pub passes : Event → Bool
  passes e = not (known_type p s == p.pick_up_gesture && not (e.scalar == float_one))

  abbrev pub wakes : Bool
  wakes = not (bit_and s.flags p.wake_up == 0)

  -- The events that pass, each under the handle by which the framework knows the sensor.
  unfoldable pub as_listed : List Event → List Event
  as_listed [] = []
  as_listed (e ∷ es) =
      let rest = as_listed es in
      if passes e
      then record e { sensor_handle = set_sub_hal_index s.sensor_handle i } ∷ rest
      else rest

  module _ (info : ℕ → SensorInfo)
      (known : IsEntryOf p i s (info (set_sub_hal_index s.sensor_handle i))) where
    survivors-as_listed :
        (events : List Event)
        → All (λ e. e.sensor_handle ≡ s.sensor_handle) events
        → survivors p info i events ≡ as_listed events
    unfolding survivors as_listed
    survivors-as_listed [] h = refl
    survivors-as_listed (e ∷ es) (same, h) =
        rw (same) (ground (arith, known.kind, survivors-as_listed es h))

    count_wakeups-as_listed :
        (events : List Event)
        → count_wakeups p info i (as_listed events)
          ≡ (if wakes then length (as_listed events) else 0)
    unfolding count_wakeups as_listed
    count_wakeups-as_listed [] = ground arith
    count_wakeups-as_listed (e ∷ es) = ground (arith, known.wakes, count_wakeups-as_listed es)

-- With at most 256 sub-HALs whose handles are `int32_t`: let a sub-HAL list a sensor with a clear
-- first byte, as the last one of its handle, that is no pick-up sensor which does not wake the
-- device up. Where the proxy looks a sensor up in its table, the events that the sub-HAL posts with
-- the sensor's own handle are handed on in their order, under the handle by which the table knows
-- the sensor, without the gestures whose value is not 1, and each counts as a wake-up event exactly
-- if the sub-HAL lists the sensor as waking up, whatever else is listed.
pub process_events-initialize_sensor_list :
    (p : Platform) (doc : IsDocumented p) (info : ℕ → SensorInfo) (i : ℕ)
    (lists : List (List SensorInfo)) (before : List SensorInfo) (s : SensorInfo)
    (after : List SensorInfo) (events : List Event)
    → length lists ≤ 256
    → All (λ list. All HasInt32Handle list) lists
    → get_elem? lists i ≡ some (before ++ s ∷ after)
    → sub_hal_index_is_clear p.sub_hal_index_mask s.sensor_handle ≡ true
    → is_wanted p s ≡ true
    → All (λ other. other.sensor_handle ≢ s.sensor_handle) after
    → ((handle : ℕ) (x : SensorInfo)
        → find ℕ_discrete handle (initialize_sensor_list p lists).sensors ≡ some x
        → info handle ≡ x)
    → All (λ e. e.sensor_handle ≡ s.sensor_handle) events
    → let out = as_listed p i s events in
      process_events p info i events ≡ (out, if wakes p i s then length out else 0)
process_events-initialize_sensor_list p doc info i lists before s after events few fit listed clear
      wanted last looks_up own =
    let (x, found, entry) =
      find-initialize_sensor_list p doc i lists before s after few fit listed clear wanted last in
    let known : IsEntryOf p i s (info (set_sub_hal_index s.sensor_handle i)) =
      rw (looks_up (set_sub_hal_index s.sensor_handle i) x found) entry in
    let same = survivors-as_listed p i s info known events own in
    rw (process_events_lem p info i events, same, count_wakeups-as_listed p i s info known events)
      refl
