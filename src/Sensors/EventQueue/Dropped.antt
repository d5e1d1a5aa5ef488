-- ===== src/Sensors/EventQueue/Dropped.antt =====
-- What the pending writes thread does when the message queue does not take its events,
-- sensors/HalProxy.cpp: it gives back wake locks. The map of sensors is read with `mSensors[handle]`,
-- which inserts an empty sensor for a handle that is not in the map.
pub mod Laws
use device_xiaomi_camellia.Base.{
  ℕ, suc, ◌+◌, bit_and, Bool, true, false, Option, none, some, List, [], ◌∷◌, length, take, ltb,
  ◌==◌, if◌then◌else◌,
}
use device_xiaomi_camellia.Base.Dict.{find, insert}
use native.Mathlib.Decide.{ℕ_discrete}
use device_xiaomi_camellia.Sensors.Platform.{Platform, SensorInfo, Event}

abbrev pub Sensors : Type 0
Sensors = List (ℕ × SensorInfo)

-- A `SensorInfo` of zeros.
abbrev pub empty_sensor : SensorInfo
empty_sensor = record {
  sensor_handle = 0;
  name = "";
  type_as_string = "";
  sensor_type = 0;
  max_range = 0;
  flags = 0;
}

-- `mSensors[handle]`: the sensor, and the map after the access.
unfoldable pub at_handle : ℕ → Sensors → SensorInfo × Sensors
at_handle handle sensors = elim (find ℕ_discrete handle sensors) [
  | some sensor ↦ (sensor, sensors)
  | none ↦ (empty_sensor, insert ℕ_discrete handle empty_sensor sensors)
]

module _ (p : Platform) where
  -- The loop, over the first events of a list.
  unfoldable pub count_loop : List Event → ℕ → Sensors → ℕ × Sensors
  count_loop [] num_wakeup_events sensors = (num_wakeup_events, sensors)
  count_loop (event ∷ events) num_wakeup_events sensors =
      let (sensor, sensors') = at_handle event.sensor_handle sensors in
      count_loop events
        (if bit_and sensor.flags p.wake_up == 0 then num_wakeup_events else num_wakeup_events + 1)
        sensors'

  unfoldable pub count_num_wakeup_events : List Event → ℕ → Sensors → ℕ × Sensors
  count_num_wakeup_events events n sensors = count_loop (take n events) 0 sensors

  -- How much a write that failed gives back, if it gives anything back, and the map after it:
  -- `events` and `num_wakeup_events` are the front of the queue.
  unfoldable pub give_back : ℕ → List Event → ℕ → Sensors → Option ℕ × Sensors
  give_back quantum events num_wakeup_events sensors =
      if ltb 0 num_wakeup_events
      then (if ltb quantum (length events)
          then (let (count, sensors') = count_num_wakeup_events events quantum sensors in
              (some count, sensors'))
          else (some num_wakeup_events, sensors))
      else (none, sensors)
