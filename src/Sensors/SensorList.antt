-- ===== src/Sensors/SensorList.antt =====
-- The table of sensors that sensors/HalProxy.cpp builds from the lists of the sub-HALs, which
-- are an argument: one list for each, empty where the call fails. `mSensors` and `mDynamicSensors`
-- are maps by handle, here in the order of insertion, and a sub-HAL is its index in `mSubHalList`.
pub mod Owned
pub mod Laws
pub mod Complete
pub mod Apart
pub mod Entry
use device_xiaomi_camellia.Base.{
  ℕ, ◌+◌, ◌-◌, ◌^◌, bit_and, Bool, true, false, ◌&&◌, not, Option, none, some, List, [], ◌∷◌, ◌==◌,
  if◌then◌else◌, str_eq,
}
use device_xiaomi_camellia.Base.Dict.{insert}
use native.Mathlib.Decide.{ℕ_discrete}
use device_xiaomi_camellia.Sensors.Platform.{Platform, SensorInfo, direct_mask, float_one}
use device_xiaomi_camellia.Sensors.Handle.{set_sub_hal_index, sub_hal_index_is_clear}

pub record Table : Type 0 where
  pub sensors : List (ℕ × SensorInfo)
  pub direct_channel_sub_hal : Option ℕ

abbrev pub no_sensors : Table
no_sensors = record { sensors = []; direct_channel_sub_hal = none }

module _ (p : Platform) where
  -- The sensor, patched, and whether it is kept.
  unfoldable pub patch_xiaomi_pickup_sensor : SensorInfo → SensorInfo × Bool
  patch_xiaomi_pickup_sensor sensor =
      if str_eq sensor.type_as_string "xiaomi pick up sensor"
      then (if bit_and sensor.flags p.wake_up == 0 then (sensor, false) else (
        record sensor {
          sensor_type = p.pick_up_gesture;
          type_as_string = p.string_type_pick_up_gesture;
          max_range = float_one;
        },
        true,
      ))
      else (sensor, true)

  without_direct_channel : SensorInfo → SensorInfo
  without_direct_channel sensor = record sensor {
    flags = bit_and sensor.flags (2 ^ 32 - 1 - direct_mask p);
  }

  -- The sensor, and the direct channel sub-HAL after the call.
  unfoldable pub set_direct_channel_flags : SensorInfo → ℕ → Option ℕ → SensorInfo × Option ℕ
  unfolding without_direct_channel
  set_direct_channel_flags sensor sub_hal none =
      if bit_and sensor.flags (direct_mask p) == 0 then (sensor, none) else (sensor, some sub_hal)
  set_direct_channel_flags sensor sub_hal (some chosen) =
      if sub_hal == chosen
      then (sensor, some chosen)
      else (without_direct_channel sensor, some chosen)

  -- The body of the loop over a sub-HAL's list, for a sensor whose first byte is clear.
  unfoldable pub load_sensor : ℕ → SensorInfo → Table → Table
  unfolding patch_xiaomi_pickup_sensor set_direct_channel_flags
  load_sensor sub_hal sensor t =
      let handle = set_sub_hal_index sensor.sensor_handle sub_hal in
      let (flagged, direct) =
        set_direct_channel_flags (record sensor { sensor_handle = handle }) sub_hal
          t.direct_channel_sub_hal in
      let (patched, keep) = patch_xiaomi_pickup_sensor flagged in
      if keep
      then record {
        sensors = insert ℕ_discrete handle patched t.sensors;
        direct_channel_sub_hal = direct;
      }
      else record t { direct_channel_sub_hal = direct }

  unfoldable pub load_sub_hal : ℕ → List SensorInfo → Table → Table
  unfolding load_sensor
  load_sub_hal sub_hal [] t = t
  load_sub_hal sub_hal (sensor ∷ list) t = load_sub_hal sub_hal list (
      if sub_hal_index_is_clear p.sub_hal_index_mask sensor.sensor_handle
      then load_sensor sub_hal sensor t
      else t)

  unfoldable pub load_sub_hals : ℕ → List (List SensorInfo) → Table → Table
  unfolding load_sub_hal
  load_sub_hals sub_hal [] t = t
  load_sub_hals sub_hal (list ∷ lists) t =
      load_sub_hals (sub_hal + 1) lists (load_sub_hal sub_hal list t)

  unfoldable pub initialize_sensor_list : List (List SensorInfo) → Table
  unfolding load_sub_hals
  initialize_sensor_list lists = load_sub_hals 0 lists no_sensors
