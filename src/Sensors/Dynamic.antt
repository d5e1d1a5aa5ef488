-- ===== src/Sensors/Dynamic.antt =====
-- Sensors that come and go, sensors/HalProxy.cpp. Each call returns the map and what it passes on
-- to the framework's callback.
pub mod Laws
use device_xiaomi_camellia.Base.{ℕ, true, false, Option, none, some, List, [], ◌∷◌, if◌then◌else◌}
use device_xiaomi_camellia.Base.Dict.{find, insert, erase}
use native.Mathlib.Decide.{ℕ_discrete}
use device_xiaomi_camellia.Sensors.Platform.{SensorInfo}
use device_xiaomi_camellia.Sensors.Handle.{set_sub_hal_index, sub_hal_index_is_clear}

abbrev pub Connected : Type 0
Connected = List (ℕ × SensorInfo)

abbrev mark : ℕ → SensorInfo → SensorInfo
mark sub_hal sensor = record sensor {
  sensor_handle = set_sub_hal_index sensor.sensor_handle sub_hal;
}

module _ (mask sub_hal : ℕ) where
  unfoldable pub on_dynamic_sensors_connected :
      List SensorInfo → Connected → Connected × List SensorInfo
  on_dynamic_sensors_connected [] m = (m, [])
  on_dynamic_sensors_connected (sensor ∷ added) m =
      elim (sub_hal_index_is_clear mask sensor.sensor_handle) [
        | false ↦ on_dynamic_sensors_connected added m
        | true ↦
            let marked = mark sub_hal sensor in
            let (m', told) =
              on_dynamic_sensors_connected added
                (insert ℕ_discrete marked.sensor_handle marked m) in
            (m', marked ∷ told)
      ]

  unfoldable pub on_dynamic_sensors_disconnected : List ℕ → Connected → Connected × List ℕ
  on_dynamic_sensors_disconnected [] m = (m, [])
  on_dynamic_sensors_disconnected (own ∷ removed) m = elim (sub_hal_index_is_clear mask own) [
    | false ↦ on_dynamic_sensors_disconnected removed m
    | true ↦
        let handle = set_sub_hal_index own sub_hal in
        elim (find ℕ_discrete handle m) [
          | none ↦ on_dynamic_sensors_disconnected removed m
          | some _ ↦
              let (m', told) =
                on_dynamic_sensors_disconnected removed (erase ℕ_discrete handle m) in
              (m', handle ∷ told)
        ]
  ]
