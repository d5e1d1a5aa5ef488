-- ===== src/Tests/Loading.antt =====
-- Small inputs for the loading of sub-HALs and their lists of sensors.
use device_xiaomi_camellia.Base.{
  ℕ, ◌≡◌, refl, true, arith, none, some, List, [], ◌∷◌, String, All, map, str_eq, if◌then◌else◌,
}
use device_xiaomi_camellia.Sensors.Platform.{multihal, multihal-IsDocumented, SensorInfo}
use device_xiaomi_camellia.Sensors.Callback.{process_events}
use device_xiaomi_camellia.Sensors.Handle.{sub_hal_index_is_clear}
use device_xiaomi_camellia.Sensors.SensorList.{initialize_sensor_list}
use device_xiaomi_camellia.Base.Dict.{find}
use native.Mathlib.Decide.{ℕ_discrete}
use device_xiaomi_camellia.Sensors.Callback.Listed.{
  as_listed, process_events-initialize_sensor_list,
}
use device_xiaomi_camellia.Sensors.Loading.{
  get_handle_for_sub_hal_shared_object, Library, Loader, Wrapper, v2_1, hal_proxy,
  get_sensors_list_2_1, initialize_sub_hal_list_from_config_file,
}
use device_xiaomi_camellia.Sensors.Loading.Words.{lines}
use device_xiaomi_camellia.Sensors.Loading.Laws.{Collects, initialize_sub_hal_list_lem}
use device_xiaomi_camellia.Sensors.Loading.Reached.{
  IsNonNegative, get_sensors_list-IsNonNegative, Fits, IsReached, get_sensors_list-IsReached,
}
use device_xiaomi_camellia.Tests.Sensors.{pick_up, light, raised, lowered}
use device_xiaomi_camellia.Tests.System.{marked}
use device_xiaomi_camellia.Tests.Proxy.{two_sub_hals}

-- Of three libraries the first stands in the second place, the second is missing, and the third has
-- the wrong version.
abbrev light_library : Library ℕ
light_library = record { get_sub_hal = none; get_sub_hal_2_1 = some (21, 7) }

abbrev old_library : Library ℕ
old_library = record { get_sub_hal = some (19, 8); get_sub_hal_2_1 = some (21, 8) }

abbrev loader : Loader ℕ
loader = record {
  open_library = λ path.
      if str_eq path "/vendor/lib64/hw/light.so"
      then some light_library
      else if str_eq path "old.so"
      then some old_library
      else none;
  lp64 = true;
  sub_hal_2_0_version = 20;
  sub_hal_2_1_version = 21;
}

abbrev names : List String
names = "light.so" ∷ "none.so" ∷ "old.so" ∷ []

one_sub_hal :
    initialize_sub_hal_list_from_config_file loader (some " light.so\tnone.so\n\nold.so\n") []
    ≡ v2_1 7 ∷ []
unfolding initialize_sub_hal_list_from_config_file get_handle_for_sub_hal_shared_object
one_sub_hal = refl

initialize_sub_hal_list_lem_example :
    Collects loader names (initialize_sub_hal_list_from_config_file loader (some (lines names)) [])
initialize_sub_hal_list_lem_example =
    initialize_sub_hal_list_lem loader names ((refl, refl), ((refl, refl), ((refl, refl), tt)))

abbrev lists : Wrapper ℕ → List SensorInfo
lists sub_hal = pick_up ∷ light ∷ []

lists-Fits : (sub_hal : Wrapper ℕ) → All Fits (lists sub_hal)
lists-Fits sub_hal = (omega arith, (omega arith, tt))

get_sensors_list-IsReached_example :
    let (sub_hals, t) = hal_proxy loader multihal (some "light.so") lists in
    All
      (IsReached multihal (record two_sub_hals { size = 1 }) (map lists sub_hals))
      (get_sensors_list_2_1 t.sensors)
unfolding hal_proxy get_handle_for_sub_hal_shared_object
get_sensors_list-IsReached_example =
    get_sensors_list-IsReached multihal (record two_sub_hals { size = 1 }) multihal-IsDocumented
      loader (some "light.so") lists refl (omega arith) lists-Fits

light_is_clear : sub_hal_index_is_clear multihal.sub_hal_index_mask light.sensor_handle ≡ true
unfolding sub_hal_index_is_clear
light_is_clear = refl

abbrev second_lists : List (List SensorInfo)
second_lists = [] ∷ (light ∷ pick_up ∷ []) ∷ []

-- `getSensorInfo`, with a sensor of its own for handles that the table lacks.
abbrev table_info : ℕ → SensorInfo
table_info handle =
    elim (find ℕ_discrete handle (initialize_sensor_list multihal second_lists).sensors) [
      | none ↦ light
      | some sensor ↦ sensor
    ]

pick_up_is_clear : sub_hal_index_is_clear multihal.sub_hal_index_mask pick_up.sensor_handle ≡ true
unfolding sub_hal_index_is_clear
pick_up_is_clear = refl

-- The gesture with the value 1 is handed on and counted, the other one is not.
process_events-initialize_sensor_list_example :
    process_events multihal table_info 1 (raised ∷ lowered ∷ []) ≡ (marked ∷ [], 1)
unfolding as_listed
process_events-initialize_sensor_list_example =
    process_events-initialize_sensor_list multihal multihal-IsDocumented table_info 1 second_lists
      (light ∷ []) pick_up [] (raised ∷ lowered ∷ []) (omega arith)
      (tt, ((omega arith, (omega arith, tt)), tt)) refl pick_up_is_clear refl tt
      (λ handle sensor found. rw (found, table_info) refl) (refl, (refl, tt))

get_sensors_list-IsNonNegative_example :
    All IsNonNegative
      (get_sensors_list_2_1 (hal_proxy loader multihal (some "light.so") lists).1.sensors)
unfolding hal_proxy get_handle_for_sub_hal_shared_object
get_sensors_list-IsNonNegative_example =
    get_sensors_list-IsNonNegative multihal multihal-IsDocumented loader (some "light.so") lists
      (omega arith) lists-Fits
