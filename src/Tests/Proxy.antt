-- ===== src/Tests/Proxy.antt =====
-- Small inputs for the calls of the sensors HAL and its initialization.
use device_xiaomi_camellia.Base.{
  ℕ, ◌≡◌, refl, true, arith, some, [], ◌∷◌, ◌==◌, if◌then◌else◌, ◌&&◌, ◌↔◌,
}
use device_xiaomi_camellia.Sensors.Platform.{
  multihal, Result, ok, bad_value, OperationMode, normal, data_injection,
}
use device_xiaomi_camellia.Sensors.Handle.{set_sub_hal_index}
use device_xiaomi_camellia.Sensors.EventQueue.{empty, run as run_queue}
use device_xiaomi_camellia.Sensors.Proxy.{SubHals, HalProxy, is_ok, set_operation_mode}
use device_xiaomi_camellia.Sensors.Proxy.Modes.{SwitchesMode, set_operation_mode_atomic}
use device_xiaomi_camellia.Sensors.Initialize.{
  Handover, initialize_common, is_complete, disable_all_sensors,
}
use device_xiaomi_camellia.Sensors.Initialize.Laws.{initialize_common_ok, AllInitialize}
use device_xiaomi_camellia.Tests.Sensors.{calls, used, light}

-- Two sub-HALs whose state is their modes; the second one takes no injected data.
abbrev accepts : ℕ → OperationMode → Result
accepts i data_injection = if i == 1 then bad_value else ok
accepts i normal = ok

abbrev switch : ℕ → OperationMode → (ℕ → OperationMode) → Result × (ℕ → OperationMode)
switch i m w = (accepts i m, λ j. if j == i && is_ok (accepts i m) then m else w j)

abbrev pub two_sub_hals : SubHals (ℕ → OperationMode)
two_sub_hals = record {
  size = 2;
  set_operation_mode = switch;
  activate = λ i own enabled w. (ok, w);
  batch = λ i own period latency w. (ok, w);
  flush = λ i own w. (ok, w);
  inject_sensor_data = λ i event w. (ok, w);
  initialize = λ i w. (ok, w);
  register_direct_channel = λ i mem w. (ok, 0, w);
  unregister_direct_channel = λ i channel w. (ok, w);
  config_direct_report = λ i own channel rate w. (ok, 0, w);
}

abbrev pub all_normal : ℕ → OperationMode
all_normal i = normal

two_sub_hals-SwitchesMode : SwitchesMode two_sub_hals (λ w j. w j)
two_sub_hals-SwitchesMode = record {
  switched = λ i m w done. ground arith;
  refused = λ i m w failed. ground arith;
  others = λ i j m w apart. ground arith;
}

abbrev proxy : HalProxy
proxy = record {
  sensors = (set_sub_hal_index 6 0, light) ∷ [];
  direct_channel_sub_hal = some 0;
  dynamic_sensors = [];
  current_operation_mode = normal;
  wakelock = used;
  queue = run_queue 10 calls empty;
}

accepts_normal : (k : ℕ) (v : ℕ → OperationMode) → is_ok (switch k normal v).0 ≡ true
accepts_normal k v = ground arith

set_operation_mode_atomic_example :
    let (r, proxy', w') = set_operation_mode two_sub_hals data_injection proxy all_normal in
    (proxy'.current_operation_mode ≡ (if is_ok r then data_injection else normal))
    × (w' 0 ≡ proxy'.current_operation_mode)
set_operation_mode_atomic_example =
    set_operation_mode_atomic two_sub_hals (λ w j. w j) two_sub_hals-SwitchesMode data_injection
      proxy all_normal 0 accepts_normal (λ k within. refl) (omega arith)

abbrev pub handover : Handover
handover = record {
  event_flag_created = true;
  wakelock_flag_created = true;
  has_callback = true;
  has_event_queue = true;
  has_wake_lock_queue = true;
  event_flag_is_set = true;
}

initialize_common_ok_example :
    (is_ok (initialize_common multihal two_sub_hals 300 301 handover proxy all_normal).0 ≡ true) ↔ (
      (is_complete multihal two_sub_hals handover ≡ true)
      × AllInitialize multihal two_sub_hals 2 0
          (disable_all_sensors multihal two_sub_hals proxy all_normal))
initialize_common_ok_example =
    initialize_common_ok multihal two_sub_hals 300 301 handover proxy all_normal
