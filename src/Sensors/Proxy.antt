-- ===== src/Sensors/Proxy.antt =====
-- The calls of the HAL, sensors/HalProxy.cpp. The sub-HALs are loaded libraries: what they do is
-- the parameter `SubHals`, over a state `W` of their own, with the index in `mSubHalList` as the
-- first argument of each call. Durations are bit patterns of `int64_t`.
pub mod Routing
pub mod Modes
use device_xiaomi_camellia.Base.{
  ℕ, suc, zero, ◌+◌, ◌-◌, ◌^◌, Bool, true, false, not, ◌&&◌, ◌||◌, Option, none, some, List, [],
  ◌∷◌, ◌==◌, if◌then◌else◌,
}
use device_xiaomi_camellia.Sensors.Platform.{
  Platform, SensorInfo, Event, Result, ok, bad_value, invalid_operation, OperationMode, normal,
  data_injection,
}
use device_xiaomi_camellia.Sensors.Handle.{
  extract_sub_hal_index, clear_sub_hal_index, is_sub_hal_index_valid,
}
use device_xiaomi_camellia.Sensors.Wakelock.{
  Wakelock, increment_ref_count_and_maybe_acquire_wakelock, reset_shared_wakelock,
}
use device_xiaomi_camellia.Sensors.EventQueue.{EventQueue, post_events_to_message_queue}
use device_xiaomi_camellia.Sensors.Dynamic.{Connected}

pub record SubHals (W : Type 0) : Type 0 where
  pub size : ℕ
  pub set_operation_mode : ℕ → OperationMode → W → Result × W
  pub activate : ℕ → ℕ → Bool → W → Result × W
  pub batch : ℕ → ℕ → ℕ → ℕ → W → Result × W
  pub flush : ℕ → ℕ → W → Result × W
  pub inject_sensor_data : ℕ → Event → W → Result × W
  pub initialize : ℕ → W → Result × W
  pub register_direct_channel : ℕ → ℕ → W → Result × ℕ × W
  pub unregister_direct_channel : ℕ → ℕ → W → Result × W
  pub config_direct_report : ℕ → ℕ → ℕ → ℕ → W → Result × ℕ × W

pub record HalProxy : Type 0 where
  pub sensors : List (ℕ × SensorInfo)
  pub direct_channel_sub_hal : Option ℕ
  pub dynamic_sensors : Connected
  pub current_operation_mode : OperationMode
  pub wakelock : Wakelock
  pub queue : EventQueue

abbrev pub is_ok : Result → Bool
is_ok ok = true
is_ok _ = false

-- The `int32_t` -1.
abbrev pub minus_one : ℕ
minus_one = 2 ^ 32 - 1

module _ {W : Type 0} (p : Platform) (S : SubHals W) where
  -- A call for one sensor goes to the sub-HAL that the handle names, with that sub-HAL's handle.
  abbrev pub routed : ℕ → (ℕ → ℕ → W → Result × W) → W → Result × W
  routed sensor_handle call w =
      if is_sub_hal_index_valid S.size sensor_handle
      then call (extract_sub_hal_index sensor_handle)
          (clear_sub_hal_index p.sub_hal_index_mask sensor_handle) w
      else (bad_value, w)

  unfoldable pub activate : ℕ → Bool → W → Result × W
  activate sensor_handle enabled w = routed sensor_handle (λ i own. S.activate i own enabled) w

  unfoldable pub batch : ℕ → ℕ → ℕ → W → Result × W
  batch sensor_handle sampling_period_ns max_report_latency_ns w =
      routed sensor_handle (λ i own. S.batch i own sampling_period_ns max_report_latency_ns) w

  unfoldable pub flush : ℕ → W → Result × W
  flush sensor_handle w = routed sensor_handle S.flush w

  abbrev is_normal : OperationMode → Bool
  is_normal normal = true
  is_normal data_injection = false

  -- `convertToNewEvent`, of the platform, is an argument.
  unfoldable pub inject_sensor_data : (Event → Event) → HalProxy → Event → W → Result × W
  inject_sensor_data convert_to_new_event proxy event w =
      if is_normal proxy.current_operation_mode && not (event.sensor_type == p.additional_info)
      then (bad_value, w)
      else routed event.sensor_handle
          (λ i own.
            S.inject_sensor_data i (convert_to_new_event (record event { sensor_handle = own })))
          w

  unfoldable pub inject_sensor_data_2_1 :
      (Event → Event) → (Event → Event) → HalProxy → Event → W → Result × W
  unfolding inject_sensor_data
  inject_sensor_data_2_1 convert_to_new_event convert_to_old_event proxy event w =
      inject_sensor_data convert_to_new_event proxy (convert_to_old_event event) w

  -- `stop` is `RateLevel::STOP`.
  unfoldable pub config_direct_report : ℕ → ℕ → ℕ → ℕ → HalProxy → W → Result × ℕ × W
  config_direct_report stop sensor_handle channel_handle rate proxy w =
      elim proxy.direct_channel_sub_hal [
        | none ↦ (invalid_operation, minus_one, w)
        | some i ↦
            if sensor_handle == minus_one && not (rate == stop)
            then (bad_value, minus_one, w)
            else S.config_direct_report i
                (if sensor_handle == minus_one
                  then sensor_handle
                  else clear_sub_hal_index p.sub_hal_index_mask sensor_handle)
                channel_handle rate w
      ]

-- The calls that do not look at a handle.
module _ {W : Type 0} (S : SubHals W) where
  -- The loop over the sub-HALs: the result and the index at which it stopped.
  flip_modes : ℕ → ℕ → OperationMode → W → Result × ℕ × W
  flip_modes zero i mode w = (ok, i, w)
  flip_modes (suc left) i mode w =
      let (result, w') = S.set_operation_mode i mode w in
      elim (is_ok result) [ true ↦ flip_modes left (i + 1) mode w' | false ↦ (result, i, w') ]

  -- The sub-HALs below an index are set back.
  restore_modes : ℕ → ℕ → OperationMode → W → W
  restore_modes zero i mode w = w
  restore_modes (suc left) i mode w =
      restore_modes left (i + 1) mode (S.set_operation_mode i mode w).1

  unfoldable pub set_operation_mode : OperationMode → HalProxy → W → Result × HalProxy × W
  unfolding flip_modes restore_modes
  set_operation_mode mode proxy w =
      let (result, stopped, w') = flip_modes S.size 0 mode w in
      if is_ok result
      then (result, record proxy { current_operation_mode = mode }, w')
      else (result, proxy, restore_modes stopped 0 proxy.current_operation_mode w')

  unfoldable pub register_direct_channel : ℕ → HalProxy → W → Result × ℕ × W
  register_direct_channel mem proxy w = elim proxy.direct_channel_sub_hal [
    | none ↦ (invalid_operation, minus_one, w)
    | some i ↦ S.register_direct_channel i mem w
  ]

  unfoldable pub unregister_direct_channel : ℕ → HalProxy → W → Result × W
  unregister_direct_channel channel_handle proxy w = elim proxy.direct_channel_sub_hal [
    | none ↦ (invalid_operation, w)
    | some i ↦ S.unregister_direct_channel i channel_handle w
  ]

-- `postEventsToMessageQueue` with its wake lock; see `EventQueue` for the other arguments.
unfoldable pub post_events : Platform → ℕ → Bool → ℕ → Bool → List Event → ℕ → HalProxy → HalProxy
post_events p now locked available takes events num_wakeup_events proxy = record proxy {
  wakelock =
      if locked
      then (increment_ref_count_and_maybe_acquire_wakelock now num_wakeup_events proxy.wakelock).0
      else proxy.wakelock;
  queue =
      post_events_to_message_queue p.max_size_pending_write_events_queue available takes events
        num_wakeup_events proxy.queue;
}
