-- ===== src/Sensors/Platform.antt =====
-- What sensors/HalProxy.cpp takes from headers of the platform: the flags of
-- android.hardware.sensors, the limits of HalProxy.h, and the types of a sensor and an event with
-- the fields that the proxy reads or writes.
use device_xiaomi_camellia.Base.{ℕ, ◌<◌, ◌^◌, ◌≡◌, bit_and, bit_or, String, arith, eq_iff, ◌≢◌}

pub record Platform : Type 0 where
  pub sub_hal_index_mask : ℕ
  pub wake_up : ℕ
  pub mask_direct_report : ℕ
  pub mask_direct_channel : ℕ
  pub pick_up_gesture : ℕ
  pub additional_info : ℕ
  pub string_type_pick_up_gesture : String
  pub max_size_pending_write_events_queue : ℕ
  pub wakelock_timeout_ns : ℕ

abbrev pub direct_mask : Platform → ℕ
direct_mask p = bit_or p.mask_direct_report p.mask_direct_channel

-- The documented values: the mask is the first byte of a handle, a flag that wakes the device
-- up is none of those for direct channels, and the pick-up gesture has a name of its own.
pub record IsDocumented (p : Platform) : Type 0 where
  pub first_byte : p.sub_hal_index_mask ≡ 0xff00_0000
  pub direct_fits : direct_mask p < 2 ^ 32
  pub wake_up_fits : p.wake_up < 2 ^ 32
  pub renames : p.string_type_pick_up_gesture ≢ "xiaomi pick up sensor"
  pub wake_up_apart : bit_and (direct_mask p) p.wake_up ≡ 0

-- `V2_1::SensorInfo`. A float is its IEEE bit pattern.
pub record SensorInfo : Type 0 where
  pub sensor_handle : ℕ
  pub name : String
  pub type_as_string : String
  pub sensor_type : ℕ
  pub max_range : ℕ
  pub flags : ℕ

-- `V2_1::Event`; `stamp` stands for the fields that the proxy only passes on.
pub record Event : Type 0 where
  pub sensor_handle : ℕ
  pub sensor_type : ℕ
  pub scalar : ℕ
  pub stamp : ℕ

-- 1.0f
abbrev pub float_one : ℕ
float_one = 0x3f80_0000

pub data Result : Type 0 where
  ok permission_denied no_memory bad_value invalid_operation : Result

pub data OperationMode : Type 0 where
  normal data_injection : OperationMode

-- The values of android.hardware.sensors@2.1 and of its multi-HAL.
abbrev pub multihal : Platform
multihal = record {
  sub_hal_index_mask = 0xff00_0000;
  wake_up = 1;
  mask_direct_report = 0x380;
  mask_direct_channel = 0xc00;
  pick_up_gesture = 25;
  additional_info = 33;
  string_type_pick_up_gesture = "android.sensor.pick_up_gesture";
  max_size_pending_write_events_queue = 100_000;
  wakelock_timeout_ns = 1_000_000_000;
}

pub multihal-IsDocumented : IsDocumented multihal
multihal-IsDocumented =
    ground (arith, eq_iff multihal.string_type_pick_up_gesture "xiaomi pick up sensor")
