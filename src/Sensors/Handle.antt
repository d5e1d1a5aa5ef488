-- ===== src/Sensors/Handle.antt =====
-- The sub-HAL index in the first byte of a sensor handle, sensors/HalProxy.cpp and
-- sensors/HalProxyCallback.cpp. An `int32_t` is its bit pattern, a number below 2 ^ 32. The mask
-- `kSensorHandleSubHalIndexMask` stands in a header of the platform: it is the parameter `mask`.
pub mod Laws
use device_xiaomi_camellia.Base.{
  ℕ, ◌+◌, ◌-◌, ◌*◌, ◌/◌, ◌%◌, ◌^◌, bit_and, bit_or, Bool, ltb, ◌==◌, if◌then◌else◌,
}

abbrev pub bits_after_sub_hal_index : ℕ
bits_after_sub_hal_index = 24

-- `sensorHandle | (static_cast<int32_t>(subHalIndex) << kBitsAfterSubHalIndex)`
unfoldable pub set_sub_hal_index : ℕ → ℕ → ℕ
set_sub_hal_index sensor_handle sub_hal_index =
    bit_or sensor_handle (sub_hal_index % 2 ^ 32 * 2 ^ bits_after_sub_hal_index % 2 ^ 32)

-- `static_cast<size_t>(sensorHandle >> kBitsAfterSubHalIndex)`: the shift of a signed number copies
-- its sign, and the cast reads a negative result modulo 2 ^ 64.
unfoldable pub extract_sub_hal_index : ℕ → ℕ
extract_sub_hal_index sensor_handle =
    if ltb sensor_handle (2 ^ 31)
    then sensor_handle / 2 ^ bits_after_sub_hal_index
    else 2 ^ 64 - 2 ^ 8 + sensor_handle / 2 ^ bits_after_sub_hal_index

module _ (mask : ℕ) where
  unfoldable pub clear_sub_hal_index : ℕ → ℕ
  clear_sub_hal_index sensor_handle = bit_and sensor_handle (2 ^ 32 - 1 - mask)

  unfoldable pub sub_hal_index_is_clear : ℕ → Bool
  sub_hal_index_is_clear sensor_handle = bit_and sensor_handle mask == 0

-- The first argument is `mSubHalList.size()`.
unfoldable pub is_sub_hal_index_valid : ℕ → ℕ → Bool
unfolding extract_sub_hal_index
is_sub_hal_index_valid size sensor_handle = ltb (extract_sub_hal_index sensor_handle) size
