-- ===== src/Sensors/Handle/Laws.antt =====
-- Handles are pairs of a sub-HAL index and a sub-HAL's own handle.
use device_xiaomi_camellia.Base.Bits.{
  bit_or_fields, bit_and_fields, bit_and_ones, bit_and-zero, bit_or-zero_below, zero-bit_or,
}
use device_xiaomi_camellia.Base.{
  ℕ, ◌+◌, ◌-◌, ◌*◌, ◌/◌, ◌%◌, ◌^◌, ◌≤◌, ◌<◌, bit_and, ◌≡◌, true, arith, ltb, ◌&&◌,
}
use device_xiaomi_camellia.Sensors.Handle.{
  set_sub_hal_index, extract_sub_hal_index, clear_sub_hal_index, sub_hal_index_is_clear,
  is_sub_hal_index_valid,
}

-- The mask of the first byte, as `kSensorHandleSubHalIndexMask` is documented.
abbrev pub FirstByte : ℕ → Type 0
FirstByte mask = mask ≡ 0xff00_0000

-- A handle that fits 24 bits gets the index as its first byte.
pub set_sub_hal_index_lem :
    (h i : ℕ) → h < 2 ^ 24 → i < 256 → set_sub_hal_index h i ≡ i * 2 ^ 24 + h
unfolding set_sub_hal_index
set_sub_hal_index_lem h i hh hi =
    ground
      (arith, bit_or_fields 24 0 h i 0 hh (omega arith), bit_or-zero_below 24 h hh, zero-bit_or i)

module _ (mask : ℕ) (first : FirstByte mask) where
  pub clear_sub_hal_index_lem : (h : ℕ) → h < 2 ^ 32 → clear_sub_hal_index mask h ≡ h % 2 ^ 24
  unfolding clear_sub_hal_index
  clear_sub_hal_index_lem h hh = ground (
    arith,
    bit_and_fields 24 (h / 2 ^ 24) (h % 2 ^ 24) 0 (2 ^ 24 - 1) (omega arith) (omega arith),
    bit_and-zero (h / 2 ^ 24),
    bit_and_ones 24 (h % 2 ^ 24) (omega arith),
  )

  first_byte_lem : (h : ℕ) → h < 2 ^ 32 → bit_and h mask ≡ h / 2 ^ 24 * 2 ^ 24
  first_byte_lem h hh = ground (
    arith,
    bit_and_fields 24 (h / 2 ^ 24) (h % 2 ^ 24) (2 ^ 8 - 1) 0 (omega arith) (omega arith),
    bit_and-zero (h % 2 ^ 24),
    bit_and_ones 8 (h / 2 ^ 24) (omega arith),
  )

  pub fits_of_clear : (h : ℕ) → h < 2 ^ 32 → sub_hal_index_is_clear mask h ≡ true → h < 2 ^ 24
  unfolding sub_hal_index_is_clear
  fits_of_clear h hh c = ground (arith, first_byte_lem h hh)

  -- A sub-HAL's handle, marked with an index below 128, gives back both parts.
  pub set_sub_hal_index_fields :
      (h i : ℕ)
      → h < 2 ^ 32
      → sub_hal_index_is_clear mask h ≡ true
      → i < 128
      → (extract_sub_hal_index (set_sub_hal_index h i) ≡ i)
        × (clear_sub_hal_index mask (set_sub_hal_index h i) ≡ h)
  unfolding extract_sub_hal_index
  set_sub_hal_index_fields h i hh c hi =
      let fits = fits_of_clear h hh c in
      ground (
        arith,
        set_sub_hal_index_lem h i fits (omega arith),
        clear_sub_hal_index_lem (i * 2 ^ 24 + h) (omega arith),
      )

  -- Handles of two sub-HALs, or two handles of one, are never marked alike.
  pub set_sub_hal_index-injective :
      (h i g j : ℕ)
      → h < 2 ^ 32
      → sub_hal_index_is_clear mask h ≡ true
      → i < 256
      → g < 2 ^ 32
      → sub_hal_index_is_clear mask g ≡ true
      → j < 256
      → set_sub_hal_index h i ≡ set_sub_hal_index g j
      → (h ≡ g) × (i ≡ j)
  set_sub_hal_index-injective h i g j hh hc hi gg gc gj e =
      let h_fits = fits_of_clear h hh hc in
      let g_fits = fits_of_clear g gg gc in
      omega (arith, set_sub_hal_index_lem h i h_fits hi, set_sub_hal_index_lem g j g_fits gj)

  -- A marked handle is routed exactly when the sub-HAL is in the list, up to index 127; from
  -- 128 on the sign of the handle makes the proxy refuse it, whatever the number of sub-HALs.
  pub is_sub_hal_index_valid_lem :
      (size h i : ℕ)
      → size ≤ 2 ^ 32
      → h < 2 ^ 32
      → sub_hal_index_is_clear mask h ≡ true
      → i < 256
      → is_sub_hal_index_valid size (set_sub_hal_index h i) ≡ (ltb i 128 && ltb i size)
  unfolding is_sub_hal_index_valid
  is_sub_hal_index_valid_lem size h i hs hh c hi =
      let fits = fits_of_clear h hh c in ground (arith, set_sub_hal_index_lem h i fits hi)
