-- ===== src/Sensors/SensorList/Entry.antt =====
-- What the table has for a sensor that a sub-HAL lists.
use device_xiaomi_camellia.Base.{
  ℕ, zero, suc, ◌+◌, ◌≤◌, ◌<◌, ◌≡◌, ◌≢◌, ◌∙◌, bit_and, true, some, List, [], ◌∷◌, ◌++◌, arith,
  get_elem?, str_eq, if◌then◌else◌, All, length, Option, All-get_elem?, All-append_right,
}
use device_xiaomi_camellia.Base.Dict.{find}
use native.Mathlib.Decide.{ℕ_discrete}
use device_xiaomi_camellia.Sensors.Platform.{Platform, IsDocumented, SensorInfo}
use device_xiaomi_camellia.Sensors.Handle.{set_sub_hal_index, sub_hal_index_is_clear}
use device_xiaomi_camellia.Sensors.SensorList.{
  Table, no_sensors, patch_xiaomi_pickup_sensor, set_direct_channel_flags, load_sensor,
  load_sub_hal, load_sub_hals, initialize_sensor_list,
}
use device_xiaomi_camellia.Sensors.SensorList.Laws.{set_direct_channel_flags-wake_up}
use device_xiaomi_camellia.Sensors.SensorList.Complete.{
  is_wanted, flagged, find-load_sensor, patch_xiaomi_pickup_sensor-is_wanted,
  set_direct_channel_flags-type,
}
use device_xiaomi_camellia.Sensors.SensorList.Apart.{
  HasInt32Handle, load_sub_hal_other, load_sub_hals_other, same_list-Avoids, lists-AllAvoid,
}

module _ (p : Platform) where
  -- The type under which a sensor is known: the vendor's pick-up sensor becomes a gesture.
  abbrev pub known_type : SensorInfo → ℕ
  known_type s =
      if str_eq s.type_as_string "xiaomi pick up sensor" then p.pick_up_gesture else s.sensor_type

  -- The entry of a sensor that a sub-HAL lists.
  pub record IsEntryOf (sub_hal : ℕ) (s x : SensorInfo) : Type 0 where
    pub handle : x.sensor_handle ≡ set_sub_hal_index s.sensor_handle sub_hal
    pub wakes : bit_and x.flags p.wake_up ≡ bit_and s.flags p.wake_up
    pub kind : x.sensor_type ≡ known_type s

  set_direct_channel_flags-keeps :
      (s : SensorInfo) (sub_hal : ℕ) (d : Option ℕ)
      → let flagged = (set_direct_channel_flags p s sub_hal d).0 in
        (flagged.sensor_handle ≡ s.sensor_handle) × (flagged.sensor_type ≡ s.sensor_type)
  unfolding set_direct_channel_flags
  set_direct_channel_flags-keeps s sub_hal d = ground arith

module _ (p : Platform) (doc : IsDocumented p) where
  load_sensor_entry :
      (sub_hal : ℕ) (s : SensorInfo) (t : Table)
      → is_wanted p s ≡ true
      → (x : SensorInfo) × (find ℕ_discrete
            (set_sub_hal_index s.sensor_handle sub_hal)
            (load_sensor p sub_hal s t).sensors
          ≡ some x)
        × IsEntryOf p sub_hal s x
  unfolding patch_xiaomi_pickup_sensor
  load_sensor_entry sub_hal s t wanted =
      let handle = set_sub_hal_index s.sensor_handle sub_hal in
      let marked = record s { sensor_handle = handle } in
      let wakes = set_direct_channel_flags-wake_up p doc marked sub_hal t.direct_channel_sub_hal in
      let text = set_direct_channel_flags-type p marked sub_hal t.direct_channel_sub_hal in
      let keeps = set_direct_channel_flags-keeps p marked sub_hal t.direct_channel_sub_hal in
      let found = find-load_sensor p handle sub_hal s t in
      let kept = patch_xiaomi_pickup_sensor-is_wanted p doc sub_hal s t in
      (
        (patch_xiaomi_pickup_sensor p (flagged p sub_hal s t).0).0,
        ground (arith, found, kept, wanted),
        record {
          handle = ground (arith, keeps, text);
          wakes = ground (arith, wakes, text);
          kind = ground (arith, keeps, text, wakes, wanted, kept);
        },
      )

  module _ (i : ℕ) (s : SensorInfo) (small : i < 256) (fits : HasInt32Handle s)
      (clear : sub_hal_index_is_clear p.sub_hal_index_mask s.sensor_handle ≡ true) where
    abbrev marked_handle : ℕ
    marked_handle = set_sub_hal_index s.sensor_handle i

    -- The table has the sensor.
    abbrev HasEntry : Table → Type 0
    HasEntry t =
        (x : SensorInfo) × (find ℕ_discrete marked_handle t.sensors ≡ some x) × IsEntryOf p i s x

    HasEntry-same :
        (t t' : Table)
        → find ℕ_discrete marked_handle t'.sensors ≡ find ℕ_discrete marked_handle t.sensors
        → HasEntry t
        → HasEntry t'
    HasEntry-same t t' same (x, found, entry) = (x, same ∙ found, entry)

    module _ (wanted : is_wanted p s ≡ true) (after : List SensorInfo)
        (later_fit : All HasInt32Handle after)
        (last : All (λ other. other.sensor_handle ≢ s.sensor_handle) after) where
      load_sub_hal_entry :
          (before : List SensorInfo) (t : Table)
          → HasEntry (load_sub_hal p i (before ++ s ∷ after) t)
      unfolding load_sub_hal
      load_sub_hal_entry [] t =
          rw (clear, load_sub_hal)
            (HasEntry-same (load_sensor p i s t) (load_sub_hal p i after (load_sensor p i s t))
              (load_sub_hal_other p marked_handle i after (load_sensor p i s t)
                (same_list-Avoids p doc i s small fits clear after later_fit last))
              (load_sensor_entry i s t wanted))
      load_sub_hal_entry (other ∷ before) t = load_sub_hal_entry before _

      load_sub_hals_entry :
          (k j : ℕ) (lists : List (List SensorInfo)) (before : List SensorInfo) (t : Table)
          → k + j ≡ i
          → k + length lists ≤ 256
          → All (λ list. All HasInt32Handle list) lists
          → get_elem? lists j ≡ some (before ++ s ∷ after)
          → HasEntry (load_sub_hals p k lists t)
      unfolding load_sub_hals
      load_sub_hals_entry k j [] before t e few fit listed = cc
      load_sub_hals_entry k zero (list ∷ lists) before t e few (_, fit) listed =
          let same : k ≡ i = omega arith in
          let alike : list ≡ before ++ s ∷ after = cc in
          rw (same, alike)
            (HasEntry-same (load_sub_hal p i (before ++ s ∷ after) t)
              (load_sub_hals p (i + 1) lists (load_sub_hal p i (before ++ s ∷ after) t))
              (load_sub_hals_other p marked_handle (i + 1) lists
                (load_sub_hal p i (before ++ s ∷ after) t)
                (lists-AllAvoid p doc i s small fits clear (i + 1) lists (omega arith) (omega arith)
                  fit))
              (load_sub_hal_entry before t))
      load_sub_hals_entry k (suc j) (list ∷ lists) before t e few (_, fit) listed =
          load_sub_hals_entry (k + 1) j lists before (load_sub_hal p k list t) (omega arith)
            (omega arith) fit listed

  -- With at most 256 sub-HALs whose handles are `int32_t`: for a sensor that a sub-HAL lists with a
  -- clear first byte, as the last one of its handle, and that is no pick-up sensor that does not wake
  -- the device up, the table has an entry under its handle marked with the sub-HAL's index, whatever
  -- else is listed: the entry has that handle, it wakes the device up exactly if the sensor does, and
  -- it has the sensor's type, that of a gesture if it is the vendor's pick-up sensor.
  pub find-initialize_sensor_list :
      (i : ℕ) (lists : List (List SensorInfo)) (before : List SensorInfo) (s : SensorInfo)
      (after : List SensorInfo)
      → length lists ≤ 256
      → All (λ list. All HasInt32Handle list) lists
      → get_elem? lists i ≡ some (before ++ s ∷ after)
      → sub_hal_index_is_clear p.sub_hal_index_mask s.sensor_handle ≡ true
      → is_wanted p s ≡ true
      → All (λ other. other.sensor_handle ≢ s.sensor_handle) after
      → (x : SensorInfo) × (find ℕ_discrete
            (set_sub_hal_index s.sensor_handle i)
            (initialize_sensor_list p lists).sensors
          ≡ some x)
        × IsEntryOf p i s x
  unfolding initialize_sensor_list
  find-initialize_sensor_list i lists before s after few fit listed clear wanted last =
      let (below, here) = All-get_elem? (All HasInt32Handle) lists i listed fit in
      let (here_s, here_after) = All-append_right HasInt32Handle before (s ∷ after) here in
      load_sub_hals_entry i s (omega arith) here_s clear wanted after here_after last 0 i lists
        before no_sensors (omega arith) (omega arith) fit listed
