-- ===== src/Sensors/SensorList/Complete.antt =====
-- No sensor that a sub-HAL lists rightly is left out.
use device_xiaomi_camellia.Base.{
  ℕ, sym, zero, suc, ◌+◌, ◌≡◌, refl, inl, inr, bit_and, Bool, true, false, Option, none, some, List,
  [], ◌∷◌, ◌++◌, arith, get_elem?, Bool-cases, str_eq, ◌==◌, if◌then◌else◌, sym,
}
use device_xiaomi_camellia.Base.Dict.{find, find-insert}
use mathlib.Core.Logic.{ite}
use native.Mathlib.Decide.{ℕ_discrete}
use device_xiaomi_camellia.Sensors.Platform.{Platform, IsDocumented, SensorInfo}
use device_xiaomi_camellia.Sensors.Handle.{set_sub_hal_index, sub_hal_index_is_clear}
use device_xiaomi_camellia.Sensors.SensorList.{
  Table, no_sensors, patch_xiaomi_pickup_sensor, set_direct_channel_flags, load_sensor,
  load_sub_hal, load_sub_hals, initialize_sensor_list,
}
use device_xiaomi_camellia.Sensors.SensorList.Laws.{set_direct_channel_flags-wake_up}

abbrev pub is_found : ℕ → Table → Bool
is_found handle t = elim (find ℕ_discrete handle t.sensors) [ none ↦ false | some _ ↦ true ]

module _ (p : Platform) where
  -- All sensors are wanted but pick-up sensors that do not wake the device up.
  abbrev pub is_wanted : SensorInfo → Bool
  is_wanted s =
      if str_eq s.type_as_string "xiaomi pick up sensor"
      then (if bit_and s.flags p.wake_up == 0 then false else true)
      else true

  abbrev pub flagged : ℕ → SensorInfo → Table → SensorInfo × Option ℕ
  flagged sub_hal s t =
      set_direct_channel_flags p
        (record s { sensor_handle = set_sub_hal_index s.sensor_handle sub_hal }) sub_hal
        t.direct_channel_sub_hal

  pub find-load_sensor :
      (handle sub_hal : ℕ) (s : SensorInfo) (t : Table)
      → let (patched, keep) = patch_xiaomi_pickup_sensor p (flagged sub_hal s t).0 in
        find ℕ_discrete handle (load_sensor p sub_hal s t).sensors ≡ (
          if keep
          then ite
              (ℕ_discrete (set_sub_hal_index s.sensor_handle sub_hal) handle)
              (some patched)
              (find ℕ_discrete handle t.sensors)
          else find ℕ_discrete handle t.sensors)
  unfolding load_sensor
  find-load_sensor handle sub_hal s t =
      elim (Bool-cases (patch_xiaomi_pickup_sensor p (flagged sub_hal s t).0).1) [
        | inl kept ↦
            rw (kept, load_sensor)
              (find-insert ℕ_discrete handle (set_sub_hal_index s.sensor_handle sub_hal)
                (patch_xiaomi_pickup_sensor p (flagged sub_hal s t).0).0 t.sensors)
        | inr dropped ↦ rw (dropped, load_sensor) refl
      ]

  load_sensor_keeps :
      (handle sub_hal : ℕ) (s : SensorInfo) (t : Table)
      → is_found handle t ≡ true
      → is_found handle (load_sensor p sub_hal s t) ≡ true
  unfolding load_sensor
  load_sensor_keeps handle sub_hal s t h = ground (arith, find-load_sensor handle sub_hal s t)

  load_sub_hal_keeps :
      (handle sub_hal : ℕ) (list : List SensorInfo) (t : Table)
      → is_found handle t ≡ true
      → is_found handle (load_sub_hal p sub_hal list t) ≡ true
  unfolding load_sub_hal
  load_sub_hal_keeps handle sub_hal [] t h = h
  load_sub_hal_keeps handle sub_hal (s ∷ list) t h = ground (
    arith,
    load_sensor_keeps handle sub_hal s t,
    load_sub_hal_keeps handle sub_hal list t,
    load_sub_hal_keeps handle sub_hal list (load_sensor p sub_hal s t),
  )

  load_sub_hals_keeps :
      (handle sub_hal : ℕ) (lists : List (List SensorInfo)) (t : Table)
      → is_found handle t ≡ true
      → is_found handle (load_sub_hals p sub_hal lists t) ≡ true
  unfolding load_sub_hals
  load_sub_hals_keeps handle sub_hal [] t h = h
  load_sub_hals_keeps handle sub_hal (list ∷ lists) t h =
      load_sub_hals_keeps handle (sub_hal + 1) lists (load_sub_hal p sub_hal list t)
        (load_sub_hal_keeps handle sub_hal list t h)

  pub set_direct_channel_flags-type :
      (s : SensorInfo) (sub_hal : ℕ) (d : Option ℕ)
      → (set_direct_channel_flags p s sub_hal d).0.type_as_string ≡ s.type_as_string
  unfolding set_direct_channel_flags
  set_direct_channel_flags-type s sub_hal d = ground arith

module _ (p : Platform) (doc : IsDocumented p) where
  pub patch_xiaomi_pickup_sensor-is_wanted :
      (sub_hal : ℕ) (s : SensorInfo) (t : Table)
      → (patch_xiaomi_pickup_sensor p (flagged p sub_hal s t).0).1 ≡ is_wanted p s
  unfolding patch_xiaomi_pickup_sensor
  patch_xiaomi_pickup_sensor-is_wanted sub_hal s t =
      let marked = record s { sensor_handle = set_sub_hal_index s.sensor_handle sub_hal } in
      ground (
        arith,
        set_direct_channel_flags-wake_up p doc marked sub_hal t.direct_channel_sub_hal,
        set_direct_channel_flags-type p marked sub_hal t.direct_channel_sub_hal,
      )

  load_sensor_finds :
      (sub_hal : ℕ) (s : SensorInfo) (t : Table)
      → is_wanted p s ≡ true
      → is_found (set_sub_hal_index s.sensor_handle sub_hal) (load_sensor p sub_hal s t) ≡ true
  unfolding load_sensor
  load_sensor_finds sub_hal s t wanted =
      let handle = set_sub_hal_index s.sensor_handle sub_hal in
      ground (
        arith,
        find-load_sensor p handle sub_hal s t,
        patch_xiaomi_pickup_sensor-is_wanted sub_hal s t,
      )

  load_sub_hal_finds :
      (sub_hal : ℕ) (before : List SensorInfo) (s : SensorInfo) (after : List SensorInfo)
      (t : Table)
      → sub_hal_index_is_clear p.sub_hal_index_mask s.sensor_handle ≡ true
      → is_wanted p s ≡ true
      → is_found
          (set_sub_hal_index s.sensor_handle sub_hal)
          (load_sub_hal p sub_hal (before ++ s ∷ after) t)
        ≡ true
  unfolding load_sub_hal
  load_sub_hal_finds sub_hal [] s after t clear wanted =
      rw (clear, load_sub_hal)
        (load_sub_hal_keeps p _ sub_hal after (load_sensor p sub_hal s t)
          (load_sensor_finds sub_hal s t wanted))
  load_sub_hal_finds sub_hal (other ∷ before) s after t clear wanted =
      load_sub_hal_finds sub_hal before s after _ clear wanted

  load_sub_hals_finds :
      (sub_hal i : ℕ) (lists : List (List SensorInfo)) (before : List SensorInfo) (s : SensorInfo)
      (after : List SensorInfo) (t : Table)
      → get_elem? lists i ≡ some (before ++ s ∷ after)
      → sub_hal_index_is_clear p.sub_hal_index_mask s.sensor_handle ≡ true
      → is_wanted p s ≡ true
      → is_found (set_sub_hal_index s.sensor_handle (sub_hal + i)) (load_sub_hals p sub_hal lists t)
        ≡ true
  unfolding load_sub_hals
  load_sub_hals_finds sub_hal i [] before s after t listed clear wanted = cc
  load_sub_hals_finds sub_hal zero (list ∷ lists) before s after t listed clear wanted =
      let same : sub_hal ≡ sub_hal + 0 = omega arith in
      let alike : list ≡ before ++ s ∷ after = cc in
      rw (sym same, alike)
        (load_sub_hals_keeps p (set_sub_hal_index s.sensor_handle sub_hal) (sub_hal + 1) lists _
          (load_sub_hal_finds sub_hal before s after t clear wanted))
  load_sub_hals_finds sub_hal (suc i) (list ∷ lists) before s after t listed clear wanted =
      let same : sub_hal + 1 + i ≡ sub_hal + suc i = omega arith in
      rw (sym same) (
        load_sub_hals_finds (sub_hal + 1) i lists before s after (load_sub_hal p sub_hal list t)
          listed clear wanted)

  -- Whatever else is listed, each sensor that a sub-HAL lists with a clear first byte is in the table
  -- under its handle marked with that sub-HAL's index, except for a pick-up sensor that does not
  -- wake the device up.
  pub initialize_sensor_list_finds :
      (i : ℕ) (lists : List (List SensorInfo)) (before : List SensorInfo) (s : SensorInfo)
      (after : List SensorInfo)
      → get_elem? lists i ≡ some (before ++ s ∷ after)
      → sub_hal_index_is_clear p.sub_hal_index_mask s.sensor_handle ≡ true
      → is_wanted p s ≡ true
      → is_found (set_sub_hal_index s.sensor_handle i) (initialize_sensor_list p lists) ≡ true
  unfolding initialize_sensor_list
  initialize_sensor_list_finds i lists before s after listed clear wanted =
      let same : 0 + i ≡ i = omega arith in
      rw (sym same) (load_sub_hals_finds 0 i lists before s after no_sensors listed clear wanted)
