-- ===== src/Sensors/SensorList/Laws.antt =====
-- What holds of every sensor that the proxy lists.
use device_xiaomi_camellia.Base.{
  ℕ, ◌+◌, ◌≤◌, ◌<◌, ◌≡◌, ◌≢◌, refl, ◌⊎◌, inl, inr, bit_and, true, Option, none, some, List, [], ◌∷◌,
  arith, All, length, Bool-cases, eq_iff, All-weaken, ◌∙◌, sym,
}
use device_xiaomi_camellia.Base.Bits.{bit_and_cleared, bit_and_kept}
use device_xiaomi_camellia.Base.Dict.{All-insert}
use native.Mathlib.Decide.{ℕ_discrete}
use device_xiaomi_camellia.Sensors.Platform.{Platform, IsDocumented, SensorInfo, direct_mask}
use device_xiaomi_camellia.Sensors.Handle.{set_sub_hal_index, sub_hal_index_is_clear}
use device_xiaomi_camellia.Sensors.SensorList.Owned.{AllOwn, Lists, lists_own}
use device_xiaomi_camellia.Sensors.SensorList.{
  Table, no_sensors, patch_xiaomi_pickup_sensor, set_direct_channel_flags, load_sensor,
  load_sub_hal, load_sub_hals, initialize_sensor_list,
}

-- What the direct channel sub-HAL is, once chosen, it stays.
abbrev Grows : Option ℕ → Option ℕ → Type 0
Grows d d' = (d ≡ none) ⊎ (d' ≡ d)

module _ (p : Platform) (own : ℕ → ℕ → Type 0) where
  -- An entry of the table, while the first `count` sub-HALs are loaded: its key is its handle,
  -- the handle is an own one of a sub-HAL, and only the chosen sub-HAL has direct channels.
  pub record IsListed (count : ℕ) (direct : Option ℕ) (entry : ℕ × SensorInfo) : Type 0 where
    pub sub_hal : ℕ
    pub own_handle : ℕ
    pub loaded : sub_hal < count
    pub owned : own sub_hal own_handle
    pub own_clear : sub_hal_index_is_clear p.sub_hal_index_mask own_handle ≡ true
    pub marked : entry.1.sensor_handle ≡ set_sub_hal_index own_handle sub_hal
    pub keyed : entry.0 ≡ entry.1.sensor_handle
    pub patched : entry.1.type_as_string ≢ "xiaomi pick up sensor"
    pub direct_chosen : (bit_and entry.1.flags (direct_mask p) ≡ 0) ⊎ (direct ≡ some sub_hal)

  IsListed-mono :
      (count count' : ℕ) (d d' : Option ℕ) (e : ℕ × SensorInfo)
      → count ≤ count'
      → Grows d d'
      → IsListed count d e
      → IsListed count' d' e
  IsListed-mono count count' d d' e more grows listed = ground arith

module _ (p : Platform) (doc : IsDocumented p) where
  set_direct_channel_flags_lem :
      (s : SensorInfo) (sub_hal : ℕ) (d : Option ℕ)
      → let (s', d') = set_direct_channel_flags p s sub_hal d in
        ((bit_and s'.flags (direct_mask p) ≡ 0) ⊎ (d' ≡ some sub_hal))
        × (s'.sensor_handle ≡ s.sensor_handle)
        × Grows d d'
  unfolding set_direct_channel_flags
  set_direct_channel_flags_lem s sub_hal d =
      ground (arith, bit_and_cleared 32 s.flags (direct_mask p) doc.direct_fits)

  patch_xiaomi_pickup_sensor_lem :
      (s : SensorInfo)
      → let (s', keep) = patch_xiaomi_pickup_sensor p s in
        keep ≡ true
        → (s'.type_as_string ≢ "xiaomi pick up sensor")
          × (s'.sensor_handle ≡ s.sensor_handle)
          × (s'.flags ≡ s.flags)
  unfolding patch_xiaomi_pickup_sensor
  patch_xiaomi_pickup_sensor_lem s kept =
      ground (arith, doc.renames, eq_iff s.type_as_string "xiaomi pick up sensor")

module _ (p : Platform) (own : ℕ → ℕ → Type 0) (doc : IsDocumented p) where
  load_sensor-IsListed :
      (sub_hal : ℕ) (sensor : SensorInfo) (t : Table)
      → sub_hal_index_is_clear p.sub_hal_index_mask sensor.sensor_handle ≡ true
      → own sub_hal sensor.sensor_handle
      → All (IsListed p own (sub_hal + 1) t.direct_channel_sub_hal) t.sensors
      → let t' = load_sensor p sub_hal sensor t in
        All (IsListed p own (sub_hal + 1) t'.direct_channel_sub_hal) t'.sensors
  unfolding load_sensor
  load_sensor-IsListed sub_hal sensor t clear owns listed =
      elim (Bool-cases (patch_xiaomi_pickup_sensor p flagged.0).1) [
        | inl kept ↦
            let named = patch_xiaomi_pickup_sensor_lem p doc flagged.0 kept in
            rw (kept, load_sensor)
              (All-insert ℕ_discrete (IsListed p own (sub_hal + 1) flagged.1) handle _ t.sensors
                (record {
                  sub_hal = sub_hal;
                  own_handle = sensor.sensor_handle;
                  loaded = omega arith;
                  owned = owns;
                  own_clear = clear;
                  marked = named.1 ∙ direct.1;
                  keyed = sym (named.1 ∙ direct.1);
                  patched = named.0;
                  direct_chosen = rw (named.2) direct.0;
                })
                older)
        | inr dropped ↦ rw (dropped, load_sensor) older
      ]
    where
      handle : ℕ
      handle = set_sub_hal_index sensor.sensor_handle sub_hal

      flagged : SensorInfo × Option ℕ
      flagged =
          set_direct_channel_flags p (record sensor { sensor_handle = handle }) sub_hal
            t.direct_channel_sub_hal

      direct :
          ((bit_and flagged.0.flags (direct_mask p) ≡ 0) ⊎ (flagged.1 ≡ some sub_hal))
          × (flagged.0.sensor_handle ≡ handle)
          × Grows t.direct_channel_sub_hal flagged.1
      direct = set_direct_channel_flags_lem p doc _ sub_hal t.direct_channel_sub_hal

      older : All (IsListed p own (sub_hal + 1) flagged.1) t.sensors
      older =
          All-weaken _ _ t.sensors
            (λ e l.
              IsListed-mono p own (sub_hal + 1) (sub_hal + 1) t.direct_channel_sub_hal flagged.1 e
                (omega arith) direct.2 l)
            listed

  load_sub_hal-IsListed :
      (sub_hal : ℕ) (list : List SensorInfo) (t : Table)
      → All (λ s. own sub_hal s.sensor_handle) list
      → All (IsListed p own (sub_hal + 1) t.direct_channel_sub_hal) t.sensors
      → let t' = load_sub_hal p sub_hal list t in
        All (IsListed p own (sub_hal + 1) t'.direct_channel_sub_hal) t'.sensors
  unfolding load_sub_hal
  load_sub_hal-IsListed sub_hal [] t owns listed = listed
  load_sub_hal-IsListed sub_hal (sensor ∷ list) t owns listed =
      elim (Bool-cases (sub_hal_index_is_clear p.sub_hal_index_mask sensor.sensor_handle)) [
        | inl clear ↦
            rw (clear, load_sub_hal)
              (load_sub_hal-IsListed sub_hal list (load_sensor p sub_hal sensor t) owns.1
                (load_sensor-IsListed sub_hal sensor t clear owns.0 listed))
        | inr refused ↦
            rw (refused, load_sub_hal) (load_sub_hal-IsListed sub_hal list t owns.1 listed)
      ]

  load_sub_hals-IsListed :
      (sub_hal total : ℕ) (lists : List (List SensorInfo)) (t : Table)
      → sub_hal + length lists ≡ total
      → AllOwn own sub_hal lists
      → All (IsListed p own sub_hal t.direct_channel_sub_hal) t.sensors
      → let t' = load_sub_hals p sub_hal lists t in
        All (IsListed p own total t'.direct_channel_sub_hal) t'.sensors
  unfolding load_sub_hals AllOwn
  load_sub_hals-IsListed sub_hal total [] t e owns listed =
      let same : sub_hal ≡ total = omega arith in rw same at listed
  load_sub_hals-IsListed sub_hal total (list ∷ lists) t e owns listed =
      load_sub_hals-IsListed (sub_hal + 1) total lists (load_sub_hal p sub_hal list t) (omega arith)
        owns.1
        (load_sub_hal-IsListed sub_hal list t owns.0 (
          All-weaken _ _ t.sensors
            (λ entry. IsListed-mono p own sub_hal (sub_hal + 1) _ _ entry (omega arith) (inr refl))
            listed))

module _ (p : Platform) (doc : IsDocumented p) where
  -- Whatever the sub-HALs list, each entry of the table stands under its own handle, the handle is
  -- one with a clear first byte that a sub-HAL lists, marked with that sub-HAL's index, no unpatched
  -- pick-up sensor is left, and every sensor with a direct channel belongs to the one sub-HAL that
  -- the proxy has chosen for them.
  pub initialize_sensor_list-IsListed :
      (lists : List (List SensorInfo))
      → let t = initialize_sensor_list p lists in
        All (IsListed p (Lists lists) (length lists) t.direct_channel_sub_hal) t.sensors
  unfolding initialize_sensor_list
  initialize_sensor_list-IsListed lists =
      load_sub_hals-IsListed p (Lists lists) doc 0 (length lists) lists no_sensors (omega arith)
        (lists_own lists [] lists 0 refl refl) tt

  -- Taking direct channels from a sensor does not change whether it wakes the device up.
  pub set_direct_channel_flags-wake_up :
      (s : SensorInfo) (sub_hal : ℕ) (d : Option ℕ)
      → bit_and (set_direct_channel_flags p s sub_hal d).0.flags p.wake_up
        ≡ bit_and s.flags p.wake_up
  unfolding set_direct_channel_flags
  set_direct_channel_flags-wake_up s sub_hal d = ground (
    arith,
    bit_and_kept 32 s.flags (direct_mask p) p.wake_up doc.direct_fits doc.wake_up_fits,
    doc.wake_up_apart,
  )
