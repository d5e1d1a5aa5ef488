-- ===== src/Sensors/Loading/Reached.antt =====
-- The sensors that the proxy lists to the framework are those that it can be asked for.
use device_xiaomi_camellia.Base.{
  ℕ, ◌≤◌, ◌<◌, ◌^◌, ◌≡◌, Bool, true, Option, List, [], ◌∷◌, map, String, arith, All, All-weaken,
  length, contains, zero, suc,
}
use device_xiaomi_camellia.Sensors.Platform.{Platform, IsDocumented, SensorInfo}
use device_xiaomi_camellia.Sensors.Handle.Laws.{fits_of_clear, set_sub_hal_index_lem}
use device_xiaomi_camellia.Sensors.SensorList.Owned.{Lists, handles}
use device_xiaomi_camellia.Sensors.SensorList.Laws.{IsListed, initialize_sensor_list-IsListed}
use device_xiaomi_camellia.Sensors.Proxy.{SubHals, activate, batch, flush}
use device_xiaomi_camellia.Sensors.Proxy.Routing.{activate-set_sub_hal_index}
use device_xiaomi_camellia.Sensors.Loading.{Loader, Wrapper, hal_proxy, get_sensors_list_2_1}

-- The handle is an `int32_t`.
abbrev pub Fits : SensorInfo → Type 0
Fits s = s.sensor_handle < 2 ^ 32

listed-Fits :
    (list : List SensorInfo) (own : ℕ)
    → All Fits list
    → contains own (handles list) ≡ true
    → own < 2 ^ 32
listed-Fits [] own fits h = cc
listed-Fits (s ∷ list) own fits h = ground (arith, listed-Fits list own fits.1, fits.0)

lists-Fits :
    (lists : List (List SensorInfo)) (i own : ℕ)
    → All (λ list. All Fits list) lists
    → Lists lists i own
    → own < 2 ^ 32
lists-Fits [] i own fits h = cc
lists-Fits (list ∷ lists) zero own fits h = listed-Fits list own fits.0 h
lists-Fits (list ∷ lists) (suc i) own fits h = lists-Fits lists i own fits.1 h

map-Fits :
    {A : Type 0} (f : A → List SensorInfo) (xs : List A)
    → ((x : A) → All Fits (f x))
    → All (λ list. All Fits list) (map f xs)
map-Fits f [] fits = tt
map-Fits f (x ∷ xs) fits = (fits x, map-Fits f xs fits)

length-map : {A B : Type 0} (f : A → B) (xs : List A) → length (map f xs) ≡ length xs
length-map f [] = omega arith
length-map f (x ∷ xs) = omega (arith, length-map f xs)

All-listed :
    (P : SensorInfo → Type 0) (sensors : List (ℕ × SensorInfo))
    → All (λ entry. P entry.1) sensors
    → All P (get_sensors_list_2_1 sensors)
unfolding get_sensors_list_2_1
All-listed P [] h = tt
All-listed P (entry ∷ sensors) h = (h.0, All-listed P sensors h.1)

-- An `int32_t` that is not negative, by its bit pattern.
abbrev pub IsNonNegative : SensorInfo → Type 0
IsNonNegative s = s.sensor_handle < 2 ^ 31

IsListed-IsNonNegative :
    (p : Platform) (doc : IsDocumented p) (lists : List (List SensorInfo)) (direct : Option ℕ)
    (entry : ℕ × SensorInfo)
    → length lists ≤ 128
    → All (λ list. All Fits list) lists
    → IsListed p (Lists lists) (length lists) direct entry
    → IsNonNegative entry.1
IsListed-IsNonNegative p doc lists direct entry few fit l =
    let own_fits = lists-Fits lists l.sub_hal l.own_handle fit l.owned in
    let small =
      fits_of_clear p.sub_hal_index_mask doc.first_byte l.own_handle own_fits l.own_clear in
    let below : l.sub_hal < 128 = omega (arith, l.loaded) in
    rw (l.marked, set_sub_hal_index_lem l.own_handle l.sub_hal small (omega arith)) (omega arith)

-- With at most 128 sub-HALs whose handles are `int32_t`, every handle that a proxy lists to the
-- framework is a non-negative `int32_t`, marks included.
pub get_sensors_list-IsNonNegative :
    {H : Type 0} (p : Platform) (doc : IsDocumented p) (L : Loader H) (config : Option String)
    (lists : Wrapper H → List SensorInfo)
    → length (hal_proxy L p config lists).0 ≤ 128
    → ((h : Wrapper H) → All Fits (lists h))
    → All IsNonNegative (get_sensors_list_2_1 (hal_proxy L p config lists).1.sensors)
unfolding hal_proxy
get_sensors_list-IsNonNegative p doc L config lists few fit =
    let sub_hals = (hal_proxy L p config lists).0 in
    let t = (hal_proxy L p config lists).1 in
    All-listed IsNonNegative t.sensors (
      All-weaken _ _ t.sensors
        (λ entry l.
          IsListed-IsNonNegative p doc (map lists sub_hals) t.direct_channel_sub_hal entry
            (omega (arith, length-map lists sub_hals)) (map-Fits lists sub_hals fit) l)
        (initialize_sensor_list-IsListed p doc (map lists sub_hals)))

module _ {W : Type 0} (p : Platform) (S : SubHals W) where
  -- A sub-HAL has listed the sensor, and the calls for it go to that sub-HAL with the handle that it
  -- listed.
  pub record IsReached (lists : List (List SensorInfo)) (sensor : SensorInfo) : Type 0 where
    pub sub_hal : ℕ
    pub own_handle : ℕ
    pub listed : Lists lists sub_hal own_handle
    pub activates :
        (enabled : Bool) (w : W)
        → activate p S sensor.sensor_handle enabled w ≡ S.activate sub_hal own_handle enabled w
    pub batches :
        (period latency : ℕ) (w : W)
        → batch p S sensor.sensor_handle period latency w
          ≡ S.batch sub_hal own_handle period latency w
    pub flushes : (w : W) → flush p S sensor.sensor_handle w ≡ S.flush sub_hal own_handle w

  IsListed-IsReached :
      (doc : IsDocumented p) (lists : List (List SensorInfo)) (direct : Option ℕ)
      (entry : ℕ × SensorInfo)
      → length lists ≡ S.size
      → S.size ≤ 128
      → All (λ list. All Fits list) lists
      → IsListed p (Lists lists) (length lists) direct entry
      → IsReached lists entry.1
  IsListed-IsReached doc lists direct entry size few fit l =
      let own_fits = lists-Fits lists l.sub_hal l.own_handle fit l.owned in
      let routes = λ (enabled : Bool) (period : ℕ) (latency : ℕ) (w : W).
        activate-set_sub_hal_index p S doc l.own_handle l.sub_hal enabled period latency w own_fits
          l.own_clear (omega (arith, l.loaded)) (omega (arith, l.loaded)) (omega arith) in
      record {
        sub_hal = l.sub_hal;
        own_handle = l.own_handle;
        listed = l.owned;
        activates = λ enabled w. rw (l.marked) (routes enabled 0 0 w).0;
        batches = λ period latency w. rw (l.marked) (routes true period latency w).1;
        flushes = λ w. rw (l.marked) (routes true 0 0 w).2;
      }

  -- With at most 128 sub-HALs whose handles are `int32_t`, every sensor that a proxy loaded from
  -- any configuration file lists to the framework is one that a sub-HAL lists, and `activate`,
  -- `batch` and `flush` for the handle in the list reach that sub-HAL under its own handle.
  pub get_sensors_list-IsReached :
      {H : Type 0} (doc : IsDocumented p) (L : Loader H) (config : Option String)
      (lists : Wrapper H → List SensorInfo)
      → length (hal_proxy L p config lists).0 ≡ S.size
      → S.size ≤ 128
      → ((h : Wrapper H) → All Fits (lists h))
      → let (sub_hals, t) = hal_proxy L p config lists in
        All (IsReached (map lists sub_hals)) (get_sensors_list_2_1 t.sensors)
  unfolding hal_proxy
  get_sensors_list-IsReached doc L config lists size few fit =
      let sub_hals = (hal_proxy L p config lists).0 in
      let t = (hal_proxy L p config lists).1 in
      All-listed (IsReached (map lists sub_hals)) t.sensors (
        All-weaken _ _ t.sensors
          (λ entry l.
            IsListed-IsReached doc (map lists sub_hals) t.direct_channel_sub_hal entry
              (omega (arith, length-map lists sub_hals)) few (map-Fits lists sub_hals fit) l)
          (initialize_sensor_list-IsListed p doc (map lists sub_hals)))
