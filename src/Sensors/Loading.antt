-- ===== src/Sensors/Loading.antt =====
-- How the proxy finds its sub-HALs: `initializeSubHalListFromConfigFile`, what it calls, and the
-- constructors, sensors/HalProxy.cpp. What the dynamic linker opens and what a library's functions
-- answer, with the versions of the platform, is the parameter `Loader`. A sub-HAL is an `H`.
pub mod Words
pub mod Laws
pub mod Reached
use Prim.Native.String
use device_xiaomi_camellia.Base.{
  ℕ, Bool, true, false, ◌||◌, Option, none, some, List, [], ◌∷◌, ◌++◌, map, String, ◌<>◌, str_eq,
  ◌==◌, if◌then◌else◌,
}
use device_xiaomi_camellia.Sensors.Platform.{Platform, SensorInfo}
use device_xiaomi_camellia.Sensors.SensorList.{Table, initialize_sensor_list}

-- A library: for each of its two functions, if `dlsym` finds it, the version that it writes and the
-- sub-HAL that it returns.
pub record Library (H : Type 0) : Type 0 where
  pub get_sub_hal : Option (ℕ × H)
  pub get_sub_hal_2_1 : Option (ℕ × H)

-- `open_library` is `dlopen`; `lp64` is whether `__LP64__` is defined.
pub record Loader (H : Type 0) : Type 0 where
  pub open_library : String → Option (Library H)
  pub lp64 : Bool
  pub sub_hal_2_0_version : ℕ
  pub sub_hal_2_1_version : ℕ

pub data Wrapper (H : Type 0) : Type 0 where
  v2_0 v2_1 : H → Wrapper H

abbrev pub is_space : String → Bool
is_space c =
    str_eq c " "
    || str_eq c "\n"
    || str_eq c "\t"
    || str_eq c "\r"
    || str_eq c "\u{b}"
    || str_eq c "\u{c}"

-- The parts between single white spaces, empty ones included.
unfoldable pub parts : String → List String
parts String.[] = "" ∷ []
parts (String.◌∷◌ c s) =
    let rest = parts s in
    if is_space (String.◌∷◌ c "")
    then "" ∷ rest
    else elim rest [ [] ↦ String.◌∷◌ c "" ∷ [] | part ∷ more ↦ String.◌∷◌ c part ∷ more ]

unfoldable pub not_empty : List String → List String
not_empty [] = []
not_empty (part ∷ more) = let rest = not_empty more in if str_eq part "" then rest else part ∷ rest

-- What `stream >> word` reads, one word after the other.
unfoldable pub words : String → List String
unfolding parts not_empty
words text = not_empty (parts text)

module _ {H : Type 0} (L : Loader H) where
  abbrev pub sub_hal_share_object_locations : List String
  sub_hal_share_object_locations =
      ""
      ∷ (if L.lp64 then "/vendor/lib64/hw/" else "/vendor/lib/hw/")
      ∷ (if L.lp64 then "/odm/lib64/hw/" else "/odm/lib/hw/")
      ∷ []

  unfoldable pub open_in : List String → String → Option (Library H)
  open_in [] filename = none
  open_in (dir ∷ dirs) filename =
      let later = open_in dirs filename in
      elim (L.open_library (dir <> filename)) [ some handle ↦ some handle | none ↦ later ]

  unfoldable pub get_handle_for_sub_hal_shared_object : String → Option (Library H)
  unfolding open_in
  get_handle_for_sub_hal_shared_object filename = open_in sub_hal_share_object_locations filename

  -- A library that has the function of version 2.0 is not asked for that of version 2.1.
  unfoldable pub add_library : Library H → List (Wrapper H) → List (Wrapper H)
  add_library library sub_hals = elim library.get_sub_hal [
    | some (version, sub_hal) ↦
        if version == L.sub_hal_2_0_version then sub_hals ++ v2_0 sub_hal ∷ [] else sub_hals
    | none ↦ elim library.get_sub_hal_2_1 [
      | none ↦ sub_hals
      | some (version, sub_hal) ↦
          if version == L.sub_hal_2_1_version then sub_hals ++ v2_1 sub_hal ∷ [] else sub_hals
    ]
  ]

  unfoldable pub load_library : String → List (Wrapper H) → List (Wrapper H)
  unfolding add_library
  load_library name sub_hals = elim (get_handle_for_sub_hal_shared_object name) [
    | none ↦ sub_hals
    | some library ↦ add_library library sub_hals
  ]

  unfoldable pub load_libraries : List String → List (Wrapper H) → List (Wrapper H)
  unfolding load_library
  load_libraries [] sub_hals = sub_hals
  load_libraries (name ∷ names) sub_hals = load_libraries names (load_library name sub_hals)

  -- `config` is the text of the file, if it can be opened.
  unfoldable pub initialize_sub_hal_list_from_config_file :
      Option String → List (Wrapper H) → List (Wrapper H)
  unfolding load_libraries words
  initialize_sub_hal_list_from_config_file config sub_hals = elim config [
    | none ↦ sub_hals
    | some text ↦ load_libraries (words text) sub_hals
  ]

  -- `HalProxy()`: the sub-HALs and the table of sensors. `lists` are the sensors that a sub-HAL
  -- lists.
  unfoldable pub hal_proxy :
      Platform → Option String → (Wrapper H → List SensorInfo) → List (Wrapper H) × Table
  unfolding initialize_sub_hal_list_from_config_file
  hal_proxy p config lists =
      let sub_hals = initialize_sub_hal_list_from_config_file config [] in
      (sub_hals, initialize_sensor_list p (map lists sub_hals))

module _ {H : Type 0} where
  -- The constructors that take the sub-HALs.
  unfoldable pub hal_proxy_of :
      Platform → List H → List H → (Wrapper H → List SensorInfo) → List (Wrapper H) × Table
  hal_proxy_of p sub_hal_list sub_hal_list_2_1 lists =
      let sub_hals = map v2_0 sub_hal_list ++ map v2_1 sub_hal_list_2_1 in
      (sub_hals, initialize_sensor_list p (map lists sub_hals))

-- `getSensorsList_2_1` and `getSensorsList`; the conversion is the platform's.
unfoldable pub get_sensors_list_2_1 : List (ℕ × SensorInfo) → List SensorInfo
get_sensors_list_2_1 sensors = map (λ entry. entry.1) sensors

unfoldable pub get_sensors_list : {A : Type 0} → (SensorInfo → A) → List (ℕ × SensorInfo) → List A
get_sensors_list convert_to_old_sensor_info sensors =
    map (λ entry. convert_to_old_sensor_info entry.1) sensors
