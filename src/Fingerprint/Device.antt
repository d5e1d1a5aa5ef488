-- ===== src/Fingerprint/Device.antt =====
-- The device behind the wrapper and the calls to it, fingerprint/BiometricsFingerprint.cpp. What
-- the platform finds under a module's name is the parameter `Module`, and the vendor's device is
-- the parameter `Vendor`, over a state `W` of its own; each of its calls returns an `int32_t`. A
-- pointer is its address, and a call through a null pointer has no result.
pub mod Laws
use device_xiaomi_camellia.Base.{
  ℕ, ◌-◌, Bool, true, false, not, ◌&&◌, ◌||◌, Option, none, some, List, [], ◌∷◌, String, ltb, leb,
  ◌==◌, if◌then◌else◌,
}
use device_xiaomi_camellia.Fingerprint.Filters.{RequestStatus, sys_einval, error_filter}

pub data FpHal : Type 0 where
  unknown fpc goodix : FpHal

unfoldable pub fp_hal_to_string : FpHal → String
fp_hal_to_string fpc = "fpc"
fp_hal_to_string goodix = "goodix"
fp_hal_to_string unknown = "none"

-- A map by the number of the HAL; `id` is `FINGERPRINT_HARDWARE_MODULE_ID`.
abbrev pub fp_hals : String → List (FpHal × String)
fp_hals id = (fpc, id) ∷ (goodix, "gf_fingerprint") ∷ []

-- `hw_get_module`, the module's `open` and the device's `set_notify`, with their error numbers.
pub record Module : Type 0 where
  pub get_error : ℕ
  pub has_module : Bool
  pub has_open : Bool
  pub open_error : ℕ
  pub version : ℕ
  pub set_notify_error : ℕ
  pub address : ℕ

pub record BiometricsFingerprint : Type 0 where
  pub client_callback : Option ℕ
  pub device : Option ℕ
  pub current_hal : FpHal

unfoldable pub open_hal : ℕ → (String → Module) → String → Option ℕ
open_hal version get_module hal =
    let m = get_module hal in
    if not (m.get_error == 0)
    then none
    else if not m.has_module
    then none
    else if not m.has_open
    then none
    else if not (m.open_error == 0)
    then none
    else if not (version == m.version)
    then none
    else if not (m.set_notify_error == 0)
    then none
    else some m.address

-- The loop of the constructor, with the members as they are before it.
open_first :
    ℕ → (String → Module) → List (FpHal × String) → BiometricsFingerprint → BiometricsFingerprint
open_first version get_module [] this = this
open_first version get_module ((hal, name) ∷ hals) this = elim (open_hal version get_module name) [
  | some device ↦ record this { device = some device; current_hal = hal }
  | none ↦ open_first version get_module hals (record this { device = none })
]

-- The constructor, with the value of `persist.vendor.sys.fp.vendor` that it sets. It does not
-- initialize `currentHal`: `left_over` is what the memory holds. `sInstance`, which it makes point
-- to the object before anything else, is a result of `get_instance`, its only caller.
unfoldable pub biometrics_fingerprint :
    ℕ → (String → Module) → String → FpHal → BiometricsFingerprint × String
unfolding open_first fp_hal_to_string
biometrics_fingerprint version get_module id left_over =
    let this =
      open_first version get_module (fp_hals id)
        (record { client_callback = none; device = none; current_hal = left_over }) in
    (this, fp_hal_to_string this.current_hal)

-- `getInstance`, with the value of `sInstance`; the object is constructed by the first call.
unfoldable pub get_instance :
    ℕ
    → (String → Module)
    → String
    → FpHal
    → Option BiometricsFingerprint
    → BiometricsFingerprint × Option BiometricsFingerprint
unfolding biometrics_fingerprint
get_instance version get_module id left_over (some instance_) = (instance_, some instance_)
get_instance version get_module id left_over none =
    let (this, property) = biometrics_fingerprint version get_module id left_over in
    (this, some this)

-- The destructor; `close_error` is what closing the device returns.
unfoldable pub destroy : ℕ → BiometricsFingerprint → BiometricsFingerprint
destroy close_error this = elim this.device [
  | none ↦ this
  | some device ↦ if not (close_error == 0) then this else record this { device = none }
]

abbrev pub device_id : BiometricsFingerprint → ℕ
device_id this = elim this.device [ none ↦ 0 | some device ↦ device ]

unfoldable pub set_notify : Option ℕ → BiometricsFingerprint → ℕ × BiometricsFingerprint
set_notify client_callback this =
    (device_id this, record this { client_callback = client_callback })

pub record Vendor (W : Type 0) : Type 0 where
  pub pre_enroll : ℕ → W → ℕ × W
  pub enroll : ℕ → List ℕ → ℕ → ℕ → W → ℕ × W
  pub post_enroll : ℕ → W → ℕ × W
  pub get_authenticator_id : ℕ → W → ℕ × W
  pub cancel : ℕ → W → ℕ × W
  pub enumerate : ℕ → W → ℕ × W
  pub remove : ℕ → ℕ → ℕ → W → ℕ × W
  pub set_active_group : ℕ → ℕ → String → W → ℕ × W
  pub authenticate : ℕ → ℕ → ℕ → W → ℕ × W

module _ {W : Type 0} (v : Vendor W) (this : BiometricsFingerprint) where
  -- `mDevice->call(mDevice, ...)`
  abbrev pub through : (ℕ → W → ℕ × W) → W → Option (ℕ × W)
  through call w = elim this.device [ none ↦ none | some device ↦ some (call device w) ]

  -- `ErrorFilter(mDevice->call(mDevice, ...))`
  abbrev pub filtered : (ℕ → W → ℕ × W) → W → Option (RequestStatus × W)
  filtered call w = elim this.device [
    | none ↦ none
    | some device ↦ let (error, w') = call device w in some (error_filter error, w')
  ]

  unfoldable pub pre_enroll : W → Option (ℕ × W)
  pre_enroll w = through v.pre_enroll w

  unfoldable pub get_authenticator_id : W → Option (ℕ × W)
  get_authenticator_id w = through v.get_authenticator_id w

  unfoldable pub enroll : List ℕ → ℕ → ℕ → W → Option (RequestStatus × W)
  enroll hat gid timeout_sec w = filtered (λ d. v.enroll d hat gid timeout_sec) w

  unfoldable pub post_enroll : W → Option (RequestStatus × W)
  post_enroll w = filtered v.post_enroll w

  unfoldable pub cancel : W → Option (RequestStatus × W)
  cancel w = filtered v.cancel w

  unfoldable pub enumerate : W → Option (RequestStatus × W)
  enumerate w = filtered v.enumerate w

  unfoldable pub remove : ℕ → ℕ → W → Option (RequestStatus × W)
  remove gid fid w = filtered (λ d. v.remove d gid fid) w

  unfoldable pub authenticate : ℕ → ℕ → W → Option (RequestStatus × W)
  authenticate operation_id gid w = filtered (λ d. v.authenticate d operation_id gid) w

  -- `size` counts the bytes of a text, `access` tells whether a path may be written, and `path_max`
  -- is `PATH_MAX`.
  unfoldable pub set_active_group :
      (String → ℕ) → (String → Bool) → ℕ → ℕ → String → W → Option (RequestStatus × W)
  set_active_group size access path_max gid store_path w =
      if leb path_max (size store_path) || leb (size store_path) 0
      then some (sys_einval, w)
      else if not (access store_path)
      then some (sys_einval, w)
      else filtered (λ d. v.set_active_group d gid store_path) w
