-- ===== src/Fingerprint/Device/Laws.antt =====
-- Which HAL is opened, and when a call succeeds.
use device_xiaomi_camellia.Base.{
  inl, inr, ℕ, ◌<◌, ◌≡◌, ◌⊎◌, none, some, String, List, arith, true, ◌↔◌, Option-cases, Bool,
}
use device_xiaomi_camellia.Fingerprint.Filters.{sys_ok, error_filter}
use device_xiaomi_camellia.Fingerprint.Device.{
  FpHal, Module, BiometricsFingerprint, open_hal, biometrics_fingerprint, fp_hal_to_string, Vendor,
  enroll, post_enroll, cancel, enumerate, remove, authenticate, set_active_group, filtered,
}

-- The first of the two HALs that opens is used and named by the property. If neither opens there
-- is no device, and the property names whatever the uninitialized member holds.
pub biometrics_fingerprint_lem :
    (version : ℕ) (get_module : String → Module) (id : String) (left_over : FpHal)
    → let (this, vendor) = biometrics_fingerprint version get_module id left_over in
      ((device : ℕ) × (open_hal version get_module id ≡ some device)
        × (this.device ≡ some device)
        × (vendor ≡ "fpc"))
      ⊎ ((open_hal version get_module id ≡ none)
          × ((device : ℕ) × (open_hal version get_module "gf_fingerprint" ≡ some device)
              × (this.device ≡ some device)
              × (vendor ≡ "goodix")))
      ⊎ ((open_hal version get_module id ≡ none)
          × (open_hal version get_module "gf_fingerprint" ≡ none)
          × (this.device ≡ none)
          × (vendor ≡ fp_hal_to_string left_over))
unfolding biometrics_fingerprint
biometrics_fingerprint_lem version get_module id left_over =
    elim (Option-cases (open_hal version get_module id)) [
      | inr (device, e) ↦ inl (device, e, ground (arith, e), ground (arith, e))
      | inl e ↦ elim (Option-cases (open_hal version get_module "gf_fingerprint")) [
        | inr (device, e') ↦
            inr (inl (e, (device, e', ground (arith, e, e'), ground (arith, e, e'))))
        | inl e' ↦ inr (inr (e, e', ground (arith, e, e'), ground (arith, e, e')))
      ]
    ]

-- A module that opens is there, has the wanted version and has taken the callback.
pub open_hal_lem :
    (version : ℕ) (get_module : String → Module) (hal : String) (device : ℕ)
    → open_hal version get_module hal ≡ some device
    → let m = get_module hal in
      (m.get_error ≡ 0)
      × (m.has_module ≡ true)
      × (m.has_open ≡ true)
      × (m.open_error ≡ 0)
      × (m.version ≡ version)
      × (m.set_notify_error ≡ 0)
      × (device ≡ m.address)
unfolding open_hal
open_hal_lem version get_module hal device opened = ground arith

error_filter_ok : (error : ℕ) → (error_filter error ≡ sys_ok) ↔ (error ≡ 0)
unfolding error_filter
error_filter_ok error = ground arith

module _ {W : Type 0} (v : Vendor W) (this : BiometricsFingerprint) (device : ℕ)
    (opened : this.device ≡ some device) where
  filtered_ok :
      (call : ℕ → W → ℕ × W) (w w' : W)
      → (filtered v this call w ≡ some (sys_ok, w')) ↔ (call device w ≡ (0, w'))
  filtered_ok call w w' = ground (arith, opened, error_filter_ok (call device w).0)

  -- With an open device a call answers OK exactly when the vendor's call returns 0, and leaves the
  -- state that the vendor's call leaves.
  pub calls_ok :
      (hat : List ℕ) (gid fid timeout_sec operation_id : ℕ) (w w' : W)
      → ((enroll v this hat gid timeout_sec w ≡ some (sys_ok, w'))
          ↔ (v.enroll device hat gid timeout_sec w ≡ (0, w')))
        × ((post_enroll v this w ≡ some (sys_ok, w')) ↔ (v.post_enroll device w ≡ (0, w')))
        × ((cancel v this w ≡ some (sys_ok, w')) ↔ (v.cancel device w ≡ (0, w')))
        × ((enumerate v this w ≡ some (sys_ok, w')) ↔ (v.enumerate device w ≡ (0, w')))
        × ((remove v this gid fid w ≡ some (sys_ok, w')) ↔ (v.remove device gid fid w ≡ (0, w')))
        × ((authenticate v this operation_id gid w ≡ some (sys_ok, w'))
            ↔ (v.authenticate device operation_id gid w ≡ (0, w')))
  unfolding enroll post_enroll cancel enumerate remove authenticate
  calls_ok hat gid fid timeout_sec operation_id w w' = (
    filtered_ok (λ d. v.enroll d hat gid timeout_sec) w w',
    filtered_ok v.post_enroll w w',
    filtered_ok v.cancel w w',
    filtered_ok v.enumerate w w',
    filtered_ok (λ d. v.remove d gid fid) w w',
    filtered_ok (λ d. v.authenticate d operation_id gid) w w',
  )

  -- The active group is set exactly when the path is not empty, is shorter than the limit and may
  -- be written, and the vendor's call returns 0.
  pub set_active_group_ok :
      (size : String → ℕ) (access : String → Bool) (path_max gid : ℕ) (path : String) (w w' : W)
      → (set_active_group v this size access path_max gid path w ≡ some (sys_ok, w')) ↔ (
          (0 < size path)
          × (size path < path_max)
          × (access path ≡ true)
          × (v.set_active_group device gid path w ≡ (0, w')))
  unfolding set_active_group
  set_active_group_ok size access path_max gid path w w' =
      ground (arith, filtered_ok (λ d. v.set_active_group d gid path) w w')
