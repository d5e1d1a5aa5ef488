-- ===== src/Fingerprint/Notify.antt =====
-- `notify`, fingerprint/BiometricsFingerprint.cpp: what the client's callback is told of a message
-- of the vendor library. A token is a list of bytes.
pub mod Laws
use device_xiaomi_camellia.Base.{
  ℕ, true, false, Option, none, some, List, [], ◌==◌, not, if◌then◌else◌,
}
use device_xiaomi_camellia.Fingerprint.Filters.{
  Labels, FingerprintError, FingerprintAcquiredInfo, vendor_error_filter, vendor_acquired_filter,
}
use device_xiaomi_camellia.Fingerprint.Device.{BiometricsFingerprint, device_id}

-- `fingerprint_msg_t`; `other` is a message of any other type.
pub data Message : Type 0 where
  error acquired : ℕ → Message
  template_enrolling template_removed template_enumerating : ℕ → ℕ → ℕ → Message
  authenticated : ℕ → ℕ → List ℕ → Message
  other : Message

-- A call of the client's callback, with the device's id first.
pub data Told : Type 0 where
  on_error : ℕ → FingerprintError → ℕ → Told
  on_acquired : ℕ → FingerprintAcquiredInfo → ℕ → Told
  on_enroll_result on_removed on_enumerate : ℕ → ℕ → ℕ → ℕ → Told
  on_authenticated : ℕ → ℕ → ℕ → List ℕ → Told

module _ (l : Labels) where
  dispatch : ℕ → Message → Option Told
  unfolding vendor_error_filter vendor_acquired_filter
  dispatch id (error number) =
      let (result, vendor_code) = vendor_error_filter l number in
      some (on_error id result vendor_code)
  dispatch id (acquired info) =
      let (result, vendor_code) = vendor_acquired_filter l info in
      some (on_acquired id result vendor_code)
  dispatch id (template_enrolling fid gid remaining) = some (on_enroll_result id fid gid remaining)
  dispatch id (template_removed fid gid remaining) = some (on_removed id fid gid remaining)
  dispatch id (authenticated fid gid hat) =
      if not (fid == 0)
      then some (on_authenticated id fid gid hat)
      else some (on_authenticated id fid gid [])
  dispatch id (template_enumerating fid gid remaining) = some (on_enumerate id fid gid remaining)
  dispatch id other = none

  -- Nothing is told before a callback is registered.
  unfoldable pub notify : BiometricsFingerprint → Message → Option Told
  unfolding dispatch
  notify this message = elim this.client_callback [
    | none ↦ none
    | some client ↦ dispatch (device_id this) message
  ]
