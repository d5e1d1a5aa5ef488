-- ===== src/Fingerprint/Filters.antt =====
-- The translations of numbers of the vendor library, fingerprint/BiometricsFingerprint.cpp. An
-- `int32_t` is its bit pattern. The labels of fingerprint.h stand in a header of the platform: they
-- are the parameter `Labels`.
pub mod Laws
use device_xiaomi_camellia.Base.{ℕ, ◌-◌, ◌^◌, Bool, ◌&&◌, ltb, leb, ◌==◌, if◌then◌else◌}

pub data RequestStatus : Type 0 where
  sys_unknown sys_ok sys_enoent sys_eintr sys_eio sys_eagain sys_enomem : RequestStatus
  sys_eacces sys_efault sys_ebusy sys_einval sys_enospc sys_etimedout : RequestStatus

-- The negative `int32_t` with this absolute value.
abbrev pub minus : ℕ → ℕ
minus n = 2 ^ 32 - n

unfoldable pub error_filter : ℕ → RequestStatus
error_filter error =
    if error == 0
    then sys_ok
    else if error == minus 2
    then sys_enoent
    else if error == minus 4
    then sys_eintr
    else if error == minus 5
    then sys_eio
    else if error == minus 11
    then sys_eagain
    else if error == minus 12
    then sys_enomem
    else if error == minus 13
    then sys_eacces
    else if error == minus 14
    then sys_efault
    else if error == minus 16
    then sys_ebusy
    else if error == minus 22
    then sys_einval
    else if error == minus 28
    then sys_enospc
    else if error == minus 110
    then sys_etimedout
    else sys_unknown

pub data FingerprintError : Type 0 where
  error_hw_unavailable error_unable_to_process error_timeout error_no_space : FingerprintError
  error_canceled error_unable_to_remove error_lockout error_vendor : FingerprintError

pub data FingerprintAcquiredInfo : Type 0 where
  acquired_good acquired_partial acquired_insufficient : FingerprintAcquiredInfo
  acquired_imager_dirty acquired_too_slow acquired_too_fast : FingerprintAcquiredInfo
  acquired_vendor : FingerprintAcquiredInfo

pub record Labels : Type 0 where
  pub hw_unavailable : ℕ
  pub unable_to_process : ℕ
  pub timeout : ℕ
  pub no_space : ℕ
  pub canceled : ℕ
  pub unable_to_remove : ℕ
  pub lockout : ℕ
  pub error_vendor_base : ℕ
  pub good : ℕ
  pub partial : ℕ
  pub insufficient : ℕ
  pub imager_dirty : ℕ
  pub too_slow : ℕ
  pub too_fast : ℕ
  pub acquired_vendor_base : ℕ

-- The values of hardware/fingerprint.h.
abbrev pub labels : Labels
labels = record {
  hw_unavailable = 1;
  unable_to_process = 2;
  timeout = 3;
  no_space = 4;
  canceled = 5;
  unable_to_remove = 6;
  lockout = 7;
  error_vendor_base = 1000;
  good = 0;
  partial = 1;
  insufficient = 2;
  imager_dirty = 3;
  too_slow = 4;
  too_fast = 5;
  acquired_vendor_base = 1000;
}

-- `number >= base`, of signed numbers, the base not negative.
abbrev pub is_from : ℕ → ℕ → Bool
is_from base number = ltb number (2 ^ 31) && leb base number

module _ (l : Labels) where
  -- The error, and `*vendorCode`.
  unfoldable pub vendor_error_filter : ℕ → FingerprintError × ℕ
  vendor_error_filter error =
      if error == l.hw_unavailable
      then (error_hw_unavailable, 0)
      else if error == l.unable_to_process
      then (error_unable_to_process, 0)
      else if error == l.timeout
      then (error_timeout, 0)
      else if error == l.no_space
      then (error_no_space, 0)
      else if error == l.canceled
      then (error_canceled, 0)
      else if error == l.unable_to_remove
      then (error_unable_to_remove, 0)
      else if error == l.lockout
      then (error_lockout, 0)
      else if is_from l.error_vendor_base error
      then (error_vendor, error - l.error_vendor_base)
      else (error_unable_to_process, 0)

  unfoldable pub vendor_acquired_filter : ℕ → FingerprintAcquiredInfo × ℕ
  vendor_acquired_filter info =
      if info == l.good
      then (acquired_good, 0)
      else if info == l.partial
      then (acquired_partial, 0)
      else if info == l.insufficient
      then (acquired_insufficient, 0)
      else if info == l.imager_dirty
      then (acquired_imager_dirty, 0)
      else if info == l.too_slow
      then (acquired_too_slow, 0)
      else if info == l.too_fast
      then (acquired_too_fast, 0)
      else if is_from l.acquired_vendor_base info
      then (acquired_vendor, info - l.acquired_vendor_base)
      else (acquired_insufficient, 0)
