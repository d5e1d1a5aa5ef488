-- ===== src/Fingerprint/Filters/Laws.antt =====
-- What the answers tell of the vendor's numbers.
use device_xiaomi_camellia.Base.{ℕ, ◌+◌, ◌≡◌, ◌≢◌, refl, Option, none, some, arith, ◌↔◌}
use device_xiaomi_camellia.Fingerprint.Filters.{
  RequestStatus, sys_unknown, sys_ok, sys_enoent, sys_eintr, sys_eio, sys_eagain, sys_enomem,
  sys_eacces, sys_efault, sys_ebusy, sys_einval, sys_enospc, sys_etimedout, error_filter, minus,
  Labels, FingerprintError, error_hw_unavailable, error_unable_to_process, error_timeout,
  error_no_space, error_canceled, error_unable_to_remove, error_lockout, error_vendor,
  FingerprintAcquiredInfo, acquired_good, acquired_partial, acquired_insufficient,
  acquired_imager_dirty, acquired_too_slow, acquired_too_fast, acquired_vendor, vendor_error_filter,
  vendor_acquired_filter,
}

-- The error number that a status is named for, if it is named for one.
pub errno : RequestStatus → Option ℕ
errno sys_unknown = none
errno sys_ok = some 0
errno sys_enoent = some (minus 2)
errno sys_eintr = some (minus 4)
errno sys_eio = some (minus 5)
errno sys_eagain = some (minus 11)
errno sys_enomem = some (minus 12)
errno sys_eacces = some (minus 13)
errno sys_efault = some (minus 14)
errno sys_ebusy = some (minus 16)
errno sys_einval = some (minus 22)
errno sys_enospc = some (minus 28)
errno sys_etimedout = some (minus 110)

-- A status other than unknown is the answer to exactly the error number that it is named for.
pub error_filter-errno :
    (error : ℕ) (status : RequestStatus)
    → status ≢ sys_unknown
    → (error_filter error ≡ status) ↔ (errno status ≡ some error)
unfolding error_filter errno
error_filter-errno error sys_unknown known = (λ e. absurd (known refl), λ e. absurd (known refl))
error_filter-errno error sys_ok known = ground arith
error_filter-errno error sys_enoent known = ground arith
error_filter-errno error sys_eintr known = ground arith
error_filter-errno error sys_eio known = ground arith
error_filter-errno error sys_eagain known = ground arith
error_filter-errno error sys_enomem known = ground arith
error_filter-errno error sys_eacces known = ground arith
error_filter-errno error sys_efault known = ground arith
error_filter-errno error sys_ebusy known = ground arith
error_filter-errno error sys_einval known = ground arith
error_filter-errno error sys_enospc known = ground arith
error_filter-errno error sys_etimedout known = ground arith

module _ (l : Labels) where
  -- The vendor's number behind an error and its vendor code.
  pub vendor_error : FingerprintError × ℕ → ℕ
  vendor_error (error_hw_unavailable, code) = l.hw_unavailable
  vendor_error (error_unable_to_process, code) = l.unable_to_process
  vendor_error (error_timeout, code) = l.timeout
  vendor_error (error_no_space, code) = l.no_space
  vendor_error (error_canceled, code) = l.canceled
  vendor_error (error_unable_to_remove, code) = l.unable_to_remove
  vendor_error (error_lockout, code) = l.lockout
  vendor_error (error_vendor, code) = l.error_vendor_base + code

  -- Whatever the values of the labels, an answer other than "unable to process" with its vendor
  -- code tells the vendor's error.
  pub vendor_error-vendor_error_filter :
      (error : ℕ)
      → (vendor_error_filter l error).0 ≢ error_unable_to_process
      → vendor_error (vendor_error_filter l error) ≡ error
  unfolding vendor_error_filter vendor_error
  vendor_error-vendor_error_filter error known = ground arith

  -- The vendor's number behind an acquired message and its vendor code.
  pub vendor_acquired : FingerprintAcquiredInfo × ℕ → ℕ
  vendor_acquired (acquired_good, code) = l.good
  vendor_acquired (acquired_partial, code) = l.partial
  vendor_acquired (acquired_insufficient, code) = l.insufficient
  vendor_acquired (acquired_imager_dirty, code) = l.imager_dirty
  vendor_acquired (acquired_too_slow, code) = l.too_slow
  vendor_acquired (acquired_too_fast, code) = l.too_fast
  vendor_acquired (acquired_vendor, code) = l.acquired_vendor_base + code

  -- Whatever the values of the labels, an answer other than "insufficient" with its vendor code
  -- tells the vendor's acquired message.
  pub vendor_acquired-vendor_acquired_filter :
      (info : ℕ)
      → (vendor_acquired_filter l info).0 ≢ acquired_insufficient
      → vendor_acquired (vendor_acquired_filter l info) ≡ info
  unfolding vendor_acquired_filter vendor_acquired
  vendor_acquired-vendor_acquired_filter info known = ground arith
