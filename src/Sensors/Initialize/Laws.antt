-- ===== src/Sensors/Initialize/Laws.antt =====
-- The state that a (re)initialization leaves.
use device_xiaomi_camellia.Base.{◌↔◌, if◌then◌else◌, ℕ, zero, suc, ◌+◌, ◌≡◌, true, [], arith}
use device_xiaomi_camellia.Sensors.Platform.{Platform, Result, ok, bad_value, normal}
use device_xiaomi_camellia.Sensors.EventQueue.Invariant.{IsCounted, total}
use device_xiaomi_camellia.Sensors.Proxy.{SubHals, HalProxy, is_ok}
use device_xiaomi_camellia.Sensors.Initialize.{
  Handover, is_complete, disable_all_sensors, initialize_sub_hals, initialize_common,
}

module _ {W : Type 0} (p : Platform) (S : SubHals W) where
  -- After an initialization nothing is pending, no dynamic sensor is known, the mode is normal and
  -- the threads run; the table of sensors is the old one.
  pub initialize_common_fresh :
      (limit ended now : ℕ) (h : Handover) (proxy : HalProxy) (w : W)
      → IsCounted limit proxy.queue
      → let proxy' = (initialize_common p S ended now h proxy w).1 in
        IsCounted limit proxy'.queue
        × (proxy'.queue.pending ≡ [])
        × (proxy'.queue.handed ≡ proxy.queue.handed)
        × (proxy'.dynamic_sensors ≡ [])
        × (proxy'.current_operation_mode ≡ normal)
        × (proxy'.wakelock.threads_run ≡ true)
        × (proxy'.sensors ≡ proxy.sensors)
  unfolding initialize_common total
  initialize_common_fresh limit ended now h proxy w v = ground arith

  -- The shared wake lock is not released by an initialization, although it is reset twice: both
  -- resets come while the threads are stopped. The events counted before stay counted.
  pub initialize_common_keeps_wakelock :
      (ended now : ℕ) (h : Handover) (proxy : HalProxy) (w : W)
      → let proxy' = (initialize_common p S ended now h proxy w).1 in
        (proxy'.wakelock.ref_count ≡ proxy.wakelock.ref_count)
        × (proxy'.wakelock.held ≡ proxy.wakelock.held)
        × (proxy'.wakelock.timeout_reset_time ≡ now)
  unfolding initialize_common
  initialize_common_keeps_wakelock ended now h proxy w = ground arith

  -- Every sub-HAL from an index on initializes, each in the state that the ones before it leave.
  abbrev pub AllInitialize : ℕ → ℕ → W → Type 0
  AllInitialize zero i w = Unit {0}
  AllInitialize (suc left) i w =
      (is_ok (S.initialize i w).0 ≡ true) × AllInitialize left (i + 1) (S.initialize i w).1

  initialize_sub_hals_lem :
      (left i : ℕ) (r : Result) (w : W)
      → (is_ok (initialize_sub_hals p S left i r w).0 ≡ true)
        ↔ ((is_ok r ≡ true) × AllInitialize left i w)
  unfolding initialize_sub_hals
  initialize_sub_hals_lem zero i r w = (λ h. (h, tt), λ h. h.0)
  initialize_sub_hals_lem (suc left) i r w =
      ground (arith, initialize_sub_hals_lem left (i + 1) r (S.initialize i w).1)

  -- The call succeeds exactly when the platform handed over all that is needed and each sub-HAL
  -- initializes, in the order of the list and after all sensors were switched off.
  pub initialize_common_ok :
      (ended now : ℕ) (h : Handover) (proxy : HalProxy) (w : W)
      → (is_ok (initialize_common p S ended now h proxy w).0 ≡ true)
        ↔ ((is_complete p S h ≡ true) × AllInitialize S.size 0 (disable_all_sensors p S proxy w))
  unfolding initialize_common
  initialize_common_ok ended now h proxy w = ground (
    arith,
    initialize_sub_hals_lem S.size 0 (if is_complete p S h then ok else bad_value)
        (disable_all_sensors p S proxy w),
  )
