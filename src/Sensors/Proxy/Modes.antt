-- ===== src/Sensors/Proxy/Modes.antt =====
-- The operation mode is switched for all sub-HALs or for none.
use device_xiaomi_camellia.Base.{
  ℕ, zero, suc, ◌+◌, ◌≤◌, ◌<◌, ◌≡◌, ◌≢◌, ◌⊎◌, inl, inr, true, false, arith, Bool-cases,
  if◌then◌else◌,
}
use device_xiaomi_camellia.Sensors.Platform.{OperationMode}
use device_xiaomi_camellia.Sensors.Proxy.{
  SubHals, HalProxy, is_ok, flip_modes, restore_modes, set_operation_mode,
}

-- What a sub-HAL promises: a switch that succeeds sets its mode, one that fails leaves it, and no
-- other sub-HAL's mode is touched.
pub record SwitchesMode {W : Type 0} (S : SubHals W) (mode : W → ℕ → OperationMode) : Type 0 where
  pub switched :
      (i : ℕ) (m : OperationMode) (w : W)
      → is_ok (S.set_operation_mode i m w).0 ≡ true
      → mode (S.set_operation_mode i m w).1 i ≡ m
  pub refused :
      (i : ℕ) (m : OperationMode) (w : W)
      → is_ok (S.set_operation_mode i m w).0 ≡ false
      → mode (S.set_operation_mode i m w).1 i ≡ mode w i
  pub others :
      (i j : ℕ) (m : OperationMode) (w : W)
      → i ≢ j
      → mode (S.set_operation_mode i m w).1 j ≡ mode w j

module _ {W : Type 0} (S : SubHals W) (mode : W → ℕ → OperationMode)
    (law : SwitchesMode S mode) where
  -- The loop switches the sub-HALs below its stop, and leaves all others.
  flip_modes_lem :
      (left i : ℕ) (m : OperationMode) (w : W) (j : ℕ)
      → let (r, stopped, w') = flip_modes S left i m w in
        (i ≤ stopped)
        × (stopped ≤ i + left)
        × (is_ok r ≡ true → stopped ≡ i + left)
        × (i ≤ j → j < stopped → mode w' j ≡ m)
        × ((j < i) ⊎ (stopped ≤ j) → mode w' j ≡ mode w j)
  unfolding flip_modes
  flip_modes_lem zero i m w j = ground arith
  flip_modes_lem (suc left) i m w j = elim (Bool-cases (is_ok (S.set_operation_mode i m w).0)) [
    | inl done ↦
        let rest = flip_modes_lem left (i + 1) m (S.set_operation_mode i m w).1 j in
        rw (done, flip_modes) (ground (arith, rest, law.switched i m w done, law.others i j m w))
    | inr failed ↦
        rw (failed, flip_modes) (ground (arith, law.refused i m w failed, law.others i j m w))
  ]

  -- Setting back reaches every sub-HAL below the stop, if each accepts the mode.
  restore_modes_lem :
      (left i : ℕ) (m : OperationMode) (w : W) (j : ℕ)
      → ((k : ℕ) (v : W) → is_ok (S.set_operation_mode k m v).0 ≡ true)
      → (i ≤ j → j < i + left → mode (restore_modes S left i m w) j ≡ m)
        × ((j < i) ⊎ (i + left ≤ j) → mode (restore_modes S left i m w) j ≡ mode w j)
  unfolding restore_modes
  restore_modes_lem zero i m w j accepts = ground arith
  restore_modes_lem (suc left) i m w j accepts =
      let rest = restore_modes_lem left (i + 1) m (S.set_operation_mode i m w).1 j accepts in
      ground (arith, rest, law.switched i m w (accepts i w), law.others i j m w)

  -- If all sub-HALs are in the mode that the proxy records, and would accept that mode again, then
  -- after a switch, whether it succeeds or fails, each is in the mode that the proxy records: the
  -- new one if it succeeds, and the old one if any sub-HAL refuses.
  pub set_operation_mode_atomic :
      (m : OperationMode) (proxy : HalProxy) (w : W) (j : ℕ)
      → ((k : ℕ) (v : W) → is_ok (S.set_operation_mode k proxy.current_operation_mode v).0 ≡ true)
      → ((k : ℕ) → k < S.size → mode w k ≡ proxy.current_operation_mode)
      → j < S.size
      → let (r, proxy', w') = set_operation_mode S m proxy w in
        (proxy'.current_operation_mode ≡ (if is_ok r then m else proxy.current_operation_mode))
        × (mode w' j ≡ proxy'.current_operation_mode)
  unfolding set_operation_mode
  set_operation_mode_atomic m proxy w j accepts same within =
      let flipped = flip_modes_lem S.size 0 m w j in
      let back =
        restore_modes_lem (flip_modes S S.size 0 m w).1 0 proxy.current_operation_mode
          (flip_modes S S.size 0 m w).2 j accepts in
      ground (arith, flipped, back, same j within)

-- Setting the mode touches neither the wake lock, nor the queue, nor the dynamic sensors.
pub set_operation_mode_keeps :
    {W : Type 0} (S : SubHals W) (m : OperationMode) (proxy : HalProxy) (w : W)
    → let proxy' = (set_operation_mode S m proxy w).1 in
      (proxy'.wakelock ≡ proxy.wakelock)
      × (proxy'.queue ≡ proxy.queue)
      × (proxy'.dynamic_sensors ≡ proxy.dynamic_sensors)
unfolding set_operation_mode
set_operation_mode_keeps S m proxy w = ground arith
