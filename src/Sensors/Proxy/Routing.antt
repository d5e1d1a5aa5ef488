-- ===== src/Sensors/Proxy/Routing.antt =====
-- A call for a sensor reaches the sub-HAL that listed it, under the handle that it listed.
use device_xiaomi_camellia.Base.{ℕ, ◌≤◌, ◌<◌, ◌^◌, ◌≡◌, ◌&&◌, Bool, true, false, arith, ltb}
use device_xiaomi_camellia.Sensors.Platform.{Platform, IsDocumented, bad_value, Result}
use device_xiaomi_camellia.Sensors.Handle.{set_sub_hal_index, sub_hal_index_is_clear}
use device_xiaomi_camellia.Sensors.Handle.Laws.{
  set_sub_hal_index_fields, is_sub_hal_index_valid_lem,
}
use device_xiaomi_camellia.Sensors.Proxy.{SubHals, activate, batch, flush, routed}

module _ {W : Type 0} (p : Platform) (S : SubHals W) (doc : IsDocumented p) where
  routed_lem :
      (call : ℕ → ℕ → W → Result × W) (own i : ℕ) (w : W)
      → own < 2 ^ 32
      → sub_hal_index_is_clear p.sub_hal_index_mask own ≡ true
      → i < 128
      → i < S.size
      → S.size ≤ 2 ^ 32
      → routed p S (set_sub_hal_index own i) call w ≡ call i own w
  routed_lem call own i w fits clear low listed few =
      let fields =
        set_sub_hal_index_fields p.sub_hal_index_mask doc.first_byte own i fits clear low in
      let valid =
        is_sub_hal_index_valid_lem p.sub_hal_index_mask doc.first_byte S.size own i few fits clear
          (omega arith) in
      ground (arith, fields, valid)

  -- For a sensor of one of the first 128 sub-HALs, `activate`, `batch` and `flush` do what that
  -- sub-HAL does for its own handle.
  pub activate-set_sub_hal_index :
      (own i : ℕ) (enabled : Bool) (period latency : ℕ) (w : W)
      → own < 2 ^ 32
      → sub_hal_index_is_clear p.sub_hal_index_mask own ≡ true
      → i < 128
      → i < S.size
      → S.size ≤ 2 ^ 32
      → let handle = set_sub_hal_index own i in
        (activate p S handle enabled w ≡ S.activate i own enabled w)
        × (batch p S handle period latency w ≡ S.batch i own period latency w)
        × (flush p S handle w ≡ S.flush i own w)
  unfolding activate batch flush
  activate-set_sub_hal_index own i enabled period latency w fits clear low listed few = (
    routed_lem (λ i own. S.activate i own enabled) own i w fits clear low listed few,
    routed_lem (λ i own. S.batch i own period latency) own i w fits clear low listed few,
    routed_lem S.flush own i w fits clear low listed few,
  )

  -- A handle of a sub-HAL beyond the list, or of one with an index from 128 on, is refused by every
  -- call for a sensor, and no sub-HAL is called.
  pub set_sub_hal_index_refused :
      (own i : ℕ) (enabled : Bool) (period latency : ℕ) (w : W)
      → own < 2 ^ 32
      → sub_hal_index_is_clear p.sub_hal_index_mask own ≡ true
      → i < 256
      → (ltb i 128 && ltb i S.size) ≡ false
      → S.size ≤ 2 ^ 32
      → let handle = set_sub_hal_index own i in
        (activate p S handle enabled w ≡ (bad_value, w))
        × (batch p S handle period latency w ≡ (bad_value, w))
        × (flush p S handle w ≡ (bad_value, w))
  unfolding activate batch flush
  set_sub_hal_index_refused own i enabled period latency w fits clear byte out few =
      let valid =
        is_sub_hal_index_valid_lem p.sub_hal_index_mask doc.first_byte S.size own i few fits clear
          byte in
      (rw (valid, out), rw (valid, out), rw (valid, out))
