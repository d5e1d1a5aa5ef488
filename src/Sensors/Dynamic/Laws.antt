-- ===== src/Sensors/Dynamic/Laws.antt =====
-- What the map of dynamic sensors holds after a call, in terms of what the framework was told.
use device_xiaomi_camellia.Base.{
  All, Bool-cases, Option-cases, inl, inr, refl, ℕ, ◌≡◌, refl, Option, none, some, List, [], ◌∷◌,
  arith, contains, ◌==◌, if◌then◌else◌, sym,
}
use device_xiaomi_camellia.Base.Dict.{
  All-insert, All-erase, find, insert, erase, find-insert, find-erase,
}
use native.Mathlib.Decide.{ℕ_discrete}
use device_xiaomi_camellia.Sensors.Platform.{SensorInfo}
use device_xiaomi_camellia.Sensors.Handle.{sub_hal_index_is_clear, set_sub_hal_index}
use device_xiaomi_camellia.Sensors.Dynamic.{
  Connected, mark, on_dynamic_sensors_connected, on_dynamic_sensors_disconnected,
}

-- Each sensor stands under its own handle.
abbrev pub IsKeyed : Connected → Type 0
IsKeyed m = All (λ e. e.0 ≡ e.1.sensor_handle) m

module _ (mask sub_hal : ℕ) where
  -- The last sensor of a list that has a handle.
  pub latest : ℕ → List SensorInfo → Option SensorInfo → Option SensorInfo
  latest handle [] old = old
  latest handle (s ∷ ss) old = latest handle ss (if s.sensor_handle == handle then some s else old)

  -- After a connection the map has, for each handle, the last sensor that the framework was told
  -- of under it, and its old entry where it was told of none.
  pub find-on_dynamic_sensors_connected :
      (added : List SensorInfo) (m : Connected) (handle : ℕ)
      → let (m', told) = on_dynamic_sensors_connected mask sub_hal added m in
        find ℕ_discrete handle m' ≡ latest handle told (find ℕ_discrete handle m)
  unfolding on_dynamic_sensors_connected latest
  find-on_dynamic_sensors_connected [] m handle = refl
  find-on_dynamic_sensors_connected (sensor ∷ added) m handle =
      let marked = mark sub_hal sensor in
      let m' : Connected = insert ℕ_discrete marked.sensor_handle marked m in
      ground (
        arith,
        find-on_dynamic_sensors_connected added m handle,
        find-on_dynamic_sensors_connected added m' handle,
        find-insert ℕ_discrete handle marked.sensor_handle marked m,
      )

  -- After a disconnection the map lacks exactly the handles that the framework was told of, and
  -- has the old entries for all others.
  pub find-on_dynamic_sensors_disconnected :
      (removed : List ℕ) (m : Connected) (handle : ℕ)
      → let (m', told) = on_dynamic_sensors_disconnected mask sub_hal removed m in
        find ℕ_discrete handle m'
        ≡ (if contains handle told then none else find ℕ_discrete handle m)
  unfolding on_dynamic_sensors_disconnected
  find-on_dynamic_sensors_disconnected [] m handle = refl
  find-on_dynamic_sensors_disconnected (own ∷ removed) m handle =
      let gone = set_sub_hal_index own sub_hal in
      ground (
        arith,
        find-on_dynamic_sensors_disconnected removed m handle,
        find-on_dynamic_sensors_disconnected removed (erase ℕ_discrete gone m) handle,
        find-erase ℕ_discrete handle gone m,
      )

  -- After sensors came and others went, the map lacks exactly the handles of which the framework was
  -- told that they went, and has for all others the last sensor of which it was told that it came,
  -- or the old entry where it was told of none.
  pub find-on_dynamic_sensors :
      (added : List SensorInfo) (removed : List ℕ) (m : Connected) (handle : ℕ)
      → let (m1, came) = on_dynamic_sensors_connected mask sub_hal added m in
        let (m2, went) = on_dynamic_sensors_disconnected mask sub_hal removed m1 in
        find ℕ_discrete handle m2
        ≡ (if contains handle went then none else latest handle came (find ℕ_discrete handle m))
  find-on_dynamic_sensors added removed m handle =
      let (m1, came) = on_dynamic_sensors_connected mask sub_hal added m in
      rw (sym (find-on_dynamic_sensors_connected added m handle))
        (find-on_dynamic_sensors_disconnected removed m1 handle)

  pub on_dynamic_sensors_connected-IsKeyed :
      (added : List SensorInfo) (m : Connected)
      → IsKeyed m
      → IsKeyed (on_dynamic_sensors_connected mask sub_hal added m).0
  unfolding on_dynamic_sensors_connected
  on_dynamic_sensors_connected-IsKeyed [] m h = h
  on_dynamic_sensors_connected-IsKeyed (sensor ∷ added) m h =
      let marked = mark sub_hal sensor in
      let inserted =
        All-insert ℕ_discrete (λ e. e.0 ≡ e.1.sensor_handle) marked.sensor_handle marked m refl h in
      elim (Bool-cases (sub_hal_index_is_clear mask sensor.sensor_handle)) [
        | inl clear ↦
            rw (clear, on_dynamic_sensors_connected)
              (on_dynamic_sensors_connected-IsKeyed added
                (insert ℕ_discrete marked.sensor_handle marked m) inserted)
        | inr refused ↦
            rw (refused, on_dynamic_sensors_connected)
              (on_dynamic_sensors_connected-IsKeyed added m h)
      ]

  pub on_dynamic_sensors_disconnected-IsKeyed :
      (removed : List ℕ) (m : Connected)
      → IsKeyed m
      → IsKeyed (on_dynamic_sensors_disconnected mask sub_hal removed m).0
  unfolding on_dynamic_sensors_disconnected
  on_dynamic_sensors_disconnected-IsKeyed [] m h = h
  on_dynamic_sensors_disconnected-IsKeyed (own ∷ removed) m h =
      let handle = set_sub_hal_index own sub_hal in
      let erased = All-erase ℕ_discrete (λ e. e.0 ≡ e.1.sensor_handle) handle m h in
      elim (Bool-cases (sub_hal_index_is_clear mask own)) [
        | inr refused ↦
            rw (refused, on_dynamic_sensors_disconnected)
              (on_dynamic_sensors_disconnected-IsKeyed removed m h)
        | inl clear ↦ elim (Option-cases (find ℕ_discrete handle m)) [
          | inl missing ↦
              rw (clear, missing, on_dynamic_sensors_disconnected)
                (on_dynamic_sensors_disconnected-IsKeyed removed m h)
          | inr (sensor, there) ↦
              rw (clear, there, on_dynamic_sensors_disconnected)
                (on_dynamic_sensors_disconnected-IsKeyed removed (erase ℕ_discrete handle m) erased)
        ]
      ]
