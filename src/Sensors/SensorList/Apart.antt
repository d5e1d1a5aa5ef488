-- ===== src/Sensors/SensorList/Apart.antt =====
-- What other sensors leave as it was in the table.
use device_xiaomi_camellia.Base.{
  ℕ, ◌+◌, ◌≤◌, ◌<◌, ◌^◌, ◌≡◌, ◌≢◌, refl, ◌∙◌, inl, inr, true, List, [], ◌∷◌, arith, Bool-cases, All,
  length,
}
use device_xiaomi_camellia.Base.Dict.{find}
use native.Mathlib.Decide.{ℕ_discrete}
use device_xiaomi_camellia.Sensors.Platform.{Platform, IsDocumented, SensorInfo}
use device_xiaomi_camellia.Sensors.Handle.{set_sub_hal_index, sub_hal_index_is_clear}
use device_xiaomi_camellia.Sensors.Handle.Laws.{set_sub_hal_index-injective}
use device_xiaomi_camellia.Sensors.SensorList.{Table, load_sensor, load_sub_hal, load_sub_hals}
use device_xiaomi_camellia.Sensors.SensorList.Complete.{find-load_sensor}

module _ (p : Platform) where
  pub load_sensor_other :
      (handle sub_hal : ℕ) (s : SensorInfo) (t : Table)
      → set_sub_hal_index s.sensor_handle sub_hal ≢ handle
      → find ℕ_discrete handle (load_sensor p sub_hal s t).sensors
        ≡ find ℕ_discrete handle t.sensors
  load_sensor_other handle sub_hal s t apart = ground (arith, find-load_sensor p handle sub_hal s t)

  -- A list that has no sensor under the handle.
  abbrev pub Avoids : ℕ → ℕ → SensorInfo → Type 0
  Avoids handle sub_hal s =
      sub_hal_index_is_clear p.sub_hal_index_mask s.sensor_handle ≡ true
      → set_sub_hal_index s.sensor_handle sub_hal ≢ handle

  pub load_sub_hal_other :
      (handle sub_hal : ℕ) (list : List SensorInfo) (t : Table)
      → All (Avoids handle sub_hal) list
      → find ℕ_discrete handle (load_sub_hal p sub_hal list t).sensors
        ≡ find ℕ_discrete handle t.sensors
  unfolding load_sub_hal
  load_sub_hal_other handle sub_hal [] t avoid = refl
  load_sub_hal_other handle sub_hal (s ∷ list) t (here, avoid) =
      elim (Bool-cases (sub_hal_index_is_clear p.sub_hal_index_mask s.sensor_handle)) [
        | inl clear ↦
            rw (clear, load_sub_hal)
              (load_sub_hal_other handle sub_hal list (load_sensor p sub_hal s t) avoid
                ∙ load_sensor_other handle sub_hal s t (here clear))
        | inr marked ↦ rw (marked, load_sub_hal) (load_sub_hal_other handle sub_hal list t avoid)
      ]

  unfoldable pub AllAvoid : ℕ → ℕ → List (List SensorInfo) → Type 0
  AllAvoid handle sub_hal [] = Unit {0}
  AllAvoid handle sub_hal (list ∷ lists) =
      All (Avoids handle sub_hal) list × AllAvoid handle (sub_hal + 1) lists

  pub load_sub_hals_other :
      (handle sub_hal : ℕ) (lists : List (List SensorInfo)) (t : Table)
      → AllAvoid handle sub_hal lists
      → find ℕ_discrete handle (load_sub_hals p sub_hal lists t).sensors
        ≡ find ℕ_discrete handle t.sensors
  unfolding load_sub_hals AllAvoid
  load_sub_hals_other handle sub_hal [] t avoid = refl
  load_sub_hals_other handle sub_hal (list ∷ lists) t (here, avoid) =
      load_sub_hals_other handle (sub_hal + 1) lists (load_sub_hal p sub_hal list t) avoid
      ∙ load_sub_hal_other handle sub_hal list t here

-- The handle is an `int32_t`.
abbrev pub HasInt32Handle : SensorInfo → Type 0
HasInt32Handle s = s.sensor_handle < 2 ^ 32

module _ (p : Platform) (doc : IsDocumented p) where
  module _ (i : ℕ) (s : SensorInfo) (small : i < 256) (fits : HasInt32Handle s)
      (clear : sub_hal_index_is_clear p.sub_hal_index_mask s.sensor_handle ≡ true) where
    abbrev pub listed_handle : ℕ
    listed_handle = set_sub_hal_index s.sensor_handle i

    pub same_list-Avoids :
        (list : List SensorInfo)
        → All HasInt32Handle list
        → All (λ other. other.sensor_handle ≢ s.sensor_handle) list
        → All (Avoids p listed_handle i) list
    same_list-Avoids [] h apart = tt
    same_list-Avoids (other ∷ list) (h, hs) (apart, others) = (
      λ c e.
          apart
            (set_sub_hal_index-injective p.sub_hal_index_mask doc.first_byte other.sensor_handle i
              s.sensor_handle i h c small fits clear small e).0,
      same_list-Avoids list hs others,
    )

    other_list-Avoids :
        (k : ℕ) (list : List SensorInfo)
        → i < k
        → k < 256
        → All HasInt32Handle list
        → All (Avoids p listed_handle k) list
    other_list-Avoids k [] after below h = tt
    other_list-Avoids k (other ∷ list) after below (h, hs) = (
      λ c e.
          let same =
            set_sub_hal_index-injective p.sub_hal_index_mask doc.first_byte other.sensor_handle k
              s.sensor_handle i h c below fits clear small e in
          omega (arith, same.1),
      other_list-Avoids k list after below hs,
    )

    pub lists-AllAvoid :
        (k : ℕ) (lists : List (List SensorInfo))
        → i < k
        → k + length lists ≤ 256
        → All (λ list. All HasInt32Handle list) lists
        → AllAvoid p listed_handle k lists
    unfolding AllAvoid
    lists-AllAvoid k [] after below h = tt
    lists-AllAvoid k (list ∷ lists) after below (h, hs) = (
      other_list-Avoids k list after (omega arith) h,
      lists-AllAvoid (k + 1) lists (omega arith) (omega arith) hs,
    )
