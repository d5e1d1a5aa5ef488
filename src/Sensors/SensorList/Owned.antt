-- ===== src/Sensors/SensorList/Owned.antt =====
-- Which sub-HAL lists a handle.
use device_xiaomi_camellia.Base.{
  ℕ, get_elem?, contains, map, length-append, append_assoc, ◌++◌, ◌+◌, ◌≡◌, refl, true, none, some,
  List, [], ◌∷◌, arith, All, length, All-weaken, ◌∙◌, sym,
}
use device_xiaomi_camellia.Sensors.Platform.{SensorInfo}

-- Each sub-HAL of some lists owns the handles that it lists.
unfoldable pub AllOwn : (ℕ → ℕ → Type 0) → ℕ → List (List SensorInfo) → Type 0
AllOwn own i [] = Unit {0}
AllOwn own i (list ∷ lists) = All (λ s. own i s.sensor_handle) list × AllOwn own (i + 1) lists

abbrev pub handles : List SensorInfo → List ℕ
handles = map (λ s. s.sensor_handle)

abbrev pub handles_at : List (List SensorInfo) → ℕ → List ℕ
handles_at lists i = elim (get_elem? lists i) [ none ↦ [] | some list ↦ handles list ]

-- A sub-HAL lists a handle.
abbrev pub Lists : List (List SensorInfo) → ℕ → ℕ → Type 0
Lists lists i handle = contains handle (handles_at lists i) ≡ true

handles_own :
    (list : List SensorInfo) → All (λ s. contains s.sensor_handle (handles list) ≡ true) list
handles_own [] = tt
handles_own (s ∷ list) =
    (ground arith, All-weaken _ _ list (λ other h. ground (arith, h)) (handles_own list))

handles_at-append :
    (before : List (List SensorInfo)) (list : List SensorInfo) (after : List (List SensorInfo))
    → handles_at (before ++ list ∷ after) (length before) ≡ handles list
handles_at-append [] list after = refl
handles_at-append (l ∷ before) list after = handles_at-append before list after

pub lists_own :
    (lists before after : List (List SensorInfo)) (i : ℕ)
    → before ++ after ≡ lists
    → length before ≡ i
    → AllOwn (Lists lists) i after
unfolding AllOwn
lists_own lists before [] i e n = tt
lists_own lists before (list ∷ after) i e n = (
  All-weaken _ _ list (λ s h. rw (sym e, sym n, handles_at-append before list after) h)
      (handles_own list),
  lists_own lists (before ++ list ∷ []) after (i + 1) (append_assoc before (list ∷ []) after ∙ e)
      (omega (arith, length-append before (list ∷ []))),
)
