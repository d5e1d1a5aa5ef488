-- ===== src/Tests/Power.antt =====
-- Small inputs for power/power-mode.cpp: a touchscreen behind a device of another kind.
use device_xiaomi_camellia.Base.{
  ℕ, ◌≡◌, Bool, true, false, none, some, List, [], ◌∷◌, ◌++◌, str_eq, if◌then◌else◌, ◌==◌,
}
use device_xiaomi_camellia.Power.{
  Input, Files, double_tap_to_wake, is_device_specific_mode_supported, wakeup_mode,
  set_device_specific_mode,
}
use device_xiaomi_camellia.Power.Laws.{chosen, set_device_specific_mode_lem}

abbrev two_devices : Input
two_devices = record {
  entries = some (
      record { is_char = false; d_name = "by-path" }
      ∷ record { is_char = true; d_name = "event0" }
      ∷ record { is_char = true; d_name = "event1" }
      ∷ []);
  open_path = λ path. if str_eq path "/dev/input/event0" then some 7 else some 8;
  device_name = λ fd. if fd == 8 then some "fts_ts" else some "gpio-keys";
}

abbrev files : Files
files = record { open_fds = 3 ∷ []; written = [] }

set_device_specific_mode_lem_example :
    let (result, s) = set_device_specific_mode two_devices double_tap_to_wake true files in
    (s.open_fds ≡ 3 ∷ [])
    × (◌≡◌ {A = Bool × List (ℕ × ℕ)}
        (result, s.written)
        (if is_device_specific_mode_supported double_tap_to_wake
          then (elim (chosen two_devices) [
            | none ↦ (false, [])
            | some fd ↦ (true, [] ++ (fd, wakeup_mode true) ∷ [])
          ])
          else (false, [])))
set_device_specific_mode_lem_example =
    set_device_specific_mode_lem two_devices double_tap_to_wake true files
