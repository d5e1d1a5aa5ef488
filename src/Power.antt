-- ===== src/Power.antt =====
-- power/power-mode.cpp: double tap to wake. What the kernel answers is the parameter `Input`: the
-- entries of /dev/input, the number that `open` gives a path, and the name that a device reports.
-- The state holds the numbers that are open, the newest first, and what was written.
pub mod Laws
use device_xiaomi_camellia.Base.{
  ℕ, Bool, true, false, ◌&&◌, ◌||◌, Option, none, some, List, [], ◌∷◌, ◌++◌, String, ◌<>◌, str_eq,
  ◌==◌, if◌then◌else◌,
}

-- An entry of a directory: whether it is a character device, and its name.
pub record Entry : Type 0 where
  pub is_char : Bool
  pub d_name : String

pub record Input : Type 0 where
  pub entries : Option (List Entry)
  pub open_path : String → Option ℕ
  pub device_name : ℕ → Option String

pub record Files : Type 0 where
  pub open_fds : List ℕ
  pub written : List (ℕ × ℕ)

abbrev pub close_fd : ℕ → List ℕ → List ℕ
close_fd fd [] = []
close_fd fd (other ∷ fds) = let rest = close_fd fd fds in if other == fd then fds else other ∷ rest

abbrev pub close : ℕ → Files → Files
close fd s = record s { open_fds = close_fd fd s.open_fds }

abbrev pub is_touchscreen : Option String → Bool
is_touchscreen none = false
is_touchscreen (some name) = str_eq name "fts_ts" || str_eq name "NVTCapacitiveTouchScreen"

-- `other_mode` stands for every mode other than double tap to wake.
pub data Mode : Type 0 where
  double_tap_to_wake other_mode : Mode

unfoldable pub is_device_specific_mode_supported : Mode → Bool
is_device_specific_mode_supported double_tap_to_wake = true
is_device_specific_mode_supported other_mode = false

abbrev pub wakeup_mode : Bool → ℕ
wakeup_mode true = 5
wakeup_mode false = 4

module _ (input : Input) where
  -- The loop over the entries. Where `open` fails, `ioctl` and `close` on -1 fail too.
  unfoldable pub open_entries : List Entry → Files → Option ℕ × Files
  open_entries [] s = (none, s)
  open_entries (entry ∷ entries) s = elim entry.is_char [
    | false ↦ open_entries entries s
    | true ↦ elim (input.open_path ("/dev/input/" <> entry.d_name)) [
      | none ↦ open_entries entries s
      | some fd ↦
          let opened = record s { open_fds = fd ∷ s.open_fds } in
          elim (is_touchscreen (input.device_name fd)) [
            | true ↦ (some fd, opened)
            | false ↦ open_entries entries (close fd opened)
          ]
    ]
  ]

  unfoldable pub open_ts_input : Files → Option ℕ × Files
  open_ts_input s = elim input.entries [ none ↦ (none, s) | some entries ↦ open_entries entries s ]

  -- The event is a `SYN_CONFIG` with the wake-up mode as its value.
  unfoldable pub set_device_specific_mode : Mode → Bool → Files → Bool × Files
  set_device_specific_mode double_tap_to_wake enabled s =
      let (fd, s') = open_ts_input s in
      elim fd [
        | none ↦ (false, s')
        | some fd ↦
            (true, close fd (record s' { written = s'.written ++ (fd, wakeup_mode enabled) ∷ [] }))
      ]
  set_device_specific_mode other_mode enabled s = (false, s)
