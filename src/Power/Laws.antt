-- ===== src/Power/Laws.antt =====
-- What setting a mode writes, and that no file stays open.
use device_xiaomi_camellia.Base.{
  ℕ, ◌≡◌, refl, Bool, true, false, Option, none, some, List, [], ◌∷◌, ◌++◌, ◌<>◌, arith,
  if◌then◌else◌, Option-cases, inl, inr,
}
use device_xiaomi_camellia.Power.{
  Entry, Input, Files, is_touchscreen, open_entries, open_ts_input, Mode, double_tap_to_wake,
  other_mode, is_device_specific_mode_supported, wakeup_mode, set_device_specific_mode,
}

module _ (input : Input) where
  -- The number that an entry opens with, if it is a touchscreen that is supported.
  abbrev pub touchscreen : Entry → Option ℕ
  touchscreen entry =
      if entry.is_char
      then (elim (input.open_path ("/dev/input/" <> entry.d_name)) [
        | none ↦ none
        | some fd ↦ if is_touchscreen (input.device_name fd) then some fd else none
      ])
      else none

  -- The first supported touchscreen of a list of entries.
  pub first_touchscreen : List Entry → Option ℕ
  first_touchscreen [] = none
  first_touchscreen (entry ∷ entries) = elim (touchscreen entry) [
    | none ↦ first_touchscreen entries
    | some fd ↦ some fd
  ]

  -- The loop finds the first supported touchscreen, leaves it open and closes all others.
  open_entries_lem :
      (entries : List Entry) (s : Files)
      → open_entries input entries s ≡ (elim (first_touchscreen entries) [
        | none ↦ (none, s)
        | some fd ↦ (some fd, record s { open_fds = fd ∷ s.open_fds })
      ])
  unfolding open_entries first_touchscreen
  open_entries_lem [] s = refl
  open_entries_lem (entry ∷ entries) s = ground (arith, open_entries_lem entries s)

  abbrev pub chosen : Option ℕ
  chosen = elim input.entries [ none ↦ none | some entries ↦ first_touchscreen entries ]

  -- A mode is set exactly when it is supported and there is a supported touchscreen: the first one
  -- gets one event, 5 to switch on and 4 to switch off, and nothing else is written. Whatever the
  -- result, the same files are open after the call as before.
  pub set_device_specific_mode_lem :
      (mode : Mode) (enabled : Bool) (s : Files)
      → let (result, s') = set_device_specific_mode input mode enabled s in
        (s'.open_fds ≡ s.open_fds)
        × (◌≡◌ {A = Bool × List (ℕ × ℕ)}
            (result, s'.written)
            (if is_device_specific_mode_supported mode
              then (elim chosen [
                | none ↦ (false, s.written)
                | some fd ↦ (true, s.written ++ (fd, wakeup_mode enabled) ∷ [])
              ])
              else (false, s.written)))
  unfolding set_device_specific_mode open_ts_input is_device_specific_mode_supported
  set_device_specific_mode_lem other_mode enabled s = (refl, refl)
  set_device_specific_mode_lem double_tap_to_wake enabled s = elim (Option-cases input.entries) [
    | inl e ↦ ground (arith, e)
    | inr (entries, e) ↦ ground (arith, e, open_entries_lem entries s)
  ]
