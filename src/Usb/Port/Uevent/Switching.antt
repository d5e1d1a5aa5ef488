-- ===== src/Usb/Port/Uevent/Switching.antt =====
-- A switch of the mode and the kernel events that the worker thread receives while it waits.
use device_xiaomi_camellia.Base.{
  ℕ, sym, ◌≡◌, refl, Bool, true, false, ◌&&◌, ◌||◌, Option, none, some, List, [], ◌∷◌, String,
  arith, if◌then◌else◌, sym,
}
use device_xiaomi_camellia.Usb.Port.{mode, Roles}
use device_xiaomi_camellia.Usb.Port.Role.{append_role_node_helper, convert_role_to_string}
use device_xiaomi_camellia.Usb.Port.Switch.{
  Wake, timed_out, woken, Partner, File, write, switch_to_drp, switch_mode,
}
use device_xiaomi_camellia.Usb.Port.Switch.Laws.{is_decided, is_answered, switch_mode_lem}
use device_xiaomi_camellia.Usb.Port.Uevent.{uevent_event}
use device_xiaomi_camellia.Usb.Port.Uevent.Laws.{adds_partner, uevent_event_lem}

-- What a switch waits with.
abbrev waiting : Partner
waiting = record { partner_up = false; written = [] }

module _ (has_partner : String → Bool) (ports : List String) where
  abbrev works : File
  works = record { opens = true; puts = true }

  -- Whether an event signals the condition. The switch holds `mRoleSwitchLock`.
  abbrev signals : Option (List String) → Bool
  signals event = (uevent_event has_partner works ports true event waiting).1.partner_up

  -- How the waits end while events come in, until the last one times out.
  pub wakes_of : List (Option (List String)) → List Wake
  wakes_of [] = timed_out ∷ []
  wakes_of (event ∷ events) =
      let rest = wakes_of events in if signals event then woken true ∷ rest else rest

  -- Some event adds a partner in a line before the first change of a port.
  pub any_adds : List (Option (List String)) → Bool
  any_adds [] = false
  any_adds (none ∷ events) = any_adds events
  any_adds (some lines ∷ events) = let rest = any_adds events in adds_partner lines || rest

  signals-none : signals none ≡ false
  unfolding uevent_event
  signals-none = refl

  wakes_of_lem :
      (events : List (Option (List String)))
      → (is_decided (wakes_of events) ≡ true) × (is_answered (wakes_of events) ≡ any_adds events)
  unfolding wakes_of any_adds is_decided is_answered
  wakes_of_lem [] = (refl, refl)
  wakes_of_lem (none ∷ events) = ground (arith, wakes_of_lem events, signals-none)
  wakes_of_lem (some lines ∷ events) =
      ground (arith, wakes_of_lem events, uevent_event_lem has_partner ports true lines waiting)

  -- Whatever kernel events the worker thread receives during a switch of the mode, the switch ends.
  -- It succeeds exactly when the mode was written and one of the events before the timeout adds a
  -- partner before it changes a port; else the port is set back to the dual role.
  pub switch_mode-wakes_of :
      (r : Roles) (port_name : String) (role : ℕ) (file drp : File)
      (events : List (Option (List String))) (s : Partner)
      → let switched = file.opens && file.puts && any_adds events in
        let before =
          write
            (append_role_node_helper port_name mode)
            (convert_role_to_string r mode role)
            file
            (record s {
              partner_up =
                  if file.opens
                  then (if file.puts then any_adds events else false)
                  else s.partner_up;
            }) in
        switch_mode r port_name mode role file drp (wakes_of events) s
        ≡ some (switched, if switched then before else switch_to_drp port_name drp before)
  switch_mode-wakes_of r port_name role file drp events s =
      let (decided, answered) = wakes_of_lem events in
      rw (sym answered) (switch_mode_lem r port_name role file drp (wakes_of events) s decided)
