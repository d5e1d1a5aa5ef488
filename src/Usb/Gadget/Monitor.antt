-- ===== src/Usb/Gadget/Monitor.antt =====
-- `monitorFfs`, usb/UsbGadget.cpp: the thread that pulls the gadget up when the endpoints of its
-- functions are there. Whether all endpoints can be read and whether a pull-up is written are
-- arguments of each look; delays change nothing here.
pub mod Laws
pub mod Display
use device_xiaomi_camellia.Base.{ℕ, ◌+◌, Bool, true, false, not, ◌&&◌, List, [], ◌∷◌, if◌then◌else◌}

pub record Monitor : Type 0 where
  pub write_udc : Bool
  pub stop_monitor : Bool
  pub current_usb_functions_applied : Bool
  pub gadget_pullup : Bool
  pub pull_ups : ℕ

-- An event of the watched directories, with what the look at the endpoints finds and whether a
-- pull-up would be written, or a number that is read from the event file.
pub data Seen : Type 0 where
  inotify : Bool → Bool → Seen
  signal : Bool → Seen  -- whether the number is 100

-- `write_udc` is set at first, and the thread runs.
abbrev pub started : Bool → Monitor
started applied = record {
  write_udc = true;
  stop_monitor = false;
  current_usb_functions_applied = applied;
  gadget_pullup = false;
  pull_ups = 0;
}

abbrev pub pulled_up : Monitor → Monitor
pulled_up m = record m {
  write_udc = false;
  current_usb_functions_applied = true;
  gadget_pullup = true;
  pull_ups = m.pull_ups + 1;
}

-- Before the loop: the endpoints may already be there.
unfoldable pub first_look : Bool → Bool → Monitor → Monitor
first_look present written m = if present && written then pulled_up m else m

unfoldable pub on_event : Seen → Monitor → Monitor
on_event (inotify present written) m =
    if not present && not m.write_udc
    then record m { write_udc = true }
    else if present && m.write_udc
    then (if written then pulled_up m else m)
    else m
on_event (signal stops) m = if stops then record m { stop_monitor = true } else m

-- The loop over the events, until it is told to stop.
unfoldable pub monitor_loop : List Seen → Monitor → Monitor
unfolding on_event
monitor_loop [] m = m
monitor_loop (event ∷ events) m =
    let rest = monitor_loop events (on_event event m) in if m.stop_monitor then m else rest

unfoldable pub monitor_ffs : Bool → Bool → List Seen → Monitor → Monitor
unfolding first_look monitor_loop
monitor_ffs present written events m = monitor_loop events (first_look present written m)
