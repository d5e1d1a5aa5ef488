-- ===== src/Usb/Gadget/Monitor/Laws.antt =====
-- When the functions are marked as applied.
use device_xiaomi_camellia.Base.{
  ◌≡◌, refl, ◌⊎◌, Bool, true, false, not, ◌&&◌, ◌||◌, List, [], ◌∷◌, arith,
}
use device_xiaomi_camellia.Usb.Gadget.Monitor.{
  Monitor, Seen, inotify, signal, started, first_look, on_event, monitor_loop, monitor_ffs,
}

-- Some event before the signal to stop finds all endpoints, and its pull-up would be written.
pub comes_up : List Seen → Bool
comes_up [] = false
comes_up (inotify present written ∷ events) =
    let rest = comes_up events in (present && written) || rest
comes_up (signal stops ∷ events) = let rest = comes_up events in not stops && rest

-- While the gadget is taken to be up, it has been marked as such.
abbrev pub IsMarked : Monitor → Type 0
IsMarked m =
    (m.write_udc ≡ true) ⊎ ((m.current_usb_functions_applied ≡ true) × (m.gadget_pullup ≡ true))

monitor_loop_stopped :
    (events : List Seen) (m : Monitor) → m.stop_monitor ≡ true → monitor_loop events m ≡ m
unfolding monitor_loop
monitor_loop_stopped [] m stopped = refl
monitor_loop_stopped (event ∷ events) m stopped = ground (arith, stopped)

pub monitor_loop_lem :
    (events : List Seen) (m : Monitor)
    → m.stop_monitor ≡ false
    → IsMarked m
    → let m' = monitor_loop events m in
      (m'.current_usb_functions_applied ≡ (m.current_usb_functions_applied || comes_up events))
      × (m'.gadget_pullup ≡ (m.gadget_pullup || comes_up events))
      × IsMarked m'
unfolding monitor_loop on_event comes_up
monitor_loop_lem [] m runs marked = ground arith
monitor_loop_lem (inotify present written ∷ events) m runs marked =
    let m' = on_event (inotify present written) m in
    ground (arith, runs, marked, monitor_loop_lem events m')
monitor_loop_lem (signal stops ∷ events) m runs marked =
    let m' = on_event (signal stops) m in
    ground (arith, runs, marked, monitor_loop_lem events m', monitor_loop_stopped events m')

-- Whatever happens, once started the monitor marks the functions as applied and the gadget as
-- pulled up exactly if all endpoints were found with a pull-up that is written, at the start or at
-- some event before it was told to stop; it never takes the marks back.
pub monitor_ffs_lem :
    (applied present written : Bool) (events : List Seen)
    → let m = monitor_ffs present written events (started applied) in
      (m.current_usb_functions_applied ≡ (applied || ((present && written) || comes_up events)))
      × (m.gadget_pullup ≡ ((present && written) || comes_up events))
unfolding monitor_ffs
monitor_ffs_lem applied present written events =
    ground (arith, monitor_loop_lem events (first_look present written (started applied)))
