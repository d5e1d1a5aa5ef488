-- ===== src/Usb/Gadget/Functions/Refused.antt =====
-- A request whose tear-down fails, and the monitor thread of the request before, which goes on.
use device_xiaomi_camellia.Base.{
  ℕ, ◌≡◌, ◌≢◌, refl, ◌∙◌, ap, inl, inr, true, false, List, [], ◌∷◌, ◌++◌, String, arith,
  if◌then◌else◌,
}
use device_xiaomi_camellia.Usb.World.{
  World, M, fails, Status, success, functions_applied, functions_not_applied, ◌>>◌, >>=-cases,
  require, attempt, modify, write,
}
use device_xiaomi_camellia.Usb.Gadget.{GadgetFunction}
use device_xiaomi_camellia.Usb.Gadget.TearDown.{stop_monitor, tear_down_gadget}
use device_xiaomi_camellia.Usb.Gadget.Setup.{tell_status}
use device_xiaomi_camellia.Usb.Gadget.Monitor.{Monitor, Seen, monitor_loop}
use device_xiaomi_camellia.Usb.Gadget.Monitor.Laws.{comes_up, monitor_loop_lem}
use device_xiaomi_camellia.Usb.Gadget.Functions.{
  on_error, set_current_usb_functions, get_current_usb_functions, requested,
}
use device_xiaomi_camellia.Usb.Gadget.Functions.Quiet.{tells, tear_down_gadget-Quiet}
use device_xiaomi_camellia.Usb.Gadget.Functions.Laws.{tells_tell}
use device_xiaomi_camellia.Usb.Gadget.Functions.Stays.{
  Stays, require-Stays, attempt-Stays, unlink_functions-Stays,
}

-- A part that changes no member.
abbrev KeepsMembers : M (Unit {0}) → Type 0
KeepsMembers = Stays (λ w. w.gadget) (λ w calls. refl)

-- A part that changes no member if it fails.
record StaysIfFails (m : M (Unit {0})) : Type 0 where
  runs : (w : World) (s : Status) → (m w).0 ≡ fails s → (m w).1.gadget ≡ w.gadget

>>-StaysIfFails : {m k : M (Unit {0})} → KeepsMembers m → StaysIfFails k → StaysIfFails (m >> k)
>>-StaysIfFails {m} {k} first second = record {
  runs = λ w s failed. elim (>>=-cases m (λ _. k) w) [
    | inl (a, w', ran, rest) ↦
        let here = rw ran at (first.runs w) in
        let there = second.runs w' s (rw rest at failed) in ground (arith, rest, here, there)
    | inr (s, w', ran, rest) ↦ let here = rw ran at (first.runs w) in ground (arith, rest, here)
  ];
}

-- From the stop of the monitor on nothing fails.
stop_monitor-StaysIfFails :
    StaysIfFails (stop_monitor >> modify (λ g. record g { endpoint_list = [] }))
unfolding stop_monitor attempt
stop_monitor-StaysIfFails = record { runs = λ w s failed. ground arith }

write-KeepsMembers : (content path : String) → KeepsMembers (require (write content path))
write-KeepsMembers content path =
    require-Stays (λ w. w.gadget) (λ w calls. refl) (write content path)

tear_down_gadget-StaysIfFails : StaysIfFails tear_down_gadget
unfolding tear_down_gadget
tear_down_gadget-StaysIfFails =
    >>-StaysIfFails
      (attempt-Stays (λ w. w.gadget) (λ w calls. refl) (write "none" "/config/usb_gadget/g1/UDC"))
      (>>-StaysIfFails (write-KeepsMembers "0" "/config/usb_gadget/g1/bDeviceClass") (
        >>-StaysIfFails (write-KeepsMembers "0" "/config/usb_gadget/g1/bDeviceSubClass") (
          >>-StaysIfFails (write-KeepsMembers "0" "/config/usb_gadget/g1/bDeviceProtocol") (
            >>-StaysIfFails (write-KeepsMembers "0" "/config/usb_gadget/g1/os_desc/use") (
              >>-StaysIfFails (unlink_functions-Stays (λ w. w.gadget) (λ w calls. refl))
                stop_monitor-StaysIfFails)))))

-- A monitor that runs already goes on, over the members as they are now.
unfoldable pub monitor_goes_on : List Seen → Monitor → World → World
unfolding monitor_loop
monitor_goes_on events m w =
    let m' = monitor_loop events (record m {
      current_usb_functions_applied = w.gadget.current_usb_functions_applied;
      gadget_pullup = w.gadget.gadget_pullup;
    }) in
    record w {
      gadget = record w.gadget {
        current_usb_functions_applied = m'.current_usb_functions_applied;
        gadget_pullup = m'.gadget_pullup;
      };
    }

module _ (f : GadgetFunction) (functions timeout : ℕ) where
  -- The call is the end of its tear-down with the label `error`.
  refused :
      (s : Status) (v w : World)
      → tear_down_gadget (record w { gadget = requested f functions true timeout w.gadget })
        ≡ (fails s, v)
      → set_current_usb_functions f functions true timeout w ≡ (tell_status functions true s v).1
  unfolding set_current_usb_functions on_error
  refused s v w torn = rw (torn) refl

  -- A request with a callback whose tear-down fails, while the monitor of the request before runs
  -- and takes the gadget not to be up, tells the callback once, of the failure, and leaves that
  -- monitor running with its endpoints. Afterwards the functions that were refused are said to be
  -- applied exactly if the monitor, before a signal to stop, finds these endpoints with a pull-up
  -- that is written.
  pub monitor_goes_on-set_current_usb_functions :
      (s : Status) (m : Monitor) (events : List Seen) (w : World)
      → w.gadget.monitor_created ≡ true
      → m.write_udc ≡ true
      → m.stop_monitor ≡ false
      → (tear_down_gadget (record w { gadget = requested f functions true timeout w.gadget })).0
        ≡ fails s
      → let w' = set_current_usb_functions f functions true timeout w in
        (tells w'.trace ≡ tells w.trace ++ (functions, s) ∷ [])
        × (s ≢ success)
        × (w'.gadget.monitor_created ≡ true)
        × (w'.gadget.endpoint_list ≡ w.gadget.endpoint_list)
        × (get_current_usb_functions (monitor_goes_on events m w')
            ≡ (functions, if comes_up events then functions_applied else functions_not_applied))
  unfolding tell_status attempt get_current_usb_functions monitor_goes_on
  monitor_goes_on-set_current_usb_functions s m events w created fresh runs failed =
      let v = record w { gadget = requested f functions true timeout w.gadget } in
      let w' = (tear_down_gadget v).1 in
      let torn : tear_down_gadget v ≡ (fails s, w') = ground (arith, failed) in
      let kept = tear_down_gadget-StaysIfFails.runs v s failed in
      let quiet = tear_down_gadget-Quiet.runs v in
      let honest : s ≢ success = rw failed at quiet.1 in
      let marked =
        monitor_loop_lem events
          (record m {
            current_usb_functions_applied = false;
            gadget_pullup = w.gadget.gadget_pullup;
          })
          runs (inl fresh) in
      rw (refused s w' w torn, kept)
        (
          tells_tell w'.trace functions s _ ∙ ap (λ t. t ++ (functions, s) ∷ []) quiet.0.0,
          honest,
          created,
          refl,
          ap (λ up. (functions, if up then functions_applied else functions_not_applied)) marked.0,
        )
