-- ===== src/Usb/Gadget/Functions/SetUp.antt =====
-- The set-up of a request while every call succeeds, the wait for the monitor included.
use device_xiaomi_camellia.Base.{ℕ, ◌≡◌, Bool, true, false, if◌then◌else◌, length}
use device_xiaomi_camellia.Usb.World.{
  UsbGadget, success, write, create, inotify, event_fd, epoll, epoll_inotify, epoll_event_fd,
  start_monitor, get_property, tell, Status, call, wait_pullup,
}
use device_xiaomi_camellia.Usb.Gadget.{GadgetFunction}
use device_xiaomi_camellia.Usb.Gadget.Links.{link_all, ffs_enabled}
use device_xiaomi_camellia.Usb.Gadget.Setup.{
  setup_functions, finish_now, finish_by_monitor, tell_status, wait_for_monitor, pull_up,
  tell_waited,
}
use device_xiaomi_camellia.Usb.Gadget.Functions.Works.{
  Works, same, >>=-Works, >>-Works, require-Works, attempt-Works, modify-Works, if-Works,
}
use device_xiaomi_camellia.Usb.Gadget.Functions.Linked.{
  push, link_all-Works, media_endpoints_of, adb_endpoints_of,
}

abbrev pub applied : UsbGadget → UsbGadget
applied g = record g { current_usb_functions_applied = true }

abbrev pub monitored : UsbGadget → UsbGadget
monitored g = record g {
  monitor_created = true;
  current_usb_functions_applied = true;
  gadget_pullup = true;
}

module _ (f : GadgetFunction) (functions timeout : ℕ) where
  tell_status-Works : (s : Status) → Works same (tell_status functions true s)
  unfolding tell_status
  tell_status-Works s = attempt-Works (tell functions s)

  pull_up-Works : Works same pull_up
  unfolding pull_up
  pull_up-Works = record {
    runs = λ w h.
        (require-Works
            (write (get_property "sys.usb.controller" w) "/config/usb_gadget/g1/UDC")).runs
          w h;
  }

  finish_now-Works : Works applied (finish_now functions true)
  unfolding finish_now
  finish_now-Works =
      >>-Works pull_up-Works (>>-Works (modify-Works applied) (tell_status-Works success))

  tell_waited-Works :
      (up : Bool)
      → up ≡ true
      → Works
          (λ g. record g { current_usb_functions_applied = true; gadget_pullup = true })
          (tell_waited functions true up)
  unfolding tell_waited
  tell_waited-Works true e =
      >>-Works
        (modify-Works λ g. record g { current_usb_functions_applied = true; gadget_pullup = true })
        (tell_status-Works success)
  tell_waited-Works false e = cc

  wait_for_monitor-Works :
      Works
        (λ g. record g { current_usb_functions_applied = true; gadget_pullup = true })
        (wait_for_monitor functions true timeout)
  unfolding wait_for_monitor call
  wait_for_monitor-Works = record {
    runs = λ w h.
        let (up, w') = call (wait_pullup timeout) w in
        (tell_waited-Works up (h.answers (length w.trace))).runs w'
          (record { names = h.names; answers = h.answers; listed = h.listed });
  }

  finish_by_monitor-Works : Works monitored (finish_by_monitor functions true timeout)
  unfolding finish_by_monitor
  finish_by_monitor-Works = >>-Works (require-Works (create event_fd)) (
      >>-Works (require-Works (create epoll)) (
        >>-Works (require-Works (create epoll_inotify)) (
          >>-Works (require-Works (create epoll_event_fd)) (
            >>-Works (modify-Works (λ g. record g { gadget_pullup = false })) (
              >>-Works (attempt-Works start_monitor) (
                >>-Works (modify-Works (λ g. record g { monitor_created = true }))
                  wait_for_monitor-Works))))))

  pub setup_functions-Works :
      Works
        (λ g.
          let linked =
            push (adb_endpoints_of f functions) (push (media_endpoints_of f functions) g) in
          if ffs_enabled f functions then monitored linked else applied linked)
        (setup_functions functions true f timeout)
  unfolding setup_functions
  setup_functions-Works = >>-Works (require-Works (create inotify)) (
      >>=-Works (link_all f functions) _ (link_all-Works f functions)
        λ i. if-Works (ffs_enabled f functions) finish_by_monitor-Works finish_now-Works)
