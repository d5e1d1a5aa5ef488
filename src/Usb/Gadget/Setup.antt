-- ===== src/Usb/Gadget/Setup.antt =====
-- `setupFunctions`, usb/UsbGadget.cpp. The wait for the monitor is answered by the environment:
-- whether the gadget is pulled up when the wait ends; the monitor has then marked the functions as
-- applied.
use device_xiaomi_camellia.Base.{ℕ, Bool, true, false, if◌then◌else◌}
use device_xiaomi_camellia.Usb.World.{
  M, Resource, returns, error, success, Status, ◌>>=◌, ◌>>◌, give, require, attempt, modify, write,
  create, inotify, event_fd, epoll, epoll_inotify, epoll_event_fd, start_monitor, wait_pullup, tell,
  call, get_property,
}
use device_xiaomi_camellia.Usb.Gadget.{GadgetFunction}
use device_xiaomi_camellia.Usb.Gadget.Links.{link_all, ffs_enabled}

unfoldable pub pull_up : M (Unit {0})
unfolding require
pull_up w = require (write (get_property "sys.usb.controller" w) "/config/usb_gadget/g1/UDC") w

-- `if (addEpollFd(...) == -1) return Status::ERROR;`, for a file that is named by the resource.
abbrev pub add_epoll_fd : Resource → M (Unit {0})
add_epoll_fd file = require (create file)

module _ (functions : ℕ) (callback : Bool) where
  unfoldable pub tell_status : Status → M (Unit {0})
  unfolding attempt
  tell_status status = if callback then attempt (tell functions status) else give tt

  -- Without functions in user space the gadget is pulled up at once.
  unfoldable pub finish_now : M (Unit {0})
  unfolding pull_up tell_status
  finish_now = do
    pull_up
    modify (λ g. record g { current_usb_functions_applied = true })
    tell_status success

  unfoldable pub tell_waited : Bool → M (Unit {0})
  unfolding tell_status
  tell_waited true = do
    modify (λ g. record g { current_usb_functions_applied = true; gadget_pullup = true })
    tell_status success
  tell_waited false = tell_status error

  unfoldable pub wait_for_monitor : ℕ → M (Unit {0})
  unfolding tell_waited call
  wait_for_monitor timeout w =
      let (up, w') = call (wait_pullup timeout) w in
      if callback then tell_waited up w' else (returns tt, w)

  unfoldable pub finish_by_monitor : ℕ → M (Unit {0})
  unfolding require attempt wait_for_monitor
  finish_by_monitor timeout = do
    require (create event_fd)
    require (create epoll)
    add_epoll_fd epoll_inotify
    add_epoll_fd epoll_event_fd
    modify (λ g. record g { gadget_pullup = false })
    attempt start_monitor
    modify (λ g. record g { monitor_created = true })
    wait_for_monitor timeout

  unfoldable pub setup_functions : GadgetFunction → ℕ → M (Unit {0})
  unfolding require link_all finish_now finish_by_monitor
  setup_functions f timeout = do
    require (create inotify)
    _ ← link_all f functions
    if ffs_enabled f functions then finish_by_monitor timeout else finish_now
