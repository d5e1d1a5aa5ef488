-- ===== src/Usb/Port/Work.antt =====
-- The worker thread `work` with its signal handler, and the constructor, usb/Usb.cpp. What the
-- kernel answers is an argument: whether the descriptors can be made, and how each wait ends.
pub mod Laws
pub mod Signal
pub mod Joins
use device_xiaomi_camellia.Base.{
  Bool, true, false, not, ◌&&◌, ◌||◌, Option, none, some, List, [], ◌∷◌, String, if◌then◌else◌,
}
use device_xiaomi_camellia.Usb.Port.Callback.{Worker, initial}
use device_xiaomi_camellia.Usb.Port.Switch.{Partner, File}
use device_xiaomi_camellia.Usb.Port.Uevent.{uevent_event}

pub data Descriptor : Type 0 where
  uevent_fd epoll_fd : Descriptor

-- `uevent_open_socket`, `epoll_create1` and `epoll_ctl`.
pub record Kernel : Type 0 where
  pub opens_socket : Bool
  pub creates_epoll : Bool
  pub adds_socket : Bool

-- How `epoll_wait` ends. The first argument is whether the handler has set `destroyThread` by then;
-- `ready` lists the events, each with whether it carries a function and what that receives.
pub data Wait : Type 0 where
  interrupted : Bool → Wait  -- EINTR
  failed : Wait
  ready : Bool → List (Bool × Option (List String)) → Wait

-- `destroyThread` after a signal; the argument is whether it is SIGUSR1.
unfoldable pub sighandler : Bool → Bool → Bool
sighandler is_usr1 destroy_thread = if is_usr1 then true else destroy_thread

-- The constructor: whether each of its four calls succeeds. `none` is `abort()`.
unfoldable pub usb : Bool → Bool → Bool → Bool → Option (Worker × Partner)
usb attr_init set_clock cond_init attr_destroy =
    if attr_init && set_clock && cond_init && attr_destroy
    then some (initial, record { partner_up = false; written = [] })
    else none

module _ (has_partner : String → Bool) (drp : File) (ports : List String) (switching : Bool) where
  -- The loop over the events of a wait.
  unfoldable pub serve : List (Bool × Option (List String)) → Partner → Partner
  serve [] s = s
  serve ((has_function, event) ∷ events) s =
      serve events
        (if has_function then (uevent_event has_partner drp ports switching event s).1 else s)

  -- `none` while the thread is in a wait that comes after those that are listed.
  unfoldable pub work_loop : List Wait → Bool → Partner → Option Partner
  unfolding serve
  work_loop waits true s = some s
  work_loop [] false s = none
  work_loop (interrupted told ∷ waits) false s = work_loop waits told s
  work_loop (failed ∷ waits) false s = some s
  work_loop (ready told events ∷ waits) false s = work_loop waits told (serve events s)

  -- The descriptors that are closed at the end, in order, and the state.
  unfoldable pub work : Kernel → List Wait → Bool → Partner → Option (List Descriptor × Partner)
  unfolding work_loop
  work k waits destroy_thread s =
      if not k.opens_socket
      then some ([], s)
      else if not k.creates_epoll
      then some (uevent_fd ∷ [], s)
      else if not k.adds_socket
      then some (uevent_fd ∷ epoll_fd ∷ [], s)
      else elim (work_loop waits destroy_thread s) [
        | none ↦ none
        | some s' ↦ some (uevent_fd ∷ epoll_fd ∷ [], s')
      ]
