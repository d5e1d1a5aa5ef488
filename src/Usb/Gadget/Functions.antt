-- ===== src/Usb/Gadget/Functions.antt =====
-- The constructor, `setCurrentUsbFunctions` and `getCurrentUsbFunctions`, usb/UsbGadget.cpp.
-- Delays change nothing here. The lock keeps out other requests, but not a monitor of the request
-- before, which runs until it is joined.
pub mod Quiet
pub mod QuietLinks
pub mod Laws
pub mod PulledUp
pub mod Stays
pub mod Refused
pub mod Works
pub mod Linked
pub mod SetUp
pub mod Succeeds
use device_xiaomi_camellia.Base.{ℕ, Bool, true, false, ◌&&◌, ◌==◌, if◌then◌else◌, []}
use device_xiaomi_camellia.Usb.World.{
  World, UsbGadget, M, Outcome, returns, fails, success, functions_applied, functions_not_applied,
  Status, ◌>>◌,
}
use device_xiaomi_camellia.Usb.Gadget.{GadgetFunction}
use device_xiaomi_camellia.Usb.Gadget.VidPid.{validate_and_set_vid_pid}
use device_xiaomi_camellia.Usb.Gadget.TearDown.{tear_down_gadget}
use device_xiaomi_camellia.Usb.Gadget.Setup.{setup_functions, tell_status}

-- The constructor: the members that it does not set keep what their memory held.
unfoldable pub usb_gadget : UsbGadget → UsbGadget
usb_gadget memory = record memory {
  monitor_created = false;
  endpoint_list = [];
  current_usb_functions_applied = false;
}

-- What `getCurrentUsbFunctionsCb` is told.
unfoldable pub get_current_usb_functions : World → ℕ × Status
get_current_usb_functions w = (
  w.gadget.current_usb_functions,
  if w.gadget.current_usb_functions_applied then functions_applied else functions_not_applied,
)

module _ (f : GadgetFunction) (functions : ℕ) (callback : Bool) (timeout : ℕ) where
  unfoldable pub configure : M (Unit {0})
  unfolding validate_and_set_vid_pid setup_functions tell_status
  configure =
      if functions == f.no_function
      then tell_status functions callback success
      else validate_and_set_vid_pid f functions >> setup_functions functions callback f timeout

  -- The label `error` of the function.
  unfoldable pub on_error : Outcome (Unit {0}) × World → World
  unfolding tell_status
  on_error (returns _, w) = w
  on_error (fails status, w) = (tell_status functions callback status w).1

  abbrev pub requested : UsbGadget → UsbGadget
  requested g = record g {
    current_usb_functions = functions;
    current_usb_functions_applied = false;
  }

  -- What a monitor that runs has done by the time that it is joined or the request has failed, if it
  -- pulls the gadget up.
  abbrev pub beside : Bool → UsbGadget → UsbGadget
  beside pulls_up g =
      if pulls_up && g.monitor_created
      then record g { current_usb_functions_applied = true; gadget_pullup = true }
      else g

  -- A request, and whether the monitor of the request before pulls the gadget up after the functions
  -- are recorded and before it is joined or the request has failed. Until then nothing reads what it
  -- sets, so that may come first.
  unfoldable pub set_current_usb_functions_beside : Bool → World → World
  unfolding tear_down_gadget configure on_error
  set_current_usb_functions_beside pulls_up w =
      on_error (
        (tear_down_gadget >> configure)
          (record w { gadget = beside pulls_up (requested w.gadget) }))

  -- A request beside which no monitor pulls the gadget up.
  unfoldable pub set_current_usb_functions : World → World
  unfolding set_current_usb_functions_beside
  set_current_usb_functions w = set_current_usb_functions_beside false w
