-- ===== src/Usb/Gadget/TearDown.antt =====
-- `tearDownGadget`, `unlinkFunctions` and `reset`, usb/UsbGadget.cpp.
pub mod Laws
pub mod Undone
use device_xiaomi_camellia.Base.{
  Bool, true, false, none, some, List, [], ◌∷◌, ◌<>◌, String, if◌then◌else◌,
}
use device_xiaomi_camellia.Usb.World.{
  World, M, returns, fails, error, success, Status, ◌>>◌, give, require, attempt, modify, write,
  remove, signal_monitor, call,
}
use text.Mathlib.Text.{find?}

-- `strstr(name, FUNCTION_NAME) != NULL`
abbrev pub is_function_link : String → Bool
is_function_link name = elim (find? name "function") [ none ↦ false | some _ ↦ true ]

unfoldable pub unlink_entries : List String → M (Unit {0})
unfolding require
unlink_entries [] = give tt
unlink_entries (name ∷ names) =
    let rest = unlink_entries names in
    if is_function_link name
    then require (remove ("/config/usb_gadget/g1/configs/b.1//" <> name)) >> rest
    else rest

unfoldable pub unlink_functions : M (Unit {0})
unfolding unlink_entries
unlink_functions w = elim w.config_entries [
  | none ↦ (fails error, w)
  | some names ↦ unlink_entries names w
]

-- The write to the event file is taken to get through, whatever is logged of it: the source joins the
-- monitor after a failed one, too, and would wait for ever.
unfoldable pub stop_monitor : M (Unit {0})
unfolding attempt
stop_monitor w =
    if w.gadget.monitor_created
    then (attempt signal_monitor >> modify (λ g. record g { monitor_created = false })) w
    else (returns tt, w)

unfoldable pub tear_down_gadget : M (Unit {0})
unfolding require attempt unlink_functions stop_monitor
tear_down_gadget = do
  attempt (write "none" "/config/usb_gadget/g1/UDC")
  require (write "0" "/config/usb_gadget/g1/bDeviceClass")
  require (write "0" "/config/usb_gadget/g1/bDeviceSubClass")
  require (write "0" "/config/usb_gadget/g1/bDeviceProtocol")
  require (write "0" "/config/usb_gadget/g1/os_desc/use")
  unlink_functions
  stop_monitor
  modify (λ g. record g { endpoint_list = [] })

unfoldable pub reset : World → Status × World
unfolding call
reset w =
    let (written, w') = call (write "none" "/config/usb_gadget/g1/UDC") w in
    (if written then success else error, w')
