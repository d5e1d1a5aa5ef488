-- ===== src/Usb/Gadget.antt =====
-- usb/UsbGadget.cpp: what the calls of `UsbGadget` share. The flags of
-- `GadgetFunction` stand in the interface of the platform: they are a parameter.
pub mod VidPid
pub mod Links
pub mod Setup
pub mod TearDown
pub mod Functions
pub mod Monitor
use device_xiaomi_camellia.Base.{ℕ, Bool, not, List, String, str_eq, if◌then◌else◌, ◌||◌}
use device_xiaomi_camellia.Usb.World.{World, get_property, set_property}

pub record GadgetFunction : Type 0 where
  pub no_function : ℕ
  pub adb : ℕ
  pub accessory : ℕ
  pub mtp : ℕ
  pub midi : ℕ
  pub ptp : ℕ
  pub rndis : ℕ
  pub audio_source : ℕ

-- The values of android.hardware.usb.gadget@1.0.
abbrev pub gadget_function : GadgetFunction
gadget_function = record {
  no_function = 0;
  adb = 1;
  accessory = 2;
  mtp = 4;
  midi = 8;
  ptp = 16;
  rndis = 32;
  audio_source = 64;
}

-- The vendor functions that are asked for, by build type, boot mode and properties.
unfoldable pub get_vendor_functions : World → String × World
unfolding set_property
get_vendor_functions w =
    let vendor_functions = get_property "vendor.usb.config" w in
    let persist = get_property "persist.vendor.usb.usbradio.config" w in
    let ret = if not (str_eq persist "") then persist else "diag" in
    if str_eq (get_property "ro.build.type" w) "user"
    then ("user", w)
    else if not (str_eq vendor_functions "")
    then (vendor_functions, w)
    else if str_eq (get_property "ro.bootmode" w) "usbradio"
    then (ret, set_property "vendor.usb.config" ret w)
    else ("", w)
