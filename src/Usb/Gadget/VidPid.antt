-- ===== src/Usb/Gadget/VidPid.antt =====
-- The vendor and product ids of a combination of functions, usb/UsbGadget.cpp.
pub mod Laws
use device_xiaomi_camellia.Base.{
  ℕ, bit_or, Bool, true, false, ◌||◌, Option, none, some, String, str_eq, ◌==◌, if◌then◌else◌,
}
use device_xiaomi_camellia.Usb.World.{
  World, Status, success, error, configuration_not_supported, Command, write, M, Outcome, returns,
  fails, ◌>>=◌, ◌>>◌, give, require, Outcome,
}
use device_xiaomi_camellia.Usb.Gadget.{GadgetFunction, get_vendor_functions}

unfoldable pub set_vid_pid : String → String → M (Unit {0})
unfolding require
set_vid_pid vid pid = do
  require (write vid "/config/usb_gadget/g1/idVendor")
  require (write pid "/config/usb_gadget/g1/idProduct")

abbrev pub Ids : Type 0
Ids = Option (String × String)

abbrev google : String → Ids
google pid = some ("0x18d1", pid)

abbrev qualcomm : String → Ids
qualcomm pid = some ("0x05C6", pid)

-- No ids for vendor functions other than none: `CONFIGURATION_NOT_SUPPORTED`.
abbrev for_users : String → String → Ids
for_users vendor_functions pid =
    if str_eq vendor_functions "user" || str_eq vendor_functions "" then google pid else none

module _ (f : GadgetFunction) where
  abbrev pub with_adb : ℕ → ℕ
  with_adb function = bit_or f.adb function

  -- The `switch` of `validateAndSetVidPid`: the ids that it sets.
  unfoldable pub ids_of : ℕ → String → Ids
  ids_of functions v =
      if functions == f.mtp
      then (if str_eq v "diag" then qualcomm "0x901B" else for_users v "0x4ee1")
      else if functions == with_adb f.mtp
      then (if str_eq v "diag" then qualcomm "0x903A" else for_users v "0x4ee2")
      else if functions == f.rndis
      then (if str_eq v "diag"
          then qualcomm "0x902C"
          else if str_eq v "serial_cdev,diag"
          then qualcomm "0x90B5"
          else for_users v "0x4ee3")
      else if functions == with_adb f.rndis
      then (if str_eq v "diag"
          then qualcomm "0x902D"
          else if str_eq v "serial_cdev,diag"
          then qualcomm "0x90B6"
          else for_users v "0x4ee4")
      else if functions == f.ptp
      then for_users v "0x4ee5"
      else if functions == with_adb f.ptp
      then for_users v "0x4ee6"
      else if functions == f.adb
      then (if str_eq v "diag"
          then qualcomm "0x901D"
          else if str_eq v "diag,serial_cdev,rmnet_gsi"
          then qualcomm "0x9091"
          else if str_eq v "diag,serial_cdev"
          then qualcomm "0x901F"
          else for_users v "0x4ee7")
      else if functions == f.midi
      then for_users v "0x4ee8"
      else if functions == with_adb f.midi
      then for_users v "0x4ee9"
      else if functions == f.accessory
      then google "0x2d00"
      else if functions == with_adb f.accessory
      then google "0x2d01"
      else if functions == f.audio_source
      then google "0x2d02"
      else if functions == with_adb f.audio_source
      then google "0x2d03"
      else if functions == bit_or f.accessory f.audio_source
      then google "0x2d04"
      else if functions == bit_or (with_adb f.accessory) f.audio_source
      then google "0x2d05"
      else none

  unfoldable pub set_ids : Ids → M (Unit {0})
  unfolding set_vid_pid
  set_ids none w = (fails configuration_not_supported, w)
  set_ids (some (vid, pid)) w = set_vid_pid vid pid w

  unfoldable pub validate_and_set_vid_pid : ℕ → M (Unit {0})
  unfolding set_ids ids_of get_vendor_functions
  validate_and_set_vid_pid functions w =
      let (vendor_functions, w') = get_vendor_functions w in
      set_ids (ids_of functions vendor_functions) w'
