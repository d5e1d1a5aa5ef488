-- ===== src/Tests/Usb.antt =====
-- Small worlds for usb/UsbGadget.cpp: the kernel accepts all calls, or all but one.
use device_xiaomi_camellia.Base.{
  ◌≡◌, refl, true, false, some, [], ◌∷◌, ◌++◌, String, length, if◌then◌else◌, str_eq, List, ◌≢◌,
  ◌==◌, arith, ◌+◌, ℕ, map,
}
use device_xiaomi_camellia.Usb.Gadget.TearDown.Undone.{
  tear_down_gadget-link_all, link_path, numbers,
}
use device_xiaomi_camellia.Usb.Gadget.Monitor.Display.{
  InotifyBits, display_inotify_event, flags, flag_lines, wd_line, text, name_line,
}
use device_xiaomi_camellia.Usb.World.{
  World, UsbGadget, write, Status, returns, success, error, functions_applied,
  functions_not_applied,
}
use device_xiaomi_camellia.Usb.Gadget.{gadget_function, get_vendor_functions}
use device_xiaomi_camellia.Usb.Gadget.VidPid.{validate_and_set_vid_pid, ids_of}
use device_xiaomi_camellia.Usb.Gadget.VidPid.Laws.{
  validate_and_set_vid_pid_ok, functions_of, product_ids,
}
use device_xiaomi_camellia.Usb.Gadget.TearDown.{tear_down_gadget, unlink_entries}
use device_xiaomi_camellia.Usb.Gadget.TearDown.Laws.{removed}
use device_xiaomi_camellia.Usb.Gadget.Setup.{finish_by_monitor}
use device_xiaomi_camellia.Usb.Gadget.Functions.Quiet.{tells}
use device_xiaomi_camellia.Usb.Gadget.Functions.PulledUp.{finish_by_monitor-monitor_ffs}
use device_xiaomi_camellia.Usb.Gadget.Monitor.{Seen, inotify, signal, started, monitor_ffs}
use device_xiaomi_camellia.Usb.Gadget.Monitor.Laws.{comes_up}
use device_xiaomi_camellia.Usb.Gadget.Functions.{
  set_current_usb_functions, set_current_usb_functions_beside, get_current_usb_functions,
  usb_gadget,
}
use device_xiaomi_camellia.Usb.Gadget.Functions.Laws.{Told, set_current_usb_functions_tells}
use device_xiaomi_camellia.Usb.Gadget.Functions.Works.{IsWilling}
use device_xiaomi_camellia.Usb.Gadget.Functions.Linked.{mtp_endpoints, adb_endpoints}
use device_xiaomi_camellia.Usb.Gadget.Functions.Succeeds.{set_current_usb_functions_succeeds}
use device_xiaomi_camellia.Usb.Gadget.Functions.Refused.{
  monitor_goes_on, monitor_goes_on-set_current_usb_functions,
}
use device_xiaomi_camellia.Usb.Gadget.Links.{link_all, tokens}
use device_xiaomi_camellia.Usb.Gadget.Links.Laws.{
  link_all_lem, links, numbered, names_of, vendor_of,
}

abbrev gadget : UsbGadget
gadget = record {
  monitor_created = false;
  endpoint_list = [];
  current_usb_functions = 0;
  current_usb_functions_applied = false;
  gadget_pullup = false;
}

-- A debug build that asks for the diagnostic functions.
abbrev debug_build : World
debug_build = record {
  gadget = gadget;
  config_entries = some ("function0" ∷ "strings" ∷ []);
  answers = λ n. true;
  trace = [];
  properties = λ name. if str_eq name "vendor.usb.config" then "diag" else "";
}

validate_and_set_vid_pid_ok_example :
    (vid pid : String) × (functions_of gadget_function pid (product_ids gadget_function) ≡ some 5)
    × ((validate_and_set_vid_pid gadget_function 5 debug_build).1.trace
        ≡ []
          ++ (write vid "/config/usb_gadget/g1/idVendor", true)
            ∷ (write pid "/config/usb_gadget/g1/idProduct", true)
            ∷ [])
unfolding validate_and_set_vid_pid
validate_and_set_vid_pid_ok_example = validate_and_set_vid_pid_ok gadget_function 5 debug_build refl

link_all_lem_example :
    (links (link_all gadget_function 5 debug_build).1.trace
      ≡ links [] ++ numbered 0 (names_of (vendor_of debug_build) gadget_function 5))
    × (3 ≡ length (names_of (vendor_of debug_build) gadget_function 5))
unfolding link_all tokens
link_all_lem_example = link_all_lem gadget_function 5 3 debug_build refl

-- The monitor of an earlier request runs, and the class of the device cannot be written.
abbrev stuck : World
stuck = record debug_build {
  gadget = record gadget { monitor_created = true; endpoint_list = "/dev/usb-ffs/adb/ep1" ∷ [] };
  answers = λ n. if n == 1 then false else true;
}

set_current_usb_functions_tells_example :
    (s : Status) × Told gadget_function 4 true stuck
      (set_current_usb_functions_beside gadget_function 4 true 100 true stuck)
      s
set_current_usb_functions_tells_example =
    set_current_usb_functions_tells gadget_function 4 100 true stuck

-- The text of a number with one digit.
abbrev digit : ℕ → String
digit n = if n == 0 then "0" else if n == 1 then "1" else "2"

-- The links of the request stand before another entry.
abbrev linked_build : World
linked_build = record debug_build {
  config_entries = some ("function0" ∷ "function1" ∷ "function2" ∷ "strings" ∷ []);
}

tear_down_gadget-link_all_example :
    (removed (tear_down_gadget linked_build).1.trace
      ≡ removed [] ++ map (link_path digit) (numbers 0 3))
    × ((tear_down_gadget linked_build).1.gadget
        ≡ record gadget { monitor_created = false; endpoint_list = [] })
unfolding tear_down_gadget unlink_entries link_all tokens links
tear_down_gadget-link_all_example =
    tear_down_gadget-link_all digit gadget_function 5 3 debug_build linked_build [] ("strings" ∷ [])
      refl refl tt (refl, tt) refl refl

-- The endpoints come late, vanish and come back.
abbrev seen : List Seen
seen =
    inotify false true
    ∷ inotify true true
    ∷ inotify false true
    ∷ inotify true true
    ∷ signal true
    ∷ []

finish_by_monitor-monitor_ffs_example :
    let (r, w) = finish_by_monitor 4 true 100 debug_build in
    (r ≡ returns tt)
    × (tells w.trace ≡ tells [] ++ (4, if comes_up seen then success else error) ∷ [])
    × (w.gadget.gadget_pullup ≡ comes_up seen)
unfolding monitor_ffs
finish_by_monitor-monitor_ffs_example =
    finish_by_monitor-monitor_ffs 4 100 false false true seen debug_build refl refl refl refl refl

debug_build-IsWilling : IsWilling debug_build
debug_build-IsWilling = record {
  names = "function0" ∷ "strings" ∷ [];
  answers = λ n. refl;
  listed = refl;
}

-- MTP and ADB.
set_current_usb_functions_succeeds_example :
    let w = set_current_usb_functions gadget_function 5 true 100 debug_build in
    (tells w.trace ≡ tells [] ++ (5, success) ∷ [])
    × (get_current_usb_functions w ≡ (5, functions_applied))
    × (w.gadget.monitor_created ≡ true)
    × (w.gadget.endpoint_list ≡ mtp_endpoints ++ adb_endpoints)
unfolding ids_of get_vendor_functions
set_current_usb_functions_succeeds_example =
    set_current_usb_functions_succeeds gadget_function 5 100 debug_build debug_build-IsWilling
      (λ e. cc) (λ e. omega (arith, e))

monitor_goes_on-set_current_usb_functions_example :
    let w = set_current_usb_functions gadget_function 4 true 100 stuck in
    (tells w.trace ≡ tells [] ++ (4, error) ∷ [])
    × (error ≢ success)
    × (w.gadget.monitor_created ≡ true)
    × (w.gadget.endpoint_list ≡ "/dev/usb-ffs/adb/ep1" ∷ [])
    × (get_current_usb_functions (monitor_goes_on seen (started false) w)
        ≡ (4, if comes_up seen then functions_applied else functions_not_applied))
unfolding tear_down_gadget
monitor_goes_on-set_current_usb_functions_example =
    monitor_goes_on-set_current_usb_functions gadget_function 4 100 error (started false) seen stuck
      refl refl refl refl

-- The functions that were refused are said to be applied.
refused_functions_applied :
    get_current_usb_functions (
      monitor_goes_on seen
        (started false)
        (set_current_usb_functions gadget_function 4 true 100 stuck))
    ≡ (4, functions_applied)
unfolding get_current_usb_functions monitor_goes_on set_current_usb_functions
refused_functions_applied = refl

-- Before the first request the functions are what the memory held.
usb_gadget_memory :
    get_current_usb_functions
      (record debug_build { gadget = usb_gadget (record gadget { current_usb_functions = 77 }) })
    ≡ (77, functions_not_applied)
unfolding get_current_usb_functions usb_gadget
usb_gadget_memory = refl

-- A file comes and is opened: the bits as in Linux.
abbrev bits : InotifyBits
bits = record {
  in_access = 1;
  in_attrib = 4;
  in_close_nowrite = 16;
  in_close_write = 8;
  in_create = 256;
  in_delete = 512;
  in_delete_self = 1024;
  in_ignored = 32768;
  in_isdir = 1073741824;
  in_modify = 2;
  in_move_self = 2048;
  in_moved_from = 64;
  in_moved_to = 128;
  in_open = 32;
  in_q_overflow = 16384;
  in_unmount = 8192;
}

display_created :
    display_inotify_event bits
      (record { wd = 3; mask = 256 + 32; cookie = 0; len = 16; name = "ep1" })
    ≡ wd_line 3
      ∷ text "mask = "
      ∷ text "IN_CREATE "
      ∷ text "IN_OPEN "
      ∷ text "\n"
      ∷ name_line "ep1"
      ∷ []
unfolding display_inotify_event flags flag_lines
display_created = refl
