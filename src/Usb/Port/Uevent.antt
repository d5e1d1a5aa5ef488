-- ===== src/Usb/Port/Uevent.antt =====
-- `uevent_event` and `enableUsbDataSignal`, usb/Usb.cpp. A kernel event is the list of its lines up
-- to the first empty one; an event that cannot be received, or is too long, is `none`.
pub mod Laws
pub mod Switching
pub mod Buffer
pub mod Received
use Prim.Native.Char.{code}
use Prim.Native.String
use text.Mathlib.Text.{starts_with}
use device_xiaomi_camellia.Base.{
  Bool, true, false, not, ◌&&◌, ◌||◌, Option, none, some, List, [], ◌∷◌, String, ◌<>◌, str_eq, ◌==◌,
  if◌then◌else◌,
}
use device_xiaomi_camellia.Usb.Port.Switch.{Partner, File, switch_to_drp}

unfoldable pub ends_with_partner : String → Bool
ends_with_partner String.[] = false
ends_with_partner (String.◌∷◌ c s) =
    let rest = ends_with_partner s in str_eq (String.◌∷◌ c s) "-partner" || rest

-- The line ends that `.` does not match.
unfoldable pub has_line_end : String → Bool
has_line_end String.[] = false
has_line_end (String.◌∷◌ c s) = let rest = has_line_end s in code c == 10 || code c == 13 || rest

-- `(add)(.*)(-partner)`
abbrev pub is_partner_added : String → Bool
is_partner_added line = starts_with line "add" && ends_with_partner line && not (has_line_end line)

abbrev pub is_port_changed : String → Bool
is_port_changed line = starts_with line "DEVTYPE=typec_"

-- The loop over the lines: whether it has come to a change of a port, at which it breaks.
unfoldable pub scan : List String → Partner → Bool × Partner
scan [] s = (false, s)
scan (line ∷ lines) s =
    if is_partner_added line
    then scan lines (record s { partner_up = true })
    else if is_port_changed line
    then (true, s)
    else scan lines s

-- The ports that were reported are set back to the dual role where no partner is there.
unfoldable pub set_back : (String → Bool) → File → List String → Partner → Partner
set_back has_partner drp [] s = s
set_back has_partner drp (port ∷ ports) s =
    set_back has_partner drp ports (if has_partner port then s else switch_to_drp port drp s)

-- `ports` are the names that the report has, and `switching` tells whether a role switch holds its
-- lock. The result tells whether the ports were reported.
unfoldable pub uevent_event :
    (String → Bool) → File → List String → Bool → Option (List String) → Partner → Bool × Partner
uevent_event has_partner drp ports switching event s = elim event [
  | none ↦ (false, s)
  | some lines ↦
      let (changed, s') = scan lines s in
      if changed && not switching then (true, set_back has_partner drp ports s') else (changed, s')
]

-- The result, and the writes that are tried, each with whether it succeeds.
unfoldable pub enable_usb_data_signal : Bool → String → Bool → Bool → Bool × List (String × String)
enable_usb_data_signal enable controller data_written pulled = (
  data_written && pulled,
  ("/sys/class/udc/" <> (controller <> "/device/cmode"), if enable then "1" else "0")
      ∷ ("/config/usb_gadget/g1/UDC", if enable then controller else "none")
      ∷ [],
)
