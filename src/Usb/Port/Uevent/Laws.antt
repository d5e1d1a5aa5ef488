-- ===== src/Usb/Port/Uevent/Laws.antt =====
-- What a kernel event does to the wait of a role switch and to the ports.
use device_xiaomi_camellia.Base.{
  ◌≡◌, Bool, true, false, not, ◌&&◌, ◌||◌, some, List, [], ◌∷◌, ◌++◌, append_assoc, append-nil,
  String, arith, if◌then◌else◌,
}
use device_xiaomi_camellia.Usb.Port.{mode}
use device_xiaomi_camellia.Usb.Port.Role.{append_role_node_helper}
use device_xiaomi_camellia.Usb.Port.Switch.{Partner, File, switch_to_drp}
use device_xiaomi_camellia.Usb.Port.Uevent.{
  is_partner_added, is_port_changed, scan, set_back, uevent_event,
}

-- A partner is added in a line before the first change of a port.
pub adds_partner : List String → Bool
adds_partner [] = false
adds_partner (line ∷ lines) =
    let rest = adds_partner lines in
    if is_partner_added line then true else if is_port_changed line then false else rest

-- A port has changed in a line that adds no partner.
pub changes_port : List String → Bool
changes_port [] = false
changes_port (line ∷ lines) =
    let rest = changes_port lines in
    if is_partner_added line then rest else is_port_changed line || rest

-- The writes that set ports without a partner back.
pub dual_writes : (String → Bool) → List String → List (String × String)
dual_writes has_partner [] = []
dual_writes has_partner (port ∷ ports) =
    let rest = dual_writes has_partner ports in
    if has_partner port then rest else (append_role_node_helper port mode, "dual") ∷ rest

scan_lem :
    (lines : List String) (s : Partner)
    → scan lines s
      ≡ (changes_port lines, record s { partner_up = s.partner_up || adds_partner lines })
unfolding scan adds_partner changes_port
scan_lem [] s = ground arith
scan_lem (line ∷ lines) s =
    ground (arith, scan_lem lines s, scan_lem lines (record s { partner_up = true }))

abbrev works : File
works = record { opens = true; puts = true }

set_back_lem :
    (has_partner : String → Bool) (ports : List String) (s : Partner)
    → set_back has_partner works ports s
      ≡ record s { written = s.written ++ dual_writes has_partner ports }
unfolding set_back dual_writes switch_to_drp
set_back_lem has_partner [] s = ground (arith, append-nil s.written)
set_back_lem has_partner (port ∷ ports) s = ground (
  arith,
  set_back_lem has_partner ports s,
  set_back_lem has_partner ports (switch_to_drp port works s),
  append_assoc s.written ((append_role_node_helper port mode, "dual") ∷ [])
      (dual_writes has_partner ports),
)

-- An event that is received wakes a waiting switch exactly if it adds a partner before it changes
-- a port. If it changes a port while no role switch is in progress, exactly the reported ports
-- without a partner are set back to the dual role, in order; during a switch no port is touched.
pub uevent_event_lem :
    (has_partner : String → Bool) (ports : List String) (switching : Bool) (lines : List String)
    (s : Partner)
    → let (reported, s') =
        uevent_event has_partner
          (record { opens = true; puts = true })
          ports
          switching
          (some lines)
          s in
      (reported ≡ changes_port lines)
      × (s'.partner_up ≡ (s.partner_up || adds_partner lines))
      × (s'.written ≡ (
          if changes_port lines && not switching
          then s.written ++ dual_writes has_partner ports
          else s.written))
unfolding uevent_event
uevent_event_lem has_partner ports switching lines s =
    ground (arith, scan_lem lines s, set_back_lem has_partner ports (scan lines s).1)
