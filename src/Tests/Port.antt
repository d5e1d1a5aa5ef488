-- ===== src/Tests/Port.antt =====
-- Small inputs for usb/Usb.cpp: one port with a partner and one without.
use device_xiaomi_camellia.Base.{
  suc, zero, ℕ, ◌<◌, ◌≡◌, ◌≢◌, refl, inr, true, false, arith, none, some, [], ◌∷◌, ◌++◌, String,
  str_eq, if◌then◌else◌, List, ◌||◌, ◌&&◌, not, Option, Bool, ◌+◌, length, ◌==◌, ◌-◌,
}
use device_xiaomi_camellia.Base.Texts.{cut}
use device_xiaomi_camellia.Usb.Port.{roles, Sys, success, data_role, mode}
use device_xiaomi_camellia.Usb.Port.Role.{
  append_role_node_helper, convert_role_to_string, extract_role, get_current_role_helper, read_role,
  named_role,
}
use device_xiaomi_camellia.Usb.Port.Role.Laws.{get_current_role_helper-convert_role_to_string}
use device_xiaomi_camellia.Usb.Port.Report.{
  PortStatus, Names, v1_0, v1_2, port_statuses, port_status, can_switch_role_helper,
}
use device_xiaomi_camellia.Usb.Port.Report.Laws.{AllReported}
use device_xiaomi_camellia.Usb.Port.Switch.{File, Partner, switch_mode, write, switch_to_drp}
use device_xiaomi_camellia.Usb.Port.Uevent.{uevent_event}
use device_xiaomi_camellia.Usb.Port.Uevent.Switching.{any_adds, wakes_of, switch_mode-wakes_of}
use device_xiaomi_camellia.Usb.Port.Work.{
  Kernel, Wait, ready, interrupted, uevent_fd, epoll_fd, work,
}
use device_xiaomi_camellia.Usb.Port.Work.Laws.{is_some, any_ends, closed, work_lem}
use device_xiaomi_camellia.Usb.Port.Callback.Reported.{
  query_version_helper-AllReported, told_version, told_status, told_ports,
}
use device_xiaomi_camellia.Usb.Port.Report.{
  ContaminantConstants, v1_2, PortStatus10, status_1_0, get_port_status_helper,
  get_type_c_port_names_helper,
}
use device_xiaomi_camellia.Usb.Port.Uevent.Laws.{
  uevent_event_lem, changes_port, adds_partner, dual_writes,
}
use device_xiaomi_camellia.Usb.Port.Uevent.Buffer.{uevent_event_received, lines_of, uevent_msg_len}
use device_xiaomi_camellia.Usb.Port.Uevent.Received.{
  uevent_event_received_lem, received, split_zero, until_empty, prepend,
}
use device_xiaomi_camellia.Usb.Port.Callback.{
  notify_port_status_change, notice_of, initial, run, query_version_helper, Worker,
}
use device_xiaomi_camellia.Usb.Port.Callback.Laws.{IsWatched, run-IsWatched}

-- The kernel shows a device, and accepts power delivery nowhere.
abbrev sys : Sys
sys path =
    if str_eq path "/sys/class/typec/port0/data_role"
    then some "host [device]"
    else if str_eq path "/sys/class/typec/port0/power_role"
    then some "source [sink]"
    else if str_eq path "/sys/class/typec/port0-partner/accessory_mode"
    then some "none"
    else none

get_current_role_helper-convert_role_to_string_example :
    get_current_role_helper roles sys "port0" true data_role 0 ≡ (success, 2)
unfolding cut append_role_node_helper convert_role_to_string
get_current_role_helper-convert_role_to_string_example =
    get_current_role_helper-convert_role_to_string roles sys "port0" "host " "" data_role 2 0
      (inr refl) refl refl refl

abbrev blank : PortStatus
blank = record {
  port_name = "";
  current_power_role = 0;
  current_data_role = 0;
  current_mode = 0;
  current_mode_1_0 = 0;
  can_change_mode = false;
  can_change_data_role = false;
  can_change_power_role = false;
  supported_modes = 0;
  supported_modes_1_0 = 0;
  contaminant = record {
    supported_protection_modes = 0;
    protection_status = 0;
    detection_status = 0;
    supports_enable_presence_detection = false;
    supports_enable_presence_protection = false;
  };
}

abbrev two_ports : Names
two_ports = ("port0", true) ∷ ("port1", false) ∷ []

device_shows : roles.data_device ≢ roles.data_none
device_shows = omega arith

ufp_shows : roles.mode_ufp ≢ roles.mode_none
ufp_shows = omega arith

abbrev entries : Option (List (Bool × String))
entries = some ((true, "port0") ∷ (true, "port0-partner") ∷ (false, "x") ∷ (true, "port1") ∷ [])

abbrev watched : Worker
watched = record { callback = some v1_0; threads = 1; destroy_thread = false }

abbrev constants : ContaminantConstants
constants = record { force_sink = 1; protection_none = 0; not_detected = 1 }

abbrev port_told : PortStatus10
port_told = record {
  port_name = "port0";
  current_power_role = 2;
  current_data_role = 2;
  current_mode = 1;
  can_change_mode = true;
  can_change_data_role = false;
  can_change_power_role = false;
  supported_modes = 3;
}

abbrev port_free : PortStatus10
port_free = record port_told {
  port_name = "port1";
  current_power_role = 0;
  current_data_role = 0;
  current_mode = 0;
}

query_version_helper-AllReported_example :
    let notice = notify_port_status_change (port_told ∷ port_free ∷ []) success in
    (told_version notice ≡ v1_0)
    × AllReported roles sys (get_type_c_port_names_helper entries).1 (told_ports notice)
unfolding query_version_helper get_port_status_helper get_type_c_port_names_helper port_statuses cut
    port_status get_current_role_helper read_role named_role extract_role notice_of status_1_0
    told_status told_version can_switch_role_helper
query_version_helper-AllReported_example =
    query_version_helper-AllReported roles sys device_shows ufp_shows constants entries blank
      watched v1_0 (notify_port_status_change (port_told ∷ port_free ∷ []) success)
      (get_port_status_helper roles sys entries v1_0 blank).1 refl refl refl

abbrev fine : File
fine = record { opens = true; puts = true }

abbrev waiting : Partner
waiting = record { partner_up = false; written = [] }

abbrev written : Partner
written = record waiting {
  written =
      []
      ++ (append_role_node_helper "port0" data_role, convert_role_to_string roles data_role 2) ∷ [];
}

can_kill : (n : ℕ) → 0 < n → true ≡ true
can_kill n some_thread = refl

run-IsWatched_example :
    IsWatched (run (λ n. true) ((some v1_2, true) ∷ (some v1_0, true) ∷ (none, true) ∷ []) initial)
run-IsWatched_example =
    run-IsWatched (λ n. true) can_kill ((some v1_2, true) ∷ (some v1_0, true) ∷ (none, true) ∷ [])

uevent_event_lem_example :
    let lines : List String = "add@/devices/port0-partner" ∷ "DEVTYPE=typec_port" ∷ [] in
    let (reported, s) =
      uevent_event (λ port. false) fine ("port0" ∷ []) false (some lines) waiting in
    (reported ≡ changes_port lines)
    × (s.partner_up ≡ (false || adds_partner lines))
    × (s.written ≡ (
        if changes_port lines && not false
        then [] ++ dual_writes (λ port. false) ("port0" ∷ [])
        else []))
uevent_event_lem_example =
    uevent_event_lem (λ port. false) ("port0" ∷ []) false
      ("add@/devices/port0-partner" ∷ "DEVTYPE=typec_port" ∷ []) waiting

-- The bytes of `add-partner` in a buffer that is else full of ones.
abbrev ones : ℕ → List ℕ
ones zero = []
ones (suc n) = 1 ∷ ones n

abbrev buffer : List ℕ
buffer =
    97 ∷ 100 ∷ 100 ∷ 45 ∷ 112 ∷ 97 ∷ 114 ∷ 116 ∷ 110 ∷ 101 ∷ 114 ∷ ones (uevent_msg_len + 2 - 11)

abbrev text_of : List ℕ → String
text_of bytes = if length bytes == 11 then "add-partner" else ""

uevent_event_received_lem_example :
    uevent_event_received text_of (λ port. true) fine ("port0" ∷ []) true (some 11) buffer waiting
    ≡ some (
        uevent_event
          (λ port. true)
          fine
          ("port0" ∷ [])
          true
          (lines_of text_of (received (some 11) buffer))
          waiting)
uevent_event_received_lem_example =
    uevent_event_received_lem text_of (λ port. true) fine ("port0" ∷ []) true (some 11) buffer
      waiting refl

partner_received : lines_of text_of (received (some 11) buffer) ≡ some ("add-partner" ∷ [])
unfolding received split_zero until_empty prepend
partner_received = refl

-- The thread handles an event, is interrupted by the signal, and ends.
abbrev kernel : Kernel
kernel = record { opens_socket = true; creates_epoll = true; adds_socket = true }

abbrev waits : List Wait
waits = ready false ((true, some ("add@/typec/port0-partner" ∷ [])) ∷ []) ∷ interrupted true ∷ []

work_lem_example :
    let result = work (λ port. true) fine ("port0" ∷ []) false kernel waits false waiting in
    (is_some result ≡ true) × (closed result ≡ uevent_fd ∷ epoll_fd ∷ [])
unfolding any_ends
work_lem_example = work_lem (λ port. true) fine ("port0" ∷ []) false kernel waits false waiting

-- The first event changes the port, and the second one adds the partner.
abbrev arriving : List (Option (List String))
arriving = some ("DEVTYPE=typec_port" ∷ []) ∷ none ∷ some ("add@/typec/port0-partner" ∷ []) ∷ []

switch_mode-wakes_of_example :
    let adds = any_adds (λ port. true) ("port0" ∷ []) arriving in
    let before =
      write
        (append_role_node_helper "port0" mode)
        (convert_role_to_string roles mode 2)
        fine
        (record waiting { partner_up = adds }) in
    switch_mode roles "port0" mode 2 fine fine
      (wakes_of (λ port. true) ("port0" ∷ []) arriving)
      waiting
    ≡ some (adds, if adds then before else switch_to_drp "port0" fine before)
switch_mode-wakes_of_example =
    switch_mode-wakes_of (λ port. true) ("port0" ∷ []) roles "port0" 2 fine fine arriving waiting
