-- ===== src/Usb/Port/Callback.antt =====
-- `setCallback` and `queryVersionHelper`, usb/Usb.cpp. A callback is known by its version. Calls of
-- `setCallback` come one after the other: `mLock` is given up before the thread is signalled. The state
-- counts the worker threads that were created and not joined. `kill` answers `pthread_kill` for a
-- number of such threads.
pub mod Laws
pub mod Reported
use device_xiaomi_camellia.Base.{
  ℕ, ◌&&◌, ◌+◌, ◌-◌, Bool, true, false, Option, none, some, List, [], ◌∷◌, String, if◌then◌else◌,
  map,
}
use device_xiaomi_camellia.Usb.Port.{Roles, Status, Sys}
use device_xiaomi_camellia.Usb.Port.Report.{
  HalVersion, v1_0, v1_1, v1_2, PortStatus, PortStatus10, PortStatus11, status_1_0, status_1_1,
  ContaminantConstants, is_success, get_port_status_helper, query_moisture_detection_status,
}

pub record Worker : Type 0 where
  pub callback : Option HalVersion
  pub threads : ℕ
  pub destroy_thread : Bool

abbrev pub initial : Worker
initial = record { callback = none; threads = 0; destroy_thread = false }

abbrev pub is_v1_2 : HalVersion → Bool
is_v1_2 v1_2 = true
is_v1_2 _ = false

module _ (kill : ℕ → Bool) where
  -- The signal handler sets `destroyThread`, and the thread is joined.
  unfoldable pub stop_worker : Worker → Worker
  stop_worker s =
      if kill s.threads then record s { threads = s.threads - 1; destroy_thread = true } else s

  unfoldable pub start_worker : Bool → Worker → Worker
  start_worker created s =
      if created
      then record s { threads = s.threads + 1; destroy_thread = false }
      else record s { callback = none; destroy_thread = false }

  unfoldable pub set_callback : Option HalVersion → Bool → Worker → Worker
  unfolding stop_worker start_worker
  set_callback new created s = elim s.callback [
    | none ↦ elim new [
      | none ↦ record s { callback = none }
      | some version ↦ start_worker created (record s { callback = some version })
    ]
    | some old ↦ elim new [
      | none ↦ stop_worker (record s { callback = none })
      | some version ↦ record s { callback = some version }
    ]
  ]

  -- Calls with their callbacks, each with whether a thread can be created.
  unfoldable pub run : List (Option HalVersion × Bool) → Worker → Worker
  run [] s = s
  run ((new, created) ∷ calls) s = run calls (set_callback new created s)

-- What a callback is told, by the call of its version.
pub data Notice : Type 0 where
  notify_port_status_change : List PortStatus10 → Status → Notice
  notify_port_status_change_1_1 : List PortStatus11 → Status → Notice
  notify_port_status_change_1_2 : List PortStatus → Status → Notice

unfoldable pub notice_of : HalVersion → List PortStatus → Status → Notice
unfolding status_1_0 status_1_1
notice_of v1_0 ports status = notify_port_status_change (map status_1_0 ports) status
notice_of v1_1 ports status = notify_port_status_change_1_1 (map status_1_1 ports) status
notice_of v1_2 ports status = notify_port_status_change_1_2 ports status

-- `queryVersionHelper`: what the callback is told, and what the ports are after the call.
unfoldable pub query_version_helper :
    Roles
    → ContaminantConstants
    → Sys
    → Option (List (Bool × String))
    → PortStatus
    → Worker
    → Option (Notice × List PortStatus)
unfolding notice_of
query_version_helper r c sys entries blank s = elim s.callback [
  | none ↦ none
  | some version ↦
      let (status, found) = get_port_status_helper r sys entries version blank in
      let ports =
        if is_v1_2 version && is_success status
        then (query_moisture_detection_status c found).1
        else found in
      some (notice_of version ports status, ports)
]

-- `queryPortStatus`, `enableContaminantPresenceDetection` and `enableContaminantPresenceProtection`
-- ask for the same report, whatever their arguments are.
unfoldable pub query_port_status :
    Roles
    → ContaminantConstants
    → Sys
    → Option (List (Bool × String))
    → PortStatus
    → Worker
    → Option (Notice × List PortStatus)
unfolding query_version_helper
query_port_status r c sys entries blank s = query_version_helper r c sys entries blank s

unfoldable pub enable_contaminant_presence :
    String
    → Bool
    → Roles
    → ContaminantConstants
    → Sys
    → Option (List (Bool × String))
    → PortStatus
    → Worker
    → Option (Notice × List PortStatus)
unfolding query_version_helper
enable_contaminant_presence port_name enable r c sys entries blank s =
    query_version_helper r c sys entries blank s
