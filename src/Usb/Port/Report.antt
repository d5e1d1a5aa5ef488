-- ===== src/Usb/Port/Report.antt =====
-- What is reported of the ports, usb/Usb.cpp. `/sys/class/typec` is a list of entries, if it can be
-- opened: whether each is a link, and its name. The map of ports is an association list in the
-- order of insertion. A port's status before it is filled in is the parameter `blank`.
pub mod Laws
use Prim.Native.String
use device_xiaomi_camellia.Base.{
  ℕ, bit_or, Bool, true, false, ◌&&◌, Option, none, some, List, [], ◌∷◌, map, String, ◌<>◌, str_eq,
  ◌==◌, if◌then◌else◌,
}
use device_xiaomi_camellia.Base.Texts.{cut}
use text.Mathlib.Text.{find?}
use device_xiaomi_camellia.Usb.Port.{
  Roles, Status, success, error, unrecognized_role, Sys, data_role, power_role, mode,
}
use device_xiaomi_camellia.Usb.Port.Role.{get_current_role_helper}

abbrev pub Names : Type 0
Names = List (String × Bool)

-- `names[name] = connected`, or an insertion that leaves an entry as it is.
pub set_name : String → Bool → Names → Names
set_name name connected [] = (name, connected) ∷ []
set_name name connected ((other, was) ∷ names) =
    let rest = set_name name connected names in
    if str_eq other name then (other, connected) ∷ names else (other, was) ∷ rest

pub insert_name : String → Names → Names
insert_name name [] = (name, false) ∷ []
insert_name name ((other, was) ∷ names) =
    let rest = insert_name name names in
    if str_eq other name then (other, was) ∷ names else (other, was) ∷ rest

-- `strtok(name, "-")`: the first part that is not empty.
strtok_dash : String → String
strtok_dash String.[] = ""
strtok_dash (String.◌∷◌ c s) =
    let rest = strtok_dash s in
    if str_eq (String.◌∷◌ c "") "-"
    then rest
    else elim (cut "-" (String.◌∷◌ c s)) [ none ↦ String.◌∷◌ c s | some (first, _) ↦ first ]

abbrev pub is_partner : String → Bool
is_partner name = elim (find? name "-partner") [ none ↦ false | some _ ↦ true ]

unfoldable pub port_names : List (Bool × String) → Names → Names
unfolding set_name insert_name strtok_dash
port_names [] names = names
port_names ((is_link, name) ∷ entries) names = port_names entries (
    if is_link
    then (if is_partner name
        then set_name (strtok_dash name) true names
        else insert_name name names)
    else names)

unfoldable pub get_type_c_port_names_helper : Option (List (Bool × String)) → Status × Names
unfolding port_names
get_type_c_port_names_helper entries = elim entries [
  | none ↦ (error, [])
  | some entries ↦ (success, port_names entries [])
]

unfoldable pub can_switch_role_helper : Sys → String → Bool
can_switch_role_helper sys port_name =
    elim (sys ("/sys/class/typec/" <> (port_name <> "-partner/supports_usb_power_delivery"))) [
      | none ↦ false
      | some supports_pd ↦ str_eq supports_pd "yes"
    ]

-- What `V1_2::PortStatus` adds.
pub record Contaminant : Type 0 where
  pub supported_protection_modes : ℕ
  pub protection_status : ℕ
  pub detection_status : ℕ
  pub supports_enable_presence_detection : Bool
  pub supports_enable_presence_protection : Bool

pub record PortStatus : Type 0 where
  pub port_name : String
  pub current_power_role : ℕ
  pub current_data_role : ℕ
  pub current_mode : ℕ  -- of status_1_1
  pub current_mode_1_0 : ℕ
  pub can_change_mode : Bool
  pub can_change_data_role : Bool
  pub can_change_power_role : Bool
  pub supported_modes : ℕ  -- of status_1_1
  pub supported_modes_1_0 : ℕ
  pub contaminant : Contaminant

-- `V1_0::PortStatus` and `V1_1::PortStatus_1_1`, which the status above contains.
pub record PortStatus10 : Type 0 where
  pub port_name : String
  pub current_power_role : ℕ
  pub current_data_role : ℕ
  pub current_mode : ℕ
  pub can_change_mode : Bool
  pub can_change_data_role : Bool
  pub can_change_power_role : Bool
  pub supported_modes : ℕ

pub record PortStatus11 : Type 0 where
  pub status : PortStatus10
  pub supported_modes : ℕ
  pub current_mode : ℕ

-- `status_1_1.status` and `status_1_1`.
unfoldable pub status_1_0 : PortStatus → PortStatus10
status_1_0 s = record {
  port_name = s.port_name;
  current_power_role = s.current_power_role;
  current_data_role = s.current_data_role;
  current_mode = s.current_mode_1_0;
  can_change_mode = s.can_change_mode;
  can_change_data_role = s.can_change_data_role;
  can_change_power_role = s.can_change_power_role;
  supported_modes = s.supported_modes_1_0;
}

unfoldable pub status_1_1 : PortStatus → PortStatus11
unfolding status_1_0
status_1_1 s = record {
  status = status_1_0 s;
  supported_modes = s.supported_modes;
  current_mode = s.current_mode;
}

-- `ContaminantProtectionMode::FORCE_SINK`, `ContaminantProtectionStatus::NONE` and
-- `ContaminantDetectionStatus::NOT_DETECTED`.
pub record ContaminantConstants : Type 0 where
  pub force_sink : ℕ
  pub protection_none : ℕ
  pub not_detected : ℕ

-- The part before the first character of a text of one character.
abbrev pub before : String → String → String
before delimiter text = elim (cut delimiter text) [ none ↦ text | some (first, _) ↦ first ]

abbrev pub is_success : Status → Bool
is_success success = true
is_success _ = false

pub data HalVersion : Type 0 where
  v1_0 v1_1 v1_2 : HalVersion

module _ (r : Roles) (sys : Sys) where
  -- "Our device has broken roles": a connected port never shows no role.
  abbrev pub spoofed : Bool → ℕ → ℕ → ℕ → ℕ
  spoofed connected absent role instead = if connected && (role == absent) then instead else role

  abbrev with_modes : HalVersion → PortStatus → PortStatus
  with_modes v1_0 s = record s { supported_modes_1_0 = r.mode_drp }
  with_modes _ s = record s {
    supported_modes = r.mode_drp;
    supported_modes_1_0 = r.mode_none;
    current_mode_1_0 = r.mode_none;
  }

  -- The body of the loop for one port: its status, and whether it was filled in to the end.
  unfoldable pub port_status : HalVersion → String → Bool → PortStatus → Bool × PortStatus
  port_status version name connected blank =
      let named = record blank { port_name = name } in
      let (got_power, power) = get_current_role_helper r sys name connected power_role 0 in
      let powered = record named { current_power_role = power } in
      let (got_data, data_) = get_current_role_helper r sys name connected data_role power in
      let with_data = record powered {
        current_data_role = spoofed connected r.data_none data_ r.data_device;
      } in
      let (got_mode, mode_) = get_current_role_helper r sys name connected mode data_ in
      let current = spoofed connected r.mode_none mode_ r.mode_ufp in
      let can_switch = if connected then can_switch_role_helper sys name else false in
      if is_success got_power
      then (if is_success got_data
          then (if is_success got_mode
              then (
                true,
                with_modes version (record with_data {
                  current_mode = current;
                  current_mode_1_0 = current;
                  can_change_mode = true;
                  can_change_data_role = can_switch;
                  can_change_power_role = can_switch;
                }),
              )
              else (false, with_data))
          else (false, powered))
      else (false, named)

  -- The loop: at the first port that fails the rest stay blank.
  unfoldable pub port_statuses : HalVersion → PortStatus → Names → Status × List PortStatus
  port_statuses version blank [] = (success, [])
  port_statuses version blank ((name, connected) ∷ names) =
      let (filled, first) = port_status version name connected blank in
      let (status, rest) = port_statuses version blank names in
      elim filled [
        | true ↦ (status, first ∷ rest)
        | false ↦ (error, first ∷ map (λ other. blank) names)
      ]

  unfoldable pub get_port_status_helper :
      Option (List (Bool × String)) → HalVersion → PortStatus → Status × List PortStatus
  get_port_status_helper entries version blank =
      let (status, names) = get_type_c_port_names_helper entries in
      if is_success status then port_statuses version blank names else (error, [])

-- `readFile`: the result 0 or -1 as whether the file opens, and the contents after it. They are the
-- first line up to a null character, and stay as they are if the file is empty.
unfoldable pub read_file : Option String → String → Bool × String
read_file none contents = (false, contents)
read_file (some String.[]) contents = (true, contents)
read_file (some (String.◌∷◌ c text)) contents =
    let line = before "\n" (String.◌∷◌ c text) in (true, before "\0" line)

-- The map of first lines that a map of texts gives.
abbrev pub shown : (String → Option String) → Sys
shown files path = elim (files path) [ none ↦ none | some text ↦ some (read_file (some text) "").1 ]

-- The first port gets what the device does about contaminants.
unfoldable pub query_moisture_detection_status :
    ContaminantConstants → List PortStatus → Status × List PortStatus
query_moisture_detection_status c [] = (error, [])
query_moisture_detection_status c (port ∷ ports) = (
  success,
  record port {
    contaminant = record {
      supported_protection_modes = bit_or 0 c.force_sink;
      protection_status = c.protection_none;
      detection_status = c.not_detected;
      supports_enable_presence_detection = false;
      supports_enable_presence_protection = false;
    };
  }
      ∷ ports,
)
