-- ===== src/Usb/Port/Role.antt =====
-- The roles of a port, as files name them, usb/Usb.cpp.
pub mod Laws
use device_xiaomi_camellia.Base.Texts.{cut}
use device_xiaomi_camellia.Base.{
  ℕ, Bool, true, false, Option, none, some, List, [], ◌∷◌, String, ◌<>◌, str_eq, ◌==◌,
  if◌then◌else◌,
}
use device_xiaomi_camellia.Usb.Port.{
  PortRoleType, data_role, power_role, mode, other, Roles, Status, success, error,
  unrecognized_role, Sys,
}

unfoldable pub append_role_node_helper : String → PortRoleType → String
append_role_node_helper port_name data_role = "/sys/class/typec/" <> (port_name <> "/data_role")
append_role_node_helper port_name power_role = "/sys/class/typec/" <> (port_name <> "/power_role")
append_role_node_helper port_name mode = "/sys/class/typec/" <> (port_name <> "/port_type")
append_role_node_helper port_name other = ""

module _ (r : Roles) where
  -- The two fields of a `PortRole` are the arguments.
  unfoldable pub convert_role_to_string : PortRoleType → ℕ → String
  convert_role_to_string power_role role =
      if role == r.power_source then "source" else if role == r.power_sink then "sink" else "none"
  convert_role_to_string data_role role =
      if role == r.data_host then "host" else if role == r.data_device then "device" else "none"
  convert_role_to_string mode role =
      if role == r.mode_ufp then "sink" else if role == r.mode_dfp then "source" else "none"
  convert_role_to_string other role = "none"

-- The text between the brackets. If the closing bracket comes first, the length wraps and the
-- rest of the text is taken.
unfoldable pub extract_role : String → String
extract_role role_name = elim (cut "[" role_name) [
  | none ↦ role_name
  | some (head, tail) ↦ elim (cut "]" head) [
    | some _ ↦ tail
    | none ↦ elim (cut "]" tail) [ none ↦ role_name | some (role, _) ↦ role ]
  ]
]

module _ (r : Roles) where
  -- The role that a text stands for; `none` for `UNRECOGNIZED_ROLE`, and `some none` where the role
  -- that was set before stays.
  unfoldable pub named_role : PortRoleType → String → Option (Option ℕ)
  named_role type name =
      if str_eq name "source"
      then some (some r.power_source)
      else if str_eq name "sink"
      then some (some r.power_sink)
      else if str_eq name "host"
      then some (some (elim type [ data_role ↦ r.data_host | _ ↦ r.mode_dfp ]))
      else if str_eq name "device"
      then some (some (elim type [ data_role ↦ r.data_device | _ ↦ r.mode_ufp ]))
      else if str_eq name "none"
      then some none
      else none

  -- The end of the function: the file is read and its role is looked up.
  unfoldable pub read_role : Sys → PortRoleType → String → ℕ → Status × ℕ
  read_role sys type filename current = elim (sys filename) [
    | none ↦ (error, current)
    | some line ↦ elim (named_role type (extract_role line)) [
      | none ↦ (unrecognized_role, current)
      | some none ↦ (success, current)
      | some (some role) ↦ (success, role)
    ]
  ]

  -- The status, and `*currentRole`, which is not written where the type is unknown.
  unfoldable pub get_current_role_helper : Sys → String → Bool → PortRoleType → ℕ → Status × ℕ
  get_current_role_helper sys port_name connected power_role old =
      if connected
      then read_role sys power_role ("/sys/class/typec/" <> (port_name <> "/power_role"))
          r.power_none
      else (success, r.power_none)
  get_current_role_helper sys port_name connected data_role old =
      if connected
      then read_role sys data_role ("/sys/class/typec/" <> (port_name <> "/data_role")) r.data_none
      else (success, r.data_none)
  get_current_role_helper sys port_name connected mode old =
      if connected
      then (elim (sys ("/sys/class/typec/" <> (port_name <> "-partner/accessory_mode"))) [
        | none ↦ (error, r.mode_none)
        | some accessory ↦
            if str_eq accessory "analog_audio"
            then (success, r.mode_audio_accessory)
            else if str_eq accessory "debug"
            then (success, r.mode_debug_accessory)
            else read_role sys mode ("/sys/class/typec/" <> (port_name <> "/data_role")) r.mode_none
      ])
      else (success, r.mode_none)
  get_current_role_helper sys port_name connected other old = (error, old)
