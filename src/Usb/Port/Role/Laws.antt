-- ===== src/Usb/Port/Role/Laws.antt =====
-- What is written for a role is read back as that role.
use device_xiaomi_camellia.Base.{
  ℕ, ◌≡◌, refl, ◌⊎◌, inl, inr, true, none, some, String, ◌<>◌, ◌==◌, arith, Bool-cases,
}
use device_xiaomi_camellia.Base.Texts.{cut, cut_part}
use device_xiaomi_camellia.Usb.Port.{
  PortRoleType, data_role, power_role, mode, other, Roles, success, Sys,
}
use device_xiaomi_camellia.Usb.Port.Role.{
  append_role_node_helper, convert_role_to_string, extract_role, named_role, read_role,
  get_current_role_helper,
}

-- The role in brackets is extracted, whatever stands around it, if there is no bracket before it
-- and none closes in it.
pub extract_role_lem :
    (head role tail : String)
    → cut "[" head ≡ none
    → cut "]" head ≡ none
    → cut "]" role ≡ none
    → extract_role (head <> ("[" <> (role <> ("]" <> tail)))) ≡ role
unfolding extract_role
extract_role_lem head role tail opens closes free =
    ground
      (arith, cut_part "[" head (role <> ("]" <> tail)) opens, cut_part "]" role tail free, closes)

module _ (r : Roles) where
  -- A data or power role that a port can be switched to by its name.
  abbrev pub IsNamed : PortRoleType → ℕ → Type 0
  IsNamed power_role role = (role ≡ r.power_source) ⊎ (role ≡ r.power_sink)
  IsNamed data_role role = (role ≡ r.data_host) ⊎ (role ≡ r.data_device)
  IsNamed mode role = ⊥
  IsNamed other role = ⊥

  named_role-convert_role_to_string :
      (type : PortRoleType) (role : ℕ)
      → IsNamed type role
      → (named_role r type (convert_role_to_string r type role) ≡ some (some role))
        × (cut "]" (convert_role_to_string r type role) ≡ none)
  unfolding named_role convert_role_to_string cut
  named_role-convert_role_to_string power_role role named =
      elim (Bool-cases (role == r.power_source)) [
        | inl source ↦ rw (source, convert_role_to_string) (ground arith, refl)
        | inr no_source ↦ elim (Bool-cases (role == r.power_sink)) [
          | inl sink ↦ rw (no_source, sink, convert_role_to_string) (ground arith, refl)
          | inr no_sink ↦ ground arith
        ]
      ]
  named_role-convert_role_to_string data_role role named = elim (Bool-cases (role == r.data_host)) [
    | inl host ↦ rw (host, convert_role_to_string) (ground arith, refl)
    | inr no_host ↦ elim (Bool-cases (role == r.data_device)) [
      | inl device ↦ rw (no_host, device, convert_role_to_string) (ground arith, refl)
      | inr no_device ↦ ground arith
    ]
  ]
  named_role-convert_role_to_string mode role named = absurd named
  named_role-convert_role_to_string other role named = absurd named

  -- When the kernel shows a data or power role in brackets, by the name that is written to switch
  -- to it, the role of a connected port is read back as that role.
  pub get_current_role_helper-convert_role_to_string :
      (sys : Sys) (port_name head tail : String) (type : PortRoleType) (role old : ℕ)
      → IsNamed type role
      → cut "[" head ≡ none
      → cut "]" head ≡ none
      → sys (append_role_node_helper port_name type)
        ≡ some (head <> ("[" <> (convert_role_to_string r type role <> ("]" <> tail))))
      → get_current_role_helper r sys port_name true type old ≡ (success, role)
  unfolding get_current_role_helper read_role append_role_node_helper
  get_current_role_helper-convert_role_to_string sys port_name head tail power_role role old named
        opens closes shown =
      let name = named_role-convert_role_to_string power_role role named in
      ground (arith, shown, name, extract_role_lem head _ tail opens closes name.1)
  get_current_role_helper-convert_role_to_string sys port_name head tail data_role role old named
        opens closes shown =
      let name = named_role-convert_role_to_string data_role role named in
      ground (arith, shown, name, extract_role_lem head _ tail opens closes name.1)
  get_current_role_helper-convert_role_to_string sys port_name head tail mode role old named opens
        closes shown =
      absurd named
  get_current_role_helper-convert_role_to_string sys port_name head tail other role old named opens
        closes shown =
      absurd named
