-- ===== src/Usb/Port/Report/Laws.antt =====
-- What a report says of every port.
use device_xiaomi_camellia.Base.{
  map, ◌≡◌, ◌≢◌, refl, ◌⊎◌, inl, inr, Bool, true, false, List, [], ◌∷◌, String, arith, Bool-cases,
}
use device_xiaomi_camellia.Usb.Port.{Roles, success, Sys, data_role, power_role, mode}
use device_xiaomi_camellia.Usb.Port.Role.{get_current_role_helper}
use device_xiaomi_camellia.Usb.Port.Report.{
  Names, PortStatus, PortStatus10, PortStatus11, status_1_0, status_1_1, HalVersion, v1_0, v1_1,
  v1_2, port_status, port_statuses, can_switch_role_helper,
}

-- What a callback of a version sees of a status: its own mode and supported modes, which from 1.1
-- on stand beside those of 1.0.
unfoldable pub seen_1_1 : PortStatus11 → PortStatus10
seen_1_1 s = record s.status { supported_modes = s.supported_modes; current_mode = s.current_mode }

unfoldable pub seen : HalVersion → PortStatus → PortStatus10
unfolding status_1_0 status_1_1 seen_1_1
seen v1_0 s = status_1_0 s
seen v1_1 s = seen_1_1 (status_1_1 s)
seen v1_2 s = seen_1_1 (status_1_1 s)

module _ (r : Roles) (sys : Sys) where
  -- The status of a port: it supports both modes. Without a partner it has no role and cannot
  -- switch, and with one it has a data role and a mode, and can switch exactly if the partner
  -- supports power delivery.
  abbrev pub IsReported : String → Bool → PortStatus10 → Type 0
  IsReported name connected s =
      (s.port_name ≡ name)
      × (s.can_change_mode ≡ true)
      × (s.supported_modes ≡ r.mode_drp)
      × (((connected ≡ false)
            × (s.current_power_role ≡ r.power_none)
            × (s.current_data_role ≡ r.data_none)
            × (s.current_mode ≡ r.mode_none)
            × (s.can_change_data_role ≡ false)
            × (s.can_change_power_role ≡ false))
          ⊎ ((connected ≡ true)
              × (s.current_data_role ≢ r.data_none)
              × (s.current_mode ≢ r.mode_none)
              × (s.can_change_data_role ≡ can_switch_role_helper sys name)
              × (s.can_change_power_role ≡ can_switch_role_helper sys name)))

  -- Without a partner a port has no role, whatever was read before.
  no_roles :
      (name : String)
      → (get_current_role_helper r sys name false power_role 0 ≡ (success, r.power_none))
        × (get_current_role_helper r sys name false data_role r.power_none ≡ (success, r.data_none))
        × (get_current_role_helper r sys name false mode r.data_none ≡ (success, r.mode_none))
  unfolding get_current_role_helper
  no_roles name = (refl, refl, refl)

  -- A report for each name, in the same order.
  unfoldable pub AllReported : Names → List PortStatus10 → Type 0
  AllReported [] [] = Unit {0}
  AllReported ((name, connected) ∷ names) (s ∷ statuses) =
      IsReported name connected s × AllReported names statuses
  AllReported _ _ = ⊥

module _ (r : Roles) (sys : Sys) (device_shows : r.data_device ≢ r.data_none)
    (ufp_shows : r.mode_ufp ≢ r.mode_none) where
  port_status-IsReported :
      (version : HalVersion) (name : String) (connected : Bool) (blank : PortStatus)
      → (port_status r sys version name connected blank).0 ≡ true
      → IsReported r sys name connected
          (seen version (port_status r sys version name connected blank).1)
  unfolding port_status seen
  port_status-IsReported v1_0 name true blank filled = ground (arith, device_shows, ufp_shows)
  port_status-IsReported v1_1 name true blank filled = ground (arith, device_shows, ufp_shows)
  port_status-IsReported v1_2 name true blank filled = ground (arith, device_shows, ufp_shows)
  port_status-IsReported v1_0 name false blank filled = ground (arith, no_roles r sys name)
  port_status-IsReported v1_1 name false blank filled = ground (arith, no_roles r sys name)
  port_status-IsReported v1_2 name false blank filled = ground (arith, no_roles r sys name)

  -- A report that succeeds has one status for each port, in the order of the ports: a port without
  -- a partner has no role and cannot switch, and one with a partner always shows a data role and a
  -- mode, and can switch exactly if the partner supports power delivery.
  pub port_statuses-AllReported :
      (version : HalVersion) (blank : PortStatus) (names : Names)
      → (port_statuses r sys version blank names).0 ≡ success
      → AllReported r sys names (map (seen version) (port_statuses r sys version blank names).1)
  unfolding port_statuses AllReported
  port_statuses-AllReported version blank [] done = tt
  port_statuses-AllReported version blank ((name, connected) ∷ names) done =
      elim (Bool-cases (port_status r sys version name connected blank).0) [
        | inl filled ↦
            rw (filled, port_statuses)
              (
                port_status-IsReported version name connected blank filled,
                port_statuses-AllReported version blank names (rw (filled, port_statuses) at done),
              )
        | inr failed ↦ ground (arith, failed)
      ]
