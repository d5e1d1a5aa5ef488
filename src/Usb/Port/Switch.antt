-- ===== src/Usb/Port/Switch.antt =====
-- `switchRole`, `switchMode` and `switchToDrp`, usb/Usb.cpp. Whether a file can be opened and
-- written, and what ends each wait, are arguments; `written` lists what was written, in order.
pub mod Laws
use device_xiaomi_camellia.Base.{
  ℕ, Bool, true, false, not, ◌&&◌, ◌||◌, Option, none, some, List, [], ◌∷◌, ◌++◌, String, str_eq,
  if◌then◌else◌,
}
use device_xiaomi_camellia.Usb.Port.{
  PortRoleType, data_role, power_role, mode, other, Roles, Status, success, error, Sys,
}
use device_xiaomi_camellia.Usb.Port.Role.{
  append_role_node_helper, convert_role_to_string, extract_role,
}

-- The end of a `pthread_cond_timedwait`: a timeout, or a wake-up, before which the partner was
-- added or was not.
pub data Wake : Type 0 where
  timed_out : Wake
  woken : Bool → Wake

pub record Partner : Type 0 where
  pub partner_up : Bool
  pub written : List (String × String)

-- Whether a file can be opened, and whether `fputs` succeeds.
pub record File : Type 0 where
  pub opens : Bool
  pub puts : Bool

abbrev pub write : String → String → File → Partner → Partner
write path content file s =
    if file.opens && file.puts then record s { written = s.written ++ (path, content) ∷ [] } else s

unfoldable pub switch_to_drp : String → File → Partner → Partner
switch_to_drp port_name file s = write (append_role_node_helper port_name mode) "dual" file s

-- The loop of `wait_again`; `none` while it still waits after the wake-ups that are listed.
unfoldable pub wait_again : List Wake → Partner → Option (Bool × Partner)
wait_again [] s = none
wait_again (timed_out ∷ wakes) s = some (false, s)
wait_again (woken added ∷ wakes) s =
    let up = s.partner_up || added in
    let s' = record s { partner_up = up } in
    elim up [ true ↦ some (true, s') | false ↦ wait_again wakes s' ]

-- What the callback is told, if one is set, in the place of the status.
abbrev pub told : Bool → Bool → Option Status
told has_callback switched =
    if has_callback then some (if switched then success else error) else none

module _ (r : Roles) where
  -- The write and the wait, in `switchMode`: whether the mode was switched.
  unfoldable pub try_mode :
      String → PortRoleType → ℕ → File → List Wake → Partner → Option (Bool × Partner)
  try_mode port_name type role file wakes s =
      if file.opens
      then (let s1 =
            write (append_role_node_helper port_name type) (convert_role_to_string r type role) file
              (record s { partner_up = false }) in
          if file.puts then wait_again wakes s1 else some (false, s1))
      else some (false, s)

  unfoldable pub switch_mode :
      String → PortRoleType → ℕ → File → File → List Wake → Partner → Option (Bool × Partner)
  switch_mode port_name type role file drp wakes s =
      if str_eq (append_role_node_helper port_name type) ""
      then some (false, s)
      else elim (try_mode port_name type role file wakes s) [
        | none ↦ none
        | some (switched, s') ↦
            some (switched, if switched then s' else switch_to_drp port_name drp s')
      ]

  -- A data or power role: `shown` is the file after the write, if it can be read.
  unfoldable pub switch_by_file :
      String → PortRoleType → ℕ → File → Option String → Partner → Bool × Partner
  switch_by_file port_name type role file shown s = (
    file.opens && file.puts && (elim shown [
      | none ↦ false
      | some line ↦ str_eq (extract_role line) (convert_role_to_string r type role)
    ]),
    write (append_role_node_helper port_name type) (convert_role_to_string r type role) file s,
  )

  unfoldable pub switch_role :
      Bool
      → String
      → PortRoleType
      → ℕ
      → File
      → File
      → Option String
      → List Wake
      → Partner
      → Option (Option Status × Partner)
  switch_role has_callback port_name mode role file drp shown wakes s =
      elim (switch_mode port_name mode role file drp wakes s) [
        | none ↦ none
        | some (switched, s') ↦ some (told has_callback switched, s')
      ]
  switch_role has_callback port_name other role file drp shown wakes s = some (none, s)
  switch_role has_callback port_name type role file drp shown wakes s =
      let (switched, s') = switch_by_file port_name type role file shown s in
      some (told has_callback switched, s')
