-- ===== src/Usb/Port/Switch/Laws.antt =====
-- How a switch ends.
use Prim.Native.Char.{Char}
use Prim.Native.String.append.{cons}
use device_xiaomi_camellia.Base.{
  sym, ◌∙◌, ◌<>◌, ℕ, ◌≡◌, ◌≢◌, ◌⊎◌, inl, inr, Bool, true, false, ◌&&◌, ◌||◌, Option, some, List, [],
  ◌∷◌, ◌++◌, String, str_eq, eq_iff, arith, if◌then◌else◌, Bool-cases, Option-cases, ◌↔◌,
}
use device_xiaomi_camellia.Usb.Port.{
  PortRoleType, data_role, power_role, mode, other, Roles, Status, success,
}
use device_xiaomi_camellia.Usb.Port.Role.{
  append_role_node_helper, convert_role_to_string, extract_role,
}
use device_xiaomi_camellia.Usb.Port.Switch.{
  Wake, timed_out, woken, Partner, File, write, switch_to_drp, wait_again, try_mode, switch_mode,
  switch_by_file, switch_role, told,
}

-- The wait is over after these wake-ups.
unfoldable pub is_decided : List Wake → Bool
is_decided [] = false
is_decided (timed_out ∷ wakes) = true
is_decided (woken added ∷ wakes) = let rest = is_decided wakes in added || rest

-- The partner is added before the wait times out.
unfoldable pub is_answered : List Wake → Bool
is_answered [] = false
is_answered (timed_out ∷ wakes) = false
is_answered (woken added ∷ wakes) = let rest = is_answered wakes in added || rest

wait_again_lem :
    (wakes : List Wake) (s : Partner)
    → is_decided wakes ≡ true
    → s.partner_up ≡ false
    → wait_again wakes s ≡ some (is_answered wakes, record s { partner_up = is_answered wakes })
unfolding wait_again is_decided is_answered
wait_again_lem [] s decided fresh = cc
wait_again_lem (timed_out ∷ wakes) s decided fresh = ground arith
wait_again_lem (woken true ∷ wakes) s decided fresh = ground arith
wait_again_lem (woken false ∷ wakes) s decided fresh =
    ground (arith, fresh, wait_again_lem wakes s decided fresh)

cons_empty : (c : Char) (t : String) → String.◌∷◌ c t ≢ ""
cons_empty c t e = cc

-- A port has a file for its mode.
node_named : (port_name : String) → str_eq (append_role_node_helper port_name mode) "" ≡ false
unfolding append_role_node_helper
node_named port_name = elim (Bool-cases (str_eq (append_role_node_helper port_name mode) "")) [
  | inr named ↦ named
  | inl empty ↦
      let shape = cons "/" "sys/class/typec/" (port_name <> "/port_type") in
      let none = (eq_iff (append_role_node_helper port_name mode) "").0 empty in
      absurd (cons_empty _ _ (sym shape ∙ none))
]

module _ (r : Roles) where
  -- A switch of the mode whose wait is decided ends. It succeeds exactly when the mode was written
  -- and the partner came back before the timeout; then only the mode was written, and else the
  -- port is set back to the dual role, if its file can be written.
  pub switch_mode_lem :
      (port_name : String) (role : ℕ) (file drp : File) (wakes : List Wake) (s : Partner)
      → is_decided wakes ≡ true
      → let switched = file.opens && file.puts && is_answered wakes in
        let node = append_role_node_helper port_name mode in
        let before = write node (convert_role_to_string r mode role) file (record s {
          partner_up =
              if file.opens then (if file.puts then is_answered wakes else false) else s.partner_up;
        }) in
        switch_mode r port_name mode role file drp wakes s
        ≡ some (switched, if switched then before else switch_to_drp port_name drp before)
  unfolding switch_mode try_mode
  switch_mode_lem port_name role file drp wakes s decided =
      let node = append_role_node_helper port_name mode in
      let name = convert_role_to_string r mode role in
      ground (
        arith,
        node_named port_name,
        decided,
        wait_again_lem wakes (write node name file (record s { partner_up = false })),
      )

  switch_by_file_success :
      (port_name : String) (type : PortRoleType) (role : ℕ) (file : File) (shown : Option String)
      (s s' : Partner)
      → (◌≡◌ {A = Option (Option Status × Partner)}
          (let (switched, s1) = switch_by_file r port_name type role file shown s in
            some (told true switched, s1))
          (some (some success, s')))
        ↔ ((file.opens ≡ true)
            × (file.puts ≡ true)
            × ((line : String) × (shown ≡ some line)
                × (extract_role line ≡ convert_role_to_string r type role))
            × (s' ≡ record s {
              written =
                  s.written
                  ++ (append_role_node_helper port_name type, convert_role_to_string r type role)
                    ∷ [];
            }))
  unfolding switch_by_file
  switch_by_file_success port_name type role file shown s s' = elim (Option-cases shown) [
    | inl e ↦ ground (arith, e)
    | inr (line, e) ↦
        let same = eq_iff (extract_role line) (convert_role_to_string r type role) in
        (
          λ h. (
            ground (arith, h, e),
            ground (arith, h, e),
            (line, e, ground (arith, h, e, same)),
            ground (arith, h, e),
          ),
          λ h.
              let (opens, puts, (line', e', shown'), s'') = h in
              let same' = eq_iff (extract_role line') (convert_role_to_string r type role) in
              ground (arith, opens, puts, e', shown', s'', same'),
        )
  ]

  -- A data or power role: the callback is told of success exactly when the role was written and
  -- the file then shows it.
  pub switch_role_success :
      (port_name : String) (type : PortRoleType) (role : ℕ) (file drp : File)
      (shown : Option String) (wakes : List Wake) (s s' : Partner)
      → (type ≡ data_role) ⊎ (type ≡ power_role)
      → (switch_role r true port_name type role file drp shown wakes s ≡ some (some success, s'))
        ↔ ((file.opens ≡ true)
            × (file.puts ≡ true)
            × ((line : String) × (shown ≡ some line)
                × (extract_role line ≡ convert_role_to_string r type role))
            × (s' ≡ record s {
              written =
                  s.written
                  ++ (append_role_node_helper port_name type, convert_role_to_string r type role)
                    ∷ [];
            }))
  unfolding switch_role
  switch_role_success port_name data_role role file drp shown wakes s s' kind =
      switch_by_file_success port_name data_role role file shown s s'
  switch_role_success port_name power_role role file drp shown wakes s s' kind =
      switch_by_file_success port_name power_role role file shown s s'
  switch_role_success port_name mode role file drp shown wakes s s' kind = absurd (ground arith)
  switch_role_success port_name other role file drp shown wakes s s' kind = absurd (ground arith)
