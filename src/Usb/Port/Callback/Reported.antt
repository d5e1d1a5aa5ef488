-- ===== src/Usb/Port/Callback/Reported.antt =====
-- What a callback is told of the ports, whatever its version.
use device_xiaomi_camellia.Base.{
  subst, sym, ◌∙◌, map, ap, refl, ◌&&◌, if◌then◌else◌, ◌≡◌, ◌≢◌, Bool, true, false, Option, some,
  List, [], ◌∷◌, String, arith, inl, inr, Bool-cases,
}
use device_xiaomi_camellia.Usb.Port.{Roles, Status, success, Sys}
use device_xiaomi_camellia.Usb.Port.Report.{
  HalVersion, PortStatus, ContaminantConstants, is_success, get_type_c_port_names_helper,
  get_port_status_helper, query_moisture_detection_status, PortStatus10, v1_0, v1_1, v1_2,
}
use device_xiaomi_camellia.Usb.Port.Report.Laws.{
  AllReported, port_statuses-AllReported, seen, seen_1_1,
}
use device_xiaomi_camellia.Usb.Port.Callback.{
  Worker, is_v1_2, query_version_helper, Notice, notify_port_status_change,
  notify_port_status_change_1_1, notify_port_status_change_1_2, notice_of,
}

-- The version by which a callback is told, the status, and what it sees of each port.
unfoldable pub told_version : Notice → HalVersion
told_version (notify_port_status_change ports status) = v1_0
told_version (notify_port_status_change_1_1 ports status) = v1_1
told_version (notify_port_status_change_1_2 ports status) = v1_2

unfoldable pub told_status : Notice → Status
told_status (notify_port_status_change ports status) = status
told_status (notify_port_status_change_1_1 ports status) = status
told_status (notify_port_status_change_1_2 ports status) = status

unfoldable pub told_ports : Notice → List PortStatus10
unfolding seen seen_1_1
told_ports (notify_port_status_change ports status) = ports
told_ports (notify_port_status_change_1_1 ports status) = map seen_1_1 ports
told_ports (notify_port_status_change_1_2 ports status) = map (seen v1_2) ports

map-map :
    {A B C : Type 0} (f : A → B) (g : B → C) (xs : List A)
    → map g (map f xs) ≡ map (λ x. g (f x)) xs
map-map f g [] = refl
map-map f g (x ∷ xs) = ap (◌∷◌ (g (f x))) (map-map f g xs)

notice_of_lem :
    (version : HalVersion) (ports : List PortStatus) (status : Status)
    → (told_version (notice_of version ports status) ≡ version)
      × (told_status (notice_of version ports status) ≡ status)
      × (told_ports (notice_of version ports status) ≡ map (seen version) ports)
unfolding notice_of told_version told_status told_ports seen seen_1_1
notice_of_lem v1_0 ports status = (refl, refl, refl)
notice_of_lem v1_1 ports status = (refl, refl, map-map _ _ ports)
notice_of_lem v1_2 ports status = (refl, refl, refl)

-- What the device does about contaminants is not among what is seen of a port.
seen-query_moisture_detection_status :
    (version : HalVersion) (c : ContaminantConstants) (ports : List PortStatus)
    → map (seen version) (query_moisture_detection_status c ports).1 ≡ map (seen version) ports
unfolding query_moisture_detection_status seen
seen-query_moisture_detection_status version c [] = refl
seen-query_moisture_detection_status v1_0 c (port ∷ ports) = refl
seen-query_moisture_detection_status v1_1 c (port ∷ ports) = refl
seen-query_moisture_detection_status v1_2 c (port ∷ ports) = refl

seen-either :
    (b : Bool) (version : HalVersion) (c : ContaminantConstants) (ports : List PortStatus)
    → map (seen version) (if b then (query_moisture_detection_status c ports).1 else ports)
      ≡ map (seen version) ports
seen-either true version c ports = seen-query_moisture_detection_status version c ports
seen-either false version c ports = refl

module _ (r : Roles) (sys : Sys) (device_shows : r.data_device ≢ r.data_none)
    (ufp_shows : r.mode_ufp ≢ r.mode_none) where
  get_port_status_helper-AllReported :
      (entries : Option (List (Bool × String))) (version : HalVersion) (blank : PortStatus)
      → (get_port_status_helper r sys entries version blank).0 ≡ success
      → AllReported r sys
          (get_type_c_port_names_helper entries).1
          (map (seen version) (get_port_status_helper r sys entries version blank).1)
  unfolding get_port_status_helper
  get_port_status_helper-AllReported entries version blank done =
      elim (Bool-cases (is_success (get_type_c_port_names_helper entries).0)) [
        | inl found ↦
            rw (found, get_port_status_helper)
              (port_statuses-AllReported r sys device_shows ufp_shows version blank
                (get_type_c_port_names_helper entries).1
                (rw (found, get_port_status_helper) at done))
        | inr lost ↦ absurd (ground (arith, lost))
      ]

  -- A callback is told by the call of its version. It is told of success only with one status for
  -- each port of the directory, in order, and sees in it that both modes are supported, and: no role
  -- and no mode of a port without a partner, and a data role and a mode of a port with a partner.
  -- For a callback of version 1.0 these are the members of its own status, and else the modes that
  -- version 1.1 has added. The platform's device role and upward-facing mode are not its numbers
  -- for no role and no mode.
  pub query_version_helper-AllReported :
      (c : ContaminantConstants) (entries : Option (List (Bool × String))) (blank : PortStatus)
      (s : Worker) (version : HalVersion) (notice : Notice) (ports : List PortStatus)
      → s.callback ≡ some version
      → query_version_helper r c sys entries blank s ≡ some (notice, ports)
      → told_status notice ≡ success
      → (told_version notice ≡ version)
        × AllReported r sys (get_type_c_port_names_helper entries).1 (told_ports notice)
  unfolding query_version_helper
  query_version_helper-AllReported c entries blank s version notice ports e told done =
      let status : Status = (get_port_status_helper r sys entries version blank).0 in
      let found : List PortStatus = (get_port_status_helper r sys entries version blank).1 in
      let b : Bool = is_v1_2 version && is_success status in
      let shown : List PortStatus =
        if b then (query_moisture_detection_status c found).1 else found in
      let same : ◌≡◌ {A = Option (Notice × List PortStatus)}
          (some (notice_of version shown status, shown)) (some (notice, ports)) =
        rw (e, query_version_helper) at told in
      let alike : notice_of version shown status ≡ notice = cc in
      let (kind, ended, viewed) = notice_of_lem version shown status in
      let good : status ≡ success = sym ended ∙ ap told_status alike ∙ done in
      let view : map (seen version) shown ≡ map (seen version) found =
        seen-either b version c found in
      (
        sym (ap told_version alike) ∙ kind,
        subst (AllReported r sys (get_type_c_port_names_helper entries).1)
            (sym (viewed ∙ view) ∙ ap told_ports alike)
            (get_port_status_helper-AllReported entries version blank good),
      )
