-- ===== src/Usb/Gadget/Functions/Succeeds.antt =====
-- A request while every call succeeds, the wait for the monitor included.
use device_xiaomi_camellia.Base.{
  ℕ, ◌≡◌, ◌≢◌, refl, ◌∙◌, ap, inl, inr, true, false, none, some, [], ◌∷◌, ◌++◌, arith,
  if◌then◌else◌, Bool-cases, ◌==◌, ==_iff,
}
use device_xiaomi_camellia.Usb.World.{
  World, UsbGadget, Outcome, fails, functions_applied, returns, success, write, >>=-cases,
}
use device_xiaomi_camellia.Usb.Gadget.{GadgetFunction, get_vendor_functions}
use device_xiaomi_camellia.Usb.Gadget.VidPid.{
  validate_and_set_vid_pid, set_vid_pid, set_ids, ids_of, Ids,
}
use device_xiaomi_camellia.Usb.Gadget.Links.{ffs_enabled}
use device_xiaomi_camellia.Usb.Gadget.TearDown.{tear_down_gadget}
use device_xiaomi_camellia.Usb.Gadget.Setup.{setup_functions}
use device_xiaomi_camellia.Usb.Gadget.Functions.{
  configure, on_error, get_current_usb_functions, set_current_usb_functions, requested,
}
use device_xiaomi_camellia.Usb.Gadget.Functions.Stays.{tear_down_gadget-KeepsProperties}
use device_xiaomi_camellia.Usb.Gadget.Functions.Quiet.{tells}
use device_xiaomi_camellia.Usb.Gadget.Functions.Laws.{set_current_usb_functions_alone}
use device_xiaomi_camellia.Usb.Gadget.Functions.Works.{
  IsWilling, Works, RunsAt, >>=-RunsAt, same, >>-Works, require-Works, tear_down_gadget-Works,
}
use device_xiaomi_camellia.Usb.Gadget.Functions.Linked.{
  push, get_vendor_functions-IsWilling, media_endpoints_of, adb_endpoints_of,
}
use device_xiaomi_camellia.Usb.Gadget.Functions.SetUp.{applied, monitored, setup_functions-Works}

module _ (f : GadgetFunction) (functions timeout : ℕ) where
  set_ids-Works : (ids : Ids) → ids ≢ none → Works same (set_ids f ids)
  unfolding set_ids set_vid_pid
  set_ids-Works none known = absurd (known refl)
  set_ids-Works (some (vid, pid)) known =
      >>-Works (require-Works (write vid "/config/usb_gadget/g1/idVendor"))
        (require-Works (write pid "/config/usb_gadget/g1/idProduct"))

  -- The functions have ids, together with the functions of the vendor.
  abbrev pub IsKnown : World → Type 0
  IsKnown w = ids_of f functions (get_vendor_functions w).0 ≢ none

  -- What a request does to the members once the old functions are torn down.
  abbrev pub set_up : UsbGadget → UsbGadget
  set_up g =
      let linked = push (adb_endpoints_of f functions) (push (media_endpoints_of f functions) g) in
      if ffs_enabled f functions then monitored linked else applied linked

  validate_and_set_vid_pid-RunsAt :
      (w : World) → IsWilling w → IsKnown w → RunsAt same (validate_and_set_vid_pid f functions) w
  unfolding validate_and_set_vid_pid
  validate_and_set_vid_pid-RunsAt w h known =
      let (v, w') = get_vendor_functions w in
      let (kept, willing) = get_vendor_functions-IsWilling w h in
      let (a, done, changed, after) =
        (set_ids-Works (ids_of f functions v) known).runs w' willing in
      (a, done, changed ∙ kept, after)

  configure-RunsAt :
      (w : World)
      → IsWilling w
      → IsKnown w
      → functions ≢ f.no_function
      → RunsAt set_up (configure f functions true timeout) w
  unfolding configure
  configure-RunsAt w h known asked = elim (Bool-cases (functions == f.no_function)) [
    | inl nothing ↦ absurd (asked ((==_iff functions f.no_function).0 nothing))
    | inr something ↦
        rw (something, configure)
          (>>=-RunsAt same (validate_and_set_vid_pid f functions)
            (λ _. setup_functions functions true f timeout) w
            (validate_and_set_vid_pid-RunsAt w h known)
            λ u. setup_functions-Works f functions timeout)
  ]

  on_error-returns :
      (r : Outcome (Unit {0}) × World) (u : Unit {0})
      → r.0 ≡ returns u
      → on_error f functions true timeout r ≡ r.1
  unfolding on_error
  on_error-returns (returns u', w) u e = refl
  on_error-returns (fails s, w) u e = cc

  -- The functions of the vendor depend on the properties alone.
  get_vendor_functions-properties :
      (w w' : World)
      → w.properties ≡ w'.properties
      → (get_vendor_functions w).0 ≡ (get_vendor_functions w').0
  unfolding get_vendor_functions
  get_vendor_functions-properties w w' e = ground (
    arith,
    ap (λ q. q "ro.build.type") e,
    ap (λ q. q "vendor.usb.config") e,
    ap (λ q. q "ro.bootmode") e,
    ap (λ q. q "persist.vendor.usb.usbradio.config") e,
  )

  set_current_usb_functions-gadget :
      (w : World)
      → IsWilling w
      → IsKnown w
      → functions ≢ f.no_function
      → (set_current_usb_functions f functions true timeout w).gadget
        ≡ set_up (record (requested f functions true timeout w.gadget) {
          monitor_created = false;
          endpoint_list = [];
        })
  unfolding set_current_usb_functions
  set_current_usb_functions-gadget w h known asked =
      let v : World = record w { gadget = requested f functions true timeout w.gadget } in
      let h' : IsWilling v = record { names = h.names; answers = h.answers; listed = h.listed } in
      let (u, done, changed, willing) = tear_down_gadget-Works.runs v h' in
      let kept = tear_down_gadget-KeepsProperties.runs v in
      let known' : IsKnown (tear_down_gadget v).1 =
        rw (get_vendor_functions-properties (tear_down_gadget v).1 w kept) known in
      elim (>>=-cases tear_down_gadget (λ _. configure f functions true timeout) v) [
        | inl (a, w', ran, rest) ↦
            let (b, done', changed', after) =
              configure-RunsAt w' (rw ran at willing) (rw ran at known') asked in
            rw (rest, on_error-returns (configure f functions true timeout w') b done')
              (changed' ∙ ap set_up (rw ran at changed))
        | inr (s, w', ran, rest) ↦ cc
      ]

  -- While every call succeeds and the monitor pulls the gadget up before the end of the wait, a
  -- request with a callback for functions that have ids is told once, of success; the functions are
  -- applied and recorded, and the members are those of these functions alone, whatever was before:
  -- the monitor runs exactly if one of them runs in user space, with the endpoints of MTP or else
  -- PTP, and of ADB behind them.
  pub set_current_usb_functions_succeeds :
      (w : World)
      → IsWilling w
      → IsKnown w
      → functions ≢ f.no_function
      → let w' = set_current_usb_functions f functions true timeout w in
        (tells w'.trace ≡ tells w.trace ++ (functions, success) ∷ [])
        × (get_current_usb_functions w' ≡ (functions, functions_applied))
        × (w'.gadget.monitor_created ≡ ffs_enabled f functions)
        × (w'.gadget.endpoint_list ≡ media_endpoints_of f functions ++ adb_endpoints_of f functions)
  unfolding get_current_usb_functions
  set_current_usb_functions_succeeds w h known asked =
      let w' = set_current_usb_functions f functions true timeout w in
      let members = set_current_usb_functions-gadget w h known asked in
      let (s, told) = set_current_usb_functions_alone f functions timeout w in
      let up : w'.gadget.current_usb_functions_applied ≡ true = rw members (ground arith) in
      let same_functions : w'.gadget.current_usb_functions ≡ functions =
        rw members (ground arith) in
      let good : s ≡ success = ground (arith, told, up) in
      (
        rw good at told.0,
        rw (up, same_functions) refl,
        rw members (ground arith),
        rw members (ground arith),
      )
