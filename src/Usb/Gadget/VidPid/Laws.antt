-- ===== src/Usb/Gadget/VidPid/Laws.antt =====
-- What the ids say about the functions.
use device_xiaomi_camellia.Base.{
  inl, inr, sym, Bool-cases, ==_iff, ℕ, ◌≡◌, refl, bit_or, true, Option, none, some, String, str_eq,
  ◌==◌, if◌then◌else◌, arith, List, ◌∷◌, [], Bool-cases, ◌++◌, append_assoc,
}
use device_xiaomi_camellia.Usb.World.{World, returns, fails, configuration_not_supported, write}
use device_xiaomi_camellia.Usb.Gadget.{GadgetFunction, get_vendor_functions}
use device_xiaomi_camellia.Usb.Gadget.VidPid.{
  ids_of, set_ids, validate_and_set_vid_pid, with_adb, Ids,
}

-- Asking again gives the same functions and changes nothing more.
pub get_vendor_functions_idem :
    (w : World)
    → let (vendor_functions, w') = get_vendor_functions w in
      get_vendor_functions w' ≡ (vendor_functions, w')
unfolding get_vendor_functions
get_vendor_functions_idem w = ground arith

pub get_vendor_functions-trace : (w : World) → (get_vendor_functions w).1.trace ≡ w.trace
unfolding get_vendor_functions
get_vendor_functions-trace w = ground arith

module _ (f : GadgetFunction) where
  -- The product ids that the gadget may show, with the functions that each stands for.
  abbrev pub product_ids : List (String × ℕ)
  product_ids =
      ("0x901B", f.mtp)
      ∷ ("0x4ee1", f.mtp)
      ∷ ("0x903A", with_adb f f.mtp)
      ∷ ("0x4ee2", with_adb f f.mtp)
      ∷ ("0x902C", f.rndis)
      ∷ ("0x90B5", f.rndis)
      ∷ ("0x4ee3", f.rndis)
      ∷ ("0x902D", with_adb f f.rndis)
      ∷ ("0x90B6", with_adb f f.rndis)
      ∷ ("0x4ee4", with_adb f f.rndis)
      ∷ ("0x4ee5", f.ptp)
      ∷ ("0x4ee6", with_adb f f.ptp)
      ∷ ("0x901D", f.adb)
      ∷ ("0x9091", f.adb)
      ∷ ("0x901F", f.adb)
      ∷ ("0x4ee7", f.adb)
      ∷ ("0x4ee8", f.midi)
      ∷ ("0x4ee9", with_adb f f.midi)
      ∷ ("0x2d00", f.accessory)
      ∷ ("0x2d01", with_adb f f.accessory)
      ∷ ("0x2d02", f.audio_source)
      ∷ ("0x2d03", with_adb f f.audio_source)
      ∷ ("0x2d04", bit_or f.accessory f.audio_source)
      ∷ ("0x2d05", bit_or (with_adb f f.accessory) f.audio_source)
      ∷ []

  -- The functions that a host may expect behind a product id.
  pub functions_of : String → List (String × ℕ) → Option ℕ
  functions_of pid [] = none
  functions_of pid ((known, functions) ∷ rows) =
      if str_eq known pid then some functions else functions_of pid rows

  abbrev Tells : ℕ → Ids → Type 0
  Tells functions none = Unit {0}
  Tells functions (some (vid, pid)) = functions_of pid product_ids ≡ some functions

  at_case : (n m : ℕ) (x y : Ids) → Tells m x → Tells n y → Tells n (if n == m then x else y)
  at_case n m x y here there = elim (Bool-cases (n == m)) [
    | inl e ↦ rw e (let same : m ≡ n = sym ((==_iff n m).0 e) in rw same at here)
    | inr e ↦ rw e there
  ]

  ids_of-Tells : (functions : ℕ) (v : String) → Tells functions (ids_of f functions v)
  unfolding ids_of functions_of
  ids_of-Tells n v =
      (at_case n f.mtp _ _ (ground arith) (
        at_case n (with_adb f f.mtp) _ _ (ground arith) (
          at_case n f.rndis _ _ (ground arith) (
            at_case n (with_adb f f.rndis) _ _ (ground arith) (
              at_case n f.ptp _ _ (ground arith) (
                at_case n (with_adb f f.ptp) _ _ (ground arith) (
                  at_case n f.adb _ _ (ground arith) (
                    at_case n f.midi _ _ (ground arith) (
                      at_case n (with_adb f f.midi) _ _ (ground arith) (
                        at_case n f.accessory _ _ refl (
                          at_case n (with_adb f f.accessory) _ _ refl (
                            at_case n f.audio_source _ _ refl (
                              at_case n (with_adb f f.audio_source) _ _ refl (
                                at_case n (bit_or f.accessory f.audio_source) _ _ refl (
                                  at_case n (bit_or (with_adb f f.accessory) f.audio_source) _ _
                                    refl tt)))))))))))))))

  -- The product id that is set tells the functions: no id stands for two combinations.
  pub functions_of-ids_of :
      (functions : ℕ) (v vid pid : String)
      → ids_of f functions v ≡ some (vid, pid)
      → functions_of pid product_ids ≡ some functions
  functions_of-ids_of functions v vid pid chosen =
      let told : Tells functions (ids_of f functions v) = ids_of-Tells functions v in
      rw chosen at told

  abbrev vendor_id_path : String
  vendor_id_path = "/config/usb_gadget/g1/idVendor"

  abbrev product_id_path : String
  product_id_path = "/config/usb_gadget/g1/idProduct"

  set_ids_written :
      (functions : ℕ) (ids : Ids) (w : World)
      → Tells functions ids
      → (set_ids f ids w).0 ≡ returns tt
      → (vid pid : String) × (functions_of pid product_ids ≡ some functions)
        × ((set_ids f ids w).1.trace
            ≡ w.trace ++ (write vid vendor_id_path, true) ∷ (write pid product_id_path, true) ∷ [])
  unfolding set_ids
  set_ids_written functions none w tells done = cc
  set_ids_written functions (some (vid, pid)) w tells done =
      (vid, pid, tells, grind (arith, append_assoc))

  -- On success exactly two calls were made and both were accepted: the vendor id and a product id
  -- that stands for the functions asked for, and for no other combination.
  pub validate_and_set_vid_pid_ok :
      (functions : ℕ) (w : World)
      → (validate_and_set_vid_pid f functions w).0 ≡ returns tt
      → (vid pid : String) × (functions_of pid product_ids ≡ some functions)
        × ((validate_and_set_vid_pid f functions w).1.trace
            ≡ w.trace ++ (write vid vendor_id_path, true) ∷ (write pid product_id_path, true) ∷ [])
  unfolding validate_and_set_vid_pid
  validate_and_set_vid_pid_ok functions w done =
      let (v, w') = get_vendor_functions w in
      let (vid, pid, known, written) =
        set_ids_written functions (ids_of f functions v) w' (ids_of-Tells functions v) done in
      (vid, pid, known, ground (arith, written, get_vendor_functions-trace w))

  set_ids_refused :
      (ids : Ids) (w : World)
      → (set_ids f ids w).0 ≡ fails configuration_not_supported
      → (ids ≡ none) × ((set_ids f ids w).1 ≡ w)
  unfolding set_ids
  set_ids_refused none w h = (refl, refl)
  set_ids_refused (some (vid, pid)) w h = ground arith

  -- A combination that is not supported writes nothing at all.
  pub validate_and_set_vid_pid_refused :
      (functions : ℕ) (w : World)
      → (validate_and_set_vid_pid f functions w).0 ≡ fails configuration_not_supported
      → (ids_of f functions (get_vendor_functions w).0 ≡ none)
        × ((validate_and_set_vid_pid f functions w).1.trace ≡ w.trace)
  unfolding validate_and_set_vid_pid
  validate_and_set_vid_pid_refused functions w refused =
      let (v, w') = get_vendor_functions w in
      ground
        (arith, set_ids_refused (ids_of f functions v) w' refused, get_vendor_functions-trace w)
