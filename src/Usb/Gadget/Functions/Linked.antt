-- ===== src/Usb/Gadget/Functions/Linked.antt =====
-- The links of a request while every call succeeds.
use device_xiaomi_camellia.Base.{
  ℕ, ◌≡◌, Bool, true, false, List, [], ◌∷◌, ◌++◌, String, arith, append-nil, if◌then◌else◌, str_eq,
  Bool-cases, inl, inr, ◌∙◌,
}
use device_xiaomi_camellia.Usb.World.{World, UsbGadget, M, write, watch, set_property}
use device_xiaomi_camellia.Usb.Gadget.{GadgetFunction, get_vendor_functions}
use device_xiaomi_camellia.Usb.Gadget.Links.{
  link_function, link_ffs, link_if, link_token, link_tokens, link_vendor, link_media, link_adb,
  link_all, tokens, push_endpoints, has,
}
use device_xiaomi_camellia.Usb.Gadget.Functions.Works.{
  IsWilling, Works, same, give-Works, >>=-Works, >>-Works, require-Works, modify-Works,
  link_function-Works,
}

abbrev pub push : List String → UsbGadget → UsbGadget
push names g = record g { endpoint_list = g.endpoint_list ++ names }

link_ffs-Works :
    (directory name : String) (endpoints : List String) (i : ℕ)
    → Works (push endpoints) (link_ffs directory name endpoints i)
unfolding link_ffs push_endpoints
link_ffs-Works directory name endpoints i =
    >>-Works (require-Works (write "1" "/config/usb_gadget/g1/os_desc/use")) (
      >>-Works (require-Works (watch directory)) (
        >>=-Works (link_function name i) _ (link_function-Works name i)
          λ j. >>-Works (modify-Works (push endpoints)) (give-Works j)))

link_if-Works : (asked : Bool) (name : String) (i : ℕ) → Works same (link_if asked name i)
unfolding link_if
link_if-Works true name i = link_function-Works name i
link_if-Works false name i = give-Works i

link_token-Works : (token : String) (i : ℕ) → Works same (link_token token i)
unfolding link_token
link_token-Works token i = >>=-Works _ _ (link_if-Works (str_eq token "diag") "diag.diag" i) λ j.
    >>=-Works _ _ (link_if-Works (str_eq token "serial_cdev") "cser.dun.0" j)
      λ k. link_if-Works (str_eq token "rmnet_gsi") "gsi.rmnet" k

link_tokens-Works : (ts : List String) (i : ℕ) → Works same (link_tokens ts i)
unfolding link_tokens
link_tokens-Works [] i = give-Works i
link_tokens-Works (token ∷ rest) i =
    >>=-Works (link_token token i) (link_tokens rest) (link_token-Works token i)
      (link_tokens-Works rest)

-- Asking for the functions of the vendor may set a property, and nothing else.
pub get_vendor_functions-IsWilling :
    (w : World)
    → IsWilling w
    → ((get_vendor_functions w).1.gadget ≡ w.gadget) × IsWilling (get_vendor_functions w).1
unfolding get_vendor_functions set_property
get_vendor_functions-IsWilling w h = (
  ground arith,
  record {
    names = h.names;
    answers = λ n. ground (arith, h.answers n);
    listed = ground (arith, h.listed);
  },
)

link_vendor-Works : (i : ℕ) → Works same (link_vendor i)
unfolding link_vendor
link_vendor-Works i = record {
  runs = λ w h.
      let (v, w') = get_vendor_functions w in
      let (kept, willing) = get_vendor_functions-IsWilling w h in
      let (a, done, changed, after) = (link_tokens-Works (tokens v) i).runs w' willing in
      (a, done, changed ∙ kept, after);
}

-- The endpoints of the functions that run in user space.
abbrev pub mtp_endpoints : List String
mtp_endpoints = "/dev/usb-ffs/mtp/ep1" ∷ "/dev/usb-ffs/mtp/ep2" ∷ "/dev/usb-ffs/mtp/ep3" ∷ []

abbrev pub ptp_endpoints : List String
ptp_endpoints = "/dev/usb-ffs/ptp/ep1" ∷ "/dev/usb-ffs/ptp/ep2" ∷ "/dev/usb-ffs/ptp/ep3" ∷ []

abbrev pub adb_endpoints : List String
adb_endpoints = "/dev/usb-ffs/adb/ep1" ∷ "/dev/usb-ffs/adb/ep2" ∷ []

module _ (f : GadgetFunction) (functions : ℕ) where
  abbrev pub media_endpoints_of : List String
  media_endpoints_of =
      if has functions f.mtp
      then mtp_endpoints
      else if has functions f.ptp
      then ptp_endpoints
      else []

  abbrev pub adb_endpoints_of : List String
  adb_endpoints_of = if has functions f.adb then adb_endpoints else []

  Works-push_nil : {A : Type 0} {m : M A} → Works same m → Works (push []) m
  Works-push_nil {m = m} h = record {
    runs = λ w willing.
        let (a, done, changed, after) = h.runs w willing in
        (a, done, ground (arith, changed, append-nil w.gadget.endpoint_list), after);
  }

  link_media-Works : (i : ℕ) → Works (push media_endpoints_of) (link_media f functions i)
  unfolding link_media
  link_media-Works i = elim (Bool-cases (has functions f.mtp)) [
    | inl mtp ↦ rw (mtp, link_media) (link_ffs-Works "/dev/usb-ffs/mtp/" "ffs.mtp" mtp_endpoints i)
    | inr no_mtp ↦ elim (Bool-cases (has functions f.ptp)) [
      | inl ptp ↦
          rw (no_mtp, ptp, link_media)
            (link_ffs-Works "/dev/usb-ffs/ptp/" "ffs.ptp" ptp_endpoints i)
      | inr no_ptp ↦ rw (no_mtp, no_ptp, link_media) (Works-push_nil (give-Works i))
    ]
  ]

  link_adb-Works : (i : ℕ) → Works (push adb_endpoints_of) (link_adb f functions i)
  unfolding link_adb
  link_adb-Works i = elim (Bool-cases (has functions f.adb)) [
    | inl adb ↦ rw (adb, link_adb) (link_ffs-Works "/dev/usb-ffs/adb/" "ffs.adb" adb_endpoints i)
    | inr no_adb ↦ rw (no_adb, link_adb) (Works-push_nil (give-Works i))
  ]

  pub link_all-Works :
      Works (λ g. push adb_endpoints_of (push media_endpoints_of g)) (link_all f functions)
  unfolding link_all
  link_all-Works = >>=-Works _ _ (link_media-Works 0) λ i.
      >>=-Works _ _ (link_if-Works (has functions f.midi) "midi.gs5" i) λ i.
        >>=-Works _ _ (link_if-Works (has functions f.accessory) "accessory.gs2" i) λ i.
          >>=-Works _ _ (link_if-Works (has functions f.audio_source) "audio_source.gs3" i) λ i.
            >>=-Works _ _ (link_if-Works (has functions f.rndis) "rndis.gs4" i)
              λ i. >>=-Works _ _ (link_vendor-Works i) link_adb-Works
