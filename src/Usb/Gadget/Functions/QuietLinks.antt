-- ===== src/Usb/Gadget/Functions/QuietLinks.antt =====
-- The links of a request tell the callback nothing.
use device_xiaomi_camellia.Base.{
  ℕ, ◌+◌, refl, Bool, List, [], ◌∷◌, ◌++◌, String, arith, ◌<>◌, str_eq,
}
use device_xiaomi_camellia.Usb.World.{symlink, watch, mkdir}
use device_xiaomi_camellia.Usb.Gadget.{GadgetFunction, get_vendor_functions}
use device_xiaomi_camellia.Usb.Gadget.Links.{
  link_function, link_ffs, link_if, link_token, link_tokens, link_vendor, link_media, link_adb,
  link_all, tokens, push_endpoints, has,
}
use device_xiaomi_camellia.Usb.Gadget.Functions.Quiet.{
  Quiet, give-Quiet, >>=-Quiet, IsQuiet, require-Quiet, attempt-Quiet, if-Quiet, >>-Quiet,
  modify-Quiet, write-Quiet, get_vendor_functions-Silent,
}

link_function-Quiet : (name : String) (i : ℕ) → Quiet (link_function name i)
unfolding link_function IsQuiet
link_function-Quiet name i =
    let path = "/config/usb_gadget/g1/functions/" <> name in
    let link = >>-Quiet (require-Quiet (symlink path i) tt) (give-Quiet (i + 1)) in
    if-Quiet (str_eq name "rndis.gs4") _ _ (>>-Quiet (attempt-Quiet (mkdir path) tt) link) link

link_ffs-Quiet :
    (directory name : String) (endpoints : List String) (i : ℕ)
    → Quiet (link_ffs directory name endpoints i)
unfolding link_ffs IsQuiet push_endpoints
link_ffs-Quiet directory name endpoints i =
    >>-Quiet (write-Quiet "1" "/config/usb_gadget/g1/os_desc/use") (
      >>-Quiet (require-Quiet (watch directory) tt) (
        >>=-Quiet (link_function name i) _ (link_function-Quiet name i) λ j.
          >>-Quiet
            (modify-Quiet (λ g. record g { endpoint_list = g.endpoint_list ++ endpoints })
              λ g. (refl, refl))
            (give-Quiet j)))

link_if-Quiet : (asked : Bool) (name : String) (i : ℕ) → Quiet (link_if asked name i)
unfolding link_if
link_if-Quiet asked name i = if-Quiet asked _ _ (link_function-Quiet name i) (give-Quiet i)

link_token-Quiet : (token : String) (i : ℕ) → Quiet (link_token token i)
unfolding link_token
link_token-Quiet token i = >>=-Quiet _ _ (link_if-Quiet (str_eq token "diag") "diag.diag" i) λ j.
    >>=-Quiet _ _ (link_if-Quiet (str_eq token "serial_cdev") "cser.dun.0" j)
      λ k. link_if-Quiet (str_eq token "rmnet_gsi") "gsi.rmnet" k

link_tokens-Quiet : (ts : List String) (i : ℕ) → Quiet (link_tokens ts i)
unfolding link_tokens
link_tokens-Quiet [] i = give-Quiet i
link_tokens-Quiet (token ∷ rest) i =
    >>=-Quiet (link_token token i) (link_tokens rest) (link_token-Quiet token i)
      (link_tokens-Quiet rest)

link_vendor-Quiet : (i : ℕ) → Quiet (link_vendor i)
unfolding link_vendor
link_vendor-Quiet i = record {
  runs = λ w.
      let (v, w') = get_vendor_functions w in
      let asked = get_vendor_functions-Silent w in
      let linked = (link_tokens-Quiet (tokens v) i).runs w' in ground (arith, asked, linked);
}

link_media-Quiet : (f : GadgetFunction) (functions i : ℕ) → Quiet (link_media f functions i)
unfolding link_media
link_media-Quiet f functions i =
    if-Quiet (has functions f.mtp) _ _
      (link_ffs-Quiet "/dev/usb-ffs/mtp/" "ffs.mtp"
        ("/dev/usb-ffs/mtp/ep1" ∷ "/dev/usb-ffs/mtp/ep2" ∷ "/dev/usb-ffs/mtp/ep3" ∷ []) i)
      (if-Quiet (has functions f.ptp) _ _
        (link_ffs-Quiet "/dev/usb-ffs/ptp/" "ffs.ptp"
          ("/dev/usb-ffs/ptp/ep1" ∷ "/dev/usb-ffs/ptp/ep2" ∷ "/dev/usb-ffs/ptp/ep3" ∷ []) i)
        (give-Quiet i))

link_adb-Quiet : (f : GadgetFunction) (functions i : ℕ) → Quiet (link_adb f functions i)
unfolding link_adb
link_adb-Quiet f functions i =
    if-Quiet (has functions f.adb) _ _
      (link_ffs-Quiet "/dev/usb-ffs/adb/" "ffs.adb"
        ("/dev/usb-ffs/adb/ep1" ∷ "/dev/usb-ffs/adb/ep2" ∷ []) i)
      (give-Quiet i)

pub link_all-Quiet : (f : GadgetFunction) (functions : ℕ) → Quiet (link_all f functions)
unfolding link_all
link_all-Quiet f functions = >>=-Quiet _ _ (link_media-Quiet f functions 0) λ i.
    >>=-Quiet _ _ (link_if-Quiet (has functions f.midi) "midi.gs5" i) λ i.
      >>=-Quiet _ _ (link_if-Quiet (has functions f.accessory) "accessory.gs2" i) λ i.
        >>=-Quiet _ _ (link_if-Quiet (has functions f.audio_source) "audio_source.gs3" i) λ i.
          >>=-Quiet _ _ (link_if-Quiet (has functions f.rndis) "rndis.gs4" i)
            λ i. >>=-Quiet _ _ (link_vendor-Quiet i) (link_adb-Quiet f functions)
