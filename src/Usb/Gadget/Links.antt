-- ===== src/Usb/Gadget/Links.antt =====
-- The functions that `setupFunctions` links into the configuration, usb/UsbGadget.cpp. The index
-- `i` is passed on as the result of each part.
pub mod Laws
use Prim.Native.String
use device_xiaomi_camellia.Base.{
  ℕ, ◌+◌, bit_and, Bool, true, false, not, ◌||◌, List, [], ◌∷◌, ◌++◌, String, ◌<>◌, str_eq, ◌==◌,
  if◌then◌else◌,
}
use device_xiaomi_camellia.Usb.World.{
  World, UsbGadget, M, Outcome, returns, ◌>>=◌, ◌>>◌, give, require, attempt, modify, write, mkdir,
  symlink, watch,
}
use device_xiaomi_camellia.Usb.Gadget.{GadgetFunction, get_vendor_functions}

unfoldable pub link_function : String → ℕ → M ℕ
unfolding require attempt
link_function function index =
    let path = "/config/usb_gadget/g1/functions/" <> function in
    let link = require (symlink path index) >> give (index + 1) in
    if str_eq function "rndis.gs4" then attempt (mkdir path) >> link else link

unfoldable pub push_endpoints : List String → M (Unit {0})
push_endpoints names = modify (λ g. record g { endpoint_list = g.endpoint_list ++ names })

-- A function that runs in user space: its directory is watched, and its endpoints are monitored.
unfoldable pub link_ffs : String → String → List String → ℕ → M ℕ
unfolding require link_function push_endpoints
link_ffs directory function endpoints i = do
  require (write "1" "/config/usb_gadget/g1/os_desc/use")
  require (watch directory)
  j ← link_function function i
  push_endpoints endpoints
  give j

unfoldable pub link_if : Bool → String → ℕ → M ℕ
unfolding link_function
link_if asked function i = if asked then link_function function i else give i

abbrev pub has : ℕ → ℕ → Bool
has functions flag = not (bit_and functions flag == 0)

-- `strtok` at commas: the parts that are not empty.
tokens_from : String → String → List String
tokens_from current String.[] = if str_eq current "" then [] else current ∷ []
tokens_from current (String.◌∷◌ c s) =
    let rest = tokens_from "" s in
    let more = tokens_from (current <> String.◌∷◌ c "") s in
    if str_eq (String.◌∷◌ c "") ","
    then (if str_eq current "" then rest else current ∷ rest)
    else more

unfoldable pub tokens : String → List String
unfolding tokens_from
tokens = tokens_from ""

unfoldable pub link_token : String → ℕ → M ℕ
unfolding link_if
link_token token i = do
  j ← link_if (str_eq token "diag") "diag.diag" i
  k ← link_if (str_eq token "serial_cdev") "cser.dun.0" j
  link_if (str_eq token "rmnet_gsi") "gsi.rmnet" k

unfoldable pub link_tokens : List String → ℕ → M ℕ
unfolding link_token
link_tokens [] i = give i
link_tokens (token ∷ rest) i = link_token token i >>= link_tokens rest

unfoldable pub link_vendor : ℕ → M ℕ
unfolding link_tokens get_vendor_functions
link_vendor i w =
    let (vendor_functions, w') = get_vendor_functions w in
    link_tokens (tokens vendor_functions) i w'

module _ (f : GadgetFunction) (functions : ℕ) where
  -- MTP, or PTP if there is no MTP.
  unfoldable pub link_media : ℕ → M ℕ
  unfolding link_ffs
  link_media i =
      if has functions f.mtp
      then link_ffs "/dev/usb-ffs/mtp/" "ffs.mtp"
          ("/dev/usb-ffs/mtp/ep1" ∷ "/dev/usb-ffs/mtp/ep2" ∷ "/dev/usb-ffs/mtp/ep3" ∷ []) i
      else if has functions f.ptp
      then link_ffs "/dev/usb-ffs/ptp/" "ffs.ptp"
          ("/dev/usb-ffs/ptp/ep1" ∷ "/dev/usb-ffs/ptp/ep2" ∷ "/dev/usb-ffs/ptp/ep3" ∷ []) i
      else give i

  unfoldable pub link_adb : ℕ → M ℕ
  unfolding link_ffs
  link_adb i =
      if has functions f.adb
      then link_ffs "/dev/usb-ffs/adb/" "ffs.adb"
          ("/dev/usb-ffs/adb/ep1" ∷ "/dev/usb-ffs/adb/ep2" ∷ []) i
      else give i

  -- All the links, in order.
  unfoldable pub link_all : M ℕ
  unfolding link_media link_if link_vendor link_adb
  link_all = do
    i ← link_media 0
    i ← link_if (has functions f.midi) "midi.gs5" i
    i ← link_if (has functions f.accessory) "accessory.gs2" i
    i ← link_if (has functions f.audio_source) "audio_source.gs3" i
    i ← link_if (has functions f.rndis) "rndis.gs4" i
    i ← link_vendor i
    link_adb i

  -- `ffsEnabled` after the links.
  abbrev pub ffs_enabled : Bool
  ffs_enabled = has functions f.mtp || (has functions f.ptp || has functions f.adb)
