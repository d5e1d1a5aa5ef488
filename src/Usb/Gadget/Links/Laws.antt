-- ===== src/Usb/Gadget/Links/Laws.antt =====
-- The links that a configuration gets, against a description as a list of names.
use device_xiaomi_camellia.Base.{
  ℕ, suc, ◌+◌, ◌≡◌, refl, ap, Bool, true, false, List, [], ◌∷◌, ◌++◌, append_assoc, append-nil,
  String, ◌<>◌, str_eq, arith, length, length-append, if◌then◌else◌,
}
use device_xiaomi_camellia.Usb.World.{World, M, returns, ◌>>=◌, give, Command, symlink, >>=-returns}
use device_xiaomi_camellia.Usb.Gadget.{GadgetFunction, get_vendor_functions}
use device_xiaomi_camellia.Usb.Gadget.VidPid.Laws.{
  get_vendor_functions_idem, get_vendor_functions-trace,
}
use device_xiaomi_camellia.Usb.Gadget.Links.{
  link_function, link_ffs, link_if, has, tokens, link_token, link_tokens, link_vendor, link_media,
  link_adb, link_all,
}

-- The symbolic links that were made, with their numbers.
unfoldable pub links : List (Command × Bool) → List (String × ℕ)
links [] = []
links ((symlink path i, true) ∷ calls) = (path, i) ∷ links calls
links (_ ∷ calls) = links calls

links-append : (xs ys : List (Command × Bool)) → links (xs ++ ys) ≡ links xs ++ links ys
unfolding links
links-append [] ys = refl
links-append ((symlink path i, true) ∷ xs) ys = ap (◌∷◌ (path, i)) (links-append xs ys)
links-append (_ ∷ xs) ys = links-append xs ys

-- Function directories with consecutive numbers.
unfoldable pub numbered : ℕ → List String → List (String × ℕ)
numbered i [] = []
numbered i (name ∷ names) = ("/config/usb_gadget/g1/functions/" <> name, i) ∷ numbered (i + 1) names

-- What `getVendorFunctions` answers.
abbrev pub vendor_of : World → String
vendor_of w = (get_vendor_functions w).0

-- A part that starts at the number `i` while the vendor functions are `v`, and succeeds, has linked
-- these names and no others, with consecutive numbers, hands on the next free number, and leaves
-- the vendor functions as they are.
abbrev pub Links : String → List String → ℕ → M ℕ → Type 0
Links v names i m =
    (w : World) (j : ℕ)
    → vendor_of w ≡ v
    → (m w).0 ≡ returns j
    → (links (m w).1.trace ≡ links w.trace ++ numbered i names)
      × (j ≡ i + length names)
      × (vendor_of (m w).1 ≡ v)

numbered-append :
    (i : ℕ) (xs ys : List String)
    → numbered i (xs ++ ys) ≡ numbered i xs ++ numbered (i + length xs) ys
unfolding numbered
numbered-append i [] ys = ground arith
numbered-append i (x ∷ xs) ys =
    let here : i + suc (length xs) ≡ i + 1 + length xs = omega arith in
    ground (arith, numbered-append (i + 1) xs ys)

module _ (v : String) where
  link_function-Links : (name : String) (i : ℕ) → Links v (name ∷ []) i (link_function name i)
  unfolding link_function numbered links get_vendor_functions
  link_function-Links name i w j known done = grind (arith, links-append, append_assoc, append-nil)

  give-Links : (i : ℕ) → Links v [] i (give i)
  unfolding numbered
  give-Links i w j known done = ground (arith, append-nil (links w.trace))

  >>=-Links :
      (names more : List String) (i : ℕ) (m : M ℕ) (f : ℕ → M ℕ)
      → Links v names i m
      → ((j : ℕ) → Links v more j (f j))
      → Links v (names ++ more) i (m >>= f)
  >>=-Links names more i m f first second w k known done =
      let (j, w', ran, rest) = >>=-returns m f w k done in
      let here = first w j known (ap (λ r. r.0) ran) in
      let there = second j w' k (rw ran at here.2) (rw rest at done) in
      ground (
        arith,
        ran,
        rest,
        here,
        there,
        numbered-append i names more,
        append_assoc (links w.trace) (numbered i names) (numbered j more),
        length-append names more,
      )

  link_if-Links :
      (asked : Bool) (name : String) (i : ℕ)
      → Links v (if asked then name ∷ [] else []) i (link_if asked name i)
  unfolding link_if
  link_if-Links true name i = link_function-Links name i
  link_if-Links false name i = give-Links i

  link_ffs-Links :
      (directory name : String) (endpoints : List String) (i : ℕ)
      → Links v (name ∷ []) i (link_ffs directory name endpoints i)
  unfolding link_ffs numbered links get_vendor_functions
  link_ffs-Links directory name endpoints i w j known done =
      grind (arith, links-append, append_assoc, append-nil)

  either-Links :
      (b : Bool) (names more : List String) (i : ℕ) (m n : M ℕ)
      → Links v names i m
      → Links v more i n
      → Links v (if b then names else more) i (if b then m else n)
  either-Links true names more i m n h k = h
  either-Links false names more i m n h k = k

-- The directories of a vendor function.
abbrev pub names_of_token : String → List String
names_of_token token =
    (if str_eq token "diag" then "diag.diag" ∷ [] else [])
    ++ ((if str_eq token "serial_cdev" then "cser.dun.0" ∷ [] else [])
        ++ (if str_eq token "rmnet_gsi" then "gsi.rmnet" ∷ [] else []))

pub names_of_tokens : List String → List String
names_of_tokens [] = []
names_of_tokens (token ∷ rest) = names_of_token token ++ names_of_tokens rest

module _ (v : String) where
  link_token-Links :
      (token : String) (i : ℕ) → Links v (names_of_token token) i (link_token token i)
  unfolding link_token
  link_token-Links token i =
      >>=-Links v _ _ i _ _ (link_if-Links v (str_eq token "diag") "diag.diag" i) λ j.
        >>=-Links v _ _ j _ _ (link_if-Links v (str_eq token "serial_cdev") "cser.dun.0" j)
          λ k. link_if-Links v (str_eq token "rmnet_gsi") "gsi.rmnet" k

  link_tokens-Links : (ts : List String) (i : ℕ) → Links v (names_of_tokens ts) i (link_tokens ts i)
  unfolding link_tokens names_of_tokens
  link_tokens-Links [] i = give-Links v i
  link_tokens-Links (token ∷ rest) i =
      >>=-Links v (names_of_token token) (names_of_tokens rest) i (link_token token i)
        (link_tokens rest) (link_token-Links token i) (link_tokens-Links rest)

  link_vendor-Links : (i : ℕ) → Links v (names_of_tokens (tokens v)) i (link_vendor i)
  unfolding link_vendor
  link_vendor-Links i w j known done =
      let after = get_vendor_functions_idem w in
      ground (
        arith,
        after,
        get_vendor_functions-trace w,
        link_tokens-Links (tokens v) i (get_vendor_functions w).1 j,
      )

  module _ (f : GadgetFunction) (functions : ℕ) where
    abbrev pub media_names : List String
    media_names =
        if has functions f.mtp
        then "ffs.mtp" ∷ []
        else (if has functions f.ptp then "ffs.ptp" ∷ [] else [])

    -- The directories for a combination of functions, in the order of their links.
    abbrev pub names_of : List String
    names_of =
        media_names
        ++ ((if has functions f.midi then "midi.gs5" ∷ [] else [])
            ++ ((if has functions f.accessory then "accessory.gs2" ∷ [] else [])
                ++ ((if has functions f.audio_source then "audio_source.gs3" ∷ [] else [])
                    ++ ((if has functions f.rndis then "rndis.gs4" ∷ [] else [])
                        ++ (names_of_tokens (tokens v)
                            ++ (if has functions f.adb then "ffs.adb" ∷ [] else []))))))

    link_media-Links : (i : ℕ) → Links v media_names i (link_media f functions i)
    unfolding link_media
    link_media-Links i =
        either-Links v (has functions f.mtp) _ _ i _ _ (link_ffs-Links v _ _ _ i) (
          either-Links v (has functions f.ptp) _ _ i _ _ (link_ffs-Links v _ _ _ i)
            (give-Links v i))

    link_adb-Links :
        (i : ℕ)
        → Links v (if has functions f.adb then "ffs.adb" ∷ [] else []) i (link_adb f functions i)
    unfolding link_adb
    link_adb-Links i =
        either-Links v (has functions f.adb) _ _ i _ _ (link_ffs-Links v _ _ _ i) (give-Links v i)

    link_all-Links : Links v names_of 0 (link_all f functions)
    unfolding link_all
    link_all-Links = >>=-Links v _ _ 0 _ _ (link_media-Links 0) λ i.
        >>=-Links v _ _ i _ _ (link_if-Links v (has functions f.midi) "midi.gs5" i) λ i.
          >>=-Links v _ _ i _ _ (link_if-Links v (has functions f.accessory) "accessory.gs2" i) λ i.
            >>=-Links v _ _ i _ _
              (link_if-Links v (has functions f.audio_source) "audio_source.gs3" i)
              λ i.
                >>=-Links v _ _ i _ _ (link_if-Links v (has functions f.rndis) "rndis.gs4" i)
                  λ i. >>=-Links v _ _ i _ _ (link_vendor-Links i) link_adb-Links

-- If all the links succeed, then exactly the functions asked for were linked, MTP or else PTP
-- first, then those of the vendor, and ADB last, with the numbers from 0 on.
pub link_all_lem :
    (f : GadgetFunction) (functions j : ℕ) (w : World)
    → (link_all f functions w).0 ≡ returns j
    → let names = names_of (vendor_of w) f functions in
      (links (link_all f functions w).1.trace ≡ links w.trace ++ numbered 0 names)
      × (j ≡ length names)
link_all_lem f functions j w done =
    let made = link_all-Links (vendor_of w) f functions w j refl done in
    (made.0, omega (arith, made.1))
