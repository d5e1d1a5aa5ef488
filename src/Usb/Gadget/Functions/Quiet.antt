-- ===== src/Usb/Gadget/Functions/Quiet.antt =====
-- The parts of a request that tell the callback nothing.
use device_xiaomi_camellia.Base.{
  inl, inr, ℕ, ◌≡◌, ◌≢◌, refl, Bool, true, false, List, [], ◌∷◌, ◌++◌, append-nil, String, arith,
  none, some, if◌then◌else◌, ◌<>◌, Option-cases,
}
use device_xiaomi_camellia.Usb.World.{
  World, UsbGadget, Command, M, Outcome, returns, fails, Status, success, tell, require, attempt,
  give, modify, ◌>>=◌, ◌>>◌, write, remove, signal_monitor, >>=-cases,
}
use device_xiaomi_camellia.Usb.Gadget.{GadgetFunction, get_vendor_functions}
use device_xiaomi_camellia.Usb.Gadget.VidPid.{
  validate_and_set_vid_pid, set_vid_pid, set_ids, ids_of, Ids,
}
use device_xiaomi_camellia.Usb.Gadget.TearDown.{
  tear_down_gadget, unlink_functions, unlink_entries, stop_monitor, is_function_link,
}

-- What the callback was told, in order.
unfoldable pub tells : List (Command × Bool) → List (ℕ × Status)
tells [] = []
tells ((tell functions status, a) ∷ calls) = (functions, status) ∷ tells calls
tells (_ ∷ calls) = tells calls

pub tells-append : (xs ys : List (Command × Bool)) → tells (xs ++ ys) ≡ tells xs ++ tells ys
unfolding tells
tells-append [] ys = refl
tells-append ((tell functions status, a) ∷ xs) ys = ground (arith, tells-append xs ys)
tells-append (_ ∷ xs) ys = tells-append xs ys

-- Nothing is told, and the functions and whether they are applied stay as they are.
abbrev pub Silent : World → World → Type 0
Silent w w' =
    (tells w'.trace ≡ tells w.trace)
    × (w'.gadget.current_usb_functions_applied ≡ w.gadget.current_usb_functions_applied)
    × (w'.gadget.current_usb_functions ≡ w.gadget.current_usb_functions)

-- A failure is not called a success.
abbrev pub IsHonest : {A : Type 0} → Outcome A → Type 0
IsHonest (returns a) = Unit {0}
IsHonest (fails s) = s ≢ success

-- A part of a request that is silent, and fails with an error if it fails.
pub record Quiet {A : Type 0} (m : M A) : Type 0 where
  pub runs : (w : World) → Silent w (m w).1 × IsHonest (m w).0

pub give-Quiet : {A : Type 0} (a : A) → Quiet (give a)
give-Quiet a = record { runs = λ w. ((refl, refl, refl), tt) }

pub >>=-Quiet :
    {A B : Type 0} (m : M A) (f : A → M B) → Quiet m → ((a : A) → Quiet (f a)) → Quiet (m >>= f)
>>=-Quiet m f first second = record {
  runs = λ w. elim (>>=-cases m f w) [
    | inl (a, w', ran, rest) ↦
        let here = rw ran at (first.runs w) in
        let there = (second a).runs w' in ground (arith, here, there, rest)
    | inr (s, w', ran, rest) ↦ let here = rw ran at (first.runs w) in ground (arith, here, rest)
  ];
}

-- A command other than telling the callback.
unfoldable pub IsQuiet : Command → Type 0
IsQuiet (tell functions status) = ⊥
IsQuiet _ = Unit {0}

tells_one : (c : Command) (a : Bool) → IsQuiet c → tells ((c, a) ∷ []) ≡ []
unfolding tells IsQuiet
tells_one (tell functions status) a h = absurd h
tells_one _ a h = refl

pub require-Quiet : (c : Command) → IsQuiet c → Quiet (require c)
unfolding require
require-Quiet c h = record {
  runs = λ w. grind (arith, tells-append, append-nil, tells_one c true h, tells_one c false h);
}

pub attempt-Quiet : (c : Command) → IsQuiet c → Quiet (attempt c)
unfolding attempt
attempt-Quiet c h = record {
  runs = λ w. grind (arith, tells-append, append-nil, tells_one c true h, tells_one c false h);
}

pub if-Quiet : {A : Type 0} (b : Bool) (m n : M A) → Quiet m → Quiet n → Quiet (if b then m else n)
if-Quiet true m n h k = h
if-Quiet false m n h k = k

unlink_entries-Quiet : (names : List String) → Quiet (unlink_entries names)
unfolding unlink_entries IsQuiet
unlink_entries-Quiet [] = give-Quiet tt
unlink_entries-Quiet (name ∷ names) =
    let rest = unlink_entries-Quiet names in
    if-Quiet (is_function_link name) _ _
      (>>=-Quiet _ _ (require-Quiet (remove ("/config/usb_gadget/g1/configs/b.1//" <> name)) tt)
        λ u. rest)
      rest

unlink_functions-Quiet : Quiet unlink_functions
unfolding unlink_functions
unlink_functions-Quiet = record {
  runs = λ w. elim (Option-cases w.config_entries) [
    | inl e ↦ rw (e, unlink_functions) ((refl, refl, refl), λ e. cc)
    | inr (names, e) ↦ rw (e, unlink_functions) ((unlink_entries-Quiet names).runs w)
  ];
}

stop_monitor-Quiet : Quiet stop_monitor
unfolding stop_monitor IsQuiet
stop_monitor-Quiet = record {
  runs = λ w. let sent = (attempt-Quiet signal_monitor tt).runs w in ground (arith, sent);
}

-- The two parts of a sequence.
pub >>-Quiet : {B : Type 0} {m : M (Unit {0})} {k : M B} → Quiet m → Quiet k → Quiet (m >> k)
>>-Quiet {m = m} {k = k} first second = >>=-Quiet m (λ _. k) first λ u. second

pub modify-Quiet :
    (f : UsbGadget → UsbGadget)
    → ((g : UsbGadget)
        → ((f g).current_usb_functions_applied ≡ g.current_usb_functions_applied)
          × ((f g).current_usb_functions ≡ g.current_usb_functions))
    → Quiet (modify f)
modify-Quiet f keeps = record { runs = λ w. ((refl, (keeps w.gadget).0, (keeps w.gadget).1), tt) }

pub write-Quiet : (content path : String) → Quiet (require (write content path))
unfolding IsQuiet
write-Quiet content path = require-Quiet (write content path) tt

pub tear_down_gadget-Quiet : Quiet tear_down_gadget
unfolding tear_down_gadget IsQuiet
tear_down_gadget-Quiet = >>-Quiet (attempt-Quiet (write "none" "/config/usb_gadget/g1/UDC") tt) (
    >>-Quiet (write-Quiet "0" "/config/usb_gadget/g1/bDeviceClass") (
      >>-Quiet (write-Quiet "0" "/config/usb_gadget/g1/bDeviceSubClass") (
        >>-Quiet (write-Quiet "0" "/config/usb_gadget/g1/bDeviceProtocol") (
          >>-Quiet (write-Quiet "0" "/config/usb_gadget/g1/os_desc/use") (
            >>-Quiet unlink_functions-Quiet (
              >>-Quiet stop_monitor-Quiet
                (modify-Quiet (λ g. record g { endpoint_list = [] }) λ g. (refl, refl))))))))

set_ids-Quiet : (f : GadgetFunction) (ids : Ids) → Quiet (set_ids f ids)
unfolding set_ids set_vid_pid IsQuiet
set_ids-Quiet f none = record { runs = λ w. ((refl, refl, refl), λ e. cc) }
set_ids-Quiet f (some (vid, pid)) =
    >>-Quiet (write-Quiet vid "/config/usb_gadget/g1/idVendor")
      (write-Quiet pid "/config/usb_gadget/g1/idProduct")

pub get_vendor_functions-Silent : (w : World) → Silent w (get_vendor_functions w).1
unfolding get_vendor_functions
get_vendor_functions-Silent w = ground arith

pub validate_and_set_vid_pid-Quiet :
    (f : GadgetFunction) (functions : ℕ) → Quiet (validate_and_set_vid_pid f functions)
unfolding validate_and_set_vid_pid
validate_and_set_vid_pid-Quiet f functions = record {
  runs = λ w.
      let (v, w') = get_vendor_functions w in
      let asked = get_vendor_functions-Silent w in
      let set = (set_ids-Quiet f (ids_of f functions v)).runs w' in ground (arith, asked, set);
}
