-- ===== src/Usb/Gadget/Functions/Works.antt =====
-- The parts of a request while every call that they make succeeds.
use device_xiaomi_camellia.Base.{
  ℕ, ◌+◌, ◌≡◌, refl, ◌∙◌, ap, inl, inr, Bool, true, false, some, List, [], ◌∷◌, String, ◌<>◌, arith,
  if◌then◌else◌, str_eq, Bool-cases, length,
}
use device_xiaomi_camellia.Usb.World.{
  World, UsbGadget, Command, M, returns, give, modify, require, attempt, ◌>>=◌, ◌>>◌, >>=-cases,
  write, remove, mkdir, symlink,
}
use device_xiaomi_camellia.Usb.Gadget.Links.{link_function}
use device_xiaomi_camellia.Usb.Gadget.TearDown.{
  tear_down_gadget, unlink_functions, unlink_entries, stop_monitor, is_function_link,
}

-- Every call succeeds, and the configuration can be listed.
pub record IsWilling (w : World) : Type 0 where
  pub names : List String
  pub answers : (n : ℕ) → w.answers n ≡ true
  pub listed : w.config_entries ≡ some names

-- A part returns in this world, changes the members in this way, and leaves the world willing.
abbrev pub RunsAt : {A : Type 0} → (UsbGadget → UsbGadget) → M A → World → Type 0
RunsAt {A} change m w =
    (a : A) × ((m w).0 ≡ returns a) × ((m w).1.gadget ≡ change w.gadget) × IsWilling (m w).1

-- It does so in every willing world.
pub record Works {A : Type 0} (change : UsbGadget → UsbGadget) (m : M A) : Type 0 where
  pub runs : (w : World) → IsWilling w → RunsAt change m w

abbrev pub same : UsbGadget → UsbGadget
same g = g

pub give-Works : {A : Type 0} (a : A) → Works same (give a)
give-Works a = record { runs = λ w h. (a, refl, refl, h) }

pub >>=-RunsAt :
    {A B : Type 0} (change : UsbGadget → UsbGadget) {then_change : UsbGadget → UsbGadget} (m : M A)
    (f : A → M B) (w : World)
    → RunsAt change m w
    → ((a : A) → Works then_change (f a))
    → RunsAt (λ g. then_change (change g)) (m >>= f) w
>>=-RunsAt change {then_change = then_change} m f w (a, done, changed, willing) second =
    elim (>>=-cases m f w) [
      | inl (a', w', ran, rest) ↦
          let here : IsWilling w' = rw ran at willing in
          let (b, done', changed', willing') = (second a').runs w' here in
          (
            b,
            ap (λ r. r.0) rest ∙ done',
            ap (λ r. r.1.gadget) rest ∙ changed' ∙ ap then_change (rw ran at changed),
            rw rest willing',
          )
      | inr (s, w', ran, rest) ↦ cc
    ]

pub >>=-Works :
    {A B : Type 0} {change then_change : UsbGadget → UsbGadget} (m : M A) (f : A → M B)
    → Works change m
    → ((a : A) → Works then_change (f a))
    → Works (λ g. then_change (change g)) (m >>= f)
>>=-Works {change = change} m f first second = record {
  runs = λ w h. >>=-RunsAt change m f w (first.runs w h) second;
}

pub >>-Works :
    {B : Type 0} {change then_change : UsbGadget → UsbGadget} {m : M (Unit {0})} {k : M B}
    → Works change m
    → Works then_change k
    → Works (λ g. then_change (change g)) (m >> k)
>>-Works {m = m} {k = k} first second = >>=-Works m (λ _. k) first λ u. second

pub if-Works :
    {A : Type 0} {change other : UsbGadget → UsbGadget} (b : Bool) {m k : M A}
    → Works change m
    → Works other k
    → Works (λ g. if b then change g else other g) (if b then m else k)
if-Works true first second = first
if-Works false first second = second

pub require-Works : (c : Command) → Works same (require c)
unfolding require
require-Works c = record {
  runs = λ w h. (
    tt,
    ground (arith, h.answers (length w.trace)),
    refl,
    record { names = h.names; answers = h.answers; listed = h.listed },
  );
}

pub attempt-Works : (c : Command) → Works same (attempt c)
unfolding attempt
attempt-Works c = record {
  runs =
      λ w h. (tt, refl, refl, record { names = h.names; answers = h.answers; listed = h.listed });
}

pub modify-Works : (f : UsbGadget → UsbGadget) → Works f (modify f)
modify-Works f = record {
  runs =
      λ w h. (tt, refl, refl, record { names = h.names; answers = h.answers; listed = h.listed });
}

unlink_entries-Works : (names : List String) → Works same (unlink_entries names)
unfolding unlink_entries
unlink_entries-Works [] = give-Works tt
unlink_entries-Works (name ∷ names) = elim (Bool-cases (is_function_link name)) [
  | inl is_link ↦
      rw (is_link, unlink_entries)
        (>>-Works (require-Works (remove ("/config/usb_gadget/g1/configs/b.1//" <> name)))
          (unlink_entries-Works names))
  | inr no_link ↦ rw (no_link, unlink_entries) (unlink_entries-Works names)
]

unlink_functions-Works : Works same unlink_functions
unfolding unlink_functions
unlink_functions-Works = record {
  runs = λ w h. rw (h.listed, unlink_functions) ((unlink_entries-Works h.names).runs w h);
}

stop_monitor-Works : Works (λ g. record g { monitor_created = false }) stop_monitor
unfolding stop_monitor attempt
stop_monitor-Works = record {
  runs = λ w h. (
    tt,
    ground arith,
    ground arith,
    record {
      names = h.names;
      answers = ground (arith, h.answers);
      listed = ground (arith, h.listed);
    },
  );
}

pub tear_down_gadget-Works :
    Works (λ g. record g { monitor_created = false; endpoint_list = [] }) tear_down_gadget
unfolding tear_down_gadget
tear_down_gadget-Works = >>-Works (attempt-Works (write "none" "/config/usb_gadget/g1/UDC")) (
    >>-Works (require-Works (write "0" "/config/usb_gadget/g1/bDeviceClass")) (
      >>-Works (require-Works (write "0" "/config/usb_gadget/g1/bDeviceSubClass")) (
        >>-Works (require-Works (write "0" "/config/usb_gadget/g1/bDeviceProtocol")) (
          >>-Works (require-Works (write "0" "/config/usb_gadget/g1/os_desc/use")) (
            >>-Works unlink_functions-Works
              (>>-Works stop_monitor-Works (modify-Works λ g. record g { endpoint_list = [] })))))))

pub link_function-Works : (name : String) (i : ℕ) → Works same (link_function name i)
unfolding link_function
link_function-Works name i =
    let path = "/config/usb_gadget/g1/functions/" <> name in
    let link = >>-Works (require-Works (symlink path i)) (give-Works (i + 1)) in
    elim (Bool-cases (str_eq name "rndis.gs4")) [
      | inl e ↦ rw (e, link_function) (>>-Works (attempt-Works (mkdir path)) link)
      | inr e ↦ rw (e, link_function) link
    ]
