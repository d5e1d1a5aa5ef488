-- ===== src/Usb/Gadget/Functions/Stays.antt =====
-- What the parts of a tear-down leave as it was, apart from the list of calls.
use device_xiaomi_camellia.Base.{
  none, some, ◌≡◌, refl, ◌∙◌, ap, inl, inr, List, [], ◌∷◌, String, ◌<>◌, arith, Option, none, some,
  Bool-cases, Bool,
}
use device_xiaomi_camellia.Usb.World.{
  World, Outcome, error, Command, M, fails, ◌>>◌, >>=-cases, require, attempt, modify, write,
  remove, call, error,
}
use device_xiaomi_camellia.Usb.Gadget.TearDown.{
  is_function_link, unlink_entries, unlink_functions, stop_monitor, tear_down_gadget,
}

-- A field of the system that is not the list of calls.
module _ {F : Type 0} (field : World → F)
    (steady : (w : World) (calls : List (Command × Bool))
      → field (record w { trace = calls }) ≡ field w) where
  -- A part that keeps the field.
  pub record Stays {A : Type 0} (m : M A) : Type 0 where
    pub runs : (w : World) → field (m w).1 ≡ field w

  pub >>-Stays : {m k : M (Unit {0})} → Stays m → Stays k → Stays (m >> k)
  >>-Stays {m} {k} first second = record {
    runs = λ w. elim (>>=-cases m (λ _. k) w) [
      | inl (a, w', ran, rest) ↦
          let here = rw ran at (first.runs w) in ap (λ r. field r.1) rest ∙ second.runs w' ∙ here
      | inr (s, w', ran, rest) ↦
          let here = rw ran at (first.runs w) in ap (λ r. field r.1) rest ∙ here
    ];
  }

  pub require-Stays : (c : Command) → Stays (require c)
  unfolding require call
  require-Stays c = record { runs = λ w. steady w _ }

  pub attempt-Stays : (c : Command) → Stays (attempt c)
  unfolding attempt call
  attempt-Stays c = record { runs = λ w. steady w _ }

  unlink_entries-Stays : (names : List String) → Stays (unlink_entries names)
  unfolding unlink_entries
  unlink_entries-Stays [] = record { runs = λ w. refl }
  unlink_entries-Stays (name ∷ names) = elim (Bool-cases (is_function_link name)) [
    | inl is_link ↦
        rw (is_link, unlink_entries)
          (>>-Stays (require-Stays (remove ("/config/usb_gadget/g1/configs/b.1//" <> name)))
            (unlink_entries-Stays names))
    | inr no_link ↦ rw (no_link, unlink_entries) (unlink_entries-Stays names)
  ]

  listed-Stays :
      (entries : Option (List String)) (w : World)
      → let r : Outcome (Unit {0}) × World = elim entries [
        | none ↦ (fails error, w)
        | some names ↦ unlink_entries names w
      ] in
        field r.1 ≡ field w
  listed-Stays none w = refl
  listed-Stays (some names) w = (unlink_entries-Stays names).runs w

  pub unlink_functions-Stays : Stays unlink_functions
  unfolding unlink_functions
  unlink_functions-Stays = record { runs = λ w. listed-Stays w.config_entries w }

-- The system properties are such a field.
abbrev KeepsProperties : M (Unit {0}) → Type 0
KeepsProperties = Stays (λ w. w.properties) (λ w calls. refl)

write-KeepsProperties : (content path : String) → KeepsProperties (require (write content path))
write-KeepsProperties content path =
    require-Stays (λ w. w.properties) (λ w calls. refl) (write content path)

stop_monitor-KeepsProperties :
    KeepsProperties (stop_monitor >> modify (λ g. record g { endpoint_list = [] }))
unfolding stop_monitor attempt
stop_monitor-KeepsProperties = record { runs = λ w. ground arith }

pub tear_down_gadget-KeepsProperties : KeepsProperties tear_down_gadget
unfolding tear_down_gadget
tear_down_gadget-KeepsProperties =
    >>-Stays (λ w. w.properties) (λ w calls. refl)
      (attempt-Stays (λ w. w.properties) (λ w calls. refl)
        (write "none" "/config/usb_gadget/g1/UDC"))
      (>>-Stays (λ w. w.properties) (λ w calls. refl)
        (write-KeepsProperties "0" "/config/usb_gadget/g1/bDeviceClass")
        (>>-Stays (λ w. w.properties) (λ w calls. refl)
          (write-KeepsProperties "0" "/config/usb_gadget/g1/bDeviceSubClass")
          (>>-Stays (λ w. w.properties) (λ w calls. refl)
            (write-KeepsProperties "0" "/config/usb_gadget/g1/bDeviceProtocol")
            (>>-Stays (λ w. w.properties) (λ w calls. refl)
              (write-KeepsProperties "0" "/config/usb_gadget/g1/os_desc/use")
              (>>-Stays (λ w. w.properties) (λ w calls. refl)
                (unlink_functions-Stays (λ w. w.properties) (λ w calls. refl))
                stop_monitor-KeepsProperties)))))
