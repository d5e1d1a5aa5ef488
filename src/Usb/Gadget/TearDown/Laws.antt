-- ===== src/Usb/Gadget/TearDown/Laws.antt =====
-- What a gadget that was torn down looks like.
use device_xiaomi_camellia.Base.{
  inl, inr, ◌≡◌, refl, sym, ap, ◌∙◌, Bool, true, false, some, List, [], ◌∷◌, ◌++◌, append_assoc,
  append-nil, String, ◌<>◌, arith, if◌then◌else◌, Bool-cases,
}
use device_xiaomi_camellia.Usb.World.{
  World, UsbGadget, Command, M, returns, ◌>>◌, require, attempt, modify, write, remove, >>=-returns,
}
use device_xiaomi_camellia.Usb.Gadget.TearDown.{
  is_function_link, unlink_entries, unlink_functions, stop_monitor, tear_down_gadget,
}

-- The files that were removed.
unfoldable pub removed : List (Command × Bool) → List String
removed [] = []
removed ((remove path, true) ∷ calls) = path ∷ removed calls
removed (_ ∷ calls) = removed calls

removed-append : (xs ys : List (Command × Bool)) → removed (xs ++ ys) ≡ removed xs ++ removed ys
unfolding removed
removed-append [] ys = refl
removed-append ((remove path, true) ∷ xs) ys = ap (◌∷◌ path) (removed-append xs ys)
removed-append (_ ∷ xs) ys = removed-append xs ys

-- The links among the entries of the configuration.
unfoldable pub link_paths : List String → List String
link_paths [] = []
link_paths (name ∷ names) =
    let rest = link_paths names in
    if is_function_link name then ("/config/usb_gadget/g1/configs/b.1//" <> name) ∷ rest else rest

-- A part that, if it succeeds while the configuration lists these entries, removes these files and
-- no others, changes the members in this way, and leaves what is listed.
record Effect (names paths : List String) (change : UsbGadget → UsbGadget) (m : M (Unit {0}))
    : Type 0 where
  runs :
      (w : World)
      → w.config_entries ≡ some names
      → (m w).0 ≡ returns tt
      → (removed (m w).1.trace ≡ removed w.trace ++ paths)
        × ((m w).1.gadget ≡ change w.gadget)
        × ((m w).1.config_entries ≡ some names)

abbrev same : UsbGadget → UsbGadget
same g = g

module _ {names : List String} where
  >>-Effect :
      {paths more : List String} {change then_change : UsbGadget → UsbGadget} {m k : M (Unit {0})}
      → Effect names paths change m
      → Effect names more then_change k
      → Effect names (paths ++ more) (λ g. then_change (change g)) (m >> k)
  >>-Effect {paths} {more} {change} {then_change} {m} {k} first second = record {
    runs = λ w listed done.
        let (u, w', ran, rest) = >>=-returns m (λ _. k) w tt done in
        let here = rw ran at (first.runs w listed (ap (λ r. r.0) ran)) in
        let there = second.runs w' here.2 (rw rest at done) in
        ground (
          arith,
          rest,
          here,
          there,
          append_assoc (removed w.trace) paths more,
          ap then_change here.1,
        );
  }

  write-Effect : (content path : String) → Effect names [] same (require (write content path))
  unfolding require removed
  write-Effect content path = record {
    runs = λ w listed done. grind (arith, removed-append, append-nil);
  }

  remove-Effect : (path : String) → Effect names (path ∷ []) same (require (remove path))
  unfolding require removed
  remove-Effect path = record { runs = λ w listed done. grind (arith, removed-append, append-nil) }

  unlink_entries-Effect :
      (entries : List String) → Effect names (link_paths entries) same (unlink_entries entries)
  unfolding unlink_entries link_paths
  unlink_entries-Effect [] = record {
    runs = λ w listed done. (sym (append-nil (removed w.trace)), refl, listed);
  }
  unlink_entries-Effect (name ∷ entries) = elim (Bool-cases (is_function_link name)) [
    | inl is_link ↦
        rw (is_link, unlink_entries, link_paths)
          (>>-Effect (remove-Effect ("/config/usb_gadget/g1/configs/b.1//" <> name))
            (unlink_entries-Effect entries))
    | inr no_link ↦ rw (no_link, unlink_entries, link_paths) (unlink_entries-Effect entries)
  ]

  unlink_functions-Effect : Effect names (link_paths names) same unlink_functions
  unfolding unlink_functions
  unlink_functions-Effect = record {
    runs = λ w listed done.
        let unlinked = (unlink_entries-Effect names).runs w listed in
        ground (arith, listed, done, unlinked);
  }

  attempt-write-Effect :
      (content path : String) → Effect names [] same (attempt (write content path))
  unfolding attempt removed
  attempt-write-Effect content path = record {
    runs = λ w listed done. grind (arith, removed-append, append-nil);
  }

  stop_monitor-Effect : Effect names [] (λ g. record g { monitor_created = false }) stop_monitor
  unfolding stop_monitor attempt removed
  stop_monitor-Effect = record { runs = λ w listed done. grind (arith, removed-append, append-nil) }

  clear_endpoints-Effect :
      Effect names []
        (λ g. record g { endpoint_list = [] })
        (modify (λ g. record g { endpoint_list = [] }))
  clear_endpoints-Effect = record {
    runs = λ w listed done. (sym (append-nil (removed w.trace)), refl, listed);
  }

  tear_down_gadget-Effect :
      Effect names
        ([] ++ ([] ++ ([] ++ ([] ++ ([] ++ (link_paths names ++ ([] ++ [])))))))
        (λ g. record g { monitor_created = false; endpoint_list = [] })
        tear_down_gadget
  unfolding tear_down_gadget
  tear_down_gadget-Effect = >>-Effect (attempt-write-Effect "none" "/config/usb_gadget/g1/UDC") (
      >>-Effect (write-Effect "0" "/config/usb_gadget/g1/bDeviceClass") (
        >>-Effect (write-Effect "0" "/config/usb_gadget/g1/bDeviceSubClass") (
          >>-Effect (write-Effect "0" "/config/usb_gadget/g1/bDeviceProtocol") (
            >>-Effect (write-Effect "0" "/config/usb_gadget/g1/os_desc/use") (
              >>-Effect unlink_functions-Effect
                (>>-Effect stop_monitor-Effect clear_endpoints-Effect))))))

-- If the gadget is torn down successfully, then exactly the entries of the configuration that are
-- links to functions were removed, in order, the monitor thread is stopped, no endpoint is left to
-- monitor, and nothing else of the members has changed.
pub tear_down_gadget_ok :
    (names : List String) (w : World)
    → w.config_entries ≡ some names
    → (tear_down_gadget w).0 ≡ returns tt
    → (removed (tear_down_gadget w).1.trace ≡ removed w.trace ++ link_paths names)
      × ((tear_down_gadget w).1.gadget
          ≡ record w.gadget { monitor_created = false; endpoint_list = [] })
tear_down_gadget_ok names w listed done =
    let torn = (tear_down_gadget-Effect {names = names}).runs w listed done in
    (torn.0 ∙ ap (λ p. removed w.trace ++ p) (append-nil (link_paths names)), torn.1)
