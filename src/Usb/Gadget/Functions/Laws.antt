-- ===== src/Usb/Gadget/Functions/Laws.antt =====
-- What a request tells its caller, and what it says of the functions afterwards.
use device_xiaomi_camellia.Base.{
  ◌&&◌, ℕ, ◌≡◌, ◌≢◌, refl, ◌∙◌, ap, ◌⊎◌, inl, inr, Bool, true, false, List, [], ◌∷◌, ◌++◌, arith,
  if◌then◌else◌, Bool-cases, ◌==◌, ==_iff,
}
use device_xiaomi_camellia.Usb.World.{
  World, M, Outcome, returns, fails, Status, success, error, ◌>>=◌, >>=-cases, attempt, create,
  write, start_monitor, wait_pullup, call, tell, get_property, Command, inotify, event_fd, epoll,
  epoll_inotify, epoll_event_fd,
}
use device_xiaomi_camellia.Usb.Gadget.{GadgetFunction}
use device_xiaomi_camellia.Usb.Gadget.Links.{ffs_enabled}
use device_xiaomi_camellia.Usb.Gadget.Setup.{
  setup_functions, finish_now, finish_by_monitor, tell_status, wait_for_monitor, pull_up,
  tell_waited,
}
use device_xiaomi_camellia.Usb.Gadget.Functions.{
  configure, on_error, set_current_usb_functions_beside, beside, requested,
  set_current_usb_functions,
}
use device_xiaomi_camellia.Usb.Gadget.Functions.Quiet.{
  tells, tells-append, Silent, Quiet, require-Quiet, attempt-Quiet, modify-Quiet, IsQuiet,
  tear_down_gadget-Quiet, validate_and_set_vid_pid-Quiet,
}
use device_xiaomi_camellia.Usb.Gadget.Functions.QuietLinks.{link_all-Quiet}

-- Telling is one entry of the trace.
pub tells_tell :
    (calls : List (Command × Bool)) (functions : ℕ) (s : Status) (answer : Bool)
    → tells (calls ++ (tell functions s, answer) ∷ []) ≡ tells calls ++ (functions, s) ∷ []
unfolding tells
tells_tell calls functions s answer = tells-append calls ((tell functions s, answer) ∷ [])

pull_up-Quiet : Quiet pull_up
unfolding pull_up IsQuiet
pull_up-Quiet = record {
  runs = λ w.
      (require-Quiet (write (get_property "sys.usb.controller" w) "/config/usb_gadget/g1/UDC")
          tt).runs
        w;
}

module _ (f : GadgetFunction) where
  -- The end of a request with a callback: it is silent and fails with an error, or it tells the
  -- callback once: of success if there is nothing to apply or the functions are applied, or of an
  -- error with nothing applied anew.
  abbrev Ends : ℕ → World → Outcome (Unit {0}) × World → Type 0
  Ends functions w (fails s, w') = Silent w w' × (s ≢ success)
  Ends functions w (returns _, w') =
      (s : Status) × (tells w'.trace ≡ tells w.trace ++ (functions, s) ∷ [])
      × (w'.gadget.current_usb_functions ≡ w.gadget.current_usb_functions)
      × (((s ≡ success)
            × (((functions ≡ f.no_function)
                  × (w'.gadget.current_usb_functions_applied
                      ≡ w.gadget.current_usb_functions_applied))
                ⊎ (w'.gadget.current_usb_functions_applied ≡ true)))
          ⊎ ((s ≢ success)
              × (w'.gadget.current_usb_functions_applied ≡ w.gadget.current_usb_functions_applied)))

  Silent-Ends :
      (functions : ℕ) (v w : World) (r : Outcome (Unit {0}) × World)
      → Silent v w
      → Ends functions w r
      → Ends functions v r
  Silent-Ends functions v w (fails s, w') quiet ends = ground (arith, quiet, ends)
  Silent-Ends functions v w (returns u, w') quiet (s, told, same, applied) =
      (s, ground (arith, quiet, told), ground (arith, quiet, same), ground (arith, quiet, applied))

  >>=-Ends :
      {A : Type 0} (functions : ℕ) (m : M A) (f : A → M (Unit {0})) (w : World)
      → Quiet m
      → ((a : A) (v : World) → Ends functions v (f a v))
      → Ends functions w ((m >>= f) w)
  >>=-Ends functions m f w quiet ends = elim (>>=-cases m f w) [
    | inl (a, w', ran, rest) ↦
        let here = rw ran at (quiet.runs w) in
        rw rest (Silent-Ends functions w w' (f a w') here.0 (ends a w'))
    | inr (s, w', ran, rest) ↦ let here = rw ran at (quiet.runs w) in rw rest here
  ]

  finish_now-Ends : (functions : ℕ) (w : World) → Ends functions w (finish_now functions true w)
  unfolding finish_now tell_status attempt
  finish_now-Ends functions w =
      >>=-Ends functions pull_up _ w pull_up-Quiet
        λ u v. (success, tells_tell v.trace functions success _, refl, inl (refl, inr refl))

  tell_waited-Ends :
      (functions : ℕ) (up : Bool) (v : World) → Ends functions v (tell_waited functions true up v)
  unfolding tell_waited tell_status attempt
  tell_waited-Ends functions true v =
      (success, tells_tell v.trace functions success _, refl, inl (refl, inr refl))
  tell_waited-Ends functions false v =
      (error, tells_tell v.trace functions error _, refl, inr (λ e. cc, refl))

  wait_for_monitor-Ends :
      (functions timeout : ℕ) (w : World)
      → Ends functions w (wait_for_monitor functions true timeout w)
  unfolding wait_for_monitor call IsQuiet attempt
  wait_for_monitor-Ends functions timeout w =
      let (up, v) = call (wait_pullup timeout) w in
      let waited = (attempt-Quiet (wait_pullup timeout) tt).runs w in
      Silent-Ends functions w v _ waited.0 (tell_waited-Ends functions up v)

  finish_by_monitor-Ends :
      (functions timeout : ℕ) (w : World)
      → Ends functions w (finish_by_monitor functions true timeout w)
  unfolding finish_by_monitor IsQuiet
  finish_by_monitor-Ends functions timeout w =
      >>=-Ends functions _ _ w (require-Quiet (create event_fd) tt) λ u w.
        >>=-Ends functions _ _ w (require-Quiet (create epoll) tt) λ u w.
          >>=-Ends functions _ _ w (require-Quiet (create epoll_inotify) tt) λ u w.
            >>=-Ends functions _ _ w (require-Quiet (create epoll_event_fd) tt) λ u w.
              >>=-Ends functions _ _ w
                (modify-Quiet (λ g. record g { gadget_pullup = false }) λ g. (refl, refl))
                λ u w. >>=-Ends functions _ _ w (attempt-Quiet start_monitor tt) λ u w.
                  >>=-Ends functions _ _ w
                    (modify-Quiet (λ g. record g { monitor_created = true }) λ g. (refl, refl))
                    λ u w. wait_for_monitor-Ends functions timeout w

  if-Ends :
      (functions : ℕ) (b : Bool) (m n : M (Unit {0})) (w : World)
      → Ends functions w (m w)
      → Ends functions w (n w)
      → Ends functions w ((if b then m else n) w)
  if-Ends functions true m n w h k = h
  if-Ends functions false m n w h k = k

  setup_functions-Ends :
      (functions timeout : ℕ) (w : World)
      → Ends functions w (setup_functions functions true f timeout w)
  unfolding setup_functions IsQuiet
  setup_functions-Ends functions timeout w =
      >>=-Ends functions _ _ w (require-Quiet (create inotify) tt) λ u w.
        >>=-Ends functions _ _ w (link_all-Quiet f functions) λ i w.
          if-Ends functions (ffs_enabled f functions) _ _ w
            (finish_by_monitor-Ends functions timeout w) (finish_now-Ends functions w)

  configure-Ends :
      (functions timeout : ℕ) (w : World) → Ends functions w (configure f functions true timeout w)
  unfolding configure tell_status attempt
  configure-Ends functions timeout w = elim (Bool-cases (functions == f.no_function)) [
    | inl none ↦
        rw (none, configure)
          (
            success,
            tells_tell w.trace functions success _,
            refl,
            inl (refl, inl ((==_iff functions f.no_function).0 none, refl)),
          )
    | inr some ↦
        rw (some, configure)
          (>>=-Ends functions _ _ w (validate_and_set_vid_pid-Quiet f functions)
            λ u w. setup_functions-Ends functions timeout w)
  ]

  -- What the caller is told, and what is recorded; `stale` is whether the monitor of the request
  -- before pulled the gadget up.
  abbrev pub Told : ℕ → Bool → World → World → Status → Type 0
  Told functions stale w w' s =
      (tells w'.trace ≡ tells w.trace ++ (functions, s) ∷ [])
      × (w'.gadget.current_usb_functions ≡ functions)
      × (((s ≡ success)
            × (((functions ≡ f.no_function) × (w'.gadget.current_usb_functions_applied ≡ stale))
                ⊎ (w'.gadget.current_usb_functions_applied ≡ true)))
          ⊎ ((s ≢ success) × (w'.gadget.current_usb_functions_applied ≡ stale)))

  on_error-Told :
      (functions timeout : ℕ) (stale : Bool) (v : World) (r : Outcome (Unit {0}) × World)
      → v.gadget.current_usb_functions ≡ functions
      → v.gadget.current_usb_functions_applied ≡ stale
      → Ends functions v r
      → (s : Status) × Told functions stale v (on_error f functions true timeout r) s
  unfolding on_error tell_status attempt
  on_error-Told functions timeout stale v (returns u, w') set fresh (s, told, same, applied) =
      (s, (told, same ∙ set, ground (arith, applied, fresh)))
  on_error-Told functions timeout stale v (fails s, w') set fresh (quiet, honest) = (
    s,
    (
      tells_tell w'.trace functions s _ ∙ ap (λ t. t ++ (functions, s) ∷ []) quiet.0,
      quiet.2 ∙ set,
      inr (honest, quiet.1 ∙ fresh),
    ),
  )

  -- A request with a callback tells it exactly once, with the functions that were asked for, and
  -- records them as the current ones. It is told of success only if they are applied, or there are
  -- none to apply. In the latter case, and after any other status, they are said to be applied
  -- exactly if a monitor of the request before ran and pulled the gadget up meanwhile.
  pub set_current_usb_functions_tells :
      (functions timeout : ℕ) (pulls_up : Bool) (w : World)
      → (s : Status) × Told functions
          (pulls_up && w.gadget.monitor_created)
          w
          (set_current_usb_functions_beside f functions true timeout pulls_up w)
          s
  unfolding set_current_usb_functions_beside
  set_current_usb_functions_tells functions timeout pulls_up w =
      let v : World = record w {
        gadget =
            beside f functions true timeout pulls_up (requested f functions true timeout w.gadget);
      } in
      on_error-Told functions timeout (pulls_up && w.gadget.monitor_created) v _ (ground arith)
        (ground arith)
        (>>=-Ends functions _ _ v tear_down_gadget-Quiet λ u v. configure-Ends functions timeout v)

  -- The same, where no monitor pulls the gadget up.
  pub set_current_usb_functions_alone :
      (functions timeout : ℕ) (w : World)
      → (s : Status) × Told functions false w
          (set_current_usb_functions f functions true timeout w)
          s
  unfolding set_current_usb_functions
  set_current_usb_functions_alone functions timeout w =
      set_current_usb_functions_tells functions timeout false w
