-- ===== src/Usb/Port/Callback/Laws.antt =====
-- The life of the worker thread.
use device_xiaomi_camellia.Base.{
  ℕ, ◌<◌, ◌≡◌, refl, Bool, true, false, Option, none, some, List, [], ◌∷◌, arith,
}
use device_xiaomi_camellia.Usb.Port.Report.{HalVersion}
use device_xiaomi_camellia.Usb.Port.Callback.{Worker, initial, set_callback, run}

-- One thread while a callback is set, and none otherwise; a thread is not told to end while a
-- callback is set.
abbrev pub IsWatched : Worker → Type 0
IsWatched s = elim s.callback [
  | none ↦ s.threads ≡ 0
  | some version ↦ (s.threads ≡ 1) × (s.destroy_thread ≡ false)
]

module _ (kill : ℕ → Bool) (kills : (n : ℕ) → 0 < n → kill n ≡ true) where
  set_callback-IsWatched :
      (new : Option HalVersion) (created : Bool) (s : Worker)
      → IsWatched s
      → IsWatched (set_callback kill new created s)
  unfolding set_callback
  set_callback-IsWatched new created s h = ground (arith, kills s.threads)

  run-IsWatched_from :
      (calls : List (Option HalVersion × Bool)) (s : Worker)
      → IsWatched s
      → IsWatched (run kill calls s)
  unfolding run
  run-IsWatched_from [] s h = h
  run-IsWatched_from ((new, created) ∷ calls) s h =
      run-IsWatched_from calls (set_callback kill new created s)
        (set_callback-IsWatched new created s h)

  -- If a thread that was not joined can be signalled, then after any calls that set, replace and
  -- clear the callback, whether or not threads can be created, there is exactly one worker thread
  -- while a callback is set, which was not told to end, and none otherwise.
  pub run-IsWatched : (calls : List (Option HalVersion × Bool)) → IsWatched (run kill calls initial)
  run-IsWatched calls = run-IsWatched_from calls initial refl
