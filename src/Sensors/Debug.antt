-- ===== src/Sensors/Debug.antt =====
-- `debug`, sensors/HalProxy.cpp: the state of the proxy as a text, with what each sub-HAL writes in
-- between. A text is a list of its parts, so that numbers need not be printed.
pub mod Laws
use device_xiaomi_camellia.Base.{
  ℕ, zero, suc, ◌+◌, ◌-◌, ◌/◌, Bool, true, false, List, [], ◌∷◌, ◌++◌, String, leb, if◌then◌else◌,
  length,
}
use device_xiaomi_camellia.Sensors.Platform.{Event}
use device_xiaomi_camellia.Sensors.Wakelock.{Wakelock}
use device_xiaomi_camellia.Sensors.EventQueue.{EventQueue}
use device_xiaomi_camellia.Sensors.Proxy.{HalProxy}

-- `minus` is a number below zero, by its absolute value.
pub data Part : Type 0 where
  text : String → Part
  number minus : ℕ → Part

-- What reaches the file: a write of the buffered text, or what a sub-HAL writes.
pub data Output : Type 0 where
  writes : List Part → Output
  dumps : ℕ → Output

-- `msFromNs(now - time)`: the division of C++ rounds towards zero.
unfoldable pub ms_ago : ℕ → ℕ → Part
ms_ago now time =
    if leb time now then number ((now - time) / 1000000) else minus ((time - now) / 1000000)

unfoldable pub front_size : List (List Event × ℕ) → List Part
front_size [] = []
front_size ((events, n) ∷ ps) =
    text "  Size of events list on front of pending writes queue: "
    ∷ number (length events)
    ∷ text "\n"
    ∷ []

module _ (size : ℕ) (name : ℕ → String) where
  unfoldable pub heading : ℕ → HalProxy → List Part
  unfolding ms_ago front_size
  heading now proxy =
      text "===HalProxy===\nInternal values:\n  Threads are running: "
        ∷ text (if proxy.wakelock.threads_run then "true" else "false")
        ∷ text "\n  Wakelock timeout start time: "
        ∷ ms_ago now proxy.wakelock.timeout_start_time
        ∷ text " ms ago\n  Wakelock timeout reset time: "
        ∷ ms_ago now proxy.wakelock.timeout_reset_time
        ∷ text " ms ago\n  Wakelock ref count: "
        ∷ number proxy.wakelock.ref_count
        ∷ text "\n  # of events on pending write writes queue: "
        ∷ number proxy.queue.size_pending
        ∷ text "\n Most events seen on pending write events queue: "
        ∷ number proxy.queue.most_observed
        ∷ text "\n"
        ∷ front_size proxy.queue.pending
      ++ text "  # of non-dynamic sensors across all subhals: "
        ∷ number (length proxy.sensors)
        ∷ text "\n  # of dynamic sensors across all subhals: "
        ∷ number (length proxy.dynamic_sensors)
        ∷ text "\nSubHals ("
        ∷ number size
        ∷ text "):\n"
        ∷ []

  abbrev pub named : ℕ → List Part
  named i = text "  Name: " ∷ text (name i) ∷ text "\n  Debug dump: \n" ∷ []

  -- The loop, with the text in the buffer.
  unfoldable pub dump_loop : ℕ → ℕ → List Part → List Output
  dump_loop zero i stream = writes stream ∷ []
  dump_loop (suc left) i stream =
      writes (stream ++ named i) ∷ dumps i ∷ dump_loop left (i + 1) (text "\n" ∷ [])

  -- `has_fd` is whether a file is handed over.
  unfoldable pub debug : Bool → ℕ → HalProxy → List Output
  unfolding heading dump_loop
  debug has_fd now proxy = if has_fd then dump_loop size 0 (heading now proxy) else []
