-- ===== src/Sensors/System/Parts.antt =====
-- The threads of the sensors proxy together, with an initialization in its parts, none of which
-- holds the mutex of the queue: a post that has passed its test of `mThreadsRun` goes on between
-- them. Only the two lines that clear the queue and its counter are one part here; a post between
-- these two is in Lost.
use device_xiaomi_camellia.Base.{ℕ, ◌+◌, ◌<◌, ◌^◌, ◌≡◌, refl, inl, Bool, true, List, arith}
use device_xiaomi_camellia.Sensors.Platform.{Platform, SensorInfo, Event}
use device_xiaomi_camellia.Sensors.EventQueue.Invariant.{total}
use device_xiaomi_camellia.Sensors.Proxy.{SubHals, HalProxy, post_events}
use device_xiaomi_camellia.Sensors.Initialize.{Handover, halt, clear_pending, clear_size, restart}
use device_xiaomi_camellia.Sensors.System.{System, Step, IsInitial}
use device_xiaomi_camellia.Sensors.System.Preserved.{IsConsistent, post_events-IsConsistent}
use device_xiaomi_camellia.Sensors.System.Consistent.{Step-IsConsistent, IsInitial-IsConsistent}

module _ {W : Type 0} (p : Platform) (S : SubHals W) where
  unfoldable pub halt_system : ℕ → ℕ → System W → System W
  unfolding halt
  halt_system ended now s =
      let (proxy, world) = halt p S ended now s.proxy s.world in
      record s { proxy = proxy; world = world }

  unfoldable pub restart_system : Handover → System W → System W
  unfolding restart
  restart_system h s =
      let (result, proxy, world) = restart p S h s.proxy s.world in
      record s { proxy = proxy; world = world }

module _ {W : Type 0} (p : Platform) (S : SubHals W) (info : ℕ → SensorInfo) where
  -- The assertion of the callback lets a post with the wake lock through only with wake-up events.
  pub data Part (faults : Bool) (s : System W) : System W → Type 0 where
    steps : {t : System W} → Step p S info faults s t → Part faults s t
    halts : (ended now : ℕ) → Part faults s (halt_system p S ended now s)
    clears : Part faults s (record s { proxy = clear_size (clear_pending s.proxy) })
    restarts : (h : Handover) → Part faults s (restart_system p S h s)
    posts_late :
        (now available : ℕ) (locked takes : Bool) (events : List Event) (num_wakeup_events : ℕ)
        → (locked ≡ true → 0 < num_wakeup_events)
        → s.proxy.wakelock.ref_count + num_wakeup_events < 2 ^ 64
        → Part faults s (record s {
          proxy = post_events p now locked available takes events num_wakeup_events s.proxy;
        })

  -- The states that come from the first one.
  pub data Run (faults : Bool) (first : System W) : System W → Type 0 where
    start : Run faults first first
    later : {s t : System W} → Run faults first s → Part faults s t → Run faults first t

  halt-IsConsistent :
      (ended now : ℕ) (s : System W)
      → IsConsistent p s.proxy
      → IsConsistent p (halt_system p S ended now s).proxy
  unfolding halt_system halt
  halt-IsConsistent ended now s h = record {
    agrees = ground (arith, h.agrees);
    counted = h.counted;
    fronted = h.fronted;
    keyed = h.keyed;
  }

  clear-IsConsistent :
      (proxy : HalProxy) → IsConsistent p proxy → IsConsistent p (clear_size (clear_pending proxy))
  unfolding clear_size clear_pending total
  clear-IsConsistent proxy h = record {
    agrees = h.agrees;
    counted = ground (arith, h.counted);
    fronted = inl refl;
    keyed = h.keyed;
  }

  restart-IsConsistent :
      (h : Handover) (s : System W)
      → IsConsistent p s.proxy
      → IsConsistent p (restart_system p S h s).proxy
  unfolding restart_system restart
  restart-IsConsistent h s c = record {
    agrees = ground (arith, c.agrees);
    counted = c.counted;
    fronted = c.fronted;
    keyed = tt;
  }

  Part-IsConsistent :
      {faults : Bool} {s t : System W}
      → Part faults s t
      → IsConsistent p s.proxy
      → IsConsistent p t.proxy
  Part-IsConsistent (steps step) h = Step-IsConsistent p S info step h
  Part-IsConsistent {s = s} (halts ended now) h = halt-IsConsistent ended now s h
  Part-IsConsistent {s = s} clears h = clear-IsConsistent s.proxy h
  Part-IsConsistent {s = s} (restarts h') h = restart-IsConsistent h' s h
  Part-IsConsistent {s = s} (posts_late now available locked takes events n asserted room) h =
      post_events-IsConsistent p now locked available takes events n s.proxy asserted room h

  -- From a proxy as it is constructed, whatever the threads and the sub-HALs do, in any order, with
  -- or without faults, with initializations in their parts and posts that go on between these, but
  -- for the two lines that clear the queue and its counter, while each post passes the callback's
  -- assertion and has room in the counter of references: the lock of the kernel is held exactly
  -- while references are counted, the number of pending events is exact and within its limit, the
  -- pending writes thread is in a round only while there is something to write, and each dynamic
  -- sensor stands under its own handle.
  pub Run-IsConsistent :
      {faults : Bool} {first s : System W}
      → Run faults first s
      → IsInitial first
      → IsConsistent p s.proxy
  Run-IsConsistent {first = first} start h = IsInitial-IsConsistent p S info first h
  Run-IsConsistent (later r part) h = Part-IsConsistent part (Run-IsConsistent r h)
