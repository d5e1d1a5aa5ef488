-- ===== src/Sensors/System/Consistent.antt =====
-- What the components promise each for themselves holds of them together.
use device_xiaomi_camellia.Base.{ℕ, ◌+◌, ◌<◌, ◌^◌, refl, inl, Bool, some, arith, ap}
use device_xiaomi_camellia.Sensors.Platform.{Platform, SensorInfo}
use device_xiaomi_camellia.Sensors.Wakelock.{
  decrement, begin, end, step as step_wakelock, increment_ref_count_and_maybe_acquire_wakelock,
  handle_wakelocks_begin, handle_wakelocks_end,
}
use device_xiaomi_camellia.Sensors.Wakelock.Laws.{step-Agrees}
use device_xiaomi_camellia.Sensors.EventQueue.{step}
use device_xiaomi_camellia.Sensors.EventQueue.Invariant.{empty-IsCounted}
use device_xiaomi_camellia.Sensors.Proxy.{SubHals}
use device_xiaomi_camellia.Sensors.Initialize.{Handover, initialize_common}
use device_xiaomi_camellia.Sensors.Initialize.Laws.{
  initialize_common_fresh, initialize_common_keeps_wakelock,
}
use device_xiaomi_camellia.Sensors.Dynamic.Laws.{
  on_dynamic_sensors_connected-IsKeyed, on_dynamic_sensors_disconnected-IsKeyed,
}
use device_xiaomi_camellia.Sensors.Proxy.Modes.{set_operation_mode_keeps}
use device_xiaomi_camellia.Sensors.System.{
  connect, disconnect, switch_operation_mode, connects, disconnects, switches, calls, IsInitial,
  System, acquire, release, read_processed, initialize_again, Step, acquires, releases, posts,
  writes, begins, reads, initializes, Reach, start, later,
}
use device_xiaomi_camellia.Sensors.System.Preserved.{
  IsConsistent, step_pending_writes-IsConsistent, post_from_sub_hal-IsConsistent,
}

module _ {W : Type 0} (p : Platform) (S : SubHals W) (info : ℕ → SensorInfo) where
  acquire-IsConsistent :
      (now : ℕ) (s : System W)
      → s.proxy.wakelock.ref_count + 1 < 2 ^ 64
      → IsConsistent p s.proxy
      → IsConsistent p (acquire now s).proxy
  unfolding acquire increment_ref_count_and_maybe_acquire_wakelock
  acquire-IsConsistent now s room h = ground (arith, h.agrees)

  initialize_again-IsConsistent :
      (ended now : ℕ) (h : Handover) (s : System W)
      → IsConsistent p s.proxy
      → IsConsistent p (initialize_again p S ended now h s).proxy
  unfolding initialize_again initialize_common
  initialize_again-IsConsistent ended now h s c =
      let kept = initialize_common_keeps_wakelock p S ended now h s.proxy s.world in
      let fresh =
        initialize_common_fresh p S p.max_size_pending_write_events_queue ended now h s.proxy
          s.world c.counted in
      record {
        agrees = rw (kept.0, kept.1) c.agrees;
        counted = fresh.0;
        fronted = inl refl;
        keyed = tt;
      }

  pub Step-IsConsistent :
      {faults : Bool} {s t : System W}
      → Step p S info faults s t
      → IsConsistent p s.proxy
      → IsConsistent p t.proxy
  unfolding connect disconnect switch_operation_mode release read_processed handle_wakelocks_end
      handle_wakelocks_begin step_wakelock
  Step-IsConsistent {s = s} (acquires now room) h = acquire-IsConsistent now s room h
  Step-IsConsistent {s = s} (releases taken holders e) h = record {
    agrees = step-Agrees 0 (decrement 1 (some taken)) s.proxy.wakelock tt h.agrees;
    counted = h.counted;
    fronted = h.fronted;
    keyed = h.keyed;
  }
  Step-IsConsistent {s = s} (posts sub_hal now available locked takes events asserts room) h =
      post_from_sub_hal-IsConsistent p info sub_hal now locked available takes events s.proxy
        asserts room h
  Step-IsConsistent {s = s} (writes quantum takes f) h =
      step_pending_writes-IsConsistent p quantum takes s.proxy h
  Step-IsConsistent {s = s} (begins now after f) h = record {
    agrees = step-Agrees p.wakelock_timeout_ns (begin now after) s.proxy.wakelock tt h.agrees;
    counted = h.counted;
    fronted = h.fronted;
    keyed = h.keyed;
  }
  Step-IsConsistent {s = s} (reads n f) h = record {
    agrees = step-Agrees 0 (end (some n)) s.proxy.wakelock tt h.agrees;
    counted = h.counted;
    fronted = h.fronted;
    keyed = h.keyed;
  }
  Step-IsConsistent {s = s} (connects sub_hal added) h = record {
    agrees = h.agrees;
    counted = h.counted;
    fronted = h.fronted;
    keyed =
        on_dynamic_sensors_connected-IsKeyed p.sub_hal_index_mask sub_hal added
          s.proxy.dynamic_sensors h.keyed;
  }
  Step-IsConsistent {s = s} (disconnects sub_hal removed) h = record {
    agrees = h.agrees;
    counted = h.counted;
    fronted = h.fronted;
    keyed =
        on_dynamic_sensors_disconnected-IsKeyed p.sub_hal_index_mask sub_hal removed
          s.proxy.dynamic_sensors h.keyed;
  }
  Step-IsConsistent {s = s} (switches mode) h =
      let kept = set_operation_mode_keeps S mode s.proxy s.world in
      record {
        agrees = rw (kept.0) h.agrees;
        counted = rw (kept.1) h.counted;
        fronted = rw (kept.1) h.fronted;
        keyed = rw (kept.2) h.keyed;
      }
  Step-IsConsistent (calls world) h = h
  Step-IsConsistent {s = s} (initializes ended now h' f) h =
      initialize_again-IsConsistent ended now h' s h

  pub IsInitial-IsConsistent : (s : System W) → IsInitial s → IsConsistent p s.proxy
  IsInitial-IsConsistent s h = record {
    agrees = ground (arith, h.nothing_counted, h.not_held);
    counted = rw (h.nothing_posted) (empty-IsCounted p.max_size_pending_write_events_queue);
    fronted = inl (ap (λ q. q.writer) h.nothing_posted);
    keyed = rw (h.no_dynamic) tt;
  }

  -- From a proxy as it is constructed, whatever the threads and the sub-HALs do, in any order,
  -- with or without faults, while each post passes the callback's assertion and has room in the
  -- counter of references: the lock of the kernel is held exactly while references are counted,
  -- the number of pending events is exact and within its limit, the pending writes thread is in a
  -- round only while there is something to write, and each dynamic sensor stands under its own
  -- handle.
  pub Reach-IsConsistent :
      {faults : Bool} {first s : System W}
      → Reach p S info faults first s
      → IsInitial first
      → IsConsistent p s.proxy
  Reach-IsConsistent {first = first} start h = IsInitial-IsConsistent first h
  Reach-IsConsistent (later r step) h = Step-IsConsistent step (Reach-IsConsistent r h)
