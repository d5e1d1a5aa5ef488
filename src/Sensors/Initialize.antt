-- ===== src/Sensors/Initialize.antt =====
-- `initializeCommon` and what it calls, sensors/HalProxy.cpp. Both queues that it is given are there:
-- its callers make them, and it uses them before it looks. Whether the platform creates the
-- two event flags, and whether there is a callback, are arguments. The
-- threads have ended when `stopThreads` returns; while they end they may reset the wake lock, at
-- the time `ended`.
pub mod Laws
use device_xiaomi_camellia.Base.{
  ℕ, zero, suc, ◌+◌, Bool, true, false, ◌&&◌, List, [], ◌∷◌, if◌then◌else◌, map,
}
use device_xiaomi_camellia.Sensors.Platform.{Platform, SensorInfo, Result, ok, bad_value, normal}
use device_xiaomi_camellia.Sensors.Wakelock.{Wakelock, reset_shared_wakelock}
use device_xiaomi_camellia.Sensors.EventQueue.{EventQueue, idle}
use device_xiaomi_camellia.Sensors.Proxy.{SubHals, HalProxy, activate, is_ok}

pub record Handover : Type 0 where
  pub event_flag_created : Bool
  pub wakelock_flag_created : Bool
  pub has_callback : Bool
  pub has_event_queue : Bool
  pub has_wake_lock_queue : Bool
  pub event_flag_is_set : Bool

-- The two assignments of `initializeCommon` to the queue of pending events, for which no thread is
-- left, and to their number.
unfoldable pub clear_pending : HalProxy → HalProxy
clear_pending proxy = record proxy { queue = record proxy.queue { pending = []; writer = idle } }

unfoldable pub clear_size : HalProxy → HalProxy
clear_size proxy = record proxy { queue = record proxy.queue { size_pending = 0 } }

module _ {W : Type 0} (p : Platform) (S : SubHals W) where
  -- One of the two loops of `disableAllSensors`.
  disable_sensors : List (ℕ × SensorInfo) → W → W
  disable_sensors [] w = w
  disable_sensors ((handle, info) ∷ sensors) w =
      disable_sensors sensors (activate p S handle false w).1

  unfoldable pub disable_all_sensors : HalProxy → W → W
  unfolding disable_sensors
  disable_all_sensors proxy w =
      disable_sensors proxy.dynamic_sensors (disable_sensors proxy.sensors w)

  -- The loop that initializes the sub-HALs; its result replaces the earlier one on a failure.
  initialize_sub_hals : ℕ → ℕ → Result → W → Result × W
  initialize_sub_hals zero i result w = (result, w)
  initialize_sub_hals (suc left) i result w =
      let (current, w') = S.initialize i w in
      elim (is_ok current) [
        | true ↦ initialize_sub_hals left (i + 1) result w'
        | false ↦ (current, w')
      ]

  abbrev pub is_complete : Handover → Bool
  is_complete h =
      h.event_flag_created
      && h.wakelock_flag_created
      && (h.has_callback && h.has_event_queue && h.has_wake_lock_queue && h.event_flag_is_set)

  unfoldable pub stop_threads : ℕ → Wakelock → Wakelock
  unfolding reset_shared_wakelock
  stop_threads ended w = reset_shared_wakelock ended (record w { threads_run = false })

  -- The parts of `initializeCommon`, none of which holds the mutex of the queue: up to
  -- `disableAllSensors`,
  unfoldable pub halt : ℕ → ℕ → HalProxy → W → HalProxy × W
  unfolding disable_all_sensors stop_threads reset_shared_wakelock
  halt ended now proxy w = (
    record proxy { wakelock = reset_shared_wakelock now (stop_threads ended proxy.wakelock) },
    disable_all_sensors proxy w,
  )

  -- `clear_pending` and `clear_size` above, and the rest.
  unfoldable pub restart : Handover → HalProxy → W → Result × HalProxy × W
  unfolding initialize_sub_hals
  restart h proxy w =
      let (result, w') = initialize_sub_hals S.size 0 (if is_complete h then ok else bad_value) w in
      (
        result,
        record proxy {
          dynamic_sensors = [];
          current_operation_mode = normal;
          wakelock = record proxy.wakelock { threads_run = true };
        },
        w',
      )

  -- The whole of it, while no other thread comes in between.
  unfoldable pub initialize_common : ℕ → ℕ → Handover → HalProxy → W → Result × HalProxy × W
  unfolding halt clear_pending clear_size restart
  initialize_common ended now h proxy w =
      let (stopped, w') = halt ended now proxy w in
      restart h (clear_size (clear_pending stopped)) w'

  -- `initialize_2_1` and `initialize`: the queues and the wrapper of the callback are made here, so
  -- they are there whatever the framework hands over as its callback.
  unfoldable pub initialize :
      ℕ → ℕ → Bool → Bool → Bool → Bool → HalProxy → W → Result × HalProxy × W
  initialize ended now event_flag_created wakelock_flag_created event_flag_is_set
        has_sensors_callback proxy w =
      initialize_common ended now
        (record {
          event_flag_created = event_flag_created;
          wakelock_flag_created = wakelock_flag_created;
          has_callback = true;
          has_event_queue = true;
          has_wake_lock_queue = true;
          event_flag_is_set = event_flag_is_set;
        })
        proxy w
